-- ===== src/Engine/Rounds.antt =====
-- lib/engine.py: the rounds of transfers, and the result of a run.
pub mod Calm
pub mod Blocked
use zark.Base.{
  ℕ, zero, suc, ◌+◌, ◌/◌, Bool, true, false, not, ◌&&◌, ◌||◌, Option, none, some, List, [], ◌∷◌,
  ◌++◌, ltb, ◌==◌, if◌then◌else◌, length, select, sort_by, Dict, put, Text, codes, text_le,
  mem_text,
}
use zark.Replication.Names.{parent}
use zark.Replication.Model.{is_resume, is_new, is_at_point, transferable, DatasetPlan}
use zark.Replication.Plan.{reached}
use zark.Engine.Model.{Read, Env, Config, Run, Outcome}
use zark.Engine.Sends.{is_nonempty}
use zark.Engine.Drive.{
  survey, not_sent, transfer, discard_one, clear_orphan_marks, clear_excluded_kept,
  ensure_containers,
}

-- `(p.rel.count("/"), p.rel)`
unfoldable pub count_char : ℕ → Text → ℕ
count_char x [] = 0
count_char x (y ∷ s) = (if x == y then 1 else 0) + count_char x s

unfoldable pub depth_le : DatasetPlan → DatasetPlan → Bool
depth_le p q =
    let m = count_char b'/' p.rel in
    let n = count_char b'/' q.rel in if ltb m n then true else m == n && text_le p.rel q.rel

unfoldable pub depth_order : List DatasetPlan → List DatasetPlan
depth_order plans = sort_by depth_le plans

-- The loop of `blocked_by_parent` over `up`; a parent is shorter, so the length is enough fuel.
unfoldable pub blocked_go : ℕ → Text → List Text → Bool
blocked_go zero up failed = false
blocked_go (suc f) up failed =
    let above = blocked_go f (parent up) failed in
    if is_nonempty up then mem_text up failed || above else false

unfoldable pub blocked_by_parent : Text → List Text → Bool
blocked_by_parent rel failed = blocked_go (length rel) (parent rel) failed

pub record Result : Type 0 where
  pub plans : List DatasetPlan
  pub outcomes : Dict Outcome
  pub anchor_failed : List Text
  pub aborted : Bool
  pub enospc : Bool
  pub error : Text
  pub unverified : Text
  pub stale : Text

abbrev pub no_result : Result
no_result = record {
  plans = [];
  outcomes = [];
  anchor_failed = [];
  aborted = false;
  enospc = false;
  error = [];
  unverified = [];
  stale = [];
}

-- `Result.ok`
unfoldable pub is_success : Result → Bool
is_success res =
    not res.aborted
    && (not (is_nonempty res.unverified)
        && (not (is_nonempty res.stale)
            && (elim res.plans [ [] ↦ false | p ∷ ps ↦ reached res.plans ])))

-- The variables of a round: `failed`, `again`, `res` and the run.
pub record Turn : Type 0 where
  pub failed : List Text
  pub again : Bool
  pub res : Result
  pub run : Run

unfoldable pub set_outcome : Outcome → Turn → Turn
set_outcome out t = record t { res = record t.res { outcomes = put out.rel out t.res.outcomes } }

unfoldable pub mark_failed : Outcome → Turn → Turn
mark_failed out t = record (set_outcome out t) { failed = out.rel ∷ t.failed }

abbrev pub kept_text : Text
kept_text = codes "; partial receive kept, run backup again"

-- a partial receive that failed: it goes where it can never be resumed
unfoldable pub after_resume : Env → Config → Outcome → Turn → Turn
after_resume env c out t =
    let gone = discard_one env c out.rel t.run in
    if gone.0
    then record t { again = true; run = gone.2 }
    else if is_nonempty gone.1
    then record t { run = gone.2 }
    else set_outcome (record out { error = out.error ++ kept_text }) (record t { run = gone.2 })

unfoldable pub after_failure : Env → Config → DatasetPlan → Outcome → Turn → Turn
after_failure env c p out t =
    if out.enospc
    then record t { res = record t.res { enospc = true } }
    else if is_resume p.state
    then after_resume env c out t
    else t

unfoldable pub attempt : Env → Config → DatasetPlan → Turn → Turn
attempt env c p t =
    let sent = transfer env c p t.run in
    let t' = record t { run = sent.1 } in
    if sent.0.ok
    then record (set_outcome sent.0 t') { again = t.again || is_resume p.state }
    else after_failure env c p sent.0 (mark_failed sent.0 t')

-- Only a NEW child needs its parent on the drive.
unfoldable pub is_blocked : DatasetPlan → List Text → Bool
is_blocked p failed = is_new p.state && blocked_by_parent p.rel failed

unfoldable pub take_turn : Env → Config → DatasetPlan → Turn → Turn
take_turn env c p t =
    if is_blocked p t.failed
    then mark_failed (not_sent p.rel (codes "parent did not reach the point")) t
    else attempt env c p t

-- One round over what is to do; it stops where the drive is full.
unfoldable pub one_round : Env → Config → List DatasetPlan → Turn → Turn
one_round env c [] t = t
one_round env c (p ∷ todo) t =
    let t' = take_turn env c p t in
    let rest = one_round env c todo t' in if t'.res.enospc then t' else rest

unfoldable pub todo_of : List DatasetPlan → List DatasetPlan
todo_of plans = select (λ p. transferable p.state && not (is_at_point p.state)) (depth_order plans)

-- the error that was raised, with what was done until then
abbrev pub Raised : Type 0
Raised = Option Text × Result × Run

-- the loop of `_rounds`, with the rounds that are left
unfoldable pub rounds_go : ℕ → Env → Config → Result → Run → Raised
rounds_go zero env c res r = (none, res, r)
rounds_go (suc n) env c res r =
    let seen = survey env c r in
    elim seen.0 [
      | Read.error m ↦ (some m, res, seen.1)
      | Read.given plans ↦ elim (todo_of plans) [
        | [] ↦ (none, record res { plans = plans }, seen.1)
        | p ∷ todo ↦
            let t = one_round env c (p ∷ todo) (record {
              failed = [];
              again = false;
              res = record res { plans = plans };
              run = seen.1;
            }) in
            let more = rounds_go n env c t.res t.run in
            if t.res.enospc || not t.again then (none, t.res, t.run) else more
      ]
    ]

abbrev pub max_rounds : ℕ
max_rounds = 3

unfoldable pub rounds : Env → Config → Result → Run → Raised
rounds env c res r =
    let seen = survey env c r in
    elim seen.0 [
      | Read.error m ↦ (some m, res, seen.1)
      | Read.given plans ↦
          let orphans_cleared = clear_orphan_marks env c seen.1 in
          let kept_cleared = clear_excluded_kept env c orphans_cleared.1 in
          let made = ensure_containers env c kept_cleared.1 in
          rounds_go max_rounds env c (record res { plans = plans }) made.1
    ]
