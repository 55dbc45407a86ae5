-- ===== src/Engine/Rounds/Calm.antt =====
-- The rounds of transfers leave origin alone.
use zark.Base.{
  ℕ, zero, suc, inl, inr, Bool, true, false, not, ◌||◌, List, [], ◌∷◌, if◌then◌else◌, Bool-cases,
  List-cases,
}
use zark.Replication.Model.{is_resume, DatasetPlan}
use zark.Engine.Model.{
  Trace, Read-cases, look_origin, Adds-trans, is_calm, Env, Config, Run, Outcome, Adds,
}
use zark.Engine.Sends.{is_nonempty}
use zark.Engine.Drive.{
  survey, transfer, discard_one, clear_orphan_marks, clear_excluded_kept, ensure_containers,
}
use zark.Engine.Rounds.{
  set_outcome, mark_failed, after_resume, after_failure, attempt, is_blocked, take_turn, one_round,
  todo_of, rounds_go, max_rounds, rounds, Result, Turn,
}
use zark.Engine.Drive.Calm.{
  Calmly, survey-Calmly, transfer-Calmly, discard_one-Calmly, clear_marks-Calmly, ensure_all-Calmly,
}

same : {w : Trace} → Adds is_calm w w
same = Adds.none_added

-- A turn, of the run that it holds.
abbrev TurnCalmly : Turn → Turn → Type 0
TurnCalmly t t' = Calmly t.run t'.run

either_turn :
    {w : Trace} (b : Bool) (x y : Turn)
    → Adds is_calm w x.run.trace
    → Adds is_calm w y.run.trace
    → Adds is_calm w (if b then x else y).run.trace
either_turn true x y a b = a
either_turn false x y a b = b

after_resume-Calmly :
    (env : Env) (c : Config) (out : Outcome) (t : Turn) → TurnCalmly t (after_resume env c out t)
unfolding after_resume set_outcome
after_resume-Calmly env c out t =
    let gone = discard_one env c out.rel t.run in
    let one = discard_one-Calmly env c out.rel t.run in
    elim (Bool-cases gone.0) [
      | inl a ↦ rw a one
      | inr a ↦ elim (Bool-cases (is_nonempty gone.1)) [
        | inl b ↦ rw (a, b) one
        | inr b ↦ rw (a, b) one
      ]
    ]

after_failure-Calmly :
    (env : Env) (c : Config) (p : DatasetPlan) (out : Outcome) (t : Turn)
    → TurnCalmly t (after_failure env c p out t)
unfolding after_failure
after_failure-Calmly env c p out t =
    either_turn out.enospc _ _ same
      (either_turn (is_resume p.state) _ _ (after_resume-Calmly env c out t) same)

attempt-Calmly :
    (env : Env) (c : Config) (p : DatasetPlan) (t : Turn) → TurnCalmly t (attempt env c p t)
unfolding attempt set_outcome mark_failed
attempt-Calmly env c p t =
    let sent = transfer env c p t.run in
    let one = transfer-Calmly env c p t.run in
    elim (Bool-cases sent.0.ok) [
      | inl a ↦ rw a one
      | inr a ↦ rw a (Adds-trans one (after_failure-Calmly env c p sent.0 _))
    ]

take_turn-Calmly :
    (env : Env) (c : Config) (p : DatasetPlan) (t : Turn) → TurnCalmly t (take_turn env c p t)
unfolding take_turn mark_failed set_outcome
take_turn-Calmly env c p t = elim (Bool-cases (is_blocked p t.failed)) [
  | inl a ↦ rw a same
  | inr a ↦ rw a (attempt-Calmly env c p t)
]

one_round-Calmly :
    (env : Env) (c : Config) (todo : List DatasetPlan) (t : Turn)
    → TurnCalmly t (one_round env c todo t)
unfolding one_round
one_round-Calmly env c [] t = same
one_round-Calmly env c (p ∷ todo) t =
    let t' = take_turn env c p t in
    let one = take_turn-Calmly env c p t in
    either_turn t'.res.enospc _ _ one (Adds-trans one (one_round-Calmly env c todo t'))

rounds_go-Calmly :
    (n : ℕ) (env : Env) (c : Config) (res : Result) (r : Run) → Calmly r (rounds_go n env c res r).2
unfolding rounds_go survey look_origin
rounds_go-Calmly zero env c res r = same
rounds_go-Calmly (suc n) env c res r =
    let seen = survey env c r in
    let first = survey-Calmly env c r in
    elim (Read-cases seen.0) [
      | inl (m, e) ↦ rw e first
      | inr (plans, e) ↦ elim (List-cases (todo_of plans)) [
        | inl d ↦ rw (e, d) first
        | inr (p, todo, d) ↦
            let t0 : Turn = record {
              failed = [];
              again = false;
              res = record res { plans = plans };
              run = seen.1;
            } in
            let t = one_round env c (p ∷ todo) t0 in
            let one = Adds-trans first (one_round-Calmly env c (p ∷ todo) t0) in
            elim (Bool-cases (t.res.enospc || not t.again)) [
              | inl a ↦ rw (e, d, a) one
              | inr a ↦ rw (e, d, a) (Adds-trans one (rounds_go-Calmly n env c t.res t.run))
            ]
      ]
    ]

pub rounds-Calmly :
    (env : Env) (c : Config) (res : Result) (r : Run) → Calmly r (rounds env c res r).2
unfolding rounds clear_orphan_marks clear_excluded_kept ensure_containers survey look_origin
rounds-Calmly env c res r =
    let seen = survey env c r in
    let first = survey-Calmly env c r in
    elim (Read-cases seen.0) [
      | inl (m, e) ↦ rw e first
      | inr (plans, e) ↦ rw e (
          Adds-trans first (
            Adds-trans (clear_marks-Calmly env c _ _ _ _ seen.1) (
              Adds-trans (clear_marks-Calmly env c _ _ _ _ _) (
                Adds-trans (ensure_all-Calmly env c _ _) (rounds_go-Calmly max_rounds env c _ _)))))
    ]
