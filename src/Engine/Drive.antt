-- ===== src/Engine/Drive.antt =====
-- lib/engine.py: the survey of both sides, and what a run does on the drive.
pub mod Calm
use zark.Base.{
  ℕ, ◌+◌, Bool, true, false, not, ◌&&◌, ◌||◌, Option, none, some, List, [], ◌∷◌, ◌++◌, map, leb,
  if◌then◌else◌, select, any, find_first, get_last?, Dict, has_key, put, Text, codes, text_eq,
  starts_with, has_infix, mem_text, decimal,
}
use zark.Replication.Names.{is_under, parent, structural}
use zark.Replication.Model.{
  is_resume, is_new, is_at_point, transferable, Origin, Dest, State, DatasetPlan,
}
use zark.Replication.Plan.{is_excluded, plan}
use zark.Retention.Prune.{sorted_items}
use zark.Reclaim.Measure.{join, in_pool}
use zark.Engine.Model.{
  exec, look_origin, look_dest, Stream, Event, Read, Printed, Env, Config, Run, Outcome,
}
use mathlib.Core.List.{reverse}
use zark.Engine.Sends.{is_nonempty, token_of, send_args}

unfoldable pub is_held : Text → Dict Dest → Bool
is_held pool dest = any (λ (e : Text × Dest). is_under e.0 pool) dest

unfoldable pub is_missing : Config → Dict Dest → Text → Bool
is_missing c dest pool =
    is_held pool dest
    && (not (mem_text pool c.pools) && not (text_eq pool (codes "bpool") && c.ext4))

unfoldable pub plan_survey : Config → Dict Origin → Dict Dest → Read (List DatasetPlan)
plan_survey c origin dest =
    elim (find_first (is_missing c dest) (codes "rpool" ∷ codes "bpool" ∷ [])) [
      | some pool ↦ Read.error (
          pool
          ++ (codes " is not imported, and "
              ++ (c.pool
                  ++ (codes " holds its backup (import it first: sudo zpool import "
                      ++ (pool ++ codes ")")))))
      | none ↦ Read.given (plan origin dest c.point c.exclusions)
    ]

unfoldable pub survey_dest : Env → Config → Dict Origin → Run → Read (List DatasetPlan) × Run
survey_dest env c origin r =
    let seen = look_dest env (record r { origin = origin }) in
    elim seen.0 [
      | Read.error m ↦ (Read.error m, seen.1)
      | Read.given dest ↦ (plan_survey c origin dest, record seen.1 { dest = dest })
    ]

unfoldable pub survey : Env → Config → Run → Read (List DatasetPlan) × Run
survey env c r =
    let seen = look_origin env r in
    elim seen.0 [
      | Read.error m ↦ (Read.error m, seen.1)
      | Read.given origin ↦ survey_dest env c origin seen.1
    ]

unfoldable pub lstrip : Text → Text
lstrip [] = []
lstrip (x ∷ s) = let rest = lstrip s in if leb x b' ' then rest else x ∷ s

unfoldable pub strip : Text → Text
strip s = reverse (lstrip (reverse (lstrip s)))

-- from the last line that starts with "cannot "
unfoldable pub from_cannot : List Text → Option (List Text)
from_cannot [] = none
from_cannot (l ∷ lines) = elim (from_cannot lines) [
  | some found ↦ some found
  | none ↦ if starts_with (codes "cannot ") l then some (l ∷ lines) else none
]

-- of the lines of standard error
unfoldable pub last_message : List Text → Text
last_message stderr =
    let lines = select is_nonempty (map strip stderr) in
    elim (from_cannot lines) [
      | some found ↦ join b' ' found
      | none ↦ elim (get_last? lines) [ none ↦ [] | some l ↦ l ]
    ]

unfoldable pub pipe_message : Printed → Text
pipe_message m = elim (m.left ++ m.right) [
  | [] ↦ last_message m.stderr
  | l ∷ lines ↦
      let left = last_message m.left in
      let right = last_message m.right in
      if is_nonempty left && is_nonempty right then left ++ (codes "; " ++ right) else left ++ right
]

unfoldable pub to_lower : ℕ → ℕ
to_lower x = if leb b'A' x && leb x b'Z' then x + 32 else x

abbrev pub enospc_markers : List Text
enospc_markers =
    codes "no space left on device"
    ∷ codes "out of space"
    ∷ codes "enospc"
    ∷ codes "disk quota exceeded"
    ∷ []

unfoldable pub is_enospc : List Text → Bool
is_enospc lines = any (λ l. any (λ m. has_infix m (map to_lower l)) enospc_markers) lines

unfoldable pub dst : Config → Text → Text
dst c rel = in_pool c.pool rel

-- `str(state)`
unfoldable pub state_text : State → Text
state_text State.at_point = codes "at point"
state_text State.resume = codes "resume"
state_text State.new = codes "new"
state_text State.incremental = codes "incremental"
state_text State.via_bookmark = codes "via bookmark"
state_text State.rollback = codes "rollback"
state_text State.diverged = codes "diverged"
state_text State.modified = codes "modified on backup"
state_text State.orphan = codes "only on backup"
state_text State.excluded = codes "excluded"

unfoldable pub sent_ok : Text → Outcome
sent_ok rel = record { rel = rel; ok = true; error = []; enospc = false }

unfoldable pub not_sent : Text → Text → Outcome
not_sent rel error = record { rel = rel; ok = false; error = error; enospc = false }

unfoldable pub failed_send : Text → Printed → Outcome
failed_send rel m =
    let message = pipe_message m in
    record {
      rel = rel;
      ok = false;
      error = if is_nonempty message then message else codes "rc=" ++ decimal m.returncode;
      enospc = is_enospc m.stderr || is_enospc m.stdout;
    }

-- the loop of `transfer`
unfoldable pub send_all : Env → Config → Text → Bool → Text → List Stream → Run → Outcome × Run
send_all env c rel resume clone [] r = (sent_ok rel, r)
send_all env c rel resume clone (s ∷ streams) r =
    let e = Event.send s (dst c rel) resume clone in
    let out = exec env e r in
    let rest = send_all env c rel resume clone streams out.1 in
    if out.0 then rest else (failed_send rel (env.printed r.trace e), out.1)

unfoldable pub transfer : Env → Config → DatasetPlan → Run → Outcome × Run
transfer env c p r =
    if is_at_point p.state
    then (sent_ok p.rel, r)
    else if not (transferable p.state)
    then (not_sent p.rel (codes "not transferable (" ++ (state_text p.state ++ codes ")")), r)
    else send_all env c p.rel (is_resume p.state) (if is_new p.state then p.clone_from else [])
        (send_args c r p false) (record r { started = p.rel ∷ r.started })

abbrev pub gone_texts : List Text
gone_texts = codes "no longer exists" ∷ codes "is no longer the same snapshot" ∷ []

-- Why a partial receive can never be resumed, "" when it may be.
unfoldable pub resume_impossible : Env → Text → Run → Text × Run
resume_impossible env rel r =
    let token = token_of rel r.dest in
    if is_nonempty token
    then (let out = exec env (Event.probe token) r in
        let message = last_message (env.printed r.trace (Event.probe token)).stderr in
        if out.0
        then ([], out.1)
        else (if any (λ g. has_infix g message) gone_texts then message else [], out.1))
    else ([], r)

unfoldable pub abort_partial : Env → Config → Text → Run → Bool × Run
abort_partial env c rel r = exec env (Event.receive_abort (dst c rel)) r

-- `why and self.abort_partial(rel)`: whether the partial receive went, and why it cannot be resumed
unfoldable pub discard_one : Env → Config → Text → Run → Bool × Text × Run
discard_one env c rel r =
    let why = resume_impossible env rel r in
    let out = abort_partial env c rel why.1 in
    if is_nonempty why.0 then (out.0, why.0, out.1) else (false, [], why.1)

unfoldable pub discard_stale_partials : Env → Config → List DatasetPlan → Run → List Text × Run
discard_stale_partials env c [] r = ([], r)
discard_stale_partials env c (p ∷ plans) r =
    let out : Bool × Text × Run =
      if is_resume p.state then discard_one env c p.rel r else (false, [], r) in
    let rest = discard_stale_partials env c plans out.2 in
    if out.0 then (p.rel ∷ rest.0, rest.1) else rest

-- one turn of the loops that drop a "kept" mark: `zfs inherit` where `marked` says so
unfoldable pub clear_mark :
    Env → Config → Text → (Dest → Dest) → Bool → Text × Dest → Run → List Text × Run
clear_mark env c prop clear marked e r =
    let out = exec env (Event.inherit prop (dst c e.0)) r in
    if marked
    then (if out.0
        then (e.0 ∷ [], record out.1 { dest = put e.0 (clear e.1) out.1.dest })
        else ([], out.1))
    else ([], r)

unfoldable pub clear_marks :
    Env → Config → Text → (Dest → Dest) → (Text × Dest → Bool) → Dict Dest → Run → List Text × Run
clear_marks env c prop clear marked [] r = ([], r)
clear_marks env c prop clear marked (e ∷ items) r =
    let one = clear_mark env c prop clear (marked e) e r in
    let rest = clear_marks env c prop clear marked items one.1 in (one.0 ++ rest.0, rest.1)

unfoldable pub clear_orphan_marks : Env → Config → Run → List Text × Run
clear_orphan_marks env c r =
    clear_marks env c (codes "org.zark:orphan") (λ d. record d { orphan = [] })
      (λ e. is_nonempty e.1.orphan && has_key e.0 r.origin) (sorted_items r.dest) r

unfoldable pub clear_excluded_kept : Env → Config → Run → List Text × Run
clear_excluded_kept env c r =
    clear_marks env c (codes "org.zark:excluded-kept") (λ d. record d { excluded_kept = [] })
      (λ e. is_nonempty e.1.excluded_kept && not (is_excluded e.0 c.exclusions))
      (sorted_items r.dest) r

-- `Dest(rel)`, with the defaults of its fields
abbrev pub bare_dest : Text → Dest
bare_dest rel = record {
  rel = rel;
  kind = codes "filesystem";
  token = [];
  orphan = [];
  excluded_kept = [];
  used = 0;
  written = 0;
  snaps = [];
  clone_of = [];
}

unfoldable pub ensure_container : Env → Config → Text → Run → List Text × Run
ensure_container env c rel r =
    let up = parent rel in
    let out = exec env (Event.create (dst c rel)) r in
    if not (has_key rel r.origin) || has_key rel r.dest
    then ([], r)
    else if is_nonempty up && not (has_key up r.dest)
    then (rel ∷ [], r)
    else if out.0
    then ([], record out.1 { dest = put rel (bare_dest rel) out.1.dest })
    else (rel ∷ [], out.1)

unfoldable pub ensure_all : Env → Config → List Text → Run → List Text × Run
ensure_all env c [] r = ([], r)
ensure_all env c (rel ∷ rels) r =
    let one = ensure_container env c rel r in
    let rest = ensure_all env c rels one.1 in (one.0 ++ rest.0, rest.1)

unfoldable pub ensure_containers : Env → Config → Run → List Text × Run
ensure_containers env c r = ensure_all env c structural r
