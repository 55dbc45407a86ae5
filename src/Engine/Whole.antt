-- ===== src/Engine/Whole.antt =====
-- lib/engine.py: `replicate` and `execute`, with the pause of sanoid and the point.
pub mod Untimed
pub mod Timer
pub mod Aborted
pub mod Reached
use zark.Base.{
  ℕ, zero, suc, Bool, true, false, not, ◌&&◌, ◌||◌, none, some, List, [], ◌∷◌, ◌++◌, map,
  if◌then◌else◌, select, Text, codes, text_eq, before, after,
}
use zark.Replication.Names.{is_under}
use zark.Replication.Model.{is_at_point, DatasetPlan}
use zark.Replication.Plan.{expected}
use zark.Retention.Prune.{target_of}
use zark.Engine.Model.{exec, look_origin, Event, Read, Env, Config, Run}
use zark.Engine.Drive.{survey, discard_stale_partials}
use zark.Engine.Rounds.{no_result, Raised, rounds, Result}
use zark.Engine.Verdicts.{drop_check}
use zark.Engine.Points.{anchor, anchor_held, drop_all, undo_point}

-- `Decide`: it asks the user, applies what is chosen, and says whether the run goes on.
abbrev pub Decide : Type 0
Decide = List DatasetPlan → Run → Bool × Run

abbrev pub aborted_by : Text → Result
aborted_by error = record no_result { aborted = true; error = error }

-- what follows the last survey
unfoldable pub finish : Env → Config → Result → Run → Result × Run
finish env c res r =
    let at_point = map (λ (p : DatasetPlan). p.rel) (select (λ p. is_at_point p.state) res.plans) in
    let made = anchor env c at_point r in
    let held = anchor_held env c made.1 in
    let checked = drop_check env c held.1 in
    let dropped = drop_all env checked.0 checked.1 in
    (record res { anchor_failed = made.0 }, dropped.1)

unfoldable pub verify : Env → Config → Result → Run → Result × Run
verify env c res r =
    let seen = survey env c r in
    elim seen.0 [
      | Read.error m ↦ (record res { unverified = m }, seen.1)
      | Read.given plans ↦ finish env c (record res { plans = plans }) seen.1
    ]

unfoldable pub after_rounds : Env → Config → Raised → Result × Run
after_rounds env c out = elim out.0 [
  | some m ↦ (record out.1 { unverified = m }, out.2)
  | none ↦ verify env c out.1 out.2
]

unfoldable pub decided : Env → Config → Decide → List DatasetPlan → Run → Result × Run
decided env c decide plans r =
    let out = decide plans r in
    if out.0
    then after_rounds env c (rounds env c no_result out.1)
    else (record no_result { aborted = true }, out.1)

-- the plans that the user is asked on: afresh, where a partial receive went
unfoldable pub replan : Env → Config → List DatasetPlan → Run → Read (List DatasetPlan) × Run
replan env c plans r =
    let gone = discard_stale_partials env c plans r in
    elim gone.0 [ [] ↦ (Read.given plans, gone.1) | rel ∷ rels ↦ survey env c gone.1 ]

unfoldable pub first_plans : Env → Config → Run → Read (List DatasetPlan) × Run
first_plans env c r =
    let seen = survey env c r in
    elim seen.0 [
      | Read.error m ↦ (Read.error m, seen.1)
      | Read.given plans ↦ replan env c plans seen.1
    ]

unfoldable pub replicate : Env → Config → Decide → Run → Result × Run
replicate env c decide r =
    let seen = first_plans env c r in
    elim seen.0 [
      | Read.error m ↦ (aborted_by m, seen.1)
      | Read.given plans ↦ decided env c decide plans seen.1
    ]

-- `_timer_was_active`, and the run
abbrev pub Timed : Type 0
Timed = Bool × Run

unfoldable pub stop_timer : Env → Run → Run
stop_timer env r = (exec env Event.stop_timer (exec env Event.write_marker r).1).1

-- The wait of `pause_sanoid`, with the turns of five seconds that are left of SANOID_WAIT_SECONDS.
unfoldable pub wait_units : ℕ → Env → Run → Bool × Run
wait_units zero env r = (not (env.units_busy r.trace), (exec env Event.ask_units r).1)
wait_units (suc n) env r =
    let asked = (exec env Event.ask_units r).1 in
    let more = wait_units n env (exec env Event.sleep asked).1 in
    if env.units_busy r.trace then more else (true, asked)

abbrev pub wait_turns : ℕ
wait_turns = 120

unfoldable pub pause_sanoid : Env → Run → Bool × Timed
pause_sanoid env r =
    let active = text_eq (env.timer r.trace) (codes "active") in
    let asked = (exec env Event.ask_timer r).1 in
    let left = not active && env.marker asked.trace in
    let waited = wait_units wait_turns env (if active then stop_timer env asked else asked) in
    (waited.0, (active || left, waited.1))

unfoldable pub resume_sanoid : Env → Timed → Timed
resume_sanoid env t =
    if t.0
    then (let out = exec env Event.start_timer t.1 in
        (false, if out.0 then (exec env Event.remove_marker out.1).1 else out.1))
    else t

unfoldable pub pool_targets : Config → List Text → Text → List Text
pool_targets c wanted pool =
    map (λ rel. target_of rel c.point) (select (λ rel. is_under rel pool) wanted)

unfoldable pub snapshot_pools : Env → Config → List Text → List Text → Run → Bool × Run
snapshot_pools env c wanted [] r = (true, r)
snapshot_pools env c wanted (pool ∷ pools) r =
    let names = pool_targets c wanted pool in
    let out = exec env (Event.snapshot names) r in
    let step : Bool × Run = elim names [ [] ↦ (true, r) | n ∷ ns ↦ out ] in
    let rest = snapshot_pools env c wanted pools step.1 in if step.0 then rest else (false, step.1)

unfoldable pub take_point : Env → Config → Run → Bool × Run
take_point env c r =
    let seen = look_origin env r in
    elim seen.0 [
      | Read.error m ↦ (false, seen.1)
      | Read.given origin ↦
          snapshot_pools env c (expected origin c.exclusions) c.pools
            (record seen.1 { origin = origin })
    ]

-- `undo_point` with the call of `resume_sanoid` at its end
unfoldable pub undo : Env → Config → Timed → Timed
undo env c t = resume_sanoid env (t.0, undo_point env c t.1)

unfoldable pub after_replicate : Env → Config → Bool → Result × Run → Result × Timed
after_replicate env c flag out =
    (out.0, if out.0.aborted then undo env c (flag, out.1) else (flag, out.1))

unfoldable pub with_point : Env → Config → Decide → Timed → Result × Timed
with_point env c decide t =
    let taken = take_point env c t.1 in
    if taken.0
    then after_replicate env c t.0 (replicate env c decide taken.1)
    else (aborted_by (codes "could not take " ++ c.point), undo env c (t.0, taken.1))

unfoldable pub before_point : Env → Config → Run → Bool × Run
before_point env c r = if c.has_before_point then exec env Event.copy_boot r else (true, r)

unfoldable pub paused : Env → Config → Decide → Timed → Result × Timed
paused env c decide t =
    let copied = before_point env c t.1 in
    if copied.0
    then with_point env c decide (t.0, copied.1)
    else (aborted_by (codes "could not copy /boot before the point"), (t.0, copied.1))

-- Its `finally` resumes sanoid on every way out.
unfoldable pub execute : Env → Config → Decide → Run → Result × Timed
execute env c decide r =
    let pause = pause_sanoid env r in
    let out : Result × Timed =
      if pause.0
      then paused env c decide pause.1
      else (aborted_by (codes "sanoid is still running after the wait"), pause.1) in
    (out.0, resume_sanoid env out.1)
