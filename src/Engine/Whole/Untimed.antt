-- ===== src/Engine/Whole/Untimed.antt =====
-- The parts of `replicate` leave the timer alone.
use zark.Base.{
  refl, inl, inr, Bool, true, false, List, [], ◌∷◌, if◌then◌else◌, Bool-cases, Option-cases,
  List-cases, Text,
}
use zark.Replication.Model.{DatasetPlan}
use zark.Engine.Model.{
  Trace, Read-cases, look_origin, Adds-trans, is_untimed, is_calm, Event, Env, Config, Run, Adds,
}
use zark.Engine.Drive.{survey, discard_stale_partials}
use zark.Engine.Rounds.{no_result, rounds}
use zark.Engine.Whole.{
  Decide, finish, verify, after_rounds, decided, replan, first_plans, replicate, pool_targets,
  snapshot_pools, take_point,
}
use zark.Engine.Drive.Calm.{
  Calmly, look_origin-Calmly, survey-Calmly, discard_stale_partials-Calmly,
}
use zark.Engine.Rounds.Calm.{rounds-Calmly}
use zark.Engine.Points.Untimed.{
  Untimed, quiet, exec-Untimed, anchor-Untimed, anchor_held-Untimed, drop_check-Untimed,
  drop_all-Untimed,
}

same : {w : Trace} → Adds is_untimed w w
same = Adds.none_added

either :
    {A : Type 0} {w : Trace} (b : Bool) (x y : A × Run)
    → Adds is_untimed w x.1.trace
    → Adds is_untimed w y.1.trace
    → Adds is_untimed w (if b then x else y).1.trace
either true x y a b = a
either false x y a b = b

snapshot_pools-Untimed :
    (env : Env) (c : Config) (wanted pools : List Text) (r : Run)
    → Untimed r (snapshot_pools env c wanted pools r).1
unfolding snapshot_pools
snapshot_pools-Untimed env c wanted [] r = same
snapshot_pools-Untimed env c wanted (pool ∷ pools) r =
    elim (List-cases (pool_targets c wanted pool)) [
      | inl e ↦ rw e (snapshot_pools-Untimed env c wanted pools r)
      | inr (n, ns, e) ↦
          let one = exec-Untimed env (Event.snapshot (pool_targets c wanted pool)) r refl in
          rw e (either _ _ _ (Adds-trans one (snapshot_pools-Untimed env c wanted pools _)) one)
    ]

pub take_point-Untimed : (env : Env) (c : Config) (r : Run) → Untimed r (take_point env c r).1
unfolding take_point look_origin
take_point-Untimed env c r =
    let seen = look_origin env r in
    let first = quiet (look_origin-Calmly env r) in
    elim (Read-cases seen.0) [
      | inl (m, e) ↦ rw e first
      | inr (o, e) ↦ rw e (Adds-trans first (snapshot_pools-Untimed env c _ c.pools _))
    ]

pub decided-Untimed :
    (env : Env) (c : Config) (decide : Decide)
    → ((plans : List DatasetPlan) (r : Run) → Calmly r (decide plans r).1)
    → (plans : List DatasetPlan) (r : Run) → Untimed r (decided env c decide plans r).1
unfolding decided after_rounds verify finish survey look_origin
decided-Untimed env c decide h plans r =
    let out = decide plans r in
    let asked = quiet (h plans r) in
    let raised = rounds env c no_result out.1 in
    let sent = Adds-trans asked (quiet (rounds-Calmly env c no_result out.1)) in
    let seen = survey env c raised.2 in
    let checked = Adds-trans sent (quiet (survey-Calmly env c raised.2)) in
    elim (Bool-cases out.0) [
      | inr n ↦ rw n asked
      | inl y ↦ elim (Option-cases raised.0) [
        | inr (m, e) ↦ rw (y, e) sent
        | inl e ↦ elim (Read-cases seen.0) [
          | inl (m, f) ↦ rw (y, e, f) checked
          | inr (rows, f) ↦
              rw (y, e, f)
                (Adds-trans checked (
                  Adds-trans (anchor-Untimed env c _ seen.1) (
                    Adds-trans (anchor_held-Untimed env c _)
                      (Adds-trans (drop_check-Untimed env c _) (drop_all-Untimed env _ _)))))
        ]
      ]
    ]

replan-Calmly :
    (env : Env) (c : Config) (plans : List DatasetPlan) (r : Run)
    → Adds is_calm r.trace (replan env c plans r).1.trace
unfolding replan
replan-Calmly env c plans r =
    let gone = discard_stale_partials env c plans r in
    let one = discard_stale_partials-Calmly env c plans r in
    elim (List-cases gone.0) [
      | inl f ↦ rw (replan, f) one
      | inr (rel, rels, f) ↦ rw (replan, f) (Adds-trans one (survey-Calmly env c gone.1))
    ]

pub first_plans-Calmly :
    (env : Env) (c : Config) (r : Run) → Adds is_calm r.trace (first_plans env c r).1.trace
unfolding first_plans survey look_origin
first_plans-Calmly env c r =
    let seen = survey env c r in
    let first = survey-Calmly env c r in
    elim (Read-cases seen.0) [
      | inl (m, e) ↦ rw e first
      | inr (plans, e) ↦ rw e (Adds-trans first (replan-Calmly env c plans seen.1))
    ]

pub replicate-Untimed :
    (env : Env) (c : Config) (decide : Decide)
    → ((plans : List DatasetPlan) (r : Run) → Calmly r (decide plans r).1)
    → (r : Run) → Untimed r (replicate env c decide r).1
unfolding replicate first_plans survey look_origin
replicate-Untimed env c decide h r =
    let seen = first_plans env c r in
    let first = quiet (first_plans-Calmly env c r) in
    elim (Read-cases seen.0) [
      | inl (m, e) ↦ rw e first
      | inr (plans, e) ↦ rw e (Adds-trans first (decided-Untimed env c decide h plans seen.1))
    ]
