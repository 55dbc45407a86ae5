-- ===== src/Engine/Whole/Reached.antt =====
-- I-D of a whole run: a success means that the drive holds the point.
use mathlib.Core.Path.{subst}
use zark.Base.{
  ℕ, zero, suc, ◌≡◌, refl, inl, inr, true, false, not, ◌||◌, some, List, [], ◌∷◌, ◌++◌, arith,
  Bool-cases, Option-cases, Elem, List-cases, all, find_first, Dict, get, Text, codes,
}
use zark.Replication.Model.{Origin, Dest, DatasetPlan}
use zark.Replication.Plan.{expected, plan, reached}
use zark.Engine.Model.{Trace, Read-cases, look_origin, look_dest, Event, Read, Env, Config, Run}
use zark.Engine.Sends.{is_nonempty}
use zark.Engine.Drive.{is_missing, plan_survey, survey_dest, survey}
use zark.Engine.Rounds.{
  no_result, is_success, one_round, todo_of, rounds_go, max_rounds, rounds, Result, Turn,
}
use zark.Engine.Whole.{
  Decide, aborted_by, finish, verify, after_rounds, decided, first_plans, replicate, pause_sanoid,
  take_point, after_replicate, with_point, before_point, paused, execute,
}
use zark.Replication.Plan.Rows.{reached-plan}
use zark.Replication.Dataset.States.{HoldsPoint}

-- A listing that fails says why.
pub record SaysWhy (env : Env) : Type 0 where
  pub of_origin : (w : Trace) (m : Text) → env.origin w ≡ Read.error m → is_nonempty m ≡ true
  pub of_dest : (w : Trace) (m : Text) → env.dest w ≡ Read.error m → is_nonempty m ≡ true

is_nonempty-append : (s t : Text) → is_nonempty t ≡ true → is_nonempty (s ++ t) ≡ true
unfolding is_nonempty
is_nonempty-append [] t h = h
is_nonempty-append (x ∷ s) t h = refl

-- What two reads, one behind the other, gave of both sides.
pub record Listed (env : Env) (origin : Dict Origin) (dest : Dict Dest) : Type 0 where
  pub before : Trace
  pub gave_origin : env.origin before ≡ Read.given origin
  pub gave_dest : env.dest (Event.read_origin ∷ before) ≡ Read.given dest

-- The answer of a survey: the rows of the plan of what it listed, or why it failed.
abbrev Answers : Env → Config → Read (List DatasetPlan) → Type 0
Answers env c (Read.error m) = is_nonempty m ≡ true
Answers env c (Read.given plans) =
    (origin : Dict Origin) × (dest : Dict Dest) × Listed env origin dest
    × (plans ≡ plan origin dest c.point c.exclusions)

plan_survey-Answers :
    (env : Env) (c : Config) (origin : Dict Origin) (dest : Dict Dest)
    → Listed env origin dest
    → Answers env c (plan_survey c origin dest)
unfolding plan_survey is_nonempty
plan_survey-Answers env c origin dest l =
    elim (Option-cases (find_first (is_missing c dest) (codes "rpool" ∷ codes "bpool" ∷ []))) [
      | inl e ↦ rw (plan_survey, e) ((origin, dest, l, refl))
      | inr (pool, e) ↦ rw (plan_survey, e) (is_nonempty-append pool _ refl)
    ]

survey-Answers : (env : Env) (c : Config) (r : Run) → SaysWhy env → Answers env c (survey env c r).0
unfolding survey survey_dest look_origin look_dest
survey-Answers env c r why = elim (Read-cases (env.origin r.trace)) [
  | inl (m, e) ↦ rw e (why.of_origin r.trace m e)
  | inr (origin, e) ↦ elim (Read-cases (env.dest (Event.read_origin ∷ r.trace))) [
    | inl (m, f) ↦ rw (e, f) (why.of_dest (Event.read_origin ∷ r.trace) m f)
    | inr (dest, f) ↦
        rw (e, f)
          (plan_survey-Answers env c origin dest
            (record { before = r.trace; gave_origin = e; gave_dest = f }))
  ]
]

survey_error :
    (env : Env) (c : Config) (r : Run) (m : Text)
    → SaysWhy env
    → (survey env c r).0 ≡ Read.error m
    → is_nonempty m ≡ true
survey_error env c r m why e = subst (Answers env c) e (survey-Answers env c r why)

rounds_go_error :
    (n : ℕ) (env : Env) (c : Config) (res : Result) (r : Run) (m : Text)
    → SaysWhy env
    → (rounds_go n env c res r).0 ≡ some m
    → is_nonempty m ≡ true
unfolding rounds_go survey look_origin
rounds_go_error zero env c res r m why h = absurd (ground arith)
rounds_go_error (suc n) env c res r m why h =
    let seen = survey env c r in
    elim (Read-cases seen.0) [
      | inl (x, e) ↦
          let same : x ≡ m = ground (arith, rw e at h) in rw (← same) (survey_error env c r x why e)
      | inr (plans, e) ↦ elim (List-cases (todo_of plans)) [
        | inl d ↦ absurd (ground (arith, rw (e, d) at h))
        | inr (p, todo, d) ↦
            let t0 : Turn = record {
              failed = [];
              again = false;
              res = record res { plans = plans };
              run = seen.1;
            } in
            let t = one_round env c (p ∷ todo) t0 in
            elim (Bool-cases (t.res.enospc || not t.again)) [
              | inl a ↦ absurd (ground (arith, rw (e, d, a) at h))
              | inr a ↦ rounds_go_error n env c t.res t.run m why (rw (e, d, a) at h)
            ]
      ]
    ]

rounds_error :
    (env : Env) (c : Config) (res : Result) (r : Run) (m : Text)
    → SaysWhy env
    → (rounds env c res r).0 ≡ some m
    → is_nonempty m ≡ true
unfolding rounds survey look_origin
rounds_error env c res r m why h =
    let seen = survey env c r in
    elim (Read-cases seen.0) [
      | inl (x, e) ↦
          let same : x ≡ m = ground (arith, rw e at h) in rw (← same) (survey_error env c r x why e)
      | inr (plans, e) ↦ rounds_go_error max_rounds env c _ _ m why (rw e at h)
    ]

-- What a success says of the rows of the last survey.
abbrev Succeeds : Env → Config → Result → Type 0
Succeeds env c res =
    (origin : Dict Origin) × (dest : Dict Dest) × Listed env origin dest
    × (reached (plan origin dest c.point c.exclusions) ≡ true)

not_success : (res : Result) → res.aborted ≡ true → is_success res ≡ true → ⊥
unfolding is_success
not_success res a h = ground arith

not_success_unverified :
    (res : Result) → is_nonempty res.unverified ≡ true → is_success res ≡ true → ⊥
unfolding is_success
not_success_unverified res a h = ground arith

success-reached : (res : Result) → is_success res ≡ true → reached res.plans ≡ true
unfolding is_success
success-reached res h = elim (List-cases res.plans) [
  | inl e ↦ absurd (ground arith)
  | inr (p, ps, e) ↦ ground arith
]

verify-Succeeds :
    (env : Env) (c : Config) (res : Result) (r : Run)
    → SaysWhy env
    → is_success (verify env c res r).0 ≡ true
    → Succeeds env c (verify env c res r).0
unfolding verify finish survey look_origin
verify-Succeeds env c res r why h =
    let seen = survey env c r in
    elim (Read-cases seen.0) [
      | inl (m, e) ↦ absurd (
          not_success_unverified (record res { unverified = m }) (survey_error env c r m why e)
            (rw e at h))
      | inr (plans, e) ↦
          let (origin, dest, l, p) = subst (Answers env c) e (survey-Answers env c r why) in
          (
            origin,
            dest,
            l,
            subst (λ x. reached x ≡ true) p
                (success-reached (finish env c (record res { plans = plans }) seen.1).0
                  (rw e at h)),
          )
    ]

decided-Succeeds :
    (env : Env) (c : Config) (decide : Decide) (plans : List DatasetPlan) (r : Run)
    → SaysWhy env
    → is_success (decided env c decide plans r).0 ≡ true
    → Succeeds env c (decided env c decide plans r).0
unfolding decided after_rounds
decided-Succeeds env c decide plans r why h =
    let out = decide plans r in
    let raised = rounds env c no_result out.1 in
    elim (Bool-cases out.0) [
      | inr n ↦ absurd (not_success (record no_result { aborted = true }) refl (rw n at h))
      | inl y ↦ elim (Option-cases raised.0) [
        | inr (m, e) ↦ absurd (
            not_success_unverified (record raised.1 { unverified = m })
              (rounds_error env c no_result out.1 m why e) (rw (y, e) at h))
        | inl e ↦ verify-Succeeds env c raised.1 raised.2 why (rw (y, e) at h)
      ]
    ]

replicate-Succeeds :
    (env : Env) (c : Config) (decide : Decide) (r : Run)
    → SaysWhy env
    → is_success (replicate env c decide r).0 ≡ true
    → Succeeds env c (replicate env c decide r).0
unfolding replicate first_plans survey look_origin
replicate-Succeeds env c decide r why h =
    let seen = first_plans env c r in
    elim (Read-cases seen.0) [
      | inl (m, e) ↦ absurd (not_success (aborted_by m) refl (rw e at h))
      | inr (plans, e) ↦ decided-Succeeds env c decide plans seen.1 why (rw e at h)
    ]

execute-Succeeds :
    (env : Env) (c : Config) (decide : Decide) (r : Run)
    → SaysWhy env
    → is_success (execute env c decide r).0 ≡ true
    → Succeeds env c (execute env c decide r).0
unfolding execute paused before_point with_point after_replicate
execute-Succeeds env c decide r why h =
    let pause = pause_sanoid env r in
    elim (Bool-cases pause.0) [
      | inr n ↦ absurd (not_success (aborted_by _) refl (rw n at h))
      | inl y ↦
          let copied = before_point env c pause.1.1 in
          elim (Bool-cases copied.0) [
            | inr n ↦ absurd (not_success (aborted_by _) refl (rw (y, n) at h))
            | inl z ↦
                let taken = take_point env c copied.1 in
                elim (Bool-cases taken.0) [
                  | inr n ↦ absurd (not_success (aborted_by _) refl (rw (y, z, n) at h))
                  | inl t ↦ replicate-Succeeds env c decide taken.1 why (rw (y, z, t) at h)
                ]
          ]
    ]

-- I-D of a whole run: where `execute` ends in a success, some listing of origin and the drive's listing
-- right behind it show every expected dataset of that origin on the drive with no partial receive, its
-- newest snapshot there being, by guid, origin's snapshot of the run's point. A listing that fails must
-- say why.
pub execute-HoldsPoint :
    (env : Env) (c : Config) (decide : Decide) (r : Run)
    → SaysWhy env
    → is_success (execute env c decide r).0 ≡ true
    → (origin : Dict Origin) × (dest : Dict Dest) × Listed env origin dest
      × ((rel : Text)
          → Elem rel (expected origin c.exclusions)
          → (o : Origin) × (d : Dest) × (get rel origin ≡ some o)
            × (get rel dest ≡ some d)
            × (d.token ≡ [])
            × HoldsPoint o d c.point)
execute-HoldsPoint env c decide r why h =
    let (origin, dest, l, all) = execute-Succeeds env c decide r why h in
    (origin, dest, l, λ rel m. reached-plan origin dest c.point c.exclusions rel all m)
