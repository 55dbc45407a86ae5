-- ===== src/Engine/Whole/Aborted.antt =====
-- A run that is aborted or cannot be verified leaves origin alone.
use zark.Base.{
  ℕ, zero, suc, ◌≡◌, refl, ◌∙◌, ◌⊎◌, inl, inr, Bool, true, false, not, ◌||◌, List, [], ◌∷◌, ◌++◌,
  if◌then◌else◌, Bool-cases, Option-cases, List-cases,
}
use zark.Replication.Model.{is_resume, DatasetPlan}
use zark.Engine.Model.{Read-cases, look_origin, Adds-trans, Env, Config, Run, Outcome}
use zark.Engine.Sends.{is_nonempty}
use zark.Engine.Drive.{survey, transfer, discard_one}
use zark.Engine.Rounds.{
  no_result, set_outcome, mark_failed, kept_text, after_resume, after_failure, attempt, is_blocked,
  take_turn, one_round, todo_of, Raised, rounds_go, max_rounds, rounds, Result, Turn,
}
use zark.Engine.Whole.{Decide, finish, verify, after_rounds, decided, first_plans, replicate}
use zark.Engine.Drive.Calm.{Calmly, survey-Calmly}
use zark.Engine.Rounds.Calm.{rounds-Calmly}
use zark.Engine.Whole.Untimed.{first_plans-Calmly}

-- The rounds neither abort a run nor say that it is unverified.
abbrev SameFlags : Result → Result → Type 0
SameFlags res res' = (res'.aborted ≡ res.aborted) × (res'.unverified ≡ res.unverified)

SameFlags-trans : (a b c : Result) → SameFlags a b → SameFlags b c → SameFlags a c
SameFlags-trans a b c p q = (q.0 ∙ p.0, q.1 ∙ p.1)

either_turn :
    (res : Result) (b : Bool) (x y : Turn)
    → SameFlags res x.res
    → SameFlags res y.res
    → SameFlags res (if b then x else y).res
either_turn res true x y a b = a
either_turn res false x y a b = b

either_raised :
    (res : Result) (b : Bool) (x y : Raised)
    → SameFlags res x.1
    → SameFlags res y.1
    → SameFlags res (if b then x else y).1
either_raised res true x y a b = a
either_raised res false x y a b = b

after_resume-SameFlags :
    (env : Env) (c : Config) (out : Outcome) (t : Turn)
    → SameFlags t.res (after_resume env c out t).res
unfolding after_resume set_outcome
after_resume-SameFlags env c out t =
    let gone = discard_one env c out.rel t.run in
    let kept : Turn = record t { run = gone.2 } in
    either_turn t.res gone.0 (record t { again = true; run = gone.2 })
      (if is_nonempty gone.1
        then kept
        else set_outcome (record out { error = out.error ++ kept_text }) kept)
      (refl, refl)
      (either_turn t.res (is_nonempty gone.1) kept
        (set_outcome (record out { error = out.error ++ kept_text }) kept) (refl, refl)
        (refl, refl))

after_failure-SameFlags :
    (env : Env) (c : Config) (p : DatasetPlan) (out : Outcome) (t : Turn)
    → SameFlags t.res (after_failure env c p out t).res
unfolding after_failure
after_failure-SameFlags env c p out t =
    either_turn t.res out.enospc _ _ (refl, refl)
      (either_turn t.res (is_resume p.state) _ _ (after_resume-SameFlags env c out t) (refl, refl))

take_turn-SameFlags :
    (env : Env) (c : Config) (p : DatasetPlan) (t : Turn)
    → SameFlags t.res (take_turn env c p t).res
unfolding take_turn attempt mark_failed set_outcome
take_turn-SameFlags env c p t =
    let sent = transfer env c p t.run in
    either_turn t.res (is_blocked p t.failed) _ _ (refl, refl)
      (either_turn t.res sent.0.ok _ _ (refl, refl)
        (after_failure-SameFlags env c p sent.0 (mark_failed sent.0 (record t { run = sent.1 }))))

one_round-SameFlags :
    (env : Env) (c : Config) (todo : List DatasetPlan) (t : Turn)
    → SameFlags t.res (one_round env c todo t).res
unfolding one_round
one_round-SameFlags env c [] t = (refl, refl)
one_round-SameFlags env c (p ∷ todo) t =
    let t' = take_turn env c p t in
    let one = take_turn-SameFlags env c p t in
    either_turn t.res t'.res.enospc t' (one_round env c todo t') one (
      SameFlags-trans t.res t'.res (one_round env c todo t').res one
        (one_round-SameFlags env c todo t'))

rounds_go-SameFlags :
    (n : ℕ) (env : Env) (c : Config) (res : Result) (r : Run)
    → SameFlags res (rounds_go n env c res r).1
unfolding rounds_go survey look_origin
rounds_go-SameFlags zero env c res r = (refl, refl)
rounds_go-SameFlags (suc n) env c res r =
    let seen = survey env c r in
    elim (Read-cases seen.0) [
      | inl (m, e) ↦ rw e ((refl, refl))
      | inr (plans, e) ↦ elim (List-cases (todo_of plans)) [
        | inl d ↦ rw (e, d) ((refl, refl))
        | inr (p, todo, d) ↦
            let t0 : Turn = record {
              failed = [];
              again = false;
              res = record res { plans = plans };
              run = seen.1;
            } in
            let t = one_round env c (p ∷ todo) t0 in
            let one = one_round-SameFlags env c (p ∷ todo) t0 in
            rw (e, d)
              (either_raised res (t.res.enospc || not t.again) _ _ one (
                SameFlags-trans res t.res (rounds_go n env c t.res t.run).1 one
                  (rounds_go-SameFlags n env c t.res t.run)))
      ]
    ]

pub rounds-SameFlags :
    (env : Env) (c : Config) (res : Result) (r : Run) → SameFlags res (rounds env c res r).1
unfolding rounds survey look_origin
rounds-SameFlags env c res r =
    let seen = survey env c r in
    elim (Read-cases seen.0) [
      | inl (m, e) ↦ rw e ((refl, refl))
      | inr (plans, e) ↦
          rw e (rounds_go-SameFlags max_rounds env c (record res { plans = plans }) _)
    ]

-- The result says that the run was aborted, or that the drive could not be read after the transfers.
abbrev pub IsStopped : Result → Type 0
IsStopped res = (res.aborted ≡ true) ⊎ (is_nonempty res.unverified ≡ true)

finish-not-IsStopped :
    (env : Env) (c : Config) (res : Result) (r : Run)
    → SameFlags no_result res
    → IsStopped (finish env c res r).0
    → ⊥
unfolding finish is_nonempty
finish-not-IsStopped env c res r f (inl h) = cc (f.0)
finish-not-IsStopped env c res r f (inr h) = cc (f.1)

verify-Calmly :
    (env : Env) (c : Config) (res : Result) (r : Run)
    → SameFlags no_result res
    → IsStopped (verify env c res r).0
    → Calmly r (verify env c res r).1
unfolding verify survey look_origin
verify-Calmly env c res r f h =
    let seen = survey env c r in
    elim (Read-cases seen.0) [
      | inl (m, e) ↦ rw e (survey-Calmly env c r)
      | inr (plans, e) ↦
          absurd (finish-not-IsStopped env c (record res { plans = plans }) seen.1 f (rw e at h))
    ]

decided-Calmly :
    (env : Env) (c : Config) (decide : Decide)
    → ((plans : List DatasetPlan) (r : Run) → Calmly r (decide plans r).1)
    → (plans : List DatasetPlan) (r : Run) → IsStopped (decided env c decide plans r).0
    → Calmly r (decided env c decide plans r).1
unfolding decided after_rounds
decided-Calmly env c decide calm plans r h =
    let out = decide plans r in
    let raised = rounds env c no_result out.1 in
    let sent = Adds-trans (calm plans r) (rounds-Calmly env c no_result out.1) in
    elim (Bool-cases out.0) [
      | inr n ↦ rw n (calm plans r)
      | inl y ↦ elim (Option-cases raised.0) [
        | inr (m, e) ↦ rw (y, e) sent
        | inl e ↦
            rw (y, e)
              (Adds-trans sent (
                verify-Calmly env c raised.1 raised.2 (rounds-SameFlags env c no_result out.1)
                  (rw (y, e) at h)))
      ]
    ]

-- Where a listing fails before or after the transfers, or the user stops the run, so that its result
-- is aborted or unverified, `replicate` has taken no snapshot in origin, and has neither renamed,
-- bookmarked nor destroyed anything there. The user's decisions must leave origin alone.
pub replicate-Calmly :
    (env : Env) (c : Config) (decide : Decide) (r : Run)
    → ((plans : List DatasetPlan) (r' : Run) → Calmly r' (decide plans r').1)
    → IsStopped (replicate env c decide r).0
    → Calmly r (replicate env c decide r).1
unfolding replicate first_plans survey look_origin
replicate-Calmly env c decide r calm h =
    let seen = first_plans env c r in
    let first = first_plans-Calmly env c r in
    elim (Read-cases seen.0) [
      | inl (m, e) ↦ rw e first
      | inr (plans, e) ↦
          rw e (Adds-trans first (decided-Calmly env c decide calm plans seen.1 (rw e at h)))
    ]
