-- ===== src/Engine/Whole/Timer.antt =====
-- sanoid: whatever a run is answered, a timer that it stopped is started again.
use zark.Base.{
  ℕ, zero, suc, ◌≡◌, refl, ◌∙◌, ◌⊎◌, inl, inr, Bool, true, false, List, [], ◌∷◌, arith,
  if◌then◌else◌, Bool-cases, codes, text_eq,
}
use zark.Replication.Model.{DatasetPlan}
use zark.Engine.Model.{Trace, exec, Adds-trans, is_untimed, Event, Env, Config, Run, Adds}
use zark.Engine.Rounds.{Result}
use zark.Engine.Points.{undo_point}
use zark.Engine.Whole.{
  Decide, replicate, Timed, wait_units, wait_turns, pause_sanoid, resume_sanoid, take_point, undo,
  after_replicate, with_point, before_point, paused, execute,
}
use zark.Engine.Drive.Calm.{Calmly}
use zark.Engine.Points.Untimed.{Untimed, exec-Untimed, undo_point-Untimed}
use zark.Engine.Whole.Untimed.{take_point-Untimed, replicate-Untimed}

same : {w : Trace} → Adds is_untimed w w
same = Adds.none_added

either :
    {A : Type 0} {w : Trace} (b : Bool) (x y : A × Run)
    → Adds is_untimed w x.1.trace
    → Adds is_untimed w y.1.trace
    → Adds is_untimed w (if b then x else y).1.trace
either true x y a b = a
either false x y a b = b

-- The last thing asked of the timer is to stop.
abbrev pub is_stop : Event → Bool
is_stop Event.stop_timer = true
is_stop _ = false

unfoldable pub is_stopped : Trace → Bool
is_stopped [] = false
is_stopped (e ∷ w) = if is_untimed e then is_stopped w else is_stop e

is_stopped-Adds : {w u : Trace} → Adds is_untimed w u → is_stopped u ≡ is_stopped w
unfolding is_stopped
is_stopped-Adds Adds.none_added = refl
is_stopped-Adds (Adds.one_added a e h) = rw h (is_stopped-Adds a)

-- A timer that was stopped has the flag that makes `resume_sanoid` start it.
abbrev HasFlag : Timed → Type 0
HasFlag t = (is_stopped t.1.trace ≡ false) ⊎ (t.0 ≡ true)

HasFlag-Adds : (flag : Bool) (r r' : Run) → Untimed r r' → HasFlag (flag, r) → HasFlag (flag, r')
HasFlag-Adds flag r r' a (inl e) = inl (is_stopped-Adds a ∙ e)
HasFlag-Adds flag r r' a (inr e) = inr e

resume_sanoid-runs :
    (env : Env) (t : Timed)
    → HasFlag t
    → (is_stopped (resume_sanoid env t).1.trace ≡ false) × ((resume_sanoid env t).0 ≡ false)
unfolding resume_sanoid exec is_stopped
resume_sanoid-runs env (true, r) h = elim (Bool-cases (env.succeeds r.trace Event.start_timer)) [
  | inl e ↦ rw e ((refl, refl))
  | inr e ↦ rw e ((refl, refl))
]
resume_sanoid-runs env (false, r) (inl e) = (e, refl)
resume_sanoid-runs env (false, r) (inr e) = absurd (ground arith)

undo-HasFlag : (env : Env) (c : Config) (t : Timed) → HasFlag t → HasFlag (undo env c t)
unfolding undo
undo-HasFlag env c t h =
    inl
      (resume_sanoid-runs env (t.0, undo_point env c t.1)
        (HasFlag-Adds t.0 t.1 (undo_point env c t.1) (undo_point-Untimed env c t.1) h)).0

wait_units-Untimed : (turns : ℕ) (env : Env) (r : Run) → Untimed r (wait_units turns env r).1
unfolding wait_units
wait_units-Untimed zero env r = exec-Untimed env Event.ask_units r refl
wait_units-Untimed (suc n) env r =
    let one = exec-Untimed env Event.ask_units r refl in
    either (env.units_busy r.trace) _ _
      (Adds-trans one
        (Adds-trans (exec-Untimed env Event.sleep _ refl) (wait_units-Untimed n env _)))
      one

pause_sanoid-HasFlag :
    (env : Env) (r : Run) → is_stopped r.trace ≡ false → HasFlag (pause_sanoid env r).1
unfolding pause_sanoid
pause_sanoid-HasFlag env r h = elim (Bool-cases (text_eq (env.timer r.trace) (codes "active"))) [
  | inl e ↦ rw e (inr refl)
  | inr e ↦
      let asked = exec-Untimed env Event.ask_timer r refl in
      rw e (inl (is_stopped-Adds (Adds-trans asked (wait_units-Untimed wait_turns env _)) ∙ h))
]

after_replicate-HasFlag :
    (env : Env) (c : Config) (flag : Bool) (out : Result × Run)
    → HasFlag (flag, out.1)
    → HasFlag (after_replicate env c flag out).1
unfolding after_replicate
after_replicate-HasFlag env c flag out h = elim (Bool-cases out.0.aborted) [
  | inl e ↦ rw e (undo-HasFlag env c (flag, out.1) h)
  | inr e ↦ rw e h
]

with_point-HasFlag :
    (env : Env) (c : Config) (decide : Decide)
    → ((plans : List DatasetPlan) (r : Run) → Calmly r (decide plans r).1)
    → (t : Timed) → HasFlag t
    → HasFlag (with_point env c decide t).1
unfolding with_point
with_point-HasFlag env c decide calm t h =
    let taken = take_point env c t.1 in
    let after = HasFlag-Adds t.0 t.1 taken.1 (take_point-Untimed env c t.1) h in
    elim (Bool-cases taken.0) [
      | inl e ↦ rw e (
          after_replicate-HasFlag env c t.0 (replicate env c decide taken.1) (
            HasFlag-Adds t.0 taken.1 (replicate env c decide taken.1).1
              (replicate-Untimed env c decide calm taken.1) after))
      | inr e ↦ rw e (undo-HasFlag env c (t.0, taken.1) after)
    ]

paused-HasFlag :
    (env : Env) (c : Config) (decide : Decide)
    → ((plans : List DatasetPlan) (r : Run) → Calmly r (decide plans r).1)
    → (t : Timed) → HasFlag t
    → HasFlag (paused env c decide t).1
unfolding paused before_point
paused-HasFlag env c decide calm t h =
    let copied = before_point env c t.1 in
    let kept : Untimed t.1 copied.1 =
      either c.has_before_point _ _ (exec-Untimed env Event.copy_boot t.1 refl) same in
    let after = HasFlag-Adds t.0 t.1 copied.1 kept h in
    elim (Bool-cases copied.0) [
      | inl e ↦ rw e (with_point-HasFlag env c decide calm (t.0, copied.1) after)
      | inr e ↦ rw e after
    ]

-- However the run ends, and whatever its commands and reads are answered, the timer is not left
-- stopped by it: where sanoid's timer was not stopped before, the last thing that `execute` asks of it,
-- if anything, is to start, and no start is left owing. The user's decisions must leave origin and the
-- timer alone.
pub execute-resumes :
    (env : Env) (c : Config) (decide : Decide) (r : Run)
    → ((plans : List DatasetPlan) (r' : Run) → Calmly r' (decide plans r').1)
    → is_stopped r.trace ≡ false
    → (is_stopped (execute env c decide r).1.1.trace ≡ false)
      × ((execute env c decide r).1.0 ≡ false)
unfolding execute
execute-resumes env c decide r calm h =
    let pause = pause_sanoid env r in
    let flag = pause_sanoid-HasFlag env r h in
    elim (Bool-cases pause.0) [
      | inl e ↦ rw e (
          resume_sanoid-runs env (paused env c decide pause.1).1
            (paused-HasFlag env c decide calm pause.1 flag))
      | inr e ↦ rw e (resume_sanoid-runs env pause.1 flag)
    ]
