-- ===== src/Engine/Rounds/Blocked.antt =====
-- `blocked_by_parent` finds every ancestor that failed, and a blocked dataset is not sent.
use zark.Base.{
  ℕ, zero, suc, ◌≤◌, ◌<◌, ◌≡◌, refl, ap, ◌∙◌, ◌↔◌, inl, inr, Bool, true, false, some, List, [], ◌∷◌,
  arith, ◌==◌, Bool-cases, Option-cases, length, Elem, get, Text, codes, mem_text, text_eq_refl,
  mem_text→elem, elem→mem_text, get-put,
}
use zark.Replication.Names.{before_last, parent}
use zark.Replication.Model.{is_resume, is_new, is_at_point, transferable, State, DatasetPlan}
use zark.Engine.Model.{exec, Stream, Event, Env, Config, Run}
use zark.Engine.Sends.{is_nonempty, send_args}
use zark.Engine.Drive.{dst, not_sent, send_all, transfer}
use zark.Engine.Rounds.{
  blocked_go, blocked_by_parent, set_outcome, mark_failed, after_failure, attempt, is_blocked,
  take_turn, Turn,
}

-- `a` is a dataset above `rel`.
pub data Above (a : Text) : Text → Type 0 where
  parent_of : (rel : Text) → parent rel ≡ a → is_nonempty a ≡ true → Above a rel
  higher : (rel : Text) → is_nonempty (parent rel) ≡ true → Above a (parent rel) → Above a rel

length-before_last : (x : ℕ) (s : Text) {r : Text} → before_last x s ≡ some r → length r < length s
unfolding before_last
length-before_last x [] h = absurd (ground arith)
length-before_last x (d ∷ s) {r} h = elim (Option-cases (before_last x s)) [
  | inr (q, e) ↦
      let shorter = length-before_last x s e in
      let same : d ∷ q ≡ r = ground (arith, rw (before_last, e) at h) in
      omega (arith, ap length same)
  | inl e ↦ elim (Bool-cases (x == d)) [
    | inl t ↦
        let same : [] ≡ r = ground (arith, rw (before_last, e, t) at h) in
        omega (arith, ap length same)
    | inr t ↦ absurd (ground (arith, rw (before_last, e, t) at h))
  ]
]

length-parent : (rel : Text) → is_nonempty (parent rel) ≡ true → length (parent rel) < length rel
unfolding parent is_nonempty
length-parent rel h = elim (Option-cases (before_last b'/' rel)) [
  | inl e ↦ absurd (ground (arith, rw (parent, e) at h))
  | inr (r, e) ↦ rw (parent, e) (length-before_last b'/' rel e)
]

blocked_go_sound :
    (f : ℕ) (rel : Text) (failed : List Text)
    → blocked_go f (parent rel) failed ≡ true
    → (a : Text) × Above a rel × Elem a failed
unfolding blocked_go
blocked_go_sound zero rel failed h = absurd (ground arith)
blocked_go_sound (suc f) rel failed h = elim (Bool-cases (is_nonempty (parent rel))) [
  | inr n ↦ absurd (ground arith)
  | inl n ↦ elim (Bool-cases (mem_text (parent rel) failed)) [
    | inl m ↦ (parent rel, Above.parent_of rel refl n, mem_text→elem (parent rel) failed m)
    | inr m ↦
        let (a, above, at) = blocked_go_sound f (parent rel) failed (ground arith) in
        (a, Above.higher rel n above, at)
  ]
]

blocked_go_complete :
    (f : ℕ) (a rel : Text) (failed : List Text)
    → length rel ≤ f
    → Above a rel
    → Elem a failed
    → blocked_go f (parent rel) failed ≡ true
unfolding blocked_go
blocked_go_complete zero a rel failed le (Above.parent_of _ e n) m =
    absurd (omega (arith, length-parent rel (rw e n)))
blocked_go_complete zero a rel failed le (Above.higher _ n above) m =
    absurd (omega (arith, length-parent rel n))
blocked_go_complete (suc f) a rel failed le (Above.parent_of _ e n) m =
    let there = elem→mem_text a failed m in rw (blocked_go, e, n, there) refl
blocked_go_complete (suc f) a rel failed le (Above.higher _ n above) m =
    let ih =
      blocked_go_complete f a (parent rel) failed (omega (arith, length-parent rel n)) above m in
    ground arith

blocked_by_parent_iff :
    (rel : Text) (failed : List Text)
    → (blocked_by_parent rel failed ≡ true) ↔ ((a : Text) × Above a rel × Elem a failed)
unfolding blocked_by_parent
blocked_by_parent_iff rel failed = (
  blocked_go_sound (length rel) rel failed,
  λ h. blocked_go_complete (length rel) h.0 rel failed (omega arith) h.1 h.2,
)

send_all-started :
    (env : Env) (c : Config) (rel : Text) (resume : Bool) (clone : Text) (ss : List Stream)
    (r : Run)
    → (send_all env c rel resume clone ss r).1.started ≡ r.started
unfolding send_all exec
send_all-started env c rel resume clone [] r = refl
send_all-started env c rel resume clone (s ∷ ss) r =
    let e = Event.send s (dst c rel) resume clone in
    elim (Bool-cases (env.succeeds r.trace e)) [
      | inl t ↦ rw t (send_all-started env c rel resume clone ss (exec env e r).1)
      | inr t ↦ rw t
    ]

new_state : (s : State) → is_new s ≡ true → s ≡ State.new
new_state State.new h = refl
new_state State.at_point h = absurd (ground arith)
new_state State.resume h = absurd (ground arith)
new_state State.incremental h = absurd (ground arith)
new_state State.via_bookmark h = absurd (ground arith)
new_state State.rollback h = absurd (ground arith)
new_state State.diverged h = absurd (ground arith)
new_state State.modified h = absurd (ground arith)
new_state State.orphan h = absurd (ground arith)
new_state State.excluded h = absurd (ground arith)

transfer-started :
    (env : Env) (c : Config) (p : DatasetPlan) (r : Run)
    → is_new p.state ≡ true
    → (transfer env c p r).1.started ≡ p.rel ∷ r.started
unfolding transfer
transfer-started env c p r h =
    let n : p.state ≡ State.new = new_state p.state h in
    let a : is_at_point p.state ≡ false = ap is_at_point n in
    let b : transferable p.state ≡ true = ap transferable n in
    rw (a, b)
      (send_all-started env c p.rel (is_resume p.state) _ (send_args c r p false)
        (record r { started = p.rel ∷ r.started }))

attempt-started :
    (env : Env) (c : Config) (p : DatasetPlan) (t : Turn)
    → is_new p.state ≡ true
    → (attempt env c p t).run.started ≡ p.rel ∷ t.run.started
unfolding attempt after_failure mark_failed set_outcome
attempt-started env c p t h =
    let n : is_resume p.state ≡ false = ap is_resume (new_state p.state h) in
    let one = transfer-started env c p t.run h in ground arith

-- A new dataset waits for those above it, however far above: where one of them has failed in the
-- round, its turn gives no command and changes nothing of the run, and the outcome says that its
-- parent did not reach the point; where none has, its receive begins.
pub take_turn-Above :
    (env : Env) (c : Config) (p : DatasetPlan) (t : Turn)
    → is_new p.state ≡ true
    → (((a : Text) × Above a p.rel × Elem a t.failed)
        → ((take_turn env c p t).run ≡ t.run)
          × (get p.rel (take_turn env c p t).res.outcomes
              ≡ some (not_sent p.rel (codes "parent did not reach the point"))))
      × (((a : Text) → Above a p.rel → Elem a t.failed → ⊥)
          → (take_turn env c p t).run.started ≡ p.rel ∷ t.run.started)
unfolding take_turn is_blocked mark_failed set_outcome not_sent
take_turn-Above env c p t h = (
  λ up.
      let b = (blocked_by_parent_iff p.rel t.failed).1 up in
      let put_there =
        get-put p.rel p.rel (not_sent p.rel (codes "parent did not reach the point"))
          t.res.outcomes in
      rw (take_turn, is_blocked, h, b) ((refl, put_there ∙ rw (text_eq_refl p.rel) refl)),
  λ free. elim (Bool-cases (blocked_by_parent p.rel t.failed)) [
    | inl b ↦
        let (a, above, m) = (blocked_by_parent_iff p.rel t.failed).0 b in absurd (free a above m)
    | inr b ↦ rw (take_turn, is_blocked, h, b) (attempt-started env c p t h)
  ],
)
