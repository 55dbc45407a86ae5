-- ===== src/Retention/Prune/Months.antt =====
-- `plan_prune`: how old a removed snapshot is, and what each calendar month keeps.
use mathlib.Core.Path.{subst}
use zark.Calendar.{year_month}
use zark.Base.{
  ℕ, ◌+◌, ◌*◌, ◌<◌, ◌≡◌, sym, ◌∙◌, ◌≢◌, ◌⊎◌, inl, inr, true, [], arith, Elem, Dict, Text, mem_text,
  elem→mem_text,
}
use zark.Replication.Names.{is_point}
use zark.Replication.Model.{Ref, Dest}
use zark.Retention.Points.{snapshot_kind, point_times, candidates, Candidate, FirstTime}
use zark.Retention.Points.Best.{
  elem-candidates, candidates-elem, IsNoBetter, candidate_le-IsNoBetter,
}
use zark.Retention.Points.Times.{point_times-is_point, is_point-ne-nil}
use zark.Retention.Prune.{
  day, before_window, too_old, when_of, outside_window, decide_age, decide, setting_of, plan_prune,
  Policy, Removal, Prune, Setting, Decision, Request,
}
use zark.Retention.Prune.Keeps.{prune_in-Removed, plan_prune-eq-ok, Removed}
use zark.Retention.Points.Monthly.{IsBestOfMonth, monthly-covers}

decide→decide_age :
    (c : Setting) (rel : Text) (d : Dest) (s : Ref) {why : Text}
    → decide c rel d s ≡ Decision.remove why
    → decide_age c s ≡ Decision.remove why
unfolding decide
decide→decide_age c rel d s h = ground arith

-- Old enough to go: outside the window, or past the drive's maximum age.
abbrev pub IsAged : Policy → ℕ → ℕ → Type 0
IsAged policy now when =
    (when + policy.window_days * day < now)
    ⊎ ((policy.max_age_days ≢ 0) × (when + policy.max_age_days * day < now))

decide_age-IsAged :
    (c : Setting) (s : Ref) {why : Text}
    → decide_age c s ≡ Decision.remove why
    → IsAged c.policy c.now (when_of c.times s)
unfolding decide_age too_old before_window
decide_age-IsAged c s h = ground arith

decide_age-monthly :
    (c : Setting) (s : Ref) {why : Text}
    → c.policy.max_age_days ≡ 0
    → is_point s.name ≡ true
    → mem_text s.name c.monthly ≡ true
    → decide_age c s ≢ Decision.remove why
unfolding decide_age too_old outside_window snapshot_kind
decide_age-monthly c s h p m e = ground arith

Removed-of :
    (dest : Dict Dest) (q : Request) (out : Prune) (r : Removal)
    → plan_prune dest q ≡ FirstTime.ok out
    → Elem r out.snapshots
    → (start : ℕ) × Removed (setting_of dest q start) dest r
Removed-of dest q out r h m = elim (plan_prune-eq-ok dest q out h) [
  | inl e ↦
      let none_of : Elem r [] = subst (λ (p : Prune). Elem r p.snapshots) e m in elim none_of [ ]
  | inr (start, e', e) ↦ (
    start,
    prune_in-Removed (setting_of dest q start) dest r
        (subst (λ (p : Prune). Elem r p.snapshots) e m),
  )
]

-- A removed snapshot is on the drive, and its time (its whole point's, for a backup point) lies
-- before the window, or, where the drive has a maximum age, before that.
pub plan_prune-IsAged :
    (dest : Dict Dest) (q : Request) (out : Prune) (r : Removal)
    → plan_prune dest q ≡ FirstTime.ok out
    → Elem r out.snapshots
    → (d : Dest) × (s : Ref) × Elem (r.rel, d) dest
      × Elem s d.snaps
      × (s.name ≡ r.name)
      × IsAged q.policy q.now (when_of (point_times dest) s)
unfolding setting_of
plan_prune-IsAged dest q out r h m =
    let (start, x) = Removed-of dest q out r h m in
    (
      x.dataset,
      x.snap,
      x.listed,
      x.stored,
      x.named,
      decide_age-IsAged (setting_of dest q start) x.snap
          (decide→decide_age _ r.rel x.dataset x.snap x.decided),
    )

-- On a drive with no maximum age no calendar month (UTC) loses its best complete backup point: for
-- every complete point there is a complete one of the same month, on the drive, which no removal names,
-- and which is at least as good: where that point is whole, so is this one; and where both are whole,
-- or neither is, this one is no earlier. It is the best of its month by the order of the code.
pub plan_prune_keeps_month :
    (dest : Dict Dest) (q : Request) (out : Prune) (name : Text) (ts : ℕ)
    → plan_prune dest q ≡ FirstTime.ok out
    → q.policy.max_age_days ≡ 0
    → Elem (name, ts) (point_times dest)
    → mem_text name q.complete ≡ true
    → (b : Candidate) × (year_month b.time ≡ year_month ts)
      × IsBestOfMonth (candidates (point_times dest) q.complete q.whole) b
      × Elem (b.name, b.time) (point_times dest)
      × (mem_text b.name q.complete ≡ true)
      × IsNoBetter q.whole (name, ts) (b.name, b.time)
      × ((r : Removal) → Elem r out.snapshots → r.name ≢ b.name)
unfolding setting_of
plan_prune_keeps_month dest q out name ts h age m k =
    let times = point_times dest in
    let named : (c : Candidate) → Elem c (candidates times q.complete q.whole) → c.name ≢ [] =
      λ c e. is_point-ne-nil c.name (
        point_times-is_point dest c.name c.time (elem-candidates times q.complete q.whole c e).0) in
    let at = candidates-elem times q.complete q.whole name ts m k in
    let (b, monthly, month, best) = monthly-covers times q.complete q.whole named _ at in
    (
      b,
      month,
      best,
      (elem-candidates times q.complete q.whole b best.0).0,
      (elem-candidates times q.complete q.whole b best.0).1,
      candidate_le-IsNoBetter times q.complete q.whole _ b at best.0 (best.1 _ at (sym month)),
      λ r e same.
          let (start, x) = Removed-of dest q out r h e in
          let eq : x.snap.name ≡ b.name = x.named ∙ same in
          let p =
            point_times-is_point dest b.name b.time
              (elem-candidates times q.complete q.whole b best.0).0 in
          decide_age-monthly (setting_of dest q start) x.snap age (rw eq p)
            (rw eq (elem→mem_text b.name _ monthly))
            (decide→decide_age _ r.rel x.dataset x.snap x.decided),
    )
