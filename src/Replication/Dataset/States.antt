-- ===== src/Replication/Dataset/States.antt =====
-- `plan_dataset`: a dataset at the point, a diverged one, and a destination that was written.
use mathlib.Core.List.{reverse, reverse-cons}
use zark.Base.{
  ◌<◌, ◌≡◌, refl, ◌∙◌, ◌⊎◌, inl, inr, true, false, Option, none, some, List, [], ◌∷◌, ◌++◌, arith,
  Option-cases, Elem, List-cases, elem-reverse, Text, text_eq→eq,
}
use zark.Replication.Model.{
  with_guid-eq-some, snap_by_guid, newest, is_resume, is_new, is_at_point, transferable, Ref,
  Origin, Dest, State, DatasetPlan,
}
use zark.Replication.Dataset.Rollback.{scan_older-eq-none, newest_of_nil, snaps-eq, newest-eq}
use zark.Replication.Dataset.{
  base_of, scan_older, plan_bookmark, plan_older, plan_from, plan_held, without_partial,
  plan_partial, plan_onto, plan_dataset,
}

-- The drive's newest snapshot is, by guid, origin's snapshot of the point.
pub record HoldsPoint (o : Origin) (d : Dest) (point : Text) : Type 0 where
  pub top : Ref
  pub own : Ref
  pub newest_is : newest d ≡ some top
  pub held : Elem own o.snaps
  pub same_guid : own.guid ≡ top.guid
  pub named : own.name ≡ point

plan_older-not_at_point : (o : Origin) (d : Dest) → is_at_point (plan_older o d).state ≡ false
unfolding plan_older
plan_older-not_at_point o d = ground arith

plan_bookmark-not_at_point :
    (o : Origin) (top : Ref) (p : DatasetPlan)
    → plan_bookmark o top ≡ some p
    → is_at_point p.state ≡ false
unfolding plan_bookmark
plan_bookmark-not_at_point o top p h = ground arith

plan_from-HoldsPoint :
    (o : Origin) (d : Dest) (point : Text) (top : Ref)
    → newest d ≡ some top
    → is_at_point (plan_from o d point top).state ≡ true
    → HoldsPoint o d point
unfolding plan_from
plan_from-HoldsPoint o d point top n h = elim (Option-cases (snap_by_guid o top.guid)) [
  | inr (own, e) ↦
      let f = with_guid-eq-some top.guid o.snaps own (unfold snap_by_guid in e) in
      record {
        top = top;
        own = own;
        newest_is = n;
        held = f.0;
        same_guid = f.1;
        named = text_eq→eq _ _ (ground arith);
      }
  | inl e ↦ elim (Option-cases (plan_bookmark o top)) [
    | inr (p, e') ↦ absurd (ground (arith, plan_bookmark-not_at_point o top p e'))
    | inl e' ↦ absurd (ground (arith, plan_older-not_at_point o d))
  ]
]

plan_onto-at_point :
    (o : Origin) (d : Dest) (point : Text)
    → is_at_point (plan_onto o d point).state ≡ true
    → plan_onto o d point ≡ plan_held o d point
unfolding plan_onto plan_partial without_partial
plan_onto-at_point o d point h = ground arith

-- A dataset is planned as being at the point only where the drive holds it with no partial receive,
-- and its newest snapshot is origin's snapshot of that name.
pub plan_dataset-HoldsPoint :
    (o : Origin) (d : Option Dest) (point : Text)
    → is_at_point (plan_dataset o d point).state ≡ true
    → (held : Dest) × (d ≡ some held) × (held.token ≡ []) × HoldsPoint o held point
unfolding plan_dataset plan_held
plan_dataset-HoldsPoint o none point h = absurd (ground arith)
plan_dataset-HoldsPoint o (some d) point h =
    let same = plan_onto-at_point o d point h in
    elim (List-cases d.token) [
      | inr (c, t, e) ↦ absurd (ground arith)
      | inl e ↦ elim (Option-cases (newest d)) [
        | inl n ↦ absurd (ground arith)
        | inr (top, n) ↦
            let same' : plan_from o d point top ≡ plan_onto o d point = ground arith in
            (d, refl, e, plan_from-HoldsPoint o d point top n (rw same' h))
      ]
    ]

plan_held-not_new :
    (o : Origin) (d : Dest) (point : Text) → is_new (plan_held o d point).state ≡ false
unfolding plan_held plan_from plan_bookmark plan_older
plan_held-not_new o d point = ground arith

-- A destination written since its newest snapshot is never continued without a question: what is
-- left that needs none is a dataset at the point, or a partial receive with no snapshot behind it.
pub plan_dataset-written :
    (o : Origin) (d : Dest) (point : Text)
    → 0 < d.written
    → transferable (plan_dataset o (some d) point).state ≡ true
    → (is_at_point (plan_dataset o (some d) point).state ≡ true)
      ⊎ ((is_resume (plan_dataset o (some d) point).state ≡ true) × (newest d ≡ none))
unfolding plan_dataset plan_onto plan_partial without_partial
plan_dataset-written o d point w h = ground (arith, plan_held-not_new o d point)

-- What a diverged dataset means: the drive has no snapshot of it, or origin has neither the newest
-- one nor anything to send from for an older one.
pub data HasDiverged (o : Origin) (d : Dest) : Type 0 where
  empty : newest d ≡ none → HasDiverged o d
  apart :
      (older : List Ref) (top : Ref)
      → d.snaps ≡ older ++ top ∷ []
      → snap_by_guid o top.guid ≡ none
      → ((s : Ref) → Elem s older → base_of o s ≡ none)
      → HasDiverged o d

plan_bookmark-not_diverged :
    (o : Origin) (top : Ref) (p : DatasetPlan)
    → plan_bookmark o top ≡ some p
    → p.state ≡ State.via_bookmark
unfolding plan_bookmark
plan_bookmark-not_diverged o top p h = ground arith

plan_older-HasDiverged :
    (o : Origin) (d : Dest) (top : Ref)
    → newest d ≡ some top
    → snap_by_guid o top.guid ≡ none
    → (plan_older o d).state ≡ State.diverged
    → HasDiverged o d
unfolding plan_older
plan_older-HasDiverged o d top n lost h = elim (List-cases (reverse d.snaps)) [
  | inl e ↦ absurd (ground (arith, newest_of_nil d e))
  | inr (top', older, e) ↦
      let same : top' ≡ top = ground (arith, newest-eq o d top' older e) in
      elim (Option-cases (scan_older o older (top' ∷ []))) [
        | inr (r, e') ↦ absurd (ground arith)
        | inl e' ↦
            HasDiverged.apart (reverse older) top'
              (snaps-eq o d top' older e ∙ reverse-cons top' older) (rw same lost)
              λ s m. scan_older-eq-none o older (top' ∷ []) e' s (elem-reverse s older m)
      ]
]

plan_from-HasDiverged :
    (o : Origin) (d : Dest) (point : Text) (top : Ref)
    → newest d ≡ some top
    → (plan_from o d point top).state ≡ State.diverged
    → HasDiverged o d
unfolding plan_from
plan_from-HasDiverged o d point top n h = elim (Option-cases (snap_by_guid o top.guid)) [
  | inr (own, e) ↦ absurd (ground arith)
  | inl e ↦ elim (Option-cases (plan_bookmark o top)) [
    | inr (p, e') ↦ absurd (ground (arith, plan_bookmark-not_diverged o top p e'))
    | inl e' ↦ plan_older-HasDiverged o d top n e (ground arith)
  ]
]

plan_onto-diverged :
    (o : Origin) (d : Dest) (point : Text)
    → (plan_onto o d point).state ≡ State.diverged
    → plan_onto o d point ≡ plan_held o d point
unfolding plan_onto plan_partial without_partial
plan_onto-diverged o d point h = ground arith

-- A dataset is planned as diverged only where the drive has no snapshot of it, or where origin has
-- neither the newest snapshot nor a base for any older one.
pub plan_dataset-HasDiverged :
    (o : Origin) (d : Dest) (point : Text)
    → (plan_dataset o (some d) point).state ≡ State.diverged
    → HasDiverged o d
unfolding plan_dataset plan_held
plan_dataset-HasDiverged o d point h =
    let same = plan_onto-diverged o d point h in
    elim (List-cases d.token) [
      | inr (c, t, e) ↦ absurd (ground arith)
      | inl e ↦ elim (Option-cases (newest d)) [
        | inl n ↦ HasDiverged.empty n
        | inr (top, n) ↦ plan_from-HasDiverged o d point top n (ground arith)
      ]
    ]
