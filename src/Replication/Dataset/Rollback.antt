-- ===== src/Replication/Dataset/Rollback.antt =====
-- `plan_dataset` where the newest snapshot is gone from origin: a rollback goes to the newest of
-- the older snapshots that origin can still send from, and a diverged dataset has none.
use mathlib.Core.Path.{subst}
use mathlib.Core.List.{
  reverse-cons, reverse_aux-append, reverse, reverse_aux, reverse_aux-eq, reverse-reverse,
}
use zark.Base.{
  ◌≡◌, sym, ap, ◌∙◌, inl, inr, none, some, List, [], ◌∷◌, ◌++◌, map, arith, Option-cases, Elem,
  List-cases, get_last?, get_last?-append, elem-reverse_aux, Text, split,
}
use zark.Replication.Model.{snap_by_guid, newest, Ref, Origin, Dest, State, DatasetPlan}
use zark.Replication.Dataset.{
  snap_name, base_of, scan_older, plan_bookmark, plan_older, plan_from, plan_held, without_partial,
  plan_partial, plan_onto, plan_dataset, Older,
}

-- The scan passes over snapshots with no base, and stops at the first with one.
scan_older-eq-some :
    (o : Origin) (older newer : List Ref) (r : Older)
    → scan_older o older newer ≡ some r
    → (skipped deeper : List Ref) × (older ≡ skipped ++ (r.common ∷ deeper))
      × (r.newer ≡ reverse_aux skipped newer)
      × ((s : Ref) → Elem s skipped → base_of o s ≡ none)
      × (base_of o r.common ≡ some r.base)
unfolding scan_older
scan_older-eq-some o [] newer r h = absurd (ground arith)
scan_older-eq-some o (s ∷ older) newer r h = elim (Option-cases (base_of o s)) [
  | inr (b, e) ↦ ([], older, ground arith, ground arith, λ t m. elim m [ ], ground arith)
  | inl e ↦
      let (skipped, deeper, split, news, none_of, base) =
        scan_older-eq-some o older (s ∷ newer) r (ground arith) in
      (
        s ∷ skipped,
        deeper,
        ap (◌∷◌ s) split,
        news,
        λ t m. elim m [ inl same ↦ rw (← same) e | inr k ↦ none_of t k ],
        base,
      )
]

pub scan_older-eq-none :
    (o : Origin) (older newer : List Ref)
    → scan_older o older newer ≡ none
    → (s : Ref) → Elem s older
    → base_of o s ≡ none
unfolding scan_older
scan_older-eq-none o [] newer h s m = elim m [ ]
scan_older-eq-none o (t ∷ older) newer h s (inl e) = rw (← e) (ground arith)
scan_older-eq-none o (t ∷ older) newer h s (inr m) =
    scan_older-eq-none o older (t ∷ newer) (ground arith) s m

-- What a rollback rests on: origin does not have the newest snapshot, `common` is the newest of the
-- older ones that origin can send from, and `newer` are exactly the snapshots behind it.
pub record RollsBack (o : Origin) (d : Dest) (p : DatasetPlan) : Type 0 where
  pub deeper : List Ref
  pub common : Ref
  pub skipped : List Ref
  pub top : Ref
  pub snaps : d.snaps ≡ deeper ++ (common ∷ (skipped ++ top ∷ []))
  pub lost : snap_by_guid o top.guid ≡ none
  pub passed : (s : Ref) → Elem s skipped → base_of o s ≡ none
  pub base : base_of o common ≡ some p.base
  pub common_name : p.common ≡ snap_name common
  pub newer_names : p.newer ≡ map snap_name (skipped ++ top ∷ [])

-- a destination with no snapshot has no newest one
pub newest_of_nil : (d : Dest) → reverse d.snaps ≡ [] → newest d ≡ none
unfolding newest get_last?
newest_of_nil d e =
    let empty : d.snaps ≡ [] = sym (reverse-reverse d.snaps) ∙ ap reverse e in rw empty

reverse-split :
    {A : Type 0} (t : A) (skipped : List A) (c : A) (deeper : List A)
    → reverse (t ∷ (skipped ++ (c ∷ deeper))) ≡ reverse deeper ++ (c ∷ (reverse skipped ++ t ∷ []))
reverse-split t skipped c deeper =
    reverse_aux-append skipped (c ∷ deeper) (t ∷ [])
    ∙ (reverse_aux-eq deeper (c ∷ reverse_aux skipped (t ∷ []))
        ∙ ap (λ r. reverse deeper ++ (c ∷ r)) (reverse_aux-eq skipped (t ∷ [])))

module _ (o : Origin) (d : Dest) (top : Ref) (older : List Ref)
    (e : reverse d.snaps ≡ top ∷ older) where
  pub snaps-eq : d.snaps ≡ reverse (top ∷ older)
  snaps-eq = sym (reverse-reverse d.snaps) ∙ ap reverse e

  pub newest-eq : newest d ≡ some top
  unfolding newest
  newest-eq = rw snaps-eq (rw (reverse-cons top older) (get_last?-append (reverse older) top))

  -- The scan below the newest snapshot, read in the order of the destination.
  scan-RollsBack :
      (r : Older) (p : DatasetPlan)
      → snap_by_guid o top.guid ≡ none
      → scan_older o older (top ∷ []) ≡ some r
      → p.base ≡ r.base
      → p.common ≡ snap_name r.common
      → p.newer ≡ map snap_name r.newer
      → RollsBack o d p
  scan-RollsBack r p lost h hb hc hn =
      let (skipped, deeper, split, news, none_of, base) =
        scan_older-eq-some o older (top ∷ []) r h in
      record {
        deeper = reverse deeper;
        common = r.common;
        skipped = reverse skipped;
        top = top;
        snaps =
            snaps-eq
            ∙ (ap (λ l. reverse (top ∷ l)) split ∙ reverse-split top skipped r.common deeper);
        lost = lost;
        passed = λ s m. elim (elem-reverse_aux s skipped [] m) [
          | inl k ↦ none_of s k
          | inr k ↦ elim k [ ]
        ];
        base = rw hb base;
        common_name = hc;
        newer_names = hn ∙ ap (map snap_name) (news ∙ reverse_aux-eq skipped (top ∷ []));
      }

plan_older-RollsBack :
    (o : Origin) (d : Dest) (top : Ref)
    → newest d ≡ some top
    → snap_by_guid o top.guid ≡ none
    → (plan_older o d).state ≡ State.rollback
    → RollsBack o d (plan_older o d)
unfolding plan_older
plan_older-RollsBack o d top n lost h = elim (List-cases (reverse d.snaps)) [
  | inl e ↦ absurd (ground arith)
  | inr (top', older, e) ↦
      let same : top' ≡ top = ground (arith, newest-eq o d top' older e) in
      elim (Option-cases (scan_older o older (top' ∷ []))) [
        | inl e' ↦ absurd (ground arith)
        | inr (r, e') ↦
            scan-RollsBack o d top' older e r _ (rw same lost) e' (ground arith) (ground arith)
              (ground arith)
      ]
]

plan_from-RollsBack :
    (o : Origin) (d : Dest) (point : Text) (top : Ref)
    → newest d ≡ some top
    → (plan_from o d point top).state ≡ State.rollback
    → RollsBack o d (plan_from o d point top)
unfolding plan_from
plan_from-RollsBack o d point top n h = elim (Option-cases (snap_by_guid o top.guid)) [
  | inr (own, e) ↦ absurd (ground arith)
  | inl e ↦ elim (Option-cases (plan_bookmark o top)) [
    | inr (p, e') ↦ absurd (unfold plan_bookmark in ground arith)
    | inl e' ↦
        let same : plan_older o d ≡ plan_from o d point top = ground arith in
        subst (RollsBack o d) same (plan_older-RollsBack o d top n e (rw same h))
  ]
]

plan_onto-rollback :
    (o : Origin) (d : Dest) (point : Text)
    → (plan_onto o d point).state ≡ State.rollback
    → plan_onto o d point ≡ plan_held o d point
unfolding plan_onto plan_partial without_partial
plan_onto-rollback o d point h = ground arith

-- A rollback is planned only where origin no longer has the drive's newest snapshot; it goes to the
-- newest older snapshot of the drive that origin can still send from, by a snapshot or, outside the
-- boot pool, a bookmark of the same guid; and the snapshots that it lists as destroyed are exactly
-- those of the drive behind that one.
pub plan_dataset-RollsBack :
    (o : Origin) (d : Dest) (point : Text)
    → (plan_dataset o (some d) point).state ≡ State.rollback
    → RollsBack o d (plan_dataset o (some d) point)
unfolding plan_dataset plan_held
plan_dataset-RollsBack o d point h =
    let same = plan_onto-rollback o d point h in
    elim (List-cases d.token) [
      | inr (c, t, e) ↦ absurd (ground arith)
      | inl e ↦ elim (Option-cases (newest d)) [
        | inl n ↦ absurd (ground arith)
        | inr (top, n) ↦
            let same' : plan_from o d point top ≡ plan_onto o d point = ground arith in
            subst (RollsBack o d) same' (plan_from-RollsBack o d point top n (rw same' h))
      ]
    ]
