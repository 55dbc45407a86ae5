-- ===== src/Replication/Plan/Orphans.antt =====
-- `plan`: which datasets of the drive have the row of an orphan.
use zark.Base.{
  ◌≡◌, ap, ◌∙◌, ◌≢◌, inl, inr, false, not, List, [], ◌∷◌, arith, Option-cases, Elem,
  elem-select_iff, elem-append_iff, elem-map, elem-flat_map, elem-sort_by_iff, Dict, get, has_key,
  keys, Text, text_le, mem_text, elem-keys, elem_keys→elem,
}
use zark.Replication.Names.{parent, is_archived, structural}
use zark.Replication.Model.{is_left_out, bare, Origin, Dest, State, DatasetPlan}
use zark.Replication.Plan.Rows.{plan_dataset-not_left_out, row_of, state-row_of}
use zark.Replication.Plan.{
  live_of, expected_row, excluded_rows, declared_row, declared_rows, orphans, orphan_tops,
  orphan_row, origin_rows, orphan_rows, plan,
}

-- What a row for a dataset that is only on the drive says of the two sides.
pub record OnlyOnDrive (origin : Dict Origin) (dest : Dict Dest) (rel : Text) : Type 0 where
  pub on_drive : Elem rel (keys dest)
  pub not_in_origin : has_key rel origin ≡ false
  pub not_archived : is_archived rel ≡ false
  pub not_structural : mem_text rel structural ≡ false

elem-orphans :
    (origin : Dict Origin) (dest : Dict Dest) (rel : Text)
    → Elem rel (orphans origin (live_of dest))
    → OnlyOnDrive origin dest rel
unfolding orphans live_of
elem-orphans origin dest rel m =
    let s = (elem-select_iff _ rel _).0 ((elem-sort_by_iff text_le rel _).0 m) in
    let (d, e) = elem_keys→elem rel (live_of dest) s.0 in
    let l = (elem-select_iff (λ (e : Text × Dest). not (is_archived e.0)) (rel, d) dest).0 e in
    record {
      on_drive = elem-keys rel d dest l.0;
      not_in_origin = ground (arith, s.1);
      not_archived = ground (arith, l.1);
      not_structural = ground (arith, s.1);
    }

elem-orphan_tops :
    (origin : Dict Origin) (dest : Dict Dest) (rel : Text)
    → Elem rel (orphan_tops origin (live_of dest))
    → OnlyOnDrive origin dest rel × (mem_text (parent rel) (orphans origin (live_of dest)) ≡ false)
unfolding orphan_tops
elem-orphan_tops origin dest rel m =
    let s = (elem-select_iff _ rel _).0 m in (elem-orphans origin dest rel s.0, ground (arith, s.1))

rel-orphan_row :
    (live : Dict Dest) (named : Dict Text) (rel : Text) (p : DatasetPlan)
    → Elem p (orphan_row live named rel)
    → p.rel ≡ rel
unfolding orphan_row
rel-orphan_row live named rel p m = ground arith

-- no row before the orphans is one
expected_row-not_left_out :
    (origin : Dict Origin) (live : Dict Dest) (point rel : Text) (p : DatasetPlan)
    → Elem p (expected_row origin live point rel)
    → is_left_out p.state ≡ false
unfolding expected_row
expected_row-not_left_out origin live point rel p m = elim (Option-cases (get rel origin)) [
  | inl e ↦ absurd (ground arith)
  | inr (o, e) ↦
      let m' : Elem p (row_of origin live point o rel ∷ []) = rw (e, expected_row) at m in
      elim m' [
        | inl same ↦ rw (← same) (
            ap is_left_out (state-row_of origin live point o rel)
            ∙ plan_dataset-not_left_out o (get rel live) point)
        | inr k ↦ elim k [ ]
      ]
]

excluded_rows-excluded :
    (origin : Dict Origin) (skip : List Text) (p : DatasetPlan)
    → Elem p (excluded_rows origin skip)
    → p.state ≡ State.excluded
unfolding excluded_rows
excluded_rows-excluded origin skip p m =
    let (e, k, same) =
      elem-map (λ (e : Text × Text). record (bare e.0 State.excluded) { note = e.1 }) p _ m in
    rw (← same)

declared_rows-excluded :
    (origin : Dict Origin) (live : Dict Dest) (skip : List Text) (p : DatasetPlan)
    → Elem p (declared_rows origin live skip)
    → p.state ≡ State.excluded
unfolding declared_rows declared_row
declared_rows-excluded origin live skip p m =
    let (top, k, same) = elem-map (declared_row origin live) p _ m in rw (← same)

origin_rows-not_orphan :
    (origin : Dict Origin) (live : Dict Dest) (point : Text) (skip : List Text) (p : DatasetPlan)
    → Elem p (origin_rows origin live point skip)
    → p.state ≢ State.orphan
unfolding origin_rows
origin_rows-not_orphan origin live point skip p m h = elim ((elem-append_iff p _ _).0 m) [
  | inl k ↦
      let (rel, r, row) = elem-flat_map (expected_row origin live point) p _ k in
      ground (arith, expected_row-not_left_out origin live point rel p row)
  | inr k ↦ elim ((elem-append_iff p _ _).0 k) [
    | inl x ↦ ground (arith, excluded_rows-excluded origin skip p x)
    | inr x ↦ ground (arith, declared_rows-excluded origin live skip p x)
  ]
]

-- A row of `plan` for an orphan (its state says so) is of a dataset of the drive that origin does not
-- have, that is no archived lineage and no structural container, and whose parent is no orphan itself.
pub plan-OnlyOnDrive :
    (origin : Dict Origin) (dest : Dict Dest) (point : Text) (skip : List Text) (p : DatasetPlan)
    → Elem p (plan origin dest point skip)
    → p.state ≡ State.orphan
    → OnlyOnDrive origin dest p.rel
      × (mem_text (parent p.rel) (orphans origin (live_of dest)) ≡ false)
unfolding plan orphan_rows
plan-OnlyOnDrive origin dest point skip p m h =
    let live = live_of dest in
    let rows = origin_rows origin live point skip in
    elim ((elem-append_iff p rows _).0 m) [
      | inl k ↦ absurd (origin_rows-not_orphan origin live point skip p k h)
      | inr k ↦
          let (rel, r, row) = elem-flat_map (orphan_row live _) p _ k in
          rw (rel-orphan_row live _ rel p row) (elem-orphan_tops origin dest rel r)
    ]
