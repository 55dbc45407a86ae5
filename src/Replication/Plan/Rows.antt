-- ===== src/Replication/Plan/Rows.antt =====
-- `plan`: the rows of the expected datasets, and what is only on the drive.
use zark.Base.{
  ◌≡◌, refl, inl, inr, true, false, not, ◌||◌, Option, none, some, List, [], arith, if◌then◌else◌,
  Bool-cases, Elem, elem-select_iff, all→elem, elem-append_iff, flat_map, elem-flat_map_of,
  elem-sort_by_iff, Dict, get, Text, text_le, elem_keys→get, elem-keys, elem_keys→elem, get-select,
}
use zark.Replication.Names.{is_archived}
use zark.Replication.Model.{is_new, is_at_point, is_left_out, Origin, Dest, DatasetPlan}
use zark.Replication.Dataset.{
  plan_bookmark, plan_older, plan_from, plan_held, without_partial, plan_partial, plan_onto,
  plan_dataset,
}
use zark.Replication.Dataset.States.{plan_dataset-HoldsPoint, HoldsPoint}
use zark.Replication.Plan.{
  is_expected, expected, live_of, clone_base, expected_row, origin_rows, plan, reached,
}

-- An expected dataset is one of origin's, and passes every test of the comprehension.
pub elem-expected :
    (origin : Dict Origin) (skip : List Text) (rel : Text)
    → Elem rel (expected origin skip)
    → (o : Origin) × Elem (rel, o) origin × (is_expected skip rel o ≡ true)
unfolding expected
elem-expected origin skip rel m =
    let k = (elem-sort_by_iff text_le rel _).0 m in
    let (o, e) = elem_keys→elem rel _ k in
    let s =
      (elem-select_iff (λ (e : Text × Origin). is_expected skip e.0 e.1) (rel, o) origin).0 e in
    (o, s.0, s.1)

pub expected→get :
    (origin : Dict Origin) (skip : List Text) (rel : Text)
    → Elem rel (expected origin skip)
    → (o : Origin) × (get rel origin ≡ some o)
expected→get origin skip rel m =
    let (o, e, h) = elem-expected origin skip rel m in
    elem_keys→get rel origin (elem-keys rel o origin e)

expected-not_archived :
    (origin : Dict Origin) (skip : List Text) (rel : Text)
    → Elem rel (expected origin skip)
    → is_archived rel ≡ false
expected-not_archived origin skip rel m =
    let (o, e, h) = elem-expected origin skip rel m in unfold is_expected in ground arith

get-live_of :
    (dest : Dict Dest) (rel : Text)
    → get rel (live_of dest) ≡ (if not (is_archived rel) then get rel dest else none)
unfolding live_of
get-live_of dest rel = get-select (λ k. not (is_archived k)) rel dest

plan_held-not_left_out :
    (o : Origin) (d : Dest) (point : Text) → is_left_out (plan_held o d point).state ≡ false
unfolding plan_held plan_from plan_bookmark plan_older
plan_held-not_left_out o d point = ground arith

pub plan_dataset-not_left_out :
    (o : Origin) (d : Option Dest) (point : Text)
    → is_left_out (plan_dataset o d point).state ≡ false
unfolding plan_dataset plan_onto plan_partial without_partial
plan_dataset-not_left_out o none point = refl
plan_dataset-not_left_out o (some d) point = ground (arith, plan_held-not_left_out o d point)

state-clone_base :
    (origin : Dict Origin) (live : Dict Dest) (o : Origin) (p : DatasetPlan)
    → (clone_base origin live o p).state ≡ p.state
unfolding clone_base
state-clone_base origin live o p = ground arith

-- the row of one expected dataset
abbrev pub row_of : Dict Origin → Dict Dest → Text → Origin → Text → DatasetPlan
row_of origin live point o rel =
    let p = plan_dataset o (get rel live) point in
    if is_new p.state then clone_base origin live o p else p

pub state-row_of :
    (origin : Dict Origin) (live : Dict Dest) (point : Text) (o : Origin) (rel : Text)
    → (row_of origin live point o rel).state ≡ (plan_dataset o (get rel live) point).state
state-row_of origin live point o rel =
    elim (Bool-cases (is_new (plan_dataset o (get rel live) point).state)) [
      | inl t ↦ rw t (state-clone_base origin live o _)
      | inr t ↦ rw t
    ]

row-elem :
    (origin : Dict Origin) (live : Dict Dest) (point : Text) (rel : Text) (o : Origin)
    → get rel origin ≡ some o
    → Elem (row_of origin live point o rel) (expected_row origin live point rel)
unfolding expected_row
row-elem origin live point rel o e = rw (e, expected_row) (inl refl)

-- I-D: where `reached` holds of the rows of `plan`, every expected dataset is on the drive with no
-- partial receive, and its newest snapshot there is, by guid, origin's snapshot of the point.
pub reached-plan :
    (origin : Dict Origin) (dest : Dict Dest) (point : Text) (skip : List Text) (rel : Text)
    → reached (plan origin dest point skip) ≡ true
    → Elem rel (expected origin skip)
    → (o : Origin) × (d : Dest) × (get rel origin ≡ some o)
      × (get rel dest ≡ some d)
      × (d.token ≡ [])
      × HoldsPoint o d point
unfolding plan reached origin_rows
reached-plan origin dest point skip rel h m =
    let (o, e) = expected→get origin skip rel m in
    let live = live_of dest in
    let row = row_of origin live point o rel in
    let in_rows : Elem row (plan origin dest point skip) =
      (elem-append_iff row (origin_rows origin live point skip) _).1 (
        inl (
          (elem-append_iff row (flat_map (expected_row origin live point) (expected origin skip))
              _).1
            (inl (
              elem-flat_map_of (expected_row origin live point) row rel (expected origin skip) m
                (row-elem origin live point rel o e))))) in
    let ok : (is_left_out row.state || is_at_point row.state) ≡ true = all→elem _ row _ h in_rows in
    let at : is_at_point (plan_dataset o (get rel live) point).state ≡ true = ground (
      arith,
      state-row_of origin live point o rel,
      plan_dataset-not_left_out o (get rel live) point,
    ) in
    let (d, g, t, held) = plan_dataset-HoldsPoint o (get rel live) point at in
    (
      o,
      d,
      e,
      ground (arith, get-live_of dest rel, expected-not_archived origin skip rel m),
      t,
      held,
    )
