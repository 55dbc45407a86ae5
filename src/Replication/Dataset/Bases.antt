-- ===== src/Replication/Dataset/Bases.antt =====
-- `plan_dataset`: what each planned state says of the two sides.
use mathlib.Core.Path.{subst}
use zark.Base.{
  ◌<◌, ◌≡◌, inl, inr, true, false, some, [], arith, Bool-cases, Option-cases, Elem, List-cases,
  find_first-eq-some, Text,
}
use zark.Replication.Names.{is_bpool}
use zark.Replication.Model.{
  with_guid-eq-some, snap_by_guid, bookmark_by_guid, newest, continues, Ref, Origin, Dest,
  DatasetPlan,
}
use zark.Replication.Dataset.{
  snap_name, bookmark_name, first_later, plan_bookmark, plan_older, plan_from, plan_held,
  without_partial, plan_partial, plan_onto, plan_dataset,
}

-- What an incremental from the drive's newest snapshot rests on: origin has that very snapshot, or,
-- outside the boot pool, a bookmark of it with a later snapshot to go on from.
pub data Continues (o : Origin) (top : Ref) (p : DatasetPlan) : Type 0 where
  snapshot :
      (own : Ref)
      → Elem own o.snaps
      → own.guid ≡ top.guid
      → p.base ≡ snap_name own
      → Continues o top p
  bookmark :
      (bm later : Ref)
      → is_bpool o.rel ≡ false
      → Elem bm o.bookmarks
      → bm.guid ≡ top.guid
      → p.base ≡ bookmark_name bm
      → Elem later o.snaps
      → bm.createtxg < later.createtxg
      → p.first ≡ snap_name later
      → Continues o top p

first_later-eq-some :
    (o : Origin) (bm later : Ref)
    → first_later o bm ≡ some later
    → Elem later o.snaps × (bm.createtxg < later.createtxg)
unfolding first_later
first_later-eq-some o bm later h =
    let f = find_first-eq-some _ later o.snaps h in (f.0, ground arith)

plan_bookmark-Continues :
    (o : Origin) (top : Ref) (p : DatasetPlan) → plan_bookmark o top ≡ some p → Continues o top p
unfolding plan_bookmark
plan_bookmark-Continues o top p h = elim (Bool-cases (is_bpool o.rel)) [
  | inl b ↦ absurd (ground arith)
  | inr nb ↦ elim (Option-cases (bookmark_by_guid o top.guid)) [
    | inl e ↦ absurd (ground arith)
    | inr (bm, e) ↦ elim (Option-cases (first_later o bm)) [
      | inl e' ↦ absurd (ground arith)
      | inr (later, e') ↦
          let b = with_guid-eq-some top.guid o.bookmarks bm (unfold bookmark_by_guid in e) in
          let l = first_later-eq-some o bm later e' in
          Continues.bookmark bm later nb b.0 b.1 (ground arith) l.0 l.1 (ground arith)
    ]
  ]
]

plan_older-not_continues : (o : Origin) (d : Dest) → continues (plan_older o d).state ≡ false
unfolding plan_older
plan_older-not_continues o d = ground arith

plan_from-Continues :
    (o : Origin) (d : Dest) (point : Text) (top : Ref)
    → continues (plan_from o d point top).state ≡ true
    → Continues o top (plan_from o d point top)
unfolding plan_from
plan_from-Continues o d point top h = elim (Option-cases (snap_by_guid o top.guid)) [
  | inr (own, e) ↦
      let w = with_guid-eq-some top.guid o.snaps own (unfold snap_by_guid in e) in
      Continues.snapshot own w.0 w.1 (ground arith)
  | inl e ↦ elim (Option-cases (plan_bookmark o top)) [
    | inl e' ↦ absurd (ground (arith, plan_older-not_continues o d))
    | inr (p, e') ↦
        let same : p ≡ plan_from o d point top = ground arith in
        subst (Continues o top) same (plan_bookmark-Continues o top p e')
  ]
]

-- The state of a planned dataset that was not asked about: what the destination is like.
abbrev pub IsClean : Dest → Type 0
IsClean d = (d.token ≡ []) × (d.written ≡ 0)

plan_held-Continues :
    (o : Origin) (d : Dest) (point : Text)
    → continues (plan_held o d point).state ≡ true
    → (top : Ref) × (newest d ≡ some top) × (d.token ≡ []) × Continues o top (plan_held o d point)
unfolding plan_held
plan_held-Continues o d point h = elim (List-cases d.token) [
  | inr (c, t, e) ↦ absurd (ground arith)
  | inl e ↦ elim (Option-cases (newest d)) [
    | inl n ↦ absurd (ground arith)
    | inr (top, n) ↦
        let same : plan_from o d point top ≡ plan_held o d point = ground arith in
        (top, n, e, subst (Continues o top) same (plan_from-Continues o d point top (rw same h)))
  ]
]

-- A row that continues comes from `plan_held` as it is, onto a destination that was not written.
plan_onto-eq-plan_held :
    (o : Origin) (d : Dest) (point : Text)
    → continues (plan_onto o d point).state ≡ true
    → (plan_onto o d point ≡ plan_held o d point) × (d.written ≡ 0)
unfolding plan_onto plan_partial without_partial
plan_onto-eq-plan_held o d point h = ground arith

-- An incremental, from a snapshot or through a bookmark, is planned only onto a destination with no
-- partial receive that was not written since its newest snapshot, and always starts from that newest
-- snapshot: origin holds it by guid, or holds a bookmark of it outside the boot pool and a later
-- snapshot to send next.
pub plan_dataset-Continues :
    (o : Origin) (d : Dest) (point : Text)
    → continues (plan_dataset o (some d) point).state ≡ true
    → IsClean d
      × ((top : Ref) × (newest d ≡ some top) × Continues o top (plan_dataset o (some d) point))
unfolding plan_dataset
plan_dataset-Continues o d point h =
    let (same, w) = plan_onto-eq-plan_held o d point h in
    let (top, n, t, c) = plan_held-Continues o d point (rw same at h) in
    ((t, w), (top, n, rw same c))
