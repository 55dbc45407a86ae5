-- ===== src/Replication/Dataset.antt =====
-- lib/replication.py: `plan_dataset`, what one expected dataset needs.
pub mod Bases
pub mod Rollback
pub mod States
use zark.Base.{
  true, ◌&&◌, ◌||◌, Option, none, some, List, [], ◌∷◌, map, ltb, if◌then◌else◌, is_some, find_first,
  Text, codes, text_eq,
}
use mathlib.Core.List.{reverse}
use zark.Replication.Names.{is_bpool}
use zark.Replication.Model.{
  snap_by_guid, bookmark_by_guid, newest, continues, is_resume, bare, Ref, Origin, Dest, State,
  DatasetPlan,
}

-- `f"@{name}"`, `f"#{name}"`
abbrev pub snap_name : Ref → Text
snap_name s = b'@' ∷ s.name

abbrev pub bookmark_name : Ref → Text
bookmark_name b = b'#' ∷ b.name

-- What origin could send from for a snapshot of the drive: `own_old`, else `bm_old`.
unfoldable pub base_of : Origin → Ref → Option Text
base_of o s = elim (snap_by_guid o s.guid) [
  | some own ↦ some (snap_name own)
  | none ↦
      if is_bpool o.rel
      then none
      else elim (bookmark_by_guid o s.guid) [ some b ↦ some (bookmark_name b) | none ↦ none ]
]

pub record Older : Type 0 where
  pub base : Text
  pub common : Ref
  pub newer : List Ref

-- The loop over the older snapshots, newest first; `newer` is `d.snaps[i + 1:]`.
unfoldable pub scan_older : Origin → List Ref → List Ref → Option Older
scan_older o [] newer = none
scan_older o (s ∷ older) newer =
    let rest = scan_older o older (s ∷ newer) in
    elim (base_of o s) [
      | some b ↦ some (record { base = b; common = s; newer = newer })
      | none ↦ rest
    ]

-- the first snapshot of origin behind the bookmark
unfoldable pub first_later : Origin → Ref → Option Ref
first_later o bm = find_first (λ s. ltb bm.createtxg s.createtxg) o.snaps

unfoldable pub plan_bookmark : Origin → Ref → Option DatasetPlan
plan_bookmark o top = if is_bpool o.rel then none else elim (bookmark_by_guid o top.guid) [
  | none ↦ none
  | some bm ↦ elim (first_later o bm) [
    | none ↦ none
    | some later ↦ some (record (bare o.rel State.via_bookmark) {
      base = bookmark_name bm;
      first = snap_name later;
    })
  ]
]

-- the newest is gone from origin
unfoldable pub plan_older : Origin → Dest → DatasetPlan
plan_older o d = elim (reverse d.snaps) [
  | [] ↦ record (bare o.rel State.diverged) { used = d.used; note = codes "no snapshot on backup" }
  | top ∷ older ↦ elim (scan_older o older (top ∷ [])) [
    | none ↦ record (bare o.rel State.diverged) {
      used = d.used;
      note = codes "no common snapshot or bookmark";
    }
    | some r ↦ record (bare o.rel State.rollback) {
      base = r.base;
      common = snap_name r.common;
      newer = map snap_name r.newer;
      used = d.used;
    }
  ]
]

-- `_plan_dataset` for a destination whose newest snapshot is `top`
unfoldable pub plan_from : Origin → Dest → Text → Ref → DatasetPlan
plan_from o d point top = elim (snap_by_guid o top.guid) [
  | some own ↦
      if text_eq own.name point
      then bare o.rel State.at_point
      else record (bare o.rel State.incremental) { base = snap_name own }
  | none ↦ elim (plan_bookmark o top) [ some p ↦ p | none ↦ plan_older o d ]
]

-- `_plan_dataset`, where the destination exists
unfoldable pub plan_held : Origin → Dest → Text → DatasetPlan
plan_held o d point = elim d.token [
  | [] ↦ elim (newest d) [
    | none ↦ record (bare o.rel State.diverged) {
      used = d.used;
      note = codes "no snapshot on backup";
    }
    | some top ↦ plan_from o d point top
  ]
  | c ∷ t ↦ bare o.rel State.resume
]

abbrev pub newest_name : Dest → Text
newest_name d = elim (newest d) [ none ↦ [] | some top ↦ snap_name top ]

-- a destination written since its newest snapshot, with partial receive state: planned without it
unfoldable pub without_partial : Origin → Dest → Text → DatasetPlan
without_partial o d point =
    let p = plan_held o (record d { token = [] }) point in
    let q = record p { partial = true; after = some p.state } in
    if continues p.state then q else record q { base = [] }

unfoldable pub plan_partial : Origin → Dest → Text → DatasetPlan
plan_partial o d point =
    let p = plan_held o d point in
    if ltb 0 d.written && (is_resume p.state && is_some (newest d))
    then without_partial o d point
    else p

unfoldable pub plan_onto : Origin → Dest → Text → DatasetPlan
plan_onto o d point =
    let p = plan_partial o d point in
    if (ltb 0 d.written && continues p.state) || p.partial
    then record p { state = State.modified; used = d.written; common = newest_name d }
    else p

unfoldable pub plan_dataset : Origin → Option Dest → Text → DatasetPlan
plan_dataset o none point = bare o.rel State.new
plan_dataset o (some d) point = plan_onto o d point
