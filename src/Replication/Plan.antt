-- ===== src/Replication/Plan.antt =====
-- lib/replication.py: `plan`, the rows of a whole backup, and `shared_snapshots`.
pub mod Rows
pub mod Orphans
pub mod Renames
pub mod Shared
use zark.Base.{
  ℕ, ◌+◌, ◌*◌, ◌/◌, Bool, true, false, not, ◌&&◌, ◌||◌, Option, none, some, List, [], ◌∷◌, ◌++◌,
  map, ltb, leb, if◌then◌else◌, is_some, select, any, all, find_first, flat_map, sort_by, Dict, get,
  get_or, has_key, put, keys, values, Text, codes, text_eq, text_le, starts_with, mem_text, before,
  after,
}
use zark.Replication.Names.{
  is_under, is_bpool, parent, is_archived, keystore, structural, shared_kind,
}
use zark.Replication.Model.{
  with_guid, snap_by_guid, bookmark_by_guid, newest, continues, is_new, is_at_point, is_left_out,
  bare, Ref, Origin, Dest, State, DatasetPlan, new, orphan,
}
use zark.Replication.Dataset.{plan_dataset}

unfoldable pub is_excluded : Text → List Text → Bool
is_excluded rel skip = any (is_under rel) skip

unfoldable pub is_volume : Origin → Bool
is_volume o = text_eq o.kind (codes "volume")

-- the condition of the comprehension in `expected`
unfoldable pub is_expected : List Text → Text → Origin → Bool
is_expected skip rel o =
    not (is_under rel keystore)
    && (not (is_volume o)
        && (not (mem_text rel structural) && (not (is_archived rel) && not (is_excluded rel skip))))

unfoldable pub expected : Dict Origin → List Text → List Text
expected origin skip = sort_by text_le (keys (select (λ e. is_expected skip e.0 e.1) origin))

abbrev pub data_limit : ℕ
data_limit = 8 * 1024 * 1024

-- the order of Python on pairs of texts
unfoldable pub pair_le : Text × Text → Text × Text → Bool
pair_le (a, b) (c, d) = if text_eq a c then text_le b d else text_le a c

abbrev pub reserved_name : Text
reserved_name =
    codes "its name contains .archived-, which zark reserves for archived lineages: rename it"

-- the row for a structural container that holds or could hold data
unfoldable pub container_row : Dict Origin → Text → List (Text × Text)
container_row origin rel = elim (get rel origin) [
  | none ↦ []
  | some o ↦
      if ltb data_limit o.referenced
      then (rel, codes "structural container holding data, not backed up") ∷ []
      else if (text_eq o.canmount (codes "on") || text_eq o.canmount (codes "noauto"))
          && starts_with (codes "/") o.mountpoint
      then (
        rel,
        codes "structural container mountable at " ++ (o.mountpoint ++ codes ", not backed up"),
      )
        ∷ []
      else []
]

unfoldable pub excluded : Dict Origin → List (Text × Text)
excluded origin =
    let volumes =
      map (λ (e : Text × Origin). (e.0, codes "zvol, not backed up"))
        (select (λ e. is_volume e.1 && not (text_eq e.0 keystore)) origin) in
    let archived =
      map (λ (e : Text × Origin). (e.0, reserved_name))
        (select (λ e. is_archived e.0 && not (is_volume e.1)) origin) in
    sort_by pair_le (volumes ++ (archived ++ flat_map (container_row origin) structural))

unfoldable pub live_of : Dict Dest → Dict Dest
live_of dest = select (λ e. not (is_archived e.0)) dest

-- `o.clone_of.partition("@")`, the snapshot of that name in origin, and the drive's copy of it
unfoldable pub clone_copy : Origin → Origin → Dest → Option Ref
clone_copy o parent_o held = elim (after b'@' o.clone_of) [
  | [] ↦ none
  | c ∷ s ↦ elim (find_first (λ r. text_eq r.name (c ∷ s)) parent_o.snaps) [
    | none ↦ none
    | some snap ↦ with_guid snap.guid held.snaps
  ]
]

unfoldable pub clone_base : Dict Origin → Dict Dest → Origin → DatasetPlan → DatasetPlan
clone_base origin live o p =
    let src = before b'@' o.clone_of in
    elim (get src origin) [
      | none ↦ p
      | some parent_o ↦ elim (get src live) [
        | none ↦ p
        | some held ↦ elim (clone_copy o parent_o held) [
          | none ↦ p
          | some copy ↦ record p {
            base = o.clone_of;
            clone_from = src ++ (b'@' ∷ copy.name);
            note = codes "clone of " ++ o.clone_of;
          }
        ]
      ]
    ]

-- the row of one expected dataset; `origin[rel]` is there for each of them
unfoldable pub expected_row : Dict Origin → Dict Dest → Text → Text → List DatasetPlan
expected_row origin live point rel = elim (get rel origin) [
  | none ↦ []
  | some o ↦
      let p = plan_dataset o (get rel live) point in
      (if is_new p.state then clone_base origin live o p else p) ∷ []
]

unfoldable pub excluded_rows : Dict Origin → List Text → List DatasetPlan
excluded_rows origin skip =
    map (λ (e : Text × Text). record (bare e.0 State.excluded) { note = e.1 })
      (select (λ e. not (is_excluded e.0 skip)) (excluded origin))

unfoldable pub sum_referenced : Text → Dict Origin → ℕ
sum_referenced top [] = 0
sum_referenced top ((rel, o) ∷ origin) =
    let rest = sum_referenced top origin in
    if is_excluded rel (top ∷ []) then o.referenced + rest else rest

abbrev pub kept_prefix : Text
kept_prefix = codes "kept@"

unfoldable pub declared_row : Dict Origin → Dict Dest → Text → DatasetPlan
declared_row origin live top = record (bare top State.excluded) {
  note = codes "excluded from backups (zark exclude)";
  used = sum_referenced top origin;
  declared = true;
  held = has_key top live;
  kept = elim (get top live) [ none ↦ false | some h ↦ starts_with kept_prefix h.excluded_kept ];
}

unfoldable pub declared_rows : Dict Origin → Dict Dest → List Text → List DatasetPlan
declared_rows origin live skip =
    map (declared_row origin live) (sort_by text_le (select (λ t. has_key t origin) skip))

unfoldable pub orphans : Dict Origin → Dict Dest → List Text
orphans origin live =
    sort_by text_le
      (select (λ rel. not (has_key rel origin) && not (mem_text rel structural)) (keys live))

unfoldable pub orphan_tops : Dict Origin → Dict Dest → List Text
orphan_tops origin live =
    let all_orphans = orphans origin live in
    select (λ rel. not (mem_text (parent rel) all_orphans)) all_orphans

abbrev bool_eq : Bool → Bool → Bool
bool_eq true b = b
bool_eq false b = not b

-- whether origin's new dataset `name` continues the lineage whose newest snapshot is `top`
unfoldable pub continues_as : Dict Origin → Dict Dest → Text → Ref → Text → Bool
continues_as origin live rel top name = elim (get name origin) [
  | none ↦ false
  | some o ↦
      bool_eq (is_bpool name) (is_bpool rel)
      && ((is_some (snap_by_guid o top.guid)
            || (not (is_bpool name) && is_some (bookmark_by_guid o top.guid)))
          && has_key (parent name) live)
]

unfoldable pub rename_of : Dict Origin → Dict Dest → List Text → List Text → Text → Option Text
rename_of origin live names taken rel = elim (get rel live) [
  | none ↦ none
  | some d ↦ elim (newest d) [
    | none ↦ none
    | some top ↦
        find_first (λ name. continues_as origin live rel top name && not (mem_text name taken))
          names
  ]
]

-- `_renames`: `out` is what the earlier tops were given
unfoldable pub renames : Dict Origin → Dict Dest → List Text → List Text → Dict Text → Dict Text
renames origin live names [] out = out
renames origin live names (rel ∷ tops) out =
    renames origin live names tops (elim (rename_of origin live names (values out) rel) [
      | none ↦ out
      | some name ↦ out ++ (rel, name) ∷ []
    ])

unfoldable pub orphan_row : Dict Dest → Dict Text → Text → List DatasetPlan
orphan_row live named rel = elim (get rel live) [
  | none ↦ []
  | some d ↦
      record (bare rel State.orphan) {
        rename_to = get_or [] rel named;
        kept = starts_with kept_prefix d.orphan;
        used = d.used;
      }
      ∷ []
]

-- the rows before the orphans are looked for
unfoldable pub origin_rows : Dict Origin → Dict Dest → Text → List Text → List DatasetPlan
origin_rows origin live point skip =
    flat_map (expected_row origin live point) (expected origin skip)
    ++ (excluded_rows origin skip ++ declared_rows origin live skip)

unfoldable pub orphan_rows : Dict Origin → Dict Dest → List DatasetPlan → List DatasetPlan
orphan_rows origin live rows =
    let tops = orphan_tops origin live in
    let names = sort_by text_le (map (λ p. p.rel) (select (λ p. is_new p.state) rows)) in
    flat_map (orphan_row live (renames origin live names tops [])) tops

unfoldable pub plan : Dict Origin → Dict Dest → Text → List Text → List DatasetPlan
plan origin dest point skip =
    let live = live_of dest in
    let rows = origin_rows origin live point skip in rows ++ orphan_rows origin live rows

-- I-D: every expected dataset is at the point
unfoldable pub reached : List DatasetPlan → Bool
reached plans = all (λ p. is_left_out p.state || is_at_point p.state) plans

-- the newest of each kind that both sides hold, in a dict by kind
unfoldable pub newest_shared : List Text → List Ref → Dict Ref → Dict Ref
newest_shared held [] out = out
newest_shared held (s ∷ snaps) out =
    let kind = shared_kind s.name in
    newest_shared held snaps
      (if not (text_eq kind []) && mem_text s.guid held then put kind s out else out)

abbrev pub txg_le : Ref → Ref → Bool
txg_le a b = leb a.createtxg b.createtxg

unfoldable pub shared_of : Origin → Option Dest → List Ref
shared_of o d =
    let held : List Text = elim d [ none ↦ [] | some d' ↦ map (λ s. s.guid) d'.snaps ] in
    sort_by txg_le (values (newest_shared held o.snaps []))

unfoldable pub shared_snapshots : Dict Origin → Dict Dest → List Text → Dict (List Ref)
shared_snapshots origin dest skip =
    flat_map
      (λ rel. elim (get rel origin) [ none ↦ [] | some o ↦ (rel, shared_of o (get rel dest)) ∷ [] ])
      (expected origin skip)
