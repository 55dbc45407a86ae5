-- ===== src/OriginPrune.antt =====
-- lib/origin_prune.py: what `zark prune` may remove in origin, by kind.
pub mod Residues
mod Tests
use zark.Base.{
  ℕ, Bool, true, not, ◌&&◌, Option, none, some, List, [], ◌∷◌, ◌++◌, map, ltb, ◌==◌, if◌then◌else◌,
  select, find_first, flat_map, sort_by, Dict, put, append_at, Text, codes, text_eq, text_le,
  starts_with, mem_text,
}
use zark.Replication.Names.{
  strip_prefix, is_point, anchor_disk, is_bpool, keystore, structural, ends_with, sanoid_types,
}
use zark.Replication.Model.{Ref, Origin}
use zark.Replication.Plan.{expected}
use zark.Retention.Prune.{target_of, sorted_items}

pub record Item : Type 0 where
  pub target : Text
  pub creation : ℕ
  pub reason : Text

pub record Inventory : Type 0 where
  pub autosnaps : Dict (List Item)
  pub residues : List Item
  pub residues_kept : List Item
  pub points : List Item
  pub anchors : Dict (List Item)
  pub unanchored : Dict (List Text)

abbrev pub no_items : Inventory
no_items = record {
  autosnaps = [];
  residues = [];
  residues_kept = [];
  points = [];
  anchors = [];
  unanchored = [];
}

-- `AUTOSNAP_TYPE`: its `.*` may be empty
unfoldable pub autosnap_type : Text → Option Text
autosnap_type name = elim (strip_prefix (codes "autosnap_") name) [
  | none ↦ none
  | some s ↦ find_first (λ type. ends_with (b'_' ∷ type) s) sanoid_types
]

unfoldable pub anchored_by : Origin → List Text
anchored_by o =
    select (λ g. not (text_eq g []))
      (map (λ (r : Ref). anchor_disk r.name) (o.bookmarks ++ o.snaps))

-- the drives, by name, with no anchor on the dataset
unfoldable pub missing_on : Dict Text → Origin → List Text
missing_on drives o =
    sort_by text_le
      (map (λ (d : Text × Text). d.1) (select (λ d. not (mem_text d.0 (anchored_by o))) drives))

-- `", ".join(names)`
unfoldable pub join_names : List Text → Text
join_names [] = []
join_names (t ∷ ts) = elim ts [ [] ↦ t | u ∷ us ↦ t ++ (codes ", " ++ join_names ts) ]

-- Which branch of the loop takes a snapshot, with the reason that it gives.
pub data Class : Type 0 where
  autosnap : Text → Class
  point : Text → Class
  anchor : Text → Class
  residue : Text → Class
  residue_kept : Text → Class
  neither : Class

unfoldable pub classify_residue : Dict Text → Text → Origin → Text → Class
classify_residue drives rel o name =
    if text_eq rel keystore && starts_with (codes "prepare_") name
    then Class.residue (codes "keystore snapshot left by prepare")
    else if not (starts_with (codes "syncoid_") name)
    then Class.neither
    else if mem_text rel structural
    then Class.residue (codes "syncoid residue on a container zark 2 does not replicate")
    else elim (missing_on drives o) [
      | [] ↦ Class.residue (codes "syncoid residue; every registered drive has an anchor here")
      | m ∷ ms ↦ Class.residue_kept (
          join_names (m ∷ ms)
          ++ (codes " has no anchor on " ++ (rel ++ codes ": it may be its base")))
    ]

unfoldable pub classify : Dict Text → Text → Origin → Text → Class
classify drives rel o name = elim (autosnap_type name) [
  | some type ↦ Class.autosnap type
  | none ↦
      if is_point name
      then Class.point
          (codes "left in origin by an interrupted run, or by a run whose anchor failed")
      else elim (anchor_disk name) [
        | [] ↦ classify_residue drives rel o name
        | c ∷ guid ↦ if is_bpool rel then Class.anchor (c ∷ guid) else Class.neither
      ]
]

unfoldable pub file_item : Class → Text → ℕ → Inventory → Inventory
file_item (Class.autosnap type) t c inv = record inv {
  autosnaps = append_at type (record { target = t; creation = c; reason = [] }) inv.autosnaps;
}
file_item (Class.point why) t c inv = record inv {
  points = inv.points ++ record { target = t; creation = c; reason = why } ∷ [];
}
file_item (Class.anchor guid) t c inv = record inv {
  anchors = append_at guid (record { target = t; creation = c; reason = [] }) inv.anchors;
}
file_item (Class.residue why) t c inv = record inv {
  residues = inv.residues ++ record { target = t; creation = c; reason = why } ∷ [];
}
file_item (Class.residue_kept why) t c inv = record inv {
  residues_kept = inv.residues_kept ++ record { target = t; creation = c; reason = why } ∷ [];
}
file_item Class.neither t c inv = inv

unfoldable pub file_snaps : Dict Text → Text → Origin → List Ref → Inventory → Inventory
file_snaps drives rel o [] inv = inv
file_snaps drives rel o (s ∷ snaps) inv =
    file_snaps drives rel o snaps
      (file_item (classify drives rel o s.name) (target_of rel s.name) s.creation inv)

-- `if missing_here and rel in backed_up`
unfoldable pub note_unanchored : Dict Text → List Text → Text → Origin → Inventory → Inventory
note_unanchored drives backed_up rel o inv = elim (missing_on drives o) [
  | [] ↦ inv
  | m ∷ ms ↦
      if mem_text rel backed_up
      then record inv { unanchored = put rel (m ∷ ms) inv.unanchored }
      else inv
]

unfoldable pub file_datasets : Dict Text → List Text → Dict Origin → Inventory → Inventory
file_datasets drives backed_up [] inv = inv
file_datasets drives backed_up ((rel, o) ∷ items) inv =
    file_datasets drives backed_up items
      (file_snaps drives rel o o.snaps (note_unanchored drives backed_up rel o inv))

unfoldable pub inventory : Dict Origin → Dict Text → List Text → Inventory
inventory origin drives skip =
    file_datasets drives (expected origin skip) (sorted_items origin) no_items

-- `(i.creation, i.target)`
unfoldable pub item_age_le : Item → Item → Bool
item_age_le a b =
    if ltb a.creation b.creation
    then true
    else a.creation == b.creation && text_le a.target b.target

unfoldable pub older_than : Inventory → ℕ → List Item
older_than inv cutoff =
    sort_by item_age_le
      (select (λ i. ltb i.creation cutoff) (flat_map (λ (e : Text × List Item). e.1) inv.autosnaps))
