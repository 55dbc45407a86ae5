-- ===== src/OriginPrune/Tests.antt =====
-- Runs of the inventory of origin, and its theorems at concrete inputs.
use zark.Base.{
  ℕ, ◌≡◌, refl, inl, [], ◌∷◌, map, Elem, select, any, all, find_first, flat_map, insert_sorted,
  sort_by, Dict, get, get_or, has_key, put, keys, values, update, append_at, Text, codes, text_eq,
  text_le, starts_with, has_infix, mem_text, before, after, split_first, split, is_digit,
}
use zark.Replication.Names.{
  strip_prefix, fits, matches, is_point, leading_digits, behind_digits, disk_of, anchor_disk,
  is_under, is_bpool, is_archived, ends_with,
}
use zark.Replication.Model.{Ref, Origin}
use zark.Replication.Plan.{is_excluded, is_volume, is_expected, expected}
use zark.Retention.Prune.{target_of, sorted_items}
use zark.OriginPrune.{
  autosnap_type, anchored_by, missing_on, join_names, classify_residue, classify, file_item,
  file_snaps, note_unanchored, file_datasets, inventory, item_age_le, older_than, Item,
}
use zark.OriginPrune.Residues.{inventory-IsSpare, IsSpare}

-- what the runs compute with
inventory_open : Unit {0}
unfolding text_eq text_le starts_with has_infix mem_text any all before after split split_first
    is_digit select find_first flat_map insert_sorted sort_by get get_or has_key put update
    append_at keys values strip_prefix fits matches is_point leading_digits behind_digits disk_of
    anchor_disk is_under is_bpool is_archived ends_with is_excluded is_volume is_expected expected
    sorted_items autosnap_type anchored_by missing_on join_names classify_residue classify file_item
    file_snaps note_unanchored file_datasets inventory item_age_le older_than
inventory_open = tt

abbrev ref_of : Text → ℕ → Ref
ref_of name creation = record {
  name = name;
  guid = name;
  createtxg = creation;
  creation = creation;
}

abbrev home : Text
home = codes "rpool/home"

-- an hourly snapshot of sanoid, a residue of syncoid, and one drive's anchor
abbrev home_origin : Origin
home_origin = record {
  rel = home;
  kind = codes "filesystem";
  canmount = codes "on";
  mountpoint = codes "/home";
  referenced = 0;
  snaps =
      ref_of (codes "autosnap_2026-11-19_10:00:00_hourly") 100
      ∷ ref_of (codes "syncoid_host_2025-01-01") 50
      ∷ [];
  bookmarks = ref_of (codes "zark_77_2026-11-10_08:00:00Z") 90 ∷ [];
  clone_of = [];
}

abbrev origin : Dict Origin
origin = (home, home_origin) ∷ []

abbrev one_drive : Dict Text
one_drive = (codes "77", codes "black") ∷ []

abbrev two_drives : Dict Text
two_drives = (codes "77", codes "black") ∷ (codes "88", codes "blue") ∷ []

abbrev residue : Item
residue = record {
  target = codes "rpool/home@syncoid_host_2025-01-01";
  creation = 50;
  reason = codes "syncoid residue; every registered drive has an anchor here";
}

residues_run : (inventory origin one_drive []).residues ≡ residue ∷ []
unfolding inventory_open
residues_run = refl

kept_run :
    (inventory origin two_drives []).residues_kept
    ≡ record residue { reason = codes "blue has no anchor on rpool/home: it may be its base" } ∷ []
unfolding inventory_open
kept_run = refl

unanchored_run : (inventory origin two_drives []).unanchored ≡ (home, codes "blue" ∷ []) ∷ []
unfolding inventory_open
unanchored_run = refl

older_run : map (λ i. i.creation) (older_than (inventory origin one_drive []) 101) ≡ 100 ∷ []
unfolding inventory_open
older_run = refl

inventory-IsSpare_example :
    (rel : Text) × (o : Origin) × (s : Ref) × Elem (rel, o) origin
    × Elem s o.snaps
    × (target_of rel s.name ≡ residue.target)
    × IsSpare one_drive rel o s.name
unfolding inventory_open
inventory-IsSpare_example = inventory-IsSpare origin one_drive [] residue (inl refl)
