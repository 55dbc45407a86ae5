-- ===== src/Anchors/Tests.antt =====
-- Runs on the anchors of origin, and their theorems at concrete inputs.
use mathlib.Core.Path.{subst}
use zark.Base.{
  ℕ, ◌+◌, ◌≡◌, refl, ◌↔◌, inl, inr, true, false, none, some, List, [], ◌∷◌, Elem, select, any, all,
  find_first, flat_map, insert_sorted, sort_by, Dict, get, put, Text, codes, text_eq, text_le,
  starts_with, mem_text, before, after, is_digit, Accounted,
}
use zark.Replication.Names.{
  strip_prefix, fits, matches, is_point, leading_digits, behind_digits, disk_of, anchor_disk, drop,
  anchor_name, is_under, is_bpool,
}
use zark.Replication.Model.{Ref, Origin}
use zark.Retention.Prune.{sorted_items}
use zark.Anchors.{
  same_guids, anchor_point, release_point, drop_names, owners_from, point_owners, refs_of,
  anchored_disks, anchors_in, disk_anchors, drop_disk_anchors, leftover_points, is_anchor_of,
  restored_in, restored_from, restored_points, Commands,
}
use zark.Anchors.Owned.{
  Destroyed, drop_disk_anchors-accounts, restored_points-Restored, IsAnchor, Restored,
}

-- what the runs compute with
anchors_open : Unit {0}
unfolding text_eq text_le starts_with mem_text any all before after is_digit select find_first
    flat_map insert_sorted sort_by get put strip_prefix fits matches is_point leading_digits
    behind_digits disk_of anchor_disk drop anchor_name is_under is_bpool sorted_items same_guids
    anchor_point release_point drop_names owners_from point_owners refs_of anchored_disks anchors_in
    disk_anchors drop_disk_anchors leftover_points is_anchor_of restored_in restored_from
    restored_points
anchors_open = tt

abbrev home : Text
home = codes "rpool/home"

abbrev point : Text
point = codes "zark_2026-11-20_08:00:00Z"

abbrev black : Text
black = codes "77"

abbrev ref_of : Text → Text → Ref
ref_of name guid = record { name = name; guid = guid; createtxg = 1; creation = 1 }

-- A restored point beside its anchor, and another drive's anchor.
abbrev home_origin : Origin
home_origin = record {
  rel = home;
  kind = codes "filesystem";
  canmount = codes "on";
  mountpoint = codes "/home";
  referenced = 0;
  snaps = ref_of point (codes "12") ∷ [];
  bookmarks =
      ref_of (codes "zark_77_2026-11-20_08:00:00Z") (codes "12")
      ∷ ref_of (codes "zark_88_2026-11-10_08:00:00Z") (codes "9")
      ∷ [];
  clone_of = [];
}

abbrev origin : Dict Origin
origin = (home, home_origin) ∷ []

anchors_run : disk_anchors origin black ≡ codes "rpool/home#zark_77_2026-11-20_08:00:00Z" ∷ []
unfolding anchors_open
anchors_run = refl

disks_run : anchored_disks origin ≡ black ∷ codes "88" ∷ []
unfolding anchors_open
disks_run = refl

leftover_run : leftover_points origin ≡ codes "rpool/home@zark_2026-11-20_08:00:00Z" ∷ []
unfolding anchors_open
leftover_run = refl

owners_run :
    point_owners
      (((codes "rpool/home@zark_2026-11-20_08:00:00Z", black)
          ∷ (codes "bpool/BOOT@zark_77_2026-11-20_08:00:00Z", black)
          ∷ [])
        ∷ [])
      []
    ≡ (codes "rpool/home@zark_2026-11-20_08:00:00Z", black) ∷ []
unfolding anchors_open
owners_run = refl

-- Commands that succeed, counted, but for the bookmark, which is there already with the same guid.
abbrev commands : Commands ℕ
commands = record {
  rename = λ a b n. (true, n + 1);
  bookmark = λ a b n. (false, n + 1);
  destroy = λ t n. (true, n + 1);
  guids = λ a b n. some (codes "12" ∷ codes "12" ∷ []);
}

release_run :
    release_point commands (codes "rpool/home@zark_2026-11-20_08:00:00Z") black 0 ≡ (true, 2)
unfolding anchors_open
release_run = refl

-- every command succeeds, and `zfs destroy` writes its name down
abbrev noted : Commands (List Text)
noted = record {
  rename = λ a b w. (true, w);
  bookmark = λ a b w. (true, w);
  destroy = λ name w. (true, name ∷ w);
  guids = λ a b w. none;
}

-- whatever was destroyed is an anchor of the drive
abbrev OnlyAnchors : List Text → Type 0
OnlyAnchors w = (name : Text) → Elem name w → IsAnchor origin black name

drop_disk_anchors-accounts_example :
    ((name : Text) → Elem name (disk_anchors origin black) ↔ IsAnchor origin black name)
    × Accounted
        (Destroyed noted true)
        (Destroyed noted false)
        (disk_anchors origin black)
        (drop_disk_anchors noted origin black []).1
        (drop_disk_anchors noted origin black []).0
    × OnlyAnchors (drop_disk_anchors noted origin black []).2
drop_disk_anchors-accounts_example =
    drop_disk_anchors-accounts noted OnlyAnchors origin black []
      (λ name a v only n m. elim m [ inl e ↦ subst (IsAnchor origin black) e a | inr k ↦ only n k ])
      (λ n m. elim m [ ])

restored_points-Restored_example :
    Restored origin [] (codes "rpool/home@zark_2026-11-20_08:00:00Z", black)
unfolding anchors_open
restored_points-Restored_example =
    restored_points-Restored origin [] (codes "rpool/home@zark_2026-11-20_08:00:00Z") black
      (inl refl)
