-- ===== src/Replication/Tests.antt =====
-- Runs of the planner, and its theorems at concrete inputs.
use zark.Base.{
  ℕ, ◌*◌, ◌≡◌, refl, inl, inr, true, false, some, List, [], ◌∷◌, map, Elem, select, any, all,
  find_first, get_last?, flat_map, insert_sorted, sort_by, IsSorted, Dict, get, get_or, has_key,
  put, keys, values, update, Text, codes, text_eq, text_le, starts_with, has_infix, mem_text,
  before, after, split_first, split, is_digit, decimal_go, decimal, IsDistinct,
}
use zark.Calendar.{year_of_era, day_of_year, civil, stamp}
use zark.Replication.Names.{
  strip_prefix, fits, matches, is_point, leading_digits, behind_digits, disk_of, anchor_disk, drop,
  anchor_name, is_under, is_bpool, before_last, parent, is_archived, ends_with, has_type,
  sanoid_type, shared_kind, old_anchors, archive_go, archive_name,
}
use zark.Replication.Names.Stamped.{point_name, point_name-is_point}
use zark.Replication.Model.{
  with_guid, snap_by_guid, bookmark_by_guid, newest, bare, Ref, Origin, Dest, State, DatasetPlan,
}
use zark.Replication.Dataset.{
  base_of, scan_older, first_later, plan_bookmark, plan_older, plan_from, plan_held,
  without_partial, plan_partial, plan_onto, plan_dataset,
}
use zark.Replication.Dataset.Bases.{IsClean, plan_dataset-Continues, Continues}
use zark.Replication.Dataset.Rollback.{plan_dataset-RollsBack, RollsBack}
use zark.Replication.Dataset.States.{plan_dataset-HasDiverged, HoldsPoint, HasDiverged}
use zark.Replication.Plan.{
  is_excluded, is_volume, is_expected, expected, pair_le, container_row, excluded, live_of,
  clone_copy, clone_base, expected_row, excluded_rows, sum_referenced, declared_row, declared_rows,
  orphans, orphan_tops, continues_as, rename_of, renames, orphan_row, origin_rows, orphan_rows,
  plan, reached, newest_shared, txg_le, shared_of, shared_snapshots,
}
use zark.Replication.Plan.Rows.{reached-plan}
use zark.Replication.Plan.Orphans.{plan-OnlyOnDrive, OnlyOnDrive}
use zark.Replication.Plan.Renames.{renames-distinct, IsRename}
use zark.Replication.Plan.Shared.{shares, of_kind, held_guids, shared_of_sound}

-- what the runs compute with
names_open : Unit {0}
unfolding civil year_of_era day_of_year stamp point_name text_eq text_le starts_with has_infix
    mem_text any before after split split_first is_digit decimal decimal_go find_first select
    strip_prefix fits matches is_point leading_digits behind_digits disk_of anchor_disk drop
    anchor_name is_under is_bpool before_last parent is_archived ends_with has_type sanoid_type
    shared_kind old_anchors archive_go archive_name
names_open = tt

plan_open : Unit {0}
unfolding names_open all flat_map get_last? insert_sorted sort_by get get_or has_key put update keys
    values with_guid snap_by_guid bookmark_by_guid newest base_of scan_older first_later
    plan_bookmark plan_older plan_from plan_held without_partial plan_partial plan_onto plan_dataset
    is_excluded is_volume is_expected expected pair_le container_row excluded live_of clone_copy
    clone_base expected_row excluded_rows sum_referenced declared_row declared_rows orphans
    orphan_tops continues_as rename_of renames orphan_row origin_rows orphan_rows plan reached
    newest_shared shared_of shared_snapshots
plan_open = tt

abbrev point : Text
point = codes "zark_2026-11-20_08:00:00Z"

abbrev old_point : Text
old_point = codes "zark_2026-11-10_08:00:00Z"

abbrev ref_of : Text → Text → ℕ → Ref
ref_of name guid txg = record { name = name; guid = guid; createtxg = txg; creation = txg * 100 }

abbrev hourly : Ref
hourly = ref_of (codes "autosnap_2026-11-19_10:00:00_hourly") (codes "11") 11

abbrev now_point : Ref
now_point = ref_of point (codes "12") 12

abbrev last_point : Ref
last_point = ref_of old_point (codes "9") 9

abbrev drive_anchor : Ref
drive_anchor = ref_of (codes "zark_77_2026-11-10_08:00:00Z") (codes "9") 9

abbrev origin_of : Text → List Ref → List Ref → Origin
origin_of rel snaps bookmarks = record {
  rel = rel;
  kind = codes "filesystem";
  canmount = codes "on";
  mountpoint = codes "/var";
  referenced = 4096;
  snaps = snaps;
  bookmarks = bookmarks;
  clone_of = [];
}

abbrev dest_of : Text → List Ref → ℕ → Dest
dest_of rel snaps written = record {
  rel = rel;
  kind = codes "filesystem";
  token = [];
  orphan = [];
  excluded_kept = [];
  used = 8192;
  written = written;
  snaps = snaps;
  clone_of = [];
}

abbrev var : Text
var = codes "rpool/var"

-- Its anchor is a bookmark of the last point, which origin no longer has as a snapshot.
abbrev var_origin : Origin
var_origin = origin_of var (hourly ∷ now_point ∷ []) (drive_anchor ∷ [])

abbrev var_dest : Dest
var_dest = dest_of var (last_point ∷ []) 0

via_bookmark_run :
    plan_dataset var_origin (some var_dest) point ≡ record (bare var State.via_bookmark) {
      base = codes "#zark_77_2026-11-10_08:00:00Z";
      first = codes "@autosnap_2026-11-19_10:00:00_hourly";
    }
unfolding plan_open
via_bookmark_run = refl

plan_dataset-Continues_example :
    IsClean var_dest
    × ((top : Ref) × (newest var_dest ≡ some top)
        × Continues var_origin top (plan_dataset var_origin (some var_dest) point))
unfolding plan_open
plan_dataset-Continues_example = plan_dataset-Continues var_origin var_dest point refl

-- The newest snapshot of the drive is gone from origin, and `last_point` is anchored there.
abbrev stray : Ref
stray = ref_of (codes "zark_2026-11-15_08:00:00Z") (codes "10") 10

abbrev stray_dest : Dest
stray_dest = dest_of var (last_point ∷ stray ∷ []) 0

plan_dataset-RollsBack_example :
    RollsBack var_origin stray_dest (plan_dataset var_origin (some stray_dest) point)
unfolding plan_open
plan_dataset-RollsBack_example = plan_dataset-RollsBack var_origin stray_dest point refl

abbrev apart_dest : Dest
apart_dest = dest_of var (stray ∷ []) 0

plan_dataset-HasDiverged_example : HasDiverged var_origin apart_dest
unfolding plan_open
plan_dataset-HasDiverged_example = plan_dataset-HasDiverged var_origin apart_dest point refl

-- Written since its newest snapshot, and already at the point.
abbrev written_dest : Dest
written_dest = dest_of var (now_point ∷ []) 512

abbrev home : Text
home = codes "rpool/home"

abbrev gone_rel : Text
gone_rel = codes "rpool/gone"

abbrev home_origin : Origin
home_origin = origin_of home (now_point ∷ []) []

abbrev origin_now : Dict Origin
origin_now =
    (codes "rpool", origin_of (codes "rpool") [] []) ∷ (var, var_origin) ∷ (home, home_origin) ∷ []

-- a drive that is at the point, with one dataset more
abbrev drive : Dict Dest
drive =
    (codes "rpool", dest_of (codes "rpool") [] 0)
    ∷ (home, dest_of home (now_point ∷ []) 0)
    ∷ (var, written_dest)
    ∷ (gone_rel, dest_of gone_rel (stray ∷ []) 0)
    ∷ []

states_run :
    map {B = Text × State} (λ p. (p.rel, p.state)) (plan origin_now drive point [])
    ≡ (home, State.at_point)
      ∷ (var, State.at_point)
      ∷ (codes "rpool", State.excluded)
      ∷ (gone_rel, State.orphan)
      ∷ []
unfolding plan_open
states_run = refl

reached-plan_example :
    (o : Origin) × (d : Dest) × (get var origin_now ≡ some o)
    × (get var drive ≡ some d)
    × (d.token ≡ [])
    × HoldsPoint o d point
unfolding plan_open
reached-plan_example = reached-plan origin_now drive point [] var refl (inr (inl refl))

abbrev gone_row : DatasetPlan
gone_row = record (bare gone_rel State.orphan) { used = 8192 }

plan-OnlyOnDrive_example :
    OnlyOnDrive origin_now drive gone_rel
    × (mem_text (parent gone_rel) (orphans origin_now (live_of drive)) ≡ false)
unfolding plan_open
plan-OnlyOnDrive_example =
    plan-OnlyOnDrive origin_now drive point [] gone_row (inr (inr (inr (inl refl)))) refl

-- `rpool/old` was renamed to `rpool/var` in origin.
abbrev renamed : Dict Dest
renamed =
    (codes "rpool", dest_of (codes "rpool") [] 0)
    ∷ (codes "rpool/old", dest_of (codes "rpool/old") (last_point ∷ []) 0)
    ∷ []

renames_run :
    renames origin_now renamed (home ∷ var ∷ []) (codes "rpool/old" ∷ []) []
    ≡ (codes "rpool/old", var) ∷ []
unfolding plan_open
renames_run = refl

renames-distinct_example :
    IsDistinct (values (renames origin_now renamed (home ∷ var ∷ []) (codes "rpool/old" ∷ []) []))
    × ((e : Text × Text)
        → Elem e (renames origin_now renamed (home ∷ var ∷ []) (codes "rpool/old" ∷ []) [])
        → IsRename origin_now renamed (home ∷ var ∷ []) e)
renames-distinct_example =
    renames-distinct origin_now renamed (home ∷ var ∷ []) (codes "rpool/old" ∷ [])

abbrev sharing : Dest
sharing = dest_of var (hourly ∷ stray ∷ []) 0

shared_run : shared_of var_origin (some sharing) ≡ hourly ∷ []
unfolding plan_open
shared_run = refl

shared_of_sound_example :
    ((r : Ref)
      → Elem r (shared_of var_origin (some sharing))
      → Elem r var_origin.snaps × (shares (held_guids (some sharing)) r ≡ true))
    × (IsSorted txg_le (shared_of var_origin (some sharing))
        × ((r : Ref)
            → Elem r (shared_of var_origin (some sharing))
            → get_last?
                (select (of_kind (held_guids (some sharing)) (shared_kind r.name)) var_origin.snaps)
              ≡ some r)
        × ((kind : Text) (r : Ref)
            → text_eq kind [] ≡ false
            → get_last? (select (of_kind (held_guids (some sharing)) kind) var_origin.snaps)
              ≡ some r
            → Elem r (shared_of var_origin (some sharing))))
shared_of_sound_example = shared_of_sound var_origin (some sharing)

anchor_run : anchor_name (codes "77") old_point ≡ drive_anchor.name
unfolding names_open
anchor_run = refl

abbrev taken_names : List Text
taken_names = codes "rpool/var.archived-20261120" ∷ codes "rpool/var.archived-20261120-2" ∷ []

archive_run :
    archive_name var taken_names (codes "20261120") ≡ some (codes "rpool/var.archived-20261120-3")
unfolding names_open
archive_run = refl

-- Midnight before 2026-11-20, in seconds since the epoch.
abbrev midnight : ℕ
midnight = 1795132800

stamped_run : point_name midnight ≡ codes "zark_2026-11-20_00:00:00Z"
unfolding names_open
stamped_run = refl

point_name-is_point_example :
    (is_point (point_name midnight) ≡ true)
    × (anchor_disk (point_name midnight) ≡ [])
    × (anchor_disk (anchor_name (codes "77") (point_name midnight)) ≡ codes "77")
unfolding plan_open
point_name-is_point_example = point_name-is_point midnight (codes "77") refl
