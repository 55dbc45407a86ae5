-- ===== src/RestorePoints/Tests.antt =====
-- Runs of the restore points, and their theorems at concrete inputs.
use zark.Base.{
  ℕ, ◌≡◌, refl, ◌↔◌, inl, inr, Option, none, some, List, [], ◌∷◌, map, Elem, select, any, all,
  flat_map, insert_sorted, sort_by, max_from, max_by, IsSorted, Dict, get, get_or, has_key, put,
  keys, values, update, append_at, Text, codes, text_eq, text_le, starts_with, has_infix, mem_text,
  before, after, has_char, split_first, split, is_digit, decimal_go, decimal, undecimal_go,
  undecimal,
}
use zark.Replication.Names.{strip_prefix, fits, matches, is_point, is_under, is_archived}
use zark.RestorePoints.Model.{
  logical_go, logical, stored, up_to_digit, family, last_creation, first_creation, members_of,
  end_of, is_point_snap, Snap, Point,
}
use zark.RestorePoints.Parse.{
  rstrip_newline, int_of, behind, snap_of, parse_fields, parse_line, parse_snapshots,
}
use zark.RestorePoints.Cluster.{
  by_name_from, by_name, run_le, repeated, seen_at, step, run_steps, runs_of, family_points,
  by_family, cluster, label_le, offer, restore_points,
}
use zark.RestorePoints.Cluster.Partition.{cluster-holds}
use zark.RestorePoints.Cluster.Offered.{restore_points-IsOffer, IsOffer}
use zark.RestorePoints.Resolve.{
  age_le, newest_snap, point_name, counts, backups_of, lacks, ended, resolve_absent, resolve_one,
  resolve_from, resolve,
}
use zark.RestorePoints.Resolve.Outcome.{resolve-Outcome, Outcome}
use zark.RestorePoints.Complete.{
  distinct, datasets_of, named, of_dataset, skips, is_skipped, point_names, skipped_points, without,
  legacy_complete, has_mark, marked_names, point_marks, counts_as, all_marked, is_complete, gone,
  is_counted, count_of, left_of, lost_of, full_target, loss_of, losing_names, point_losses,
  run_complete_points, retention_points, complete_points, PointLoss,
}
use zark.RestorePoints.Complete.Runs.{skipped_points-IsSkipped, IsSkipped}

-- what the runs compute with
points_open : Unit {0}
unfolding text_eq text_le starts_with has_infix mem_text any all before after has_char split
    split_first is_digit undecimal undecimal_go select flat_map insert_sorted sort_by get get_or
    has_key put update append_at keys values max_from max_by strip_prefix fits matches is_point
    is_under is_archived logical_go logical stored up_to_digit family last_creation first_creation
    members_of end_of is_point_snap rstrip_newline int_of behind snap_of parse_fields parse_line
    parse_snapshots by_name_from by_name run_le repeated seen_at step run_steps runs_of
    family_points by_family cluster label_le offer restore_points age_le newest_snap point_name
    counts backups_of lacks ended resolve_absent resolve_one resolve_from resolve distinct
    datasets_of named of_dataset skips is_skipped point_names skipped_points without legacy_complete
    has_mark marked_names point_marks counts_as all_marked is_complete gone is_counted count_of
    left_of lost_of full_target loss_of losing_names point_losses run_complete_points
    retention_points complete_points decimal decimal_go
points_open = tt

abbrev lines : List Text
lines =
    codes "tank/rpool@zark_2026-11-20_08:00:00Z\t1\t11\t1000\n"
    ∷ codes "tank/rpool/home@zark_2026-11-20_08:00:00Z\t2\t11\t1000\n"
    ∷ codes "tank/rpool/old.archived-20261101@zark_2026-11-20_08:00:00Z\t3\t11\t1000\n"
    ∷ codes "tank/rpool@autosnap_2026-11-20_09:00:00_hourly\t4\t12\t4600\n"
    ∷ codes "tank/rpool/home@autosnap_2026-11-20_10:00:00_hourly\t5\t13\t8200\n"
    ∷ codes "no snapshot\n"
    ∷ []

abbrev marks : Dict Text
marks =
    (codes "tank/rpool@zark_2026-11-20_08:00:00Z", codes "3")
    ∷ (codes "tank/rpool/home@zark_2026-11-20_08:00:00Z", codes "3")
    ∷ (codes "tank/rpool/old.archived-20261101@zark_2026-11-20_08:00:00Z", codes "3")
    ∷ []

abbrev root : Text
root = codes "rpool"

abbrev home : Text
home = codes "rpool/home"

abbrev point : Text
point = codes "zark_2026-11-20_08:00:00Z"

abbrev snap_at : Text → Text → Text → ℕ → ℕ → Text → Text → Snap
snap_at dataset name guid txg creation source mark = record {
  dataset = dataset;
  name = name;
  guid = guid;
  createtxg = txg;
  creation = creation;
  source = source;
  mark = mark;
}

abbrev root_point : Snap
root_point = snap_at root point (codes "1") 11 1000 [] (codes "3")

abbrev home_point : Snap
home_point = snap_at home point (codes "2") 11 1000 [] (codes "3")

abbrev old_point : Snap
old_point =
    snap_at (codes "rpool/old") point (codes "3") 11 1000 (codes "rpool/old.archived-20261101")
      (codes "3")

abbrev root_hourly : Snap
root_hourly = snap_at root (codes "autosnap_2026-11-20_09:00:00_hourly") (codes "4") 12 4600 [] []

abbrev home_hourly : Snap
home_hourly = snap_at home (codes "autosnap_2026-11-20_10:00:00_hourly") (codes "5") 13 8200 [] []

abbrev snaps : List Snap
snaps = root_point ∷ home_point ∷ old_point ∷ root_hourly ∷ home_hourly ∷ []

parse_run : parse_snapshots lines (codes "tank") marks ≡ snaps
unfolding points_open
parse_run = refl

complete_run : complete_points snaps [] ≡ point ∷ []
unfolding points_open
complete_run = refl

abbrev hourly_run : Point
hourly_run = record {
  family = codes "autosnap_";
  members = (root, root_hourly ∷ []) ∷ [];
  label = 4600;
}

cluster_run : map (λ p. p.label) (restore_points snaps root) ≡ 1000 ∷ 4600 ∷ []
unfolding points_open
cluster_run = refl

-- `home` has a later snapshot only, and comes from the backup point before the run.
resolve_run :
    resolve hourly_run snaps (root ∷ home ∷ []) none
    ≡ (root, some root_hourly) ∷ (home, some home_point) ∷ []
unfolding points_open
resolve_run = refl

resolve-Outcome_example :
    (r : Option Snap) × (get home (resolve hourly_run snaps (root ∷ home ∷ []) none) ≡ some r)
    × Outcome hourly_run snaps none home r
resolve-Outcome_example =
    resolve-Outcome hourly_run snaps (root ∷ home ∷ []) none home (inr (inl refl))

abbrev archived : Text
archived = codes "rpool/old.archived-20261101/sub"

logical_run : logical archived ≡ codes "rpool/old/sub"
unfolding points_open
logical_run = refl

-- The destroy of the copy of `home`, which the point of three datasets loses.
abbrev loss : PointLoss
loss = record {
  targets =
      codes "tank/rpool@zark_2026-11-20_08:00:00Z"
      ∷ codes "tank/rpool/old.archived-20261101@zark_2026-11-20_08:00:00Z"
      ∷ [];
  lost = home ∷ [];
  count = 2;
}

loss_run : point_losses (codes "tank") snaps (home ∷ []) ≡ (point, loss) ∷ []
unfolding points_open
loss_run = refl

cluster-holds_example :
    ((p : Point) × Elem p (cluster snaps) × Elem home_point (members_of p)) ↔ Elem home_point snaps
cluster-holds_example = cluster-holds snaps home_point

restore_points-IsOffer_example :
    IsSorted label_le (restore_points snaps root)
    × ((p : Point) → Elem p (restore_points snaps root) ↔ IsOffer snaps root p)
restore_points-IsOffer_example = restore_points-IsOffer snaps root

-- The copy of `home` has lost its snapshot of the point, and has one before and one after it.
abbrev with_gap : List Snap
with_gap =
    root_point
    ∷ snap_at home (codes "autosnap_2026-11-19_10:00:00_hourly") (codes "6") 10 900 [] []
    ∷ home_hourly
    ∷ []

skipped_run : skipped_points with_gap ≡ point ∷ []
unfolding points_open
skipped_run = refl

skipped_points-IsSkipped_example : IsSkipped with_gap point
unfolding points_open
skipped_points-IsSkipped_example = skipped_points-IsSkipped with_gap point (inl refl)
