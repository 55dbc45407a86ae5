-- ===== src/Retention/Tests.antt =====
-- Runs of the retention policy, and its theorems at concrete inputs.
use mathlib.Core.Path.{subst}
use zark.Base.{
  ℕ, ◌+◌, ◌*◌, ◌<◌, ◌≡◌, refl, sym, ap, ◌≢◌, ◌⊎◌, inl, inr, true, some, List, [], ◌∷◌, map, length,
  Elem, select, any, all, find_first, get_last?, flat_map, insert_sorted, sort_by, max_from, max_by,
  IsSorted, Dict, get, get_or, has_key, put, keys, values, update, Text, codes, text_eq, text_le,
  starts_with, has_infix, mem_text, before, after, split_first, split, is_digit, decimal_go,
  decimal, undecimal_go, undecimal,
}
use zark.Calendar.{
  year_of_era, day_of_year, civil, year_month, is_leap, days_in_month, is_date, is_clock, slice,
  field, parse_stamp,
}
use zark.Replication.Names.{
  strip_prefix, fits, matches, is_point, leading_digits, behind_digits, disk_of, anchor_disk, drop,
  is_under, is_archived,
}
use zark.Replication.Model.{newest, Ref, Dest}
use zark.Retention.Points.{
  snapshot_kind, all_snaps, times_from, point_times, candidate_le, candidates, best_from,
  monthly_points, newest_complete, min_of, first_point_time, Candidate, FirstTime,
}
use zark.Retention.Points.Best.{IsNoBetter, newest_complete-is_newest}
use zark.Retention.Prune.{
  day, is_live, before_window, too_old, when_of, is_newest, keep_reason, outside_window, decide_age,
  decide, removals_in, kept_in, sorted_items, going, is_emptied, tree_goes, is_below, whole_reason,
  whole_from, emptied_of, whole_datasets, prune_in, setting_of, plan_prune, Removal, Prune, Request,
}
use zark.Retention.Prune.Keeps.{plan_prune-Promise, Promise}
use zark.Retention.Prune.Months.{IsAged, plan_prune-IsAged, plan_prune_keeps_month}
use zark.Retention.Prune.Whole.{IsApart, IsEmptied, AreStored, whole_datasets-IsEmptied}
use zark.Retention.Space.{offered, time_le, space_candidates, goes_with, point_removals}
use zark.Retention.Space.Offers.{space_candidates_sound}
use zark.Retention.Points.Monthly.{IsBestOfMonth}

-- what the runs compute with
prune_open : Unit {0}
unfolding text_eq text_le starts_with has_infix mem_text any all before after split split_first
    is_digit decimal decimal_go find_first select flat_map get_last? insert_sorted sort_by get
    get_or has_key put update keys values strip_prefix fits matches is_point leading_digits
    behind_digits disk_of anchor_disk drop is_under is_archived max_from max_by newest civil
    year_of_era is_date is_clock days_in_month is_leap field slice undecimal undecimal_go
    day_of_year year_month parse_stamp snapshot_kind all_snaps times_from point_times candidate_le
    candidates best_from monthly_points newest_complete min_of first_point_time is_live
    before_window too_old when_of is_newest keep_reason outside_window decide_age decide removals_in
    kept_in sorted_items going is_emptied tree_goes is_below whole_reason whole_from emptied_of
    whole_datasets prune_in setting_of plan_prune offered space_candidates goes_with point_removals
prune_open = tt

abbrev ref_of : Text → Text → ℕ → Ref
ref_of name guid creation = record {
  name = name;
  guid = guid;
  createtxg = creation;
  creation = creation;
}

abbrev dest_of : Text → List Ref → Dest
dest_of rel snaps = record {
  rel = rel;
  kind = codes "filesystem";
  token = [];
  orphan = [];
  excluded_kept = [];
  used = 8192;
  written = 0;
  snaps = snaps;
  clone_of = [];
}

-- 1970-01-02, 1970-01-20 and 1970-03-01
abbrev early : Text
early = codes "zark_1970-01-02_00:00:00Z"

abbrev january : Text
january = codes "zark_1970-01-20_00:00:00Z"

abbrev march : Text
march = codes "zark_1970-03-01_00:00:00Z"

abbrev home : Text
home = codes "rpool/home"

abbrev home_dest : Dest
home_dest = dest_of home (
    ref_of early (codes "1") 86400
    ∷ ref_of january (codes "2") 1641600
    ∷ ref_of march (codes "3") 5097600
    ∷ [])

abbrev old_rel : Text
old_rel = codes "rpool/old.archived-19700103"

abbrev old_dest : Dest
old_dest = dest_of old_rel (ref_of early (codes "4") 86400 ∷ [])

abbrev drive : Dict Dest
drive = (home, home_dest) ∷ (old_rel, old_dest) ∷ []

-- A hundred days after the epoch, with a window of fourteen days.
abbrev request : Request
request = record {
  complete = early ∷ january ∷ march ∷ [];
  whole = early ∷ january ∷ march ∷ [];
  policy = record { window_days = 14; max_age_days = 0; margin_pct = 10 };
  now = 8640000;
  pinned = [];
  protected = [];
  first = [];
}

abbrev pruned : Prune
pruned = record {
  snapshots =
      record {
        rel = home;
        name = early;
        reason = codes "older than the window, not its month's newest complete point";
      }
      ∷ record {
        rel = old_rel;
        name = early;
        reason = codes "older than the window, not its month's newest complete point";
      }
      ∷ [];
  datasets = (old_rel, codes "archived lineage with nothing left that the policy keeps") ∷ [];
  kept = [];
}

prune_run : plan_prune drive request ≡ FirstTime.ok pruned
unfolding prune_open
prune_run = refl

abbrev early_removal : Removal
early_removal = record {
  rel = home;
  name = early;
  reason = codes "older than the window, not its month's newest complete point";
}

plan_prune-Promise_example : Promise drive request early_removal
unfolding prune_open
plan_prune-Promise_example = plan_prune-Promise drive request pruned early_removal refl (inl refl)

plan_prune-IsAged_example :
    (d : Dest) × (s : Ref) × Elem (home, d) drive
    × Elem s d.snaps
    × (s.name ≡ early)
    × IsAged request.policy request.now (when_of (point_times drive) s)
unfolding prune_open
plan_prune-IsAged_example = plan_prune-IsAged drive request pruned early_removal refl (inl refl)

plan_prune_keeps_month_example :
    (b : Candidate) × (year_month b.time ≡ year_month 86400)
    × IsBestOfMonth (candidates (point_times drive) request.complete request.whole) b
    × Elem (b.name, b.time) (point_times drive)
    × (mem_text b.name request.complete ≡ true)
    × IsNoBetter request.whole (early, 86400) (b.name, b.time)
    × ((r : Removal) → Elem r pruned.snapshots → r.name ≢ b.name)
unfolding prune_open
plan_prune_keeps_month_example =
    plan_prune_keeps_month drive request pruned early 86400 refl refl (inl refl) refl

removals_stored : AreStored drive pruned.snapshots
unfolding prune_open
removals_stored r d m e = elim m [
  | inl same ↦
      let got : some home_dest ≡ some d =
        subst (λ (x : Removal). get x.rel drive ≡ some d) (sym same) e in
      let is : home_dest ≡ d = cc got in
      subst (λ (x : Dest). Elem r.name (map (λ s. s.name) x.snaps)) is
        (inl (ap (λ (x : Removal). x.name) same))
  | inr n ↦ elim n [
    | inl same ↦
        let got : some old_dest ≡ some d =
          subst (λ (x : Removal). get x.rel drive ≡ some d) (sym same) e in
        let is : old_dest ≡ d = cc got in
        subst (λ (x : Dest). Elem r.name (map (λ s. s.name) x.snaps)) is
          (inl (ap (λ (x : Removal). x.name) same))
    | inr q ↦ elim q [ ]
  ]
]

whole_datasets-IsEmptied_example :
    IsApart (whole_datasets drive pruned.snapshots)
    × ((t : Text × Text)
        → Elem t (whole_datasets drive pruned.snapshots)
        → ((d : Dest) × Elem (t.0, d) drive × IsEmptied pruned.snapshots t.0 d)
          × ((rel : Text) (d : Dest)
              → Elem (rel, d) drive
              → is_under rel t.0 ≡ true
              → ((length d.snaps ≡ 0) ⊎ IsEmptied pruned.snapshots rel d)
                × ((s : Ref)
                    → Elem s d.snaps
                    → (r : Removal) × Elem r pruned.snapshots × (r.rel ≡ rel) × (r.name ≡ s.name))))
unfolding prune_open
whole_datasets-IsEmptied_example =
    whole_datasets-IsEmptied drive pruned.snapshots (refl, (refl, tt)) (refl, (refl, tt))
      removals_stored

-- The point of January is the oldest that a space plan offers.
space_run : space_candidates drive request pruned ≡ january ∷ []
unfolding prune_open
space_run = refl

space_candidates_sound_example :
    IsSorted (time_le (point_times drive)) (space_candidates drive request pruned)
    × ((name : Text)
        → Elem name (space_candidates drive request pruned)
        → ((b : Candidate) × (b.name ≡ name)
            × IsBestOfMonth (candidates (point_times drive) request.complete request.whole) b)
          × (get_or 0 name (point_times drive) + request.policy.window_days * day < request.now)
          × (name ≢ newest_complete (point_times drive) request.complete request.whole)
          × ((r : Removal) → Elem r pruned.snapshots → r.name ≢ name))
space_candidates_sound_example = space_candidates_sound drive request pruned

abbrev january_candidate : Candidate
january_candidate = record { whole = true; time = 1641600; name = january }

newest_complete-is_newest_example :
    (time : ℕ) × Elem
      (newest_complete (point_times drive) request.complete request.whole, time)
      (point_times drive)
    × (mem_text
          (newest_complete (point_times drive) request.complete request.whole)
          request.complete
        ≡ true)
    × IsNoBetter request.whole
        (january, 1641600)
        (newest_complete (point_times drive) request.complete request.whole, time)
unfolding prune_open
newest_complete-is_newest_example =
    newest_complete-is_newest (point_times drive) request.complete request.whole january 1641600
      (inr (inl refl)) refl

-- A recorded first point of the thirteenth month has the shape of a point and is no date.
first_point_run :
    plan_prune drive (record request { first = codes "zark_2026-13-01_00:00:00Z" })
    ≡ FirstTime.value_error
unfolding prune_open
first_point_run = refl
