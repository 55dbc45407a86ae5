-- ===== src/RestorePoints/Cluster.antt =====
-- lib/restore_points.py: `cluster` and `restore_points`, snapshots grouped into runs.
pub mod Members
pub mod Partition
pub mod Offered
use zark.Base.{
  ℕ, ◌+◌, ◌-◌, Bool, true, false, not, ◌&&◌, ◌||◌, Option, none, some, List, [], ◌∷◌, ◌++◌, ltb,
  leb, ◌==◌, if◌then◌else◌, select, flat_map, sort_by, Dict, get, put, values, update, append_at,
  Text, codes, text_eq, text_le, starts_with, before,
}
use zark.RestorePoints.Model.{family, last_creation, is_point_snap, Snap, Point}

abbrev pub repeat_gap : ℕ
repeat_gap = 300

abbrev pub empty_point : Text → Point
empty_point f = record { family = f; members = []; label = 0 }

abbrev pub add_member : Snap → Point → Point
add_member s p = record p { members = append_at s.dataset s p.members }

-- `points.setdefault(s.name, Point(family=s.family)).members.setdefault(...).append(s)`
unfoldable pub by_name_from : List Snap → Dict Point → Dict Point
by_name_from [] points = points
by_name_from (s ∷ snaps) points =
    by_name_from snaps (update (add_member s) (empty_point (family s)) s.name points)

unfoldable pub by_name : List Snap → List Point
by_name snaps = values (by_name_from snaps [])

-- `(x.creation, x.dataset, x.createtxg)`
unfoldable pub run_le : Snap → Snap → Bool
run_le a b =
    if ltb a.creation b.creation
    then true
    else if ltb b.creation a.creation
    then false
    else if text_eq a.dataset b.dataset
    then leb a.createtxg b.createtxg
    else text_le a.dataset b.dataset

-- The variables of the loop over one family: the points before the current one, and that one.
pub record Runs : Type 0 where
  pub done : List Point
  pub current : Option Point
  pub first_seen : Dict ℕ
  pub last : ℕ

abbrev pub no_runs : Runs
no_runs = record { done = []; current = none; first_seen = []; last = 0 }

-- `a - b > REPEAT_GAP`
abbrev pub later_by_gap : ℕ → ℕ → Bool
later_by_gap a b = ltb (b + repeat_gap) a

unfoldable pub repeated : Runs → Snap → Bool
repeated r s = elim (get s.dataset r.first_seen) [
  | none ↦ false
  | some t ↦ later_by_gap s.creation t
]

abbrev pub closed : Runs → List Point
closed r = elim r.current [ none ↦ r.done | some p ↦ r.done ++ p ∷ [] ]

-- `first_seen.setdefault(s.dataset, s.creation)`
unfoldable pub seen_at : Snap → Dict ℕ → Dict ℕ
seen_at s seen = elim (get s.dataset seen) [ none ↦ put s.dataset s.creation seen | some t ↦ seen ]

abbrev pub started : Text → Runs → Snap → Runs
started f r s = record {
  done = closed r;
  current = some (add_member s (empty_point f));
  first_seen = seen_at s [];
  last = s.creation;
}

abbrev pub extended : Point → Runs → Snap → Runs
extended p r s = record {
  done = r.done;
  current = some (add_member s p);
  first_seen = seen_at s r.first_seen;
  last = s.creation;
}

unfoldable pub step : Bool → Text → Runs → Snap → Runs
step sequential f r s = elim r.current [
  | none ↦ started f r s
  | some p ↦
      if repeated r s || (not sequential && later_by_gap s.creation r.last)
      then started f r s
      else extended p r s
]

unfoldable pub run_steps : Bool → Text → Runs → List Snap → Runs
run_steps sequential f r [] = r
run_steps sequential f r (s ∷ snaps) = run_steps sequential f (step sequential f r s) snaps

-- the points of one family that are no backup points
unfoldable pub runs_of : Text → List Snap → List Point
runs_of f snaps =
    closed (run_steps (starts_with (codes "syncoid_") f) f no_runs (sort_by run_le snaps))

unfoldable pub family_points : Text × List Snap → List Point
family_points (f, members) =
    by_name (select is_point_snap members)
    ++ runs_of f (select (λ s. not (is_point_snap s)) members)

unfoldable pub by_family : List Snap → Dict (List Snap) → Dict (List Snap)
by_family [] out = out
by_family (s ∷ snaps) out = by_family snaps (append_at (family s) s out)

abbrev pub family_le : Text × List Snap → Text × List Snap → Bool
family_le a b = text_le a.0 b.0

unfoldable pub cluster : List Snap → List Point
cluster snaps = flat_map family_points (sort_by family_le (by_family snaps []))

-- `(p.label, p.family)`
unfoldable pub label_le : Point → Point → Bool
label_le a b = if ltb a.label b.label then true else a.label == b.label && text_le a.family b.family

-- a run that includes the boot environment root, with the time of its snapshot
unfoldable pub offer : Text → Point → List Point
offer be_root p = elim (get be_root p.members) [
  | none ↦ []
  | some l ↦ record p { label = last_creation l } ∷ []
]

unfoldable pub restore_points : List Snap → Text → List Point
restore_points snaps be_root = sort_by label_le (flat_map (offer be_root) (cluster snaps))
