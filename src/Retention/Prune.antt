-- ===== src/Retention/Prune.antt =====
-- lib/retention.py: `plan_prune`, what the policy removes from a drive.
pub mod Keeps
pub mod Whole
pub mod Months
use zark.Base.{
  ℕ, suc, ◌+◌, ◌*◌, ◌<◌, Bool, true, false, not, ◌&&◌, ◌||◌, Option, none, some, List, [], ◌∷◌,
  ◌++◌, ltb, ◌==◌, if◌then◌else◌, length, select, any, all, flat_map, sort_by, Dict, get, get_or,
  keys, Text, codes, text_eq, text_le, starts_with, mem_text, before, decimal,
}
use zark.Replication.Names.{is_under, is_archived}
use zark.Replication.Model.{newest, Ref, Dest, orphan}
use zark.Retention.Points.{
  snapshot_kind, point_times, monthly_points, newest_complete, first_point_time, Kind, FirstTime,
  point, intermediate, other, ok, value_error,
}

abbrev pub day : ℕ
day = 86400

pub record Policy : Type 0 where
  pub window_days : ℕ
  pub max_age_days : ℕ
  pub margin_pct : ℕ

pub record Removal : Type 0 where
  pub rel : Text
  pub name : Text
  pub reason : Text

abbrev pub target_of : Text → Text → Text
target_of rel name = rel ++ (b'@' ∷ name)

pub record Prune : Type 0 where
  pub snapshots : List Removal
  pub datasets : List (Text × Text)
  pub kept : List (Text × Text)

abbrev pub nothing : Prune
nothing = record { snapshots = []; datasets = []; kept = [] }

unfoldable pub is_live : Text → Dest → Bool
is_live rel d = not (is_archived rel) && not (starts_with (codes "kept@") d.orphan)

-- What `plan_prune` computes before its loop, and its arguments.
pub record Setting : Type 0 where
  pub policy : Policy
  pub now : ℕ
  pub pinned : Dict Text
  pub protected : List Text
  pub times : Dict ℕ
  pub start : ℕ
  pub complete : List Text
  pub monthly : List Text
  pub keep_point : Text

-- `when < window` and `when < too_old`, with the days on the other side: the times are unsigned
unfoldable pub before_window : Policy → ℕ → ℕ → Bool
before_window policy now when = ltb (when + policy.window_days * day) now

unfoldable pub too_old : Policy → ℕ → ℕ → Bool
too_old policy now when =
    not (policy.max_age_days == 0) && ltb (when + policy.max_age_days * day) now

unfoldable pub when_of : Dict ℕ → Ref → ℕ
when_of times s = elim (snapshot_kind s.name) [
  | Kind.point ↦ get_or s.creation s.name times
  | _ ↦ s.creation
]

-- `s.guid == newest.guid` of a live dataset
unfoldable pub is_newest : Text → Dest → Ref → Bool
is_newest rel d s =
    if is_live rel d
    then elim (newest d) [ none ↦ false | some n ↦ text_eq s.guid n.guid ]
    else false

unfoldable pub keep_reason : Setting → Text → Dest → Ref → Option Text
keep_reason c rel d s =
    if elim (snapshot_kind s.name) [ Kind.other ↦ true | _ ↦ false ]
    then some (codes "not written by zark or sanoid")
    else if ltb (when_of c.times s) c.start
    then some (codes "from before the drive's first backup point")
    else if is_newest rel d s
    then some (codes "newest snapshot of a live dataset (I-E)")
    else if text_eq s.name c.keep_point
    then some (codes "newest complete backup point")
    else if mem_text (target_of rel s.name) c.protected
    then some (codes "base of this run")
    else none

unfoldable pub outside_window : Setting → Text → Option Text
outside_window c name =
    if elim (snapshot_kind name) [ Kind.intermediate ↦ true | _ ↦ false ]
    then some (codes "intermediate older than the window")
    else if mem_text name c.monthly
    then none
    else if mem_text name c.complete
    then some (codes "older than the window, not its month's newest complete point")
    else some (codes "incomplete backup point older than the window")

-- What the body of the loop does with one snapshot.
pub data Decision : Type 0 where
  keep : Decision
  report : Text → Decision
  remove : Text → Decision

-- behind the tests for a reason to keep it, and for a pin
unfoldable pub decide_age : Setting → Ref → Decision
decide_age c s =
    if too_old c.policy c.now (when_of c.times s)
    then Decision.remove (codes "older than " ++ (decimal c.policy.max_age_days ++ codes " days"))
    else if before_window c.policy c.now (when_of c.times s)
    then elim (outside_window c s.name) [ none ↦ Decision.keep | some why ↦ Decision.remove why ]
    else Decision.keep

unfoldable pub decide : Setting → Text → Dest → Ref → Decision
decide c rel d s = elim (keep_reason c rel d s) [
  | some why ↦ Decision.keep
  | none ↦ elim (get (target_of rel s.name) c.pinned) [
    | some why ↦
        if before_window c.policy c.now (when_of c.times s)
        then Decision.report why
        else Decision.keep
    | none ↦ decide_age c s
  ]
]

abbrev pub removal_of : Text → Text → Decision → List Removal
removal_of rel name (Decision.remove why) = record { rel = rel; name = name; reason = why } ∷ []
removal_of rel name _ = []

abbrev pub kept_of : Text → Text → Decision → List (Text × Text)
kept_of rel name (Decision.report why) = (target_of rel name, why) ∷ []
kept_of rel name _ = []

unfoldable pub removals_in : Setting → Text × Dest → List Removal
removals_in c e = flat_map (λ s. removal_of e.0 s.name (decide c e.0 e.1 s)) e.1.snaps

unfoldable pub kept_in : Setting → Text × Dest → List (Text × Text)
kept_in c e = flat_map (λ s. kept_of e.0 s.name (decide c e.0 e.1 s)) e.1.snaps

-- `sorted(dest.items())`: the keys are different
abbrev pub item_le : {V : Type 0} → Text × V → Text × V → Bool
item_le a b = text_le a.0 b.0

unfoldable pub sorted_items : {V : Type 0} → Dict V → Dict V
sorted_items d = sort_by item_le d

-- `going.get(rel, 0)`
unfoldable pub going : Text → List Removal → ℕ
going rel [] = 0
going rel (r ∷ removals) =
    let rest = going rel removals in if text_eq r.rel rel then suc rest else rest

unfoldable pub is_emptied : List Removal → Text → Dest → Bool
is_emptied removals rel d =
    not (is_live rel d) && (length d.snaps == going rel removals && not (length d.snaps == 0))

-- every dataset of the tree is emptied, or has no snapshot
unfoldable pub tree_goes : Dict Dest → List Text → Text → Bool
tree_goes dest emptied top =
    all (λ e. not (is_under e.0 top) || (mem_text e.0 emptied || length e.1.snaps == 0)) dest

unfoldable pub is_below : Text → Text → Bool
is_below rel top = starts_with (top ++ b'/' ∷ []) rel

unfoldable pub whole_reason : Text → Text
whole_reason top =
    (if is_archived top then codes "archived lineage" else codes "kept orphan")
    ++ codes " with nothing left that the policy keeps"

unfoldable pub whole_from :
    Dict Dest → List Text → List Text → List (Text × Text) → List (Text × Text)
whole_from dest emptied [] out = out
whole_from dest emptied (top ∷ tops) out = whole_from dest emptied tops (
    if not (any (λ t. is_below top t.0) out) && tree_goes dest emptied top
    then out ++ (top, whole_reason top) ∷ []
    else out)

unfoldable pub emptied_of : Dict Dest → List Removal → List Text
emptied_of dest removals = sort_by text_le (keys (select (λ e. is_emptied removals e.0 e.1) dest))

unfoldable pub whole_datasets : Dict Dest → List Removal → List (Text × Text)
whole_datasets dest removals =
    let emptied = emptied_of dest removals in whole_from dest emptied emptied []

unfoldable pub prune_in : Setting → Dict Dest → Prune
prune_in c dest =
    let items = sorted_items dest in
    let removals = flat_map (removals_in c) items in
    record {
      snapshots = removals;
      datasets = whole_datasets dest removals;
      kept = flat_map (kept_in c) items;
    }

-- The arguments of `plan_prune` besides the listing.
pub record Request : Type 0 where
  pub complete : List Text
  pub whole : List Text
  pub policy : Policy
  pub now : ℕ
  pub pinned : Dict Text
  pub protected : List Text
  pub first : Text

unfoldable pub setting_of : Dict Dest → Request → ℕ → Setting
setting_of dest q start =
    let times = point_times dest in
    record {
      policy = q.policy;
      now = q.now;
      pinned = q.pinned;
      protected = q.protected;
      times = times;
      start = start;
      complete = q.complete;
      monthly = monthly_points times q.complete q.whole;
      keep_point = newest_complete times q.complete q.whole;
    }

unfoldable pub plan_prune : Dict Dest → Request → FirstTime Prune
plan_prune dest q = elim (first_point_time (point_times dest) q.first) [
  | value_error ↦ FirstTime.value_error
  | ok start ↦ elim start [
    | none ↦ FirstTime.ok nothing
    | some t ↦ FirstTime.ok (prune_in (setting_of dest q t) dest)
  ]
]
