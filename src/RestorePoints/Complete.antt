-- ===== src/RestorePoints/Complete.antt =====
-- lib/restore_points.py: which backup points are complete, and what a destroy costs them.
pub mod Datasets
pub mod Losses
pub mod Runs
use zark.Base.{
  ℕ, ◌-◌, Bool, true, false, not, ◌&&◌, ◌||◌, Option, none, some, List, [], ◌∷◌, ◌++◌, map, ltb,
  leb, ◌==◌, if◌then◌else◌, is_some, length, select, any, all, flat_map, sort_by, Dict, keys, Text,
  codes, text_eq, text_le, mem_text,
}
use zark.Replication.Names.{is_under}
use zark.RestorePoints.Model.{stored, last_creation, first_creation, is_point_snap, Snap}
use zark.RestorePoints.Parse.{int_of}

abbrev pub legacy_mark : Text
legacy_mark = codes "yes"

-- A Python set or dict of texts: each one where it occurs first.
unfoldable pub distinct : List Text → List Text
distinct [] = []
distinct (k ∷ ks) = k ∷ select (λ j. not (text_eq j k)) (distinct ks)

unfoldable pub datasets_of : List Snap → List Text
datasets_of snaps = distinct (map (λ s. s.dataset) snaps)

unfoldable pub named : Text → List Snap → List Snap
named name snaps = select (λ s. text_eq s.name name) snaps

unfoldable pub of_dataset : Text → List Snap → List Snap
of_dataset ds snaps = select (λ s. text_eq s.dataset ds) snaps

-- `ds` has a snapshot before and after `time`, and is not in `held`
unfoldable pub skips : List Snap → List Text → ℕ → Text → Bool
skips snaps held time ds = not (mem_text ds held) && elim (of_dataset ds snaps) [
  | [] ↦ false
  | s ∷ more ↦ ltb (first_creation s more) time && ltb time (last_creation (s ∷ more))
]

unfoldable pub is_skipped : List Snap → Text → Bool
is_skipped snaps name =
    let members = named name snaps in
    any (skips snaps (datasets_of members) (last_creation members)) (datasets_of snaps)

unfoldable pub point_names : List Snap → List Text
point_names snaps = distinct (map (λ s. s.name) (select is_point_snap snaps))

unfoldable pub skipped_points : List Snap → List Text
skipped_points snaps = select (is_skipped snaps) (point_names snaps)

unfoldable pub without : List Text → List Text → List Text
without xs ys = select (λ x. not (mem_text x ys)) xs

unfoldable pub legacy_complete : List Snap → Text → List Text
legacy_complete snaps [] = []
legacy_complete snaps (c ∷ last_point) =
    without (select (λ n. text_le n (c ∷ last_point)) (point_names snaps)) (skipped_points snaps)

unfoldable pub has_mark : Snap → Bool
has_mark s = elim s.mark [ [] ↦ false | c ∷ m ↦ true ]

-- the names of the points with any mark
unfoldable pub marked_names : List Snap → List Text
marked_names snaps = map (λ s. s.name) (select (λ s. has_mark s && is_point_snap s) snaps)

unfoldable pub point_marks : List Snap → Dict (List Snap)
point_marks snaps =
    map (λ n. (n, named n snaps))
      (distinct (map (λ s. s.name) (select (λ s. mem_text s.name (marked_names snaps)) snaps)))

-- `mark.isdigit() and int(mark) == n`
unfoldable pub counts_as : Text → ℕ → Bool
counts_as mark n = elim (int_of mark) [ none ↦ false | some k ↦ k == n ]

-- the set of the marks is `{mark}`
unfoldable pub all_marked : Text → List Snap → Bool
all_marked mark members = all (λ s. text_eq s.mark mark) members

unfoldable pub is_complete : List Snap → Bool
is_complete [] = false
is_complete (s ∷ members) =
    all_marked s.mark members
    && (text_eq s.mark legacy_mark || counts_as s.mark (length (datasets_of (s ∷ members))))

pub record PointLoss : Type 0 where
  pub targets : List Text
  pub lost : List Text
  pub count : ℕ

-- the destroy of the trees `tops` takes the snapshot
unfoldable pub gone : List Text → Snap → Bool
gone tops s = any (is_under (stored s)) tops

unfoldable pub is_counted : Snap → Bool
is_counted s = is_some (int_of s.mark)

-- `int(next(s.mark for s in members if s.mark.isdigit()))`
unfoldable pub count_of : List Snap → ℕ
count_of [] = 0
count_of (s ∷ members) =
    let rest = count_of members in elim (int_of s.mark) [ none ↦ rest | some n ↦ n ]

unfoldable pub left_of : List Text → List Snap → List Snap
left_of tops members = select (λ s. not (gone tops s)) members

unfoldable pub lost_of : List Text → List Snap → List Text
lost_of tops members = without (datasets_of members) (datasets_of (left_of tops members))

unfoldable pub full_target : Text → Text → Snap → Text
full_target pool name s = pool ++ (b'/' ∷ stored s ++ (b'@' ∷ name))

-- the body of the loop of `point_losses` for one point
unfoldable pub loss_of : Text → List Text → Text → List Snap → Option PointLoss
loss_of pool tops name members =
    let left = left_of tops members in
    let lost = lost_of tops members in
    let bad = length lost == 0 || (length left == 0 || leb (count_of members) (length lost)) in
    if bad
    then none
    else some (record {
      targets = map (full_target pool name) left;
      lost = lost;
      count = count_of members - length lost;
    })

unfoldable pub losing_names : List Snap → List Text → List Text
losing_names snaps tops =
    sort_by text_le (distinct (map (λ s. s.name) (select (λ s. gone tops s && is_counted s) snaps)))

unfoldable pub point_losses : Text → List Snap → List Text → Dict PointLoss
point_losses pool snaps tops =
    flat_map
      (λ name. elim (loss_of pool tops name (named name snaps)) [
        | none ↦ []
        | some l ↦ (name, l) ∷ []
      ])
      (losing_names snaps tops)

unfoldable pub run_complete_points : List Snap → Text → List Text
run_complete_points snaps last_point = elim (point_marks snaps) [
  | [] ↦ legacy_complete snaps last_point
  | e ∷ more ↦ keys (e ∷ more)
]

pub record Complete : Type 0 where
  pub run : List Text
  pub whole : List Text
  pub first : Text

unfoldable pub retention_points : List Snap → Text → Complete
retention_points snaps last_point =
    let run = run_complete_points snaps last_point in
    record { run = run; whole = without run (skipped_points snaps); first = [] }

unfoldable pub complete_points : List Snap → Text → List Text
complete_points snaps last_point = elim (point_marks snaps) [
  | [] ↦ legacy_complete snaps last_point
  | e ∷ more ↦ keys (select (λ m. is_complete m.1) (e ∷ more))
]
