-- ===== src/Reclaim/Measure.antt =====
-- lib/reclaim.py: what the removal of snapshots would free, from dry runs of `zfs destroy`.
pub mod Exact
use zark.Base.{
  ℕ, suc, ◌+◌, Bool, false, not, Option, none, some, List, [], ◌∷◌, ◌++◌, map, leb, if◌then◌else◌,
  length, select, any, Dict, append_at, Text, codes, text_eq, before, after, split,
}
use zark.Replication.Names.{is_under}
use zark.RestorePoints.Parse.{int_of}
use zark.RestorePoints.Complete.{distinct}
use zark.Retention.Prune.{target_of, sorted_items, Removal}

-- What the commands of ZFS print, and the clock: `dry_run` of `zfs destroy -nvp TARGET` and `used` of
-- `zfs list -Hp -o used NAME` give their lines, or none where the command fails; `clock` gives the
-- successive readings of `time.monotonic()`.
pub record Reads : Type 0 where
  pub dry_run : Text → Option (List Text)
  pub used : Text → Option (List Text)
  pub clock : ℕ → ℕ

unfoldable pub is_under_any : Text → List Text → Bool
is_under_any rel tops = any (is_under rel) tops

-- `c.join(texts)`
unfoldable pub join : ℕ → List Text → Text
join c [] = []
join c (t ∷ ts) = elim ts [ [] ↦ t | u ∷ us ↦ t ++ (c ∷ join c ts) ]

-- `ds@a,b,c`, each name once
unfoldable pub dry_run_target : Text → List Text → Text
dry_run_target ds snaps = ds ++ (b'@' ∷ join b',' (distinct snaps))

-- `reclaim<tab>BYTES`
unfoldable pub reclaim_line : List Text → Option ℕ
reclaim_line (word ∷ bytes ∷ []) = if text_eq word (codes "reclaim") then int_of bytes else none
reclaim_line _ = none

unfoldable pub reclaim_bytes : List Text → Option ℕ
reclaim_bytes [] = none
reclaim_bytes (line ∷ lines) =
    let rest = reclaim_bytes lines in
    elim (reclaim_line (split 9 line)) [ some n ↦ some n | none ↦ rest ]

unfoldable pub dry_run : Reads → Text → List Text → Option ℕ
dry_run z ds snaps = elim (z.dry_run (dry_run_target ds snaps)) [
  | none ↦ none
  | some lines ↦ reclaim_bytes lines
]

unfoldable pub by_dataset : List Text → Dict (List Text) → Dict (List Text)
by_dataset [] out = out
by_dataset (full ∷ names) out =
    by_dataset names (append_at (before b'@' full) (after b'@' full) out)

abbrev pub or_zero : Option ℕ → ℕ
or_zero none = 0
or_zero (some n) = n

unfoldable pub sum_dry_runs : Reads → Dict (List Text) → ℕ
sum_dry_runs z [] = 0
sum_dry_runs z ((ds, snaps) ∷ groups) = or_zero (dry_run z ds snaps) + sum_dry_runs z groups

unfoldable pub reclaim_names : Reads → List Text → ℕ
reclaim_names z names = sum_dry_runs z (sorted_items (by_dataset names []))

-- `used.output.strip()` is the one line that is printed
unfoldable pub used_of : Reads → Text → Option ℕ
used_of z name = elim (z.used name) [
  | none ↦ none
  | some lines ↦ elim lines [
    | [] ↦ none
    | line ∷ more ↦ elim more [ [] ↦ int_of line | l ∷ ls ↦ none ]
  ]
]

abbrev pub in_pool : Text → Text → Text
in_pool pool rel = pool ++ (b'/' ∷ rel)

-- the names that no tree destroyed whole takes with it
unfoldable pub removed_names : Text → List Removal → List Text → List Text
removed_names pool removals tops =
    map (λ r. in_pool pool (target_of r.rel r.name))
      (select (λ r. not (is_under_any r.rel tops)) removals)

unfoldable pub sum_used : Reads → Text → List Text → ℕ
sum_used z pool [] = 0
sum_used z pool (top ∷ tops) = or_zero (used_of z (in_pool pool top)) + sum_used z pool tops

unfoldable pub reclaim : Reads → Text → List Removal → List Text → ℕ
reclaim z pool removals tops =
    reclaim_names z (removed_names pool removals tops) + sum_used z pool tops

-- `deadline is not None and time.monotonic() >= deadline`, at the reading `i` of the clock
unfoldable pub is_late : Reads → Option ℕ → ℕ → Bool
is_late z deadline i = elim deadline [ none ↦ false | some d ↦ leb d (z.clock i) ]

-- The first loop of `measure`: its total, and how many dry runs it tallies.
unfoldable pub measure_names : Reads → Option ℕ → ℕ → Dict (List Text) → ℕ → Option ℕ × ℕ
measure_names z deadline i [] total = (some total, i)
measure_names z deadline i ((ds, snaps) ∷ groups) total =
    let got = dry_run z ds snaps in
    let rest = measure_names z deadline (suc i) groups (total + or_zero got) in
    if is_late z deadline i then (none, i) else elim got [ none ↦ (none, suc i) | some n ↦ rest ]

unfoldable pub measure_tops : Reads → Text → List Text → ℕ → Option ℕ
measure_tops z pool [] total = some total
measure_tops z pool (top ∷ tops) total =
    let got = used_of z (in_pool pool top) in
    let rest = measure_tops z pool tops (total + or_zero got) in
    elim got [ none ↦ none | some n ↦ rest ]

-- the figure, and the length of `tally`
unfoldable pub measure : Reads → Text → List Removal → List Text → Option ℕ → Option ℕ × ℕ
measure z pool removals tops deadline =
    let first =
      measure_names z deadline 0 (sorted_items (by_dataset (removed_names pool removals tops) []))
        0 in
    elim first.0 [ none ↦ (none, first.1) | some n ↦ (measure_tops z pool tops n, first.1) ]
