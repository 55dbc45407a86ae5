-- ===== src/Reclaim/Tests.antt =====
-- Runs of the measures and of the destroy, and their theorems at concrete inputs.
use zark.Base.{
  ℕ, ◌+◌, ◌≡◌, refl, true, not, ◌||◌, none, some, List, [], ◌∷◌, map, Elem, select, any, all,
  insert_sorted, sort_by, get, get_or, put, update, append_at, Text, codes, text_eq, text_le,
  starts_with, mem_text, before, after, has_char, split_first, split, is_digit, undecimal_go,
  undecimal, Accounted,
}
use zark.Replication.Names.{is_under}
use zark.RestorePoints.Parse.{int_of}
use zark.RestorePoints.Complete.{distinct}
use zark.Retention.Prune.{sorted_items, Removal, Prune}
use zark.Reclaim.Measure.{
  is_under_any, join, dry_run_target, reclaim_line, reclaim_bytes, dry_run, by_dataset,
  sum_dry_runs, reclaim_names, used_of, in_pool, removed_names, sum_used, reclaim, is_late,
  measure_names, measure_tops, measure, Reads,
}
use zark.Reclaim.Measure.Exact.{measure-eq-reclaim}
use zark.Reclaim.Destroy.{
  Target, is_snapshot, groups_of, singles_of, chunk_go, chunks, destroy_chunk, destroy_chunks,
  destroy_groups, destroy_one, destroy_singles, destroy_snapshots, destroy_whole, destroy_trees,
  apply_prune, Zfs,
}
use zark.Reclaim.Destroy.Account.{Refused, destroy_snapshots-accounts, Went}

-- what the runs compute with
reclaim_open : Unit {0}
unfolding text_eq text_le starts_with mem_text any all before after has_char split split_first
    is_digit undecimal undecimal_go select insert_sorted sort_by get get_or put update append_at
    is_under int_of distinct sorted_items is_under_any join dry_run_target reclaim_line
    reclaim_bytes dry_run by_dataset sum_dry_runs reclaim_names used_of removed_names sum_used
    reclaim is_late measure_names measure_tops measure is_snapshot groups_of singles_of chunk_go
    chunks destroy_chunk destroy_chunks destroy_groups destroy_one destroy_singles destroy_snapshots
    destroy_whole destroy_trees apply_prune
reclaim_open = tt

-- Every dry run would free 4096 bytes, and every tree holds 512; a reading of the clock takes a second.
abbrev reads : Reads
reads = record {
  dry_run = λ t. some (codes "destroy\ttank" ∷ codes "reclaim\t4096" ∷ []);
  used = λ t. some (codes "512" ∷ []);
  clock = λ i. i;
}

abbrev removal : Text → Text → Removal
removal rel name = record { rel = rel; name = name; reason = codes "older than 30 days" }

abbrev removals : List Removal
removals =
    removal (codes "rpool/home") (codes "a")
    ∷ removal (codes "rpool/home") (codes "b")
    ∷ removal (codes "rpool/var") (codes "a")
    ∷ removal (codes "rpool/old") (codes "a")
    ∷ []

abbrev tops : List Text
tops = codes "rpool/old" ∷ []

reclaim_run : reclaim reads (codes "tank") removals tops ≡ 8704
unfolding reclaim_open
reclaim_run = refl

measure_run : measure reads (codes "tank") removals tops (some 5) ≡ (some 8704, 2)
unfolding reclaim_open
measure_run = refl

-- The deadline passes at the second reading of the clock.
late_run : measure reads (codes "tank") removals tops (some 1) ≡ (none, 1)
unfolding reclaim_open
late_run = refl

measure-eq-reclaim_example :
    (8704 ≡ reclaim reads (codes "tank") removals tops)
    × ((g : Text × List Text)
        → Elem g (by_dataset (removed_names (codes "tank") removals tops) [])
        → (k : ℕ) × (dry_run reads g.0 g.1 ≡ some k))
    × ((top : Text)
        → Elem top tops
        → (k : ℕ) × (used_of reads (in_pool (codes "tank") top) ≡ some k))
unfolding reclaim_open
measure-eq-reclaim_example =
    measure-eq-reclaim reads (codes "tank") removals tops (some 5) 8704 refl

-- A drive that refuses a group of two names, and every name with a hash; it counts the commands.
abbrev zfs : Zfs ℕ
zfs = record {
  destroy = λ t n. (not (has_char b',' t || has_char b'#' t), n + 1);
  destroy_tree = λ t n. (true, n + 1);
  list_tree = λ t n. some [];
}

abbrev targets : List Target
targets =
    (codes "tank/rpool/home@a", codes "old")
    ∷ (codes "tank/rpool/home#b", codes "anchor")
    ∷ (codes "tank/rpool/home@c", codes "old")
    ∷ []

-- The group, and then the three names.
destroy_run : destroy_snapshots zfs targets 0 ≡ record {
  count = 2;
  singles =
      (codes "tank/rpool/home#b", codes "anchor")
      ∷ (codes "tank/rpool/home@a", codes "old")
      ∷ (codes "tank/rpool/home@c", codes "old")
      ∷ [];
  failed = codes "tank/rpool/home#b" ∷ [];
  world = 4;
}
unfolding reclaim_open
destroy_run = refl

abbrev pruned : Prune
pruned = record {
  snapshots = removals;
  datasets = (codes "rpool/old", codes "archived lineage") ∷ [];
  kept = [];
}

prune_run : (apply_prune zfs (codes "tank") pruned 0).count ≡ 4
unfolding reclaim_open
prune_run = refl

destroy_snapshots-accounts_example :
    Accounted
      (Went zfs)
      (Refused zfs)
      (map (λ t. t.0) targets)
      (destroy_snapshots zfs targets 0).failed
      (destroy_snapshots zfs targets 0).count
destroy_snapshots-accounts_example = destroy_snapshots-accounts zfs targets 0
