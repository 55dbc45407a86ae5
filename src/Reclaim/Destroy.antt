-- ===== src/Reclaim/Destroy.antt =====
-- lib/reclaim.py: `destroy_snapshots` and `apply_prune`, over the state that `zfs destroy` changes.
pub mod Tally
pub mod Account
use zark.Base.{
  ℕ, zero, suc, ◌+◌, ◌-◌, Bool, not, ◌&&◌, Option, none, some, List, [], ◌∷◌, ◌++◌, map,
  if◌then◌else◌, length, select, Dict, append_at, Text, before, after, has_char,
}
use zark.Retention.Prune.{target_of, Removal, Prune}
use zark.Reclaim.Measure.{is_under_any, join, in_pool}

abbrev pub destroy_group : ℕ
destroy_group = 100

-- The commands, over a state of theirs: `zfs destroy TARGET` and `zfs destroy -r TARGET` with whether
-- they succeed, and the lines of `zfs list -H -o name,receive_resume_token -r TARGET`.
pub record Zfs (S : Type 0) : Type 0 where
  pub destroy : Text → S → Bool × S
  pub destroy_tree : Text → S → Bool × S
  pub list_tree : Text → S → Option (List Text)

-- `(ds@snap, reason)`
abbrev pub Target : Type 0
Target = Text × Text

-- `sep and "#" not in target`
unfoldable pub is_snapshot : Text → Bool
is_snapshot target = has_char b'@' target && not (has_char b'#' target)

unfoldable pub groups_of : List Target → Dict (List Target) → Dict (List Target)
groups_of [] out = out
groups_of ((target, reason) ∷ targets) out = groups_of targets (
    if is_snapshot target
    then append_at (before b'@' target) (after b'@' target, reason) out
    else out)

unfoldable pub singles_of : List Target → List Target
singles_of targets = select (λ t. not (is_snapshot t.0)) targets

-- The chunks of at most `destroy_group` items: `cur` is the chunk so far, with room for `room` more.
unfoldable pub chunk_go : List Target → ℕ → List Target → List (List Target)
chunk_go cur room [] = elim cur [ [] ↦ [] | c ∷ cs ↦ (c ∷ cs) ∷ [] ]
chunk_go cur zero (x ∷ xs) = cur ∷ chunk_go (x ∷ []) (destroy_group - 1) xs
chunk_go cur (suc room) (x ∷ xs) = chunk_go (cur ++ x ∷ []) room xs

unfoldable pub chunks : List Target → List (List Target)
chunks items = chunk_go [] destroy_group items

-- What the loops change: how many went, the targets that are left to be destroyed one by one, those
-- that could not be, and the state behind the commands.
pub record Progress (S : Type 0) : Type 0 where
  pub count : ℕ
  pub singles : List Target
  pub failed : List Text
  pub world : S

abbrev pub full_name : Text → Target → Target
full_name ds item = (ds ++ (b'@' ∷ item.0), item.1)

module _ {S : Type 0} (z : Zfs S) where
  -- a chunk of one goes with the singles
  unfoldable pub destroy_chunk : Text → List Target → Progress S → Progress S
  destroy_chunk ds [] p = p
  destroy_chunk ds (x ∷ []) p = record p { singles = p.singles ++ full_name ds x ∷ [] }
  destroy_chunk ds (x ∷ y ∷ ys) p =
      let items : List Target = x ∷ y ∷ ys in
      let out = z.destroy (ds ++ (b'@' ∷ join b',' (map (λ i. i.0) items))) p.world in
      if out.0
      then record p { count = p.count + length items; world = out.1 }
      else record p { singles = p.singles ++ map (full_name ds) items; world = out.1 }

  unfoldable pub destroy_chunks : Text → List (List Target) → Progress S → Progress S
  destroy_chunks ds [] p = p
  destroy_chunks ds (c ∷ cs) p = destroy_chunks ds cs (destroy_chunk ds c p)

  unfoldable pub destroy_groups : Dict (List Target) → Progress S → Progress S
  destroy_groups [] p = p
  destroy_groups ((ds, items) ∷ groups) p =
      destroy_groups groups (destroy_chunks ds (chunks items) p)

  -- the second loop, over the singles
  unfoldable pub destroy_one : Target → Progress S → Progress S
  destroy_one t p =
      let out = z.destroy t.0 p.world in
      if out.0
      then record p { count = p.count + 1; world = out.1 }
      else record p { failed = p.failed ++ t.0 ∷ []; world = out.1 }

  unfoldable pub destroy_singles : List Target → Progress S → Progress S
  destroy_singles [] p = p
  destroy_singles (t ∷ ts) p = destroy_singles ts (destroy_one t p)

  unfoldable pub destroy_snapshots : List Target → S → Progress S
  destroy_snapshots targets w =
      let start : Progress S = record {
        count = 0;
        singles = singles_of targets;
        failed = [];
        world = w;
      } in
      let grouped = destroy_groups (groups_of targets []) start in
      destroy_singles grouped.singles grouped

  -- one tree of `apply_prune`
  unfoldable pub destroy_whole : Text → List Removal → Text → Progress S → Progress S
  destroy_whole pool removals top p = elim (z.list_tree (in_pool pool top) p.world) [
    | none ↦ record p { failed = p.failed ++ in_pool pool top ∷ [] }
    | some below ↦
        let out = z.destroy_tree (in_pool pool top) p.world in
        if out.0
        then record p {
          count = p.count + length (select (λ r. is_under_any r.rel (top ∷ [])) removals);
          world = out.1;
        }
        else record p { failed = p.failed ++ in_pool pool top ∷ []; world = out.1 }
  ]

  unfoldable pub destroy_trees : Text → List Removal → List (Text × Text) → Progress S → Progress S
  destroy_trees pool removals [] p = p
  destroy_trees pool removals (t ∷ ts) p =
      destroy_trees pool removals ts (destroy_whole pool removals t.0 p)

  unfoldable pub apply_prune : Text → Prune → S → Progress S
  apply_prune pool prune w =
      let tops = map (λ (t : Text × Text). t.0) prune.datasets in
      let targets =
        map (λ (r : Removal). (in_pool pool (target_of r.rel r.name), r.reason))
          (select (λ r. not (is_under_any r.rel tops)) prune.snapshots) in
      destroy_trees pool prune.snapshots prune.datasets (destroy_snapshots targets w)
