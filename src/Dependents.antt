-- ===== src/Dependents.antt =====
-- lib/dependents.py: what a destroy on a backup drive must take first, and in which order.
pub mod Trees
pub mod Order
pub mod Safe
mod Tests
use zark.Base.{
  ℕ, zero, suc, Bool, true, false, not, ◌&&◌, ◌||◌, Option, none, some, List, [], ◌∷◌, ◌++◌, map,
  ltb, ◌==◌, if◌then◌else◌, is_some, length, select, any, find_first, flat_map, sort_by, Dict, Text,
  text_eq, text_le, mem_text, before, split,
}
use zark.Replication.Names.{is_under, is_archived}
use zark.Replication.Model.{Dest}
use zark.RestorePoints.Model.{logical}
use zark.Retention.Prune.{sorted_items}
use zark.Reclaim.Measure.{is_under_any, in_pool}

-- `snapshot.split("@", 1)[0]`
abbrev pub dataset_of : Text → Text
dataset_of snapshot = before b'@' snapshot

pub record Dependent : Type 0 where
  pub rel : Text
  pub origin : Text
  pub archived : Bool
  pub depth : ℕ

pub data Why : Type 0 where
  live inside cycle newer : Why

pub record Blocker : Type 0 where
  pub rel : Text
  pub origin : Text
  pub why : Why

pub record DestroyPlan : Type 0 where
  pub top : Text
  pub order : List Dependent
  pub blockers : List Blocker

-- The clones outside the trees `gone` of a snapshot inside one of them.
unfoldable pub is_dependent : List Text → Text × Dest → Bool
is_dependent gone e =
    not (text_eq e.1.clone_of [])
    && (not (is_under_any e.0 gone) && is_under_any (dataset_of e.1.clone_of) gone)

unfoldable pub dependent_of : Text → ℕ → Text × Dest → Dependent
dependent_of top depth e = record {
  rel = e.0;
  origin = e.1.clone_of;
  archived = is_archived e.0 && is_under_any (logical e.0) (top ∷ []);
  depth = depth;
}

-- The loop of `_trees`: `gone` is the top with the names of `found`, so a new one is not in `found` yet.
-- `none` where the fuel runs out.
unfoldable pub trees_go :
    ℕ → Dict Dest → Text → ℕ → List Text → List Dependent → Option (List Dependent)
trees_go zero dest top depth gone found = none
trees_go (suc f) dest top depth gone found =
    let fresh = select (is_dependent gone) dest in
    let next =
      trees_go f dest top (suc depth) (gone ++ map (λ (e : Text × Dest). e.0) fresh)
        (found ++ map (dependent_of top depth) fresh) in
    elim fresh [ [] ↦ some found | e ∷ es ↦ next ]

abbrev pub names_of : List Dependent → List Text
names_of found = map (λ (x : Dependent). x.rel) found

-- no other name of `found` is above
unfoldable pub is_top : List Dependent → Dependent → Bool
is_top found x = not (is_under_any x.rel (select (λ t. not (text_eq t x.rel)) (names_of found)))

unfoldable pub trees : Dict Dest → Text → Option (List Dependent)
trees dest top = elim (trees_go (suc (length dest)) dest top 1 (top ∷ []) []) [
  | none ↦ none
  | some found ↦ some (select (is_top found) found)
]

-- the tree that holds a dataset
unfoldable pub tree_of : List Text → Text → Option Text
tree_of names rel = find_first (is_under rel) names

-- A dataset of a tree, and the snapshot of another tree that it is a clone of.
pub record Edge : Type 0 where
  pub tree : Text
  pub rel : Text
  pub origin : Text
  pub source : Text

-- What one dataset of the drive adds: an edge, or a blocker inside the top's tree.
unfoldable pub edge_of : List Text → Text → Text × Dest → List Edge
edge_of names top e =
    if text_eq e.1.clone_of [] || is_under e.0 top
    then []
    else elim (tree_of names (dataset_of e.1.clone_of)) [
      | none ↦ []
      | some source ↦ elim (tree_of names e.0) [
        | none ↦ []
        | some mine ↦
            if text_eq mine source
            then []
            else record { tree = mine; rel = e.0; origin = e.1.clone_of; source = source } ∷ []
      ]
    ]

unfoldable pub is_inside : List Text → Text → Text × Dest → Bool
is_inside names top e =
    not (text_eq e.1.clone_of [])
    && (is_some (tree_of names (dataset_of e.1.clone_of)) && is_under e.0 top)

unfoldable pub edges_of : Dict Dest → List Text → Text → List Edge
edges_of dest names top = flat_map (edge_of names top) (sorted_items dest)

-- a tree left has a dataset that is a clone of a snapshot of `x`
unfoldable pub is_needed : List Edge → List Dependent → Dependent → Bool
is_needed edges left x = any (λ e. mem_text e.tree (names_of left) && text_eq e.source x.rel) edges

-- `(-x.depth, x.rel)`
unfoldable pub deeper_le : Dependent → Dependent → Bool
deeper_le a b = if ltb b.depth a.depth then true else a.depth == b.depth && text_le a.rel b.rel

unfoldable pub ready_of : List Edge → List Dependent → List Dependent
ready_of edges left = sort_by deeper_le (select (λ x. not (is_needed edges left x)) left)

-- `del left[rel]`
unfoldable pub without_tree : Text → List Dependent → List Dependent
without_tree rel left = select (λ x. not (text_eq x.rel rel)) left

-- The order, and the names of the trees that cannot be ordered. Each round takes a tree away, so as
-- much fuel as there are trees is enough.
unfoldable pub topological : ℕ → List Edge → List Dependent → List Dependent × List Text
topological zero edges left = ([], sort_by text_le (names_of left))
topological (suc f) edges left = elim (ready_of edges left) [
  | [] ↦ ([], sort_by text_le (names_of left))
  | x ∷ xs ↦ let rest = topological f edges (without_tree x.rel left) in (x ∷ rest.0, rest.1)
]

unfoldable pub live_blockers : List Dependent → List Blocker
live_blockers found =
    map (λ (x : Dependent). record { rel = x.rel; origin = x.origin; why = Why.live })
      (select (λ x. not x.archived) found)

unfoldable pub inside_blockers : Dict Dest → List Text → Text → List Blocker
inside_blockers dest names top =
    map (λ (e : Text × Dest). record { rel = e.0; origin = e.1.clone_of; why = Why.inside })
      (select (is_inside names top) (sorted_items dest))

unfoldable pub cycle_blockers : List Edge → List Text → List Blocker
cycle_blockers edges stuck =
    flat_map
      (λ t.
        map (λ (e : Edge). record { rel = e.rel; origin = e.origin; why = Why.cycle })
          (select (λ (e : Edge). text_eq e.tree t) edges))
      stuck

unfoldable pub plan_of : Dict Dest → Text → List Dependent → DestroyPlan
plan_of dest top found =
    let names = names_of found in
    let edges = edges_of dest names top in
    let sorted = topological (length found) edges found in
    record {
      top = top;
      order = sorted.0;
      blockers =
          live_blockers found ++ (inside_blockers dest names top ++ cycle_blockers edges sorted.1);
    }

unfoldable pub destroy_plan : Dict Dest → Text → Option DestroyPlan
destroy_plan dest top = elim (trees dest top) [
  | none ↦ none
  | some found ↦ some (plan_of dest top found)
]

unfoldable pub is_ok : DestroyPlan → Bool
is_ok p = elim p.blockers [ [] ↦ true | b ∷ bs ↦ false ]

unfoldable pub rollback_blockers : Dict Dest → Text → List Text → List Blocker
rollback_blockers dest rel names =
    map (λ (e : Text × Dest). record { rel = e.0; origin = e.1.clone_of; why = Why.newer })
      (select (λ e. mem_text e.1.clone_of (map (λ n. rel ++ n) names)) (sorted_items dest))

-- `zfs destroy -r` of a dataset, over a state of the command's, and whether it succeeds.
abbrev pub DestroyTree : Type 0 → Type 0
DestroyTree S = Text → S → Bool × S

-- The loop of `destroy_dependents`: what went, whether every one did, and the state behind it.
unfoldable pub destroy_order :
    {S : Type 0} → DestroyTree S → Text → List Dependent → S → List Text × Bool × S
destroy_order run pool [] w = ([], true, w)
destroy_order run pool (x ∷ xs) w =
    let out = run (in_pool pool x.rel) w in
    let rest = destroy_order run pool xs out.1 in
    if out.0 then (x.rel ∷ rest.0, rest.1, rest.2) else ([], false, out.1)

unfoldable pub destroy_dependents :
    {S : Type 0} → DestroyTree S → Text → DestroyPlan → S → List Text × Bool × S
destroy_dependents run pool p w =
    if is_ok p then destroy_order run pool p.order w else ([], false, w)
