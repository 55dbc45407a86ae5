-- ===== src/Dependents/Safe.antt =====
-- `destroy_plan`: where it can be offered, its order is safe and complete.
use zark.Base.{◌≡◌, ◌≢◌, ◌↔◌, ◌⊎◌, false, some, List, [], ◌∷◌, arith, length, Elem, Dict, Text}
use zark.Replication.Names.{is_under}
use zark.Replication.Model.{Dest}
use zark.Dependents.{
  dataset_of, names_of, trees, tree_of, edges_of, topological, plan_of, destroy_plan, Dependent,
  DestroyPlan, Edge,
}
use zark.Dependents.Trees.{trees-total}
use zark.Dependents.Order.{topological-HasNames, topological-AllNeeded}

-- A dataset of one tree is a clone of a snapshot in another one, both outside the top's tree.
pub record HoldsClone (dest : Dict Dest) (names : List Text) (top tree source : Text) : Type 0 where
  pub rel : Text
  pub dataset : Dest
  pub listed : Elem (rel, dataset) dest
  pub clone : dataset.clone_of ≢ []
  pub outside : is_under rel top ≡ false
  pub in_tree : tree_of names rel ≡ some tree
  pub of_source : tree_of names (dataset_of dataset.clone_of) ≡ some source
  pub apart : tree ≢ source

-- Each tree goes before every tree that one of its datasets is cloned from: when a tree goes, none of
-- those that still stand has a clone of its snapshots.
abbrev pub IsSafe : Dict Dest → List Text → Text → List Dependent → Type 0
IsSafe dest names top [] = Unit
IsSafe dest names top (x ∷ xs) =
    ((t : Text) → Elem t (names_of (x ∷ xs)) → HoldsClone dest names top t x.rel → ⊥)
    × IsSafe dest names top xs

-- Both loops of a destroy's plan end by themselves, on every listing of a drive. The first one finds
-- the dependent trees within its fuel. The second one stops where no tree that is left may go: the
-- trees are those of the order and those that are stuck, and each stuck one has a snapshot that a
-- dataset of a stuck tree is a clone of.
pub destroy_plan-total :
    (dest : Dict Dest) (top : Text)
    → (p : DestroyPlan) × (destroy_plan dest top ≡ some p)
      × ((found : List Dependent) × (trees dest top ≡ some found)
          × ((stuck : List Text) × ((t : Text)
                → (Elem t (names_of p.order) ⊎ Elem t stuck) ↔ Elem t (names_of found))
              × ((t : Text)
                  → Elem t stuck
                  → (e : Edge) × Elem e (edges_of dest (names_of found) top)
                    × (e.source ≡ t)
                    × Elem e.tree stuck)))
unfolding destroy_plan plan_of
destroy_plan-total dest top =
    let (found, e) = trees-total dest top in
    let edges = edges_of dest (names_of found) top in
    (
      plan_of dest top found,
      ground arith,
      (
        found,
        e,
        (
          (topological (length found) edges found).1,
          topological-HasNames edges (length found) found,
          topological-AllNeeded edges (length found) found (omega arith),
        ),
      ),
    )
