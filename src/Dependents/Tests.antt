-- ===== src/Dependents/Tests.antt =====
-- Runs of the destroy's plan, and its theorems at concrete inputs.
use zark.Base.{
  ℕ, ◌+◌, ◌≡◌, refl, ◌↔◌, ◌⊎◌, true, false, none, some, List, [], ◌∷◌, map, Elem, select, any, all,
  find_first, flat_map, insert_sorted, sort_by, Dict, Text, codes, text_eq, text_le, starts_with,
  has_infix, mem_text, before, split_first, split,
}
use zark.Replication.Names.{is_under, is_archived}
use zark.Replication.Model.{Dest}
use zark.RestorePoints.Model.{logical_go, logical}
use zark.Retention.Prune.{sorted_items}
use zark.Reclaim.Measure.{is_under_any}
use zark.Dependents.{
  is_dependent, dependent_of, trees_go, names_of, is_top, trees, tree_of, edge_of, is_inside,
  edges_of, is_needed, deeper_le, ready_of, without_tree, topological, live_blockers,
  inside_blockers, cycle_blockers, plan_of, destroy_plan, is_ok, rollback_blockers, destroy_order,
  destroy_dependents, Dependent, DestroyPlan, Edge,
}
use zark.Dependents.Safe.{destroy_plan-total}

-- what the runs compute with
destroy_open : Unit {0}
unfolding text_eq text_le starts_with has_infix mem_text any all before split split_first select
    find_first flat_map insert_sorted sort_by is_under is_archived logical_go logical sorted_items
    is_under_any is_dependent dependent_of trees_go is_top trees tree_of edge_of is_inside edges_of
    is_needed deeper_le ready_of without_tree topological live_blockers inside_blockers
    cycle_blockers plan_of destroy_plan is_ok rollback_blockers destroy_order destroy_dependents
destroy_open = tt

abbrev dest_of : Text → Text → Dest
dest_of rel clone_of = record {
  rel = rel;
  kind = codes "filesystem";
  token = [];
  orphan = [];
  excluded_kept = [];
  used = 0;
  written = 0;
  snaps = [];
  clone_of = clone_of;
}

abbrev var : Text
var = codes "rpool/var"

abbrev first : Text
first = codes "rpool/var.archived-20260101"

abbrev second : Text
second = codes "rpool/var.archived-20260201"

-- The second archive is a clone of the first one, which is a clone of the dataset.
abbrev drive : Dict Dest
drive =
    (var, dest_of var [])
    ∷ (first, dest_of first (codes "rpool/var@a"))
    ∷ (second, dest_of second (codes "rpool/var.archived-20260101@b"))
    ∷ []

abbrev planned : DestroyPlan
planned = record {
  top = var;
  order =
      record {
        rel = second;
        origin = codes "rpool/var.archived-20260101@b";
        archived = true;
        depth = 2;
      }
      ∷ record { rel = first; origin = codes "rpool/var@a"; archived = true; depth = 1 }
      ∷ [];
  blockers = [];
}

plan_run : destroy_plan drive var ≡ some planned
unfolding destroy_open
plan_run = refl

destroy_run :
    destroy_dependents {S = ℕ} (λ t n. (true, n + 1)) (codes "tank") planned 0
    ≡ (second ∷ first ∷ [], true, 2)
unfolding destroy_open
destroy_run = refl

-- A live clone keeps the destroy from being offered.
abbrev with_live : Dict Dest
with_live = (codes "rpool/www", dest_of (codes "rpool/www") (codes "rpool/var@a")) ∷ drive

live_run :
    map is_ok (elim (destroy_plan with_live var) [ none ↦ [] | some p ↦ p ∷ [] ]) ≡ false ∷ []
unfolding destroy_open
live_run = refl

rollback_run :
    map (λ b. b.rel) (rollback_blockers drive var (codes "@a" ∷ codes "@c" ∷ [])) ≡ first ∷ []
unfolding destroy_open
rollback_run = refl

destroy_plan-total_example :
    (p : DestroyPlan) × (destroy_plan drive var ≡ some p)
    × ((found : List Dependent) × (trees drive var ≡ some found)
        × ((stuck : List Text) × ((t : Text)
              → (Elem t (names_of p.order) ⊎ Elem t stuck) ↔ Elem t (names_of found))
            × ((t : Text)
                → Elem t stuck
                → (e : Edge) × Elem e (edges_of drive (names_of found) var)
                  × (e.source ≡ t)
                  × Elem e.tree stuck)))
destroy_plan-total_example = destroy_plan-total drive var
