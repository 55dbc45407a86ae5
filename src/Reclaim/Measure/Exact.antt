-- ===== src/Reclaim/Measure/Exact.antt =====
-- `measure` against `reclaim`.
use mathlib.Core.Path.{subst}
use zark.Base.{
  ℕ, suc, ◌+◌, ◌≡◌, inl, inr, Option, some, List, [], ◌∷◌, arith, Bool-cases, Option-cases, length,
  Elem, elem-sort_by_iff, Dict, Text,
}
use zark.Retention.Prune.{item_le, sorted_items, Removal}
use zark.Reclaim.Measure.{
  dry_run, by_dataset, sum_dry_runs, reclaim_names, used_of, in_pool, removed_names, sum_used,
  reclaim, is_late, measure_names, measure_tops, measure, Reads,
}

measure_names-eq-some :
    (z : Reads) (deadline : Option ℕ) (i : ℕ) (groups : Dict (List Text)) (total : ℕ) (n : ℕ)
    → (measure_names z deadline i groups total).0 ≡ some n
    → (n ≡ total + sum_dry_runs z groups)
      × ((measure_names z deadline i groups total).1 ≡ i + length groups)
      × ((g : Text × List Text) → Elem g groups → (k : ℕ) × (dry_run z g.0 g.1 ≡ some k))
unfolding measure_names sum_dry_runs
measure_names-eq-some z deadline i [] total m h = (ground arith, ground arith, λ g k. elim k [ ])
measure_names-eq-some z deadline i ((ds, snaps) ∷ groups) total m h =
    elim (Bool-cases (is_late z deadline i)) [
      | inl t ↦ absurd (ground arith)
      | inr t ↦ elim (Option-cases (dry_run z ds snaps)) [
        | inl e ↦ absurd (ground arith)
        | inr (n, e) ↦
            let r = measure_names-eq-some z deadline (suc i) groups (total + n) m (ground arith) in
            (
              ground (arith, r.0, r.1),
              ground (arith, r.0, r.1),
              λ g k. elim k [
                | inl same ↦
                    subst (λ (x : Text × List Text). (j : ℕ) × (dry_run z x.0 x.1 ≡ some j)) same
                      ((n, e))
                | inr at ↦ r.2 g at
              ],
            )
      ]
    ]

measure_tops-eq-some :
    (z : Reads) (pool : Text) (tops : List Text) (total : ℕ) (n : ℕ)
    → measure_tops z pool tops total ≡ some n
    → (n ≡ total + sum_used z pool tops)
      × ((top : Text) → Elem top tops → (k : ℕ) × (used_of z (in_pool pool top) ≡ some k))
unfolding measure_tops sum_used
measure_tops-eq-some z pool [] total m h = (ground arith, λ t k. elim k [ ])
measure_tops-eq-some z pool (top ∷ tops) total m h =
    elim (Option-cases (used_of z (in_pool pool top))) [
      | inl e ↦ absurd (ground arith)
      | inr (n, e) ↦
          let r = measure_tops-eq-some z pool tops (total + n) m (ground arith) in
          (
            ground (arith, r.0),
            λ t k. elim k [
              | inl same ↦
                  subst (λ x. (j : ℕ) × (used_of z (in_pool pool x) ≡ some j)) same ((n, e))
              | inr at ↦ r.1 t at
            ],
          )
    ]

-- A figure that `measure` gives is the one that `reclaim` gives, whatever the deadline was, and every
-- read that it rests on gave a figure of its own: the dry run of each dataset with names that no whole
-- tree takes, and the space used of each tree. So nothing that cannot be read is taken as 0.
pub measure-eq-reclaim :
    (z : Reads) (pool : Text) (removals : List Removal) (tops : List Text) (deadline : Option ℕ)
    (n : ℕ)
    → (measure z pool removals tops deadline).0 ≡ some n
    → (n ≡ reclaim z pool removals tops)
      × ((g : Text × List Text)
          → Elem g (by_dataset (removed_names pool removals tops) [])
          → (k : ℕ) × (dry_run z g.0 g.1 ≡ some k))
      × ((top : Text) → Elem top tops → (k : ℕ) × (used_of z (in_pool pool top) ≡ some k))
unfolding measure reclaim reclaim_names sorted_items
measure-eq-reclaim z pool removals tops deadline n h =
    let groups = sorted_items (by_dataset (removed_names pool removals tops) []) in
    elim (Option-cases (measure_names z deadline 0 groups 0).0) [
      | inl e ↦ absurd (ground arith)
      | inr (k, e) ↦
          let r = measure_names-eq-some z deadline 0 groups 0 k e in
          let s = measure_tops-eq-some z pool tops k n (ground arith) in
          (
            omega (arith, r.0, s.0),
            λ g m. r.2 g (
                (elem-sort_by_iff item_le g (by_dataset (removed_names pool removals tops) [])).1
                  m),
            s.1,
          )
    ]
