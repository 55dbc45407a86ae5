-- ===== src/Dependents/Order.antt =====
-- `_topological`: the order in which the trees go.
use mathlib.Core.Path.{subst}
use zark.Base.{
  ℕ, zero, suc, ◌≤◌, ◌<◌, ◌≡◌, refl, sym, ◌∙◌, ◌↔◌, ◌⊎◌, inl, inr, true, false, not, ◌&&◌, List, [],
  ◌∷◌, arith, Bool-cases, length, Elem, List-cases, elem-select_iff, any→elem, elem→any, elem-map,
  elem-map_of, sort_by, elem-sort_by_iff, Text, text_eq, text_le, mem_text, text_eq_refl,
  text_eq→eq, eq→text_eq, mem_text→elem, elem→mem_text, length-select-lt, length-select,
}
use zark.Dependents.{
  names_of, is_needed, deeper_le, ready_of, without_tree, topological, Dependent, Edge,
}

-- Each tree goes while no tree that is left, before or behind it in the order or stuck, has a dataset
-- that is a clone of a snapshot of it.
abbrev pub IsOrdered : List Edge → List Text → List Dependent → Type 0
IsOrdered edges stuck [] = Unit
IsOrdered edges stuck (x ∷ xs) =
    ((e : Edge)
      → Elem e edges
      → e.source ≡ x.rel
      → (Elem e.tree (names_of (x ∷ xs)) ⊎ Elem e.tree stuck)
      → ⊥)
    × IsOrdered edges stuck xs

module _ (edges : List Edge) where
  elem-without_tree :
      (t rel : Text) (left : List Dependent)
      → Elem t (names_of (without_tree rel left))
      → Elem t (names_of left)
  unfolding without_tree
  elem-without_tree t rel left m =
      let (x, k, e) = elem-map (λ (y : Dependent). y.rel) t _ m in
      subst (λ n. Elem n (names_of left)) e
        (elem-map_of (λ (y : Dependent). y.rel) x left
          ((elem-select_iff (λ (y : Dependent). not (text_eq y.rel rel)) x left).0 k).0)

  without_tree-elem :
      (t rel : Text) (left : List Dependent)
      → Elem t (names_of left)
      → (t ≡ rel) ⊎ Elem t (names_of (without_tree rel left))
  unfolding without_tree
  without_tree-elem t rel left m =
      let (x, k, e) = elem-map (λ (y : Dependent). y.rel) t left m in
      elim (Bool-cases (text_eq x.rel rel)) [
        | inl u ↦ inl (sym e ∙ text_eq→eq x.rel rel u)
        | inr u ↦ inr (
            subst (λ n. Elem n (names_of (without_tree rel left))) e
              (elem-map_of (λ (y : Dependent). y.rel) x (without_tree rel left)
                ((elem-select_iff (λ (y : Dependent). not (text_eq y.rel rel)) x left).1
                  (k, ground arith))))
      ]

  -- a ready tree is left, and none of those left has a clone of its snapshots
  ready-facts :
      (left : List Dependent) (x : Dependent) (xs : List Dependent)
      → ready_of edges left ≡ x ∷ xs
      → Elem x left × (is_needed edges left x ≡ false)
  unfolding ready_of
  ready-facts left x xs e =
      let m : Elem x (ready_of edges left) = rw e (inl refl) in
      let s =
        (elem-select_iff (λ (y : Dependent). not (is_needed edges left y)) x left).0
          ((elem-sort_by_iff deeper_le x _).0 m) in
      (s.0, ground (arith, s.1))

  -- the two equations of a round
  topological-stop :
      (f : ℕ) (left : List Dependent)
      → ready_of edges left ≡ []
      → topological (suc f) edges left ≡ ([], sort_by text_le (names_of left))
  unfolding topological
  topological-stop f left e = ground arith

  topological-step :
      (f : ℕ) (left : List Dependent) (x : Dependent) (xs : List Dependent)
      → ready_of edges left ≡ x ∷ xs
      → topological (suc f) edges left ≡ (
        x ∷ (topological f edges (without_tree x.rel left)).0,
        (topological f edges (without_tree x.rel left)).1,
      )
  unfolding topological
  topological-step f left x xs e = ground arith

  abbrev HasNames : List Dependent → List Dependent × List Text → Type 0
  HasNames left r = (t : Text) → (Elem t (names_of r.0) ⊎ Elem t r.1) ↔ Elem t (names_of left)

  stop-HasNames : (left : List Dependent) → HasNames left ([], sort_by text_le (names_of left))
  stop-HasNames left t = (
    λ m. elim m [ inl n ↦ elim n [ ] | inr k ↦ (elem-sort_by_iff text_le t _).0 k ],
    λ m. inr ((elem-sort_by_iff text_le t _).1 m),
  )

  step-HasNames :
      (left : List Dependent) (x : Dependent) (r : List Dependent × List Text)
      → Elem x left
      → HasNames (without_tree x.rel left) r
      → HasNames left (x ∷ r.0, r.1)
  step-HasNames left x r at rest t = (
    λ m. elim m [
      | inl k ↦ elim k [
        | inl same ↦
            subst (λ n. Elem n (names_of left)) same
              (elem-map_of (λ (y : Dependent). y.rel) x left at)
        | inr q ↦ elem-without_tree t x.rel left ((rest t).0 (inl q))
      ]
      | inr k ↦ elem-without_tree t x.rel left ((rest t).0 (inr k))
    ],
    λ m. elim (without_tree-elem t x.rel left m) [
      | inl same ↦ inl (inl (sym same))
      | inr q ↦ elim ((rest t).1 q) [ inl k ↦ inl (inr k) | inr k ↦ inr k ]
    ],
  )

  -- The order and what is stuck are the trees, each way.
  pub topological-HasNames :
      (f : ℕ) (left : List Dependent) → HasNames left (topological f edges left)
  unfolding topological
  topological-HasNames zero left = stop-HasNames left
  topological-HasNames (suc f) left = elim (List-cases (ready_of edges left)) [
    | inl e ↦ subst (HasNames left) (sym (topological-stop f left e)) (stop-HasNames left)
    | inr (x, xs, e) ↦ subst (HasNames left) (sym (topological-step f left x xs e)) (
        step-HasNames left x _ (ready-facts left x xs e).0
          (topological-HasNames f (without_tree x.rel left)))
  ]

  needed-facts :
      (left : List Dependent) (x : Dependent) (e : Edge)
      → is_needed edges left x ≡ false
      → Elem e edges
      → e.source ≡ x.rel
      → Elem e.tree (names_of left)
      → ⊥
  unfolding is_needed
  needed-facts left x e h m same there =
      let hit =
        elem→any (λ (y : Edge). mem_text y.tree (names_of left) && text_eq y.source x.rel) e edges m
          (ground
            (arith, elem→mem_text e.tree (names_of left) there, eq→text_eq e.source x.rel same)) in
      absurd (cc (hit, h))

  step-IsOrdered :
      (left : List Dependent) (x : Dependent) (r : List Dependent × List Text)
      → Elem x left
      → is_needed edges left x ≡ false
      → HasNames (without_tree x.rel left) r
      → IsOrdered edges r.1 r.0
      → IsOrdered edges r.1 (x ∷ r.0)
  step-IsOrdered left x r at free names rest = (
    λ d m same there.
        needed-facts left x d free m same ((step-HasNames left x r at names d.tree).0 there),
    rest,
  )

  pub topological-IsOrdered :
      (f : ℕ) (left : List Dependent)
      → IsOrdered edges (topological f edges left).1 (topological f edges left).0
  unfolding topological
  topological-IsOrdered zero left = tt
  topological-IsOrdered (suc f) left = elim (List-cases (ready_of edges left)) [
    | inl e ↦
        subst (λ (r : List Dependent × List Text). IsOrdered edges r.1 r.0)
          (sym (topological-stop f left e)) tt
    | inr (x, xs, e) ↦
        let (at, free) = ready-facts left x xs e in
        let more = without_tree x.rel left in
        subst (λ (r : List Dependent × List Text). IsOrdered edges r.1 r.0)
          (sym (topological-step f left x xs e))
          (step-IsOrdered left x (topological f edges more) at free (topological-HasNames f more)
            (topological-IsOrdered f more))
  ]

  length-without_tree :
      (x : Dependent) (left : List Dependent)
      → Elem x left
      → length (without_tree x.rel left) < length left
  unfolding without_tree
  length-without_tree x left at = omega (
    arith,
    length-select-lt (λ (y : Dependent). not (text_eq y.rel x.rel)) (λ y. true) left x (λ b h. refl)
        at (rw (text_eq_refl x.rel) refl) refl,
    length-select (λ (y : Dependent). true) left,
  )

  -- what holds of the names that are stuck: each is needed by one of them
  abbrev AllNeeded : List Dependent × List Text → Type 0
  AllNeeded r =
      (t : Text) → Elem t r.1 → (e : Edge) × Elem e edges × (e.source ≡ t) × Elem e.tree r.1

  stop-AllNeeded :
      (left : List Dependent)
      → ready_of edges left ≡ []
      → AllNeeded ([], sort_by text_le (names_of left))
  unfolding ready_of is_needed
  stop-AllNeeded left none_ready t m =
      let (x, at, same) =
        elem-map (λ (y : Dependent). y.rel) t left ((elem-sort_by_iff text_le t _).0 m) in
      elim (Bool-cases (is_needed edges left x)) [
        | inl u ↦
            let (e, k, ok) =
              any→elem (λ (y : Edge). mem_text y.tree (names_of left) && text_eq y.source x.rel)
                edges u in
            (
              e,
              k,
              text_eq→eq e.source x.rel (ground (arith, ok)) ∙ same,
              (elem-sort_by_iff text_le e.tree _).1
                  (mem_text→elem e.tree (names_of left) (ground (arith, ok))),
            )
        | inr u ↦
            let ready : Elem x (ready_of edges left) = (elem-sort_by_iff deeper_le x _).1 (
              (elem-select_iff (λ (y : Dependent). not (is_needed edges left y)) x left).1
                (at, ground arith)) in
            let none_of : Elem x [] = rw none_ready at ready in elim none_of [ ]
      ]

  -- With as much fuel as there are trees, what is stuck is needed by what is stuck.
  pub topological-AllNeeded :
      (f : ℕ) (left : List Dependent) → length left ≤ f → AllNeeded (topological f edges left)
  unfolding topological
  topological-AllNeeded zero [] h =
      λ t m. let none_of : Elem t [] = (elem-sort_by_iff text_le t []).0 m in elim none_of [ ]
  topological-AllNeeded zero (x ∷ xs) h = absurd (omega arith)
  topological-AllNeeded (suc f) left h = elim (List-cases (ready_of edges left)) [
    | inl e ↦ subst AllNeeded (sym (topological-stop f left e)) (stop-AllNeeded left e)
    | inr (x, xs, e) ↦
        let less = length-without_tree x left (ready-facts left x xs e).0 in
        let rest = topological-AllNeeded f (without_tree x.rel left) (omega (arith, less)) in
        subst AllNeeded (sym (topological-step f left x xs e)) rest
  ]
