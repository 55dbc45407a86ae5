-- ===== src/RestorePoints/Complete/Datasets.antt =====
-- How many datasets a point holds, and how many of them a destroy leaves it.
use mathlib.Core.Path.{subst}
use zark.Base.{
  ℕ, ◌+◌, ◌≡◌, refl, sym, ◌↔◌, inl, inr, Bool, true, not, some, List, [], ◌∷◌, map, arith,
  Bool-cases, length, Elem, List-cases, select, all, elem-select_iff, elem-map, elem-map_of, Text,
  text_eq, mem_text, is_digit, decimal, undecimal, text_eq_refl, text_eq→eq, mem_text→elem,
  elem→mem_text, not_elem→mem_text, undecimal-decimal, decimal-digits, decimal-ne-nil, IsDistinct,
  length-select_split, length-IsDistinct,
}
use zark.RestorePoints.Model.{Snap}
use zark.RestorePoints.Parse.{int_of}
use zark.RestorePoints.Complete.{distinct, datasets_of, without, gone, left_of, lost_of}

pub elem-distinct_iff : (k : Text) (xs : List Text) → Elem k (distinct xs) ↔ Elem k xs
unfolding distinct
elem-distinct_iff k [] = (λ m. m, λ m. m)
elem-distinct_iff k (x ∷ xs) = (
  λ m. elim m [
    | inl e ↦ inl e
    | inr n ↦ inr (
        (elem-distinct_iff k xs).0
          ((elem-select_iff (λ j. not (text_eq j x)) k (distinct xs)).0 n).0)
  ],
  λ m. elim m [
    | inl e ↦ inl e
    | inr n ↦ elim (Bool-cases (text_eq k x)) [
      | inl t ↦ inl (sym (text_eq→eq k x t))
      | inr t ↦ inr (
          (elem-select_iff (λ j. not (text_eq j x)) k (distinct xs)).1
            ((elem-distinct_iff k xs).1 n, ground arith))
    ]
  ],
)

IsDistinct-select : (p : Text → Bool) (xs : List Text) → IsDistinct xs → IsDistinct (select p xs)
unfolding select
IsDistinct-select p [] d = tt
IsDistinct-select p (x ∷ xs) d = elim (Bool-cases (p x)) [
  | inl t ↦ rw t (
      (
        not_elem→mem_text x (select p xs) (λ m.
            let there = elem→mem_text x xs ((elem-select_iff p x xs).0 m).0 in
            absurd (cc (d.0, there))),
        IsDistinct-select p xs d.1,
      ))
  | inr t ↦ rw t (IsDistinct-select p xs d.1)
]

pub distinct-IsDistinct : (xs : List Text) → IsDistinct (distinct xs)
unfolding distinct
distinct-IsDistinct [] = tt
distinct-IsDistinct (x ∷ xs) = (
  not_elem→mem_text x _ (λ m.
      let s = (elem-select_iff (λ j. not (text_eq j x)) x (distinct xs)).0 m in
      absurd (ground (arith, s.1, text_eq_refl x))),
  IsDistinct-select (λ j. not (text_eq j x)) (distinct xs) (distinct-IsDistinct xs),
)

-- What is left of a list without repetition, once some of its elements are taken out.
length-without_of :
    (xs ys : List Text)
    → IsDistinct xs
    → IsDistinct ys
    → ((y : Text) → Elem y ys → Elem y xs)
    → length ys + length (without xs ys) ≡ length xs
unfolding without
length-without_of xs ys dx dy sub =
    let kept = select (λ x. mem_text x ys) xs in
    omega (
      arith,
      length-select_split (λ x. mem_text x ys) xs,
      length-IsDistinct ys kept dy
          (λ y m. (elem-select_iff (λ x. mem_text x ys) y xs).1 (sub y m, elem→mem_text y ys m)),
      length-IsDistinct kept ys (IsDistinct-select (λ x. mem_text x ys) xs dx)
          (λ y m. mem_text→elem y ys ((elem-select_iff (λ x. mem_text x ys) y xs).0 m).1),
    )

pub length-lost_of :
    (tops : List Text) (members : List Snap)
    → length (datasets_of (left_of tops members)) + length (lost_of tops members)
      ≡ length (datasets_of members)
unfolding lost_of datasets_of left_of
length-lost_of tops members =
    let left = select (λ s. not (gone tops s)) members in
    length-without_of _ _ (distinct-IsDistinct (map (λ s. s.dataset) members))
      (distinct-IsDistinct (map (λ s. s.dataset) left))
      λ y m.
        let (s, k, e) = elem-map (λ (x : Snap). x.dataset) y left ((elem-distinct_iff y _).0 m) in
        let there = ((elem-select_iff (λ x. not (gone tops x)) s members).0 k).0 in
        (elem-distinct_iff y _).1 (
          subst (λ d. Elem d (map (λ (x : Snap). x.dataset) members)) e
            (elem-map_of (λ (x : Snap). x.dataset) s members there))

pub int_of-decimal : (n : ℕ) → int_of (decimal n) ≡ some n
unfolding int_of
int_of-decimal n = elim (List-cases (decimal n)) [
  | inl e ↦ absurd (decimal-ne-nil n e)
  | inr (c, s, e) ↦
      let digits : all is_digit (c ∷ s) ≡ true = rw e at (decimal-digits n) in
      let value : undecimal (c ∷ s) ≡ n = rw e at (undecimal-decimal n) in
      rw (e, int_of) (rw (digits, value) refl)
]
