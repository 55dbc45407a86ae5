-- ===== src/Base/Counting.antt =====
-- Lengths of lists: of what is selected, of what is appended, and of lists without repetition.
use mathlib.Core.Path.{subst}
use zark.Base.Core.{
  ◌+◌, ◌≤◌, ◌<◌, ◌≡◌, refl, inl, inr, Bool, true, false, not, List, [], ◌∷◌, ◌++◌, map, arith,
  Bool-cases,
}
use zark.Base.Lists.{length, Elem, select, elem-select_iff}
use zark.Base.Strings.{Text, text_eq}
use zark.Base.Texts.{text_eq_refl, text_eq→eq, elem→mem_text, IsDistinct}

module _ {ℓ} {A : Type ℓ} where
  pub length-append : (xs ys : List A) → length (xs ++ ys) ≡ length xs + length ys
  length-append [] ys = omega arith
  length-append (x ∷ xs) ys = omega (arith, length-append xs ys)

  pub length-select-le :
      (p q : A → Bool) (xs : List A)
      → ((a : A) → p a ≡ true → q a ≡ true)
      → length (select p xs) ≤ length (select q xs)
  unfolding select
  length-select-le p q [] h = omega arith
  length-select-le p q (x ∷ xs) h =
      let rest = length-select-le p q xs h in
      elim (Bool-cases (p x)) [
        | inl t ↦ rw (t, h x t, select) (omega (arith, rest))
        | inr t ↦ elim (Bool-cases (q x)) [
          | inl u ↦ rw (t, u, select) (omega (arith, rest))
          | inr u ↦ rw (t, u, select) rest
        ]
      ]

  pub length-select-lt :
      (p q : A → Bool) (xs : List A) (a : A)
      → ((b : A) → p b ≡ true → q b ≡ true)
      → Elem a xs
      → p a ≡ false
      → q a ≡ true
      → length (select p xs) < length (select q xs)
  unfolding select
  length-select-lt p q [] a h m np qa = elim m [ ]
  length-select-lt p q (x ∷ xs) a h (inl e) np qa =
      let np' : p x ≡ false = rw e np in
      let qa' : q x ≡ true = rw e qa in
      rw (np', qa', select) (omega (arith, length-select-le p q xs h))
  length-select-lt p q (x ∷ xs) a h (inr m) np qa =
      let rest = length-select-lt p q xs a h m np qa in
      elim (Bool-cases (p x)) [
        | inl t ↦ rw (t, h x t, select) (omega (arith, rest))
        | inr t ↦ elim (Bool-cases (q x)) [
          | inl u ↦ rw (t, u, select) (omega (arith, rest))
          | inr u ↦ rw (t, u, select) rest
        ]
      ]

  pub length-select : (p : A → Bool) (xs : List A) → length (select p xs) ≤ length xs
  unfolding select
  length-select p [] = omega arith
  length-select p (x ∷ xs) = ground (arith, length-select p xs)

  pub length-select_split :
      (p : A → Bool) (xs : List A)
      → length (select p xs) + length (select (λ x. not (p x)) xs) ≡ length xs
  unfolding select
  length-select_split p [] = omega arith
  length-select_split p (x ∷ xs) = ground (arith, length-select_split p xs)

pub length-map {ℓ} : {A B : Type ℓ} (f : A → B) (xs : List A) → length (map f xs) ≡ length xs
length-map f [] = refl
length-map f (x ∷ xs) = omega (arith, length-map f xs)

-- A text that is there is one that `select` can leave out.
length-without :
    (y : Text) (xs : List Text)
    → Elem y xs
    → length (select (λ x. not (text_eq x y)) xs) < length xs
length-without y xs m = omega (
  arith,
  length-select-lt (λ x. not (text_eq x y)) (λ x. true) xs y (λ b h. refl) m
      (rw (text_eq_refl y) refl) refl,
  length-select (λ x. true) xs,
)

-- A list without repetition is no longer than one that holds all of it.
pub length-IsDistinct :
    (ys xs : List Text)
    → IsDistinct ys
    → ((y : Text) → Elem y ys → Elem y xs)
    → length ys ≤ length xs
length-IsDistinct [] xs d sub = omega arith
length-IsDistinct (y ∷ ys) xs d sub =
    let fewer = length-without y xs (sub y (inl refl)) in
    let rest = length-IsDistinct ys (select (λ x. not (text_eq x y)) xs) d.1 λ z m.
      (elem-select_iff (λ x. not (text_eq x y)) z xs).1 (
        sub z (inr m),
        elim (Bool-cases (text_eq z y)) [
          | inr t ↦ ground arith
          | inl t ↦
              let there : Elem y ys = subst (λ x. Elem x ys) (text_eq→eq z y t) m in
              absurd (cc (d.0, elem→mem_text y ys there))
        ],
      ) in
    omega (arith, fewer, rest)
