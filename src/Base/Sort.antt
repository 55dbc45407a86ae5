-- ===== src/Base/Sort.antt =====
-- `sorted(xs, key=...)`: a stable sort by a Boolean order, and `max` over a list by a Boolean order.
use zark.Base.Core.{
  suc, ◌≡◌, refl, ◌↔◌, ◌⊎◌, inl, inr, Bool, true, false, Option, none, some, List, [], ◌∷◌, arith,
  if◌then◌else◌, Bool-cases,
}
use zark.Base.Lists.{length, Elem}

module _ {ℓ} {A : Type ℓ} (le : A → A → Bool) where
  -- equal keys keep their order: `x` goes before the first element that is not below it
  unfoldable pub insert_sorted : A → List A → List A
  insert_sorted x [] = x ∷ []
  insert_sorted x (y ∷ ys) =
      let rest = insert_sorted x ys in if le x y then x ∷ y ∷ ys else y ∷ rest

  unfoldable pub sort_by : List A → List A
  sort_by [] = []
  sort_by (x ∷ xs) = insert_sorted x (sort_by xs)

  -- `max(xs, key=...)`: the first of the largest
  unfoldable pub max_from : A → List A → A
  max_from m [] = m
  max_from m (x ∷ xs) = max_from (if le x m then m else x) xs

  unfoldable pub max_by : List A → Option A
  max_by [] = none
  max_by (x ∷ xs) = some (max_from x xs)

  -- every element is at most those behind it
  abbrev pub IsBelow : A → List A → Type 0
  IsBelow x [] = Unit
  IsBelow x (y ∷ ys) = (le x y ≡ true) × IsBelow x ys

  abbrev pub IsSorted : List A → Type 0
  IsSorted [] = Unit
  IsSorted (x ∷ xs) = IsBelow x xs × IsSorted xs

  pub elem-insert_sorted :
      (a x : A) (xs : List A) → Elem a (insert_sorted x xs) ↔ ((x ≡ a) ⊎ Elem a xs)
  unfolding insert_sorted
  elem-insert_sorted a x [] = (λ h. h, λ h. h)
  elem-insert_sorted a x (y ∷ ys) = elim (Bool-cases (le x y)) [
    | inl t ↦ rw t ((λ h. h, λ h. h))
    | inr t ↦ rw t (
        (
          λ h. elim h [
            | inl e ↦ inr (inl e)
            | inr m ↦ elim ((elem-insert_sorted a x ys).0 m) [ inl e ↦ inl e | inr n ↦ inr (inr n) ]
          ],
          λ h. elim h [
            | inl e ↦ inr ((elem-insert_sorted a x ys).1 (inl e))
            | inr s ↦ elim s [ inl e ↦ inl e | inr m ↦ inr ((elem-insert_sorted a x ys).1 (inr m)) ]
          ],
        ))
  ]

  -- Sorting keeps exactly the elements.
  pub elem-sort_by_iff : (a : A) (xs : List A) → Elem a (sort_by xs) ↔ Elem a xs
  unfolding sort_by
  elem-sort_by_iff a [] = (λ h. h, λ h. h)
  elem-sort_by_iff a (x ∷ xs) = (
    λ h. elim ((elem-insert_sorted a x (sort_by xs)).0 h) [
      | inl e ↦ inl e
      | inr m ↦ inr ((elem-sort_by_iff a xs).0 m)
    ],
    λ h. elim h [
      | inl e ↦ (elem-insert_sorted a x (sort_by xs)).1 (inl e)
      | inr m ↦ (elem-insert_sorted a x (sort_by xs)).1 (inr ((elem-sort_by_iff a xs).1 m))
    ],
  )

  pub length-insert_sorted : (x : A) (xs : List A) → length (insert_sorted x xs) ≡ suc (length xs)
  unfolding insert_sorted
  length-insert_sorted x [] = refl
  length-insert_sorted x (y ∷ ys) = ground (arith, length-insert_sorted x ys)

  pub length-sort_by : (xs : List A) → length (sort_by xs) ≡ length xs
  unfolding sort_by
  length-sort_by [] = refl
  length-sort_by (x ∷ xs) = omega (arith, length-insert_sorted x (sort_by xs), length-sort_by xs)

  pub IsBelow→le : (x a : A) (xs : List A) → IsBelow x xs → Elem a xs → le x a ≡ true
  IsBelow→le x a [] b m = elim m [ ]
  IsBelow→le x a (y ∷ ys) b (inl e) = rw (← e) b.0
  IsBelow→le x a (y ∷ ys) b (inr m) = IsBelow→le x a ys b.1 m

  module _ (total : (a b : A) → (le a b ≡ true) ⊎ (le b a ≡ true))
      (trans : (a b c : A) → le a b ≡ true → le b c ≡ true → le a c ≡ true) where
    IsBelow-trans : (x y : A) (ys : List A) → le x y ≡ true → IsBelow y ys → IsBelow x ys
    IsBelow-trans x y [] h b = tt
    IsBelow-trans x y (z ∷ zs) h b = (trans x y z h b.0, IsBelow-trans x y zs h b.1)

    IsBelow-insert_sorted :
        (y x : A) (xs : List A) → le y x ≡ true → IsBelow y xs → IsBelow y (insert_sorted x xs)
    unfolding insert_sorted
    IsBelow-insert_sorted y x [] h b = (h, tt)
    IsBelow-insert_sorted y x (z ∷ zs) h b = elim (Bool-cases (le x z)) [
      | inl t ↦ rw t ((h, b))
      | inr t ↦ rw t ((b.0, IsBelow-insert_sorted y x zs h b.1))
    ]

    le_of_not_le : (a b : A) → le a b ≡ false → le b a ≡ true
    le_of_not_le a b h = elim (total a b) [ inl t ↦ cc | inr t ↦ t ]

    IsSorted-insert_sorted : (x : A) (xs : List A) → IsSorted xs → IsSorted (insert_sorted x xs)
    unfolding insert_sorted
    IsSorted-insert_sorted x [] s = (tt, tt)
    IsSorted-insert_sorted x (y ∷ ys) s = elim (Bool-cases (le x y)) [
      | inl t ↦ rw t (((t, IsBelow-trans x y ys t s.0), s))
      | inr t ↦
          rw t (
            (
              IsBelow-insert_sorted y x ys (le_of_not_le x y t) s.0,
              IsSorted-insert_sorted x ys s.1,
            ))
    ]

    pub sort_by-IsSorted : (xs : List A) → IsSorted (sort_by xs)
    unfolding sort_by
    sort_by-IsSorted [] = tt
    sort_by-IsSorted (x ∷ xs) = IsSorted-insert_sorted x (sort_by xs) (sort_by-IsSorted xs)

    le_refl : (a : A) → le a a ≡ true
    le_refl a = elim (total a a) [ inl t ↦ t | inr t ↦ t ]

    pub max_from-is_max :
        (m : A) (xs : List A)
        → (le m (max_from m xs) ≡ true) × ((a : A) → Elem a xs → le a (max_from m xs) ≡ true)
    unfolding max_from
    max_from-is_max m [] = (le_refl m, λ a h. elim h [ ])
    max_from-is_max m (x ∷ xs) = elim (Bool-cases (le x m)) [
      | inl t ↦ rw t (
          let r = max_from-is_max m xs in
          (r.0, λ a h. elim h [ inl e ↦ rw (← e) (trans x m _ t r.0) | inr k ↦ r.1 a k ]))
      | inr t ↦ rw t (
          let r = max_from-is_max x xs in
          (
            trans m x _ (le_of_not_le x m t) r.0,
            λ a h. elim h [ inl e ↦ rw (← e) r.0 | inr k ↦ r.1 a k ],
          ))
    ]

  elem-if_head :
      (b : Bool) (r m x : A) (xs : List A)
      → Elem r ((if b then m else x) ∷ xs)
      → Elem r (m ∷ x ∷ xs)
  elem-if_head true r m x xs (inl e) = inl e
  elem-if_head true r m x xs (inr k) = inr (inr k)
  elem-if_head false r m x xs h = inr h

  pub elem-max_from : (m : A) (xs : List A) → Elem (max_from m xs) (m ∷ xs)
  unfolding max_from
  elem-max_from m [] = inl refl
  elem-max_from m (x ∷ xs) =
      elem-if_head (le x m) _ m x xs (elem-max_from (if le x m then m else x) xs)
