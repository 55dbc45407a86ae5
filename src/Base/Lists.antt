-- ===== src/Base/Lists.antt =====
-- What the source does with lists: comprehensions, `any`, `all`, `next`, the last element.
-- Predicates on lists are by recursion, so that the tactics take them apart.
use mathlib.Core.List.{reverse, reverse_aux}
use zark.Base.Core.{
  ℕ, suc, ◌≡◌, refl, ap, ◌↔◌, ◌⊎◌, inl, inr, Bool, true, false, ◌&&◌, ◌||◌, Option, none, some,
  List, [], ◌∷◌, ◌++◌, map, arith, if◌then◌else◌, Bool-cases,
}

-- A type with no value, at any level.
pub data Never {ℓ} : Type ℓ where

module _ {ℓ} {A : Type ℓ} where
  abbrev pub length : List A → ℕ
  length [] = 0
  length (x ∷ xs) = suc (length xs)

  -- `a in xs`, as a proposition
  abbrev pub Elem : A → List A → Type ℓ
  Elem a [] = Never
  Elem a (x ∷ xs) = (x ≡ a) ⊎ Elem a xs

  pub List-cases : (xs : List A) → (xs ≡ []) ⊎ ((x : A) × (r : List A) × (xs ≡ x ∷ r))
  List-cases [] = inl refl
  List-cases (x ∷ r) = inr (x, r, refl)

  -- `[x for x in xs if p(x)]`
  unfoldable pub select : (A → Bool) → List A → List A
  select p [] = []
  select p (x ∷ xs) = let rest = select p xs in if p x then x ∷ rest else rest

  -- `any(p(x) for x in xs)`, `all(p(x) for x in xs)`
  unfoldable pub any : (A → Bool) → List A → Bool
  any p [] = false
  any p (x ∷ xs) = p x || any p xs

  unfoldable pub all : (A → Bool) → List A → Bool
  all p [] = true
  all p (x ∷ xs) = p x && all p xs

  -- `next((x for x in xs if p(x)), None)`
  unfoldable pub find_first : (A → Bool) → List A → Option A
  find_first p [] = none
  find_first p (x ∷ xs) = let rest = find_first p xs in if p x then some x else rest

  -- `xs[-1] if xs else None`
  unfoldable pub get_last? : List A → Option A
  get_last? [] = none
  get_last? (x ∷ []) = some x
  get_last? (x ∷ y ∷ xs) = get_last? (y ∷ xs)

  pub elem-select_iff :
      (p : A → Bool) (a : A) (xs : List A) → Elem a (select p xs) ↔ (Elem a xs × (p a ≡ true))
  unfolding select
  elem-select_iff p a [] = (λ h. elim h [ ], λ h. elim h.0 [ ])
  elem-select_iff p a (x ∷ xs) = elim (Bool-cases (p x)) [
    | inl t ↦ rw t (
      λ h. elim h [
        | inl e ↦ (inl e, rw (← e) t)
        | inr m ↦ let r = (elem-select_iff p a xs).0 m in (inr r.0, r.1)
      ],
      λ h. elim h.0 [ inl e ↦ inl e | inr m ↦ inr ((elem-select_iff p a xs).1 (m, h.1)) ],
    )
    | inr t ↦ rw t (
      λ m. let r = (elem-select_iff p a xs).0 m in (inr r.0, r.1),
      λ h. elim h.0 [ inl e ↦ absurd (ground arith) | inr m ↦ (elem-select_iff p a xs).1 (m, h.1) ],
    )
  ]

  pub any→elem : (p : A → Bool) (xs : List A) → any p xs ≡ true → (a : A) × Elem a xs × (p a ≡ true)
  unfolding any
  any→elem p [] h = absurd (ground arith)
  any→elem p (x ∷ xs) h = elim (Bool-cases (p x)) [
    | inl t ↦ (x, inl refl, t)
    | inr t ↦ let r = any→elem p xs (ground arith) in (r.0, inr r.1, r.2)
  ]

  pub elem→any : (p : A → Bool) (a : A) (xs : List A) → Elem a xs → p a ≡ true → any p xs ≡ true
  unfolding any
  elem→any p a [] m h = elim m [ ]
  elem→any p a (x ∷ xs) (inl e) h = rw (e, h)
  elem→any p a (x ∷ xs) (inr m) h = ground (arith, elem→any p a xs m h)

  pub all→elem : (p : A → Bool) (a : A) (xs : List A) → all p xs ≡ true → Elem a xs → p a ≡ true
  unfolding all
  all→elem p a [] h m = elim m [ ]
  all→elem p a (x ∷ xs) h (inl e) = rw (← e) (ground arith)
  all→elem p a (x ∷ xs) h (inr m) = all→elem p a xs (ground arith) m

  pub elem→all : (p : A → Bool) (xs : List A) → ((a : A) → Elem a xs → p a ≡ true) → all p xs ≡ true
  unfolding all
  elem→all p [] h = refl
  elem→all p (x ∷ xs) h = ground (arith, h x (inl refl), elem→all p xs (λ a m. h a (inr m)))

  pub find_first-eq-some :
      (p : A → Bool) (a : A) (xs : List A) → find_first p xs ≡ some a → Elem a xs × (p a ≡ true)
  unfolding find_first
  find_first-eq-some p a [] h = absurd (ground arith)
  find_first-eq-some p a (x ∷ xs) h = elim (Bool-cases (p x)) [
    | inl t ↦ (inl (ground arith), ground arith)
    | inr t ↦ let r = find_first-eq-some p a xs (ground arith) in (inr r.0, r.1)
  ]

  pub find_first-eq-none :
      (p : A → Bool) (a : A) (xs : List A) → find_first p xs ≡ none → Elem a xs → p a ≡ false
  unfolding find_first
  find_first-eq-none p a [] h m = elim m [ ]
  find_first-eq-none p a (x ∷ xs) h (inl e) = rw (← e) (ground arith)
  find_first-eq-none p a (x ∷ xs) h (inr m) = find_first-eq-none p a xs (ground arith) m

  pub get_last?-eq-some :
      (xs : List A) {a : A} → get_last? xs ≡ some a → (ys : List A) × (xs ≡ ys ++ a ∷ [])
  unfolding get_last?
  get_last?-eq-some [] h = absurd (ground arith)
  get_last?-eq-some (x ∷ []) h = ([], ground arith)
  get_last?-eq-some (x ∷ y ∷ xs) h =
      let r = get_last?-eq-some (y ∷ xs) h in (x ∷ r.0, ap (◌∷◌ x) r.1)

  pub get_last?-append : (xs : List A) (y : A) → get_last? (xs ++ y ∷ []) ≡ some y
  unfolding get_last?
  get_last?-append [] y = refl
  get_last?-append (x ∷ []) y = refl
  get_last?-append (x ∷ z ∷ xs) y = get_last?-append (z ∷ xs) y

  pub get_last?-eq-none : (xs : List A) → get_last? xs ≡ none → xs ≡ []
  unfolding get_last?
  get_last?-eq-none [] h = refl
  get_last?-eq-none (x ∷ []) h = absurd (ground arith)
  get_last?-eq-none (x ∷ y ∷ xs) h = absurd (ground (arith, get_last?-eq-none (y ∷ xs) h))

  pub elem-append_iff : (a : A) (xs ys : List A) → Elem a (xs ++ ys) ↔ (Elem a xs ⊎ Elem a ys)
  elem-append_iff a [] ys = (λ h. inr h, λ h. elim h [ inl n ↦ elim n [ ] | inr m ↦ m ])
  elem-append_iff a (x ∷ xs) ys = (
    λ h. elim h [
      | inl e ↦ inl (inl e)
      | inr m ↦ elim ((elem-append_iff a xs ys).0 m) [ inl l ↦ inl (inr l) | inr r ↦ inr r ]
    ],
    λ h. elim h [
      | inl l ↦ elim l [ inl e ↦ inl e | inr m ↦ inr ((elem-append_iff a xs ys).1 (inl m)) ]
      | inr r ↦ inr ((elem-append_iff a xs ys).1 (inr r))
    ],
  )

  pub elem-reverse_aux :
      (a : A) (xs ys : List A) → Elem a (reverse_aux xs ys) → Elem a xs ⊎ Elem a ys
  elem-reverse_aux a [] ys h = inr h
  elem-reverse_aux a (x ∷ xs) ys h = elim (elem-reverse_aux a xs (x ∷ ys) h) [
    | inl m ↦ inl (inr m)
    | inr k ↦ elim k [ inl e ↦ inl (inl e) | inr m ↦ inr m ]
  ]

  pub elem-reverse_aux_of :
      (a : A) (xs ys : List A) → Elem a xs ⊎ Elem a ys → Elem a (reverse_aux xs ys)
  elem-reverse_aux_of a [] ys (inl n) = elim n [ ]
  elem-reverse_aux_of a [] ys (inr m) = m
  elem-reverse_aux_of a (x ∷ xs) ys (inl k) =
      elem-reverse_aux_of a xs (x ∷ ys) (elim k [ inl e ↦ inr (inl e) | inr m ↦ inl m ])
  elem-reverse_aux_of a (x ∷ xs) ys (inr m) = elem-reverse_aux_of a xs (x ∷ ys) (inr (inr m))

  pub elem-reverse : (a : A) (xs : List A) → Elem a (reverse xs) → Elem a xs
  elem-reverse a xs m = elim (elem-reverse_aux a xs [] m) [ inl k ↦ k | inr k ↦ elim k [ ] ]

module _ {ℓ κ} {A : Type ℓ} {B : Type κ} where
  -- `[y for x in xs for y in f(x)]`
  unfoldable pub flat_map : (A → List B) → List A → List B
  flat_map f [] = []
  flat_map f (x ∷ xs) = f x ++ flat_map f xs

  pub elem-map :
      (f : A → B) (b : B) (xs : List A) → Elem b (map f xs) → (a : A) × Elem a xs × (f a ≡ b)
  elem-map f b [] h = elim h [ ]
  elem-map f b (x ∷ xs) (inl e) = (x, inl refl, e)
  elem-map f b (x ∷ xs) (inr m) = let r = elem-map f b xs m in (r.0, inr r.1, r.2)

  pub elem-map_of : (f : A → B) (a : A) (xs : List A) → Elem a xs → Elem (f a) (map f xs)
  elem-map_of f a [] h = elim h [ ]
  elem-map_of f a (x ∷ xs) (inl e) = inl (ap f e)
  elem-map_of f a (x ∷ xs) (inr m) = inr (elem-map_of f a xs m)

  pub elem-flat_map :
      (f : A → List B) (b : B) (xs : List A)
      → Elem b (flat_map f xs)
      → (a : A) × Elem a xs × Elem b (f a)
  unfolding flat_map
  elem-flat_map f b [] h = elim h [ ]
  elem-flat_map f b (x ∷ xs) h = elim ((elem-append_iff b (f x) (flat_map f xs)).0 h) [
    | inl l ↦ (x, inl refl, l)
    | inr r ↦ let s = elem-flat_map f b xs r in (s.0, inr s.1, s.2)
  ]

  pub elem-flat_map_of :
      (f : A → List B) (b : B) (a : A) (xs : List A)
      → Elem a xs
      → Elem b (f a)
      → Elem b (flat_map f xs)
  unfolding flat_map
  elem-flat_map_of f b a [] m h = elim m [ ]
  elem-flat_map_of f b a (x ∷ xs) (inl e) h =
      (elem-append_iff b (f x) (flat_map f xs)).1 (inl (rw e h))
  elem-flat_map_of f b a (x ∷ xs) (inr m) h =
      (elem-append_iff b (f x) (flat_map f xs)).1 (inr (elem-flat_map_of f b a xs m h))
