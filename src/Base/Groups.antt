-- ===== src/Base/Groups.antt =====
-- `d.setdefault(k, []).append(a)`: what the groups hold afterwards.
use mathlib.Core.Path.{subst}
use zark.Base.Core.{
  ◌≡◌, refl, sym, ap, ◌↔◌, ◌⊎◌, inl, inr, true, false, List, [], ◌∷◌, ◌++◌, arith, Bool-cases,
}
use zark.Base.Lists.{Elem, elem-append_iff, flat_map}
use zark.Base.Strings.{Text, text_eq}
use zark.Base.Dicts.{Dict, get, get_or, put, update, append_at}

module _ {V : Type 0} where
  pub get_or_other :
      (v w : V) (k j : Text) (d : Dict V)
      → text_eq k j ≡ false
      → get_or v k ((j, w) ∷ d) ≡ get_or v k d
  unfolding get_or get
  get_or_other v w k j d h = ground arith

  get_or_same :
      (v w : V) (k j : Text) (d : Dict V) → text_eq k j ≡ true → get_or v k ((j, w) ∷ d) ≡ w
  unfolding get_or get
  get_or_same v w k j d h = ground arith

  pub update_same :
      (f : V → V) (v w : V) (k j : Text) (d : Dict V)
      → text_eq k j ≡ true
      → update f v k ((j, w) ∷ d) ≡ (j, f w) ∷ d
  unfolding update put
  update_same f v w k j d h = rw h (ap (λ x. (j, f x) ∷ d) (get_or_same v w k j d h))

  pub update_other :
      (f : V → V) (v w : V) (k j : Text) (d : Dict V)
      → text_eq k j ≡ false
      → update f v k ((j, w) ∷ d) ≡ (j, w) ∷ update f v k d
  unfolding update put
  update_other f v w k j d h = rw h (ap (λ x. (j, w) ∷ put k (f x) d) (get_or_other v w k j d h))

  -- Where `f` adds `a` to what an entry holds, and the default holds nothing, the dictionary holds `a`
  -- and what it held.
  module _ {A : Type 0} (items : V → List A) (f : V → V) (v : V) (a : A)
      (adds : (w : V) (s : A) → Elem s (items (f w)) ↔ (Elem s (items w) ⊎ (a ≡ s)))
      (starts : items v ≡ []) where
    abbrev pub all_items : Dict V → List A
    all_items d = flat_map (λ e. items e.1) d

    pub elem-update_iff :
        (k : Text) (d : Dict V) (s : A)
        → Elem s (all_items (update f v k d)) ↔ (Elem s (all_items d) ⊎ (a ≡ s))
    unfolding flat_map update put get_or get
    elem-update_iff k [] s = (
      λ m. elim ((elem-append_iff s (items (f v)) []).0 m) [
        | inl n ↦ elim ((adds v s).0 n) [
          | inl q ↦ let none_of : Elem s [] = rw starts at q in elim none_of [ ]
          | inr e ↦ inr e
        ]
        | inr n ↦ elim n [ ]
      ],
      λ m. elim m [
        | inl n ↦ elim n [ ]
        | inr e ↦ (elem-append_iff s (items (f v)) []).1 (inl ((adds v s).1 (inr e)))
      ],
    )
    elem-update_iff k ((j, w) ∷ d) s = elim (Bool-cases (text_eq k j)) [
      | inl t ↦
          subst (λ x. Elem s (all_items x) ↔ (Elem s (all_items ((j, w) ∷ d)) ⊎ (a ≡ s)))
            (sym (update_same f v w k j d t))
            (
              λ m. elim ((elem-append_iff s (items (f w)) (all_items d)).0 m) [
                | inl n ↦ elim ((adds w s).0 n) [
                  | inl q ↦ inl ((elem-append_iff s (items w) (all_items d)).1 (inl q))
                  | inr e ↦ inr e
                ]
                | inr n ↦ inl ((elem-append_iff s (items w) (all_items d)).1 (inr n))
              ],
              λ m. (elem-append_iff s (items (f w)) (all_items d)).1 (elim m [
                | inl n ↦ elim ((elem-append_iff s (items w) (all_items d)).0 n) [
                  | inl q ↦ inl ((adds w s).1 (inl q))
                  | inr q ↦ inr q
                ]
                | inr e ↦ inl ((adds w s).1 (inr e))
              ]),
            )
      | inr t ↦
          let rest = elem-update_iff k d s in
          let more = all_items (update f v k d) in
          subst (λ x. Elem s (all_items x) ↔ (Elem s (all_items ((j, w) ∷ d)) ⊎ (a ≡ s)))
            (sym (update_other f v w k j d t))
            (
              λ m. elim ((elem-append_iff s (items w) more).0 m) [
                | inl n ↦ inl ((elem-append_iff s (items w) (all_items d)).1 (inl n))
                | inr n ↦ elim (rest.0 n) [
                  | inl q ↦ inl ((elem-append_iff s (items w) (all_items d)).1 (inr q))
                  | inr e ↦ inr e
                ]
              ],
              λ m. (elem-append_iff s (items w) more).1 (elim m [
                | inl n ↦ elim ((elem-append_iff s (items w) (all_items d)).0 n) [
                  | inl q ↦ inl q
                  | inr q ↦ inr (rest.1 (inl q))
                ]
                | inr e ↦ inr (rest.1 (inr e))
              ]),
            )
    ]

pub elem-append_one_iff :
    {A : Type 0} (s a : A) (xs : List A) → Elem s (xs ++ a ∷ []) ↔ (Elem s xs ⊎ (a ≡ s))
elem-append_one_iff s a xs = (
  λ m. elim ((elem-append_iff s xs (a ∷ [])).0 m) [
    | inl n ↦ inl n
    | inr n ↦ elim n [ inl e ↦ inr e | inr q ↦ elim q [ ] ]
  ],
  λ m. (elem-append_iff s xs (a ∷ [])).1 (elim m [ inl n ↦ inl n | inr e ↦ inr (inl e) ]),
)

-- `setdefault` and `append`
pub elem-append_at_iff :
    {A : Type 0} (k : Text) (a : A) (d : Dict (List A)) (s : A)
    → Elem s (flat_map (λ e. e.1) (append_at k a d)) ↔ (Elem s (flat_map (λ e. e.1) d) ⊎ (a ≡ s))
unfolding append_at
elem-append_at_iff k a d s =
    elem-update_iff (λ l. l) (λ l. l ++ a ∷ []) [] a (λ w t. elem-append_one_iff t a w) refl k d s
