-- ===== src/Base/Laws.antt =====
-- Laws of the dictionaries.
use zark.Base.Core.{
  ◌≡◌, refl, sym, ap, ◌∙◌, ◌⊎◌, inl, inr, Bool, ◌||◌, none, some, [], ◌∷◌, arith, if◌then◌else◌,
  Bool-cases, ||-eq-true,
}
use zark.Base.Lists.{Elem, select, any}
use zark.Base.Strings.{Text, text_eq, mem_text}
use zark.Base.Texts.{
  text_eq→eq, eq→text_eq, text_eq-false, ne→text_eq, text_eq_sym, mem_text→elem, elem→mem_text,
  IsDistinct,
}
use zark.Base.Dicts.{Dict, get, put, keys, values}

module _ {ℓ} {V : Type ℓ} where
  pub get-eq-some : (k : Text) (d : Dict V) {v : V} → get k d ≡ some v → Elem (k, v) d
  unfolding get
  get-eq-some k [] h = absurd (ground arith)
  get-eq-some k ((j, w) ∷ d) {v} h = elim (Bool-cases (text_eq k j)) [
    | inl e ↦
        let same : k ≡ j = text_eq→eq k j e in
        let val : w ≡ v = ground arith in inl (λ i. (sym same i, val i))
    | inr e ↦ inr (get-eq-some k d (ground arith))
  ]

  pub elem_keys→get : (k : Text) (d : Dict V) → Elem k (keys d) → (v : V) × (get k d ≡ some v)
  unfolding get keys
  elem_keys→get k [] m = elim m [ ]
  elem_keys→get k ((j, w) ∷ d) (inl e) = (w, rw (eq→text_eq k j (sym e)))
  elem_keys→get k ((j, w) ∷ d) (inr m) = elim (Bool-cases (text_eq k j)) [
    | inl e ↦ (w, rw e)
    | inr e ↦ let r = elem_keys→get k d m in (r.0, rw e r.1)
  ]

  pub elem-keys : (k : Text) (v : V) (d : Dict V) → Elem (k, v) d → Elem k (keys d)
  unfolding keys
  elem-keys k v [] m = elim m [ ]
  elem-keys k v ((j, w) ∷ d) (inl e) = inl (ap (λ (t : Text × V). t.0) e)
  elem-keys k v ((j, w) ∷ d) (inr m) = inr (elem-keys k v d m)

  pub elem_keys→elem : (k : Text) (d : Dict V) → Elem k (keys d) → (v : V) × Elem (k, v) d
  elem_keys→elem k d m = let r = elem_keys→get k d m in (r.0, get-eq-some k d r.1)

  pub get-eq-none : (k : Text) (d : Dict V) → get k d ≡ none → Elem k (keys d) → ⊥
  get-eq-none k d h m = let r = elem_keys→get k d m in cc (h, r.1)

  -- a selection by key
  pub get-select :
      (p : Text → Bool) (k : Text) (d : Dict V)
      → get k (select (λ e. p e.0) d) ≡ (if p k then get k d else none)
  unfolding get select
  get-select p k [] = ground arith
  get-select p k ((j, w) ∷ d) = elim (Bool-cases (text_eq k j)) [
    | inl e ↦
        let same = text_eq→eq k j e in
        elim (Bool-cases (p j)) [
          | inl t ↦ rw (t, get, e) (rw same (rw t))
          | inr t ↦ rw t (get-select p k d ∙ rw same (rw t))
        ]
    | inr e ↦ elim (Bool-cases (p j)) [
      | inl t ↦ rw (t, get, e) (get-select p k d)
      | inr t ↦ rw t (get-select p k d ∙ rw e)
    ]
  ]

  pub elem-values : (v : V) (d : Dict V) → Elem v (values d) → (k : Text) × Elem (k, v) d
  unfolding values
  elem-values v [] m = elim m [ ]
  elem-values v ((j, w) ∷ d) (inl e) = (j, inl (ap (λ (x : V). (j, x)) e))
  elem-values v ((j, w) ∷ d) (inr m) = let r = elem-values v d m in (r.0, inr r.1)

  -- what `d[k] = v` changes
  pub get-put :
      (j k : Text) (v : V) (d : Dict V)
      → get j (put k v d) ≡ (if text_eq j k then some v else get j d)
  unfolding get put
  get-put j k v [] = ground arith
  get-put j k v ((i, w) ∷ d) = elim (Bool-cases (text_eq k i)) [
    | inl e ↦ let same = text_eq→eq k i e in rw e (rw (← same) (ground arith))
    | inr e ↦ elim (Bool-cases (text_eq j i)) [
      | inl f ↦
          let same = text_eq→eq j i f in
          rw (e, get, f) (rw (ne→text_eq j k λ q. text_eq-false k i e (sym q ∙ same)))
      | inr f ↦ rw (e, get, f) (get-put j k v d)
    ]
  ]

  pub elem-values-put :
      (x : V) (k : Text) (v : V) (d : Dict V)
      → Elem x (values (put k v d))
      → (v ≡ x) ⊎ Elem x (values d)
  unfolding put values
  elem-values-put x k v [] m = m
  elem-values-put x k v ((i, w) ∷ d) m = elim (Bool-cases (text_eq k i)) [
    | inl e ↦
        let m' : Elem x (v ∷ values d) = rw (e, put) at m in
        elim m' [ inl same ↦ inl same | inr n ↦ inr (inr n) ]
    | inr e ↦
        let m' : Elem x (w ∷ values (put k v d)) = rw (e, put) at m in
        elim m' [
          | inl same ↦ inr (inl same)
          | inr n ↦ elim (elem-values-put x k v d n) [ inl same ↦ inl same | inr q ↦ inr (inr q) ]
        ]
  ]

  pub get→elem-values : (k : Text) (d : Dict V) {v : V} → get k d ≡ some v → Elem v (values d)
  unfolding get values
  get→elem-values k [] h = absurd (ground arith)
  get→elem-values k ((j, w) ∷ d) h = elim (Bool-cases (text_eq k j)) [
    | inl e ↦ inl (ground arith)
    | inr e ↦ inr (get→elem-values k d (ground arith))
  ]

  -- `d[k] = v` leaves the keys different
  mem-keys-put :
      (j k : Text) (v : V) (d : Dict V)
      → mem_text j (keys (put k v d)) ≡ (text_eq j k || mem_text j (keys d))
  unfolding keys put mem_text any
  mem-keys-put j k v [] = refl
  mem-keys-put j k v ((i, w) ∷ d) = elim (Bool-cases (text_eq k i)) [
    | inl e ↦ let same = text_eq→eq k i e in rw e (rw same (ground arith))
    | inr e ↦ rw e (ground (arith, mem-keys-put j k v d))
  ]

  pub IsDistinct-put :
      (k : Text) (v : V) (d : Dict V) → IsDistinct (keys d) → IsDistinct (keys (put k v d))
  unfolding keys put
  IsDistinct-put k v [] h = (unfold mem_text any in refl, tt)
  IsDistinct-put k v ((i, w) ∷ d) h = elim (Bool-cases (text_eq k i)) [
    | inl e ↦ rw e h
    | inr e ↦
        rw e ((mem-keys-put i k v d ∙ rw (text_eq_sym i k ∙ e, h.0), IsDistinct-put k v d h.1))
  ]

  -- with different keys, a pair that is there is what its key gives
  pub elem→get :
      (k : Text) (v : V) (d : Dict V) → IsDistinct (keys d) → Elem (k, v) d → get k d ≡ some v
  unfolding keys get
  elem→get k v [] h m = elim m [ ]
  elem→get k v ((i, w) ∷ d) h (inl e) =
      let ek : i ≡ k = ap (λ (x : Text × V). x.0) e in
      let ev : w ≡ v = ap (λ (x : Text × V). x.1) e in rw (eq→text_eq k i (sym ek)) (ap some ev)
  elem→get k v ((i, w) ∷ d) h (inr m) = elim (Bool-cases (text_eq k i)) [
    | inl e ↦
        let there = elem→mem_text k (keys d) (elem-keys k v d m) in
        absurd (cc (h.0, there, text_eq→eq k i e))
    | inr e ↦ rw e (elem→get k v d h.1 m)
  ]

  pub elem-keys-put :
      (j k : Text) (v : V) (d : Dict V) → Elem j (keys (put k v d)) → (j ≡ k) ⊎ Elem j (keys d)
  elem-keys-put j k v d m =
      elim (||-eq-true _ _ (sym (mem-keys-put j k v d) ∙ elem→mem_text j _ m)) [
        | inl e ↦ inl (text_eq→eq j k e)
        | inr e ↦ inr (mem_text→elem j (keys d) e)
      ]

  pub elem-put :
      (e : Text × V) (k : Text) (v : V) (d : Dict V) → Elem e (put k v d) → ((k, v) ≡ e) ⊎ Elem e d
  unfolding put
  elem-put e k v [] (inl same) = inl same
  elem-put e k v [] (inr n) = elim n [ ]
  elem-put e k v ((j, w) ∷ d) m = elim (Bool-cases (text_eq k j)) [
    | inl t ↦
        let m' : Elem e ((j, v) ∷ d) = rw (t, put) at m in
        elim m' [ inl same ↦ inl (rw (text_eq→eq k j t) same) | inr n ↦ inr (inr n) ]
    | inr t ↦
        let m' : Elem e ((j, w) ∷ put k v d) = rw (t, put) at m in
        elim m' [
          | inl same ↦ inr (inl same)
          | inr n ↦ elim (elem-put e k v d n) [ inl same ↦ inl same | inr q ↦ inr (inr q) ]
        ]
  ]
