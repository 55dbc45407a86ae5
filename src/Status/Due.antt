-- ===== src/Status/Due.antt =====
-- `due_notifications`: what is sent once a day.
use zark.Base.{
  ℕ, ◌≡◌, refl, ap, ◌⊎◌, inl, inr, Bool, true, false, not, ◌&&◌, List, [], ◌∷◌, ◌++◌, map, arith,
  Bool-cases, Elem, select, elem-select_iff, elem-append_iff, elem-map_of, sort_by,
  elem-sort_by_iff, Text, codes, mem_text, mem_text→elem, elem→mem_text,
}
use zark.Status.{cap_level, cap_le, percent_full, is_high, Status}

-- `f"{pool} {level} {day}"`
unfoldable pub due_key : Text → (Text × ℕ) → Text
due_key day e = e.0 ++ codes " " ++ cap_level e.1 ++ codes " " ++ day

unfoldable pub is_due : List Text → Text → (Text × ℕ) → Bool
is_due sent day e = is_high e && not (mem_text (due_key day e) sent)

unfoldable pub due_notice : Text → Text → (Text × ℕ) → Text × Text
due_notice zark day e =
    (due_key day e, percent_full e.0 e.1 ++ codes " - free space with: " ++ zark ++ codes " prune")

unfoldable pub due_notifications :
    {S U : Type 0} → Text → Status S U → List Text → Text → List (Text × Text)
due_notifications zark st sent day =
    map (due_notice zark day) (select (is_due sent day) (sort_by cap_le st.caps))

select-nothing {ℓ} :
    {A : Type ℓ} (p : A → Bool) (xs : List A)
    → ((a : A) → Elem a xs → p a ≡ false)
    → select p xs ≡ []
unfolding select
select-nothing p [] h = refl
select-nothing p (x ∷ xs) h = rw (h x (inl refl)) (select-nothing p xs (λ a m. h a (inr m)))

module _ {S U : Type 0} (zark : Text) (st : Status S U) (sent : List Text) (day : Text) where
  -- the keys that the caller adds to the ones sent
  abbrev pub given : List Text
  given = map (λ (n : Text × Text). n.0) (due_notifications zark st sent day)

  pub elem-due_notifications :
      (e : Text × ℕ)
      → Elem e (sort_by cap_le st.caps)
      → is_high e ≡ true
      → mem_text (due_key day e) sent ≡ false
      → Elem (due_notice zark day e) (due_notifications zark st sent day)
  unfolding due_notifications is_due
  elem-due_notifications e m h n =
      elem-map_of (due_notice zark day) e _
        ((elem-select_iff (is_due sent day) e _).1 (m, rw (is_due, h, n) refl))

  elem-given :
      (e : Text × ℕ)
      → Elem (due_notice zark day e) (due_notifications zark st sent day)
      → Elem (due_key day e) given
  unfolding due_notice
  elem-given e m = elem-map_of (λ (n : Text × Text). n.0) (due_notice zark day e) _ m

  not-is_due :
      (e : Text × ℕ) → Elem e (sort_by cap_le st.caps) → is_due (sent ++ given) day e ≡ false
  unfolding is_due
  not-is_due e m = elim (Bool-cases (is_high e)) [
    | inr l ↦ ground arith
    | inl h ↦
        let again : Elem (due_key day e) (sent ++ given) =
          (elem-append_iff (due_key day e) sent given).1
            (elim (Bool-cases (mem_text (due_key day e) sent)) [
              | inl t ↦ inl (mem_text→elem (due_key day e) sent t)
              | inr n ↦ inr (elem-given e (elem-due_notifications e m h n))
            ]) in
        rw (h, elem→mem_text (due_key day e) (sent ++ given) again) refl
  ]

  -- The notifications miss nothing and are not repeated: every pool of the Status that stands at a
  -- level has its key of the day among the ones sent or its notification in the list, and once the
  -- keys of the list are added to the ones sent, the same state has nothing due on that day.
  pub due_notifications-once :
      ((e : Text × ℕ)
        → Elem e st.caps
        → is_high e ≡ true
        → Elem (due_key day e) sent
          ⊎ Elem (due_notice zark day e) (due_notifications zark st sent day))
      × (due_notifications zark st (sent ++ given) day ≡ [])
  unfolding due_notifications
  due_notifications-once = (
    λ e m h. elim (Bool-cases (mem_text (due_key day e) sent)) [
      | inl t ↦ inl (mem_text→elem (due_key day e) sent t)
      | inr n ↦ inr (elem-due_notifications e ((elem-sort_by_iff cap_le e st.caps).1 m) h n)
    ],
    ap (map (due_notice zark day))
        (select-nothing (is_due (sent ++ given) day) (sort_by cap_le st.caps) not-is_due),
  )
