-- ===== src/Retention/Points/Monthly.antt =====
-- The best complete point of each month.
use mathlib.Core.List.{reverse_aux}
use mathlib.Core.Path.{subst}
use zark.Base.{
  ℕ, ◌≡◌, refl, sym, ap, ◌∙◌, ◌≢◌, ◌⊎◌, inl, inr, true, some, List, [], ◌∷◌, arith, Bool-cases,
  Option-cases, Elem, List-cases, elem-reverse_aux, elem-reverse_aux_of, elem-map, elem-map_of,
  Dict, get, get_or, put, keys, update, Text, text_eq, text_le, text_eq_refl, text_eq→eq,
  IsDistinct, elem-values, get-put, get→elem-values, IsDistinct-put, elem→get,
}
use zark.Calendar.{year_month}
use zark.Retention.Points.{
  candidate_le, no_candidate, later_candidate, candidates, best_from, monthly_points, Candidate,
}
use zark.Retention.Points.Best.{candidate_le-total, candidate_le_trans}

abbrev pub month_of : Candidate → Text
month_of c = year_month c.time

-- What the dictionary of the loop says of the candidates met so far.
record Inv (seen : List Candidate) (best : Dict Candidate) : Type 0 where
  distinct : IsDistinct (keys best)
  sourced : (k : Text) (b : Candidate) → get k best ≡ some b → Elem b seen × (month_of b ≡ k)
  covers :
      (c : Candidate)
      → Elem c seen
      → (b : Candidate) × (get (month_of c) best ≡ some b) × (candidate_le c b ≡ true)

-- a named candidate is above the default of `max`
above-no_candidate : (c : Candidate) → c.name ≢ [] → later_candidate c no_candidate ≡ c
unfolding candidate_le text_le
above-no_candidate c h = elim (List-cases c.name) [
  | inl e ↦ absurd (h e)
  | inr (x, r, e) ↦ ground arith
]

candidate_le_refl : (c : Candidate) → candidate_le c c ≡ true
candidate_le_refl c = elim (candidate_le-total c c) [ inl h ↦ h | inr h ↦ h ]

-- what the loop stores for the month of `c`
record Chosen (c : Candidate) (best : Dict Candidate) (n : Candidate) : Type 0 where
  from : (n ≡ c) ⊎ (get (month_of c) best ≡ some n)
  above : candidate_le c n ≡ true
  kept : (old : Candidate) → get (month_of c) best ≡ some old → candidate_le old n ≡ true

choice-Chosen :
    (c : Candidate) (best : Dict Candidate)
    → c.name ≢ []
    → Chosen c best (later_candidate c (get_or no_candidate (month_of c) best))
unfolding get_or
choice-Chosen c best named = elim (Option-cases (get (month_of c) best)) [
  | inl e ↦
      rw (e, get_or)
        (rw (above-no_candidate c named) (record {
          from = inl refl;
          above = candidate_le_refl c;
          kept = λ old h. absurd (cc (e, h));
        }))
  | inr (old, e) ↦ elim (Bool-cases (candidate_le c old)) [
    | inl t ↦
        rw (e, get_or)
          (rw t (record {
            from = inr e;
            above = t;
            kept = λ o h. let same : old ≡ o = ground arith in rw (← same) (candidate_le_refl old);
          }))
    | inr t ↦
        rw (e, get_or)
          (rw t (record {
            from = inl refl;
            above = candidate_le_refl c;
            kept = λ o h.
                let same : old ≡ o = ground arith in
                rw (← same) (elim (candidate_le-total c old) [ inl u ↦ cc | inr u ↦ u ]);
          }))
  ]
]

Inv-put :
    (c n : Candidate) (seen : List Candidate) (best : Dict Candidate)
    → Chosen c best n
    → Inv seen best
    → Inv (c ∷ seen) (put (month_of c) n best)
Inv-put c n seen best ch inv = record {
  distinct = IsDistinct-put (month_of c) n best inv.distinct;
  sourced = λ k b h. elim (Bool-cases (text_eq k (month_of c))) [
    | inl t ↦
        let same : n ≡ b = ground (arith, get-put k (month_of c) n best) in
        let at : k ≡ month_of c = text_eq→eq k (month_of c) t in
        subst (λ x. Elem x (c ∷ seen) × (month_of x ≡ k)) same
          (elim ch.from [
            | inl e ↦ (inl (sym e), ap month_of e ∙ sym at)
            | inr g ↦ let r = inv.sourced (month_of c) n g in (inr r.0, r.1 ∙ sym at)
          ])
    | inr t ↦
        let r = inv.sourced k b (ground (arith, get-put k (month_of c) n best)) in (inr r.0, r.1)
  ];
  covers = λ x m. elim m [
    | inl e ↦ (
      n,
      rw (← e) (get-put (month_of c) (month_of c) n best ∙ rw (text_eq_refl (month_of c))),
      rw (← e) ch.above,
    )
    | inr s ↦
        let (b, g, le) = inv.covers x s in
        elim (Bool-cases (text_eq (month_of x) (month_of c))) [
          | inl t ↦
              let at : month_of x ≡ month_of c = text_eq→eq (month_of x) (month_of c) t in
              (
                n,
                get-put (month_of x) (month_of c) n best ∙ rw t,
                candidate_le_trans x b n le (ch.kept b (rw (← at) g)),
              )
          | inr t ↦ (b, get-put (month_of x) (month_of c) n best ∙ rw t g, le)
        ]
  ];
}

best_from-Inv :
    (cs seen : List Candidate) (best : Dict Candidate)
    → ((c : Candidate) → Elem c cs → c.name ≢ [])
    → Inv seen best
    → Inv (reverse_aux cs seen) (best_from cs best)
unfolding best_from update
best_from-Inv [] seen best named inv = inv
best_from-Inv (c ∷ cs) seen best named inv =
    best_from-Inv cs (c ∷ seen) _ (λ x m. named x (inr m))
      (Inv-put c _ seen best (choice-Chosen c best (named c (inl refl))) inv)

-- A candidate that no other one of its month comes after.
abbrev pub IsBestOfMonth : List Candidate → Candidate → Type 0
IsBestOfMonth cs b =
    Elem b cs × ((c : Candidate) → Elem c cs → month_of c ≡ month_of b → candidate_le c b ≡ true)

module _ (times : Dict ℕ) (complete whole : List Text) where
  abbrev pub all_candidates : List Candidate
  all_candidates = candidates times complete whole

  module _ (named : (c : Candidate) → Elem c all_candidates → c.name ≢ []) where
    final : Inv (reverse_aux all_candidates []) (best_from all_candidates [])
    unfolding keys get
    final = best_from-Inv all_candidates [] [] named (record {
      distinct = tt;
      sourced = λ k b h. absurd (ground arith);
      covers = λ c m. elim m [ ];
    })

    back : (c : Candidate) → Elem c (reverse_aux all_candidates []) → Elem c all_candidates
    back c m = elim (elem-reverse_aux c all_candidates [] m) [ inl k ↦ k | inr n ↦ elim n [ ] ]

    best-IsBestOfMonth :
        (k : Text) (b : Candidate)
        → get k (best_from all_candidates []) ≡ some b
        → IsBestOfMonth all_candidates b
    best-IsBestOfMonth k b g =
        let (s, at) = final.sourced k b g in
        (
          back b s,
          λ c m same.
              let (b', g', le) = final.covers c (elem-reverse_aux_of c all_candidates [] (inl m)) in
              let eq : b' ≡ b = ground (arith, same ∙ at) in rw (← eq) le,
        )

    pub monthly-best :
        (name : Text)
        → Elem name (monthly_points times complete whole)
        → (b : Candidate) × (b.name ≡ name) × IsBestOfMonth all_candidates b
    unfolding monthly_points
    monthly-best name m =
        let (b, v, e) = elem-map (λ c. c.name) name _ m in
        let (k, p) = elem-values b _ v in
        (b, e, best-IsBestOfMonth k b (elem→get k b _ final.distinct p))

    pub monthly-covers :
        (c : Candidate)
        → Elem c all_candidates
        → (b : Candidate) × Elem b.name (monthly_points times complete whole)
          × (month_of b ≡ month_of c)
          × IsBestOfMonth all_candidates b
    unfolding monthly_points
    monthly-covers c m =
        let (b, g, le) = final.covers c (elem-reverse_aux_of c all_candidates [] (inl m)) in
        (
          b,
          elem-map_of (λ c. c.name) b _ (get→elem-values (month_of c) _ g),
          (final.sourced (month_of c) b g).1,
          best-IsBestOfMonth (month_of c) b g,
        )
