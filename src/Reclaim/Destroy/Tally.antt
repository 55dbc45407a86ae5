-- ===== src/Reclaim/Destroy/Tally.antt =====
-- How often a name stands in the groups and chunks of `destroy_snapshots`.
use mathlib.Core.Path.{subst}
use zark.Base.{
  ℕ, zero, suc, ◌+◌, ◌-◌, ◌≡◌, refl, sym, ap, ◌∙◌, inl, inr, false, List, [], ◌∷◌, ◌++◌, map, arith,
  Bool-cases, select, Dict, get, get_or, put, update, append_at, Text, text_eq, before, after,
  text_eq→eq, update_other, occurs, occurs-append, before-after,
}
use zark.Reclaim.Destroy.{
  destroy_group, Target, is_snapshot, groups_of, singles_of, chunk_go, full_name,
}

-- the full names of the items of one dataset
abbrev pub full_names : Text → List Target → List Text
full_names ds items = map (λ i. i.0) (map (full_name ds) items)

abbrev pub names_in : List Target → List Text
names_in targets = map (λ (t : Target). t.0) targets

pub names_in-append : (xs ys : List Target) → names_in (xs ++ ys) ≡ names_in xs ++ names_in ys
names_in-append [] ys = refl
names_in-append (x ∷ xs) ys = ap (◌∷◌ x.0) (names_in-append xs ys)

full_names-append :
    (ds : Text) (xs ys : List Target)
    → full_names ds (xs ++ ys) ≡ full_names ds xs ++ full_names ds ys
full_names-append ds [] ys = refl
full_names-append ds (x ∷ xs) ys = ap (◌∷◌ (full_name ds x).0) (full_names-append ds xs ys)

module _ (k : Text) where
  -- how often `k` is a full name of the items, in chunks of one dataset and in all groups
  abbrev pub in_items : Text → List Target → ℕ
  in_items ds items = occurs k (full_names ds items)

  abbrev pub in_chunks : Text → List (List Target) → ℕ
  in_chunks ds [] = 0
  in_chunks ds (c ∷ cs) = in_items ds c + in_chunks ds cs

  abbrev pub in_groups : Dict (List Target) → ℕ
  in_groups [] = 0
  in_groups ((ds, items) ∷ groups) = in_items ds items + in_groups groups

  in_items-append :
      (ds : Text) (xs ys : List Target) → in_items ds (xs ++ ys) ≡ in_items ds xs + in_items ds ys
  in_items-append ds xs ys =
      ap (occurs k) (full_names-append ds xs ys)
      ∙ occurs-append k (full_names ds xs) (full_names ds ys)

  in_items-cons :
      (ds : Text) (x : Target) (xs : List Target)
      → in_items ds (x ∷ xs) ≡ in_items ds (x ∷ []) + in_items ds xs
  in_items-cons ds x xs = in_items-append ds (x ∷ []) xs

  pub in_items-nil : (ds : Text) → in_items ds [] ≡ 0
  unfolding occurs
  in_items-nil ds = refl

  pub in_chunks-chunk_go :
      (ds : Text) (cur : List Target) (room : ℕ) (xs : List Target)
      → in_chunks ds (chunk_go cur room xs) ≡ in_items ds cur + in_items ds xs
  unfolding chunk_go
  in_chunks-chunk_go ds [] room [] = omega (arith, in_items-nil ds)
  in_chunks-chunk_go ds (c ∷ cs) room [] = omega (arith, in_items-nil ds)
  in_chunks-chunk_go ds cur zero (x ∷ xs) =
      omega (arith, in_chunks-chunk_go ds (x ∷ []) (destroy_group - 1) xs, in_items-cons ds x xs)
  in_chunks-chunk_go ds cur (suc room) (x ∷ xs) = omega (
    arith,
    in_chunks-chunk_go ds (cur ++ x ∷ []) room xs,
    in_items-append ds cur (x ∷ []),
    in_items-cons ds x xs,
  )

  append_at_other :
      (i j : Text) (t : Target) (items : List Target) (d : Dict (List Target))
      → text_eq i j ≡ false
      → append_at i t ((j, items) ∷ d) ≡ (j, items) ∷ append_at i t d
  unfolding append_at
  append_at_other i j t items d h = update_other (λ l. l ++ t ∷ []) [] items i j d h

  in_groups-append_at :
      (ds : Text) (t : Target) (d : Dict (List Target))
      → in_groups (append_at ds t d) ≡ in_groups d + in_items ds (t ∷ [])
  unfolding append_at update put get_or get
  in_groups-append_at ds t [] = omega arith
  in_groups-append_at ds t ((j, items) ∷ d) = elim (Bool-cases (text_eq ds j)) [
    | inl e ↦
        let same : in_items j (t ∷ []) ≡ in_items ds (t ∷ []) =
          ap (λ x. in_items x (t ∷ [])) (sym (text_eq→eq ds j e)) in
        rw (e, put, get_or, get) (omega (arith, in_items-append j items (t ∷ []), same))
    | inr e ↦
        let rest = in_groups-append_at ds t d in
        subst (λ x. in_groups x ≡ in_items j items + in_groups d + in_items ds (t ∷ []))
          (sym (append_at_other ds j t items d e)) (omega (arith, rest))
  ]

  pub in_groups-groups_of :
      (targets : List Target) (out : Dict (List Target))
      → in_groups (groups_of targets out) + occurs k (names_in (singles_of targets))
        ≡ in_groups out + occurs k (names_in targets)
  unfolding groups_of singles_of select
  in_groups-groups_of [] out = omega arith
  in_groups-groups_of ((target, reason) ∷ targets) out =
      let cons : occurs k (target ∷ names_in targets)
          ≡ occurs k (target ∷ []) + occurs k (names_in targets) =
        occurs-append k (target ∷ []) (names_in targets) in
      elim (Bool-cases (is_snapshot target)) [
        | inl e ↦
            let item : Target = (after b'@' target, reason) in
            let whole : in_items (before b'@' target) (item ∷ []) ≡ occurs k (target ∷ []) =
              ap (λ t. occurs k (t ∷ []))
                (before-after b'@' target (unfold is_snapshot in ground arith)) in
            let out' = append_at (before b'@' target) item out in
            rw (e, groups_of, select)
              (omega (
                arith,
                in_groups-groups_of targets out',
                in_groups-append_at (before b'@' target) item out,
                whole,
                cons,
              ))
        | inr e ↦
            let left = occurs-append k (target ∷ []) (names_in (singles_of targets)) in
            rw (e, groups_of, select) (omega (arith, in_groups-groups_of targets out, cons, left))
      ]
