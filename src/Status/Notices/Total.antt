-- ===== src/Status/Notices/Total.antt =====
-- `notices`: its strict zips do not raise, and every pool at a level has its line.
use zark.Base.{
  ℕ, ◌≡◌, refl, sym, ◌∙◌, ◌⊎◌, inl, inr, true, Option, none, some, List, [], ◌∷◌, ◌++◌, map, arith,
  Bool-cases, length, Elem, select, elem-select_iff, elem-append_iff, elem-map_of, sort_by,
  elem-sort_by_iff, Dict, Text, codes, length-map,
}
use zark.Status.{
  has_none, cap_level, cap_le, percent_full, level_from, is_high, cap_lines_go, cap_lines,
  cap_pools, Status,
}
use zark.Status.Notices.{
  zip_strict, capacity_notice, anchor_notice, drives_of, boot_notices, age_notices, last_notices,
  notices, Notice,
}

zip_strict-total :
    {A B : Type 0} (xs : List A) (ys : List B)
    → length xs ≡ length ys
    → (r : List (A × B)) × (zip_strict xs ys ≡ some r)
unfolding zip_strict
zip_strict-total [] [] h = ([], refl)
zip_strict-total [] (y ∷ ys) h = absurd (omega arith)
zip_strict-total (x ∷ xs) [] h = absurd (omega arith)
zip_strict-total (x ∷ xs) (y ∷ ys) h =
    let (r, e) = zip_strict-total xs ys (omega arith) in ((x, y) ∷ r, rw e refl)

-- a line of `cap_lines` with its pool
unfoldable full_line : Text → (Text × ℕ) → (Text × Text) × Text
full_line zark e = (
  (cap_level e.1, percent_full e.0 e.1 ++ level_from (cap_level e.1) ++ zark ++ codes " prune"),
  e.0,
)

-- The two loops over the pools skip the same ones.
zip_strict-cap_lines_go :
    (zark : Text) (caps : Dict ℕ)
    → zip_strict (cap_lines_go zark caps) (map (λ (e : Text × ℕ). e.0) (select is_high caps))
      ≡ some (map (full_line zark) (select is_high caps))
unfolding zip_strict cap_lines_go select is_high full_line
zip_strict-cap_lines_go zark [] = refl
zip_strict-cap_lines_go zark ((pool, pct) ∷ caps) = elim (Bool-cases (has_none (cap_level pct))) [
  | inl t ↦ rw t (zip_strict-cap_lines_go zark caps)
  | inr t ↦ rw t (rw (zip_strict-cap_lines_go zark caps) refl)
]

-- What `notices` says of a pool at a level.
abbrev pub IsReported : List Notice → (Text × ℕ) → Type 0
IsReported out e =
    (n : Notice) × Elem n out
    × (n.level ≡ cap_level e.1)
    × (n.code ≡ codes "capacity")
    × (n.subject ≡ some e.0)

length-drives_of :
    (ds shared : List Text)
    → (ds ≡ []) ⊎ (length ds ≡ length shared)
    → length shared ≡ length (drives_of ds shared)
unfolding drives_of
length-drives_of [] shared h = sym (length-map (λ (l : Text). none) shared)
length-drives_of (d ∷ ds) shared (inl e) = absurd (ground arith)
length-drives_of (d ∷ ds) shared (inr e) = sym e ∙ sym (length-map (λ (l : Text). some l) (d ∷ ds))

zip_strict-cap_lines :
    {S U : Type 0} (zark : Text) (st : Status S U)
    → zip_strict (cap_lines zark st) (cap_pools st)
      ≡ some (map (full_line zark) (select is_high (sort_by cap_le st.caps)))
unfolding cap_lines cap_pools
zip_strict-cap_lines zark st = zip_strict-cap_lines_go zark (sort_by cap_le st.caps)

notices-zipped :
    {S U : Type 0} (zark risk : Text) (st : Status S U) {full : List ((Text × Text) × Text)}
    {alone : List (Text × Option Text)}
    → zip_strict (cap_lines zark st) (cap_pools st) ≡ some full
    → zip_strict st.shared (drives_of st.shared_drives st.shared) ≡ some alone
    → notices zark risk st
      ≡ some (
          map capacity_notice full
          ++ (boot_notices st
              ++ age_notices st
              ++ map anchor_notice alone
              ++ last_notices zark risk st))
unfolding notices
notices-zipped zark risk st f a = rw (notices, f, a) refl

module _ {S U : Type 0} (zark risk : Text) (st : Status S U)
    (paired : (st.shared_drives ≡ []) ⊎ (length st.shared_drives ≡ length st.shared)) where
  -- Where the drives of the lines without an anchor are left out or one for each line, the notices
  -- are given, no strict zip raises, and every pool of the Status at a level has a notice with its
  -- own level, the code of capacity and the pool as its subject.
  pub notices-total :
      (out : List Notice) × (notices zark risk st ≡ some out)
      × ((e : Text × ℕ) → Elem e st.caps → is_high e ≡ true → IsReported out e)
  notices-total =
      let sorted = sort_by cap_le st.caps in
      let (alone, a) =
        zip_strict-total st.shared (drives_of st.shared_drives st.shared)
          (length-drives_of st.shared_drives st.shared paired) in
      let full = map capacity_notice (map (full_line zark) (select is_high sorted)) in
      let others =
        boot_notices st ++ age_notices st ++ map anchor_notice alone ++ last_notices zark risk st in
      (
        full ++ others,
        notices-zipped zark risk st (zip_strict-cap_lines zark st) a,
        λ e m h.
            let at =
              (elem-select_iff is_high e sorted).1 ((elem-sort_by_iff cap_le e st.caps).1 m, h) in
            (
              capacity_notice (full_line zark e),
              (elem-append_iff (capacity_notice (full_line zark e)) full others).1 (
                  inl (
                    elem-map_of capacity_notice (full_line zark e) (map (full_line zark) _)
                      (elem-map_of (full_line zark) e (select is_high sorted) at))),
              unfold capacity_notice full_line in refl,
              unfold capacity_notice full_line in refl,
              unfold capacity_notice full_line in refl,
            ),
      )
