-- ===== src/Retention/Prune/Whole.antt =====
-- `whole_datasets`: the trees that a prune destroys whole.
use mathlib.Core.Path.{subst}
use zark.Base.{
  ◌≤◌, ◌≡◌, refl, ap, ◌∙◌, ◌≢◌, ◌⊎◌, inl, inr, true, false, not, ◌&&◌, ◌||◌, some, List, [], ◌∷◌,
  ◌++◌, map, arith, ◌==◌, Bool-cases, length, Elem, select, any, elem-select_iff, all→elem,
  elem-append_iff, elem-map, elem-map_of, elem-sort_by_iff, Dict, get, keys, Text, text_eq, text_le,
  mem_text, text_eq→eq, mem_text→elem, elem→mem_text, not_elem→mem_text, IsDistinct, elem_keys→elem,
  elem→get, length-map, length-IsDistinct,
}
use zark.Replication.Names.{is_under}
use zark.Replication.Model.{Ref, Dest}
use zark.Retention.Prune.{
  target_of, is_live, going, is_emptied, tree_goes, is_below, whole_reason, whole_from, emptied_of,
  whole_datasets, Removal,
}

-- No entry lies below one that stands before it.
abbrev pub IsApart : List (Text × Text) → Type 0
IsApart [] = Unit
IsApart (t ∷ ts) = ((u : Text × Text) → Elem u ts → is_below u.0 t.0 ≡ false) × IsApart ts

IsApart-append_one :
    (out : List (Text × Text)) (top why : Text)
    → IsApart out
    → any (λ t. is_below top t.0) out ≡ false
    → IsApart (out ++ (top, why) ∷ [])
unfolding any
IsApart-append_one [] top why a h = ((λ u m. elim m [ ]), tt)
IsApart-append_one (t ∷ ts) top why a h = (
  λ u m. elim ((elem-append_iff u ts ((top, why) ∷ [])).0 m) [
    | inl k ↦ a.0 u k
    | inr k ↦ elim k [ inl e ↦ rw (← e) (ground arith) | inr n ↦ elim n [ ] ]
  ],
  IsApart-append_one ts top why a.1 (ground arith),
)

module _ (dest : Dict Dest) (emptied : List Text) where
  -- a tree that may be destroyed whole
  abbrev IsEmptiedTree : Text × Text → Type 0
  IsEmptiedTree t = Elem t.0 emptied × (tree_goes dest emptied t.0 ≡ true)

  whole_from-invariant :
      (tops : List Text) (out : List (Text × Text))
      → ((t : Text) → Elem t tops → Elem t emptied)
      → IsApart out
      → ((t : Text × Text) → Elem t out → IsEmptiedTree t)
      → IsApart (whole_from dest emptied tops out)
        × ((t : Text × Text) → Elem t (whole_from dest emptied tops out) → IsEmptiedTree t)
  unfolding whole_from
  whole_from-invariant [] out sub a all_of = (a, all_of)
  whole_from-invariant (top ∷ tops) out sub a all_of =
      elim (Bool-cases (not (any (λ t. is_below top t.0) out) && tree_goes dest emptied top)) [
        | inr t ↦ rw t (whole_from-invariant tops out (λ x m. sub x (inr m)) a all_of)
        | inl t ↦
            let goes : tree_goes dest emptied top ≡ true = ground arith in
            rw t (
              whole_from-invariant tops (out ++ (top, whole_reason top) ∷ []) (λ x m. sub x (inr m))
                (IsApart-append_one out top (whole_reason top) a (ground arith))
                λ x m. elim ((elem-append_iff x out ((top, whole_reason top) ∷ [])).0 m) [
                  | inl k ↦ all_of x k
                  | inr k ↦ elim k [
                    | inl e ↦ subst IsEmptiedTree e ((sub top (inl refl), goes))
                    | inr n ↦ elim n [ ]
                  ]
                ])
      ]

-- The removals in the dataset are as many as its snapshots, and no backup goes on from it.
abbrev pub IsEmptied : List Removal → Text → Dest → Type 0
IsEmptied removals rel d =
    (is_live rel d ≡ false) × (length d.snaps ≡ going rel removals) × (length d.snaps ≢ 0)

-- the names that are removed from one dataset
abbrev names_for : Text → List Removal → List Text
names_for rel removals = map (λ r. r.name) (select (λ r. text_eq r.rel rel) removals)

going-length :
    (rel : Text) (removals : List Removal) → going rel removals ≡ length (names_for rel removals)
unfolding going select
going-length rel [] = omega arith
going-length rel (r ∷ removals) = ground (arith, going-length rel removals)

abbrev pub targets_of : List Removal → List Text
targets_of removals = map (λ (r : Removal). target_of r.rel r.name) removals

names_for-elem :
    (rel name : Text) (removals : List Removal)
    → Elem name (names_for rel removals)
    → (r : Removal) × Elem r removals × (r.rel ≡ rel) × (r.name ≡ name)
names_for-elem rel name removals m =
    let (r, at, e) = elem-map (λ (r : Removal). r.name) name _ m in
    let s = (elem-select_iff (λ (r : Removal). text_eq r.rel rel) r removals).0 at in
    (r, s.0, text_eq→eq r.rel rel s.1, e)

names_for-IsDistinct :
    (rel : Text) (removals : List Removal)
    → IsDistinct (targets_of removals)
    → IsDistinct (names_for rel removals)
unfolding select
names_for-IsDistinct rel [] d = tt
names_for-IsDistinct rel (r ∷ removals) d = elim (Bool-cases (text_eq r.rel rel)) [
  | inr e ↦ rw e (names_for-IsDistinct rel removals d.1)
  | inl e ↦
      let here : r.rel ≡ rel = text_eq→eq r.rel rel e in
      rw e (
        (
          not_elem→mem_text r.name (names_for rel removals) (λ m.
              let (s, at, same, named) = names_for-elem rel r.name removals m in
              let target : target_of s.rel s.name ≡ target_of r.rel r.name =
                cc (here, same, named) in
              let there : Elem (target_of r.rel r.name) (targets_of removals) =
                subst (λ t. Elem t (targets_of removals)) target
                  (elem-map_of (λ (x : Removal). target_of x.rel x.name) s removals at) in
              absurd (cc (d.0, elem→mem_text _ (targets_of removals) there))),
          names_for-IsDistinct rel removals d.1,
        ))
]

-- a list as long as one without repetition that it holds has no other element
no_other :
    (ys xs : List Text) (x : Text)
    → IsDistinct ys
    → ((y : Text) → Elem y ys → Elem y xs)
    → length xs ≡ length ys
    → Elem x xs
    → Elem x ys
no_other ys xs x d sub same m = elim (Bool-cases (mem_text x ys)) [
  | inl t ↦ mem_text→elem x ys t
  | inr t ↦
      let all_in : (y : Text) → Elem y (x ∷ ys) → Elem y xs =
        λ y k. elim k [ inl e ↦ subst (λ z. Elem z xs) e m | inr n ↦ sub y n ] in
      let more : length (x ∷ ys) ≤ length xs = length-IsDistinct (x ∷ ys) xs ((t, d)) all_in in
      absurd (omega (arith, more, same))
]

no_member : (s : Ref) (snaps : List Ref) → length snaps ≡ 0 → Elem s snaps → ⊥
no_member s [] e m = elim m [ ]
no_member s (x ∷ snaps) e m = absurd (omega (arith, e))

-- every removal names a snapshot of its dataset
abbrev pub AreStored : Dict Dest → List Removal → Type 0
AreStored dest removals =
    (r : Removal) (d : Dest)
    → Elem r removals
    → get r.rel dest ≡ some d
    → Elem r.name (map (λ s. s.name) d.snaps)

IsEmptied-named :
    (dest : Dict Dest) (removals : List Removal) (rel : Text) (d : Dest) (s : Ref)
    → IsDistinct (targets_of removals)
    → AreStored dest removals
    → get rel dest ≡ some d
    → length d.snaps ≡ going rel removals
    → Elem s d.snaps
    → (r : Removal) × Elem r removals × (r.rel ≡ rel) × (r.name ≡ s.name)
IsEmptied-named dest removals rel d s once stored at n m = names_for-elem rel s.name removals (
    no_other (names_for rel removals) (map (λ (x : Ref). x.name) d.snaps) s.name
      (names_for-IsDistinct rel removals once)
      (λ y k.
        let (r, here, same, named) = names_for-elem rel y removals k in
        subst (λ z. Elem z (map (λ (x : Ref). x.name) d.snaps)) named
          (stored r d here (ap (λ z. get z dest) same ∙ at)))
      (omega (arith, n, going-length rel removals, length-map (λ (x : Ref). x.name) d.snaps))
      (elem-map_of (λ (x : Ref). x.name) s d.snaps m))

elem-emptied_of :
    (dest : Dict Dest) (removals : List Removal) (rel : Text)
    → Elem rel (emptied_of dest removals)
    → (d : Dest) × Elem (rel, d) dest × IsEmptied removals rel d
unfolding emptied_of
elem-emptied_of dest removals rel m =
    let (d, e) = elem_keys→elem rel _ ((elem-sort_by_iff text_le rel _).0 m) in
    let s =
      (elem-select_iff (λ (x : Text × Dest). is_emptied removals x.0 x.1) (rel, d) dest).0 e in
    (d, s.0, unfold is_emptied in ground (arith, s.1))

-- What is destroyed whole is an archived lineage or a kept orphan from which as many snapshots are
-- removed as it has, and each dataset of its tree either has no snapshot or is such a dataset itself.
-- Where the removals name no snapshot twice, and only snapshots of the drive, no snapshot goes with a
-- tree that they do not name. No tree lies in one listed before it.
pub whole_datasets-IsEmptied :
    (dest : Dict Dest) (removals : List Removal)
    → IsDistinct (keys dest)
    → IsDistinct (targets_of removals)
    → AreStored dest removals
    → IsApart (whole_datasets dest removals)
      × ((t : Text × Text)
          → Elem t (whole_datasets dest removals)
          → ((d : Dest) × Elem (t.0, d) dest × IsEmptied removals t.0 d)
            × ((rel : Text) (d : Dest)
                → Elem (rel, d) dest
                → is_under rel t.0 ≡ true
                → ((length d.snaps ≡ 0) ⊎ IsEmptied removals rel d)
                  × ((s : Ref)
                      → Elem s d.snaps
                      → (r : Removal) × Elem r removals × (r.rel ≡ rel) × (r.name ≡ s.name))))
unfolding whole_datasets
whole_datasets-IsEmptied dest removals keys_differ once stored =
    let emptied = emptied_of dest removals in
    let (apart, goes) =
      whole_from-invariant dest emptied emptied [] (λ t m. m) tt (λ t m. elim m [ ]) in
    (
      apart,
      λ t m.
          let (e, tree) = goes t m in
          (
            elem-emptied_of dest removals t.0 e,
            λ rel d at u.
                let ok : (not (is_under rel t.0) || (mem_text rel emptied || length d.snaps == 0))
                    ≡ true =
                  all→elem
                    (λ (x : Text × Dest).
                      not (is_under x.0 t.0) || (mem_text x.0 emptied || length x.1.snaps == 0))
                    (rel, d) dest (unfold tree_goes in tree) at in
                let state : (length d.snaps ≡ 0) ⊎ IsEmptied removals rel d =
                  elim (Bool-cases (mem_text rel emptied)) [
                    | inr n ↦ inl (ground arith)
                    | inl y ↦
                        let (d', at', em) =
                          elem-emptied_of dest removals rel (mem_text→elem rel emptied y) in
                        let same : d' ≡ d = ground (
                          arith,
                          elem→get rel d' dest keys_differ at',
                          elem→get rel d dest keys_differ at,
                        ) in
                        inr (subst (IsEmptied removals rel) same em)
                  ] in
                (
                  state,
                  λ s m. elim state [
                    | inl zero_of ↦ absurd (no_member s d.snaps zero_of m)
                    | inr em ↦
                        IsEmptied-named dest removals rel d s once stored
                          (elem→get rel d dest keys_differ at) em.1 m
                  ],
                ),
          ),
    )
