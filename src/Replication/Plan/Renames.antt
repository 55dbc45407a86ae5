-- ===== src/Replication/Plan/Renames.antt =====
-- `_renames`: what an orphan of the drive is offered to be renamed to.
use mathlib.Core.Path.{subst}
use zark.Base.{
  ◌≡◌, refl, ap, ◌∙◌, ◌⊎◌, inl, inr, true, false, not, ◌&&◌, some, List, [], ◌∷◌, ◌++◌, arith,
  Bool-cases, Option-cases, is_some, Elem, any, find_first, find_first-eq-some, elem-append_iff,
  Dict, get, has_key, values, Text, text_eq, mem_text, text_eq→eq, text_eq_sym, IsDistinct,
}
use zark.Replication.Model.{with_guid, snap_by_guid, bookmark_by_guid, newest, Ref, Origin, Dest}
use zark.Replication.Plan.{continues_as, rename_of, renames}
use zark.Replication.Names.{is_bpool, parent}

mem_text-append_one :
    (x y : Text) (xs : List Text)
    → mem_text x xs ≡ false
    → text_eq x y ≡ false
    → mem_text x (xs ++ y ∷ []) ≡ false
unfolding mem_text any
mem_text-append_one x y [] h e = ground arith
mem_text-append_one x y (z ∷ xs) h e = ground (arith, mem_text-append_one x y xs)

IsDistinct-append_one :
    (xs : List Text) (y : Text) → IsDistinct xs → mem_text y xs ≡ false → IsDistinct (xs ++ y ∷ [])
unfolding mem_text any
IsDistinct-append_one [] y d h = (refl, tt)
IsDistinct-append_one (x ∷ xs) y d h = (
  mem_text-append_one x y xs d.0 (text_eq_sym x y ∙ ground arith),
  IsDistinct-append_one xs y d.1 (ground arith),
)

values-append_one : (d : Dict Text) (k v : Text) → values (d ++ (k, v) ∷ []) ≡ values d ++ v ∷ []
unfolding values
values-append_one [] k v = refl
values-append_one ((j, w) ∷ d) k v = ap (◌∷◌ w) (values-append_one d k v)

-- What an offered rename rests on: one of the new names, a dataset of origin in the same pool tree whose
-- parent is on the drive, which holds the drive's newest snapshot of the orphan by guid, or outside the
-- boot pool a bookmark of it.
pub record IsRename (origin : Dict Origin) (live : Dict Dest) (names : List Text) (e : Text × Text)
    : Type 0 where
  pub is_new_name : Elem e.1 names
  pub orphan : Dest
  pub top : Ref
  pub dataset : Origin
  pub on_drive : get e.0 live ≡ some orphan
  pub newest_there : newest orphan ≡ some top
  pub in_origin : get e.1 origin ≡ some dataset
  pub same_pool : is_bpool e.1 ≡ is_bpool e.0
  pub has_parent : (d : Dest) × (get (parent e.1) live ≡ some d)
  pub goes_on :
      ((s : Ref) × Elem s dataset.snaps × (s.guid ≡ top.guid))
      ⊎ ((is_bpool e.1 ≡ false) × ((b : Ref) × Elem b dataset.bookmarks × (b.guid ≡ top.guid)))

with_guid-facts :
    (guid : Text) (refs : List Ref)
    → is_some (with_guid guid refs) ≡ true
    → (r : Ref) × Elem r refs × (r.guid ≡ guid)
unfolding with_guid
with_guid-facts guid refs h = elim (Option-cases (with_guid guid refs)) [
  | inl e ↦ absurd (cc (h, ap is_some e))
  | inr (r, e) ↦
      let f = find_first-eq-some _ r refs e in (r, f.0, text_eq→eq _ _ (ground (arith, f.1)))
]

has_key-get : (k : Text) (d : Dict Dest) → has_key k d ≡ true → (v : Dest) × (get k d ≡ some v)
unfolding has_key
has_key-get k d h = elim (Option-cases (get k d)) [
  | inl e ↦ absurd (cc (h, ap is_some e))
  | inr (v, e) ↦ (v, e)
]

continues_as-IsRename :
    (origin : Dict Origin) (live : Dict Dest) (names : List Text) (rel name : Text) (d : Dest)
    (top : Ref)
    → Elem name names
    → get rel live ≡ some d
    → newest d ≡ some top
    → continues_as origin live rel top name ≡ true
    → IsRename origin live names (rel, name)
unfolding continues_as snap_by_guid bookmark_by_guid
continues_as-IsRename origin live names rel name d top m e n h =
    elim (Option-cases (get name origin)) [
      | inl f ↦ absurd (ground arith)
      | inr (o, f) ↦ record {
        is_new_name = m;
        orphan = d;
        top = top;
        dataset = o;
        on_drive = e;
        newest_there = n;
        in_origin = f;
        same_pool = ground arith;
        has_parent = has_key-get (parent name) live (ground arith);
        goes_on = elim (Bool-cases (is_some (with_guid top.guid o.snaps))) [
          | inl t ↦ inl (with_guid-facts top.guid o.snaps t)
          | inr t ↦ inr (ground arith, with_guid-facts top.guid o.bookmarks (ground arith))
        ];
      }
    ]

module _ (origin : Dict Origin) (live : Dict Dest) (names : List Text) where
  rename_of-IsRename :
      (taken : List Text) (rel name : Text)
      → rename_of origin live names taken rel ≡ some name
      → IsRename origin live names (rel, name) × (mem_text name taken ≡ false)
  unfolding rename_of
  rename_of-IsRename taken rel name h = elim (Option-cases (get rel live)) [
    | inl e ↦ absurd (ground arith)
    | inr (d, e) ↦ elim (Option-cases (newest d)) [
      | inl n ↦ absurd (ground arith)
      | inr (top, n) ↦
          let f : find_first
                (λ name. continues_as origin live rel top name && not (mem_text name taken)) names
              ≡ some name =
            ground arith in
          let r = find_first-eq-some _ name names f in
          (
            continues_as-IsRename origin live names rel name d top r.0 e n (ground (arith, r.1)),
            ground (arith, r.1),
          )
    ]
  ]

  renames-invariant :
      (tops : List Text) (out : Dict Text)
      → IsDistinct (values out)
      → ((e : Text × Text) → Elem e out → IsRename origin live names e)
      → IsDistinct (values (renames origin live names tops out))
        × ((e : Text × Text)
            → Elem e (renames origin live names tops out)
            → IsRename origin live names e)
  unfolding renames
  renames-invariant [] out d all_of = (d, all_of)
  renames-invariant (rel ∷ tops) out d all_of =
      elim (Option-cases (rename_of origin live names (values out) rel)) [
        | inl e ↦ rw e (renames-invariant tops out d all_of)
        | inr (name, e) ↦
            let r = rename_of-IsRename (values out) rel name e in
            rw e (
              renames-invariant tops (out ++ (rel, name) ∷ [])
                (rw (values-append_one out rel name)
                  (IsDistinct-append_one (values out) name d r.1))
                λ x m. elim ((elem-append_iff x out ((rel, name) ∷ [])).0 m) [
                  | inl k ↦ all_of x k
                  | inr k ↦ elim k [
                    | inl same ↦ subst (IsRename origin live names) same r.0
                    | inr n ↦ elim n [ ]
                  ]
                ])
      ]

-- Two orphans are never offered the same new name. Every offer is one of the names that are given and a
-- dataset of origin, in the same pool tree as the orphan, whose parent is on the drive; it holds the
-- orphan's newest snapshot there by guid, or, outside the boot pool, a bookmark of it.
pub renames-distinct :
    (origin : Dict Origin) (live : Dict Dest) (names tops : List Text)
    → IsDistinct (values (renames origin live names tops []))
      × ((e : Text × Text)
          → Elem e (renames origin live names tops [])
          → IsRename origin live names e)
unfolding values
renames-distinct origin live names tops =
    renames-invariant origin live names tops [] tt (λ e m. elim m [ ])
