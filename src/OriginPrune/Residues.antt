-- ===== src/OriginPrune/Residues.antt =====
-- `inventory`: which residues may be removed, and the cut by age.
use mathlib.Core.Path.{subst}
use zark.Base.{
  ℕ, ◌<◌, ◌≡◌, refl, ◌↔◌, ◌⊎◌, inl, inr, true, not, ◌&&◌, List, [], ◌∷◌, ◌++◌, map, arith, ltb,
  Bool-cases, Elem, List-cases, select, elem-select_iff, elem-append_iff, flat_map, elem-map,
  elem-map_of, elem-flat_map, elem-flat_map_of, IsSorted, elem-sort_by_iff, sort_by-IsSorted, Dict,
  Text, codes, text_eq, text_le, starts_with, mem_text, text_eq→eq, text_le_total, text_le_trans,
  mem_text→elem,
}
use zark.Replication.Names.{anchor_disk, keystore, structural}
use zark.Replication.Model.{Ref, Origin}
use zark.Replication.Plan.{expected}
use zark.Retention.Prune.{target_of, item_le, sorted_items}
use zark.OriginPrune.{
  no_items, anchored_by, missing_on, classify_residue, classify, file_item, file_snaps,
  note_unanchored, file_datasets, inventory, item_age_le, older_than, Item, Inventory, Class,
}

-- A residue that the loop files: its snapshot, and the branch that took it.
pub record Filed (origin : Dict Origin) (drives : Dict Text) (i : Item) : Type 0 where
  pub rel : Text
  pub dataset : Origin
  pub snap : Ref
  pub listed : Elem (rel, dataset) origin
  pub stored : Elem snap dataset.snaps
  pub named : target_of rel snap.name ≡ i.target
  pub taken : classify drives rel dataset snap.name ≡ Class.residue i.reason

module _ (origin : Dict Origin) (drives : Dict Text) where
  abbrev AllFiled : Inventory → Type 0
  AllFiled inv = (i : Item) → Elem i inv.residues → Filed origin drives i

  AllFiled-file_item :
      (rel : Text) (o : Origin) (s : Ref) (inv : Inventory) (c : Class)
      → Elem (rel, o) origin
      → Elem s o.snaps
      → classify drives rel o s.name ≡ c
      → AllFiled inv
      → AllFiled (file_item c (target_of rel s.name) s.creation inv)
  unfolding file_item
  AllFiled-file_item rel o s inv (Class.autosnap type) at m e a = a
  AllFiled-file_item rel o s inv (Class.point why) at m e a = a
  AllFiled-file_item rel o s inv (Class.anchor guid) at m e a = a
  AllFiled-file_item rel o s inv (Class.residue_kept why) at m e a = a
  AllFiled-file_item rel o s inv Class.neither at m e a = a
  AllFiled-file_item rel o s inv (Class.residue why) at m e a =
      let item : Item = record {
        target = target_of rel s.name;
        creation = s.creation;
        reason = why;
      } in
      let filed : Filed origin drives item = record {
        rel = rel;
        dataset = o;
        snap = s;
        listed = at;
        stored = m;
        named = refl;
        taken = e;
      } in
      λ i k. elim ((elem-append_iff i inv.residues (item ∷ [])).0 k) [
        | inl q ↦ a i q
        | inr q ↦ elim q [ inl same ↦ subst (Filed origin drives) same filed | inr n ↦ elim n [ ] ]
      ]

  AllFiled-file_snaps :
      (rel : Text) (o : Origin) (snaps : List Ref) (inv : Inventory)
      → Elem (rel, o) origin
      → ((s : Ref) → Elem s snaps → Elem s o.snaps)
      → AllFiled inv
      → AllFiled (file_snaps drives rel o snaps inv)
  unfolding file_snaps
  AllFiled-file_snaps rel o [] inv at sub a = a
  AllFiled-file_snaps rel o (s ∷ snaps) inv at sub a =
      AllFiled-file_snaps rel o snaps _ at (λ t m. sub t (inr m))
        (AllFiled-file_item rel o s inv _ at (sub s (inl refl)) refl a)

  note_unanchored_residues :
      (backed_up : List Text) (rel : Text) (o : Origin) (inv : Inventory)
      → (note_unanchored drives backed_up rel o inv).residues ≡ inv.residues
  unfolding note_unanchored
  note_unanchored_residues backed_up rel o inv = ground arith

  AllFiled-file_datasets :
      (backed_up : List Text) (items : Dict Origin) (inv : Inventory)
      → ((e : Text × Origin) → Elem e items → Elem e origin)
      → AllFiled inv
      → AllFiled (file_datasets drives backed_up items inv)
  unfolding file_datasets
  AllFiled-file_datasets backed_up [] inv sub a = a
  AllFiled-file_datasets backed_up ((rel, o) ∷ items) inv sub a =
      AllFiled-file_datasets backed_up items _ (λ e m. sub e (inr m))
        (AllFiled-file_snaps rel o o.snaps (note_unanchored drives backed_up rel o inv)
          (sub (rel, o) (inl refl)) (λ t m. m)
          λ i k. a i (subst (λ r. Elem i r) (note_unanchored_residues backed_up rel o inv) k))

-- A residue that no drive needs: the keystore's, a structural container's, or one of a dataset where
-- every registered drive has an anchor.
pub data IsSpare (drives : Dict Text) (rel : Text) (o : Origin) (name : Text) : Type 0 where
  of_keystore :
      rel ≡ keystore → starts_with (codes "prepare_") name ≡ true → IsSpare drives rel o name
  of_container :
      starts_with (codes "syncoid_") name ≡ true
      → mem_text rel structural ≡ true
      → IsSpare drives rel o name
  of_anchored :
      starts_with (codes "syncoid_") name ≡ true
      → ((guid drive : Text)
          → Elem (guid, drive) drives
          → (r : Ref) × Elem r (o.bookmarks ++ o.snaps) × (anchor_disk r.name ≡ guid))
      → IsSpare drives rel o name

missing_on-eq-nil :
    (drives : Dict Text) (o : Origin) (guid drive : Text)
    → missing_on drives o ≡ []
    → Elem (guid, drive) drives
    → (r : Ref) × Elem r (o.bookmarks ++ o.snaps) × (anchor_disk r.name ≡ guid)
unfolding missing_on anchored_by
missing_on-eq-nil drives o guid drive h m = elim (Bool-cases (mem_text guid (anchored_by o))) [
  | inr n ↦
      let there : Elem drive (missing_on drives o) = (elem-sort_by_iff text_le drive _).1 (
        elem-map_of (λ (d : Text × Text). d.1) (guid, drive) _
          ((elem-select_iff (λ (d : Text × Text). not (mem_text d.0 (anchored_by o))) (guid, drive)
              drives).1
            (m, ground arith))) in
      let none_of : Elem drive [] = rw h at there in elim none_of [ ]
  | inl y ↦
      let (k, e) =
        (elem-select_iff (λ g. not (text_eq g [])) guid
            (map (λ (r : Ref). anchor_disk r.name) (o.bookmarks ++ o.snaps))).0
          (mem_text→elem guid (anchored_by o) y) in
      elem-map (λ (r : Ref). anchor_disk r.name) guid (o.bookmarks ++ o.snaps) k
]

classify_residue-IsSpare :
    (drives : Dict Text) (rel : Text) (o : Origin) (name : Text) (why : Text)
    → classify_residue drives rel o name ≡ Class.residue why
    → IsSpare drives rel o name
unfolding classify_residue
classify_residue-IsSpare drives rel o name why h =
    elim (Bool-cases (text_eq rel keystore && starts_with (codes "prepare_") name)) [
      | inl t ↦ IsSpare.of_keystore (text_eq→eq rel keystore (ground arith)) (ground arith)
      | inr t ↦ elim (Bool-cases (mem_text rel structural)) [
        | inl u ↦ IsSpare.of_container (ground arith) u
        | inr u ↦ elim (List-cases (missing_on drives o)) [
          | inl e ↦ IsSpare.of_anchored (ground arith) λ g d m. missing_on-eq-nil drives o g d e m
          | inr (x, xs, e) ↦ absurd (ground arith)
        ]
      ]
    ]

classify-residue :
    (drives : Dict Text) (rel : Text) (o : Origin) (name : Text) (why : Text)
    → classify drives rel o name ≡ Class.residue why
    → classify_residue drives rel o name ≡ Class.residue why
unfolding classify
classify-residue drives rel o name why h = ground arith

-- Every residue that is listed as removable is a snapshot of origin that no registered drive may need
-- as a base: `prepare` left it on the keystore, or syncoid on a structural container, or syncoid on a
-- dataset where every registered drive has an anchor.
pub inventory-IsSpare :
    (origin : Dict Origin) (drives : Dict Text) (skip : List Text) (i : Item)
    → Elem i (inventory origin drives skip).residues
    → (rel : Text) × (o : Origin) × (s : Ref) × Elem (rel, o) origin
      × Elem s o.snaps
      × (target_of rel s.name ≡ i.target)
      × IsSpare drives rel o s.name
unfolding inventory sorted_items
inventory-IsSpare origin drives skip i m =
    let f =
      AllFiled-file_datasets origin drives (expected origin skip) (sorted_items origin) no_items
        (λ e k. (elem-sort_by_iff item_le e origin).0 k) (λ j k. elim k [ ]) i m in
    (
      f.rel,
      f.dataset,
      f.snap,
      f.listed,
      f.stored,
      f.named,
      classify_residue-IsSpare drives f.rel f.dataset f.snap.name i.reason
          (classify-residue drives f.rel f.dataset f.snap.name i.reason f.taken),
    )

item_age_le-total : (a b : Item) → (item_age_le a b ≡ true) ⊎ (item_age_le b a ≡ true)
unfolding item_age_le
item_age_le-total a b = ground (arith, text_le_total a.target b.target)

item_age_le_trans :
    (a b c : Item) → item_age_le a b ≡ true → item_age_le b c ≡ true → item_age_le a c ≡ true
unfolding item_age_le
item_age_le_trans a b c h k = ground (arith, text_le_trans a.target b.target c.target)

-- The cut by age lists, oldest first, exactly the snapshots of sanoid in the inventory that were
-- created before it.
pub older_than-IsSorted :
    (inv : Inventory) (cutoff : ℕ)
    → IsSorted item_age_le (older_than inv cutoff)
      × ((i : Item)
          → Elem i (older_than inv cutoff) ↔ (
              (type : Text) × (items : List Item) × Elem (type, items) inv.autosnaps
              × Elem i items
              × (i.creation < cutoff)))
unfolding older_than
older_than-IsSorted inv cutoff =
    let all_of = flat_map (λ (e : Text × List Item). e.1) inv.autosnaps in
    let cut = select (λ (i : Item). ltb i.creation cutoff) all_of in
    (
      sort_by-IsSorted item_age_le item_age_le-total item_age_le_trans cut,
      λ i. (
        λ m.
            let s =
              (elem-select_iff (λ (j : Item). ltb j.creation cutoff) i all_of).0
                ((elem-sort_by_iff item_age_le i cut).0 m) in
            let (e, at, k) = elem-flat_map (λ (x : Text × List Item). x.1) i _ s.0 in
            (e.0, e.1, at, k, ground arith),
        λ x. (elem-sort_by_iff item_age_le i cut).1 (
            (elem-select_iff (λ (j : Item). ltb j.creation cutoff) i all_of).1 (
              elem-flat_map_of (λ (y : Text × List Item). y.1) i (x.0, x.1) _ x.2 x.3,
              ground arith,
            )),
      ),
    )
