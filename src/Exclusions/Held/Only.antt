-- ===== src/Exclusions/Held/Only.antt =====
-- What `destroy_held` of lib/exclusions.py touches.
use zark.Base.{
  ◌≡◌, refl, ◌⊎◌, inl, inr, Bool, true, false, Option, none, some, List, [], ◌∷◌, map, ltb, ◌==◌,
  Bool-cases, Option-cases, length, Elem, elem-map_of, Dict, get, Text, text_eq,
}
use zark.Replication.Names.{anchor_disk}
use zark.Replication.Model.{Ref, Origin}
use zark.Reclaim.Measure.{in_pool}
use zark.Dependents.{is_ok, destroy_order, destroy_dependents, Dependent, DestroyPlan}
use zark.Anchors.{bookmark_of}
use zark.RestorePoints.Model.{Snap}
use zark.Exclusions.{flags, subtree}
use zark.Exclusions.Json.{Loads, Json}
use zark.Exclusions.Record.{max_parts, parts_needed}
use zark.Exclusions.Held.{rewrites, Rewrite}
use zark.Exclusions.Held.Destroy.{
  rewrite, rewrite_all, drop_bookmarks, drop_in, drop_anchors, destroy_copies, settle,
  destroy_known, destroy_held, Writes,
}

module _ {S : Type 0} (z : Writes S) (P : S → Type 0)
    (set : (props : Dict Text) (names : List Text) (w : S)
      → P w
      → P (z.set_props props names w).1) where
  rewrite_all-Keeps :
      (digest : Text → Text) (rws : Dict Rewrite) (w : S) → P w → P (rewrite_all z digest rws w).1
  unfolding rewrite_all rewrite
  rewrite_all-Keeps digest [] w h = h
  rewrite_all-Keeps digest ((name, r) ∷ rws) w h =
      elim (Bool-cases (ltb max_parts (parts_needed r.mark))) [
        | inl e ↦ rw (rewrite_all, rewrite, e) (rewrite_all-Keeps digest rws w h)
        | inr e ↦ rw (rewrite_all, rewrite, e) (rewrite_all-Keeps digest rws _ (set _ _ w h))
      ]

  module _ (disk_guid rel : Text) where
    drop_bookmarks-Keeps :
        (bs : List Ref)
        → ((b : Ref)
            → Elem b bs
            → text_eq (anchor_disk b.name) disk_guid ≡ true
            → (w : S) → P w
            → P (z.destroy_bookmark (bookmark_of rel b.name) w).1)
        → (w : S) → P w
        → P (drop_bookmarks z disk_guid rel bs w).1
    unfolding drop_bookmarks
    drop_bookmarks-Keeps [] own w h = h
    drop_bookmarks-Keeps (b ∷ bs) own w h =
        elim (Bool-cases (text_eq (anchor_disk b.name) disk_guid)) [
          | inl e ↦
              rw (drop_bookmarks, e)
                (drop_bookmarks-Keeps bs (λ c m. own c (inr m)) _ (own b (inl refl) e w h))
          | inr e ↦ rw (drop_bookmarks, e) (drop_bookmarks-Keeps bs (λ c m. own c (inr m)) w h)
        ]

  -- destroying an anchor of this drive on `rel` keeps `P`
  abbrev OwnKept : Text → Dict Origin → Text → Type 0
  OwnKept disk_guid origin rel =
      (o : Origin) (b : Ref)
      → get rel origin ≡ some o
      → Elem b o.bookmarks
      → text_eq (anchor_disk b.name) disk_guid ≡ true
      → (w : S) → P w
      → P (z.destroy_bookmark (bookmark_of rel b.name) w).1

  drop_in-Keeps :
      (disk_guid : Text) (origin : Dict Origin) (rels : List Text)
      → ((rel : Text) → Elem rel rels → OwnKept disk_guid origin rel)
      → (w : S) → P w
      → P (drop_in z disk_guid origin rels w).1
  unfolding drop_in
  drop_in-Keeps disk_guid origin [] own w h = h
  drop_in-Keeps disk_guid origin (rel ∷ rels) own w h = elim (Option-cases (get rel origin)) [
    | inl e ↦ rw (drop_in, e) (drop_in-Keeps disk_guid origin rels (λ r m. own r (inr m)) w h)
    | inr (o, e) ↦
        rw (drop_in, e)
          (drop_in-Keeps disk_guid origin rels (λ r m. own r (inr m)) _
            (drop_bookmarks-Keeps disk_guid rel o.bookmarks (λ b. own rel (inl refl) o b e) w h))
  ]

  destroy_order-Keeps :
      (pool : Text) (ds : List Dependent)
      → ((d : Dependent) → Elem d ds → (w : S) → P w → P (z.destroy_tree (in_pool pool d.rel) w).1)
      → (w : S) → P w
      → P (destroy_order z.destroy_tree pool ds w).2
  unfolding destroy_order
  destroy_order-Keeps pool [] kept w h = h
  destroy_order-Keeps pool (d ∷ ds) kept w h =
      elim (Bool-cases (z.destroy_tree (in_pool pool d.rel) w).0) [
        | inl e ↦
            rw (destroy_order, e)
              (destroy_order-Keeps pool ds (λ c m. kept c (inr m)) _ (kept d (inl refl) w h))
        | inr e ↦ rw (destroy_order, e) (kept d (inl refl) w h)
      ]

  module _ (pool top : Text) (deps : DestroyPlan)
      (tree : (rel : Text)
        → (rel ≡ top) ⊎ Elem rel (map (λ d. d.rel) deps.order)
        → (w : S) → P w
        → P (z.destroy_tree (in_pool pool rel) w).1) where
    destroy_dependents-Keeps : (w : S) → P w → P (destroy_dependents z.destroy_tree pool deps w).2
    unfolding destroy_dependents
    destroy_dependents-Keeps w h = elim (Bool-cases (is_ok deps)) [
      | inl e ↦
          rw (destroy_dependents, e)
            (destroy_order-Keeps pool deps.order
              (λ d m. tree d.rel (inr (elem-map_of (λ (x : Dependent). x.rel) d deps.order m))) w h)
      | inr e ↦ rw (destroy_dependents, e) h
    ]

    destroy_copies-Keeps : (w : S) → P w → P (destroy_copies z pool top deps w).2
    unfolding destroy_copies
    destroy_copies-Keeps w h =
        let out = destroy_dependents z.destroy_tree pool deps w in
        let kept : P out.2 = destroy_dependents-Keeps w h in
        let after : P (z.destroy_tree (in_pool pool top) out.2).1 =
          tree top (inl refl) out.2 kept in
        elim (Bool-cases out.1) [
          | inr e ↦ rw (destroy_copies, e) kept
          | inl e ↦ elim (Bool-cases (z.destroy_tree (in_pool pool top) out.2).0) [
            | inl f ↦ rw (destroy_copies, e, f) after
            | inr f ↦ rw (destroy_copies, e, f) after
          ]
        ]

    module _ (disk_guid : Text) (origin : Dict Origin)
        (own : (rel : Text) → Elem rel (subtree top origin) → OwnKept disk_guid origin rel) where
      settle-Keeps :
          (digest : Text → Text) (ok : Bool) (rws : Dict Rewrite) (w : S)
          → P w
          → P (settle z digest top disk_guid origin ok rws w).1
      unfolding settle drop_anchors
      settle-Keeps digest true rws w h =
          drop_in-Keeps disk_guid origin (subtree top origin) own _
            (rewrite_all-Keeps digest rws w h)
      settle-Keeps digest false rws w h = rewrite_all-Keeps digest rws w h

      destroy_known-Keeps :
          (loads : Loads) (shown : Json → Text) (digest : Text → Text) (flags : Text)
          (snaps : List Snap) (records : Dict (Option Text)) (recorded : Dict (Text × Text)) (w : S)
          → P w
          → P
              (destroy_known z loads shown digest pool top flags disk_guid origin deps snaps records
                recorded w).1
      unfolding destroy_known
      destroy_known-Keeps loads shown digest flags snaps records recorded w h =
          let out = destroy_copies z pool top deps w in
          let kept : P out.2 = destroy_copies-Keeps w h in
          elim (Bool-cases (length out.0 == 0)) [
            | inl e ↦ rw (destroy_known, e) kept
            | inr e ↦
                elim (Option-cases
                  (rewrites loads shown pool top flags snaps records out.0 recorded)) [
                    | inl f ↦ rw (destroy_known, e, f) kept
                    | inr (rws, f) ↦
                        rw (destroy_known, e, f) (settle-Keeps digest out.1 rws out.2 kept)
                  ]
          ]

-- What `destroy_held` touches, whatever the commands answer, errors included: it sets properties, it
-- destroys the trees of the top and of its dependents and nothing else, and in origin it destroys only
-- bookmarks of the top's subtree that are anchors of this drive. So every `P` of the state that these
-- three keep holds behind it.
pub destroy_held-Keeps :
    {S : Type 0} (z : Writes S) (P : S → Type 0) (loads : Loads) (shown : Json → Text)
    (digest : Text → Text) (pool top flags disk_guid : Text) (origin : Dict Origin)
    (deps : DestroyPlan) (snaps : Option (List Snap)) (records : Option (Dict (Option Text)))
    (recorded : Dict (Text × Text)) (w : S)
    → ((props : Dict Text) (names : List Text) (v : S) → P v → P (z.set_props props names v).1)
    → ((rel : Text)
        → (rel ≡ top) ⊎ Elem rel (map (λ d. d.rel) deps.order)
        → (v : S) → P v
        → P (z.destroy_tree (in_pool pool rel) v).1)
    → ((rel : Text) (o : Origin) (b : Ref)
        → Elem rel (subtree top origin)
        → get rel origin ≡ some o
        → Elem b o.bookmarks
        → text_eq (anchor_disk b.name) disk_guid ≡ true
        → (v : S) → P v
        → P (z.destroy_bookmark (bookmark_of rel b.name) v).1)
    → P w
    → P
        (destroy_held z loads shown digest pool top flags disk_guid origin deps snaps records
          recorded w).1
unfolding destroy_held
destroy_held-Keeps z P loads shown digest pool top flags disk_guid origin deps none records recorded
      w set tree own h =
    h
destroy_held-Keeps z P loads shown digest pool top flags disk_guid origin deps (some snaps) none
      recorded w set tree own h =
    h
destroy_held-Keeps z P loads shown digest pool top flags disk_guid origin deps (some snaps)
      (some records) recorded w set tree own h =
    let all_of = top ∷ map (λ (d : Dependent). d.rel) deps.order in
    elim (Option-cases (rewrites loads shown pool top flags snaps records all_of recorded)) [
      | inl e ↦ rw (destroy_held, e) h
      | inr (rws, e) ↦
          rw (destroy_held, e)
            (destroy_known-Keeps z P set pool top deps tree disk_guid origin
              (λ r m o b. own r o b m) loads shown digest flags snaps records recorded w h)
    ]
