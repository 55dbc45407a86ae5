-- ===== src/Anchors/Owned.antt =====
-- A drive's anchors, and the points that recover restored.
use mathlib.Core.Path.{subst}
use zark.Base.{
  ◌≡◌, refl, ◌↔◌, inl, inr, Bool, true, false, not, ◌||◌, some, List, [], ◌∷◌, arith, Bool-cases,
  Option-cases, Elem, find_first, elem-select_iff, find_first-eq-some, elem-append_iff, elem-map,
  elem-map_of, elem-flat_map, elem-flat_map_of, elem-sort_by_iff, Dict, Text, text_eq, mem_text,
  text_eq→eq, eq→text_eq, elem-put, occurs, Accounted,
}
use zark.Replication.Names.{is_point, anchor_disk, anchor_name}
use zark.Replication.Model.{Ref, Origin}
use zark.Retention.Prune.{target_of, item_le, sorted_items}
use zark.Anchors.{
  bookmark_of, drop_names, anchors_in, disk_anchors, drop_disk_anchors, is_anchor_of, restored_in,
  restored_from, restored_points, Commands,
}

-- An anchor of the drive on a dataset of origin, and the name that destroys it.
pub data IsAnchor (origin : Dict Origin) (disk_guid : Text) : Text → Type 0 where
  of_bookmark :
      (rel : Text) (o : Origin) (b : Ref)
      → Elem (rel, o) origin
      → Elem b o.bookmarks
      → anchor_disk b.name ≡ disk_guid
      → IsAnchor origin disk_guid (bookmark_of rel b.name)
  of_snapshot :
      (rel : Text) (o : Origin) (s : Ref)
      → Elem (rel, o) origin
      → Elem s o.snaps
      → anchor_disk s.name ≡ disk_guid
      → IsAnchor origin disk_guid (target_of rel s.name)

module _ (origin : Dict Origin) (disk_guid : Text) where
  abbrev of_disk : Ref → Bool
  of_disk r = text_eq (anchor_disk r.name) disk_guid

  disk_anchors→IsAnchor :
      (name : Text) → Elem name (disk_anchors origin disk_guid) → IsAnchor origin disk_guid name
  unfolding disk_anchors anchors_in sorted_items
  disk_anchors→IsAnchor name m =
      let (e, at, k) = elem-flat_map (anchors_in disk_guid) name _ m in
      let listed = (elem-sort_by_iff item_le e origin).0 at in
      elim ((elem-append_iff name _ _).0 k) [
        | inl x ↦
            let (b, p, q) = elem-map (λ (r : Ref). bookmark_of e.0 r.name) name _ x in
            let s = (elem-select_iff of_disk b e.1.bookmarks).0 p in
            subst (IsAnchor origin disk_guid) q
              (IsAnchor.of_bookmark e.0 e.1 b listed s.0 (text_eq→eq _ _ s.1))
        | inr x ↦
            let (b, p, q) = elem-map (λ (r : Ref). target_of e.0 r.name) name _ x in
            let s = (elem-select_iff of_disk b e.1.snaps).0 p in
            subst (IsAnchor origin disk_guid) q
              (IsAnchor.of_snapshot e.0 e.1 b listed s.0 (text_eq→eq _ _ s.1))
      ]

  IsAnchor→disk_anchors :
      (name : Text) → IsAnchor origin disk_guid name → Elem name (disk_anchors origin disk_guid)
  unfolding disk_anchors anchors_in sorted_items
  IsAnchor→disk_anchors _ (IsAnchor.of_bookmark rel o b at m e) =
      elem-flat_map_of (anchors_in disk_guid) _ (rel, o) _
        ((elem-sort_by_iff item_le (rel, o) origin).1 at)
        ((elem-append_iff _ _ _).1 (
          inl (
            elem-map_of (λ (r : Ref). bookmark_of rel r.name) b _
              ((elem-select_iff of_disk b o.bookmarks).1 (m, eq→text_eq _ _ e)))))
  IsAnchor→disk_anchors _ (IsAnchor.of_snapshot rel o s at m e) =
      elem-flat_map_of (anchors_in disk_guid) _ (rel, o) _
        ((elem-sort_by_iff item_le (rel, o) origin).1 at)
        ((elem-append_iff _ _ _).1 (
          inr (
            elem-map_of (λ (r : Ref). target_of rel r.name) s _
              ((elem-select_iff of_disk s o.snaps).1 (m, eq→text_eq _ _ e)))))

-- `zfs destroy` of the name succeeded, or failed
abbrev pub Destroyed : {S : Type 0} → Commands S → Bool → Text → Type 0
Destroyed {S} z ok name = (v : S) × ((z.destroy name v).0 ≡ ok)

drop_names-accounts :
    {S : Type 0} (z : Commands S) (names : List Text) (w : S)
    → Accounted
        (Destroyed z true)
        (Destroyed z false)
        names
        (drop_names z names w).1
        (drop_names z names w).0
unfolding drop_names occurs
drop_names-accounts z [] w = record {
  went = [];
  counted = omega arith;
  each_once = λ k. omega arith;
  all_went = λ k m. elim m [ ];
  all_failed = λ k m. elim m [ ];
}
drop_names-accounts z (x ∷ names) w =
    let rest = drop_names-accounts z names (z.destroy x w).1 in
    elim (Bool-cases (z.destroy x w).0) [
      | inl t ↦
          rw (t, drop_names)
            (record {
              went = x ∷ rest.went;
              counted = omega (arith, rest.counted);
              each_once = λ k. ground (arith, rest.each_once k);
              all_went = λ k m. elim m [
                | inl e ↦ subst (Destroyed z true) e ((w, t))
                | inr n ↦ rest.all_went k n
              ];
              all_failed = rest.all_failed;
            })
      | inr t ↦
          rw (t, drop_names)
            (record {
              went = rest.went;
              counted = rest.counted;
              each_once = λ k. ground (arith, rest.each_once k);
              all_went = rest.all_went;
              all_failed = λ k m. elim m [
                | inl e ↦ subst (Destroyed z false) e ((w, t))
                | inr n ↦ rest.all_failed k n
              ];
            })
    ]

drop_names-Keeps :
    {S : Type 0} (z : Commands S) (P : S → Type 0) (names : List Text) (w : S)
    → ((name : Text) → Elem name names → (v : S) → P v → P (z.destroy name v).1)
    → P w
    → P (drop_names z names w).2
unfolding drop_names
drop_names-Keeps z P [] w keep h = h
drop_names-Keeps z P (x ∷ names) w keep h =
    let rest =
      drop_names-Keeps z P names (z.destroy x w).1 (λ n m. keep n (inr m))
        (keep x (inl refl) w h) in
    elim (Bool-cases (z.destroy x w).0) [
      | inl t ↦ rw (t, drop_names) rest
      | inr t ↦ rw (t, drop_names) rest
    ]

-- What is dropped for a drive are its anchors in origin, all of them and no other drive's: the names
-- given to `zfs destroy` are those of its anchors, so what their destroy keeps of the state is kept;
-- each anchor is counted as gone, its destroy having succeeded, or named as failed, its destroy having
-- failed, and none more often than it is listed.
pub drop_disk_anchors-accounts :
    {S : Type 0} (z : Commands S) (P : S → Type 0) (origin : Dict Origin) (disk_guid : Text) (w : S)
    → ((name : Text) → IsAnchor origin disk_guid name → (v : S) → P v → P (z.destroy name v).1)
    → P w
    → ((name : Text) → Elem name (disk_anchors origin disk_guid) ↔ IsAnchor origin disk_guid name)
      × Accounted
          (Destroyed z true)
          (Destroyed z false)
          (disk_anchors origin disk_guid)
          (drop_disk_anchors z origin disk_guid w).1
          (drop_disk_anchors z origin disk_guid w).0
      × P (drop_disk_anchors z origin disk_guid w).2
unfolding drop_disk_anchors
drop_disk_anchors-accounts z P origin disk_guid w keep h = (
  λ n. (disk_anchors→IsAnchor origin disk_guid n, IsAnchor→disk_anchors origin disk_guid n),
  drop_names-accounts z (disk_anchors origin disk_guid) w,
  drop_names-Keeps z P (disk_anchors origin disk_guid) w
      (λ n m. keep n (disk_anchors→IsAnchor origin disk_guid n m)) h,
)

-- A point of origin that recover restored for a drive: no run owns it, and the drive's anchor of it, of
-- the same guid, stands beside it.
pub record Restored (origin : Dict Origin) (owned : List Text) (e : Text × Text) : Type 0 where
  pub rel : Text
  pub dataset : Origin
  pub snap : Ref
  pub anchor : Ref
  pub listed : Elem (rel, dataset) origin
  pub stored : Elem snap dataset.snaps
  pub anchored : Elem anchor dataset.bookmarks
  pub target : target_of rel snap.name ≡ e.0
  pub point : is_point snap.name ≡ true
  pub not_owned : mem_text e.0 owned ≡ false
  pub same_guid : anchor.guid ≡ snap.guid
  pub named : anchor.name ≡ anchor_name e.1 snap.name

module _ (origin : Dict Origin) (owned : List Text) where
  abbrev AllRestored : Dict Text → Type 0
  AllRestored out = (e : Text × Text) → Elem e out → Restored origin owned e

  is_anchor_of-Restored :
      (rel : Text) (o : Origin) (s b : Ref)
      → Elem (rel, o) origin
      → Elem s o.snaps
      → find_first (is_anchor_of s) o.bookmarks ≡ some b
      → (not (is_point s.name) || mem_text (target_of rel s.name) owned) ≡ false
      → Restored origin owned (target_of rel s.name, anchor_disk b.name)
  is_anchor_of-Restored rel o s b at m found free =
      let f = find_first-eq-some (is_anchor_of s) b o.bookmarks found in
      let is : is_anchor_of s b ≡ true = f.1 in
      record {
        rel = rel;
        dataset = o;
        snap = s;
        anchor = b;
        listed = at;
        stored = m;
        anchored = f.0;
        target = refl;
        point = ground arith;
        not_owned = ground arith;
        same_guid = text_eq→eq b.guid s.guid (unfold is_anchor_of in ground arith);
        named =
            text_eq→eq b.name (anchor_name (anchor_disk b.name) s.name)
              (unfold is_anchor_of in ground arith);
      }

  AllRestored-restored_in :
      (rel : Text) (o : Origin) (snaps : List Ref) (out : Dict Text)
      → Elem (rel, o) origin
      → ((s : Ref) → Elem s snaps → Elem s o.snaps)
      → AllRestored out
      → AllRestored (restored_in owned rel o snaps out)
  unfolding restored_in
  AllRestored-restored_in rel o [] out at sub a = a
  AllRestored-restored_in rel o (s ∷ snaps) out at sub a =
      let sub' : (t : Ref) → Elem t snaps → Elem t o.snaps = λ t m. sub t (inr m) in
      elim (Bool-cases (not (is_point s.name) || mem_text (target_of rel s.name) owned)) [
        | inl t ↦ rw (t, restored_in) (AllRestored-restored_in rel o snaps out at sub' a)
        | inr t ↦ elim (Option-cases (find_first (is_anchor_of s) o.bookmarks)) [
          | inl e ↦ rw (t, e, restored_in) (AllRestored-restored_in rel o snaps out at sub' a)
          | inr (b, e) ↦
              rw (t, e, restored_in)
                (AllRestored-restored_in rel o snaps _ at sub' λ x m. elim (elem-put x _ _ out m) [
                  | inl same ↦
                      subst (Restored origin owned) same
                        (is_anchor_of-Restored rel o s b at (sub s (inl refl)) e t)
                  | inr k ↦ a x k
                ])
        ]
      ]

  AllRestored-restored_from :
      (items : Dict Origin) (out : Dict Text)
      → ((e : Text × Origin) → Elem e items → Elem e origin)
      → AllRestored out
      → AllRestored (restored_from owned items out)
  unfolding restored_from
  AllRestored-restored_from [] out sub a = a
  AllRestored-restored_from ((rel, o) ∷ items) out sub a =
      AllRestored-restored_from items _ (λ e m. sub e (inr m))
        (AllRestored-restored_in rel o o.snaps out (sub (rel, o) (inl refl)) (λ t m. m) a)

-- Every point that is taken as restored is a backup point of origin that no run owns, and the dataset
-- holds a bookmark of the same guid named as the anchor, of the drive that is given, for that point.
pub restored_points-Restored :
    (origin : Dict Origin) (owned : List Text) (target guid : Text)
    → Elem (target, guid) (restored_points origin owned)
    → Restored origin owned (target, guid)
unfolding restored_points sorted_items
restored_points-Restored origin owned target guid m =
    AllRestored-restored_from origin owned (sorted_items origin) []
      (λ e k. (elem-sort_by_iff item_le e origin).0 k) (λ e k. elim k [ ]) (target, guid) m
