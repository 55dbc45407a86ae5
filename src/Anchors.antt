-- ===== src/Anchors.antt =====
-- lib/anchors.py: a drive's anchors in origin, and the backup points that runs left there.
pub mod Owned
mod Tests
use zark.Base.{
  ℕ, suc, Bool, true, false, not, ◌&&◌, ◌||◌, Option, none, some, List, [], ◌∷◌, ◌++◌, map,
  if◌then◌else◌, select, all, find_first, flat_map, Dict, put, Text, text_eq, mem_text, before,
  after, is_digit,
}
use zark.Replication.Names.{is_point, anchor_disk, anchor_name, is_bpool}
use zark.Replication.Model.{Ref, Origin}
use zark.Retention.Prune.{target_of, sorted_items}

-- The commands on origin, over a state of theirs: `zfs rename`, `zfs bookmark` and `zfs destroy` with
-- whether they succeed, and the lines of `zfs get -Hp -o value guid` for two names.
pub record Commands (S : Type 0) : Type 0 where
  pub rename : Text → Text → S → Bool × S
  pub bookmark : Text → Text → S → Bool × S
  pub destroy : Text → S → Bool × S
  pub guids : Text → Text → S → Option (List Text)

abbrev pub bookmark_of : Text → Text → Text
bookmark_of rel name = rel ++ (b'#' ∷ name)

-- both guids were printed, and they are the same
unfoldable pub same_guids : Option (List Text) → Bool
same_guids (some (a ∷ b ∷ [])) = text_eq a b
same_guids _ = false

module _ {S : Type 0} (z : Commands S) where
  unfoldable pub anchor_point : Text → Text → Text → S → Bool × S
  anchor_point rel point disk_guid w =
      let keep = anchor_name disk_guid point in
      if is_bpool rel
      then z.rename (target_of rel point) (target_of rel keep) w
      else (let made = z.bookmark (target_of rel point) (bookmark_of rel keep) w in
          if made.0
          then (true, made.1)
          else (same_guids (z.guids (target_of rel point) (bookmark_of rel keep) made.1), made.1))

  unfoldable pub release_point : Text → Text → S → Bool × S
  release_point target owner w =
      let rel = before b'@' target in
      let made = anchor_point rel (after b'@' target) owner w in
      if not made.0
      then (false, made.1)
      else if is_bpool rel
      then (true, made.1)
      else z.destroy target made.1

  -- how many went, and the names that could not be destroyed
  unfoldable pub drop_names : List Text → S → ℕ × List Text × S
  drop_names [] w = (0, [], w)
  drop_names (name ∷ names) w =
      let out = z.destroy name w in
      let rest = drop_names names out.1 in
      if out.0 then (suc rest.0, rest.1, rest.2) else (rest.0, name ∷ rest.1, rest.2)

-- `point_owners`, of what `snapshot_marks` reads on each pool
unfoldable pub owners_from : Dict Text → Dict Text → Dict Text
owners_from [] out = out
owners_from ((name, value) ∷ marks) out = owners_from marks (
    if (all is_digit value && not (text_eq value [])) && is_point (after b'@' name)
    then put name value out
    else out)

unfoldable pub point_owners : List (Dict Text) → Dict Text → Dict Text
point_owners [] out = out
point_owners (marks ∷ pools) out = point_owners pools (owners_from marks out)

unfoldable pub refs_of : Origin → List Ref
refs_of o = o.bookmarks ++ o.snaps

unfoldable pub anchored_disks : Dict Origin → List Text
anchored_disks origin =
    select (λ g. not (text_eq g []))
      (flat_map (λ (e : Text × Origin). map (λ (r : Ref). anchor_disk r.name) (refs_of e.1)) origin)

unfoldable pub anchors_in : Text → Text × Origin → List Text
anchors_in disk_guid e =
    map (λ (b : Ref). bookmark_of e.0 b.name)
      (select (λ (b : Ref). text_eq (anchor_disk b.name) disk_guid) e.1.bookmarks)
    ++ map (λ (s : Ref). target_of e.0 s.name)
        (select (λ (s : Ref). text_eq (anchor_disk s.name) disk_guid) e.1.snaps)

unfoldable pub disk_anchors : Dict Origin → Text → List Text
disk_anchors origin disk_guid = flat_map (anchors_in disk_guid) (sorted_items origin)

-- `drop_disk_anchors`, of the listing that `read_origin` gives
unfoldable pub drop_disk_anchors :
    {S : Type 0} → Commands S → Dict Origin → Text → S → ℕ × List Text × S
drop_disk_anchors z origin disk_guid w = drop_names z (disk_anchors origin disk_guid) w

unfoldable pub leftover_points : Dict Origin → List Text
leftover_points origin =
    flat_map
      (λ (e : Text × Origin).
        map (λ (s : Ref). target_of e.0 s.name) (select (λ (s : Ref). is_point s.name) e.1.snaps))
      (sorted_items origin)

-- The bookmark is the anchor that recover made of the snapshot.
unfoldable pub is_anchor_of : Ref → Ref → Bool
is_anchor_of s b =
    not (text_eq (anchor_disk b.name) [])
    && (text_eq b.guid s.guid && text_eq b.name (anchor_name (anchor_disk b.name) s.name))

unfoldable pub restored_in : List Text → Text → Origin → List Ref → Dict Text → Dict Text
restored_in owned rel o [] out = out
restored_in owned rel o (s ∷ snaps) out = restored_in owned rel o snaps (
    if not (is_point s.name) || mem_text (target_of rel s.name) owned
    then out
    else elim (find_first (is_anchor_of s) o.bookmarks) [
      | none ↦ out
      | some b ↦ put (target_of rel s.name) (anchor_disk b.name) out
    ])

unfoldable pub restored_from : List Text → Dict Origin → Dict Text → Dict Text
restored_from owned [] out = out
restored_from owned ((rel, o) ∷ items) out =
    restored_from owned items (restored_in owned rel o o.snaps out)

unfoldable pub restored_points : Dict Origin → List Text → Dict Text
restored_points origin owned = restored_from owned (sorted_items origin) []
