-- ===== src/Exclusions/Held/Destroy.antt =====
-- lib/exclusions.py: what a run records on the drive, and the destroy of a drive's copy of an excluded
-- subtree, over the commands.
use zark.Base.{
  Bool, true, false, ◌&&◌, Option, none, some, List, [], ◌∷◌, ◌++◌, map, ltb, ◌==◌, if◌then◌else◌,
  length, Dict, get, values, Text, codes, text_eq,
}
use zark.Replication.Names.{anchor_disk}
use zark.Replication.Model.{Ref, Origin}
use zark.Reclaim.Measure.{in_pool}
use zark.Dependents.{DestroyTree, destroy_dependents, DestroyPlan}
use zark.Anchors.{bookmark_of}
use zark.RestorePoints.Model.{Snap}
use zark.Exclusions.{flags, subtree}
use zark.Exclusions.Json.{Loads, Json}
use zark.Exclusions.Record.{max_parts, parts_needed, record_props}
use zark.Exclusions.Held.{rewrites, Rewrite}

abbrev pub complete_prop : Text
complete_prop = codes "org.zark:point-complete"

abbrev pub kept_prop : Text
kept_prop = codes "org.zark:excluded-kept"

-- The commands, over a state of theirs, with whether they succeed: `zfs set` of properties on names,
-- `zfs destroy -r` of a dataset and `zfs destroy` of a bookmark.
pub record Writes (S : Type 0) : Type 0 where
  pub set_props : Dict Text → List Text → S → Bool × S
  pub destroy_tree : DestroyTree S
  pub destroy_bookmark : Text → S → Bool × S

module _ {S : Type 0} (z : Writes S) where
  -- `record`
  unfoldable pub record_mark :
      (Text → Text) → Text → Text → List Text → Text → Dict Text → S → Bool × S
  record_mark digest pool point [] mark extra w = (true, w)
  record_mark digest pool point (rel ∷ rels) mark extra w =
      z.set_props (record_props digest mark ++ extra)
        (map (λ r. in_pool pool r ++ (b'@' ∷ point)) (rel ∷ rels)) w

  unfoldable pub keep_held : Text → Text → Text → S → Bool × S
  keep_held pool top stamp w =
      z.set_props ((kept_prop, codes "kept@" ++ stamp) ∷ []) (in_pool pool top ∷ []) w

  -- `_rewrite`
  unfoldable pub rewrite : (Text → Text) → Rewrite → S → Bool × S
  rewrite digest rw w =
      if ltb max_parts (parts_needed rw.mark)
      then (false, w)
      else z.set_props ((complete_prop, rw.complete) ∷ record_props digest rw.mark) rw.targets w

  -- every one is run, whatever came of the others
  unfoldable pub rewrite_all : (Text → Text) → Dict Rewrite → S → Bool × S
  rewrite_all digest [] w = (true, w)
  rewrite_all digest ((name, rw) ∷ more) w =
      let out = rewrite digest rw w in
      let rest = rewrite_all digest more out.1 in (out.0 && rest.0, rest.1)

  unfoldable pub drop_bookmarks : Text → Text → List Ref → S → Bool × S
  drop_bookmarks disk_guid rel [] w = (true, w)
  drop_bookmarks disk_guid rel (b ∷ bookmarks) w =
      let out =
        if text_eq (anchor_disk b.name) disk_guid
        then z.destroy_bookmark (bookmark_of rel b.name) w
        else (true, w) in
      let rest = drop_bookmarks disk_guid rel bookmarks out.1 in (out.0 && rest.0, rest.1)

  unfoldable pub drop_in : Text → Dict Origin → List Text → S → Bool × S
  drop_in disk_guid origin [] w = (true, w)
  drop_in disk_guid origin (rel ∷ rels) w =
      let out : Bool × S = elim (get rel origin) [
        | none ↦ (true, w)
        | some o ↦ drop_bookmarks disk_guid rel o.bookmarks w
      ] in
      let rest = drop_in disk_guid origin rels out.1 in (out.0 && rest.0, rest.1)

  -- `_drop_anchors`
  unfoldable pub drop_anchors : Text → Text → Dict Origin → S → Bool × S
  drop_anchors top disk_guid origin w = drop_in disk_guid origin (subtree top origin) w

  -- what went, whether everything did, and the state behind it
  unfoldable pub destroy_copies : Text → Text → DestroyPlan → S → List Text × Bool × S
  destroy_copies pool top deps w =
      let out = destroy_dependents z.destroy_tree pool deps w in
      let whole = z.destroy_tree (in_pool pool top) out.2 in
      let last : List Text × Bool × S =
        if whole.0 then (out.0 ++ (top ∷ []), true, whole.1) else (out.0, false, whole.1) in
      if out.1 then last else out

  unfoldable pub settle :
      (Text → Text) → Text → Text → Dict Origin → Bool → Dict Rewrite → S → Bool × S
  settle digest top disk_guid origin ok rws w =
      let done = rewrite_all digest rws w in
      let dropped = drop_anchors top disk_guid origin done.1 in
      if ok then (dropped.0 && done.0, dropped.1) else (false, done.1)

  -- The part of `destroy_held` that writes. The second call of `_rewrites` may raise a ValueError, which
  -- nothing catches: the answer is none then.
  unfoldable pub destroy_known :
      Loads
      → (Json → Text)
      → (Text → Text)
      → Text
      → Text
      → Text
      → Text
      → Dict Origin
      → DestroyPlan
      → List Snap
      → Dict (Option Text)
      → Dict (Text × Text)
      → S
      → Option Bool × S
  destroy_known loads shown digest pool top flags disk_guid origin deps snaps records values w =
      let out = destroy_copies pool top deps w in
      let again = rewrites loads shown pool top flags snaps records out.0 values in
      let stop : Option Bool × S = elim again [
        | none ↦ (none, out.2)
        | some rws ↦
            let done = settle digest top disk_guid origin out.1 rws out.2 in (some done.0, done.1)
      ] in
      if length out.0 == 0 then (some false, out.2) else stop

  -- `destroy_held`, of the snapshots and the records of the drive, none where they cannot be read; `deps`
  -- has no dependents where it is not given
  unfoldable pub destroy_held :
      Loads
      → (Json → Text)
      → (Text → Text)
      → Text
      → Text
      → Text
      → Text
      → Dict Origin
      → DestroyPlan
      → Option (List Snap)
      → Option (Dict (Option Text))
      → Dict (Text × Text)
      → S
      → Option Bool × S
  destroy_held loads shown digest pool top flags disk_guid origin deps (some snaps) (some records)
        values w =
      elim (rewrites loads shown pool top flags snaps records (top ∷ map (λ d. d.rel) deps.order)
        values) [
          | none ↦ (some false, w)
          | some rws ↦
              destroy_known loads shown digest pool top flags disk_guid origin deps snaps records
                values w
        ]
  destroy_held loads shown digest pool top flags disk_guid origin deps _ _ values w =
      (some false, w)
