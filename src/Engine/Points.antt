-- ===== src/Engine/Points.antt =====
-- lib/engine.py: the anchors that a run makes in origin, what it drops there, and the undo of its point.
pub mod Anchoring
pub mod Untimed
pub mod Undone
use zark.Base.{
  ℕ, suc, Bool, true, false, not, ◌&&◌, ◌||◌, Option, none, some, List, [], ◌∷◌, ◌++◌,
  if◌then◌else◌, is_some, select, any, find_first, Dict, get, has_key, Text, text_eq, mem_text,
}
use zark.Replication.Names.{anchor_disk, drop, anchor_name, is_bpool}
use zark.Replication.Names.Stamped.{point_name}
use zark.Replication.Model.{snap_by_guid, newest, Ref, Origin, Dest}
use zark.Replication.Plan.{expected}
use zark.Retention.Prune.{target_of}
use zark.Anchors.{Commands, bookmark_of, anchor_point, release_point}
use zark.Engine.Model.{exec, look_origin, look_dest, Event, Read, Env, Config, Run, Verdict}
use zark.Engine.Sends.{is_nonempty}
use zark.Engine.Verdicts.{guids_of, is_partial}

-- the commands of lib/anchors.py, as the run gives them
unfoldable pub origin_commands : Env → Commands Run
origin_commands env = record {
  rename = λ a b r. exec env (Event.rename a b) r;
  bookmark = λ a b r. exec env (Event.bookmark a b) r;
  destroy = λ a r. exec env (Event.destroy a) r;
  guids = λ a b r. env.guids a b r.trace;
}

unfoldable pub anchor_again : Env → Config → Text → Run → List Text × Run
anchor_again env c rel r =
    let out =
      anchor_point (origin_commands env) rel c.point c.disk_guid (exec env Event.sleep r).1 in
    (if out.0 then [] else rel ∷ [], out.1)

-- A failed anchor is tried once more.
unfoldable pub anchor_one : Env → Config → Text → Run → List Text × Run
anchor_one env c rel r =
    let out = anchor_point (origin_commands env) rel c.point c.disk_guid r in
    if not (has_key rel r.origin)
    then ([], r)
    else if out.0
    then ([], out.1)
    else anchor_again env c rel out.1

unfoldable pub anchor : Env → Config → List Text → Run → List Text × Run
anchor env c [] r = ([], r)
anchor env c (rel ∷ rels) r =
    let one = anchor_one env c rel r in
    let rest = anchor env c rels one.1 in (one.0 ++ rest.0, rest.1)

-- an anchor of this drive marks the snapshot already, or has the name
unfoldable pub has_anchor : Config → Origin → Ref → Text → Bool
has_anchor c o s name =
    any
      (λ (b : Ref).
        text_eq (anchor_disk b.name) c.disk_guid && (text_eq b.guid s.guid || text_eq b.name name))
      o.bookmarks

-- the snapshot of origin to anchor: the drive's newest, where origin has it and no anchor of the drive
-- marks it
unfoldable pub held_snap : Config → Text → Origin → Option Dest → Option Ref
held_snap c rel o d = elim d [
  | none ↦ none
  | some d' ↦ elim (newest d') [
    | none ↦ none
    | some top ↦ if is_bpool rel then none else snap_by_guid o top.guid
  ]
]

unfoldable pub hold_one : Env → Config → Dict Origin → Dict Dest → Text → Run → List Text × Run
hold_one env c origin dest rel r = elim (get rel origin) [
  | none ↦ ([], r)
  | some o ↦ elim (held_snap c rel o (get rel dest)) [
    | none ↦ ([], r)
    | some s ↦
        let name = anchor_name c.disk_guid (point_name s.creation) in
        let out = exec env (Event.bookmark (target_of rel s.name) (bookmark_of rel name)) r in
        if has_anchor c o s name then ([], r) else (if out.0 then rel ∷ [] else [], out.1)
  ]
]

unfoldable pub hold_all : Env → Config → Dict Origin → Dict Dest → List Text → Run → List Text × Run
hold_all env c origin dest [] r = ([], r)
hold_all env c origin dest (rel ∷ rels) r =
    let one = hold_one env c origin dest rel r in
    let rest = hold_all env c origin dest rels one.1 in (one.0 ++ rest.0, rest.1)

unfoldable pub hold_reads :
    Env → Config → Read (Dict Origin) → Read (Dict Dest) → Run → List Text × Run
hold_reads env c (Read.given origin) (Read.given dest) r =
    hold_all env c origin dest (expected origin c.exclusions) r
hold_reads env c (Read.given origin) (Read.error m) r = ([], r)
hold_reads env c (Read.error m) dest r = ([], r)

unfoldable pub anchor_held : Env → Config → Run → List Text × Run
anchor_held env c r =
    let o = look_origin env r in let d = look_dest env o.1 in hold_reads env c o.0 d.0 d.1

unfoldable pub drop_one : Env → Verdict → Run → Bool × Run
drop_one env v r =
    if not v.drop
    then (false, r)
    else if is_nonempty v.owner
    then release_point (origin_commands env) v.target v.owner r
    else exec env (Event.destroy v.target) r

-- how many went
unfoldable pub drop_all : Env → List Verdict → Run → ℕ × Run
drop_all env [] r = (0, r)
drop_all env (v ∷ verdicts) r =
    let one = drop_one env v r in
    let rest = drop_all env verdicts one.1 in (if one.0 then suc rest.0 else rest.0, rest.1)

-- What `undo_point` finds of a dataset: the drive holds the point, or why the point stays.
unfoldable pub own_point : Config → Origin → Option Ref
own_point c o = find_first (λ s. text_eq s.name c.point) o.snaps

unfoldable pub holds_point : Config → Origin → Option Dest → Bool
holds_point c o d = elim (own_point c o) [ none ↦ false | some s ↦ mem_text s.guid (guids_of d) ]

unfoldable pub is_at : Config → Dict Origin → Dict Dest → Text → Bool
is_at c origin dest rel = elim (get rel origin) [
  | none ↦ false
  | some o ↦ not (is_partial (get rel dest)) && holds_point c o (get rel dest)
]

-- where the point exists: everywhere, when origin cannot be listed
unfoldable pub is_present : Config → Read (Dict Origin) → Text → Bool
is_present c (Read.error m) rel = true
is_present c (Read.given origin) rel = elim (get rel origin) [
  | none ↦ false
  | some o ↦ is_some (own_point c o)
]

-- the last loop of `undo_point`: `gone` and `kept` are tests on the datasets
unfoldable pub remove_points : Env → Config → (Text → Bool) → (Text → Bool) → List Text → Run → Run
remove_points env c gone kept [] r = r
remove_points env c gone kept (rel ∷ rels) r =
    remove_points env c gone kept rels
      (if gone rel || kept rel then r else (exec env (Event.destroy (target_of rel c.point)) r).1)

unfoldable pub undo_rest : Env → Config → (Text → Bool) → (Text → Bool) → Run → Run
undo_rest env c gone kept r =
    let o = look_origin env r in
    remove_points env c (λ rel. gone rel || not (is_present c o.0 rel)) kept
      (expected r.origin c.exclusions) o.1

-- with the drive read: `dest` is what it holds
unfoldable pub undo_read : Env → Config → Dict Dest → Run → Run
undo_read env c dest r =
    let at_point = select (is_at c r.origin dest) (expected r.origin c.exclusions) in
    let made = anchor env c at_point r in
    let held = anchor_held env c made.1 in
    undo_rest env c (λ rel. mem_text rel at_point && (is_bpool rel && not (mem_text rel made.0)))
      (λ rel. is_partial (get rel dest) || mem_text rel made.0) held.1

-- `undo_point`, less the call of `resume_sanoid` at its end
unfoldable pub undo_point : Env → Config → Run → Run
undo_point env c r =
    let d = look_dest env r in
    elim d.0 [
      | Read.error m ↦ undo_rest env c (λ rel. false) (λ rel. mem_text rel r.started) d.1
      | Read.given dest ↦ undo_read env c dest d.1
    ]
