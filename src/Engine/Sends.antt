-- ===== src/Engine/Sends.antt =====
-- lib/engine.py: `_send_args`, the streams that a dataset's plan needs.
pub mod Chain
use zark.Base.{
  Bool, true, false, not, ◌&&◌, ◌||◌, Option, none, some, List, [], ◌∷◌, ◌++◌, ltb, if◌then◌else◌,
  select, find_first, Dict, get, Text, text_eq, starts_with, after,
}
use zark.Replication.Names.{drop, is_bpool}
use zark.Replication.Model.{is_resume, is_new, Ref, Origin, Dest, State, DatasetPlan}
use zark.Retention.Prune.{target_of}
use zark.Engine.Model.{Stream, Config, Run}

-- First origin snapshot after a bookmark (the point at worst).
unfoldable pub later_than : Option Ref → List Ref → List Ref
later_than none snaps = snaps
later_than (some bm) snaps = select (λ s. ltb bm.createtxg s.createtxg) snaps

unfoldable pub after_bookmark : Config → Dict Origin → Text → Text → Text
after_bookmark c origin rel name = elim (get rel origin) [
  | none ↦ target_of rel c.point
  | some o ↦ elim (later_than (find_first (λ b. text_eq b.name name) o.bookmarks) o.snaps) [
    | [] ↦ target_of rel c.point
    | s ∷ snaps ↦ target_of rel s.name
  ]
]

unfoldable pub is_nonempty : Text → Bool
is_nonempty [] = false
is_nonempty (x ∷ s) = true

-- the streams from a bookmark, by way of the snapshot behind it
unfoldable pub bookmark_streams : Config → Dict Origin → DatasetPlan → List Stream
bookmark_streams c origin p =
    let pt = target_of p.rel c.point in
    let first =
      if is_nonempty p.first
      then p.rel ++ p.first
      else after_bookmark c origin p.rel (drop 1 p.base) in
    Stream.from_bookmark (p.rel ++ p.base) first
    ∷ (if text_eq first pt then [] else Stream.since true first pt ∷ [])

-- `p.state in (INCREMENTAL, ROLLBACK, MODIFIED)`
abbrev pub is_linear : State → Bool
is_linear State.incremental = true
is_linear State.rollback = true
is_linear State.modified = true
is_linear _ = false

abbrev pub is_whole : State → Bool
is_whole State.new = true
is_whole State.diverged = true
is_whole _ = false

abbrev pub is_via_bookmark : State → Bool
is_via_bookmark State.via_bookmark = true
is_via_bookmark _ = false

unfoldable pub token_of : Text → Dict Dest → Text
token_of rel dest = elim (get rel dest) [ none ↦ [] | some d ↦ d.token ]

-- `full` sends the whole dataset whatever the state
unfoldable pub send_args : Config → Run → DatasetPlan → Bool → List Stream
send_args c r p full =
    let pt = target_of p.rel c.point in
    let raw = not (is_bpool p.rel) in
    if is_resume p.state
    then Stream.resumed (token_of p.rel r.dest) ∷ []
    else if is_new p.state && is_nonempty p.clone_from && not full
    then Stream.since raw p.base pt ∷ []
    else if full || is_whole p.state
    then Stream.whole raw pt ∷ []
    else if is_via_bookmark p.state || starts_with (b'#' ∷ []) p.base
    then bookmark_streams c r.origin p
    else if is_linear p.state && is_nonempty p.base
    then Stream.since raw (p.rel ++ p.base) pt ∷ []
    else []
