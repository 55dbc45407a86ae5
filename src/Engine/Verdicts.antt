-- ===== src/Engine/Verdicts.antt =====
-- lib/engine.py: `drop_check`, what may go from origin after a run.
pub mod Safe
use zark.Base.{
  Bool, true, false, not, ◌&&◌, ◌||◌, Option, none, some, List, [], ◌++◌, map, if◌then◌else◌,
  select, all, find_first, flat_map, sort_by, Dict, get, get_or, has_key, keys, Text, codes,
  text_eq, text_le, mem_text,
}
use zark.Replication.Names.{is_point, drop, anchor_name, is_bpool, old_anchors}
use zark.Replication.Model.{Ref, Origin, Dest}
use zark.Replication.Plan.{is_excluded, expected}
use zark.Retention.Prune.{sorted_items, target_of}
use zark.Anchors.{bookmark_of}
use zark.Engine.Model.{look_origin, look_dest, look_owners, Read, Env, Config, Run, Verdict}
use zark.Engine.Sends.{is_nonempty}

unfoldable pub verdict : Text → Bool → Text → Text → Verdict
verdict target drop reason owner = record {
  target = target;
  drop = drop;
  reason = reason;
  owner = owner;
}

unfoldable pub guids_of : Option Dest → List Text
guids_of none = []
guids_of (some d) = map (λ (s : Ref). s.guid) d.snaps

unfoldable pub is_partial : Option Dest → Bool
is_partial none = false
is_partial (some d) = is_nonempty d.token

-- `o.snaps if is_bpool(rel) else o.bookmarks`
unfoldable pub anchors_of : Text → Origin → List Ref
anchors_of rel o = if is_bpool rel then o.snaps else o.bookmarks

-- The run's anchor is there, and what it marks is on the backup, by guid.
unfoldable pub is_verified : Config → Text → Origin → Option Dest → Bool
is_verified c rel o d =
    elim (find_first (λ a. text_eq a.name (anchor_name c.disk_guid c.point)) (anchors_of rel o)) [
      | none ↦ false
      | some a ↦ mem_text a.guid (guids_of d)
    ]

-- what all the verdicts on one dataset read
pub record Seen : Type 0 where
  pub rel : Text
  pub origin : Origin
  pub dest : Option Dest
  pub wanted : Bool
  pub excluded : Bool

-- the drive that a point was left for, unless it is this run's own point or `mine`
unfoldable pub other_owner : Config → Dict Text → Text → Text → Ref → Text
other_owner c owners mine target s =
    let owner = get_or [] target owners in
    if text_eq owner mine || text_eq s.name c.point then [] else owner

unfoldable pub verified_reason : Config → Seen → Text → Ref → Text
verified_reason c x other s =
    if not (text_eq s.name c.point) && not (mem_text s.guid (guids_of x.dest))
    then codes "not on "
      ++ (c.pool ++ (if is_nonempty other then [] else codes "; it names no drive"))
    else codes "on the backup, anchored as " ++ anchor_name c.disk_guid c.point

unfoldable pub point_verdict : Config → Dict Text → Seen → Ref → Verdict
point_verdict c owners x s =
    let target = target_of x.rel s.name in
    let other = other_owner c owners c.disk_guid target s in
    if not x.wanted
    then verdict target true (codes "dataset not replicated") (other_owner c owners [] target s)
    else if is_partial x.dest
    then verdict target false (codes "partial receive to resume") []
    else if text_eq s.name c.point && not (mem_text s.guid (guids_of x.dest))
    then verdict target true (codes "not on the backup, nothing to resume") []
    else if is_verified c x.rel x.origin x.dest
    then verdict target true (verified_reason c x other s) other
    else verdict target false (codes "may be the base of the next run") []

unfoldable pub anchor_target : Text → Text → Text
anchor_target rel name = if is_bpool rel then target_of rel name else bookmark_of rel name

unfoldable pub anchor_verdict : Config → Seen → Text → Verdict
anchor_verdict c x name =
    let target = anchor_target x.rel name in
    if not x.wanted && x.excluded
    then verdict target false (codes "the base if " ++ (x.rel ++ codes " is included again")) []
    else if is_verified c x.rel x.origin x.dest
    then verdict target true (codes "superseded by " ++ anchor_name c.disk_guid c.point) []
    else verdict target false (codes "new anchor not verified") []

unfoldable pub verdicts_on : Config → Dict Text → Seen → List Verdict
verdicts_on c owners x =
    map (point_verdict c owners x) (select (λ (s : Ref). is_point s.name) x.origin.snaps)
    ++ map (anchor_verdict c x) (
        old_anchors (map (λ (a : Ref). a.name) (anchors_of x.rel x.origin)) c.disk_guid
          (anchor_name c.disk_guid c.point))

unfoldable pub seen_of : Config → Dict Origin → Dict Dest → Text × Origin → Seen
seen_of c origin dest e = record {
  rel = e.0;
  origin = e.1;
  dest = get e.0 dest;
  wanted = mem_text e.0 (expected origin c.exclusions);
  excluded = is_excluded e.0 c.exclusions;
}

unfoldable pub all_verdicts : Config → Dict Origin → Dict Dest → Dict Text → List Verdict
all_verdicts c origin dest owners =
    flat_map (λ e. verdicts_on c owners (seen_of c origin dest e)) (sorted_items origin)

-- a dataset of the last survey that a fresh read of the drive lacks
unfoldable pub gone_from : Run → Dict Dest → Option Text
gone_from r dest = find_first (λ rel. not (has_key rel dest)) (sort_by text_le (keys r.dest))

unfoldable pub check_reads :
    Config → Run → Read (Dict Origin) → Read (Dict Dest) → Read (Dict Text) → List Verdict
check_reads c r (Read.given origin) (Read.given dest) (Read.given owners) =
    elim (gone_from r dest) [ none ↦ all_verdicts c origin dest owners | some rel ↦ [] ]
check_reads c r (Read.given origin) (Read.given dest) (Read.error m) = []
check_reads c r (Read.given origin) (Read.error m) owners = []
check_reads c r (Read.error m) dest owners = []

-- Nothing goes where a read fails.
unfoldable pub drop_check : Env → Config → Run → List Verdict × Run
drop_check env c r =
    let o = look_origin env r in
    let d = look_dest env o.1 in let w = look_owners env d.1 in (check_reads c r o.0 d.0 w.0, w.1)
