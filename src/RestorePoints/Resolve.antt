-- ===== src/RestorePoints/Resolve.antt =====
-- lib/restore_points.py: `resolve`, the snapshot of each dataset for a chosen point.
pub mod Outcome
use zark.Base.{
  ℕ, Bool, true, false, not, ◌&&◌, Option, none, some, List, [], ◌∷◌, map, ltb, leb, ◌==◌,
  if◌then◌else◌, select, any, max_by, Dict, get_or, put, keys, Text, text_eq, mem_text,
}
use zark.RestorePoints.Model.{last_creation, end_of, is_point_snap, Snap, Point}
use zark.RestorePoints.Cluster.{by_name}

-- `(s.creation, s.createtxg)`
unfoldable pub age_le : Snap → Snap → Bool
age_le a b =
    if ltb a.creation b.creation
    then true
    else a.creation == b.creation && leb a.createtxg b.createtxg

unfoldable pub newest_snap : List Snap → Option Snap
newest_snap snaps = max_by age_le snaps

-- `next(iter(point.members.values()))[0].name`
unfoldable pub point_name : Point → Text
point_name p = elim p.members [ [] ↦ [] | e ∷ rest ↦ elim e.1 [ [] ↦ [] | s ∷ more ↦ s.name ] ]

-- A complete backup point at or before the chosen one: its time, and the datasets it holds.
pub record Backup : Type 0 where
  pub time : ℕ
  pub held : List Text

-- `complete is None or point_name(bp) in complete`
unfoldable pub counts : Option (List Text) → Point → Bool
counts complete p = elim complete [ none ↦ true | some names ↦ mem_text (point_name p) names ]

unfoldable pub backups_of : List Snap → ℕ → Option (List Text) → List Backup
backups_of snaps end complete =
    map (λ bp. record { time = end_of bp; held = keys bp.members })
      (select (λ bp. leb (end_of bp) end && counts complete bp)
        (by_name (select is_point_snap snaps)))

-- what `ended` asks of one backup point
unfoldable pub lacks : Text → ℕ → Backup → Bool
lacks ds last b = leb last b.time && not (mem_text ds b.held)

unfoldable pub ended : List Snap → List Backup → Bool
ended [] backups = false
ended (s ∷ mine) backups = any (lacks s.dataset (last_creation (s ∷ mine))) backups

-- a dataset that is not in the run
unfoldable pub resolve_absent : List Snap → ℕ → List Backup → Text → Option Snap
resolve_absent snaps end backups ds =
    let mine = select (λ s. text_eq s.dataset ds) snaps in
    if ended mine backups then none else newest_snap (select (λ s. leb s.creation end) mine)

unfoldable pub resolve_one : Point → List Snap → List Backup → Text → Option Snap
resolve_one p snaps backups ds = elim (get_or [] ds p.members) [
  | [] ↦ resolve_absent snaps (end_of p) backups ds
  | s ∷ own ↦ newest_snap (s ∷ own)
]

unfoldable pub resolve_from :
    Point → List Snap → List Backup → List Text → Dict (Option Snap) → Dict (Option Snap)
resolve_from p snaps backups [] out = out
resolve_from p snaps backups (ds ∷ datasets) out =
    resolve_from p snaps backups datasets (put ds (resolve_one p snaps backups ds) out)

unfoldable pub resolve : Point → List Snap → List Text → Option (List Text) → Dict (Option Snap)
resolve p snaps datasets complete =
    resolve_from p snaps (backups_of snaps (end_of p) complete) datasets []
