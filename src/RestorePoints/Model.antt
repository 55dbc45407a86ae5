-- ===== src/RestorePoints/Model.antt =====
-- lib/restore_points.py: snapshots, points, and the names they are grouped by.
pub mod Logical
use zark.Base.{
  ℕ, max, min, Bool, false, not, List, [], ◌∷◌, ◌==◌, if◌then◌else◌, flat_map, Dict, Text,
  starts_with, is_digit,
}
use zark.Replication.Names.{is_point, archive_mark}

-- `_ARCHIVED.sub("", rel)`: `dropping` is set between a mark and the next `/`
unfoldable pub logical_go : Bool → Text → Text
logical_go dropping [] = []
logical_go dropping (c ∷ s) =
    let gone = if dropping then not (c == b'/') else starts_with archive_mark (c ∷ s) in
    let rest = logical_go gone s in if gone then rest else c ∷ rest

unfoldable pub logical : Text → Text
logical rel = logical_go false rel

pub record Snap : Type 0 where
  pub dataset : Text
  pub name : Text
  pub guid : Text
  pub createtxg : ℕ
  pub creation : ℕ
  pub source : Text
  pub mark : Text

-- `a or b` on texts
abbrev pub or_text : Text → Text → Text
or_text [] b = b
or_text (c ∷ a) b = c ∷ a

unfoldable pub stored : Snap → Text
stored s = or_text s.source s.dataset

-- `re.sub(r"\d.*$", "", name)`: the name up to its first digit
unfoldable pub up_to_digit : Text → Text
up_to_digit [] = []
up_to_digit (c ∷ s) = let rest = up_to_digit s in if is_digit c then [] else c ∷ rest

unfoldable pub family : Snap → Text
family s = or_text (up_to_digit s.name) s.name

pub record Point : Type 0 where
  pub family : Text
  pub members : Dict (List Snap)
  pub label : ℕ

-- `max(s.creation for s in snaps)` of snapshots that are there
unfoldable pub last_creation : List Snap → ℕ
last_creation [] = 0
last_creation (s ∷ snaps) = max s.creation (last_creation snaps)

unfoldable pub first_creation : Snap → List Snap → ℕ
first_creation s [] = s.creation
first_creation s (t ∷ snaps) = min s.creation (first_creation t snaps)

unfoldable pub members_of : Point → List Snap
members_of p = flat_map (λ e. e.1) p.members

unfoldable pub end_of : Point → ℕ
end_of p = last_creation (members_of p)

unfoldable pub is_point_snap : Snap → Bool
is_point_snap s = is_point s.name
