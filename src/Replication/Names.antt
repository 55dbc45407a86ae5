-- ===== src/Replication/Names.antt =====
-- lib/replication.py: the names of backup points, anchors and datasets.
pub mod Anchors
pub mod Archive
pub mod Stamped
use zark.Base.{
  ℕ, zero, suc, ◌/◌, Bool, true, false, not, ◌&&◌, ◌||◌, Option, none, some, List, [], ◌∷◌, ◌++◌,
  ◌==◌, if◌then◌else◌, length, select, any, find_first, Text, codes, text_eq, starts_with,
  has_infix, mem_text, before, split, is_digit, decimal,
}

-- `name[len(prefix):]` of a name that starts with `prefix`
unfoldable pub strip_prefix : Text → Text → Option Text
strip_prefix [] s = some s
strip_prefix (c ∷ p) [] = none
strip_prefix (c ∷ p) (d ∷ s) = let rest = strip_prefix p s in if c == d then rest else none

abbrev pub point_prefix : Text
point_prefix = codes "zark_"

-- `_STAMP`, with `0` for each `\d`
abbrev pub stamp_shape : Text
stamp_shape = codes "0000-00-00_00:00:00Z"

-- one character against one of the shape
unfoldable pub fits : ℕ → ℕ → Bool
fits c d = if c == b'0' then is_digit d else c == d

unfoldable pub matches : Text → Text → Bool
matches [] [] = true
matches [] (d ∷ s) = false
matches (c ∷ p) [] = false
matches (c ∷ p) (d ∷ s) = fits c d && matches p s

-- what stands behind the prefix is a stamp
abbrev pub is_stamp_rest : Option Text → Bool
is_stamp_rest none = false
is_stamp_rest (some s) = matches stamp_shape s

-- `POINT_RE.match(name)`
unfoldable pub is_point : Text → Bool
is_point name = is_stamp_rest (strip_prefix point_prefix name)

-- The digits that a text begins with, and what stands behind them.
unfoldable pub leading_digits : Text → Text
leading_digits [] = []
leading_digits (c ∷ s) = let rest = leading_digits s in if is_digit c then c ∷ rest else []

unfoldable pub behind_digits : Text → Text
behind_digits [] = []
behind_digits (c ∷ s) = let rest = behind_digits s in if is_digit c then rest else c ∷ s

-- group 1 of `(\d+)_(STAMP)$`, "" where it does not match
unfoldable pub disk_of : Text → Text
disk_of s = elim (behind_digits s) [
  | [] ↦ []
  | c ∷ stamp ↦ if c == b'_' && matches stamp_shape stamp then leading_digits s else []
]

abbrev pub disk_of_rest : Option Text → Text
disk_of_rest none = []
disk_of_rest (some s) = disk_of s

-- The pool GUID that an anchor belongs to, "" of a name that is no anchor.
unfoldable pub anchor_disk : Text → Text
anchor_disk name = disk_of_rest (strip_prefix point_prefix name)

-- `s[n:]`
unfoldable pub drop : ℕ → Text → Text
drop zero s = s
drop (suc n) [] = []
drop (suc n) (c ∷ s) = drop n s

unfoldable pub anchor_name : Text → Text → Text
anchor_name disk_guid point = point_prefix ++ (disk_guid ++ (b'_' ∷ drop 5 point))

-- `rel == top or rel.startswith(f"{top}/")`
unfoldable pub is_under : Text → Text → Bool
is_under rel top = text_eq rel top || starts_with (top ++ b'/' ∷ []) rel

unfoldable pub is_bpool : Text → Bool
is_bpool rel = is_under rel (codes "bpool")

-- `s.rsplit(c, 1)[0]` of a text that holds `c`
unfoldable pub before_last : ℕ → Text → Option Text
before_last c [] = none
before_last c (d ∷ s) = elim (before_last c s) [
  | some r ↦ some (d ∷ r)
  | none ↦ if c == d then some [] else none
]

unfoldable pub parent : Text → Text
parent rel = elim (before_last b'/' rel) [ some r ↦ r | none ↦ [] ]

abbrev pub archive_mark : Text
archive_mark = codes ".archived-"

unfoldable pub is_archived : Text → Bool
is_archived rel = any (has_infix archive_mark) (split b'/' rel)

abbrev pub keystore : Text
keystore = codes "rpool/keystore"

abbrev pub structural : List Text
structural =
    codes "rpool"
    ∷ codes "rpool/ROOT"
    ∷ codes "rpool/USERDATA"
    ∷ codes "bpool"
    ∷ codes "bpool/BOOT"
    ∷ []

-- `s.endswith(p)`
unfoldable pub ends_with : Text → Text → Bool
ends_with p [] = text_eq p []
ends_with p (c ∷ s) = text_eq p (c ∷ s) || ends_with p s

abbrev pub sanoid_types : List Text
sanoid_types =
    codes "frequently"
    ∷ codes "hourly"
    ∷ codes "daily"
    ∷ codes "weekly"
    ∷ codes "monthly"
    ∷ codes "yearly"
    ∷ []

-- `.+_TYPE$` against what stands behind `autosnap_`: at least one character before `_TYPE`
unfoldable pub has_type : Text → Text → Bool
has_type s type = elim s [ [] ↦ false | c ∷ rest ↦ ends_with (b'_' ∷ type) rest ]

unfoldable pub sanoid_type : Text → Option Text
sanoid_type name = elim (strip_prefix (codes "autosnap_") name) [
  | none ↦ none
  | some s ↦ find_first (has_type s) sanoid_types
]

unfoldable pub shared_kind : Text → Text
shared_kind name = elim (sanoid_type name) [
  | some type ↦ type
  | none ↦ if starts_with (codes "syncoid_") name then codes "syncoid" else []
]

unfoldable pub old_anchors : List Text → Text → Text → List Text
old_anchors names disk_guid keep =
    select (λ n. text_eq (anchor_disk n) disk_guid && not (text_eq n keep)) names

-- `archive_name`, for the day written `YYYYMMDD`: `base-2`, `base-3`, ... while the name is taken.
-- `none` where the fuel runs out.
unfoldable pub archive_go : ℕ → Text → List Text → ℕ → Text → Option Text
archive_go zero base taken n name = none
archive_go (suc f) base taken n name =
    let next = archive_go f base taken (suc n) (base ++ (b'-' ∷ decimal (suc n))) in
    if mem_text name taken then next else some name

unfoldable pub archive_name : Text → List Text → Text → Option Text
archive_name rel taken day =
    let base = rel ++ (archive_mark ++ day) in archive_go (suc (length taken)) base taken 1 base
