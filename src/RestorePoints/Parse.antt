-- ===== src/RestorePoints/Parse.antt =====
-- lib/restore_points.py: `parse_snapshots`, the lines of `zfs list`.
use zark.Base.{
  ℕ, Option, none, some, List, [], ◌∷◌, ◌++◌, ◌==◌, if◌then◌else◌, all, Dict, get_or, Text, text_eq,
  before, after, has_char, split, is_digit, undecimal,
}
use zark.RestorePoints.Model.{logical, Snap}

-- `line.rstrip("\n")`
unfoldable pub rstrip_newline : Text → Text
rstrip_newline [] = []
rstrip_newline (c ∷ s) = elim (rstrip_newline s) [
  | [] ↦ if c == 10 then [] else c ∷ []
  | d ∷ t ↦ c ∷ d ∷ t
]

-- `int(s)` of the digits that ZFS prints, `none` for its ValueError
unfoldable pub int_of : Text → Option ℕ
int_of [] = none
int_of (c ∷ s) = if all is_digit (c ∷ s) then some (undecimal (c ∷ s)) else none

-- `s[len(prefix):]`, where `s` starts with `prefix`
unfoldable pub behind : Text → Text → Option Text
behind [] s = some s
behind (c ∷ p) [] = none
behind (c ∷ p) (d ∷ s) = let rest = behind p s in if c == d then rest else none

-- one dataset's snapshot, once the fields are split
unfoldable pub snap_of : Dict Text → Text → Text → Text → Text → ℕ → ℕ → Snap
snap_of marks full rel name guid txg creation = record {
  dataset = logical rel;
  name = name;
  guid = guid;
  createtxg = txg;
  creation = creation;
  source = if text_eq (logical rel) rel then [] else rel;
  mark = get_or [] full marks;
}

unfoldable pub parse_fields : Text → Dict Text → List Text → Option Snap
parse_fields pool marks (full ∷ guid ∷ txg ∷ creation ∷ more) =
    if has_char b'@' full
    then elim (behind (pool ++ b'/' ∷ []) (before b'@' full)) [
      | none ↦ none
      | some rel ↦ elim (int_of txg) [
        | none ↦ none
        | some t ↦ elim (int_of creation) [
          | none ↦ none
          | some c ↦ some (snap_of marks full rel (after b'@' full) guid t c)
        ]
      ]
    ]
    else none
parse_fields pool marks _ = none

unfoldable pub parse_line : Text → Dict Text → Text → Option Snap
parse_line pool marks line = parse_fields pool marks (split 9 (rstrip_newline line))

unfoldable pub parse_snapshots : List Text → Text → Dict Text → List Snap
parse_snapshots [] pool marks = []
parse_snapshots (line ∷ lines) pool marks =
    let rest = parse_snapshots lines pool marks in
    elim (parse_line pool marks line) [ none ↦ rest | some s ↦ s ∷ rest ]
