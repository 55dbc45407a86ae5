-- ===== src/Status/Notices.antt =====
-- `notices` and `motd_text`: what the message of the day says.
pub mod Total
use zark.Base.{
  ◌+◌, ◌*◌, Bool, not, ◌&&◌, Option, none, some, List, [], ◌∷◌, ◌++◌, map, ltb, if◌then◌else◌,
  is_some, select, flat_map, get_or, Text, codes, text_eq,
}
use zark.Status.{has_none, cap_lines, cap_pools, boot_line, residue_line, rpo_line, Status}

pub record Notice : Type 0 where
  pub level : Text
  pub code : Text
  pub subject : Option Text
  pub text : Text

-- `zip(xs, ys, strict=True)`: it raises when one is longer
unfoldable pub zip_strict : {A B : Type 0} → List A → List B → Option (List (A × B))
zip_strict [] [] = some []
zip_strict [] (y ∷ ys) = none
zip_strict (x ∷ xs) [] = none
zip_strict (x ∷ xs) (y ∷ ys) = elim (zip_strict xs ys) [ none ↦ none | some r ↦ some ((x, y) ∷ r) ]

-- one notice that has no subject
unfoldable pub plain : Text → Text → Text → Notice
plain level code text = record { level = level; code = code; subject = none; text = text }

unfoldable pub capacity_notice : ((Text × Text) × Text) → Notice
capacity_notice e = record {
  level = e.0.0;
  code = codes "capacity";
  subject = some e.1;
  text = e.0.1;
}

unfoldable pub anchor_notice : (Text × Option Text) → Notice
anchor_notice e = record {
  level = codes "warning";
  code = codes "no_anchor";
  subject = e.1;
  text = e.0;
}

-- `[*st.shared_drives] or [None] * len(st.shared)`
unfoldable pub drives_of : List Text → List Text → List (Option Text)
drives_of [] shared = map (λ (l : Text). none) shared
drives_of (d ∷ ds) shared = map some (d ∷ ds)

unfoldable pub unlisted_notice : {S : Type 0} → (Text × Option S) → Notice
unlisted_notice e = record {
  level = codes "warning";
  code = codes "read_error";
  subject = some e.0;
  text = codes "could not list the datasets of " ++ e.0;
}

module _ {S U : Type 0} where
  unfoldable pub boot_notices : Status S U → List Notice
  boot_notices st = elim (boot_line st) [
    | none ↦ []
    | some line ↦
        record {
          level = line.0;
          code = codes "boot_capacity";
          subject = some (codes "/boot");
          text = line.1;
        }
        ∷ []
  ]

  unfoldable pub age_notices : Status S U → List Notice
  age_notices st =
      let line = rpo_line st in
      if has_none line.1
      then []
      else plain (if line.0 then codes "warning" else codes "info") (codes "backup_age") line.1 ∷ []

  unfoldable pub is_unlisted : Status S U → (Text × Option S) → Bool
  is_unlisted st e = is_some e.1 && not (is_some (get_or none e.0 st.datasets))

  -- what follows the lines of the drives
  unfoldable pub last_notices : Text → Text → Status S U → List Notice
  last_notices zark risk st =
      (if has_none st.read_error
        then []
        else plain (codes "warning") (codes "read_error") st.read_error ∷ [])
      ++ map unlisted_notice (select (is_unlisted st) st.spaces)
      ++ (if ltb 0 st.residues
          then plain (codes "info") (codes "origin_residues") (residue_line zark st.residues) ∷ []
          else [])
      ++ map (plain (codes "warning") (codes "selftest")) st.selftest
      ++ (if has_none st.upgrade_risk
          then []
          else plain (codes "warning") (codes "upgrade_risk") risk ∷ [])

  -- `none` where a strict `zip` raises
  unfoldable pub notices : Text → Text → Status S U → Option (List Notice)
  notices zark risk st = elim (zip_strict (cap_lines zark st) (cap_pools st)) [
    | none ↦ none
    | some full ↦ elim (zip_strict st.shared (drives_of st.shared_drives st.shared)) [
      | none ↦ none
      | some alone ↦ some (
          map capacity_notice full
          ++ (boot_notices st
              ++ age_notices st
              ++ map anchor_notice alone
              ++ last_notices zark risk st))
    ]
  ]

-- `f"{color[n.level]}zark:{plain} {n.text}" if n.level in color else f"zark: {n.text}"`
unfoldable pub motd_line : Notice → Text
motd_line n =
    if text_eq n.level (codes "critical")
    then 27 ∷ codes "[1;31mzark:" ++ (27 ∷ codes "[0m ") ++ n.text
    else if text_eq n.level (codes "warning")
    then 27 ∷ codes "[1;33mzark:" ++ (27 ∷ codes "[0m ") ++ n.text
    else codes "zark: " ++ n.text

-- `"\n".join(lines) + "\n" if lines else ""`: every line ends in a newline
unfoldable pub motd_text : {S U : Type 0} → Text → Text → Status S U → Option Text
motd_text zark risk st = elim (notices zark risk st) [
  | none ↦ none
  | some out ↦ some (flat_map (λ (n : Notice). motd_line n ++ 10 ∷ []) out)
]
