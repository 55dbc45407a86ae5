-- ===== src/Status.antt =====
-- lib/status.py: the lines of the report on capacity, backups and residues. What
-- the report reads (pools, drives, origin) is in a `Status`; `zark` is the command's name
-- (`zark_command`), `risk` the text of upgrade_risk.WARNING.
pub mod Notices
pub mod Due
mod Tests
use zark.Base.{
  ℕ, ◌%◌, min, Bool, true, false, not, Option, none, some, List, [], ◌∷◌, ◌++◌, map, ltb, leb,
  if◌then◌else◌, select, sort_by, Dict, keys, values, Text, codes, text_eq, text_le, decimal,
}
use zark.OriginPrune.{join_names}

-- `not xs`
unfoldable pub has_none {ℓ} : {A : Type ℓ} → List A → Bool
has_none [] = true
has_none (x ∷ xs) = false

unfoldable pub cap_level : ℕ → Text
cap_level pct = if leb 90 pct then codes "critical" else if leb 80 pct then codes "warning" else []

pub record BootSpace : Type 0 where
  pub mountpoint : Text
  pub fstype : Text
  pub source : Text
  pub used_bytes : ℕ
  pub available_bytes : ℕ
  pub size_bytes : ℕ
  pub capacity_pct : ℕ
  pub measured_at : Text

-- The spaces and the usages of datasets are not looked into: only their presence counts.
pub record Status (S U : Type 0) : Type 0 where
  pub caps : Dict ℕ
  pub ages : Dict (Option ℕ)
  pub shared : List Text
  pub residues : ℕ
  pub read_error : Text
  pub selftest : List Text
  pub shared_drives : List Text
  pub spaces : Dict (Option S)
  pub datasets : Dict (Option U)
  pub boot : Option BootSpace
  pub upgrade_risk : Text

-- `sorted(d.items())`: the keys of a dict differ, so the values are never compared
unfoldable pub cap_le : (Text × ℕ) → (Text × ℕ) → Bool
cap_le a b = text_le a.0 b.0

unfoldable pub percent_full : Text → ℕ → Text
percent_full pool pct = pool ++ codes " is " ++ decimal pct ++ codes "% full"

unfoldable pub level_from : Text → Text
level_from level =
    codes " ("
    ++ level
    ++ codes " from "
    ++ decimal (if text_eq level (codes "critical") then 90 else 80)
    ++ codes "%): "

unfoldable pub is_high : (Text × ℕ) → Bool
is_high e = not (has_none (cap_level e.1))

-- the loop of `cap_lines`
unfoldable pub cap_lines_go : Text → Dict ℕ → List (Text × Text)
cap_lines_go zark [] = []
cap_lines_go zark ((pool, pct) ∷ caps) =
    let rest = cap_lines_go zark caps in
    let level = cap_level pct in
    if has_none level
    then rest
    else (level, percent_full pool pct ++ level_from level ++ zark ++ codes " prune") ∷ rest

module _ {S U : Type 0} where
  unfoldable pub cap_lines : Text → Status S U → List (Text × Text)
  cap_lines zark st = cap_lines_go zark (sort_by cap_le st.caps)

  unfoldable pub cap_pools : Status S U → List Text
  cap_pools st = map (λ (e : Text × ℕ). e.0) (select is_high (sort_by cap_le st.caps))

  unfoldable pub boot_line : Status S U → Option (Text × Text)
  boot_line st = elim st.boot [
    | none ↦ none
    | some b ↦
        let level = cap_level b.capacity_pct in
        if has_none level
        then none
        else some (
          level,
          percent_full (codes "/boot") b.capacity_pct
              ++ level_from level
              ++ codes "remove old kernels with sudo apt autoremove --purge",
        )
  ]

unfoldable pub residue_line : Text → ℕ → Text
residue_line zark n =
    codes "In origin: "
    ++ decimal n
    ++ codes " snapshot(s) no registered drive needs "
    ++ codes "(`syncoid_*` left by zark 1.x, keystore `prepare_*`): "
    ++ zark
    ++ codes " prune removes them"

unfoldable pub age_part : (Text × Option ℕ) → Text
age_part e = elim e.1 [
  | none ↦ e.0 ++ codes " never"
  | some age ↦ e.0 ++ codes " " ++ decimal age ++ codes " day(s) ago"
]

unfoldable pub known_ages : Dict (Option ℕ) → List ℕ
known_ages [] = []
known_ages ((name, none) ∷ ages) = known_ages ages
known_ages ((name, some age) ∷ ages) = age ∷ known_ages ages

unfoldable pub min_from : ℕ → List ℕ → ℕ
min_from m [] = m
min_from m (a ∷ rest) = min_from (if ltb a m then a else m) rest

-- `not known or min(known) > RPO_WARNING_DAYS`
unfoldable pub is_stale : List ℕ → Bool
is_stale [] = true
is_stale (a ∷ rest) = ltb 7 (min_from a rest)

unfoldable pub rpo_line : {S U : Type 0} → Status S U → Bool × Text
rpo_line st = if has_none st.ages then (false, []) else (
  is_stale (known_ages st.ages),
  codes "last backups: " ++ join_names (map age_part st.ages),
)
