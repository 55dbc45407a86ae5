-- ===== src/Exclusions.antt =====
-- lib/exclusions.py: the subtrees left out of backups or of sanoid's snapshots, as declared in origin.
pub mod Covers
pub mod Allowed
pub mod Held
pub mod Json
pub mod Record
mod Tests
use zark.Base.{
  ℕ, ◌+◌, Bool, false, not, ◌&&◌, ◌||◌, Option, none, some, List, [], ◌∷◌, ◌++◌, map, foldl, foldr,
  ltb, if◌then◌else◌, length, select, find_first, flat_map, sort_by, Dict, get, get_or, has_key,
  put, keys, values, update, Text, codes, text_eq, text_le, mem_text, has_char, split,
}
use zark.Replication.Names.{is_under, is_bpool, is_archived, keystore, structural}
use zark.Replication.Model.{Origin}
use zark.Replication.Plan.{is_volume}
use zark.Retention.Prune.{sorted_items}
use zark.OriginPrune.{join_names}

abbrev pub replicate_prop : Text
replicate_prop = codes "org.zark:replicate"

abbrev pub snapshot_prop : Text
snapshot_prop = codes "org.zark:snapshot"

-- `covering`, over the tops in any order: `best` is the longest met so far
unfoldable pub covering_from : Text → List Text → Text → Text
covering_from rel [] best = best
covering_from rel (top ∷ tops) best =
    covering_from rel tops
      (if is_under rel top && ltb (length best) (length top) then top else best)

unfoldable pub covering : Text → List Text → Text
covering rel tops = covering_from rel tops []

-- The rules of `never_excluded`, with whether each one hits.
unfoldable pub rules : Text → Option Origin → List (Bool × Text)
rules rel o =
    (is_under rel (codes "rpool/ROOT"), codes "a boot environment is never excluded")
    ∷ (is_bpool rel, codes "the boot pool is never excluded")
    ∷ (is_under rel keystore, codes "the keystore is never excluded")
    ∷ (
      mem_text rel structural,
      codes "a structural container is not replicated itself: exclude its children instead",
    )
    ∷ (
      elim o [ none ↦ false | some d ↦ is_volume d ],
      codes "zark exclude does not apply to a zvol (zvols are never backed up)",
    )
    ∷ (is_archived rel, codes "zark leaves .archived- names out already")
    ∷ []

unfoldable pub first_hit : List (Bool × Text) → Text
first_hit [] = []
first_hit ((hit, text) ∷ rest) = let more = first_hit rest in if hit then text else more

-- `never_excluded(x)` with no origin
unfoldable pub is_never : Text → Bool
is_never x = not (text_eq (first_hit (rules x none)) [])

unfoldable pub holds_never : Text → Text → Bool
holds_never rel x = not (text_eq x rel) && (is_under x rel && is_never x)

unfoldable pub never_excluded : Text → Dict Origin → Text
never_excluded rel origin = elim (first_hit (rules rel (get rel origin))) [
  | c ∷ why ↦ c ∷ why
  | [] ↦ elim (find_first (holds_never rel) (sort_by text_le (keys origin))) [
    | none ↦ []
    | some held ↦ codes "its subtree holds " ++ held
  ]
]

pub record Exclusion : Type 0 where
  pub top : Text
  pub replicate : Bool
  pub snapshot : Bool

-- `exclusion.flags`
unfoldable pub flags : Exclusion → Text
flags e =
    if e.replicate
    then (if e.snapshot then codes "both" else codes "backups")
    else codes "snapshots"

unfoldable pub is_minimal : List Text → Text → Bool
is_minimal rels r = text_eq (covering r (select (λ t. not (text_eq t r)) rels)) []

unfoldable pub minimal : List Text → List Text
minimal rels = select (is_minimal rels) rels

pub record Declared : Type 0 where
  pub tops : Dict Exclusion
  pub ignored : List (Text × Text)

unfoldable pub no_backup : Declared → List Text
no_backup d = minimal (keys (select (λ e. e.1.replicate) d.tops))

unfoldable pub no_snapshot : Declared → List Text
no_snapshot d = minimal (keys (select (λ e. e.1.snapshot) d.tops))

unfoldable pub flags_of : Declared → Text → Text
flags_of d top = elim (get top d.tops) [
  | none ↦ codes "backups"
  | some e ↦ if e.snapshot then codes "both" else codes "backups"
]

-- the condition of `_values` on a line
unfoldable pub is_value : Text → Text → Bool
is_value name prop =
    (text_eq prop replicate_prop || text_eq prop snapshot_prop)
    && (not (has_char b'@' name) && not (has_char b'#' name))

unfoldable pub add_value : List Text → Dict (Dict Text) → Dict (Dict Text)
add_value (name ∷ prop ∷ value ∷ []) values =
    if is_value name prop then update (put prop value) [] name values else values
add_value _ values = values

unfoldable pub values_of : List Text → Dict (Dict Text) → Dict (Dict Text)
values_of [] values = values
values_of (line ∷ lines) values = values_of lines (add_value (split 9 line) values)

unfoldable pub is_no : Text → Dict Text → Bool
is_no prop props = text_eq (get_or [] prop props) (codes "no")

-- `f"{p}={v}"` of the values that are neither `no` nor `yes`
unfoldable pub bad_values : Dict Text → List Text
bad_values props =
    map (λ (e : Text × Text). e.0 ++ (b'=' ∷ e.1))
      (select (λ e. not (text_eq e.1 (codes "no") || text_eq e.1 (codes "yes")))
        (sorted_items props))

unfoldable pub ignored_values : Text → Dict Text → List (Text × Text)
ignored_values rel props = elim (bad_values props) [
  | [] ↦ []
  | b ∷ bs ↦ (rel, join_names (b ∷ bs) ++ codes ": only 'no' excludes") ∷ []
]

-- what the first loop of `parse` adds for one dataset
unfoldable pub declare : Dict Origin → Text → Dict Text → Declared → Declared
declare origin rel props d =
    let out = record d { ignored = d.ignored ++ ignored_values rel props } in
    if not (is_no replicate_prop props || is_no snapshot_prop props)
    then out
    else elim (never_excluded rel origin) [
      | c ∷ why ↦ record out { ignored = out.ignored ++ (rel, c ∷ why) ∷ [] }
      | [] ↦ record out {
        tops =
            put rel
              (record {
                top = rel;
                replicate = is_no replicate_prop props;
                snapshot = is_no snapshot_prop props;
              })
              out.tops;
      }
    ]

unfoldable pub declare_all : Dict Origin → Dict (Dict Text) → Declared → Declared
declare_all origin [] d = d
declare_all origin ((rel, props) ∷ values) d =
    declare_all origin values (declare origin rel props d)

-- a `yes` inside a subtree that is excluded for the same flag
unfoldable pub inside_note : List Text → List Text → Text → Text × Text → List (Text × Text)
inside_note backup snap rel e =
    let tops = if text_eq e.0 replicate_prop then backup else snap in
    elim (covering rel (select (λ t. not (text_eq t rel)) tops)) [
      | [] ↦ []
      | c ∷ top ↦
          if text_eq e.1 (codes "yes")
          then (
            rel,
            e.0
                ++ (codes "=yes inside "
                    ++ (c ∷ top ++ codes ", which excludes its whole subtree")),
          )
            ∷ []
          else []
    ]

unfoldable pub parse : List Text → Dict Origin → Declared
parse lines origin =
    let values = sorted_items (values_of lines []) in
    let d = declare_all origin values (record { tops = []; ignored = [] }) in
    record d {
      ignored =
          d.ignored
          ++ flat_map
              (λ (v : Text × Dict Text).
                flat_map (inside_note (no_backup d) (no_snapshot d) v.0) (sorted_items v.1))
              values;
    }

unfoldable pub subtree : Text → Dict Origin → List Text
subtree top origin = sort_by text_le (select (λ rel. is_under rel top) (keys origin))

unfoldable pub subtree_referenced : Text → Dict Origin → ℕ
subtree_referenced top origin =
    foldr (λ rel n. elim (get rel origin) [ none ↦ n | some o ↦ o.referenced + n ]) 0
      (subtree top origin)

-- The two tables of `point_mark`; `json.dumps` prints them.
unfoldable pub mark_tops : Declared → Dict Text
mark_tops d =
    let backup = map (λ (t : Text). (t, flags_of d t)) (sort_by text_le (no_backup d)) in
    backup
    ++ map (λ (t : Text). (t, codes "snapshots"))
        (select (λ t. not (has_key t backup)) (sort_by text_le (no_snapshot d)))

unfoldable pub mark_row : Dict Origin → Text → Dict (Text × Text) → Dict (Text × Text)
mark_row origin rel out = elim (get rel origin) [
  | none ↦ out
  | some o ↦ put rel (o.canmount, o.mountpoint) out
]

unfoldable pub mark_datasets : Declared → Dict Origin → Dict (Text × Text)
mark_datasets d origin =
    foldl (λ out rel. mark_row origin rel out) []
      (flat_map (λ top. subtree top origin) (sort_by text_le (no_backup d)))
