-- ===== src/Exclusions/Held.antt =====
-- lib/exclusions.py: what a run leaves out, and the marks of points read back and rewritten once a
-- destroy on the drive took part of them.
pub mod Destroy
pub mod Sound
pub mod Only
pub mod Rewritten
pub mod World
mod Tests
use zark.Base.{
  Bool, true, false, not, Option, none, some, List, [], ◌∷◌, map, ltb, if◌then◌else◌, all, Dict,
  get, get_or, put, values, Text, codes, text_eq, decimal,
}
use zark.Replication.Model.{Origin}
use zark.RestorePoints.Model.{Snap}
use zark.RestorePoints.Complete.{named, gone, full_target, point_losses, PointLoss}
use zark.Exclusions.{flags, parse, mark_tops, mark_datasets, Declared}
use zark.Exclusions.Json.{Loads, Json}
use zark.Exclusions.Record.{max_parts, dump_mark, parts_needed, parse_point_mark, PointMark}

-- `for_run`, of origin and of the lines of `zfs get`, none where one cannot be read: none where the run
-- stops
unfoldable pub for_run : Option (Dict Origin) → Option (List Text) → Option (Declared × Text)
for_run (some origin) (some lines) =
    let declared = parse lines origin in
    let mark = dump_mark (mark_tops declared) (mark_datasets declared origin) in
    if ltb max_parts (parts_needed mark) then none else some (declared, mark)
for_run _ _ = none

-- `read_point_mark` gives no mark, fails with a ValueError, or gives a mark
pub data MarkRead : Type 0 where
  absent unreadable : MarkRead
  marked : PointMark → MarkRead

unfoldable pub held_of : Dict (Option Text) → List Text → List (Option Text)
held_of records [] = []
held_of records (t ∷ targets) =
    let rest = held_of records targets in elim (get t records) [ none ↦ rest | some r ↦ r ∷ rest ]

unfoldable pub same_record : Option Text → Option Text → Bool
same_record none none = true
same_record (some a) (some b) = text_eq a b
same_record _ _ = false

unfoldable pub read_value : Loads → (Json → Text) → Option Text → MarkRead
read_value loads shown none = unreadable
read_value loads shown (some v) = elim (parse_point_mark loads shown v) [
  | none ↦ unreadable
  | some m ↦ marked m
]

-- the set of the records of the point's snapshots has one value
unfoldable pub read_values : Loads → (Json → Text) → List (Option Text) → MarkRead
read_values loads shown [] = absent
read_values loads shown (v ∷ vs) =
    if all (same_record v) vs then read_value loads shown v else unreadable

unfoldable pub read_point_mark :
    Loads → (Json → Text) → Text → Text → List Snap → Dict (Option Text) → MarkRead
read_point_mark loads shown pool point snaps records =
    read_values loads shown (held_of records (map (full_target pool point) (named point snaps)))

pub record Rewrite : Type 0 where
  pub targets : List Text
  pub complete : Text
  pub mark : Text

-- the mark that a rewrite starts from, none for a ValueError
unfoldable pub first_mark : Loads → (Json → Text) → List (Option Text) → Option PointMark
first_mark loads shown [] = some (record { tops = []; datasets = [] })
first_mark loads shown (none ∷ held) = none
first_mark loads shown (some v ∷ held) = parse_point_mark loads shown v

-- `datasets |= {rel: values.get(rel, ("on", "")) for rel in lost}`
unfoldable pub add_lost : Dict (Text × Text) → List Text → Dict (Text × Text) → Dict (Text × Text)
add_lost values [] out = out
add_lost values (rel ∷ lost) out =
    add_lost values lost (put rel (get_or (codes "on", []) rel values) out)

unfoldable pub rewrite_of :
    Loads
    → (Json → Text)
    → Text
    → Text
    → Dict (Option Text)
    → Dict (Text × Text)
    → PointLoss
    → Option Rewrite
rewrite_of loads shown top flags records values loss =
    elim (first_mark loads shown (held_of records loss.targets)) [
      | none ↦ none
      | some pm ↦ some (record {
        targets = loss.targets;
        complete = decimal loss.count;
        mark = dump_mark (put top flags pm.tops) (add_lost values loss.lost pm.datasets);
      })
    ]

unfoldable pub rewrites_go : (PointLoss → Option Rewrite) → Dict PointLoss → Option (Dict Rewrite)
rewrites_go f [] = some []
rewrites_go f ((name, loss) ∷ losses) =
    let rest = rewrites_go f losses in
    elim (f loss) [
      | none ↦ none
      | some rw ↦ elim rest [ none ↦ none | some out ↦ some ((name, rw) ∷ out) ]
    ]

-- `_rewrites`, of the values that `zark_props` read; `gone` is not empty. None for its ValueError.
unfoldable pub rewrites :
    Loads
    → (Json → Text)
    → Text
    → Text
    → Text
    → List Snap
    → Dict (Option Text)
    → List Text
    → Dict (Text × Text)
    → Option (Dict Rewrite)
rewrites loads shown pool top flags snaps records gone values =
    rewrites_go (rewrite_of loads shown top flags records values) (point_losses pool snaps gone)
