-- ===== src/Exclusions/Record.antt =====
-- lib/exclusions.py: the record of what a point left out, in parts where it is long, as it is written
-- on a drive and read back. `digest` is SHA-256 of a text, in hexadecimal.
pub mod Cut
pub mod Parts
pub mod Tables
mod Tests
use zark.Base.{
  ℕ, zero, suc, ◌+◌, ◌-◌, ◌/◌, max, Bool, not, ◌&&◌, ◌||◌, Option, none, some, List, [], ◌∷◌, ◌++◌,
  leb, ◌==◌, if◌then◌else◌, length, select, sort_by, Dict, get, get_or, has_key, put, keys, update,
  Text, codes, text_eq, text_le, mem_text, has_char, decimal,
}
use zark.Replication.Names.{drop}
use zark.Retention.Prune.{sorted_items}
use zark.Exclusions.{covering, flags}
use zark.Exclusions.Json.{Loads, dump, fields_of, get_field, Json, Items, Fields}

abbrev pub point_mark : Text
point_mark = codes "org.zark:excluded"

abbrev pub mark_limit : ℕ
mark_limit = 8191

abbrev pub max_parts : ℕ
max_parts = 64

abbrev pub str_of : Text × Text → Json
str_of e = Json.arr (Items.cons (Json.str e.0) (Items.cons (Json.str e.1) Items.nil))

unfoldable pub map_values : {V W : Type 0} → (V → W) → Dict V → Dict W
map_values f [] = []
map_values f ((k, v) ∷ d) = (k, f v) ∷ map_values f d

-- the value that `_dump` prints
unfoldable pub mark_value : Dict Text → Dict (Text × Text) → Json
mark_value tops datasets = Json.obj (
    Fields.field (codes "datasets")
      (Json.obj (fields_of (map_values str_of (sorted_items datasets))))
      (Fields.field (codes "tops") (Json.obj (fields_of (map_values Json.str (sorted_items tops))))
        Fields.end))

unfoldable pub dump_mark : Dict Text → Dict (Text × Text) → Text
dump_mark tops datasets = dump (mark_value tops datasets)

unfoldable pub part_prop : ℕ → Text
part_prop i = point_mark ++ (b'.' ∷ decimal i)

-- `max(1, -(-len(mark) // MARK_LIMIT))`
unfoldable pub parts_needed : Text → ℕ
parts_needed mark = max 1 ((length mark + (mark_limit - 1)) / mark_limit)

unfoldable pub take : ℕ → Text → Text
take zero s = []
take (suc n) [] = []
take (suc n) (x ∷ s) = x ∷ take n s

-- `[mark[i : i + limit] for i in range(0, len(mark), limit)]`; the length of the mark is enough fuel
unfoldable pub parts_go : ℕ → ℕ → Text → List Text
parts_go zero limit s = []
parts_go (suc f) limit [] = []
parts_go (suc f) limit (x ∷ s) = take limit (x ∷ s) ∷ parts_go f limit (drop limit (x ∷ s))

unfoldable pub parts_of : Text → List Text
parts_of mark = parts_go (length mark) mark_limit mark

unfoldable pub pointer_value : ℕ → Text → Json
pointer_value n digest = Json.obj (
    Fields.field (codes "parts") (Json.num n)
      (Fields.field (codes "sha256") (Json.str digest) Fields.end))

-- `enumerate(parts, i)`, each with its property
unfoldable pub part_props : ℕ → List Text → Dict Text
part_props i [] = []
part_props i (p ∷ parts) = (part_prop i, p) ∷ part_props (suc i) parts

unfoldable pub record_props : (Text → Text) → Text → Dict Text
record_props digest mark =
    if leb (length mark) mark_limit
    then (point_mark, mark) ∷ []
    else (point_mark, dump (pointer_value (length (parts_of mark)) (digest mark)))
      ∷ part_props 1 (parts_of mark)

-- `(n, digest)` of a pointer that can be followed, `(0, "")` of one that cannot
unfoldable pub pointer_of : Option Json → Option Json → ℕ × Text
pointer_of (some (Json.num n)) (some (Json.str d)) =
    if leb 1 n && leb n max_parts then (n, d) else (0, [])
pointer_of n d = (0, [])

unfoldable pub pointer_in : Option Json → Option (ℕ × Text)
pointer_in (some (Json.obj fs)) = elim (get_field (codes "parts") fs) [
  | none ↦ none
  | some n ↦ some (pointer_of (some n) (get_field (codes "sha256") fs))
]
pointer_in _ = none

unfoldable pub pointer : Loads → Text → Option (ℕ × Text)
pointer loads value = pointer_in (loads value)

-- `_read_parts`, of the fields of the lines of `zfs get`
unfoldable pub add_part : List Text → Dict (Dict Text) → Dict (Dict Text)
add_part (name ∷ prop ∷ value ∷ []) parts =
    if has_char b'@' name then update (put prop value) [] name parts else parts
add_part _ parts = parts

unfoldable pub read_parts : List (List Text) → Dict (Dict Text) → Dict (Dict Text)
read_parts [] parts = parts
read_parts (line ∷ lines) parts = read_parts lines (add_part line parts)

-- `parts.get(snap, {}).get(part_prop(i))`
unfoldable pub get_part : Dict (Dict Text) → Text → ℕ → Option Text
get_part parts snap i = get (part_prop i) (get_or [] snap parts)

-- the parts from `i` on, `n` of them, joined: none where one is missing
unfoldable pub join_parts : ℕ → ℕ → Dict (Dict Text) → Text → Option Text
join_parts zero i parts snap = some []
join_parts (suc n) i parts snap =
    let rest = join_parts n (suc i) parts snap in
    elim (get_part parts snap i) [
      | none ↦ none
      | some p ↦ elim rest [ none ↦ none | some s ↦ some (p ++ s) ]
    ]

unfoldable pub follow : (Text → Text) → Dict (Dict Text) → Text → ℕ × Text → Option Text
follow digest parts snap p = if p.0 == 0 then none else elim (join_parts p.0 1 parts snap) [
  | none ↦ none
  | some joined ↦ if text_eq (digest joined) p.1 then some joined else none
]

-- the most parts that a pointer among the marks names
unfoldable pub most_parts : Loads → Dict Text → ℕ
most_parts loads [] = 0
most_parts loads ((snap, value) ∷ marks) =
    let rest = most_parts loads marks in
    elim (pointer loads value) [ none ↦ rest | some p ↦ max p.0 rest ]

unfoldable pub record_of : Loads → (Text → Text) → Dict (Dict Text) → Text → Text → Option Text
record_of loads digest parts snap value = elim (pointer loads value) [
  | none ↦ some value
  | some p ↦ follow digest parts snap p
]

unfoldable pub records_go :
    Loads → (Text → Text) → Dict (Dict Text) → Dict Text → Dict (Option Text)
records_go loads digest parts [] = []
records_go loads digest parts ((snap, value) ∷ marks) =
    (snap, record_of loads digest parts snap value) ∷ records_go loads digest parts marks

-- `point_records`, of the marks that `snapshot_marks` reads, and of the lines that `zfs get` prints of
-- the parts 1 to `most`
unfoldable pub point_records :
    Loads → (Text → Text) → (ℕ → List (List Text)) → Dict Text → Dict (Option Text)
point_records loads digest list_parts marks =
    let most = most_parts loads marks in
    let parts : Dict (Dict Text) = if most == 0 then [] else read_parts (list_parts most) [] in
    records_go loads digest parts marks

pub record PointMark : Type 0 where
  pub tops : Dict Text
  pub datasets : Dict (Text × Text)

unfoldable pub is_flags : Text → Bool
is_flags s = mem_text s (codes "backups" ∷ codes "both" ∷ codes "snapshots" ∷ [])

unfoldable pub add_top : Text → Json → Dict Text → Dict Text
add_top top (Json.str flags) out = if is_flags flags then put top flags out else out
add_top top _ out = out

unfoldable pub read_tops : Fields → Dict Text → Dict Text
read_tops Fields.end out = out
read_tops (Fields.field top flags fs) out = read_tops fs (add_top top flags out)

-- `str(v)` of a value: `shown` is Python's `str` of what is no text
unfoldable pub text_of : (Json → Text) → Json → Text
text_of shown (Json.str s) = s
text_of shown v = shown v

unfoldable pub add_dataset : (Json → Text) → Text → Json → Dict (Text × Text) → Dict (Text × Text)
add_dataset shown rel (Json.arr (Items.cons a (Items.cons b Items.nil))) out =
    put rel (text_of shown a, text_of shown b) out
add_dataset shown rel _ out = out

unfoldable pub read_datasets : (Json → Text) → Fields → Dict (Text × Text) → Dict (Text × Text)
read_datasets shown Fields.end out = out
read_datasets shown (Fields.field rel props fs) out =
    read_datasets shown fs (add_dataset shown rel props out)

unfoldable pub object_of : Json → Option Fields
object_of (Json.obj fs) = some fs
object_of _ = none

-- `data.get(key, {})`, where it is an object
unfoldable pub object_at : Text → Fields → Option Fields
object_at key fs = elim (get_field key fs) [ none ↦ some Fields.end | some v ↦ object_of v ]

unfoldable pub parse_data : (Json → Text) → Option Json → Option PointMark
parse_data shown (some (Json.obj fs)) = elim (object_at (codes "tops") fs) [
  | none ↦ none
  | some tops ↦ elim (object_at (codes "datasets") fs) [
    | none ↦ none
    | some datasets ↦
        some (record { tops = read_tops tops []; datasets = read_datasets shown datasets [] })
  ]
]
parse_data shown _ = none

unfoldable pub parse_point_mark : Loads → (Json → Text) → Text → Option PointMark
parse_point_mark loads shown value = parse_data shown (loads value)

unfoldable pub left_out : PointMark → List Text
left_out m = keys (select (λ (e : Text × Text). not (text_eq e.1 (codes "snapshots"))) m.tops)

unfoldable pub snapshot_tops : PointMark → List Text
snapshot_tops m =
    sort_by text_le (keys (select (λ (e : Text × Text). text_eq e.1 (codes "snapshots")) m.tops))

unfoldable pub covers : PointMark → Text → Bool
covers m rel = has_key rel m.datasets || not (text_eq (covering rel (left_out m)) [])
