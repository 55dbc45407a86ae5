-- ===== src/Exclusions/Record/Tests.antt =====
-- Runs on the record of a backup point, and its theorems at concrete inputs.
use zark.Base.{
  ℕ, ◌≡◌, refl, sym, ap, inl, inr, true, false, none, some, List, [], ◌∷◌, ◌++◌, arith,
  if◌then◌else◌, length, select, any, flat_map, insert_sorted, sort_by, Dict, get, get_or, has_key,
  put, keys, update, Text, codes, text_eq, text_le, starts_with, mem_text, has_char, decimal_go,
  decimal,
}
use zark.Replication.Names.{drop, is_under}
use zark.Retention.Prune.{sorted_items}
use zark.Exclusions.{covering_from, covering}
use zark.Exclusions.Json.{
  Loads, hex_digit, unicode_escape, short_escape, dump_char, dump_text, dump, dump_items,
  dump_fields, fields_of, get_field, Json,
}
use zark.Exclusions.Record.{
  map_values, mark_value, dump_mark, part_prop, parts_needed, take, parts_go, parts_of,
  pointer_value, part_props, record_props, pointer_of, pointer_in, pointer, add_part, read_parts,
  get_part, join_parts, follow, most_parts, record_of, records_go, point_records, is_flags, add_top,
  read_tops, text_of, add_dataset, read_datasets, object_of, object_at, parse_data,
  parse_point_mark, left_out, snapshot_tops, covers, PointMark,
}
use zark.Exclusions.Record.Parts.{ListsParts, point_records-record_props}
use zark.Exclusions.Record.Tables.{parse_point_mark-dump_mark, Holds}

record_open : Unit {0}
unfolding decimal_go select starts_with covering covering_from is_under text_eq text_le mem_text any
    has_char flat_map insert_sorted sort_by get get_or has_key put update keys drop sorted_items
    decimal hex_digit unicode_escape short_escape dump_char dump_text dump dump_items dump_fields
    fields_of get_field map_values mark_value dump_mark part_prop parts_needed take parts_go
    parts_of pointer_value part_props record_props pointer_of pointer_in pointer add_part read_parts
    get_part join_parts follow most_parts record_of records_go point_records is_flags add_top
    read_tops text_of add_dataset read_datasets object_of object_at parse_data parse_point_mark
    left_out snapshot_tops covers
record_open = tt

abbrev tops : Dict Text
tops = (codes "rpool/home", codes "both") ∷ (codes "rpool/data", codes "snapshots") ∷ []

abbrev datasets : Dict (Text × Text)
datasets = (codes "rpool/home/ana", (codes "on", codes "/home/ana")) ∷ []

-- a stand-in for SHA-256
abbrev digest : Text → Text
digest s = codes "d" ++ decimal (length s)

abbrev snap : Text
snap = codes "drive/rpool/ROOT@zark-1"

-- `json.loads`, at the texts that the runs read
abbrev loads : Loads
loads s =
    if text_eq s (dump_mark tops datasets)
    then some (mark_value tops datasets)
    else if text_eq s (dump (pointer_value 1 (codes "d104")))
    then some (pointer_value 1 (codes "d104"))
    else if text_eq s (dump (pointer_value 2 (codes "d9")))
    then some (pointer_value 2 (codes "d9"))
    else none

abbrev shown : Json → Text
shown v = dump v

no_parts : ℕ → List (List Text)
no_parts most = []

dumped :
    dump_mark tops datasets
    ≡ codes
        "{\"datasets\":{\"rpool/home/ana\":[\"on\",\"/home/ana\"]},\"tops\":{\"rpool/data\":\"snapshots\",\"rpool/home\":\"both\"}}"
unfolding record_open
dumped = refl

dump-escapes :
    dump (Json.str (34 ∷ 10 ∷ 233 ∷ 128512 ∷ [])) ≡ codes "\"\\\"\\n\\u00e9\\ud83d\\ude00\""
unfolding record_open
dump-escapes = refl

cut : parts_go 9 4 (codes "zark/root") ≡ codes "zark" ∷ codes "/roo" ∷ codes "t" ∷ []
unfolding record_open
cut = refl

abbrev pointed : Dict Text
pointed = (snap, dump (pointer_value 2 (codes "d9"))) ∷ []

abbrev part_line : ℕ → Text → List Text
part_line i value = snap ∷ part_prop i ∷ value ∷ []

abbrev rows_of : List (List Text) → ℕ → List (List Text)
rows_of rows most = rows

joined :
    point_records loads digest
      (rows_of (part_line 2 (codes "root") ∷ part_line 1 (codes "zark/") ∷ []))
      pointed
    ≡ (snap, some (codes "zark/root")) ∷ []
unfolding record_open
joined = refl

-- a part that is missing, and a join with another digest
unreadable :
    (point_records loads digest (rows_of (part_line 1 (codes "zark/") ∷ [])) pointed
      ≡ (snap, none) ∷ [])
    × (point_records loads digest
          (rows_of (part_line 2 (codes "r") ∷ part_line 1 (codes "zark/") ∷ []))
          pointed
        ≡ (snap, none) ∷ [])
unfolding record_open
unreadable = (refl, refl)

covered :
    (covers (record { tops = tops; datasets = datasets }) (codes "rpool/home/eva") ≡ true)
    × (covers (record { tops = tops; datasets = datasets }) (codes "rpool/data") ≡ false)
unfolding record_open
covered = (refl, refl)

lists_none : ListsParts digest no_parts 0 snap (dump_mark tops datasets)
unfolding record_open
lists_none i p le (inl e) = absurd (ground (arith, ap (λ (x : Text × Text). drop 17 x.0) e))
lists_none i p le (inr n) = elim n [ ]

point_records-record_props_example :
    get snap (point_records loads digest no_parts ((snap, dump_mark tops datasets) ∷ []))
    ≡ some (some (dump_mark tops datasets))
unfolding record_open
point_records-record_props_example =
    point_records-record_props loads digest no_parts ((snap, dump_mark tops datasets) ∷ []) snap
      tops datasets refl refl (omega arith) refl lists_none

parse_point_mark-dump_mark_example :
    (m : PointMark) × (parse_point_mark loads shown (dump_mark tops datasets) ≡ some m)
    × Holds tops datasets m
unfolding record_open
parse_point_mark-dump_mark_example =
    parse_point_mark-dump_mark loads shown tops datasets refl (refl, (refl, tt))
      (λ e m. elim m [
        | inl s ↦ ap is_flags (ap (λ (x : Text × Text). x.1) (sym s))
        | inr n ↦ elim n [
          | inl s ↦ ap is_flags (ap (λ (x : Text × Text). x.1) (sym s))
          | inr m ↦ elim m [ ]
        ]
      ])
      (refl, tt)
