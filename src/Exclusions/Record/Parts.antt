-- ===== src/Exclusions/Record/Parts.antt =====
-- A record that was written, in one value or in parts, is read back as it was.
use zark.Base.{
  ℕ, suc, ◌+◌, ◌≤◌, ◌<◌, ◌≡◌, refl, sym, ap, ◌∙◌, inl, inr, false, none, some, List, [], ◌∷◌, arith,
  leb, ◌==◌, if◌then◌else◌, Bool-cases, Option-cases, length, Elem, Dict, get, Text, text_eq,
  text_eq_refl, text_eq→eq,
}
use zark.Exclusions.Json.{Loads, dump, get_field}
use zark.Exclusions.Record.{
  point_mark, mark_limit, max_parts, mark_value, dump_mark, part_prop, parts_needed, parts_of,
  pointer_value, part_props, record_props, pointer_of, pointer_in, pointer, read_parts, get_part,
  join_parts, follow, most_parts, record_of, records_go, point_records,
}
use zark.Exclusions.Record.Cut.{concat, concat-parts_go, few_parts}

get-records_go :
    (loads : Loads) (digest : Text → Text) (parts : Dict (Dict Text)) (marks : Dict Text)
    (snap value : Text)
    → get snap marks ≡ some value
    → get snap (records_go loads digest parts marks)
      ≡ some (record_of loads digest parts snap value)
unfolding get records_go
get-records_go loads digest parts [] snap value h = absurd (ground arith)
get-records_go loads digest parts ((j, v) ∷ marks) snap value h =
    elim (Bool-cases (text_eq snap j)) [
      | inl e ↦
          let same : snap ≡ j = text_eq→eq snap j e in
          let val : v ≡ value = ground arith in
          rw (get, e) (λ i. some (record_of loads digest parts (sym same i) (val i)))
      | inr e ↦ rw (get, e) (get-records_go loads digest parts marks snap value (ground arith))
    ]

-- the pointer of a snapshot is among those that are counted
most_parts-le :
    (loads : Loads) (marks : Dict Text) (snap value : Text) (n : ℕ) (d : Text)
    → get snap marks ≡ some value
    → pointer loads value ≡ some (n, d)
    → n ≤ most_parts loads marks
unfolding get most_parts
most_parts-le loads [] snap value n d h p = absurd (ground arith)
most_parts-le loads ((j, v) ∷ marks) snap value n d h p = elim (Bool-cases (text_eq snap j)) [
  | inl e ↦
      let val : v ≡ value = ground arith in
      let q : pointer loads v ≡ some (n, d) = ap (pointer loads) val ∙ p in
      rw (most_parts, q) (omega arith)
  | inr e ↦
      let ih : n ≤ most_parts loads marks =
        most_parts-le loads marks snap value n d (ground arith) p in
      elim (Option-cases (pointer loads v)) [
        | inl q ↦ rw (most_parts, q) ih
        | inr (m, q) ↦ rw (most_parts, q) (omega (arith, ih))
      ]
]

join_parts-eq-concat :
    (i : ℕ) (ps : List Text) (parts : Dict (Dict Text)) (snap : Text)
    → ((j : ℕ) (p : Text)
        → i ≤ j
        → j < i + length ps
        → Elem (part_prop j, p) (part_props i ps)
        → get_part parts snap j ≡ some p)
    → join_parts (length ps) i parts snap ≡ some (concat ps)
unfolding join_parts concat part_props
join_parts-eq-concat i [] parts snap h = refl
join_parts-eq-concat i (p ∷ ps) parts snap h =
    let here = h i p (omega arith) (omega arith) (inl refl) in
    let ih =
      join_parts-eq-concat (suc i) ps parts snap
        (λ j q a b m. h j q (omega (arith, a)) (omega (arith, b)) (inr m)) in
    rw (join_parts, here, ih) refl

pointer-dump_mark :
    (loads : Loads) (tops : Dict Text) (datasets : Dict (Text × Text))
    → loads (dump_mark tops datasets) ≡ some (mark_value tops datasets)
    → pointer loads (dump_mark tops datasets) ≡ none
unfolding pointer pointer_in mark_value get_field text_eq
pointer-dump_mark loads tops datasets h = rw (pointer, h) refl

pointer-dump-pointer_value :
    (loads : Loads) (n : ℕ) (d : Text)
    → loads (dump (pointer_value n d)) ≡ some (pointer_value n d)
    → 1 ≤ n
    → n ≤ max_parts
    → pointer loads (dump (pointer_value n d)) ≡ some (n, d)
unfolding pointer pointer_in pointer_value get_field text_eq pointer_of
pointer-dump-pointer_value loads n d h lo hi = rw (pointer, h) (ground arith)

-- The drive's listing of the parts of one snapshot gives what was set there.
abbrev pub ListsParts : (Text → Text) → (ℕ → List (List Text)) → ℕ → Text → Text → Type 0
ListsParts digest list_parts most snap mark =
    (i : ℕ) (p : Text)
    → i ≤ most
    → Elem (part_prop i, p) (record_props digest mark)
    → get_part (read_parts (list_parts most) []) snap i ≡ some p

follow-parts :
    (digest : Text → Text) (parts : Dict (Dict Text)) (snap mark : Text)
    → 0 < length (parts_of mark)
    → ((j : ℕ) (p : Text)
        → 1 ≤ j
        → j < 1 + length (parts_of mark)
        → Elem (part_prop j, p) (part_props 1 (parts_of mark))
        → get_part parts snap j ≡ some p)
    → follow digest parts snap (length (parts_of mark), digest mark) ≡ some mark
unfolding follow parts_of
follow-parts digest parts snap mark pos h =
    let joined : join_parts (length (parts_of mark)) 1 parts snap ≡ some mark =
      join_parts-eq-concat 1 (parts_of mark) parts snap h
      ∙ ap some (concat-parts_go (length mark) 8190 mark (omega arith)) in
    let nonzero : (length (parts_of mark) == 0) ≡ false = ground arith in
    rw (follow, nonzero, joined, text_eq_refl (digest mark)) refl

first_prop :
    (digest : Text → Text) (mark : Text)
    → get point_mark (record_props digest mark)
      ≡ some (
          if leb (length mark) mark_limit
          then mark
          else dump (pointer_value (length (parts_of mark)) (digest mark)))
unfolding record_props get text_eq
first_prop digest mark = elim (Bool-cases (leb (length mark) mark_limit)) [
  | inl e ↦ rw (record_props, e) refl
  | inr e ↦ rw (record_props, e) refl
]

record_of-own :
    (loads : Loads) (digest : Text → Text) (parts : Dict (Dict Text)) (snap value : Text)
    → pointer loads value ≡ none
    → record_of loads digest parts snap value ≡ some value
unfolding record_of
record_of-own loads digest parts snap value h = rw (record_of, h) refl

record_of-pointer :
    (loads : Loads) (digest : Text → Text) (parts : Dict (Dict Text)) (snap value : Text)
    (p : ℕ × Text)
    → pointer loads value ≡ some p
    → record_of loads digest parts snap value ≡ follow digest parts snap p
unfolding record_of
record_of-pointer loads digest parts snap value p h = rw (record_of, h) refl

long_props :
    (digest : Text → Text) (mark : Text) (e : Text × Text)
    → leb (length mark) mark_limit ≡ false
    → Elem e (part_props 1 (parts_of mark))
    → Elem e (record_props digest mark)
unfolding record_props
long_props digest mark e h m = rw (record_props, h) (inr m)

-- What a backup point left out is read back from the drive exactly as it was written: for every record
-- that fits the number of parts which a run allows, a snapshot on which the properties of the record
-- were set (the first one among the marks that are listed, the others among its parts) has that record,
-- whether it took one value or several. `json.loads` must read back the record and its pointer as
-- `json.dumps` wrote them.
pub point_records-record_props :
    (loads : Loads) (digest : Text → Text) (list_parts : ℕ → List (List Text)) (marks : Dict Text)
    (snap : Text) (tops : Dict Text) (datasets : Dict (Text × Text))
    → loads (dump_mark tops datasets) ≡ some (mark_value tops datasets)
    → (let n = length (parts_of (dump_mark tops datasets)) in
        let d = digest (dump_mark tops datasets) in
        loads (dump (pointer_value n d)) ≡ some (pointer_value n d))
    → parts_needed (dump_mark tops datasets) ≤ max_parts
    → get snap marks ≡ get point_mark (record_props digest (dump_mark tops datasets))
    → ListsParts digest list_parts (most_parts loads marks) snap (dump_mark tops datasets)
    → get snap (point_records loads digest list_parts marks) ≡ some (some (dump_mark tops datasets))
unfolding point_records
point_records-record_props loads digest list_parts marks snap tops datasets own ptr few set lists =
    let mark = dump_mark tops datasets in
    let n = length (parts_of mark) in
    let most = most_parts loads marks in
    elim (Bool-cases (leb (length mark) mark_limit)) [
      | inl short ↦
          let first : get snap marks ≡ some mark = set ∙ (first_prop digest mark ∙ rw short refl) in
          get-records_go loads digest _ marks snap mark first
          ∙ ap some
              (record_of-own loads digest _ snap mark (pointer-dump_mark loads tops datasets own))
      | inr long ↦
          let value = dump (pointer_value n (digest mark)) in
          let first : get snap marks ≡ some value = set ∙ (first_prop digest mark ∙ rw long refl) in
          let (lo, hi) = few_parts mark long few in
          let p : pointer loads value ≡ some (n, digest mark) =
            pointer-dump-pointer_value loads n (digest mark) ptr lo hi in
          let enough : n ≤ most = most_parts-le loads marks snap value n (digest mark) first p in
          let some_parts : (most == 0) ≡ false = ground arith in
          let parts = read_parts (list_parts most) [] in
          let read = follow-parts digest parts snap mark lo (λ j q a b m.
            lists j q (omega (arith, b, enough))
              (long_props digest mark (part_prop j, q) long m)) in
          rw some_parts (
            get-records_go loads digest parts marks snap value first
            ∙ ap some (record_of-pointer loads digest parts snap value (n, digest mark) p ∙ read))
    ]
