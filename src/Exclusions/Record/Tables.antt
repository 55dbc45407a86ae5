-- ===== src/Exclusions/Record/Tables.antt =====
-- The tables of a record are read back as they were.
use zark.Base.{
  ◌≡◌, refl, sym, ap, ◌∙◌, ◌≢◌, ◌⊎◌, inl, inr, true, false, Option, none, some, List, [], ◌∷◌,
  arith, if◌then◌else◌, Bool-cases, Option-cases, Elem, any, insert_sorted, sort_by,
  elem-insert_sorted, elem-sort_by_iff, Dict, get, put, keys, Text, text_eq, mem_text, text_eq→eq,
  text_eq-false, elem→mem_text, not_elem→mem_text, IsDistinct, get-eq-some, elem-keys,
  elem_keys→elem, get-eq-none, get-put, elem→get,
}
use zark.Retention.Prune.{item_le, sorted_items}
use zark.Exclusions.Json.{Loads, fields_of, get_field, Json}
use zark.Exclusions.Record.{
  str_of, map_values, mark_value, dump_mark, is_flags, add_top, read_tops, text_of, add_dataset,
  read_datasets, object_of, object_at, parse_data, parse_point_mark, PointMark,
}

abbrev or_else : {V : Type 0} → Option V → Option V → Option V
or_else none b = b
or_else (some v) b = some v

not_mem-cons :
    (k j : Text) (ks : List Text) → mem_text k (j ∷ ks) ≡ false → (k ≢ j) × (mem_text k ks ≡ false)
unfolding mem_text any
not_mem-cons k j ks h = (text_eq-false k j (ground arith), ground arith)

module _ {V : Type 0} where
  elem_keys-insert_sorted :
      (k : Text) (x : Text × V) (d : Dict V)
      → Elem k (keys (insert_sorted item_le x d))
      → (x.0 ≡ k) ⊎ Elem k (keys d)
  unfolding keys
  elem_keys-insert_sorted k x d m =
      let (v, at) = elem_keys→elem k (insert_sorted item_le x d) m in
      elim ((elem-insert_sorted item_le (k, v) x d).0 at) [
        | inl e ↦ inl (ap (λ (y : Text × V). y.0) e)
        | inr n ↦ inr (elem-keys k v d n)
      ]

  IsDistinct-insert_sorted :
      (x : Text × V) (d : Dict V)
      → mem_text x.0 (keys d) ≡ false
      → IsDistinct (keys d)
      → IsDistinct (keys (insert_sorted item_le x d))
  unfolding insert_sorted keys
  IsDistinct-insert_sorted x [] n h = (n, h)
  IsDistinct-insert_sorted x (y ∷ d) n h = elim (Bool-cases (item_le x y)) [
    | inl e ↦ rw e ((n, h))
    | inr e ↦
        let (other, rest) = not_mem-cons x.0 y.0 (keys d) n in
        rw e (
          (
            not_elem→mem_text y.0 (keys (insert_sorted item_le x d)) (λ m.
                elim (elem_keys-insert_sorted y.0 x d m) [
                  | inl s ↦ other s
                  | inr k ↦ absurd (ground (arith, elem→mem_text y.0 (keys d) k))
                ]),
            IsDistinct-insert_sorted x d rest h.1,
          ))
  ]

  IsDistinct-sorted_items : (d : Dict V) → IsDistinct (keys d) → IsDistinct (keys (sorted_items d))
  unfolding sorted_items sort_by keys
  IsDistinct-sorted_items [] h = tt
  IsDistinct-sorted_items (x ∷ d) h =
      IsDistinct-insert_sorted x (sort_by item_le d)
        (not_elem→mem_text x.0 (keys (sort_by item_le d)) (λ m.
          let (v, at) = elem_keys→elem x.0 (sort_by item_le d) m in
          let there = elem-keys x.0 v d ((elem-sort_by_iff item_le (x.0, v) d).0 at) in
          absurd (ground (arith, elem→mem_text x.0 (keys d) there))))
        (IsDistinct-sorted_items d h.1)

  -- sorting the items of a dict leaves every key its value
  get-sorted_items :
      (k : Text) (d : Dict V) → IsDistinct (keys d) → get k (sorted_items d) ≡ get k d
  unfolding sorted_items
  get-sorted_items k d h = elim (Option-cases (get k d)) [
    | inr (v, e) ↦
        elem→get k v (sorted_items d) (IsDistinct-sorted_items d h)
          ((elem-sort_by_iff item_le (k, v) d).1 (get-eq-some k d e))
        ∙ sym e
    | inl e ↦ elim (Option-cases (get k (sorted_items d))) [
      | inl f ↦ f ∙ sym e
      | inr (v, f) ↦
          let at = (elem-sort_by_iff item_le (k, v) d).0 (get-eq-some k (sorted_items d) f) in
          absurd (get-eq-none k d e (elem-keys k v d at))
    ]
  ]

  or_else-cons :
      (t k : Text) (v : V) (d : Dict V) (o : Option V)
      → mem_text k (keys d) ≡ false
      → or_else (get t d) (if text_eq t k then some v else o)
        ≡ or_else (if text_eq t k then some v else get t d) o
  or_else-cons t k v d o h = elim (Bool-cases (text_eq t k)) [
    | inr e ↦ rw e refl
    | inl e ↦ elim (Option-cases (get t d)) [
      | inl f ↦ rw (e, f) refl
      | inr (w, f) ↦
          let same = text_eq→eq t k e in
          let there = elem→mem_text t (keys d) (elem-keys t w d (get-eq-some t d f)) in
          absurd (cc (h, there, same))
    ]
  ]

-- every top has flags that a record may have
abbrev pub HasFlags : Dict Text → Type 0
HasFlags tops = (e : Text × Text) → Elem e tops → is_flags e.1 ≡ true

add_top-flags :
    (k v : Text) (out : Dict Text) → is_flags v ≡ true → add_top k (Json.str v) out ≡ put k v out
unfolding add_top
add_top-flags k v out h = rw (add_top, h) refl

get-read_tops :
    (t : Text) (tops out : Dict Text)
    → IsDistinct (keys tops)
    → HasFlags tops
    → get t (read_tops (fields_of (map_values Json.str tops)) out)
      ≡ or_else (get t tops) (get t out)
unfolding read_tops fields_of map_values get keys
get-read_tops t [] out h flags = refl
get-read_tops t ((k, v) ∷ tops) out h flags =
    let ok : is_flags v ≡ true = flags (k, v) (inl refl) in
    let ih = get-read_tops t tops (put k v out) h.1 (λ e m. flags e (inr m)) in
    let after = get-put t k v out in
    ap (λ o. get t (read_tops (fields_of (map_values Json.str tops)) o)) (add_top-flags k v out ok)
    ∙ (ih ∙ (ap (or_else (get t tops)) after ∙ or_else-cons t k v tops (get t out) h.0))

get-read_datasets :
    (shown : Json → Text) (t : Text) (rows out : Dict (Text × Text))
    → IsDistinct (keys rows)
    → get t (read_datasets shown (fields_of (map_values str_of rows)) out)
      ≡ or_else (get t rows) (get t out)
unfolding read_datasets fields_of map_values add_dataset text_of get keys
get-read_datasets shown t [] out h = refl
get-read_datasets shown t ((k, v) ∷ rows) out h =
    let ih = get-read_datasets shown t rows (put k v out) h.1 in
    let after = get-put t k v out in
    (ih ∙ (ap (or_else (get t rows)) after ∙ or_else-cons t k v rows (get t out) h.0))

or_else-none : {V : Type 0} (o : Option V) → or_else o none ≡ o
or_else-none none = refl
or_else-none (some v) = refl

HasFlags-sorted_items : (tops : Dict Text) → HasFlags tops → HasFlags (sorted_items tops)
unfolding sorted_items
HasFlags-sorted_items tops h e m = h e ((elem-sort_by_iff item_le e tops).0 m)

-- What a mark says of the tables: each top has its flags, each dataset its properties, and no others.
pub record Holds (tops : Dict Text) (datasets : Dict (Text × Text)) (m : PointMark) : Type 0 where
  pub same_tops : (t : Text) → get t m.tops ≡ get t tops
  pub same_datasets : (rel : Text) → get rel m.datasets ≡ get rel datasets

-- A record that is parsed says of every name what was recorded: the flags of each top and origin's
-- `canmount` and `mountpoint` of each dataset are read back, and nothing else is, where the tables
-- name nothing twice and the flags are those of an exclusion. `json.loads` must read back the record
-- as `json.dumps` wrote it.
pub parse_point_mark-dump_mark :
    (loads : Loads) (shown : Json → Text) (tops : Dict Text) (datasets : Dict (Text × Text))
    → loads (dump_mark tops datasets) ≡ some (mark_value tops datasets)
    → IsDistinct (keys tops)
    → HasFlags tops
    → IsDistinct (keys datasets)
    → (m : PointMark) × (parse_point_mark loads shown (dump_mark tops datasets) ≡ some m)
      × Holds tops datasets m
unfolding parse_point_mark parse_data mark_value object_at object_of get_field text_eq get
parse_point_mark-dump_mark loads shown tops datasets own dt flags dd =
    let rows = sorted_items datasets in
    let names = sorted_items tops in
    let m : PointMark = record {
      tops = read_tops (fields_of (map_values Json.str names)) [];
      datasets = read_datasets shown (fields_of (map_values str_of rows)) [];
    } in
    (
      m,
      rw (parse_point_mark, own) refl,
      record {
        same_tops = λ t.
            get-read_tops t names [] (IsDistinct-sorted_items tops dt)
              (HasFlags-sorted_items tops flags)
            ∙ (or_else-none (get t names) ∙ get-sorted_items t tops dt);
        same_datasets = λ t.
            get-read_datasets shown t rows [] (IsDistinct-sorted_items datasets dd)
            ∙ (or_else-none (get t rows) ∙ get-sorted_items t datasets dd);
      },
    )
