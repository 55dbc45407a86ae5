-- ===== src/Exclusions/Held/Sound.antt =====
-- The tables of a mark that was read, and of one that a rewrite makes of it.
use mathlib.Core.Path.{subst}
use zark.Base.{
  ◌≡◌, refl, sym, ap, ◌∙◌, inl, inr, true, Option, none, some, List, [], ◌∷◌, if◌then◌else◌,
  Bool-cases, Option-cases, any, Dict, get, get_or, put, keys, Text, codes, text_eq, mem_text,
  text_eq→eq, IsDistinct, get-put, IsDistinct-put, elem-put,
}
use zark.Exclusions.Json.{Loads, Json, Items, Fields}
use zark.Exclusions.Record.{
  is_flags, add_top, read_tops, add_dataset, read_datasets, object_at, parse_data, parse_point_mark,
  PointMark,
}
use zark.Exclusions.Record.Tables.{HasFlags}
use zark.Exclusions.Held.{first_mark, add_lost}

-- a mark whose tables name nothing twice and hold flags that exist
pub record IsSound (pm : PointMark) : Type 0 where
  pub tops_once : IsDistinct (keys pm.tops)
  pub tops_flags : HasFlags pm.tops
  pub datasets_once : IsDistinct (keys pm.datasets)

pub HasFlags-put :
    (k v : Text) (d : Dict Text) → is_flags v ≡ true → HasFlags d → HasFlags (put k v d)
HasFlags-put k v d ok h e m = elim (elem-put e k v d m) [
  | inl s ↦ ap (λ (x : Text × Text). is_flags x.1) (sym s) ∙ ok
  | inr n ↦ h e n
]

read_tops-IsSound :
    (fs : Fields) (out : Dict Text)
    → IsDistinct (keys out)
    → HasFlags out
    → IsDistinct (keys (read_tops fs out)) × HasFlags (read_tops fs out)
unfolding read_tops add_top
read_tops-IsSound Fields.end out d h = (d, h)
read_tops-IsSound (Fields.field k (Json.str v) fs) out d h = elim (Bool-cases (is_flags v)) [
  | inr e ↦ rw (read_tops, add_top, e) (read_tops-IsSound fs out d h)
  | inl e ↦
      rw (read_tops, add_top, e)
        (read_tops-IsSound fs (put k v out) (IsDistinct-put k v out d) (HasFlags-put k v out e h))
]
read_tops-IsSound (Fields.field k _ fs) out d h = read_tops-IsSound fs out d h

add_dataset-IsDistinct :
    (shown : Json → Text) (rel : Text) (v : Json) (out : Dict (Text × Text))
    → IsDistinct (keys out)
    → IsDistinct (keys (add_dataset shown rel v out))
unfolding add_dataset
add_dataset-IsDistinct shown rel (Json.arr (Items.cons a (Items.cons b Items.nil))) out d =
    IsDistinct-put rel _ out d
add_dataset-IsDistinct shown rel _ out d = d

read_datasets-IsDistinct :
    (shown : Json → Text) (fs : Fields) (out : Dict (Text × Text))
    → IsDistinct (keys out)
    → IsDistinct (keys (read_datasets shown fs out))
unfolding read_datasets
read_datasets-IsDistinct shown Fields.end out d = d
read_datasets-IsDistinct shown (Fields.field rel v fs) out d =
    read_datasets-IsDistinct shown fs (add_dataset shown rel v out)
      (add_dataset-IsDistinct shown rel v out d)

read_mark-IsSound :
    (shown : Json → Text) (tops datasets : Fields)
    → IsSound (record { tops = read_tops tops []; datasets = read_datasets shown datasets [] })
unfolding keys
read_mark-IsSound shown tops datasets =
    let r = read_tops-IsSound tops [] tt (λ e m. elim m [ ]) in
    record {
      tops_once = r.0;
      tops_flags = r.1;
      datasets_once = read_datasets-IsDistinct shown datasets [] tt;
    }

parse_data-IsSound :
    (shown : Json → Text) (read : Option Json) (pm : PointMark)
    → parse_data shown read ≡ some pm
    → IsSound pm
unfolding parse_data
parse_data-IsSound shown (some (Json.obj fs)) pm h =
    elim (Option-cases (object_at (codes "tops") fs)) [
      | inl e ↦ absurd (cc (rw (parse_data, e) at h))
      | inr (tops, e) ↦ elim (Option-cases (object_at (codes "datasets") fs)) [
        | inl f ↦ absurd (cc (rw (parse_data, e, f) at h))
        | inr (ds, f) ↦
            subst IsSound (cc (rw (parse_data, e, f) at h)) (read_mark-IsSound shown tops ds)
      ]
    ]
parse_data-IsSound shown _ pm h = absurd (cc h)

pub first_mark-IsSound :
    (loads : Loads) (shown : Json → Text) (held : List (Option Text)) (pm : PointMark)
    → first_mark loads shown held ≡ some pm
    → IsSound pm
unfolding first_mark parse_point_mark keys
first_mark-IsSound loads shown [] pm h =
    let none_left : PointMark = record { tops = []; datasets = [] } in
    let same : none_left ≡ pm = cc h in
    subst IsSound same
      (record { tops_once = tt; tops_flags = λ e m. elim m [ ]; datasets_once = tt })
first_mark-IsSound loads shown (none ∷ held) pm h = absurd (cc h)
first_mark-IsSound loads shown (some v ∷ held) pm h = parse_data-IsSound shown (loads v) pm h

pub get-add_lost :
    (recorded : Dict (Text × Text)) (rel : Text) (lost : List Text) (out : Dict (Text × Text))
    → get rel (add_lost recorded lost out)
      ≡ (if mem_text rel lost then some (get_or (codes "on", []) rel recorded) else get rel out)
unfolding add_lost mem_text any
get-add_lost recorded rel [] out = refl
get-add_lost recorded rel (r ∷ lost) out =
    let v = get_or (codes "on", []) r recorded in
    let ih = get-add_lost recorded rel lost (put r v out) in
    let after = get-put rel r v out in
    elim (Bool-cases (text_eq rel r)) [
      | inr e ↦ rw (mem_text, any, e) (rw (after, e) at ih)
      | inl e ↦
          rw (mem_text, any, e)
            (elim (Bool-cases (mem_text rel lost)) [
              | inl f ↦ rw f at ih
              | inr f ↦
                  (rw (f, after, e) at ih)
                  ∙ ap (λ k. some (get_or (codes "on", []) k recorded)) (sym (text_eq→eq rel r e))
            ])
    ]

pub IsDistinct-add_lost :
    (recorded : Dict (Text × Text)) (lost : List Text) (out : Dict (Text × Text))
    → IsDistinct (keys out)
    → IsDistinct (keys (add_lost recorded lost out))
unfolding add_lost
IsDistinct-add_lost recorded [] out d = d
IsDistinct-add_lost recorded (r ∷ lost) out d =
    IsDistinct-add_lost recorded lost _ (IsDistinct-put r _ out d)
