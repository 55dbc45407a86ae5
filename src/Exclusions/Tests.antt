-- ===== src/Exclusions/Tests.antt =====
-- Runs on declared exclusions, and their theorems at concrete inputs.
use zark.Base.{
  ◌≤◌, ◌≡◌, refl, ◌⊎◌, inl, true, false, ◌||◌, List, [], ◌∷◌, length, Elem, select, any, all,
  find_first, flat_map, insert_sorted, sort_by, Dict, get, get_or, has_key, put, keys, update, Text,
  codes, text_eq, text_le, starts_with, has_infix, mem_text, before, after, has_char, split_first,
  split,
}
use zark.Replication.Names.{is_under, is_bpool, is_archived}
use zark.Replication.Model.{Origin}
use zark.Replication.Plan.{is_volume}
use zark.Retention.Prune.{sorted_items}
use zark.OriginPrune.{join_names}
use zark.Exclusions.{
  covering_from, covering, rules, first_hit, is_never, holds_never, never_excluded, flags,
  is_minimal, minimal, no_backup, no_snapshot, flags_of, is_value, add_value, values_of, is_no,
  bad_values, ignored_values, declare, declare_all, inside_note, parse, subtree, subtree_referenced,
  mark_tops, mark_row, mark_datasets, Exclusion,
}
use zark.Exclusions.Covers.{covering-nearest}
use zark.Exclusions.Allowed.{parse-IsAllowed, IsAllowed}

-- what the runs compute with
exclusions_open : Unit {0}
unfolding text_eq text_le starts_with has_infix mem_text any all before after has_char split
    split_first select find_first flat_map insert_sorted sort_by get get_or has_key put update keys
    is_under is_bpool is_archived is_volume sorted_items join_names covering_from covering rules
    first_hit is_never holds_never never_excluded flags is_minimal minimal no_backup no_snapshot
    flags_of is_value add_value values_of is_no bad_values ignored_values declare declare_all
    inside_note parse subtree subtree_referenced mark_tops mark_row mark_datasets
exclusions_open = tt

abbrev home : Text
home = codes "rpool/home"

abbrev cache : Text
cache = codes "rpool/home/cache"

abbrev origin_of : Text → Origin
origin_of rel = record {
  rel = rel;
  kind = codes "filesystem";
  canmount = codes "on";
  mountpoint = b'/' ∷ rel;
  referenced = 4096;
  snaps = [];
  bookmarks = [];
  clone_of = [];
}

abbrev origin : Dict Origin
origin =
    (home, origin_of home)
    ∷ (cache, origin_of cache)
    ∷ (codes "rpool/ROOT", origin_of (codes "rpool/ROOT"))
    ∷ []

abbrev lines : List Text
lines =
    codes "rpool/home\torg.zark:replicate\tno"
    ∷ codes "rpool/home/cache\torg.zark:replicate\tyes"
    ∷ codes "rpool/ROOT\torg.zark:replicate\tno"
    ∷ []

abbrev excluded_home : Exclusion
excluded_home = record { top = home; replicate = true; snapshot = false }

parse_run : parse lines origin ≡ record {
  tops = (home, excluded_home) ∷ [];
  ignored =
      (codes "rpool/ROOT", codes "a boot environment is never excluded")
      ∷ (cache, codes "org.zark:replicate=yes inside rpool/home, which excludes its whole subtree")
      ∷ [];
}
unfolding exclusions_open
parse_run = refl

mark_run : keys (mark_datasets (parse lines origin) origin) ≡ home ∷ cache ∷ []
unfolding exclusions_open
mark_run = refl

covering-nearest_example :
    ((covering cache (home ∷ cache ∷ []) ≡ [])
      × ((t : Text) → Elem t (home ∷ cache ∷ []) → is_under cache t ≡ true → t ≡ []))
    ⊎ (Elem (covering cache (home ∷ cache ∷ [])) (home ∷ cache ∷ [])
        × (is_under cache (covering cache (home ∷ cache ∷ [])) ≡ true)
        × ((t : Text)
            → Elem t (home ∷ cache ∷ [])
            → is_under cache t ≡ true
            → length t ≤ length (covering cache (home ∷ cache ∷ []))))
covering-nearest_example = covering-nearest cache (home ∷ cache ∷ [])

minimal_run : minimal (home ∷ cache ∷ []) ≡ home ∷ []
unfolding exclusions_open
minimal_run = refl

parse-IsAllowed_example :
    (excluded_home.top ≡ home)
    × ((excluded_home.replicate || excluded_home.snapshot) ≡ true)
    × IsAllowed origin home
unfolding exclusions_open
parse-IsAllowed_example = parse-IsAllowed lines origin home excluded_home (inl refl)
