-- ===== src/Exclusions/Held/World.antt =====
-- A drive for the runs of `destroy_held`: a point with two datasets, one of them to be left out.
use zark.Base.{
  Option, none, some, List, [], ◌∷◌, if◌then◌else◌, select, any, all, flat_map, insert_sorted,
  sort_by, Dict, get, get_or, put, keys, Text, codes, text_eq, text_le, starts_with, mem_text,
  before, after, is_digit, decimal_go, decimal, undecimal_go, undecimal,
}
use zark.Dependents.{is_ok, destroy_order, destroy_dependents}
use zark.Exclusions.{subtree}
use zark.Exclusions.Held.{
  held_of, same_record, read_value, read_values, read_point_mark, first_mark, add_lost, rewrite_of,
  rewrites_go, rewrites, Rewrite,
}
use zark.Exclusions.Held.Destroy.{
  record_mark, keep_held, rewrite, rewrite_all, drop_bookmarks, drop_in, drop_anchors,
  destroy_copies, settle, destroy_known, destroy_held,
}
use zark.Exclusions.Json.{
  Loads, hex_digit, unicode_escape, short_escape, dump_char, dump_text, dump, dump_items,
  dump_fields, fields_of, get_field, Json,
}
use zark.Exclusions.Record.{
  map_values, mark_value, dump_mark, part_prop, parts_needed, record_props, is_flags, add_top,
  read_tops, text_of, add_dataset, read_datasets, object_of, object_at, parse_data,
  parse_point_mark, PointMark,
}
use zark.Replication.Names.{
  strip_prefix, fits, matches, leading_digits, behind_digits, disk_of, anchor_disk, is_under,
}
use zark.RestorePoints.Complete.{
  distinct, datasets_of, named, without, counts_as, all_marked, is_complete, gone, is_counted,
  count_of, left_of, lost_of, full_target, loss_of, losing_names, point_losses, PointLoss,
}
use zark.RestorePoints.Model.{stored, Snap}
use zark.RestorePoints.Parse.{int_of}
use zark.Retention.Prune.{sorted_items}

unfoldable pub held_open : Unit {0}
unfolding strip_prefix disk_of behind_digits matches fits leading_digits text_eq text_le starts_with
    mem_text any all before after is_digit undecimal undecimal_go decimal_go decimal select flat_map
    insert_sorted sort_by get get_or put keys sorted_items is_under stored int_of distinct
    datasets_of named without gone is_counted count_of left_of lost_of full_target loss_of
    losing_names point_losses counts_as all_marked is_complete hex_digit unicode_escape short_escape
    dump_char dump_text dump dump_items dump_fields fields_of get_field map_values mark_value
    dump_mark part_prop parts_needed record_props is_flags add_top read_tops text_of add_dataset
    read_datasets object_of object_at parse_data parse_point_mark subtree anchor_disk is_ok
    destroy_order destroy_dependents held_of same_record read_value read_values read_point_mark
    first_mark add_lost rewrite_of rewrites_go rewrites record_mark keep_held rewrite rewrite_all
    drop_bookmarks drop_in drop_anchors destroy_copies settle destroy_known destroy_held
held_open = tt

abbrev pub home : Text
home = codes "rpool/home"

abbrev pub point : Text
point = codes "zark_2026-11-20_08:00:00Z"

abbrev pub snap_on : Text → Snap
snap_on ds = record {
  dataset = ds;
  name = point;
  creation = 10;
  createtxg = 5;
  guid = codes "7";
  source = [];
  mark = codes "2";
}

abbrev pub snaps : List Snap
snaps = snap_on (codes "rpool/root") ∷ snap_on home ∷ []

abbrev pub kept_target : Text
kept_target = codes "tank/rpool/root@zark_2026-11-20_08:00:00Z"

-- the record of the point before: nothing was left out
abbrev pub old_mark : Text
old_mark = dump_mark [] []

abbrev pub new_tops : Dict Text
new_tops = (home, codes "both") ∷ []

abbrev pub new_datasets : Dict (Text × Text)
new_datasets = (home, (codes "on", codes "/home")) ∷ []

abbrev pub new_mark : Text
new_mark = dump_mark new_tops new_datasets

abbrev pub loads : Loads
loads s =
    if text_eq s old_mark
    then some (mark_value [] [])
    else if text_eq s new_mark
    then some (mark_value new_tops new_datasets)
    else none

abbrev pub shown : Json → Text
shown v = dump v

abbrev pub records : Dict (Option Text)
records = (kept_target, some old_mark) ∷ []

abbrev pub recorded : Dict (Text × Text)
recorded = (home, (codes "on", codes "/home")) ∷ []

abbrev pub loss : PointLoss
loss = record { targets = kept_target ∷ []; lost = home ∷ []; count = 1 }

abbrev pub nothing_left_out : PointMark
nothing_left_out = record { tops = []; datasets = [] }

abbrev pub rewritten : Dict Rewrite
rewritten =
    (point, record { targets = kept_target ∷ []; complete = codes "1"; mark = new_mark }) ∷ []
