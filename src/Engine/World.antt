-- ===== src/Engine/World.antt =====
-- A small system for runs of lib/engine.py: two datasets, and a drive that takes what is sent.

use zark.Base.{
  ℕ, Bool, true, false, not, ◌&&◌, ◌||◌, none, [], ◌∷◌, if◌then◌else◌, select, any, all, find_first,
  get_last?, flat_map, insert_sorted, sort_by, Dict, get, get_or, has_key, put, keys, values,
  update, Text, codes, text_eq, text_le, starts_with, has_infix, mem_text, before, after,
  split_first, split, is_digit, decimal_go, decimal,
}
use zark.Replication.Names.{
  strip_prefix, fits, matches, is_point, leading_digits, behind_digits, disk_of, anchor_disk, drop,
  anchor_name, is_under, is_bpool, before_last, parent, is_archived, ends_with, has_type,
  sanoid_type, shared_kind, old_anchors,
}
use zark.Replication.Model.{with_guid, snap_by_guid, bookmark_by_guid, newest, Ref, Origin, Dest}
use zark.Replication.Plan.{
  is_excluded, is_volume, is_expected, expected, pair_le, container_row, excluded, live_of,
  clone_copy, clone_base, expected_row, excluded_rows, sum_referenced, declared_row, declared_rows,
  orphans, orphan_tops, continues_as, rename_of, renames, orphan_row, origin_rows, orphan_rows,
  plan, reached,
}
use zark.Anchors.{same_guids, anchor_point, release_point}
use zark.Engine.Model.{
  Trace, exec, look_origin, look_dest, look_owners, Event, Read, Printed, Env, Config, Run,
}
use zark.Engine.Sends.{
  later_than, after_bookmark, is_nonempty, bookmark_streams, token_of, send_args,
}
use zark.Engine.Drive.{
  is_held, is_missing, plan_survey, survey_dest, survey, lstrip, strip, from_cannot, last_message,
  pipe_message, to_lower, is_enospc, dst, state_text, sent_ok, not_sent, failed_send, send_all,
  transfer, resume_impossible, abort_partial, discard_one, discard_stale_partials, clear_mark,
  clear_marks, clear_orphan_marks, clear_excluded_kept, bare_dest, ensure_container, ensure_all,
  ensure_containers,
}
use zark.Engine.Rounds.{
  count_char, depth_le, depth_order, blocked_go, blocked_by_parent, is_success, set_outcome,
  mark_failed, after_resume, after_failure, attempt, is_blocked, take_turn, one_round, todo_of,
  rounds_go, rounds, Result,
}
use zark.Engine.Verdicts.{
  verdict, guids_of, is_partial, anchors_of, is_verified, other_owner, verified_reason,
  point_verdict, anchor_target, anchor_verdict, verdicts_on, seen_of, all_verdicts, gone_from,
  check_reads, drop_check,
}
use zark.Engine.Points.{
  origin_commands, anchor_again, anchor_one, anchor, has_anchor, held_snap, hold_one, hold_all,
  hold_reads, anchor_held, drop_one, drop_all, own_point, holds_point, is_at, is_present,
  remove_points, undo_rest, undo_read, undo_point,
}
use zark.Engine.Whole.{
  Decide, finish, verify, after_rounds, decided, replan, first_plans, replicate, Timed, stop_timer,
  wait_units, pause_sanoid, resume_sanoid, pool_targets, snapshot_pools, take_point, undo,
  after_replicate, with_point, before_point, paused, execute,
}
use zark.Calendar.{year_of_era, day_of_year, civil, stamp}
use zark.Replication.Names.Stamped.{point_name}
use zark.Replication.Dataset.{
  base_of, scan_older, first_later, plan_bookmark, plan_older, plan_from, plan_held,
  without_partial, plan_partial, plan_onto, plan_dataset,
}
use zark.Retention.Prune.{sorted_items}
use zark.Reclaim.Measure.{join}

-- what the runs compute with
unfoldable pub names_open : Unit {0}
unfolding text_eq text_le starts_with has_infix mem_text any all before after split split_first
    is_digit decimal decimal_go find_first select flat_map get_last? insert_sorted sort_by get
    get_or has_key put update keys values strip_prefix fits matches is_point leading_digits
    behind_digits disk_of anchor_disk drop anchor_name is_under is_bpool before_last parent
    is_archived ends_with has_type sanoid_type shared_kind old_anchors sorted_items join
names_open = tt

unfoldable pub plan_open : Unit {0}
unfolding names_open with_guid snap_by_guid bookmark_by_guid newest base_of scan_older first_later
    plan_bookmark plan_older plan_from plan_held without_partial plan_partial plan_onto plan_dataset
    is_excluded is_volume is_expected expected pair_le container_row excluded live_of clone_copy
    clone_base expected_row excluded_rows sum_referenced declared_row declared_rows orphans
    orphan_tops continues_as rename_of renames orphan_row origin_rows orphan_rows plan reached civil
    year_of_era day_of_year stamp point_name same_guids anchor_point release_point
plan_open = tt

unfoldable pub engine_open : Unit {0}
unfolding plan_open is_held is_missing plan_survey survey_dest survey lstrip strip from_cannot
    last_message pipe_message to_lower is_enospc dst state_text sent_ok not_sent failed_send
    send_all transfer resume_impossible abort_partial discard_one discard_stale_partials clear_mark
    clear_marks clear_orphan_marks clear_excluded_kept ensure_container ensure_all ensure_containers
    exec look_origin look_dest look_owners origin_commands anchor_again anchor_one anchor has_anchor
    held_snap hold_one hold_all hold_reads anchor_held drop_one drop_all own_point holds_point is_at
    is_present remove_points undo_rest undo_read undo_point count_char depth_le depth_order
    blocked_go blocked_by_parent is_success set_outcome mark_failed after_resume after_failure
    attempt is_blocked take_turn one_round todo_of rounds_go rounds later_than after_bookmark
    is_nonempty bookmark_streams token_of send_args verdict guids_of is_partial anchors_of
    is_verified other_owner verified_reason point_verdict anchor_target anchor_verdict verdicts_on
    seen_of all_verdicts gone_from check_reads drop_check finish verify after_rounds decided replan
    first_plans replicate stop_timer wait_units pause_sanoid resume_sanoid pool_targets
    snapshot_pools take_point undo after_replicate with_point before_point paused execute
engine_open = tt

abbrev pub point : Text
point = codes "zark_2026-11-20_08:00:00Z"

abbrev pub home : Text
home = codes "rpool/home"

abbrev pub ref_of : Text → Text → ℕ → Ref
ref_of name guid txg = record { name = name; guid = guid; createtxg = txg; creation = txg }

abbrev pub setting : Config
setting = record {
  pool = codes "red";
  disk_guid = codes "77";
  point = point;
  pools = codes "rpool" ∷ [];
  exclusions = [];
  ext4 = true;
  has_before_point = false;
}

-- whether something of a kind was done, and succeeded
abbrev pub was_sent : Event → Bool
was_sent (Event.send s d b x) = true
was_sent _ = false

abbrev pub was_taken : Event → Bool
was_taken (Event.snapshot names) = true
was_taken _ = false

abbrev pub was_anchored : Event → Bool
was_anchored (Event.bookmark a b) = true
was_anchored _ = false

abbrev pub was_destroyed : Event → Bool
was_destroyed (Event.destroy a) = true
was_destroyed _ = false

-- rpool/home has the point once it is taken, until it is destroyed, and the anchor once it is made.
unfoldable pub origin_after : Trace → Dict Origin
origin_after w =
    (
      home,
      record {
        rel = home;
        kind = codes "filesystem";
        canmount = codes "on";
        mountpoint = codes "/home";
        referenced = 4096;
        snaps =
            if any was_taken w && not (any was_destroyed w)
            then ref_of point (codes "12") 12 ∷ []
            else [];
        bookmarks =
            if any was_anchored w
            then ref_of (anchor_name (codes "77") point) (codes "12") 12 ∷ []
            else [];
        clone_of = [];
      },
    )
    ∷ []

-- The drive holds it once it is sent, where sending succeeds.
unfoldable pub dest_after : Bool → Trace → Dict Dest
dest_after sends w =
    if sends && any was_sent w
    then (home, record (bare_dest home) { snaps = ref_of point (codes "12") 12 ∷ [] }) ∷ []
    else []

abbrev pub printed_full : Printed
printed_full = record {
  stdout = [];
  stderr = codes "cannot receive: out of space" ∷ [];
  left = [];
  right = codes "cannot receive: out of space" ∷ [];
  returncode = 1;
}

-- `sends`: the drive has room; `lists`: it can be read
abbrev pub world : Bool → Bool → Env
world sends lists = record {
  succeeds = λ w e. sends || not (was_sent e);
  origin = λ w. Read.given (origin_after w);
  dest = λ w. if lists then Read.given (dest_after sends w) else Read.error (codes "no drive");
  owners = λ w. Read.given [];
  timer = λ w. codes "active";
  marker = λ w. false;
  units_busy = λ w. false;
  guids = λ a b w. none;
  printed = λ w e. printed_full;
}

abbrev pub always : Decide
always plans r = (true, r)

abbrev pub start : Run
start = record { origin = []; dest = []; started = []; trace = [] }

abbrev pub ran : Bool → Bool → Result × Timed
ran sends lists = execute (world sends lists) setting always start

-- The reads and probes aside, what was done, the first thing first.
abbrev pub is_act : Event → Bool
is_act Event.read_origin = false
is_act Event.read_dest = false
is_act Event.read_owners = false
is_act Event.ask_timer = false
is_act Event.ask_units = false
is_act _ = true
