-- ===== src/Lib.antt =====
-- zark backs an Ubuntu ZFS system up to removable drives and restores it. This library models the
-- planners that decide what a backup sends, what a drive may forget, and what a point restores.
-- They are pure functions over listings of snapshots, and the shell side of the program runs what
-- they decide:
--   * lib/replication.py compares origin's datasets with the drive's and plans what each one needs;
--   * lib/retention.py says which snapshots of the drive may go;
--   * lib/restore_points.py groups the drive's snapshots into points, resolves a chosen point to one
--     snapshot per dataset, and says which points are complete, which retention takes as an argument;
--   * lib/origin_prune.py, lib/anchors.py: what may go in origin, and the anchors that each drive's next
--     backup starts from;
--   * lib/exclusions.py: the subtrees that a backup leaves out, which the planner takes as `skip`;
--   * lib/dependents.py: the clones that a destroy on a drive takes first, in which order;
--   * lib/reclaim.py: what the removals of retention free, and their destroy;
--   * lib/mount_props.py: the mount properties of what recover restores;
--   * lib/engine.py: the run that carries a plan out: it takes the point, surveys both sides, sends,
--     anchors what reached the point, and drops or undoes points in origin;
--   * lib/status.py: what the message of the day and the notifications say of the pools and the drives.
--
-- The files:
--   * Base: Python's `str`, `list`, `dict` and `sorted` as far as the source uses them, with their laws
--     (Base/Core, Lists, Sort, Strings, Dicts; the laws are in Lists, Sort, Texts and Laws;
--     Accounts says which of the names given to a loop came to which end);
--   * Calendar: `datetime` in UTC;
--   * Replication/Names: POINT_RE, ANCHOR_RE, SANOID_RE and the functions on names; Replication/Model:
--     Ref, Origin, Dest, State, DatasetPlan; Replication/Dataset: `_plan_dataset` (plan_held) and
--     `plan_dataset`; Replication/Plan: `expected`, `excluded`, `plan`, `_clone_base`, `_renames`,
--     `reached`, `shared_snapshots`;
--   * Retention/Points: `point_times`, `monthly_points`, `newest_complete`, `first_point_time`;
--     Retention/Prune: `plan_prune`, with the body of its loop in `decide`, and `whole_datasets`;
--     Retention/Space: `space_candidates`, `point_removals`;
--   * RestorePoints/Model: Snap, Point, `logical`; RestorePoints/Parse: `parse_snapshots`;
--     RestorePoints/Cluster: `cluster`, `restore_points`; RestorePoints/Resolve: `resolve`, `ended`;
--     RestorePoints/Complete: `is_complete`, `point_marks`, `skipped_points`, `point_losses`,
--     `complete_points`, `retention_points`;
--   * OriginPrune: `inventory`, `older_than`; Anchors: `anchor_point`, `release_point`, `disk_anchors`,
--     `drop_disk_anchors`, `restored_points`; Exclusions: `covering`, `never_excluded`, `_minimal`,
--     `parse`, and the tables of `point_mark`; Exclusions/Json: `json.dumps`, as the record needs it;
--     Exclusions/Record: `_dump`, `record_props`, `point_records`, `parse_point_mark`; Exclusions/Held:
--     `for_run`, `read_point_mark`, `_rewrites`; Exclusions/Held/Destroy: `record`, `keep_held`,
--     `destroy_held`, `_drop_anchors`; Dependents: `_trees`, `_topological`, `destroy_plan`,
--     `destroy_dependents`; Reclaim/Measure: `dry_run`, `reclaim`, `measure`; Reclaim/Destroy:
--     `destroy_snapshots`, `apply_prune`; MountProps: `choose`, `receive_options` and the others;
--     Engine/Model: Run, Outcome, Verdict, and the commands of a run; Engine/Sends: `_send_args`;
--     Engine/Drive: `survey`, `transfer`, `discard_stale_partials`, `ensure_containers` and the marks;
--     Engine/Rounds: Result, `_rounds`, `blocked_by_parent`; Engine/Verdicts: `drop_check`;
--     Engine/Points: `anchor`, `anchor_held`, `drop`, `undo_point`; Engine/Whole: `pause_sanoid`,
--     `take_point`, `replicate`, `execute`; Engine/World and Exclusions/Held/World: what the runs are on;
--     Status: `cap_lines`, `boot_line`, `rpo_line`; Status/Notices: `notices`, `motd_text`; Status/Due:
--     `due_notifications`.
-- The modules below each of these hold its proofs, and the Tests module of each part runs its
-- definitions.
--
-- How the code is written here. A text is the list of its code points. The names of datasets and
-- snapshots are those that ZFS allows, ASCII without a newline, so `\d` is a digit from 0 to 9 and `$`
-- is the end of the text. A `dict` is an association list in insertion order, and a `set` of names a
-- list. An object that a function changes while it builds it is a record that is passed on. Times are
-- seconds since the epoch as natural numbers: a comparison with `now - days * DAY` is written with the
-- days on the other side, so nothing is cut off at 0, and a recorded first point from before 1970 reads
-- as 1970, which sorts before every snapshot as well. Years are at most 9999. `int` reads the unsigned
-- digits that ZFS prints. A KeyError cannot occur where the source indexes a dict with a key it took
-- from that dict; the model gives no row there. The ValueError of `strptime` in `first_point_time` is
-- the value `value_error` of Retention/Points, and `plan_prune` passes it on; the one of a strict `zip` in
-- `notices` is `none`, as is the one that `destroy_held` lets out. In lib/status.py the command's name
-- (`zark_command`) and upgrade_risk.WARNING are arguments, and in lib/exclusions.py `json.loads`, SHA-256
-- and the `str` of a value that is no text.
--
-- The commands that a part runs are fields of a record over an abstract state (Zfs of Reclaim/Destroy,
-- Commands of Anchors, Writes of Exclusions/Held/Destroy, DestroyTree of Dependents) and what commands
-- print is read from one (Reads of Reclaim/Measure); a result holds whatever the commands answer. Names
-- reach them as the source spells them, without the quotes of the shell. Messages and log lines are left
-- out.
--
-- A run of lib/engine.py keeps a trace of what it did, commands and reads, and an environment (Env of
-- Engine/Model) answers each one by the trace so far: so it may answer in any way, and two reads may
-- differ. `_timer_was_active` stands beside the run. The user's decisions are a parameter, a function
-- of the plans and the run. An exception other than ReadError, and an interrupt, end a run outside of
-- the model.
--
-- Bounds. `_trees` of lib/dependents.py loops until no new clone is found; its fuel is one more than the
-- number of datasets of the drive, since each round takes one of them in. The loop of `_topological` has
-- as much fuel as there are trees, since a round takes a tree away. `archive_name` loops until a name is
-- free; its fuel is one more than the number of taken names, since each round finds one of them. The
-- digits of a number have the number itself, plus one, as fuel. The cut of a record into parts has its
-- length as fuel, since each part takes a character at least. All other functions are structural.
--
-- Not modelled: what the decisions of the user do on the drive, the estimates and the observer of
-- lib/engine.py, the execution of the commands (lib/zfs.py, lib/sh.py), the reading of the listings
-- (lib/survey.py), the status files and what fills a Status (`gather`), boot and recovery, and the
-- printed forms of points, blockers, plans and exclusions.
pub mod Anchors
pub mod Base
pub mod Calendar
pub mod Dependents
pub mod Engine
pub mod Exclusions
pub mod MountProps
pub mod OriginPrune
pub mod Reclaim
pub mod Replication
pub mod RestorePoints
pub mod Retention
pub mod Status
