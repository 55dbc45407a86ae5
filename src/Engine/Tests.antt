-- ===== src/Engine/Tests.antt =====
-- Whole runs over a world that answers by what was done, and the theorems at them.
use mathlib.Core.Path.{subst}
use zark.Base.{
  ◌≡◌, refl, sym, inl, inr, Bool, true, false, some, [], ◌∷◌, arith, Bool-cases, Elem, select, Dict,
  get, Text, codes, mem_text,
}
use zark.Replication.Names.{anchor_name}
use zark.Replication.Model.{bare, Origin, Dest, State, DatasetPlan}
use zark.Replication.Plan.{expected}
use zark.Anchors.{bookmark_of}
use zark.Engine.Model.{Stream, Event, Read, Run, Verdict, Adds}
use zark.Engine.Sends.{is_nonempty, send_args}
use zark.Engine.Drive.{not_sent}
use zark.Engine.Rounds.{no_result, is_success, take_turn, Turn}
use zark.Engine.Verdicts.{drop_check}
use zark.Engine.Points.{undo_point}
use zark.Engine.Whole.{replicate}
use zark.Engine.Drive.Calm.{Calmly}
use zark.Replication.Dataset.States.{HoldsPoint}
use zark.Retention.Prune.{target_of}
use zark.Engine.Sends.Chain.{IsChain, base_name, send_args-IsChain}
use zark.Engine.Verdicts.Safe.{drop_check-IsSpent, IsSpent, WasRead}
use zark.Engine.Rounds.Blocked.{take_turn-Above, Above}
use zark.Engine.Points.Undone.{Removes, stays_read, undo_point-Removes}
use zark.Engine.Whole.Timer.{is_stopped, execute-resumes}
use zark.Engine.Whole.Aborted.{replicate-Calmly}
use zark.Engine.Whole.Reached.{execute-HoldsPoint, SaysWhy, Listed}
use zark.Engine.World.{
  engine_open, point, home, setting, origin_after, dest_after, world, always, start, ran, is_act,
}

-- A first backup: the point, a whole stream, the anchor, and the point goes.
first_run :
    select is_act (ran true true).1.1.trace
    ≡ Event.remove_marker
      ∷ Event.start_timer
      ∷ Event.destroy (target_of home point)
      ∷ Event.bookmark (target_of home point) (bookmark_of home (anchor_name (codes "77") point))
      ∷ Event.send (Stream.whole true (target_of home point)) (codes "red/rpool/home") false []
      ∷ Event.snapshot (target_of home point ∷ [])
      ∷ Event.stop_timer
      ∷ Event.write_marker
      ∷ []
unfolding engine_open origin_after dest_after
first_run = refl

first_run_ok : is_success (ran true true).0 ≡ true
unfolding engine_open origin_after dest_after
first_run_ok = refl

-- A full drive: the outcome has both the message and the mark.
full_run :
    get home (ran false true).0.outcomes
    ≡ some (record {
      rel = home;
      ok = false;
      error = codes "cannot receive: out of space";
      enospc = true;
    })
unfolding engine_open origin_after dest_after
full_run = refl

-- A drive that cannot be read: the run is aborted, and its point goes.
unread_run : (ran true false).0.aborted ≡ true
unfolding engine_open origin_after dest_after
unread_run = refl

-- A listing of origin never fails here, one of the drive says why.
world-SaysWhy : (sends lists : Bool) → SaysWhy (world sends lists)
unfolding is_nonempty
world-SaysWhy sends lists = record {
  of_origin = λ w m h. absurd (ground arith);
  of_dest = λ w m h. elim (Bool-cases lists) [
    | inl t ↦ absurd (ground arith)
    | inr t ↦
        let same : codes "no drive" ≡ m = ground arith in
        subst (λ x. is_nonempty x ≡ true) same refl
  ];
}

execute-HoldsPoint_example :
    (origin : Dict Origin) × (dest : Dict Dest) × Listed (world true true) origin dest
    × ((rel : Text)
        → Elem rel (expected origin [])
        → (o : Origin) × (d : Dest) × (get rel origin ≡ some o)
          × (get rel dest ≡ some d)
          × (d.token ≡ [])
          × HoldsPoint o d point)
execute-HoldsPoint_example =
    execute-HoldsPoint (world true true) setting always start (world-SaysWhy true true) first_run_ok

start_not_stopped : is_stopped [] ≡ false
unfolding is_stopped
start_not_stopped = refl

execute-resumes_example :
    (is_stopped (ran false true).1.1.trace ≡ false) × ((ran false true).1.0 ≡ false)
execute-resumes_example =
    execute-resumes (world false true) setting always start (λ plans r. Adds.none_added)
      start_not_stopped

unread_replicate : (replicate (world true false) setting always start).0.aborted ≡ true
unfolding engine_open origin_after dest_after
unread_replicate = refl

replicate-Calmly_example : Calmly start (replicate (world true false) setting always start).1
replicate-Calmly_example =
    replicate-Calmly (world true false) setting always start (λ plans r. Adds.none_added)
      (inl unread_replicate)

-- behind a send and an anchor
abbrev sent_run : Run
sent_run = record start {
  trace =
      Event.bookmark (target_of home point) (bookmark_of home (anchor_name (codes "77") point))
      ∷ Event.send (Stream.whole true (target_of home point)) (codes "red/rpool/home") false []
      ∷ Event.snapshot (target_of home point ∷ [])
      ∷ [];
}

abbrev gone_point : Verdict
gone_point = record {
  target = target_of home point;
  drop = true;
  reason = codes "on the backup, anchored as zark_77_2026-11-20_08:00:00Z";
  owner = [];
}

sent_verdicts : (drop_check (world true true) setting sent_run).0 ≡ gone_point ∷ []
unfolding engine_open origin_after dest_after
sent_verdicts = refl

gone_point-elem : Elem gone_point (drop_check (world true true) setting sent_run).0
gone_point-elem = subst (Elem gone_point) (sym sent_verdicts) (inl refl)

drop_check-IsSpent_example :
    (origin : Dict Origin) × (dest : Dict Dest) × WasRead
      (world true true)
      setting
      sent_run
      origin
      dest
    × (rel : Text) × (o : Origin) × Elem (rel, o) origin
    × IsSpent setting
        (mem_text rel (expected origin []))
        rel
        o
        (get rel dest)
        (target_of home point)
drop_check-IsSpent_example =
    drop_check-IsSpent (world true true) setting sent_run gone_point gone_point-elem refl

-- from an anchor, by way of the hourly snapshot behind it
abbrev by_bookmark : DatasetPlan
by_bookmark = record (bare home State.via_bookmark) {
  base = codes "#zark_77_2026-11-10_08:00:00Z";
  first = codes "@autosnap_2026-11-19_10:00:00_hourly";
}

by_bookmark_run :
    send_args setting start by_bookmark false
    ≡ Stream.from_bookmark
        (codes "rpool/home#zark_77_2026-11-10_08:00:00Z")
        (codes "rpool/home@autosnap_2026-11-19_10:00:00_hourly")
      ∷ Stream.since true
          (codes "rpool/home@autosnap_2026-11-19_10:00:00_hourly")
          (target_of home point)
      ∷ []
unfolding engine_open
by_bookmark_run = refl

by_bookmark_base : is_nonempty (codes "#zark_77_2026-11-10_08:00:00Z") ≡ true
unfolding is_nonempty
by_bookmark_base = refl

send_args-IsChain_example :
    IsChain
      (base_name by_bookmark)
      (send_args setting start by_bookmark false)
      (target_of home point)
send_args-IsChain_example =
    send_args-IsChain setting start by_bookmark refl (inr (refl, by_bookmark_base))

-- rpool failed in the round, and rpool/home/ann is two levels below it
abbrev ann : Text
ann = codes "rpool/home/ann"

abbrev later_turn : Turn
later_turn = record { failed = codes "rpool" ∷ []; again = false; res = no_result; run = start }

ann_turn :
    (take_turn (world true true) setting (bare ann State.new) later_turn).res.outcomes
    ≡ (ann, not_sent ann (codes "parent did not reach the point")) ∷ []
unfolding engine_open
ann_turn = refl

take_turn-Above_example :
    (((a : Text) × Above a ann × Elem a (codes "rpool" ∷ []))
      → ((take_turn (world true true) setting (bare ann State.new) later_turn).run ≡ start)
        × (get ann
              (take_turn (world true true) setting (bare ann State.new) later_turn).res.outcomes
            ≡ some (not_sent ann (codes "parent did not reach the point"))))
    × (((a : Text) → Above a ann → Elem a (codes "rpool" ∷ []) → ⊥)
        → (take_turn (world true true) setting (bare ann State.new) later_turn).run.started
          ≡ ann ∷ [])
take_turn-Above_example =
    take_turn-Above (world true true) setting (bare ann State.new) later_turn refl

undo_point-Removes_example :
    ((m : Text)
      → (world true false).dest sent_run.trace ≡ Read.error m
      → Removes
          (λ rel. mem_text rel [])
          setting
          (expected [] [])
          sent_run.trace
          (undo_point (world true false) setting sent_run).trace)
    × ((dest : Dict Dest)
        → (world true false).dest sent_run.trace ≡ Read.given dest
        → Removes
            (stays_read (world true false) setting dest sent_run)
            setting
            (expected [] [])
            sent_run.trace
            (undo_point (world true false) setting sent_run).trace)
undo_point-Removes_example = undo_point-Removes (world true false) setting sent_run
