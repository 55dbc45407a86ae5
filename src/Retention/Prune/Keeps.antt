-- ===== src/Retention/Prune/Keeps.antt =====
-- `plan_prune`: what the policy never removes, and what is old enough to go.
use mathlib.Core.Path.{subst}
use zark.Base.{
  ℕ, ◌≤◌, ◌≡◌, ap, ◌≢◌, ◌⊎◌, inl, inr, true, false, none, some, [], arith, Option-cases, Elem,
  elem-flat_map, elem-sort_by_iff, Dict, get, Text, text_eq, mem_text, text_eq-false,
}
use zark.Replication.Model.{newest, Ref, Dest}
use zark.Retention.Points.{
  snapshot_kind, point_times, newest_complete, FirstTime-cases, first_point_time, Kind, FirstTime,
}
use zark.Retention.Prune.{
  target_of, nothing, is_live, when_of, is_newest, keep_reason, decide, removal_of, removals_in,
  item_le, sorted_items, prune_in, setting_of, plan_prune, Removal, Prune, Setting, Decision,
  Request,
}

-- One snapshot that the loop removes, with the dataset that stores it.
pub record Removed (c : Setting) (dest : Dict Dest) (r : Removal) : Type 0 where
  pub dataset : Dest
  pub snap : Ref
  pub listed : Elem (r.rel, dataset) dest
  pub stored : Elem snap dataset.snaps
  pub named : snap.name ≡ r.name
  pub decided : decide c r.rel dataset snap ≡ Decision.remove r.reason

removal_of-decided :
    (rel name : Text) (v : Decision) (r : Removal)
    → Elem r (removal_of rel name v)
    → (rel ≡ r.rel) × (name ≡ r.name) × (v ≡ Decision.remove r.reason)
removal_of-decided rel name Decision.keep r m = elim m [ ]
removal_of-decided rel name (Decision.report why) r m = elim m [ ]
removal_of-decided rel name (Decision.remove why) r (inl e) =
    (ap (λ x. x.rel) e, ap (λ x. x.name) e, ap (λ x. Decision.remove x.reason) e)
removal_of-decided rel name (Decision.remove why) r (inr n) = elim n [ ]

pub prune_in-Removed :
    (c : Setting) (dest : Dict Dest) (r : Removal)
    → Elem r (prune_in c dest).snapshots
    → Removed c dest r
unfolding prune_in removals_in sorted_items
prune_in-Removed c dest r m =
    let ((rel, d), in_items, in_set) = elem-flat_map (removals_in c) r _ m in
    let (s, in_snaps, in_one) =
      elem-flat_map (λ s. removal_of rel s.name (decide c rel d s)) r d.snaps in_set in
    let (er, en, ev) = removal_of-decided rel s.name (decide c rel d s) r in_one in
    record {
      dataset = d;
      snap = s;
      listed = rw (← er) ((elem-sort_by_iff item_le (rel, d) dest).0 in_items);
      stored = in_snaps;
      named = en;
      decided = rw (← er) ev;
    }

-- What holds of every snapshot that is not kept for a reason.
pub record MayGo (c : Setting) (rel : Text) (d : Dest) (s : Ref) : Type 0 where
  pub known : snapshot_kind s.name ≢ Kind.other
  pub started : c.start ≤ when_of c.times s
  pub older : is_newest rel d s ≡ false
  pub other_point : s.name ≢ c.keep_point
  pub not_protected : mem_text (target_of rel s.name) c.protected ≡ false
  pub not_pinned : get (target_of rel s.name) c.pinned ≡ none

keep_reason-none :
    (c : Setting) (rel : Text) (d : Dest) (s : Ref)
    → keep_reason c rel d s ≡ none
    → (snapshot_kind s.name ≢ Kind.other)
      × (c.start ≤ when_of c.times s)
      × (is_newest rel d s ≡ false)
      × (text_eq s.name c.keep_point ≡ false)
      × (mem_text (target_of rel s.name) c.protected ≡ false)
unfolding keep_reason
keep_reason-none c rel d s h = ground arith

pub decide-MayGo :
    (c : Setting) (rel : Text) (d : Dest) (s : Ref) {why : Text}
    → decide c rel d s ≡ Decision.remove why
    → MayGo c rel d s
unfolding decide
decide-MayGo c rel d s h = elim (Option-cases (keep_reason c rel d s)) [
  | inr (w, e) ↦ absurd (ground arith)
  | inl e ↦ elim (Option-cases (get (target_of rel s.name) c.pinned)) [
    | inr (w, e') ↦ absurd (ground arith)
    | inl e' ↦
        let k = keep_reason-none c rel d s e in
        record {
          known = k.0;
          started = k.1;
          older = k.2;
          other_point = text_eq-false s.name c.keep_point k.3;
          not_protected = k.4;
          not_pinned = e';
        }
  ]
]

is_newest-false :
    (rel : Text) (d : Dest) (s n : Ref)
    → is_newest rel d s ≡ false
    → is_live rel d ≡ true
    → newest d ≡ some n
    → s.guid ≢ n.guid
unfolding is_newest
is_newest-false rel d s n h l e = text_eq-false s.guid n.guid (ground arith)

-- What the policy promises of each snapshot that it removes.
pub record Promise (dest : Dict Dest) (q : Request) (r : Removal) : Type 0 where
  pub dataset : Dest
  pub snap : Ref
  pub listed : Elem (r.rel, dataset) dest
  pub stored : Elem snap dataset.snaps
  pub named : snap.name ≡ r.name
  pub known : snapshot_kind r.name ≢ Kind.other
  pub not_newest :
      (n : Ref) → is_live r.rel dataset ≡ true → newest dataset ≡ some n → snap.guid ≢ n.guid
  pub not_newest_complete : r.name ≢ newest_complete (point_times dest) q.complete q.whole
  pub not_protected : mem_text (target_of r.rel r.name) q.protected ≡ false
  pub not_pinned : get (target_of r.rel r.name) q.pinned ≡ none

pub plan_prune-eq-ok :
    (dest : Dict Dest) (q : Request) (out : Prune)
    → plan_prune dest q ≡ FirstTime.ok out
    → (out ≡ nothing)
      ⊎ ((start : ℕ) × (first_point_time (point_times dest) q.first ≡ FirstTime.ok (some start))
          × (out ≡ prune_in (setting_of dest q start) dest))
unfolding plan_prune
plan_prune-eq-ok dest q out h =
    elim (FirstTime-cases (first_point_time (point_times dest) q.first)) [
      | inl e ↦ absurd (ground arith)
      | inr (start, e) ↦ elim (Option-cases start) [
        | inl e' ↦ inl (ground arith)
        | inr (t, e') ↦ inr (t, rw (← e') e, ground arith)
      ]
    ]

-- Every snapshot that the policy removes is on the drive under its name, is one that zark or sanoid
-- wrote, is not the newest snapshot of a live dataset, is not of the newest complete backup point,
-- and is neither protected for this run nor pinned by a clone or a hold.
pub plan_prune-Promise :
    (dest : Dict Dest) (q : Request) (out : Prune) (r : Removal)
    → plan_prune dest q ≡ FirstTime.ok out
    → Elem r out.snapshots
    → Promise dest q r
plan_prune-Promise dest q out r h m = elim (plan_prune-eq-ok dest q out h) [
  | inl e ↦
      let none_of : Elem r [] = subst (λ (p : Prune). Elem r p.snapshots) e m in elim none_of [ ]
  | inr (start, e', e) ↦
      let x =
        prune_in-Removed (setting_of dest q start) dest r
          (subst (λ (p : Prune). Elem r p.snapshots) e m) in
      let g = decide-MayGo _ r.rel x.dataset x.snap x.decided in
      record {
        dataset = x.dataset;
        snap = x.snap;
        listed = x.listed;
        stored = x.stored;
        named = x.named;
        known = rw (← x.named) g.known;
        not_newest = λ n l k. is_newest-false r.rel x.dataset x.snap n g.older l k;
        not_newest_complete = rw (← x.named) (unfold setting_of in g.other_point);
        not_protected = rw (← x.named) (unfold setting_of in g.not_protected);
        not_pinned = rw (← x.named) (unfold setting_of in g.not_pinned);
      }
]
