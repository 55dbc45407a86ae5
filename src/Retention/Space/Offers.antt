-- ===== src/Retention/Space/Offers.antt =====
-- The points that a space plan offers, and the snapshots that go with one.
use zark.Base.{
  ℕ, ◌+◌, ◌*◌, ◌<◌, ◌≡◌, ◌≢◌, ◌⊎◌, true, false, [], map, arith, Elem, select, elem-select_iff,
  elem-map_of, IsSorted, elem-sort_by_iff, sort_by-IsSorted, Dict, get_or, Text, text_eq, mem_text,
  text_eq-false, elem→mem_text,
}
use zark.Replication.Model.{Dest}
use zark.Retention.Points.{point_times, candidates, monthly_points, newest_complete, Candidate}
use zark.Retention.Points.Best.{elem-candidates}
use zark.Retention.Points.Times.{point_times-is_point, is_point-ne-nil}
use zark.Retention.Prune.{day, before_window, Removal, Prune, Request}
use zark.Retention.Space.{offered, time_le, space_candidates}
use zark.Retention.Points.Monthly.{IsBestOfMonth, monthly-best}

time_le-total :
    (times : Dict ℕ) (a b : Text) → (time_le times a b ≡ true) ⊎ (time_le times b a ≡ true)
time_le-total times a b = ground arith

time_le_trans :
    (times : Dict ℕ) (a b c : Text)
    → time_le times a b ≡ true
    → time_le times b c ≡ true
    → time_le times a c ≡ true
time_le_trans times a b c h k = ground arith

offered-facts :
    (times : Dict ℕ) (q : Request) (prune : Prune) (name : Text)
    → offered times q prune name ≡ true
    → (get_or 0 name times + q.policy.window_days * day < q.now)
      × (text_eq name (newest_complete times q.complete q.whole) ≡ false)
      × (mem_text name (map (λ r. r.name) prune.snapshots) ≡ false)
unfolding offered before_window
offered-facts times q prune name h = ground arith

-- A space plan lists its points oldest first. Each is the best complete point of its month, lies
-- outside the window, is not the newest complete point, and is not among the policy's removals.
pub space_candidates_sound :
    (dest : Dict Dest) (q : Request) (prune : Prune)
    → IsSorted (time_le (point_times dest)) (space_candidates dest q prune)
      × ((name : Text)
          → Elem name (space_candidates dest q prune)
          → ((b : Candidate) × (b.name ≡ name)
              × IsBestOfMonth (candidates (point_times dest) q.complete q.whole) b)
            × (get_or 0 name (point_times dest) + q.policy.window_days * day < q.now)
            × (name ≢ newest_complete (point_times dest) q.complete q.whole)
            × ((r : Removal) → Elem r prune.snapshots → r.name ≢ name))
unfolding space_candidates
space_candidates_sound dest q prune =
    let times = point_times dest in
    let names = select (offered times q prune) (monthly_points times q.complete q.whole) in
    let named : (c : Candidate) → Elem c (candidates times q.complete q.whole) → c.name ≢ [] =
      λ c e. is_point-ne-nil c.name (
        point_times-is_point dest c.name c.time (elem-candidates times q.complete q.whole c e).0) in
    (
      sort_by-IsSorted (time_le times) (time_le-total times) (time_le_trans times) names,
      λ name m.
          let s =
            (elem-select_iff (offered times q prune) name _).0
              ((elem-sort_by_iff (time_le times) name names).0 m) in
          let facts = offered-facts times q prune name s.1 in
          (
            monthly-best times q.complete q.whole named name s.0,
            facts.0,
            text_eq-false name _ facts.1,
            λ r e same.
                let there =
                  elem→mem_text name (map (λ (x : Removal). x.name) prune.snapshots)
                    (rw (← same) (elem-map_of (λ (r : Removal). r.name) r prune.snapshots e)) in
                absurd (cc (facts.2, there)),
          ),
    )
