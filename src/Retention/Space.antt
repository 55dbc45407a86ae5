-- ===== src/Retention/Space.antt =====
-- lib/retention.py: the points that a space plan may offer beyond the policy.
pub mod Offers
use zark.Base.{
  ℕ, Bool, not, ◌&&◌, List, map, leb, select, flat_map, sort_by, Dict, get_or, has_key, Text, codes,
  text_eq, mem_text,
}
use zark.Replication.Model.{Ref, Dest}
use zark.Retention.Points.{point_times, monthly_points, newest_complete, point}
use zark.Retention.Prune.{
  target_of, before_window, is_newest, sorted_items, Removal, Prune, Request,
}

unfoldable pub offered : Dict ℕ → Request → Prune → Text → Bool
offered times q prune name =
    before_window q.policy q.now (get_or 0 name times)
    && (not (text_eq name (newest_complete times q.complete q.whole))
        && not (mem_text name (map (λ r. r.name) prune.snapshots)))

abbrev pub time_le : Dict ℕ → Text → Text → Bool
time_le times a b = leb (get_or 0 a times) (get_or 0 b times)

unfoldable pub space_candidates : Dict Dest → Request → Prune → List Text
space_candidates dest q prune =
    let times = point_times dest in
    sort_by (time_le times)
      (select (offered times q prune) (monthly_points times q.complete q.whole))

-- The loop body of `point_removals`: whether the snapshot goes.
unfoldable pub goes_with : Dict Text → List Text → Text → Text → Dest → Ref → Bool
goes_with pinned protected name rel d s =
    text_eq s.name name
    && (not (has_key (target_of rel s.name) pinned)
        && (not (mem_text (target_of rel s.name) protected) && not (is_newest rel d s)))

unfoldable pub point_removals : Dict Dest → Text → Dict Text → List Text → List Removal
point_removals dest name pinned protected =
    flat_map
      (λ e.
        map
          (λ s. record {
            rel = e.0;
            name = s.name;
            reason = codes "oldest monthly point, to free space";
          })
          (select (goes_with pinned protected name e.0 e.1) e.1.snaps))
      (sorted_items dest)
