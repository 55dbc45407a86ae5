-- ===== src/RestorePoints/Cluster/Members.antt =====
-- The points that `_by_name` and the loop of `cluster` build: which snapshots they hold.
use mathlib.Core.Path.{subst}
use zark.Base.{
  ◌≡◌, refl, sym, ap, ◌↔◌, ◌⊎◌, inl, inr, some, List, [], ◌∷◌, ◌++◌, arith, Elem, elem-append_iff,
  flat_map, Dict, values, update, Text, elem-update_iff, elem-append_at_iff,
}
use zark.RestorePoints.Model.{family, members_of, Snap, Point}
use zark.RestorePoints.Cluster.{
  empty_point, add_member, by_name_from, by_name, closed, started, extended, Runs,
}

abbrev pub held_by : List Point → List Snap
held_by points = flat_map members_of points

members-add_member :
    (a : Snap) (p : Point) (s : Snap)
    → Elem s (members_of (add_member a p)) ↔ (Elem s (members_of p) ⊎ (a ≡ s))
unfolding members_of
members-add_member a p s = elem-append_at_iff a.dataset a p.members s

flat_map-values : (d : Dict Point) → flat_map (λ e. members_of e.1) d ≡ held_by (values d)
unfolding flat_map values
flat_map-values [] = refl
flat_map-values ((k, p) ∷ d) = ap (λ l. members_of p ++ l) (flat_map-values d)

by_name_from-holds :
    (snaps : List Snap) (points : Dict Point) (s : Snap)
    → Elem s (flat_map (λ e. members_of e.1) (by_name_from snaps points))
      ↔ (Elem s (flat_map (λ e. members_of e.1) points) ⊎ Elem s snaps)
unfolding by_name_from
by_name_from-holds [] points s = (λ m. inl m, λ m. elim m [ inl k ↦ k | inr n ↦ elim n [ ] ])
by_name_from-holds (a ∷ snaps) points s =
    let next = update (add_member a) (empty_point (family a)) a.name points in
    let rest = by_name_from-holds snaps next s in
    let one =
      elem-update_iff members_of (add_member a) (empty_point (family a)) a (members-add_member a)
        (unfold members_of flat_map in refl) a.name points s in
    (
      λ m. elim (rest.0 m) [
        | inl k ↦ elim (one.0 k) [ inl q ↦ inl q | inr e ↦ inr (inl e) ]
        | inr k ↦ inr (inr k)
      ],
      λ m. rest.1 (elim m [
        | inl k ↦ inl (one.1 (inl k))
        | inr k ↦ elim k [ inl e ↦ inl (one.1 (inr e)) | inr q ↦ inr q ]
      ]),
    )

pub by_name-holds : (snaps : List Snap) (s : Snap) → Elem s (held_by (by_name snaps)) ↔ Elem s snaps
unfolding by_name
by_name-holds snaps s =
    let same = flat_map-values (by_name_from snaps []) in
    let all_of = by_name_from-holds snaps [] s in
    (
      λ m. elim (all_of.0 (rw (sym same) at m)) [
        | inl n ↦ absurd (unfold flat_map in elim n [ ])
        | inr k ↦ k
      ],
      λ m. rw same at (all_of.1 (inr m)),
    )

elem-held_append_one :
    (points : List Point) (p : Point) (s : Snap)
    → Elem s (held_by (points ++ p ∷ [])) ↔ (Elem s (held_by points) ⊎ Elem s (members_of p))
unfolding flat_map
elem-held_append_one [] p s = (
  λ m. elim ((elem-append_iff s (members_of p) []).0 m) [ inl k ↦ inr k | inr n ↦ elim n [ ] ],
  λ m. (elem-append_iff s (members_of p) []).1 (elim m [ inl n ↦ elim n [ ] | inr k ↦ inl k ]),
)
elem-held_append_one (q ∷ points) p s =
    let rest = elem-held_append_one points p s in
    (
      λ m. elim ((elem-append_iff s (members_of q) (held_by (points ++ p ∷ []))).0 m) [
        | inl k ↦ inl ((elem-append_iff s (members_of q) (held_by points)).1 (inl k))
        | inr k ↦ elim (rest.0 k) [
          | inl r ↦ inl ((elem-append_iff s (members_of q) (held_by points)).1 (inr r))
          | inr r ↦ inr r
        ]
      ],
      λ m. (elem-append_iff s (members_of q) (held_by (points ++ p ∷ []))).1 (elim m [
        | inl k ↦ elim ((elem-append_iff s (members_of q) (held_by points)).0 k) [
          | inl r ↦ inl r
          | inr r ↦ inr (rest.1 (inl r))
        ]
        | inr k ↦ inr (rest.1 (inr k))
      ]),
    )

-- The points so far, and the one that the loop is at, hold one snapshot more after a round.
pub closed-started :
    (f : Text) (r : Runs) (a s : Snap)
    → Elem s (held_by (closed (started f r a))) ↔ (Elem s (held_by (closed r)) ⊎ (a ≡ s))
closed-started f r a s =
    let add = elem-held_append_one (closed r) (add_member a (empty_point f)) s in
    let one = members-add_member a (empty_point f) s in
    (
      λ m. elim (add.0 m) [
        | inl k ↦ inl k
        | inr k ↦ elim (one.0 k) [
          | inl n ↦ absurd (unfold members_of flat_map in elim n [ ])
          | inr e ↦ inr e
        ]
      ],
      λ m. add.1 (elim m [ inl k ↦ inl k | inr e ↦ inr (one.1 (inr e)) ]),
    )

pub closed-extended :
    (p : Point) (r : Runs) (a s : Snap)
    → r.current ≡ some p
    → Elem s (held_by (closed (extended p r a))) ↔ (Elem s (held_by (closed r)) ⊎ (a ≡ s))
closed-extended p r a s e =
    let add = elem-held_append_one r.done (add_member a p) s in
    let was = elem-held_append_one r.done p s in
    let one = members-add_member a p s in
    let same : closed r ≡ r.done ++ p ∷ [] = ground arith in
    subst (λ x. Elem s (held_by (r.done ++ add_member a p ∷ [])) ↔ (Elem s (held_by x) ⊎ (a ≡ s)))
      (sym same)
      (
        λ m. elim (add.0 m) [
          | inl k ↦ inl (was.1 (inl k))
          | inr k ↦ elim (one.0 k) [ inl q ↦ inl (was.1 (inr q)) | inr q ↦ inr q ]
        ],
        λ m. add.1 (elim m [
          | inl k ↦ elim (was.0 k) [ inl q ↦ inl q | inr q ↦ inr (one.1 (inl q)) ]
          | inr q ↦ inr (one.1 (inr q))
        ]),
      )
