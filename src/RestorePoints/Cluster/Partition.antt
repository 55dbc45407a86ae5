-- ===== src/RestorePoints/Cluster/Partition.antt =====
-- `cluster`: the points hold the snapshots, all of them and no other. `restore_points`: the runs that
-- are offered, and their order.
use mathlib.Core.Path.{subst}
use zark.Base.{
  ◌≡◌, sym, ◌↔◌, ◌⊎◌, inl, inr, Bool, not, ◌&&◌, ◌||◌, some, List, [], ◌∷◌, ◌++◌, arith, Bool-cases,
  Option-cases, Elem, select, elem-select_iff, elem-append_iff, flat_map, elem-flat_map,
  elem-flat_map_of, sort_by, elem-sort_by_iff, Dict, append_at, Text, codes, starts_with,
  elem-append_at_iff,
}
use zark.RestorePoints.Model.{family, members_of, is_point_snap, Snap, Point}
use zark.RestorePoints.Cluster.{
  by_name, run_le, no_runs, later_by_gap, repeated, closed, started, extended, step, run_steps,
  runs_of, family_points, by_family, family_le, cluster, Runs,
}
use zark.RestorePoints.Cluster.Members.{held_by, by_name-holds, closed-started, closed-extended}

step-cases :
    (sequential : Bool) (f : Text) (r : Runs) (a : Snap)
    → (step sequential f r a ≡ started f r a)
      ⊎ ((p : Point) × (r.current ≡ some p) × (step sequential f r a ≡ extended p r a))
unfolding step
step-cases sequential f r a = elim (Option-cases r.current) [
  | inl e ↦ inl (ground arith)
  | inr (p, e) ↦
      elim (Bool-cases (repeated r a || (not sequential && later_by_gap a.creation r.last))) [
        | inl t ↦ inl (ground arith)
        | inr t ↦ inr (p, e, ground arith)
      ]
]

step-holds :
    (sequential : Bool) (f : Text) (r : Runs) (a s : Snap)
    → Elem s (held_by (closed (step sequential f r a))) ↔ (Elem s (held_by (closed r)) ⊎ (a ≡ s))
step-holds sequential f r a s =
    let P : Runs → Type 0 =
      λ x. Elem s (held_by (closed x)) ↔ (Elem s (held_by (closed r)) ⊎ (a ≡ s)) in
    elim (step-cases sequential f r a) [
      | inl e ↦ subst P (sym e) (closed-started f r a s)
      | inr (p, c, e) ↦ subst P (sym e) (closed-extended p r a s c)
    ]

run_steps-holds :
    (sequential : Bool) (f : Text) (snaps : List Snap) (r : Runs) (s : Snap)
    → Elem s (held_by (closed (run_steps sequential f r snaps)))
      ↔ (Elem s (held_by (closed r)) ⊎ Elem s snaps)
unfolding run_steps
run_steps-holds sequential f [] r s = (λ m. inl m, λ m. elim m [ inl k ↦ k | inr n ↦ elim n [ ] ])
run_steps-holds sequential f (a ∷ snaps) r s =
    let rest = run_steps-holds sequential f snaps (step sequential f r a) s in
    let one = step-holds sequential f r a s in
    (
      λ m. elim (rest.0 m) [
        | inl k ↦ elim (one.0 k) [ inl q ↦ inl q | inr e ↦ inr (inl e) ]
        | inr k ↦ inr (inr k)
      ],
      λ m. rest.1 (elim m [
        | inl k ↦ inl (one.1 (inl k))
        | inr k ↦ elim k [ inl e ↦ inl (one.1 (inr e)) | inr q ↦ inr q ]
      ]),
    )

runs_of-holds :
    (f : Text) (snaps : List Snap) (s : Snap) → Elem s (held_by (runs_of f snaps)) ↔ Elem s snaps
unfolding runs_of
runs_of-holds f snaps s =
    let rest =
      run_steps-holds (starts_with (codes "syncoid_") f) f (sort_by run_le snaps) no_runs s in
    (
      λ m. elim (rest.0 m) [
        | inl n ↦ absurd (unfold flat_map in elim n [ ])
        | inr k ↦ (elem-sort_by_iff run_le s snaps).0 k
      ],
      λ m. rest.1 (inr ((elem-sort_by_iff run_le s snaps).1 m)),
    )

elem-held :
    (points : List Point) (s : Snap)
    → Elem s (held_by points) ↔ ((p : Point) × Elem p points × Elem s (members_of p))
elem-held points s = (
  λ m. let (p, at, k) = elem-flat_map members_of s points m in (p, at, k),
  λ x. elem-flat_map_of members_of s x.0 points x.1 x.2,
)

family_points-holds :
    (e : Text × List Snap) (s : Snap) → Elem s (held_by (family_points e)) ↔ Elem s e.1
unfolding family_points
family_points-holds (f, members) s =
    let points = select is_point_snap members in
    let others = select (λ x. not (is_point_snap x)) members in
    let named = by_name points in
    let runs = runs_of f others in
    (
      λ m.
          let (p, at, k) = (elem-held (named ++ runs) s).0 m in
          elim ((elem-append_iff p named runs).0 at) [
            | inl q ↦
                ((elem-select_iff is_point_snap s members).0
                  ((by_name-holds points s).0 ((elem-held named s).1 (p, q, k)))).0
            | inr q ↦
                ((elem-select_iff (λ x. not (is_point_snap x)) s members).0
                  ((runs_of-holds f others s).0 ((elem-held runs s).1 (p, q, k)))).0
          ],
      λ m. elim (Bool-cases (is_point_snap s)) [
        | inl t ↦
            let (p, at, k) =
              (elem-held named s).0
                ((by_name-holds points s).1 ((elem-select_iff is_point_snap s members).1 (m, t))) in
            (elem-held (named ++ runs) s).1 (p, (elem-append_iff p named runs).1 (inl at), k)
        | inr t ↦
            let (p, at, k) = (elem-held runs s).0 (
              (runs_of-holds f others s).1
                ((elem-select_iff (λ x. not (is_point_snap x)) s members).1 (m, ground arith))) in
            (elem-held (named ++ runs) s).1 (p, (elem-append_iff p named runs).1 (inr at), k)
      ],
    )

by_family-holds :
    (snaps : List Snap) (out : Dict (List Snap)) (s : Snap)
    → Elem s (flat_map (λ e. e.1) (by_family snaps out))
      ↔ (Elem s (flat_map (λ e. e.1) out) ⊎ Elem s snaps)
unfolding by_family
by_family-holds [] out s = (λ m. inl m, λ m. elim m [ inl k ↦ k | inr n ↦ elim n [ ] ])
by_family-holds (a ∷ snaps) out s =
    let rest = by_family-holds snaps (append_at (family a) a out) s in
    let one = elem-append_at_iff (family a) a out s in
    (
      λ m. elim (rest.0 m) [
        | inl k ↦ elim (one.0 k) [ inl q ↦ inl q | inr e ↦ inr (inl e) ]
        | inr k ↦ inr (inr k)
      ],
      λ m. rest.1 (elim m [
        | inl k ↦ inl (one.1 (inl k))
        | inr k ↦ elim k [ inl e ↦ inl (one.1 (inr e)) | inr q ↦ inr q ]
      ]),
    )

-- Clustering loses no snapshot and makes none up: a snapshot is a member of some point exactly where it
-- is one of those that were listed.
pub cluster-holds :
    (snaps : List Snap) (s : Snap)
    → ((p : Point) × Elem p (cluster snaps) × Elem s (members_of p)) ↔ Elem s snaps
unfolding cluster
cluster-holds snaps s =
    let groups = by_family snaps [] in
    let all_of = by_family-holds snaps [] s in
    (
      λ x.
          let (e, at, k) = elem-flat_map family_points x.0 (sort_by family_le groups) x.1 in
          let there =
            (family_points-holds e s).0 ((elem-held (family_points e) s).1 (x.0, k, x.2)) in
          let found = all_of.0 (
            elem-flat_map_of (λ (g : Text × List Snap). g.1) s e groups
              ((elem-sort_by_iff family_le e groups).0 at) there) in
          elim found [ inl n ↦ absurd (unfold flat_map in elim n [ ]) | inr m ↦ m ],
      λ m.
          let (e, at, k) =
            elem-flat_map (λ (g : Text × List Snap). g.1) s groups (all_of.1 (inr m)) in
          let (p, q, r) = (elem-held (family_points e) s).0 ((family_points-holds e s).1 k) in
          (
            p,
            elem-flat_map_of family_points p e (sort_by family_le groups)
                ((elem-sort_by_iff family_le e groups).1 at) q,
            r,
          ),
    )
