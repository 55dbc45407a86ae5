-- ===== src/RestorePoints/Complete/Runs.antt =====
-- Complete points, skipped points, and the points whose run was complete.
use mathlib.Core.Path.{subst}
use zark.Base.{
  ℕ, ◌<◌, ◌≡◌, refl, sym, ◌≢◌, inl, inr, Bool, true, false, List, [], ◌∷◌, map, arith, leb,
  Bool-cases, Elem, List-cases, select, elem-select_iff, any→elem, elem-map_of, Dict, keys, Text,
  text_eq, mem_text, text_eq→eq, eq→text_eq, elem→mem_text, elem-keys, elem_keys→elem,
}
use zark.RestorePoints.Model.{last_creation, first_creation, Snap}
use zark.RestorePoints.Complete.{
  distinct, datasets_of, named, of_dataset, skips, is_skipped, point_names, skipped_points,
  point_marks, is_complete, run_complete_points, complete_points,
}
use zark.RestorePoints.Complete.Datasets.{elem-distinct_iff}

elem-keys_select :
    {V : Type 0} (p : Text × V → Bool) (k : Text) (d : Dict V)
    → Elem k (keys (select p d))
    → Elem k (keys d)
elem-keys_select p k d m =
    let (v, at) = elem_keys→elem k (select p d) m in
    elem-keys k v d ((elem-select_iff p (k, v) d).0 at).0

legacy-points :
    (snaps : List Snap) (last_point : Text)
    → point_marks snaps ≡ []
    → complete_points snaps last_point ≡ run_complete_points snaps last_point
unfolding complete_points run_complete_points
legacy-points snaps last_point e = ground arith

marked-points :
    (snaps : List Snap) (last_point : Text) (x : Text × List Snap) (xs : Dict (List Snap))
    → point_marks snaps ≡ x ∷ xs
    → (complete_points snaps last_point ≡ keys (select (λ m. is_complete m.1) (x ∷ xs)))
      × (run_complete_points snaps last_point ≡ keys (x ∷ xs))
unfolding complete_points run_complete_points
marked-points snaps last_point x xs e = (ground arith, ground arith)

-- A point that is complete now had a complete run, and so retention judges it by its run.
pub complete_points-run :
    (snaps : List Snap) (last_point name : Text)
    → Elem name (complete_points snaps last_point)
    → Elem name (run_complete_points snaps last_point)
complete_points-run snaps last_point name m = elim (List-cases (point_marks snaps)) [
  | inl e ↦ subst (λ l. Elem name l) (legacy-points snaps last_point e) m
  | inr (x, xs, e) ↦
      let (now, run) = marked-points snaps last_point x xs e in
      subst (λ l. Elem name l) (sym run)
        (elem-keys_select (λ (y : Text × List Snap). is_complete y.1) name (x ∷ xs)
          (subst (λ l. Elem name l) now m))
]

-- the times of a dataset's snapshots lie between the first and the last
last_creation-attained :
    (s : Snap) (more : List Snap)
    → (t : Snap) × Elem t (s ∷ more) × (t.creation ≡ last_creation (s ∷ more))
unfolding last_creation
last_creation-attained s [] = (s, inl refl, omega arith)
last_creation-attained s (x ∷ more) =
    let (t, at, e) = last_creation-attained x more in
    elim (Bool-cases (leb (last_creation (x ∷ more)) s.creation)) [
      | inl h ↦ (s, inl refl, unfold last_creation in ground arith)
      | inr h ↦ (t, inr at, unfold last_creation in ground (arith, e))
    ]

first_creation-attained :
    (s : Snap) (more : List Snap)
    → (t : Snap) × Elem t (s ∷ more) × (t.creation ≡ first_creation s more)
unfolding first_creation
first_creation-attained s [] = (s, inl refl, refl)
first_creation-attained s (x ∷ more) =
    let (t, at, e) = first_creation-attained x more in
    elim (Bool-cases (leb s.creation (first_creation x more))) [
      | inl h ↦ (s, inl refl, ground arith)
      | inr h ↦ (t, inr at, ground (arith, e))
    ]

-- What `skipped_points` says of a point: a dataset without it has snapshots before and after it.
pub record IsSkipped (snaps : List Snap) (name : Text) : Type 0 where
  pub dataset : Text
  pub earlier : Snap
  pub later : Snap
  pub early_one : Elem earlier snaps × (earlier.dataset ≡ dataset)
  pub late_one : Elem later snaps × (later.dataset ≡ dataset)
  pub before_it : earlier.creation < last_creation (named name snaps)
  pub behind_it : last_creation (named name snaps) < later.creation
  pub without_it : (s : Snap) → Elem s snaps → s.dataset ≡ dataset → s.name ≢ name

skips-facts :
    (snaps : List Snap) (held : List Text) (time : ℕ) (ds : Text)
    → skips snaps held time ds ≡ true
    → (s : Snap) × (more : List Snap) × (of_dataset ds snaps ≡ s ∷ more)
      × (mem_text ds held ≡ false)
      × (first_creation s more < time)
      × (time < last_creation (s ∷ more))
unfolding skips
skips-facts snaps held time ds h = elim (List-cases (of_dataset ds snaps)) [
  | inl e ↦ absurd (ground arith)
  | inr (s, more, e) ↦ (s, more, e, ground arith, ground arith, ground arith)
]

of_dataset-facts :
    (ds : Text) (snaps : List Snap) (s : Snap)
    → Elem s (of_dataset ds snaps)
    → Elem s snaps × (s.dataset ≡ ds)
unfolding of_dataset
of_dataset-facts ds snaps s m =
    let r = (elem-select_iff (λ (x : Snap). text_eq x.dataset ds) s snaps).0 m in
    (r.0, text_eq→eq s.dataset ds r.1)

datasets_of-member :
    (name ds : Text) (snaps : List Snap) (s : Snap)
    → Elem s snaps
    → s.dataset ≡ ds
    → s.name ≡ name
    → mem_text ds (datasets_of (named name snaps)) ≡ true
unfolding datasets_of named
datasets_of-member name ds snaps s m d n =
    let members = select (λ (x : Snap). text_eq x.name name) snaps in
    let there =
      elem-map_of (λ (x : Snap). x.dataset) s members
        ((elem-select_iff (λ (x : Snap). text_eq x.name name) s snaps).1
          (m, eq→text_eq s.name name n)) in
    elem→mem_text ds _ (
      subst (λ x. Elem x (distinct (map (λ (y : Snap). y.dataset) members))) d
        ((elem-distinct_iff s.dataset _).1 there))

-- A point counts as skipped only where some dataset has snapshots before and after its time, and none
-- of the point.
pub skipped_points-IsSkipped :
    (snaps : List Snap) (name : Text) → Elem name (skipped_points snaps) → IsSkipped snaps name
unfolding skipped_points is_skipped
skipped_points-IsSkipped snaps name m =
    let skipped = ((elem-select_iff (is_skipped snaps) name (point_names snaps)).0 m).1 in
    let members = named name snaps in
    let (ds, at, h) =
      any→elem (skips snaps (datasets_of members) (last_creation members)) _ skipped in
    let (s, more, e, absent, early, late) = skips-facts snaps _ _ ds h in
    let (x, x_in, x_is) = first_creation-attained s more in
    let (y, y_in, y_is) = last_creation-attained s more in
    record {
      dataset = ds;
      earlier = x;
      later = y;
      early_one = of_dataset-facts ds snaps x (rw e x_in);
      late_one = of_dataset-facts ds snaps y (rw e y_in);
      before_it = omega (arith, x_is, early);
      behind_it = omega (arith, y_is, late);
      without_it = λ z k d n. absurd (cc (absent, datasets_of-member name ds snaps z k d n));
    }
