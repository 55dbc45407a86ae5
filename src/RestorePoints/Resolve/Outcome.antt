-- ===== src/RestorePoints/Resolve/Outcome.antt =====
-- `resolve`: what is chosen for a dataset, and when nothing is.
use mathlib.Core.Path.{subst}
use zark.Base.{
  ℕ, ◌≤◌, ◌<◌, ◌≡◌, refl, sym, ap, ◌∙◌, ◌⊎◌, inl, inr, Bool, true, false, ◌&&◌, Option, none, some,
  List, [], ◌∷◌, arith, leb, if◌then◌else◌, Bool-cases, Elem, List-cases, select, elem-select_iff,
  any→elem, elem→any, elem-map, elem-map_of, max_from, max_by, max_from-is_max, elem-max_from, Dict,
  get, get_or, keys, Text, text_eq, mem_text, text_eq→eq, eq→text_eq, text_eq-false, get-put,
}
use zark.RestorePoints.Model.{last_creation, end_of, is_point_snap, Snap, Point}
use zark.RestorePoints.Cluster.{by_name}
use zark.RestorePoints.Resolve.{
  age_le, newest_snap, counts, backups_of, lacks, ended, resolve_absent, resolve_one, resolve_from,
  resolve, Backup,
}

age_le-total : (a b : Snap) → (age_le a b ≡ true) ⊎ (age_le b a ≡ true)
unfolding age_le
age_le-total a b = ground arith

age_le_trans : (a b c : Snap) → age_le a b ≡ true → age_le b c ≡ true → age_le a c ≡ true
unfolding age_le
age_le_trans a b c h k = ground arith

newest_snap-is_newest :
    (x : Snap) (xs : List Snap)
    → (s : Snap) × (newest_snap (x ∷ xs) ≡ some s)
      × Elem s (x ∷ xs)
      × ((t : Snap) → Elem t (x ∷ xs) → age_le t s ≡ true)
unfolding newest_snap max_by
newest_snap-is_newest x xs =
    let top = max_from-is_max age_le age_le-total age_le_trans x xs in
    (
      max_from age_le x xs,
      refl,
      elem-max_from age_le x xs,
      λ t m. elim m [ inl e ↦ rw (← e) top.0 | inr k ↦ top.1 t k ],
    )

creation-le-last_creation :
    (s : Snap) (snaps : List Snap) → Elem s snaps → s.creation ≤ last_creation snaps
unfolding last_creation
creation-le-last_creation s [] m = elim m [ ]
creation-le-last_creation s (x ∷ snaps) (inl e) = rw e (omega arith)
creation-le-last_creation s (x ∷ snaps) (inr m) = omega (arith, creation-le-last_creation s snaps m)

-- Every counted backup point that is no newer than the run, and not before a snapshot of the dataset,
-- holds the dataset.
abbrev pub NotEnded : Point → List Snap → Option (List Text) → Text → Type 0
NotEnded p snaps complete ds =
    (bp : Point)
    → Elem bp (by_name (select is_point_snap snaps))
    → counts complete bp ≡ true
    → end_of bp ≤ end_of p
    → ((t : Snap) → Elem t snaps → t.dataset ≡ ds → t.creation ≤ end_of bp)
    → mem_text ds (keys bp.members) ≡ true

-- The four ways in which a dataset comes out for a chosen point.
pub data Outcome (p : Point) (snaps : List Snap) (complete : Option (List Text)) (ds : Text)
    : Option Snap → Type 0 where
  -- it is in the run: its newest snapshot there
  own :
      (s : Snap)
      → Elem s (get_or [] ds p.members)
      → ((t : Snap) → Elem t (get_or [] ds p.members) → age_le t s ≡ true)
      → Outcome p snaps complete ds (some s)
  -- it is not: its newest snapshot that is no newer than the run; and the dataset had not ended by then
  past :
      (s : Snap)
      → get_or [] ds p.members ≡ []
      → Elem s snaps
      → s.dataset ≡ ds
      → s.creation ≤ end_of p
      → ((t : Snap) → Elem t snaps → t.dataset ≡ ds → t.creation ≤ end_of p → age_le t s ≡ true)
      → NotEnded p snaps complete ds
      → Outcome p snaps complete ds (some s)
  -- it did not exist yet
  unborn :
      get_or [] ds p.members ≡ []
      → ((t : Snap) → Elem t snaps → t.dataset ≡ ds → end_of p < t.creation)
      → Outcome p snaps complete ds none
  -- a complete backup point, behind its last snapshot and no newer than the run, has it no more
  gone :
      (bp : Point)
      → get_or [] ds p.members ≡ []
      → Elem bp (by_name (select is_point_snap snaps))
      → counts complete bp ≡ true
      → end_of bp ≤ end_of p
      → mem_text ds (keys bp.members) ≡ false
      → ((t : Snap) → Elem t snaps → t.dataset ≡ ds → t.creation ≤ end_of bp)
      → Outcome p snaps complete ds none

last_creation-le :
    (n : ℕ) (snaps : List Snap)
    → ((t : Snap) → Elem t snaps → t.creation ≤ n)
    → last_creation snaps ≤ n
unfolding last_creation
last_creation-le n [] h = omega arith
last_creation-le n (s ∷ snaps) h =
    omega (arith, h s (inl refl), last_creation-le n snaps (λ t m. h t (inr m)))

-- a dataset that has not ended is held by each backup point behind its last snapshot
ended-false :
    (mine : List Snap) (backups : List Backup) (ds : Text) (s : Snap)
    → ((t : Snap) → Elem t mine → t.dataset ≡ ds)
    → Elem s mine
    → ended mine backups ≡ false
    → (b : Backup) → Elem b backups
    → last_creation mine ≤ b.time
    → mem_text ds b.held ≡ true
unfolding ended
ended-false [] backups ds s of_ds at h b m le = elim at [ ]
ended-false (x ∷ mine) backups ds s of_ds at h b m le =
    let same = of_ds x (inl refl) in
    elim (Bool-cases (lacks x.dataset (last_creation (x ∷ mine)) b)) [
      | inl t ↦
          let yes = elem→any (lacks x.dataset (last_creation (x ∷ mine))) b backups m t in
          absurd (cc (h, yes))
      | inr t ↦
          let held : mem_text x.dataset b.held ≡ true = unfold lacks in ground (arith, t, le) in
          rw (← same) held
    ]

ended-facts :
    (mine : List Snap) (backups : List Backup) (ds : Text)
    → ((t : Snap) → Elem t mine → t.dataset ≡ ds)
    → ended mine backups ≡ true
    → (b : Backup) × Elem b backups × (last_creation mine ≤ b.time) × (mem_text ds b.held ≡ false)
unfolding ended lacks
ended-facts [] backups ds of_ds h = absurd (cc (h))
ended-facts (s ∷ mine) backups ds of_ds h =
    let (b, m, l) = any→elem (lacks s.dataset (last_creation (s ∷ mine))) backups h in
    let same = of_ds s (inl refl) in
    (b, m, unfold lacks in ground arith, rw (← same) (unfold lacks in ground arith))

module _ (p : Point) (snaps : List Snap) (complete : Option (List Text)) (ds : Text) where
  abbrev of_ds : Snap → Bool
  of_ds s = text_eq s.dataset ds

  abbrev mine : List Snap
  mine = select of_ds snaps

  abbrev in_past : Snap → Bool
  in_past s = leb s.creation (end_of p)

  elem-mine : (t : Snap) → Elem t snaps → t.dataset ≡ ds → Elem t mine
  elem-mine t m e = (elem-select_iff of_ds t snaps).1 (m, eq→text_eq t.dataset ds e)

  mine-dataset : (t : Snap) → Elem t mine → t.dataset ≡ ds
  mine-dataset t m = text_eq→eq t.dataset ds ((elem-select_iff of_ds t snaps).0 m).1

  ended-Outcome :
      get_or [] ds p.members ≡ []
      → ended mine (backups_of snaps (end_of p) complete) ≡ true
      → Outcome p snaps complete ds none
  unfolding backups_of
  ended-Outcome absent h =
      let (b, m, le, lack) = ended-facts mine _ ds mine-dataset h in
      let (bp, at, e) = elem-map _ b _ m in
      let (listed, ok) =
        (elem-select_iff (λ (x : Point). leb (end_of x) (end_of p) && counts complete x) bp _).0
          at in
      let same : end_of bp ≡ b.time = ap (λ x. x.time) e in
      let held : keys bp.members ≡ b.held = ap (λ x. x.held) e in
      Outcome.gone bp absent listed (ground arith) (ground arith) (rw held lack)
        λ t k d. omega (arith, same, le, creation-le-last_creation t mine (elem-mine t k d))

  ended-NotEnded :
      (s : Snap)
      → Elem s mine
      → ended mine (backups_of snaps (end_of p) complete) ≡ false
      → NotEnded p snaps complete ds
  unfolding backups_of
  ended-NotEnded s at h bp listed ok le behind =
      ended-false mine (backups_of snaps (end_of p) complete) ds s mine-dataset at h
        (record { time = end_of bp; held = keys bp.members })
        (elem-map_of (λ (x : Point). record { time = end_of x; held = keys x.members }) bp _
          ((elem-select_iff (λ (x : Point). leb (end_of x) (end_of p) && counts complete x) bp _).1
            (listed, ground arith)))
        (last_creation-le (end_of bp) mine
          λ t m. behind t ((elem-select_iff of_ds t snaps).0 m).0 (mine-dataset t m))

  past-Outcome :
      get_or [] ds p.members ≡ []
      → ended mine (backups_of snaps (end_of p) complete) ≡ false
      → Outcome p snaps complete ds (newest_snap (select in_past mine))
  unfolding newest_snap max_by
  past-Outcome absent alive = elim (List-cases (select in_past mine)) [
    | inl e ↦ rw e (
        Outcome.unborn absent λ t m d. elim (Bool-cases (in_past t)) [
          | inl y ↦
              let at : Elem t [] =
                rw e at (elem-select_iff in_past t mine).1 (elem-mine t m d, y) in
              elim at [ ]
          | inr n ↦ ground arith
        ])
    | inr (x, xs, e) ↦
        let (s, is, m, top) = newest_snap-is_newest x xs in
        let at : Elem s mine × (in_past s ≡ true) = (elem-select_iff in_past s mine).0 (rw e m) in
        rw e (
          subst (Outcome p snaps complete ds) (sym is) (
            Outcome.past s absent ((elem-select_iff of_ds s snaps).0 at.0).0 (mine-dataset s at.0)
              (ground arith)
              (λ t k d old.
                top t (rw e at (elem-select_iff in_past t mine).1 (elem-mine t k d, ground arith)))
              (ended-NotEnded s at.0 alive)))
  ]

  abbrev backups : List Backup
  backups = backups_of snaps (end_of p) complete

  abbrev IsOutcome : Option Snap → Type 0
  IsOutcome r = Outcome p snaps complete ds r

  -- the two equations of `resolve_one`
  resolve_one-own :
      (x : Snap) (xs : List Snap)
      → get_or [] ds p.members ≡ x ∷ xs
      → resolve_one p snaps backups ds ≡ newest_snap (x ∷ xs)
  unfolding resolve_one
  resolve_one-own x xs e = ground arith

  resolve_one-absent :
      get_or [] ds p.members ≡ []
      → resolve_one p snaps backups ds
        ≡ (if ended mine backups then none else newest_snap (select in_past mine))
  unfolding resolve_one resolve_absent
  resolve_one-absent e = ground arith

  resolve_one-Outcome : IsOutcome (resolve_one p snaps backups ds)
  resolve_one-Outcome = elim (List-cases (get_or [] ds p.members)) [
    | inr (x, xs, e) ↦
        let (s, is, m, top) = newest_snap-is_newest x xs in
        subst IsOutcome (sym (resolve_one-own x xs e ∙ is))
          (Outcome.own s (rw e m) λ t k. top t (rw e at k))
    | inl e ↦ subst IsOutcome (sym (resolve_one-absent e)) (elim (Bool-cases (ended mine backups)) [
      | inl t ↦ rw t (ended-Outcome e t)
      | inr t ↦ rw t (past-Outcome e t)
    ])
  ]

resolve_from-get :
    (p : Point) (snaps : List Snap) (backups : List Backup) (datasets : List Text)
    (out : Dict (Option Snap)) (ds : Text)
    → ((get ds out ≡ some (resolve_one p snaps backups ds)) ⊎ Elem ds datasets)
    → get ds (resolve_from p snaps backups datasets out) ≡ some (resolve_one p snaps backups ds)
unfolding resolve_from
resolve_from-get p snaps backups [] out ds (inl e) = e
resolve_from-get p snaps backups [] out ds (inr m) = elim m [ ]
resolve_from-get p snaps backups (x ∷ datasets) out ds h =
    resolve_from-get p snaps backups datasets _ ds (elim (Bool-cases (text_eq ds x)) [
      | inl t ↦
          let same : ds ≡ x = text_eq→eq ds x t in inl (get-put ds x _ out ∙ rw t (rw same refl))
      | inr t ↦ elim h [
        | inl e ↦ inl (get-put ds x _ out ∙ rw t e)
        | inr m ↦ elim m [ inl e ↦ absurd (text_eq-false ds x t (sym e)) | inr k ↦ inr k ]
      ]
    ])

-- Every dataset that is asked for has an entry: its newest snapshot of the run; or, where the run
-- has none of it, its newest snapshot that is no newer than the run, and then every counted backup
-- point behind the dataset's last snapshot and no newer than the run holds it; or none, where it has no such
-- snapshot, or where a counted backup point behind its last snapshot and no newer than the run does
-- not hold it. Nothing comes from behind the run.
pub resolve-Outcome :
    (p : Point) (snaps : List Snap) (datasets : List Text) (complete : Option (List Text))
    (ds : Text)
    → Elem ds datasets
    → (r : Option Snap) × (get ds (resolve p snaps datasets complete) ≡ some r)
      × Outcome p snaps complete ds r
unfolding resolve
resolve-Outcome p snaps datasets complete ds m =
    (_, resolve_from-get p snaps _ datasets [] ds (inr m), resolve_one-Outcome p snaps complete ds)
