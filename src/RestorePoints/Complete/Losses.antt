-- ===== src/RestorePoints/Complete/Losses.antt =====
-- `point_losses`: a complete point stays complete under its lowered count.
use mathlib.Core.Path.{subst}
use zark.Base.{
  ℕ, ◌-◌, ◌<◌, ◌≡◌, refl, sym, ap, ◌∙◌, ◌≢◌, inl, inr, true, false, ◌&&◌, none, some, List, [], ◌∷◌,
  map, arith, leb, Bool-cases, Option-cases, is_some, length, Elem, all, elem-select_iff, all→elem,
  elem-map_of, elem-flat_map, elem-flat_map_of, elem-sort_by_iff, Text, text_eq, text_le, is_digit,
  decimal, text_eq_refl, text_eq→eq,
}
use zark.RestorePoints.Model.{Snap}
use zark.RestorePoints.Parse.{int_of}
use zark.RestorePoints.Complete.{
  legacy_mark, distinct, datasets_of, named, counts_as, all_marked, is_complete, gone, is_counted,
  count_of, left_of, lost_of, full_target, loss_of, losing_names, point_losses, PointLoss,
}
use zark.RestorePoints.Complete.Datasets.{elem-distinct_iff, length-lost_of, int_of-decimal}

-- the mark that is written on a snapshot that is left
abbrev pub remark : Text → Snap → Snap
remark m s = record s { mark = m }

datasets_of-remark :
    (m : Text) (snaps : List Snap) → datasets_of (map (remark m) snaps) ≡ datasets_of snaps
unfolding datasets_of
datasets_of-remark m snaps = ap distinct (same snaps)
  where
    same : (xs : List Snap) → map (λ s. s.dataset) (map (remark m) xs) ≡ map (λ s. s.dataset) xs
    same [] = refl
    same (x ∷ xs) = ap (λ l. x.dataset ∷ l) (same xs)

all_marked-remark : (m : Text) (snaps : List Snap) → all_marked m (map (remark m) snaps) ≡ true
unfolding all_marked all
all_marked-remark m [] = refl
all_marked-remark m (s ∷ snaps) = ground (arith, text_eq_refl m, all_marked-remark m snaps)

counts_as-decimal : (n : ℕ) → counts_as (decimal n) n ≡ true
unfolding counts_as
counts_as-decimal n = ground (arith, int_of-decimal n)

-- snapshots that are marked with the number of their datasets
remark-is_complete :
    (n : ℕ) (left : List Snap)
    → length left ≢ 0
    → length (datasets_of left) ≡ n
    → is_complete (map (remark (decimal n)) left) ≡ true
unfolding is_complete
remark-is_complete n [] ne h = absurd (ne refl)
remark-is_complete n (s ∷ left) ne h =
    let count : length (datasets_of (map (remark (decimal n)) (s ∷ left))) ≡ n =
      ap length (datasets_of-remark (decimal n) (s ∷ left)) ∙ h in
    let counted : counts_as (decimal n) (length (datasets_of (map (remark (decimal n)) (s ∷ left))))
        ≡ true =
      rw count (counts_as-decimal n) in
    ground (arith, all_marked-remark (decimal n) left, counted)

count_of-none :
    (m : Text) (snaps : List Snap)
    → int_of m ≡ none
    → all_marked m snaps ≡ true
    → count_of snaps ≡ 0
unfolding count_of all_marked all
count_of-none m [] e h = refl
count_of-none m (s ∷ snaps) e h =
    let same : s.mark ≡ m = text_eq→eq s.mark m (ground arith) in
    let e' : int_of s.mark ≡ none = rw same e in
    rw (e', count_of) (count_of-none m snaps e (ground arith))

legacy_mark-no_count : (n : ℕ) → int_of legacy_mark ≢ some n
unfolding int_of all is_digit
legacy_mark-no_count n e = cc e

-- A complete point whose marks count holds as many datasets as they say.
count_of-is_complete :
    (members : List Snap)
    → is_complete members ≡ true
    → 0 < count_of members
    → count_of members ≡ length (datasets_of members)
unfolding is_complete count_of counts_as
count_of-is_complete [] h k = absurd (ground arith)
count_of-is_complete (s ∷ members) h k = elim (Option-cases (int_of s.mark)) [
  | inl e ↦
      let zero_of = count_of-none s.mark members e (ground arith) in
      absurd (ground (arith, zero_of))
  | inr (n, e) ↦ elim (Bool-cases (text_eq s.mark legacy_mark)) [
    | inl t ↦
        let same : s.mark ≡ legacy_mark = text_eq→eq s.mark legacy_mark t in
        absurd (legacy_mark-no_count n (rw (sym same) e))
    | inr t ↦ ground arith
  ]
]

pub loss_of-facts :
    (pool : Text) (tops : List Text) (name : Text) (members : List Snap) (l : PointLoss)
    → loss_of pool tops name members ≡ some l
    → (length (left_of tops members) ≢ 0)
      × (length (lost_of tops members) < count_of members)
      × (l.count ≡ count_of members - length (lost_of tops members))
unfolding loss_of
loss_of-facts pool tops name members l h = ground arith

loss_of-is_complete :
    (pool : Text) (tops : List Text) (name : Text) (members : List Snap) (l : PointLoss)
    → loss_of pool tops name members ≡ some l
    → is_complete members ≡ true
    → is_complete (map (remark (decimal l.count)) (left_of tops members)) ≡ true
loss_of-is_complete pool tops name members l h complete =
    let (ne, less, count) = loss_of-facts pool tops name members l h in
    let whole = count_of-is_complete members complete (omega (arith, less)) in
    remark-is_complete l.count (left_of tops members) ne
      (omega (arith, count, whole, less, length-lost_of tops members))

pub point_losses-loss_of :
    (pool : Text) (snaps : List Snap) (tops : List Text) (name : Text) (l : PointLoss)
    → Elem (name, l) (point_losses pool snaps tops)
    → loss_of pool tops name (named name snaps) ≡ some l
unfolding point_losses
point_losses-loss_of pool snaps tops name l m =
    let (n, at, k) = elem-flat_map _ (name, l) (losing_names snaps tops) m in
    elim (Option-cases (loss_of pool tops n (named n snaps))) [
      | inl e ↦
          let none_of : Elem {A = Text × PointLoss} (name, l) [] = rw e at k in elim none_of [ ]
      | inr (l', e) ↦
          let one : Elem {A = Text × PointLoss} (name, l) ((n, l') ∷ []) = rw e at k in
          elim one [
            | inl same ↦
                subst (λ (x : Text × PointLoss). loss_of pool tops x.0 (named x.0 snaps) ≡ some x.1)
                  same e
            | inr q ↦ elim q [ ]
          ]
    ]

-- where a snapshot of a complete point has a count, the point holds as many datasets
counted-is_complete :
    (s : Snap) (members : List Snap)
    → is_complete members ≡ true
    → Elem s members
    → is_counted s ≡ true
    → count_of members ≡ length (datasets_of members)
unfolding is_complete count_of counts_as is_counted all_marked
counted-is_complete s [] h m c = elim m [ ]
counted-is_complete s (x ∷ members) h m c =
    let same : s.mark ≡ x.mark = elim m [
      | inl e ↦ ap (λ (y : Snap). y.mark) (sym e)
      | inr k ↦
          text_eq→eq s.mark x.mark
            (all→elem (λ (y : Snap). text_eq y.mark x.mark) s members (ground (arith, h)) k)
    ] in
    elim (Option-cases (int_of s.mark)) [
      | inl e ↦ absurd (cc (c, ap is_some e))
      | inr (n, e) ↦
          let here : int_of x.mark ≡ some n = ap int_of (sym same) ∙ e in
          elim (Bool-cases (text_eq x.mark legacy_mark)) [
            | inl t ↦
                absurd (
                  legacy_mark-no_count n (ap int_of (sym (text_eq→eq x.mark legacy_mark t)) ∙ here))
            | inr t ↦ ground arith
          ]
    ]

datasets_of-nonempty : (snaps : List Snap) → length snaps ≢ 0 → 0 < length (datasets_of snaps)
unfolding datasets_of distinct
datasets_of-nonempty [] ne = absurd (ne refl)
datasets_of-nonempty (s ∷ snaps) ne = omega arith

-- what a destroy of the trees `tops` costs the point
abbrev pub loss_at : Text → List Snap → List Text → Text → PointLoss
loss_at pool snaps tops name = record {
  targets = map (full_target pool name) (left_of tops (named name snaps));
  lost = lost_of tops (named name snaps);
  count = count_of (named name snaps) - length (lost_of tops (named name snaps));
}

-- A complete point whose marks are a count, and which loses some datasets and keeps a snapshot, is
-- listed.
pub point_losses-lists :
    (pool : Text) (snaps : List Snap) (tops : List Text) (s : Snap)
    → Elem s snaps
    → gone tops s ≡ true
    → is_counted s ≡ true
    → is_complete (named s.name snaps) ≡ true
    → length (lost_of tops (named s.name snaps)) ≢ 0
    → length (left_of tops (named s.name snaps)) ≢ 0
    → Elem (s.name, loss_at pool snaps tops s.name) (point_losses pool snaps tops)
unfolding point_losses losing_names loss_of named
point_losses-lists pool snaps tops s m g c whole lost left =
    let members = named s.name snaps in
    let at : Elem s members =
      (elem-select_iff (λ (x : Snap). text_eq x.name s.name) s snaps).1 (m, text_eq_refl s.name) in
    let count = counted-is_complete s members whole at c in
    let some_left = datasets_of-nonempty (left_of tops members) left in
    let split = length-lost_of tops members in
    let more : leb (count_of members) (length (lost_of tops members)) ≡ false =
      ground (arith, count, some_left, split) in
    let listed : Elem s.name (losing_names snaps tops) = (elem-sort_by_iff text_le s.name _).1 (
      (elem-distinct_iff s.name _).1 (
        elem-map_of (λ (x : Snap). x.name) s _
          ((elem-select_iff (λ (x : Snap). gone tops x && is_counted x) s snaps).1
            (m, ground arith)))) in
    let it : loss_of pool tops s.name members ≡ some (loss_at pool snaps tops s.name) =
      ground arith in
    elem-flat_map_of _ (s.name, loss_at pool snaps tops s.name) s.name _ listed (rw it (inl refl))

-- A destroy of trees leaves every complete point that it takes part of complete, once the snapshots
-- that are left are marked with the count that is given for it.
pub point_losses-is_complete :
    (pool : Text) (snaps : List Snap) (tops : List Text) (name : Text) (l : PointLoss)
    → Elem (name, l) (point_losses pool snaps tops)
    → is_complete (named name snaps) ≡ true
    → is_complete (map (remark (decimal l.count)) (left_of tops (named name snaps))) ≡ true
point_losses-is_complete pool snaps tops name l m complete =
    loss_of-is_complete pool tops name (named name snaps) l
      (point_losses-loss_of pool snaps tops name l m) complete
