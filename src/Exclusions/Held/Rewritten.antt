-- ===== src/Exclusions/Held/Rewritten.antt =====
-- `_rewrites` of lib/exclusions.py: the points that a destroy takes part of are whole afterwards, and
-- what it took is recorded as left out.
use mathlib.Core.Path.{subst}
use zark.Base.{
  ◌≡◌, refl, sym, ap, ◌∙◌, ◌≢◌, inl, inr, Bool, true, false, not, Option, some, List, [], ◌∷◌, map,
  arith, Bool-cases, Option-cases, length, Elem, select, all, Dict, get, get_or, put, Text, codes,
  text_eq, mem_text, decimal, text_eq_refl, get-put, IsDistinct-put, length-map,
}
use zark.RestorePoints.Model.{Snap}
use zark.RestorePoints.Complete.{
  named, is_complete, gone, is_counted, left_of, lost_of, full_target, loss_of, point_losses,
  PointLoss,
}
use zark.RestorePoints.Complete.Losses.{
  remark, loss_of-facts, point_losses-loss_of, loss_at, point_losses-lists,
  point_losses-is_complete,
}
use zark.Exclusions.Json.{Loads, Json}
use zark.Exclusions.Record.{mark_value, dump_mark, is_flags, parse_point_mark, PointMark}
use zark.Exclusions.Record.Tables.{parse_point_mark-dump_mark, Holds}
use zark.Exclusions.Held.{
  held_of, same_record, read_value, read_values, read_point_mark, first_mark, add_lost, rewrite_of,
  rewrites_go, rewrites, MarkRead, Rewrite,
}
use zark.Exclusions.Held.Sound.{HasFlags-put, first_mark-IsSound, get-add_lost, IsDistinct-add_lost}

-- What the mark `m` says where it is `pm` with `top` and the datasets `lost` left out as well.
pub record Excludes (top flags : Text) (lost : List Text) (recorded : Dict (Text × Text))
    (pm m : PointMark) : Type 0 where
  pub top_flags : get top m.tops ≡ some flags
  pub other_tops : (t : Text) → text_eq t top ≡ false → get t m.tops ≡ get t pm.tops
  pub lost_values :
      (rel : Text)
      → mem_text rel lost ≡ true
      → get rel m.datasets ≡ some (get_or (codes "on", []) rel recorded)
  pub other_datasets :
      (rel : Text) → mem_text rel lost ≡ false → get rel m.datasets ≡ get rel pm.datasets

Holds-Excludes :
    (top flags : Text) (lost : List Text) (recorded : Dict (Text × Text)) (pm m : PointMark)
    → Holds (put top flags pm.tops) (add_lost recorded lost pm.datasets) m
    → Excludes top flags lost recorded pm m
Holds-Excludes top flags lost recorded pm m h = record {
  top_flags = h.same_tops top ∙ (get-put top top flags pm.tops ∙ rw (text_eq_refl top) refl);
  other_tops = λ t e. h.same_tops t ∙ (get-put t top flags pm.tops ∙ rw e refl);
  lost_values =
      λ rel e. h.same_datasets rel ∙ (get-add_lost recorded rel lost pm.datasets ∙ rw e refl);
  other_datasets =
      λ rel e. h.same_datasets rel ∙ (get-add_lost recorded rel lost pm.datasets ∙ rw e refl);
}

elem-rewrites_go :
    (f : PointLoss → Option Rewrite) (losses : Dict PointLoss) (out : Dict Rewrite) (name : Text)
    (l : PointLoss) (w : Rewrite)
    → rewrites_go f losses ≡ some out
    → Elem (name, l) losses
    → f l ≡ some w
    → Elem (name, w) out
unfolding rewrites_go
elem-rewrites_go f [] out name l w h m e = elim m [ ]
elem-rewrites_go f ((n, k) ∷ losses) out name l w h m e = elim (Option-cases (f k)) [
  | inl a ↦ absurd (cc (rw (rewrites_go, a) at h))
  | inr (v, a) ↦ elim (Option-cases (rewrites_go f losses)) [
    | inl b ↦ absurd (cc (rw (rewrites_go, a, b) at h))
    | inr (rest, b) ↦
        let whole : (n, v) ∷ rest ≡ out = cc (rw (rewrites_go, a, b) at h) in
        subst (Elem (name, w)) whole (elim m [
          | inl same ↦
              let val : some v ≡ some w = sym a ∙ (ap (λ (x : Text × PointLoss). f x.1) same ∙ e) in
              inl (cc (val, ap (λ (x : Text × PointLoss). x.0) same))
          | inr there ↦ inr (elem-rewrites_go f losses rest name l w b there e)
        ])
  ]
]

held_of-same :
    (records : Dict (Option Text)) (mark : Text) (targets : List Text)
    → ((t : Text) → Elem t targets → get t records ≡ some (some mark))
    → held_of records targets ≡ map (λ t. some mark) targets
unfolding held_of
held_of-same records mark [] h = refl
held_of-same records mark (t ∷ targets) h =
    rw (held_of, h t (inl refl), held_of-same records mark targets (λ s m. h s (inr m))) refl

all-same_record :
    (mark : Text) (targets : List Text)
    → all (same_record (some mark)) (map (λ t. some mark) targets) ≡ true
unfolding all same_record
all-same_record mark [] = refl
all-same_record mark (t ∷ targets) = ground (arith, text_eq_refl mark, all-same_record mark targets)

-- records that agree are read as what they say
read_values-same :
    (loads : Loads) (shown : Json → Text) (mark : Text) (targets : List Text) (m : PointMark)
    → length targets ≢ 0
    → parse_point_mark loads shown mark ≡ some m
    → read_values loads shown (map (λ t. some mark) targets) ≡ MarkRead.marked m
unfolding read_values read_value
read_values-same loads shown mark [] m ne e = absurd (ne refl)
read_values-same loads shown mark (t ∷ targets) m ne e =
    rw (all-same_record mark targets, read_value, e) refl

select_comm : (p q : Snap → Bool) (xs : List Snap) → select p (select q xs) ≡ select q (select p xs)
unfolding select
select_comm p q [] = refl
select_comm p q (x ∷ xs) = elim (Bool-cases (p x)) [
  | inl e ↦ elim (Bool-cases (q x)) [
    | inl f ↦ rw (e, f, e) (ap (λ l. x ∷ l) (select_comm p q xs))
    | inr f ↦ rw (e, f) (select_comm p q xs)
  ]
  | inr e ↦ elim (Bool-cases (q x)) [
    | inl f ↦ rw (e, f, e) (select_comm p q xs)
    | inr f ↦ rw (e, f) (select_comm p q xs)
  ]
]

named-left_of :
    (tops : List Text) (name : Text) (snaps : List Snap)
    → named name (left_of tops snaps) ≡ left_of tops (named name snaps)
unfolding named left_of
named-left_of tops name snaps =
    select_comm (λ s. text_eq s.name name) (λ s. not (gone tops s)) snaps

loss_of-targets :
    (pool : Text) (tops : List Text) (name : Text) (members : List Snap) (l : PointLoss)
    → loss_of pool tops name members ≡ some l
    → (l.targets ≡ map (full_target pool name) (left_of tops members)) × (length l.targets ≢ 0)
unfolding loss_of
loss_of-targets pool tops name members l h =
    let same : l.targets ≡ map (full_target pool name) (left_of tops members) = ground arith in
    let (ne, less, count) = loss_of-facts pool tops name members l h in
    (
      same,
      λ z. ne (
          sym (length-map (full_target pool name) (left_of tops members))
          ∙ (ap length (sym same) ∙ z)),
    )

-- What holds of a point which a destroy takes part of, once its rewrite was written on what is left of
-- it: it is complete, and it says that it left out `top` and what the destroy took.
pub record IsRewritten (loads : Loads) (shown : Json → Text) (pool top flags name : Text)
    (snaps : List Snap) (went : List Text) (recorded : Dict (Text × Text))
    (records' : Dict (Option Text)) (l : PointLoss) (pm : PointMark) (w : Rewrite) : Type 0 where
  pub targets_left : w.targets ≡ map (full_target pool name) (left_of went (named name snaps))
  pub is_whole : is_complete (map (remark w.complete) (left_of went (named name snaps))) ≡ true
  pub mark_read : PointMark
  pub reads :
      read_point_mark loads shown pool name (left_of went snaps) records'
      ≡ MarkRead.marked mark_read
  pub excludes : Excludes top flags l.lost recorded pm mark_read

read_point_mark-same :
    (loads : Loads) (shown : Json → Text) (pool name : Text) (snaps : List Snap) (went : List Text)
    (records' : Dict (Option Text)) (l : PointLoss) (mark : Text) (m : PointMark)
    → loss_of pool went name (named name snaps) ≡ some l
    → ((t : Text) → Elem t l.targets → get t records' ≡ some (some mark))
    → parse_point_mark loads shown mark ≡ some m
    → read_point_mark loads shown pool name (left_of went snaps) records' ≡ MarkRead.marked m
unfolding read_point_mark
read_point_mark-same loads shown pool name snaps went records' l mark m h held e =
    let (same, ne) = loss_of-targets pool went name (named name snaps) l h in
    let targets : map (full_target pool name) (named name (left_of went snaps)) ≡ l.targets =
      ap (map (full_target pool name)) (named-left_of went name snaps) ∙ sym same in
    rw (targets, held_of-same records' mark l.targets held)
      (read_values-same loads shown mark l.targets m ne e)

-- of one point that `point_losses` lists
elem-IsRewritten :
    (loads : Loads) (shown : Json → Text) (pool top flags : Text) (snaps : List Snap)
    (records records' : Dict (Option Text)) (went : List Text) (recorded : Dict (Text × Text))
    (rws : Dict Rewrite) (name : Text) (l : PointLoss) (pm : PointMark)
    → rewrites loads shown pool top flags snaps records went recorded ≡ some rws
    → Elem (name, l) (point_losses pool snaps went)
    → is_complete (named name snaps) ≡ true
    → is_flags flags ≡ true
    → first_mark loads shown (held_of records l.targets) ≡ some pm
    → (let tops = put top flags pm.tops in
        let datasets = add_lost recorded l.lost pm.datasets in
        (loads (dump_mark tops datasets) ≡ some (mark_value tops datasets))
        × ((t : Text) → Elem t l.targets → get t records' ≡ some (some (dump_mark tops datasets))))
    → (w : Rewrite) × Elem (name, w) rws
      × IsRewritten loads shown pool top flags name snaps went recorded records' l pm w
unfolding rewrites rewrite_of
elem-IsRewritten loads shown pool top flags snaps records records' went recorded rws name l pm h at
      whole ok first (own, held) =
    let sound = first_mark-IsSound loads shown (held_of records l.targets) pm first in
    let tops = put top flags pm.tops in
    let datasets = add_lost recorded l.lost pm.datasets in
    let (m, e, holds) =
      parse_point_mark-dump_mark loads shown tops datasets own
        (IsDistinct-put top flags pm.tops sound.tops_once)
        (HasFlags-put top flags pm.tops ok sound.tops_flags)
        (IsDistinct-add_lost recorded l.lost pm.datasets sound.datasets_once) in
    let loss = point_losses-loss_of pool snaps went name l at in
    let w : Rewrite = record {
      targets = l.targets;
      complete = decimal l.count;
      mark = dump_mark tops datasets;
    } in
    let made : rewrite_of loads shown top flags records recorded l ≡ some w =
      rw (rewrite_of, first) refl in
    (
      w,
      elem-rewrites_go (rewrite_of loads shown top flags records recorded)
          (point_losses pool snaps went) rws name l w h at made,
      record {
        targets_left = (loss_of-targets pool went name (named name snaps) l loss).0;
        is_whole = point_losses-is_complete pool snaps went name l at whole;
        mark_read = m;
        reads =
            read_point_mark-same loads shown pool name snaps went records' l
              (dump_mark tops datasets) m loss held e;
        excludes = Holds-Excludes top flags l.lost recorded pm m holds;
      },
    )

-- The destroy of a drive's copy of an excluded subtree leaves the points it takes part of whole. Take a
-- complete backup point which the destroy takes a snapshot `s` of, which loses datasets and keeps a
-- snapshot, and whose mark there is a count: there is a rewrite of it. Its names are those that are left of the point, they are complete under its count, and a point which holds
-- its record reads as one that left out `top` with these flags and each lost dataset with the values the
-- drive had of it, and otherwise what it left out before. `pm` is that earlier mark, the flags are those
-- of an exclusion, and `json.loads` must read back the new record as `json.dumps` wrote it.
pub rewrites-IsRewritten :
    (loads : Loads) (shown : Json → Text) (pool top flags : Text) (snaps : List Snap)
    (records records' : Dict (Option Text)) (went : List Text) (recorded : Dict (Text × Text))
    (rws : Dict Rewrite) (s : Snap) (pm : PointMark)
    → rewrites loads shown pool top flags snaps records went recorded ≡ some rws
    → Elem s snaps
    → gone went s ≡ true
    → is_counted s ≡ true
    → is_complete (named s.name snaps) ≡ true
    → length (lost_of went (named s.name snaps)) ≢ 0
    → length (left_of went (named s.name snaps)) ≢ 0
    → is_flags flags ≡ true
    → first_mark loads shown
        (held_of records (map (full_target pool s.name) (left_of went (named s.name snaps))))
      ≡ some pm
    → (let tops = put top flags pm.tops in
        let datasets = add_lost recorded (lost_of went (named s.name snaps)) pm.datasets in
        (loads (dump_mark tops datasets) ≡ some (mark_value tops datasets))
        × ((t : Text)
            → Elem t (map (full_target pool s.name) (left_of went (named s.name snaps)))
            → get t records' ≡ some (some (dump_mark tops datasets))))
    → (w : Rewrite) × Elem (s.name, w) rws
      × IsRewritten loads shown pool top flags s.name snaps went recorded records'
          (loss_at pool snaps went s.name)
          pm
          w
rewrites-IsRewritten loads shown pool top flags snaps records records' went recorded rws s pm h m g
      c whole lost left =
    elem-IsRewritten loads shown pool top flags snaps records records' went recorded rws s.name
      (loss_at pool snaps went s.name) pm h
      (point_losses-lists pool snaps went s m g c whole lost left) whole
