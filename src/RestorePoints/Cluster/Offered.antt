-- ===== src/RestorePoints/Cluster/Offered.antt =====
-- `restore_points`: the runs that are offered, and their order.

use mathlib.Core.Path.{subst}
use zark.Base.{
  ◌≡◌, ◌↔◌, ◌⊎◌, inl, inr, true, none, some, List, [], ◌∷◌, arith, Option-cases, Elem, flat_map,
  elem-flat_map, elem-flat_map_of, IsSorted, elem-sort_by_iff, sort_by-IsSorted, get, Text,
  text_le_total, text_le_trans,
}
use zark.RestorePoints.Model.{last_creation, Snap, Point}
use zark.RestorePoints.Cluster.{cluster, label_le, offer, restore_points}

label_le-total : (a b : Point) → (label_le a b ≡ true) ⊎ (label_le b a ≡ true)
unfolding label_le
label_le-total a b = ground (arith, text_le_total a.family b.family)

label_le_trans : (a b c : Point) → label_le a b ≡ true → label_le b c ≡ true → label_le a c ≡ true
unfolding label_le
label_le_trans a b c h k = ground (arith, text_le_trans a.family b.family c.family)

-- A run with the boot environment's root, under the time of the last snapshot of it there.
pub record IsOffer (snaps : List Snap) (be_root : Text) (p : Point) : Type 0 where
  pub run : Point
  pub roots : List Snap
  pub clustered : Elem run (cluster snaps)
  pub includes : get be_root run.members ≡ some roots
  pub labelled : record run { label = last_creation roots } ≡ p

offer-none : (be_root : Text) (q : Point) → get be_root q.members ≡ none → offer be_root q ≡ []
unfolding offer
offer-none be_root q e = ground arith

offer-some :
    (be_root : Text) (q : Point) (l : List Snap)
    → get be_root q.members ≡ some l
    → offer be_root q ≡ record q { label = last_creation l } ∷ []
unfolding offer
offer-some be_root q l e = ground arith

offer→IsOffer :
    (snaps : List Snap) (be_root : Text) (q p : Point)
    → Elem q (cluster snaps)
    → Elem p (offer be_root q)
    → IsOffer snaps be_root p
offer→IsOffer snaps be_root q p at m = elim (Option-cases (get be_root q.members)) [
  | inl e ↦
      let none_of : Elem p [] = subst (λ l. Elem p l) (offer-none be_root q e) m in elim none_of [ ]
  | inr (l, e) ↦ elim (subst (λ x. Elem p x) (offer-some be_root q l e) m) [
    | inl same ↦ record { run = q; roots = l; clustered = at; includes = e; labelled = same }
    | inr n ↦ elim n [ ]
  ]
]

IsOffer→offer :
    (snaps : List Snap) (be_root : Text) (p : Point)
    → (x : IsOffer snaps be_root p) → Elem p (offer be_root x.run)
unfolding offer
IsOffer→offer snaps be_root p x = rw (x.includes, offer) (inl x.labelled)

-- The restore points are exactly the runs that include the boot environment's root, each under the time
-- of its last snapshot there, in the order of that time and, where it is the same, of the family.
pub restore_points-IsOffer :
    (snaps : List Snap) (be_root : Text)
    → IsSorted label_le (restore_points snaps be_root)
      × ((p : Point) → Elem p (restore_points snaps be_root) ↔ IsOffer snaps be_root p)
unfolding restore_points
restore_points-IsOffer snaps be_root =
    let offers = flat_map (offer be_root) (cluster snaps) in
    (
      sort_by-IsSorted label_le label_le-total label_le_trans offers,
      λ p. (
        λ m.
            let (q, at, k) =
              elem-flat_map (offer be_root) p (cluster snaps)
                ((elem-sort_by_iff label_le p offers).0 m) in
            offer→IsOffer snaps be_root q p at k,
        λ x. (elem-sort_by_iff label_le p offers).1 (
            elem-flat_map_of (offer be_root) p x.run (cluster snaps) x.clustered
              (IsOffer→offer snaps be_root p x)),
      ),
    )
