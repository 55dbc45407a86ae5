-- ===== src/Dependents/Trees.antt =====
-- The loop of `_trees` ends: every round takes a dataset into the trees.
use zark.Base.{
  ℕ, zero, suc, ◌<◌, ◌≡◌, refl, inl, inr, Bool, true, not, ◌||◌, some, List, [], ◌∷◌, ◌++◌, map,
  arith, length, Elem, List-cases, select, any, elem-select_iff, elem→any, elem-map_of, Dict, Text,
  text_eq_refl, length-select-lt, length-select,
}
use zark.Replication.Names.{is_under}
use zark.Replication.Model.{Dest}
use zark.Reclaim.Measure.{is_under_any}
use zark.Dependents.{is_dependent, dependent_of, trees_go, is_top, trees, Dependent}

-- whether a dataset is still outside the trees
abbrev is_outside : List Text → Text × Dest → Bool
is_outside gone e = not (is_under_any e.0 gone)

is_under_any-append :
    (rel : Text) (gone more : List Text)
    → is_under_any rel (gone ++ more) ≡ (is_under_any rel gone || is_under_any rel more)
unfolding is_under_any any
is_under_any-append rel [] more = refl
is_under_any-append rel (t ∷ gone) more = ground (arith, is_under_any-append rel gone more)

is_under_refl : (rel : Text) → is_under rel rel ≡ true
unfolding is_under
is_under_refl rel = rw (text_eq_refl rel) refl

trees_go-total :
    (f : ℕ) (dest : Dict Dest) (top : Text) (depth : ℕ) (gone : List Text) (found : List Dependent)
    → length (select (is_outside gone) dest) < f
    → (out : List Dependent) × (trees_go f dest top depth gone found ≡ some out)
unfolding trees_go
trees_go-total zero dest top depth gone found h = absurd (omega arith)
trees_go-total (suc f) dest top depth gone found h =
    elim (List-cases (select (is_dependent gone) dest)) [
      | inl e ↦ (found, ground arith)
      | inr (x, xs, e) ↦
          let there : Elem x (select (is_dependent gone) dest) = rw e (inl refl) in
          let s = (elem-select_iff (is_dependent gone) x dest).0 there in
          let fresh = select (is_dependent gone) dest in
          let names = map (λ (y : Text × Dest). y.0) fresh in
          let outside : is_outside gone x ≡ true = unfold is_dependent in ground (arith, s.1) in
          let within : is_under_any x.0 names ≡ true =
            unfold is_under_any in
            elem→any (is_under x.0) x.0 names (elem-map_of (λ (y : Text × Dest). y.0) x fresh there)
              (is_under_refl x.0) in
          let less =
            length-select-lt (is_outside (gone ++ names)) (is_outside gone) dest x
              (λ b t. ground (arith, is_under_any-append b.0 gone names)) s.0
              (ground (arith, is_under_any-append x.0 gone names)) outside in
          let (out, r) =
            trees_go-total f dest top (suc depth) (gone ++ names)
              (found ++ map (dependent_of top depth) fresh) (omega (arith, less)) in
          (out, ground arith)
    ]

pub trees-total :
    (dest : Dict Dest) (top : Text) → (out : List Dependent) × (trees dest top ≡ some out)
unfolding trees
trees-total dest top =
    let (found, e) =
      trees_go-total (suc (length dest)) dest top 1 (top ∷ []) []
        (omega (arith, length-select (is_outside (top ∷ [])) dest)) in
    (select (is_top found) found, ground arith)
