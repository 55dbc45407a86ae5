-- ===== src/Replication/Names/Archive.antt =====
-- `archive_name`: the loop over the candidates ends, with a name that is not taken.
use zark.Base.{
  ℕ, zero, suc, ◌≤◌, ◌<◌, ◌≡◌, sym, ap, ◌≢◌, inl, inr, false, not, some, List, [], ◌∷◌, ◌++◌, arith,
  Bool-cases, length, Elem, select, elem-select_iff, Text, text_eq, mem_text, decimal, text_eq_refl,
  ne→text_eq, mem_text→elem, ++-cancel_left, decimal-injective,
}
use zark.Replication.Names.{archive_go, archive_name}

-- the `j`-th candidate behind the first
abbrev numbered : Text → ℕ → Text
numbered base j = base ++ (b'-' ∷ decimal j)

numbered-injective : (base : Text) (i j : ℕ) → numbered base i ≡ numbered base j → i ≡ j
numbered-injective base i j e = decimal-injective i j (cc (++-cancel_left base _ _ e))

remove_text : Text → List Text → List Text
remove_text x xs = select (λ y. not (text_eq y x)) xs

length-remove_text-le : (x : Text) (xs : List Text) → length (remove_text x xs) ≤ length xs
unfolding remove_text select
length-remove_text-le x [] = omega arith
length-remove_text-le x (y ∷ ys) = ground (arith, length-remove_text-le x ys)

length-remove_text-lt :
    (x : Text) (xs : List Text) → Elem x xs → length (remove_text x xs) < length xs
unfolding remove_text select
length-remove_text-lt x [] h = elim h [ ]
length-remove_text-lt x (y ∷ ys) (inl e) =
    rw (e, text_eq_refl x) (omega (arith, length-remove_text-le x ys))
length-remove_text-lt x (y ∷ ys) (inr m) = ground (arith, length-remove_text-lt x ys m)

elem-remove_text : (x y : Text) (xs : List Text) → Elem y xs → y ≢ x → Elem y (remove_text x xs)
unfolding remove_text
elem-remove_text x y xs m ne = (elem-select_iff _ y xs).1 (m, ap not (ne→text_eq y x ne))

-- `left` holds the taken names that can still be met.
abbrev Covers : Text → ℕ → Text → List Text → List Text → Type 0
Covers base n name taken left =
    (Elem name taken → Elem name left)
    × ((j : ℕ)
        → n < j
        → (name ≢ numbered base j) × (Elem (numbered base j) taken → Elem (numbered base j) left))

archive_go-total :
    (f : ℕ) (base : Text) (taken left : List Text) (n : ℕ) (name : Text)
    → length left < f
    → Covers base n name taken left
    → (r : Text) × (archive_go f base taken n name ≡ some r) × (mem_text r taken ≡ false)
unfolding archive_go
archive_go-total zero base taken left n name h c = absurd (omega arith)
archive_go-total (suc f) base taken left n name h c = elim (Bool-cases (mem_text name taken)) [
  | inr free ↦ (name, rw free, free)
  | inl used ↦
      let m = c.0 (mem_text→elem name taken used) in
      rw used (
        archive_go-total f base taken (remove_text name left) (suc n) (numbered base (suc n))
          (omega (arith, length-remove_text-lt name left m))
          (
            λ k.
                elem-remove_text name _ left ((c.1 (suc n) (omega arith)).1 k)
                  (λ e. (c.1 (suc n) (omega arith)).0 (sym e)),
            λ j lt. (
              λ e. absurd (omega (arith, numbered-injective base (suc n) j e)),
              λ k.
                  elem-remove_text name _ left ((c.1 j (omega arith)).1 k)
                    (λ e. (c.1 j (omega arith)).0 (sym e)),
            ),
          ))
]

append-ne : (s : Text) (c : ℕ) (t : Text) → s ≢ s ++ (c ∷ t)
append-ne [] c t e = cc
append-ne (d ∷ s) c t e = append-ne s c t (cc)

-- The loop of `archive_name` ends within one round more than there are taken names, and the name
-- that it gives is not taken.
pub archive_name-is_free :
    (rel : Text) (taken : List Text) (day : Text)
    → (r : Text) × (archive_name rel taken day ≡ some r) × (mem_text r taken ≡ false)
unfolding archive_name
archive_name-is_free rel taken day =
    archive_go-total (suc (length taken)) _ taken taken 1 _ (omega arith)
      (λ k. k, λ j lt. (append-ne _ _ _, λ k. k))
