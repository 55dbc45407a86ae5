-- ===== src/RestorePoints/Model/Logical.antt =====
-- `logical`, the name of a dataset without its archive suffixes, against `is_archived`.
use zark.Base.{
  ℕ, ◌≡◌, refl, sym, ap, ◌∙◌, ◌↔◌, inl, inr, Bool, true, false, ◌&&◌, [], ◌∷◌, arith, ◌==◌,
  Bool-cases, any, Text, codes, starts_with, has_infix, has_char, split_first, split,
}
use zark.Replication.Names.{archive_mark, is_archived}
use zark.RestorePoints.Model.{logical_go, logical}

-- A text without `/` begins the first part of a text where it begins the text.
starts_with-split :
    (p s : Text) → has_char b'/' p ≡ false → starts_with p (split_first b'/' s).0 ≡ starts_with p s
unfolding has_char starts_with split_first
starts_with-split [] s h = refl
starts_with-split (c ∷ p) [] h = refl
starts_with-split (c ∷ p) (d ∷ s) h = ground (arith, starts_with-split p s)

module _ (c : ℕ) (p : Text) (plain : has_char b'/' (c ∷ p) ≡ false) where
  -- A mark without `/` lies in a part of a text exactly where it lies in the text.
  has_infix-split : (s : Text) → any (has_infix (c ∷ p)) (split b'/' s) ≡ has_infix (c ∷ p) s
  unfolding any split split_first has_infix starts_with
  has_infix-split [] = refl
  has_infix-split (d ∷ s) =
      ground (arith, has_infix-split s, starts_with-split (c ∷ p) (d ∷ s) plain, plain)

abbrev is_marked : Text → Bool
is_marked s = has_infix archive_mark s

is_archived-eq : (rel : Text) → is_archived rel ≡ is_marked rel
unfolding is_archived has_char
is_archived-eq rel = has_infix-split _ _ refl rel

-- Behind a mark only a `/` comes back.
starts_with-dropping :
    (c : ℕ) (p s : Text) → (c == b'/') ≡ false → starts_with (c ∷ p) (logical_go true s) ≡ false
unfolding starts_with logical_go
starts_with-dropping c p [] h = refl
starts_with-dropping c p (d ∷ s) h = ground (arith, starts_with-dropping c p s h)

-- What begins the shortened text with no `/` begins the text.
starts_with-logical :
    (p s : Text)
    → has_char b'/' p ≡ false
    → starts_with p (logical_go false s) ≡ true
    → starts_with p s ≡ true
unfolding has_char starts_with logical_go
starts_with-logical [] s h k = refl
starts_with-logical (c ∷ p) [] h k = k
starts_with-logical (c ∷ p) (d ∷ s) h k = elim (Bool-cases (starts_with archive_mark (d ∷ s))) [
  | inl t ↦ absurd (ground (arith, starts_with-dropping c p s (ground arith)))
  | inr t ↦
      let k' : (c == d && starts_with p (logical_go false s)) ≡ true = rw (t, logical_go) at k in
      ground (arith, starts_with-logical p s (ground arith))
]

starts_with-kept :
    (c d : ℕ) (p s : Text)
    → has_char b'/' p ≡ false
    → starts_with (c ∷ p) (d ∷ s) ≡ false
    → starts_with (c ∷ p) (d ∷ logical_go false s) ≡ false
unfolding starts_with
starts_with-kept c d p s h k = elim (Bool-cases (starts_with p (logical_go false s))) [
  | inl t ↦ ground (arith, starts_with-logical p s h t)
  | inr t ↦ ground arith
]

logical_go-plain : (b : Bool) (s : Text) → is_marked (logical_go b s) ≡ false
unfolding has_infix logical_go has_char starts_with
logical_go-plain true [] = refl
logical_go-plain false [] = refl
logical_go-plain true (d ∷ s) = elim (Bool-cases (d == b'/')) [
  | inl t ↦ rw (t, logical_go) (ground (arith, logical_go-plain false s))
  | inr t ↦ rw (t, logical_go) (logical_go-plain true s)
]
logical_go-plain false (d ∷ s) = elim (Bool-cases (starts_with archive_mark (d ∷ s))) [
  | inl t ↦ rw (t, logical_go) (logical_go-plain true s)
  | inr t ↦
      rw (t, logical_go)
        (ground
          (arith, starts_with-kept b'.' d (codes "archived-") s refl t, logical_go-plain false s))
]

logical_go-same : (s : Text) → is_marked s ≡ false → logical_go false s ≡ s
unfolding has_infix logical_go
logical_go-same [] h = refl
logical_go-same (d ∷ s) h =
    let t : starts_with archive_mark (d ∷ s) ≡ false = ground arith in
    rw (t, logical_go) (ap (λ x. d ∷ x) (logical_go-same s (ground arith)))

-- A logical name has no archive suffix, and is the dataset's own name exactly where that has none.
pub logical-not_archived :
    (rel : Text)
    → (is_archived (logical rel) ≡ false) × ((logical rel ≡ rel) ↔ (is_archived rel ≡ false))
unfolding logical
logical-not_archived rel = (
  is_archived-eq (logical rel) ∙ logical_go-plain false rel,
  (
    λ e. rw e at (is_archived-eq (logical rel) ∙ logical_go-plain false rel),
    λ h. logical_go-same rel (sym (is_archived-eq rel) ∙ h),
  ),
)
