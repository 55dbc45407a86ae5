-- ===== src/Exclusions/Covers.antt =====
-- `covering` and `_minimal`: the nearest top, and the tops that no other one covers.
use mathlib.Core.Path.{subst}
use zark.Base.{
  ℕ, zero, suc, ◌≤◌, ◌<◌, ◌≡◌, refl, sym, ◌≢◌, ◌⊎◌, inl, inr, true, false, not, ◌&&◌, List, [], ◌∷◌,
  ◌++◌, arith, ltb, Bool-cases, length, Elem, select, elem-select_iff, Text, text_eq, starts_with,
  text_eq_refl, text_eq→eq, text_eq-false, ne→text_eq,
}
use zark.Replication.Names.{is_under}
use zark.Exclusions.{covering_from, covering, is_minimal, minimal}

ltb-lt : (a b : ℕ) → ltb a b ≡ true → a < b
ltb-lt a b h = ground arith

empty_of : (t : Text) → length t ≤ 0 → t ≡ []
empty_of [] h = refl
empty_of (c ∷ t) h = absurd (omega arith)

le_of_best :
    (rel top best r : Text)
    → (is_under rel top && ltb (length best) (length top)) ≡ false
    → is_under rel top ≡ true
    → length best ≤ length r
    → length top ≤ length r
le_of_best rel top best r h u le = ground arith

-- What the loop gives: a top that covers, or what it began with; at least as long as every one.
record Nearest (rel : Text) (tops : List Text) (best r : Text) : Type 0 where
  from : (r ≡ best) ⊎ (Elem r tops × (is_under rel r ≡ true))
  above : length best ≤ length r
  longest : (t : Text) → Elem t tops → is_under rel t ≡ true → length t ≤ length r

Nearest-hit :
    (rel top best r : Text) (tops : List Text)
    → (is_under rel top && ltb (length best) (length top)) ≡ true
    → Nearest rel tops top r
    → Nearest rel (top ∷ tops) best r
Nearest-hit rel top best r tops h n =
    let covers : is_under rel top ≡ true = ground arith in
    record {
      from = inr (elim n.from [
        | inl e ↦ (inl (sym e), subst (λ x. is_under rel x ≡ true) (sym e) covers)
        | inr k ↦ (inr k.0, k.1)
      ]);
      above = omega (arith, n.above, ltb-lt (length best) (length top) (ground arith));
      longest = λ t m u. elim m [
        | inl e ↦ subst (λ x. length x ≤ length r) e n.above
        | inr k ↦ n.longest t k u
      ];
    }

Nearest-miss :
    (rel top best r : Text) (tops : List Text)
    → (is_under rel top && ltb (length best) (length top)) ≡ false
    → Nearest rel tops best r
    → Nearest rel (top ∷ tops) best r
Nearest-miss rel top best r tops h n = record {
  from = elim n.from [ inl e ↦ inl e | inr k ↦ inr (inr k.0, k.1) ];
  above = n.above;
  longest = λ t m u. elim m [
    | inl e ↦
        let u' : is_under rel top ≡ true = rw e u in
        subst (λ x. length x ≤ length r) e (le_of_best rel top best r h u' n.above)
    | inr k ↦ n.longest t k u
  ];
}

covering_from-Nearest :
    (rel : Text) (tops : List Text) (best : Text)
    → Nearest rel tops best (covering_from rel tops best)
unfolding covering_from
covering_from-Nearest rel [] best = record {
  from = inl refl;
  above = omega arith;
  longest = λ t m. elim m [ ];
}
covering_from-Nearest rel (top ∷ tops) best =
    elim (Bool-cases (is_under rel top && ltb (length best) (length top))) [
      | inl h ↦ rw h (Nearest-hit rel top best _ tops h (covering_from-Nearest rel tops top))
      | inr h ↦ rw h (Nearest-miss rel top best _ tops h (covering_from-Nearest rel tops best))
    ]

-- Where nothing covers a name, `covering` gives none; otherwise it gives a top that covers the name,
-- and the longest such one.
pub covering-nearest :
    (rel : Text) (tops : List Text)
    → ((covering rel tops ≡ []) × ((t : Text) → Elem t tops → is_under rel t ≡ true → t ≡ []))
      ⊎ (Elem (covering rel tops) tops
          × (is_under rel (covering rel tops) ≡ true)
          × ((t : Text)
              → Elem t tops
              → is_under rel t ≡ true
              → length t ≤ length (covering rel tops)))
unfolding covering
covering-nearest rel tops =
    let n = covering_from-Nearest rel tops [] in
    elim n.from [
      | inl e ↦ inl (e, λ t m u. empty_of t (subst (λ r. length t ≤ length r) e (n.longest t m u)))
      | inr k ↦ inr (k.0, k.1, n.longest)
    ]

-- a name below another one is longer
starts_with-length : (p s : Text) → starts_with p s ≡ true → length p ≤ length s
unfolding starts_with
starts_with-length [] s h = omega arith
starts_with-length (c ∷ p) [] h = absurd (ground arith)
starts_with-length (c ∷ p) (d ∷ s) h = omega (arith, starts_with-length p s (ground arith))

length-append_one : (s : Text) (c : ℕ) → length (s ++ c ∷ []) ≡ suc (length s)
length-append_one [] c = omega arith
length-append_one (d ∷ s) c = omega (arith, length-append_one s c)

is_under-length : (rel top : Text) → is_under rel top ≡ true → rel ≢ top → length top < length rel
unfolding is_under
is_under-length rel top u ne =
    let below : starts_with (top ++ b'/' ∷ []) rel ≡ true = ground (arith, ne→text_eq rel top ne) in
    omega (arith, starts_with-length (top ++ b'/' ∷ []) rel below, length-append_one top b'/')

starts_with-append : (p s t : Text) → starts_with p s ≡ true → starts_with p (s ++ t) ≡ true
unfolding starts_with
starts_with-append [] s t h = refl
starts_with-append (c ∷ p) [] t h = absurd (ground arith)
starts_with-append (c ∷ p) (d ∷ s) t h = ground (arith, starts_with-append p s t (ground arith))

starts_with_trans :
    (p q s : Text) → starts_with p q ≡ true → starts_with q s ≡ true → starts_with p s ≡ true
unfolding starts_with
starts_with_trans [] q s h k = refl
starts_with_trans (c ∷ p) [] s h k = absurd (ground arith)
starts_with_trans (c ∷ p) (d ∷ q) [] h k = absurd (ground arith)
starts_with_trans (c ∷ p) (d ∷ q) (e ∷ s) h k =
    ground (arith, starts_with_trans p q s (ground arith) (ground arith))

pub is_under_trans :
    (a b c : Text) → is_under a b ≡ true → is_under b c ≡ true → is_under a c ≡ true
unfolding is_under
is_under_trans a b c h k = elim (Bool-cases (text_eq a b)) [
  | inl t ↦ rw (text_eq→eq a b t) k
  | inr t ↦ elim (Bool-cases (text_eq b c)) [
    | inl u ↦ rw (sym (text_eq→eq b c u)) h
    | inr u ↦
        let below : starts_with (c ++ b'/' ∷ []) a ≡ true =
          starts_with_trans (c ++ b'/' ∷ []) (b ++ b'/' ∷ []) a
            (starts_with-append (c ++ b'/' ∷ []) b (b'/' ∷ []) (ground arith)) (ground arith) in
        ground (arith, below)
  ]
]

module _ (rels : List Text) where
  abbrev others : Text → List Text
  others r = select (λ t. not (text_eq t r)) rels

  -- every name that is not empty is covered by a minimal one
  minimal-covers :
      (f : ℕ) (r : Text)
      → length r < f
      → Elem r rels
      → (m : Text) × Elem m (minimal rels) × (is_under r m ≡ true)
  unfolding minimal is_minimal is_under
  minimal-covers zero r h at = absurd (omega arith)
  minimal-covers (suc f) r h at = elim (Bool-cases (text_eq (covering r (others r)) [])) [
    | inl t ↦ (r, (elem-select_iff (is_minimal rels) r rels).1 (at, t), rw (text_eq_refl r) refl)
    | inr t ↦ elim (covering-nearest r (others r)) [
      | inl k ↦ absurd (text_eq-false _ _ t k.0)
      | inr k ↦
          let top = covering r (others r) in
          let s = (elem-select_iff (λ x. not (text_eq x r)) top rels).0 k.0 in
          let apart : text_eq top r ≡ false = ground (arith, s.1) in
          let shorter = is_under-length r top k.1 (λ e. text_eq-false top r apart (sym e)) in
          let (m, is, u) = minimal-covers f top (omega (arith, shorter)) s.0 in
          (m, is, is_under_trans r top m k.1 u)
    ]
  ]

-- The tops of a flag are among the datasets that it was set on; each of those is covered by one of
-- them; and none of them, the empty name aside, covers another.
pub minimal-IsAntichain :
    (rels : List Text)
    → ((r : Text) → Elem r rels → (m : Text) × Elem m (minimal rels) × (is_under r m ≡ true))
      × ((a b : Text)
          → Elem a (minimal rels)
          → Elem b (minimal rels)
          → is_under a b ≡ true
          → (a ≡ b) ⊎ (b ≡ []))
unfolding minimal is_minimal
minimal-IsAntichain rels = (
  λ r m. minimal-covers rels (suc (length r)) r (omega arith) m,
  λ a b ma mb u. elim (Bool-cases (text_eq b a)) [
    | inl t ↦ inl (sym (text_eq→eq b a t))
    | inr t ↦
        let sa = (elem-select_iff (is_minimal rels) a rels).0 ma in
        let sb = (elem-select_iff (is_minimal rels) b rels).0 mb in
        let there : Elem b (select (λ x. not (text_eq x a)) rels) =
          (elem-select_iff (λ x. not (text_eq x a)) b rels).1 (sb.0, ground arith) in
        let none_of : covering a (select (λ x. not (text_eq x a)) rels) ≡ [] =
          text_eq→eq _ _ sa.1 in
        elim (covering-nearest a (select (λ x. not (text_eq x a)) rels)) [
          | inl k ↦ inr (k.1 b there u)
          | inr k ↦ inr (empty_of b (subst (λ r. length b ≤ length r) none_of (k.2 b there u)))
        ]
  ],
)
