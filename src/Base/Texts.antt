-- ===== src/Base/Texts.antt =====
-- Laws of the texts: equality is decided, the order is total and transitive.
use zark.Base.Core.{
  ℕ, zero, suc, ◌+◌, ◌/◌, ◌%◌, ◌<◌, ◌≡◌, refl, sym, ap, ◌∙◌, ◌≢◌, ◌↔◌, ◌⊎◌, inl, inr, true, false,
  List, [], ◌∷◌, ◌++◌, arith, ltb, Bool-cases,
}
use zark.Base.Lists.{Elem, any, all}
use zark.Base.Strings.{
  Text, text_eq, text_le, mem_text, is_digit, decimal_go, decimal, undecimal_go, undecimal,
}

pub text_eq_refl : (s : Text) → text_eq s s ≡ true
unfolding text_eq
text_eq_refl [] = refl
text_eq_refl (c ∷ s) = ground (arith, text_eq_refl s)

pub text_eq→eq : (s t : Text) → text_eq s t ≡ true → s ≡ t
unfolding text_eq
text_eq→eq [] [] h = refl
text_eq→eq [] (d ∷ t) h = cc
text_eq→eq (c ∷ s) [] h = cc
text_eq→eq (c ∷ s) (d ∷ t) h = ground (arith, text_eq→eq s t)

pub eq→text_eq : (s t : Text) → s ≡ t → text_eq s t ≡ true
eq→text_eq s t e = rw e (text_eq_refl t)

pub text_eq_iff : (s t : Text) → (text_eq s t ≡ true) ↔ (s ≡ t)
text_eq_iff s t = (text_eq→eq s t, eq→text_eq s t)

pub text_eq-false : (s t : Text) → text_eq s t ≡ false → s ≢ t
text_eq-false s t h e = cc (h, eq→text_eq s t e)

pub ne→text_eq : (s t : Text) → s ≢ t → text_eq s t ≡ false
ne→text_eq s t h = elim (Bool-cases (text_eq s t)) [
  | inl e ↦ absurd (h (text_eq→eq s t e))
  | inr e ↦ e
]

pub text_eq_sym : (s t : Text) → text_eq s t ≡ text_eq t s
unfolding text_eq
text_eq_sym [] [] = refl
text_eq_sym [] (d ∷ t) = refl
text_eq_sym (c ∷ s) [] = refl
text_eq_sym (c ∷ s) (d ∷ t) = ground (arith, text_eq_sym s t)

pub text_le_total : (s t : Text) → (text_le s t ≡ true) ⊎ (text_le t s ≡ true)
unfolding text_le
text_le_total [] t = inl refl
text_le_total (c ∷ s) [] = inr refl
text_le_total (c ∷ s) (d ∷ t) = ground (arith, text_le_total s t)

pub text_le_trans : (s t u : Text) → text_le s t ≡ true → text_le t u ≡ true → text_le s u ≡ true
unfolding text_le
text_le_trans [] t u h k = refl
text_le_trans (c ∷ s) [] u h k = cc
text_le_trans (c ∷ s) (d ∷ t) [] h k = cc
text_le_trans (c ∷ s) (d ∷ t) (e ∷ u) h k = ground (arith, text_le_trans s t u)

pub mem_text→elem : (s : Text) (xs : List Text) → mem_text s xs ≡ true → Elem s xs
unfolding mem_text any
mem_text→elem s [] h = absurd (ground arith)
mem_text→elem s (x ∷ xs) h = elim (Bool-cases (text_eq s x)) [
  | inl e ↦ inl (sym (text_eq→eq s x e))
  | inr e ↦ inr (mem_text→elem s xs (ground arith))
]

pub elem→mem_text : (s : Text) (xs : List Text) → Elem s xs → mem_text s xs ≡ true
unfolding mem_text any
elem→mem_text s [] h = elim h [ ]
elem→mem_text s (x ∷ xs) (inl e) = rw (eq→text_eq s x (sym e))
elem→mem_text s (x ∷ xs) (inr m) = ground (arith, elem→mem_text s xs m)

pub not_elem→mem_text : (s : Text) (xs : List Text) → (Elem s xs → ⊥) → mem_text s xs ≡ false
not_elem→mem_text s xs h = elim (Bool-cases (mem_text s xs)) [
  | inl e ↦ absurd (h (mem_text→elem s xs e))
  | inr e ↦ e
]

pub ++-cancel_left : (p s t : Text) → (p ++ s) ≡ (p ++ t) → s ≡ t
++-cancel_left [] s t h = h
++-cancel_left (c ∷ p) s t h = ++-cancel_left p s t (cc)

-- Reading back a printed number, where the digits `acc` are printed already.
undecimal_go-decimal_go :
    (f n : ℕ) (acc : Text) → n < f → undecimal_go (decimal_go f n acc) 0 ≡ undecimal_go acc n
unfolding undecimal_go decimal_go
undecimal_go-decimal_go zero n acc h = absurd (omega arith)
undecimal_go-decimal_go (suc f) n acc h = elim (Bool-cases (ltb n 10)) [
  | inl t ↦ rw t (ap (undecimal_go acc) (ground arith))
  | inr t ↦
      rw t
        (undecimal_go-decimal_go f (n / 10) _ (ground arith) ∙ ap (undecimal_go acc) (ground arith))
]

pub undecimal-decimal : (n : ℕ) → undecimal (decimal n) ≡ n
unfolding undecimal decimal undecimal_go
undecimal-decimal n = undecimal_go-decimal_go (suc n) n [] (omega arith)

pub decimal-injective : (m n : ℕ) → decimal m ≡ decimal n → m ≡ n
decimal-injective m n e = sym (undecimal-decimal m) ∙ (ap undecimal e ∙ undecimal-decimal n)

decimal_go-digits :
    (f n : ℕ) (acc : Text) → all is_digit acc ≡ true → all is_digit (decimal_go f n acc) ≡ true
unfolding decimal_go all is_digit
decimal_go-digits zero n acc h = h
decimal_go-digits (suc f) n acc h =
    ground (arith, decimal_go-digits f (n / 10) ((b'0' + n % 10) ∷ acc))

pub decimal-digits : (n : ℕ) → all is_digit (decimal n) ≡ true
unfolding decimal all
decimal-digits n = decimal_go-digits (suc n) n [] refl

decimal_go-ne-nil : (f n : ℕ) (acc : Text) → acc ≢ [] ⊎ (0 < f) → decimal_go f n acc ≢ []
unfolding decimal_go
decimal_go-ne-nil zero n acc (inl h) = h
decimal_go-ne-nil zero n acc (inr h) = absurd (omega arith)
decimal_go-ne-nil (suc f) n acc h = elim (Bool-cases (ltb n 10)) [
  | inl t ↦ rw t (λ e. cc)
  | inr t ↦ rw t (decimal_go-ne-nil f (n / 10) ((b'0' + n % 10) ∷ acc) (inl (λ e. cc)))
]

pub decimal-ne-nil : (n : ℕ) → decimal n ≢ []
unfolding decimal
decimal-ne-nil n = decimal_go-ne-nil (suc n) n [] (inr (omega arith))

-- No text stands twice.
abbrev pub IsDistinct : List Text → Type 0
IsDistinct [] = Unit
IsDistinct (x ∷ xs) = (mem_text x xs ≡ false) × IsDistinct xs
