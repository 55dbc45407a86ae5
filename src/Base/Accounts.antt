-- ===== src/Base/Accounts.antt =====
-- Which of the names that a loop was given came to which end.
use zark.Base.Core.{
  ℕ, suc, ◌+◌, ◌≡◌, ap, inl, inr, true, List, [], ◌∷◌, ◌++◌, arith, ◌==◌, if◌then◌else◌, Bool-cases,
}
use zark.Base.Lists.{length, Elem}
use zark.Base.Strings.{Text, text_eq, before, after, has_char}

-- how often a text stands in a list
unfoldable pub occurs : Text → List Text → ℕ
occurs k [] = 0
occurs k (x ∷ xs) = let rest = occurs k xs in if text_eq k x then suc rest else rest

pub occurs-append : (k : Text) (xs ys : List Text) → occurs k (xs ++ ys) ≡ occurs k xs + occurs k ys
unfolding occurs
occurs-append k [] ys = omega arith
occurs-append k (x ∷ xs) ys = ground (arith, occurs-append k xs ys)

-- Every name that was given is among those that went or among those that failed, as often as it was
-- given: `count` of them went, and `DidGo` and `DidFail` hold of the names of either kind.
pub record Accounted (DidGo DidFail : Text → Type 0) (names failed : List Text) (count : ℕ)
    : Type 0 where
  pub went : List Text
  pub counted : count ≡ length went
  pub each_once : (k : Text) → occurs k went + occurs k failed ≡ occurs k names
  pub all_went : (k : Text) → Elem k went → DidGo k
  pub all_failed : (k : Text) → Elem k failed → DidFail k

pub before-after : (c : ℕ) (s : Text) → has_char c s ≡ true → before c s ++ (c ∷ after c s) ≡ s
unfolding before after has_char
before-after c [] h = absurd (ground arith)
before-after c (d ∷ s) h = elim (Bool-cases (c == d)) [
  | inl e ↦ let same : c ≡ d = ground arith in rw (before, after, e) (ap (λ x. x ∷ s) same)
  | inr e ↦ rw (before, after, e) (ap (λ t. d ∷ t) (before-after c s (ground arith)))
]
