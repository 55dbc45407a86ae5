-- ===== src/Base/Strings.antt =====
-- Python's `str` as the list of its code points: literals, comparison, and the methods and regular
-- expression parts that the source uses.
use Prim.Native.Char.{code}
use Prim.Native.String.{String}
use zark.Base.Core.{
  ℕ, zero, suc, ◌+◌, ◌-◌, ◌*◌, ◌/◌, ◌%◌, Bool, true, false, ◌&&◌, ◌||◌, List, [], ◌∷◌, ltb, leb,
  ◌==◌, if◌then◌else◌,
}
use zark.Base.Lists.{any}

abbrev pub Text : Type 0
Text = List ℕ

-- The code points of a literal.
abbrev pub codes : String → Text
codes String.[] = []
codes (String.◌∷◌ c s) = code c ∷ codes s

-- `s == t`
unfoldable pub text_eq : Text → Text → Bool
text_eq [] [] = true
text_eq [] (c ∷ t) = false
text_eq (c ∷ s) [] = false
text_eq (c ∷ s) (d ∷ t) = c == d && text_eq s t

-- `s <= t`, by code points
unfoldable pub text_le : Text → Text → Bool
text_le [] t = true
text_le (c ∷ s) [] = false
text_le (c ∷ s) (d ∷ t) = let rest = text_le s t in if ltb c d then true else c == d && rest

-- `s.startswith(p)`
unfoldable pub starts_with : Text → Text → Bool
starts_with [] s = true
starts_with (c ∷ p) [] = false
starts_with (c ∷ p) (d ∷ s) = c == d && starts_with p s

-- `p in s`
unfoldable pub has_infix : Text → Text → Bool
has_infix p [] = starts_with p []
has_infix p (c ∷ s) = starts_with p (c ∷ s) || has_infix p s

-- `s in xs`, for a tuple or a set of texts
unfoldable pub mem_text : Text → List Text → Bool
mem_text s xs = any (text_eq s) xs

-- `s.partition(c)` without its middle: what stands before the first `c`, and behind it
unfoldable pub before : ℕ → Text → Text
before c [] = []
before c (d ∷ s) = let rest = before c s in if c == d then [] else d ∷ rest

unfoldable pub after : ℕ → Text → Text
after c [] = []
after c (d ∷ s) = let rest = after c s in if c == d then s else rest

-- `c in s`
unfoldable pub has_char : ℕ → Text → Bool
has_char c [] = false
has_char c (d ∷ s) = c == d || has_char c s

-- `s.split(c)`: the first part, and the others
unfoldable pub split_first : ℕ → Text → Text × List Text
split_first c [] = ([], [])
split_first c (d ∷ s) =
    let rest = split_first c s in if c == d then ([], rest.0 ∷ rest.1) else (d ∷ rest.0, rest.1)

unfoldable pub split : ℕ → Text → List Text
split c s = (split_first c s).0 ∷ (split_first c s).1

-- `[0-9]`; the texts are ASCII, where `\d` means no more
unfoldable pub is_digit : ℕ → Bool
is_digit c = leb b'0' c && leb c b'9'

-- `f"{n}"`: the digits of `n`, in front of `acc`; the fuel `n + 1` is enough
unfoldable pub decimal_go : ℕ → ℕ → Text → Text
decimal_go zero n acc = acc
decimal_go (suc f) n acc =
    let digit = b'0' + n % 10 in
    let more = decimal_go f (n / 10) (digit ∷ acc) in if ltb n 10 then digit ∷ acc else more

unfoldable pub decimal : ℕ → Text
decimal n = decimal_go (suc n) n []

-- `int(s)` of digits, behind the value `n` of the digits before
unfoldable pub undecimal_go : Text → ℕ → ℕ
undecimal_go [] n = n
undecimal_go (c ∷ s) n = undecimal_go s (n * 10 + (c - b'0'))

unfoldable pub undecimal : Text → ℕ
undecimal s = undecimal_go s 0
