-- ===== src/Exclusions/Record/Cut.antt =====
-- A record that is cut into parts: how many there are, and what they join to.
use zark.Base.{
  ℕ, zero, suc, ◌+◌, ◌-◌, ◌/◌, ◌≤◌, ◌<◌, ◌≡◌, refl, ap, ◌∙◌, false, List, [], ◌∷◌, ◌++◌, arith, leb,
  length, Text,
}
use zark.Replication.Names.{drop}
use zark.Exclusions.Record.{mark_limit, max_parts, parts_needed, take, parts_go, parts_of}

unfoldable pub concat : List Text → Text
concat [] = []
concat (p ∷ parts) = p ++ concat parts

take-drop : (n : ℕ) (s : Text) → take n s ++ drop n s ≡ s
unfolding take drop
take-drop zero s = refl
take-drop (suc n) [] = refl
take-drop (suc n) (x ∷ s) = ap (λ t. x ∷ t) (take-drop n s)

length-drop : (n : ℕ) (s : Text) → length (drop n s) ≡ length s - n
unfolding drop
length-drop zero s = omega arith
length-drop (suc n) [] = omega arith
length-drop (suc n) (x ∷ s) = omega (arith, length-drop n s)

pub concat-parts_go : (f n : ℕ) (s : Text) → length s ≤ f → concat (parts_go f (suc n) s) ≡ s
unfolding concat parts_go
concat-parts_go zero n [] h = refl
concat-parts_go zero n (x ∷ s) h = absurd (omega arith)
concat-parts_go (suc f) n [] h = refl
concat-parts_go (suc f) n (x ∷ s) h =
    let ih =
      concat-parts_go f n (drop (suc n) (x ∷ s)) (omega (arith, length-drop (suc n) (x ∷ s))) in
    ap (λ t. take (suc n) (x ∷ s) ++ t) ih ∙ take-drop (suc n) (x ∷ s)

length-parts_go : (f : ℕ) (s : Text) → length (parts_go f mark_limit s) ≤ (length s + 8190) / 8191
unfolding parts_go
length-parts_go zero s = omega arith
length-parts_go (suc f) [] = omega arith
length-parts_go (suc f) (x ∷ s) =
    let rest = drop mark_limit (x ∷ s) in
    let ih = length-parts_go f rest in
    let cut = length-drop mark_limit (x ∷ s) in omega (arith, ih, cut)

pos_of_nonempty :
    (f : ℕ) (s : Text) → length s ≤ f → 0 < length s → 0 < length (parts_go f mark_limit s)
unfolding parts_go
pos_of_nonempty zero s h p = absurd (omega arith)
pos_of_nonempty (suc f) [] h p = absurd (omega arith)
pos_of_nonempty (suc f) (x ∷ s) h p = omega arith

pub few_parts :
    (mark : Text)
    → leb (length mark) mark_limit ≡ false
    → parts_needed mark ≤ max_parts
    → (1 ≤ length (parts_of mark)) × (length (parts_of mark) ≤ max_parts)
unfolding parts_needed parts_of
few_parts mark h few =
    let long : mark_limit < length mark = ground arith in
    (
      pos_of_nonempty (length mark) mark (omega arith) (omega (arith, long)),
      omega (arith, length-parts_go (length mark) mark, few),
    )
