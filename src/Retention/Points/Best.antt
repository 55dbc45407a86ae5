-- ===== src/Retention/Points/Best.antt =====
-- The order of the complete points, and the newest of all.
use zark.Base.{
  ℕ, ◌≤◌, ◌≡◌, refl, sym, ap, ◌∙◌, ◌⊎◌, inl, inr, true, List, [], ◌∷◌, arith, Bool-cases, Elem,
  List-cases, max_from, max_by, max_from-is_max, elem-max_from, Dict, Text, text_le, mem_text,
  text_le_total, text_le_trans,
}
use zark.Retention.Points.{candidate_le, candidates, newest_complete, Candidate}

pub candidate_le-total : (a b : Candidate) → (candidate_le a b ≡ true) ⊎ (candidate_le b a ≡ true)
unfolding candidate_le
candidate_le-total a b = ground (arith, text_le_total a.name b.name)

pub candidate_le_trans :
    (a b c : Candidate)
    → candidate_le a b ≡ true
    → candidate_le b c ≡ true
    → candidate_le a c ≡ true
unfolding candidate_le
candidate_le_trans a b c h k = ground (arith, text_le_trans a.name b.name c.name)

-- the candidates are the complete points, with their times
pub elem-candidates :
    (times : Dict ℕ) (complete whole : List Text) (c : Candidate)
    → Elem c (candidates times complete whole)
    → Elem (c.name, c.time) times
      × (mem_text c.name complete ≡ true)
      × (c.whole ≡ mem_text c.name whole)
unfolding candidates
elem-candidates [] complete whole c m = elim m [ ]
elem-candidates ((name, ts) ∷ times) complete whole c m =
    elim (Bool-cases (mem_text name complete)) [
      | inl t ↦
          let first : Candidate = record { whole = mem_text name whole; time = ts; name = name } in
          let m' : Elem c (first ∷ candidates times complete whole) = rw (t, candidates) at m in
          elim m' [
            | inl e ↦ rw (← e) ((inl refl, t, refl))
            | inr n ↦ let r = elem-candidates times complete whole c n in (inr r.0, r.1, r.2)
          ]
      | inr t ↦
          let r = elem-candidates times complete whole c (rw (t, candidates) at m) in
          (inr r.0, r.1, r.2)
    ]

pub candidates-elem :
    (times : Dict ℕ) (complete whole : List Text) (name : Text) (ts : ℕ)
    → Elem (name, ts) times
    → mem_text name complete ≡ true
    → Elem
        (record { whole = mem_text name whole; time = ts; name = name })
        (candidates times complete whole)
unfolding candidates
candidates-elem [] complete whole name ts m h = elim m [ ]
candidates-elem ((n, t) ∷ times) complete whole name ts (inl e) h =
    let en : n ≡ name = ap (λ x. x.0) e in
    let et : t ≡ ts = ap (λ x. x.1) e in rw (en, et, h, candidates) (inl refl)
candidates-elem ((n, t) ∷ times) complete whole name ts (inr m) h =
    elim (Bool-cases (mem_text n complete)) [
      | inl k ↦ rw (k, candidates) (inr (candidates-elem times complete whole name ts m h))
      | inr k ↦ rw (k, candidates) (candidates-elem times complete whole name ts m h)
    ]

-- The first point is no better than the second: a whole one is better than one that is not, then the
-- later one is, then the one whose name sorts last.
abbrev pub IsNoBetter : List Text → Text × ℕ → Text × ℕ → Type 0
IsNoBetter whole c b =
    (mem_text c.0 whole ≡ true → mem_text b.0 whole ≡ true)
    × (mem_text c.0 whole ≡ mem_text b.0 whole → (c.1 ≤ b.1) × (c.1 ≡ b.1 → text_le c.0 b.0 ≡ true))

candidate_le-facts :
    (c b : Candidate)
    → candidate_le c b ≡ true
    → (c.whole ≡ true → b.whole ≡ true)
      × (c.whole ≡ b.whole → (c.time ≤ b.time) × (c.time ≡ b.time → text_le c.name b.name ≡ true))
unfolding candidate_le
candidate_le-facts c b h = (λ w. ground arith, λ w. (ground arith, λ t. ground arith))

pub candidate_le-IsNoBetter :
    (times : Dict ℕ) (complete whole : List Text) (c b : Candidate)
    → Elem c (candidates times complete whole)
    → Elem b (candidates times complete whole)
    → candidate_le c b ≡ true
    → IsNoBetter whole (c.name, c.time) (b.name, b.time)
candidate_le-IsNoBetter times complete whole c b m n h =
    let (w, r) = candidate_le-facts c b h in
    let cw : c.whole ≡ mem_text c.name whole = (elem-candidates times complete whole c m).2 in
    let bw : b.whole ≡ mem_text b.name whole = (elem-candidates times complete whole b n).2 in
    (λ e. sym bw ∙ w (cw ∙ e), λ e. r (cw ∙ (e ∙ sym bw)))

best_of_all :
    (times : Dict ℕ) (complete whole : List Text) (c : Candidate)
    → Elem c (candidates times complete whole)
    → (b : Candidate) × Elem b (candidates times complete whole)
      × (newest_complete times complete whole ≡ b.name)
      × (candidate_le c b ≡ true)
unfolding newest_complete max_by
best_of_all times complete whole c m = elim (List-cases (candidates times complete whole)) [
  | inl e ↦ elim (rw e at m) [ ]
  | inr (x, xs, e) ↦
      let m' : Elem c (x ∷ xs) = rw e at m in
      let b = max_from candidate_le x xs in
      let top = max_from-is_max candidate_le candidate_le-total candidate_le_trans x xs in
      (
        b,
        rw e (elem-max_from candidate_le x xs),
        rw (e, newest_complete) refl,
        elim m' [ inl same ↦ rw (← same) top.0 | inr k ↦ top.1 c k ],
      )
]

-- Where a point is complete, `newest_complete` gives a complete point of the drive, and no complete
-- point is better: whole ones come first, then the later ones, then those whose name sorts last.
pub newest_complete-is_newest :
    (times : Dict ℕ) (complete whole : List Text) (name : Text) (ts : ℕ)
    → Elem (name, ts) times
    → mem_text name complete ≡ true
    → (time : ℕ) × Elem (newest_complete times complete whole, time) times
      × (mem_text (newest_complete times complete whole) complete ≡ true)
      × IsNoBetter whole (name, ts) (newest_complete times complete whole, time)
newest_complete-is_newest times complete whole name ts at ok =
    let m = candidates-elem times complete whole name ts at ok in
    let (b, k, e, h) = best_of_all times complete whole _ m in
    let r = elem-candidates times complete whole b k in
    (b.time, rw e r.0, rw e r.1, rw e (candidate_le-IsNoBetter times complete whole _ b m k h))
