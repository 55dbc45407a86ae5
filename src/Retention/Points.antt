-- ===== src/Retention/Points.antt =====
-- lib/retention.py: the backup points of a drive, their times, and the ones that a month keeps.
pub mod Best
pub mod Monthly
pub mod Times
use zark.Base.{
  ℕ, max, min, ◌≡◌, refl, ◌⊎◌, inl, inr, Bool, true, false, not, ◌&&◌, ◌||◌, Option, none, some,
  List, [], ◌∷◌, ◌++◌, map, ltb, ◌==◌, if◌then◌else◌, flat_map, max_by, Dict, get, values, update,
  Text, codes, text_eq, text_le, starts_with, mem_text,
}
use zark.Calendar.{year_month, parse_stamp}
use zark.Replication.Names.{strip_prefix, point_prefix, is_point, anchor_disk}
use zark.Replication.Model.{Ref, Dest}

pub data Kind : Type 0 where
  point intermediate other : Kind

unfoldable pub snapshot_kind : Text → Kind
snapshot_kind name =
    if is_point name
    then Kind.point
    else if starts_with (codes "autosnap_") name || not (text_eq (anchor_disk name) [])
    then Kind.intermediate
    else Kind.other

unfoldable pub all_snaps : Dict Dest → List Ref
all_snaps dest = flat_map (λ e. e.1.snaps) dest

unfoldable pub times_from : List Ref → Dict ℕ → Dict ℕ
times_from [] out = out
times_from (s ∷ snaps) out =
    times_from snaps (if is_point s.name then update (max s.creation) 0 s.name out else out)

unfoldable pub point_times : Dict Dest → Dict ℕ
point_times dest = times_from (all_snaps dest) []

-- the tuple `(name in whole, ts, name)`
pub record Candidate : Type 0 where
  pub whole : Bool
  pub time : ℕ
  pub name : Text

-- `<=` on such tuples
unfoldable pub candidate_le : Candidate → Candidate → Bool
candidate_le a b =
    if a.whole
    then (b.whole
        && (if ltb a.time b.time then true else a.time == b.time && text_le a.name b.name))
    else if b.whole
    then true
    else if ltb a.time b.time
    then true
    else a.time == b.time && text_le a.name b.name

abbrev pub no_candidate : Candidate
no_candidate = record { whole = false; time = 0; name = [] }

abbrev pub later_candidate : Candidate → Candidate → Candidate
later_candidate fresh old = if candidate_le fresh old then old else fresh

-- the run-complete points with their times, as tuples
unfoldable pub candidates : Dict ℕ → List Text → List Text → List Candidate
candidates [] complete whole = []
candidates ((name, ts) ∷ times) complete whole =
    let rest = candidates times complete whole in
    if mem_text name complete
    then record { whole = mem_text name whole; time = ts; name = name } ∷ rest
    else rest

-- `best[month] = max(best.get(month, (False, 0, "")), c)`
unfoldable pub best_from : List Candidate → Dict Candidate → Dict Candidate
best_from [] best = best
best_from (c ∷ cs) best =
    best_from cs (update (later_candidate c) no_candidate (year_month c.time) best)

-- `whole=None` is given as `complete`
unfoldable pub monthly_points : Dict ℕ → List Text → List Text → List Text
monthly_points times complete whole =
    map (λ c. c.name) (values (best_from (candidates times complete whole) []))

unfoldable pub newest_complete : Dict ℕ → List Text → List Text → Text
newest_complete times complete whole =
    elim (max_by candidate_le (candidates times complete whole)) [ none ↦ [] | some c ↦ c.name ]

unfoldable pub min_of : List ℕ → Option ℕ
min_of [] = none
min_of (n ∷ ns) = elim (min_of ns) [ none ↦ some n | some m ↦ some (min n m) ]

-- What may raise ValueError: the recorded first point has the shape of a point and is no date.
pub data FirstTime {ℓ} (A : Type ℓ) : Type ℓ where
  ok : A → FirstTime A
  value_error : FirstTime A

pub FirstTime-cases {ℓ} :
    {A : Type ℓ} (r : FirstTime A) → (r ≡ FirstTime.value_error) ⊎ ((a : A) × (r ≡ FirstTime.ok a))
FirstTime-cases FirstTime.value_error = inl refl
FirstTime-cases (FirstTime.ok a) = inr (a, refl)

unfoldable pub first_point_time : Dict ℕ → Text → FirstTime (Option ℕ)
first_point_time times recorded =
    if is_point recorded
    then elim (strip_prefix point_prefix recorded) [
      | none ↦ ok (min_of (values times))
      | some s ↦ elim (parse_stamp s) [
        | none ↦ value_error
        | some t ↦ ok (min_of (values times ++ t ∷ []))
      ]
    ]
    else ok (min_of (values times))
