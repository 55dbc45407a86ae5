-- ===== src/Engine/Sends/Chain.antt =====
-- The streams of a plan follow on one another, from its base to the point.
use zark.Base.{
  ◌≡◌, refl, ◌⊎◌, inl, inr, true, false, not, ◌&&◌, ◌||◌, List, [], ◌∷◌, ◌++◌, arith, if◌then◌else◌,
  Bool-cases, Dict, Text, text_eq, starts_with, text_eq→eq,
}
use zark.Replication.Names.{drop, is_bpool}
use zark.Replication.Model.{is_resume, is_new, Origin, DatasetPlan}
use zark.Retention.Prune.{target_of}
use zark.Engine.Model.{Stream, Config, Run}
use zark.Engine.Sends.{
  after_bookmark, is_nonempty, bookmark_streams, is_linear, is_whole, is_via_bookmark, send_args,
}

-- what a stream starts from (a whole one from nothing), and what the drive holds once it is in
abbrev pub start_of : Stream → Text
start_of (Stream.resumed token) = token
start_of (Stream.whole raw to) = []
start_of (Stream.since raw from to) = from
start_of (Stream.from_bookmark from to) = from

abbrev pub target_name : Stream → Text
target_name (Stream.resumed token) = token
target_name (Stream.whole raw to) = to
target_name (Stream.since raw from to) = to
target_name (Stream.from_bookmark from to) = to

abbrev pub IsChain : Text → List Stream → Text → Type 0
IsChain held [] to = held ≡ to
IsChain held (s ∷ rest) to = (start_of s ≡ held) × IsChain (target_name s) rest to

-- what the drive must hold for the plan
unfoldable pub base_name : DatasetPlan → Text
base_name p =
    if is_new p.state && is_nonempty p.clone_from
    then p.base
    else if is_whole p.state
    then []
    else p.rel ++ p.base

bookmark_streams-IsChain :
    (c : Config) (origin : Dict Origin) (p : DatasetPlan)
    → IsChain (p.rel ++ p.base) (bookmark_streams c origin p) (target_of p.rel c.point)
unfolding bookmark_streams
bookmark_streams-IsChain c origin p =
    let pt = target_of p.rel c.point in
    let first : Text =
      if is_nonempty p.first
      then p.rel ++ p.first
      else after_bookmark c origin p.rel (drop 1 p.base) in
    elim (Bool-cases (text_eq first pt)) [
      | inl e ↦ rw e ((refl, text_eq→eq first pt e))
      | inr e ↦ rw e ((refl, (refl, refl)))
    ]

-- Where a dataset is to be sent (it is new or diverged, or it has a base), its streams lead from what
-- the plan takes as held on the drive (nothing, for a dataset sent whole) to the run's point, each one
-- starting where the one before it ended.
pub send_args-IsChain :
    (c : Config) (r : Run) (p : DatasetPlan)
    → is_resume p.state ≡ false
    → (is_whole p.state ≡ true)
      ⊎ (((is_via_bookmark p.state || is_linear p.state) ≡ true) × (is_nonempty p.base ≡ true))
    → IsChain (base_name p) (send_args c r p false) (target_of p.rel c.point)
unfolding send_args base_name
send_args-IsChain c r p n h =
    let raw = not (is_bpool p.rel) in
    elim (Bool-cases (is_new p.state && is_nonempty p.clone_from)) [
      | inl t ↦ rw (n, t) ((refl, refl))
      | inr t ↦ elim (Bool-cases (is_whole p.state)) [
        | inl w ↦ rw (n, t, w) ((refl, refl))
        | inr w ↦ elim (Bool-cases (is_via_bookmark p.state || starts_with (b'#' ∷ []) p.base)) [
          | inl v ↦ rw (n, t, w, v) (bookmark_streams-IsChain c r.origin p)
          | inr v ↦
              let l : (is_linear p.state && is_nonempty p.base) ≡ true = ground arith in
              rw (n, t, w, v, l) ((refl, refl))
        ]
      ]
    ]
