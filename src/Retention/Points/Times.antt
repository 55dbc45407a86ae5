-- ===== src/Retention/Points/Times.antt =====
-- `point_times`: the names are backup points, and the time of one is its newest `creation`.
use zark.Base.{
  ℕ, ◌≤◌, max, ◌≡◌, ◌≢◌, ◌⊎◌, inl, inr, true, List, [], ◌∷◌, arith, if◌then◌else◌, Bool-cases, Elem,
  Dict, get_or, put, keys, update, Text, text_eq_refl, text_eq_iff, elem-keys, get-put,
  elem-keys-put,
}
use zark.Replication.Names.{strip_prefix, is_point}
use zark.Replication.Model.{Ref, Dest}
use zark.Retention.Points.{all_snaps, times_from, point_times}

elem-keys-times_from :
    (snaps : List Ref) (out : Dict ℕ) (k : Text)
    → Elem k (keys (times_from snaps out))
    → (is_point k ≡ true) ⊎ Elem k (keys out)
unfolding times_from update
elem-keys-times_from [] out k m = inr m
elem-keys-times_from (s ∷ snaps) out k m = elim (Bool-cases (is_point s.name)) [
  | inl t ↦
      let out' = put s.name (max s.creation (get_or 0 s.name out)) out in
      elim (elem-keys-times_from snaps out' k (rw (t, times_from) at m)) [
        | inl p ↦ inl p
        | inr n ↦ elim (elem-keys-put k s.name _ out n) [ inl e ↦ inl (rw e t) | inr q ↦ inr q ]
      ]
  | inr t ↦ elem-keys-times_from snaps out k (rw (t, times_from) at m)
]

pub point_times-is_point :
    (dest : Dict Dest) (name : Text) (ts : ℕ)
    → Elem (name, ts) (point_times dest)
    → is_point name ≡ true
unfolding point_times keys
point_times-is_point dest name ts m =
    elim (elem-keys-times_from (all_snaps dest) [] name (elem-keys name ts _ m)) [
      | inl p ↦ p
      | inr n ↦ elim n [ ]
    ]

pub is_point-ne-nil : (name : Text) → is_point name ≡ true → name ≢ []
unfolding is_point strip_prefix
is_point-ne-nil name h e = cc (rw e at h)

get-times_from :
    (snaps : List Ref) (out : Dict ℕ) (k : Text)
    → get_or 0 k out ≤ get_or 0 k (times_from snaps out)
unfolding times_from update get_or
get-times_from [] out k = omega arith
get-times_from (s ∷ snaps) out k = elim (Bool-cases (is_point s.name)) [
  | inl t ↦
      let v = max s.creation (get_or 0 s.name out) in
      rw (t, times_from)
        (grind (
          arith,
          get-times_from snaps (put s.name v out) k,
          get-put k s.name v out,
          text_eq_iff k s.name,
        ))
  | inr t ↦ rw (t, times_from) (get-times_from snaps out k)
]

creation-le-times_from :
    (snaps : List Ref) (out : Dict ℕ) (s : Ref)
    → Elem s snaps
    → is_point s.name ≡ true
    → s.creation ≤ get_or 0 s.name (times_from snaps out)
unfolding times_from update get_or
creation-le-times_from [] out s m h = elim m [ ]
creation-le-times_from (x ∷ snaps) out s (inl e) h =
    let v = max s.creation (get_or 0 s.name out) in
    rw (e, times_from)
      (rw h (
        grind (
          arith,
          get-times_from snaps (put s.name v out) s.name,
          get-put s.name s.name v out,
          text_eq_refl s.name,
        )))
creation-le-times_from (x ∷ snaps) out s (inr m) h =
    creation-le-times_from snaps
      (if is_point x.name then update (max x.creation) 0 x.name out else out) s m h

-- No snapshot of a backup point on the drive was created after the time of the point.
pub creation-le-point_times :
    (dest : Dict Dest) (s : Ref)
    → Elem s (all_snaps dest)
    → is_point s.name ≡ true
    → s.creation ≤ get_or 0 s.name (point_times dest)
unfolding point_times
creation-le-point_times dest s m h = creation-le-times_from (all_snaps dest) [] s m h
