-- ===== src/Replication/Names/Anchors.antt =====
-- Anchor names: the drive that an anchor names is read back from it, and a point is no anchor.
use mathlib.Core.Path.{subst}
use zark.Base.{
  ℕ, ◌≡◌, refl, inl, inr, true, false, [], ◌∷◌, ◌++◌, arith, Option-cases, all, Text, is_digit,
}
use zark.Replication.Names.{
  strip_prefix, point_prefix, stamp_shape, fits, matches, is_stamp_rest, is_point, leading_digits,
  behind_digits, disk_of, anchor_disk, drop, anchor_name,
}

leading_digits-append :
    (g s : Text)
    → all is_digit g ≡ true
    → (leading_digits (g ++ (b'_' ∷ s)) ≡ g) × (behind_digits (g ++ (b'_' ∷ s)) ≡ b'_' ∷ s)
unfolding leading_digits behind_digits all is_digit
leading_digits-append [] s h = (refl, refl)
leading_digits-append (c ∷ g) s h = ground (arith, leading_digits-append g s)

-- the stamp of a point, behind its prefix
is_point→stamp : (p : Text) → is_point p ≡ true → matches stamp_shape (drop 5 p) ≡ true
unfolding is_point drop strip_prefix
is_point→stamp (a ∷ b ∷ c ∷ d ∷ e ∷ s) h = ground arith
is_point→stamp [] h = cc
is_point→stamp (a ∷ []) h = ground arith
is_point→stamp (a ∷ b ∷ []) h = ground arith
is_point→stamp (a ∷ b ∷ c ∷ []) h = ground arith
is_point→stamp (a ∷ b ∷ c ∷ d ∷ []) h = ground arith

disk_of-append :
    (g s : Text)
    → all is_digit g ≡ true
    → matches stamp_shape s ≡ true
    → disk_of (g ++ (b'_' ∷ s)) ≡ g
unfolding disk_of
disk_of-append g s hg hs =
    rw ((leading_digits-append g s hg).1, disk_of) (rw (hs, (leading_digits-append g s hg).0))

-- For a pool GUID of digits and a backup point, the drive of the anchor's name is that GUID.
pub anchor_disk-anchor_name :
    (disk_guid point : Text)
    → all is_digit disk_guid ≡ true
    → is_point point ≡ true
    → anchor_disk (anchor_name disk_guid point) ≡ disk_guid
unfolding anchor_disk anchor_name strip_prefix
anchor_disk-anchor_name g p hg hp = disk_of-append g (drop 5 p) hg (is_point→stamp p hp)

-- A stamp begins with the four digits of the year, and a dash behind them.
year_of_stamp :
    (a b c d e : ℕ) (s : Text)
    → matches stamp_shape (a ∷ b ∷ c ∷ d ∷ e ∷ s) ≡ true
    → (is_digit a ≡ true)
      × (is_digit b ≡ true)
      × (is_digit c ≡ true)
      × (is_digit d ≡ true)
      × (e ≡ b'-')
unfolding matches fits
year_of_stamp a b c d e s h = ground arith

behind_year :
    (a b c d e : ℕ) (s : Text)
    → is_digit a ≡ true
    → is_digit b ≡ true
    → is_digit c ≡ true
    → is_digit d ≡ true
    → is_digit e ≡ false
    → behind_digits (a ∷ b ∷ c ∷ d ∷ e ∷ s) ≡ e ∷ s
unfolding behind_digits
behind_year a b c d e s ha hb hc hd he = ground arith

is_digit-dash : (e : ℕ) → e ≡ b'-' → is_digit e ≡ false
unfolding is_digit
is_digit-dash e h = ground arith

-- So it is not read as a GUID.
stamp-no_disk : (s : Text) → matches stamp_shape s ≡ true → disk_of s ≡ []
unfolding matches disk_of behind_digits is_digit fits
stamp-no_disk (a ∷ b ∷ c ∷ d ∷ e ∷ s) h =
    let (ha, hb, hc, hd, he) = year_of_stamp a b c d e s h in
    rw (behind_year a b c d e s ha hb hc hd (is_digit-dash e he), disk_of) (rw he)
stamp-no_disk [] h = cc
stamp-no_disk (a ∷ []) h = ground arith
stamp-no_disk (a ∷ b ∷ []) h = ground arith
stamp-no_disk (a ∷ b ∷ c ∷ []) h = ground arith
stamp-no_disk (a ∷ b ∷ c ∷ d ∷ []) h = ground arith

-- A backup point is no anchor of any drive.
pub anchor_disk_of_point : (name : Text) → is_point name ≡ true → anchor_disk name ≡ []
unfolding anchor_disk is_point
anchor_disk_of_point name h = elim (Option-cases (strip_prefix point_prefix name)) [
  | inl e ↦ rw (e, anchor_disk)
  | inr (s, e) ↦ rw (e, anchor_disk) (stamp-no_disk s (subst (λ o. is_stamp_rest o ≡ true) e h))
]
