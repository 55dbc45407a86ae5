-- ===== src/Replication/Names/Stamped.antt =====
-- lib/replication.py: `point_name`, the name of a backup point taken at a time.
use zark.Base.{ℕ, ◌+◌, ◌/◌, ◌%◌, ◌≡◌, refl, true, [], ◌++◌, arith, all, Text, is_digit}
use zark.Calendar.{civil, stamp}
use zark.Replication.Names.{
  strip_prefix, point_prefix, stamp_shape, fits, matches, is_point, anchor_disk, anchor_name,
}
use zark.Replication.Names.Anchors.{anchor_disk-anchor_name, anchor_disk_of_point}

-- for a time in seconds since the epoch
unfoldable pub point_name : ℕ → Text
point_name now = point_prefix ++ stamp now

digit_fits : (n : ℕ) → fits b'0' (b'0' + n % 10) ≡ true
unfolding fits is_digit
digit_fits n = ground arith

stamp-matches : (now : ℕ) → matches stamp_shape (stamp now) ≡ true
unfolding matches stamp
stamp-matches now =
    let d = civil (now / 86400) in
    let s = now % 86400 in
    rw
      (
        digit_fits (d.year / 1000),
        digit_fits (d.year / 100),
        digit_fits (d.year / 10),
        digit_fits d.year,
        digit_fits (d.month / 10),
        digit_fits d.month,
        digit_fits (d.day / 10),
        digit_fits d.day,
        digit_fits (s / 3600 / 10),
        digit_fits (s / 3600),
        digit_fits (s / 60 % 60 / 10),
        digit_fits (s / 60 % 60),
        digit_fits (s % 60 / 10),
        digit_fits (s % 60),
      )
      (unfold fits in refl)

-- The name of a backup point taken at any time has the shape of one; it is no drive's anchor, and the
-- anchor that a drive with a GUID of digits takes of it is that drive's.
pub point_name-is_point :
    (now : ℕ) (disk_guid : Text)
    → all is_digit disk_guid ≡ true
    → (is_point (point_name now) ≡ true)
      × (anchor_disk (point_name now) ≡ [])
      × (anchor_disk (anchor_name disk_guid (point_name now)) ≡ disk_guid)
unfolding point_name is_point strip_prefix
point_name-is_point now disk_guid h =
    let point : is_point (point_name now) ≡ true = stamp-matches now in
    (
      point,
      anchor_disk_of_point (point_name now) point,
      anchor_disk-anchor_name disk_guid (point_name now) h point,
    )
