-- ===== src/Calendar.antt =====
-- Python's `datetime` in UTC, as far as the source uses it: the fields of a time in seconds since
-- the epoch, `strftime` in the formats of backup points and months, and `strptime` of a point's stamp.
use zark.Base.{
  ℕ, zero, suc, ◌+◌, ◌-◌, ◌*◌, ◌/◌, ◌%◌, Bool, not, ◌&&◌, ◌||◌, Option, none, some, [], ◌∷◌, ◌++◌,
  ltb, leb, ◌==◌, if◌then◌else◌, Text, undecimal,
}

pub record Date : Type 0 where
  pub year : ℕ
  pub month : ℕ
  pub day : ℕ

-- The proleptic Gregorian calendar counted in years that begin in March, so that a leap day ends
-- its year. Days are counted from 1 March of the year 0.
abbrev pub epoch_day : ℕ
epoch_day = 719468

-- the year of the era of 400 years, and the day of that year
unfoldable pub year_of_era : ℕ → ℕ
year_of_era doe = (doe + doe / 36524 - doe / 1460 - doe / 146096) / 365

unfoldable pub day_of_year : ℕ → ℕ → ℕ
day_of_year doe yoe = doe + yoe / 100 - (365 * yoe + yoe / 4)

unfoldable pub civil : ℕ → Date
civil days =
    let z = days + epoch_day in
    let doe = z % 146097 in
    let yoe = year_of_era doe in
    let doy = day_of_year doe yoe in
    let mp = (5 * doy + 2) / 153 in
    let m = if ltb mp 10 then mp + 3 else mp - 9 in
    record {
      year = yoe + 400 * (z / 146097) + (if ltb m 3 then 1 else 0);
      month = m;
      day = doy - (153 * mp + 2) / 5 + 1;
    }

-- the days from 1 March of the year 0 to a date
unfoldable pub day_number : ℕ → ℕ → ℕ → ℕ
day_number year month day =
    let y = if ltb month 3 then year - 1 else year in
    let mp = if ltb month 3 then month + 9 else month - 3 in
    let yoe = y % 400 in
    (y / 400) * 146097 + (yoe * 365 + yoe / 4 - yoe / 100 + ((153 * mp + 2) / 5 + (day - 1)))

-- `%m`, `%d`, `%H`, `%M`, `%S`; `%Y` of a year from 1000 on
abbrev pub two : ℕ → Text
two n = (b'0' + n / 10 % 10) ∷ (b'0' + n % 10) ∷ []

abbrev pub four : ℕ → Text
four n =
    (b'0' + n / 1000 % 10) ∷ (b'0' + n / 100 % 10) ∷ (b'0' + n / 10 % 10) ∷ (b'0' + n % 10) ∷ []

-- `%Y-%m`
unfoldable pub year_month : ℕ → Text
year_month ts = let d = civil (ts / 86400) in four d.year ++ (b'-' ∷ two d.month)

-- `%Y%m%d`
unfoldable pub compact_date : ℕ → Text
compact_date ts = let d = civil (ts / 86400) in four d.year ++ (two d.month ++ two d.day)

-- `%Y-%m-%d_%H:%M:%SZ`
unfoldable pub stamp : ℕ → Text
stamp ts =
    let d = civil (ts / 86400) in
    let s = ts % 86400 in
    four d.year
    ++ (b'-' ∷ two d.month
        ++ (b'-' ∷ two d.day
            ++ (b'_' ∷ two (s / 3600)
                ++ (b':' ∷ two (s / 60 % 60) ++ (b':' ∷ two (s % 60) ++ (b'Z' ∷ []))))))

unfoldable pub is_leap : ℕ → Bool
is_leap y = y % 4 == 0 && (not (y % 100 == 0) || y % 400 == 0)

unfoldable pub days_in_month : ℕ → ℕ → ℕ
days_in_month y m =
    if m == 2
    then (if is_leap y then 29 else 28)
    else if (m == 4 || m == 6) || (m == 9 || m == 11)
    then 30
    else 31

-- the fields that a `datetime` accepts
unfoldable pub is_date : ℕ → ℕ → ℕ → Bool
is_date y m d = (leb 1 y && leb 1 m) && ((leb m 12 && leb 1 d) && leb d (days_in_month y m))

unfoldable pub is_clock : ℕ → ℕ → ℕ → Bool
is_clock h m s = ltb h 24 && (ltb m 60 && ltb s 60)

-- `s[i:i + n]`
unfoldable pub slice : Text → ℕ → ℕ → Text
slice [] i n = []
slice (c ∷ s) (suc i) n = slice s i n
slice (c ∷ s) zero zero = []
slice (c ∷ s) zero (suc n) = c ∷ slice s zero n

unfoldable pub field : Text → ℕ → ℕ → ℕ
field s i n = undecimal (slice s i n)

-- `int(datetime.strptime(s, "%Y-%m-%d_%H:%M:%SZ").timestamp())` in UTC of a text of that shape, and
-- `none` for its ValueError: a field out of range. A time before the epoch is given as 0.
unfoldable pub parse_stamp : Text → Option ℕ
parse_stamp s =
    let y = field s 0 4 in
    let m = field s 5 2 in
    let d = field s 8 2 in
    let hh = field s 11 2 in
    let mm = field s 14 2 in
    let ss = field s 17 2 in
    if is_date y m d && is_clock hh mm ss
    then some ((day_number y m d * 86400 + (hh * 3600 + (mm * 60 + ss))) - epoch_day * 86400)
    else none
