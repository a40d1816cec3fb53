-- ===== src/Base/Time.antt =====
-- Instants and dates as Python's datetime gives them, in UTC microseconds and calendar days.
-- A `datetime` is its instant with the offset it was written with (none: no offset was written, which
-- the program reads as UTC). Comparisons are by instant, as Python compares aware datetimes.
use Prim.Native.Nat.{ℕ, ◌+◌, ◌-◌, ◌*◌, ◌/◌, ◌%◌, ◌≤◌}
use mathlib.Core.Path.{◌≡◌, refl}
use mathlib.Core.Bool.{Bool, ◌&&◌, ◌||◌, not}
use mathlib.Core.Option.{Option, none, some}
use native.Mathlib.Omega.{arith}
use uas_sustainment_workbenc.Base.Tests.{ltb, leb, ◌==◌, if◌then◌else◌}
use uas_sustainment_workbenc.Base.Int.{ℤ, pos, negsuc}

pub record DateTime : Type 0 where
  pub utc : ℕ
  pub offset : Option ℤ

abbrev pub second : ℕ
second = 1000000

abbrev pub day : ℕ
day = 86400000000

-- t + timedelta(seconds=s), s in thousandths of a second, at least the first instant of the calendar.
abbrev pub add_seconds : ℕ → ℤ → ℕ
add_seconds t (pos n) = t + n * 1000
add_seconds t (negsuc n) = t - (n + 1) * 1000

-- The clock on the wall where the datetime was written.
abbrev pub wall : DateTime → ℕ
wall t = elim t.offset [
  | none ↦ t.utc
  | some o ↦ elim o [ pos n ↦ t.utc + n | negsuc n ↦ t.utc - (n + 1) ]
]

-- life.model.in_utc
unfoldable pub in_utc : DateTime → DateTime
in_utc t = elim t.offset [ none ↦ t | some o ↦ record t { offset = some (pos 0) } ]

-- t.date(), as the number of days since the first day of the calendar
unfoldable pub day_of : DateTime → ℕ
day_of t = wall t / day

pub record Date : Type 0 where
  pub year : ℕ
  pub month : ℕ
  pub day_of_month : ℕ

unfoldable pub is_leap : ℕ → Bool
is_leap y = (y % 4 == 0) && (not (y % 100 == 0) || (y % 400 == 0))

-- calendar.monthrange(year, month)[1]
unfoldable pub days_in_month : ℕ → ℕ → ℕ
unfolding is_leap
days_in_month y m =
    if m == 2
    then (if is_leap y then 29 else 28)
    else (if (m == 4) || (m == 6) || (m == 9) || (m == 11) then 30 else 31)

-- Days of the year before the month.
unfoldable pub days_before_month : ℕ → ℕ → ℕ
unfolding days_in_month
days_before_month y m =
    (if ltb 1 m then 31 else 0)
    + (if ltb 2 m then days_in_month y 2 else 0)
    + (if ltb 3 m then 31 else 0)
    + (if ltb 4 m then 30 else 0)
    + (if ltb 5 m then 31 else 0)
    + (if ltb 6 m then 30 else 0)
    + (if ltb 7 m then 31 else 0)
    + (if ltb 8 m then 31 else 0)
    + (if ltb 9 m then 30 else 0)
    + (if ltb 10 m then 31 else 0)
    + (if ltb 11 m then 30 else 0)

-- Days before the first of January, from year 1.
unfoldable pub days_before_year : ℕ → ℕ
days_before_year y = let p = y - 1 in p * 365 + p / 4 - p / 100 + p / 400

-- The day's number since the first day of the calendar (date.toordinal() - 1).
unfoldable pub ordinal : Date → ℕ
unfolding days_before_month days_before_year
ordinal d = days_before_year d.year + days_before_month d.year d.month + (d.day_of_month - 1)

pub record IsDate (d : Date) : Type 0 where
  pub year_pos : 1 ≤ d.year
  pub month_pos : 1 ≤ d.month
  pub month_le : d.month ≤ 12
  pub day_pos : 1 ≤ d.day_of_month
  pub day_le : d.day_of_month ≤ days_in_month d.year d.month

-- The calendar date of a day number, by the 400-year cycle counted from the first of March.
unfoldable pub date_of_day : ℕ → Date
date_of_day n =
    let z = n + 306 in
    let era = z / 146097 in
    let doe = z % 146097 in
    let yoe = (doe - doe / 1460 + doe / 36524 - doe / 146096) / 365 in
    let doy = doe - (365 * yoe + yoe / 4 - yoe / 100) in
    let mp = (5 * doy + 2) / 153 in
    let d = doy - (153 * mp + 2) / 5 + 1 in
    let m = if ltb mp 10 then mp + 3 else mp - 9 in
    record { year = yoe + era * 400 + (if leb m 2 then 1 else 0); month = m; day_of_month = d }

in_utc_idem : (t : DateTime) → in_utc (in_utc t) ≡ in_utc t
unfolding in_utc
in_utc_idem t = ground arith

day_of_2025 : ordinal (record { year = 2025; month = 9; day_of_month = 1 }) ≡ 739494
unfolding ordinal
day_of_2025 = refl

date_of_2025 : date_of_day 739494 ≡ record { year = 2025; month = 9; day_of_month = 1 }
unfolding date_of_day
date_of_2025 = refl

date_of_leap :
    date_of_day (ordinal (record { year = 2024; month = 2; day_of_month = 29 }))
    ≡ record { year = 2024; month = 2; day_of_month = 29 }
unfolding date_of_day ordinal
date_of_leap = refl
