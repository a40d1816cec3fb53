-- ===== src/Life/Engine/Rounding.antt =====
-- The arithmetic of hours and days in life/engine.py: a float is an exact number of thousandths, and
-- round(x, 3) is to the nearest thousandth, a half to the even one.
use uas_sustainment_workbenc.Base.{
  ℕ, ℤ, pos, negsuc, sub_ℕ, pos_part, neg_part, ◌+◌, ◌-◌, ◌*◌, ◌/◌, ◌%◌, ◌≤◌, ltb, ◌==◌, ◌≡◌, refl,
  arith, if◌then◌else◌,
}
use uas_sustainment_workbenc.Base.Time.{Date, IsDate, days_in_month}

-- n / d to the nearest whole number, a half to the even one.
unfoldable pub round_div : ℕ → ℕ → ℕ
round_div n d =
    let q = n / d in
    let r = n % d in
    if ltb (2 * r) d then q else if ltb d (2 * r) then q + 1 else if q % 2 == 0 then q else q + 1

-- round(seconds / H, 3)
unfoldable pub hours_of : ℤ → ℤ
unfolding round_div
hours_of (pos n) = pos (round_div n 3600)
hours_of (negsuc n) = sub_ℕ 0 (round_div (n + 1) 3600)

-- round(x, 3) of a number of millionths, as a number of thousandths
unfoldable pub round_3 : ℤ → ℤ
unfolding round_div
round_3 (pos n) = pos (round_div n 1000)
round_3 (negsuc n) = sub_ℕ 0 (round_div (n + 1) 1000)

-- float((a - b).days) of two day numbers.
abbrev pub days_between : ℕ → ℕ → ℤ
days_between a b = sub_ℕ (a * 1000) (b * 1000)

abbrev end_of_month : ℕ → ℕ → Date
end_of_month year month = record {
  year = year;
  month = month;
  day_of_month = days_in_month year month;
}

-- `end_of_month_after`; the months may be negative, and `//` and `%` round down. That `date` raises outside the
-- years 1 to 9999 is not modelled.
unfoldable pub end_of_month_after : Date → ℤ → Date
unfolding days_in_month
end_of_month_after start months =
    elim (sub_ℕ (start.month - 1 + pos_part months) (neg_part months)) [
      | pos k ↦ end_of_month (start.year + k / 12) (k % 12 + 1)
      | negsuc k ↦ end_of_month (start.year - (k / 12 + 1)) (12 - k % 12)
    ]

-- The rounding is off by at most half a thousandth of an hour, 1.8 s.
pub round_div_error :
    (n : ℕ)
    → (2 * n ≤ 2 * 3600 * round_div n 3600 + 3600) × (2 * 3600 * round_div n 3600 ≤ 2 * n + 3600)
unfolding round_div
round_div_error n = ground arith

pub round_div_mono : (m n : ℕ) → m ≤ n → round_div m 3600 ≤ round_div n 3600
unfolding round_div
round_div_mono m n h = ground arith

days_in_month_pos : (y m : ℕ) → 1 ≤ days_in_month y m
unfolding days_in_month
days_in_month_pos y m = ground arith

end_of_month_after_lem :
    (start : Date) (n : ℕ)
    → end_of_month_after start (pos n)
      ≡ end_of_month (start.year + (start.month - 1 + n) / 12) ((start.month - 1 + n) % 12 + 1)
unfolding end_of_month_after
end_of_month_after_lem start n = ground arith

-- From a date of the calendar, the due date of an interval of `n` months is a date of the calendar, it
-- is the last day of its month, and its month is `n` months after the start's.
pub end_of_month_after-IsDate :
    (start : Date) (n : ℕ)
    → IsDate start
    → let due = end_of_month_after start (pos n) in
      IsDate due
      × (due.day_of_month ≡ days_in_month due.year due.month)
      × (due.year * 12 + due.month ≡ start.year * 12 + start.month + n)
end_of_month_after-IsDate start n h = rw (end_of_month_after_lem start n) (
    let i = start.month - 1 + n in
    (
      record {
        year_pos = month_facts start n h;
        month_pos = omega arith;
        month_le = omega arith;
        day_pos = days_in_month_pos (start.year + i / 12) (i % 12 + 1);
        day_le = omega arith;
      },
      refl,
      index_facts start n h,
    ))
  where
    month_facts :
        (start : Date) (n : ℕ) → IsDate start → 1 ≤ start.year + (start.month - 1 + n) / 12
    month_facts start n h = omega arith

    index_facts :
        (start : Date) (n : ℕ)
        → IsDate start
        → (start.year + (start.month - 1 + n) / 12) * 12 + ((start.month - 1 + n) % 12 + 1)
          ≡ start.year * 12 + start.month + n
    index_facts start n h = omega arith

leap_day :
    end_of_month_after (record { year = 2024; month = 1; day_of_month = 31 }) (pos 1)
    ≡ record { year = 2024; month = 2; day_of_month = 29 }
unfolding end_of_month_after
leap_day = refl

twelve_months :
    end_of_month_after (record { year = 2024; month = 12; day_of_month = 5 }) (pos 12)
    ≡ record { year = 2025; month = 12; day_of_month = 31 }
unfolding end_of_month_after
twelve_months = refl
