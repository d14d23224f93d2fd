-- ===== src/Cron/Calendar.antt =====
-- The part of Go's `time` that internal/cron/cron.go uses: instants in UTC to the minute, from year 1
-- on.
pub mod Skips
use pm.Base.{
  ℕ, zero, suc, ◌+◌, ◌-◌, ◌*◌, ◌/◌, ◌%◌, ◌≤◌, ◌<◌, ◌≡◌, ◌≢◌, refl, Bool, true, false, not, ◌&&◌,
  ◌||◌, ltb, ◌==◌, if◌then◌else◌, arith,
}

pub record Minute : Type 0 where
  pub year : ℕ
  pub month : ℕ
  pub day : ℕ
  pub hour : ℕ
  pub minute : ℕ

abbrev pub is_leap : ℕ → Bool
is_leap y = (y % 4 == 0) && (not (y % 100 == 0) || (y % 400 == 0))

abbrev pub month_days : ℕ → ℕ → ℕ
month_days y m =
    if m == 2
    then (if is_leap y then 29 else 28)
    else if m == 4 || m == 6 || m == 9 || m == 11
    then 30
    else 31

-- A position on the time line: a later instant has a larger one.
abbrev pub key : Minute → ℕ
key t = (((t.year * 12 + t.month) * 32 + t.day) * 24 + t.hour) * 60 + t.minute

-- `Before`.
abbrev pub before : Minute → Minute → Bool
before t u = ltb (key t) (key u)

-- The days of the first `n` months of a year.
abbrev months_sum : ℕ → ℕ → ℕ
months_sum y zero = 0
months_sum y (suc n) = months_sum y n + month_days y (suc n)

-- `Weekday`, by the days since the last day before year 1, a Sunday.
unfoldable pub weekday : Minute → ℕ
weekday t =
    let p = t.year - 1 in
    (p * 365 + p / 4 - p / 100 + p / 400 + months_sum t.year (t.month - 1) + t.day) % 7

-- The first instant of the following month.
abbrev pub month_after : Minute → Minute
month_after t =
    if t.month == 12
    then record { year = t.year + 1; month = 1; day = 1; hour = 0; minute = 0 }
    else record { year = t.year; month = t.month + 1; day = 1; hour = 0; minute = 0 }

-- `time.Date` with the next day, at midnight.
abbrev pub day_after : Minute → Minute
day_after t =
    if ltb t.day (month_days t.year t.month)
    then record { year = t.year; month = t.month; day = t.day + 1; hour = 0; minute = 0 }
    else month_after t

-- `time.Date` with the next hour.
abbrev pub hour_after : Minute → Minute
hour_after t =
    if ltb t.hour 23
    then record { year = t.year; month = t.month; day = t.day; hour = t.hour + 1; minute = 0 }
    else day_after t

-- `Add(time.Minute)`.
abbrev pub minute_after : Minute → Minute
minute_after t = if ltb t.minute 59 then record t { minute = t.minute + 1 } else hour_after t

-- `AddDate(4, 0, 1)`: a day behind the end of the month goes on into the next one.
abbrev pub four_years_after : Minute → Minute
four_years_after t =
    let y = t.year + 4 in
    let end = month_days y t.month in
    if ltb end (t.day + 1)
    then record (month_after (record t { year = y })) {
      day = t.day + 1 - end;
      hour = t.hour;
      minute = t.minute;
    }
    else record t { year = y; day = t.day + 1 }

pub record IsDate (t : Minute) : Type 0 where
  pub month_in : (1 ≤ t.month) × (t.month ≤ 12)
  pub day_in : (1 ≤ t.day) × (t.day ≤ month_days t.year t.month)
  pub hour_in : t.hour ≤ 23
  pub minute_in : t.minute ≤ 59

pub month_days_le : (y m : ℕ) → (28 ≤ month_days y m) × (month_days y m ≤ 31)
month_days_le y m = ground arith

pub month_after-IsDate : (t : Minute) → IsDate t → IsDate (month_after t)
month_after-IsDate t v =
    ground (arith, month_days_le (t.year + 1) 1, month_days_le t.year (t.month + 1))

pub day_after-IsDate : (t : Minute) → IsDate t → IsDate (day_after t)
day_after-IsDate t v = ground (arith, month_after-IsDate t v)

pub hour_after-IsDate : (t : Minute) → IsDate t → IsDate (hour_after t)
hour_after-IsDate t v = ground (arith, day_after-IsDate t v)

pub minute_after-IsDate : (t : Minute) → IsDate t → IsDate (minute_after t)
minute_after-IsDate t v = ground (arith, hour_after-IsDate t v)
