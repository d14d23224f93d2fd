-- ===== src/Tests/CronTests.antt =====
-- The theorems on cron schedules, at concrete inputs, and runs of the parser and of the search.
use pm.Base.{ℕ, ◌*◌, ◌≤◌, ◌<◌, ◌≡◌, refl, true, false, none, some, codes, arith}
use pm.Cron.{Schedule, has, day_matches}
use pm.Cron.Calendar.{Minute, IsDate, key, minute_after, four_years_after, weekday}
use pm.Cron.Calendar.Skips.{Between}
use pm.Cron.Next.{jump, search, next}
use pm.Cron.Next.First.{fires, next-finds}

-- `30 3 29 2 *`
abbrev leap_day : Schedule
leap_day = record {
  spec = codes "30 3 29 2 *";
  min = 2 * 536870912;
  hour = 8;
  dom = 536870912;
  mon = 4;
  dow = 127;
  dom_restricted = true;
  dow_restricted = false;
}

abbrev minute_of : ℕ → ℕ → ℕ → ℕ → ℕ → Minute
minute_of y mo d h mi = record { year = y; month = mo; day = d; hour = h; minute = mi }

abbrev before_leap : Minute
before_leap = minute_of 2023 12 31 23 59

abbrev leap : Minute
leap = minute_of 2024 2 29 3 30

before_leap-IsDate : IsDate before_leap
before_leap-IsDate = record {
  month_in = (omega arith, omega arith);
  day_in = (omega arith, omega arith);
  hour_in = omega arith;
  minute_in = omega arith;
}

leap-IsDate : IsDate leap
leap-IsDate = record {
  month_in = (omega arith, omega arith);
  day_in = (omega arith, omega arith);
  hour_in = omega arith;
  minute_in = omega arith;
}

leap-Between : Between (minute_after before_leap) (four_years_after (minute_after before_leap)) leap
leap-Between = record { date = leap-IsDate; from = omega arith; to = omega arith }

fires_on_leap : fires leap_day leap ≡ true
unfolding has day_matches
fires_on_leap = refl

finds_leap : next leap_day before_leap ≡ some leap
unfolding next search jump has day_matches weekday
finds_leap = refl

next-finds_example :
    (r : Minute) × (next leap_day before_leap ≡ some r)
    × (fires leap_day r ≡ true)
    × (key before_leap < key r)
    × (key r ≤ key leap)
next-finds_example =
    next-finds leap_day before_leap leap before_leap-IsDate leap-Between fires_on_leap

-- The years 2096 and 2104 are leap years, 2100 is none: the search ends in between.
leap_gap : next leap_day (minute_of 2096 3 1 0 0) ≡ none
unfolding next search jump has day_matches weekday
leap_gap = refl
