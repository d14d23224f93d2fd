-- ===== src/Cron/Next.antt =====
-- internal/cron/cron.go, `Next`: the search for the next matching minute.
pub mod First
use pm.Base.{ℕ, zero, suc, ◌-◌, Bool, true, false, not, ◌&&◌, Option, none, some, if◌then◌else◌}
use pm.Cron.{Schedule, has, day_matches}
use pm.Cron.Calendar.{
  Minute, key, before, weekday, month_after, day_after, hour_after, minute_after, four_years_after,
}

-- Where the loop goes from an instant; none where it matches.
unfoldable pub jump : Schedule → Minute → Option Minute
jump s t =
    if not (has s.mon t.month)
    then some (month_after t)
    else if not (day_matches s t.day (weekday t))
    then some (day_after t)
    else if not (has s.hour t.hour)
    then some (hour_after t)
    else if not (has s.min t.minute)
    then some (minute_after t)
    else none

-- The loop of `Next`.
unfoldable pub search : Schedule → ℕ → Minute → Minute → Option Minute
unfolding jump
search s zero limit t = none
search s (suc fuel) limit t = elim (before t limit) [
  | false ↦ none
  | true ↦ elim (jump s t) [ none ↦ some t | some u ↦ search s fuel limit u ]
]

-- `Next`, from the minute of `after`. The minutes up to the limit are fuel enough.
unfoldable pub next : Schedule → Minute → Option Minute
unfolding search
next s after =
    let t = minute_after after in
    let limit = four_years_after t in search s (key limit - key t) limit t
