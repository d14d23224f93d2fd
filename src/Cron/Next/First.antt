-- ===== src/Cron/Next/First.antt =====
-- internal/cron/cron.go, `Next`: the proofs that it finds the first match.
use pm.Base.{
  ℕ, zero, suc, ◌+◌, ◌-◌, ◌≤◌, ◌<◌, ◌≡◌, refl, inl, inr, Bool, true, false, Bool-cases, not, ◌&&◌,
  Option, none, some, ◌⊎◌, Option-cases, ltb, ltb→lt, not_ltb→le, if◌then◌else◌, arith,
}
use pm.Cron.{Schedule, has, day_matches}
use pm.Cron.Calendar.{
  Minute, IsDate, key, before, weekday, month_after, day_after, hour_after, minute_after,
  four_years_after, month_after-IsDate, day_after-IsDate, hour_after-IsDate, minute_after-IsDate,
}
use pm.Cron.Calendar.Skips.{
  Between, Between-month, Between-day, Between-hour, Between-minute, month_after-lt, day_after-lt,
  hour_after-lt, minute_after-lt,
}
use pm.Cron.Next.{jump, search, next}

-- Whether a schedule fires at an instant.
abbrev pub fires : Schedule → Minute → Bool
fires s t =
    has s.mon t.month
    && (day_matches s t.day (weekday t) && (has s.hour t.hour && has s.min t.minute))

-- A step forward over instants at which nothing fires.
record Skips (s : Schedule) (t v : Minute) : Type 0 where
  date : IsDate v
  ahead : key t < key v
  quiet : (u : Minute) → Between t v u → fires s u ≡ false

abbrev IsJump : Schedule → Minute → Option Minute → Type 0
IsJump s t none = fires s t ≡ true
IsJump s t (some v) = Skips s t v

same_weekday :
    (t u : Minute) → u.year ≡ t.year → u.month ≡ t.month → u.day ≡ t.day → weekday u ≡ weekday t
unfolding weekday
same_weekday t u a b c = rw (a, b, c) refl

not_taken-IsJump :
    (s : Schedule) (t v : Minute) (b : Bool) (o : Option Minute)
    → (b ≡ false → Skips s t v)
    → (b ≡ true → IsJump s t o)
    → IsJump s t (if not b then some v else o)
not_taken-IsJump s t v true o f g = g refl
not_taken-IsJump s t v false o f g = f refl

-- A conjunction of four with one part false.
one_off :
    (a b c d : Bool)
    → (a ≡ false) ⊎ (b ≡ false) ⊎ (c ≡ false) ⊎ (d ≡ false)
    → (a && (b && (c && d))) ≡ false
one_off false b c d h = refl
one_off true false c d h = refl
one_off true true false d h = refl
one_off true true true d (inl e) = cc
one_off true true true d (inr (inl e)) = cc
one_off true true true d (inr (inr (inl e))) = cc
one_off true true true d (inr (inr (inr e))) = e

quiet_at :
    (s : Schedule) (u : Minute)
    → (has s.mon u.month ≡ false)
      ⊎ (day_matches s u.day (weekday u) ≡ false)
      ⊎ (has s.hour u.hour ≡ false)
      ⊎ (has s.min u.minute ≡ false)
    → fires s u ≡ false
quiet_at s u h =
    one_off (has s.mon u.month) (day_matches s u.day (weekday u)) (has s.hour u.hour)
      (has s.min u.minute) h

module _ (s : Schedule) (t : Minute) (v : IsDate t) where
  month-Skips : has s.mon t.month ≡ false → Skips s t (month_after t)
  month-Skips off = record {
    date = month_after-IsDate t v;
    ahead = month_after-lt t v;
    quiet = λ u b. let (year, month) = Between-month t u v b in quiet_at s u (inl (rw month off));
  }

  day-Skips : day_matches s t.day (weekday t) ≡ false → Skips s t (day_after t)
  day-Skips off = record {
    date = day_after-IsDate t v;
    ahead = day_after-lt t v;
    quiet = λ u b.
        let (year, month, day) = Between-day t u v b in
        quiet_at s u (inr (inl (rw (same_weekday t u year month day) (rw day off))));
  }

  hour-Skips : has s.hour t.hour ≡ false → Skips s t (hour_after t)
  hour-Skips off = record {
    date = hour_after-IsDate t v;
    ahead = hour_after-lt t v;
    quiet = λ u b. quiet_at s u (inr (inr (inl (rw (Between-hour t u v b) off))));
  }

  minute-Skips : has s.min t.minute ≡ false → Skips s t (minute_after t)
  minute-Skips off = record {
    date = minute_after-IsDate t v;
    ahead = minute_after-lt t v;
    quiet = λ u b. quiet_at s u (inr (inr (inr (rw (Between-minute t u v b) off))));
  }

  jump-IsJump : IsJump s t (jump s t)
  unfolding jump
  jump-IsJump = not_taken-IsJump s t (month_after t) (has s.mon t.month) _ month-Skips λ month.
      not_taken-IsJump s t (day_after t) (day_matches s t.day (weekday t)) _ day-Skips λ day.
        not_taken-IsJump s t (hour_after t) (has s.hour t.hour) _ hour-Skips λ hour.
          not_taken-IsJump s t (minute_after t) (has s.min t.minute) none minute-Skips
            λ minute. rw (month, day, hour, minute) refl

-- What the search answers up to a limit.
abbrev IsAnswer : Schedule → Minute → Minute → Option Minute → Type 0
IsAnswer s t limit none = (u : Minute) → Between t limit u → fires s u ≡ false
IsAnswer s t limit (some r) =
    Between t limit r × (fires s r ≡ true) × ((u : Minute) → Between t r u → fires s u ≡ false)

unless_quiet :
    (s : Schedule) (t v limit u : Minute)
    → Skips s t v
    → Between t limit u
    → (Between v limit u → fires s u ≡ false)
    → fires s u ≡ false
unless_quiet s t v limit u k b h = elim (Bool-cases (ltb (key u) (key v))) [
  | inl early ↦
      k.quiet u (record { date = b.date; from = b.from; to = ltb→lt (key u) (key v) early })
  | inr late ↦ h (record { date = b.date; from = not_ltb→le (key u) (key v) late; to = b.to })
]

-- Nothing fires before `v`, and the answer holds from there on.
later-IsAnswer :
    (s : Schedule) (t v limit : Minute) (o : Option Minute)
    → Skips s t v
    → IsAnswer s v limit o
    → IsAnswer s t limit o
later-IsAnswer s t v limit none k h = λ u b. unless_quiet s t v limit u k b (h u)
later-IsAnswer s t v limit (some r) k (b, hit, h) = (
  record { date = b.date; from = omega (arith, k.ahead, b.from); to = b.to },
  hit,
  λ u c. unless_quiet s t v r u k c (h u),
)

search-IsAnswer :
    (s : Schedule) (fuel : ℕ) (limit t : Minute)
    → IsDate t
    → key limit ≤ key t + fuel
    → IsAnswer s t limit (search s fuel limit t)
unfolding search
search-IsAnswer s zero limit t v h = λ u b. absurd (omega (arith, b.from, b.to))
search-IsAnswer s (suc fuel) limit t v h = elim (Bool-cases (before t limit)) [
  | inl early ↦
      rw (early, search)
        (elim (Option-cases (jump s t)) [
          | inl found ↦
              let hit = rw found at (jump-IsJump s t v) in
              let lt = ltb→lt (key t) (key limit) early in
              rw found (
                record { date = v; from = omega arith; to = lt },
                hit,
                λ u b. absurd (omega (arith, b.from, b.to)),
              )
          | inr (w, onward) ↦
              let k = rw onward at (jump-IsJump s t v) in
              rw onward (
                later-IsAnswer s t w limit (search s fuel limit w) k
                  (search-IsAnswer s fuel limit w k.date (omega (arith, k.ahead))))
        ])
  | inr over ↦
      rw (over, search)
        (λ u b.
          absurd (let le = not_ltb→le (key t) (key limit) over in omega (arith, b.from, b.to)))
]

found-before :
    (s : Schedule) (t limit u : Minute) (o : Option Minute)
    → IsAnswer s t limit o
    → Between t limit u
    → fires s u ≡ true
    → (r : Minute) × (o ≡ some r) × (fires s r ≡ true) × (key t ≤ key r) × (key r ≤ key u)
found-before s t limit u none h b hit = let off = h u b in cc
found-before s t limit u (some r) (c, fired, h) b hit = elim (Bool-cases (ltb (key u) (key r))) [
  | inl early ↦
      let off = h u (record { date = b.date; from = b.from; to = ltb→lt (key u) (key r) early }) in
      cc
  | inr late ↦ (r, refl, fired, c.from, not_ltb→le (key u) (key r) late)
]

next-IsAnswer :
    (s : Schedule) (after : Minute)
    → IsDate after
    → let t = minute_after after in IsAnswer s t (four_years_after t) (next s after)
unfolding next
next-IsAnswer s after v =
    let t = minute_after after in
    let limit = four_years_after t in
    search-IsAnswer s (key limit - key t) limit t (minute_after-IsDate after v) (omega arith)

-- Where the schedule fires between the given instant and the limit, four years and a day on, `next`
-- answers with the first instant at which it does.
pub next-finds :
    (s : Schedule) (after u : Minute)
    → IsDate after
    → Between (minute_after after) (four_years_after (minute_after after)) u
    → fires s u ≡ true
    → (r : Minute) × (next s after ≡ some r)
      × (fires s r ≡ true)
      × (key after < key r)
      × (key r ≤ key u)
next-finds s after u v b hit =
    let t = minute_after after in
    let (r, e, fired, from, most) =
      found-before s t (four_years_after t) u (next s after) (next-IsAnswer s after v) b hit in
    (r, e, fired, omega (arith, minute_after-lt after v, from), most)

-- What `next` answers with is a date after the given one and before the limit, and the schedule fires
-- then.
pub next-fires :
    (s : Schedule) (after r : Minute)
    → IsDate after
    → next s after ≡ some r
    → (fires s r ≡ true) × Between (minute_after after) (four_years_after (minute_after after)) r
next-fires s after r v e = let (b, hit, h) = rw e at (next-IsAnswer s after v) in (hit, b)
