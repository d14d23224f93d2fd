-- ===== src/Cron/Calendar/Skips.antt =====
-- Instants and the time line: what lies between an instant and the one that follows it by a minute,
-- an hour, a day or a month.
use pm.Base.{ℕ, ◌+◌, ◌*◌, ◌≤◌, ◌<◌, ◌≡◌, inl, inr, sym, not_ltb→le, Bool-cases, ltb, arith}
use pm.Cron.Calendar.{
  Minute, IsDate, key, month_days, month_days_le, month_after, day_after, hour_after, minute_after,
}

pub month_after-lt : (t : Minute) → IsDate t → key t < key (month_after t)
month_after-lt t v =
    let d = month_days_le t.year t.month in
    ground (arith, v.day_in, v.month_in, v.hour_in, v.minute_in, d)

pub day_after-lt : (t : Minute) → IsDate t → key t < key (day_after t)
day_after-lt t v = ground (arith, v.hour_in, v.minute_in, month_after-lt t v)

pub hour_after-lt : (t : Minute) → IsDate t → key t < key (hour_after t)
hour_after-lt t v = ground (arith, v.minute_in, day_after-lt t v)

pub minute_after-lt : (t : Minute) → IsDate t → key t < key (minute_after t)
minute_after-lt t v = ground (arith, hour_after-lt t v)

-- `u` is not before `t`, and before `limit`.
pub record Between (t limit u : Minute) : Type 0 where
  pub date : IsDate u
  pub from : key t ≤ key u
  pub to : key u < key limit

-- The months since year 0, and the hours and days since then, each counted with room to spare.
abbrev month_key : Minute → ℕ
month_key t = t.year * 12 + t.month

same_month :
    (t u : Minute)
    → IsDate t
    → IsDate u
    → month_key t ≡ month_key u
    → (u.year ≡ t.year) × (u.month ≡ t.month)
same_month t u v w e =
    (omega (arith, e, v.month_in, w.month_in), omega (arith, e, v.month_in, w.month_in))

key-month_after : (t : Minute) → key (month_after t) ≡ (month_key t + 1) * 46080 + 1440
key-month_after t = ground arith

pub Between-month :
    (t u : Minute)
    → IsDate t
    → Between t (month_after t) u
    → (u.year ≡ t.year) × (u.month ≡ t.month)
Between-month t u v b =
    let d = month_days_le t.year t.month in
    let e = month_days_le u.year u.month in
    let k = key-month_after t in
    let low : month_key t ≤ month_key u = omega (
      arith, b.from, v.day_in, d, v.hour_in, v.minute_in, b.date.day_in, e, b.date.hour_in,
      b.date.minute_in,
    ) in
    let high : month_key u ≤ month_key t = omega (arith, k, b.to, b.date.day_in) in
    same_month t u v b.date (omega arith)

-- The following instants are in order.
day_after-le : (t : Minute) → IsDate t → key (day_after t) ≤ key (month_after t)
day_after-le t v =
    let d = month_days_le t.year t.month in ground (arith, key-month_after t, v.day_in)

hour_after-le : (t : Minute) → IsDate t → key (hour_after t) ≤ key (day_after t)
hour_after-le t v = ground (arith, day_after-lt t v, key-month_after t, v.day_in)

minute_after-le : (t : Minute) → IsDate t → key (minute_after t) ≤ key (hour_after t)
minute_after-le t v = ground (arith, hour_after-lt t v)

sooner : (t a b u : Minute) → key a ≤ key b → Between t a u → Between t b u
sooner t a b u h v = record { date = v.date; from = v.from; to = omega (arith, h, v.to) }

same_days :
    (t u : Minute)
    → u.year ≡ t.year
    → u.month ≡ t.month
    → IsDate u
    → u.day ≤ month_days t.year t.month
same_days t u a b v = rw (sym a) (rw (sym b) v.day_in.1)

Between-the_day : (t u : Minute) → IsDate t → Between t (day_after t) u → u.day ≡ t.day
Between-the_day t u v b =
    let (a, c) =
      Between-month t u v (sooner t (day_after t) (month_after t) u (day_after-le t v) b) in
    let most = same_days t u a c b.date in
    let to = b.to in
    let from : key t ≤ key u = b.from in
    let h = b.date.hour_in in
    let m = b.date.minute_in in
    elim (Bool-cases (ltb t.day (month_days t.year t.month))) [
      | inl more ↦ let to' = rw more at to in omega (arith, v.hour_in, v.minute_in)
      | inr last ↦
          let le = not_ltb→le t.day (month_days t.year t.month) last in
          omega (arith, v.hour_in, v.minute_in, v.day_in)
    ]

pub Between-day :
    (t u : Minute)
    → IsDate t
    → Between t (day_after t) u
    → (u.year ≡ t.year) × (u.month ≡ t.month) × (u.day ≡ t.day)
Between-day t u v b =
    let (a, c) =
      Between-month t u v (sooner t (day_after t) (month_after t) u (day_after-le t v) b) in
    (a, c, Between-the_day t u v b)

pub Between-hour : (t u : Minute) → IsDate t → Between t (hour_after t) u → u.hour ≡ t.hour
Between-hour t u v b =
    let days = sooner t (hour_after t) (day_after t) u (hour_after-le t v) b in
    let (a, c) =
      Between-month t u v (sooner t (day_after t) (month_after t) u (day_after-le t v) days) in
    let d = Between-the_day t u v days in
    let to = b.to in
    let from : key t ≤ key u = b.from in
    let h = b.date.hour_in in
    let m = b.date.minute_in in
    elim (Bool-cases (ltb t.hour 23)) [
      | inl more ↦ let to' = rw more at to in omega (arith, v.minute_in)
      | inr last ↦ let le = not_ltb→le t.hour 23 last in omega (arith, v.hour_in, v.minute_in)
    ]

pub Between-minute : (t u : Minute) → IsDate t → Between t (minute_after t) u → u.minute ≡ t.minute
Between-minute t u v b =
    let hours = sooner t (minute_after t) (hour_after t) u (minute_after-le t v) b in
    let days = sooner t (hour_after t) (day_after t) u (hour_after-le t v) hours in
    let (a, c) =
      Between-month t u v (sooner t (day_after t) (month_after t) u (day_after-le t v) days) in
    let d = Between-the_day t u v days in
    let k = Between-hour t u v hours in
    let to = b.to in
    let from : key t ≤ key u = b.from in
    let m = b.date.minute_in in
    elim (Bool-cases (ltb t.minute 59)) [
      | inl more ↦ let to' = rw more at to in omega arith
      | inr last ↦ let le = not_ltb→le t.minute 59 last in omega (arith, v.minute_in)
    ]
