-- ===== src/Machine/Actor/CrashLoop.antt =====
-- internal/machine/machine.go: a series of crashes inside the window, and how `onExit` counts one.
use pm.Base.{
  ℕ, suc, ◌≡◌, ◌≢◌, ◌⊎◌, ap, inl, inr, Bool, true, false, Bool-cases, none, some, List, [], ◌∷◌,
  arith, if◌then◌else◌, ℤ, pos, sub_ℕ, ◌*ℤ◌, wrap64, ◌*◌, ◌&&◌, ltb_ℤ, leb_ℤ,
}
use pm.Config.{Config, second}
use pm.Proc.{Handle, ExitInfo, Spec}
use pm.Machine.Env.{launch_spec}
use pm.Machine.State.{App, World, Status, waiting}
use pm.Machine.Policy.{
  stability, count_unstable, is_unstable, outer_window, stop_exit, later, series_start, elapsed,
}
use pm.Machine.Handlers.{relaunch}
use pm.Machine.Exit.{is_running, schedule}
use pm.Machine.Actor.{step, exits, park_elapsed}

abbrev pub is_waiting : Status → Bool
is_waiting waiting = true
is_waiting _ = false

-- One crash: the exit of the leader, and the end of the sleep if the app was parked for one.
unfoldable pub crash : World → ExitInfo → App → App
crash w info a =
    let b = (step w a (exits info)).0 in
    if is_waiting b.status then (step w b park_elapsed).0 else b

unfoldable pub crashes : List (World × ExitInfo) → App → App
crashes [] a = a
crashes ((w, info) ∷ rest) a = crashes rest (crash w info a)

-- The outer window of a configuration, for an app whose registration time is known.
abbrev pub window : Config → ℤ
window c =
    let w = wrap64 (c.min_uptime *ℤ c.max_restarts) in
    if leb_ℤ (pos second) c.min_uptime && ltb_ℤ w (pos (60 * second)) then pos (60 * second) else w

-- The process layer kills what it is asked to kill and spawns what it is asked to spawn.
pub record IsServing (w : World) : Type 0 where
  pub kills : (h : Handle) (window : ℤ) → w.stop_within h window ≡ true
  pub serves : (s : Spec) → w.spawn s ≢ none

-- The bookkeeping of a run that began at `launched`, under the configuration `c`, with `k` crashes
-- counted in the series that began at `first`.
pub record Tally (c : Config) (k launched first : ℕ) (a : App) : Type 0 where
  pub same : a.cfg ≡ c
  pub counts : a.unstable ≡ k
  pub since : a.uptime ≡ some launched
  pub series : (k ≡ 0) ⊎ (a.crash_series ≡ some first)
  pub dated : a.created_is_null ≡ false

-- The same, of an app that runs.
pub record Counted (c : Config) (k launched first : ℕ) (a : App) : Type 0 where
  pub tally : Tally c k launched first a
  pub owns : a.handle ≢ none
  pub runs : is_running a.status ≡ true

pub relaunch-Counted :
    (w : World) (a : App) (c : Config) (k first : ℕ)
    → IsServing w
    → a.cfg ≡ c
    → a.unstable ≡ k
    → a.crash_series ≡ some first
    → a.created_is_null ≡ false
    → Counted c k w.launched_at first (relaunch w a).0
unfolding relaunch
relaunch-Counted w a c k first v e f g h =
    ground (arith, v.serves (launch_spec w.environ (record a { restarts = suc a.restarts })))

abbrev pub settle : World → App → App
settle w b = if is_waiting b.status then (step w b park_elapsed).0 else b

running-settled : (w : World) (b : App) → is_running b.status ≡ true → settle w b ≡ b
running-settled w b h = ground arith

pub settle-Counted :
    (w : World) (b : App) {c : Config} {k launched first : ℕ}
    → Counted c k launched first b
    → Counted c k launched first (settle w b)
settle-Counted w b v = rw (running-settled w b v.runs) v

pub slept-Counted :
    (w : World) (delay : ℤ) (b : App) (c : Config) (k first : ℕ)
    → IsServing w
    → b.cfg ≡ c
    → b.unstable ≡ k
    → b.crash_series ≡ some first
    → b.created_is_null ≡ false
    → Counted c k w.launched_at first (
        settle w (
          if ltb_ℤ (pos 0) delay
          then record b { status = waiting; park = some delay }
          else (relaunch w b).0))
unfolding step
slept-Counted w delay b c k first v e f g h = elim (Bool-cases (ltb_ℤ (pos 0) delay)) [
  | inl sleeps ↦ rw sleeps (relaunch-Counted w _ c k first v e f g h)
  | inr now ↦ rw now (settle-Counted w (relaunch w b).0 (relaunch-Counted w b c k first v e f g h))
]

pub schedule-Counted :
    (w : World) (delay : ℤ) (active : Bool) (a : App) (c : Config) (k first : ℕ)
    → IsServing w
    → a.cfg ≡ c
    → a.unstable ≡ k
    → a.crash_series ≡ some first
    → a.created_is_null ≡ false
    → Counted c k w.launched_at first (settle w (schedule w delay active a))
unfolding schedule
schedule-Counted w delay true a c k first v e f g h =
    slept-Counted w delay (record a { prev_backoff = delay }) c k first v e f g h
schedule-Counted w delay false a c k first v e f g h = slept-Counted w delay a c k first v e f g h

-- The exit `info` at `now` of a run that began at `launched` counts against the budget, as one of
-- the series that began at `first`: it is no intentional stop, the run was unstable, and the window
-- of the series is open.
pub record IsCrash (c : Config) (launched first now : ℕ) (info : ExitInfo) : Type 0 where
  pub unintended : stop_exit info c.stop_exit_codes ≡ false
  pub quick : is_unstable c info (sub_ℕ now launched) ≡ true
  pub windowed : ltb_ℤ (sub_ℕ now first) (window c) ≡ true

window_open :
    (now created first : ℕ) (size : ℤ)
    → ltb_ℤ (sub_ℕ now first) size ≡ true
    → ltb_ℤ (sub_ℕ now (later created first)) size ≡ true
window_open now created first size h = ground arith

module _ (now : ℕ) (info : ExitInfo) (a : App) (c : Config) (k launched first : ℕ)
    (v : Tally c k launched first a) (begins : k ≡ 0 → first ≡ now)
    (z : IsCrash c launched first now info) (p : ltb_ℤ (pos 0) (window c) ≡ true) where
  window-same : outer_window a ≡ window c
  unfolding outer_window
  window-same = rw v.dated (ap window v.same)

  series-same : series_start now a.unstable a.crash_series ≡ first
  series-same = ground (arith, begins)

  window-admits :
      (ltb_ℤ (pos 0) (outer_window a)
        && ltb_ℤ
            (sub_ℕ now (later a.created (series_start now a.unstable a.crash_series)))
            (outer_window a))
      ≡ true
  window-admits =
      rw (window-same, series-same) (rw (p, window_open now a.created first (window c) z.windowed))

  quick-same : is_unstable a.cfg info (elapsed now a.uptime) ≡ true
  quick-same = rw (v.same, v.since) z.quick

  pub stability-counts :
      let b = stability now info a in
      (b.unstable ≡ suc k)
      × (b.crash_series ≡ some first)
      × (b.created_is_null ≡ false)
      × (b.cfg ≡ c)
  unfolding stability count_unstable
  stability-counts =
      rw quick-same (rw window-admits (ap suc v.counts, ap some series-same, v.dated, v.same))
