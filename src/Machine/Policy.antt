-- ===== src/Machine/Policy.antt =====
-- internal/machine/machine.go, the restart policy: `NextRestartDelay`, the kill timeout, and the
-- stability bookkeeping and exit codes of `onExit`.
pub mod Backoff
use pm.Base.{
  ℕ, suc, ◌*◌, ◌-◌, ◌^◌, Bool, true, false, not, ◌&&◌, ◌||◌, Option, none, some, List, [], ◌∷◌, ltb,
  ◌==◌, if◌then◌else◌, ℤ, pos, negsuc, sub_ℕ, ltb_ℤ, leb_ℤ, ◌*ℤ◌, wrap64, half, int_eq,
}
use pm.Config.{Config, second, default_kill_timeout}
use pm.Proc.{ExitInfo}
use pm.Machine.State.{App}

-- The next sleep of the backoff curve: half as long again, up to the cap.
unfoldable pub grow_backoff : ℤ → ℤ → ℤ
grow_backoff cap' prev =
    let next = half (wrap64 (prev *ℤ pos 3)) in if ltb_ℤ cap' next then cap' else next

-- `NextRestartDelay`: the sleep before the next relaunch, and whether the backoff curve is active.
unfoldable pub next_restart_delay : Config → ℤ → ℤ × Bool
unfolding grow_backoff
next_restart_delay cfg prev =
    if ltb_ℤ (pos 0) cfg.exp_backoff_restart_delay
    then (
      if leb_ℤ prev (pos 0)
          then cfg.exp_backoff_restart_delay
          else grow_backoff cfg.exp_backoff_cap prev,
      true,
    )
    else (cfg.restart_delay, false)

-- `killTimeout`.
unfoldable pub kill_timeout : Config → ℤ
kill_timeout cfg = if ltb_ℤ (pos 0) cfg.kill_timeout then cfg.kill_timeout else default_kill_timeout

-- The loop over `StopExitCodes`.
unfoldable pub stop_exit : ExitInfo → List ℤ → Bool
unfolding int_eq
stop_exit info [] = false
stop_exit info (c ∷ cs) = (not info.signaled && int_eq info.exit_code c) || stop_exit info cs

-- `now.Sub(t)`: from the zero time the difference saturates.
abbrev pub elapsed : ℕ → Option ℕ → ℤ
elapsed now none = pos (2 ^ 63 - 1)
elapsed now (some t) = sub_ℕ now t

-- `outerWindow` of `onExit`.
unfoldable pub outer_window : App → ℤ
outer_window a =
    if a.created_is_null
    then pos 0
    else let w = wrap64 (a.cfg.min_uptime *ℤ a.cfg.max_restarts) in
      if leb_ℤ (pos second) a.cfg.min_uptime && ltb_ℤ w (pos (60 * second))
      then pos (60 * second)
      else w

-- `isUnstable` of `onExit`, for a run that lasted `uptime`.
unfoldable pub is_unstable : Config → ExitInfo → ℤ → Bool
unfolding int_eq
is_unstable cfg info uptime =
    ltb_ℤ uptime cfg.min_uptime
    || (leb_ℤ (pos second) cfg.min_uptime
        && not (int_eq info.exit_code (pos 0))
        && ltb_ℤ uptime (pos (5 * second)))

-- The start of the crash series, which an exit opens when none is open or nothing was counted.
abbrev pub series_start : ℕ → ℕ → Option ℕ → ℕ
series_start now n none = now
series_start now n (some t) = if n == 0 then now else t

-- The later of the registration and the start of the series.
abbrev pub later : ℕ → ℕ → ℕ
later created series = if ltb created series then series else created

-- An unstable exit: counted within the window, else the first of a new series.
unfoldable pub count_unstable : ℕ → App → App
unfolding outer_window
count_unstable now a =
    let series = series_start now a.unstable a.crash_series in
    let window = outer_window a in
    if ltb_ℤ (pos 0) window && ltb_ℤ (sub_ℕ now (later a.created series)) window
    then record a { crash_series = some series; unstable = suc a.unstable }
    else record a { crash_series = some now; unstable = 1 }

-- The stability bookkeeping of `onExit`.
unfoldable pub stability : ℕ → ExitInfo → App → App
unfolding is_unstable count_unstable
stability now info a =
    let uptime = elapsed now a.uptime in
    if is_unstable a.cfg info uptime
    then count_unstable now a
    else if leb_ℤ a.cfg.min_uptime uptime
    then record a { unstable = 0; crash_series = none }
    else a

-- `resetStateLocked`.
unfoldable pub reset_state : ℕ → App → App
reset_state now a = record a {
  unstable = 0;
  created = now;
  created_is_null = false;
  prev_backoff = pos 0;
}
