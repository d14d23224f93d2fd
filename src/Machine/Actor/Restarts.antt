-- ===== src/Machine/Actor/Restarts.antt =====
-- `restart_time` and the resets: how the actor's rounds count the spawns that they make.
use pm.Base.{
  ℕ, suc, ◌+◌, ◌≡◌, inl, inr, Bool, true, false, Bool-cases, none, Option-cases, arith, ℤ, pos,
}
use pm.Proc.{Handle, ExitInfo}
use pm.Machine.State.{App, World, Status, stopped, errored, spawns}
use pm.Machine.Policy.{stability, kill_timeout, reset_state, next_restart_delay}
use pm.Machine.Handlers.{
  clear_park, launch, relaunch, stop_graceful, on_start, on_stop, on_restart, on_delete,
}
use pm.Machine.Exit.{schedule, apply_budget, exit_policy, exit_cleanup, cleaned, on_exit}
use pm.Machine.Actor.{
  Event, step, start, restart, tree, ready, ready_timeout, park_elapsed, stop, delete, signal,
  update_env, exits,
}
use pm.Machine.Actor.Invariant.{stability-keeps, on_signal-keeps}

-- A start of an app that is stopped or errored is its one spawn that is no restart.
abbrev pub fresh_from : Status → ℕ
fresh_from stopped = 1
fresh_from errored = 1
fresh_from _ = 0

abbrev pub fresh : Status → Event → ℕ
fresh s start = fresh_from s
fresh s _ = 0

-- From `a` to `b` as many spawns were attempted as restarts were counted, and `n` more.
abbrev pub Counts : ℕ → App → App → Type 0
Counts n a b = spawns b.calls + a.restarts ≡ spawns a.calls + b.restarts + n

launch-Counts : (w : World) (a : App) → Counts 1 a (launch w a).0
unfolding launch
launch-Counts w a = ground arith

relaunch-Counts : (w : World) (a : App) → Counts 0 a (relaunch w a).0
unfolding relaunch
relaunch-Counts w a = ground arith

stop_graceful-Counts :
    (w : World) (graceful : Bool) (a : App) → Counts 0 a (stop_graceful w graceful a).0
unfolding stop_graceful
stop_graceful-Counts w graceful a = ground arith

on_start-Counts : (w : World) (a : App) → Counts (fresh a.status start) a (on_start w a).0
unfolding on_start reset_state
on_start-Counts w a = ground arith

on_restart-Counts : (w : World) (a : App) → Counts 0 a (on_restart w a).0
unfolding on_restart reset_state
on_restart-Counts w a = ground arith

on_delete-Counts : (w : World) (graceful : Bool) (a : App) → Counts 0 a (on_delete w graceful a).0
unfolding on_delete
on_delete-Counts w graceful a = ground arith

schedule-Counts : (w : World) (delay : ℤ) (b : Bool) (a : App) → Counts 0 a (schedule w delay b a)
unfolding schedule
schedule-Counts w delay true a =
    ground (arith, relaunch-Counts w (record a { prev_backoff = delay }))
schedule-Counts w delay false a = ground (arith, relaunch-Counts w a)

exit_policy-Counts : (w : World) (info : ExitInfo) (a : App) → Counts 0 a (exit_policy w info a)
unfolding exit_policy apply_budget
exit_policy-Counts w info a =
    let b = stability w.now info a in
    let (delay, active) = next_restart_delay b.cfg b.prev_backoff in
    ground (arith, schedule-Counts w delay active b, stability-keeps w.now info a)

exit_cleanup-Counts :
    (w : World) (info : ExitInfo) (h : Handle) (a : App) → Counts 0 a (exit_cleanup w info h a)
unfolding exit_cleanup cleaned
exit_cleanup-Counts w info h a = elim (Bool-cases (w.stop_within h (pos 0))) [
  | inl gone ↦ rw (gone, exit_cleanup) (exit_policy-Counts w info _)
  | inr left ↦ rw (left, exit_cleanup) (ground arith)
]

on_exit-Counts : (w : World) (info : ExitInfo) (a : App) → Counts 0 a (on_exit w info a)
unfolding on_exit
on_exit-Counts w info a = elim (Option-cases a.handle) [
  | inl e ↦ rw (e, on_exit) (omega arith)
  | inr (h, e) ↦ rw (e, on_exit) (ground (arith, exit_cleanup-Counts w info h a))
]

-- In every round the restart counter grows by the number of spawns that the round attempts, failed
-- ones included, but for the fresh start of a stopped or errored app, which is not counted.
pub step-Counts : (w : World) (a : App) (e : Event) → Counts (fresh a.status e) a (step w a e).0
unfolding step on_stop
step-Counts w a start = on_start-Counts w a
step-Counts w a restart = on_restart-Counts w a
step-Counts w a tree = omega arith
step-Counts w a ready = ground arith
step-Counts w a ready_timeout = ground arith
step-Counts w a park_elapsed = relaunch-Counts w (clear_park a)
step-Counts w a (stop graceful) = stop_graceful-Counts w graceful (clear_park a)
step-Counts w a (delete graceful) = on_delete-Counts w graceful a
step-Counts w a (signal sig) = rw (on_signal-keeps w sig a) (omega arith)
step-Counts w a (update_env env) = omega arith
step-Counts w a (exits info) = on_exit-Counts w info a

-- A restart, from any state in which the kill path does not fail, spawns once more than before,
-- counts one restart and opens a fresh crash epoch.
pub restart_lem :
    (w : World) (a : App)
    → ((h : Handle) (window : ℤ) → w.stop_within h window ≡ true)
    → let b = (step w a restart).0 in
      (b.restarts ≡ suc a.restarts)
      × (spawns b.calls ≡ suc (spawns a.calls))
      × (b.unstable ≡ 0)
      × (b.created ≡ w.now)
      × (b.created_is_null ≡ false)
      × (b.prev_backoff ≡ pos 0)
      × (b.park ≡ none)
unfolding step on_restart reset_state
restart_lem w a k = elim (Option-cases a.handle) [
  | inl e ↦ ground arith
  | inr (h, e) ↦ ground (arith, k h (kill_timeout a.cfg))
]
