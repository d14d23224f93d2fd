-- ===== src/Machine/Actor/Invariant.antt =====
-- What holds of the actor's state between two rounds of its loop.
use pm.Base.{
  ℕ, ◌≡◌, ◌≢◌, ◌⊎◌, refl, Bool, true, false, none, some, [], arith, ℤ, pos, inl, inr, Bool-cases,
  Option-cases, Option, Text,
}
use pm.Proc.{Handle, ExitInfo}
use pm.Machine.State.{
  App, World, launching, online, stopping, stopped, waiting, errored, kill_failed,
}
use pm.Machine.Policy.{stability, reset_state, next_restart_delay}
use pm.Machine.Handlers.{
  clear_park, launch, relaunch, stop_tree_until, stop_graceful, on_start, on_stop, on_restart,
  on_delete, on_signal,
}
use pm.Machine.Exit.{
  is_running, schedule, apply_budget, exit_policy, exit_cleanup, cleaned, on_exit,
}
use pm.Machine.Actor.{
  Event, step, enabled, start, restart, tree, ready, ready_timeout, park_elapsed, stop, delete,
  signal, update_env, exits,
}

abbrev pub pid_of : Option Handle → ℕ
pid_of none = 0
pid_of (some h) = h.pid

abbrev pub mode_of : Option Handle → Text
mode_of none = []
mode_of (some h) = h.mode

abbrev pub cg_path_of : Option Handle → Text
cg_path_of none = []
cg_path_of (some h) = h.cg_path

abbrev pub leader_start_of : Option Handle → ℕ
leader_start_of none = 0
leader_start_of (some h) = h.leader_start

-- The descriptor that is published is that of the tree, and empty for none. So is the pid, but for a
-- leader that has exited, whose pid is gone where its tree could not be cleaned up.
abbrev pub Published : Option Handle → App → Type 0
Published o a =
    ((a.pid ≡ pid_of o) ⊎ (a.pid ≡ 0))
    × (a.tree_mode ≡ mode_of o)
    × (a.tree_cg_path ≡ cg_path_of o)
    × (a.tree_leader_start ≡ leader_start_of o)

-- A running app owns a tree; a stopped or parked one owns none; `stopping` is never seen; the park
-- timer is armed exactly while the app waits; the descriptor that is published is that of the tree
-- that is owned, and empty where there is none, and so is the pid while the app runs.
pub record Inv (a : App) : Type 0 where
  pub launching_owns : a.status ≡ launching → a.handle ≢ none
  pub online_owns : a.status ≡ online → a.handle ≢ none
  pub stopped_free : a.status ≡ stopped → a.handle ≡ none
  pub waiting_free : a.status ≡ waiting → a.handle ≡ none
  pub settled : a.status ≢ stopping
  pub parked_waits : a.park ≢ none → a.status ≡ waiting
  pub waits_parked : a.status ≡ waiting → a.park ≢ none
  pub published : Published a.handle a
  pub running_pid : is_running a.status ≡ true → a.pid ≡ pid_of a.handle
  pub running_unexited : is_running a.status ≡ true → a.exit_code ≡ none

launch-Inv : (w : World) (a : App) → a.park ≡ none → Inv (launch w a).0
unfolding launch
launch-Inv w a p = ground arith

relaunch-Inv : (w : World) (a : App) → a.park ≡ none → Inv (relaunch w a).0
unfolding relaunch
relaunch-Inv w a p = launch-Inv w _ p

stop-Inv :
    (w : World) (window : ℤ) (a : App)
    → Published a.handle a
    → a.park ≡ none
    → Inv (stop_tree_until w window a).0
unfolding stop_tree_until
stop-Inv w window a v p = ground arith

stop_graceful-Inv :
    (w : World) (graceful : Bool) (a : App)
    → Published a.handle a
    → a.park ≡ none
    → Inv (stop_graceful w graceful a).0
unfolding stop_graceful
stop_graceful-Inv w graceful a v p = ground arith

stop_graceful-outcome :
    (w : World) (graceful : Bool) (a : App)
    → ((stop_graceful w graceful a).1 ≡ none) × ((stop_graceful w graceful a).0.status ≡ stopped)
      ⊎ ((stop_graceful w graceful a).1 ≡ some kill_failed)
        × ((stop_graceful w graceful a).0.status ≡ errored)
unfolding stop_graceful
stop_graceful-outcome w graceful a = ground arith

on_start-Inv : (w : World) (a : App) → Inv a → Inv (on_start w a).0
unfolding on_start reset_state
on_start-Inv w a v = ground arith

on_restart-Inv : (w : World) (a : App) → Inv a → Inv (on_restart w a).0
unfolding on_restart reset_state
on_restart-Inv w a v = ground arith

on_delete-Inv : (w : World) (graceful : Bool) (a : App) → Inv a → Inv (on_delete w graceful a).0
unfolding on_delete
on_delete-Inv w graceful a v = ground arith

schedule-Inv :
    (w : World) (delay : ℤ) (b : Bool) (a : App)
    → Published a.handle a
    → a.handle ≡ none
    → a.park ≡ none
    → Inv (schedule w delay b a)
unfolding schedule
schedule-Inv w delay true a v h p =
    ground (arith, relaunch-Inv w (record a { prev_backoff = delay }))
schedule-Inv w delay false a v h p = ground (arith, relaunch-Inv w a)

apply_budget-Inv :
    (w : World) (a : App)
    → Published a.handle a
    → a.handle ≡ none
    → a.park ≡ none
    → Inv (apply_budget w a)
unfolding apply_budget
apply_budget-Inv w a v h p =
    let (delay, b) = next_restart_delay a.cfg a.prev_backoff in
    ground (arith, schedule-Inv w delay b a)

-- The bookkeeping leaves all but its counters as they were.
pub stability-keeps :
    (now : ℕ) (info : ExitInfo) (a : App)
    → let b = stability now info a in
      (b.cfg ≡ a.cfg)
      × (b.handle ≡ a.handle)
      × (b.park ≡ a.park)
      × (b.pid ≡ a.pid)
      × (b.tree_mode ≡ a.tree_mode)
      × (b.tree_cg_path ≡ a.tree_cg_path)
      × (b.tree_leader_start ≡ a.tree_leader_start)
      × (b.restarts ≡ a.restarts)
      × (b.calls ≡ a.calls)
      × (b.prev_backoff ≡ a.prev_backoff)
unfolding stability
stability-keeps now info a = ground arith

exit_policy-Inv :
    (w : World) (info : ExitInfo) (a : App)
    → Published a.handle a
    → a.handle ≡ none
    → a.park ≡ none
    → Inv (exit_policy w info a)
unfolding exit_policy
exit_policy-Inv w info a v h p =
    ground (arith, apply_budget-Inv w (stability w.now info a), stability-keeps w.now info a)

exit_cleanup-Inv :
    (w : World) (info : ExitInfo) (h : Handle) (a : App)
    → Published a.handle a
    → a.handle ≡ some h
    → a.park ≡ none
    → Inv (exit_cleanup w info h a)
unfolding exit_cleanup cleaned
exit_cleanup-Inv w info h a v e p = elim (Bool-cases (w.stop_within h (pos 0))) [
  | inl gone ↦
      rw (gone, exit_cleanup) (exit_policy-Inv w info _ (inl refl, refl, refl, refl) refl p)
  | inr left ↦ rw (left, exit_cleanup) (ground arith)
]

running-unparked : (a : App) → Inv a → is_running a.status ≡ true → a.park ≡ none
running-unparked a v r = ground arith

on_exit-Inv : (w : World) (info : ExitInfo) (a : App) → Inv a → Inv (on_exit w info a)
unfolding on_exit
on_exit-Inv w info a v = elim (Option-cases a.handle) [
  | inl e ↦ rw (e, on_exit) v
  | inr (h, e) ↦ elim (Bool-cases (is_running a.status)) [
    | inl r ↦
        rw (e, on_exit) (rw r (exit_cleanup-Inv w info h a v.published e (running-unparked a v r)))
    | inr r ↦ rw (e, on_exit) (rw r v)
  ]
]

-- A signal changes nothing that the actor keeps.
pub on_signal-keeps : (w : World) (sig : ℕ) (a : App) → (on_signal w sig a).0 ≡ a
unfolding on_signal
on_signal-keeps w sig a = ground arith

-- Every round of the loop keeps the invariant, whatever the process layer answers.
pub step-Inv : (w : World) (a : App) (e : Event) → enabled a e ≡ true → Inv a → Inv (step w a e).0
unfolding step enabled on_stop
step-Inv w a start g v = on_start-Inv w a v
step-Inv w a restart g v = on_restart-Inv w a v
step-Inv w a tree g v = v
step-Inv w a ready g v = ground arith
step-Inv w a ready_timeout g v = ground arith
step-Inv w a park_elapsed g v = relaunch-Inv w (clear_park a) refl
step-Inv w a (stop graceful) g v = stop_graceful-Inv w graceful (clear_park a) v.published refl
step-Inv w a (delete graceful) g v = on_delete-Inv w graceful a v
step-Inv w a (signal sig) g v = rw (on_signal-keeps w sig a) v
step-Inv w a (update_env env) g v = ground arith
step-Inv w a (exits info) g v = on_exit-Inv w info a v
