-- ===== src/Machine/Actor/Trees.antt =====
-- internal/machine/machine.go: the process trees that the actor's rounds spawn, own and kill.
use pm.Base.{
  ◌≡◌, refl, inl, inr, Bool, true, false, Bool-cases, none, some, Option-cases, arith, ℤ, pos,
}
use pm.Proc.{Handle, ExitInfo, Spec}
use pm.Machine.Env.{launch_spec}
use pm.Machine.State.{App, World, errored, owned, live}
use pm.Machine.Policy.{stability, reset_state, next_restart_delay}
use pm.Machine.Handlers.{
  clear_park, launch, relaunch, stop_graceful, on_start, on_stop, on_restart, on_delete,
}
use pm.Machine.Exit.{schedule, apply_budget, exit_policy, exit_cleanup, cleaned, on_exit}
use pm.Machine.Actor.{
  Event, step, enabled, start, restart, tree, ready, ready_timeout, park_elapsed, stop, delete,
  signal, update_env, exits,
}
use pm.Machine.Actor.Invariant.{Inv, stability-keeps, on_signal-keeps}

-- As many trees live as the app owns: one with a handle, none without.
abbrev pub IsAccounted : App → Type 0
IsAccounted a = live a.calls ≡ owned a.handle

launch-IsAccounted :
    (w : World) (a : App) → a.handle ≡ none → IsAccounted a → IsAccounted (launch w a).0
unfolding launch
launch-IsAccounted w a h v = ground arith

relaunch-IsAccounted :
    (w : World) (a : App) → a.handle ≡ none → IsAccounted a → IsAccounted (relaunch w a).0
unfolding relaunch
relaunch-IsAccounted w a h v = ground arith

stop_graceful-IsAccounted :
    (w : World) (graceful : Bool) (a : App)
    → IsAccounted a
    → IsAccounted (stop_graceful w graceful a).0
unfolding stop_graceful
stop_graceful-IsAccounted w graceful a v = ground arith

on_restart-IsAccounted : (w : World) (a : App) → IsAccounted a → IsAccounted (on_restart w a).0
unfolding on_restart reset_state
on_restart-IsAccounted w a v = ground arith

on_delete-IsAccounted :
    (w : World) (graceful : Bool) (a : App) → IsAccounted a → IsAccounted (on_delete w graceful a).0
unfolding on_delete
on_delete-IsAccounted w graceful a v = ground arith

on_start-IsAccounted :
    (w : World) (a : App)
    → Inv a
    → (a.status ≡ errored → a.handle ≡ none)
    → IsAccounted a
    → IsAccounted (on_start w a).0
unfolding on_start reset_state
on_start-IsAccounted w a i h v = ground arith

schedule-IsAccounted :
    (w : World) (delay : ℤ) (b : Bool) (a : App)
    → a.handle ≡ none
    → IsAccounted a
    → IsAccounted (schedule w delay b a)
unfolding schedule
schedule-IsAccounted w delay true a h v =
    ground (arith, relaunch-IsAccounted w (record a { prev_backoff = delay }))
schedule-IsAccounted w delay false a h v = ground (arith, relaunch-IsAccounted w a)

apply_budget-IsAccounted :
    (w : World) (a : App) → a.handle ≡ none → IsAccounted a → IsAccounted (apply_budget w a)
unfolding apply_budget
apply_budget-IsAccounted w a h v =
    let (delay, b) = next_restart_delay a.cfg a.prev_backoff in
    ground (arith, schedule-IsAccounted w delay b a)

exit_policy-IsAccounted :
    (w : World) (info : ExitInfo) (a : App)
    → a.handle ≡ none
    → IsAccounted a
    → IsAccounted (exit_policy w info a)
unfolding exit_policy
exit_policy-IsAccounted w info a h v =
    ground
      (arith, apply_budget-IsAccounted w (stability w.now info a), stability-keeps w.now info a)

exit_cleanup-IsAccounted :
    (w : World) (info : ExitInfo) (h : Handle) (a : App)
    → a.handle ≡ some h
    → IsAccounted a
    → IsAccounted (exit_cleanup w info h a)
unfolding exit_cleanup cleaned
exit_cleanup-IsAccounted w info h a e v = elim (Bool-cases (w.stop_within h (pos 0))) [
  | inl gone ↦ rw (gone, exit_cleanup) (exit_policy-IsAccounted w info _ refl (ground arith))
  | inr left ↦ rw (left, exit_cleanup) (ground arith)
]

on_exit-IsAccounted :
    (w : World) (info : ExitInfo) (a : App) → IsAccounted a → IsAccounted (on_exit w info a)
unfolding on_exit
on_exit-IsAccounted w info a v = elim (Option-cases a.handle) [
  | inl e ↦ rw (e, on_exit) v
  | inr (h, e) ↦ rw (e, on_exit) (ground (arith, exit_cleanup-IsAccounted w info h a e v))
]

-- Every round keeps the account of process trees, but for a start of an app that is parked errored
-- while it still owns a tree: no other event leaves a tree without an owner, or owns two.
pub step-IsAccounted :
    (w : World) (a : App) (e : Event)
    → enabled a e ≡ true
    → Inv a
    → (e ≡ start → a.status ≡ errored → a.handle ≡ none)
    → IsAccounted a
    → IsAccounted (step w a e).0
unfolding step enabled on_stop
step-IsAccounted w a start g i h v = on_start-IsAccounted w a i (h refl) v
step-IsAccounted w a restart g i h v = on_restart-IsAccounted w a v
step-IsAccounted w a tree g i h v = v
step-IsAccounted w a ready g i h v = ground arith
step-IsAccounted w a ready_timeout g i h v = ground arith
step-IsAccounted w a park_elapsed g i h v =
    relaunch-IsAccounted w (clear_park a) (i.waiting_free (ground arith)) v
step-IsAccounted w a (stop graceful) g i h v = stop_graceful-IsAccounted w graceful (clear_park a) v
step-IsAccounted w a (delete graceful) g i h v = on_delete-IsAccounted w graceful a v
step-IsAccounted w a (signal sig) g i h v = rw (on_signal-keeps w sig a) v
step-IsAccounted w a (update_env env) g i h v = v
step-IsAccounted w a (exits info) g i h v = on_exit-IsAccounted w info a v

-- A start of an errored app that still owns a tree, which a failed kill path leaves behind, spawns
-- a second tree and forgets the first: two trees live, one is owned.
pub start-errored-orphans :
    (w : World) (a : App) (h k : Handle)
    → a.status ≡ errored
    → a.handle ≡ some h
    → IsAccounted a
    → ((s : Spec) → w.spawn s ≡ some k)
    → let b = (step w a start).0 in (live b.calls ≡ 2) × (b.handle ≡ some k)
unfolding step on_start reset_state
start-errored-orphans w a h k e o v f =
    ground (arith, f (launch_spec w.environ (reset_state w.now (clear_park a))))
