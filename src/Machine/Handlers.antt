-- ===== src/Machine/Handlers.antt =====
-- internal/machine/machine.go, the handlers of the actor. A handler returns the new state and the
-- error that the source returns. Its calls of the process layer are answered by the `World` of the
-- step and noted in `calls`.
use pm.Base.{
  ℕ, suc, Bool, true, ◌&&◌, Option, none, some, List, [], ◌∷◌, Text, if◌then◌else◌, ℤ, pos, ◌-ℤ◌,
  ltb_ℤ,
}
use pm.Proc.{Handle, ExitInfo}
use pm.Machine.State.{
  App, Status, World, Error, launching, online, stopping, stopped, waiting, errored, plain, oom,
  spawned, killed, handed_off, spawn_failed, kill_failed, not_running, signal_failed, publish_tree,
}
use pm.Machine.Policy.{kill_timeout, reset_state}
use pm.Machine.Env.{launch_spec}

abbrev pub Result : Type 0
Result = App × Option Error

-- `launch` after a failed spawn: the app is parked errored.
unfoldable pub spawn_refused : App → Result
unfolding publish_tree
spawn_refused a =
    (publish_tree none (record a { status = errored; handle = none; pid = 0 }), some spawn_failed)

-- `launch` after a spawn.
unfoldable pub spawn_done : World → Handle → App → App
unfolding publish_tree
spawn_done w h a =
    let b = record (publish_tree (some h) a) {
      handle = some h;
      pid = h.pid;
      uptime = some w.launched_at;
      exit_code = none;
      exit_sig = 0;
      exit_reason = plain;
    } in
    if b.cfg.wait_ready
    then record b { status = launching; ready_timer = some b.cfg.listen_timeout }
    else record b { status = online }

-- `launch`. The pid file, which is advisory, is left out.
unfoldable pub launch : World → App → Result
unfolding spawn_refused spawn_done
launch w a =
    let spec = launch_spec w.environ a in
    let answer = w.spawn spec in
    let b = record a { status = launching; calls = spawned spec answer ∷ a.calls } in
    elim answer [ none ↦ spawn_refused b | some h ↦ (spawn_done w h b, none) ]

-- `relaunch`.
unfoldable pub relaunch : World → App → Result
unfolding launch
relaunch w a = launch w (record a { restarts = suc a.restarts })

-- The exit fields of the snapshot: a signal death records the code 0.
unfoldable pub set_exit : ExitInfo → App → App
set_exit info a = record a {
  exit_code = some (if info.signaled then pos 0 else info.exit_code);
  exit_sig = if info.signaled then info.term_sig else 0;
  exit_reason = if info.oom_kill then oom else plain;
}

-- `recordExitLocked`: nothing is recorded while the leader is not reaped.
unfoldable pub record_exit : Option ExitInfo → App → App
unfolding set_exit
record_exit none a = a
record_exit (some info) a = set_exit info a

-- `stopTreeUntil` on a live tree: a tree that survives stays owned.
unfoldable pub stop_live : World → ℤ → Handle → App → Result
unfolding publish_tree record_exit
stop_live w window h a =
    let gone = w.stop_within h window in
    let b = record a { status = stopping; calls = killed h window gone ∷ a.calls } in
    if gone
    then (
      record_exit (w.exit_result h)
          (publish_tree none (record b { handle = none; pid = 0; status = stopped })),
      none,
    )
    else (record b { status = errored }, some kill_failed)

-- `stopTreeUntil`, for a deadline that is `window` away.
unfoldable pub stop_tree_until : World → ℤ → App → Result
unfolding stop_live
stop_tree_until w window a = elim a.handle [
  | none ↦ (record a { status = stopped }, none)
  | some h ↦ stop_live w window h a
]

-- `stopTree`.
unfoldable pub stop_tree : World → App → Result
unfolding stop_tree_until
stop_tree w a = stop_tree_until w (kill_timeout a.cfg) a

-- The time that the handoff waits: until the worker exits, at most the budget.
unfoldable pub handoff_wait : Option ℕ → ℤ → ℤ
handoff_wait none budget = budget
handoff_wait (some d) budget = if ltb_ℤ (pos d) budget then pos d else budget

-- `shutdownHandoff`: what is left of the budget.
unfoldable pub shutdown_handoff : World → ℤ → App → App × ℤ
unfolding handoff_wait ◌-ℤ◌
shutdown_handoff w budget a = elim a.handle [
  | none ↦ (a, budget)
  | some h ↦
      if w.send_shutdown h && ltb_ℤ (pos 0) budget
      then (let waited = handoff_wait (w.exits_after h) budget in
          (record a { calls = handed_off h waited ∷ a.calls }, budget -ℤ waited))
      else (a, budget)
]

-- `stopGraceful`: the handoff and the kill path share one budget.
unfoldable pub stop_graceful : World → Bool → App → Result
unfolding shutdown_handoff stop_tree_until
stop_graceful w graceful_ipc a =
    if graceful_ipc && a.ipc_handoff
    then (let (b, left) = shutdown_handoff w (kill_timeout a.cfg) a in stop_tree_until w left b)
    else stop_tree_until w (kill_timeout a.cfg) a

-- `onStart` by status, after the park is cleared.
unfoldable pub start_from : World → Status → App → Result
unfolding relaunch launch
start_from w online a = (a, none)
start_from w launching a = (a, none)
start_from w stopping a = (a, none)
start_from w waiting a = ((relaunch w a).0, none)
start_from w stopped a = launch w (reset_state w.now a)
start_from w errored a = launch w (reset_state w.now a)

-- `clearPark` of the park that the handler has read.
abbrev pub clear_park : App → App
clear_park a = record a { park = none }

-- `onStart`.
unfoldable pub on_start : World → App → Result
unfolding start_from
on_start w a = start_from w a.status (clear_park a)

-- `onStop`.
unfoldable pub on_stop : World → Bool → App → Result
unfolding stop_graceful
on_stop w graceful_ipc a = stop_graceful w graceful_ipc (clear_park a)

abbrev then_relaunch : World → Result → Result
then_relaunch w (a, some e) = (a, some e)
then_relaunch w (a, none) = relaunch w (reset_state w.now a)

-- `onRestart`: a failed kill path returns early.
unfoldable pub on_restart : World → App → Result
unfolding stop_tree relaunch
on_restart w a = then_relaunch w (stop_tree w (clear_park a))

abbrev then_close : Result → Result
then_close (a, some e) = (record a { status = errored; closed = true }, some e)
then_close (a, none) = (record a { status = stopped; closed = true }, none)

-- `onDelete`, with the end of the actor that follows it in the loop.
unfoldable pub on_delete : World → Bool → App → Result
unfolding stop_graceful
on_delete w graceful_ipc a = then_close (stop_graceful w graceful_ipc (clear_park a))

-- `onSignal`.
unfoldable pub on_signal : World → ℕ → App → Result
on_signal w sig a = elim a.handle [
  | none ↦ (a, some not_running)
  | some h ↦ (a, if w.send_signal h sig then none else some signal_failed)
]

-- `onReady` and `onReadyTimeout`.
unfoldable pub on_ready : App → App
on_ready a = elim a.status [ launching ↦ record a { status = online; ready_timer = none } | _ ↦ a ]

-- `onUpdateEnv`.
unfoldable pub on_update_env : List (Text × Text) → App → Result
on_update_env env a = (record a { cfg = record a.cfg { env = env } }, none)

-- `currentTreePids`.
unfoldable pub current_tree_pids : World → App → List ℕ
current_tree_pids w a = elim a.handle [ none ↦ [] | some h ↦ w.tree_pids h ]
