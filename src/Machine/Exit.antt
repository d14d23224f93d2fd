-- ===== src/Machine/Exit.antt =====
-- internal/machine/machine.go, `onExit`: what the actor does when the leader of a running tree
-- exits. The handler is cut where the source unlocks between two decisions.
use pm.Base.{Bool, true, false, not, ◌||◌, none, some, ◌∷◌, if◌then◌else◌, ℤ, pos, ltb_ℤ, leb_ℤ}
use pm.Proc.{Handle, ExitInfo}
use pm.Machine.State.{
  App, Status, World, launching, online, stopping, stopped, waiting, errored, killed, publish_tree,
}
use pm.Machine.Policy.{next_restart_delay, stop_exit, stability}
use pm.Machine.Handlers.{relaunch, set_exit}

-- The sleep or the immediate relaunch.
unfoldable pub schedule : World → ℤ → Bool → App → App
schedule w delay is_backoff a =
    let b = if is_backoff then record a { prev_backoff = delay } else a in
    if ltb_ℤ (pos 0) delay
    then record b { status = waiting; park = some delay }
    else (relaunch w b).0

-- The crash budget: over it the app is parked errored.
unfoldable pub apply_budget : World → App → App
apply_budget w a =
    if leb_ℤ a.cfg.max_restarts (pos a.unstable)
    then record a { unstable = 0; created_is_null = true; crash_series = none; status = errored }
    else (let (delay, is_backoff) = next_restart_delay a.cfg a.prev_backoff in
        schedule w delay is_backoff a)

-- Intentional stops, else the restart policy.
unfoldable pub exit_policy : World → ExitInfo → App → App
exit_policy w info a =
    if not a.cfg.autorestart || stop_exit info a.cfg.stop_exit_codes
    then record a { status = stopped }
    else apply_budget w (stability w.now info a)

-- The state in which the tree is cleaned up, after the kill path has answered.
unfoldable pub exiting : Handle → Bool → App → App
exiting h gone a = record a {
  status = stopping;
  pid = 0;
  ready_timer = none;
  calls = killed h (pos 0) gone ∷ a.calls;
}

-- The tree is gone, and its exit is on record.
unfoldable pub cleaned : ExitInfo → App → App
unfolding publish_tree set_exit
cleaned info b = set_exit info (publish_tree none (record b { handle = none }))

-- The cleanup of the tree, whose leader alone is known to be gone.
unfoldable pub exit_cleanup : World → ExitInfo → Handle → App → App
unfolding set_exit exiting
exit_cleanup w info h a =
    let gone = w.stop_within h (pos 0) in
    if gone
    then exit_policy w info (cleaned info (exiting h gone a))
    else record (set_exit info (exiting h gone a)) { status = errored }

abbrev pub is_running : Status → Bool
is_running launching = true
is_running online = true
is_running _ = false

-- `onExit`.
unfoldable pub on_exit : World → ExitInfo → App → App
on_exit w info a = elim a.handle [
  | none ↦ a
  | some h ↦ if is_running a.status then exit_cleanup w info h a else a
]
