-- ===== src/Machine/Actor.antt =====
-- internal/machine/machine.go, `loop`: one round of the actor, for each message of the mailbox and
-- each channel of the select. A step is taken only where its channel is not nil.
pub mod Invariant
pub mod Restarts
pub mod CrashLoop
pub mod CrashBudget
pub mod Stops
pub mod Reach
pub mod Trees
use pm.Base.{ℕ, ◌≡◌, Bool, true, false, ◌&&◌, Option, none, some, List, [], Text}
use pm.Proc.{Handle, ExitInfo}
use pm.Machine.State.{App, World, Error, Status, launching}
use pm.Machine.Handlers.{
  Result, on_start, on_stop, on_restart, on_delete, on_signal, on_ready, on_update_env,
  current_tree_pids, relaunch, clear_park,
}
use pm.Machine.Exit.{on_exit, is_running}

-- The messages, with what their senders give, and the channels of the select.
pub data Event : Type 0 where
  start restart tree ready ready_timeout park_elapsed : Event
  stop delete : Bool → Event
  signal : ℕ → Event
  update_env : List (Text × Text) → Event
  exits : ExitInfo → Event

pub data Reply : Type 0 where
  silent : Reply
  replied : Option Error → Reply
  pids : List ℕ → Reply

abbrev pub is_some {ℓ} : {A : Type ℓ} → Option A → Bool
is_some none = false
is_some (some x) = true

abbrev pub is_launching : Status → Bool
is_launching launching = true
is_launching _ = false

abbrev pub ready_handle : Option Handle → Bool
ready_handle none = false
ready_handle (some h) = h.has_ready

-- Whether the channel of an event is not nil; a message can always be received.
unfoldable pub enabled : App → Event → Bool
enabled a (exits info) = is_some a.handle && is_running a.status
enabled a ready = is_launching a.status && ready_handle a.handle
enabled a ready_timeout = is_launching a.status && is_some a.handle && is_some a.ready_timer
enabled a park_elapsed = is_some a.park
enabled a _ = true

abbrev reply : Result → App × Reply
reply (a, e) = (a, replied e)

-- One round of the loop.
unfoldable pub step : World → App → Event → App × Reply
unfolding on_ready on_update_env
step w a start = reply (on_start w a)
step w a (stop graceful) = reply (on_stop w graceful a)
step w a restart = reply (on_restart w a)
step w a (delete graceful) = reply (on_delete w graceful a)
step w a (signal sig) = reply (on_signal w sig a)
step w a tree = (a, pids (current_tree_pids w a))
step w a (update_env env) = reply (on_update_env env a)
step w a (exits info) = (on_exit w info a, silent)
step w a ready = (on_ready a, silent)
step w a ready_timeout = (on_ready a, silent)
step w a park_elapsed = ((relaunch w (clear_park a)).0, silent)
