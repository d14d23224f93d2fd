-- ===== src/Machine/State.antt =====
-- internal/machine/machine.go, the `App` struct: the state that the actor of one application owns.
-- Times are nanoseconds on one clock, `none` is Go's zero time. The counters are unbounded.
-- `calls` is not in the source: it lists, newest first, the calls made of the process layer.
use pm.Base.{ℕ, suc, ◌-◌, Bool, true, false, Option, none, some, List, [], ◌∷◌, Text, ℤ}
use pm.Config.{Config}
use pm.Proc.{Handle, ExitInfo, Spec}

-- The six status strings.
pub data Status : Type 0 where
  launching online stopping stopped waiting errored : Status

-- `LastExitReason`: "" or "oom".
pub data ExitReason : Type 0 where
  plain oom : ExitReason

pub data Error : Type 0 where
  no_script no_name bad_cron spawn_failed kill_failed not_running signal_failed : Error

-- A call of the process layer: a tree taken over, a spawn with its result, a run of the kill path
-- with its graceful window and whether the tree is gone, a shutdown message with the time waited.
pub data Call : Type 0 where
  adopted : Handle → Call
  spawned : Spec → Option Handle → Call
  killed : Handle → ℤ → Bool → Call
  handed_off : Handle → ℤ → Call

pub record App : Type 0 where
  pub cfg : Config
  pub id : ℕ
  pub attrib : Text
  pub preload_path : Text
  pub ipc_handoff : Bool
  pub status : Status
  pub handle : Option Handle
  pub pid : ℕ
  pub restarts : ℕ
  pub unstable : ℕ
  pub crash_series : Option ℕ
  pub created : ℕ
  pub uptime : Option ℕ
  pub exit_code : Option ℤ
  pub exit_sig : ℕ
  pub exit_reason : ExitReason
  pub created_is_null : Bool
  pub prev_backoff : ℤ
  pub park : Option ℤ
  pub ready_timer : Option ℤ
  pub tree_mode : Text
  pub tree_cg_path : Text
  pub tree_leader_start : ℕ
  pub closed : Bool
  pub calls : List Call

-- What the process layer and the clock answer during one step of the actor. `exit_result` is `none`
-- while the leader is not reaped, `exits_after` the time in which a worker obeys a shutdown message.
pub record World : Type 0 where
  pub now : ℕ
  pub launched_at : ℕ
  pub environ : List Text
  pub spawn : Spec → Option Handle
  pub stop_within : Handle → ℤ → Bool
  pub send_shutdown : Handle → Bool
  pub exits_after : Handle → Option ℕ
  pub exit_result : Handle → Option ExitInfo
  pub send_signal : Handle → ℕ → Bool
  pub tree_pids : Handle → List ℕ

-- The number of trees that were spawned or adopted and are not yet gone.
abbrev pub live : List Call → ℕ
live [] = 0
live (adopted h ∷ cs) = suc (live cs)
live (spawned s (some h) ∷ cs) = suc (live cs)
live (spawned s none ∷ cs) = live cs
live (killed h window true ∷ cs) = live cs - 1
live (killed h window false ∷ cs) = live cs
live (handed_off h waited ∷ cs) = live cs

-- The number of attempts to spawn a process.
abbrev pub spawns : List Call → ℕ
spawns [] = 0
spawns (adopted h ∷ cs) = spawns cs
spawns (spawned s r ∷ cs) = suc (spawns cs)
spawns (killed h window gone ∷ cs) = spawns cs
spawns (handed_off h waited ∷ cs) = spawns cs

abbrev pub owned : Option Handle → ℕ
owned none = 0
owned (some h) = 1

-- `publishTreeLocked`.
unfoldable pub publish_tree : Option Handle → App → App
publish_tree none a = record a { tree_mode = []; tree_cg_path = []; tree_leader_start = 0 }
publish_tree (some h) a = record a {
  tree_mode = h.mode;
  tree_cg_path = h.cg_path;
  tree_leader_start = h.leader_start;
}

-- `Options`.
pub record Options : Type 0 where
  pub id : ℕ
  pub initial_restarts : ℕ
  pub cluster_preload_path : Text

abbrev pub or_else {ℓ} : {A : Type ℓ} → Bool → Error → Option A → (Option A × Option Error)
or_else true e o = (none, some e)
or_else false e o = (o, none)
