-- ===== src/Machine/Snapshot.antt =====
-- internal/machine/machine.go, `Status.Valid` and `Snapshot`: what the actor publishes to readers.
use pm.Base.{
  ℕ, ◌/◌, ◌≡◌, ◌≢◌, ◌⊎◌, inl, inr, refl, arith, Bool, true, ◌||◌, Option, none, some, Text, codes,
  text_eq, [], ℤ, pos, negsuc,
}
use pm.Config.{millisecond}
use pm.Machine.State.{
  App, Status, ExitReason, launching, online, stopping, stopped, waiting, errored,
}
use pm.Machine.Exit.{is_running}
use pm.Machine.Actor.Invariant.{Published, Inv}

abbrev pub status_text : Status → Text
status_text launching = codes "launching"
status_text online = codes "online"
status_text stopping = codes "stopping"
status_text stopped = codes "stopped"
status_text waiting = codes "waiting restart"
status_text errored = codes "errored"

abbrev is_text_of : Text → Status → Bool
is_text_of s st = text_eq s (status_text st)

-- `Valid`.
abbrev pub is_valid : Text → Bool
is_valid s =
    is_text_of s launching
    || is_text_of s online
    || is_text_of s stopping
    || is_text_of s stopped
    || is_text_of s waiting
    || is_text_of s errored

-- `Snapshot`; times in milliseconds.
pub record Snapshot : Type 0 where
  pub name : Text
  pub status : Status
  pub pid : ℕ
  pub restart_time : ℕ
  pub unstable_restarts : ℕ
  pub created_at_ms : ℤ
  pub created_at_is_null : Bool
  pub pm_uptime_ms : ℤ
  pub exit_code : Option ℤ
  pub last_exit_sig : ℕ
  pub last_exit_reason : ExitReason
  pub tree_mode : Text
  pub cgroup_path : Text
  pub leader_start : ℕ

-- `UnixMilli`, which for Go's zero time (the year 1) is -62135596800000.
unfoldable pub unix_milli : Option ℕ → ℤ
unix_milli none = negsuc 62135596799999
unix_milli (some t) = pos (t / millisecond)

-- `Snapshot`.
unfoldable pub snapshot : App → Snapshot
snapshot a = record {
  name = a.cfg.name;
  status = a.status;
  pid = a.pid;
  restart_time = a.restarts;
  unstable_restarts = a.unstable;
  created_at_ms = unix_milli (some a.created);
  created_at_is_null = a.created_is_null;
  pm_uptime_ms = unix_milli a.uptime;
  exit_code = a.exit_code;
  last_exit_sig = a.exit_sig;
  last_exit_reason = a.exit_reason;
  tree_mode = a.tree_mode;
  cgroup_path = a.tree_cg_path;
  leader_start = a.tree_leader_start;
}

status_text-is_valid : (st : Status) → is_valid (status_text st) ≡ true
status_text-is_valid launching = refl
status_text-is_valid online = refl
status_text-is_valid stopping = refl
status_text-is_valid stopped = refl
status_text-is_valid waiting = refl
status_text-is_valid errored = refl

-- What a reader sees of an app: no exit code while it runs, neither a pid nor a tree descriptor
-- while it is stopped or waits, and never `stopping`.
pub record IsCoherent (s : Snapshot) : Type 0 where
  pub never_stopping : s.status ≢ stopping
  pub no_exit_yet : is_running s.status ≡ true → s.exit_code ≡ none
  pub unpublished :
      (s.status ≡ stopped) ⊎ (s.status ≡ waiting)
      → (s.pid ≡ 0) × (s.tree_mode ≡ []) × (s.cgroup_path ≡ []) × (s.leader_start ≡ 0)

free_of : (a : App) → Inv a → (a.status ≡ stopped) ⊎ (a.status ≡ waiting) → a.handle ≡ none
free_of a v (inl e) = v.stopped_free e
free_of a v (inr e) = v.waiting_free e

free-unpublished :
    (a : App)
    → Published a.handle a
    → a.handle ≡ none
    → (a.pid ≡ 0) × (a.tree_mode ≡ []) × (a.tree_cg_path ≡ []) × (a.tree_leader_start ≡ 0)
free-unpublished a p e = ground arith

pub snapshot-IsCoherent : (a : App) → Inv a → IsCoherent (snapshot a)
unfolding snapshot
snapshot-IsCoherent a v = record {
  never_stopping = v.settled;
  no_exit_yet = v.running_unexited;
  unpublished = λ e. free-unpublished a v.published (free_of a v e);
}
