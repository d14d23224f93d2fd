-- ===== src/Samples.antt =====
-- Test data: a configuration, process layers that answer in known ways, and apps in known states.
use pm.Base.{ℕ, ◌*◌, true, false, none, some, [], ◌∷◌, codes, pos}
use pm.Config.{Config, default, second, millisecond}
use pm.Proc.{Handle, ExitInfo}
use pm.Machine.State.{App, World, stopped, online, errored, plain, adopted}
use pm.Supervisor.Registry.{Entry, Registry}

abbrev pub web_config : Config
unfolding default
web_config = record default {
  name = codes "web";
  script = codes "/srv/web.js";
  max_restarts = pos 2;
  exp_backoff_restart_delay = pos (100 * millisecond);
}

abbrev pub tree_a : Handle
tree_a = record { pid = 41; mode = codes "pgid"; cg_path = []; leader_start = 7; has_ready = true }

abbrev pub tree_b : Handle
tree_b = record { pid = 42; mode = codes "pgid"; cg_path = []; leader_start = 8; has_ready = true }

abbrev pub crash_info : ExitInfo
crash_info = record { exit_code = pos 1; signaled = false; term_sig = 0; oom_kill = false }

-- Spawns `tree_b` at `now`, and kills at once.
abbrev pub serving : ℕ → World
serving now = record {
  now = now;
  launched_at = now;
  environ = [];
  spawn = λ s. some tree_b;
  stop_within = λ h d. true;
  send_shutdown = λ h. true;
  exits_after = λ h. some millisecond;
  exit_result = λ h. some crash_info;
  send_signal = λ h s. true;
  tree_pids = λ h. [];
}

-- Registered at time 0 under the id 3, and never started.
abbrev pub idle : App
unfolding default
idle = record {
  cfg = web_config;
  id = 3;
  attrib = codes "web-3";
  preload_path = [];
  ipc_handoff = true;
  status = stopped;
  handle = none;
  pid = 0;
  restarts = 0;
  unstable = 0;
  crash_series = none;
  created = 0;
  uptime = none;
  exit_code = none;
  exit_sig = 0;
  exit_reason = plain;
  created_is_null = false;
  prev_backoff = pos 0;
  park = none;
  ready_timer = none;
  tree_mode = [];
  tree_cg_path = [];
  tree_leader_start = 0;
  closed = false;
  calls = [];
}

-- Runs `tree_a` since one second.
abbrev pub running : App
unfolding default
running = record idle {
  status = online;
  handle = some tree_a;
  pid = 41;
  uptime = some second;
  tree_mode = codes "pgid";
  tree_leader_start = 7;
  calls = adopted tree_a ∷ [];
}

-- Its kill path has failed.
abbrev pub stuck : App
unfolding default
stuck = record running { status = errored }

abbrev pub entry : Entry
unfolding default
entry = record { address = 1; app = running }

-- One app, at the id 3.
abbrev pub one_app : Registry
unfolding default
one_app = record {
  apps = (pos 3, entry) ∷ [];
  serials = (pos 3, 1) ∷ [];
  next_id = 4;
  next_serial = 1;
  version = 1;
  cluster_preload = [];
}
