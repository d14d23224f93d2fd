-- ===== src/Config.antt =====
-- internal/config/config.go: the resolved configuration of one application and its defaults.
-- A duration is an int64 count of nanoseconds, a string the list of its bytes, a map an
-- association list.
pub mod Interp
pub mod Ecosystem
use pm.Base.{ℕ, ◌*◌, Bool, true, false, List, [], Text, codes, ℤ, pos}

abbrev pub millisecond : ℕ
millisecond = 1000000

abbrev pub second : ℕ
second = 1000 * millisecond

pub record Config : Type 0 where
  pub name : Text
  pub script : Text
  pub args : List Text
  pub interpreter : Text
  pub interpreter_args : List Text
  pub exec_path : Text
  pub exec_args : List Text
  pub exec_mode : Text
  pub instances : ℤ
  pub instance_index : ℕ
  pub namespace : Text
  pub cwd : Text
  pub autorestart : Bool
  pub max_restarts : ℤ
  pub min_uptime : ℤ
  pub restart_delay : ℤ
  pub exp_backoff_restart_delay : ℤ
  pub exp_backoff_cap : ℤ
  pub stop_exit_codes : List ℤ
  pub max_memory_restart : ℤ
  pub kill_signal : Text
  pub kill_timeout : ℤ
  pub listen_timeout : ℤ
  pub wait_ready : Bool
  pub cron_restart : Text
  pub watch : Bool
  pub health_check_cmd : Text
  pub health_check_interval : ℤ
  pub health_check_timeout : ℤ
  pub health_check_retries : ℤ
  pub treekill : Bool
  pub time : Bool
  pub log_date_format : Text
  pub out_file : Text
  pub error_file : Text
  pub pid_file : Text
  pub merge_logs : Bool
  pub log_rotate_max_bytes : ℤ
  pub log_rotate_retain : ℤ
  pub env : List (Text × Text)

abbrev pub default_max_restarts : ℤ
default_max_restarts = pos 16

abbrev pub default_min_uptime : ℤ
default_min_uptime = pos (1000 * millisecond)

abbrev pub exp_backoff_cap_default : ℤ
exp_backoff_cap_default = pos (15000 * millisecond)

abbrev pub default_listen_timeout : ℤ
default_listen_timeout = pos (3000 * millisecond)

abbrev pub default_kill_timeout : ℤ
default_kill_timeout = pos (1600 * millisecond)

-- `Default`: every pinned default, with the identity left empty.
unfoldable pub default : Config
default = record {
  name = [];
  script = [];
  args = [];
  interpreter = [];
  interpreter_args = [];
  exec_path = [];
  exec_args = [];
  exec_mode = codes "fork";
  instances = pos 1;
  instance_index = 0;
  namespace = codes "default";
  cwd = [];
  autorestart = true;
  max_restarts = default_max_restarts;
  min_uptime = default_min_uptime;
  restart_delay = pos 0;
  exp_backoff_restart_delay = pos 0;
  exp_backoff_cap = exp_backoff_cap_default;
  stop_exit_codes = [];
  max_memory_restart = pos 0;
  kill_signal = codes "SIGINT";
  kill_timeout = default_kill_timeout;
  listen_timeout = default_listen_timeout;
  wait_ready = false;
  cron_restart = [];
  watch = false;
  health_check_cmd = [];
  health_check_interval = pos (30 * second);
  health_check_timeout = pos (5 * second);
  health_check_retries = pos 3;
  treekill = true;
  time = false;
  log_date_format = [];
  out_file = [];
  error_file = [];
  pid_file = [];
  merge_logs = false;
  log_rotate_max_bytes = pos (10 * 1048576);
  log_rotate_retain = pos 30;
  env = [];
}

-- `DefaultFor`: the defaults with the identity filled.
unfoldable pub default_for : Text → Text → Config
unfolding default
default_for name script = record default { name = name; script = script }
