-- ===== src/Daemon/Convert.antt =====
-- internal/daemon/convert.go and the log paths of internal/store/store.go: the configuration of a
-- spec that comes over the wire, and the files of an app. filepath.Join is an argument.
use pm.Base.{
  ℕ, zero, suc, ◌==◌, Bool, true, ◌&&◌, not, Option, none, some, List, [], ◌∷◌, ◌++◌, Text, codes,
  text_eq, is_empty, if◌then◌else◌, ℤ, pos, negsuc, ltb_ℤ, leb_ℤ, itoa,
}
use pm.Config.{
  Config, default, default_max_restarts, default_min_uptime, default_kill_timeout,
  default_listen_timeout,
}
use pm.Store.{ms}

-- `ProcessSpec`: an integer is the int32 or int64 of the wire.
pub record ProcessSpec : Type 0 where
  pub name : Text
  pub script : Text
  pub args : List Text
  pub interpreter : Text
  pub interpreter_args : List Text
  pub cwd : Text
  pub env : List (Text × Text)
  pub exec_mode : Text
  pub instances : ℤ
  pub namespace : Text
  pub autorestart : Bool
  pub max_restarts : ℤ
  pub min_uptime_ms : ℤ
  pub restart_delay_ms : ℤ
  pub exp_backoff_restart_delay_ms : ℤ
  pub stop_exit_codes : List ℤ
  pub max_memory_restart_bytes : ℤ
  pub kill_signal : Text
  pub kill_timeout_ms : ℤ
  pub listen_timeout_ms : ℤ
  pub wait_ready : Bool
  pub cron_restart : Text
  pub watch : Bool
  pub time : Bool
  pub log_date_format : Text
  pub merge_logs : Bool
  pub out_file : Text
  pub error_file : Text
  pub pid_file : Text
  pub log_rotate_max_bytes : ℤ
  pub log_rotate_retain : ℤ
  pub health_check_cmd : Text
  pub health_check_interval_ms : ℤ
  pub health_check_timeout_ms : ℤ
  pub health_check_retries : ℤ

abbrev pub text_or : Text → Text → Text
text_or t d = if is_empty t then d else t

-- A number that is not positive stands for the default.
abbrev pub positive_or : ℤ → ℤ → ℤ
positive_or n d = if leb_ℤ n (pos 0) then d else n

abbrev pub ms_or : ℤ → ℤ → ℤ
ms_or n d = if leb_ℤ n (pos 0) then d else ms n

-- The three states of the rotation limit: 0 the default, negative off, else bytes.
abbrev pub rotate_max : ℤ → ℤ → ℤ
rotate_max (pos zero) d = d
rotate_max (pos (suc n)) d = pos (suc n)
rotate_max (negsuc n) d = pos 0

-- What follows the last slash, and what stands in front of the last dot that is not the first byte.
abbrev pub or_this : Text → Option Text → Text
or_this s none = s
or_this s (some t) = t

unfoldable pub after_slash : Text → Option Text
after_slash [] = none
after_slash (c ∷ s) = if c == b'/' then some (or_this s (after_slash s)) else after_slash s

abbrev pub push_byte : ℕ → Option Text → Option Text
push_byte c none = none
push_byte c (some t) = some (c ∷ t)

abbrev pub dot_here : ℕ → Option Text → Option Text
dot_here c none = if c == b'.' then some [] else none
dot_here c (some t) = some (c ∷ t)

unfoldable pub before_dot : Text → Option Text
before_dot [] = none
before_dot (c ∷ s) = dot_here c (before_dot s)

unfoldable pub without_ext : Text → Text
unfolding before_dot
without_ext [] = []
without_ext (c ∷ s) = or_this (c ∷ s) (push_byte c (before_dot s))

-- `defaultName`.
unfoldable pub default_name : Text → Text
unfolding after_slash without_ext
default_name script = without_ext (or_this script (after_slash script))

abbrev pub name_or_default : Text → Text → Text
name_or_default name script =
    if is_empty name && not (is_empty script) then default_name script else name

-- `specToConfig`.
unfoldable pub spec_to_config : ProcessSpec → Config
unfolding default default_name
spec_to_config sp = record default {
  name = name_or_default sp.name sp.script;
  script = sp.script;
  args = sp.args;
  interpreter = sp.interpreter;
  interpreter_args = sp.interpreter_args;
  cwd = sp.cwd;
  env = sp.env;
  exec_mode = text_or sp.exec_mode (codes "fork");
  instances = if ltb_ℤ sp.instances (pos 1) then pos 1 else sp.instances;
  namespace = text_or sp.namespace (codes "default");
  autorestart = sp.autorestart;
  max_restarts = positive_or sp.max_restarts default_max_restarts;
  min_uptime = positive_or (ms sp.min_uptime_ms) default_min_uptime;
  restart_delay = ms sp.restart_delay_ms;
  exp_backoff_restart_delay = ms sp.exp_backoff_restart_delay_ms;
  stop_exit_codes = sp.stop_exit_codes;
  max_memory_restart = sp.max_memory_restart_bytes;
  kill_signal = text_or sp.kill_signal (codes "SIGINT");
  kill_timeout = positive_or (ms sp.kill_timeout_ms) default_kill_timeout;
  listen_timeout = positive_or (ms sp.listen_timeout_ms) default_listen_timeout;
  wait_ready = sp.wait_ready;
  cron_restart = sp.cron_restart;
  watch = sp.watch;
  treekill = true;
  time = sp.time;
  log_date_format = sp.log_date_format;
  merge_logs = sp.merge_logs;
  out_file = sp.out_file;
  error_file = if sp.merge_logs && not (is_empty sp.out_file) then sp.out_file else sp.error_file;
  pid_file = sp.pid_file;
  log_rotate_max_bytes = rotate_max sp.log_rotate_max_bytes default.log_rotate_max_bytes;
  log_rotate_retain = positive_or sp.log_rotate_retain default.log_rotate_retain;
  health_check_cmd = sp.health_check_cmd;
  health_check_interval = ms_or sp.health_check_interval_ms default.health_check_interval;
  health_check_timeout = ms_or sp.health_check_timeout_ms default.health_check_timeout;
  health_check_retries = positive_or sp.health_check_retries default.health_check_retries;
}

-- The files of an app: the sinks of its output and its errors, and the pid file.
pub record Sinks : Type 0 where
  pub out : Text
  pub err : Text
  pub pid : Text

-- The completion of the files that are not given; with merged logs the errors go with the output.
abbrev pub merged_error : Config → Sinks → Text
merged_error cfg s = if is_empty cfg.out_file && cfg.merge_logs then s.out else cfg.error_file

abbrev pub complete : Config → Sinks → Config
complete cfg s = record cfg {
  out_file = text_or cfg.out_file s.out;
  error_file = text_or (merged_error cfg s) s.err;
  pid_file = text_or cfg.pid_file s.pid;
}

module _ (home : Text) (join : List Text → Text) where
  abbrev pub in_logs : Text → Text
  in_logs name = join (home ∷ codes "logs" ∷ name ∷ [])

  abbrev pub pid_path : Text → ℕ → Text
  pid_path name id =
      join (home ∷ codes "pids" ∷ (name ++ (codes "-" ++ (itoa id ++ codes ".pid"))) ∷ [])

  -- `LogPaths`.
  unfoldable pub log_paths : Text → ℕ → Sinks
  log_paths name id = record {
    out = in_logs name ++ codes "-out.log";
    err = in_logs (name ++ codes "-error.log");
    pid = pid_path name id;
  }

  -- `LogPathsCluster`.
  unfoldable pub log_paths_cluster : Text → ℕ → ℕ → Sinks
  log_paths_cluster name inst id = record {
    out = in_logs name ++ (codes "-out-" ++ (itoa inst ++ codes ".log"));
    err = in_logs (name ++ (codes "-error-" ++ (itoa inst ++ codes ".log")));
    pid = pid_path name id;
  }

  -- `fillPaths`.
  unfoldable pub fill_paths : Config → ℕ → Config
  unfolding log_paths log_paths_cluster
  fill_paths cfg id = complete cfg (
      if text_eq cfg.exec_mode (codes "cluster")
      then log_paths_cluster cfg.name cfg.instance_index id
      else log_paths cfg.name id)

-- `execModePM2`.
unfoldable pub exec_mode_pm2 : Text → Text
exec_mode_pm2 mode =
    if text_eq mode (codes "cluster") then codes "cluster_mode" else codes "fork_mode"
