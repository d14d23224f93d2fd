-- ===== src/Store.antt =====
-- internal/store/store.go: the dump of the apps. A record is what JSON stands for: a field that is
-- absent reads as zero.
pub mod RoundTrip
use pm.Base.{
  ℕ, suc, ◌+◌, ◌*◌, ◌/◌, Bool, true, false, Option, none, some, List, [], ◌∷◌, Text, ℤ, pos, negsuc,
  sub_ℕ, ◌*ℤ◌, wrap64, leb_ℤ, ltb_ℤ, int_eq, map, if◌then◌else◌,
}
use pm.Config.{Config, millisecond}
use pm.Ops.{default_health_interval, default_health_timeout, default_health_retries}

abbrev pub default_rotate_max : ℤ
default_rotate_max = pos (10 * 1048576)

abbrev pub default_rotate_retain : ℤ
default_rotate_retain = pos 30

-- `DumpVersion`.
abbrev pub dump_version : ℤ
dump_version = pos 1

pub record Entry : Type 0 where
  pub pm_id : ℤ
  pub app : Config

pub record Dump : Type 0 where
  pub version : ℤ
  pub redact_env : Bool
  pub apps : List Entry

-- `appRecord`.
pub record AppRecord : Type 0 where
  pub pm_id : ℤ
  pub name : Text
  pub script : Text
  pub args : List Text
  pub interpreter : Text
  pub interpreter_args : List Text
  pub exec_path : Text
  pub exec_args : List Text
  pub exec_mode : Text
  pub instances : ℤ
  pub instance_index : ℕ
  pub namespace : Text
  pub cwd : Text
  pub autorestart : Bool
  pub max_restarts : ℤ
  pub min_uptime_ms : ℤ
  pub restart_delay_ms : ℤ
  pub exp_backoff_delay_ms : ℤ
  pub stop_exit_codes : List ℤ
  pub exp_backoff_cap_ms : ℤ
  pub max_memory_restart : ℤ
  pub kill_signal : Text
  pub kill_timeout_ms : ℤ
  pub listen_timeout_ms : ℤ
  pub wait_ready : Bool
  pub cron_restart : Text
  pub watch : Bool
  pub health_check_cmd : Text
  pub health_interval_ms : ℤ
  pub health_timeout_ms : ℤ
  pub health_check_retries : ℤ
  pub treekill : Bool
  pub time : Bool
  pub log_date_format : Text
  pub out_file : Text
  pub error_file : Text
  pub pid_file : Text
  pub merge_logs : Bool
  pub log_rotate_max_bytes : ℤ
  pub log_rotate_retain : ℤ
  pub env : List (Text × Text)

-- `dumpFile`.
pub record DumpFile : Type 0 where
  pub version : ℤ
  pub redact_env : Bool
  pub apps : List AppRecord

-- `Milliseconds`, which drops what is below.
unfoldable pub milliseconds : ℤ → ℤ
milliseconds (pos n) = pos (n / millisecond)
milliseconds (negsuc n) = sub_ℕ 0 (suc n / millisecond)

-- `time.Duration(v) * time.Millisecond`.
unfoldable pub ms : ℤ → ℤ
ms v = wrap64 (v *ℤ pos millisecond)

-- `liftDur`.
unfoldable pub lift_dur : ℤ → ℤ → ℤ
unfolding ms
lift_dur v def = if leb_ℤ v (pos 0) then def else ms v

-- `liftInt`.
unfoldable pub lift_int : ℤ → ℤ → ℤ
lift_int v def = if leb_ℤ v (pos 0) then def else v

-- `wireRotateMax`: in memory 0 is off.
unfoldable pub wire_rotate_max : ℤ → ℤ
wire_rotate_max mem = if int_eq mem (pos 0) then negsuc 0 else mem

-- `memRotateMax`: in a dump 0 is the default and -1 is off.
unfoldable pub mem_rotate_max : ℤ → ℤ
mem_rotate_max wire =
    if int_eq wire (pos 0) then default_rotate_max else if ltb_ℤ wire (pos 0) then pos 0 else wire

-- `memRotateRetain`.
unfoldable pub mem_rotate_retain : ℤ → ℤ
mem_rotate_retain wire = if leb_ℤ wire (pos 0) then default_rotate_retain else wire

-- `appToRecord`.
unfoldable pub app_to_record : Entry → AppRecord
app_to_record e = record {
  pm_id = e.pm_id;
  name = e.app.name;
  script = e.app.script;
  args = e.app.args;
  interpreter = e.app.interpreter;
  interpreter_args = e.app.interpreter_args;
  exec_path = e.app.exec_path;
  exec_args = e.app.exec_args;
  exec_mode = e.app.exec_mode;
  instances = e.app.instances;
  instance_index = e.app.instance_index;
  namespace = e.app.namespace;
  cwd = e.app.cwd;
  autorestart = e.app.autorestart;
  max_restarts = e.app.max_restarts;
  min_uptime_ms = milliseconds e.app.min_uptime;
  restart_delay_ms = milliseconds e.app.restart_delay;
  exp_backoff_delay_ms = milliseconds e.app.exp_backoff_restart_delay;
  stop_exit_codes = e.app.stop_exit_codes;
  exp_backoff_cap_ms = milliseconds e.app.exp_backoff_cap;
  max_memory_restart = e.app.max_memory_restart;
  kill_signal = e.app.kill_signal;
  kill_timeout_ms = milliseconds e.app.kill_timeout;
  listen_timeout_ms = milliseconds e.app.listen_timeout;
  wait_ready = e.app.wait_ready;
  cron_restart = e.app.cron_restart;
  watch = e.app.watch;
  health_check_cmd = e.app.health_check_cmd;
  health_interval_ms = milliseconds e.app.health_check_interval;
  health_timeout_ms = milliseconds e.app.health_check_timeout;
  health_check_retries = e.app.health_check_retries;
  treekill = e.app.treekill;
  time = e.app.time;
  log_date_format = e.app.log_date_format;
  out_file = e.app.out_file;
  error_file = e.app.error_file;
  pid_file = e.app.pid_file;
  merge_logs = e.app.merge_logs;
  log_rotate_max_bytes = wire_rotate_max e.app.log_rotate_max_bytes;
  log_rotate_retain = e.app.log_rotate_retain;
  env = e.app.env;
}

-- `recordToApp`.
unfoldable pub record_to_app : AppRecord → Entry
record_to_app r = record {
  pm_id = r.pm_id;
  app = record {
    name = r.name;
    script = r.script;
    args = r.args;
    interpreter = r.interpreter;
    interpreter_args = r.interpreter_args;
    exec_path = r.exec_path;
    exec_args = r.exec_args;
    exec_mode = r.exec_mode;
    instances = r.instances;
    instance_index = r.instance_index;
    namespace = r.namespace;
    cwd = r.cwd;
    autorestart = r.autorestart;
    max_restarts = r.max_restarts;
    min_uptime = ms r.min_uptime_ms;
    restart_delay = ms r.restart_delay_ms;
    exp_backoff_restart_delay = ms r.exp_backoff_delay_ms;
    stop_exit_codes = r.stop_exit_codes;
    exp_backoff_cap = ms r.exp_backoff_cap_ms;
    max_memory_restart = r.max_memory_restart;
    kill_signal = r.kill_signal;
    kill_timeout = ms r.kill_timeout_ms;
    listen_timeout = ms r.listen_timeout_ms;
    wait_ready = r.wait_ready;
    cron_restart = r.cron_restart;
    watch = r.watch;
    health_check_cmd = r.health_check_cmd;
    health_check_interval = lift_dur r.health_interval_ms default_health_interval;
    health_check_timeout = lift_dur r.health_timeout_ms default_health_timeout;
    health_check_retries = lift_int r.health_check_retries default_health_retries;
    treekill = r.treekill;
    time = r.time;
    log_date_format = r.log_date_format;
    out_file = r.out_file;
    error_file = r.error_file;
    pid_file = r.pid_file;
    merge_logs = r.merge_logs;
    log_rotate_max_bytes = mem_rotate_max r.log_rotate_max_bytes;
    log_rotate_retain = mem_rotate_retain r.log_rotate_retain;
    env = r.env;
  };
}

-- What `Save` writes.
unfoldable pub saved : Dump → DumpFile
unfolding app_to_record
saved d = record {
  version = dump_version;
  redact_env = d.redact_env;
  apps = map app_to_record d.apps;
}

-- What `Load` makes of a dump that could be read and parsed; none is the error of a newer version.
unfoldable pub loaded : DumpFile → Option Dump
unfolding record_to_app
loaded f =
    if ltb_ℤ dump_version f.version
    then none
    else some
        (record { version = f.version; redact_env = f.redact_env; apps = map record_to_app f.apps })
