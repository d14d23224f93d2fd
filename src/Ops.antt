-- ===== src/Ops.antt =====
-- internal/ops/ops.go: the reconciler, which restarts apps by cron, memory, health and file watching.
-- This file has the data and the knobs.
pub mod Sync
pub mod Watch
pub mod Step
use pm.Base.{
  ℕ, ◌*◌, Bool, true, false, not, ◌||◌, Option, none, some, List, [], Text, is_empty, ℤ, pos, ltb_ℤ,
  leb_ℤ, if◌then◌else◌, Map,
}
use pm.Config.{Config, second}
use pm.Cron
use pm.Cron.Calendar.{Minute}

-- `View`.
pub record View : Type 0 where
  pub id : ℤ
  pub serial : ℕ
  pub cfg : Config

-- What the probe goroutine does: nothing, a probe that runs, or one whose result is sent and whose
-- slot is still taken.
pub data Probe : Type 0 where
  idle running reported : Probe

-- `runner`, without its channels for the shutdown and its watcher. `results` is what `probeCh` holds;
-- true is a probe that succeeded.
pub record Runner : Type 0 where
  pub id : ℤ
  pub serial : ℕ
  pub cfg : Config
  pub sched : Option Cron.Schedule
  pub cron_next : Option Minute
  pub last_mem : Option ℕ
  pub last_probe : Option ℕ
  pub fails : ℕ
  pub probe : Probe
  pub results : List Bool

-- `Reconciler`. `retired` is not in the source: the runners that were told to stop, oldest first.
pub record Reconciler : Type 0 where
  pub mem_interval : ℤ
  pub runners : Map Runner
  pub retired : List Runner
  pub stopped : Bool

abbrev pub default_mem_interval : ℤ
default_mem_interval = pos (30 * second)

abbrev pub default_health_interval : ℤ
default_health_interval = pos (30 * second)

abbrev pub default_health_timeout : ℤ
default_health_timeout = pos (5 * second)

abbrev pub default_health_retries : ℤ
default_health_retries = pos 3

-- `New`.
abbrev pub new_reconciler : Reconciler
new_reconciler = record {
  mem_interval = default_mem_interval;
  runners = [];
  retired = [];
  stopped = false;
}

-- `featuresActive`.
unfoldable pub features_active : Config → Bool
features_active cfg =
    not (is_empty cfg.cron_restart)
    || (ltb_ℤ (pos 0) cfg.max_memory_restart || (not (is_empty cfg.health_check_cmd) || cfg.watch))

-- `healthInterval`.
unfoldable pub health_interval : Config → ℤ
health_interval cfg =
    if leb_ℤ cfg.health_check_interval (pos 0)
    then default_health_interval
    else cfg.health_check_interval

-- `healthTimeout`.
unfoldable pub health_timeout : Config → ℤ
unfolding health_interval
health_timeout cfg =
    let t =
      if leb_ℤ cfg.health_check_timeout (pos 0)
      then default_health_timeout
      else cfg.health_check_timeout in
    let iv = health_interval cfg in if ltb_ℤ iv t then iv else t

-- `healthRetries`.
unfoldable pub health_retries : Config → ℤ
health_retries cfg =
    if leb_ℤ cfg.health_check_retries (pos 0)
    then default_health_retries
    else cfg.health_check_retries

abbrev parsed : Cron.Result Cron.Schedule → Option Cron.Schedule
parsed (Cron.Result.ok s) = some s
parsed (Cron.Result.err e) = none

-- `newRunner`: an expression that does not parse leaves the other features on.
unfoldable pub new_runner : View → Runner
unfolding Cron.parse
new_runner v = record {
  id = v.id;
  serial = v.serial;
  cfg = v.cfg;
  sched = if is_empty v.cfg.cron_restart then none else parsed (Cron.parse v.cfg.cron_restart);
  cron_next = none;
  last_mem = none;
  last_probe = none;
  fails = 0;
  probe = idle;
  results = [];
}
