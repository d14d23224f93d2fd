-- ===== src/Machine/Build.antt =====
-- internal/machine/machine.go, `buildApp`, `New` and `Adopt`: the checks of a configuration, and the
-- first state of an actor.
pub mod Fresh
pub mod Marker
use pm.Base.{ℕ, true, false, none, some, [], ◌∷◌, ◌++◌, Text, is_empty, pos, if◌then◌else◌, itoa}
use pm.Config.{Config}
use pm.Proc.{Handle, sanitize_name}
use pm.Cron
use pm.Machine.State.{
  App, Options, Error, no_script, no_name, bad_cron, stopped, online, plain, adopted, publish_tree,
}
use pm.Machine.Env.{is_cluster}

pub data Built : Type 0 where
  built : App → Built
  refused : Error → Built

-- The attribution marker: the sanitized name and the id.
unfoldable pub attrib : Text → ℕ → Text
unfolding sanitize_name itoa
attrib name id = sanitize_name name ++ (b'-' ∷ itoa id)

unfoldable pub fresh_app : ℕ → Config → Options → App
unfolding attrib is_cluster
fresh_app now cfg opts = record {
  cfg = record cfg { treekill = true };
  id = opts.id;
  attrib = attrib cfg.name opts.id;
  preload_path = opts.cluster_preload_path;
  ipc_handoff = is_cluster cfg;
  status = stopped;
  handle = none;
  pid = 0;
  restarts = opts.initial_restarts;
  unstable = 0;
  crash_series = none;
  created = now;
  uptime = none;
  exit_code = none;
  exit_sig = 0;
  exit_reason = plain;
  created_is_null = false;
  prev_backoff = pos 0;
  park = none;
  ready_timer = none;
  tree_mode = [];
  tree_cg_path = [];
  tree_leader_start = 0;
  closed = false;
  calls = [];
}

abbrev pub check_cron : Cron.Result Cron.Schedule → App → Built
check_cron (Cron.Result.ok s) a = built a
check_cron (Cron.Result.err e) a = refused bad_cron

-- `buildApp`, and `New`.
unfoldable pub build_app : ℕ → Config → Options → Built
unfolding fresh_app Cron.parse
build_app now cfg opts =
    if is_empty cfg.script
    then refused no_script
    else if is_empty cfg.name
    then refused no_name
    else if is_empty cfg.cron_restart
    then built (fresh_app now cfg opts)
    else check_cron (Cron.parse cfg.cron_restart) (fresh_app now cfg opts)

abbrev pub take_over : Handle → ℕ → Built → Built
take_over h started_at (built a) = built (
    publish_tree (some h) (record a {
      handle = some h;
      pid = h.pid;
      uptime = some started_at;
      exit_code = none;
      exit_sig = 0;
      status = online;
      calls = adopted h ∷ [];
    }))
take_over h started_at (refused e) = refused e

-- `Adopt`: the same checks, and an app that runs already.
unfoldable pub adopt : ℕ → Config → Options → Handle → ℕ → Built
unfolding build_app publish_tree
adopt now cfg opts h started_at = take_over h started_at (build_app now cfg opts)
