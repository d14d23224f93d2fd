-- ===== src/Tests/OpsTests.antt =====
-- The theorems on the reconciler, at concrete inputs.
use pm.Base.{
  ℕ, ◌+◌, ◌*◌, ◌<◌, ◌≡◌, ◌⊎◌, refl, true, false, none, some, List, [], ◌∷◌, ◌++◌, Text, split,
  strip_suffix, length, codes, pos, ◌-ℤ◌, int_eq, lookup, replicate, arith,
}
use pm.Config.{Config, default, default_for}
use pm.Cron.{Schedule}
use pm.Cron.Calendar.{IsDate}
use pm.Ops.{
  View, Runner, Reconciler, idle, running, health_interval, health_retries, default_mem_interval,
}
use pm.Ops.Sync.{sync}
use pm.Ops.Sync.Runners.{find_view, expected, sync-lookup}
use pm.Ops.Watch.{Event, loop, settle, watch_ignore}
use pm.Ops.Watch.Quiet.{InOrder, quiet, changes, loop-fires}
use pm.Ops.Step.{
  Now, Answers, step, drain, fire, cron_pass, memory_pass, health_pass, dispatch, is_due, judge,
  probe_reports, probe_ends,
}
use pm.Machine.State.{online}
use pm.Ops.Step.Runs.{Turn, step_at, reports, ends, run, told, healths, run-consecutive}
use pm.Ops.Step.Passes.{IsTimed, IsAhead, crons, step-cron}

abbrev hourly : Schedule
hourly = record {
  spec = codes "@hourly";
  min = 1;
  hour = 16777215;
  dom = 4294967294;
  mon = 8190;
  dow = 127;
  dom_restricted = false;
  dow_restricted = false;
}

abbrev now : Now
now = record {
  at = 90000000000;
  minute = record { year = 2024; month = 2; day = 29; hour = 23; minute = 30 };
}

now-IsDate : IsDate now.minute
now-IsDate = record {
  month_in = (omega arith, omega arith);
  day_in = (omega arith, omega arith);
  hour_in = omega arith;
  minute_in = omega arith;
}

-- Its cron time was missed.
abbrev late_runner : Runner
late_runner = record {
  id = pos 0;
  serial = 7;
  cfg = default_for (codes "api") (codes "api.js");
  sched = some hourly;
  cron_next = some (record { year = 2024; month = 2; day = 29; hour = 21; minute = 0 });
  last_mem = none;
  last_probe = none;
  fails = 0;
  probe = idle;
  results = [];
}

abbrev silent : Answers
silent = record { status_at_sample = none; rss = pos 0; status_at_probe = none; verdict = none }

step-cron_example :
    let (s, reasons) = step default_mem_interval now silent late_runner in
    (crons reasons ≡ 1)
    × (s.sched ≡ some hourly)
    × IsTimed (some hourly) s.cron_next
    × (IsAhead now s.cron_next ⊎ (some hourly ≡ none))
step-cron_example =
    step-cron default_mem_interval now silent late_runner now-IsDate
      (unfold pm.Cron.has pm.Cron.day_matches in refl)

-- A runner with a probe that is under way.
abbrev probed_runner : Runner
probed_runner = record late_runner {
  cfg = record (default_for (codes "api") (codes "api.js")) {
    health_check_cmd = codes "true";
    health_check_retries = pos 2;
  };
  sched = none;
  cron_next = none;
  probe = running;
}

abbrev failing : Answers
failing = record {
  status_at_sample = none;
  rss = pos 0;
  status_at_probe = some online;
  verdict = some false;
}

-- A success, and two failures in two passes.
abbrev turns : List Turn
turns =
    reports true
    ∷ ends
    ∷ step_at now failing
    ∷ ends
    ∷ step_at (record now { at = 900000000000 }) failing
    ∷ []

told-turns : told default_mem_interval turns probed_runner ≡ true ∷ replicate 2 false
unfolding told probe_reports probe_ends step cron_pass fire memory_pass health_pass dispatch
    health_interval is_due drain judge health_retries default default_for ◌-ℤ◌
told-turns = refl

turns-drained : (run default_mem_interval turns probed_runner).0.results ≡ []
unfolding run probe_reports probe_ends step cron_pass fire memory_pass health_pass dispatch
    health_interval is_due drain judge health_retries default default_for
turns-drained = refl

run-consecutive_example :
    let (s, reasons) = run default_mem_interval turns probed_runner in
    (k : ℕ) × (healths reasons ≡ length (drain (pos 2) [] 0).1 + k)
    × (2 ≡ k * 2 + s.fails)
    × (s.fails < 2)
unfolding health_retries default
run-consecutive_example =
    run-consecutive default_mem_interval turns probed_runner 2 2 [] refl refl (omega arith) refl
      told-turns turns-drained

abbrev cron_cfg : Config
cron_cfg = record (default_for (codes "api") (codes "api.js")) { cron_restart = codes "@hourly" }

-- The id 0 has been taken over by a new registration, and the id 1 is gone.
abbrev reconciler : Reconciler
reconciler = record {
  mem_interval = default_mem_interval;
  runners = (pos 0, late_runner) ∷ (pos 1, late_runner) ∷ [];
  retired = [];
  stopped = false;
}

abbrev seen_views : List View
seen_views =
    record { id = pos 0; serial = 8; cfg = cron_cfg }
    ∷ record { id = pos 2; serial = 9; cfg = default_for (codes "web") (codes "web.js") }
    ∷ []

sync-lookup_example :
    lookup (pos 0) (sync seen_views reconciler).runners
    ≡ expected (find_view seen_views (pos 0)) (lookup (pos 0) reconciler.runners)
sync-lookup_example =
    sync-lookup seen_views reconciler (pos 0) (unfold int_eq in refl, (refl, tt)) refl

-- A save storm in the first second, a change of permissions, a file of node_modules, one more save.
abbrev touch : Text → Event
touch path = record {
  name = codes "/srv/api/" ++ path;
  is_create = false;
  is_write = true;
  is_remove = false;
  is_rename = false;
  is_dir = false;
}

abbrev saves : List (ℕ × Event)
saves =
    (100, touch (codes "a.js"))
    ∷ (250, touch (codes "a.js"))
    ∷ (300, record (touch (codes "a.js")) { is_write = false })
    ∷ (400, touch (codes "node_modules/b.js"))
    ∷ (900, touch (codes "c.js"))
    ∷ []

saves-InOrder : InOrder 0 saves
saves-InOrder = (omega arith, (omega arith, (omega arith, (omega arith, (omega arith, tt)))))

saves_fire : quiet 200 (changes saves) ≡ 450 ∷ 1100 ∷ []
unfolding quiet changes watch_ignore split strip_suffix
saves_fire = refl

loop-fires_example :
    (settle (loop 200 saves (record { window = none; added = []; fired = [] }))).fired
    ≡ quiet 200 (changes saves)
loop-fires_example = loop-fires 200 0 saves saves-InOrder
