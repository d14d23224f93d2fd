-- ===== src/Tests/MachineTests.antt =====
-- The state machine's theorems at concrete states, and runs of its code.
use pm.Base.{
  ℕ, ◌*◌, ◌≡◌, refl, inl, true, some, List, [], ◌∷◌, arith, pos, wrap64, ◌*ℤ◌, ltb_ℤ, half,
}
use pm.Config.{default, second, millisecond}
use pm.Proc.{ExitInfo}
use pm.Machine.State.{App, World, errored, live}
use pm.Machine.Policy.{kill_timeout, reset_state, is_unstable, stop_exit, next_restart_delay}
use pm.Machine.Policy.Backoff.{prev_after}
use pm.Machine.Handlers.{on_start}
use pm.Machine.Exit.{is_running}
use pm.Machine.Actor.{step, enabled, start, stop, exits}
use pm.Machine.Actor.Invariant.{Inv, step-Inv}
use pm.Machine.Actor.Trees.{IsAccounted, step-IsAccounted, start-errored-orphans}
use pm.Machine.Actor.Stops.{OneBudget, stop-OneBudget}
use pm.Machine.Actor.CrashLoop.{crashes, window, Counted, IsServing, IsCrash}
use pm.Machine.Actor.CrashBudget.{CrashSeries, crash_loop-runs, crash_loop-parks}
use pm.Machine.Actor.Reach.{Starts, Reach, Reach-Inv}
use pm.Machine.Build.{fresh_app, build_app}
use pm.Samples.{web_config, tree_a, tree_b, crash_info, serving, running, stuck}

running-Inv : Inv running
unfolding default
running-Inv = ground arith

step-Inv_example : Inv (step (serving (2 * second)) running (exits crash_info)).0
unfolding default enabled
step-Inv_example = step-Inv (serving (2 * second)) running (exits crash_info) refl running-Inv

step-IsAccounted_example : IsAccounted (step (serving (2 * second)) running (exits crash_info)).0
unfolding default enabled
step-IsAccounted_example =
    step-IsAccounted (serving (2 * second)) running (exits crash_info) refl running-Inv (λ e. cc)
      refl

start-errored-orphans_example :
    let b = (step (serving (2 * second)) stuck start).0 in
    (live b.calls ≡ 2) × (b.handle ≡ some tree_b)
unfolding default
start-errored-orphans_example =
    start-errored-orphans (serving (2 * second)) stuck tree_a tree_b refl refl refl (λ s. refl)

stop-OneBudget_example :
    OneBudget
      (kill_timeout web_config)
      tree_a
      running.calls
      (step (serving (2 * second)) running (stop true)).0.calls
unfolding default
stop-OneBudget_example = stop-OneBudget (serving (2 * second)) running true tree_a refl

second_sleep : prev_after web_config 2 ≡ pos (150 * millisecond)
unfolding default prev_after next_restart_delay ◌*ℤ◌ wrap64 half
second_sleep = refl

serving-IsServing : (now : ℕ) → IsServing (serving now)
serving-IsServing now = record { kills = λ h d. refl; serves = λ s e. cc }

running-Counted : Counted web_config 0 second (1100 * millisecond) running
unfolding default
running-Counted = record {
  tally = record { same = refl; counts = refl; since = refl; series = inl refl; dated = refl };
  owns = λ e. cc;
  runs = refl;
}

abbrev two_crashes : List (World × ExitInfo)
two_crashes =
    (serving (1100 * millisecond), crash_info) ∷ (serving (1200 * millisecond), crash_info) ∷ []

window_is_open : ltb_ℤ (pos 0) (window web_config) ≡ true
unfolding default ◌*ℤ◌ wrap64
window_is_open = refl

first-IsCrash : IsCrash web_config second (1100 * millisecond) (1100 * millisecond) crash_info
unfolding default is_unstable stop_exit ◌*ℤ◌ wrap64
first-IsCrash = record { unintended = refl; quick = refl; windowed = refl }

second-IsCrash :
    IsCrash web_config (1100 * millisecond) (1100 * millisecond) (1200 * millisecond) crash_info
unfolding default is_unstable stop_exit ◌*ℤ◌ wrap64
second-IsCrash = record { unintended = refl; quick = refl; windowed = refl }

two_crashes-CrashSeries : CrashSeries web_config 0 second (1100 * millisecond) two_crashes
unfolding default
two_crashes-CrashSeries = (
  serving-IsServing (1100 * millisecond),
  λ e. refl,
  first-IsCrash,
  (serving-IsServing (1200 * millisecond), λ e. cc, second-IsCrash, tt),
)

crash_loop-parks_example : (crashes two_crashes running).status ≡ errored
unfolding default
crash_loop-parks_example =
    crash_loop-parks web_config 2 second (1100 * millisecond) two_crashes running refl refl
      window_is_open running-Counted two_crashes-CrashSeries (omega arith) refl

crash_loop-runs_example :
    is_running (crashes ((serving (1100 * millisecond), crash_info) ∷ []) running).status ≡ true
unfolding default
crash_loop-runs_example =
    crash_loop-runs web_config 2 second (1100 * millisecond)
      ((serving (1100 * millisecond), crash_info) ∷ []) running refl refl window_is_open
      running-Counted (serving-IsServing (1100 * millisecond), λ e. refl, first-IsCrash, tt)
      (omega arith)

abbrev web : App
web = fresh_app 0 web_config (record { id = 3; initial_restarts = 0; cluster_preload_path = [] })

web-Starts : Starts web
unfolding default build_app
web-Starts =
    Starts.new 0 web_config (record { id = 3; initial_restarts = 0; cluster_preload_path = [] })
      refl

-- A start, and a crash.
web-Reach :
    Reach web (step (serving (2 * second)) (step (serving second) web start).0 (exits crash_info)).0
unfolding default fresh_app step enabled on_start reset_state
web-Reach =
    Reach.next (Reach.next Reach.here (serving second) start refl refl) (serving (2 * second))
      (exits crash_info) refl refl

Reach-Inv_example :
    Inv (step (serving (2 * second)) (step (serving second) web start).0 (exits crash_info)).0
unfolding default
Reach-Inv_example = Reach-Inv web _ web-Starts web-Reach
