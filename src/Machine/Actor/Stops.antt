-- ===== src/Machine/Actor/Stops.antt =====
-- Stopping and deleting: what becomes of the tree, and the one budget that the phases share.
use pm.Base.{
  ℕ, ◌≡◌, ◌≢◌, ◌⊎◌, inl, inr, Bool, Bool-cases, Option, none, some, ◌∷◌, arith, ℤ, pos, ◌+ℤ◌, ◌-ℤ◌,
  ◌≤ℤ◌, ◌<ℤ◌, ltb_ℤ, int_laws, List, ◌&&◌,
}
use pm.Config.{Config}
use pm.Proc.{Handle}
use pm.Machine.State.{App, World, Call, stopped, errored, spawns, kill_failed, killed, handed_off}
use pm.Machine.Policy.{kill_timeout}
use pm.Machine.Handlers.{
  clear_park, stop_tree_until, stop_graceful, shutdown_handoff, handoff_wait, on_stop,
}
use pm.Machine.Actor.{step, stop, replied}

-- A stop leaves the app stopped with no tree, and succeeds, or leaves it errored with the tree that
-- it had, and reports the failed kill path. It never spawns and disarms the park timer.
stop-outcome :
    (w : World) (a : App) (graceful : Bool)
    → let (b, r) = step w a (stop graceful) in
      ((r ≡ replied none) × (b.status ≡ stopped) × (b.handle ≡ none)
        ⊎ (r ≡ replied (some kill_failed))
          × (b.status ≡ errored)
          × (b.handle ≡ a.handle)
          × (a.handle ≢ none))
      × (b.park ≡ none)
      × (b.restarts ≡ a.restarts)
      × (spawns b.calls ≡ spawns a.calls)
unfolding step on_stop
stop-outcome w a graceful = ground arith

-- A stop of an app with no tree is a success that calls nothing.
stop-again :
    (w : World) (a : App) (graceful : Bool)
    → a.handle ≡ none
    → step w a (stop graceful) ≡ (record a { status = stopped; park = none }, replied none)
unfolding step on_stop
stop-again w a graceful e = ground arith

kill_timeout-pos : (cfg : Config) → pos 0 <ℤ kill_timeout cfg
unfolding kill_timeout
kill_timeout-pos cfg = ground arith

handoff_wait-le :
    (d : Option ℕ) (budget : ℤ)
    → pos 0 <ℤ budget
    → (pos 0 ≤ℤ handoff_wait d budget) × (handoff_wait d budget ≤ℤ budget)
unfolding handoff_wait
handoff_wait-le none budget h = (omega arith, omega arith)
handoff_wait-le (some d) budget h = ground arith

-- The calls of one stop of the tree `h`: the kill path with the whole budget, or a handoff and the
-- kill path with what the handoff left of it.
pub data OneBudget (budget : ℤ) (h : Handle) (before after : List Call) : Type 0 where
  whole : (gone : Bool) → after ≡ killed h budget gone ∷ before → OneBudget budget h before after
  shared :
      (waited window : ℤ) (gone : Bool)
      → after ≡ killed h window gone ∷ handed_off h waited ∷ before
      → waited +ℤ window ≡ budget
      → pos 0 ≤ℤ waited
      → pos 0 ≤ℤ window
      → OneBudget budget h before after

kill-calls :
    (w : World) (window : ℤ) (h : Handle) (a : App)
    → a.handle ≡ some h
    → (stop_tree_until w window a).0.calls ≡ killed h window (w.stop_within h window) ∷ a.calls
unfolding stop_tree_until
kill-calls w window h a e = ground arith

split_budget : (budget waited : ℤ) → waited +ℤ (budget -ℤ waited) ≡ budget
split_budget budget waited = omega int_laws

left_nonneg : (budget waited : ℤ) → waited ≤ℤ budget → pos 0 ≤ℤ budget -ℤ waited
left_nonneg budget waited h = omega int_laws

handoff-OneBudget :
    (w : World) (h : Handle) (a : App)
    → a.handle ≡ some h
    → let (b, left) = shutdown_handoff w (kill_timeout a.cfg) a in
      OneBudget (kill_timeout a.cfg) h a.calls (stop_tree_until w left b).0.calls
unfolding shutdown_handoff
handoff-OneBudget w h a e =
    let budget = kill_timeout a.cfg in
    let waited = handoff_wait (w.exits_after h) budget in
    let bounds = handoff_wait-le (w.exits_after h) budget (kill_timeout-pos a.cfg) in
    elim (Bool-cases (w.send_shutdown h && ltb_ℤ (pos 0) budget)) [
      | inl sent ↦
          rw (e, shutdown_handoff)
            (rw sent (
              shared waited (budget -ℤ waited) _ (kill-calls w (budget -ℤ waited) h _ e)
                (split_budget budget waited) bounds.0 (left_nonneg budget waited bounds.1)))
      | inr refused ↦ rw (e, shutdown_handoff) (rw refused (whole _ (kill-calls w budget h a e)))
    ]

-- A stop or a graceful stop of a live tree spends one kill timeout in all: the wait of the shutdown
-- message and the graceful window of the kill path add up to it, and neither is negative.
pub stop-OneBudget :
    (w : World) (a : App) (graceful : Bool) (h : Handle)
    → a.handle ≡ some h
    → OneBudget (kill_timeout a.cfg) h a.calls (step w a (stop graceful)).0.calls
unfolding step on_stop stop_graceful
stop-OneBudget w a graceful h e = elim (Bool-cases (graceful && a.ipc_handoff)) [
  | inl both ↦ rw (both, stop_graceful) (handoff-OneBudget w h (clear_park a) e)
  | inr plain ↦
      rw (plain, stop_graceful) (whole _ (kill-calls w (kill_timeout a.cfg) h (clear_park a) e))
]
