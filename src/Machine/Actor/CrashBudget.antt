-- ===== src/Machine/Actor/CrashBudget.antt =====
-- `onExit` against the crash budget: what becomes of an app that crashes once more.
use pm.Base.{
  ℕ, suc, ◌+◌, ◌<◌, ◌≡◌, refl, ap, ◌∙◌, inl, inr, true, false, some, Option-cases, List, [], ◌∷◌,
  length, arith, pos, ltb_ℤ, leb_ℤ,
}
use pm.Config.{Config}
use pm.Proc.{Handle, ExitInfo}
use pm.Machine.State.{App, World, errored}
use pm.Machine.Policy.{stability, stop_exit, next_restart_delay}
use pm.Machine.Exit.{is_running, apply_budget, exit_policy, exit_cleanup, exiting, cleaned, on_exit}
use pm.Machine.Actor.{step}
use pm.Machine.Actor.CrashLoop.{
  crash, crashes, window, IsServing, Tally, Counted, settle, schedule-Counted, IsCrash,
  stability-counts,
}

budget_left :
    (w : World) (t : App) (c : Config) (k first : ℕ)
    → IsServing w
    → t.cfg ≡ c
    → t.unstable ≡ suc k
    → t.crash_series ≡ some first
    → t.created_is_null ≡ false
    → leb_ℤ c.max_restarts (pos (suc k)) ≡ false
    → Counted c (suc k) w.launched_at first (settle w (apply_budget w t))
unfolding apply_budget
budget_left w t c k first s e f g h more =
    let test : leb_ℤ t.cfg.max_restarts (pos t.unstable) ≡ false = rw (e, f) more in
    let (delay, active) = next_restart_delay t.cfg t.prev_backoff in
    rw test (schedule-Counted w delay active t c (suc k) first s e f g h)

budget_spent :
    (w : World) (t : App) (c : Config) (k : ℕ)
    → t.cfg ≡ c
    → t.unstable ≡ suc k
    → leb_ℤ c.max_restarts (pos (suc k)) ≡ true
    → (settle w (apply_budget w t)).status ≡ errored
unfolding apply_budget
budget_spent w t c k e f over =
    let test : leb_ℤ t.cfg.max_restarts (pos t.unstable) ≡ true = rw (e, f) over in rw test refl

-- The exit of a running tree that the kill path cleans up goes on to the restart policy.
gone_exit :
    (w : World) (info : ExitInfo) (a : App) (h : Handle)
    → a.handle ≡ some h
    → is_running a.status ≡ true
    → w.stop_within h (pos 0) ≡ true
    → on_exit w info a ≡ exit_policy w info (cleaned info (exiting h true a))
unfolding on_exit exit_cleanup exit_policy cleaned
gone_exit w info a h e r g = rw (e, on_exit) (rw r (rw (g, exit_cleanup)))

policy_counts :
    (w : World) (info : ExitInfo) (b : App)
    → b.cfg.autorestart ≡ true
    → stop_exit info b.cfg.stop_exit_codes ≡ false
    → exit_policy w info b ≡ apply_budget w (stability w.now info b)
unfolding exit_policy
policy_counts w info b on z = ground arith

cleaned-Tally :
    (info : ExitInfo) (h : Handle) (a : App) {c : Config} {k launched first : ℕ}
    → Tally c k launched first a
    → Tally c k launched first (cleaned info (exiting h true a))
unfolding cleaned exiting
cleaned-Tally info h a v = record {
  same = v.same;
  counts = v.counts;
  since = v.since;
  series = v.series;
  dated = v.dated;
}

-- One crash of a run: its tally, and what the process layer answers.
module _ (w : World) (info : ExitInfo) (a : App) (c : Config) (k launched first : ℕ)
    (s : IsServing w) (on : c.autorestart ≡ true) (v : Counted c k launched first a)
    (begins : k ≡ 0 → first ≡ w.now) (z : IsCrash c launched first w.now info)
    (p : ltb_ℤ (pos 0) (window c) ≡ true) where
  crash_settles :
      (h : Handle)
      → a.handle ≡ some h
      → crash w info a
        ≡ settle w (apply_budget w (stability w.now info (cleaned info (exiting h true a))))
  unfolding crash step
  crash_settles h e =
      let b = cleaned info (exiting h true a) in
      let t = cleaned-Tally info h a v.tally in
      ap (settle w) (
        gone_exit w info a h e v.runs (s.kills h (pos 0))
        ∙ policy_counts w info b (rw t.same on) (rw t.same z.unintended))

  -- A crash that leaves some of the budget: the app runs again.
  pub crash-Counted :
      leb_ℤ c.max_restarts (pos (suc k)) ≡ false
      → Counted c (suc k) w.launched_at first (crash w info a)
  crash-Counted more = elim (Option-cases a.handle) [
    | inl e ↦ absurd (v.owns e)
    | inr (h, e) ↦
        let t = cleaned-Tally info h a v.tally in
        let (n, f, d, m) = stability-counts w.now info _ c k launched first t begins z p in
        rw (crash_settles h e) (budget_left w _ c k first s m n f d more)
  ]

  -- A crash that uses the budget up: the app is parked errored.
  pub crash_parks : leb_ℤ c.max_restarts (pos (suc k)) ≡ true → (crash w info a).status ≡ errored
  crash_parks over = elim (Option-cases a.handle) [
    | inl e ↦ absurd (v.owns e)
    | inr (h, e) ↦
        let t = cleaned-Tally info h a v.tally in
        let (n, f, d, m) = stability-counts w.now info _ c k launched first t begins z p in
        rw (crash_settles h e) (budget_spent w _ c k m n over)
  ]

-- A series of crashes, each of the run that the one before it left, all inside the window that the
-- first of them opens.
abbrev pub CrashSeries : Config → ℕ → ℕ → ℕ → List (World × ExitInfo) → Type 0
CrashSeries c k launched first [] = Unit
CrashSeries c k launched first ((w, info) ∷ rest) =
    IsServing w
    × (k ≡ 0 → first ≡ w.now)
    × IsCrash c launched first w.now info
    × CrashSeries c (suc k) w.launched_at first rest

module _ (c : Config) (first m : ℕ) where
  budget_runs :
      (cs : List (World × ExitInfo)) (a : App) (k launched : ℕ)
      → c.autorestart ≡ true
      → c.max_restarts ≡ pos m
      → ltb_ℤ (pos 0) (window c) ≡ true
      → Counted c k launched first a
      → CrashSeries c k launched first cs
      → k + length cs < m
      → is_running (crashes cs a).status ≡ true
  unfolding crashes
  budget_runs [] a k launched on e p v z l = v.runs
  budget_runs ((w, info) ∷ rest) a k launched on e p v z l =
      let more : leb_ℤ c.max_restarts (pos (suc k)) ≡ false = rw e (ground arith) in
      let v' = crash-Counted w info a c k launched first z.0 on v z.1 z.2 p more in
      budget_runs rest (crash w info a) (suc k) w.launched_at on e p v' z.3 (omega arith)

  budget_parks :
      (cs : List (World × ExitInfo)) (a : App) (k launched : ℕ)
      → c.autorestart ≡ true
      → c.max_restarts ≡ pos m
      → ltb_ℤ (pos 0) (window c) ≡ true
      → Counted c k launched first a
      → CrashSeries c k launched first cs
      → k < m
      → k + length cs ≡ m
      → (crashes cs a).status ≡ errored
  unfolding crashes
  budget_parks [] a k launched on e p v z k_lt l = absurd (omega arith)
  budget_parks ((w, info) ∷ []) a k launched on e p v z k_lt l =
      let over : leb_ℤ c.max_restarts (pos (suc k)) ≡ true = rw e (ground arith) in
      crash_parks w info a c k launched first z.0 on v z.1 z.2 p over
  budget_parks ((w, info) ∷ (x ∷ rest)) a k launched on e p v z k_lt l =
      let more : leb_ℤ c.max_restarts (pos (suc k)) ≡ false = rw e (ground arith) in
      let v' = crash-Counted w info a c k launched first z.0 on v z.1 z.2 p more in
      budget_parks (x ∷ rest) (crash w info a) (suc k) w.launched_at on e p v' z.3 (omega arith)
        (omega arith)

-- Under a budget of `m` restarts and an open window, an app with no counted crash that crashes again
-- and again inside the window runs again after fewer than `m` crashes.
pub crash_loop-runs :
    (c : Config) (m launched first : ℕ) (cs : List (World × ExitInfo)) (a : App)
    → c.autorestart ≡ true
    → c.max_restarts ≡ pos m
    → ltb_ℤ (pos 0) (window c) ≡ true
    → Counted c 0 launched first a
    → CrashSeries c 0 launched first cs
    → length cs < m
    → is_running (crashes cs a).status ≡ true
crash_loop-runs c m launched first cs a on e p v z l =
    budget_runs c first m cs a 0 launched on e p v z (omega arith)

-- Under a budget of `m` restarts, at least one, and an open window, an app with no counted crash is
-- parked errored by the `m`-th of a series of crashes inside the window.
pub crash_loop-parks :
    (c : Config) (m launched first : ℕ) (cs : List (World × ExitInfo)) (a : App)
    → c.autorestart ≡ true
    → c.max_restarts ≡ pos m
    → ltb_ℤ (pos 0) (window c) ≡ true
    → Counted c 0 launched first a
    → CrashSeries c 0 launched first cs
    → 0 < m
    → length cs ≡ m
    → (crashes cs a).status ≡ errored
crash_loop-parks c m launched first cs a on e p v z l n =
    budget_parks c first m cs a 0 launched on e p v z l (omega arith)
