-- ===== src/Machine/Policy/Backoff.antt =====
-- `NextRestartDelay` over a series of crashes: the sleeps of the backoff curve.
use pm.Base.{
  ℕ, zero, suc, ◌+◌, ◌*◌, ◌/◌, ◌^◌, ◌≤◌, ◌<◌, ◌≡◌, ◌⊎◌, ◌≤ℤ◌, ◌∙◌, ap, inl, arith, ltb,
  if◌then◌else◌, ℤ, pos, wrap64-pos, *ℤ-pos, half,
}
use pm.Config.{Config}
use pm.Machine.Policy.{next_restart_delay, grow_backoff}

-- The last sleep after n crashes of one epoch, which `prevBackoff` holds.
unfoldable pub prev_after : Config → ℕ → ℤ
prev_after cfg zero = pos 0
prev_after cfg (suc n) = (next_restart_delay cfg (prev_after cfg n)).0

-- The curve over the natural numbers: half as long again each time, up to the cap.
pub curve : ℕ → ℕ → ℕ → ℕ
curve base top zero = base
curve base top (suc n) = let next = curve base top n * 3 / 2 in if ltb top next then top else next

grow_backoff-pos :
    (top d : ℕ)
    → d ≤ top
    → top * 3 < 2 ^ 63
    → grow_backoff (pos top) (pos d) ≡ pos (if ltb top (d * 3 / 2) then top else d * 3 / 2)
unfolding grow_backoff half
grow_backoff-pos top d h k = rw (*ℤ-pos, wrap64-pos (d * 3) (omega arith)) (ground arith)

curve_bounds :
    (base top n : ℕ)
    → 2 ≤ base
    → base ≤ top
    → (base ≤ curve base top n)
      × (curve base top n ≤ top)
      × (curve base top n ≤ curve base top (suc n))
unfolding curve
curve_bounds base top zero h k = ground arith
curve_bounds base top (suc n) h k = ground (arith, curve_bounds base top n h k)

curve_grows :
    (base top n : ℕ)
    → 2 ≤ base
    → base ≤ top
    → (base + n ≤ curve base top n) ⊎ (curve base top n ≡ top)
unfolding curve
curve_grows base top zero h k = inl (omega arith)
curve_grows base top (suc n) h k =
    ground (arith, curve_bounds base top n h k, curve_grows base top n h k)

module _ (cfg : Config) (base top : ℕ) where
  first_sleep :
      cfg.exp_backoff_restart_delay ≡ pos base
      → 0 < base
      → (next_restart_delay cfg (pos 0)).0 ≡ pos base
  unfolding next_restart_delay
  first_sleep e h = rw (e, next_restart_delay) (ground arith)

  later_sleep :
      (d : ℕ)
      → cfg.exp_backoff_restart_delay ≡ pos base
      → cfg.exp_backoff_cap ≡ pos top
      → 0 < base
      → 0 < d
      → d ≤ top
      → top * 3 < 2 ^ 63
      → (next_restart_delay cfg (pos d)).0 ≡ pos (if ltb top (d * 3 / 2) then top else d * 3 / 2)
  unfolding next_restart_delay
  later_sleep d e f h k l m = rw (e, f, next_restart_delay) (ground (arith, grow_backoff-pos top d))

  prev_after-curve :
      (n : ℕ)
      → cfg.exp_backoff_restart_delay ≡ pos base
      → cfg.exp_backoff_cap ≡ pos top
      → 2 ≤ base
      → base ≤ top
      → top * 3 < 2 ^ 63
      → prev_after cfg (suc n) ≡ pos (curve base top n)
  unfolding prev_after curve
  prev_after-curve zero e f h k m = first_sleep e (omega arith)
  prev_after-curve (suc n) e f h k m =
      let b = curve_bounds base top n h k in
      ap (λ p. (next_restart_delay cfg p).0) (prev_after-curve n e f h k m)
      ∙ later_sleep (curve base top n) e f (omega arith) (omega arith) (omega arith) m

-- With an initial sleep of at least 2 ns that is no longer than the cap, each sleep of one crash
-- epoch lies between the two, and none is shorter than the one before.
pub next_restart_delay_bounds :
    (cfg : Config) (base top n : ℕ)
    → cfg.exp_backoff_restart_delay ≡ pos base
    → cfg.exp_backoff_cap ≡ pos top
    → 2 ≤ base
    → base ≤ top
    → top * 3 < 2 ^ 63
    → (pos base ≤ℤ prev_after cfg (suc n))
      × (prev_after cfg (suc n) ≤ℤ pos top)
      × (prev_after cfg (suc n) ≤ℤ prev_after cfg (suc (suc n)))
next_restart_delay_bounds cfg base top n e f h k m =
    rw (prev_after-curve cfg base top n e f h k m, prev_after-curve cfg base top (suc n) e f h k m)
      (ground (arith, curve_bounds base top n h k))

-- With an initial sleep of at least 2 ns that is no longer than the cap, the sleep is the cap after as
-- many further crashes as bring the initial sleep, counted up by one each, to the cap.
pub next_restart_delay_reaches :
    (cfg : Config) (base top n : ℕ)
    → cfg.exp_backoff_restart_delay ≡ pos base
    → cfg.exp_backoff_cap ≡ pos top
    → 2 ≤ base
    → base ≤ top
    → top * 3 < 2 ^ 63
    → top ≤ base + n
    → prev_after cfg (suc n) ≡ pos top
next_restart_delay_reaches cfg base top n e f h k m l =
    rw (prev_after-curve cfg base top n e f h k m)
      (ground (arith, curve_bounds base top n h k, curve_grows base top n h k))
