-- ===== src/Ops/Step/Health.antt =====
-- internal/ops/ops.go, `step`: the proofs on health checks.
use pm.Base.{
  ℕ, zero, suc, ◌+◌, ◌*◌, ◌≤◌, ◌<◌, ◌≡◌, refl, inl, inr, Bool, true, false, Bool-cases, List, [],
  ◌∷◌, ◌++◌, length, length-append, append_assoc, sym, ap, ℤ, pos, leb_ℤ, ◌<ℤ◌, ◌≤ℤ◌, replicate,
  arith,
}
use pm.Config.{Config}
use pm.Ops.{health_interval, health_timeout, health_retries}
use pm.Ops.Step.{Reason, health, judge, drain}

judge_over :
    (retries : ℤ) (fails : ℕ)
    → leb_ℤ retries (pos (suc fails)) ≡ true
    → judge retries false fails ≡ (0, health ∷ [])
unfolding judge
judge_over retries fails h = rw (h, judge) refl

judge_under :
    (retries : ℤ) (fails : ℕ)
    → leb_ℤ retries (pos (suc fails)) ≡ false
    → judge retries false fails ≡ (suc fails, [])
unfolding judge
judge_under retries fails h = rw (h, judge) refl

judge_good : (retries : ℤ) (fails : ℕ) → judge retries true fails ≡ (0, [])
unfolding judge
judge_good retries fails = refl

not_below : (m n : ℕ) → leb_ℤ (pos m) (pos n) ≡ true → m ≤ n
not_below m n h = ground arith

below : (m n : ℕ) → leb_ℤ (pos m) (pos n) ≡ false → n < m
below m n h = ground arith

drain_next :
    (retries : ℤ) (good : Bool) (results : List Bool) (fails mid : ℕ) (first : List Reason)
    → judge retries good fails ≡ (mid, first)
    → drain retries (good ∷ results) fails
      ≡ ((drain retries results mid).0, first ++ (drain retries results mid).1)
unfolding drain
drain_next retries good results fails mid first e =
    ap
      (λ (p : ℕ × List Reason).
        ((drain retries results p.0).0, p.1 ++ (drain retries results p.0).1))
      e

-- A run of `n` failures restarts the app once for each `retries` of them; what is left over is the
-- counter, which stays below `retries`.
drain-failures :
    (retries n fails : ℕ)
    → fails < retries
    → let (last, reasons) = drain (pos retries) (replicate n false) fails in
      (fails + n ≡ length reasons * retries + last) × (last < retries)
drain-failures retries zero fails h = unfold drain in (omega arith, h)
drain-failures retries (suc n) fails h = elim (Bool-cases (leb_ℤ (pos retries) (pos (suc fails)))) [
  | inl over ↦
      let (sum, low) = drain-failures retries n 0 (omega arith) in
      let le = not_below retries (suc fails) over in
      rw
        (drain_next (pos retries) false (replicate n false) fails 0 (health ∷ [])
          (judge_over (pos retries) fails over))
        (omega (arith, sum), low)
  | inr under ↦
      let (sum, low) = drain-failures retries n (suc fails) (below retries (suc fails) under) in
      rw
        (drain_next (pos retries) false (replicate n false) fails (suc fails) []
          (judge_under (pos retries) fails under))
        (omega (arith, sum), low)
]

pub drain-append :
    (retries : ℤ) (first more : List Bool) (fails : ℕ)
    → let (mid, before) = drain retries first fails in
      let (last, after) = drain retries more mid in
      drain retries (first ++ more) fails ≡ (last, before ++ after)
unfolding drain
drain-append retries [] more fails = refl
drain-append retries (good ∷ first) more fails =
    let (mid, reasons) = judge retries good fails in
    let (m, before) = drain retries first mid in
    let (last, after) = drain retries more m in
    rw (drain-append retries first more mid)
      (ap (λ (l : List Reason). (last, l)) (sym (append_assoc reasons before after)))

-- After a success, whatever came before it, `n` failures restart the app once for each `retries` of
-- them, and the counter holds the failures since the last restart, fewer than `retries`.
pub drain-consecutive :
    (retries n fails : ℕ) (before : List Bool)
    → 0 < retries
    → let (mid, earlier) = drain (pos retries) before fails in
      let (last, reasons) = drain (pos retries) (before ++ (true ∷ replicate n false)) fails in
      (k : ℕ) × (length reasons ≡ length earlier + k) × (n ≡ k * retries + last) × (last < retries)
drain-consecutive retries n fails before h =
    let (mid, earlier) = drain (pos retries) before fails in
    let (last, reasons) = drain (pos retries) (replicate n false) 0 in
    let (sum, low) = drain-failures retries n 0 h in
    let same : drain (pos retries) (true ∷ replicate n false) mid ≡ (last, reasons) =
      drain_next (pos retries) true (replicate n false) mid 0 [] (judge_good (pos retries) mid) in
    rw (drain-append (pos retries) before (true ∷ replicate n false) fails)
      (rw same (length reasons, length-append earlier reasons, omega (arith, sum), low))

-- The knobs are positive, and the timeout of a probe is no longer than its interval.
pub knobs_in :
    (cfg : Config)
    → (pos 0 <ℤ health_interval cfg)
      × (pos 0 <ℤ health_timeout cfg)
      × (pos 0 <ℤ health_retries cfg)
      × (health_timeout cfg ≤ℤ health_interval cfg)
unfolding health_timeout health_interval health_retries
knobs_in cfg = ground arith
