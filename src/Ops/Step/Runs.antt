-- ===== src/Ops/Step/Runs.antt =====
-- internal/ops/ops.go, `step` and the probe goroutine: the proofs on health checks over many passes.
use pm.Base.{
  ℕ, ◌+◌, ◌*◌, ◌<◌, ◌≡◌, refl, sym, ap, ◌∙◌, Bool, true, false, Option, none, some, List, [], ◌∷◌,
  ◌++◌, length, length-append, append_assoc, append-nil, is_empty, suc, ℤ, pos, replicate, arith,
}
use pm.Config.{Config}
use pm.Ops.{Runner, Probe, idle, running, reported, health_retries}
use pm.Ops.Step.{
  Now, Reason, cron_due, memory, health, file_change, Answers, Pass, fire, cron_pass, memory_pass,
  report, dispatch, arrive, probe_reports, probe_ends, judge, drain, health_pass, step,
}
use pm.Ops.Step.Health.{drain-append, drain-consecutive}

-- A pass, a report of the probe goroutine between two passes, and its end.
pub data Turn : Type 0 where
  step_at : Now → Answers → Turn
  reports : Bool → Turn
  ends : Turn

abbrev pub take_turn : ℤ → Turn → Runner → Pass
take_turn mem_interval (step_at now w) r = step mem_interval now w r
take_turn mem_interval (reports good) r = (probe_reports good r, [])
take_turn mem_interval ends r = (probe_ends r, [])

unfoldable pub run : ℤ → List Turn → Runner → Pass
run mem_interval [] r = (r, [])
run mem_interval (t ∷ ts) r =
    let (s, first) = take_turn mem_interval t r in
    let (last, more) = run mem_interval ts s in (last, first ++ more)

-- The results that the probes of a runner report, in their order: a probe reports while it runs.
abbrev pub spoken : Probe → Bool → List Bool
spoken running good = good ∷ []
spoken idle good = []
spoken reported good = []

abbrev pub heard : Option Bool → Probe → List Bool
heard none probe = []
heard (some good) probe = spoken probe good

abbrev pub told_by : Turn → Runner → List Bool
told_by (step_at now w) r = heard w.verdict (dispatch now w r).probe
told_by (reports good) r = spoken r.probe good
told_by ends r = []

unfoldable pub told : ℤ → List Turn → Runner → List Bool
told mem_interval [] r = []
told mem_interval (t ∷ ts) r = told_by t r ++ told mem_interval ts (take_turn mem_interval t r).0

abbrev pub healths : List Reason → ℕ
healths [] = 0
healths (health ∷ rs) = suc (healths rs)
healths (cron_due ∷ rs) = healths rs
healths (memory ∷ rs) = healths rs
healths (file_change ∷ rs) = healths rs

healths-append : (xs ys : List Reason) → healths (xs ++ ys) ≡ healths xs + healths ys
healths-append [] ys = omega arith
healths-append (x ∷ xs) ys = let ih = healths-append xs ys in ground arith

zero_add : (n : ℕ) → n ≡ 0 + n
zero_add n = omega arith

zeros_add : (n : ℕ) → n ≡ 0 + (0 + n)
zeros_add n = omega arith

judge-healths :
    (retries : ℤ) (good : Bool) (fails : ℕ)
    → healths (judge retries good fails).1 ≡ length (judge retries good fails).1
unfolding judge
judge-healths retries good fails = ground arith

length-healths :
    (retries : ℤ) (results : List Bool) (fails : ℕ)
    → healths (drain retries results fails).1 ≡ length (drain retries results fails).1
unfolding drain
length-healths retries [] fails = refl
length-healths retries (good ∷ results) fails =
    let (mid, first) = judge retries good fails in
    let ih = length-healths retries results mid in
    let one = judge-healths retries good fails in
    healths-append first (drain retries results mid).1
    ∙ omega (arith, ih, one, length-append first (drain retries results mid).1)

cron_pass-silent : (now : Now) (r : Runner) → healths (cron_pass now r).1 ≡ 0
unfolding cron_pass fire
cron_pass-silent now r = ground arith

memory_pass-silent :
    (mem_interval : ℤ) (now : Now) (w : Answers) (r : Runner)
    → healths (memory_pass mem_interval now w r).1 ≡ 0
unfolding memory_pass
memory_pass-silent mem_interval now w r = ground arith

-- What the health part reads of a runner.
record Alike (r s : Runner) : Type 0 where
  cfg : s.cfg ≡ r.cfg
  last_probe : s.last_probe ≡ r.last_probe
  probe : s.probe ≡ r.probe
  fails : s.fails ≡ r.fails
  results : s.results ≡ r.results

cron_pass-Alike : (now : Now) (r : Runner) → Alike r (cron_pass now r).0
unfolding cron_pass
cron_pass-Alike now r = ground arith

memory_pass-Alike :
    (mem_interval : ℤ) (now : Now) (w : Answers) (r : Runner)
    → Alike r (memory_pass mem_interval now w r).0
unfolding memory_pass
memory_pass-Alike mem_interval now w r = ground arith

dispatch-probe :
    (now : Now) (w : Answers) (r s : Runner)
    → Alike r s
    → (dispatch now w s).probe ≡ (dispatch now w r).probe
unfolding dispatch
dispatch-probe now w r s k = rw k.cfg (rw k.last_probe (rw k.probe (ground arith)))

dispatch-rest :
    (now : Now) (w : Answers) (r : Runner)
    → let s = dispatch now w r in (s.cfg ≡ r.cfg) × (s.fails ≡ r.fails) × (s.results ≡ r.results)
unfolding dispatch
dispatch-rest now w r = ground arith

report-spoken :
    (good : Bool) (p : Probe) (results : List Bool)
    → (report good p results).1 ≡ results ++ spoken p good
report-spoken good running results = refl
report-spoken good idle results = sym (append-nil results)
report-spoken good reported results = sym (append-nil results)

arrive-heard :
    (o : Option Bool) (r : Runner)
    → let s = arrive o r in
      (s.cfg ≡ r.cfg) × (s.fails ≡ r.fails) × (s.results ≡ r.results ++ heard o r.probe)
unfolding probe_reports
arrive-heard none r = (refl, refl, sym (append-nil r.results))
arrive-heard (some good) r = (refl, refl, report-spoken good r.probe r.results)

drain-eq :
    (cfg cfg' : Config) (xs ys : List Bool) (m n : ℕ)
    → cfg ≡ cfg'
    → xs ≡ ys
    → m ≡ n
    → drain (health_retries cfg) xs m ≡ drain (health_retries cfg') ys n
drain-eq cfg cfg' xs ys m n c e f = rw c (rw e (rw f refl))

-- The health part, where it is on.
health_pass-on :
    (now : Now) (w : Answers) (r : Runner)
    → is_empty r.cfg.health_check_cmd ≡ false
    → let (s, reasons) = health_pass now w r in
      let d =
        drain
          (health_retries r.cfg)
          (r.results ++ heard w.verdict (dispatch now w r).probe)
          r.fails in
      (s.cfg ≡ r.cfg) × (s.results ≡ []) × (s.fails ≡ d.0) × (reasons ≡ d.1)
unfolding health_pass
health_pass-on now w r on_ =
    let x = dispatch now w r in
    let d = dispatch-rest now w r in
    let a = arrive-heard w.verdict x in
    let same =
      drain-eq r.cfg r.cfg (arrive w.verdict x).results (r.results ++ heard w.verdict x.probe)
        (arrive w.verdict x).fails r.fails refl (a.2 ∙ ap (λ l. l ++ heard w.verdict x.probe) d.2)
        (a.1 ∙ d.1) in
    rw (on_, health_pass)
      (
        a.0 ∙ d.0,
        refl,
        ap (λ (p : ℕ × List Reason). p.0) same,
        ap (λ (p : ℕ × List Reason). p.1) same,
      )

module _ (mem_interval : ℤ) where
  step-on :
      (now : Now) (w : Answers) (r : Runner)
      → is_empty r.cfg.health_check_cmd ≡ false
      → let (s, reasons) = step mem_interval now w r in
        let d = drain (health_retries r.cfg) (r.results ++ told_by (step_at now w) r) r.fails in
        (s.cfg ≡ r.cfg) × (s.results ≡ []) × (s.fails ≡ d.0) × (healths reasons ≡ healths d.1)
  unfolding step
  step-on now w r on_ =
      let (a, first) = cron_pass now r in
      let (b, second) = memory_pass mem_interval now w a in
      let k = cron_pass-Alike now r in
      let l = memory_pass-Alike mem_interval now w a in
      let m : Alike r b = record {
        cfg = l.cfg ∙ k.cfg;
        last_probe = l.last_probe ∙ k.last_probe;
        probe = l.probe ∙ k.probe;
        fails = l.fails ∙ k.fails;
        results = l.results ∙ k.results;
      } in
      let h = health_pass-on now w b (rw m.cfg on_) in
      let same =
        drain-eq b.cfg r.cfg (b.results ++ heard w.verdict (dispatch now w b).probe)
          (r.results ++ told_by (step_at now w) r) b.fails r.fails m.cfg
          (ap (λ l. l ++ heard w.verdict (dispatch now w b).probe) m.results
            ∙ ap (λ q. r.results ++ heard w.verdict q) (dispatch-probe now w r b m))
          m.fails in
      let third = (health_pass now w b).1 in
      let quiet_first = cron_pass-silent now r in
      let quiet_second = memory_pass-silent mem_interval now w a in
      (
        h.0 ∙ m.cfg,
        h.1,
        h.2 ∙ ap (λ (p : ℕ × List Reason). p.0) same,
        healths-append first (second ++ third)
            ∙ rw (healths-append second third) (
                rw quiet_first (
                  rw quiet_second (
                    sym (zeros_add _)
                    ∙ ap healths (h.3 ∙ ap (λ (p : ℕ × List Reason). p.1) same)))),
      )

  abbrev all_told : Runner → List Bool → ℕ × List Reason
  all_told r more = drain (health_retries r.cfg) (r.results ++ more) r.fails

  -- A turn does what the results that it has been told do, and leaves the rest to do what is to come.
  record Follows (r s : Runner) (reasons : List Reason) (told more : List Bool) : Type 0 where
    cfg : s.cfg ≡ r.cfg
    fails : (all_told r (told ++ more)).0 ≡ (all_told s more).0
    restarts : healths (all_told r (told ++ more)).1 ≡ healths reasons + healths (all_told s more).1

  step-Follows :
      (now : Now) (w : Answers) (r : Runner) (more : List Bool)
      → is_empty r.cfg.health_check_cmd ≡ false
      → let (s, reasons) = step mem_interval now w r in
        Follows r s reasons (told_by (step_at now w) r) more
  step-Follows now w r more on_ =
      let (s, reasons) = step mem_interval now w r in
      let told = told_by (step_at now w) r in
      let k = step-on now w r on_ in
      let retries = health_retries r.cfg in
      let d = drain retries (r.results ++ told) r.fails in
      let whole : all_told r (told ++ more)
          ≡ ((drain retries more d.0).0, d.1 ++ (drain retries more d.0).1) =
        ap (λ l. drain retries l r.fails) (sym (append_assoc r.results told more))
        ∙ drain-append retries (r.results ++ told) more r.fails in
      let rest : all_told s more ≡ drain retries more d.0 =
        drain-eq s.cfg r.cfg (s.results ++ more) more s.fails d.0 k.0 (ap (λ l. l ++ more) k.1)
          k.2 in
      record {
        cfg = k.0;
        fails = rw whole (rw rest refl);
        restarts = rw whole (
            rw rest (
              healths-append d.1 (drain retries more d.0).1
              ∙ ap (λ n. n + healths (drain retries more d.0).1) (sym k.3)));
      }

  turn-Follows :
      (t : Turn) (r : Runner) (more : List Bool)
      → is_empty r.cfg.health_check_cmd ≡ false
      → let (s, reasons) = take_turn mem_interval t r in Follows r s reasons (told_by t r) more
  unfolding probe_reports probe_ends
  turn-Follows (step_at now w) r more on_ = step-Follows now w r more on_
  turn-Follows (reports good) r more on_ =
      let same =
        ap (λ l. drain (health_retries r.cfg) l r.fails)
          (sym (append_assoc r.results (spoken r.probe good) more)
            ∙ ap (λ l. l ++ more) (sym (report-spoken good r.probe r.results))) in
      record {
        cfg = refl;
        fails = ap (λ (p : ℕ × List Reason). p.0) same;
        restarts = ap (λ (p : ℕ × List Reason). healths p.1) same ∙ zero_add _;
      }
  turn-Follows ends r more on_ = record { cfg = refl; fails = refl; restarts = zero_add _ }

  run-Follows :
      (ts : List Turn) (r : Runner)
      → is_empty r.cfg.health_check_cmd ≡ false
      → let (s, reasons) = run mem_interval ts r in Follows r s reasons (told mem_interval ts r) []
  unfolding run told
  run-Follows [] r on_ = record { cfg = refl; fails = refl; restarts = zero_add _ }
  run-Follows (t ∷ ts) r on_ =
      let (s, first) = take_turn mem_interval t r in
      let (last, more) = run mem_interval ts s in
      let later = told mem_interval ts s in
      let f = turn-Follows t r later on_ in
      let g = run-Follows ts s (rw f.cfg on_) in
      let tail = append-nil later in
      let whole = append-nil (told_by t r ++ later) in
      record {
        cfg = g.cfg ∙ f.cfg;
        fails = rw whole (f.fails ∙ (rw tail at g.fails));
        restarts = rw whole (
            f.restarts
            ∙ (let k = rw tail at g.restarts in omega (arith, k, healths-append first more)));
      }

  -- Over any run of a runner with health checks, of passes and of what the probe goroutine does between
  -- them: where the probes report a success and then `n` failures at the last, whatever came before, and
  -- no report is left in the channel, the run restarts the app for its health once for each `retries`
  -- of the failures, besides the restarts that the reports before the success ask for, and its counter
  -- holds the failures since the last restart, fewer than `retries`.
  pub run-consecutive :
      (ts : List Turn) (r : Runner) (retries n : ℕ) (before : List Bool)
      → is_empty r.cfg.health_check_cmd ≡ false
      → health_retries r.cfg ≡ pos retries
      → 0 < retries
      → r.results ≡ []
      → told mem_interval ts r ≡ before ++ (true ∷ replicate n false)
      → (run mem_interval ts r).0.results ≡ []
      → let (s, reasons) = run mem_interval ts r in
        (k : ℕ) × (healths reasons ≡ length (drain (pos retries) before r.fails).1 + k)
        × (n ≡ k * retries + s.fails)
        × (s.fails < retries)
  run-consecutive ts r retries n before on_ knob p start all drained =
      let (s, reasons) = run mem_interval ts r in
      let f = run-Follows ts r on_ in
      let results = before ++ (true ∷ replicate n false) in
      let first : all_told r (told mem_interval ts r ++ []) ≡ drain (pos retries) results r.fails =
        ap (λ q. drain q (r.results ++ (told mem_interval ts r ++ [])) r.fails) knob
        ∙ ap (λ l. drain (pos retries) l r.fails)
            (ap (λ l. l ++ (told mem_interval ts r ++ [])) start
              ∙ append-nil (told mem_interval ts r)
              ∙ all) in
      let last : all_told s [] ≡ (s.fails, []) = rw drained (unfold drain in refl) in
      let (k, restarts, sum, low) = drain-consecutive retries n r.fails before p in
      let d = drain (pos retries) results r.fails in
      let left : d.0 ≡ s.fails =
        ap (λ (p : ℕ × List Reason). p.0) (sym first)
        ∙ f.fails
        ∙ ap (λ (p : ℕ × List Reason). p.0) last in
      let counted : length d.1 ≡ healths reasons + 0 =
        sym (length-healths (pos retries) results r.fails)
        ∙ ap (λ (p : ℕ × List Reason). healths p.1) (sym first)
        ∙ f.restarts
        ∙ ap (λ (p : ℕ × List Reason). healths reasons + healths p.1) last in
      (k, omega (arith, counted, restarts), rw (sym left) sum, rw (sym left) low)
