-- ===== src/Ops/Step/Passes.antt =====
-- internal/ops/ops.go, `step`: the proofs on cron times and on the memory limit.
use pm.Base.{
  ℕ, suc, ◌+◌, false, [], ◌∷◌, ◌++◌, pos, leb, leb_ℤ, if◌then◌else◌, ◌∙◌, ◌<◌, ◌≡◌, refl, inl, inr,
  Bool, true, Bool-cases, Option, none, some, List, ◌⊎◌, ℤ, ltb→lt, is_empty, arith,
}
use pm.Cron.{Schedule}
use pm.Cron.Calendar.{Minute, IsDate, key, before}
use pm.Cron.Calendar.Skips.{minute_after-lt}
use pm.Cron.Next.{next}
use pm.Cron.Next.First.{fires, next-fires}
use pm.Ops.{Runner, health_retries}
use pm.Ops.Step.{
  Now, Reason, cron_due, memory, health, file_change, judge, drain, Answers, fire, cron_pass,
  memory_pass, health_pass, step, dispatch, probe_reports, arrive,
}

-- The schedule fires at the next cron time.
abbrev pub IsTimed : Option Schedule → Option Minute → Type 0
IsTimed none due = Unit
IsTimed (some s) none = Unit
IsTimed (some s) (some due) = fires s due ≡ true

-- And that time has not come.
abbrev pub IsAhead : Now → Option Minute → Type 0
IsAhead now none = Unit
IsAhead now (some due) = key now.minute < key due

next-IsTimed :
    (s : Schedule) (now : Now) (o : Option Minute)
    → IsDate now.minute
    → next s now.minute ≡ o
    → IsTimed (some s) o × IsAhead now o
next-IsTimed s now none v e = (tt, tt)
next-IsTimed s now (some due) v e =
    let (hit, b) = next-fires s now.minute due v e in
    (hit, omega (arith, minute_after-lt now.minute v, b.from))

-- What the cron part leaves: a time that lies ahead, where the app has a schedule.
record Fires (now : Now) (s : Option Schedule) (due : Option Minute)
    (o : Option Minute × List Reason) : Type 0 where
  timed : IsTimed s o.0
  ahead : IsAhead now o.0 ⊎ (s ≡ none)

fire-Fires :
    (now : Now) (s : Option Schedule) (due : Option Minute)
    → IsDate now.minute
    → IsTimed s due
    → Fires now s due (fire now s due)
unfolding fire
fire-Fires now none due v t = record { timed = tt; ahead = inr refl }
fire-Fires now (some s) none v t = record { timed = tt; ahead = inl tt }
fire-Fires now (some s) (some due) v t = elim (Bool-cases (before now.minute due)) [
  | inl early ↦
      rw (early, fire) (record { timed = t; ahead = inl (ltb→lt (key now.minute) (key due) early) })
  | inr come ↦
      let (a, b) = next-IsTimed s now (next s now.minute) v refl in
      rw (come, fire) (record { timed = a; ahead = inl b })
]

-- What the memory part and the health part leave as it was.
record Keeps (r s : Runner) : Type 0 where
  sched : s.sched ≡ r.sched
  cron_next : s.cron_next ≡ r.cron_next
  cfg : s.cfg ≡ r.cfg

memory_pass-Keeps :
    (mem_interval : ℤ) (now : Now) (w : Answers) (r : Runner)
    → Keeps r (memory_pass mem_interval now w r).0
unfolding memory_pass
memory_pass-Keeps mem_interval now w r = ground arith

dispatch-Keeps : (now : Now) (w : Answers) (r : Runner) → Keeps r (dispatch now w r)
unfolding dispatch
dispatch-Keeps now w r = ground arith

trans-Keeps : (r s t : Runner) → Keeps r s → Keeps s t → Keeps r t
trans-Keeps r s t a b = record {
  sched = b.sched ∙ a.sched;
  cron_next = b.cron_next ∙ a.cron_next;
  cfg = b.cfg ∙ a.cfg;
}

arrive-Keeps : (o : Option Bool) (r : Runner) → Keeps r (arrive o r)
unfolding probe_reports
arrive-Keeps none r = record { sched = refl; cron_next = refl; cfg = refl }
arrive-Keeps (some good) r = record { sched = refl; cron_next = refl; cfg = refl }

health_pass-Keeps : (now : Now) (w : Answers) (r : Runner) → Keeps r (health_pass now w r).0
unfolding health_pass
health_pass-Keeps now w r = elim (Bool-cases (is_empty r.cfg.health_check_cmd)) [
  | inl off ↦ rw (off, health_pass) (record { sched = refl; cron_next = refl; cfg = refl })
  | inr on_ ↦
      let d = dispatch-Keeps now w r in
      let a = arrive-Keeps w.verdict (dispatch now w r) in
      rw (on_, health_pass)
        (record {
          sched = a.sched ∙ d.sched;
          cron_next = a.cron_next ∙ d.cron_next;
          cfg = a.cfg ∙ d.cfg;
        })
]

-- The restarts that a pass asks for because of the cron time.
abbrev pub crons : List Reason → ℕ
crons [] = 0
crons (cron_due ∷ rs) = suc (crons rs)
crons (memory ∷ rs) = crons rs
crons (health ∷ rs) = crons rs
crons (file_change ∷ rs) = crons rs

-- One where the app has a schedule and its next time has come, and else none.
abbrev pub due_now : Now → Option Schedule → Option Minute → ℕ
due_now now none due = 0
due_now now (some s) none = 0
due_now now (some s) (some due) = if leb (key due) (key now.minute) then 1 else 0

crons-append : (xs ys : List Reason) → crons (xs ++ ys) ≡ crons xs + crons ys
crons-append [] ys = omega arith
crons-append (x ∷ xs) ys = let ih = crons-append xs ys in ground arith

add_zero : (n : ℕ) → n + (0 + 0) ≡ n
add_zero n = omega arith

fire-crons :
    (now : Now) (s : Option Schedule) (due : Option Minute)
    → crons (fire now s due).1 ≡ due_now now s due
unfolding fire
fire-crons now none due = refl
fire-crons now (some s) none = refl
fire-crons now (some s) (some due) = ground arith

memory_pass-crons :
    (mem_interval : ℤ) (now : Now) (w : Answers) (r : Runner)
    → crons (memory_pass mem_interval now w r).1 ≡ 0
unfolding memory_pass
memory_pass-crons mem_interval now w r = ground arith

drain-crons :
    (retries : ℤ) (results : List Bool) (fails : ℕ) → crons (drain retries results fails).1 ≡ 0
unfolding drain judge
drain-crons retries [] fails = refl
drain-crons retries (true ∷ results) fails = drain-crons retries results 0
drain-crons retries (false ∷ results) fails = elim (Bool-cases (leb_ℤ retries (pos (suc fails)))) [
  | inl over ↦ rw over (drain-crons retries results 0)
  | inr under ↦ rw under (drain-crons retries results (suc fails))
]

health_pass-crons : (now : Now) (w : Answers) (r : Runner) → crons (health_pass now w r).1 ≡ 0
unfolding health_pass
health_pass-crons now w r = elim (Bool-cases (is_empty r.cfg.health_check_cmd)) [
  | inl off ↦ rw (off, health_pass) refl
  | inr on_ ↦
      rw (on_, health_pass)
        (drain-crons (health_retries r.cfg) (arrive w.verdict (dispatch now w r)).results
          (arrive w.verdict (dispatch now w r)).fails)
]

-- A pass of a runner whose cron time is one at which the schedule fires asks for one restart because
-- of it where the time has come, however long ago, and for none where it has not; it leaves such a
-- time, or none, and the time that it leaves lies ahead.
pub step-cron :
    (mem_interval : ℤ) (now : Now) (w : Answers) (r : Runner)
    → IsDate now.minute
    → IsTimed r.sched r.cron_next
    → let (s, reasons) = step mem_interval now w r in
      (crons reasons ≡ due_now now r.sched r.cron_next)
      × (s.sched ≡ r.sched)
      × IsTimed r.sched s.cron_next
      × (IsAhead now s.cron_next ⊎ (r.sched ≡ none))
unfolding step cron_pass
step-cron mem_interval now w r v t =
    let (a, first) = cron_pass now r in
    let (b, second) = memory_pass mem_interval now w a in
    let third = (health_pass now w b).1 in
    let f = fire-Fires now r.sched r.cron_next v t in
    let k =
      trans-Keeps a b (health_pass now w b).0 (memory_pass-Keeps mem_interval now w a)
        (health_pass-Keeps now w b) in
    let no_memory = memory_pass-crons mem_interval now w a in
    let no_health = health_pass-crons now w b in
    let counted =
      crons-append first (second ++ third)
      ∙ rw (crons-append second third) (
          rw no_memory
            (rw no_health (add_zero (crons first) ∙ fire-crons now r.sched r.cron_next))) in
    (counted, k.sched, rw k.cron_next f.timed, rw k.cron_next f.ahead)
