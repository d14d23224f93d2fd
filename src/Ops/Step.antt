-- ===== src/Ops/Step.antt =====
-- internal/ops/ops.go, `step` and its callbacks: one scheduling pass of a runner, and what its probe
-- and its watcher do between passes.
pub mod Health
pub mod Runs
pub mod Passes
use pm.Base.{
  ℕ, suc, ◌-◌, Bool, true, false, not, ◌&&◌, ◌||◌, Option, none, some, List, [], ◌∷◌, ◌++◌,
  is_empty, ℤ, pos, ◌-ℤ◌, ltb_ℤ, leb_ℤ, if◌then◌else◌,
}
use pm.Config.{Config}
use pm.Machine.State.{Status, online, errored}
use pm.Cron
use pm.Cron.Calendar.{Minute, before}
use pm.Cron.Next.{next}
use pm.Ops.{Runner, Probe, idle, running, reported, health_interval, health_retries}

-- One instant: on the daemon's clock, and in UTC to the minute.
pub record Now : Type 0 where
  pub at : ℕ
  pub minute : Minute

-- Why a runner restarts its app (`triggerRestart`).
pub data Reason : Type 0 where
  cron_due memory health file_change : Reason

-- What the callbacks answer during a pass, and the result of a probe that comes while the pass drains
-- the channel, if one does.
pub record Answers : Type 0 where
  pub status_at_sample : Option Status
  pub rss : ℤ
  pub status_at_probe : Option Status
  pub verdict : Option Bool

-- `online`.
abbrev pub is_online : Option Status → Bool
is_online (some online) = true
is_online _ = false

-- `now.Sub(last) >= interval`, where `last` is Go's zero time at first.
unfoldable pub is_due : ℕ → Option ℕ → ℤ → Bool
is_due now none interval = true
is_due now (some last) interval = leb_ℤ interval (pos now -ℤ pos last)

-- The start of `loop`: the first cron time.
unfoldable pub first_cron : Now → Runner → Runner
first_cron now r = elim r.sched [ none ↦ r | some s ↦ record r { cron_next = next s now.minute } ]

abbrev pub Pass : Type 0
Pass = Runner × List Reason

-- The cron part, by the schedule and the time that is next. A missed time fires once, and the next one
-- is sought from now on.
unfoldable pub fire : Now → Option Cron.Schedule → Option Minute → Option Minute × List Reason
fire now none due = (due, [])
fire now (some s) none = (none, [])
fire now (some s) (some due) =
    if before now.minute due then (some due, []) else (next s now.minute, cron_due ∷ [])

unfoldable pub cron_pass : Now → Runner → Pass
unfolding fire
cron_pass now r =
    let (due, reasons) = fire now r.sched r.cron_next in (record r { cron_next = due }, reasons)

-- The memory part.
unfoldable pub memory_pass : ℤ → Now → Answers → Runner → Pass
unfolding is_due
memory_pass mem_interval now w r =
    let limit = r.cfg.max_memory_restart in
    if ltb_ℤ (pos 0) limit && is_due now.at r.last_mem mem_interval
    then (
      record r { last_mem = some now.at },
      if is_online w.status_at_sample && (ltb_ℤ (pos 0) w.rss && ltb_ℤ limit w.rss)
          then memory ∷ []
          else [],
    )
    else (r, [])

abbrev start_probe : Probe → Probe
start_probe idle = running
start_probe running = running
start_probe reported = reported

-- The dispatch of a probe, one at a time.
unfoldable pub dispatch : Now → Answers → Runner → Runner
unfolding is_due health_interval
dispatch now w r =
    if is_due now.at r.last_probe (health_interval r.cfg)
    then record r {
      last_probe = some now.at;
      probe = if is_online w.status_at_probe then start_probe r.probe else r.probe;
    }
    else r

abbrev report : Bool → Probe → List Bool → Probe × List Bool
report good running results = (reported, results ++ (good ∷ []))
report good idle results = (idle, results)
report good reported results = (reported, results)

-- The probe goroutine sends its result,
unfoldable pub probe_reports : Bool → Runner → Runner
probe_reports good r =
    let (probe, results) = report good r.probe r.results in
    record r { probe = probe; results = results }

abbrev free : Probe → Probe
free idle = idle
free running = running
free reported = idle

-- and then frees its slot.
unfoldable pub probe_ends : Runner → Runner
probe_ends r = record r { probe = free r.probe }

-- One result: the counter of consecutive failures, and the restarts.
unfoldable pub judge : ℤ → Bool → ℕ → ℕ × List Reason
judge retries true fails = (0, [])
judge retries false fails =
    if leb_ℤ retries (pos (suc fails)) then (0, health ∷ []) else (suc fails, [])

-- The loop that drains the channel.
unfoldable pub drain : ℤ → List Bool → ℕ → ℕ × List Reason
drain retries [] fails = (fails, [])
drain retries (good ∷ results) fails =
    let (mid, first) = judge retries good fails in
    let (last, more) = drain retries results mid in (last, first ++ more)

abbrev pub arrive : Option Bool → Runner → Runner
arrive none r = r
arrive (some good) r = probe_reports good r

-- The health part.
unfoldable pub health_pass : Now → Answers → Runner → Pass
unfolding dispatch probe_reports drain health_retries
health_pass now w r =
    if is_empty r.cfg.health_check_cmd
    then (r, [])
    else (let s = arrive w.verdict (dispatch now w r) in
        let (fails, reasons) = drain (health_retries r.cfg) s.results s.fails in
        (record s { fails = fails; results = [] }, reasons))

-- `step`.
unfoldable pub step : ℤ → Now → Answers → Runner → Pass
unfolding cron_pass memory_pass health_pass
step mem_interval now w r =
    let (a, first) = cron_pass now r in
    let (b, second) = memory_pass mem_interval now w a in
    let (c, third) = health_pass now w b in (c, first ++ (second ++ third))

-- `onWatchEvent`: neither a stopped app nor one that restarts is restarted.
unfoldable pub on_watch_event : Option Status → List Reason
on_watch_event (some online) = file_change ∷ []
on_watch_event (some errored) = file_change ∷ []
on_watch_event _ = []
