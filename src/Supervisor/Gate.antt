-- ===== src/Supervisor/Gate.antt =====
-- internal/supervisor/supervisor.go, `reloadOne` after its start of the replacement: the stability
-- gate and what it leads to; and the loop of `ReloadIDs`.
pub mod Deadline
use pm.Base.{
  ℕ, suc, ◌*◌, ◌/◌, ◌-◌, ◌^◌, ◌≡◌, ◌≢◌, refl, inl, inr, Option-cases, Bool, true, false, Option,
  none, some, List, [], ◌∷◌, ◌==◌, if◌then◌else◌, ℤ, pos, sub_ℕ, ltb_ℤ, leb_ℤ, arith, ◌⊎◌,
}
use pm.Config.{Config, millisecond, default_min_uptime, default_listen_timeout}
use pm.Machine.State.{App, World, Status, online, errored, stopped}
use pm.Supervisor.Registry.{Error, Registry}
use pm.Supervisor.Reload.{
  Roll, Begun, begun, failed, reload_begin, holds, retire_parked, rollback_reload,
}

pub data Verdict : Type 0 where
  undecided changed stable exited timed_out : Verdict

abbrev min_uptime_or_default : ℤ → ℤ
min_uptime_or_default d = if ltb_ℤ (pos 0) d then d else default_min_uptime

abbrev pub listen_timeout_or_default : ℤ → ℤ
listen_timeout_or_default d = if ltb_ℤ (pos 0) d then d else default_listen_timeout

-- The time since `time.UnixMilli(snap.PmUptimeMs)`, the start of the run in whole milliseconds;
-- from the zero time the difference saturates.
abbrev since_start : ℕ → Option ℕ → ℤ
since_start now none = pos (2 ^ 63 - 1)
since_start now (some t) = sub_ℕ now (t / millisecond * millisecond)

abbrev late : ℕ → ℕ → Config → Verdict
late now start cfg =
    if ltb_ℤ (listen_timeout_or_default cfg.listen_timeout) (sub_ℕ now start)
    then timed_out
    else undecided

abbrev pub by_status : Status → ℕ → ℕ → Config → App → Verdict
by_status online now start cfg a =
    if leb_ℤ (min_uptime_or_default cfg.min_uptime) (since_start now a.uptime)
    then stable
    else late now start cfg
by_status errored now start cfg a = exited
by_status stopped now start cfg a = exited
by_status _ now start cfg a = late now start cfg

-- One poll of the stability gate, which began at `start`.
unfoldable pub poll : ℕ → Roll → ℕ → ℕ → Registry → Verdict
unfolding holds
poll id roll start now r = elim (holds id roll.replacement r) [
  | none ↦ changed
  | some a ↦ by_status a.status now start roll.old.app.cfg a
]

-- The parts of the error that `reloadOne` joins; no part is no error.
pub data Failure : Type 0 where
  replacement_changed not_stable : Failure
  replacement_exited : Failure
  start_replacement : Error → Failure
  other : Error → Failure

abbrev pub Outcome : Type 0
Outcome = Registry × List Failure

abbrev parts : Option Error → List Failure
parts none = []
parts (some e) = other e ∷ []

-- What `reloadOne` has come to: the gate polls on, a send to an actor that has ended blocks, or it
-- has returned.
pub data Progress : Type 0 where
  polls_on blocked : Progress
  ended : Outcome → Progress

-- `errors.Join` of a failure and of what the clean-up after it returned.
abbrev pub joined : Failure → Option (Registry × Option Error) → Progress
joined x none = blocked
joined x (some (r, e)) = ended (r, x ∷ parts e)

abbrev pub alone : Option (Registry × Option Error) → Progress
alone none = blocked
alone (some (r, e)) = ended (r, parts e)

-- What a verdict leads to.
unfoldable pub settle_reload : World → ℕ → Roll → Registry → Verdict → Progress
settle_reload w id roll r undecided = polls_on
settle_reload w id roll r changed = joined replacement_changed (retire_parked w id roll.old r)
settle_reload w id roll r stable = alone (retire_parked w id roll.old r)
settle_reload w id roll r exited = joined replacement_exited (rollback_reload w id roll r)
settle_reload w id roll r timed_out = joined not_stable (rollback_reload w id roll r)

-- A poll of the gate, and what other commands and the actors have done to the registry before it.
pub record Poll : Type 0 where
  pub world : World
  pub meanwhile : Registry → Registry

abbrev pub or_else : Progress → Progress → Progress
or_else polls_on rest = rest
or_else blocked rest = blocked
or_else (ended x) rest = ended x

-- The loop of the gate, over the polls that are made.
unfoldable pub gate : ℕ → Roll → ℕ → List Poll → Registry → Progress
gate id roll start [] r = polls_on
gate id roll start (p ∷ ps) r =
    let s = p.meanwhile r in
    let rest = gate id roll start ps s in
    or_else (settle_reload p.world id roll s (poll id roll start p.world.now s)) rest

abbrev pub after_start : World → ℕ → List Poll → Registry → Roll → Option Error → Progress
after_start w id ps r roll none = gate id roll w.launched_at ps r
after_start w id ps r roll (some e) = joined (start_replacement e) (rollback_reload w id roll r)

abbrev pub after_begin : World → ℕ → List Poll → Registry → Begun → Progress
after_begin w id ps r (failed e) = ended (r, other e ∷ [])
after_begin w id ps r (begun s roll) = after_start w id ps s roll roll.start_error

-- `reloadOne`.
unfoldable pub reload_one : World → ℕ → List Poll → Registry → Progress
reload_one w id ps r = after_begin w id ps r (reload_begin w id r)

-- What it returns, if it does.
abbrev pub returned : Progress → Option Outcome
returned polls_on = none
returned blocked = none
returned (ended x) = some x

-- The first error of a roll, with the id that it is about.
abbrev pub Tally : Type 0
Tally = List ℕ × Option (ℕ × List Failure)

abbrev pub tallied : ℕ → List Failure → Tally → Tally
tallied id [] (ids, e) = (id ∷ ids, e)
tallied id (x ∷ xs) (ids, e) = (ids, some (id, x ∷ xs))

infixl 5 ◌>>=◌
abbrev pub ◌>>=◌ {ℓ κ} : {A : Type ℓ} {B : Type κ} → Option A → (A → Option B) → Option B
none >>= f = none
some a >>= f = f a

-- The loop of `ReloadIDs`: one id after another, and a failed one does not end the loop; `none` where
-- one of them does not return.
unfoldable pub reload_ids :
    (ℕ → World) → (ℕ → List Poll) → List ℕ → Registry → Option (Registry × Tally)
reload_ids ws ps [] r = some (r, ([], none))
reload_ids ws ps (id ∷ ids) r = do
  (s, x) ← returned (reload_one (ws id) id (ps id) r)
  (t, rest) ← reload_ids ws ps ids s
  some (t, tallied id x rest)
