-- ===== src/Supervisor/Gate/Deadline.antt =====
-- internal/supervisor/supervisor.go, `reloadOne` and `ReloadIDs`: the proofs on the gate's deadline
-- and on what the loop over the ids answers.
use pm.Base.{
  ℕ, ◌≡◌, ◌≢◌, ap, ◌<◌, refl, inl, inr, Option-cases, true, Option, none, some, List, [], ◌∷◌, ℤ,
  sub_ℕ, ltb_ℤ, arith, ◌⊎◌, length, pos, negsuc, lookup, Bool, false,
}
use pm.Config.{Config}
use pm.Machine.State.{App, World, Status}
use pm.Supervisor.Registry.{Error, Registry, Entry}
use pm.Supervisor.Reload.{
  Roll, Begun, begun, failed, reload_begin, holds, end_actor, and_then, entry_or, retire_parked,
  rollback_reload,
}
use pm.Supervisor.Rolling.{reload_begin-HasBegun}
use pm.Supervisor.Gate.{
  undecided, Verdict, changed, stable, exited, timed_out, Failure, Poll, by_status, poll,
  settle_reload, or_else, gate, Progress, polls_on, blocked, ended, joined, alone, returned,
  after_start, after_begin, reload_one, Tally, tallied, reload_ids, listen_timeout_or_default,
  ◌>>=◌,
}

by_status-decides :
    (st : Status) (now start : ℕ) (cfg : Config) (a : App)
    → ltb_ℤ (listen_timeout_or_default cfg.listen_timeout) (sub_ℕ now start) ≡ true
    → by_status st now start cfg a ≢ undecided
by_status-decides st now start cfg a is_late = ground arith

-- A poll after the deadline decides.
poll-decides :
    (id : ℕ) (roll : Roll) (start now : ℕ) (r : Registry)
    → ltb_ℤ (listen_timeout_or_default roll.old.app.cfg.listen_timeout) (sub_ℕ now start) ≡ true
    → poll id roll start now r ≢ undecided
unfolding poll
poll-decides id roll start now r is_late = elim (Option-cases (holds id roll.replacement r)) [
  | inl e ↦ rw (e, poll) (λ x. cc)
  | inr (a, e) ↦ rw (e, poll) (by_status-decides a.status now start roll.old.app.cfg a is_late)
]

-- Whether one of the polls is made later than `timeout` after `start`.
abbrev pub HasLate : ℤ → ℕ → List Poll → Type 0
HasLate timeout start [] = ⊥
HasLate timeout start (p ∷ ps) =
    (ltb_ℤ timeout (sub_ℕ p.world.now start) ≡ true) ⊎ HasLate timeout start ps

joined-decides : (x : Failure) (o : Option (Registry × Option Error)) → joined x o ≢ polls_on
joined-decides x none = λ e. cc
joined-decides x (some y) = λ e. cc

alone-decides : (o : Option (Registry × Option Error)) → alone o ≢ polls_on
alone-decides none = λ e. cc
alone-decides (some y) = λ e. cc

settle_reload-decides :
    (w : World) (id : ℕ) (roll : Roll) (r : Registry) (v : Verdict)
    → v ≢ undecided
    → settle_reload w id roll r v ≢ polls_on
unfolding settle_reload
settle_reload-decides w id roll r undecided h = λ x. h refl
settle_reload-decides w id roll r changed h = joined-decides _ _
settle_reload-decides w id roll r stable h = alone-decides _
settle_reload-decides w id roll r exited h = joined-decides _ _
settle_reload-decides w id roll r timed_out h = joined-decides _ _

or_else-first : (o rest : Progress) → o ≢ polls_on → or_else o rest ≢ polls_on
or_else-first polls_on rest h = absurd (h refl)
or_else-first blocked rest h = h
or_else-first (ended x) rest h = h

or_else-rest : (o rest : Progress) → rest ≢ polls_on → or_else o rest ≢ polls_on
or_else-rest polls_on rest h = h
or_else-rest blocked rest h = λ e. cc
or_else-rest (ended x) rest h = λ e. cc

gate-ends :
    (id : ℕ) (roll : Roll) (start : ℕ) (ps : List Poll) (r : Registry)
    → HasLate (listen_timeout_or_default roll.old.app.cfg.listen_timeout) start ps
    → gate id roll start ps r ≢ polls_on
unfolding gate
gate-ends id roll start [] r h = λ x. h
gate-ends id roll start (p ∷ ps) r (inl is_late) =
    let s = p.meanwhile r in
    or_else-first (settle_reload p.world id roll s (poll id roll start p.world.now s))
      (gate id roll start ps s)
      (settle_reload-decides p.world id roll s (poll id roll start p.world.now s)
        (poll-decides id roll start p.world.now s is_late))
gate-ends id roll start (p ∷ ps) r (inr later) =
    let s = p.meanwhile r in
    or_else-rest (settle_reload p.world id roll s (poll id roll start p.world.now s))
      (gate id roll start ps s) (gate-ends id roll start ps s later)

-- An actor that a reload may send its delete to has ended: the parked one, or the one at the id.
abbrev pub HasEnded : ℕ → Entry → Registry → Type 0
HasEnded id old r =
    ((entry_or old (lookup (negsuc id) r.apps)).app.closed ≡ true)
    ⊎ ((e : Entry) × (lookup (pos id) r.apps ≡ some e) × (e.app.closed ≡ true))

-- The reload meets such an actor, at its start or at a poll.
abbrev pub Meets : ℕ → Entry → List Poll → Registry → Type 0
Meets id old [] r = HasEnded id old r
Meets id old (p ∷ ps) r = HasEnded id old r ⊎ Meets id old ps (p.meanwhile r)

Meets-here :
    (id : ℕ) (old : Entry) (ps : List Poll) (r : Registry) → HasEnded id old r → Meets id old ps r
Meets-here id old [] r h = h
Meets-here id old (p ∷ ps) r h = inl h

end_actor-blocks :
    (w : World) (graceful : Bool) (a : App) → end_actor w graceful a ≡ none → a.closed ≡ true
unfolding end_actor
end_actor-blocks w graceful a h = ground arith

and_then-none : (r : Registry) (o : Option (Option Error)) → and_then r o ≡ none → o ≡ none
and_then-none r none h = refl
and_then-none r (some e) h = cc

retire_parked-blocks :
    (w : World) (id : ℕ) (old : Entry) (r : Registry)
    → retire_parked w id old r ≡ none
    → HasEnded id old r
unfolding retire_parked
retire_parked-blocks w id old r h = inl (
    end_actor-blocks w true _
      (and_then-none _ (end_actor w true (entry_or old (lookup (negsuc id) r.apps)).app) h))

holds-entry :
    (id replacement : ℕ) (r : Registry) (a : App)
    → holds id replacement r ≡ some a
    → (e : Entry) × (lookup (pos id) r.apps ≡ some e) × (e.app ≡ a)
unfolding holds
holds-entry id replacement r a h = elim (Option-cases (lookup (pos id) r.apps)) [
  | inl e ↦ absurd (let k = rw (e, holds) at h in cc)
  | inr (x, e) ↦ (x, e, let k = rw (e, holds) at h in ground arith)
]

rollback_reload-blocks :
    (w : World) (id : ℕ) (roll : Roll) (r : Registry)
    → rollback_reload w id roll r ≡ none
    → HasEnded id roll.old r
unfolding rollback_reload
rollback_reload-blocks w id roll r h = elim (Option-cases (holds id roll.replacement r)) [
  | inl e ↦ retire_parked-blocks w id roll.old r (rw (e, rollback_reload) at h)
  | inr (a, e) ↦
      let (x, found, same) = holds-entry id roll.replacement r a e in
      let over =
        end_actor-blocks w false a
          (and_then-none _ (end_actor w false a) (rw (e, rollback_reload) at h)) in
      inr (x, found, rw same over)
]

joined-blocks :
    (x : Failure) (o : Option (Registry × Option Error)) → joined x o ≡ blocked → o ≡ none
joined-blocks x none h = refl
joined-blocks x (some y) h = cc

alone-blocks : (o : Option (Registry × Option Error)) → alone o ≡ blocked → o ≡ none
alone-blocks none h = refl
alone-blocks (some y) h = cc

settle_reload-blocks :
    (w : World) (id : ℕ) (roll : Roll) (r : Registry) (v : Verdict)
    → settle_reload w id roll r v ≡ blocked
    → HasEnded id roll.old r
unfolding settle_reload
settle_reload-blocks w id roll r undecided h = absurd cc
settle_reload-blocks w id roll r changed h =
    retire_parked-blocks w id roll.old r (joined-blocks _ _ h)
settle_reload-blocks w id roll r stable h = retire_parked-blocks w id roll.old r (alone-blocks _ h)
settle_reload-blocks w id roll r exited h = rollback_reload-blocks w id roll r (joined-blocks _ _ h)
settle_reload-blocks w id roll r timed_out h =
    rollback_reload-blocks w id roll r (joined-blocks _ _ h)

or_else-blocks : (o rest : Progress) → or_else o rest ≡ blocked → (o ≡ blocked) ⊎ (rest ≡ blocked)
or_else-blocks polls_on rest h = inr h
or_else-blocks blocked rest h = inl refl
or_else-blocks (ended x) rest h = absurd cc

gate-blocks :
    (id : ℕ) (roll : Roll) (start : ℕ) (ps : List Poll) (r : Registry)
    → gate id roll start ps r ≡ blocked
    → Meets id roll.old ps r
unfolding gate
gate-blocks id roll start [] r h = absurd cc
gate-blocks id roll start (p ∷ ps) r h =
    let s = p.meanwhile r in
    let v = poll id roll start p.world.now s in
    elim (or_else-blocks (settle_reload p.world id roll s v) (gate id roll start ps s) h) [
      | inl now_ ↦ inr (Meets-here id roll.old ps s (settle_reload-blocks p.world id roll s v now_))
      | inr later ↦ inr (gate-blocks id roll start ps s later)
    ]

-- A reload returns, or it blocks on an actor that has ended.
abbrev pub Ends : World → ℕ → List Poll → Registry → Progress → Type 0
Ends w id ps r polls_on = ⊥
Ends w id ps r blocked =
    (s : Registry) × (roll : Roll) × (reload_begin w id r ≡ begun s roll) × Meets id roll.old ps s
Ends w id ps r (ended x) = Unit

Ends-of :
    (w : World) (id : ℕ) (ps : List Poll) (r s : Registry) (roll : Roll) (o : Progress)
    → reload_begin w id r ≡ begun s roll
    → o ≢ polls_on
    → (o ≡ blocked → Meets id roll.old ps s)
    → Ends w id ps r o
Ends-of w id ps r s roll polls_on e h m = h refl
Ends-of w id ps r s roll blocked e h m = (s, roll, e, m refl)
Ends-of w id ps r s roll (ended x) e h m = tt

after_start-Ends :
    (w : World) (id : ℕ) (ps : List Poll) (r s : Registry) (roll : Roll) (e : Option Error)
    → reload_begin w id r ≡ begun s roll
    → HasLate (listen_timeout_or_default roll.old.app.cfg.listen_timeout) w.launched_at ps
    → Ends w id ps r (after_start w id ps s roll e)
after_start-Ends w id ps r s roll none b h =
    Ends-of w id ps r s roll _ b (gate-ends id roll w.launched_at ps s h)
      (gate-blocks id roll w.launched_at ps s)
after_start-Ends w id ps r s roll (some e) b h =
    Ends-of w id ps r s roll _ b (joined-decides _ _)
      (λ k. Meets-here id roll.old ps s (rollback_reload-blocks w id roll s (joined-blocks _ _ k)))

after_begin-Ends :
    (w : World) (id : ℕ) (ps : List Poll) (r : Registry) (b : Begun)
    → reload_begin w id r ≡ b
    → ((s : Registry) (roll : Roll)
        → b ≡ begun s roll
        → HasLate (listen_timeout_or_default roll.old.app.cfg.listen_timeout) w.launched_at ps)
    → Ends w id ps r (after_begin w id ps r b)
after_begin-Ends w id ps r (failed e) b h = tt
after_begin-Ends w id ps r (begun s roll) b h =
    after_start-Ends w id ps r s roll roll.start_error b (h s roll refl)

-- Where one of the polls comes after the listen timeout, a reload of one id does not poll on, whatever
-- the polls see: it returns, or it blocks, and blocks only where, at its start or at a poll, the parked
-- actor or the one at the id has ended.
pub reload_one-Ends :
    (w : World) (id : ℕ) (ps : List Poll) (r : Registry)
    → ((old : Entry)
        → lookup (pos id) r.apps ≡ some old
        → HasLate (listen_timeout_or_default old.app.cfg.listen_timeout) w.launched_at ps)
    → Ends w id ps r (reload_one w id ps r)
unfolding reload_one
reload_one-Ends w id ps r h =
    after_begin-Ends w id ps r (reload_begin w id r) refl
      (λ s roll e. h roll.old (reload_begin-HasBegun w id r s roll e).found)

abbrev pub IsTally : List ℕ → Tally → Type 0
IsTally ids (done, none) = done ≡ ids
IsTally ids (done, some e) = length done < length ids

tallied-IsTally :
    (id : ℕ) (x : List Failure) (ids : List ℕ) (t : Tally)
    → IsTally ids t
    → IsTally (id ∷ ids) (tallied id x t)
tallied-IsTally id [] ids (done, none) h = ap (λ l. id ∷ l) h
tallied-IsTally id [] ids (done, some e) h = omega (arith, h)
tallied-IsTally id (x ∷ xs) ids (done, none) h = omega (arith, ap length h)
tallied-IsTally id (x ∷ xs) ids (done, some e) h = omega (arith, h)

abbrev Tallies : List ℕ → Option (Registry × Tally) → Type 0
Tallies ids none = Unit
Tallies ids (some (s, t)) = IsTally ids t

next-Tallies :
    (id : ℕ) (x : List Failure) (ids : List ℕ) (o : Option (Registry × Tally))
    → Tallies ids o
    → Tallies (id ∷ ids) (o >>= λ y. some (y.0, tallied id x y.1))
next-Tallies id x ids none h = tt
next-Tallies id x ids (some (s, t)) h = tallied-IsTally id x ids t h

reload_ids-Tallies :
    (ws : ℕ → World) (ps : ℕ → List Poll) (ids : List ℕ) (r : Registry)
    → Tallies ids (reload_ids ws ps ids r)
unfolding reload_ids
reload_ids-Tallies ws ps [] r = refl
reload_ids-Tallies ws ps (id ∷ ids) r =
    elim (Option-cases (returned (reload_one (ws id) id (ps id) r))) [
      | inl e ↦ rw (e, reload_ids) tt
      | inr ((s, x), e) ↦
          rw (e, reload_ids)
            (next-Tallies id x ids (reload_ids ws ps ids s) (reload_ids-Tallies ws ps ids s))
    ]

-- A roll over a list of ids that ends without an error has reloaded all of them, in order; one that
-- ends with an error has reloaded fewer.
pub reload_ids-IsTally :
    (ws : ℕ → World) (ps : ℕ → List Poll) (ids : List ℕ) (r s : Registry) (t : Tally)
    → reload_ids ws ps ids r ≡ some (s, t)
    → IsTally ids t
reload_ids-IsTally ws ps ids r s t h = rw h at (reload_ids-Tallies ws ps ids r)
