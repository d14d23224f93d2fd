-- ===== src/Tests/SupervisorTests.antt =====
-- The registry's theorems at concrete registries, and runs of its code.
use pm.Base.{
  ℕ, ap, List, Option, ◌∙◌, inl, inr, sym, ◌*◌, ◌≡◌, refl, false, none, some, [], ◌∷◌, arith, codes,
  pos, negsuc, atoi, int_eq, lookup, insert, is_digit,
}
use mathlib.Core.Option.{some-injective}
use pm.Config.{default, second}
use pm.Machine.State.{App}
use pm.Machine.Policy.{reset_state, kill_timeout}
use pm.Machine.Build.{build_app}
use pm.Machine.Handlers.{on_start, on_delete}
use pm.Supervisor.Registry.{Entry, Error, Registry, register, start_apps, start_each, start_one}
use pm.Supervisor.Commands.{delete_app, list, sorted_ids, insert_id, views}
use pm.Supervisor.Reload.{
  Roll, reload_begin, rollback_reload, park, retire_parked, end_actor, holds,
}
use pm.Supervisor.Rolling.{put_back, reload-rollback}
use pm.Supervisor.Starting.{IdsBelow}
use pm.Supervisor.Gate.{
  Poll, Tally, gate, poll, reload_one, reload_ids, settle_reload, listen_timeout_or_default,
}
use pm.Supervisor.Gate.Deadline.{HasLate, Ends, reload_one-Ends}
use pm.Supervisor.Listing.{ids_of}
use pm.Supervisor.Naming.{delete_app-parked}
use pm.Samples.{web_config, serving, running, entry, one_app}

one_app-IdsBelow : IdsBelow one_app
unfolding default lookup int_eq
one_app-IdsBelow id e h = ground arith

web_is_no_number : atoi (codes "web") ≡ none
unfolding atoi is_digit
web_is_no_number = refl

-- The registry while the app is being reloaded.
abbrev reloading : Registry
unfolding default
reloading = record one_app { apps = (negsuc 3, entry) ∷ (pos 3, entry) ∷ [] }

delete_app-parked_example :
    let t = (delete_app (serving second) (codes "web") reloading).0 in
    (lookup (pos 3) t.apps ≡ none)
    × (lookup (negsuc 3) t.apps
        ≡ some (record entry { app = (on_delete (serving second) false running).0 }))
unfolding default
delete_app-parked_example =
    delete_app-parked (serving second) (codes "web") reloading entry ((pos 3, entry) ∷ [])
      web_is_no_number refl refl (omega arith)

abbrev rolling : Registry
unfolding default
rolling = record one_app {
  apps = (negsuc 3, entry) ∷ (pos 3, record entry { address = 2 }) ∷ [];
  serials = (negsuc 3, 1) ∷ (pos 3, 2) ∷ [];
}

abbrev mid_roll : Roll
unfolding default
mid_roll = record { old = entry; replacement = 2; start_error = none }

rolling-holds : holds 3 2 rolling ≡ some running
unfolding default holds lookup int_eq
rolling-holds = refl

-- The rollback of a reload brings the old incarnation back.
reload-rollback_example :
    (t : Registry) × (e : Option Error) × (rollback_reload (serving second) 3 mid_roll rolling
      ≡ some (t, e))
    × (lookup (pos 3) t.apps
        ≡ put_back 3 (holds 3 2 rolling) entry (pos 3) (lookup (pos 3) rolling.apps))
    × (lookup (pos 3) t.serials
        ≡ put_back 3 (holds 3 2 rolling) 1 (pos 3) (lookup (pos 3) rolling.serials))
unfolding default lookup int_eq
reload-rollback_example =
    reload-rollback (serving second) 3 mid_roll rolling entry 1 (pos 3) refl refl refl
      (λ a e. ap (λ (y : App). y.closed) (sym (some-injective running a (sym rolling-holds ∙ e))))

-- A batch of one takes the id behind the last.
start_runs :
    (start_apps (λ id. serving second) (λ c id. c) (web_config ∷ []) one_app).1 ≡ pos 4 ∷ []
unfolding default start_apps start_each start_one build_app
start_runs = refl

-- Nobody else touches the registry before the poll.
abbrev poll_at : ℕ → Poll
poll_at now = record { world = serving now; meanwhile = λ r. r }

abbrev two_polls : List Poll
two_polls = poll_at (2 * second) ∷ poll_at (10 * second) ∷ []

one_app-HasLate :
    (old : Entry)
    → lookup (pos 3) one_app.apps ≡ some old
    → HasLate (listen_timeout_or_default old.app.cfg.listen_timeout) second two_polls
unfolding default lookup int_eq
one_app-HasLate old e = rw (sym (some-injective entry old e)) (inr (inl refl))

reload_one-Ends_example :
    Ends (serving second) 3 two_polls one_app (reload_one (serving second) 3 two_polls one_app)
unfolding default
reload_one-Ends_example = reload_one-Ends (serving second) 3 two_polls one_app one_app-HasLate

abbrev roll : Option (Registry × Tally)
roll = reload_ids (λ id. serving second) (λ id. two_polls) (9 ∷ 3 ∷ []) one_app

abbrev or_nothing : Option (Registry × Tally) → Registry × Tally
or_nothing none = (one_app, ([], none))
or_nothing (some x) = x

-- The id 9 is unknown, and the roll goes on to the id 3.
roll_runs : (or_nothing roll).1.0 ≡ 3 ∷ []
unfolding default reload_ids reload_one reload_begin build_app lookup int_eq gate poll settle_reload
    on_start register insert park reset_state retire_parked end_actor on_delete kill_timeout
roll_runs = refl

-- Three apps, and a parked one.
abbrev crowded : Registry
unfolding default
crowded = record one_app {
  apps = (pos 5, entry) ∷ (negsuc 3, entry) ∷ (pos 3, entry) ∷ (pos 4, entry) ∷ [];
}

list_runs : ids_of (list crowded) ≡ 3 ∷ 4 ∷ 5 ∷ []
unfolding default list sorted_ids insert_id views lookup int_eq
list_runs = refl
