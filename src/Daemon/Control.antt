-- ===== src/Daemon/Control.antt =====
-- internal/daemon/control.go: the handlers of the requests that stop, restart, delete and reload apps.
-- The log routes (closeRoute) and the texts of errors are left out.
use pm.Base.{
  ℕ, Bool, Option, none, some, List, [], ◌∷◌, Text, is_empty, ltb, ◌==◌, if◌then◌else◌, ℤ, pos,
  itoa,
}
use pm.Machine.State.{World}
use pm.Supervisor.Registry.{Error, Registry}
use pm.Supervisor.Commands.{AppView, list, stop, restart, restart_with_env, delete_app}
use pm.Supervisor.Gate.{Poll, Failure, Tally, reload_ids}
use pm.Daemon.Select.{Selector, resolve_selector}

-- The status codes of a reply.
pub data Fault : Type 0 where
  invalid missing : Fault
  internal : Error → Fault
  reload_failed : Fault

-- What a handler answers: the ids of the apps it has dealt with, and its error. A handler that
-- answers with no response at all names no ids.
pub record Reply : Type 0 where
  pub affected : List ℤ
  pub fault : Option Fault

abbrev pub refuse : Fault → Reply
refuse f = record { affected = []; fault = some f }

-- The loop over the selected apps: an error ends it, with the ids so far.
abbrev pub prepend : ℕ → Registry × Reply → Registry × Reply
prepend id (r, y) = (r, record y { affected = pos id ∷ y.affected })

abbrev pub then_rest : ℕ → Registry → Option Error → Registry × Reply → Registry × Reply
then_rest id r none rest = prepend id rest
then_rest id r (some e) rest = (r, refuse (internal e))

abbrev pub done : Registry → Registry × Reply
done r = (r, record { affected = []; fault = none })

unfoldable pub for_each :
    (Text → Registry → Registry × Option Error) → List AppView → Registry → Registry × Reply
for_each op [] r = done r
for_each op (v ∷ vs) r = let (s, e) = op (itoa v.id) r in then_rest v.id s e (for_each op vs s)

-- No selected app is an error.
abbrev pub some_affected : Registry × Reply → Registry × Reply
some_affected (r, y) = elim y.fault [
  | none ↦ if is_empty y.affected then (r, refuse missing) else (r, y)
  | some f ↦ (r, y)
]

unfoldable pub on_selected :
    (Text → Registry → Registry × Option Error) → Option Selector → Registry → Registry × Reply
unfolding for_each
on_selected op sel r = some_affected (for_each op (resolve_selector sel r) r)

-- `StopProcess`, `RestartProcess` and `DeleteProcess`.
unfoldable pub stop_process : World → Option Selector → Registry → Registry × Reply
unfolding on_selected
stop_process w = on_selected (stop w)

abbrev pub restart_by :
    World → Option (List (Text × Text)) → Text → Registry → Registry × Option Error
restart_by w none id r = restart w id r
restart_by w (some env) id r = restart_with_env w env id r

unfoldable pub restart_process :
    World → Option (List (Text × Text)) → Option Selector → Registry → Registry × Reply
unfolding on_selected
restart_process w env = on_selected (restart_by w env)

unfoldable pub delete_process : World → Option Selector → Registry → Registry × Reply
unfolding on_selected
delete_process w = on_selected (delete_app w)

-- `stopAll`: errors are dropped.
unfoldable pub stop_each : World → List AppView → Registry → Registry
stop_each w [] r = r
stop_each w (v ∷ vs) r = stop_each w vs (stop w (itoa v.id) r).0

unfoldable pub stop_all : World → Registry → Registry
unfolding stop_each
stop_all w r = stop_each w (list r) r

-- `ReloadProcess`: the instances in their order, equal ones by their ids.
abbrev pub is_less : AppView → AppView → Bool
is_less v w =
    let i = v.app.cfg.instance_index in
    let j = w.app.cfg.instance_index in if i == j then ltb v.id w.id else ltb i j

unfoldable pub insert_instance : AppView → List AppView → List AppView
insert_instance v [] = v ∷ []
insert_instance v (w ∷ ws) = if is_less w v then w ∷ insert_instance v ws else v ∷ w ∷ ws

unfoldable pub by_instance : List AppView → List AppView
unfolding insert_instance
by_instance [] = []
by_instance (v ∷ vs) = insert_instance v (by_instance vs)

unfoldable pub ids : List AppView → List ℕ
ids [] = []
ids (v ∷ vs) = v.id ∷ ids vs

unfoldable pub to_ints : List ℕ → List ℤ
to_ints [] = []
to_ints (n ∷ ns) = pos n ∷ to_ints ns

abbrev pub reload_fault : Option (ℕ × List Failure) → Option Fault
reload_fault none = none
reload_fault (some f) = some reload_failed

abbrev pub reload_reply : Option (Registry × Tally) → Option (Registry × Reply)
reload_reply none = none
reload_reply (some (r, (done_ids, f))) =
    some (r, record { affected = to_ints done_ids; fault = reload_fault f })

abbrev pub reload_views :
    (ℕ → World) → (ℕ → List Poll) → List AppView → Registry → Option (Registry × Reply)
reload_views ws ps [] r = some (r, refuse missing)
reload_views ws ps (v ∷ vs) r = reload_reply (reload_ids ws ps (ids (by_instance (v ∷ vs))) r)

unfoldable pub reload_process :
    (ℕ → World) → (ℕ → List Poll) → Option Selector → Registry → Option (Registry × Reply)
unfolding by_instance ids to_ints
reload_process ws ps sel r = reload_views ws ps (resolve_selector sel r) r
