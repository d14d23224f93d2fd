-- ===== src/Supervisor/Reload.antt =====
-- internal/supervisor/supervisor.go, the rolling reload of one id: the old incarnation is parked, a
-- replacement takes its id, and after the gate one of the two is retired. Between two polls of the
-- gate other commands may change the registry.
use pm.Base.{
  ℕ, suc, Bool, true, false, Option, none, some, ◌==◌, if◌then◌else◌, pos, negsuc, lookup, insert,
  delete,
}
use pm.Machine.State.{App, World}
use pm.Machine.Build.{Built, built, refused, build_app}
use pm.Machine.Handlers.{on_start, on_delete}
use pm.Supervisor.Registry.{
  Error, not_found, machine, Entry, Registry, bump, register, options, lift,
}

-- What `reloadOne` keeps in its variables after the park: the old incarnation, the identity of the
-- replacement, and the error of its start.
pub record Roll : Type 0 where
  pub old : Entry
  pub replacement : ℕ
  pub start_error : Option Error

pub data Begun : Type 0 where
  begun : Registry → Roll → Begun
  failed : Error → Begun

abbrev serial_or_zero : Option ℕ → ℕ
serial_or_zero none = 0
serial_or_zero (some n) = n

abbrev pub entry_or : Entry → Option Entry → Entry
entry_or old none = old
entry_or old (some e) = e

-- The old incarnation under its parked key.
unfoldable pub park : ℕ → Entry → Registry → Registry
park id old r = record r {
  apps = insert (negsuc id) old r.apps;
  serials = insert (negsuc id) (serial_or_zero (lookup (pos id) r.serials)) r.serials;
}

abbrev pub rolled : World → ℕ → Entry → Registry → Built → Begun
rolled w id old r (refused e) = failed (machine e)
rolled w id old r (built a) =
    let (b, e) = on_start w a in
    begun (bump (register (pos id) b (park id old r)))
      (record { old = old; replacement = suc r.next_serial; start_error = lift e })

-- The part of `reloadOne` under its first lock. A replacement that cannot be built changes nothing.
unfoldable pub reload_begin : World → ℕ → Registry → Begun
reload_begin w id r = elim (lookup (pos id) r.apps) [
  | none ↦ failed not_found
  | some old ↦ rolled w id old r (build_app w.now old.app.cfg (options r id (suc old.app.restarts)))
]

-- Removes the parked slot.
unfoldable pub unpark : ℕ → Registry → Registry
unpark id r = record r { apps = delete (negsuc id) r.apps; serials = delete (negsuc id) r.serials }

-- `Delete` and `DeleteGraceful` of an actor. The mailbox of an actor that has ended is read by no one,
-- and a send to it blocks: `none`.
unfoldable pub end_actor : World → Bool → App → Option (Option Error)
end_actor w graceful a = if a.closed then none else some (lift (on_delete w graceful a).1)

abbrev pub and_then : Registry → Option (Option Error) → Option (Registry × Option Error)
and_then r none = none
and_then r (some e) = some (r, e)

-- `retireParked`: the old actor, whose state is the one in the parked slot, ends.
unfoldable pub retire_parked : World → ℕ → Entry → Registry → Option (Registry × Option Error)
unfolding unpark end_actor
retire_parked w id old r =
    let parked = entry_or old (lookup (negsuc id) r.apps) in
    and_then (bump (unpark id r)) (end_actor w true parked.app)

-- The old incarnation and its serial at their id again, in place of the replacement.
unfoldable pub restore : ℕ → Entry → Registry → Registry
unfolding unpark
restore id old r =
    let parked = entry_or old (lookup (negsuc id) r.apps) in
    unpark id (record r {
      apps = insert (pos id) parked r.apps;
      serials = insert (pos id) (serial_or_zero (lookup (negsuc id) r.serials)) r.serials;
    })

-- Whether the id still holds the replacement.
unfoldable pub holds : ℕ → ℕ → Registry → Option App
holds id replacement r = elim (lookup (pos id) r.apps) [
  | none ↦ none
  | some e ↦ if e.address == replacement then some e.app else none
]

-- `rollbackReload`.
unfoldable pub rollback_reload : World → ℕ → Roll → Registry → Option (Registry × Option Error)
unfolding restore end_actor
rollback_reload w id roll r = elim (holds id roll.replacement r) [
  | none ↦ retire_parked w id roll.old r
  | some a ↦ and_then (bump (restore id roll.old r)) (end_actor w false a)
]
