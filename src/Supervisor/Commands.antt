-- ===== src/Supervisor/Commands.antt =====
-- internal/supervisor/supervisor.go, the commands on a registered app: how an identifier is resolved,
-- and what is done to the app that it names.
use pm.Base.{
  ℕ, Bool, true, false, ◌&&◌, Option, none, some, List, [], ◌∷◌, Text, is_empty, text_eq, ltb,
  if◌then◌else◌, ℤ, pos, negsuc, atoi, Map, lookup, insert, delete,
}
use pm.Machine.State.{App, World}
use pm.Machine.Handlers.{
  on_stop, on_restart, on_delete, on_signal, on_update_env, current_tree_pids,
}
use pm.Machine.Handlers
use pm.Supervisor.Registry.{Error, not_found, Entry, Registry, lift, bump}

abbrev pub better : Entry → Option (ℤ × Entry) → Bool
better e none = true
better e (some (k, b)) = ltb e.app.id b.app.id

-- The loop over the registry for an app name: the least id wins, the first met among equals.
unfoldable pub best_match : Text → Map Entry → Option (ℤ × Entry) → Option (ℤ × Entry)
best_match name [] best = best
best_match name ((k, e) ∷ m) best =
    best_match name m (if text_eq e.app.cfg.name name && better e best then some (k, e) else best)

abbrev pub at_key : ℤ → Option Entry → Option (ℤ × Entry)
at_key k none = none
at_key k (some e) = some (k, e)

abbrev resolve_number : Option ℤ → Text → Registry → Option (ℤ × Entry)
resolve_number (some (pos id)) identifier r = at_key (pos id) (lookup (pos id) r.apps)
resolve_number (some (negsuc id)) identifier r = none
resolve_number none identifier r = best_match identifier r.apps none

-- `resolveLocked`: the key and the entry of an app; a number is an id, all else a name.
unfoldable pub resolve : Text → Registry → Option (ℤ × Entry)
unfolding best_match
resolve identifier r = resolve_number (atoi identifier) identifier r

-- The state of a registered actor after it has handled a message.
unfoldable pub update : ℤ → Entry → App → Registry → Registry
update key e a r = record r { apps = insert key (record e { app = a }) r.apps }

abbrev applied : (App → Handlers.Result) → Registry → Option (ℤ × Entry) → Registry × Option Error
applied op r none = (r, some not_found)
applied op r (some (key, e)) = let (a, x) = op e.app in (update key e a r, lift x)

-- `withApp`.
unfoldable pub with_app : Text → (App → Handlers.Result) → Registry → Registry × Option Error
with_app identifier op r = applied op r (resolve identifier r)

-- `Stop`, `Restart`, `RestartWithEnv` and `Signal`.
unfoldable pub stop : World → Text → Registry → Registry × Option Error
stop w identifier = with_app identifier (on_stop w false)

unfoldable pub restart : World → Text → Registry → Registry × Option Error
restart w identifier = with_app identifier (on_restart w)

unfoldable pub restart_with_env :
    World → List (Text × Text) → Text → Registry → Registry × Option Error
restart_with_env w env identifier = with_app identifier (λ a. on_restart w (on_update_env env a).0)

unfoldable pub signal : World → ℕ → Text → Registry → Registry × Option Error
signal w sig identifier = with_app identifier (on_signal w sig)

-- `resetIDIfEmptyLocked`.
abbrev reset_id_if_empty : Registry → Registry
reset_id_if_empty r = if is_empty r.apps then record r { next_id = 0 } else r

-- The registry without the id of a deleted app.
unfoldable pub forget : ℕ → Registry → Registry
forget id r = bump (
    reset_id_if_empty
      (record r { apps = delete (pos id) r.apps; serials = delete (pos id) r.serials }))

abbrev removed : World → Registry → Option (ℤ × Entry) → Registry × Option Error
removed w r none = (r, some not_found)
removed w r (some (key, e)) =
    let (a, x) = on_delete w false e.app in (forget e.app.id (update key e a r), lift x)

-- `Delete`: the actor ends and its id is freed, also after a failed kill path.
unfoldable pub delete_app : World → Text → Registry → Registry × Option Error
unfolding forget
delete_app w identifier r = removed w r (resolve identifier r)

-- `AppView`.
pub record AppView : Type 0 where
  pub id : ℕ
  pub serial : ℕ
  pub app : App

abbrev serial_of : ℤ → Registry → ℕ
serial_of key r = elim (lookup key r.serials) [ none ↦ 0 | some n ↦ n ]

unfoldable pub insert_id : ℕ → List ℕ → List ℕ
insert_id n [] = n ∷ []
insert_id n (m ∷ ms) = if ltb m n then m ∷ insert_id n ms else n ∷ m ∷ ms

-- The ids of `List` in order; the keys of parked incarnations are left out.
unfoldable pub sorted_ids : Map Entry → List ℕ
unfolding insert_id
sorted_ids [] = []
sorted_ids ((pos id, e) ∷ m) = insert_id id (sorted_ids m)
sorted_ids ((negsuc id, e) ∷ m) = sorted_ids m

unfoldable pub views : List ℕ → Registry → List AppView
views [] r = []
views (id ∷ ids) r = elim (lookup (pos id) r.apps) [
  | none ↦ views ids r
  | some e ↦ record { id = id; serial = serial_of (pos id) r; app = e.app } ∷ views ids r
]

-- `List`.
unfoldable pub list : Registry → List AppView
unfolding sorted_ids views
list r = views (sorted_ids r.apps) r

abbrev view : Registry → Option (ℤ × Entry) → Option AppView
view r none = none
view r (some (key, e)) =
    some (record { id = e.app.id; serial = serial_of (pos e.app.id) r; app = e.app })

-- `Describe`: the serial is that of the id, whichever slot the name was found in.
unfoldable pub describe : Text → Registry → Option AppView
describe identifier r = view r (resolve identifier r)

-- `TreePids`.
unfoldable pub tree_pids : World → ℕ → Registry → List ℕ
unfolding current_tree_pids
tree_pids w id r = elim (lookup (pos id) r.apps) [ none ↦ [] | some e ↦ current_tree_pids w e.app ]
