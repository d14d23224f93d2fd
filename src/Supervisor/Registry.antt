-- ===== src/Supervisor/Registry.antt =====
-- internal/supervisor/supervisor.go, the registry: its maps, registration and the start of a batch.
-- A step of an application is the machine's; the `World` of each gives the answers of the process
-- layer. The order of `apps` is the order of Go's range loop, which is arbitrary.
use pm.Base.{
  ℕ, suc, ◌+◌, Option, none, some, List, [], ◌∷◌, length, Text, leb, if◌then◌else◌, ℤ, pos, negsuc,
  Map, lookup, insert,
}
use pm.Config.{Config}
use pm.Proc.{Handle}
use pm.Machine.State
use pm.Machine.State.{App, World}
use pm.Machine.Build.{Built, built, refused, build_app, adopt}
use pm.Machine.Handlers.{on_start}

pub data Error : Type 0 where
  empty_batch taken not_found : Error
  machine : State.Error → Error

-- A registered incarnation. The address is the identity of the actor: the registration serial that
-- it was first given.
pub record Entry : Type 0 where
  pub address : ℕ
  pub app : App

-- `Supervisor`. A parked incarnation of id stands at the key -id - 1, which is `negsuc id`.
pub record Registry : Type 0 where
  pub apps : Map Entry
  pub serials : Map ℕ
  pub next_id : ℕ
  pub next_serial : ℕ
  pub version : ℕ
  pub cluster_preload : Text

-- `New`.
unfoldable pub empty : Registry
empty = record {
  apps = [];
  serials = [];
  next_id = 0;
  next_serial = 0;
  version = 0;
  cluster_preload = [];
}

abbrev pub bump : Registry → Registry
bump r = record r { version = suc r.version }

abbrev pub options : Registry → ℕ → ℕ → State.Options
options r id restarts = record {
  id = id;
  initial_restarts = restarts;
  cluster_preload_path = r.cluster_preload;
}

-- An entry in the maps, under a fresh serial (`assignSerialLocked`).
unfoldable pub register : ℤ → App → Registry → Registry
register key a r = record r {
  apps = insert key (record { address = suc r.next_serial; app = a }) r.apps;
  serials = insert key (suc r.next_serial) r.serials;
  next_serial = suc r.next_serial;
}

abbrev pub lift : Option State.Error → Option Error
lift none = none
lift (some e) = some (machine e)

abbrev first_error : Option Error → Option Error → Option Error
first_error none e = e
first_error (some d) e = some d

abbrev pub registered : ℕ → World → Registry → Built → Registry × ℤ × Option Error
registered pid w r (refused e) = (r, negsuc 0, some (machine e))
registered pid w r (built a) =
    let (b, e) = on_start w a in (register (pos pid) b r, pos pid, lift e)

-- One round of the loop of `StartApps`: the id, or -1 for an app that cannot be built.
unfoldable pub start_one : World → Config → ℕ → Registry → Registry × ℤ × Option Error
start_one w cfg pid r = registered pid w r (build_app w.now cfg (options r pid 0))

-- The loop of `StartApps`; `fill` is applied with the id that is allocated.
unfoldable pub start_each :
    (ℕ → World)
    → (Config → ℕ → Config)
    → List Config
    → ℕ
    → Registry
    → Registry × List ℤ × Option Error
start_each ws fill [] pid r = (r, [], none)
start_each ws fill (cfg ∷ rest) pid r =
    let (r1, id, e) = start_one (ws pid) (fill cfg pid) pid r in
    let (r2, ids, e') = start_each ws fill rest (suc pid) r1 in (r2, id ∷ ids, first_error e e')

-- `StartApps`: ids are handed out from a counter.
unfoldable pub start_apps :
    (ℕ → World) → (Config → ℕ → Config) → List Config → Registry → Registry × List ℤ × Option Error
start_apps ws fill [] r = (r, [], some empty_batch)
start_apps ws fill (cfg ∷ rest) r =
    let (s, ids, e) =
      start_each ws fill (cfg ∷ rest) r.next_id
        (record r { next_id = r.next_id + length (cfg ∷ rest) }) in
    (bump s, ids, e)

-- The id counter passes an id that is given from outside.
abbrev pub pass : ℕ → Registry → Registry
pass id r = if leb r.next_id id then record r { next_id = suc id } else r

abbrev pub placed : ℕ → World → Registry → Built → Registry × Option Error
placed id w r (refused e) = (r, some (machine e))
placed id w r (built a) =
    let (b, e) = on_start w a in (bump (pass id (register (pos id) b r)), lift e)

-- `StartReplacementAt`; `StartAtID` is the case without earlier restarts.
unfoldable pub start_replacement_at : World → Config → ℕ → ℕ → Registry → Registry × Option Error
start_replacement_at w cfg id restarts r = elim (lookup (pos id) r.apps) [
  | some e ↦ (r, some taken)
  | none ↦ placed id w r (build_app w.now cfg (options r id restarts))
]

abbrev pub adopted_at : ℕ → Registry → Built → Registry × Option Error
adopted_at id r (refused e) = (r, some (machine e))
adopted_at id r (built a) = (bump (pass id (register (pos id) a r)), none)

-- `RegisterAt`: an adopted app, which is not started. It is given no preload path.
unfoldable pub register_at : World → Config → ℕ → Handle → ℕ → Registry → Registry × Option Error
register_at w cfg id h started_at r = elim (lookup (pos id) r.apps) [
  | some e ↦ (r, some taken)
  | none ↦ adopted_at id r (
      adopt w.now cfg (record { id = id; initial_restarts = 0; cluster_preload_path = [] }) h
        started_at)
]
