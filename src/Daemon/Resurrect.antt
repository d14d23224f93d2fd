-- ===== src/Daemon/Resurrect.antt =====
-- internal/daemon/control.go, `adoptOrStartFromDump`: each app of the dump is adopted where its tree
-- is alive, else started at its id. What the search for a tree finds, with the start of the tree in
-- nanoseconds, is an argument; the ids are those that a dump was saved with, which are not negative.
pub mod Preserved
pub mod Placed
use pm.Base.{ℕ, zero, suc, Option, none, some, List, [], ◌∷◌}
use pm.Config.{Config}
use pm.Proc.{Handle}
use pm.Machine.State.{World}
use pm.Supervisor.Registry.{Error, Registry, register_at, start_replacement_at}

-- How many entries were started or adopted, and how many failed.
pub record Counts : Type 0 where
  pub started : ℕ
  pub errored : ℕ

abbrev pub one_started : Counts → Counts
one_started c = record c { started = suc c.started }

abbrev pub one_errored : Counts → Counts
one_errored c = record c { errored = suc c.errored }

abbrev pub count_start : Registry × Option Error → Counts → Registry × Counts
count_start (r, none) c = (r, one_started c)
count_start (r, some e) c = (r, one_errored c)

-- A start at the id, after a failed adoption too, with the registry as that has left it.
abbrev pub start_fresh : World → Config → ℕ → Registry → Counts → Registry × Counts
start_fresh w cfg id r c = count_start (start_replacement_at w cfg id 0 r) c

abbrev pub or_fresh : World → Config → ℕ → Registry × Option Error → Counts → Registry × Counts
or_fresh w cfg id (r, none) c = (r, one_started c)
or_fresh w cfg id (r, some e) c = start_fresh w cfg id r c

abbrev pub one_entry :
    World → Config → ℕ → Option (Handle × ℕ) → Registry → Counts → Registry × Counts
one_entry w cfg id none r c = start_fresh w cfg id r c
one_entry w cfg id (some (h, t)) r c = or_fresh w cfg id (register_at w cfg id h t r) c

-- The loop over the entries.
unfoldable pub adopt_or_start :
    (ℕ → World)
    → (ℕ → Option (Handle × ℕ))
    → List (ℕ × Config)
    → Registry
    → Counts
    → Registry × Counts
adopt_or_start ws found [] r c = (r, c)
adopt_or_start ws found ((id, cfg) ∷ rest) r c =
    let (s, d) = one_entry (ws id) cfg id (found id) r c in adopt_or_start ws found rest s d

-- `adoptOrStartFromDump`; a dump that cannot be loaded, or is not there, is `none`.
unfoldable pub adopt_or_start_from_dump :
    (ℕ → World)
    → (ℕ → Option (Handle × ℕ))
    → Option (List (ℕ × Config))
    → Registry
    → Registry × Counts
unfolding adopt_or_start
adopt_or_start_from_dump ws found none r = (r, record { started = 0; errored = 0 })
adopt_or_start_from_dump ws found (some dump) r =
    adopt_or_start ws found dump r (record { started = 0; errored = 0 })
