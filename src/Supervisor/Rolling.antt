-- ===== src/Supervisor/Rolling.antt =====
-- internal/supervisor/supervisor.go, `reloadOne` and `rollbackReload`: proofs on the registry.
use pm.Base.{
  ℕ, suc, ◌≡◌, ◌≢◌, refl, inl, inr, Bool, true, false, Bool-cases, Option, none, some, Option-cases,
  arith, ℤ, pos, negsuc, int_eq, int_eq_iff, int_eq_refl, lookup, insert, delete, lookup-insert,
  lookup-delete, if◌then◌else◌,
}
use pm.Machine.State.{App, World}
use pm.Machine.Build.{Built, built, refused}
use pm.Machine.Handlers.{on_start, on_delete}
use pm.Supervisor.Registry.{Error, Entry, Registry, register, bump, lift}
use pm.Supervisor.Reload.{
  Roll, begun, park, reload_begin, rolled, restore, unpark, end_actor, retire_parked, holds,
  rollback_reload,
}

pub ruleset map_laws = (lookup-insert, lookup-delete, int_eq_refl)

-- The keys of an id and of its parked incarnation are apart.
pub keys_apart : (m n : ℕ) → int_eq (pos m) (negsuc n) ≡ false
unfolding int_eq
keys_apart m n = refl

-- What a reload that has begun has found and done.
pub record HasBegun (id : ℕ) (r s : Registry) (roll : Roll) : Type 0 where
  pub replacement : App
  pub found : lookup (pos id) r.apps ≡ some roll.old
  pub address : roll.replacement ≡ suc r.next_serial
  pub result : s ≡ bump (register (pos id) replacement (park id roll.old r))

rolled-HasBegun :
    (w : World) (id : ℕ) (old : Entry) (r s : Registry) (roll : Roll) (b : Built)
    → lookup (pos id) r.apps ≡ some old
    → rolled w id old r b ≡ begun s roll
    → HasBegun id r s roll
rolled-HasBegun w id old r s roll (refused e) f h = cc
rolled-HasBegun w id old r s roll (built a) f h = record {
  replacement = (on_start w a).0;
  found = ground arith;
  address = ground arith;
  result = ground arith;
}

pub reload_begin-HasBegun :
    (w : World) (id : ℕ) (r s : Registry) (roll : Roll)
    → reload_begin w id r ≡ begun s roll
    → HasBegun id r s roll
unfolding reload_begin
reload_begin-HasBegun w id r s roll h = elim (Option-cases (lookup (pos id) r.apps)) [
  | inl e ↦ cc (rw (e, reload_begin) at h)
  | inr (old, e) ↦ rolled-HasBegun w id old r s roll _ e (rw (e, reload_begin) at h)
]

-- What a rollback leaves at a slot: the parked entry at the id, where the id still held the
-- replacement, nothing at the parked slot, and all else as it was.
abbrev pub put_back {ℓ} : {V : Type ℓ} → ℕ → Option App → V → ℤ → Option V → Option V
put_back id none x k o = if int_eq (negsuc id) k then none else o
put_back id (some a) x k o =
    if int_eq (negsuc id) k then none else if int_eq (pos id) k then some x else o

module _ (id : ℕ) (old parked : Entry) (n : ℕ) (s : Registry) (k : ℤ) where
  restore-apps :
      lookup (negsuc id) s.apps ≡ some parked
      → lookup k (restore id old s).apps ≡ (
          if int_eq (negsuc id) k
          then none
          else if int_eq (pos id) k
          then some parked
          else lookup k s.apps)
  unfolding restore
  restore-apps e = rw e (simp map_laws)

  restore-serials :
      lookup (negsuc id) s.serials ≡ some n
      → lookup k (restore id old s).serials ≡ (
          if int_eq (negsuc id) k
          then none
          else if int_eq (pos id) k
          then some n
          else lookup k s.serials)
  unfolding restore
  restore-serials e = rw e (simp map_laws)

  unpark-apps :
      lookup k (unpark id s).apps ≡ (if int_eq (negsuc id) k then none else lookup k s.apps)
  unfolding unpark
  unpark-apps = simp map_laws

  unpark-serials :
      lookup k (unpark id s).serials ≡ (if int_eq (negsuc id) k then none else lookup k s.serials)
  unfolding unpark
  unpark-serials = simp map_laws

end_actor-answers :
    (w : World) (graceful : Bool) (a : App)
    → a.closed ≡ false
    → end_actor w graceful a ≡ some (lift (on_delete w graceful a).1)
unfolding end_actor
end_actor-answers w graceful a h = rw h refl

-- A rollback of a reload, after any changes of the registry during the gate, returns where neither
-- the parked actor nor the replacement has ended. Where the id still holds the replacement it puts the
-- parked actor and its serial back at the id, and else it leaves the id to the one that has taken it;
-- it frees the parked slot, and leaves every other slot as it was.
pub reload-rollback :
    (w : World) (id : ℕ) (roll : Roll) (s : Registry) (parked : Entry) (n : ℕ) (k : ℤ)
    → lookup (negsuc id) s.apps ≡ some parked
    → lookup (negsuc id) s.serials ≡ some n
    → parked.app.closed ≡ false
    → ((a : App) → holds id roll.replacement s ≡ some a → a.closed ≡ false)
    → (t : Registry) × (e : Option Error) × (rollback_reload w id roll s ≡ some (t, e))
      × (lookup k t.apps ≡ put_back id (holds id roll.replacement s) parked k (lookup k s.apps))
      × (lookup k t.serials ≡ put_back id (holds id roll.replacement s) n k (lookup k s.serials))
unfolding rollback_reload retire_parked
reload-rollback w id roll s parked n k p q open_yet alive =
    elim (Option-cases (holds id roll.replacement s)) [
      | inl gone ↦ (
        bump (unpark id s),
        lift (on_delete w true parked.app).1,
        rw (gone, rollback_reload)
            (rw (p, retire_parked) (rw (end_actor-answers w true parked.app open_yet) refl)),
        rw gone (unpark-apps id roll.old parked n s k),
        rw gone (unpark-serials id roll.old parked n s k),
      )
      | inr (a, held) ↦ (
        bump (restore id roll.old s),
        lift (on_delete w false a).1,
        rw (held, rollback_reload) (rw (end_actor-answers w false a (alive a held)) refl),
        rw held (restore-apps id roll.old parked n s k p),
        rw held (restore-serials id roll.old parked n s k q),
      )
    ]
