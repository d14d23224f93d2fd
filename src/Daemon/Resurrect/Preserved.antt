-- ===== src/Daemon/Resurrect/Preserved.antt =====
-- internal/daemon/control.go, `adoptOrStartFromDump`: the proofs on the registry that it leaves.
use pm.Base.{
  ℕ, zero, suc, ◌+◌, ◌≡◌, ◌⊎◌, inl, inr, refl, ap, Option, none, some, List, [], ◌∷◌, arith, pos,
}
use pm.Config.{Config}
use pm.Proc.{Handle}
use pm.Machine.State.{World}
use pm.Supervisor.Registry.{Error, Registry, register_at, start_replacement_at}
use pm.Supervisor.Starting.{IdsBelow}
use pm.Supervisor.Placing.{start_replacement_at-IdsBelow, register_at-IdsBelow}
use pm.Daemon.Resurrect.{
  Counts, one_started, one_errored, count_start, start_fresh, or_fresh, one_entry, adopt_or_start,
  adopt_or_start_from_dump,
}
use pm.Daemon.Resurrect.Placed.{
  RunsAt, HasFailed, AreDealtWith, Extends, IsPlaced, start_replacement_at-IsPlaced,
  register_at-IsPlaced,
}

-- What one entry leaves.
abbrev IsDealtWith : Config → ℕ → Registry → Counts → Registry × Counts → Type 0
IsDealtWith cfg id r c (s, d) =
    Extends r s
    × ((RunsAt s id cfg × (d ≡ one_started c)) ⊎ (HasFailed s id cfg × (d ≡ one_errored c)))

count_start-IsDealtWith :
    (cfg : Config) (id : ℕ) (r : Registry) (o : Registry × Option Error) (c : Counts)
    → IsPlaced cfg id r o
    → IsDealtWith cfg id r c (count_start o c)
count_start-IsDealtWith cfg id r (s, none) c p = (p.0, inl (p.1, refl))
count_start-IsDealtWith cfg id r (s, some e) c p = (p.0, inr (p.1, refl))

or_fresh-IsDealtWith :
    (w : World) (cfg : Config) (id : ℕ) (r : Registry) (o : Registry × Option Error) (c : Counts)
    → IsPlaced cfg id r o
    → IsDealtWith cfg id r c (or_fresh w cfg id o c)
or_fresh-IsDealtWith w cfg id r (s, none) c p = (p.0, inl (p.1, refl))
or_fresh-IsDealtWith w cfg id r (s, some e) c p =
    let q =
      count_start-IsDealtWith cfg id s (start_replacement_at w cfg id 0 s) c
        (start_replacement_at-IsPlaced w cfg id 0 s) in
    (λ k x h. q.0 k x (p.0 k x h), q.1)

one_entry-IsDealtWith :
    (w : World) (cfg : Config) (id : ℕ) (o : Option (Handle × ℕ)) (r : Registry) (c : Counts)
    → IsDealtWith cfg id r c (one_entry w cfg id o r c)
one_entry-IsDealtWith w cfg id none r c =
    count_start-IsDealtWith cfg id r (start_replacement_at w cfg id 0 r) c
      (start_replacement_at-IsPlaced w cfg id 0 r)
one_entry-IsDealtWith w cfg id (some (h, t)) r c =
    or_fresh-IsDealtWith w cfg id r (register_at w cfg id h t r) c
      (register_at-IsPlaced w cfg id h t r)

RunsAt-later :
    (r s : Registry) (id : ℕ) (cfg : Config) → Extends r s → RunsAt r id cfg → RunsAt s id cfg
RunsAt-later r s id cfg k (x, found, given, runs) = (x, k (pos id) x found, given, runs)

HasFailed-later :
    (r s : Registry) (id : ℕ) (cfg : Config) → Extends r s → HasFailed r id cfg → HasFailed s id cfg
HasFailed-later r s id cfg k (inl (x, found)) = inl (x, k (pos id) x found)
HasFailed-later r s id cfg k (inr never) = inr never

-- What the loop leaves, from the counts that it begins with.
abbrev IsDone : List (ℕ × Config) → Registry → Counts → Registry × Counts → Type 0
IsDone dump r c (s, d) =
    Extends r s
    × (n : ℕ) × (m : ℕ) × AreDealtWith s dump n m
    × (d.started ≡ c.started + n)
    × (d.errored ≡ c.errored + m)

next-IsDone :
    (cfg : Config) (id : ℕ) (rest : List (ℕ × Config)) (r : Registry) (c : Counts)
    (one last : Registry × Counts)
    → IsDealtWith cfg id r c one
    → IsDone rest one.0 one.1 last
    → IsDone ((id, cfg) ∷ rest) r c last
next-IsDone cfg id rest r c (t, d) (s, l) (p, inl (runs, e)) (q, n, m, dealt, x, y) = (
  λ k z h. q k z (p k z h),
  suc n,
  m,
  inl (n, refl, RunsAt-later t s id cfg q runs, dealt),
  (let f = ap (λ (z : Counts). z.started) e in omega (arith, f, x)),
  (let f = ap (λ (z : Counts). z.errored) e in omega (arith, f, y)),
)
next-IsDone cfg id rest r c (t, d) (s, l) (p, inr (fails, e)) (q, n, m, dealt, x, y) = (
  λ k z h. q k z (p k z h),
  n,
  suc m,
  inr (m, refl, HasFailed-later t s id cfg q fails, dealt),
  (let f = ap (λ (z : Counts). z.started) e in omega (arith, f, x)),
  (let f = ap (λ (z : Counts). z.errored) e in omega (arith, f, y)),
)

adopt_or_start-IsDone :
    (ws : ℕ → World) (found : ℕ → Option (Handle × ℕ)) (dump : List (ℕ × Config)) (r : Registry)
    (c : Counts)
    → IsDone dump r c (adopt_or_start ws found dump r c)
unfolding adopt_or_start
adopt_or_start-IsDone ws found [] r c =
    (λ k x h. h, zero, zero, (refl, refl), omega arith, omega arith)
adopt_or_start-IsDone ws found ((id, cfg) ∷ rest) r c =
    let (s, d) = one_entry (ws id) cfg id (found id) r c in
    next-IsDone cfg id rest r c (s, d) (adopt_or_start ws found rest s d)
      (one_entry-IsDealtWith (ws id) cfg id (found id) r c)
      (adopt_or_start-IsDone ws found rest s d)

count_start-IdsBelow :
    (o : Registry × Option Error) (c : Counts) → IdsBelow o.0 → IdsBelow (count_start o c).0
count_start-IdsBelow (r, none) c v = v
count_start-IdsBelow (r, some e) c v = v

start_fresh-IdsBelow :
    (w : World) (cfg : Config) (id : ℕ) (r : Registry) (c : Counts)
    → IdsBelow r
    → IdsBelow (start_fresh w cfg id r c).0
start_fresh-IdsBelow w cfg id r c v =
    count_start-IdsBelow (start_replacement_at w cfg id 0 r) c
      (start_replacement_at-IdsBelow w cfg id 0 r v)

or_fresh-IdsBelow :
    (w : World) (cfg : Config) (id : ℕ) (o : Registry × Option Error) (c : Counts)
    → IdsBelow o.0
    → IdsBelow (or_fresh w cfg id o c).0
or_fresh-IdsBelow w cfg id (r, none) c v = v
or_fresh-IdsBelow w cfg id (r, some e) c v = start_fresh-IdsBelow w cfg id r c v

one_entry-IdsBelow :
    (w : World) (cfg : Config) (id : ℕ) (o : Option (Handle × ℕ)) (r : Registry) (c : Counts)
    → IdsBelow r
    → IdsBelow (one_entry w cfg id o r c).0
one_entry-IdsBelow w cfg id none r c v = start_fresh-IdsBelow w cfg id r c v
one_entry-IdsBelow w cfg id (some (h, t)) r c v =
    or_fresh-IdsBelow w cfg id (register_at w cfg id h t r) c
      (register_at-IdsBelow w cfg id h t r v)

adopt_or_start-IdsBelow :
    (ws : ℕ → World) (found : ℕ → Option (Handle × ℕ)) (dump : List (ℕ × Config)) (r : Registry)
    (c : Counts)
    → IdsBelow r
    → IdsBelow (adopt_or_start ws found dump r c).0
unfolding adopt_or_start
adopt_or_start-IdsBelow ws found [] r c v = v
adopt_or_start-IdsBelow ws found ((id, cfg) ∷ rest) r c v =
    let (s, d) = one_entry (ws id) cfg id (found id) r c in
    adopt_or_start-IdsBelow ws found rest s d (one_entry-IdsBelow (ws id) cfg id (found id) r c v)

dealt_counts :
    (dump : List (ℕ × Config)) (r s : Registry) (d : Counts)
    → IsDone dump r (record { started = 0; errored = 0 }) (s, d)
    → AreDealtWith s dump d.started d.errored
dealt_counts dump r s d (k, n, m, dealt, x, y) =
    let e : d.started ≡ n = omega (arith, x) in
    let f : d.errored ≡ m = omega (arith, y) in rw e (rw f dealt)

-- A resurrection deals with every entry of the dump, whatever becomes of the others: each one that it
-- counts as started has an app of its configuration at its id in the end, which owns a tree, and each
-- one that it counts as errored has its id taken, by an app that was there before or by its own, which
-- could not be spawned, or has a configuration of which no app can be built. Every id in use stays
-- below the counter, so that no later batch takes the id of a restored app.
pub adopt_or_start_from_dump-keeps :
    (ws : ℕ → World) (found : ℕ → Option (Handle × ℕ)) (dump : List (ℕ × Config)) (r : Registry)
    → IdsBelow r
    → let (s, c) = adopt_or_start_from_dump ws found (some dump) r in
      IdsBelow s × AreDealtWith s dump c.started c.errored
unfolding adopt_or_start_from_dump
adopt_or_start_from_dump-keeps ws found dump r v =
    let zeros : Counts = record { started = 0; errored = 0 } in
    let (s, d) = adopt_or_start ws found dump r zeros in
    (
      adopt_or_start-IdsBelow ws found dump r zeros v,
      dealt_counts dump r s d (adopt_or_start-IsDone ws found dump r zeros),
    )
