-- ===== src/Supervisor/Placing.antt =====
-- Registration under an id that is given from outside: a reload, a scale-up or a resurrection.
use pm.Base.{
  ℕ, ◌<◌, ◌≤◌, ◌≡◌, ◌==◌, inl, inr, Bool-cases, Option-cases, [], arith, pos, int_eq, lookup,
  lookup-insert, ==_iff,
}
use pm.Config.{Config}
use pm.Proc.{Handle}
use pm.Machine.State.{App, World}
use pm.Machine.Handlers.{on_start}
use pm.Machine.Build.{Built, built, refused, build_app, adopt}
use pm.Supervisor.Registry.{
  Registry, register, bump, pass, options, placed, adopted_at, start_replacement_at, register_at,
}
use pm.Supervisor.Starting.{IdsBelow}

pass-next : (id : ℕ) (r : Registry) → (r.next_id ≤ (pass id r).next_id) × (id < (pass id r).next_id)
pass-next id r = ground arith

pub pass-apps : (id : ℕ) (r : Registry) → (pass id r).apps ≡ r.apps
pass-apps id r = ground arith

put-IdsBelow :
    (id : ℕ) (a : App) (r : Registry)
    → IdsBelow r
    → IdsBelow (bump (pass id (register (pos id) a r)))
unfolding register int_eq
put-IdsBelow id a r v j e h =
    let s = register (pos id) a r in
    let next = pass-next id s in
    let found = rw (pass-apps id s, lookup-insert) at h in
    elim (Bool-cases (id == j)) [
      | inl same ↦ let eq = (==_iff id j).0 same in omega (arith, next.1, eq)
      | inr other ↦ omega (arith, next.0, v j e (rw other at found))
    ]

placed-IdsBelow :
    (id : ℕ) (w : World) (r : Registry) (b : Built) → IdsBelow r → IdsBelow (placed id w r b).0
placed-IdsBelow id w r (refused e) v = v
placed-IdsBelow id w r (built a) v = put-IdsBelow id (on_start w a).0 r v

adopted_at-IdsBelow :
    (id : ℕ) (r : Registry) (b : Built) → IdsBelow r → IdsBelow (adopted_at id r b).0
adopted_at-IdsBelow id r (refused e) v = v
adopted_at-IdsBelow id r (built a) v = put-IdsBelow id a r v

-- A start at a given id keeps every id in use below the counter, so that no later batch takes it.
pub start_replacement_at-IdsBelow :
    (w : World) (cfg : Config) (id restarts : ℕ) (r : Registry)
    → IdsBelow r
    → IdsBelow (start_replacement_at w cfg id restarts r).0
unfolding start_replacement_at
start_replacement_at-IdsBelow w cfg id restarts r v = elim (Option-cases (lookup (pos id) r.apps)) [
  | inl e ↦
      rw (e, start_replacement_at)
        (placed-IdsBelow id w r (build_app w.now cfg (options r id restarts)) v)
  | inr (x, e) ↦ rw (e, start_replacement_at) v
]

-- A registration of an adopted app keeps every id in use below the counter.
pub register_at-IdsBelow :
    (w : World) (cfg : Config) (id : ℕ) (h : Handle) (started_at : ℕ) (r : Registry)
    → IdsBelow r
    → IdsBelow (register_at w cfg id h started_at r).0
unfolding register_at
register_at-IdsBelow w cfg id h started_at r v = elim (Option-cases (lookup (pos id) r.apps)) [
  | inl e ↦
      rw (e, register_at)
        (adopted_at-IdsBelow id r
          (adopt w.now cfg (record { id = id; initial_restarts = 0; cluster_preload_path = [] }) h
            started_at)
          v)
  | inr (x, e) ↦ rw (e, register_at) v
]
