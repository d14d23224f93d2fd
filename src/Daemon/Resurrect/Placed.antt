-- ===== src/Daemon/Resurrect/Placed.antt =====
-- internal/supervisor/supervisor.go, `StartReplacementAt` and `RegisterAt`: the proofs on what they
-- leave at the id.
use pm.Base.{
  ℕ, suc, ◌≡◌, ◌≢◌, ◌⊎◌, inl, inr, refl, sym, ap, ◌∙◌, true, Bool-cases, Option, none, some,
  Option-cases, List, [], ◌∷◌, arith, ℤ, pos, int_eq, int_eq_iff, int_eq_refl, lookup,
  lookup-insert,
}
use pm.Config.{Config}
use pm.Proc.{Handle}
use pm.Machine.State
use pm.Machine.State.{App, World, Options, stopped, publish_tree}
use pm.Machine.Policy.{reset_state}
use pm.Machine.Handlers.{on_start, launch}
use pm.Machine.Build.{Built, built, refused, build_app, adopt}
use pm.Machine.Build.Fresh.{build_app-IsFresh, adopt-IsTaken, IsFresh, IsTaken}
use pm.Supervisor.Registry.{
  Entry, Error, Registry, register, bump, pass, options, lift, placed, adopted_at, register_at,
  start_replacement_at,
}
use pm.Supervisor.Placing.{pass-apps}

-- The id has an app of the given configuration, which owns a tree.
abbrev pub RunsAt : Registry → ℕ → Config → Type 0
RunsAt s id cfg =
    (x : Entry) × (lookup (pos id) s.apps ≡ some x)
    × (x.app.cfg ≡ record cfg { treekill = true })
    × (x.app.handle ≢ none)

-- Why an entry fails: its id is taken, by another app or by its own, which could not be spawned, or no
-- app can be built of its configuration.
abbrev pub HasFailed : Registry → ℕ → Config → Type 0
HasFailed s id cfg =
    ((x : Entry) × (lookup (pos id) s.apps ≡ some x))
    ⊎ ((now : ℕ) × (opts : Options) × (e : State.Error) × (build_app now cfg opts ≡ refused e))

-- Each entry of a dump is one of the `n` that run or one of the `m` that have failed.
abbrev pub AreDealtWith : Registry → List (ℕ × Config) → ℕ → ℕ → Type 0
AreDealtWith s [] n m = (n ≡ 0) × (m ≡ 0)
AreDealtWith s ((id, cfg) ∷ rest) n m =
    ((k : ℕ) × (n ≡ suc k) × RunsAt s id cfg × AreDealtWith s rest k m)
    ⊎ ((k : ℕ) × (m ≡ suc k) × HasFailed s id cfg × AreDealtWith s rest n k)

-- What is registered stays as it is.
abbrev pub Extends : Registry → Registry → Type 0
Extends r s = (k : ℤ) (x : Entry) → lookup k r.apps ≡ some x → lookup k s.apps ≡ some x

put-here :
    (id : ℕ) (a : App) (r : Registry)
    → (x : Entry) × (lookup (pos id) (bump (pass id (register (pos id) a r))).apps ≡ some x)
      × (x.app ≡ a)
unfolding register
put-here id a r = (
  record { address = suc r.next_serial; app = a },
  rw (pass-apps id (register (pos id) a r)) (rw (lookup-insert) (rw int_eq_refl refl)),
  refl,
)

put-Extends :
    (id : ℕ) (a : App) (r : Registry)
    → lookup (pos id) r.apps ≡ none
    → Extends r (bump (pass id (register (pos id) a r)))
unfolding register
put-Extends id a r free k x h = rw (pass-apps id (register (pos id) a r)) (
    rw lookup-insert (elim (Bool-cases (int_eq (pos id) k)) [
      | inl e ↦ let same = (int_eq_iff (pos id) k).0 e in absurd (let f = rw (sym same) at h in cc)
      | inr e ↦ rw e h
    ]))

-- What is left of a start or of an adoption at an id, by its error.
abbrev pub IsPlaced : Config → ℕ → Registry → Registry × Option Error → Type 0
IsPlaced cfg id r (s, none) = Extends r s × RunsAt s id cfg
IsPlaced cfg id r (s, some e) = Extends r s × HasFailed s id cfg

on_start-runs :
    (w : World) (a : App)
    → a.status ≡ stopped
    → (on_start w a).1 ≡ none
    → (on_start w a).0.handle ≢ none
unfolding on_start launch
on_start-runs w a st h = ground arith

on_start-cfg : (w : World) (a : App) → a.status ≡ stopped → (on_start w a).0.cfg ≡ a.cfg
unfolding on_start launch reset_state
on_start-cfg w a st = ground arith

IsPlaced-error :
    (cfg : Config) (id : ℕ) (r s : Registry) (e : Option State.Error)
    → Extends r s
    → (x : Entry) × (lookup (pos id) s.apps ≡ some x)
    → (e ≡ none → RunsAt s id cfg)
    → IsPlaced cfg id r (s, lift e)
IsPlaced-error cfg id r s none k held f = (k, f refl)
IsPlaced-error cfg id r s (some e) k held f = (k, inl held)

placed-IsPlaced :
    (id : ℕ) (w : World) (cfg : Config) (r : Registry) (opts : Options) (b : Built)
    → lookup (pos id) r.apps ≡ none
    → build_app w.now cfg opts ≡ b
    → IsFresh cfg b
    → IsPlaced cfg id r (placed id w r b)
placed-IsPlaced id w cfg r opts (refused e) free same f = (λ k x h. h, inr (w.now, opts, e, same))
placed-IsPlaced id w cfg r opts (built a) free same f =
    let (b, e) = on_start w a in
    let (x, found, app) = put-here id b r in
    let kept = put-Extends id b r free in
    let runs = on_start-runs w a f.0 in
    let given = on_start-cfg w a f.0 ∙ f.1 in
    IsPlaced-error cfg id r (bump (pass id (register (pos id) b r))) e kept (x, found)
      (λ k. (x, found, ap (λ (y : App). y.cfg) app ∙ given, rw app (runs k)))

pub start_replacement_at-IsPlaced :
    (w : World) (cfg : Config) (id restarts : ℕ) (r : Registry)
    → IsPlaced cfg id r (start_replacement_at w cfg id restarts r)
unfolding start_replacement_at
start_replacement_at-IsPlaced w cfg id restarts r = elim (Option-cases (lookup (pos id) r.apps)) [
  | inr (x, e) ↦ rw (e, start_replacement_at) (λ k y h. h, inl (x, e))
  | inl e ↦
      let opts = options r id restarts in
      rw (e, start_replacement_at)
        (placed-IsPlaced id w cfg r opts (build_app w.now cfg opts) e refl
          (build_app-IsFresh w.now cfg opts))
]

adopted_at-IsPlaced :
    (id now : ℕ) (cfg : Config) (opts : Options) (h : Handle) (r : Registry) (b : Built)
    → lookup (pos id) r.apps ≡ none
    → IsTaken cfg h (build_app now cfg opts) b
    → IsPlaced cfg id r (adopted_at id r b)
adopted_at-IsPlaced id now cfg opts h r (refused e) free f = (λ k x h. h, inr (now, opts, e, f))
adopted_at-IsPlaced id now cfg opts h r (built a) free f =
    let (x, found, app) = put-here id a r in
    (
      put-Extends id a r free,
      (x, found, ap (λ (y : App). y.cfg) app ∙ f.1, rw app (rw f.0 (λ e. cc))),
    )

pub register_at-IsPlaced :
    (w : World) (cfg : Config) (id : ℕ) (h : Handle) (t : ℕ) (r : Registry)
    → IsPlaced cfg id r (register_at w cfg id h t r)
unfolding register_at
register_at-IsPlaced w cfg id h t r = elim (Option-cases (lookup (pos id) r.apps)) [
  | inr (x, e) ↦ rw (e, register_at) (λ k y h. h, inl (x, e))
  | inl e ↦
      let opts : Options = record { id = id; initial_restarts = 0; cluster_preload_path = [] } in
      rw (e, register_at)
        (adopted_at-IsPlaced id w.now cfg opts h r (adopt w.now cfg opts h t) e
          (adopt-IsTaken w.now cfg opts h t))
]
