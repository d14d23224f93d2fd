-- ===== src/Machine/Actor/Reach.antt =====
-- The states that an actor can come to: from `New` or `Adopt`, by any rounds of the loop, with any
-- answers of the process layer, until it is deleted.
use pm.Base.{ℕ, ◌≡◌, refl, Bool, true, false, none, is_empty, if◌then◌else◌, arith}
use pm.Config.{Config}
use pm.Proc.{Handle}
use pm.Cron
use pm.Machine.State.{App, World, Options, no_name, no_script, publish_tree}
use pm.Machine.Build.{Built, built, refused, fresh_app, check_cron, take_over, build_app, adopt}
use pm.Machine.Actor.{Event, step, enabled}
use pm.Machine.Actor.Invariant.{Inv, step-Inv}
use pm.Machine.Actor.Trees.{IsAccounted}

-- A new or an adopted app, of any configuration that is accepted.
pub data Starts (a : App) : Type 0 where
  new : (now : ℕ) (cfg : Config) (opts : Options) → build_app now cfg opts ≡ built a → Starts a
  taken_over :
      (now : ℕ) (cfg : Config) (opts : Options) (h : Handle) (started_at : ℕ)
      → adopt now cfg opts h started_at ≡ built a
      → Starts a

pub data Reach (a : App) : App → Type 0 where
  here : Reach a a
  next :
      {b : App}
      → Reach a b
      → (w : World) (e : Event) → b.closed ≡ false
      → enabled b e ≡ true
      → Reach a (step w b e).0

-- What a first state satisfies.
abbrev Good : Built → Type 0
Good (built a) = Inv a × IsAccounted a × (a.park ≡ none)
Good (refused e) = Unit

fresh_app-Good : (now : ℕ) (cfg : Config) (opts : Options) → Good (built (fresh_app now cfg opts))
unfolding fresh_app
fresh_app-Good now cfg opts = (ground arith, refl, refl)

checked-Good : (r : Cron.Result Cron.Schedule) (a : App) → Good (built a) → Good (check_cron r a)
checked-Good (Cron.Result.ok s) a h = h
checked-Good (Cron.Result.err e) a h = tt

if-Good : (b : Bool) (x y : Built) → Good x → Good y → Good (if b then x else y)
if-Good true x y g h = g
if-Good false x y g h = h

build_app-Good : (now : ℕ) (cfg : Config) (opts : Options) → Good (build_app now cfg opts)
unfolding build_app
build_app-Good now cfg opts =
    let a = fresh_app now cfg opts in
    let good = fresh_app-Good now cfg opts in
    let parsed = check_cron (Cron.parse cfg.cron_restart) a in
    let named = if is_empty cfg.cron_restart then built a else parsed in
    let scripted = if is_empty cfg.name then refused no_name else named in
    if-Good (is_empty cfg.script) (refused no_script) scripted tt (
      if-Good (is_empty cfg.name) (refused no_name) named tt (
        if-Good (is_empty cfg.cron_restart) (built a) parsed good
          (checked-Good (Cron.parse cfg.cron_restart) a good)))

take_over-Good :
    (h : Handle) (started_at : ℕ) (b : Built) → Good b → Good (take_over h started_at b)
unfolding publish_tree
take_over-Good h started_at (built a) g = let p = g.2 in (ground arith, refl, g.2)
take_over-Good h started_at (refused e) g = tt

adopt-Good :
    (now : ℕ) (cfg : Config) (opts : Options) (h : Handle) (started_at : ℕ)
    → Good (adopt now cfg opts h started_at)
unfolding adopt
adopt-Good now cfg opts h started_at =
    take_over-Good h started_at (build_app now cfg opts) (build_app-Good now cfg opts)

built-Inv : {b : Built} {a : App} → Good b → b ≡ built a → Inv a
built-Inv {b} {a} g e = (rw e at g).0

Starts-Inv : {a : App} → Starts a → Inv a
Starts-Inv (new now cfg opts e) = built-Inv (build_app-Good now cfg opts) e
Starts-Inv (taken_over now cfg opts h started_at e) =
    built-Inv (adopt-Good now cfg opts h started_at) e

-- Every state that an actor can come to from a new or an adopted app satisfies the invariant.
pub Reach-Inv : (a b : App) → Starts a → Reach a b → Inv b
Reach-Inv a _ s here = Starts-Inv s
Reach-Inv a _ s (next r w e open_yet g) = step-Inv w _ e g (Reach-Inv a _ s r)
