-- ===== src/Machine/Build/Fresh.antt =====
-- internal/machine/machine.go, `New` and `Adopt`: the proofs on the state that an app begins with.
use pm.Base.{ℕ, ◌≡◌, refl, Bool, true, false, some, is_empty, if◌then◌else◌}
use pm.Config.{Config}
use pm.Proc.{Handle}
use pm.Cron
use pm.Machine.State.{App, Options, no_name, no_script, stopped, publish_tree}
use pm.Machine.Build.{Built, built, refused, fresh_app, check_cron, take_over, build_app, adopt}

-- A new app is stopped, and has the configuration that it was given, with the kill of trees on.
abbrev pub IsFresh : Config → Built → Type 0
IsFresh cfg (built a) = (a.status ≡ stopped) × (a.cfg ≡ record cfg { treekill = true })
IsFresh cfg (refused e) = Unit

check_cron-IsFresh :
    (cfg : Config) (r : Cron.Result Cron.Schedule) (a : App)
    → IsFresh cfg (built a)
    → IsFresh cfg (check_cron r a)
check_cron-IsFresh cfg (Cron.Result.ok s) a h = h
check_cron-IsFresh cfg (Cron.Result.err e) a h = tt

if-IsFresh :
    (cfg : Config) (b : Bool) (x y : Built)
    → IsFresh cfg x
    → IsFresh cfg y
    → IsFresh cfg (if b then x else y)
if-IsFresh cfg true x y g h = g
if-IsFresh cfg false x y g h = h

pub build_app-IsFresh :
    (now : ℕ) (cfg : Config) (opts : Options) → IsFresh cfg (build_app now cfg opts)
unfolding build_app fresh_app
build_app-IsFresh now cfg opts =
    let a = fresh_app now cfg opts in
    let parsed = check_cron (Cron.parse cfg.cron_restart) a in
    let named = if is_empty cfg.cron_restart then built a else parsed in
    let scripted = if is_empty cfg.name then refused no_name else named in
    if-IsFresh cfg (is_empty cfg.script) (refused no_script) scripted tt (
      if-IsFresh cfg (is_empty cfg.name) (refused no_name) named tt (
        if-IsFresh cfg (is_empty cfg.cron_restart) (built a) parsed (refl, refl)
          (check_cron-IsFresh cfg (Cron.parse cfg.cron_restart) a (refl, refl))))

-- An app that is adopted owns the tree, and has the configuration in the same way; an adoption is
-- refused where `New` refuses the configuration.
abbrev pub IsTaken : Config → Handle → Built → Built → Type 0
IsTaken cfg h b (built a) = (a.handle ≡ some h) × (a.cfg ≡ record cfg { treekill = true })
IsTaken cfg h b (refused e) = b ≡ refused e

take_over-IsTaken :
    (cfg : Config) (h : Handle) (started_at : ℕ) (b : Built)
    → IsFresh cfg b
    → IsTaken cfg h b (take_over h started_at b)
unfolding publish_tree
take_over-IsTaken cfg h started_at (built a) f = (refl, f.1)
take_over-IsTaken cfg h started_at (refused e) f = refl

pub adopt-IsTaken :
    (now : ℕ) (cfg : Config) (opts : Options) (h : Handle) (started_at : ℕ)
    → IsTaken cfg h (build_app now cfg opts) (adopt now cfg opts h started_at)
unfolding adopt
adopt-IsTaken now cfg opts h started_at =
    take_over-IsTaken cfg h started_at (build_app now cfg opts) (build_app-IsFresh now cfg opts)
