-- ===== src/Tests/DaemonTests.antt =====
-- The theorems on the daemon's drop reports and redaction, at concrete inputs.
use pm.Base.{
  ℕ, ◌+◌, ◌≡◌, refl, true, false, Option, none, some, List, [], ◌∷◌, All, Text, codes, ℤ, pos,
}
use pm.Config.{Config, default_for}
use pm.Store.{AppRecord, saved}
use pm.Daemon.DropLog.{DropLogger, Reach, new_logger, count_drop, skipped, start, drops}
use pm.Daemon.DropLog.Accounts.{IsSound, Reach-IsSound, Reach-stranded}
use pm.Daemon.Redact.{is_secret, dump_of}
use pm.Daemon.Redact.Hidden.{shown, IsHidden, saved-IsHidden}

Reach-IsSound_example : IsSound (count_drop skipped 3 new_logger)
Reach-IsSound_example = Reach-IsSound (count_drop skipped 3 new_logger) (drops skipped 3 start)

Reach-stranded_example :
    (d : DropLogger) × Reach d
    × (d.counts.evicted ≡ 5)
    × (d.dropped.evicted ≡ d.announced.evicted + 5)
    × (d.dropping ≡ 0)
    × (d.armed ≡ false)
    × (d.flushing ≡ none)
Reach-stranded_example = Reach-stranded 5

abbrev env : List (Text × Text)
env = (codes "PORT", codes "80") ∷ (codes "DB_Password", codes "hunter2") ∷ []

password_is_secret :
    shown (codes "DB_Password") (some (codes "hunter2")) ≡ some (codes "[redacted]")
unfolding is_secret pm.Base.to_lower
password_is_secret = refl

abbrev cfg : Config
cfg = record (default_for (codes "api") (codes "api.js")) { env = env }

saved-IsHidden_example :
    All (λ (r : AppRecord). IsHidden r.env) (saved (dump_of true ((pos 0, cfg) ∷ []))).apps
saved-IsHidden_example = saved-IsHidden ((pos 0, cfg) ∷ [])
