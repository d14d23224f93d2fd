-- ===== src/Tests/StoreTests.antt =====
-- The theorems on the dump, at concrete inputs.
use pm.Base.{
  ℕ, ◌*◌, ◌<◌, ◌≡◌, refl, false, true, Option, some, List, [], ◌∷◌, codes, ℤ, pos, negsuc, All,
  arith,
}
use pm.Config.{Config, default_for, millisecond}
use pm.Store.{Dump, dump_version, app_to_record, wire_rotate_max, saved, loaded}
use pm.Store.RoundTrip.{IsWhole, IsSavable, loaded-saved}

abbrev cfg : Config
cfg = record (default_for (codes "api") (codes "api.js")) { log_rotate_max_bytes = pos 0 }

whole : (k : ℕ) → k < 9000000000 → IsWhole (pos (k * millisecond))
whole k h = record { count = k; is_count = refl; in_range = omega arith }

cfg-IsSavable : IsSavable cfg
unfolding pm.Config.default_for
cfg-IsSavable = record {
  min_uptime = whole 1000 (omega arith);
  restart_delay = whole 0 (omega arith);
  backoff_delay = whole 0 (omega arith);
  backoff_cap = whole 15000 (omega arith);
  kill_wait = whole 1600 (omega arith);
  listen_timeout = whole 3000 (omega arith);
  probe_interval = (whole 30000 (omega arith), omega arith);
  probe_timeout = (whole 5000 (omega arith), omega arith);
  probe_retries = omega arith;
  rotate_max = omega arith;
  rotate_retain = omega arith;
}

abbrev dump : Dump
dump = record {
  version = pos 0;
  redact_env = true;
  apps = record { pm_id = pos 3; app = cfg } ∷ [];
}

loaded-saved_example : loaded (saved dump) ≡ some (record dump { version = dump_version })
loaded-saved_example = loaded-saved dump (cfg-IsSavable, tt)

-- Rotation that is off is written as -1.
rotation_off : (app_to_record (record { pm_id = pos 3; app = cfg })).log_rotate_max_bytes ≡ negsuc 0
unfolding app_to_record wire_rotate_max pm.Base.int_eq pm.Config.default_for
rotation_off = refl
