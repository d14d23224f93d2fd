-- ===== src/Daemon/Redact.antt =====
-- internal/daemon/redact.go: the redaction of environments; and the dump that `Save`
-- (internal/daemon/control.go) makes.
pub mod Hidden
use pm.Base.{
  ℕ, Bool, true, false, ◌||◌, List, [], ◌∷◌, map, Text, codes, text_eq, is_empty, to_lower,
  if◌then◌else◌, ◌==◌, ℤ, pos,
}
use pm.Config.{Config}
use pm.Store.{Entry, Dump}

abbrev pub redacted_placeholder : Text
redacted_placeholder = codes "[redacted]"

-- Whether a text begins with another one, and whether it contains it.
abbrev pub is_prefix : Text → Text → Bool
is_prefix [] s = true
is_prefix (c ∷ p) [] = false
is_prefix (c ∷ p) (d ∷ s) = if c == d then is_prefix p s else false

abbrev pub contains : Text → Text → Bool
contains p [] = is_prefix p []
contains p (c ∷ s) = is_prefix p (c ∷ s) || contains p s

-- The words of `envRedactRe`, which is matched in any case.
abbrev pub secret_words : List Text
secret_words =
    codes "pass"
    ∷ codes "pwd"
    ∷ codes "secret"
    ∷ codes "token"
    ∷ codes "key"
    ∷ codes "credential"
    ∷ codes "auth"
    ∷ []

abbrev some_word : List Text → Text → Bool
some_word [] k = false
some_word (w ∷ ws) k = contains w k || some_word ws k

-- `envRedactRe.MatchString`.
unfoldable pub is_secret : Text → Bool
is_secret k = some_word secret_words (map to_lower k)

-- `redactEnvMap`.
unfoldable pub redact_env_map : List (Text × Text) → List (Text × Text)
redact_env_map [] = []
redact_env_map ((k, v) ∷ env) =
    (k, if is_secret k then redacted_placeholder else v) ∷ redact_env_map env

-- `redactConfigEnv`.
unfoldable pub redact_config_env : List (Text × Text) → List (Text × Text)
unfolding redact_env_map
redact_config_env env = if is_empty env then env else redact_env_map env

abbrev entry_of : Bool → ℤ × Config → Entry
entry_of redact (id, cfg) = record {
  pm_id = id;
  app = if redact then record cfg { env = redact_config_env cfg.env } else cfg;
}

-- The dump that `Save` makes of the ids and configurations of the listing.
unfoldable pub dump_of : Bool → List (ℤ × Config) → Dump
unfolding redact_config_env
dump_of redact views = record {
  version = pos 0;
  redact_env = redact;
  apps = map (entry_of redact) views;
}
