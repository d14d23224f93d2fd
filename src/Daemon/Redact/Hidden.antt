-- ===== src/Daemon/Redact/Hidden.antt =====
-- internal/daemon/redact.go: the proofs on what a redacted environment shows.
use pm.Base.{
  ◌≡◌, refl, ap, inl, inr, true, Bool-cases, Option, none, some, List, [], ◌∷◌, All, Text, text_eq,
  if◌then◌else◌, ℤ,
}
use pm.Config.{Config}
use pm.Store.{AppRecord, app_to_record, saved}
use pm.Machine.Env.Getenv.{value_of, text_eq→eq}
use pm.Daemon.Redact.{redacted_placeholder, is_secret, redact_env_map, redact_config_env, dump_of}

-- What is shown of the value of a key.
abbrev pub shown : Text → Option Text → Option Text
shown k none = none
shown k (some v) = some (if is_secret k then redacted_placeholder else v)

redact_env_map-value_of :
    (k : Text) (env : List (Text × Text))
    → value_of k (redact_env_map env) ≡ shown k (value_of k env)
unfolding redact_env_map
redact_env_map-value_of k [] = refl
redact_env_map-value_of k ((j, v) ∷ env) = elim (Bool-cases (text_eq j k)) [
  | inl hit ↦
      let same = text_eq→eq j k hit in
      rw hit (ap (λ i. some (if is_secret i then redacted_placeholder else v)) same)
  | inr miss ↦ rw miss (redact_env_map-value_of k env)
]

-- A redacted environment has the same keys; a secret one shows the placeholder, any other its value.
pub redact_config_env-value_of :
    (k : Text) (env : List (Text × Text))
    → value_of k (redact_config_env env) ≡ shown k (value_of k env)
unfolding redact_config_env
redact_config_env-value_of k [] = refl
redact_config_env-value_of k (e ∷ env) = redact_env_map-value_of k (e ∷ env)

-- No secret is left in an environment.
abbrev pub IsHidden : List (Text × Text) → Type 0
IsHidden env =
    All (λ e. (if is_secret e.0 then e.1 else redacted_placeholder) ≡ redacted_placeholder) env

redact_env_map-IsHidden : (env : List (Text × Text)) → IsHidden (redact_env_map env)
unfolding redact_env_map
redact_env_map-IsHidden [] = tt
redact_env_map-IsHidden ((k, v) ∷ env) = (
  elim (Bool-cases (is_secret k)) [ inl secret ↦ rw secret refl | inr plain ↦ rw plain refl ],
  redact_env_map-IsHidden env,
)

redact_config_env-IsHidden : (env : List (Text × Text)) → IsHidden (redact_config_env env)
unfolding redact_config_env
redact_config_env-IsHidden [] = tt
redact_config_env-IsHidden (e ∷ env) = redact_env_map-IsHidden (e ∷ env)

-- No record of a dump that is saved with redaction on shows a secret.
pub saved-IsHidden :
    (views : List (ℤ × Config))
    → All (λ (r : AppRecord). IsHidden r.env) (saved (dump_of true views)).apps
unfolding saved dump_of app_to_record
saved-IsHidden [] = tt
saved-IsHidden ((id, cfg) ∷ views) = (redact_config_env-IsHidden cfg.env, saved-IsHidden views)
