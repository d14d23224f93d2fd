-- ===== src/Config/Ecosystem/Keys/Accepted.antt =====
-- internal/config/ecosystem.go, `parseEcosystemApp` and `ResolveEnv`: the proofs on the keys that are
-- accepted and on the environment that is selected.
use pm.Base.{
  ◌≡◌, refl, sym, ◌∙◌, ap, inl, inr, Bool, true, false, Bool-cases, ◌&&◌, ◌||◌, Option, none, some,
  Option-cases, List, [], ◌∷◌, Text, codes, text_eq, if◌then◌else◌, arith, has_prefix, strip_prefix,
  ◌==◌,
}
use pm.Machine.Env.Getenv.{value_of, text_eq→eq}
use pm.Config.Ecosystem.{
  Value, null, other, bool, num, str, array, object, Fields, no_fields, field,
}
use pm.Config.Ecosystem.Keys.{
  Env, EcosystemApp, Draft, Place, Setter, cases, find_case, canonical, env_case, case_or_env,
  one_key, parse_keys, blank, parse_ecosystem_app, put_entry, put_entries, env_named, resolve_env,
}

-- `supportedEcosystemKeys`, the keys that the error message lists, less the pattern of the env maps.
abbrev pub supported_keys : List Text
supported_keys =
    codes "name"
    ∷ codes "script"
    ∷ codes "args"
    ∷ codes "interpreter"
    ∷ codes "exec_interpreter"
    ∷ codes "interpreter_args"
    ∷ codes "node_args"
    ∷ codes "exec_mode"
    ∷ codes "instances"
    ∷ codes "namespace"
    ∷ codes "cwd"
    ∷ codes "autorestart"
    ∷ codes "max_restarts"
    ∷ codes "min_uptime"
    ∷ codes "restart_delay"
    ∷ codes "exp_backoff_restart_delay"
    ∷ codes "stop_exit_codes"
    ∷ codes "max_memory_restart"
    ∷ codes "kill_signal"
    ∷ codes "kill_timeout"
    ∷ codes "listen_timeout"
    ∷ codes "wait_ready"
    ∷ codes "cron_restart"
    ∷ codes "watch"
    ∷ codes "treekill"
    ∷ codes "time"
    ∷ codes "log_date_format"
    ∷ codes "out_file"
    ∷ codes "error_file"
    ∷ codes "pid_file"
    ∷ codes "merge_logs"
    ∷ codes "env"
    ∷ codes "log_rotate_max_bytes"
    ∷ codes "log_rotate_retain"
    ∷ codes "health_check_cmd"
    ∷ codes "health_check_interval"
    ∷ codes "health_check_timeout"
    ∷ codes "health_check_retries"
    ∷ []

abbrev pub is_in : Text → List Text → Bool
is_in k [] = false
is_in k (j ∷ js) = text_eq k j || is_in k js

abbrev pub is_supported : Text → Bool
is_supported k = is_in k supported_keys || has_prefix (codes "env_") k

abbrev names : List (Text × Setter) → List Text
names [] = []
names ((k, f) ∷ cs) = k ∷ names cs

abbrev are_in : List Text → List Text → Bool
are_in [] js = true
are_in (k ∷ ks) js = is_in k js && are_in ks js

found_in :
    (k : Text) (cs : List (Text × Setter)) (f : Setter)
    → find_case k cs ≡ some f
    → is_in k (names cs) ≡ true
unfolding find_case
found_in k [] f e = cc
found_in k ((j, g) ∷ cs) f e = elim (Bool-cases (text_eq k j)) [
  | inl t ↦ rw t refl
  | inr n ↦ let rest = found_in k cs f (rw n at e) in ground arith
]

in_all :
    (k : Text) (ks js : List Text) → is_in k ks ≡ true → are_in ks js ≡ true → is_in k js ≡ true
in_all k [] js e h = cc
in_all k (i ∷ ks) js e h = elim (Bool-cases (text_eq k i)) [
  | inl t ↦ ap (λ x. is_in x js) (text_eq→eq k i t) ∙ ground arith
  | inr n ↦ in_all k ks js (ground arith) (ground arith)
]

-- The names of the cases are listed.
cases_listed : (p : Place) → are_in (names (cases p)) supported_keys ≡ true
unfolding cases
cases_listed p = refl

listed :
    (p : Place) (k : Text) (f : Setter)
    → find_case k (cases p) ≡ some f
    → is_in k supported_keys ≡ true
listed p k f e =
    in_all k (names (cases p)) supported_keys (found_in k (cases p) f e) (cases_listed p)

alias_listed :
    (p : Place) (k : Text) (f : Setter)
    → find_case (canonical k) (cases p) ≡ some f
    → is_in k supported_keys ≡ true
unfolding canonical
alias_listed p k f e = elim (Bool-cases (text_eq k (codes "exec_interpreter"))) [
  | inl t ↦ rw (text_eq→eq k (codes "exec_interpreter") t) refl
  | inr n ↦ elim (Bool-cases (text_eq k (codes "node_args"))) [
    | inl t ↦ rw (text_eq→eq k (codes "node_args") t) refl
    | inr m ↦ listed p k f (rw m at (rw n at e))
  ]
]

has_prefix-strip : (p s t : Text) → strip_prefix p s ≡ some t → has_prefix p s ≡ true
unfolding strip_prefix has_prefix
has_prefix-strip [] s t e = refl
has_prefix-strip (c ∷ p) [] t e = cc
has_prefix-strip (c ∷ p) (d ∷ s) t e = elim (Bool-cases (c == d)) [
  | inl q ↦ rw q (has_prefix-strip p s t (rw q at e))
  | inr q ↦ absurd (ground arith)
]

env_supported :
    (k : Text) (v : Value) (d e : Draft)
    → env_case (strip_prefix (codes "env_") k) v d ≡ some e
    → is_supported k ≡ true
env_supported k v d e h = elim (Option-cases (strip_prefix (codes "env_") k)) [
  | inl n ↦ absurd (let q = rw n at h in cc)
  | inr (t, s) ↦ let q = has_prefix-strip (codes "env_") k t s in ground arith
]

case_supported :
    (p : Place) (k : Text) (v : Value) (d e : Draft)
    → case_or_env (find_case (canonical k) (cases p)) k v d ≡ some e
    → is_supported k ≡ true
case_supported p k v d e h = elim (Option-cases (find_case (canonical k) (cases p))) [
  | inl n ↦ env_supported k v d e (rw n at h)
  | inr (f, s) ↦ let q = alias_listed p k f s in ground arith
]

-- A field that is accepted: its value is null, or its key is listed or the name of an env map.
abbrev pub IsAccepted : Text → Value → Type 0
IsAccepted k null = Unit
IsAccepted k v = is_supported k ≡ true

abbrev pub AreAccepted : Fields → Type 0
AreAccepted no_fields = Unit
AreAccepted (field k v fs) = IsAccepted k v × AreAccepted fs

one_key-IsAccepted :
    (p : Place) (k : Text) (v : Value) (d e : Draft) → one_key p k v d ≡ some e → IsAccepted k v
one_key-IsAccepted p k null d e h = tt
one_key-IsAccepted p k other d e h = case_supported p k other d e h
one_key-IsAccepted p k (bool b) d e h = case_supported p k (bool b) d e h
one_key-IsAccepted p k (num n) d e h = case_supported p k (num n) d e h
one_key-IsAccepted p k (str s) d e h = case_supported p k (str s) d e h
one_key-IsAccepted p k (array vs) d e h = case_supported p k (array vs) d e h
one_key-IsAccepted p k (object fs) d e h = case_supported p k (object fs) d e h

parse_keys-AreAccepted :
    (p : Place) (fs : Fields) (d e : Draft) → parse_keys p fs d ≡ some e → AreAccepted fs
unfolding parse_keys
parse_keys-AreAccepted p no_fields d e h = tt
parse_keys-AreAccepted p (field k v fs) d e h = elim (Option-cases (one_key p k v d)) [
  | inl n ↦ absurd (let q = rw n at h in cc)
  | inr (c, s) ↦ (one_key-IsAccepted p k v d c s, parse_keys-AreAccepted p fs c e (rw s at h))
]

-- An app object that is accepted has only keys that the error message lists, or names of env maps,
-- but for keys whose value is null.
pub parse_ecosystem_app-AreAccepted :
    (p : Place) (fs : Fields) (a : EcosystemApp)
    → parse_ecosystem_app p fs ≡ some a
    → AreAccepted fs
unfolding parse_ecosystem_app
parse_ecosystem_app-AreAccepted p fs a h = elim (Option-cases (parse_keys p fs blank)) [
  | inl n ↦ absurd (let q = rw n at h in cc)
  | inr (d, s) ↦ parse_keys-AreAccepted p fs blank d s
]

text_eq_refl : (s : Text) → text_eq s s ≡ true
text_eq_refl [] = refl
text_eq_refl (c ∷ s) = let ih = text_eq_refl s in ground arith

not_both : (i k j : Text) → text_eq i k ≡ false → text_eq i j ≡ true → text_eq k j ≡ false
not_both i k j apart t = elim (Bool-cases (text_eq k j)) [
  | inl u ↦
      let same = ap (λ x. text_eq x k) (text_eq→eq i j t ∙ sym (text_eq→eq k j u)) in
      let whole = text_eq_refl k in absurd (ground arith)
  | inr u ↦ u
]

value_of-put_entry :
    (j k v : Text) (es : Env)
    → value_of j (put_entry k v es) ≡ (if text_eq k j then some v else value_of j es)
unfolding put_entry
value_of-put_entry j k v [] = refl
value_of-put_entry j k v ((i, w) ∷ es) = elim (Bool-cases (text_eq i k)) [
  | inl same ↦ rw same (let q = ap (λ x. text_eq x j) (text_eq→eq i k same) in ground arith)
  | inr apart ↦ rw apart (
      let ih = value_of-put_entry j k v es in
      elim (Bool-cases (text_eq i j)) [
        | inl t ↦ let u = not_both i k j apart t in rw t (rw u refl)
        | inr f ↦ rw f ih
      ])
]

abbrev pub or_base : Option Text → Option Text → Option Text
or_base none base = base
or_base (some v) base = some v

value_of-put_entries :
    (j : Text) (es out : Env)
    → value_of j (put_entries es out) ≡ or_base (value_of j es) (value_of j out)
unfolding put_entries
value_of-put_entries j [] out = refl
value_of-put_entries j ((k, v) ∷ es) out =
    let ih = value_of-put_entries j es out in
    value_of-put_entry j k v (put_entries es out) ∙ ground arith

-- The environment of an app with a selected name gives each key the value of the selected map, and
-- else that of the base map; a name without a map gives the base map.
pub resolve_env-value :
    (a : EcosystemApp) (name k : Text)
    → value_of k (resolve_env a name)
      ≡ or_base (value_of k (env_named name a.envs)) (value_of k a.app.env)
unfolding resolve_env
resolve_env-value a name k =
    let base = value_of-put_entries k a.app.env [] in
    value_of-put_entries k (env_named name a.envs) (put_entries a.app.env []) ∙ ground arith
