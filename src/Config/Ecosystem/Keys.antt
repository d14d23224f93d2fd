-- ===== src/Config/Ecosystem/Keys.antt =====
-- internal/config/ecosystem.go, `parseEcosystemApp`, `appsFromExports` and `ResolveEnv`: the keys of an
-- app object. The fields of an object are met in the order of Go's range loop, which is arbitrary; no
-- key stands twice. What the file system answers is a `Files`; the texts of errors are left out.
pub mod Accepted
use pm.Base.{
  ℕ, Bool, true, false, not, ◌&&◌, ◌||◌, Option, none, some, List, [], ◌∷◌, Text, codes, text_eq,
  is_empty, ◌==◌, if◌then◌else◌, ℤ, has_prefix, strip_prefix,
}
use pm.Config.{Config, default}
use pm.Config.Interp.{Files}
use pm.Config.Ecosystem.{
  Value, null, array, object, Values, no_more, item, Fields, no_fields, field, Machine, bind,
  js_string, js_bool, js_int, js_instances, js_duration, js_size, js_string_slice, js_int_slice,
  js_env_map,
}

abbrev pub Env : Type 0
Env = List (Text × Text)

-- `EcosystemApp`.
pub record EcosystemApp : Type 0 where
  pub app : Config
  pub envs : List (Text × Env)

-- What the loop over the keys has filled in.
pub record Draft : Type 0 where
  pub app : Config
  pub envs : List (Text × Env)
  pub raw_script : Text

-- The surroundings: the evaluation of numbers, the file system, and the directory of the file.
pub record Place : Type 0 where
  pub machine : Machine
  pub files : Files
  pub dir : Text

abbrev pub Setter : Type 0
Setter = Value → Draft → Option Draft

abbrev pub sets {ℓ} : {A : Type ℓ} → (Value → Option A) → (A → Config → Config) → Setter
sets read put v d = bind (read v) (λ a. some (record d { app = put a d.app }))

abbrev pub is_abs : Text → Bool
is_abs s = has_prefix (codes "/") s

-- A relative path is taken from the directory of the file.
abbrev pub in_dir : Place → Text → Text
in_dir p s = if is_empty s || is_abs s then s else p.files.join p.dir s

abbrev pub script_setter : Setter
script_setter v d = bind (js_string v) (λ s. some (record d { raw_script = s }))

-- The cases of the switch, by the canonical key.
unfoldable pub cases : Place → List (Text × Setter)
cases p =
    (codes "name", sets js_string (λ s c. record c { name = s }))
    ∷ (codes "script", script_setter)
    ∷ (codes "args", sets js_string_slice (λ s c. record c { args = s }))
    ∷ (codes "interpreter", sets js_string (λ s c. record c { interpreter = s }))
    ∷ (codes "interpreter_args", sets js_string_slice (λ s c. record c { interpreter_args = s }))
    ∷ (codes "exec_mode", sets js_string (λ s c. record c { exec_mode = s }))
    ∷ (codes "instances", sets (js_instances p.machine) (λ n c. record c { instances = n }))
    ∷ (codes "namespace", sets js_string (λ s c. record c { namespace = s }))
    ∷ (codes "cwd", sets js_string (λ s c. record c { cwd = in_dir p s }))
    ∷ (codes "autorestart", sets js_bool (λ b c. record c { autorestart = b }))
    ∷ (codes "max_restarts", sets (js_int p.machine) (λ n c. record c { max_restarts = n }))
    ∷ (codes "min_uptime", sets (js_duration p.machine) (λ n c. record c { min_uptime = n }))
    ∷ (codes "restart_delay", sets (js_duration p.machine) (λ n c. record c { restart_delay = n }))
    ∷ (
      codes "exp_backoff_restart_delay",
      sets (js_duration p.machine) (λ n c. record c { exp_backoff_restart_delay = n }),
    )
    ∷ (
      codes "stop_exit_codes",
      sets (js_int_slice p.machine) (λ n c. record c { stop_exit_codes = n }),
    )
    ∷ (
      codes "max_memory_restart",
      sets (js_size p.machine) (λ n c. record c { max_memory_restart = n }),
    )
    ∷ (codes "kill_signal", sets js_string (λ s c. record c { kill_signal = s }))
    ∷ (codes "kill_timeout", sets (js_duration p.machine) (λ n c. record c { kill_timeout = n }))
    ∷ (
      codes "listen_timeout",
      sets (js_duration p.machine) (λ n c. record c { listen_timeout = n }),
    )
    ∷ (codes "wait_ready", sets js_bool (λ b c. record c { wait_ready = b }))
    ∷ (codes "cron_restart", sets js_string (λ s c. record c { cron_restart = s }))
    ∷ (codes "watch", sets js_bool (λ b c. record c { watch = b }))
    ∷ (codes "treekill", sets js_bool (λ b c. c))
    ∷ (codes "time", sets js_bool (λ b c. record c { time = b }))
    ∷ (codes "log_date_format", sets js_string (λ s c. record c { log_date_format = s }))
    ∷ (codes "out_file", sets js_string (λ s c. record c { out_file = in_dir p s }))
    ∷ (codes "error_file", sets js_string (λ s c. record c { error_file = in_dir p s }))
    ∷ (codes "pid_file", sets js_string (λ s c. record c { pid_file = in_dir p s }))
    ∷ (codes "merge_logs", sets js_bool (λ b c. record c { merge_logs = b }))
    ∷ (
      codes "log_rotate_max_bytes",
      sets (js_size p.machine) (λ n c. record c { log_rotate_max_bytes = n }),
    )
    ∷ (
      codes "log_rotate_retain",
      sets (js_int p.machine) (λ n c. record c { log_rotate_retain = n }),
    )
    ∷ (codes "health_check_cmd", sets js_string (λ s c. record c { health_check_cmd = s }))
    ∷ (
      codes "health_check_interval",
      sets (js_duration p.machine) (λ n c. record c { health_check_interval = n }),
    )
    ∷ (
      codes "health_check_timeout",
      sets (js_duration p.machine) (λ n c. record c { health_check_timeout = n }),
    )
    ∷ (
      codes "health_check_retries",
      sets (js_int p.machine) (λ n c. record c { health_check_retries = n }),
    )
    ∷ (codes "env", sets js_env_map (λ e c. record c { env = e }))
    ∷ []

unfoldable pub find_case : Text → List (Text × Setter) → Option Setter
find_case k [] = none
find_case k ((j, f) ∷ cs) = if text_eq k j then some f else find_case k cs

-- `ecosystemAliases`.
unfoldable pub canonical : Text → Text
canonical k =
    if text_eq k (codes "exec_interpreter")
    then codes "interpreter"
    else if text_eq k (codes "node_args")
    then codes "interpreter_args"
    else k

-- The default case: the maps env_<name>; other keys are errors.
abbrev pub env_case : Option Text → Setter
env_case none v d = none
env_case (some name) v d = bind (js_env_map v) (λ e. some (record d { envs = (name, e) ∷ d.envs }))

abbrev pub case_or_env : Option Setter → Text → Setter
case_or_env none k v d = env_case (strip_prefix (codes "env_") k) v d
case_or_env (some f) k v d = f v d

-- One round of the loop: null is as good as absent.
abbrev pub one_key : Place → Text → Setter
one_key p k null d = some d
one_key p k v d = case_or_env (find_case (canonical k) (cases p)) k v d

unfoldable pub parse_keys : Place → Fields → Draft → Option Draft
unfolding find_case canonical cases
parse_keys p no_fields d = some d
parse_keys p (field k v fs) d = bind (one_key p k v d) (λ e. parse_keys p fs e)

-- Where the script is: in the working directory, in the directory of the file, or on PATH.
unfoldable pub has_slash : Text → Bool
has_slash [] = false
has_slash (c ∷ s) = c == b'/' || c == 92 || has_slash s

abbrev pub path_or : Option Text → Text → Text
path_or none fallback = fallback
path_or (some bin) fallback = bin

unfoldable pub script_path : Place → Text → Text → Text
unfolding has_slash
script_path p cwd raw =
    let from_dir = p.files.join p.dir raw in
    if is_abs raw
    then raw
    else if not (is_empty cwd) && p.files.is_file (p.files.join cwd raw)
    then p.files.join cwd raw
    else if p.files.is_file from_dir
    then from_dir
    else if has_slash raw
    then from_dir
    else path_or (p.files.look_path raw) from_dir

abbrev pub finish : Place → Draft → Option EcosystemApp
finish p d =
    if is_empty d.raw_script
    then none
    else some (record {
      app = record d.app { script = script_path p d.app.cwd d.raw_script };
      envs = d.envs;
    })

abbrev pub blank : Draft
blank = record { app = default; envs = []; raw_script = [] }

-- `parseEcosystemApp`.
unfoldable pub parse_ecosystem_app : Place → Fields → Option EcosystemApp
unfolding default parse_keys script_path
parse_ecosystem_app p fs = bind (parse_keys p fs blank) (finish p)

-- `appsFromExports`.
unfoldable pub field_of : Text → Fields → Option Value
field_of k no_fields = none
field_of k (field j v fs) = if text_eq j k then some v else field_of k fs

abbrev pub cons_app : Option EcosystemApp → Option (List EcosystemApp) → Option (List EcosystemApp)
cons_app none rest = none
cons_app (some a) none = none
cons_app (some a) (some rest) = some (a ∷ rest)

abbrev pub app_of : Place → Value → Option EcosystemApp
app_of p (object fs) = parse_ecosystem_app p fs
app_of p _ = none

unfoldable pub apps_of : Place → Values → Option (List EcosystemApp)
unfolding parse_ecosystem_app
apps_of p no_more = some []
apps_of p (item v vs) = cons_app (app_of p v) (apps_of p vs)

abbrev pub apps_value : Place → Value → Option (List EcosystemApp)
apps_value p (array (item v vs)) = apps_of p (item v vs)
apps_value p (array no_more) = none
apps_value p _ = none

abbrev pub single : Place → Fields → Option Value → Option (List EcosystemApp)
single p raw none = none
single p raw (some v) = cons_app (parse_ecosystem_app p raw) (some [])

abbrev pub apps_or_single : Place → Fields → Option Value → Option (List EcosystemApp)
apps_or_single p raw (some v) = apps_value p v
apps_or_single p raw none = single p raw (field_of (codes "script") raw)

unfoldable pub apps_from_exports : Place → Fields → Option (List EcosystemApp)
unfolding field_of apps_of
apps_from_exports p raw = apps_or_single p raw (field_of (codes "apps") raw)

-- `ResolveEnv`: the entries of the selected map replace those of the base.
unfoldable pub put_entry : Text → Text → Env → Env
put_entry k v [] = (k, v) ∷ []
put_entry k v ((j, w) ∷ es) = if text_eq j k then (k, v) ∷ es else (j, w) ∷ put_entry k v es

unfoldable pub put_entries : Env → Env → Env
unfolding put_entry
put_entries [] out = out
put_entries ((k, v) ∷ es) out = put_entry k v (put_entries es out)

unfoldable pub env_named : Text → List (Text × Env) → Env
env_named name [] = []
env_named name ((j, e) ∷ es) = if text_eq j name then e else env_named name es

unfoldable pub resolve_env : EcosystemApp → Text → Env
unfolding put_entries env_named
resolve_env a name = put_entries (env_named name a.envs) (put_entries a.app.env [])
