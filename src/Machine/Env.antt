-- ===== src/Machine/Env.antt =====
-- internal/machine/machine.go, `buildEnv` and the command line of `launch`: what a child is given.
pub mod Getenv
use pm.Base.{
  Bool, true, false, not, ◌&&◌, List, [], ◌∷◌, ◌++◌, Text, codes, text_eq, is_empty, ltb, ◌==◌,
  if◌then◌else◌, itoa,
}
use pm.Config.{Config}
use pm.Proc.{Spec}
use pm.Machine.State.{App}
use pm.Machine.Signals.{parse_kill_signal}

-- The key of an environment entry: what stands before the first `=`.
unfoldable pub key_of : Text → Text
key_of [] = []
key_of (c ∷ s) = let rest = key_of s in if c == b'=' then [] else c ∷ rest

-- The order of Go's strings, byte by byte.
unfoldable pub text_le : Text → Text → Bool
text_le [] t = true
text_le (c ∷ s) [] = false
text_le (c ∷ s) (d ∷ t) =
    let rest = text_le s t in if ltb c d then true else if c == d then rest else false

-- A stable sort of the entries by key, for `sort.Strings` over the keys of a map.
unfoldable pub insert_entry : Text × Text → List (Text × Text) → List (Text × Text)
unfolding text_le
insert_entry (k, v) [] = (k, v) ∷ []
insert_entry (k, v) ((j, w) ∷ rest) =
    let after = insert_entry (k, v) rest in
    if text_le k j then (k, v) ∷ (j, w) ∷ rest else (j, w) ∷ after

unfoldable pub sort_entries : List (Text × Text) → List (Text × Text)
unfolding insert_entry
sort_entries [] = []
sort_entries (e ∷ es) = insert_entry e (sort_entries es)

unfoldable pub has_key : Text → List (Text × Text) → Bool
has_key k [] = false
has_key k ((j, v) ∷ rest) = if text_eq j k then true else has_key k rest

-- The inherited entries whose key is not replaced.
unfoldable pub keep_base : List (Text × Text) → List Text → List Text
unfolding has_key key_of
keep_base extra [] = []
keep_base extra (kv ∷ base) =
    let rest = keep_base extra base in if has_key (key_of kv) extra then rest else kv ∷ rest

unfoldable pub pairs : List (Text × Text) → List Text
pairs [] = []
pairs ((k, v) ∷ rest) = (k ++ codes "=" ++ v) ∷ pairs rest

-- `buildEnv`; the empty list stands for `nil`.
unfoldable pub build_env : List Text → List (Text × Text) → List Text
unfolding keep_base pairs sort_entries
build_env base extra =
    if is_empty extra then [] else keep_base extra base ++ pairs (sort_entries extra)

-- The preload in front of the last argument.
unfoldable pub require_preload : Text → List Text → List Text
require_preload preload [] = []
require_preload preload (x ∷ []) = codes "--require" ∷ preload ∷ x ∷ []
require_preload preload (x ∷ y ∷ rest) = x ∷ require_preload preload (y ∷ rest)

unfoldable pub is_cluster : Config → Bool
is_cluster cfg = text_eq cfg.exec_mode (codes "cluster")

unfoldable pub launch_args : App → List Text
unfolding require_preload is_cluster
launch_args a =
    let argv = a.cfg.exec_args ++ a.cfg.args in
    if is_cluster a.cfg && not (is_empty a.preload_path)
    then require_preload a.preload_path argv
    else argv

unfoldable pub launch_env : List Text → App → List Text
unfolding build_env is_cluster
launch_env environ a =
    let env = build_env environ a.cfg.env in
    if is_cluster a.cfg
    then (if is_empty env then environ else env)
      ++ ((codes "NODE_APP_INSTANCE=" ++ itoa a.cfg.instance_index) ∷ [])
    else env

-- The `proc.Spec` that `launch` builds.
unfoldable pub launch_spec : List Text → App → Spec
unfolding launch_args launch_env parse_kill_signal
launch_spec environ a = record {
  name = a.attrib;
  bin_path = if is_empty a.cfg.exec_path then a.cfg.script else a.cfg.exec_path;
  args = launch_args a;
  env = launch_env environ a;
  cwd = a.cfg.cwd;
  kill_signal = parse_kill_signal a.cfg.kill_signal;
  kill_timeout = a.cfg.kill_timeout;
  out_file = a.cfg.out_file;
  err_file = a.cfg.error_file;
}
