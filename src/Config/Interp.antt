-- ===== src/Config/Interp.antt =====
-- internal/config/interp.go: which file an app executes, and with which arguments. What the file
-- system and `PATH` answer is a `Files`.
pub mod Resolved
pub mod Targets
use pm.Base.{
  ℕ, Bool, true, false, not, ◌&&◌, ◌||◌, Option, none, some, List, [], ◌∷◌, ◌++◌, map, Text, codes,
  text_eq, is_empty, ℤ, pos, ltb_ℤ, to_lower, trim_space, split, ◌==◌, if◌then◌else◌,
}
use pm.Config.{Config}

-- The first line of a file that can be read and is not empty, `os.Stat`, whether a path is there and
-- no directory, `filepath.Abs`, `exec.LookPath` and `filepath.Join`.
pub record Files : Type 0 where
  pub first_line : Text → Option Text
  pub exists : Text → Bool
  pub is_file : Text → Bool
  pub abs : Text → Option Text
  pub look_path : Text → Option Text
  pub join : Text → Text → Text

pub data Error : Type 0 where
  empty_script bad_exec_mode bad_instances no_interpreter no_abs not_node : Error

pub data Result {ℓ} (A : Type ℓ) : Type ℓ where
  ok : A → Result A
  err : Error → Result A

infixl 5 ◌>>=◌
abbrev pub ◌>>=◌ {ℓ κ} : {A : Type ℓ} {B : Type κ} → Result A → (A → Result B) → Result B
ok a >>= f = f a
err e >>= f = err e

abbrev from_option : Error → Option Text → Result Text
from_option e none = err e
from_option e (some t) = ok t

abbrev pub node : Text
node = codes "node"

-- `extInterpreters`.
abbrev pub ext_interpreters : List (Text × Text)
ext_interpreters =
    (codes ".js", node)
    ∷ (codes ".mjs", node)
    ∷ (codes ".cjs", node)
    ∷ (codes ".py", codes "python3")
    ∷ (codes ".sh", codes "sh")
    ∷ (codes ".bash", codes "bash")
    ∷ (codes ".rb", codes "ruby")
    ∷ (codes ".php", codes "php")
    ∷ (codes ".pl", codes "perl")
    ∷ []

unfoldable pub find_interpreter : Text → List (Text × Text) → Option Text
find_interpreter ext [] = none
find_interpreter ext ((e, interp) ∷ rest) =
    if text_eq e ext then some interp else find_interpreter ext rest

-- Slashes at the end of a path, which `filepath.Base` strips.
abbrev strip_slashes : Text → Text
strip_slashes [] = []
strip_slashes (c ∷ s) =
    let rest = strip_slashes s in if is_empty rest && c == b'/' then [] else c ∷ rest

abbrev last_part : List Text → Text
last_part [] = []
last_part (p ∷ []) = p
last_part (p ∷ q ∷ ps) = last_part (q ∷ ps)

-- `filepath.Base`, but for a path of slashes only and an empty one.
abbrev pub base_of : Text → Text
base_of path = last_part (split b'/' (strip_slashes path))

abbrev has_byte : ℕ → Text → Bool
has_byte c [] = false
has_byte c (d ∷ s) = if d == c then true else has_byte c s

-- `filepath.Ext`: from the last dot of the last component on.
unfoldable pub ext_of : Text → Text
ext_of [] = []
ext_of (c ∷ s) =
    let later = ext_of s in
    if has_byte b'/' s || has_byte b'.' s then later else if c == b'.' then c ∷ s else later

-- `lookPath`.
unfoldable pub look_path : Files → Text → Result Text
look_path fs interp =
    if has_byte b'/' interp
    then (if fs.exists interp then from_option no_abs (fs.abs interp) else err no_interpreter)
    else (from_option no_interpreter (fs.look_path interp) >>= λ bin.
        from_option no_abs (fs.abs bin))

abbrev starts_shebang : Text → Bool
starts_shebang (c ∷ d ∷ s) = (c == b'#') && (d == b'!')
starts_shebang _ = false

-- `hasShebang`.
unfoldable pub has_shebang : Files → Text → Bool
has_shebang fs path = elim (fs.first_line path) [ none ↦ false | some line ↦ starts_shebang line ]

-- What `ResolveInterpreter` returns but for the error.
pub record Target : Type 0 where
  pub exec_path : Text
  pub exec_args : List Text
  pub effective : Text

abbrev pub direct : Target
direct = record { exec_path = []; exec_args = []; effective = codes "none" }

-- `resolveInterpBin`.
unfoldable pub resolve_interp_bin : Files → Text → Text → List Text → Result Target
unfolding look_path
resolve_interp_bin fs interp script interp_args = look_path fs interp >>= λ bin.
    ok (record { exec_path = bin; exec_args = interp_args ++ (script ∷ []); effective = interp })

-- `ResolveInterpreter`.
unfoldable pub resolve_interpreter : Files → Config → Result Target
unfolding resolve_interp_bin has_shebang ext_of find_interpreter
resolve_interpreter fs cfg =
    let explicit = trim_space cfg.interpreter in
    if is_empty explicit
    then (if has_shebang fs cfg.script
        then ok direct
        else elim (find_interpreter (map to_lower (ext_of cfg.script)) ext_interpreters) [
          | none ↦ ok direct
          | some interp ↦ resolve_interp_bin fs interp cfg.script cfg.interpreter_args
        ])
    else if text_eq explicit (codes "none")
    then ok direct
    else resolve_interp_bin fs explicit cfg.script cfg.interpreter_args

-- The switch over the mode.
unfoldable pub check_mode : Text → Result Text
check_mode mode =
    if is_empty mode || text_eq mode (codes "fork")
    then ok (codes "fork")
    else if text_eq mode (codes "cluster")
    then ok (codes "cluster")
    else err bad_exec_mode

abbrev starts_at_root : Text → Bool
starts_at_root [] = false
starts_at_root (c ∷ s) = c == b'/'

-- The absolute path of the script.
unfoldable pub resolve_script : Files → Config → Result Text
resolve_script fs cfg =
    let candidate = if is_empty cfg.cwd then cfg.script else fs.join cfg.cwd cfg.script in
    let found = from_option no_abs (fs.abs candidate) in
    if starts_at_root cfg.script
    then ok cfg.script
    else if fs.is_file candidate || (has_byte b'/' cfg.script || has_byte b'\\' cfg.script)
    then found
    else elim (fs.look_path cfg.script) [ none ↦ found | some bin ↦ ok bin ]

-- The last test: a cluster needs a node interpreter.
unfoldable pub check_node : Text → Target → Result Target
check_node mode t =
    if text_eq mode (codes "cluster")
      && (is_empty t.effective || not (text_eq (base_of (map to_lower t.effective)) node))
    then err not_node
    else ok t

-- The fields that `WithResolvedExec` fills in.
abbrev pub with_exec : Config → Text → Text → Target → Config
with_exec cfg mode script t = record cfg {
  exec_mode = mode;
  script = script;
  exec_path = t.exec_path;
  exec_args = t.exec_args;
  interpreter = t.effective;
}

-- `WithResolvedExec`, from its last test back to its first.
unfoldable pub after_target : Config → Text → Text → Target → Result Config
unfolding check_node
after_target cfg mode script t = check_node mode t >>= λ u. ok (with_exec cfg mode script u)

unfoldable pub after_script : Files → Config → Text → Text → Result Config
unfolding resolve_interpreter
after_script fs cfg mode script =
    resolve_interpreter fs (record cfg { exec_mode = mode; script = script })
    >>= after_target cfg mode script

unfoldable pub after_mode : Files → Config → Text → Result Config
unfolding resolve_script
after_mode fs cfg mode =
    if ltb_ℤ cfg.instances (pos 1)
    then err bad_instances
    else (resolve_script fs (record cfg { exec_mode = mode }) >>= after_script fs cfg mode)

unfoldable pub with_resolved_exec : Files → Config → Result Config
unfolding check_mode
with_resolved_exec fs cfg =
    if is_empty cfg.script
    then err empty_script
    else (check_mode cfg.exec_mode >>= after_mode fs cfg)
