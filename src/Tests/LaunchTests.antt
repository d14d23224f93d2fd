-- ===== src/Tests/LaunchTests.antt =====
-- The theorems on what a child is given, at concrete inputs.
use pm.Base.{ℕ, ◌≡◌, refl, some, List, [], ◌∷◌, Text, codes, arith}
use pm.Proc.{sanitize_name, sanitize_runes, is_safe_byte}
use pm.Machine.Env.{build_env}
use pm.Machine.Env.Getenv.{AreKeys, getenv, value_of, or_value, build_env-getenv}
use pm.Machine.Build.{attrib}

-- `PATH` is in both environments.
abbrev outer : List Text
outer = codes "PATH=/bin" ∷ codes "HOME=/root" ∷ []

abbrev extra : List (Text × Text)
extra = (codes "PORT", codes "80") ∷ (codes "PATH", codes "/opt") ∷ []

keys : AreKeys extra
keys = ground arith

build_env-getenv_example :
    getenv (codes "PATH") (build_env outer extra)
    ≡ or_value (value_of (codes "PATH") extra) (codes "PATH") (getenv (codes "PATH") outer)
build_env-getenv_example =
    build_env-getenv (codes "PATH") outer (codes "PORT", codes "80")
      ((codes "PATH", codes "/opt") ∷ []) keys

path_is_replaced :
    or_value (value_of (codes "PATH") extra) (codes "PATH") (getenv (codes "PATH") outer)
    ≡ some (codes "PATH=/opt")
path_is_replaced = refl

abbrev id : ℕ
id = 7

same_marker : attrib (codes "my app") id ≡ attrib (codes "my_app") id
unfolding attrib sanitize_name sanitize_runes is_safe_byte
same_marker = refl
