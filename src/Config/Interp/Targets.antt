-- ===== src/Config/Interp/Targets.antt =====
-- internal/config/interp.go, `ResolveInterpreter` and the path of the script: the proofs on what is
-- executed.
use mathlib.Core.Path.{subst}
use pm.Base.{
  ◌≡◌, ◌⊎◌, inl, inr, refl, sym, ap, ◌∙◌, Bool, true, false, Bool-cases, ◌||◌, Option, none, some,
  Option-cases, if◌then◌else◌, arith, [], ◌∷◌, ◌++◌, Text, codes, text_eq, is_empty, map, to_lower,
  trim_space,
}
use pm.Config.{Config}
use pm.Config.Interp.{
  Files, Error, no_abs, no_interpreter, from_option, has_byte, starts_at_root, Result, ok, err,
  ◌>>=◌, Target, direct, look_path, resolve_interp_bin, resolve_interpreter, resolve_script,
  has_shebang, find_interpreter, ext_of, ext_interpreters,
}

pub bind-ok {ℓ κ} :
    {A : Type ℓ} {B : Type κ} (a : Result A) (f : A → Result B) (y : B)
    → (a >>= f) ≡ ok y
    → (x : A) × (a ≡ ok x) × (f x ≡ ok y)
bind-ok (ok x) f y h = (x, refl, h)
bind-ok (err e) f y h = cc

abbrev value_or {ℓ} : {A : Type ℓ} → A → Result A → A
value_or x (ok y) = y
value_or x (err e) = x

pub ok-inj {ℓ} : {A : Type ℓ} (x y : A) → ok x ≡ ok y → x ≡ y
ok-inj x y h = ap (value_or x) h

from_option-ok : (e : Error) (o : Option Text) (x : Text) → from_option e o ≡ ok x → o ≡ some x
from_option-ok e none x h = cc
from_option-ok e (some y) x h = ap some (ok-inj y x h)

-- The interpreter's file: an existing path of its own, or one of `PATH`, made absolute.
abbrev pub IsFound : Files → Text → Text → Type 0
IsFound fs interp bin =
    (fs.exists interp ≡ true) × (fs.abs interp ≡ some bin)
    ⊎ ((p : Text) × (fs.look_path interp ≡ some p) × (fs.abs p ≡ some bin))

look_path-IsFound :
    (fs : Files) (interp bin : Text) → look_path fs interp ≡ ok bin → IsFound fs interp bin
unfolding look_path
look_path-IsFound fs interp bin h = elim (Bool-cases (has_byte b'/' interp)) [
  | inl slash ↦ elim (Bool-cases (fs.exists interp)) [
    | inl there ↦
        inl (there, from_option-ok no_abs (fs.abs interp) bin (rw there at (rw slash at h)))
    | inr gone ↦ let refused = rw gone at (rw slash at h) in cc
  ]
  | inr plain ↦
      let (p, e, k) =
        bind-ok (from_option no_interpreter (fs.look_path interp))
          (λ p. from_option no_abs (fs.abs p)) bin (rw plain at h) in
      inr (
        p,
        from_option-ok no_interpreter (fs.look_path interp) p e,
        from_option-ok no_abs (fs.abs p) bin k,
      )
]

-- The interpreter of an extension.
abbrev pub by_extension : Text → Option Text
by_extension script = find_interpreter (map to_lower (ext_of script)) ext_interpreters

-- The interpreter that is given, or the one of the extension where the script has no shebang.
abbrev pub IsChosen : Files → Text → Text → Text → Type 0
IsChosen fs given script interp =
    (is_empty (trim_space given) ≡ false) × (interp ≡ trim_space given)
    ⊎ (is_empty (trim_space given) ≡ true)
      × (has_shebang fs script ≡ false)
      × (by_extension script ≡ some interp)

-- None is asked for, or none is given and the script has a shebang or an extension of no interpreter.
abbrev pub IsAlone : Files → Text → Text → Type 0
IsAlone fs given script =
    (text_eq (trim_space given) (codes "none") ≡ true)
    ⊎ (is_empty (trim_space given) ≡ true)
      × ((has_shebang fs script ≡ true) ⊎ (by_extension script ≡ none))

-- A target: direct execution, or an interpreter with the script behind its arguments.
abbrev pub Runs : Files → Config → Text → Target → Type 0
Runs fs cfg script t =
    (t ≡ direct) × IsAlone fs cfg.interpreter script
    ⊎ (t.exec_args ≡ cfg.interpreter_args ++ (script ∷ []))
      × IsFound fs t.effective t.exec_path
      × IsChosen fs cfg.interpreter script t.effective

resolve_interp_bin-Runs :
    (fs : Files) (interp : Text) (cfg : Config) (t : Target)
    → IsChosen fs cfg.interpreter cfg.script interp
    → resolve_interp_bin fs interp cfg.script cfg.interpreter_args ≡ ok t
    → Runs fs cfg cfg.script t
unfolding resolve_interp_bin
resolve_interp_bin-Runs fs interp cfg t chosen h =
    let target : Text → Target = λ bin. record {
      exec_path = bin;
      exec_args = cfg.interpreter_args ++ (cfg.script ∷ []);
      effective = interp;
    } in
    let (bin, e, k) = bind-ok (look_path fs interp) (λ bin. ok (target bin)) t h in
    inr (
      subst
        (λ (u : Target).
          (u.exec_args ≡ cfg.interpreter_args ++ (cfg.script ∷ []))
          × IsFound fs u.effective u.exec_path
          × IsChosen fs cfg.interpreter cfg.script u.effective)
        (ok-inj (target bin) t k) (refl, look_path-IsFound fs interp bin e, chosen))

pub resolve_interpreter-Runs :
    (fs : Files) (cfg : Config) (t : Target)
    → resolve_interpreter fs cfg ≡ ok t
    → Runs fs cfg cfg.script t
unfolding resolve_interpreter
resolve_interpreter-Runs fs cfg t h = elim (Bool-cases (is_empty (trim_space cfg.interpreter))) [
  | inl auto ↦ elim (Bool-cases (has_shebang fs cfg.script)) [
    | inl shebang ↦
        inl (sym (ok-inj direct t (rw shebang at (rw auto at h))), inr (auto, inl shebang))
    | inr plain ↦ elim (Option-cases (by_extension cfg.script)) [
      | inl unknown ↦ inl (
        sym (ok-inj direct t (rw unknown at (rw plain at (rw auto at h)))),
        inr (auto, inr unknown),
      )
      | inr (interp, known) ↦
          resolve_interp_bin-Runs fs interp cfg t (inr (auto, plain, known))
            (rw known at (rw plain at (rw auto at h)))
    ]
  ]
  | inr explicit ↦ elim (Bool-cases (text_eq (trim_space cfg.interpreter) (codes "none"))) [
    | inl none_given ↦
        inl (sym (ok-inj direct t (rw none_given at (rw explicit at h))), inl none_given)
    | inr given ↦
        resolve_interp_bin-Runs fs (trim_space cfg.interpreter) cfg t (inl (explicit, refl))
          (rw given at (rw explicit at h))
  ]
]

-- The script under the cwd.
abbrev pub under_cwd : Files → Config → Text
under_cwd fs cfg = if is_empty cfg.cwd then cfg.script else fs.join cfg.cwd cfg.script

-- The file of the script: itself where it is absolute, else the one under the cwd, made absolute, or
-- the one of `PATH` where the cwd has none and the script is a bare name.
abbrev pub IsScript : Files → Config → Text → Type 0
IsScript fs cfg script =
    (starts_at_root cfg.script ≡ true) × (script ≡ cfg.script)
    ⊎ ((starts_at_root cfg.script ≡ false) × (fs.abs (under_cwd fs cfg) ≡ some script)
        ⊎ (starts_at_root cfg.script ≡ false)
          × (fs.is_file (under_cwd fs cfg) ≡ false)
          × (has_byte b'/' cfg.script ≡ false)
          × (fs.look_path cfg.script ≡ some script))

bare : (a b c : Bool) → (a || (b || c)) ≡ false → (a ≡ false) × (b ≡ false)
bare a b c h = ground arith

pub resolve_script-IsScript :
    (fs : Files) (cfg : Config) (script : Text)
    → resolve_script fs cfg ≡ ok script
    → IsScript fs cfg script
unfolding resolve_script
resolve_script-IsScript fs cfg script h = elim (Bool-cases (starts_at_root cfg.script)) [
  | inl root ↦ inl (root, sym (ok-inj cfg.script script (rw root at h)))
  | inr relative ↦
      elim (Bool-cases (
        fs.is_file (under_cwd fs cfg) || (has_byte b'/' cfg.script || has_byte b'\\' cfg.script))) [
          | inl here ↦ inr (
              inl (
                relative,
                from_option-ok no_abs (fs.abs (under_cwd fs cfg)) script
                    (rw here at (rw relative at h)),
              ))
          | inr elsewhere ↦ elim (Option-cases (fs.look_path cfg.script)) [
            | inl missing ↦ inr (
                inl (
                  relative,
                  from_option-ok no_abs (fs.abs (under_cwd fs cfg)) script
                      (rw missing at (rw elsewhere at (rw relative at h))),
                ))
            | inr (bin, found) ↦
                let (no_file, no_slash) = bare _ _ _ elsewhere in
                let same = ok-inj bin script (rw found at (rw elsewhere at (rw relative at h))) in
                inr (inr (relative, no_file, no_slash, found ∙ ap some same))
          ]
        ]
]
