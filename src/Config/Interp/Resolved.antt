-- ===== src/Config/Interp/Resolved.antt =====
-- internal/config/interp.go, `WithResolvedExec`: the proofs on a configuration that it accepts.
use pm.Base.{◌≡◌, ◌⊎◌, true, [], ◌∷◌, ◌++◌, Text, codes, text_eq, map, to_lower, pos, ◌≤ℤ◌}
use pm.Config.{Config}
use pm.Config.Interp.{Files, node, base_of}
use pm.Config.Interp.Targets.{IsFound, IsChosen, IsAlone, IsScript}

-- The mode that is left, and what a cluster needs.
abbrev pub IsMode : Text → Text → Type 0
IsMode mode effective =
    (mode ≡ codes "fork")
    ⊎ ((mode ≡ codes "cluster") × (text_eq (base_of (map to_lower effective)) node ≡ true))

-- What a configuration that is accepted says.
pub record IsResolved (fs : Files) (cfg out : Config) : Type 0 where
  pub mode : IsMode out.exec_mode out.interpreter
  pub instances : (out.instances ≡ cfg.instances) × (pos 1 ≤ℤ out.instances)
  pub script : IsScript fs cfg out.script
  pub runs :
      ((out.interpreter ≡ codes "none") × (out.exec_path ≡ []) × (out.exec_args ≡ []))
        × IsAlone fs cfg.interpreter out.script
      ⊎ (out.exec_args ≡ cfg.interpreter_args ++ (out.script ∷ []))
        × IsFound fs out.interpreter out.exec_path
        × IsChosen fs cfg.interpreter out.script out.interpreter
  pub env : out.env ≡ cfg.env
