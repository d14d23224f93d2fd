-- ===== src/Daemon/Expand.antt =====
-- internal/daemon/control.go: the configurations of the instances of an app, at its start and when
-- it is scaled up.
pub mod Family
use pm.Base.{
  ℕ, zero, suc, ◌+◌, Bool, true, false, List, [], ◌∷◌, ◌++◌, Text, codes, text_eq, if◌then◌else◌, ℤ,
  pos, negsuc, pos_part, ltb_ℤ, int_eq, ◌+ℤ◌, wrap64, itoa,
}
use pm.Config.{Config}
use pm.Supervisor.Commands.{AppView}
use pm.Daemon.Select.{instance_index, int_text}

abbrev pub is_cluster : Config → Bool
is_cluster cfg = text_eq cfg.exec_mode (codes "cluster")

-- `fmt.Sprintf("%s-%d", name, i)`.
abbrev pub numbered : Text → ℤ → Text
numbered name i = name ++ (b'-' ∷ int_text i)

-- One instance of a group: it keeps the name in cluster mode, and is numbered in fork mode.
abbrev pub instance_of : Config → ℕ → Config
instance_of cfg i =
    if is_cluster cfg
    then record cfg { instance_index = i }
    else record cfg { name = numbered cfg.name (pos i) }

-- The loop over the instances i, i + 1, ..., `n` of them.
unfoldable pub instances_from : Config → ℕ → ℕ → List Config
instances_from cfg i zero = []
instances_from cfg i (suc n) = instance_of cfg i ∷ instances_from cfg (suc i) n

-- The configurations that `StartProcess` registers.
unfoldable pub expand : Config → List Config
unfolding instances_from
expand cfg =
    if int_eq cfg.instances (pos 1) then cfg ∷ [] else instances_from cfg 0 (pos_part cfg.instances)

abbrev pub max_int : ℤ → ℤ → ℤ
max_int a b = if ltb_ℤ a b then b else a

-- The highest number among the names of the family, -1 where none is numbered.
unfoldable pub max_name_index : Text → List AppView → ℤ → ℤ
max_name_index name [] best = best
max_name_index name (v ∷ vs) best =
    max_name_index name vs (max_int best (instance_index v.app.cfg.name name))

unfoldable pub max_instance : List AppView → ℤ → ℤ
max_instance [] best = best
max_instance (v ∷ vs) best = max_instance vs (max_int best (pos v.app.cfg.instance_index))

unfoldable pub max_index : Text → Config → List AppView → ℤ
unfolding max_name_index max_instance
max_index name base vs =
    let best = max_name_index name vs (negsuc 0) in
    if is_cluster base then max_instance vs best else best

-- A new instance on top of the highest number. Numbers of cluster instances stay below 2 ^ 63.
abbrev pub next_instance : Text → Config → ℤ → ℕ → Config
next_instance name base best i =
    let index = wrap64 (best +ℤ pos i) in
    if is_cluster base
    then record base { instance_index = pos_part index }
    else record base { name = numbered name index }

-- The loop of `ScaleProcess` over i = from, from + 1, ..., `n` of them.
unfoldable pub next_instances : Text → Config → ℤ → ℕ → ℕ → List Config
next_instances name base best from zero = []
next_instances name base best from (suc n) =
    next_instance name base best from ∷ next_instances name base best (suc from) n

-- The configurations that a scale-up by `n` registers: the first instance is cloned.
unfoldable pub scaled_up : Text → AppView → List AppView → ℕ → List Config
unfolding max_index next_instances
scaled_up name first rest n =
    next_instances name first.app.cfg (max_index name first.app.cfg (first ∷ rest)) 1 n
