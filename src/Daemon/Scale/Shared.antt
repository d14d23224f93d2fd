-- ===== src/Daemon/Scale/Shared.antt =====
-- internal/daemon/control.go and convert.go, `ScaleProcess`: the proofs on the files of new instances
-- and on the apps that are left.
use pm.Base.{
  ℕ, zero, suc, ◌≡◌, refl, false, Bool-cases, inl, inr, List, ◌∷◌, All, Text, is_empty, ℤ, arith,
}
use pm.Config.{Config}
use pm.Supervisor.Commands.{AppView}
use pm.Daemon.Convert.{Sinks, complete, fill_paths}
use pm.Daemon.Expand.{is_cluster, next_instance, next_instances, scaled_up, max_index}

-- The files of an app that has been registered are given.
pub record HasFiles (cfg : Config) : Type 0 where
  pub out : is_empty cfg.out_file ≡ false
  pub err : is_empty cfg.error_file ≡ false
  pub pid : is_empty cfg.pid_file ≡ false

abbrev pub HaveSameFiles : Config → Config → Type 0
HaveSameFiles a b =
    (a.out_file ≡ b.out_file) × (a.error_file ≡ b.error_file) × (a.pid_file ≡ b.pid_file)

complete-HaveSameFiles :
    (cfg base : Config) (s : Sinks)
    → HaveSameFiles cfg base
    → HasFiles base
    → HaveSameFiles (complete cfg s) base
complete-HaveSameFiles cfg base s same h =
    let (so, se, sp) = same in
    let o = h.out in let e = h.err in let p = h.pid in (ground arith, ground arith, ground arith)

next_instance-HaveSameFiles :
    (name : Text) (base : Config) (best : ℤ) (i : ℕ)
    → HaveSameFiles (next_instance name base best i) base
next_instance-HaveSameFiles name base best i = elim (Bool-cases (is_cluster base)) [
  | inl c ↦ rw c (refl, refl, refl)
  | inr c ↦ rw c (refl, refl, refl)
]

module _ (home : Text) (join : List Text → Text) (id : ℕ) where
  next_instance-files :
      (name : Text) (base : Config) (best : ℤ) (i : ℕ)
      → HasFiles base
      → HaveSameFiles (fill_paths home join (next_instance name base best i) id) base
  unfolding fill_paths
  next_instance-files name base best i h =
      complete-HaveSameFiles (next_instance name base best i) base _
        (next_instance-HaveSameFiles name base best i) h

  next_instances-files :
      (name : Text) (base : Config) (best : ℤ) (from n : ℕ)
      → HasFiles base
      → All
          (λ c. HaveSameFiles (fill_paths home join c id) base)
          (next_instances name base best from n)
  unfolding next_instances
  next_instances-files name base best from zero h = tt
  next_instances-files name base best from (suc n) h = (
    next_instance-files name base best from h,
    next_instances-files name base best (suc from) n h,
  )

-- A scale-up clones the configuration of the first instance with the files that were filled in for
-- it: every new instance, whatever its name and id, gets the output, the error and the pid file of
-- the first instance in place of its own.
pub scaled_up-HaveSameFiles :
    (home : Text) (join : List Text → Text) (id n : ℕ) (name : Text) (first : AppView)
    (rest : List AppView)
    → HasFiles first.app.cfg
    → All
        (λ c. HaveSameFiles (fill_paths home join c id) first.app.cfg)
        (scaled_up name first rest n)
unfolding scaled_up
scaled_up-HaveSameFiles home join id n name first rest h =
    next_instances-files home join id name first.app.cfg
      (max_index name first.app.cfg (first ∷ rest)) 1 n h
