-- ===== src/Daemon/Scale.antt =====
-- internal/daemon/control.go: the handlers of the requests that start and scale apps. The log routes
-- (ensureRoutesFor, closeRoute) and the texts of errors are left out.
pub mod Shared
use pm.Base.{
  ℕ, zero, suc, Bool, true, false, Option, none, some, List, [], ◌∷◌, ◌++◌, length, take, Text,
  codes, is_empty, leb, if◌then◌else◌, ℤ, pos, negsuc, itoa,
}
use mathlib.Core.List.{reverse}
use pm.Config.{Config}
use pm.Config.Interp.{Files, Result, ok, err, with_resolved_exec}
use pm.Cluster.{Cache, check_node_version}
use pm.Machine.State.{World}
use pm.Supervisor.Registry.{Error, Registry, start_apps}
use pm.Supervisor.Commands.{AppView, describe, delete_app}
use pm.Daemon.Convert.{ProcessSpec, spec_to_config, fill_paths}
use pm.Daemon.Select.{resolve_name_family}
use pm.Daemon.Expand.{expand, scaled_up, is_cluster}
use pm.Daemon.Control.{Fault, invalid, missing, internal, Reply, refuse, for_each}

-- The surroundings of the daemon: the file system, the output of a node binary, filepath.Join, the
-- home of the daemon, and the worlds in which each app is started.
pub record Host : Type 0 where
  pub files : Files
  pub node_version : Text → Option Text
  pub join : List Text → Text
  pub home : Text
  pub worlds : ℕ → World

-- The daemon: its registry and the versions of node that it has probed.
pub record Server : Type 0 where
  pub registry : Registry
  pub versions : Cache

abbrev pub with_registry : Server → Registry → Server
with_registry s r = record s { registry = r }

abbrev pub internal_or_none : Option Error → Option Fault
internal_or_none none = none
internal_or_none (some e) = some (internal e)

-- The apps that are answered: the ids that an app was registered under.
abbrev pub is_registered : ℤ → Registry → Bool
is_registered (negsuc n) r = false
is_registered (pos id) r = elim (describe (itoa id) r) [ none ↦ false | some v ↦ true ]

-- `infosFor`, by the ids of what it answers.
unfoldable pub infos_for : List ℤ → Registry → List ℤ
infos_for [] r = []
infos_for (id ∷ ids) r = if is_registered id r then id ∷ infos_for ids r else infos_for ids r

-- `toI32`: the slots that no app was built for are left out.
unfoldable pub to_i32 : List ℤ → List ℤ
to_i32 [] = []
to_i32 (pos id ∷ ids) = pos id ∷ to_i32 ids
to_i32 (negsuc n ∷ ids) = to_i32 ids

module _ (h : Host) where
  abbrev pub fill : Config → ℕ → Config
  fill cfg id = fill_paths h.home h.join cfg id

  -- Cluster mode wants a node that is new enough.
  abbrev pub check_cluster : Config → Cache → Cache × Bool
  check_cluster cfg c =
      if is_cluster cfg then check_node_version h.node_version cfg.exec_path c else (c, true)

  abbrev pub checked : Config → Cache × Bool → Cache × Option Config
  checked cfg (c, true) = (c, some cfg)
  checked cfg (c, false) = (c, none)

  abbrev pub resolved : Result Config → Cache → Cache × Option Config
  resolved (err e) c = (c, none)
  resolved (ok cfg) c = checked cfg (check_cluster cfg c)

  -- The checks in front of the registration of a spec.
  abbrev pub prepare : ProcessSpec → Cache → Cache × Option Config
  prepare sp c =
      if is_empty (spec_to_config sp).script
      then (c, none)
      else resolved (with_resolved_exec h.files (spec_to_config sp)) c

  -- The registration of the instances of one spec, with what the earlier specs have answered.
  abbrev pub Started : Type 0
  Started = Registry × List ℤ × Option Error

  abbrev pub answer_batch : List ℤ → Started → Registry × List ℤ × Option Fault
  answer_batch before (r, ids, e) = (r, before ++ infos_for ids r, internal_or_none e)

  abbrev pub start_instances : Config → List ℤ → Registry → Registry × List ℤ × Option Fault
  start_instances cfg before r = answer_batch before (start_apps h.worlds fill (expand cfg) r)

  abbrev pub fault_reply : List ℤ → Option Fault → Reply
  fault_reply ids f = record { affected = ids; fault = f }

  -- The loop of `StartProcess`. A spec that does not pass its checks ends it without a response, also
  -- where earlier specs have been registered; a failed batch ends it with the response so far.
  abbrev pub Progress : Type 0
  Progress = Server × Reply

  abbrev pub next_spec :
      (List ℤ → Server → Progress) → Cache → Registry × List ℤ × Option Fault → Progress
  next_spec rest c (r, ids, none) = rest ids (record { registry = r; versions = c })
  next_spec rest c (r, ids, some f) =
      (record { registry = r; versions = c }, fault_reply ids (some f))

  abbrev pub if_prepared :
      (List ℤ → Server → Progress) → List ℤ → Registry → Cache × Option Config → Progress
  if_prepared rest before r (c, none) = (record { registry = r; versions = c }, refuse invalid)
  if_prepared rest before r (c, some cfg) = next_spec rest c (start_instances cfg before r)

  unfoldable pub start_specs : List ProcessSpec → List ℤ → Server → Progress
  unfolding infos_for
  start_specs [] before s = (s, fault_reply before none)
  start_specs (sp ∷ sps) before s =
      if_prepared (start_specs sps) before s.registry (prepare sp s.versions)

  -- `StartProcess`.
  unfoldable pub start_process : List ProcessSpec → Server → Progress
  unfolding start_specs
  start_process specs s = start_specs specs [] s

  -- The scale-up by `n`: a failed batch is answered with the ids of the apps that were built.
  abbrev pub answer_ids : Cache → Started → Progress
  answer_ids c (r, ids, e) =
      (record { registry = r; versions = c }, fault_reply (to_i32 ids) (internal_or_none e))

  abbrev pub grow : Text → AppView → List AppView → ℕ → Server → Cache × Bool → Progress
  grow name first rest n s (c, false) = (record s { versions = c }, refuse invalid)
  grow name first rest n s (c, true) =
      answer_ids c (start_apps h.worlds fill (scaled_up name first rest n) s.registry)

  -- The scale-down by `n`, last ids first.
  abbrev pub in_server : Server → Registry × Reply → Progress
  in_server s (r, y) = (record s { registry = r }, y)

  abbrev pub shrink : World → List AppView → ℕ → Server → Progress
  shrink w vs n s =
      if leb (length vs) n
      then (s, refuse invalid)
      else in_server s (for_each (delete_app w) (take n (reverse vs)) s.registry)

  unfoldable pub id_list : List AppView → List ℤ
  id_list [] = []
  id_list (v ∷ vs) = pos v.id ∷ id_list vs

  abbrev pub by_delta : World → Text → AppView → List AppView → ℤ → Server → Progress
  by_delta w name first rest (pos zero) s = (s, fault_reply (id_list (first ∷ rest)) none)
  by_delta w name first rest (pos (suc n)) s =
      grow name first rest (suc n) s (check_cluster first.app.cfg s.versions)
  by_delta w name first rest (negsuc n) s = shrink w (first ∷ rest) (suc n) s

  abbrev pub scale_family : World → Text → List AppView → ℤ → Server → Progress
  scale_family w name [] delta s = (s, refuse missing)
  scale_family w name (v ∷ vs) delta s = by_delta w name v vs delta s

  -- `ScaleProcess`.
  unfoldable pub scale_process : World → Text → ℤ → Server → Progress
  unfolding to_i32 id_list
  scale_process w name delta s =
      if is_empty name
      then (s, refuse invalid)
      else scale_family w name (resolve_name_family name s.registry) delta s
