-- ===== src/Ops/Sync.antt =====
-- internal/ops/ops.go, `Sync` and `Stop`: the set of the runners.
pub mod Runners
use pm.Base.{
  ℕ, Bool, true, false, not, Option, none, some, List, [], ◌∷◌, ◌++◌, ◌==◌, if◌then◌else◌, ℤ,
  int_eq, Map, lookup, insert, delete,
}
use pm.Config.{Config}
use pm.Ops.{View, Runner, Reconciler, features_active, new_runner}

-- A runner for an app that has a feature.
unfoldable pub start_runner : View → Reconciler → Reconciler
unfolding features_active new_runner
start_runner v r =
    if features_active v.cfg then record r { runners = insert v.id (new_runner v) r.runners } else r

-- A runner is told to stop, and leaves the map.
unfoldable pub retire : ℤ → Runner → Reconciler → Reconciler
retire id cur r = record r { runners = delete id r.runners; retired = r.retired ++ (cur ∷ []) }

-- One round of the loop over the views.
unfoldable pub sync_view : View → Reconciler → Reconciler
unfolding start_runner retire
sync_view v r = elim (lookup v.id r.runners) [
  | none ↦ start_runner v r
  | some cur ↦ if cur.serial == v.serial then r else start_runner v (retire v.id cur r)
]

unfoldable pub sync_views : List View → Reconciler → Reconciler
unfolding sync_view
sync_views [] r = r
sync_views (v ∷ views) r = sync_views views (sync_view v r)

-- `seen[id]`.
abbrev pub is_seen : List View → ℤ → Bool
is_seen [] id = false
is_seen (v ∷ views) id = if int_eq v.id id then true else is_seen views id

-- The loop over the runners: those that no view has go.
unfoldable pub sweep : List View → Map Runner → Map Runner × List Runner
sweep views [] = ([], [])
sweep views ((id, rn) ∷ runners) =
    let (kept, gone) = sweep views runners in
    if is_seen views id then ((id, rn) ∷ kept, gone) else (kept, rn ∷ gone)

-- `Sync`.
unfoldable pub sync : List View → Reconciler → Reconciler
unfolding sync_views sweep
sync views r =
    if r.stopped
    then r
    else (let s = sync_views views r in
        let (kept, gone) = sweep views s.runners in
        record s { runners = kept; retired = s.retired ++ gone })

abbrev runners_of : Map Runner → List Runner
runners_of [] = []
runners_of ((id, rn) ∷ runners) = rn ∷ runners_of runners

-- `Stop`.
unfoldable pub stop : Reconciler → Reconciler
stop r =
    if r.stopped
    then r
    else record r { stopped = true; runners = []; retired = r.retired ++ runners_of r.runners }
