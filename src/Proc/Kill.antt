-- ===== src/Proc/Kill.antt =====
-- internal/proc/handle_linux.go and cgroup_linux.go: the kill path of a tree. What the kernel, the
-- cgroup files and the clock answer on the way is given in the order in which the code asks, so that
-- any behaviour of the tree is covered; `Action` is what the code does to it. A loop that asks for more
-- answers than there are gives none. The exits that are awaited between the phases only take time.
pub mod Drained
pub mod Ends
pub mod Verified
use pm.Base.{
  ℕ, Bool, true, false, not, ◌&&◌, ◌||◌, Option, none, some, List, [], ◌∷◌, ◌++◌, map, Text, codes,
  text_eq, is_empty, ◌==◌, if◌then◌else◌, ℤ, pos,
}
use pm.Proc.{Handle}
use pm.Proc.Detect.{kill, freeze, pgid}
use pm.Proc.Scan.{
  Look, Victim, scan_pgrp_members, scan_reparented_orphans, kill_victims_verified, matches,
}

-- Signals to one process and to a process group, and the writes to the files of a cgroup.
pub data Action : Type 0 where
  signal : ℤ → Action
  signal_group : ℕ → Action
  kill_all freeze_all thaw_all : Action

-- A read of cgroup.procs.
pub data Read : Type 0 where
  pids : List ℤ → Read
  gone unreadable : Read

-- The polls of `waitCgroupEmpty`, each with whether the deadline has passed; `some true` is no error.
abbrev pub after_pids : List ℤ → Bool → Option Bool → Option Bool
after_pids [] late later = some true
after_pids (p ∷ ps) true later = some false
after_pids (p ∷ ps) false later = later

abbrev pub after_read : Read → Bool → Option Bool → Option Bool
after_read (pids ps) late later = after_pids ps late later
after_read gone late later = some true
after_read unreadable late later = some false

unfoldable pub wait_cgroup_empty : List (Read × Bool) → Option Bool
wait_cgroup_empty [] = none
wait_cgroup_empty ((r, late) ∷ polls) = after_read r late (wait_cgroup_empty polls)

-- What the files of the cgroup answer: the writes to cgroup.kill and cgroup.freeze, the read behind
-- the freeze, the polls, and the attempts to remove the directory (`gone` counts as removed).
pub record Cgroup : Type 0 where
  pub kill_works : Bool
  pub freeze_works : Bool
  pub thaw_works : Bool
  pub drain : Read
  pub polls : List (Read × Bool)
  pub removals : List (Bool × Bool)

abbrev pub after_thaw : Cgroup → List ℤ → Option Bool
after_thaw c [] = some c.thaw_works
after_thaw c (p ∷ ps) = if c.thaw_works then wait_cgroup_empty c.polls else some false

abbrev pub after_freeze : Cgroup → Read → List Action × Option Bool
after_freeze c (pids ps) = (map signal ps ++ (thaw_all ∷ []), after_thaw c ps)
after_freeze c gone = (thaw_all ∷ [], some true)
after_freeze c unreadable = (thaw_all ∷ [], some false)

-- `forceFreezeDrainPath`.
abbrev pub freeze_first : List Action × Option Bool → List Action × Option Bool
freeze_first (actions, e) = (freeze_all ∷ actions, e)

unfoldable pub force_freeze_drain_path : Cgroup → List Action × Option Bool
unfolding wait_cgroup_empty
force_freeze_drain_path c =
    if c.freeze_works then freeze_first (after_freeze c c.drain) else (freeze_all ∷ [], some false)

-- `forceCgroupKillPath`.
abbrev pub kill_first : List Action × Option Bool → List Action × Option Bool
kill_first (actions, e) = (kill_all ∷ actions, e)

unfoldable pub force_cgroup_kill_path : Cgroup → List Action × Option Bool
unfolding force_freeze_drain_path wait_cgroup_empty
force_cgroup_kill_path c =
    kill_first (if c.kill_works then ([], wait_cgroup_empty c.polls) else force_freeze_drain_path c)

-- `removeCgroup`.
abbrev pub after_removal : Bool → Bool → Option Bool → Option Bool
after_removal true late later = some true
after_removal false true later = some false
after_removal false false later = later

unfoldable pub remove_cgroup : List (Bool × Bool) → Option Bool
remove_cgroup [] = none
remove_cgroup ((removed, late) ∷ attempts) = after_removal removed late (remove_cgroup attempts)

-- One round of `forcePgid`: the starttime of the leader, the two scans, the verifying reads, what
-- `treeEmpty` sees (the state of the leader and two scans), and whether the deadline has passed.
pub record Round : Type 0 where
  pub leader : Option ℕ
  pub members : Look
  pub escapees : Look
  pub start_of : ℤ → Option ℕ
  pub leader_state : Option ℕ
  pub members_left : Look
  pub escapees_left : Look
  pub late : Bool

-- The pid of the daemon and what the handle knows for the scans: the attribution name of the spec
-- and the launch token.
pub record Marks : Type 0 where
  pub self : ℤ
  pub marker : Text
  pub token : Text

abbrev pub victims_in : Marks → Handle → Look → Look → List Victim
victims_in k h members escapees =
    scan_pgrp_members (pos h.pid) members
    ++ scan_reparented_orphans k.self k.marker (pos h.pid) k.token escapees

abbrev pub is_dead : Option ℕ → Bool
is_dead none = true
is_dead (some state) = state == b'Z'

-- `treeEmpty`.
unfoldable pub tree_empty : Marks → Handle → Round → Bool
tree_empty k h r =
    is_dead r.leader_state
    && is_empty (scan_pgrp_members (pos h.pid) r.members_left)
    && is_empty (scan_reparented_orphans k.self k.marker (pos h.pid) k.token r.escapees_left)

abbrev pub group_signal : Handle → Option ℕ → List Action
group_signal h start = if matches start h.leader_start then signal_group h.pid ∷ [] else []

unfoldable pub sweep : Marks → Handle → Round → List Action
sweep k h r =
    group_signal h r.leader
    ++ map signal (kill_victims_verified r.start_of (victims_in k h r.members r.escapees))

abbrev pub after_sweep :
    Bool → Bool → List Action → List Action × Option Bool → List Action × Option Bool
after_sweep true late actions later = (actions, some true)
after_sweep false true actions later = (actions, some false)
after_sweep false false actions (more, e) = (actions ++ more, e)

-- `forcePgid`.
unfoldable pub force_pgid : Marks → Handle → List Round → List Action × Option Bool
unfolding tree_empty sweep
force_pgid k h [] = ([], none)
force_pgid k h (r ∷ rounds) =
    after_sweep (tree_empty k h r) r.late (sweep k h r) (force_pgid k h rounds)

-- `Signal`, whose error the kill path drops: the read of cgroup.procs, or of the leader's starttime.
abbrev pub signal_pids : Read → List Action
signal_pids (pids ps) = map signal ps
signal_pids gone = []
signal_pids unreadable = []

abbrev pub is_cgroup_mode : Text → Bool
is_cgroup_mode mode = text_eq mode kill || text_eq mode freeze

unfoldable pub signal_tree : Handle → Read → Option ℕ → List Action
signal_tree h procs leader =
    if is_cgroup_mode h.mode
    then signal_pids procs
    else if text_eq h.mode pgid
    then group_signal h leader
    else []

-- `leaderGone`: an adopted handle without a starttime goes by the pid alone.
abbrev pub leader_gone : Handle → Option ℕ → Bool
leader_gone h none = true
leader_gone h (some st) = not (h.leader_start == 0) && not (st == h.leader_start)

-- All that is asked during one `StopWithin`.
pub record Answers : Type 0 where
  pub procs : Read
  pub leader : Option ℕ
  pub cgroup : Cgroup
  pub rounds : List Round

abbrev pub force_by_mode : Marks → Handle → Answers → List Action × Option Bool
force_by_mode k h a =
    if text_eq h.mode kill
    then force_cgroup_kill_path a.cgroup
    else if text_eq h.mode freeze
    then force_freeze_drain_path a.cgroup
    else if text_eq h.mode pgid
    then force_pgid k h a.rounds
    else ([], some false)

-- The removal of the cgroup directory; an error of the force phase is kept.
abbrev pub both : Option Bool → Option Bool → Option Bool
both (some forced) (some removed) = some (forced && removed)
both (some forced) none = none
both none removed = none

abbrev pub cleanup : Handle → Cgroup → Option Bool → Option Bool
cleanup h c e = if is_empty h.cg_path then e else both e (remove_cgroup c.removals)

-- `StopWithin`.
abbrev pub finish :
    Handle → Answers → List Action → List Action × Option Bool → List Action × Option Bool
finish h a graceful (forced, e) = (graceful ++ forced, cleanup h a.cgroup e)

unfoldable pub stop_within : Marks → Handle → Answers → List Action × Option Bool
unfolding signal_tree force_pgid force_cgroup_kill_path force_freeze_drain_path remove_cgroup
stop_within k h a = finish h a (signal_tree h a.procs a.leader) (force_by_mode k h a)
