-- ===== src/Proc/Snapshot.antt =====
-- internal/proc/snapshot_linux.go and internal/daemon/procsnap_linux.go: one pass over /proc and the
-- attribution of its processes to apps. What the files under /proc hold is an argument; a file that
-- cannot be read is `none`. The order of a map is the order of Go's range loop, which is arbitrary.
pub mod Attributed
use pm.Base.{
  ℕ, ◌+◌, ◌*◌, ◌%◌, ◌^◌, Bool, false, not, ◌&&◌, ◌||◌, Option, none, some, List, [], ◌∷◌, ◌++◌,
  Text, codes, text_eq, is_empty, ◌==◌, if◌then◌else◌, ℤ, pos, ltb_ℤ, int_eq, Map, lookup, insert,
  atoi, split, cut, trim_space,
}
use pm.Proc.{Handle}
use pm.Proc.Stat.{StatInfo, parse_stat}

-- `ProcInfo`.
pub record ProcInfo : Type 0 where
  pub state : ℕ
  pub ppid : ℤ
  pub pgrp : ℤ
  pub starttime : ℕ
  pub rss_bytes : ℕ
  pub ticks : ℕ

abbrev pub info_of : ℕ → StatInfo → ProcInfo
info_of page si = record {
  state = si.state;
  ppid = si.ppid;
  pgrp = si.pgrp;
  starttime = si.starttime;
  rss_bytes = si.rss * page % 2 ^ 64;
  ticks = (si.utime + si.stime) % 2 ^ 64;
}

-- The loop of `ReadSnapshot` over the pids of /proc, each with its stat file.
abbrev pub keep_pid : ℕ → ℤ → Option StatInfo → Map ProcInfo → Map ProcInfo
keep_pid page pid none snap = snap
keep_pid page pid (some si) snap = insert pid (info_of page si) snap

abbrev pub stat_of : Option Text → Option StatInfo
stat_of none = none
stat_of (some stat) = parse_stat stat

unfoldable pub read_pids : ℕ → List (ℤ × Option Text) → Map ProcInfo → Map ProcInfo
read_pids page [] snap = snap
read_pids page ((pid, stat) ∷ rest) snap =
    read_pids page rest (keep_pid page pid (stat_of stat) snap)

-- `ReadSnapshot`.
unfoldable pub read_snapshot : ℕ → List (ℤ × Option Text) → Map ProcInfo
unfolding read_pids
read_snapshot page files = read_pids page files []

-- `sort.Ints`.
unfoldable pub insert_int : ℤ → List ℤ → List ℤ
insert_int n [] = n ∷ []
insert_int n (m ∷ ms) = if ltb_ℤ m n then m ∷ insert_int n ms else n ∷ m ∷ ms

unfoldable pub sort_ints : List ℤ → List ℤ
unfolding insert_int
sort_ints [] = []
sort_ints (n ∷ ns) = insert_int n (sort_ints ns)

abbrev pub is_live : ProcInfo → Bool
is_live info = not (info.state == b'Z')

-- The pids whose sample passes the test of the loop.
unfoldable pub select {ℓ} : {V : Type ℓ} → (ℤ → V → Bool) → Map V → List ℤ
select keep [] = []
select keep ((pid, v) ∷ m) = if keep pid v then pid ∷ select keep m else select keep m

abbrev pub is_member : ℤ → ℤ → ProcInfo → Bool
is_member pgid pid info = int_eq info.pgrp pgid && is_live info

abbrev pub is_child : ℤ → ℤ → ProcInfo → Bool
is_child self pid info = int_eq info.ppid self && is_live info

-- `PgrpMembers`.
unfoldable pub pgrp_members : ℤ → Map ProcInfo → List ℤ
unfolding select sort_ints
pgrp_members pgid snap = sort_ints (select (is_member pgid) snap)

-- `ReparentedCandidates`.
unfoldable pub reparented_candidates : ℤ → Map ProcInfo → List ℤ
unfolding select sort_ints
reparented_candidates self snap = sort_ints (select (is_child self) snap)

-- `EnvMarkerValue` on the entries of an environ image; the first entry of the key counts.
abbrev pub marker_or : Text × Text × Bool → Option Text → Option Text
marker_or (k, v, found) rest = if found && text_eq k (codes "_PM0_APP") then some v else rest

unfoldable pub marker_in : List Text → Option Text
marker_in [] = none
marker_in (entry ∷ rest) = marker_or (cut b'=' entry) (marker_in rest)

unfoldable pub env_marker_value : Text → Option Text
unfolding marker_in
env_marker_value env = marker_in (split 0 env)

-- `orphanMarkerIndex`.
abbrev pub index_marker : ℤ → Option Text → Map Text → Map Text
index_marker pid none out = out
index_marker pid (some v) out = insert pid v out

abbrev pub marker_of : Option Text → Option Text
marker_of none = none
marker_of (some env) = env_marker_value env

unfoldable pub index_markers : (ℤ → Option Text) → List ℤ → Map Text → Map Text
index_markers environ [] out = out
index_markers environ (pid ∷ pids) out =
    index_markers environ pids (index_marker pid (marker_of (environ pid)) out)

unfoldable pub orphan_marker_index : (ℤ → Option Text) → ℤ → Map ProcInfo → Map Text
unfolding index_markers
orphan_marker_index environ self snap = index_markers environ (reparented_candidates self snap) []

-- `cgroupProcs` on the text of cgroup.procs: lines that are no numbers are skipped.
abbrev pub keep_number : Option ℤ → List ℤ → List ℤ
keep_number none pids = pids
keep_number (some pid) pids = pid ∷ pids

unfoldable pub pids_of_lines : List Text → List ℤ
pids_of_lines [] = []
pids_of_lines (l ∷ ls) =
    let rest = pids_of_lines ls in
    let s = trim_space l in if is_empty s then rest else keep_number (atoi s) rest

unfoldable pub cgroup_procs : Text → List ℤ
unfolding pids_of_lines
cgroup_procs contents = pids_of_lines (split 10 (trim_space contents))

abbrev pub in_group : ℤ → Option ProcInfo → Bool
in_group pgid none = false
in_group pgid (some info) = int_eq info.pgrp pgid

-- A candidate that the scan of the group does not cover.
abbrev pub is_orphan : Map ProcInfo → ℤ → Text → ℤ → Text → Bool
is_orphan snap pgid marker pid m = text_eq m marker && not (in_group pgid (lookup pid snap))

abbrev procs_or_none : Option Text → List ℤ
unfolding cgroup_procs
procs_or_none none = []
procs_or_none (some contents) = cgroup_procs contents

unfoldable pub pgid_tree : Map ProcInfo → ℤ → Text → Map Text → List ℤ
unfolding select sort_ints
pgid_tree snap pgid marker orphans =
    sort_ints (pgrp_members pgid snap ++ select (is_orphan snap pgid marker) orphans)

-- `AttributeTree`; `procs` is the text of the cgroup's list.
unfoldable pub attribute_tree : Map ProcInfo → Handle → Option Text → Text → Map Text → List ℤ
unfolding procs_or_none pgid_tree
attribute_tree snap h procs marker orphans =
    if text_eq h.mode (codes "cgroup-kill") || text_eq h.mode (codes "cgroup-freeze")
    then procs_or_none procs
    else if text_eq h.mode (codes "pgid")
    then pgid_tree snap (pos h.pid) marker orphans
    else []
