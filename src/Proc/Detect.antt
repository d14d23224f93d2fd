-- ===== src/Proc/Detect.antt =====
-- internal/proc/detect_linux.go: which kill mode the host allows. What the kernel, the environment
-- and the probe of a cgroup directory answer are the fields of `Host`. The texts of the warnings are
-- left out, their kinds and numbers are kept.
pub mod Justified
use pm.Base.{
  ℕ, Bool, true, false, ◌&&◌, ◌||◌, Option, none, some, List, [], ◌∷◌, Text, codes, text_eq,
  is_empty, if◌then◌else◌, ℤ, pos, int_eq, ltb_ℤ, leb_ℤ, atoi,
}
use pm.Proc.Stat.{bind}
use pm.Proc.Cgroup.{split_3, own_cgroup}

-- `kernelVersion`.
abbrev pub two_numbers : Text → Text → Option (ℤ × ℤ)
two_numbers a b = bind (atoi a) (λ major. bind (atoi b) (λ minor. some (major, minor)))

abbrev pub version_of : List Text → Option (ℤ × ℤ)
version_of [] = none
version_of (a ∷ []) = none
version_of (a ∷ b ∷ parts) = two_numbers a b

unfoldable pub kernel_version : Text → Option (ℤ × ℤ)
kernel_version release = if is_empty release then none else version_of (split_3 b'.' release)

-- The release of the kernel, PM0_KILL_MODE, the text of /proc/self/cgroup, PM0_CGROUP_ROOT, where
-- the mountinfo of the host places a cgroup (`resolve_cgroup_mount`), and whether a directory can be
-- made under another one and has a cgroup.procs.
pub record Host : Type 0 where
  pub release : Text
  pub kill_mode : Text
  pub self_cgroup : Option Text
  pub cgroup_root : Text
  pub mount : Text → Option Text
  pub probe : Text → Bool

pub data Warning : Type 0 where
  silent unreadable no_unified no_mount no_subtree bad_release : Warning
  lacks_kill lacks_freezer : ℤ → ℤ → Warning

-- `Detection`.
pub record Detection : Type 0 where
  pub mode : Text
  pub kernel_release : Text
  pub cgroup_v2 : Bool
  pub cgroup_path : Text
  pub cgroup_root : Text
  pub cgroup_usable : Bool
  pub warning : Warning

abbrev pub kill : Text
kill = codes "cgroup-kill"

abbrev pub freeze : Text
freeze = codes "cgroup-freeze"

abbrev pub pgid : Text
pgid = codes "pgid"

-- The result before any decision.
abbrev pub undecided : Host → Detection
undecided h = record {
  mode = pgid;
  kernel_release = h.release;
  cgroup_v2 = false;
  cgroup_path = [];
  cgroup_root = [];
  cgroup_usable = false;
  warning = silent;
}

-- `probeCgroupRoot`.
abbrev pub default_root : Text → Text
default_root dir = if is_empty dir then codes "/sys/fs/cgroup" else dir

abbrev pub probed : Host → Text → Detection → Detection
probed h dir d = record d {
  cgroup_root = default_root dir;
  cgroup_usable = h.probe (default_root dir);
}

abbrev pub path_or_nothing : Option Text → Detection → Detection
path_or_nothing none d = d
path_or_nothing (some p) d = record d { cgroup_v2 = true; cgroup_path = p }

abbrev pub unified : Option Text → Option Text
unified none = none
unified (some contents) = own_cgroup contents

abbrev pub text_or_empty : Option Text → Text
text_or_empty none = []
text_or_empty (some t) = t

-- The override: the mode is taken as it is.
abbrev pub root_of : Host → Text → Text
root_of h path = if is_empty h.cgroup_root then text_or_empty (h.mount path) else h.cgroup_root

abbrev pub probe_forced : Host → Detection → Detection
probe_forced h d =
    if text_eq h.kill_mode pgid || is_empty (root_of h d.cgroup_path)
    then d
    else probed h (root_of h d.cgroup_path) d

unfoldable pub forced : Host → Detection
forced h =
    probe_forced h
      (path_or_nothing (unified h.self_cgroup) (record (undecided h) { mode = h.kill_mode }))

-- The choice by the version of the kernel.
abbrev pub warn : Warning → Detection → Detection
warn w d = record d { warning = w }

abbrev pub at_least : ℕ → ℤ → ℤ → Bool
at_least n major minor = ltb_ℤ (pos 5) major || (int_eq major (pos 5) && leb_ℤ (pos n) minor)

abbrev pub by_version : Option (ℤ × ℤ) → Detection → Detection
by_version none d = warn bad_release d
by_version (some (major, minor)) d =
    if at_least 14 major minor
    then record d { mode = kill }
    else if at_least 2 major minor
    then record d { mode = freeze; warning = lacks_kill major minor }
    else warn (lacks_freezer major minor) d

abbrev pub by_usable : Host → Bool → Detection → Detection
by_usable h true d = by_version (kernel_version h.release) d
by_usable h false d = warn no_subtree d

abbrev pub by_probe : Host → Detection → Detection
by_probe h d = by_usable h d.cgroup_usable d

abbrev pub by_mount : Host → Option Text → Detection → Detection
by_mount h none d = warn no_mount d
by_mount h (some root) d = by_probe h (probed h root d)

abbrev pub by_given : Host → Bool → Text → Detection → Detection
by_given h true path d = by_mount h (h.mount path) d
by_given h false path d = by_probe h (probed h h.cgroup_root d)

abbrev pub by_root : Host → Text → Detection → Detection
by_root h path d = by_given h (is_empty h.cgroup_root) path d

abbrev pub by_path : Host → Option Text → Detection → Detection
by_path h none d = warn no_unified d
by_path h (some path) d = by_root h path (record d { cgroup_v2 = true; cgroup_path = path })

abbrev pub by_cgroup : Host → Option Text → Detection
by_cgroup h none = warn unreadable (undecided h)
by_cgroup h (some contents) = by_path h (own_cgroup contents) (undecided h)

unfoldable pub automatic : Host → Detection
automatic h = by_cgroup h h.self_cgroup

abbrev pub is_mode : Text → Bool
is_mode m = text_eq m kill || text_eq m freeze || text_eq m pgid

-- `detectUncached`.
unfoldable pub detect_uncached : Host → Detection
unfolding forced automatic
detect_uncached h = if is_mode h.kill_mode then forced h else automatic h
