-- ===== src/Proc/Scan.antt =====
-- internal/proc/scan_linux.go: the processes of a tree that a fresh scan of /proc finds, and kills
-- that verify the identity of a process first. A scan is given by what the files under /proc hold
-- while it runs.
use pm.Base.{
  ℕ, Bool, true, false, not, ◌&&◌, ◌||◌, Option, none, some, List, [], ◌∷◌, Text, codes, text_eq,
  is_empty, ◌==◌, if◌then◌else◌, ℤ, pos, int_eq, ltb_ℤ, split, cut,
}
use pm.Proc.Stat.{StatInfo}
use pm.Proc.Snapshot.{stat_of}

-- The stat files of the pids of /proc, in the order of the directory, and the environ files.
pub record Look : Type 0 where
  pub files : List (ℤ × Option Text)
  pub environ : ℤ → Option Text

-- `procVictim`.
pub record Victim : Type 0 where
  pub pid : ℤ
  pub starttime : ℕ

abbrev pub keep_victim : Bool → ℤ → StatInfo → List Victim → List Victim
keep_victim true pid si vs = record { pid = pid; starttime = si.starttime } ∷ vs
keep_victim false pid si vs = vs

abbrev pub is_running : StatInfo → Bool
is_running si = not (si.state == b'Z')

abbrev pub in_group : ℤ → StatInfo → Bool
in_group pgid si = is_running si && int_eq si.pgrp pgid

-- A stat file that cannot be read or parsed is skipped.
abbrev pub if_parsed : (ℤ → StatInfo → Bool) → ℤ → Option StatInfo → List Victim → List Victim
if_parsed keep pid none vs = vs
if_parsed keep pid (some si) vs = keep_victim (keep pid si) pid si vs

unfoldable pub scan : (ℤ → StatInfo → Bool) → List (ℤ × Option Text) → List Victim
scan keep [] = []
scan keep ((pid, stat) ∷ files) = if_parsed keep pid (stat_of stat) (scan keep files)

-- `scanPgrpMembers`.
unfoldable pub scan_pgrp_members : ℤ → Look → List Victim
unfolding scan
scan_pgrp_members pgid l = scan (λ pid si. in_group pgid si) l.files

-- `envHasMarker`.
abbrev pub is_entry : Text → Text → Text × Text × Bool → Bool
is_entry key value (k, v, found) = found && text_eq k key && text_eq v value

unfoldable pub has_entry : Text → Text → List Text → Bool
has_entry key value [] = false
has_entry key value (e ∷ es) = is_entry key value (cut b'=' e) || has_entry key value es

unfoldable pub env_has_marker : Text → Text → Text → Bool
unfolding has_entry
env_has_marker env key value = has_entry key value (split 0 env)

-- The filters of `scanReparentedOrphans`; an environ file that cannot be read excludes the pid.
abbrev pub carries : Text → Text → Option Text → Bool
carries marker token none = false
carries marker token (some env) =
    env_has_marker env (codes "_PM0_APP") marker
    && (is_empty token || env_has_marker env (codes "_PM0_LAUNCH") token)

abbrev pub is_escapee : ℤ → Text → ℤ → Text → (ℤ → Option Text) → ℤ → StatInfo → Bool
is_escapee self marker exclude token environ pid si =
    is_running si
    && int_eq si.ppid self
    && not (ltb_ℤ (pos 0) exclude && int_eq si.pgrp exclude)
    && carries marker token (environ pid)

-- `scanReparentedOrphans`.
unfoldable pub scan_reparented_orphans : ℤ → Text → ℤ → Text → Look → List Victim
unfolding scan
scan_reparented_orphans self marker exclude token l =
    scan (is_escapee self marker exclude token l.environ) l.files

-- `killVerified`: a signal goes out only where the starttime is the expected one.
abbrev pub matches : Option ℕ → ℕ → Bool
matches none expected = false
matches (some st) expected = st == expected

-- `killVictimsVerified`: the pids that are signalled; `start_of` answers the verifying reads.
unfoldable pub kill_victims_verified : (ℤ → Option ℕ) → List Victim → List ℤ
kill_victims_verified start_of [] = []
kill_victims_verified start_of (v ∷ vs) =
    let rest = kill_victims_verified start_of vs in
    if matches (start_of v.pid) v.starttime then v.pid ∷ rest else rest
