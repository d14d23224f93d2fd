-- ===== src/Tests/ProcTests.antt =====
-- The theorems on the process layer and the cluster check at concrete inputs, and runs of the code.
use pm.Base.{
  not, ◌&&◌, ◌==◌, is_empty, AreSolid, ℕ, ◌<◌, ◌≤◌, ◌≡◌, ◌↔◌, ◌⊎◌, inl, inr, refl, Bool, true,
  false, Option, none, some, List, [], ◌∷◌, All, Text, codes, arith, ℤ, pos, itoa, is_space, lookup,
  is_digit,
}
use pm.Proc.{Handle}
use pm.Proc.Stat.{StatInfo, parse_stat}
use pm.Proc.Stat.Image.{
  image, AreFields, IsStat, AgreesWith, parse_stat-image, parse_stat-AgreesWith,
}
use pm.Proc.Snapshot.{read_snapshot, orphan_marker_index, attribute_tree}
use pm.Proc.Snapshot.Attributed.{IsSorted, count, bit, belongs, attribute_tree-belongs}
use pm.Proc.Detect.{Host, detect_uncached, kernel_version}
use pm.Proc.Detect.Justified.{IsJustified, detect_uncached-IsJustified}
use pm.Proc.Scan.{Look}
use pm.Proc.Kill.{Round, Marks, Answers, Cgroup, pids, gone, stop_within}
use pm.Proc.Kill.Drained.{SeenEmpty, stop_within-SeenEmpty}
use pm.Proc.Kill.Ends.{stop_within-returns}
use pm.Proc.Kill.Verified.{IsVerified, stop_within-IsVerified}
use pm.Cluster.{check_version_string}
use pm.Cluster.Versions.{printed, check_version_string-printed}

-- The fields of a process of the group 41: state, parent, group and the rest.
abbrev group_fields : List Text
group_fields =
    codes "S"
    ∷ itoa 1
    ∷ itoa 41
    ∷ codes "41"
    ∷ codes "0"
    ∷ codes "-1"
    ∷ codes "0"
    ∷ codes "0"
    ∷ codes "0"
    ∷ codes "0"
    ∷ codes "0"
    ∷ itoa 12
    ∷ itoa 3
    ∷ codes "0"
    ∷ codes "0"
    ∷ codes "20"
    ∷ codes "0"
    ∷ codes "1"
    ∷ codes "0"
    ∷ itoa 7
    ∷ codes "4096"
    ∷ itoa 5
    ∷ []

abbrev group_info : StatInfo
group_info = record {
  state = b'S';
  ppid = pos 1;
  pgrp = pos 41;
  utime = 12;
  stime = 3;
  starttime = 7;
  rss = 5;
}

are_plain : Text → Bool
unfolding is_space
are_plain [] = true
are_plain (c ∷ s) = not (is_space c) && not (c == b')') && are_plain s

are_words : List Text → Bool
unfolding are_plain
are_words [] = true
are_words (w ∷ ws) = not (is_empty w) && are_plain w && are_words ws

are_plain_sound : (s : Text) → are_plain s ≡ true → AreSolid s × All (λ c. (c == b')') ≡ false) s
unfolding are_plain
are_plain_sound [] e = (tt, tt)
are_plain_sound (c ∷ s) e =
    let rest = are_plain_sound s (ground arith) in ((ground arith, rest.0), (ground arith, rest.1))

are_words-AreFields : (ws : List Text) → are_words ws ≡ true → AreFields ws
unfolding are_words
are_words-AreFields [] e = tt
are_words-AreFields (w ∷ ws) e =
    let plain = are_plain_sound w (ground arith) in
    (((ground arith, plain.0), plain.1), are_words-AreFields ws (ground arith))

group_fields-AreFields : AreFields group_fields
unfolding are_words itoa
group_fields-AreFields = are_words-AreFields group_fields refl

group_fields-IsStat : IsStat 1 41 group_info group_fields
group_fields-IsStat = record {
  fields_ok = group_fields-AreFields;
  enough = omega arith;
  state_at = refl;
  ppid_at = (refl, refl, omega arith);
  pgrp_at = (refl, refl, omega arith);
  utime_at = (refl, omega arith);
  stime_at = (refl, omega arith);
  starttime_at = (refl, omega arith);
  rss_at = (refl, omega arith);
}

-- The process calls itself `a) S 1 (b`.
abbrev group_image : Text
group_image = image (codes "42") (codes "a) S 1 (b") group_fields

parse_stat-image_example : parse_stat group_image ≡ some group_info
parse_stat-image_example =
    parse_stat-image 1 41 group_info group_fields group_fields-IsStat (codes "42")
      (codes "a) S 1 (b")

parse_stat-AgreesWith_example : AgreesWith group_image group_info
parse_stat-AgreesWith_example = parse_stat-AgreesWith group_image group_info (
    parse_stat-image 1 41 group_info group_fields group_fields-IsStat (codes "42")
      (codes "a) S 1 (b"))

abbrev leader : Handle
leader = record { pid = 41; mode = codes "pgid"; cg_path = []; leader_start = 7; has_ready = true }

abbrev files : List (ℤ × Option Text)
files = (pos 42, some group_image) ∷ (pos 50, none) ∷ []

attribute_tree-belongs_example :
    let snap = read_snapshot 4096 files in
    let tree =
      attribute_tree snap leader none
        (codes "web-3")
        (orphan_marker_index (λ pid. none) (pos 9) snap) in
    IsSorted tree
    × (count (pos 42) tree
        ≡ bit (belongs (pos 9) (pos 41) (codes "web-3") none (lookup (pos 42) snap)))
attribute_tree-belongs_example =
    attribute_tree-belongs 4096 files (λ pid. none) (pos 9) (pos 42) leader none (codes "web-3")
      refl

abbrev old_host : Host
old_host = record {
  release = codes "5.10.134-013.15.kangaroo.al8.x86_64";
  kill_mode = [];
  self_cgroup = some (codes "0::/app");
  cgroup_root = [];
  mount = λ path. some (codes "/sys/fs/cgroup/app");
  probe = λ dir. true;
}

detect_uncached-IsJustified_example : IsJustified old_host (detect_uncached old_host)
detect_uncached-IsJustified_example = detect_uncached-IsJustified old_host refl

old_version : kernel_version (codes "5.10.134-013.15.kangaroo.al8.x86_64") ≡ some (pos 5, pos 10)
unfolding kernel_version pm.Proc.Cgroup.split_3 pm.Base.cut pm.Base.atoi is_digit pm.Base.read_ℕ
old_version = refl

-- One process of the group is killed in the first round; nothing is left in the second one.
abbrev nothing : Look
nothing = record { files = []; environ = λ pid. none }

abbrev full : Look
full = record { files = files; environ = λ pid. none }

abbrev first_round : Round
first_round = record {
  leader = some 7;
  members = full;
  escapees = nothing;
  start_of = λ pid. some 7;
  leader_state = some b'S';
  members_left = nothing;
  escapees_left = nothing;
  late = false;
}

abbrev last_round : Round
last_round = record first_round {
  leader = none;
  members = nothing;
  leader_state = some b'Z';
  late = true;
}

abbrev answers : Answers
answers = record {
  procs = gone;
  leader = some 7;
  cgroup = record {
    kill_works = true;
    freeze_works = true;
    thaw_works = true;
    drain = gone;
    polls = (gone, true) ∷ [];
    removals = (true, true) ∷ [];
  };
  rounds = first_round ∷ last_round ∷ [];
}

abbrev marks : Marks
marks = record { self = pos 9; marker = codes "web-3"; token = codes "9-1-1" }

stops : (stop_within marks leader answers).1 ≡ some true
unfolding stop_within pm.Proc.Kill.force_pgid pm.Proc.Kill.tree_empty pm.Proc.Kill.sweep
    pm.Proc.Scan.scan_pgrp_members pm.Proc.Scan.scan_reparented_orphans pm.Proc.Scan.scan
stops = refl

stop_within-SeenEmpty_example : SeenEmpty marks leader answers
stop_within-SeenEmpty_example = stop_within-SeenEmpty marks leader answers stops

stop_within-returns_example : (b : Bool) × ((stop_within marks leader answers).1 ≡ some b)
stop_within-returns_example =
    stop_within-returns marks leader answers
      (record { polls = inl refl; removals = inl refl; rounds = inr (inl refl) })

stop_within-IsVerified_example :
    IsVerified marks leader answers (stop_within marks leader answers).0
stop_within-IsVerified_example = stop_within-IsVerified marks leader answers refl

check_version_string-printed_example :
    (check_version_string (printed 23 2 0) ≡ true) ↔ ((23 < 23) ⊎ ◌≡◌ {A = ℕ} 23 23 × (2 ≤ 2))
check_version_string-printed_example =
    check_version_string-printed 23 2 0 (omega arith) (omega arith) (omega arith)
