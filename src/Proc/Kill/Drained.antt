-- ===== src/Proc/Kill/Drained.antt =====
-- internal/proc/handle_linux.go and cgroup_linux.go, `StopWithin`: the proofs on what a stop that
-- reports no error has seen.
use pm.Base.{
  ◌≡◌, ◌⊎◌, inl, inr, refl, Bool, true, false, Bool-cases, Option, none, some, Option-cases, List,
  [], ◌∷◌, All, Text, text_eq, is_empty, if◌then◌else◌, arith, ℤ, pos,
}
use pm.Proc.{Handle}
use pm.Proc.Detect.{kill, freeze, pgid}
use pm.Proc.Stat.{StatInfo}
use pm.Proc.Snapshot.{stat_of}
use pm.Proc.Scan.{scan, scan_pgrp_members, scan_reparented_orphans, in_group, is_escapee}
use pm.Proc.Kill.{
  Read, pids, gone, unreadable, Cgroup, wait_cgroup_empty, force_freeze_drain_path,
  force_cgroup_kill_path, Round, Marks, is_dead, tree_empty, force_pgid, Answers, force_by_mode,
  cleanup, stop_within, is_cgroup_mode, after_freeze, after_thaw,
}

-- A predicate on some element.
abbrev pub Any {ℓ} : {A : Type ℓ} → (A → Type 0) → List A → Type 0
Any P [] = false ≡ true
Any P (x ∷ xs) = P x ⊎ Any P xs

abbrev pub shows_empty : Read → Bool
shows_empty (pids ps) = is_empty ps
shows_empty gone = true
shows_empty unreadable = false

-- The cgroup was seen empty or gone, behind the freeze or by a poll.
abbrev pub CgroupSeenEmpty : Cgroup → Type 0
CgroupSeenEmpty c =
    (shows_empty c.drain ≡ true) ⊎ Any (λ (p : Read × Bool). shows_empty p.0 ≡ true) c.polls

-- Whether a stat file shows a process that the test keeps.
abbrev pub shows : (ℤ → StatInfo → Bool) → ℤ → Option StatInfo → Bool
shows keep pid none = false
shows keep pid (some si) = keep pid si

-- No leader that runs, and no file of the two scans shows a live member of the group or a live
-- escapee of the tree.
pub record IsTreeEmpty (k : Marks) (h : Handle) (r : Round) : Type 0 where
  pub leader : is_dead r.leader_state ≡ true
  pub members :
      All
        (λ (f : ℤ × Option Text).
          shows (λ pid si. in_group (pos h.pid) si) f.0 (stat_of f.1) ≡ false)
        r.members_left.files
  pub escapees :
      All
        (λ (f : ℤ × Option Text).
          shows
            (is_escapee k.self k.marker (pos h.pid) k.token r.escapees_left.environ)
            f.0
            (stat_of f.1)
          ≡ false)
        r.escapees_left.files

-- What a stop saw in the mode of the handle.
abbrev pub SeenEmpty : Marks → Handle → Answers → Type 0
SeenEmpty k h a =
    if is_cgroup_mode h.mode then CgroupSeenEmpty a.cgroup else Any (IsTreeEmpty k h) a.rounds

scan-nothing :
    (keep : ℤ → StatInfo → Bool) (files : List (ℤ × Option Text))
    → is_empty (scan keep files) ≡ true
    → All (λ (f : ℤ × Option Text). shows keep f.0 (stat_of f.1) ≡ false) files
unfolding scan
scan-nothing keep [] e = tt
scan-nothing keep ((pid, stat) ∷ files) e = elim (Option-cases (stat_of stat)) [
  | inl n ↦ rw n (refl, scan-nothing keep files (rw n at e))
  | inr (si, s) ↦ elim (Bool-cases (keep pid si)) [
    | inl t ↦ absurd (ground arith)
    | inr f ↦ rw s (f, scan-nothing keep files (rw f at (rw s at e)))
  ]
]

tree_empty-IsTreeEmpty :
    (k : Marks) (h : Handle) (r : Round) → tree_empty k h r ≡ true → IsTreeEmpty k h r
unfolding tree_empty scan_pgrp_members scan_reparented_orphans
tree_empty-IsTreeEmpty k h r e = record {
  leader = ground arith;
  members = scan-nothing _ r.members_left.files (ground arith);
  escapees = scan-nothing _ r.escapees_left.files (ground arith);
}

wait_cgroup_empty-seen :
    (polls : List (Read × Bool))
    → wait_cgroup_empty polls ≡ some true
    → Any (λ (p : Read × Bool). shows_empty p.0 ≡ true) polls
unfolding wait_cgroup_empty
wait_cgroup_empty-seen [] e = cc
wait_cgroup_empty-seen ((pids [], late) ∷ polls) e = inl refl
wait_cgroup_empty-seen ((pids (p ∷ ps), true) ∷ polls) e = cc
wait_cgroup_empty-seen ((pids (p ∷ ps), false) ∷ polls) e = inr (wait_cgroup_empty-seen polls e)
wait_cgroup_empty-seen ((gone, late) ∷ polls) e = inl refl
wait_cgroup_empty-seen ((unreadable, late) ∷ polls) e = cc

after_thaw-seen :
    (c : Cgroup) (ps : List ℤ)
    → after_thaw c ps ≡ some true
    → (is_empty ps ≡ true) ⊎ Any (λ (p : Read × Bool). shows_empty p.0 ≡ true) c.polls
after_thaw-seen c [] e = inl refl
after_thaw-seen c (p ∷ ps) e = elim (Bool-cases c.thaw_works) [
  | inl t ↦ inr (wait_cgroup_empty-seen c.polls (rw t at e))
  | inr f ↦ absurd (ground arith)
]

after_freeze-seen :
    (c : Cgroup) (r : Read)
    → (after_freeze c r).1 ≡ some true
    → (shows_empty r ≡ true) ⊎ Any (λ (p : Read × Bool). shows_empty p.0 ≡ true) c.polls
after_freeze-seen c (pids ps) e = after_thaw-seen c ps e
after_freeze-seen c gone e = inl refl
after_freeze-seen c unreadable e = cc

force_freeze_drain_path-seen :
    (c : Cgroup) → (force_freeze_drain_path c).1 ≡ some true → CgroupSeenEmpty c
unfolding force_freeze_drain_path
force_freeze_drain_path-seen c e = elim (Bool-cases c.freeze_works) [
  | inl t ↦ after_freeze-seen c c.drain (ground arith)
  | inr f ↦ absurd (ground arith)
]

force_cgroup_kill_path-seen :
    (c : Cgroup) → (force_cgroup_kill_path c).1 ≡ some true → CgroupSeenEmpty c
unfolding force_cgroup_kill_path
force_cgroup_kill_path-seen c e = elim (Bool-cases c.kill_works) [
  | inl t ↦ inr (wait_cgroup_empty-seen c.polls (ground arith))
  | inr f ↦ force_freeze_drain_path-seen c (ground arith)
]

force_pgid-seen :
    (k : Marks) (h : Handle) (rounds : List Round)
    → (force_pgid k h rounds).1 ≡ some true
    → Any (IsTreeEmpty k h) rounds
unfolding force_pgid
force_pgid-seen k h [] e = cc
force_pgid-seen k h (r ∷ rounds) e = elim (Bool-cases (tree_empty k h r)) [
  | inl t ↦ inl (tree_empty-IsTreeEmpty k h r t)
  | inr f ↦ elim (Bool-cases r.late) [
    | inl t ↦ absurd (ground arith)
    | inr l ↦ inr (force_pgid-seen k h rounds (ground arith))
  ]
]

force-seen :
    (k : Marks) (h : Handle) (a : Answers) → (force_by_mode k h a).1 ≡ some true → SeenEmpty k h a
force-seen k h a e = elim (Bool-cases (text_eq h.mode kill)) [
  | inl m ↦ rw m (force_cgroup_kill_path-seen a.cgroup (rw m at e))
  | inr n ↦ elim (Bool-cases (text_eq h.mode freeze)) [
    | inl m ↦ rw n (rw m (force_freeze_drain_path-seen a.cgroup (rw m at (rw n at e))))
    | inr o ↦ rw n (
        rw o (elim (Bool-cases (text_eq h.mode pgid)) [
          | inl m ↦ force_pgid-seen k h a.rounds (rw m at (rw o at (rw n at e)))
          | inr m ↦ absurd (ground arith)
        ]))
  ]
]

cleanup-keeps :
    (h : Handle) (c : Cgroup) (e : Option Bool) → cleanup h c e ≡ some true → e ≡ some true
cleanup-keeps h c e q = ground arith

-- A stop that reports no error has seen the tree empty: in a cgroup mode the list of processes empty
-- or gone, in pgid mode, in one look, no leader that runs, no live member of its group and no live
-- process that carries the marks of the app.
pub stop_within-SeenEmpty :
    (k : Marks) (h : Handle) (a : Answers) → (stop_within k h a).1 ≡ some true → SeenEmpty k h a
unfolding stop_within
stop_within-SeenEmpty k h a e = force-seen k h a (cleanup-keeps h a.cgroup _ e)
