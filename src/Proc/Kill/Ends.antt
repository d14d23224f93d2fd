-- ===== src/Proc/Kill/Ends.antt =====
-- internal/proc/handle_linux.go and cgroup_linux.go, `StopWithin`: the proofs that a stop returns
-- once its deadlines pass.
use pm.Base.{
  ◌≡◌, inl, inr, refl, Bool, true, false, Bool-cases, Option, none, some, List, [], ◌∷◌, text_eq,
  is_empty, ℤ,
}
use pm.Proc.{Handle}
use pm.Proc.Detect.{kill, freeze, pgid}
use pm.Proc.Kill.{
  Read, pids, gone, unreadable, Cgroup, wait_cgroup_empty, force_freeze_drain_path,
  force_cgroup_kill_path, remove_cgroup, Round, Marks, tree_empty, force_pgid, Answers,
  force_by_mode, both, stop_within, after_freeze, after_thaw,
}
use pm.Proc.Kill.Drained.{Any}

abbrev IsAnswer : Option Bool → Type 0
IsAnswer none = false ≡ true
IsAnswer (some b) = Unit

-- Each loop asks once behind its deadline.
pub record HaveDeadlines (a : Answers) : Type 0 where
  pub polls : Any (λ (p : Read × Bool). p.1 ≡ true) a.cgroup.polls
  pub removals : Any (λ (p : Bool × Bool). p.1 ≡ true) a.cgroup.removals
  pub rounds : Any (λ (r : Round). r.late ≡ true) a.rounds

wait_cgroup_empty-ends :
    (polls : List (Read × Bool))
    → Any (λ (p : Read × Bool). p.1 ≡ true) polls
    → IsAnswer (wait_cgroup_empty polls)
unfolding wait_cgroup_empty
wait_cgroup_empty-ends [] h = h
wait_cgroup_empty-ends ((pids [], late) ∷ polls) h = tt
wait_cgroup_empty-ends ((pids (p ∷ ps), true) ∷ polls) h = tt
wait_cgroup_empty-ends ((pids (p ∷ ps), false) ∷ polls) (inl e) = absurd (cc)
wait_cgroup_empty-ends ((pids (p ∷ ps), false) ∷ polls) (inr h) = wait_cgroup_empty-ends polls h
wait_cgroup_empty-ends ((gone, late) ∷ polls) h = tt
wait_cgroup_empty-ends ((unreadable, late) ∷ polls) h = tt

remove_cgroup-ends :
    (attempts : List (Bool × Bool))
    → Any (λ (p : Bool × Bool). p.1 ≡ true) attempts
    → IsAnswer (remove_cgroup attempts)
unfolding remove_cgroup
remove_cgroup-ends [] h = h
remove_cgroup-ends ((true, late) ∷ attempts) h = tt
remove_cgroup-ends ((false, true) ∷ attempts) h = tt
remove_cgroup-ends ((false, false) ∷ attempts) (inl e) = absurd (cc)
remove_cgroup-ends ((false, false) ∷ attempts) (inr h) = remove_cgroup-ends attempts h

force_pgid-ends :
    (k : Marks) (h : Handle) (rounds : List Round)
    → Any (λ (r : Round). r.late ≡ true) rounds
    → IsAnswer (force_pgid k h rounds).1
unfolding force_pgid
force_pgid-ends k h [] l = l
force_pgid-ends k h (r ∷ rounds) l = elim (Bool-cases (tree_empty k h r)) [
  | inl t ↦ rw t tt
  | inr f ↦ elim l [
    | inl e ↦ rw f (rw e tt)
    | inr m ↦ elim (Bool-cases r.late) [
      | inl e ↦ rw f (rw e tt)
      | inr e ↦ rw f (rw e (force_pgid-ends k h rounds m))
    ]
  ]
]

after_thaw-ends :
    (c : Cgroup) (ps : List ℤ)
    → Any (λ (p : Read × Bool). p.1 ≡ true) c.polls
    → IsAnswer (after_thaw c ps)
after_thaw-ends c [] h = tt
after_thaw-ends c (p ∷ ps) h = elim (Bool-cases c.thaw_works) [
  | inl t ↦ rw t (wait_cgroup_empty-ends c.polls h)
  | inr f ↦ rw f tt
]

after_freeze-ends :
    (c : Cgroup) (r : Read)
    → Any (λ (p : Read × Bool). p.1 ≡ true) c.polls
    → IsAnswer (after_freeze c r).1
after_freeze-ends c (pids ps) h = after_thaw-ends c ps h
after_freeze-ends c gone h = tt
after_freeze-ends c unreadable h = tt

force_freeze_drain_path-ends :
    (c : Cgroup)
    → Any (λ (p : Read × Bool). p.1 ≡ true) c.polls
    → IsAnswer (force_freeze_drain_path c).1
unfolding force_freeze_drain_path
force_freeze_drain_path-ends c h = elim (Bool-cases c.freeze_works) [
  | inl t ↦ rw t (after_freeze-ends c c.drain h)
  | inr f ↦ rw f tt
]

force_cgroup_kill_path-ends :
    (c : Cgroup)
    → Any (λ (p : Read × Bool). p.1 ≡ true) c.polls
    → IsAnswer (force_cgroup_kill_path c).1
unfolding force_cgroup_kill_path
force_cgroup_kill_path-ends c h = elim (Bool-cases c.kill_works) [
  | inl t ↦ rw t (wait_cgroup_empty-ends c.polls h)
  | inr f ↦ rw f (force_freeze_drain_path-ends c h)
]

force-ends :
    (k : Marks) (h : Handle) (a : Answers) → HaveDeadlines a → IsAnswer (force_by_mode k h a).1
force-ends k h a d = elim (Bool-cases (text_eq h.mode kill)) [
  | inl m ↦ rw m (force_cgroup_kill_path-ends a.cgroup d.polls)
  | inr n ↦ elim (Bool-cases (text_eq h.mode freeze)) [
    | inl m ↦ rw n (rw m (force_freeze_drain_path-ends a.cgroup d.polls))
    | inr o ↦ elim (Bool-cases (text_eq h.mode pgid)) [
      | inl m ↦ rw n (rw o (rw m (force_pgid-ends k h a.rounds d.rounds)))
      | inr m ↦ rw n (rw o (rw m tt))
    ]
  ]
]

both-ends : (e d : Option Bool) → IsAnswer e → IsAnswer d → IsAnswer (both e d)
both-ends none d h l = h
both-ends (some e) none h l = l
both-ends (some e) (some d) h l = tt

answered : (o : Option Bool) → IsAnswer o → (b : Bool) × (o ≡ some b)
answered none h = absurd (cc)
answered (some b) h = (b, refl)

-- A stop returns, with an error or without, in every mode and whatever the processes do, where each of
-- its loops asks once more behind its deadline.
pub stop_within-returns :
    (k : Marks) (h : Handle) (a : Answers)
    → HaveDeadlines a
    → (b : Bool) × ((stop_within k h a).1 ≡ some b)
unfolding stop_within
stop_within-returns k h a d = answered _ (elim (Bool-cases (is_empty h.cg_path)) [
  | inl e ↦ rw e (force-ends k h a d)
  | inr e ↦
      rw e (both-ends _ _ (force-ends k h a d) (remove_cgroup-ends a.cgroup.removals d.removals))
])
