-- ===== src/Proc/Kill/Verified.antt =====
-- internal/proc/handle_linux.go and scan_linux.go, `StopWithin` in pgid mode: the proofs on the
-- processes that its signals go to.
use pm.Base.{
  ℕ, sym, append-nil, Bool, ◌||◌, false, ◌≡◌, ◌⊎◌, inl, inr, refl, true, false, Bool-cases, Option,
  none, some, List, [], ◌∷◌, ◌++◌, map, codes, arith,
}
use pm.Proc.{Handle}
use pm.Proc.Scan.{Victim, kill_victims_verified, matches}
use pm.Proc.Kill.{
  Action, signal, signal_group, Round, Marks, tree_empty, force_pgid, sweep, group_signal,
  victims_in, Answers, signal_tree, stop_within,
}

-- The signals of a round to single processes: to victims of its scans, in their order and to each at
-- most once, and only where the read in front of the kill found the starttime of the scan.
abbrev pub Kills : Round → List Victim → List Action → Type 0
Kills r [] acts = acts ≡ []
Kills r (v ∷ vs) acts =
    ((rest : List Action) × (acts ≡ signal v.pid ∷ rest)
      × (r.start_of v.pid ≡ some v.starttime)
      × Kills r vs rest)
    ⊎ Kills r vs acts

-- At most one signal to the group, on a read that found the leader with the starttime of the launch.
abbrev pub GroupFirst : Handle → Option ℕ → List Action → Type 0
GroupFirst h start acts =
    (acts ≡ []) ⊎ ((acts ≡ signal_group h.pid ∷ []) × (start ≡ some h.leader_start))

-- What a round does with its reads.
abbrev pub IsSweep : Marks → Handle → Round → List Action → Type 0
IsSweep k h r acts =
    (group : List Action) × (single : List Action) × (acts ≡ group ++ single)
    × GroupFirst h r.leader group
    × Kills r (victims_in k h r.members r.escapees) single

abbrev pub is_last : Marks → Handle → Round → Bool
is_last k h r = tree_empty k h r || r.late

-- The rounds one after another, up to the one that finds the tree empty or the deadline passed; each
-- acts on its own reads.
abbrev pub AreSweeps : Marks → Handle → List Round → List Action → Type 0
AreSweeps k h [] acts = acts ≡ []
AreSweeps k h (r ∷ rounds) acts =
    (here : List Action) × (later : List Action) × (acts ≡ here ++ later)
    × IsSweep k h r here
    × ((is_last k h r ≡ true) × (later ≡ []) ⊎ (is_last k h r ≡ false) × AreSweeps k h rounds later)

-- The graceful signal on the read in front of it, and then the rounds.
abbrev pub IsVerified : Marks → Handle → Answers → List Action → Type 0
IsVerified k h a acts =
    (graceful : List Action) × (force : List Action) × (acts ≡ graceful ++ force)
    × GroupFirst h a.leader graceful
    × AreSweeps k h a.rounds force

matches-some : (o : Option ℕ) (n : ℕ) → matches o n ≡ true → o ≡ some n
matches-some none n e = cc
matches-some (some m) n e = ground arith

group_signal-GroupFirst :
    (h : Handle) (start : Option ℕ) → GroupFirst h start (group_signal h start)
group_signal-GroupFirst h start = elim (Bool-cases (matches start h.leader_start)) [
  | inl e ↦ inr (rw e refl, matches-some start h.leader_start e)
  | inr e ↦ inl (rw e refl)
]

kill_victims_verified-Kills :
    (r : Round) (vs : List Victim) → Kills r vs (map signal (kill_victims_verified r.start_of vs))
unfolding kill_victims_verified
kill_victims_verified-Kills r [] = refl
kill_victims_verified-Kills r (v ∷ vs) =
    let rest = kill_victims_verified-Kills r vs in
    elim (Bool-cases (matches (r.start_of v.pid) v.starttime)) [
      | inl e ↦ inl (
        map signal (kill_victims_verified r.start_of vs),
        rw e refl,
        matches-some (r.start_of v.pid) v.starttime e,
        rest,
      )
      | inr e ↦ inr (rw e rest)
    ]

sweep-IsSweep : (k : Marks) (h : Handle) (r : Round) → IsSweep k h r (sweep k h r)
unfolding sweep
sweep-IsSweep k h r = (
  group_signal h r.leader,
  map signal (kill_victims_verified r.start_of (victims_in k h r.members r.escapees)),
  refl,
  group_signal-GroupFirst h r.leader,
  kill_victims_verified-Kills r (victims_in k h r.members r.escapees),
)

force_pgid-AreSweeps :
    (k : Marks) (h : Handle) (rounds : List Round) → AreSweeps k h rounds (force_pgid k h rounds).0
unfolding force_pgid
force_pgid-AreSweeps k h [] = refl
force_pgid-AreSweeps k h (r ∷ rounds) =
    let here = sweep-IsSweep k h r in
    elim (Bool-cases (tree_empty k h r)) [
      | inl t ↦ (sweep k h r, [], rw t (sym (append-nil _)), here, inl (rw t refl, refl))
      | inr f ↦ elim (Bool-cases r.late) [
        | inl l ↦
            (sweep k h r, [], rw f (rw l (sym (append-nil _))), here, inl (rw f (rw l refl), refl))
        | inr l ↦ (
          sweep k h r,
          (force_pgid k h rounds).0,
          rw f (rw l refl),
          here,
          inr (rw f (rw l refl), force_pgid-AreSweeps k h rounds),
        )
      ]
    ]

-- In pgid mode a stop writes to no cgroup, and its signals are those of the graceful phase and of its
-- rounds, up to the round that finds the tree empty or the deadline passed. The graceful phase and
-- each round signal the group at most once, and on a read of their own that found the leader with the
-- starttime of the launch; a round signals single processes after that, each a victim of its own
-- scans, and only where its read in front of the kill found the starttime of the scan again.
pub stop_within-IsVerified :
    (k : Marks) (h : Handle) (a : Answers)
    → h.mode ≡ codes "pgid"
    → IsVerified k h a (stop_within k h a).0
unfolding stop_within signal_tree
stop_within-IsVerified k h a e = (
  group_signal h a.leader,
  (force_pgid k h a.rounds).0,
  simp e refl,
  group_signal-GroupFirst h a.leader,
  force_pgid-AreSweeps k h a.rounds,
)
