-- ===== src/Proc/Snapshot/Attributed.antt =====
-- internal/proc/snapshot_linux.go, `AttributeTree` in pgid mode: the proofs on the pids that it
-- gives to an app.
use pm.Base.{
  ℕ, suc, ◌+◌, ◌≡◌, refl, sym, ◌∙◌, ap, Bool, true, false, inl, inr, Bool-cases, Option, none, some,
  List, [], ◌∷◌, ◌++◌, All, Text, text_eq, ◌==◌, ◌&&◌, not, codes, if◌then◌else◌, arith, ℤ, pos,
  ltb_ℤ, ltb_ℤ→le, ◌≤ℤ◌, int_eq, int_eq_iff, Map, lookup, insert, lookup-insert,
}
use pm.Proc.{Handle}
use pm.Proc.Stat.{StatInfo}
use pm.Proc.Snapshot.{
  ProcInfo, keep_pid, info_of, stat_of, read_pids, read_snapshot, insert_int, sort_ints, select,
  is_member, is_child, in_group, pgrp_members, index_marker, marker_of, index_markers,
  orphan_marker_index, reparented_candidates, is_orphan, pgid_tree, attribute_tree,
}

abbrev pub count : ℤ → List ℤ → ℕ
count p [] = 0
count p (x ∷ xs) = if int_eq x p then suc (count p xs) else count p xs

abbrev pub IsSorted : List ℤ → Type 0
IsSorted [] = Unit
IsSorted (n ∷ ns) = All (λ m. n ≤ℤ m) ns × IsSorted ns

abbrev Distinct {ℓ} : {V : Type ℓ} → Map V → Type ℓ
Distinct [] = Unit
Distinct ((k, v) ∷ m) = (lookup k m ≡ none) × Distinct m

insert-Distinct {ℓ} :
    {V : Type ℓ} (k : ℤ) (v : V) (m : Map V) → Distinct m → Distinct (insert k v m)
unfolding insert lookup
insert-Distinct k v [] h = (refl, tt)
insert-Distinct k v ((j, w) ∷ m) h = elim (Bool-cases (int_eq j k)) [
  | inl e ↦ rw e (ground (arith, int_eq_iff j k, h.0), h.1)
  | inr e ↦ rw e (
    rw (lookup-insert k j v m) (ground (arith, int_eq_iff k j, int_eq_iff j k, h.0)),
    insert-Distinct k v m h.1,
  )
]

count-insert_int : (p n : ℤ) (ns : List ℤ) → count p (insert_int n ns) ≡ count p (n ∷ ns)
unfolding insert_int
count-insert_int p n [] = refl
count-insert_int p n (m ∷ ms) = let ih = count-insert_int p n ms in ground arith

count-sort_ints : (p : ℤ) (ns : List ℤ) → count p (sort_ints ns) ≡ count p ns
unfolding sort_ints
count-sort_ints p [] = refl
count-sort_ints p (n ∷ ns) =
    let ih = count-sort_ints p ns in let e = count-insert_int p n (sort_ints ns) in ground arith

count-append : (p : ℤ) (xs ys : List ℤ) → count p (xs ++ ys) ≡ count p xs + count p ys
count-append p [] ys = omega arith
count-append p (x ∷ xs) ys = let ih = count-append p xs ys in ground arith

All-le : (k n : ℤ) (ns : List ℤ) → k ≤ℤ n → All (λ m. n ≤ℤ m) ns → All (λ m. k ≤ℤ m) ns
All-le k n [] h a = tt
All-le k n (m ∷ ms) h a = (let b = a.0 in omega arith, All-le k n ms h a.1)

All-insert_int :
    (k n : ℤ) (ns : List ℤ) → k ≤ℤ n → All (λ m. k ≤ℤ m) ns → All (λ m. k ≤ℤ m) (insert_int n ns)
unfolding insert_int
All-insert_int k n [] h a = (h, tt)
All-insert_int k n (m ∷ ms) h a = elim (Bool-cases (ltb_ℤ m n)) [
  | inl e ↦ rw (e, insert_int) (a.0, All-insert_int k n ms h a.1)
  | inr e ↦ rw (e, insert_int) (h, a)
]

insert_int-IsSorted : (n : ℤ) (ns : List ℤ) → IsSorted ns → IsSorted (insert_int n ns)
unfolding insert_int
insert_int-IsSorted n [] h = (tt, tt)
insert_int-IsSorted n (m ∷ ms) h = elim (Bool-cases (ltb_ℤ m n)) [
  | inl e ↦
      rw (e, insert_int) (All-insert_int m n ms (ground arith) h.0, insert_int-IsSorted n ms h.1)
  | inr e ↦ let le = ltb_ℤ→le m n e in rw (e, insert_int) ((le, All-le n m ms le h.0), h)
]

pub sort_ints-IsSorted : (ns : List ℤ) → IsSorted (sort_ints ns)
unfolding sort_ints
sort_ints-IsSorted [] = tt
sort_ints-IsSorted (n ∷ ns) = insert_int-IsSorted n (sort_ints ns) (sort_ints-IsSorted ns)

abbrev pub passes {ℓ} : {V : Type ℓ} → (ℤ → V → Bool) → ℤ → Option V → Bool
passes keep p none = false
passes keep p (some v) = keep p v

abbrev pub bit : Bool → ℕ
bit b = if b then 1 else 0

count-select {ℓ} :
    {V : Type ℓ} (keep : ℤ → V → Bool) (p : ℤ) (m : Map V)
    → Distinct m
    → count p (select keep m) ≡ bit (passes keep p (lookup p m))
unfolding select lookup
count-select keep p [] h = refl
count-select keep p ((j, v) ∷ m) h = elim (Bool-cases (int_eq j p)) [
  | inl e ↦
      let same = (int_eq_iff j p).0 e in
      let nothing : lookup p m ≡ none = rw same at h.0 in
      let ih : count p (select keep m) ≡ 0 = rw (nothing) at (count-select keep p m h.1) in
      let k : keep j v ≡ keep p v = ap (λ q. keep q v) same in
      rw e (elim (Bool-cases (keep j v)) [
        | inl t ↦ let t2 : keep p v ≡ true = sym k ∙ t in rw t (rw t2 (rw e (rw ih refl)))
        | inr f ↦ let f2 : keep p v ≡ false = sym k ∙ f in rw f (rw f2 (rw ih refl))
      ])
  | inr e ↦
      let ih = count-select keep p m h.1 in
      rw e (elim (Bool-cases (keep j v)) [ inl t ↦ rw t (rw e ih) | inr f ↦ rw f ih ])
]

keep_pid-Distinct :
    (page : ℕ) (pid : ℤ) (o : Option StatInfo) (snap : Map ProcInfo)
    → Distinct snap
    → Distinct (keep_pid page pid o snap)
keep_pid-Distinct page pid none snap h = h
keep_pid-Distinct page pid (some si) snap h = insert-Distinct pid (info_of page si) snap h

index_marker-Distinct :
    (pid : ℤ) (o : Option Text) (out : Map Text) → Distinct out → Distinct (index_marker pid o out)
index_marker-Distinct pid none out h = h
index_marker-Distinct pid (some v) out h = insert-Distinct pid v out h

read_pids-Distinct :
    (page : ℕ) (files : List (ℤ × Option Text)) (snap : Map ProcInfo)
    → Distinct snap
    → Distinct (read_pids page files snap)
unfolding read_pids
read_pids-Distinct page [] snap h = h
read_pids-Distinct page ((pid, stat) ∷ rest) snap h =
    read_pids-Distinct page rest _ (keep_pid-Distinct page pid (stat_of stat) snap h)

index_markers-Distinct :
    (environ : ℤ → Option Text) (pids : List ℤ) (out : Map Text)
    → Distinct out
    → Distinct (index_markers environ pids out)
unfolding index_markers
index_markers-Distinct environ [] out h = h
index_markers-Distinct environ (pid ∷ pids) out h =
    index_markers-Distinct environ pids _
      (index_marker-Distinct pid (marker_of (environ pid)) out h)

count-pgid_tree :
    (p pgid : ℤ) (marker : Text) (snap : Map ProcInfo) (orphans : Map Text)
    → Distinct snap
    → Distinct orphans
    → count p (pgid_tree snap pgid marker orphans)
      ≡ bit (passes (is_member pgid) p (lookup p snap))
        + bit (passes (is_orphan snap pgid marker) p (lookup p orphans))
unfolding pgid_tree pgrp_members
count-pgid_tree p pgid marker snap orphans h k =
    count-sort_ints p
      (sort_ints (select (is_member pgid) snap) ++ select (is_orphan snap pgid marker) orphans)
    ∙ count-append p (sort_ints (select (is_member pgid) snap))
        (select (is_orphan snap pgid marker) orphans)
    ∙ rw (count-sort_ints p (select (is_member pgid) snap)) (
        rw (count-select (is_member pgid) p snap h)
          (rw (count-select (is_orphan snap pgid marker) p orphans k) refl))

pgid_tree-IsSorted :
    (snap : Map ProcInfo) (pgid : ℤ) (marker : Text) (orphans : Map Text)
    → IsSorted (pgid_tree snap pgid marker orphans)
unfolding pgid_tree
pgid_tree-IsSorted snap pgid marker orphans =
    sort_ints-IsSorted (pgrp_members pgid snap ++ select (is_orphan snap pgid marker) orphans)

-- What the environment of a process says of the app that it belongs to.
abbrev pub has_marker : Text → Option Text → Bool
has_marker marker none = false
has_marker marker (some m) = text_eq m marker

-- Whether a process is in the tree of an app: no zombie, and in the group of its leader, or a child of
-- the daemon whose environment has the marker of the app.
abbrev pub belongs : ℤ → ℤ → Text → Option Text → Option ProcInfo → Bool
belongs self pgid marker env none = false
belongs self pgid marker env (some info) =
    if info.state == b'Z'
    then false
    else if int_eq info.pgrp pgid
    then true
    else int_eq info.ppid self && has_marker marker (marker_of env)

abbrev is_in : ℤ → List ℤ → Bool
is_in p [] = false
is_in p (x ∷ xs) = if int_eq x p then true else is_in p xs

is_in-count : (p : ℤ) (xs : List ℤ) (b : Bool) → count p xs ≡ bit b → is_in p xs ≡ b
is_in-count p [] b h = ground arith
is_in-count p (x ∷ xs) b h = elim (Bool-cases (int_eq x p)) [
  | inl e ↦ let k = rw e at h in rw e (ground arith)
  | inr e ↦ rw e (is_in-count p xs b (rw e at h))
]

abbrev pick {ℓ} : {V : Type ℓ} → Bool → Option V → Option V → Option V
pick false o rest = rest
pick true none rest = rest
pick true (some v) rest = some v

lookup-index_marker :
    (p pid : ℤ) (o : Option Text) (out : Map Text)
    → lookup p (index_marker pid o out) ≡ pick (int_eq pid p) o (lookup p out)
lookup-index_marker p pid none out = elim (Bool-cases (int_eq pid p)) [
  | inl e ↦ rw e refl
  | inr e ↦ rw e refl
]
lookup-index_marker p pid (some v) out = elim (Bool-cases (int_eq pid p)) [
  | inl e ↦ rw (lookup-insert pid p v out) (rw e refl)
  | inr e ↦ rw (lookup-insert pid p v out) (rw e refl)
]

pick_more {ℓ} :
    {V : Type ℓ} (b : Bool) (o rest : Option V) → pick b o (pick true o rest) ≡ pick true o rest
pick_more false o rest = refl
pick_more true none rest = refl
pick_more true (some v) rest = refl

lookup-index_markers :
    (environ : ℤ → Option Text) (p : ℤ) (pids : List ℤ) (out : Map Text)
    → lookup p (index_markers environ pids out)
      ≡ pick (is_in p pids) (marker_of (environ p)) (lookup p out)
unfolding index_markers
lookup-index_markers environ p [] out = refl
lookup-index_markers environ p (pid ∷ pids) out =
    let ih = lookup-index_markers environ p pids (index_marker pid (marker_of (environ pid)) out) in
    let first = lookup-index_marker p pid (marker_of (environ pid)) out in
    elim (Bool-cases (int_eq pid p)) [
      | inl e ↦
          let same : marker_of (environ pid) ≡ marker_of (environ p) =
            ap (λ q. marker_of (environ q)) ((int_eq_iff pid p).0 e) in
          ih
          ∙ rw first
              (rw e (rw same (pick_more (is_in p pids) (marker_of (environ p)) (lookup p out))))
      | inr e ↦ ih ∙ rw first (rw e refl)
    ]

module _ (environ : ℤ → Option Text) (self p : ℤ) (snap : Map ProcInfo) where
  is_in-reparented_candidates :
      Distinct snap
      → is_in p (reparented_candidates self snap) ≡ passes (is_child self) p (lookup p snap)
  unfolding reparented_candidates
  is_in-reparented_candidates h =
      is_in-count p (sort_ints (select (is_child self) snap))
        (passes (is_child self) p (lookup p snap))
        (count-sort_ints p (select (is_child self) snap) ∙ count-select (is_child self) p snap h)

  lookup-orphans :
      Distinct snap
      → lookup p (index_markers environ (reparented_candidates self snap) [])
        ≡ pick (passes (is_child self) p (lookup p snap)) (marker_of (environ p)) none
  unfolding lookup
  lookup-orphans h =
      lookup-index_markers environ p (reparented_candidates self snap) []
      ∙ ap (λ b. pick b (marker_of (environ p)) none) (is_in-reparented_candidates h)

-- Whether the reference counts the marker of a process that is none of the group.
abbrev marked : ℤ → Text → Option ProcInfo → Option Text → Bool
marked pgid marker o none = false
marked pgid marker o (some m) = text_eq m marker && not (in_group pgid o)

is_orphan-marked :
    (p pgid : ℤ) (marker : Text) (snap : Map ProcInfo) (x : Option Text)
    → passes (is_orphan snap pgid marker) p x ≡ marked pgid marker (lookup p snap) x
is_orphan-marked p pgid marker snap none = refl
is_orphan-marked p pgid marker snap (some m) = refl

marked-belongs :
    (self p pgid : ℤ) (marker : Text) (m : Option Text) (env : Option Text) (o : Option ProcInfo)
    → marker_of env ≡ m
    → bit (passes (is_member pgid) p o)
        + bit (marked pgid marker o (pick (passes (is_child self) p o) m none))
      ≡ bit (belongs self pgid marker env o)
marked-belongs self p pgid marker none env none e = omega arith
marked-belongs self p pgid marker (some m) env none e = omega arith
marked-belongs self p pgid marker none env (some info) e = rw e (ground arith)
marked-belongs self p pgid marker (some m) env (some info) e = rw e (ground arith)

-- In pgid mode the tree that one pass attributes to an app is sorted, and has each process once that is
-- no zombie and is in the group of the leader, or is a child of the daemon with the marker of the app in
-- its environment; it has no other process.
pub attribute_tree-belongs :
    (page : ℕ) (files : List (ℤ × Option Text)) (environ : ℤ → Option Text) (self p : ℤ)
    (h : Handle) (procs : Option Text) (marker : Text)
    → h.mode ≡ codes "pgid"
    → let snap = read_snapshot page files in
      let tree = attribute_tree snap h procs marker (orphan_marker_index environ self snap) in
      IsSorted tree
      × (count p tree ≡ bit (belongs self (pos h.pid) marker (environ p) (lookup p snap)))
unfolding attribute_tree read_snapshot orphan_marker_index
attribute_tree-belongs page files environ self p h procs marker e =
    let snap = read_pids page files [] in
    let orphans = index_markers environ (reparented_candidates self snap) [] in
    let d = read_pids-Distinct page files [] tt in
    let k = index_markers-Distinct environ (reparented_candidates self snap) [] tt in
    let found =
      is_orphan-marked p (pos h.pid) marker snap (lookup p orphans)
      ∙ ap (marked (pos h.pid) marker (lookup p snap)) (lookup-orphans environ self p snap d) in
    simp e (
      pgid_tree-IsSorted snap (pos h.pid) marker orphans,
      count-pgid_tree p (pos h.pid) marker snap orphans d k
          ∙ ap (λ b. bit (passes (is_member (pos h.pid)) p (lookup p snap)) + bit b) found
          ∙ marked-belongs self p (pos h.pid) marker (marker_of (environ p)) (environ p)
              (lookup p snap) refl,
    )
