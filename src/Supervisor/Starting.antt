-- ===== src/Supervisor/Starting.antt =====
-- internal/supervisor/supervisor.go, `StartApps`: the proofs on the allocation of ids.
use pm.Base.{
  ℕ, suc, ◌+◌, ◌≤◌, ◌<◌, ◌≡◌, ◌≢◌, ◌⊎◌, ◌∙◌, sym, ltb, refl, inl, inr, Bool-cases, some, List, [],
  ◌∷◌, length, arith, ℤ, pos, negsuc, int_eq_iff, Map, lookup, insert, lookup-insert,
}
use pm.Config.{Config}
use pm.Machine.State.{World}
use pm.Machine.Build.{Built, built, refused}
use pm.Supervisor.Registry.{
  Entry, Registry, register, registered, start_one, start_each, start_apps,
}

-- Every id in use is below the counter.
abbrev pub IdsBelow : Registry → Type 0
IdsBelow r = (id : ℕ) (e : Entry) → lookup (pos id) r.apps ≡ some e → id < r.next_id

insert-other : (k j : ℤ) (v : Entry) (m : Map Entry) → k ≢ j → lookup j (insert k v m) ≡ lookup j m
insert-other k j v m h = rw lookup-insert (ground (arith, int_eq_iff k j))

module _ (w : World) (pid : ℕ) (r : Registry) where
  registered-other :
      (b : Built) (k : ℤ) → pos pid ≢ k → lookup k (registered pid w r b).0.apps ≡ lookup k r.apps
  unfolding register
  registered-other (refused e) k h = refl
  registered-other (built a) k h = insert-other (pos pid) k _ r.apps h

  registered-next : (b : Built) → (registered pid w r b).0.next_id ≡ r.next_id
  unfolding register
  registered-next (refused e) = refl
  registered-next (built a) = refl

  abbrev IsId : ℕ → ℤ → Type 0
  IsId n id = (id ≡ pos n) ⊎ (id ≡ negsuc 0)

  registered-IsId : (b : Built) → IsId pid (registered pid w r b).1
  registered-IsId (refused e) = inr refl
  registered-IsId (built a) = inl refl

start_each-other :
    (ws : ℕ → World) (fill : Config → ℕ → Config) (cfgs : List Config) (pid : ℕ) (r : Registry)
    (k : ℤ)
    → ((j : ℕ) → pid ≤ j → j < pid + length cfgs → pos j ≢ k)
    → lookup k (start_each ws fill cfgs pid r).0.apps ≡ lookup k r.apps
unfolding start_each start_one
start_each-other ws fill [] pid r k h = refl
start_each-other ws fill (cfg ∷ rest) pid r k h =
    start_each-other ws fill rest (suc pid) _ k (λ j l u. h j (omega arith) (omega arith))
    ∙ registered-other (ws pid) pid r _ k (h pid (omega arith) (omega arith))

start_each-next :
    (ws : ℕ → World) (fill : Config → ℕ → Config) (cfgs : List Config) (pid : ℕ) (r : Registry)
    → (start_each ws fill cfgs pid r).0.next_id ≡ r.next_id
unfolding start_each start_one
start_each-next ws fill [] pid r = refl
start_each-next ws fill (cfg ∷ rest) pid r =
    start_each-next ws fill rest (suc pid) _ ∙ registered-next (ws pid) pid r _

-- The ids of a batch: consecutive from the first, or -1.
abbrev pub AreIds : ℕ → List ℤ → Type 0
AreIds n [] = Unit
AreIds n (id ∷ ids) = ((id ≡ pos n) ⊎ (id ≡ negsuc 0)) × AreIds (suc n) ids

start_each-AreIds :
    (ws : ℕ → World) (fill : Config → ℕ → Config) (cfgs : List Config) (pid : ℕ) (r : Registry)
    → AreIds pid (start_each ws fill cfgs pid r).1
unfolding start_each start_one
start_each-AreIds ws fill [] pid r = tt
start_each-AreIds ws fill (cfg ∷ rest) pid r =
    (registered-IsId (ws pid) pid r _, start_each-AreIds ws fill rest (suc pid) _)

batch-below :
    (ws : ℕ → World) (fill : Config → ℕ → Config) (cfgs : List Config) (r : Registry) (id : ℕ)
    (e : Entry)
    → IdsBelow r
    → let r' = record r { next_id = r.next_id + length cfgs } in
      lookup (pos id) (start_each ws fill cfgs r.next_id r').0.apps ≡ some e
      → id < r.next_id + length cfgs
batch-below ws fill cfgs r id e v h = elim (Bool-cases (ltb id (r.next_id + length cfgs))) [
  | inl under ↦ ground arith
  | inr over ↦
      let r' = record r { next_id = r.next_id + length cfgs } in
      let old = start_each-other ws fill cfgs r.next_id r' (pos id) (λ j l u. ground arith) in
      omega (arith, v id e (sym old ∙ h))
]

-- A batch that starts where every id in use is below the counter answers with consecutive ids from
-- the counter on, or -1 for an app that cannot be built; it moves the counter past them, and keeps
-- every id in use below it.
pub start_apps-AreIds :
    (ws : ℕ → World) (fill : Config → ℕ → Config) (cfgs : List Config) (r : Registry)
    → IdsBelow r
    → let (s, ids, e) = start_apps ws fill cfgs r in
      AreIds r.next_id ids × (s.next_id ≡ r.next_id + length cfgs) × IdsBelow s
unfolding start_apps
start_apps-AreIds ws fill [] r v = (tt, omega arith, v)
start_apps-AreIds ws fill (cfg ∷ rest) r v =
    let cfgs = cfg ∷ rest in
    let r' = record r { next_id = r.next_id + length cfgs } in
    let next = start_each-next ws fill cfgs r.next_id r' in
    (
      start_each-AreIds ws fill cfgs r.next_id r',
      next,
      λ id e h. rw next (batch-below ws fill cfgs r id e v h),
    )

-- A batch that starts where every id in use is below the counter leaves each registered app as it
-- was, also where one of the batch cannot be built or a spawn fails.
pub start_apps-keeps :
    (ws : ℕ → World) (fill : Config → ℕ → Config) (cfgs : List Config) (r : Registry) (k : ℤ)
    (x : Entry)
    → IdsBelow r
    → lookup k r.apps ≡ some x
    → lookup k (start_apps ws fill cfgs r).0.apps ≡ some x
unfolding start_apps
start_apps-keeps ws fill [] r k x v h = h
start_apps-keeps ws fill (cfg ∷ rest) r k x v h =
    let cfgs = cfg ∷ rest in
    let r' = record r { next_id = r.next_id + length cfgs } in
    start_each-other ws fill cfgs r.next_id r' k (λ j l u p. absurd (omega (arith, v j x (rw p h))))
    ∙ h
