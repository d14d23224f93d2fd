-- ===== src/Supervisor/Listing.antt =====
-- internal/supervisor/supervisor.go, `List`: the proofs on what it answers.
use pm.Base.{
  ℕ, ◌≤◌, ◌≡◌, ◌⊎◌, refl, sym, ◌==◌, ==_iff, inl, inr, Bool-cases, some, Option-cases, List, [],
  ◌∷◌, All, ltb, not_ltb→le, arith, pos, negsuc, int_eq, Map, lookup,
}
use pm.Machine.State.{App}
use pm.Supervisor.Registry.{Entry, Registry}
use pm.Supervisor.Commands.{AppView, insert_id, sorted_ids, views, list}

abbrev pub IsAscending : List ℕ → Type 0
IsAscending [] = Unit
IsAscending (n ∷ ns) = All (λ m. n ≤ m) ns × IsAscending ns

abbrev pub ids_of : List AppView → List ℕ
ids_of [] = []
ids_of (v ∷ vs) = v.id ∷ ids_of vs

All-le : (k n : ℕ) (ns : List ℕ) → k ≤ n → All (λ m. n ≤ m) ns → All (λ m. k ≤ m) ns
All-le k n [] h a = tt
All-le k n (m ∷ ms) h a = (let b = a.0 in omega arith, All-le k n ms h a.1)

All-insert_id :
    (k n : ℕ) (ns : List ℕ) → k ≤ n → All (λ m. k ≤ m) ns → All (λ m. k ≤ m) (insert_id n ns)
unfolding insert_id
All-insert_id k n [] h a = (h, tt)
All-insert_id k n (m ∷ ms) h a = elim (Bool-cases (ltb m n)) [
  | inl e ↦ rw (e, insert_id) (a.0, All-insert_id k n ms h a.1)
  | inr e ↦ rw (e, insert_id) (h, a)
]

insert_id-IsAscending : (n : ℕ) (ns : List ℕ) → IsAscending ns → IsAscending (insert_id n ns)
unfolding insert_id
insert_id-IsAscending n [] h = (tt, tt)
insert_id-IsAscending n (m ∷ ms) h = elim (Bool-cases (ltb m n)) [
  | inl e ↦
      rw (e, insert_id) (All-insert_id m n ms (ground arith) h.0, insert_id-IsAscending n ms h.1)
  | inr e ↦ let le = not_ltb→le m n e in rw (e, insert_id) ((le, All-le n m ms le h.0), h)
]

sorted_ids-IsAscending : (m : Map Entry) → IsAscending (sorted_ids m)
unfolding sorted_ids
sorted_ids-IsAscending [] = tt
sorted_ids-IsAscending ((pos id, e) ∷ m) =
    insert_id-IsAscending id (sorted_ids m) (sorted_ids-IsAscending m)
sorted_ids-IsAscending ((negsuc id, e) ∷ m) = sorted_ids-IsAscending m

All-views :
    (k : ℕ) (ns : List ℕ) (r : Registry)
    → All (λ m. k ≤ m) ns
    → All (λ m. k ≤ m) (ids_of (views ns r))
unfolding views
All-views k [] r a = tt
All-views k (n ∷ ns) r a = elim (Option-cases (lookup (pos n) r.apps)) [
  | inl e ↦ rw (e, views) (All-views k ns r a.1)
  | inr (x, e) ↦ rw (e, views) (a.0, All-views k ns r a.1)
]

views-IsAscending :
    (ns : List ℕ) (r : Registry) → IsAscending ns → IsAscending (ids_of (views ns r))
unfolding views
views-IsAscending [] r h = tt
views-IsAscending (n ∷ ns) r h = elim (Option-cases (lookup (pos n) r.apps)) [
  | inl e ↦ rw (e, views) (views-IsAscending ns r h.1)
  | inr (x, e) ↦ rw (e, views) (All-views n ns r h.0, views-IsAscending ns r h.1)
]

-- Whether an app is in a listing, under an id.
abbrev pub Lists : ℕ → App → List AppView → Type 0
Lists id a [] = ⊥
Lists id a (v ∷ vs) = (v.id ≡ id) × (v.app ≡ a) ⊎ Lists id a vs

abbrev Has : ℕ → List ℕ → Type 0
Has id [] = ⊥
Has id (n ∷ ns) = (n ≡ id) ⊎ Has id ns

insert_id-head : (id : ℕ) (ns : List ℕ) → Has id (insert_id id ns)
unfolding insert_id
insert_id-head id [] = inl refl
insert_id-head id (m ∷ ms) = elim (Bool-cases (ltb m id)) [
  | inl e ↦ rw (e, insert_id) (inr (insert_id-head id ms))
  | inr e ↦ rw (e, insert_id) (inl refl)
]

insert_id-Has : (n id : ℕ) (ns : List ℕ) → Has id ns → Has id (insert_id n ns)
unfolding insert_id
insert_id-Has n id [] h = absurd h
insert_id-Has n id (m ∷ ms) h = elim (Bool-cases (ltb m n)) [
  | inl e ↦ rw (e, insert_id) (elim h [ inl x ↦ inl x | inr y ↦ inr (insert_id-Has n id ms y) ])
  | inr e ↦ rw (e, insert_id) (inr h)
]

sorted_ids-Has :
    (id : ℕ) (e : Entry) (m : Map Entry) → lookup (pos id) m ≡ some e → Has id (sorted_ids m)
unfolding sorted_ids lookup int_eq
sorted_ids-Has id e [] h = cc
sorted_ids-Has id e ((pos n, x) ∷ m) h = elim (Bool-cases (n == id)) [
  | inl same ↦ rw (sym ((==_iff n id).0 same)) (insert_id-head n (sorted_ids m))
  | inr apart ↦ insert_id-Has n id (sorted_ids m) (sorted_ids-Has id e m (rw apart at h))
]
sorted_ids-Has id e ((negsuc n, x) ∷ m) h = sorted_ids-Has id e m h

views-Lists :
    (id : ℕ) (e : Entry) (ns : List ℕ) (r : Registry)
    → lookup (pos id) r.apps ≡ some e
    → Has id ns
    → Lists id e.app (views ns r)
unfolding views
views-Lists id e [] r f h = absurd h
views-Lists id e (n ∷ ns) r f (inl same) = rw same (rw (f, views) (inl (refl, refl)))
views-Lists id e (n ∷ ns) r f (inr later) = elim (Option-cases (lookup (pos n) r.apps)) [
  | inl x ↦ rw (x, views) (views-Lists id e ns r f later)
  | inr (y, x) ↦ rw (x, views) (inr (views-Lists id e ns r f later))
]

-- The listing is in the order of the ids.
pub list-IsAscending : (r : Registry) → IsAscending (ids_of (list r))
unfolding list
list-IsAscending r = views-IsAscending (sorted_ids r.apps) r (sorted_ids-IsAscending r.apps)

-- Every app that is registered under an id is listed, with its state.
pub list-Lists :
    (id : ℕ) (e : Entry) (r : Registry) → lookup (pos id) r.apps ≡ some e → Lists id e.app (list r)
unfolding list
list-Lists id e r f = views-Lists id e (sorted_ids r.apps) r f (sorted_ids-Has id e r.apps f)
