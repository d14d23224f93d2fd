-- ===== src/Supervisor/Naming.antt =====
-- How an identifier finds its app: by number, by name, and by name while a reload is in flight.
use pm.Base.{
  ℕ, ◌≤◌, ◌<◌, ◌^◌, ◌≡◌, refl, inl, inr, true, false, Bool-cases, ◌&&◌, Option, none, some, [], ◌∷◌,
  All, Text, text_eq, ltb, if◌then◌else◌, arith, ℤ, pos, negsuc, atoi, itoa, atoi-itoa, Map, lookup,
  delete,
}
use pm.Supervisor.Registry.{Entry, Registry}
use pm.Supervisor.Commands.{best_match, resolve, at_key, better, delete_app, forget, update}
use pm.Supervisor.Rolling.{map_laws, keys_apart}
use pm.Machine.State.{World}
use pm.Machine.Handlers.{on_delete}

-- The decimal text of an id resolves to the app at that id, and to no app where there is none.
pub resolve-itoa :
    (id : ℕ) (r : Registry)
    → id < 2 ^ 63
    → resolve (itoa id) r ≡ at_key (pos id) (lookup (pos id) r.apps)
unfolding resolve
resolve-itoa id r h = rw (atoi-itoa id h)

best-le :
    (name : Text) (m : Map Entry) (j k : ℤ) (b e : Entry)
    → best_match name m (some (j, b)) ≡ some (k, e)
    → e.app.id ≤ b.app.id
unfolding best_match
best-le name [] j k b e h = ground arith
best-le name ((i, x) ∷ m) j k b e h =
    elim (Bool-cases (text_eq x.app.cfg.name name && ltb x.app.id b.app.id)) [
      | inl wins ↦ let under = best-le name m i k x e (rw (wins, best_match) at h) in ground arith
      | inr keeps ↦ best-le name m j k b e (rw (keeps, best_match) at h)
    ]

best_match-least :
    (name : Text) (m : Map Entry) (best : Option (ℤ × Entry)) (k : ℤ) (e : Entry)
    → best_match name m best ≡ some (k, e)
    → All (λ x. text_eq x.1.app.cfg.name name ≡ true → e.app.id ≤ x.1.app.id) m
unfolding best_match
best_match-least name [] best k e h = tt
best_match-least name ((i, x) ∷ m) none k e h =
    (λ q. best-le name m i k x e (rw q at h), best_match-least name m _ k e h)
best_match-least name ((i, x) ∷ m) (some (j, b)) k e h = (
  λ q. elim (Bool-cases (ltb x.app.id b.app.id)) [
    | inl l ↦ best-le name m i k x e (rw (q, l) at h)
    | inr l ↦ let under = best-le name m j k b e (rw (q, l) at h) in ground arith
  ],
  best_match-least name m _ k e h,
)

abbrev IsNamed : Text → Option (ℤ × Entry) → Type 0
IsNamed name none = Unit
IsNamed name (some (k, e)) = text_eq e.app.cfg.name name ≡ true

choice-IsNamed :
    (name : Text) (i : ℤ) (x : Entry) (best : Option (ℤ × Entry))
    → IsNamed name best
    → IsNamed name (if text_eq x.app.cfg.name name && better x best then some (i, x) else best)
choice-IsNamed name i x best h = elim (Bool-cases (text_eq x.app.cfg.name name && better x best)) [
  | inl wins ↦ rw wins (ground arith)
  | inr keeps ↦ rw keeps h
]

best_match-IsNamed :
    (name : Text) (m : Map Entry) (best : Option (ℤ × Entry))
    → IsNamed name best
    → IsNamed name (best_match name m best)
unfolding best_match
best_match-IsNamed name [] best h = h
best_match-IsNamed name ((i, x) ∷ m) best h =
    best_match-IsNamed name m _ (choice-IsNamed name i x best h)

best-stays :
    (name : Text) (m : Map Entry) (k : ℤ) (e : Entry)
    → All (λ x. e.app.id ≤ x.1.app.id) m
    → best_match name m (some (k, e)) ≡ some (k, e)
unfolding best_match
best-stays name [] k e h = refl
best-stays name ((i, x) ∷ m) k e h =
    elim (Bool-cases (text_eq x.app.cfg.name name && ltb x.app.id e.app.id)) [
      | inl wins ↦ absurd (ground arith)
      | inr keeps ↦ rw (keeps) (best-stays name m k e h.1)
    ]

named_of :
    (name : Text) (r : Option (ℤ × Entry)) (k : ℤ) (e : Entry)
    → r ≡ some (k, e)
    → IsNamed name r
    → text_eq e.app.cfg.name name ≡ true
named_of name none k e h v = cc
named_of name (some (j, b)) k e h v = ground arith

-- An identifier that is no number finds an app of that name whose id is the least of those that have
-- the name, parked incarnations included.
pub resolve_name :
    (name : Text) (r : Registry) (k : ℤ) (e : Entry)
    → atoi name ≡ none
    → resolve name r ≡ some (k, e)
    → (text_eq e.app.cfg.name name ≡ true)
      × All (λ x. text_eq x.1.app.cfg.name name ≡ true → e.app.id ≤ x.1.app.id) r.apps
unfolding resolve
resolve_name name r k e n h =
    let f : best_match name r.apps none ≡ some (k, e) = rw (n, resolve) at h in
    (
      named_of name _ k e f (best_match-IsNamed name r.apps none tt),
      best_match-least name r.apps none k e f,
    )

forget-apps : (id : ℕ) (r : Registry) → (forget id r).apps ≡ delete (pos id) r.apps
unfolding forget
forget-apps id r = ground arith

first_found :
    (name : Text) (id : ℕ) (old : Entry) (m : Map Entry)
    → text_eq old.app.cfg.name name ≡ true
    → All (λ x. old.app.id ≤ x.1.app.id) m
    → best_match name ((negsuc id, old) ∷ m) none ≡ some (negsuc id, old)
unfolding best_match
first_found name id old m q v = rw q (best-stays name m (negsuc id) old v)

-- While a reload has an old incarnation parked, a name can find that one: where the loop meets it
-- first and no other app of the registry has a lesser id, a delete by name ends the parked
-- incarnation, and takes the replacement, which still runs, out of the registry.
pub delete_app-parked :
    (w : World) (name : Text) (r : Registry) (old : Entry) (m : Map Entry)
    → atoi name ≡ none
    → r.apps ≡ (negsuc old.app.id, old) ∷ m
    → text_eq old.app.cfg.name name ≡ true
    → All (λ x. old.app.id ≤ x.1.app.id) m
    → let t = (delete_app w name r).0 in
      (lookup (pos old.app.id) t.apps ≡ none)
      × (lookup (negsuc old.app.id) t.apps
          ≡ some (record old { app = (on_delete w false old.app).0 }))
unfolding delete_app resolve update
delete_app-parked w name r old m n e q v =
    let found : resolve name r ≡ some (negsuc old.app.id, old) =
      rw (n, resolve) (rw e (first_found name old.app.id old m q v)) in
    rw (found, delete_app)
      (rw forget-apps (simp (map_laws, keys_apart), simp (map_laws, keys_apart)))
