-- ===== src/Daemon/Select/Chosen.antt =====
-- internal/daemon/daemon.go, `resolveSelector`: the proofs on the apps that it chooses.
use pm.Base.{
  ℕ, ◌<◌, ◌≡◌, refl, ap, ◌∙◌, ==_iff, inl, inr, Bool, true, false, Bool-cases, ◌||◌, Option, none,
  some, List, [], ◌∷◌, ◌++◌, All, Text, ltb, ◌==◌, if◌then◌else◌, arith, ℤ,
}
use pm.Supervisor.Registry.{Registry}
use pm.Supervisor.Commands.{AppView, list, describe}
use pm.Supervisor.Listing.{ids_of}
use pm.Daemon.Select.{
  Selector, has_id, add_views, add_found, add_ids, add_names, insert_view, sort_views, selects_all,
  selected, resolve_selector, resolve_name_family, int_text,
}

-- Sorted, and no id twice.
abbrev pub IsStrict : List ℕ → Type 0
IsStrict [] = Unit
IsStrict (n ∷ ns) = All (λ m. n < m) ns × IsStrict ns

abbrev NoTwice : List AppView → Type 0
NoTwice [] = Unit
NoTwice (v ∷ vs) = (has_id v.id vs ≡ false) × NoTwice vs

-- The apps that a selector is about: all of them, or those of its ids and of the families of its
-- names.
unfoldable pub in_ids : ℕ → Registry → List ℤ → Bool
in_ids n r [] = false
in_ids n r (id ∷ ids) = has_id n (add_found (describe (int_text id) r) []) || in_ids n r ids

unfoldable pub in_names : ℕ → Registry → List Text → Bool
in_names n r [] = false
in_names n r (name ∷ names) = has_id n (resolve_name_family name r) || in_names n r names

abbrev pub by_selector : ℕ → Registry → Option Selector → Bool
by_selector n r none = false
by_selector n r (some s) = in_ids n r s.pm_ids || in_names n r s.names

abbrev pub wants : Option Selector → Registry → ℕ → Bool
wants sel r n = if selects_all sel then has_id n (list r) else by_selector n r sel

has_id-append : (n : ℕ) (vs ws : List AppView) → has_id n (vs ++ ws) ≡ has_id n vs || has_id n ws
unfolding has_id
has_id-append n [] ws = refl
has_id-append n (v ∷ vs) ws = let ih = has_id-append n vs ws in ground arith

append-NoTwice :
    (vs : List AppView) (v : AppView)
    → NoTwice vs
    → has_id v.id vs ≡ false
    → NoTwice (vs ++ (v ∷ []))
unfolding has_id
append-NoTwice [] v h e = (refl, tt)
append-NoTwice (w ∷ ws) v h e = (
  rw (has_id-append w.id ws (v ∷ [])) (let k = h.0 in ground arith),
  append-NoTwice ws v h.1 (ground arith),
)

add_views-NoTwice : (vs out : List AppView) → NoTwice out → NoTwice (add_views vs out)
unfolding add_views
add_views-NoTwice [] out h = h
add_views-NoTwice (v ∷ vs) out h = elim (Bool-cases (has_id v.id out)) [
  | inl e ↦ rw e (add_views-NoTwice vs out h)
  | inr e ↦ rw e (add_views-NoTwice vs (out ++ (v ∷ [])) (append-NoTwice out v h e))
]

already :
    (n : ℕ) (v : AppView) (vs out : List AppView)
    → has_id v.id out ≡ true
    → has_id n out || has_id n vs ≡ has_id n out || has_id n (v ∷ vs)
unfolding has_id
already n v vs out e = elim (Bool-cases (v.id == n)) [
  | inl t ↦ let same = ap (λ q. has_id q out) ((==_iff v.id n).0 t) in ground arith
  | inr f ↦ rw f refl
]

has_id-add_views :
    (n : ℕ) (vs out : List AppView) → has_id n (add_views vs out) ≡ has_id n out || has_id n vs
unfolding add_views has_id
has_id-add_views n [] out = ground arith
has_id-add_views n (v ∷ vs) out = elim (Bool-cases (has_id v.id out)) [
  | inl e ↦ rw e (has_id-add_views n vs out ∙ already n v vs out e)
  | inr e ↦
      rw e
        (has_id-add_views n vs (out ++ (v ∷ [])) ∙ rw (has_id-append n out (v ∷ [])) (ground arith))
]

has_id-insert_view :
    (n : ℕ) (v : AppView) (ws : List AppView) → has_id n (insert_view v ws) ≡ has_id n (v ∷ ws)
unfolding insert_view has_id
has_id-insert_view n v [] = refl
has_id-insert_view n v (w ∷ ws) = let ih = has_id-insert_view n v ws in ground arith

has_id-sort_views : (n : ℕ) (vs : List AppView) → has_id n (sort_views vs) ≡ has_id n vs
unfolding sort_views has_id
has_id-sort_views n [] = refl
has_id-sort_views n (v ∷ vs) =
    has_id-insert_view n v (sort_views vs) ∙ (let ih = has_id-sort_views n vs in ground arith)

All-lt : (k n : ℕ) (ns : List ℕ) → k < n → All (λ m. n < m) ns → All (λ m. k < m) ns
All-lt k n [] h a = tt
All-lt k n (m ∷ ms) h a = (let b = a.0 in omega arith, All-lt k n ms h a.1)

All-insert_view :
    (k : ℕ) (v : AppView) (vs : List AppView)
    → k < v.id
    → All (λ m. k < m) (ids_of vs)
    → All (λ m. k < m) (ids_of (insert_view v vs))
unfolding insert_view
All-insert_view k v [] h a = (h, tt)
All-insert_view k v (w ∷ ws) h a = elim (Bool-cases (ltb w.id v.id)) [
  | inl e ↦ rw (e, insert_view) (a.0, All-insert_view k v ws h a.1)
  | inr e ↦ rw (e, insert_view) (h, a)
]

insert_view-IsStrict :
    (v : AppView) (vs : List AppView)
    → has_id v.id vs ≡ false
    → IsStrict (ids_of vs)
    → IsStrict (ids_of (insert_view v vs))
unfolding insert_view has_id
insert_view-IsStrict v [] f h = (tt, tt)
insert_view-IsStrict v (w ∷ ws) f h = elim (Bool-cases (ltb w.id v.id)) [
  | inl e ↦
      rw (e, insert_view)
        (All-insert_view w.id v ws (ground arith) h.0, insert_view-IsStrict v ws (ground arith) h.1)
  | inr e ↦
      let lt : v.id < w.id = ground arith in
      rw (e, insert_view) ((lt, All-lt v.id w.id (ids_of ws) lt h.0), h)
]

sort_views-IsStrict : (vs : List AppView) → NoTwice vs → IsStrict (ids_of (sort_views vs))
unfolding sort_views
sort_views-IsStrict [] h = tt
sort_views-IsStrict (v ∷ vs) h =
    insert_view-IsStrict v (sort_views vs) (has_id-sort_views v.id vs ∙ h.0)
      (sort_views-IsStrict vs h.1)

add_found-NoTwice :
    (o : Option AppView) (out : List AppView) → NoTwice out → NoTwice (add_found o out)
add_found-NoTwice none out h = h
add_found-NoTwice (some v) out h = add_views-NoTwice (v ∷ []) out h

add_ids-NoTwice :
    (r : Registry) (ids : List ℤ) (out : List AppView) → NoTwice out → NoTwice (add_ids r ids out)
unfolding add_ids
add_ids-NoTwice r [] out h = h
add_ids-NoTwice r (id ∷ ids) out h =
    add_ids-NoTwice r ids _ (add_found-NoTwice (describe (int_text id) r) out h)

add_names-NoTwice :
    (r : Registry) (names : List Text) (out : List AppView)
    → NoTwice out
    → NoTwice (add_names r names out)
unfolding add_names
add_names-NoTwice r [] out h = h
add_names-NoTwice r (name ∷ names) out h =
    add_names-NoTwice r names _ (add_views-NoTwice (resolve_name_family name r) out h)

nothing_seen : (n : ℕ) → has_id n [] ≡ false
unfolding has_id
nothing_seen n = refl

has_id-all : (n : ℕ) (vs : List AppView) → has_id n (add_views vs []) ≡ has_id n vs
has_id-all n vs = let e = nothing_seen n in let f = has_id-add_views n vs [] in ground arith

has_id-add_found :
    (n : ℕ) (o : Option AppView) (out : List AppView)
    → has_id n (add_found o out) ≡ has_id n out || has_id n (add_found o [])
has_id-add_found n none out = rw (nothing_seen n) (ground arith)
has_id-add_found n (some v) out =
    has_id-add_views n (v ∷ []) out ∙ rw (has_id-add_views n (v ∷ []) []) (rw (nothing_seen n) refl)

has_id-add_ids :
    (n : ℕ) (r : Registry) (ids : List ℤ) (out : List AppView)
    → has_id n (add_ids r ids out) ≡ has_id n out || in_ids n r ids
unfolding add_ids in_ids
has_id-add_ids n r [] out = ground arith
has_id-add_ids n r (id ∷ ids) out =
    has_id-add_ids n r ids _ ∙ rw (has_id-add_found n (describe (int_text id) r) out) (ground arith)

has_id-add_names :
    (n : ℕ) (r : Registry) (names : List Text) (out : List AppView)
    → has_id n (add_names r names out) ≡ has_id n out || in_names n r names
unfolding add_names in_names
has_id-add_names n r [] out = ground arith
has_id-add_names n r (name ∷ names) out =
    has_id-add_names n r names _
    ∙ rw (has_id-add_views n (resolve_name_family name r) out) (ground arith)

selected-NoTwice : (sel : Option Selector) (r : Registry) → NoTwice (selected r sel)
selected-NoTwice none r = tt
selected-NoTwice (some s) r = add_names-NoTwice r s.names _ (add_ids-NoTwice r s.pm_ids [] tt)

has_id-selected :
    (n : ℕ) (sel : Option Selector) (r : Registry) → has_id n (selected r sel) ≡ by_selector n r sel
has_id-selected n none r = nothing_seen n
has_id-selected n (some s) r =
    has_id-add_names n r s.names _ ∙ rw (has_id-add_ids n r s.pm_ids []) (rw (nothing_seen n) refl)

-- A request is about the apps that its selector asks for, each once and in the order of their ids:
-- all apps, where there is no selector or one for all without ids and names; else those of its ids
-- and of the families of its names.
pub resolve_selector-wants :
    (sel : Option Selector) (r : Registry) (n : ℕ)
    → let views = resolve_selector sel r in
      IsStrict (ids_of views) × (has_id n views ≡ wants sel r n)
unfolding resolve_selector
resolve_selector-wants sel r n = elim (Bool-cases (selects_all sel)) [
  | inl e ↦ rw e (
    sort_views-IsStrict _ (add_views-NoTwice (list r) [] tt),
    has_id-sort_views n _ ∙ has_id-all n (list r),
  )
  | inr e ↦ rw e (
    sort_views-IsStrict _ (selected-NoTwice sel r),
    has_id-sort_views n _ ∙ has_id-selected n sel r,
  )
]
