-- ===== src/Ops/Sync/Runners.antt =====
-- internal/ops/ops.go, `Sync`: the proofs on which runners there are afterwards.
use pm.Base.{
  ◌≡◌, refl, sym, ap, ◌∙◌, inl, inr, true, false, Bool-cases, Option, none, some, Option-cases,
  List, [], ◌∷◌, ◌==◌, if◌then◌else◌, ℤ, int_eq, int_eq_iff, int_eq_refl, Map, lookup,
  lookup-insert, lookup-delete, arith,
}
use pm.Ops.{View, Runner, Reconciler, features_active, new_runner}
use pm.Ops.Sync.{start_runner, retire, sync_view, sync_views, is_seen, sweep, sync}

-- The runner of a viewed id, by the runner that the id had: an app that is new, or whose
-- registration has changed, gets a fresh one where it has a feature.
abbrev pub slot : View → Option Runner → Option Runner
slot v none = if features_active v.cfg then some (new_runner v) else none
slot v (some cur) =
    if cur.serial == v.serial
    then some cur
    else if features_active v.cfg
    then some (new_runner v)
    else none

abbrev pub find_view : List View → ℤ → Option View
find_view [] id = none
find_view (v ∷ views) id = if int_eq v.id id then some v else find_view views id

-- No two views have the same id.
abbrev pub IsDistinct : List View → Type 0
IsDistinct [] = Unit
IsDistinct (v ∷ views) = (is_seen views v.id ≡ false) × IsDistinct views

-- The runner of an id after a sync.
abbrev pub expected : Option View → Option Runner → Option Runner
expected none o = none
expected (some v) o = slot v o

start_runner-lookup :
    (v : View) (r : Reconciler) (k : ℤ)
    → lookup k (start_runner v r).runners ≡ (
        if int_eq v.id k
        then (if features_active v.cfg then some (new_runner v) else lookup k r.runners)
        else lookup k r.runners)
unfolding start_runner
start_runner-lookup v r k = ground (arith, lookup-insert v.id k (new_runner v) r.runners)

-- One round, by what the id of the view had.
sync_view-none :
    (v : View) (r : Reconciler) → lookup v.id r.runners ≡ none → sync_view v r ≡ start_runner v r
unfolding sync_view
sync_view-none v r e = rw (e, sync_view) refl

sync_view-some :
    (v : View) (r : Reconciler) (cur : Runner)
    → lookup v.id r.runners ≡ some cur
    → (cur.serial == v.serial) ≡ true
    → sync_view v r ≡ r
unfolding sync_view
sync_view-some v r cur e same = rw (e, sync_view) (rw same refl)

sync_view-replaced :
    (v : View) (r : Reconciler) (cur : Runner)
    → lookup v.id r.runners ≡ some cur
    → (cur.serial == v.serial) ≡ false
    → sync_view v r ≡ start_runner v (retire v.id cur r)
unfolding sync_view
sync_view-replaced v r cur e other = rw (e, sync_view) (rw other refl)

retire-lookup :
    (id k : ℤ) (cur : Runner) (r : Reconciler)
    → lookup k (retire id cur r).runners ≡ (if int_eq id k then none else lookup k r.runners)
unfolding retire
retire-lookup id k cur r = lookup-delete id k r.runners

-- The runner of the id that is looked at, and those of other ids.
sync_view-here :
    (v : View) (r : Reconciler)
    → lookup v.id (sync_view v r).runners ≡ slot v (lookup v.id r.runners)
sync_view-here v r = elim (Option-cases (lookup v.id r.runners)) [
  | inl e ↦
      rw (sync_view-none v r e)
        (rw (start_runner-lookup v r v.id) (rw (int_eq_refl v.id) (rw e refl)))
  | inr (cur, e) ↦ elim (Bool-cases (cur.serial == v.serial)) [
    | inl same ↦ rw (sync_view-some v r cur e same) (rw e (rw same refl))
    | inr other ↦
        let gone = retire-lookup v.id v.id cur r in
        rw (sync_view-replaced v r cur e other) (
          rw (start_runner-lookup v (retire v.id cur r) v.id)
            (rw gone (rw (int_eq_refl v.id) (rw e (rw other refl)))))
  ]
]

sync_view-elsewhere :
    (v : View) (r : Reconciler) (k : ℤ)
    → int_eq v.id k ≡ false
    → lookup k (sync_view v r).runners ≡ lookup k r.runners
sync_view-elsewhere v r k off = elim (Option-cases (lookup v.id r.runners)) [
  | inl e ↦ rw (sync_view-none v r e) (rw (start_runner-lookup v r k) (rw off refl))
  | inr (cur, e) ↦ elim (Bool-cases (cur.serial == v.serial)) [
    | inl same ↦ rw (sync_view-some v r cur e same) refl
    | inr other ↦ rw (sync_view-replaced v r cur e other) (
        rw (start_runner-lookup v (retire v.id cur r) k)
          (rw (retire-lookup v.id k cur r) (rw off refl)))
  ]
]

sync_views-elsewhere :
    (views : List View) (r : Reconciler) (k : ℤ)
    → is_seen views k ≡ false
    → lookup k (sync_views views r).runners ≡ lookup k r.runners
unfolding sync_views
sync_views-elsewhere [] r k off = refl
sync_views-elsewhere (v ∷ views) r k off = elim (Bool-cases (int_eq v.id k)) [
  | inl hit ↦ let clash = rw hit at off in cc
  | inr miss ↦
      sync_views-elsewhere views (sync_view v r) k (rw miss at off) ∙ sync_view-elsewhere v r k miss
]

-- The runner of an id after the loop over the views.
abbrev after_views : Option View → Option Runner → Option Runner
after_views none o = o
after_views (some v) o = slot v o

sync_views-lookup :
    (views : List View) (r : Reconciler) (k : ℤ)
    → IsDistinct views
    → lookup k (sync_views views r).runners ≡ after_views (find_view views k) (lookup k r.runners)
unfolding sync_views
sync_views-lookup [] r k d = refl
sync_views-lookup (v ∷ views) r k d = elim (Bool-cases (int_eq v.id k)) [
  | inl hit ↦
      let same : v.id ≡ k = (int_eq_iff v.id k).0 hit in
      let once = rw same at d.0 in
      let here =
        ap (λ j. lookup j (sync_view v r).runners) (sym same)
        ∙ sync_view-here v r
        ∙ ap (λ j. slot v (lookup j r.runners)) same in
      rw hit (sync_views-elsewhere views (sync_view v r) k once ∙ here)
  | inr miss ↦ rw miss (
      sync_views-lookup views (sync_view v r) k d.1
      ∙ ap (after_views (find_view views k)) (sync_view-elsewhere v r k miss))
]

sweep-lookup :
    (views : List View) (m : Map Runner) (k : ℤ)
    → lookup k (sweep views m).0 ≡ (if is_seen views k then lookup k m else none)
unfolding sweep lookup
sweep-lookup views [] k = ground arith
sweep-lookup views ((id, rn) ∷ m) k = ground (arith, int_eq_iff id k, sweep-lookup views m k)

find_view-seen :
    (views : List View) (k : ℤ) (o : Option Runner)
    → (if is_seen views k then after_views (find_view views k) o else none)
      ≡ expected (find_view views k) o
find_view-seen [] k o = refl
find_view-seen (v ∷ views) k o = elim (Bool-cases (int_eq v.id k)) [
  | inl hit ↦ rw hit refl
  | inr miss ↦ rw miss (find_view-seen views k o)
]

-- After a sync of distinct views the runner of each id is the one expected: none where there is no
-- view of the id; the same one, with its state, where the registration is the same; a fresh one
-- where the registration is new and has a feature.
pub sync-lookup :
    (views : List View) (r : Reconciler) (k : ℤ)
    → IsDistinct views
    → r.stopped ≡ false
    → lookup k (sync views r).runners ≡ expected (find_view views k) (lookup k r.runners)
unfolding sync
sync-lookup views r k d open_yet = simp open_yet (
    sweep-lookup views (sync_views views r).runners k
    ∙ ap (λ o. if is_seen views k then o else none) (sync_views-lookup views r k d)
    ∙ find_view-seen views k (lookup k r.runners))
