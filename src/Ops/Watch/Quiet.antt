-- ===== src/Ops/Watch/Quiet.antt =====
-- internal/ops/watch_linux.go, `loop`: the proofs on when the callback runs.
use pm.Base.{
  All, ℕ, ◌+◌, ◌≤◌, ◌≡◌, refl, sym, ◌∙◌, inl, inr, Bool, true, false, Bool-cases, not, ◌&&◌, Option,
  none, some, List, [], ◌∷◌, ◌++◌, append_assoc, append-nil, ap, Text, leb, if◌then◌else◌, arith,
}
use pm.Ops.Watch.{Event, Watcher, watch_ignore, is_change, on_event, expire, loop, settle}

-- The times of the events that count: a change of a path that is not ignored.
abbrev pub counts : Event → Bool
counts ev = not (watch_ignore ev.name) && is_change ev

unfoldable pub changes : List (ℕ × Event) → List ℕ
changes [] = []
changes ((now, ev) ∷ evs) = if counts ev then now ∷ changes evs else changes evs

-- The end of each run of changes, in which none comes `debounce` or more after the one in front of it.
unfoldable pub quiet_after : ℕ → ℕ → List ℕ → List ℕ
quiet_after debounce t [] = (t + debounce) ∷ []
quiet_after debounce t (u ∷ us) =
    let rest = quiet_after debounce u us in
    if leb (t + debounce) u then (t + debounce) ∷ rest else rest

unfoldable pub quiet : ℕ → List ℕ → List ℕ
unfolding quiet_after
quiet debounce [] = []
quiet debounce (t ∷ ts) = quiet_after debounce t ts

-- What is still to come, with the window as it is.
abbrev ahead : ℕ → Option ℕ → List (ℕ × Event) → List ℕ
ahead debounce none evs = quiet debounce (changes evs)
ahead debounce (some t) evs = quiet_after debounce t (changes evs)

abbrev opened : ℕ → Option ℕ → Option ℕ
opened debounce none = none
opened debounce (some t) = some (t + debounce)

abbrev watcher : Option ℕ → List Text → List ℕ → Watcher
watcher o trees fired = record { window = o; added = trees; fired = fired }

on_event-counts :
    (debounce now : ℕ) (ev : Event) (o : Option ℕ) (trees : List Text) (fired : List ℕ)
    → counts ev ≡ true
    → (others : List Text) × (on_event debounce now ev (watcher o trees fired)
        ≡ watcher (some (now + debounce)) others fired)
unfolding on_event
on_event-counts debounce now ev o trees fired c =
    let seen : watch_ignore ev.name ≡ false = ground arith in
    let change : is_change ev ≡ true = ground arith in
    elim (Bool-cases (ev.is_create && ev.is_dir)) [
      | inl e ↦ (trees ++ (ev.name ∷ []), rw seen (rw change (rw e refl)))
      | inr e ↦ (trees, rw seen (rw change (rw e refl)))
    ]

on_event-passes :
    (debounce now : ℕ) (ev : Event) (o : Option ℕ) (trees : List Text) (fired : List ℕ)
    → counts ev ≡ false
    → on_event debounce now ev (watcher o trees fired) ≡ watcher o trees fired
unfolding on_event
on_event-passes debounce now ev o trees fired c = elim (Bool-cases (watch_ignore ev.name)) [
  | inl e ↦ rw e refl
  | inr e ↦
      let change : is_change ev ≡ false = ground arith in
      let made : (ev.is_create && ev.is_dir) ≡ false = ground arith in
      rw e (rw change (rw made refl))
]

module _ (debounce : ℕ) where
  abbrev AllComes : List (ℕ × Event) → Type 0
  AllComes evs =
      (t : Option ℕ) (trees : List Text) (fired : List ℕ)
      → (settle (loop debounce evs (watcher (opened debounce t) trees fired))).fired
        ≡ fired ++ ahead debounce t evs

  -- One event, at a watcher whose window does not end before it.
  one_event :
      (now : ℕ) (ev : Event) (evs : List (ℕ × Event)) (trees : List Text) (fired : List ℕ)
      (t : Option ℕ)
      → AllComes evs
      → (settle (
          loop debounce evs
            (on_event debounce now ev (watcher (opened debounce t) trees fired)))).fired
        ≡ fired
          ++ (if counts ev then quiet_after debounce now (changes evs) else ahead debounce t evs)
  one_event now ev evs trees fired t ih = elim (Bool-cases (counts ev)) [
    | inl c ↦
        let (others, e) = on_event-counts debounce now ev (opened debounce t) trees fired c in
        rw c (rw e (ih (some now) others fired))
    | inr c ↦
        rw c (
          rw (on_event-passes debounce now ev (opened debounce t) trees fired c) (ih t trees fired))
  ]

-- The loop takes the events one after another.
abbrev pub InOrder : ℕ → List (ℕ × Event) → Type 0
InOrder now [] = Unit
InOrder now ((t, ev) ∷ evs) = (now ≤ t) × InOrder t evs

changes-later :
    (d now : ℕ) (evs : List (ℕ × Event))
    → d ≤ now
    → InOrder now evs
    → All (λ u. d ≤ u) (changes evs)
unfolding changes
changes-later d now [] l h = tt
changes-later d now ((t, ev) ∷ evs) l h =
    let first = h.0 in
    let le : d ≤ t = omega arith in
    let rest = changes-later d t evs le h.1 in
    elim (Bool-cases (counts ev)) [ inl c ↦ rw c (le, rest) | inr c ↦ rw c rest ]

module _ (debounce : ℕ) where
  ended :
      (t : ℕ) (cs : List ℕ)
      → All (λ u. t + debounce ≤ u) cs
      → quiet_after debounce t cs ≡ (t + debounce) ∷ quiet debounce cs
  unfolding quiet_after quiet
  ended t [] h = refl
  ended t (u ∷ us) h =
      let e : leb (t + debounce) u ≡ true = let k = h.0 in ground arith in rw e refl

  first_change :
      (ev : Event) (now : ℕ) (cs : List ℕ)
      → (if counts ev then quiet_after debounce now cs else quiet debounce cs)
        ≡ quiet debounce (if counts ev then now ∷ cs else cs)
  unfolding quiet
  first_change ev now cs = elim (Bool-cases (counts ev)) [ inl c ↦ rw c refl | inr c ↦ rw c refl ]

  late :
      (t now : ℕ) (ev : Event) (evs : List (ℕ × Event))
      → leb (t + debounce) now ≡ true
      → InOrder now evs
      → (t + debounce)
          ∷ (if counts ev
              then quiet_after debounce now (changes evs)
              else quiet debounce (changes evs))
        ≡ quiet_after debounce t (changes ((now, ev) ∷ evs))
  unfolding changes
  late t now ev evs e h =
      let le : t + debounce ≤ now = ground arith in
      let here : now ≤ now = omega arith in
      ap (λ l. (t + debounce) ∷ l) (first_change ev now (changes evs))
      ∙ sym (ended t _ (changes-later (t + debounce) now ((now, ev) ∷ evs) le (here, h)))

  early :
      (t now : ℕ) (ev : Event) (cs : List ℕ)
      → leb (t + debounce) now ≡ false
      → (if counts ev then quiet_after debounce now cs else quiet_after debounce t cs)
        ≡ quiet_after debounce t (if counts ev then now ∷ cs else cs)
  early t now ev cs e = elim (Bool-cases (counts ev)) [
    | inl c ↦ rw c (unfold quiet_after in rw e refl)
    | inr c ↦ rw c refl
  ]

  expire-late :
      (t now : ℕ) (trees : List Text) (fired : List ℕ)
      → leb (t + debounce) now ≡ true
      → expire now (watcher (some (t + debounce)) trees fired)
        ≡ watcher none trees (fired ++ ((t + debounce) ∷ []))
  unfolding expire
  expire-late t now trees fired e = rw e refl

  expire-early :
      (t now : ℕ) (trees : List Text) (fired : List ℕ)
      → leb (t + debounce) now ≡ false
      → expire now (watcher (some (t + debounce)) trees fired)
        ≡ watcher (some (t + debounce)) trees fired
  unfolding expire
  expire-early t now trees fired e = rw e refl

  expire-none :
      (now : ℕ) (trees : List Text) (fired : List ℕ)
      → expire now (watcher none trees fired) ≡ watcher none trees fired
  unfolding expire
  expire-none now trees fired = refl

  loop-cons :
      (now : ℕ) (ev : Event) (evs : List (ℕ × Event)) (w x : Watcher)
      → expire now w ≡ x
      → (settle (loop debounce ((now, ev) ∷ evs) w)).fired
        ≡ (settle (loop debounce evs (on_event debounce now ev x))).fired
  unfolding loop
  loop-cons now ev evs w x e =
      ap (λ y. (settle (loop debounce evs (on_event debounce now ev y))).fired) e

  loop-nil :
      (t : Option ℕ) (trees : List Text) (fired : List ℕ)
      → (settle (loop debounce [] (watcher (opened debounce t) trees fired))).fired
        ≡ fired ++ ahead debounce t []
  unfolding loop settle changes quiet quiet_after
  loop-nil none trees fired = sym (append-nil fired)
  loop-nil (some t) trees fired = refl

  at_none :
      (now : ℕ) (ev : Event) (evs : List (ℕ × Event))
      → (if counts ev then quiet_after debounce now (changes evs) else quiet debounce (changes evs))
        ≡ ahead debounce none ((now, ev) ∷ evs)
  unfolding changes
  at_none now ev evs = first_change ev now (changes evs)

  at_some :
      (t now : ℕ) (ev : Event) (evs : List (ℕ × Event))
      → leb (t + debounce) now ≡ false
      → (if counts ev
          then quiet_after debounce now (changes evs)
          else quiet_after debounce t (changes evs))
        ≡ ahead debounce (some t) ((now, ev) ∷ evs)
  unfolding changes
  at_some t now ev evs e = early t now ev (changes evs) e

  loop-quiet : (start : ℕ) (evs : List (ℕ × Event)) → InOrder start evs → AllComes debounce evs
  loop-quiet start [] h t trees fired = loop-nil t trees fired
  loop-quiet start ((now, ev) ∷ evs) h none trees fired =
      loop-cons now ev evs _ _ (expire-none now trees fired)
      ∙ one_event debounce now ev evs trees fired none (loop-quiet now evs h.1)
      ∙ ap (λ l. fired ++ l) (at_none now ev evs)
  loop-quiet start ((now, ev) ∷ evs) h (some t) trees fired =
      elim (Bool-cases (leb (t + debounce) now)) [
        | inl e ↦
            loop-cons now ev evs _ _ (expire-late t now trees fired e)
            ∙ one_event debounce now ev evs trees (fired ++ ((t + debounce) ∷ [])) none
                (loop-quiet now evs h.1)
            ∙ append_assoc fired ((t + debounce) ∷ []) _
            ∙ ap (λ l. fired ++ l) (late t now ev evs e h.1)
        | inr e ↦
            loop-cons now ev evs _ _ (expire-early t now trees fired e)
            ∙ one_event debounce now ev evs trees fired (some t) (loop-quiet now evs h.1)
            ∙ ap (λ l. fired ++ l) (at_some t now ev evs e)
      ]

  -- The callback runs exactly at the ends of the runs of changes: `debounce` after a change that no
  -- other follows sooner, once for the whole run, where the loop takes the events in the order of time.
  pub loop-fires :
      (start : ℕ) (evs : List (ℕ × Event))
      → InOrder start evs
      → (settle (loop debounce evs (watcher none [] []))).fired ≡ quiet debounce (changes evs)
  loop-fires start evs h = loop-quiet start evs h none [] []
