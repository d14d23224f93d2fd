-- ===== src/Machine/Env/Getenv.antt =====
-- internal/machine/machine.go, `buildEnv`: the proofs on the first entry of a key in its list, before
-- the variables of a cluster instance and of the launcher are appended.
use pm.Base.{
  ◌≡◌, refl, sym, ap, ◌∙◌, inl, inr, Bool, true, false, Bool-cases, Option, none, some, List, [],
  ◌∷◌, ◌++◌, All, Text, codes, text_eq, ◌==◌, if◌then◌else◌, arith,
}
use pm.Machine.Env.{
  key_of, text_le, insert_entry, sort_entries, has_key, keep_base, pairs, build_env,
}

-- The first entry of a key.
abbrev pub getenv : Text → List Text → Option Text
getenv k [] = none
getenv k (kv ∷ rest) = if text_eq (key_of kv) k then some kv else getenv k rest

abbrev pub value_of : Text → List (Text × Text) → Option Text
value_of k [] = none
value_of k ((j, v) ∷ rest) = if text_eq j k then some v else value_of k rest

abbrev pub IsKey : Text → Type 0
IsKey k = All (λ c. (c == b'=') ≡ false) k

abbrev pub AreKeys : List (Text × Text) → Type 0
AreKeys es = All (λ e. IsKey e.0) es

abbrev pub or_value : Option Text → Text → Option Text → Option Text
or_value none k o = o
or_value (some v) k o = some (k ++ codes "=" ++ v)

pub text_eq→eq : (s t : Text) → text_eq s t ≡ true → s ≡ t
text_eq→eq [] [] h = refl
text_eq→eq [] (d ∷ t) h = cc
text_eq→eq (c ∷ s) [] h = cc
text_eq→eq (c ∷ s) (d ∷ t) h = let tail = text_eq→eq s t in ground arith

text_le_refl : (s : Text) → text_le s s ≡ true
unfolding text_le
text_le_refl [] = refl
text_le_refl (c ∷ s) = let tail = text_le_refl s in ground arith

key_of-pair : (k v : Text) → IsKey k → key_of (k ++ codes "=" ++ v) ≡ k
unfolding key_of
key_of-pair [] v h = refl
key_of-pair (c ∷ k) v h = rw (h.0, key_of) (ap (λ s. c ∷ s) (key_of-pair k v h.1))

getenv-pairs :
    (k : Text) (es : List (Text × Text))
    → AreKeys es
    → getenv k (pairs es) ≡ or_value (value_of k es) k none
unfolding pairs
getenv-pairs k [] h = refl
getenv-pairs k ((j, v) ∷ es) h = elim (Bool-cases (text_eq j k)) [
  | inl e ↦
      rw (key_of-pair j v h.0) (rw e (ap (λ s. some (s ++ codes "=" ++ v)) (text_eq→eq j k e)))
  | inr e ↦ rw (key_of-pair j v h.0) (rw e (getenv-pairs k es h.1))
]

-- Two entries that stand in order have different keys, unless they are in order both ways.
apart : (i j k : Text) → text_le j i ≡ false → text_eq i k ≡ true → text_eq j k ≡ false
apart i j k gt e = elim (Bool-cases (text_eq j k)) [
  | inl f ↦
      let same = text_eq→eq j k f ∙ sym (text_eq→eq i k e) in
      let le = text_le_refl i in cc (rw same at gt, le)
  | inr f ↦ f
]

value_of-insert_entry :
    (k j v : Text) (es : List (Text × Text))
    → value_of k (insert_entry (j, v) es) ≡ value_of k ((j, v) ∷ es)
unfolding insert_entry
value_of-insert_entry k j v [] = refl
value_of-insert_entry k j v ((i, w) ∷ es) = elim (Bool-cases (text_le j i)) [
  | inl le ↦ rw (le, insert_entry) refl
  | inr gt ↦ elim (Bool-cases (text_eq i k)) [
    | inl e ↦ rw (gt, insert_entry) (rw e (rw (apart i j k gt e) refl))
    | inr e ↦ rw (gt, insert_entry) (rw e (value_of-insert_entry k j v es))
  ]
]

value_of-sort_entries :
    (k : Text) (es : List (Text × Text)) → value_of k (sort_entries es) ≡ value_of k es
unfolding sort_entries
value_of-sort_entries k [] = refl
value_of-sort_entries k ((j, v) ∷ es) =
    rw (value_of-insert_entry k j v (sort_entries es), value_of-sort_entries k es) refl

insert_entry-AreKeys :
    (j v : Text) (es : List (Text × Text)) → IsKey j → AreKeys es → AreKeys (insert_entry (j, v) es)
unfolding insert_entry
insert_entry-AreKeys j v [] h hs = (h, tt)
insert_entry-AreKeys j v ((i, w) ∷ es) h hs = elim (Bool-cases (text_le j i)) [
  | inl le ↦ rw (le, insert_entry) (h, hs)
  | inr gt ↦ rw (gt, insert_entry) (hs.0, insert_entry-AreKeys j v es h hs.1)
]

sort_entries-AreKeys : (es : List (Text × Text)) → AreKeys es → AreKeys (sort_entries es)
unfolding sort_entries
sort_entries-AreKeys [] h = tt
sort_entries-AreKeys ((j, v) ∷ es) h =
    insert_entry-AreKeys j v (sort_entries es) h.0 (sort_entries-AreKeys es h.1)

abbrev first_of : Option Text → Option Text → Option Text
first_of none o = o
first_of (some v) o = some v

getenv-append :
    (k : Text) (xs ys : List Text) → getenv k (xs ++ ys) ≡ first_of (getenv k xs) (getenv k ys)
getenv-append k [] ys = refl
getenv-append k (x ∷ xs) ys = elim (Bool-cases (text_eq (key_of x) k)) [
  | inl e ↦ rw e refl
  | inr e ↦ rw e (getenv-append k xs ys)
]

abbrev has_value : Option Text → Bool
has_value none = false
has_value (some v) = true

has_key-value_of : (k : Text) (es : List (Text × Text)) → has_key k es ≡ has_value (value_of k es)
unfolding has_key
has_key-value_of k [] = refl
has_key-value_of k ((j, v) ∷ es) = elim (Bool-cases (text_eq j k)) [
  | inl e ↦ rw e refl
  | inr e ↦ rw e (has_key-value_of k es)
]

getenv-keep_base :
    (k : Text) (es : List (Text × Text)) (base : List Text)
    → getenv k (keep_base es base) ≡ (if has_key k es then none else getenv k base)
unfolding keep_base
getenv-keep_base k es [] = ground arith
getenv-keep_base k es (kv ∷ base) = elim (Bool-cases (text_eq (key_of kv) k)) [
  | inr e ↦ elim (Bool-cases (has_key (key_of kv) es)) [
    | inl h ↦ rw (h, e) (getenv-keep_base k es base)
    | inr h ↦ rw (h, e) (getenv-keep_base k es base)
  ]
  | inl e ↦
      let same = text_eq→eq (key_of kv) k e in
      elim (Bool-cases (has_key (key_of kv) es)) [
        | inl h ↦ rw h (rw (getenv-keep_base k es base) (rw (rw same at h) refl))
        | inr h ↦ rw h (rw e (rw (rw same at h) refl))
      ]
]

joined-value :
    (k : Text) (base v : Option Text)
    → first_of (if has_value v then none else base) (or_value v k none) ≡ or_value v k base
joined-value k none none = refl
joined-value k (some x) none = refl
joined-value k base (some v) = refl

-- In the list that `buildEnv` makes of a configured environment that is not empty, the first entry of a
-- key has the value that the configuration gives it, also where the inherited environment has the key,
-- and else it is the first inherited entry, where no key of the configuration has an equals sign.
pub build_env-getenv :
    (k : Text) (base : List Text) (e : Text × Text) (es : List (Text × Text))
    → AreKeys (e ∷ es)
    → getenv k (build_env base (e ∷ es)) ≡ or_value (value_of k (e ∷ es)) k (getenv k base)
unfolding build_env
build_env-getenv k base e es h =
    rw (getenv-append k (keep_base (e ∷ es) base) (pairs (sort_entries (e ∷ es)))) (
      rw (getenv-pairs k (sort_entries (e ∷ es)) (sort_entries-AreKeys (e ∷ es) h)) (
        rw (value_of-sort_entries k (e ∷ es)) (
          rw (getenv-keep_base k (e ∷ es) base) (
            rw (has_key-value_of k (e ∷ es))
              (joined-value k (getenv k base) (value_of k (e ∷ es)))))))
