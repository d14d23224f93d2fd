-- ===== src/Cluster/Versions.antt =====
-- internal/cluster/cluster.go, `checkVersionString`: the proofs on which versions pass.
use pm.Base.{
  ℕ, ◌+◌, ◌*◌, ◌<◌, ◌≤◌, ◌^◌, ◌≡◌, ◌↔◌, ◌⊎◌, refl, sym, append-nil, inl, inr, Bool, true, false,
  Bool-cases, not, ◌&&◌, ◌||◌, Option, none, some, Option-cases, List, [], ◌∷◌, ◌++◌, Text, text_eq,
  if◌then◌else◌, arith, ℤ, pos, negsuc, ltb_ℤ, ◌<ℤ◌, int_eq, int_eq_iff, trim_space,
  trim_space-solid, trim_space-newline, AreDigits, AreDigits-solid, AreSolid, AreSolid-append,
  is_digit, ◌==◌, itoa, itoa-AreDigits, atoi-itoa, split,
}
use pm.Cluster.{
  strip_metadata, number, version_of, trim_byte, compare_version, parse_version,
  check_version_string,
}

-- What node prints: v, three numbers with dots between them, and a newline.
abbrev pub printed : ℕ → ℕ → ℕ → Text
printed a b c = (b'v' ∷ (itoa a ++ (b'.' ∷ (itoa b ++ (b'.' ∷ itoa c))))) ++ (10 ∷ [])

digit_plain :
    (c : ℕ)
    → is_digit c ≡ true
    → ((c == b'-') ≡ false) × ((c == b'+') ≡ false) × ((c == b'.') ≡ false)
unfolding is_digit
digit_plain c h = (ground arith, ground arith, ground arith)

strip_metadata-digits :
    (s rest : Text) → AreDigits s → strip_metadata (s ++ rest) ≡ s ++ strip_metadata rest
unfolding strip_metadata
strip_metadata-digits [] rest h = refl
strip_metadata-digits (c ∷ s) rest h =
    let p = digit_plain c h.0 in rw (p.0) (rw (p.1) (rw (strip_metadata-digits s rest h.1) refl))

split-digits : (s rest : Text) → AreDigits s → split b'.' (s ++ (b'.' ∷ rest)) ≡ s ∷ split b'.' rest
unfolding split
split-digits [] rest h = ground arith
split-digits (c ∷ s) rest h =
    let p = digit_plain c h.0 in rw (p.2) (rw (split-digits s rest h.1) refl)

split-digits_last : (s : Text) → AreDigits s → split b'.' s ≡ s ∷ []
unfolding split
split-digits_last [] h = refl
split-digits_last (c ∷ s) h =
    let p = digit_plain c h.0 in rw (p.2) (rw (split-digits_last s h.1) refl)

number-itoa : (n : ℕ) → n < 2 ^ 63 → number (itoa n) ≡ some (pos n)
number-itoa n h =
    rw (trim_space-solid (itoa n) (AreDigits-solid (itoa n) (itoa-AreDigits n))) (atoi-itoa n h)

trim_byte-digits :
    (s rest : Text) → AreDigits s → trim_byte b'V' (s ++ (b'.' ∷ rest)) ≡ s ++ (b'.' ∷ rest)
unfolding is_digit
trim_byte-digits [] rest h = ground arith
trim_byte-digits (c ∷ s) rest h = let d = h.0 in ground arith

module _ (a b c : Text) (ha : AreDigits a) (hb : AreDigits b) (hc : AreDigits c) where
  abbrev dotted : Text
  dotted = a ++ (b'.' ∷ (b ++ (b'.' ∷ c)))

  dotted-AreSolid : AreSolid (b'v' ∷ dotted)
  unfolding pm.Base.is_space
  dotted-AreSolid = (
    refl,
    AreSolid-append a _ (AreDigits-solid a ha)
        (refl, AreSolid-append b _ (AreDigits-solid b hb) (refl, AreDigits-solid c hc)),
  )

  strip_metadata-dotted : strip_metadata dotted ≡ dotted
  unfolding strip_metadata
  strip_metadata-dotted = rw (strip_metadata-digits a (b'.' ∷ (b ++ (b'.' ∷ c))) ha) (
      rw (strip_metadata-digits b (b'.' ∷ c) hb)
        (rw (sym (append-nil c)) (rw (strip_metadata-digits c [] hc) refl)))

  split-dotted : split b'.' dotted ≡ a ∷ b ∷ c ∷ []
  split-dotted =
      rw (split-digits a (b ++ (b'.' ∷ c)) ha)
        (rw (split-digits b c hb) (rw (split-digits_last c hc) refl))

  parse_version-dotted : parse_version ((b'v' ∷ dotted) ++ (10 ∷ [])) ≡ version_of (a ∷ b ∷ c ∷ [])
  unfolding parse_version
  parse_version-dotted = rw (trim_space-newline b'v' dotted dotted-AreSolid) (
      rw (trim_byte-digits a (b ++ (b'.' ∷ c)) ha)
        (rw strip_metadata-dotted (rw split-dotted refl)))

-- The output of a node binary passes exactly if its version is 23.2.0 or later.
pub check_version_string-printed :
    (a b c : ℕ)
    → a < 2 ^ 63
    → b < 2 ^ 63
    → c < 2 ^ 63
    → (check_version_string (printed a b c) ≡ true) ↔ ((23 < a) ⊎ (a ≡ 23) × (2 ≤ b))
unfolding check_version_string compare_version int_eq
check_version_string-printed a b c ha hb hc =
    rw
      (parse_version-dotted (itoa a) (itoa b) (itoa c) (itoa-AreDigits a) (itoa-AreDigits b)
        (itoa-AreDigits c))
      (rw (number-itoa a ha) (rw (number-itoa b hb) (rw (number-itoa c hc) (ground arith))))
