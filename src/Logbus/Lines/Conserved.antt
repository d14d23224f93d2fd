-- ===== src/Logbus/Lines/Conserved.antt =====
-- internal/logbus/logbus.go, `SplitCompleteConsumed` and `readNewIntoPrefix`: the proofs that no
-- byte is lost or made up.
use pm.Base.{
  ℕ, zero, suc, ◌+◌, ◌-◌, ◌≤◌, ◌<◌, ◌≡◌, ◌≢◌, refl, sym, ap, ◌∙◌, inl, inr, false, Bool-cases,
  Option, none, some, Option-cases, List, [], ◌∷◌, ◌++◌, append_assoc, length, length-append, ltb,
  ◌==◌, ==_iff, Text, All, take, drop, drop-add, length-drop, drop-length-append, arith,
}
use pm.Logbus.{max_batch_bytes}
use pm.Logbus.Lines.{
  longer, next_line, add_line, split_from, split_complete_consumed, read_new_into_prefix,
}

-- Lines, each with its newline.
abbrev pub unlines : List Text → Text
unlines [] = []
unlines (line ∷ lines) = line ++ (10 ∷ unlines lines)

abbrev pub IsOneLine : Text → Type 0
IsOneLine s = All (λ c. (c == 10) ≡ false) s

-- What `next_line` answers.
abbrev IsCut : Text → Option (Text × Text) → Type 0
IsCut s none = IsOneLine s
IsCut s (some (line, rest)) = (s ≡ line ++ (10 ∷ rest)) × IsOneLine line

longer-IsCut :
    (c : ℕ) (s : Text) (o : Option (Text × Text))
    → (c == 10) ≡ false
    → IsCut s o
    → IsCut (c ∷ s) (longer c o)
longer-IsCut c s none h v = (h, v)
longer-IsCut c s (some (line, rest)) h v = (ap (λ l. c ∷ l) v.0, (h, v.1))

next_line-IsCut : (s : Text) → IsCut s (next_line s)
unfolding next_line
next_line-IsCut [] = tt
next_line-IsCut (c ∷ s) = elim (Bool-cases (c == 10)) [
  | inl e ↦ rw (e, next_line) (ap (λ k. k ∷ s) ((==_iff c 10).0 e), tt)
  | inr e ↦ rw (e, next_line) (longer-IsCut c s (next_line s) e (next_line-IsCut s))
]

-- A text cut into its complete lines and a partial one.
pub record IsSplit (s : Text) (start : ℕ) (r : List Text × Text × ℕ) : Type 0 where
  pub whole : s ≡ unlines r.0 ++ r.1
  pub each : All IsOneLine r.0
  pub last : IsOneLine r.1
  pub counted : r.2 ≡ start + length (unlines r.0)

none-IsSplit : (s : Text) (start : ℕ) → IsOneLine s → IsSplit s start ([], s, start)
none-IsSplit s start h = record { whole = refl; each = tt; last = h; counted = omega arith }

add_line-IsSplit :
    (s line rest : Text) (start : ℕ) (r : List Text × Text × ℕ)
    → s ≡ line ++ (10 ∷ rest)
    → IsOneLine line
    → IsSplit rest (start + length line + 1) r
    → IsSplit s start (add_line line r)
add_line-IsSplit s line rest start (lines, partial, consumed) e h v = record {
  whole =
      e ∙ ap (λ t. line ++ (10 ∷ t)) v.whole ∙ sym (append_assoc line (10 ∷ unlines lines) partial);
  each = (h, v.each);
  last = v.last;
  counted = omega (arith, v.counted, length-append line (10 ∷ unlines lines));
}

split_from-IsSplit :
    (fuel start : ℕ) (s : Text) → length s < fuel → IsSplit s start (split_from fuel start s)
unfolding split_from
split_from-IsSplit zero start s h = absurd (omega arith)
split_from-IsSplit (suc fuel) start s h = elim (Option-cases (next_line s)) [
  | inl e ↦ rw (e, split_from) (none-IsSplit s start (rw e at (next_line-IsCut s)))
  | inr ((line, rest), e) ↦
      let c = rw e at (next_line-IsCut s) in
      rw (e, split_from)
        (add_line-IsSplit s line rest start (split_from fuel (start + length line + 1) rest) c.0 c.1
          (split_from-IsSplit fuel (start + length line + 1) rest
            (omega (arith, ap length c.0, length-append line (10 ∷ rest)))))
]

-- The lines and the partial line are the input again, with a newline behind each line; none of them
-- has a newline, and `consumed` is the number of bytes of the lines.
pub split_complete_consumed-IsSplit : (buf : Text) → IsSplit buf 0 (split_complete_consumed buf)
unfolding split_complete_consumed
split_complete_consumed-IsSplit buf = split_from-IsSplit (suc (length buf)) 0 buf (omega arith)

abbrev tail_of : Text → Text
tail_of [] = []
tail_of (c ∷ s) = s

not_newline : (c : ℕ) → (c == 10) ≡ false → c ≡ 10 → ⊥
not_newline c h e = ground arith

-- A text with no newline in front lies in the first line.
prefix-le :
    (p d line rest : Text) → IsOneLine p → p ++ d ≡ line ++ (10 ∷ rest) → length p ≤ length line
prefix-le [] d line rest h e = omega arith
prefix-le (c ∷ p) d [] rest h e = let hit : c ≡ 10 = ground arith in absurd (not_newline c h.0 hit)
prefix-le (c ∷ p) d (l ∷ line) rest h e =
    let later = prefix-le p d line rest h.1 (ap tail_of e) in omega arith

drop_past : (n : ℕ) (p d : Text) → length p ≤ n → drop n (p ++ d) ≡ drop (n - length p) d
drop_past n [] d h = ap (λ k. drop k d) (omega arith)
drop_past zero (c ∷ p) d h = absurd (omega arith)
drop_past (suc n) (c ∷ p) d h = drop_past n p d (omega arith) ∙ ap (λ k. drop k d) (omega arith)

take-all : (n : ℕ) (s : Text) → length s ≤ n → take n s ≡ s
take-all zero [] h = refl
take-all zero (c ∷ s) h = absurd (omega arith)
take-all (suc n) [] h = refl
take-all (suc n) (c ∷ s) h = ap (λ l. c ∷ l) (take-all n s (omega arith))

-- What a tail has still to deliver: the prefix that it carries, and the file from its offset on.
abbrev pub remaining : Text → ℕ → Text → Text
remaining carry offset file = carry ++ drop offset file

-- The prefix that is carried on: the first line has used it up.
abbrev pub carried : List Text → Text → Text
carried [] prefix = prefix
carried (line ∷ lines) prefix = []

-- A read delivers the front of what remained, and leaves the rest.
pub record Delivers (lines : List Text) (before after : Text) : Type 0 where
  pub conserved : before ≡ unlines lines ++ after
  pub each : All IsOneLine lines
  pub last : IsOneLine after

delivered :
    (w rest partial : Text) (lines : List Text) (consumed : ℕ)
    → IsSplit w 0 (lines, partial, consumed)
    → rest ≡ partial
    → Delivers lines w rest × (rest ≡ partial)
delivered w rest partial lines consumed v e = (
  record {
    conserved = v.whole ∙ ap (λ t. unlines lines ++ t) (sym e);
    each = v.each;
    last = rw e v.last;
  },
  e,
)

split-Delivers :
    (file prefix : Text) (off : ℕ) (lines : List Text) (partial : Text) (consumed : ℕ)
    → IsOneLine prefix
    → IsSplit (prefix ++ drop off file) 0 (lines, partial, consumed)
    → Delivers lines
        (prefix ++ drop off file)
        (remaining (carried lines prefix) (off + (consumed - length prefix)) file)
      × (remaining (carried lines prefix) (off + (consumed - length prefix)) file ≡ partial)
split-Delivers file prefix off [] partial consumed h v =
    let same : off + (consumed - length prefix) ≡ off = omega (arith, v.counted) in
    delivered (prefix ++ drop off file) (remaining prefix (off + (consumed - length prefix)) file)
      partial [] consumed v (ap (λ k. prefix ++ drop k file) same ∙ v.whole)
split-Delivers file prefix off (line ∷ lines) partial consumed h v =
    let ls = line ∷ lines in
    let total : consumed ≡ length (unlines ls) = omega (arith, v.counted) in
    let whole = v.whole ∙ append_assoc line (10 ∷ unlines lines) partial in
    let short = prefix-le prefix (drop off file) line (unlines lines ++ partial) h whole in
    let within : length prefix ≤ consumed =
      omega (arith, v.counted, length-append line (10 ∷ unlines lines)) in
    delivered (prefix ++ drop off file) (drop (off + (consumed - length prefix)) file) partial ls
      consumed v
      (sym (drop-add (consumed - length prefix) off file)
        ∙ sym (drop_past consumed prefix (drop off file) within)
        ∙ ap (drop consumed) v.whole
        ∙ ap (λ k. drop k (unlines ls ++ partial)) total
        ∙ drop-length-append (unlines ls) partial)

differs : (m n : ℕ) → m ≢ n → (n == m) ≡ false
differs m n h = ground arith

-- A read of a file that has not shrunk below the offset, within the batch limit, delivers complete
-- lines and leaves what follows them: no byte of the carried prefix and of the file is lost.
pub read-Delivers :
    (file prefix : Text) (offset : ℕ)
    → IsOneLine prefix
    → offset ≤ length file
    → length prefix + (length file - offset) ≤ max_batch_bytes
    → offset ≢ length file
    → let r = read_new_into_prefix file offset prefix in
      Delivers r.lines
        (remaining prefix offset file)
        (remaining (carried r.lines prefix) r.offset file)
      × (remaining (carried r.lines prefix) r.offset file ≡ r.partial)
unfolding read_new_into_prefix
read-Delivers file prefix offset h in_file small grown =
    let keeps : ltb (length file) offset ≡ false = ground arith in
    let moved : (length file == offset) ≡ false = differs offset (length file) grown in
    let all =
      take-all (max_batch_bytes - length prefix) (drop offset file)
        (omega (arith, length-drop offset file)) in
    rw keeps (
      rw moved (
        rw all (
          let (lines, partial, consumed) = split_complete_consumed (prefix ++ drop offset file) in
          split-Delivers file prefix offset lines partial consumed h
            (split_complete_consumed-IsSplit (prefix ++ drop offset file)))))
