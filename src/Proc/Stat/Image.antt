-- ===== src/Proc/Stat/Image.antt =====
-- internal/proc/snapshot_linux.go and starttime_linux.go: the proofs on the image that the kernel
-- writes of a process, whatever the process calls itself.
use pm.Base.{
  ℕ, ◌^◌, ◌≤◌, ◌<◌, ◌≡◌, refl, false, inl, inr, none, some, Option-cases, List, [], ◌∷◌, ◌++◌, All,
  Text, length, ◌==◌, arith, pos, atoi, itoa, atoi-itoa, read_ℕ-itoa, fields, fields-word,
  fields_nothing, IsWord, is_space,
}
use pm.Proc.Stat.{
  StatInfo, after_last, post_comm, parse_uint, field, first_byte, parse_starttime, stat_ppid_grp,
  proc_state, parse_stat, stat_fields, numbers, starttime_field, ppid_pgrp_fields, state_field,
}

abbrev Lacks : ℕ → Text → Type 0
Lacks c s = All (λ b. (b == c) ≡ false) s

-- The words with a blank between them and a newline at the end.
abbrev pub line : List Text → Text
line [] = []
line (w ∷ []) = w ++ (10 ∷ [])
line (w ∷ v ∷ ws) = w ++ (32 ∷ line (v ∷ ws))

abbrev pub image : Text → Text → List Text → Text
image pid comm words = pid ++ (32 ∷ b'(' ∷ (comm ++ (b')' ∷ 32 ∷ line words)))

abbrev pub AreFields : List Text → Type 0
AreFields ws = All (λ w. IsWord w × Lacks b')' w) ws

after_last-Lacks : (c : ℕ) (s : Text) → Lacks c s → after_last c s ≡ none
unfolding after_last
after_last-Lacks c [] h = refl
after_last-Lacks c (b ∷ s) h = rw (after_last-Lacks c s h.1) (rw (h.0) refl)

after_last-append :
    (c : ℕ) (s t u : Text) → after_last c t ≡ some u → after_last c (s ++ t) ≡ some u
unfolding after_last
after_last-append c [] t u e = e
after_last-append c (b ∷ s) t u e = rw (after_last-append c s t u e) refl

Lacks-append : (c : ℕ) (s t : Text) → Lacks c s → Lacks c t → Lacks c (s ++ t)
Lacks-append c [] t h k = k
Lacks-append c (b ∷ s) t h k = (h.0, Lacks-append c s t h.1 k)

line-Lacks : (ws : List Text) → AreFields ws → Lacks b')' (line ws)
line-Lacks [] h = tt
line-Lacks (w ∷ []) h = Lacks-append b')' w (10 ∷ []) h.0.1 (refl, tt)
line-Lacks (w ∷ v ∷ ws) h =
    Lacks-append b')' w (32 ∷ line (v ∷ ws)) h.0.1 (refl, line-Lacks (v ∷ ws) h.1)

fields-line : (ws : List Text) → AreFields ws → fields (line ws) ≡ ws
unfolding is_space
fields-line [] h = fields_nothing
fields-line (w ∷ []) h = rw (fields-word w 10 [] h.0.0 (ground arith)) (rw fields_nothing refl)
fields-line (w ∷ v ∷ ws) h =
    rw (fields-word w 32 (line (v ∷ ws)) h.0.0 (ground arith)) (rw (fields-line (v ∷ ws) h.1) refl)

here : (c : ℕ) (s : Text) → Lacks c s → after_last c (c ∷ s) ≡ some s
unfolding after_last
here c s h = rw (after_last-Lacks c s h) (ground arith)

pub post_comm-image :
    (pid comm : Text) (ws : List Text) → AreFields ws → post_comm (image pid comm ws) ≡ some ws
unfolding post_comm
post_comm-image pid comm ws h =
    let found = here b')' (32 ∷ line ws) (refl, line-Lacks ws h) in
    let e =
      after_last-append b')' pid _ _
        (after_last-append b')' (32 ∷ b'(' ∷ []) _ _ (after_last-append b')' comm _ _ found)) in
    rw e (rw (fields-line ws h) refl)

parse_uint-itoa : (n : ℕ) → n < 2 ^ 64 → parse_uint (itoa n) ≡ some n
unfolding parse_uint
parse_uint-itoa n h = rw (read_ℕ-itoa n) (ground arith)

-- What the kernel writes of a process: the numbers in their places among the fields.
pub record IsStat (ppid pgrp : ℕ) (si : StatInfo) (ws : List Text) : Type 0 where
  pub fields_ok : AreFields ws
  pub enough : 22 ≤ length ws
  pub state_at : first_byte (field ws 0) ≡ si.state
  pub ppid_at : (field ws 1 ≡ itoa ppid) × (si.ppid ≡ pos ppid) × (ppid < 2 ^ 63)
  pub pgrp_at : (field ws 2 ≡ itoa pgrp) × (si.pgrp ≡ pos pgrp) × (pgrp < 2 ^ 63)
  pub utime_at : (field ws 11 ≡ itoa si.utime) × (si.utime < 2 ^ 64)
  pub stime_at : (field ws 12 ≡ itoa si.stime) × (si.stime < 2 ^ 64)
  pub starttime_at : (field ws 19 ≡ itoa si.starttime) × (si.starttime < 2 ^ 64)
  pub rss_at : (field ws 21 ≡ itoa si.rss) × (si.rss < 2 ^ 64)

module _ (ppid pgrp : ℕ) (si : StatInfo) (ws : List Text) (h : IsStat ppid pgrp si ws) where
  reads_ppid : atoi (field ws 1) ≡ some si.ppid
  reads_ppid = rw (h.ppid_at.0) (rw (h.ppid_at.1) (atoi-itoa ppid h.ppid_at.2))

  reads_pgrp : atoi (field ws 2) ≡ some si.pgrp
  reads_pgrp = rw (h.pgrp_at.0) (rw (h.pgrp_at.1) (atoi-itoa pgrp h.pgrp_at.2))

  reads_utime : parse_uint (field ws 11) ≡ some si.utime
  reads_utime = rw (h.utime_at.0) (parse_uint-itoa si.utime h.utime_at.1)

  reads_stime : parse_uint (field ws 12) ≡ some si.stime
  reads_stime = rw (h.stime_at.0) (parse_uint-itoa si.stime h.stime_at.1)

  reads_starttime : parse_uint (field ws 19) ≡ some si.starttime
  reads_starttime = rw (h.starttime_at.0) (parse_uint-itoa si.starttime h.starttime_at.1)

  reads_rss : parse_uint (field ws 21) ≡ some si.rss
  reads_rss = rw (h.rss_at.0) (parse_uint-itoa si.rss h.rss_at.1)

  numbers-IsStat : numbers ws ≡ some si
  numbers-IsStat = rw reads_ppid (
      rw reads_pgrp (
        rw reads_utime (rw reads_stime (rw reads_starttime (rw reads_rss (rw (h.state_at) refl))))))

  -- The image of a process is read back, whatever the process calls itself: its name may have blanks
  -- and parentheses.
  pub parse_stat-image : (pid comm : Text) → parse_stat (image pid comm ws) ≡ some si
  unfolding parse_stat
  parse_stat-image pid comm =
      let n = h.enough in
      rw (post_comm-image pid comm ws h.fields_ok) (rw numbers-IsStat (ground arith))

-- The readers of single fields, which the kill path uses, agree with the reader of the snapshot.
abbrev pub AgreesWith : Text → StatInfo → Type 0
AgreesWith stat si =
    (parse_starttime stat ≡ some si.starttime)
    × (stat_ppid_grp stat ≡ some (si.ppid, si.pgrp))
    × (proc_state stat ≡ some si.state)

fields_agree :
    (f : List Text) (si : StatInfo)
    → stat_fields f ≡ some si
    → (starttime_field f ≡ some si.starttime)
      × (ppid_pgrp_fields f ≡ some (si.ppid, si.pgrp))
      × (state_field f ≡ some si.state)
fields_agree [] si h = cc
fields_agree (s ∷ f) si h = (ground arith, ground arith, ground arith)

pub parse_stat-AgreesWith :
    (stat : Text) (si : StatInfo) → parse_stat stat ≡ some si → AgreesWith stat si
unfolding parse_stat parse_starttime stat_ppid_grp proc_state
parse_stat-AgreesWith stat si h = elim (Option-cases (post_comm stat)) [
  | inl e ↦ absurd (ground arith)
  | inr (f, e) ↦ rw e (fields_agree f si (rw e at h))
]
