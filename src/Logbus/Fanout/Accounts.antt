-- ===== src/Logbus/Fanout/Accounts.antt =====
-- internal/logbus/logbus.go, `fanout`: the proofs on what a subscriber gets and what it loses.
use pm.Base.{
  ℕ, ◌+◌, ◌≤◌, ◌<◌, ◌≡◌, refl, Bool, true, false, List, [], ◌∷◌, ◌++◌, length, length-append, ltb,
  lt→ltb, ◌==◌, if◌then◌else◌, drop, length-drop, arith,
}
use pm.Logbus.{Stream, stdout, stderr, Entry, Sub}
use pm.Logbus.Fanout.{pending, marker, receive, send, flush, deliver, Taken, offer, fanout}

-- The lines that the markers in a list announce as dropped.
abbrev pub announced : List Entry → ℕ
announced [] = 0
announced (e ∷ es) = e.dropped + announced es

-- The entries that are lines, not markers.
abbrev pub lines : List Entry → ℕ
lines [] = 0
lines (e ∷ es) = (if e.dropped == 0 then 1 else 0) + lines es

-- Every dropped line is announced by a marker that was sent, or is pending; the channel holds no
-- more than its room.
pub record Accounts (room : ℕ) (s : Sub) : Type 0 where
  pub announces : s.drops ≡ announced s.sent + s.pending_out + s.pending_err
  pub bounded : length s.queue ≤ room

-- After `n` lines were offered: each was sent or dropped.
pub record Served (n : ℕ) (s t : Sub) : Type 0 where
  pub all_told : lines t.sent + t.drops ≡ lines s.sent + s.drops + n

announced-append : (es fs : List Entry) → announced (es ++ fs) ≡ announced es + announced fs
announced-append [] fs = omega arith
announced-append (e ∷ es) fs = omega (arith, announced-append es fs)

lines-append : (es fs : List Entry) → lines (es ++ fs) ≡ lines es + lines fs
lines-append [] fs = omega arith
lines-append (e ∷ es) fs = omega (arith, lines-append es fs)

receive-Accounts : (room n : ℕ) (s : Sub) → Accounts room s → Accounts room (receive n s)
receive-Accounts room n s v = record {
  announces = v.announces;
  bounded = omega (arith, length-drop n s.queue, v.bounded);
}

marker-dropped : (now : ℕ) (e : Entry) (n : ℕ) → (marker now e n).dropped ≡ n
unfolding marker
marker-dropped now e n = refl

flush-Accounts :
    (room now : ℕ) (e : Entry) (s : Sub) → Accounts room s → Accounts room (flush room now e s)
unfolding flush
flush-Accounts room now e s v =
    let m = marker now e (pending e.stream s) in
    ground (
      arith,
      marker-dropped now e (pending e.stream s),
      announced-append s.sent (m ∷ []),
      length-append s.queue (m ∷ []),
    )

deliver-Accounts :
    (room : ℕ) (e : Entry) (s : Sub)
    → e.dropped ≡ 0
    → Accounts room s
    → Accounts room (deliver room e s)
unfolding deliver
deliver-Accounts room e s z v =
    ground (arith, announced-append s.sent (e ∷ []), length-append s.queue (e ∷ []))

flush-Served : (room now : ℕ) (e : Entry) (s : Sub) → Served 0 s (flush room now e s)
unfolding flush
flush-Served room now e s =
    let m = marker now e (pending e.stream s) in
    ground (arith, marker-dropped now e (pending e.stream s), lines-append s.sent (m ∷ []))

deliver-Served : (room : ℕ) (e : Entry) (s : Sub) → e.dropped ≡ 0 → Served 1 s (deliver room e s)
unfolding deliver
deliver-Served room e s z = ground (arith, lines-append s.sent (e ∷ []))

-- The delivery of a line to one subscriber keeps its accounts, and sends or counts the line.
pub offer-Accounts :
    (room now : ℕ) (e : Entry) (taken : Taken) (s : Sub)
    → e.dropped ≡ 0
    → Accounts room s
    → Accounts room (offer room now e taken s) × Served 1 s (offer room now e taken s)
unfolding offer
offer-Accounts room now e taken s z v =
    let a = receive taken.0 s in
    let b = receive taken.1 (flush room now e a) in
    let first = flush-Served room now e a in
    let second = deliver-Served room e b z in
    (
      deliver-Accounts room e b z (
          receive-Accounts room taken.1 (flush room now e a)
            (flush-Accounts room now e a (receive-Accounts room taken.0 s v))),
      record { all_told = omega (arith, first.all_told, second.all_told) },
    )

-- The accounts of all subscribers, before and after `n` lines were offered to each.
abbrev pub AllServed : ℕ → ℕ → List Sub → List Sub → Type 0
AllServed room n [] [] = Unit
AllServed room n [] (t ∷ ts) = ⊥
AllServed room n (s ∷ ss) [] = ⊥
AllServed room n (s ∷ ss) (t ∷ ts) = (Accounts room t × Served n s t) × AllServed room n ss ts

abbrev pub AllAccount : ℕ → List Sub → Type 0
AllAccount room [] = Unit
AllAccount room (s ∷ ss) = Accounts room s × AllAccount room ss

pub fanout-AllServed :
    (room now : ℕ) (e : Entry) (taken : Sub → Taken) (subs : List Sub)
    → e.dropped ≡ 0
    → AllAccount room subs
    → AllServed room 1 subs (fanout room now e taken subs)
unfolding fanout
fanout-AllServed room now e taken [] z v = tt
fanout-AllServed room now e taken (s ∷ subs) z v =
    (offer-Accounts room now e (taken s) s z v.0, fanout-AllServed room now e taken subs z v.1)

pub AllServed-AllAccount :
    (room n : ℕ) (ss ts : List Sub) → AllServed room n ss ts → AllAccount room ts
AllServed-AllAccount room n [] [] h = tt
AllServed-AllAccount room n [] (t ∷ ts) h = absurd h
AllServed-AllAccount room n (s ∷ ss) [] h = absurd h
AllServed-AllAccount room n (s ∷ ss) (t ∷ ts) h = (h.0.0, AllServed-AllAccount room n ss ts h.1)

pub AllServed-none : (room : ℕ) (ss : List Sub) → AllAccount room ss → AllServed room 0 ss ss
AllServed-none room [] h = tt
AllServed-none room (s ∷ ss) h =
    ((h.0, record { all_told = omega arith }), AllServed-none room ss h.1)

pub AllServed-trans :
    (room m n : ℕ) (ss ts us : List Sub)
    → AllServed room m ss ts
    → AllServed room n ts us
    → AllServed room (m + n) ss us
AllServed-trans room m n [] [] [] a b = tt
AllServed-trans room m n (s ∷ ss) (t ∷ ts) (u ∷ us) a b = (
  (b.0.0, record { all_told = omega (arith, a.0.1.all_told, b.0.1.all_told) }),
  AllServed-trans room m n ss ts us a.1 b.1,
)
AllServed-trans room m n [] (t ∷ ts) us a b = absurd a
AllServed-trans room m n (s ∷ ss) [] us a b = absurd a
AllServed-trans room m n [] [] (u ∷ us) a b = absurd b
AllServed-trans room m n (s ∷ ss) (t ∷ ts) [] a b = absurd b

if_same : (b : Bool) (s : Sub) → (if b then s else s) ≡ s
if_same true s = refl
if_same false s = refl

flush_full : (room now : ℕ) (e : Entry) (s : Sub) → length s.queue ≡ room → flush room now e s ≡ s
unfolding flush
flush_full room now e s full =
    let no_room : ltb (length s.queue) room ≡ false = ground arith in
    rw no_room (if_same (ltb 0 (pending e.stream s)) s)

deliver_room :
    (room : ℕ) (e : Entry) (s : Sub) → length s.queue < room → deliver room e s ≡ send e s
unfolding deliver
deliver_room room e s h = rw (lt→ltb (length s.queue) room h) refl

pending-send :
    (st : Stream) (e : Entry) (n : ℕ) (s : Sub) → pending st (send e (receive n s)) ≡ pending st s
pending-send stdout e n s = refl
pending-send stderr e n s = refl

-- A subscriber with pending lines whose channel is full gets no marker; where it receives before the
-- second select, the next line of the stream is sent with none in front of it.
pub offer-unannounced :
    (room now : ℕ) (e : Entry) (n : ℕ) (s : Sub)
    → length s.queue ≡ room
    → 0 < pending e.stream s
    → 0 < n
    → 0 < room
    → let t = offer room now e (0, n) s in
      (t.sent ≡ s.sent ++ (e ∷ [])) × (pending e.stream t ≡ pending e.stream s)
unfolding offer
offer-unannounced room now e n s full waits took some_room =
    let room_left : length (drop n s.queue) < room = omega (arith, length-drop n s.queue) in
    rw (flush_full room now e s full)
      (rw (deliver_room room e (receive n s) room_left) (refl, pending-send e.stream e n s))
