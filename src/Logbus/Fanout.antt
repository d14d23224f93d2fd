-- ===== src/Logbus/Fanout.antt =====
-- internal/logbus/logbus.go, `fanout`: the delivery of one entry to every subscriber. A channel is
-- the list that it holds; a consumer may receive at any time, also between the two selects.
pub mod Accounts
use pm.Base.{
  ℕ, suc, ◌+◌, Bool, true, false, List, [], ◌∷◌, ◌++◌, length, ltb, if◌then◌else◌, Text, codes,
  drop, itoa,
}
use pm.Logbus.{Stream, stdout, stderr, label, Entry, Sub}

abbrev pub pending : Stream → Sub → ℕ
pending stdout s = s.pending_out
pending stderr s = s.pending_err

abbrev pub set_pending : Stream → ℕ → Sub → Sub
set_pending stdout n s = record s { pending_out = n }
set_pending stderr n s = record s { pending_err = n }

-- The marker `[pm0: n stream lines dropped]`.
unfoldable pub marker : ℕ → Entry → ℕ → Entry
unfolding itoa
marker now e n = record {
  stream = e.stream;
  at = now;
  content =
      codes "[pm0: " ++ (itoa n ++ (codes " " ++ (label e.stream ++ codes " lines dropped]")));
  seq = e.seq;
  dropped = n;
}

-- The consumer takes `n` entries out of the channel.
abbrev pub receive : ℕ → Sub → Sub
receive n s = record s { queue = drop n s.queue }

-- A send that finds room.
abbrev pub send : Entry → Sub → Sub
send e s = record s { queue = s.queue ++ (e ∷ []); sent = s.sent ++ (e ∷ []) }

-- The marker goes out first, where lines of the stream are pending and the channel has room.
unfoldable pub flush : ℕ → ℕ → Entry → Sub → Sub
flush room now e s =
    if ltb 0 (pending e.stream s)
    then (if ltb (length s.queue) room
        then set_pending e.stream 0 (send (marker now e (pending e.stream s)) s)
        else s)
    else s

-- Then the line; with no room it is counted as pending and as dropped.
unfoldable pub deliver : ℕ → Entry → Sub → Sub
deliver room e s =
    if ltb (length s.queue) room
    then send e s
    else set_pending e.stream (suc (pending e.stream s)) (record s { drops = suc s.drops })

-- What a consumer receives before the first and before the second select.
abbrev pub Taken : Type 0
Taken = ℕ × ℕ

-- One round of the loop of `fanout`.
unfoldable pub offer : ℕ → ℕ → Entry → Taken → Sub → Sub
unfolding flush deliver
offer room now e taken s = deliver room e (receive taken.1 (flush room now e (receive taken.0 s)))

-- `fanout`, for what each consumer receives meanwhile.
unfoldable pub fanout : ℕ → ℕ → Entry → (Sub → Taken) → List Sub → List Sub
fanout room now e taken [] = []
fanout room now e taken (s ∷ subs) = offer room now e (taken s) s ∷ fanout room now e taken subs

-- The reports of kind `subscriber` that the delivery of an entry makes: one for each drop.
unfoldable pub refused : ℕ → ℕ → Entry → (Sub → Taken) → List Sub → ℕ
unfolding flush
refused room now e taken [] = 0
refused room now e taken (s ∷ subs) =
    let t = receive (taken s).1 (flush room now e (receive (taken s).0 s)) in
    (if ltb (length t.queue) room then 0 else 1) + refused room now e taken subs
