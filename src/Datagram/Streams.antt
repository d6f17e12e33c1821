-- ===== src/Datagram/Streams.antt =====
-- internal/network/udp.go: `onMessage`, which keeps a stream for each client of a UDP listener, and
-- `Close` of a stream. A stream is a pointer: a number; an address and a datagram are numbers too.
use streamf.Common.{
  ℕ, suc, List, [], ◌∷◌, ◌++◌, Option, none, some, Bool, false, ◌==◌, if◌then◌else◌,
}

-- A stream: not made yet, open, waiting in `Close` to be taken from `close`, and gone.
pub data Status : Type 0 where
  unmade opened closing gone : Status

-- `taken` are the calls of `putRead`, with the stream and the datagram. `pending` is the stream that
-- `Accept` has been given, where the loop stands before `keys[key] = c`.
pub record Streams : Type 0 where
  pub keys : ℕ → Option ℕ
  pub key_of : ℕ → ℕ
  pub status : ℕ → Status
  pub pending : Option (ℕ × ℕ)
  pub next : ℕ
  pub taken : List (ℕ × ℕ)

pub data Event : Type 0 where
  -- `msg = <-u.msg`; without a stream of the address, a new one is accepted
  message : ℕ → ℕ → Event
  -- `keys[key] = c` and `c.putRead(msg)`
  insert : Event
  -- a call of `Close`
  close : ℕ → Event
  -- `c = <-u.close`
  closed : ℕ → Event

-- A map or an array with one value changed.
abbrev pub set {ℓ} : {A : Type ℓ} → (ℕ → A) → ℕ → A → ℕ → A
set f k a x = if x == k then a else f x

unfoldable pub no_streams : Streams
no_streams = record {
  keys = λ k. none;
  key_of = λ i. 0;
  status = λ i. unmade;
  pending = none;
  next = 0;
  taken = [];
}

-- `newUdpToTcp`, and `u.ch <- c`
unfoldable pub accept_stream : Streams → ℕ → ℕ → Streams
accept_stream s key m = record s {
  key_of = set s.key_of s.next key;
  status = set s.status s.next opened;
  pending = some (s.next, m);
  next = suc s.next;
}

unfoldable pub on_message : Streams → ℕ → ℕ → Streams
unfolding accept_stream
on_message s key m = elim (s.keys key) [
  | some c ↦ record s { taken = s.taken ++ (c, m) ∷ [] }
  | none ↦ accept_stream s key m
]

unfoldable pub insert_stream : Streams → ℕ → ℕ → Streams
insert_stream s c m = record s {
  keys = set s.keys (s.key_of c) (some c);
  pending = none;
  taken = s.taken ++ (c, m) ∷ [];
}

-- `if c0, ok = keys[key]; ok && c == c0`
unfoldable pub is_current : Option ℕ → ℕ → Bool
is_current none c = false
is_current (some c0) c = c == c0

unfoldable pub on_closed : Streams → ℕ → Streams
unfolding is_current
on_closed s c =
    let t : Streams = record s { status = set s.status c gone } in
    if is_current (s.keys (s.key_of c)) c
    then record t { keys = set s.keys (s.key_of c) none }
    else t

-- `Close`, up to its `select`; a second call changes nothing.
unfoldable pub close_stream : Streams → ℕ → Streams
close_stream s c = elim (s.status c) [
  | opened ↦ record s { status = set s.status c closing }
  | unmade ↦ s
  | closing ↦ s
  | gone ↦ s
]

-- What waits in `close` is taken.
unfoldable pub take_closed : Streams → ℕ → Streams
unfolding on_closed
take_closed s c = elim (s.status c) [ closing ↦ on_closed s c | unmade ↦ s | opened ↦ s | gone ↦ s ]

-- The loop takes from a channel in its outer `select` alone. The listener is not closed.
unfoldable pub on_event : Streams → Event → Streams
unfolding on_message insert_stream take_closed close_stream
on_event s (message key m) = elim s.pending [ some p ↦ s | none ↦ on_message s key m ]
on_event s insert = elim s.pending [ none ↦ s | some p ↦ insert_stream s p.0 p.1 ]
on_event s (close c) = close_stream s c
on_event s (closed c) = elim s.pending [ some p ↦ s | none ↦ take_closed s c ]

unfoldable pub on_events : Streams → List Event → Streams
on_events s [] = s
on_events s (e ∷ es) = on_events (on_event s e) es
