-- ===== src/Datagram/Dispatch.antt =====
-- internal/network/udp.go: what `onMessage` does with a datagram, after any events.
use streamf.Common.{
  ℕ, ◌≡◌, refl, sym, ap, subst, ◌⊎◌, inl, inr, List, [], ◌∷◌, ◌++◌, none, some, true, Option-cases,
}
use streamf.Datagram.Streams.{
  Status, unmade, opened, closing, gone, Streams, Event, message, insert, close, closed, no_streams,
  accept_stream, on_message, insert_stream, on_closed, take_closed, on_event, on_events,
}
use streamf.Datagram.Clients.{
  alive, IsSound, accept_stream-IsSound, insert_stream-IsSound, on_closed-IsSound,
  close_stream-IsSound,
}

on_message_found :
    (s : Streams) (k m c : ℕ)
    → s.keys k ≡ some c
    → on_message s k m ≡ record s { taken = s.taken ++ (c, m) ∷ [] }
unfolding on_message
on_message_found s k m c h = rw (h, on_message) refl

on_message_new : (s : Streams) (k m : ℕ) → s.keys k ≡ none → on_message s k m ≡ accept_stream s k m
unfolding on_message
on_message_new s k m h = rw (h, on_message) refl

on_message-IsSound :
    (s : Streams) (k m : ℕ) → s.pending ≡ none → IsSound s → IsSound (on_message s k m)
on_message-IsSound s k m p v = elim (Option-cases (s.keys k)) [
  | inl h ↦ subst IsSound (sym (on_message_new s k m h)) (accept_stream-IsSound s k m p h v)
  | inr (c, h) ↦
      subst IsSound (sym (on_message_found s k m c h))
        (record { current = v.current; found = v.found; free = v.free; fresh = v.fresh })
]

take_closed-IsSound :
    (s : Streams) (c : ℕ) (x : Status)
    → s.status c ≡ x
    → s.pending ≡ none
    → IsSound s
    → IsSound (take_closed s c)
unfolding take_closed
take_closed-IsSound s c closing h p v =
    let same : take_closed s c ≡ on_closed s c = rw (h, take_closed) refl in
    subst IsSound (sym same) (on_closed-IsSound s c p h v)
take_closed-IsSound s c unmade h p v =
    let same : take_closed s c ≡ s = rw (h, take_closed) refl in subst IsSound (sym same) v
take_closed-IsSound s c opened h p v =
    let same : take_closed s c ≡ s = rw (h, take_closed) refl in subst IsSound (sym same) v
take_closed-IsSound s c gone h p v =
    let same : take_closed s c ≡ s = rw (h, take_closed) refl in subst IsSound (sym same) v

-- With a stream that is to be inserted, the loop takes nothing.
busy :
    (s : Streams) (p : ℕ × ℕ)
    → s.pending ≡ some p
    → ((k m : ℕ) → on_event s (message k m) ≡ s)
      × ((c : ℕ) → on_event s (closed c) ≡ s)
      × (on_event s insert ≡ insert_stream s p.0 p.1)
unfolding on_event
busy s p h = ((λ k m. rw h refl), (λ c. rw h refl), rw h refl)

idle :
    (s : Streams)
    → s.pending ≡ none
    → ((k m : ℕ) → on_event s (message k m) ≡ on_message s k m)
      × ((c : ℕ) → on_event s (closed c) ≡ take_closed s c)
      × (on_event s insert ≡ s)
unfolding on_event
idle s h = ((λ k m. rw h refl), (λ c. rw h refl), rw h refl)

on_event-IsSound : (s : Streams) (e : Event) → IsSound s → IsSound (on_event s e)
unfolding on_event
on_event-IsSound s (close c) v = close_stream-IsSound s c (s.status c) refl v
on_event-IsSound s (message k m) v = elim (Option-cases s.pending) [
  | inl h ↦ subst IsSound (sym ((idle s h).0 k m)) (on_message-IsSound s k m h v)
  | inr (p, h) ↦ subst IsSound (sym ((busy s p h).0 k m)) v
]
on_event-IsSound s (closed c) v = elim (Option-cases s.pending) [
  | inl h ↦ subst IsSound (sym ((idle s h).1 c)) (take_closed-IsSound s c (s.status c) refl h v)
  | inr (p, h) ↦ subst IsSound (sym ((busy s p h).1 c)) v
]
on_event-IsSound s insert v = elim (Option-cases s.pending) [
  | inl h ↦ subst IsSound (sym (idle s h).2) v
  | inr (p, h) ↦ subst IsSound (sym (busy s p h).2) (insert_stream-IsSound s p.0 p.1 h v)
]

no_streams-IsSound : IsSound no_streams
unfolding no_streams
no_streams-IsSound = record {
  current = λ k i h. absurd cc;
  found = λ i h. absurd cc;
  free = λ i m h. absurd cc;
  fresh = λ i h. refl;
}

on_events-IsSound : (s : Streams) (es : List Event) → IsSound s → IsSound (on_events s es)
unfolding on_events
on_events-IsSound s [] v = v
on_events-IsSound s (e ∷ es) v = on_events-IsSound (on_event s e) es (on_event-IsSound s e v)

-- A stream is the only one of its client that is alive.
abbrev pub IsOnly : Streams → ℕ → ℕ → Type 0
IsOnly s k i =
    (s.key_of i ≡ k)
    × (alive (s.status i) ≡ true)
    × ((j : ℕ) → s.key_of j ≡ k → alive (s.status j) ≡ true → j ≡ i)

abbrev pub HasNone : Streams → ℕ → Type 0
HasNone s k = (j : ℕ) → s.key_of j ≡ k → alive (s.status j) ≡ true → ⊥

-- From `s` to `t`, with a datagram of a client.
abbrev pub Dispatched : Streams → ℕ → ℕ → Streams → Type 0
Dispatched s k m t =
    ((i : ℕ) × IsOnly s k i × (t ≡ record s { taken = s.taken ++ (i, m) ∷ [] }))
    ⊎ (HasNone s k × (t ≡ accept_stream s k m))

on_message-Dispatched :
    (s : Streams) (k m : ℕ) → s.pending ≡ none → IsSound s → Dispatched s k m (on_message s k m)
on_message-Dispatched s k m p v = elim (Option-cases (s.keys k)) [
  | inl h ↦ inr (
    λ j e a. elim (v.found j a) [ inl q ↦ let x = ap s.keys e in cc | inr (n, q) ↦ cc ],
    on_message_new s k m h,
  )
  | inr (c, h) ↦
      let (a, b) = v.current k c h in
      inl (
        c,
        (
          a,
          b,
          λ j e d. elim (v.found j d) [
            | inl q ↦ let x = ap s.keys e in cc
            | inr (n, q) ↦ absurd cc
          ],
        ),
        on_message_found s k m c h,
      )
]

-- Whatever datagrams came to an open UDP listener and whichever of its streams were closed, when
-- its loop takes a datagram, either exactly one stream of the client is open or waits in Close, and
-- the datagram is put there, or there is none, and a new stream is accepted: no client has two
-- streams, and no entry of a stream that is gone stays in the map.
pub on_events-Dispatched :
    (es : List Event) (k m : ℕ)
    → (on_events no_streams es).pending ≡ none
    → Dispatched (on_events no_streams es) k m (on_event (on_events no_streams es) (message k m))
on_events-Dispatched es k m h =
    let s = on_events no_streams es in
    subst (Dispatched s k m) (sym ((idle s h).0 k m))
      (on_message-Dispatched s k m h (on_events-IsSound no_streams es no_streams-IsSound))
