-- ===== src/Datagram/Reads.antt =====
-- Reading from the inbox gives the stream of its frames.
use streamf.Common.{
  ℕ, ◌≤◌, ◌<◌, ◌≡◌, refl, sym, ap, subst, ◌∙◌, inl, inr, List, [], ◌∷◌, ◌++◌, false, length, take,
  drop, arith, append_assoc, take-append-drop, List-cases, Bool-cases,
}
use streamf.Datagram.{frame}
use streamf.Datagram.Inbox.{
  Message, Inbox, Got, bytes, closed_error, eof, blocked, Wake, sees_done, sees_listener_done,
  sees_message, serve_read, wait_read, read,
}
use streamf.Datagram.Arrivals.{count_pooled, accounted, IsSound}

-- The framed bytes of the queue.
unfoldable pub queued : List Message → List ℕ
queued [] = []
queued (m ∷ ms) = frame m.datagram ++ queued ms

-- What the reader is still to see, as a byte stream.
abbrev pub stream : Inbox → List ℕ
stream s = s.read ++ queued s.queue

abbrev pub got_bytes : Got → List ℕ
got_bytes (bytes l) = l
got_bytes closed_error = []
got_bytes eof = []
got_bytes blocked = []

serve_read_fields :
    (s : Inbox) (k : ℕ)
    → ((serve_read s k).1.read ≡ drop k s.read) × ((serve_read s k).1.queue ≡ s.queue)
unfolding serve_read
serve_read_fields s k = ground arith

serve_read_lem :
    (s : Inbox) (k : ℕ)
    → let (g, s') = serve_read s k in
      (got_bytes g ++ stream s' ≡ stream s)
      × (s'.queue ≡ s.queue)
      × (s'.capacity ≡ s.capacity)
      × (s'.read ≡ [] → s'.read_pooled ≡ false)
      × (accounted s' ≡ accounted s)
unfolding serve_read
serve_read_lem s k =
    let t = take-append-drop k s.read in
    let z = append_assoc (take k s.read) (drop k s.read) (queued s.queue) in
    let (a, b) = serve_read_fields s k in
    let f : take k s.read ++ stream (serve_read s k).1 ≡ stream s =
      rw (a, b) (sym z ∙ ap (λ l. l ++ queued s.queue) t) in
    elim (List-cases (drop k s.read)) [
      | inl e ↦ (f, ground arith, ground arith, ground arith, ground arith)
      | inr (x, xs, e) ↦
          (f, ground arith, ground arith, λ h. absurd (ground (arith, a)), ground arith)
    ]

serve_read-IsSound :
    (s : Inbox) (k : ℕ) → 0 < s.capacity → length s.queue ≤ s.capacity → IsSound (serve_read s k).1
serve_read-IsSound s k some_room bounded =
    let (_, q, c, r, _) = serve_read_lem s k in
    record { some_room = rw c some_room; bounded = rw (q, c) bounded; released = r }

-- The next message, taken into use.
next_message : Inbox → Message → List Message → Inbox
next_message s m rest = record s { queue = rest; read = frame m.datagram; read_pooled = m.pooled }

abbrev Keeps : Inbox → Got × Inbox → Type 0
Keeps s r = (got_bytes r.0 ++ stream r.1 ≡ stream s) × IsSound r.1 × (accounted r.1 ≡ accounted s)

next_message-Keeps :
    (s : Inbox) (k : ℕ) (m : Message) (rest : List Message)
    → IsSound s
    → s.read ≡ []
    → s.queue ≡ m ∷ rest
    → Keeps s (serve_read (next_message s m rest) k)
unfolding next_message queued count_pooled
next_message-Keeps s k m rest v e q =
    let n = next_message s m rest in
    let d = serve_read_lem n k in
    let p = v.released e in
    let b : length rest ≤ s.capacity = omega (arith, ap length q, v.bounded) in
    let st : stream n ≡ stream s = ground (arith, ap queued q) in
    let ac : accounted n ≡ accounted s = ground (arith, ap count_pooled q) in
    (d.0 ∙ st, serve_read-IsSound n k v.some_room b, d.4 ∙ ac)

still-Keeps :
    (s : Inbox) (g : Got) (r : Got × Inbox) → IsSound s → got_bytes g ≡ [] → r ≡ (g, s) → Keeps s r
still-Keeps s g r v h e =
    let k : Keeps s (g, s) = (ap (λ l. l ++ stream s) h, v, refl) in subst (Keeps s) (sym e) k

wait-Keeps :
    (s : Inbox) (k : ℕ) (wake : Wake) → IsSound s → s.read ≡ [] → Keeps s (wait_read s k wake)
unfolding wait_read next_message
wait-Keeps s k sees_done v e = elim (Bool-cases s.done) [
  | inl p ↦ still-Keeps s closed_error (wait_read s k sees_done) v refl (ground arith)
  | inr p ↦ still-Keeps s blocked (wait_read s k sees_done) v refl (ground arith)
]
wait-Keeps s k sees_listener_done v e = elim (Bool-cases s.listener_done) [
  | inl p ↦ still-Keeps s eof (wait_read s k sees_listener_done) v refl (ground arith)
  | inr p ↦ still-Keeps s blocked (wait_read s k sees_listener_done) v refl (ground arith)
]
wait-Keeps s k sees_message v e = elim (List-cases s.queue) [
  | inl q ↦ still-Keeps s blocked (wait_read s k sees_message) v refl (ground arith)
  | inr (m, rest, q) ↦
      let eq : serve_read (next_message s m rest) k ≡ wait_read s k sees_message = ground arith in
      subst (Keeps s) eq (next_message-Keeps s k m rest v e q)
]

-- A read of a sound inbox returns the next bytes of the stream of frames, loses none, keeps the
-- inbox sound and accounts for every pooled buffer.
pub read-stream :
    (s : Inbox) (k : ℕ) (wake : Wake)
    → IsSound s
    → (got_bytes (read s k wake).0 ++ stream (read s k wake).1 ≡ stream s)
      × IsSound (read s k wake).1
      × (accounted (read s k wake).1 ≡ accounted s)
unfolding read
read-stream s k wake v = elim (List-cases s.read) [
  | inl e ↦
      let eq : wait_read s k wake ≡ read s k wake = ground arith in
      subst (Keeps s) eq (wait-Keeps s k wake v e)
  | inr (x, xs, e) ↦
      let d = serve_read_lem s k in
      let eq : serve_read s k ≡ read s k wake = ground arith in
      subst (Keeps s) eq (d.0, serve_read-IsSound s k v.some_room v.bounded, d.4)
]
