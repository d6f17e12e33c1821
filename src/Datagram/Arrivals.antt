-- ===== src/Datagram/Arrivals.antt =====
-- The inbox keeps the newest datagrams, in order, and loses no buffer of the pool.
use streamf.Common.{
  ℕ, ◌+◌, ◌-◌, ◌≤◌, ◌<◌, ◌≡◌, refl, sym, ◌∙◌, inl, inr, List, [], ◌∷◌, ◌++◌, Bool, true, false, ltb,
  if◌then◌else◌, length, drop, arith, length-append, Bool-cases,
}
use streamf.Datagram.Inbox.{Message, Inbox, recycle, enqueue, displace, put_read}

-- The last `n` of a list.
abbrev pub newest : ℕ → List Message → List Message
newest n l = drop (length l - n) l

-- How many messages hold a buffer of the pool.
unfoldable pub count_pooled : List Message → ℕ
count_pooled [] = 0
count_pooled (m ∷ ms) = (if m.pooled then 1 else 0) + count_pooled ms

-- Buffers in the queue, in use by the reader, and given back.
abbrev pub accounted : Inbox → ℕ
accounted s = s.put + (if s.read_pooled then 1 else 0) + count_pooled s.queue

-- What every operation keeps.
pub record IsSound (s : Inbox) : Type 0 where
  pub some_room : 0 < s.capacity
  pub bounded : length s.queue ≤ s.capacity
  pub released : s.read ≡ [] → s.read_pooled ≡ false

count_pooled-append : (l k : List Message) → count_pooled (l ++ k) ≡ count_pooled l + count_pooled k
unfolding count_pooled
count_pooled-append [] k = omega arith
count_pooled-append (x ∷ xs) k = omega (arith, count_pooled-append xs k)

-- What displacing the head of a full queue does.
displace_lem :
    (s : Inbox) (q : List Message) (m : Message)
    → 0 < length q
    → ((displace s q m).queue ≡ drop 1 (q ++ (m ∷ [])))
      × ((displace s q m).signal ≡ s.signal)
      × (length (displace s q m).queue ≡ length q)
      × ((displace s q m).capacity ≡ s.capacity)
      × ((displace s q m).read ≡ s.read)
      × ((displace s q m).read_pooled ≡ s.read_pooled)
      × ((displace s q m).put + count_pooled (displace s q m).queue
          ≡ s.put + count_pooled (q ++ (m ∷ [])))
unfolding displace count_pooled
displace_lem s [] m h = absurd (omega arith)
displace_lem s (o ∷ rest) m h = (
  refl,
  refl,
  omega (arith, length-append rest (m ∷ [])),
  refl,
  refl,
  refl,
  ground (arith, count_pooled-append rest (m ∷ [])),
)

put_read_open :
    (done_first : Bool) (s : Inbox) (m : Message)
    → s.done ≡ false
    → put_read done_first s m ≡ (
        if ltb (length s.queue) s.capacity
        then enqueue (record s { signal = true }) m
        else displace (record s { signal = true }) s.queue m)
unfolding put_read
put_read_open done_first s m open_still = rw open_still

-- An open connection with a sound inbox keeps the newest datagrams that its capacity allows, the
-- new one last, in the order of their arrival, and signals that it is in use.
put_read-newest :
    (done_first : Bool) (s : Inbox) (m : Message)
    → IsSound s
    → s.done ≡ false
    → ((put_read done_first s m).queue ≡ newest s.capacity (s.queue ++ (m ∷ [])))
      × ((put_read done_first s m).signal ≡ true)
unfolding enqueue
put_read-newest done_first s m v open_still =
    let l = length-append s.queue (m ∷ []) in
    let e = put_read_open done_first s m open_still in
    elim (Bool-cases (ltb (length s.queue) s.capacity)) [
      | inl room ↦
          let z : length (s.queue ++ (m ∷ [])) - s.capacity ≡ 0 = ground (arith, l) in
          rw (e, room, z) (refl, refl)
      | inr full ↦
          let z : length (s.queue ++ (m ∷ [])) - s.capacity ≡ 1 =
            ground (arith, l, v.bounded, v.some_room) in
          let d =
            displace_lem (record s { signal = true }) s.queue m
              (ground (arith, v.bounded, v.some_room)) in
          rw (e, full, z) (d.0, d.1)
    ]

-- Every arrival keeps a sound inbox sound, and accounts for the buffer of its message once: queued,
-- or given back, with that of a message it displaces still counted.
put_read-IsSound :
    (done_first : Bool) (s : Inbox) (m : Message)
    → IsSound s
    → IsSound (put_read done_first s m)
      × (accounted (put_read done_first s m) ≡ accounted s + (if m.pooled then 1 else 0))
unfolding put_read recycle enqueue
put_read-IsSound done_first s m v =
    let l = length-append s.queue (m ∷ []) in
    let c = count_pooled-append s.queue (m ∷ []) in
    let one : count_pooled (m ∷ []) ≡ (if m.pooled then 1 else 0) =
      unfold count_pooled in omega arith in
    elim (Bool-cases (ltb (length s.queue) s.capacity)) [
      | inl room ↦
          let (a, b) : ((put_read done_first s m).read ≡ s.read)
              × ((put_read done_first s m).read_pooled ≡ s.read_pooled) =
            (ground arith, ground arith) in
          (
            record {
              some_room = ground (arith, v.some_room);
              bounded = ground (arith, l, v.bounded);
              released = λ h. b ∙ v.released (sym a ∙ h);
            },
            ground (arith, c, one),
          )
      | inr full ↦
          let d =
            displace_lem (record s { signal = true }) s.queue m
              (ground (arith, v.bounded, v.some_room)) in
          let (a, b) : ((put_read done_first s m).read ≡ s.read)
              × ((put_read done_first s m).read_pooled ≡ s.read_pooled) =
            (ground (arith, d), ground (arith, d)) in
          (
            record {
              some_room = ground (arith, v.some_room);
              bounded = ground (arith, d, v.bounded);
              released = λ h. b ∙ v.released (sym a ∙ h);
            },
            ground (arith, d, c, one),
          )
    ]
