-- ===== src/Datagram/Inbox.antt =====
-- internal/network/udp.go: the inbox of a `udpToTcp`, which `putRead` fills with datagrams from the
-- listener's goroutine and `Read` empties. Where several cases of a `select` are ready, an argument
-- says which one is taken.
use streamf.Common.{
  ℕ, suc, List, [], ◌∷◌, ◌++◌, Bool, true, false, not, ◌&&◌, ◌||◌, ltb, if◌then◌else◌, length, take,
  drop,
}
use streamf.Datagram.{frame}

-- `pooled`: the message's buffer is one of the pool's.
pub record Message : Type 0 where
  pub datagram : List ℕ
  pub pooled : Bool

-- `put` counts the buffers that went back to the pool; `signal` is the channel of one place that
-- keeps the connection from timing out.
pub record Inbox : Type 0 where
  pub capacity : ℕ
  pub queue : List Message
  pub read : List ℕ
  pub read_pooled : Bool
  pub put : ℕ
  pub signal : Bool
  pub done : Bool
  pub listener_done : Bool

-- `if m.data != nil { c.pool.Put(m.data) }`
unfoldable pub recycle : Inbox → Bool → Inbox
recycle s pooled = record s { put = if pooled then suc s.put else s.put }

unfoldable pub enqueue : Inbox → Message → Inbox
enqueue s m = record s { queue = s.queue ++ (m ∷ []) }

-- The second `select`, reached with a full queue: the oldest message makes room.
unfoldable pub displace : Inbox → List Message → Message → Inbox
unfolding recycle enqueue
displace s [] m = s
displace s (oldest ∷ rest) m = enqueue (record (recycle s oldest.pooled) { queue = rest }) m

-- `done_first`: the connection's end is seen before the room in the queue.
unfoldable pub put_read : Bool → Inbox → Message → Inbox
unfolding recycle enqueue displace
put_read done_first s₀ m =
    let s = record s₀ { signal = true } in
    let room = ltb (length s.queue) s.capacity in
    if s.done && (done_first || not room)
    then recycle s m.pooled
    else if room
    then enqueue s m
    else displace s s.queue m

pub data Got : Type 0 where
  bytes : List ℕ → Got
  closed_error eof blocked : Got

-- The case that the `select` of `Read` takes.
pub data Wake : Type 0 where
  sees_done sees_listener_done sees_message : Wake

-- `copy` from what is held, which gives its buffer back once it is used up.
unfoldable pub serve_read : Inbox → ℕ → Got × Inbox
serve_read s k =
    let rest = drop k s.read in
    let s' = record s { read = rest } in
    (
      bytes (take k s.read),
      elim rest [
        | [] ↦ record s' { put = if s.read_pooled then suc s.put else s.put; read_pooled = false }
        | x ∷ xs ↦ s'
      ],
    )

-- With nothing held: the next message, or the end. A message is never empty, so one is enough.
unfoldable pub wait_read : Inbox → ℕ → Wake → Got × Inbox
unfolding serve_read
wait_read s k sees_done = if s.done then (closed_error, s) else (blocked, s)
wait_read s k sees_listener_done = if s.listener_done then (eof, s) else (blocked, s)
wait_read s k sees_message = elim s.queue [
  | [] ↦ (blocked, s)
  | m ∷ rest ↦
      serve_read (record s { queue = rest; read = frame m.datagram; read_pooled = m.pooled }) k
]

unfoldable pub read : Inbox → ℕ → Wake → Got × Inbox
unfolding serve_read wait_read
read s k wake = elim s.read [ [] ↦ wait_read s k wake | x ∷ xs ↦ serve_read s k ]
