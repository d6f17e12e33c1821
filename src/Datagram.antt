-- ===== src/Datagram.antt =====
-- internal/network/udp.go and dialer/udp.go: datagrams carried over a byte stream, each behind its
-- length in two bytes, the low one first. The pipe that `Write` fills is a list of bytes; it ends
-- where the pipe is closed.
pub mod Framing
pub mod Drained
pub mod Inbox
pub mod Arrivals
pub mod Reads
pub mod Streams
pub mod Clients
pub mod Dispatch
pub mod Idle
pub mod Outbound
pub mod Delivered
pub mod Runs
use streamf.Common.{
  ℕ, zero, suc, ◌+◌, ◌*◌, ◌/◌, ◌%◌, List, [], ◌∷◌, ◌++◌, Option, none, some, Bool, true, false,
  ◌&&◌, ltb, ◌==◌, if◌then◌else◌, length, take, drop,
}

-- `binary.LittleEndian.PutUint16(msg.b, uint16(len(msg.b)-2))` over a datagram at offset 2.
unfoldable pub frame : List ℕ → List ℕ
frame datagram = let n = length datagram % 65536 in (n % 256) ∷ (n / 256) ∷ datagram

-- `binary.LittleEndian.Uint16(b)`
abbrev pub le16 : ℕ → ℕ → ℕ
le16 lo hi = lo + hi * 256

-- The local variables of `run`: the length of `b`, whether `data` still holds a pooled buffer, the
-- datagrams written so far, and how often a buffer went back to the pool.
pub record Drain : Type 0 where
  pub size : ℕ
  pub pooled : Bool
  pub sent : List (List ℕ)
  pub put : ℕ

-- `if n > len(b) { b = make([]byte, n); ... }`
unfoldable pub fit : Drain → ℕ → Drain
fit d n =
    if ltb d.size n
    then record d { size = n; pooled = false; put = if d.pooled then suc d.put else d.put }
    else d

-- After the loop.
unfoldable pub release : Drain → Drain
release d = if d.pooled then record d { pooled = false; put = suc d.put } else d

-- The loop; `send` says whether a datagram is written without an error. `none` is fuel that ran
-- out; a round takes two bytes at least.
unfoldable pub drain_loop : (List ℕ → Bool) → ℕ → List ℕ → Drain → Option Drain
unfolding fit
drain_loop send zero stream d = none
drain_loop send (suc fuel) [] d = some d
drain_loop send (suc fuel) (lo ∷ []) d = some d
drain_loop send (suc fuel) (lo ∷ hi ∷ rest) d =
    let n = le16 lo hi in
    let d' = fit d n in
    let skip = drain_loop send fuel rest d' in
    let next =
      drain_loop send fuel (drop n rest) (record d' { sent = d'.sent ++ (take n rest ∷ []) }) in
    if n == 0
    then skip
    else if ltb (length rest) n
    then some d'
    else if send (take n rest)
    then next
    else some d'

-- `size` is the configured frame length, `pool_size` that of the pool's buffers.
unfoldable pub start : ℕ → ℕ → Drain
start pool_size size =
    if ltb pool_size size
    then record { size = size; pooled = false; sent = []; put = 0 }
    else record { size = pool_size; pooled = true; sent = []; put = 0 }

unfoldable pub drain : (List ℕ → Bool) → ℕ → ℕ → List ℕ → Option Drain
unfolding start release
drain send pool_size size stream =
    elim (drain_loop send (suc (length stream)) stream (start pool_size size)) [
      | none ↦ none
      | some d ↦ some (release d)
    ]

-- `udpToTcp.run` writes to the client's address, `tcpFromUdp.run` to the connected socket.
unfoldable pub udp_to_tcp_run : (List ℕ → Bool) → ℕ → ℕ → List ℕ → Option Drain
udp_to_tcp_run = drain

unfoldable pub tcp_from_udp_run : (List ℕ → Bool) → ℕ → ℕ → List ℕ → Option Drain
tcp_from_udp_run = drain
