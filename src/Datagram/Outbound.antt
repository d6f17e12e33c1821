-- ===== src/Datagram/Outbound.antt =====
-- dialer/udp.go: `Read` and `Close` of the stream of a dialed UDP socket. What is going to arrive at
-- the socket is a list of datagrams, with the error of the read behind them.
use streamf.Common.{
  ℕ, zero, suc, List, [], ◌∷◌, ◌++◌, Option, none, some, Bool, true, false, if◌then◌else◌, take,
  drop,
}
use streamf.Datagram.{frame}

-- `tcpFromUdp`; `held` is `read`, and `closes` counts the closes of the pipe and the socket.
pub record TcpFromUdp : Type 0 where
  pub size : ℕ
  pub held : List ℕ
  pub incoming : List (List ℕ)
  pub gone : ℕ
  pub done : Bool
  pub closes : ℕ

-- `newTcpFromUdp`
unfoldable pub new_tcp_from_udp : ℕ → List (List ℕ) → ℕ → TcpFromUdp
new_tcp_from_udp size incoming gone = record {
  size = size;
  held = [];
  incoming = incoming;
  gone = gone;
  done = false;
  closes = 0;
}

pub data Output : Type 0 where
  output : List ℕ → Output
  eof : Output
  failed : ℕ → Output

-- The first datagram that holds a byte, behind its length, and those that follow. The socket cuts a
-- datagram to the buffer.
unfoldable pub receive : ℕ → List (List ℕ) → Option (List ℕ × List (List ℕ))
receive size [] = none
receive size (d ∷ ds) =
    let rest = receive size ds in
    elim (take size d) [ [] ↦ rest | x ∷ xs ↦ some (frame (x ∷ xs), ds) ]

-- `Read` into a buffer of that length.
unfoldable pub read_stream : ℕ → TcpFromUdp → Output × TcpFromUdp
unfolding receive
read_stream zero c = (if c.done then eof else output [], c)
read_stream (suc k) c = elim c.held [
  | x ∷ xs ↦ (output (take (suc k) c.held), record c { held = drop (suc k) c.held })
  | [] ↦ elim (receive c.size c.incoming) [
    | none ↦ (failed c.gone, record c { incoming = [] })
    | some (f, ds) ↦ (output (take (suc k) f), record c { held = drop (suc k) f; incoming = ds })
  ]
]

-- `Close`
unfoldable pub close_udp : TcpFromUdp → TcpFromUdp
close_udp c = if c.done then c else record c { done = true; closes = suc c.closes }

-- A caller that reads to the first error, with as many reads at most.
unfoldable pub read_stream_all : ℕ → ℕ → TcpFromUdp → List ℕ × Option Output
unfolding read_stream
read_stream_all zero k c = ([], none)
read_stream_all (suc n) k c =
    let (o, d) = read_stream k c in
    let (bs, end) = read_stream_all n k d in
    elim o [ output b ↦ (b ++ bs, end) | eof ↦ ([], some eof) | failed e ↦ ([], some (failed e)) ]
