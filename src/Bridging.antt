-- ===== src/Bridging.antt =====
-- internal/network/bridging.go: `Bridging`, which copies between two connections in both directions,
-- as steps of the function, its two goroutines and the clock. Times are in nanoseconds.
pub mod Ended
pub mod Closed
pub mod Progress
pub mod Runs
use streamf.Common.{
  ℕ, suc, ◌+◌, ◌-◌, ◌≤◌, ◌<◌, ◌≡◌, ℤ, pos_part, List, [], ◌∷◌, Bool, true, false, leb, ltb,
}

pub data Conn : Type 0 where
  c0 c1 : Conn

-- The functions that a goroutine runs, with what they write to and what they read.
pub data Copying : Type 0 where
  forwarding : Conn → Conn → Copying
  forwarding_websocket : Conn → Conn → Copying
  read_websocket : Conn → Conn → Copying
  write_websocket : Conn → Conn → Copying

-- The two goroutines, by whether `c0` and `c1` are websockets.
unfoldable pub goroutines : Bool → Bool → Copying × Copying
goroutines true true = (forwarding_websocket c0 c1, forwarding_websocket c1 c0)
goroutines true false = (read_websocket c1 c0, write_websocket c0 c1)
goroutines false true = (read_websocket c0 c1, write_websocket c1 c0)
goroutines false false = (forwarding c0 c1, forwarding c1 c0)

-- A goroutine: in its loop, in `done <- true`, or gone.
pub data Sender : Type 0 where
  copying sending gone : Sender

-- Where the function is: `<-done`, behind it, in `time.Sleep`, in the last `select`, returned. The
-- first time is that of the first `<-done`, the second that of the wait or of the return.
pub data Main : Type 0 where
  first_wait : Main
  checking : ℕ → Main
  sleeping : ℕ → ℕ → Main
  timing : ℕ → ℕ → Main
  returned : ℕ → ℕ → Main

-- `queued` is what `done` holds; `closed` has the connections that were closed, the last one first.
pub record Bridge : Type 0 where
  pub sender0 : Sender
  pub sender1 : Sender
  pub queued : ℕ
  pub main : Main
  pub now : ℕ
  pub closed : List Conn

abbrev pub started : ℕ → Bridge
started now = record {
  sender0 = copying;
  sender1 = copying;
  queued = 0;
  main = first_wait;
  now = now;
  closed = [];
}

-- `make(chan bool, 1)`
abbrev pub capacity : ℕ
capacity = 1

-- `time.Millisecond` and `time.Second * 10`
abbrev pub millisecond : ℕ
millisecond = 1000000

abbrev pub ten_seconds : ℕ
ten_seconds = 10000000000

-- The deferred calls, the last one first.
abbrev pub leave : ℕ → Bridge → Bridge
leave t s = record s { main = returned t s.now; closed = c0 ∷ c1 ∷ s.closed }

abbrev pub receive : Bridge → Bridge
receive s = record s { queued = s.queued - 1 }

pub data Step (duration : ℤ) (s : Bridge) : Bridge → Type 0 where
  end0 : s.sender0 ≡ copying → Step duration s (record s { sender0 = sending })
  end1 : s.sender1 ≡ copying → Step duration s (record s { sender1 = sending })
  send0 :
      s.sender0 ≡ sending
      → s.queued < capacity
      → Step duration s (record s { sender0 = gone; queued = suc s.queued })
  send1 :
      s.sender1 ≡ sending
      → s.queued < capacity
      → Step duration s (record s { sender1 = gone; queued = suc s.queued })
  pass : (n : ℕ) → Step duration s (record s { now = n + s.now })
  first :
      s.main ≡ first_wait
      → 0 < s.queued
      → Step duration s (record (receive s) { main = checking s.now })
  brief :
      (t : ℕ)
      → s.main ≡ checking t
      → leb (pos_part duration) millisecond ≡ true
      → Step duration s (leave t s)
  both :
      (t : ℕ)
      → s.main ≡ checking t
      → leb (pos_part duration) millisecond ≡ false
      → 0 < s.queued
      → Step duration s (leave t (receive s))
  sleep :
      (t : ℕ)
      → s.main ≡ checking t
      → leb (pos_part duration) millisecond ≡ false
      → s.queued ≡ 0
      → ltb (pos_part duration) ten_seconds ≡ true
      → Step duration s (record s { main = sleeping t s.now })
  arm :
      (t : ℕ)
      → s.main ≡ checking t
      → leb (pos_part duration) millisecond ≡ false
      → s.queued ≡ 0
      → ltb (pos_part duration) ten_seconds ≡ false
      → Step duration s (record s { main = timing t s.now })
  wake :
      (t u : ℕ)
      → s.main ≡ sleeping t u
      → u + pos_part duration ≤ s.now
      → Step duration s (leave t s)
  fire :
      (t u : ℕ) → s.main ≡ timing t u → u + pos_part duration ≤ s.now → Step duration s (leave t s)
  second : (t u : ℕ) → s.main ≡ timing t u → 0 < s.queued → Step duration s (leave t (receive s))
