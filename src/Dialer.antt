-- ===== src/Dialer.antt =====
-- dialer/basic.go, dialer/http.go and dialer/websocket.go: `Connect`, which runs `connect` in a
-- goroutine, gives up when the dialer is closed or the context ends, and has `connect` try again. The
-- three files have the same code; what one attempt returns is an argument. A connection is a number.
pub mod Handoff
pub mod Ended
pub mod Retry
pub mod Headers
pub mod Options
pub mod Build
pub mod Kept
pub mod Runs
use streamf.Common.{
  ℕ, suc, ◌≡◌, ℤ, pos_part, List, [], ◌∷◌, ◌++◌, Option, none, some, Bool, true, false, ◌||◌, leb,
  if◌then◌else◌,
}

-- `conn` and `e`: an error is a number too.
pub data Dialed : Type 0 where
  ok : ℕ → Dialed
  err : ℕ → Dialed

-- One attempt, and whether the dialer is closed or the context over behind it.
pub record Attempt : Type 0 where
  pub result : Dialed
  pub stopped : Bool

unfoldable pub is_ok : Dialed → Bool
is_ok (ok c) = true
is_ok (err e) = false

-- The loop of `connect` at round `i`, with the number of attempts made in the end. The attempts that
-- can be made are a list; `none` where it is too short.
unfoldable pub connect_loop : ℤ → ℕ → List Attempt → Option (Dialed × ℕ)
unfolding is_ok
connect_loop retry i [] = none
connect_loop retry i (a ∷ rest_of) =
    let again = connect_loop retry (suc i) rest_of in
    if is_ok a.result || leb (pos_part retry) i
    then some (a.result, suc i)
    else if a.stopped
    then some (a.result, suc i)
    else again

unfoldable pub basic_connect : ℤ → List Attempt → Option (Dialed × ℕ)
basic_connect retry attempts = connect_loop retry 0 attempts

unfoldable pub http_connect : ℤ → List Attempt → Option (Dialed × ℕ)
http_connect retry attempts = connect_loop retry 0 attempts

unfoldable pub websocket_connect : ℤ → List Attempt → Option (Dialed × ℕ)
websocket_connect retry attempts = connect_loop retry 0 attempts

-- The goroutine: in `connect`, in its `select`, or gone.
pub data Worker : Type 0 where
  dialing : Worker
  holding : Dialed → Worker
  gone : Worker

-- The caller: in its `select`, or returned, with what was received, `ErrClosed` or the context's error.
pub data Caller : Type 0 where
  waiting : Caller
  received : Dialed → Caller
  err_closed : Caller
  err_context : Caller

-- `done` and `ctx_done` are closed channels; `closed` are the connections that were closed.
pub record Connect : Type 0 where
  pub worker : Worker
  pub caller : Caller
  pub done : Bool
  pub ctx_done : Bool
  pub closed : List ℕ

abbrev pub start : Connect
start = record { worker = dialing; caller = waiting; done = false; ctx_done = false; closed = [] }

-- The deferred `cancel`, where there is a timeout.
abbrev pub cancelled : Bool → Connect → Connect
cancelled timed s = record s { ctx_done = timed || s.ctx_done }

-- The connection that a result holds.
abbrev pub conn_of : Dialed → List ℕ
conn_of (ok c) = c ∷ []
conn_of (err e) = []

-- What the goroutine, the caller and the others do next, where `connect` returns `r`.
pub data Step (timed : Bool) (r : Dialed) (s : Connect) : Connect → Type 0 where
  dial : s.worker ≡ dialing → Step timed r s (record s { worker = holding r })
  close : Step timed r s (record s { done = true })
  expire : Step timed r s (record s { ctx_done = true })
  hand_over :
      s.worker ≡ holding r
      → s.caller ≡ waiting
      → Step timed r s (cancelled timed (record s { worker = gone; caller = received r }))
  leave_closed :
      s.caller ≡ waiting
      → s.done ≡ true
      → Step timed r s (cancelled timed (record s { caller = err_closed }))
  leave_context :
      s.caller ≡ waiting
      → s.ctx_done ≡ true
      → Step timed r s (cancelled timed (record s { caller = err_context }))
  drop :
      s.worker ≡ holding r
      → (s.done || s.ctx_done) ≡ true
      → Step timed r s (record s { worker = gone; closed = conn_of r ++ s.closed })
