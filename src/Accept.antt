-- ===== src/Accept.antt =====
-- listener/basic.go, sniproxy/listener.go and bridge/bridge.go: the loops of `Serve` that accept
-- connections. Durations are nanoseconds; a connection is a number.
pub mod Backoff
pub mod Serving
pub mod Runs
use streamf.Common.{ℕ, ◌*◌, List, [], ◌∷◌, Bool, true, false, ltb, ◌==◌, if◌then◌else◌}

-- What `Accept` returns; with an error, whether the listener was closed before.
pub data Accepted : Type 0 where
  conn : ℕ → Accepted
  failed : Bool → Accepted

-- The connections served and the times slept, and whether `Serve` returned `ErrClosed`.
pub record Loop : Type 0 where
  pub served : List ℕ
  pub slept : List ℕ
  pub returned : Bool

unfoldable pub next_delay : ℕ → ℕ
next_delay temp_delay =
    let doubled = if temp_delay == 0 then 5 * 1000000 else temp_delay * 2 in
    if ltb 1000000000 doubled then 1000000000 else doubled

-- The loop with `tempDelay`.
unfoldable pub accept_loop : ℕ → List Accepted → Loop
unfolding next_delay
accept_loop temp_delay [] = record { served = []; slept = []; returned = false }
accept_loop temp_delay (conn c ∷ xs) =
    let rest = accept_loop temp_delay xs in record rest { served = c ∷ rest.served }
accept_loop temp_delay (failed true ∷ xs) = record { served = []; slept = []; returned = true }
accept_loop temp_delay (failed false ∷ xs) =
    let rest = accept_loop (next_delay temp_delay) xs in
    record rest { slept = next_delay temp_delay ∷ rest.slept }

-- `BasicListener.Serve`, `Listener.Serve` of the SNI proxy, and `bridge.Serve`.
unfoldable pub basic_serve : List Accepted → Loop
basic_serve xs = accept_loop 0 xs

unfoldable pub sniproxy_serve : List Accepted → Loop
sniproxy_serve xs = accept_loop 0 xs

unfoldable pub bridge_serve : List Accepted → Loop
bridge_serve xs = accept_loop 0 xs
