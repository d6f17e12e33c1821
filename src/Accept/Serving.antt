-- ===== src/Accept/Serving.antt =====
-- listener/basic.go and bridge/bridge.go: `serve`, which connects to the dialer and bridges what was
-- accepted with the connection.
use streamf.Common.{ℕ, ℤ, ◌≡◌, ◌≢◌, ap, subst, ◌∙◌, List, [], ◌∷◌, ◌++◌, map, Bool}
use streamf.Dialer.{
  Dialed, ok, err, Connect, Worker, Caller, waiting, received, err_closed, err_context, conn_of,
}
use streamf.Dialer as Dialer
use streamf.Dialer.Handoff as Handoff
use streamf.Dialer.Ended.{Settled, Reaches-Settled}
use streamf.Bridging.{Conn, c0, c1, Bridge, returned}
use streamf.Bridging.Ended as Ended
use streamf.Bridging.Closed.{Finished, Reaches-Finished}

-- The connections that `Bridging` was given.
abbrev pub conn_number : ℕ → ℕ → Conn → ℕ
conn_number src dst c0 = src
conn_number src dst c1 = dst

-- A run of `serve` of `src` behind the return of `Connect`, with the connections that it closed.
pub data Serves (duration : ℤ) (src : ℕ) : Caller → List ℕ → Type 0 where
  connect_failed : (e : ℕ) → Serves duration src (received (err e)) (src ∷ [])
  dialer_closed : Serves duration src err_closed (src ∷ [])
  context_over : Serves duration src err_context (src ∷ [])
  bridged :
      (dst : ℕ) (s : Bridge) (t u : ℕ)
      → Ended.Reaches duration s
      → s.main ≡ returned t u
      → Serves duration src (received (ok dst)) (map (conn_number src dst) s.closed)

Finished-closed :
    (d : ℤ) (s : Bridge) (t u : ℕ)
    → Ended.Reaches d s
    → s.main ≡ returned t u
    → s.closed ≡ c0 ∷ c1 ∷ []
Finished-closed d s t u h m = (subst (Finished d s) m (Reaches-Finished d s h)).0

Settled-Serves :
    (duration : ℤ) (src : ℕ) (r : Dialed) (c : Caller) (closed late : List ℕ)
    → Settled r c late
    → Serves duration src c closed
    → closed ++ late ≡ src ∷ conn_of r
Settled-Serves duration src r _ _ late h (connect_failed e) =
    ap (λ l. src ∷ l) (h.1 ∙ ap conn_of h.0)
Settled-Serves duration src r _ _ late h dialer_closed = ap (λ l. src ∷ l) h
Settled-Serves duration src r _ _ late h context_over = ap (λ l. src ∷ l) h
Settled-Serves duration src r _ _ late h (bridged dst s t u b m) =
    ap (λ l. map (conn_number src dst) l ++ late) (Finished-closed duration s t u b m)
    ∙ (ap (λ l. src ∷ dst ∷ l) h.1 ∙ ap (λ q. src ∷ conn_of q) h.0)

-- However Connect of a dialer, Bridging, their goroutines, the closes and the clocks interleave,
-- once the goroutine of Connect is gone and serve of a basic listener or a bridge has returned, the
-- connection that was accepted and the one that was dialed, where there is one, have each been
-- closed once.
pub serve-closes :
    (duration : ℤ) (src : ℕ) (timed : Bool) (r : Dialed) (s : Connect) (closed : List ℕ)
    → Handoff.Reaches timed r s
    → s.worker ≡ Dialer.gone
    → s.caller ≢ waiting
    → Serves duration src s.caller closed
    → closed ++ s.closed ≡ src ∷ conn_of r
serve-closes duration src timed r s closed h w c v =
    Settled-Serves duration src r s.caller closed s.closed (Reaches-Settled timed r s h w c) v
