-- ===== src/Dialer/Ended.antt =====
-- dialer/basic.go, dialer/http.go, dialer/websocket.go: how `Connect` and its goroutine end.
use streamf.Common.{
  ℕ, ◌+◌, ◌<◌, ◌≡◌, ◌≢◌, refl, ap, subst, ◌∙◌, inl, inr, ◌⊎◌, List, [], ◌++◌, Bool, true, ◌||◌,
  arith, Bool-cases,
}
use streamf.Dialer.{
  Dialed, Worker, dialing, holding, gone, Caller, waiting, received, err_closed, err_context,
  Connect, cancelled, conn_of, Step, dial, hand_over, leave_closed, leave_context, drop,
}
use streamf.Dialer.Handoff.{Reaches, Fits, Reaches-IsSound}

-- What is left to do.
abbrev pub worker_weight : Worker → ℕ
worker_weight dialing = 2
worker_weight (holding r) = 1
worker_weight gone = 0

abbrev pub caller_weight : Caller → ℕ
caller_weight waiting = 1
caller_weight (received r) = 0
caller_weight err_closed = 0
caller_weight err_context = 0

abbrev pub weight : Connect → ℕ
weight s = worker_weight s.worker + caller_weight s.caller

-- The connection was handed over, or closed, and not both.
abbrev pub Settled : Dialed → Caller → List ℕ → Type 0
Settled r waiting cl = ⊥
Settled r (received q) cl = (q ≡ r) × (cl ≡ [])
Settled r err_closed cl = cl ≡ conn_of r
Settled r err_context cl = cl ≡ conn_of r

Fits-Settled :
    (r : Dialed) (c : Caller) (stop : Bool) (cl : List ℕ)
    → c ≢ waiting
    → Fits r gone c stop cl
    → Settled r c cl
Fits-Settled r waiting stop cl h f = h refl
Fits-Settled r (received q) stop cl h f = f
Fits-Settled r err_closed stop cl h f = f.1
Fits-Settled r err_context stop cl h f = f.1

-- However Connect, its goroutine, a close of the dialer and the end of the context interleave, once
-- the goroutine is gone and the caller has returned, the connection that connect made was handed to
-- the caller and is not closed, or the caller returned an error and it was closed once.
pub Reaches-Settled :
    (timed : Bool) (r : Dialed) (s : Connect)
    → Reaches timed r s
    → s.worker ≡ gone
    → s.caller ≢ waiting
    → Settled r s.caller s.closed
Reaches-Settled timed r s h w c =
    Fits-Settled r s.caller (s.done || s.ctx_done) s.closed c (
      subst (λ x. Fits r x s.caller (s.done || s.ctx_done) s.closed) w
        (Reaches-IsSound timed r s h))

-- The parts of a state, for a case split.
abbrev pub Parts : (timed : Bool) (r : Dialed) (s : Connect) (w : Worker) (c : Caller) → Type 0
Parts timed r s w c =
    ((w ≡ gone) × (c ≢ waiting))
    ⊎ ((t : Connect) × Step timed r s t × (weight t < worker_weight w + caller_weight c))

abbrev dropped : Dialed → Connect → Connect
dropped r s = record s { worker = gone; closed = conn_of r ++ s.closed }

progress :
    (timed : Bool) (r : Dialed) (s : Connect) (w : Worker) (c : Caller)
    → s.worker ≡ w
    → s.caller ≡ c
    → Fits r w c (s.done || s.ctx_done) s.closed
    → Parts timed r s w c
progress timed r s dialing c w e f =
    let e' = ap caller_weight e in inr (record s { worker = holding r }, dial w, omega (arith, e'))
progress timed r s (holding q) waiting w e f = inr (
  cancelled timed (record s { worker = gone; caller = received r }),
  hand_over (w ∙ ap holding f.0) e,
  omega arith,
)
progress timed r s (holding q) (received p) w e f = absurd f
progress timed r s (holding q) err_closed w e f =
    inr (dropped r s, drop (w ∙ ap holding f.0) f.1, omega (arith, ap caller_weight e))
progress timed r s (holding q) err_context w e f =
    inr (dropped r s, drop (w ∙ ap holding f.0) f.1, omega (arith, ap caller_weight e))
progress timed r s gone waiting w e f = elim (Bool-cases s.done) [
  | inl d ↦ inr (
    cancelled timed (record s { caller = err_closed }),
    leave_closed e d,
    omega (arith, ap worker_weight w),
  )
  | inr d ↦
      let stop = f.0 in
      let over : s.ctx_done ≡ true = ground arith in
      inr (
        cancelled timed (record s { caller = err_context }),
        leave_context e over,
        omega (arith, ap worker_weight w),
      )
]
progress timed r s gone (received p) w e f = inl (refl, λ h. cc)
progress timed r s gone err_closed w e f = inl (refl, λ h. cc)
progress timed r s gone err_context w e f = inl (refl, λ h. cc)

-- In every state that Connect reaches, either its goroutine is gone and the caller has returned, or
-- one of the two can take a step that leaves less to do: neither is stuck on the channel.
pub Reaches-progress :
    (timed : Bool) (r : Dialed) (s : Connect)
    → Reaches timed r s
    → ((s.worker ≡ gone) × (s.caller ≢ waiting))
      ⊎ ((t : Connect) × Step timed r s t × (weight t < weight s))
Reaches-progress timed r s h =
    progress timed r s s.worker s.caller refl refl (Reaches-IsSound timed r s h)
