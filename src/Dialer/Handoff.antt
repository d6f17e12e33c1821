-- ===== src/Dialer/Handoff.antt =====
-- dialer/basic.go, dialer/http.go, dialer/websocket.go: who ends up with the connection.
use streamf.Common.{
  ℕ, ◌≡◌, refl, ap, subst, ◌∙◌, List, [], ◌++◌, append-nil, Bool, true, ◌||◌, arith,
}
use streamf.Dialer.{
  Dialed, Worker, dialing, holding, gone, Caller, waiting, received, err_closed, err_context,
  Connect, start, conn_of, Step, dial, close, expire, hand_over, leave_closed, leave_context, drop,
}

pub data Reaches (timed : Bool) (r : Dialed) : Connect → Type 0 where
  started : Reaches timed r start
  next : (s t : Connect) → Reaches timed r s → Step timed r s t → Reaches timed r t

-- Which worker goes with which caller; `stop` is whether `done` or the context is over.
abbrev pub Fits : Dialed → Worker → Caller → Bool → List ℕ → Type 0
Fits r dialing waiting stop cl = cl ≡ []
Fits r dialing (received q) stop cl = ⊥
Fits r dialing err_closed stop cl = (stop ≡ true) × (cl ≡ [])
Fits r dialing err_context stop cl = (stop ≡ true) × (cl ≡ [])
Fits r (holding q) waiting stop cl = (q ≡ r) × (cl ≡ [])
Fits r (holding q) (received p) stop cl = ⊥
Fits r (holding q) err_closed stop cl = (q ≡ r) × (stop ≡ true) × (cl ≡ [])
Fits r (holding q) err_context stop cl = (q ≡ r) × (stop ≡ true) × (cl ≡ [])
Fits r gone waiting stop cl = (stop ≡ true) × (cl ≡ conn_of r)
Fits r gone (received q) stop cl = (q ≡ r) × (cl ≡ [])
Fits r gone err_closed stop cl = (stop ≡ true) × (cl ≡ conn_of r)
Fits r gone err_context stop cl = (stop ≡ true) × (cl ≡ conn_of r)

abbrev pub IsSound : Dialed → Connect → Type 0
IsSound r s = Fits r s.worker s.caller (s.done || s.ctx_done) s.closed

-- A stop is not taken back.
Fits-stop :
    (r : Dialed) (w : Worker) (c : Caller) (a b : Bool) (cl : List ℕ)
    → (a ≡ true → b ≡ true)
    → Fits r w c a cl
    → Fits r w c b cl
Fits-stop r dialing waiting a b cl h f = f
Fits-stop r dialing err_closed a b cl h f = (h f.0, f.1)
Fits-stop r dialing err_context a b cl h f = (h f.0, f.1)
Fits-stop r dialing (received q) a b cl h f = f
Fits-stop r (holding q) waiting a b cl h f = f
Fits-stop r (holding q) (received p) a b cl h f = f
Fits-stop r (holding q) err_closed a b cl h f = (f.0, h f.1, f.2)
Fits-stop r (holding q) err_context a b cl h f = (f.0, h f.1, f.2)
Fits-stop r gone waiting a b cl h f = (h f.0, f.1)
Fits-stop r gone (received q) a b cl h f = f
Fits-stop r gone err_closed a b cl h f = (h f.0, f.1)
Fits-stop r gone err_context a b cl h f = (h f.0, f.1)

-- The steps, over the parts of the state.
Fits-dial :
    (r : Dialed) (c : Caller) (stop : Bool) (cl : List ℕ)
    → Fits r dialing c stop cl
    → Fits r (holding r) c stop cl
Fits-dial r waiting stop cl f = (refl, f)
Fits-dial r (received q) stop cl f = f
Fits-dial r err_closed stop cl f = (refl, f.0, f.1)
Fits-dial r err_context stop cl f = (refl, f.0, f.1)

Fits-leave :
    (r : Dialed) (w : Worker) (a b : Bool) (cl : List ℕ)
    → b ≡ true
    → Fits r w waiting a cl
    → Fits r w err_closed b cl × Fits r w err_context b cl
Fits-leave r dialing a b cl h f = ((h, f), (h, f))
Fits-leave r (holding q) a b cl h f = ((f.0, h, f.1), (f.0, h, f.1))
Fits-leave r gone a b cl h f = ((h, f.1), (h, f.1))

Fits-drop :
    (r : Dialed) (c : Caller) (stop : Bool) (cl : List ℕ)
    → stop ≡ true
    → Fits r (holding r) c stop cl
    → Fits r gone c stop (conn_of r ++ cl)
Fits-drop r waiting stop cl h f = (h, ap (λ x. conn_of r ++ x) f.1 ∙ append-nil (conn_of r))
Fits-drop r (received q) stop cl h f = absurd f
Fits-drop r err_closed stop cl h f = (h, ap (λ x. conn_of r ++ x) f.2 ∙ append-nil (conn_of r))
Fits-drop r err_context stop cl h f = (h, ap (λ x. conn_of r ++ x) f.2 ∙ append-nil (conn_of r))

or_right : (a b c : Bool) → (a || b) ≡ true → (a || (c || b)) ≡ true
or_right a b c h = ground arith

Step-IsSound :
    (timed : Bool) (r : Dialed) (s t : Connect) → Step timed r s t → IsSound r s → IsSound r t
Step-IsSound timed r s _ (dial w) f =
    Fits-dial r s.caller (s.done || s.ctx_done) s.closed
      (subst (λ x. Fits r x s.caller (s.done || s.ctx_done) s.closed) w f)
Step-IsSound timed r s _ close f =
    Fits-stop r s.worker s.caller (s.done || s.ctx_done) true s.closed (λ h. refl) f
Step-IsSound timed r s _ expire f =
    Fits-stop r s.worker s.caller (s.done || s.ctx_done) (s.done || true) s.closed
      (λ h. ground arith) f
Step-IsSound timed r s _ (hand_over w c) f =
    let g : Fits r (holding r) waiting (s.done || s.ctx_done) s.closed =
      subst (λ x. Fits r (holding r) x (s.done || s.ctx_done) s.closed) c
        (subst (λ x. Fits r x s.caller (s.done || s.ctx_done) s.closed) w f) in
    (refl, g.1)
Step-IsSound timed r s _ (leave_closed c d) f =
    let g = subst (λ x. Fits r s.worker x (s.done || s.ctx_done) s.closed) c f in
    (Fits-leave r s.worker (s.done || s.ctx_done) (s.done || (timed || s.ctx_done)) s.closed
      (ground arith) g).0
Step-IsSound timed r s _ (leave_context c d) f =
    let g = subst (λ x. Fits r s.worker x (s.done || s.ctx_done) s.closed) c f in
    (Fits-leave r s.worker (s.done || s.ctx_done) (s.done || (timed || s.ctx_done)) s.closed
      (ground arith) g).1
Step-IsSound timed r s _ (drop w h) f =
    Fits-drop r s.caller (s.done || s.ctx_done) s.closed h
      (subst (λ x. Fits r x s.caller (s.done || s.ctx_done) s.closed) w f)

pub Reaches-IsSound : (timed : Bool) (r : Dialed) (s : Connect) → Reaches timed r s → IsSound r s
Reaches-IsSound timed r _ started = refl
Reaches-IsSound timed r _ (next s t h st) =
    Step-IsSound timed r s t st (Reaches-IsSound timed r s h)
