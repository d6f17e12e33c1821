-- ===== src/HttpConnect/Handed.antt =====
-- internal/httpmux/http.go: who has the connection in the end, and whether its request goes on.
use streamf.Common.{ℕ, ◌≡◌, ◌≢◌, refl, sym, subst, List, [], Bool, true, false, ◌||◌, not, arith}
use streamf.Dialer.{
  Dialed, is_ok, Connect, Worker, dialing, holding, gone, Caller, waiting, received, err_closed,
  err_context,
}
use streamf.Dialer as Dialer
use streamf.Dialer.Handoff.{Fits, Reaches-IsSound}
use streamf.Dialer.Handoff as Handoff
use streamf.Dialer.Ended.{Settled, Reaches-Settled}
use streamf.HttpConnect.{ConnectHttp, start, Step, dial, expire, hand_over, leave_context, drop}

pub data Reaches (r : Dialed) : ConnectHttp → Type 0 where
  started : Reaches r start
  next : (s t : ConnectHttp) → Reaches r s → Step r s t → Reaches r t

or_true : (a : Bool) → (a || true) ≡ true
or_true true = refl
or_true false = refl

-- A dialer that is never closed, without a timeout, takes the same steps.
Step-Dialer :
    (r : Dialed) (s t : ConnectHttp) → Step r s t → Dialer.Step false r s.connect t.connect
Step-Dialer r s _ (dial w) = Dialer.dial w
Step-Dialer r s _ expire = Dialer.expire
Step-Dialer r s _ (hand_over w c) = Dialer.hand_over w c
Step-Dialer r s _ (leave_context c d) = Dialer.leave_context c d
Step-Dialer r s _ (drop w d) =
    Dialer.drop w (subst (λ x. (s.connect.done || x) ≡ true) (sym d) (or_true s.connect.done))

Reaches-Dialer : (r : Dialed) (s : ConnectHttp) → Reaches r s → Handoff.Reaches false r s.connect
Reaches-Dialer r _ started = Handoff.started
Reaches-Dialer r _ (next s t h st) =
    Handoff.next s.connect t.connect (Reaches-Dialer r s h) (Step-Dialer r s t st)

-- Whether `cancel` was called, by what the goroutine and the caller did.
abbrev Cancels : Dialed → Worker → Caller → Bool → Type 0
Cancels r gone waiting b = b ≡ is_ok r
Cancels r dialing waiting b = b ≡ false
Cancels r (holding q) waiting b = b ≡ false
Cancels r w (received q) b = b ≡ not (is_ok r)
Cancels r w err_closed b = ⊥
Cancels r w err_context b = b ≡ true

or_false : (a b c : Bool) → b ≡ false → a ≡ c → (a || b) ≡ c
or_false a b c h k = ground arith

Cancels-dial :
    (r : Dialed) (c : Caller) (b : Bool) → Cancels r dialing c b → Cancels r (holding r) c b
Cancels-dial r waiting b h = h
Cancels-dial r (received q) b h = h
Cancels-dial r err_closed b h = h
Cancels-dial r err_context b h = h

Cancels-drop :
    (r : Dialed) (c : Caller) (stop b : Bool) (cl : List ℕ)
    → Fits r (holding r) c stop cl
    → Cancels r (holding r) c b
    → Cancels r gone c (is_ok r || b)
Cancels-drop r waiting stop b cl f h = or_false (is_ok r) b (is_ok r) h refl
Cancels-drop r (received q) stop b cl f h = absurd f
Cancels-drop r err_closed stop b cl f h = h
Cancels-drop r err_context stop b cl f h =
    subst (λ x. (is_ok r || x) ≡ true) (sym h) (or_true (is_ok r))

Step-Cancels :
    (r : Dialed) (s t : ConnectHttp)
    → Step r s t
    → Handoff.IsSound r s.connect
    → Cancels r s.connect.worker s.connect.caller s.cancelled
    → Cancels r t.connect.worker t.connect.caller t.cancelled
Step-Cancels r s _ (dial w) f h =
    Cancels-dial r s.connect.caller s.cancelled
      (subst (λ x. Cancels r x s.connect.caller s.cancelled) w h)
Step-Cancels r s _ expire f h = h
Step-Cancels r s _ (hand_over w c) f h =
    let held : s.cancelled ≡ false =
      subst (λ x. Cancels r (holding r) x s.cancelled) c
        (subst (λ x. Cancels r x s.connect.caller s.cancelled) w h) in
    or_false (not (is_ok r)) s.cancelled (not (is_ok r)) held refl
Step-Cancels r s _ (leave_context c d) f h = refl
Step-Cancels r s _ (drop w d) f h =
    let stop = s.connect.done || s.connect.ctx_done in
    Cancels-drop r s.connect.caller stop s.cancelled s.connect.closed
      (subst (λ x. Fits r x s.connect.caller stop s.connect.closed) w f)
      (subst (λ x. Cancels r x s.connect.caller s.cancelled) w h)

Reaches-Cancels :
    (r : Dialed) (s : ConnectHttp)
    → Reaches r s
    → Cancels r s.connect.worker s.connect.caller s.cancelled
Reaches-Cancels r _ started = refl
Reaches-Cancels r _ (next s t h st) =
    Step-Cancels r s t st (Reaches-IsSound false r s.connect (Reaches-Dialer r s h))
      (Reaches-Cancels r s h)

-- How the caller left, with the connections that were closed and whether the request was cancelled.
abbrev pub Left : Dialed → Caller → List ℕ → Bool → Type 0
Left r (received q) cl b = (q ≡ r) × (cl ≡ []) × (b ≡ not (is_ok r))
Left r err_context cl b = (cl ≡ Dialer.conn_of r) × (b ≡ true)
Left r waiting cl b = ⊥
Left r err_closed cl b = ⊥

Settled-Left :
    (r : Dialed) (w : Worker) (c : Caller) (cl : List ℕ) (b : Bool)
    → Settled r c cl
    → Cancels r w c b
    → Left r c cl b
Settled-Left r w waiting cl b h k = absurd h
Settled-Left r w (received q) cl b h k = (h.0, h.1, k)
Settled-Left r w err_closed cl b h k = absurd k
Settled-Left r w err_context cl b h k = (h, k)

-- However ConnectHttp, its goroutine and the end of the context interleave, once the goroutine is
-- gone and the caller has returned, either the result of connectHttp was handed over, nothing was
-- closed, and the request was cancelled exactly if the result is an error, or the caller returned
-- the error of its context, the connection was closed once where there was one, and the request was
-- cancelled.
pub Reaches-Left :
    (r : Dialed) (s : ConnectHttp)
    → Reaches r s
    → s.connect.worker ≡ gone
    → s.connect.caller ≢ waiting
    → Left r s.connect.caller s.connect.closed s.cancelled
Reaches-Left r s h w c =
    Settled-Left r s.connect.worker s.connect.caller s.connect.closed s.cancelled
      (Reaches-Settled false r s.connect (Reaches-Dialer r s h) w c) (Reaches-Cancels r s h)
