-- ===== src/HttpConnect.antt =====
-- internal/httpmux/http.go: `ConnectHttp`, which sends a request in a goroutine and gives up when the
-- context of the caller ends. What the client answers is an argument; a connection is a number. The
-- steps are those of `Connect` in Dialer, with the context of the request, which `cancel` ends.
pub mod Handed
pub mod Runs
use streamf.Common.{
  ℕ, ◌≡◌, List, [], ◌∷◌, ◌++◌, Option, none, some, Bool, true, false, ◌||◌, not, leb, ltb, String,
  str_eq, ◌==◌, inl, inr, ◌⊎◌, if◌then◌else◌,
}
use streamf.Dialer.{
  Dialed, ok, err, is_ok, Connect, Worker, dialing, holding, gone, waiting, received, err_context,
  conn_of,
}
use streamf.Dialer as Dialer

-- `resp`, with what is read of its body, where it has one.
pub record Response : Type 0 where
  pub status_code : ℕ
  pub body : Option (List ℕ)

pub data HttpError : Type 0 where
  bad_request : HttpError
  no_answer : ℕ → HttpError
  refused : ℕ → List ℕ → HttpError
  body_nil : HttpError

-- What `connectHttp` returns, and whether it closed its end of the pipe and the body.
pub record Sent : Type 0 where
  pub error : Option HttpError
  pub pipe_closed : Bool
  pub body_closed : Bool

-- `resp.StatusCode < http.StatusOK || resp.StatusCode > http.StatusAccepted`
unfoldable pub is_refused : ℕ → Bool
is_refused code = ltb code 200 || ltb 202 code

-- `connectHttp`; `requests` says whether there is a request of the method and the URL.
unfoldable pub connect_http : Bool → ℕ ⊎ Response → Sent
unfolding is_refused
connect_http requests answer =
    let failing : HttpError → Bool → Sent =
      λ e body. record { error = some e; pipe_closed = true; body_closed = body } in
    if not requests then failing bad_request false else elim answer [
      | inl e ↦ failing (no_answer e) false
      | inr resp ↦
          if is_refused resp.status_code
          then elim resp.body [
            | none ↦ failing (refused resp.status_code []) false
            | some b ↦ failing (refused resp.status_code b) true
          ]
          else elim resp.body [
            | none ↦ record { error = some body_nil; pipe_closed = false; body_closed = false }
            | some b ↦ record { error = none; pipe_closed = false; body_closed = false }
          ]
    ]

-- The goroutine, the caller and its context, and whether `cancel` was called.
pub record ConnectHttp : Type 0 where
  pub connect : Connect
  pub cancelled : Bool

abbrev pub start : ConnectHttp
start = record { connect = Dialer.start; cancelled = false }

-- Where `connectHttp` returns `r`. `Close` of a connection calls `cancel`.
pub data Step (r : Dialed) (s : ConnectHttp) : ConnectHttp → Type 0 where
  dial :
      s.connect.worker ≡ dialing
      → Step r s (record s { connect = record s.connect { worker = holding r } })
  expire : Step r s (record s { connect = record s.connect { ctx_done = true } })
  hand_over :
      s.connect.worker ≡ holding r
      → s.connect.caller ≡ waiting
      → Step r s (record {
        connect = record s.connect { worker = gone; caller = received r };
        cancelled = not (is_ok r) || s.cancelled;
      })
  leave_context :
      s.connect.caller ≡ waiting
      → s.connect.ctx_done ≡ true
      → Step r s (record { connect = record s.connect { caller = err_context }; cancelled = true })
  drop :
      s.connect.worker ≡ holding r
      → s.connect.ctx_done ≡ true
      → Step r s (record {
        connect = record s.connect { worker = gone; closed = conn_of r ++ s.connect.closed };
        cancelled = is_ok r || s.cancelled;
      })
