-- ===== src/HttpListener.antt =====
-- listener/http.go: the HTTP listener, from its configuration to what a request meets. Go's
-- library is an argument, and so is what the network answers to one request.
pub mod Access
pub mod Build
pub mod Rules
pub mod Routed
pub mod Credentials
pub mod Guards
pub mod Guarded
pub mod Served
pub mod Portals
pub mod Closing
pub mod Timeouts
pub mod Runs
use streamf.Common.{
  ℕ, ℤ, List, [], ◌∷◌, ◌++◌, Option, none, some, Bool, true, false, String, str_eq, if◌then◌else◌,
}
use streamf.HttpMux.{ServeMux, new_mux}
use streamf.HttpListener.Access.{Request, BasicAuth, may_access, authorized}

-- The functions that `NewHttpListener` and its helpers return. A portal is named by its tag, which
-- no two have.
pub data HttpHandler {ℓ} (D : Type ℓ) : Type ℓ where
  -- `createHttp2`: access token, dialer, and the closing delay
  http2 : String → D → ℤ → HttpHandler D
  -- `createHttp2Portal`
  http2_portal : String → String → HttpHandler D
  -- `createWebsocket`: also whether it is fast
  websocket : String → Bool → D → ℤ → HttpHandler D
  -- `createWebsocketPortal`
  websocket_portal : String → Bool → String → HttpHandler D
  -- a function of the API, by its number
  api_function : ℕ → HttpHandler D
  -- `http.StripPrefix(pattern, http.FileServer(http.Dir(fs)))`
  file_server : String → String → HttpHandler D
  -- `basicAuth`, where there are users
  basic_auth : List BasicAuth → HttpHandler D → HttpHandler D

unfoldable pub with_basic_auth {ℓ} : {D : Type ℓ} → HttpHandler D → List BasicAuth → HttpHandler D
with_basic_auth h [] = h
with_basic_auth h (a ∷ auths) = basic_auth (a ∷ auths) h

-- The connection that a request becomes: its body and its response, the socket below a websocket,
-- or the messages of a websocket.
pub data Carrier : Type 0 where
  body raw messages : Carrier

-- The first of the events that a portal's handler waits for.
pub data Offer : Type 0 where
  listener_done portal_done request_done accepted : Offer

pub record World {ℓ} (D : Type ℓ) : Type ℓ where
  pub connects : D → Bool
  pub upgrades : Bool
  pub offer : Offer

pub data Outcome {ℓ} (D : Type ℓ) : Type ℓ where
  unauthorized : Outcome D
  access_not_matched : Outcome D
  connect_failed : Outcome D
  upgrade_failed : Outcome D
  bridged : Carrier → D → ℤ → Outcome D
  -- handed to the portal, or closed
  handed : Carrier → String → Outcome D
  dropped : Outcome D
  called : ℕ → Outcome D
  files : String → String → Outcome D

-- `if router.Fast`
abbrev pub carrier : Bool → Carrier
carrier fast = if fast then raw else messages

module _ {ℓ} {D : Type ℓ} where
  unfoldable pub offered : Offer → Carrier → String → Outcome D
  offered listener_done c tag = dropped
  offered portal_done c tag = dropped
  offered request_done c tag = dropped
  offered accepted c tag = handed c tag

  -- The function that `createHttp2` returns.
  abbrev pub serve_http2 : World D → Request → String → D → ℤ → Outcome D
  serve_http2 w r token dialer close =
      if may_access r token
      then (if w.connects dialer then bridged body dialer close else connect_failed)
      else access_not_matched

  abbrev pub serve_http2_portal : World D → Request → String → String → Outcome D
  serve_http2_portal w r token tag =
      if may_access r token then offered w.offer body tag else access_not_matched

  abbrev pub serve_websocket : World D → Request → String → Bool → D → ℤ → Outcome D
  serve_websocket w r token fast dialer close =
      if may_access r token
      then (if w.upgrades
          then (if w.connects dialer then bridged (carrier fast) dialer close else connect_failed)
          else upgrade_failed)
      else access_not_matched

  abbrev pub serve_websocket_portal : World D → Request → String → Bool → String → Outcome D
  serve_websocket_portal w r token fast tag =
      if may_access r token
      then (if w.upgrades then offered w.offer (carrier fast) tag else upgrade_failed)
      else access_not_matched

  -- One request.
  unfoldable pub serve : World D → Request → HttpHandler D → Outcome D
  unfolding may_access offered
  serve w r (http2 token dialer close) = serve_http2 w r token dialer close
  serve w r (http2_portal token tag) = serve_http2_portal w r token tag
  serve w r (websocket token fast dialer close) = serve_websocket w r token fast dialer close
  serve w r (websocket_portal token fast tag) = serve_websocket_portal w r token fast tag
  serve w r (api_function i) = called i
  serve w r (file_server pattern dir) = files pattern dir
  serve w r (basic_auth auths h) =
      let inner = serve w r h in if authorized r auths then inner else unauthorized

-- `closer` are the dialers of the portals. What `Close` closed: those, and how often the socket.
pub record HttpListener {ℓ} (D : Type ℓ) : Type ℓ where
  pub mux : ServeMux (HttpHandler D)
  pub closer : List ℕ
  pub closed : Bool
  pub done : Bool
  pub closed_dialers : List ℕ
  pub socket_closed : ℕ
  pub idle_timeout : ℤ

module _ {ℓ} {D : Type ℓ} where
  unfoldable pub opened : HttpListener D
  opened = record {
    mux = new_mux;
    closer = [];
    closed = false;
    done = false;
    closed_dialers = [];
    socket_closed = 0;
    idle_timeout = ℤ.pos 0;
  }

  -- `Close`, and whether it returns `ErrClosed`.
  unfoldable pub close : HttpListener D → HttpListener D × Bool
  close l = if l.closed then (l, true) else (
    record l {
      closed = true;
      done = true;
      closed_dialers = l.closed_dialers ++ l.closer;
      socket_closed = ℕ.suc l.socket_closed;
    },
    false,
  )
