-- ===== src/HttpListener/Build.antt =====
-- listener/http.go: `NewHttpListener`, which makes a handler for each router of the configuration.
use streamf.Common.{
  ℕ, ℤ, pos, ltz, ◌*◌, List, [], ◌∷◌, ◌++◌, Option, none, some, Bool, true, not, ◌&&◌, ◌||◌, String,
  str_eq, if◌then◌else◌,
}
use streamf.HttpMux.{
  Method, method_get, method_head, method_post, method_put, method_patch, method_delete, ServeMux,
  handle,
}
use streamf.Network.{Network, NetworkError, Reply, PortalConfig, new_portal, duration_or}
use streamf.Router.{ConnectDialer}
use streamf.HttpListener.Access.{BasicAuth, token}
use streamf.HttpListener.{
  HttpHandler, http2, http2_portal, websocket, websocket_portal, api_function, file_server,
  with_basic_auth, HttpListener, opened, close,
}

-- Functions of Go's library.
pub record Std : Type 0 where
  pub to_upper : String → String
  pub base64 : String → String
  pub join : String → String → String
  -- `strings.HasSuffix(pattern, "/")` and `pattern + "/"`
  pub ends_in_slash : String → Bool
  pub add_slash : String → String
  pub parse_duration : String → Option ℤ

pub record RouterConfig : Type 0 where
  pub method : String
  pub pattern : String
  pub dialer : ConnectDialer
  pub access : String
  pub auth : List BasicAuth
  pub portal : PortalConfig
  pub fast : Bool
  pub fs : String

pub record ApiHandler : Type 0 where
  pub method : List String
  pub path : String
  pub handler : ℕ

pub data HttpError : Type 0 where
  listen_failed : HttpError
  dialer_not_found : String → HttpError
  portal_failed : NetworkError → HttpError
  method_not_supported : HttpError
  configure_failed : HttpError

-- The network and the listener behind a step, which may have failed.
pub data Built {ℓ} (D : Type ℓ) : Type ℓ where
  built : Network → HttpListener D → Built D
  failed : HttpError → Network → HttpListener D → Built D

-- The cases of the switch over `strings.ToUpper(router.Method)`.
pub data RouterKind : Type 0 where
  stream : Method → RouterKind
  ws api fs unsupported : RouterKind

unfoldable pub kind_of : String → RouterKind
kind_of method =
    if str_eq method "" || str_eq method "POST"
    then stream method_post
    else if str_eq method "PUT"
    then stream method_put
    else if str_eq method "PATCH"
    then stream method_patch
    else if str_eq method "WS"
    then ws
    else if str_eq method "API"
    then api
    else if str_eq method "FS"
    then fs
    else unsupported

module _ {ℓ} {D : Type ℓ} (std : Std) (dialers : String → Option D) where
  -- `mux.Post(router.Pattern, basicAuth(handler, router.Auth))`, for the method of the case.
  unfoldable pub mount : Method → RouterConfig → HttpHandler D → Network → HttpListener D → Built D
  mount m r h n l = built n (record l { mux = handle l.mux m r.pattern (with_basic_auth h r.auth) })

  -- `createHttp2` and `createWebsocket`, then the case of the switch that called them.
  unfoldable pub create_dialing :
      (D → ℤ → HttpHandler D) → Method → RouterConfig → Network → HttpListener D → Built D
  unfolding mount close
  create_dialing h m r n l = elim (dialers r.dialer.tag) [
    | none ↦ failed (dialer_not_found r.dialer.tag) n (close l).0
    | some d ↦ mount m r (h d (duration_or std.parse_duration (pos 1000000000) r.dialer.close)) n l
  ]

  -- `createHttp2Portal` and `createWebsocketPortal`.
  unfoldable pub create_portal :
      HttpHandler D → Method → RouterConfig → Network → HttpListener D → Built D
  unfolding mount close
  create_portal h m r n l = elim (new_portal std.parse_duration n r.portal) [
    | Reply.error e ↦ failed (portal_failed e) n (close l).0
    | Reply.ok (dialer, opts) n' ↦ mount m r h n' (record l { closer = l.closer ++ (dialer ∷ []) })
  ]

  abbrev pub create_http2 : Method → RouterConfig → Network → HttpListener D → Built D
  create_http2 m r n l = create_dialing (http2 (token std.base64 r.access)) m r n l

  abbrev pub create_http2_portal : Method → RouterConfig → Network → HttpListener D → Built D
  create_http2_portal m r n l =
      create_portal (http2_portal (token std.base64 r.access) r.portal.tag) m r n l

  abbrev pub create_websocket : RouterConfig → Network → HttpListener D → Built D
  create_websocket r n l =
      create_dialing (websocket (token std.base64 r.access) r.fast) method_get r n l

  abbrev pub create_websocket_portal : RouterConfig → Network → HttpListener D → Built D
  create_websocket_portal r n l =
      create_portal (websocket_portal (token std.base64 r.access) r.fast r.portal.tag) method_get r
        n l

  -- The cases of the stream methods and of `WS`.
  unfoldable pub route_stream : Method → RouterConfig → Network → HttpListener D → Built D
  route_stream m r n l =
      if str_eq r.portal.tag "" then create_http2 m r n l else create_http2_portal m r n l

  unfoldable pub route_ws : RouterConfig → Network → HttpListener D → Built D
  route_ws r n l =
      if str_eq r.portal.tag "" then create_websocket r n l else create_websocket_portal r n l

  -- One method of a function of the API.
  unfoldable pub api_method :
      String → HttpHandler D → String → ServeMux (HttpHandler D) → ServeMux (HttpHandler D)
  api_method pattern h method mux =
      if str_eq method "GET"
      then handle (handle mux method_get pattern h) method_head pattern h
      else if str_eq method "POST"
      then handle mux method_post pattern h
      else if str_eq method "PUT"
      then handle mux method_put pattern h
      else if str_eq method "PATCH"
      then handle mux method_patch pattern h
      else if str_eq method "DELETE"
      then handle mux method_delete pattern h
      else mux

  unfoldable pub api_methods :
      String → HttpHandler D → List String → ServeMux (HttpHandler D) → ServeMux (HttpHandler D)
  api_methods pattern h [] mux = mux
  api_methods pattern h (m ∷ ms) mux = api_methods pattern h ms (api_method pattern h m mux)

  unfoldable pub api_pattern : RouterConfig → ApiHandler → String
  api_pattern r item =
      let pattern = std.join r.pattern item.path in
      if str_eq item.path "/" && not (std.ends_in_slash pattern)
      then std.add_slash pattern
      else pattern

  unfoldable pub route_api :
      List ApiHandler → RouterConfig → ServeMux (HttpHandler D) → ServeMux (HttpHandler D)
  route_api [] r mux = mux
  route_api (item ∷ items) r mux = route_api items r (
      api_methods (api_pattern r item) (with_basic_auth (api_function item.handler) r.auth)
        item.method mux)

  unfoldable pub route_fs : RouterConfig → ServeMux (HttpHandler D) → ServeMux (HttpHandler D)
  route_fs r mux =
      let pattern = if std.ends_in_slash r.pattern then r.pattern else std.add_slash r.pattern in
      let h = with_basic_auth (file_server pattern r.fs) r.auth in
      handle (handle mux method_head pattern h) method_get pattern h

  -- One router.
  unfoldable pub add_router : List ApiHandler → RouterConfig → Network → HttpListener D → Built D
  add_router items r n l = elim (kind_of (std.to_upper r.method)) [
    | stream m ↦ route_stream m r n l
    | ws ↦ route_ws r n l
    | api ↦ built n (record l { mux = route_api items r l.mux })
    | fs ↦ built n (record l { mux = route_fs r l.mux })
    | unsupported ↦ failed method_not_supported n (close l).0
  ]

  unfoldable pub add_routers :
      List ApiHandler → List RouterConfig → Network → HttpListener D → Built D
  add_routers items [] n l = built n l
  add_routers items (r ∷ rs) n l = elim (add_router items r n l) [
    | failed e n' l' ↦ failed e n' l'
    | built n' l' ↦ add_routers items rs n' l'
  ]

  -- `idleTimeout`
  unfoldable pub idle : String → ℤ
  idle text =
      let default : ℤ = pos (1000000000 * 180) in
      if str_eq text "" then default else elim (std.parse_duration text) [
        | none ↦ default
        | some timeout ↦ if ltz timeout 1000000000 then default else timeout
      ]

  -- Behind the routers: without TLS, `http2.ConfigureServer` may fail, and the socket and `done` are
  -- closed without `Close`.
  unfoldable pub configure : Bool → Bool → String → Network → HttpListener D → Built D
  configure secure configures idle_timeout n l =
      if not secure && not configures
      then failed configure_failed n
          (record l { done = true; socket_closed = ℕ.suc l.socket_closed })
      else built n (record l { idle_timeout = idle idle_timeout })

  -- `NewHttpListener`
  unfoldable pub new :
      Bool → Bool → Bool → List ApiHandler → List RouterConfig → String → Network → Built D
  new listens secure configures items routers idle_timeout n =
      if listens
      then elim (add_routers items routers n opened) [
        | failed e n' l ↦ failed e n' l
        | built n' l ↦ configure secure configures idle_timeout n' l
      ]
      else failed listen_failed n opened
