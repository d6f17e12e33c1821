-- ===== src/HttpListener/Rules.antt =====
-- listener/http.go: the routes of a configuration, from the configuration alone.
use streamf.Common.{
  ℤ, pos, ◌≡◌, refl, List, [], ◌∷◌, ◌++◌, Option, none, some, String, str_eq, if◌then◌else◌,
}
use streamf.HttpMux.{
  Method, method_get, method_head, method_post, method_put, method_patch, method_delete, ServeMux,
  handle,
}
use streamf.HttpMux.Latest.{Registration, handle_all}
use streamf.Network.{duration_or}
use streamf.HttpListener.Access.{token}
use streamf.HttpListener.{
  HttpHandler, http2, http2_portal, websocket, websocket_portal, api_function, file_server,
  with_basic_auth,
}
use streamf.HttpListener.Build.{
  Std, RouterConfig, ApiHandler, stream, ws, api, fs, unsupported, kind_of, api_pattern,
}

module _ {ℓ} {H : Type ℓ} where
  abbrev pub rule : Method → String → H → Registration H
  rule m p h = record { method = m; pattern = p; handler = h }

  pub handle_all-append :
      (rs ss : List (Registration H)) (mux : ServeMux H)
      → handle_all mux (rs ++ ss) ≡ handle_all (handle_all mux rs) ss
  unfolding handle_all
  handle_all-append [] ss mux = refl
  handle_all-append (r ∷ rs) ss mux =
      handle_all-append rs ss (handle mux r.method r.pattern r.handler)

module _ {ℓ} {D : Type ℓ} (std : Std) (dialers : String → Option D) where
  -- A route to a dialer, which must exist.
  unfoldable pub dialing_rules :
      (D → ℤ → HttpHandler D) → Method → RouterConfig → List (Registration (HttpHandler D))
  dialing_rules h m r = elim (dialers r.dialer.tag) [
    | none ↦ []
    | some d ↦
        rule m r.pattern (
          with_basic_auth (h d (duration_or std.parse_duration (pos 1000000000) r.dialer.close))
            r.auth)
        ∷ []
  ]

  unfoldable pub stream_rules : Method → RouterConfig → List (Registration (HttpHandler D))
  unfolding dialing_rules
  stream_rules m r =
      let t = token std.base64 r.access in
      if str_eq r.portal.tag ""
      then dialing_rules (http2 t) m r
      else rule m r.pattern (with_basic_auth (http2_portal t r.portal.tag) r.auth) ∷ []

  unfoldable pub ws_rules : RouterConfig → List (Registration (HttpHandler D))
  unfolding dialing_rules
  ws_rules r =
      let t = token std.base64 r.access in
      if str_eq r.portal.tag ""
      then dialing_rules (websocket t r.fast) method_get r
      else rule method_get r.pattern
          (with_basic_auth (websocket_portal t r.fast r.portal.tag) r.auth)
        ∷ []

  -- A function of the API for `GET` serves `HEAD` too.
  unfoldable pub method_rules :
      String → HttpHandler D → String → List (Registration (HttpHandler D))
  method_rules p h method =
      if str_eq method "GET"
      then rule method_get p h ∷ rule method_head p h ∷ []
      else if str_eq method "POST"
      then rule method_post p h ∷ []
      else if str_eq method "PUT"
      then rule method_put p h ∷ []
      else if str_eq method "PATCH"
      then rule method_patch p h ∷ []
      else if str_eq method "DELETE"
      then rule method_delete p h ∷ []
      else []

  unfoldable pub methods_rules :
      String → HttpHandler D → List String → List (Registration (HttpHandler D))
  methods_rules p h [] = []
  methods_rules p h (m ∷ ms) = method_rules p h m ++ methods_rules p h ms

  unfoldable pub api_rules : List ApiHandler → RouterConfig → List (Registration (HttpHandler D))
  api_rules [] r = []
  api_rules (item ∷ items) r =
      methods_rules (api_pattern std dialers r item)
        (with_basic_auth (api_function item.handler) r.auth) item.method
      ++ api_rules items r

  unfoldable pub fs_rules : RouterConfig → List (Registration (HttpHandler D))
  fs_rules r =
      let p = if std.ends_in_slash r.pattern then r.pattern else std.add_slash r.pattern in
      let h = with_basic_auth (file_server p r.fs) r.auth in
      rule method_head p h ∷ rule method_get p h ∷ []

  unfoldable pub router_rules : List ApiHandler → RouterConfig → List (Registration (HttpHandler D))
  router_rules items r = elim (kind_of (std.to_upper r.method)) [
    | stream m ↦ stream_rules m r
    | ws ↦ ws_rules r
    | api ↦ api_rules items r
    | fs ↦ fs_rules r
    | unsupported ↦ []
  ]

  unfoldable pub rules : List ApiHandler → List RouterConfig → List (Registration (HttpHandler D))
  rules items [] = []
  rules items (r ∷ rs) = router_rules items r ++ rules items rs
