-- ===== src/HttpListener/Routed.antt =====
-- listener/http.go: what a listener that was made serves.
use streamf.Common.{
  ℤ, ◌≡◌, refl, sym, ap, ◌∙◌, subst, inl, inr, ◌⊎◌, List, [], ◌∷◌, ◌++◌, Option, some, Bool, String,
  str_eq, arith, Bool-cases, Option-cases,
}
use streamf.HttpMux.{Method, method_get, ServeMux, new_mux, serve_http}
use streamf.HttpMux.Latest.{Registration, handle_all, answer, serve_http-answer}
use streamf.Network.{Network, NetworkError, Reply, new_portal}
use streamf.HttpListener.Access.{token}
use streamf.HttpListener.{
  HttpHandler, http2, http2_portal, websocket, websocket_portal, api_function, with_basic_auth,
  HttpListener, opened,
}
use streamf.HttpListener.Build.{
  Std, RouterConfig, ApiHandler, HttpError, Built, built, failed, RouterKind, stream, ws, api, fs,
  unsupported, kind_of, mount, create_dialing, create_portal, route_stream, route_ws, api_method,
  api_methods, api_pattern, route_api, route_fs, add_router, add_routers, configure, new,
}
use streamf.HttpListener.Rules.{
  rule, handle_all-append, dialing_rules, stream_rules, ws_rules, method_rules, methods_rules,
  api_rules, fs_rules, router_rules, rules,
}

pub Reply-cases :
    {A : Type 0} (r : Reply A)
    → ((a : A) × (n : Network) × (r ≡ Reply.ok a n)) ⊎ ((x : NetworkError) × (r ≡ Reply.error x))
Reply-cases (Reply.ok a n) = inl (a, n, refl)
Reply-cases (Reply.error x) = inr (x, refl)

pub Built-cases {ℓ} :
    {D : Type ℓ} (b : Built D)
    → ((n : Network) × (l : HttpListener D) × (b ≡ built n l))
      ⊎ ((x : HttpError) × (n : Network) × (l : HttpListener D) × (b ≡ failed x n l))
Built-cases (built n l) = inl (n, l, refl)
Built-cases (failed x n l) = inr (x, n, l, refl)

pub RouterKind-cases :
    (k : RouterKind)
    → ((m : Method) × (k ≡ stream m)) ⊎ ((k ≡ ws) ⊎ ((k ≡ api) ⊎ ((k ≡ fs) ⊎ (k ≡ unsupported))))
RouterKind-cases (stream m) = inl (m, refl)
RouterKind-cases ws = inr (inl refl)
RouterKind-cases api = inr (inr (inl refl))
RouterKind-cases fs = inr (inr (inr (inl refl)))
RouterKind-cases unsupported = inr (inr (inr (inr refl)))

module _ {ℓ} {D : Type ℓ} (std : Std) (dialers : String → Option D) where
  -- A step that succeeds adds these rules to the mux.
  abbrev Adds : Built D → ServeMux (HttpHandler D) → List (Registration (HttpHandler D)) → Type ℓ
  Adds (built n l) mux rs = l.mux ≡ handle_all mux rs
  Adds (failed e n l) mux rs = Unit

  Adds-append :
      (b : Built D) (mux : ServeMux (HttpHandler D)) (rs ss : List (Registration (HttpHandler D)))
      → Adds b (handle_all mux rs) ss
      → Adds b mux (rs ++ ss)
  Adds-append (built n l) mux rs ss h = h ∙ sym (handle_all-append rs ss mux)
  Adds-append (failed e n l) mux rs ss h = tt

  create_dialing-Adds :
      (h : D → ℤ → HttpHandler D) (m : Method) (r : RouterConfig) (n : Network) (l : HttpListener D)
      → Adds (create_dialing std dialers h m r n l) l.mux (dialing_rules std dialers h m r)
  unfolding create_dialing dialing_rules handle_all
  create_dialing-Adds h m r n l = elim (Option-cases (dialers r.dialer.tag)) [
    | inl e ↦ rw (e, Adds) tt
    | inr (d, e) ↦ rw (e, Adds, dialing_rules) refl
  ]

  create_portal-Adds :
      (h : HttpHandler D) (m : Method) (r : RouterConfig) (n : Network) (l : HttpListener D)
      → Adds
          (create_portal std dialers h m r n l)
          l.mux
          (rule m r.pattern (with_basic_auth h r.auth) ∷ [])
  unfolding create_portal handle_all
  create_portal-Adds h m r n l = elim (Reply-cases (new_portal std.parse_duration n r.portal)) [
    | inl (x, n', e) ↦ rw (e, mount, Adds) refl
    | inr (x, e) ↦ rw (e, Adds) tt
  ]

  route_stream-Adds :
      (m : Method) (r : RouterConfig) (n : Network) (l : HttpListener D)
      → Adds (route_stream std dialers m r n l) l.mux (stream_rules std dialers m r)
  unfolding route_stream stream_rules
  route_stream-Adds m r n l = elim (Bool-cases (str_eq r.portal.tag "")) [
    | inl e ↦ rw e (create_dialing-Adds (http2 (token std.base64 r.access)) m r n l)
    | inr e ↦
        rw e (create_portal-Adds (http2_portal (token std.base64 r.access) r.portal.tag) m r n l)
  ]

  route_ws-Adds :
      (r : RouterConfig) (n : Network) (l : HttpListener D)
      → Adds (route_ws std dialers r n l) l.mux (ws_rules std dialers r)
  unfolding route_ws ws_rules
  route_ws-Adds r n l =
      let t = token std.base64 r.access in
      elim (Bool-cases (str_eq r.portal.tag "")) [
        | inl e ↦ rw e (create_dialing-Adds (websocket t r.fast) method_get r n l)
        | inr e ↦
            rw e (create_portal-Adds (websocket_portal t r.fast r.portal.tag) method_get r n l)
      ]

  api_method-rules :
      (p : String) (h : HttpHandler D) (m : String) (mux : ServeMux (HttpHandler D))
      → api_method std dialers p h m mux ≡ handle_all mux (method_rules std dialers p h m)
  unfolding api_method method_rules handle_all
  api_method-rules p h m mux = ground arith

  api_methods-rules :
      (p : String) (h : HttpHandler D) (ms : List String) (mux : ServeMux (HttpHandler D))
      → api_methods std dialers p h ms mux ≡ handle_all mux (methods_rules std dialers p h ms)
  unfolding api_methods methods_rules handle_all
  api_methods-rules p h [] mux = refl
  api_methods-rules p h (m ∷ ms) mux =
      ap (api_methods std dialers p h ms) (api_method-rules p h m mux)
      ∙ api_methods-rules p h ms (handle_all mux (method_rules std dialers p h m))
      ∙ sym (
          handle_all-append (method_rules std dialers p h m) (methods_rules std dialers p h ms) mux)

  route_api-rules :
      (items : List ApiHandler) (r : RouterConfig) (mux : ServeMux (HttpHandler D))
      → route_api std dialers items r mux ≡ handle_all mux (api_rules std dialers items r)
  unfolding route_api api_rules handle_all
  route_api-rules [] r mux = refl
  route_api-rules (item ∷ items) r mux =
      let p = api_pattern std dialers r item in
      let h : HttpHandler D = with_basic_auth (api_function item.handler) r.auth in
      let rs = methods_rules std dialers p h item.method in
      ap (route_api std dialers items r) (api_methods-rules p h item.method mux)
      ∙ route_api-rules items r (handle_all mux rs)
      ∙ sym (handle_all-append rs (api_rules std dialers items r) mux)

  add_router-Adds :
      (items : List ApiHandler) (r : RouterConfig) (n : Network) (l : HttpListener D)
      → Adds (add_router std dialers items r n l) l.mux (router_rules std dialers items r)
  unfolding add_router router_rules
  add_router-Adds items r n l = elim (RouterKind-cases (kind_of (std.to_upper r.method))) [
    | inl (m, e) ↦ rw (e, Adds, router_rules) (route_stream-Adds m r n l)
    | inr (inl e) ↦ rw (e, Adds, router_rules) (route_ws-Adds r n l)
    | inr (inr (inl e)) ↦ rw (e, Adds, router_rules) (route_api-rules items r l.mux)
    | inr (inr (inr (inl e))) ↦
        rw (e, Adds, router_rules) (unfold route_fs fs_rules handle_all in refl)
    | inr (inr (inr (inr e))) ↦ rw (e, Adds) tt
  ]

  add_routers-Adds :
      (items : List ApiHandler) (rs : List RouterConfig) (n : Network) (l : HttpListener D)
      → Adds (add_routers std dialers items rs n l) l.mux (rules std dialers items rs)
  unfolding add_routers rules handle_all
  add_routers-Adds items [] n l = refl
  add_routers-Adds items (r ∷ rs) n l = elim (Built-cases (add_router std dialers items r n l)) [
    | inl (n', l', e) ↦
        let one : l'.mux ≡ handle_all l.mux (router_rules std dialers items r) =
          subst (λ b. Adds b l.mux (router_rules std dialers items r)) e
            (add_router-Adds items r n l) in
        rw (e, Adds)
          (Adds-append (add_routers std dialers items rs n' l') l.mux
            (router_rules std dialers items r) (rules std dialers items rs)
            (subst
              (λ x. Adds (add_routers std dialers items rs n' l') x (rules std dialers items rs))
              one (add_routers-Adds items rs n' l')))
    | inr (x, n', l', e) ↦ rw (e, Adds) tt
  ]

  new-mux :
      (listens secure configures : Bool) (items : List ApiHandler) (rs : List RouterConfig)
      (text : String) (n n' : Network) (l : HttpListener D)
      → new std dialers listens secure configures items rs text n ≡ built n' l
      → l.mux ≡ handle_all new_mux (rules std dialers items rs)
  unfolding new configure opened
  new-mux listens secure configures items rs text n n' l e =
      let all = add_routers-Adds items rs n opened in
      elim (Bool-cases listens) [
        | inr f ↦ absurd (ground arith)
        | inl f ↦ elim (Built-cases (add_routers std dialers items rs n opened)) [
          | inr (x, m, k, g) ↦ absurd (ground arith)
          | inl (m, k, g) ↦
              let made : k.mux ≡ handle_all new_mux (rules std dialers items rs) =
                subst (λ b. Adds b new_mux (rules std dialers items rs)) g all in
              let same : l.mux ≡ k.mux = ground arith in same ∙ made
        ]
      ]

  -- After a successful NewHttpListener, a request at the pattern that was picked is answered by the
  -- last router of the configuration, in its order, that registers its method there, HEAD falling
  -- back to GET, and by 404 where there is none.
  pub new-answer :
      (pick : List String → String → Option String) (listens secure configures : Bool)
      (items : List ApiHandler) (rs : List RouterConfig) (text : String) (n n' : Network)
      (l : HttpListener D) (method path p : String)
      → new std dialers listens secure configures items rs text n ≡ built n' l
      → pick l.mux.handled path ≡ some p
      → serve_http pick l.mux method path ≡ answer (rules std dialers items rs) method p
  new-answer pick listens secure configures items rs text n n' l method path p e found =
      let mux = new-mux listens secure configures items rs text n n' l e in
      let found' : pick (handle_all new_mux (rules std dialers items rs)).handled path ≡ some p =
        subst (λ x. pick x.handled path ≡ some p) mux found in
      subst (λ x. serve_http pick x method path ≡ answer (rules std dialers items rs) method p)
        (sym mux) (serve_http-answer pick (rules std dialers items rs) method path p found')
