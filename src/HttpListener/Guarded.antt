-- ===== src/HttpListener/Guarded.antt =====
-- listener/http.go: whatever router made the handler of a request, its credentials are asked for.
use streamf.Common.{
  ℕ, ◌≡◌, refl, ap, inl, inr, List, [], ◌∷◌, Option, Bool, true, false, String, str_eq,
  if◌then◌else◌, All, Bool-cases,
}
use streamf.HttpMux.{Method, method_get}
use streamf.HttpListener.Access.{token}
use streamf.HttpListener.{
  http2, http2_portal, websocket, websocket_portal, api_function, file_server, with_basic_auth,
  serve,
}
use streamf.HttpListener.Build.{Std, RouterConfig, ApiHandler, kind_of, api_pattern}
use streamf.HttpListener.Rules.{
  stream_rules, ws_rules, method_rules, methods_rules, api_rules, fs_rules, router_rules,
}
use streamf.HttpListener.Routed.{RouterKind-cases}
use streamf.HttpListener.Guards.{
  granted, is_tunnel, http2-Tunnels, http2_portal-Tunnels, websocket-Tunnels,
  websocket_portal-Tunnels, Guarded, Guarded-tunnel, Guarded-open, AllGuarded, AllGuarded-append,
  dialing_rules-Guarded,
}

All-if {ℓ κ} :
    {A : Type ℓ} (P : A → Type κ) (b : Bool) (xs ys : List A)
    → All P xs
    → All P ys
    → All P (if b then xs else ys)
All-if P true xs ys h k = h
All-if P false xs ys h k = k

module _ {ℓ} {D : Type ℓ} (std : Std) (dialers : String → Option D) where
  module _ (r : RouterConfig) where
    stream_rules-Guarded :
        (m : Method)
        → is_tunnel (kind_of (std.to_upper r.method)) ≡ true
        → AllGuarded std dialers r (stream_rules std dialers m r)
    unfolding stream_rules
    stream_rules-Guarded m k =
        let t = token std.base64 r.access in
        elim (Bool-cases (str_eq r.portal.tag "")) [
          | inl e ↦
              rw (e, stream_rules)
                (dialing_rules-Guarded std dialers r (http2 t) m k (http2-Tunnels D t))
          | inr e ↦
              rw (e, stream_rules)
                (
                  Guarded-tunnel std dialers r (http2_portal t r.portal.tag) k
                      (http2_portal-Tunnels D t r.portal.tag),
                  tt,
                )
        ]

    ws_rules-Guarded :
        is_tunnel (kind_of (std.to_upper r.method)) ≡ true
        → AllGuarded std dialers r (ws_rules std dialers r)
    unfolding ws_rules
    ws_rules-Guarded k =
        let t = token std.base64 r.access in
        elim (Bool-cases (str_eq r.portal.tag "")) [
          | inl e ↦
              rw (e, ws_rules)
                (dialing_rules-Guarded std dialers r (websocket t r.fast) method_get k
                  (websocket-Tunnels D t r.fast))
          | inr e ↦
              rw (e, ws_rules)
                (
                  Guarded-tunnel std dialers r (websocket_portal t r.fast r.portal.tag) k
                      (websocket_portal-Tunnels D t r.fast r.portal.tag),
                  tt,
                )
        ]

    module _ (k : is_tunnel (kind_of (std.to_upper r.method)) ≡ false) where
      api-Guarded : (i : ℕ) → Guarded std dialers r (with_basic_auth (api_function i) r.auth)
      unfolding serve granted
      api-Guarded i = Guarded-open std dialers r (api_function i) k (λ w q. refl)

      method_rules-Guarded :
          (p m : String) (i : ℕ)
          → AllGuarded std dialers r
              (method_rules std dialers p (with_basic_auth (api_function i) r.auth) m)
      unfolding method_rules
      method_rules-Guarded p m i =
          let g = api-Guarded i in
          All-if _ (str_eq m "GET") _ _ (g, (g, tt))
            (All-if _ (str_eq m "POST") _ _ (g, tt)
              (All-if _ (str_eq m "PUT") _ _ (g, tt)
                (All-if _ (str_eq m "PATCH") _ _ (g, tt)
                  (All-if _ (str_eq m "DELETE") _ _ (g, tt) tt))))

      methods_rules-Guarded :
          (p : String) (i : ℕ) (ms : List String)
          → AllGuarded std dialers r
              (methods_rules std dialers p (with_basic_auth (api_function i) r.auth) ms)
      unfolding methods_rules
      methods_rules-Guarded p i [] = tt
      methods_rules-Guarded p i (m ∷ ms) =
          AllGuarded-append std dialers r _ _ (method_rules-Guarded p m i)
            (methods_rules-Guarded p i ms)

      api_rules-Guarded :
          (items : List ApiHandler) → AllGuarded std dialers r (api_rules std dialers items r)
      unfolding api_rules
      api_rules-Guarded [] = tt
      api_rules-Guarded (item ∷ items) =
          AllGuarded-append std dialers r _ _
            (methods_rules-Guarded (api_pattern std dialers r item) item.handler item.method)
            (api_rules-Guarded items)

      fs_rules-Guarded : AllGuarded std dialers r (fs_rules std dialers r)
      unfolding fs_rules serve granted
      fs_rules-Guarded =
          let g = λ (p : String). Guarded-open std dialers r (file_server p r.fs) k (λ w q. refl) in
          (g _, (g _, tt))

    pub router_rules-Guarded :
        (items : List ApiHandler) → AllGuarded std dialers r (router_rules std dialers items r)
    unfolding router_rules is_tunnel
    router_rules-Guarded items = elim (RouterKind-cases (kind_of (std.to_upper r.method))) [
      | inl (m, e) ↦ rw (e, router_rules) (stream_rules-Guarded m (ap is_tunnel e))
      | inr (inl e) ↦ rw (e, router_rules) (ws_rules-Guarded (ap is_tunnel e))
      | inr (inr (inl e)) ↦ rw (e, router_rules) (api_rules-Guarded (ap is_tunnel e) items)
      | inr (inr (inr (inl e))) ↦ rw (e, router_rules) (fs_rules-Guarded (ap is_tunnel e))
      | inr (inr (inr (inr e))) ↦ rw (e, router_rules) tt
    ]
