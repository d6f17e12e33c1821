-- ===== src/HttpListener/Portals.antt =====
-- listener/http.go: the portals that `NewHttpListener` made, and what `closer` has of them.
use streamf.Common.{
  ℕ, ◌≡◌, refl, sym, ap, ◌∙◌, subst, inl, inr, List, [], ◌∷◌, ◌++◌, ℤ, Option, Bool, String, str_eq,
  not, ◌&&◌, arith, Bool-cases, Option-cases,
}
use streamf.Network.{Network, PortalConfig, DialerOptions, Reply, ok, new_portal}
use streamf.Network.Rendezvous.{bind}
use streamf.HttpMux.{Method, method_get}
use streamf.HttpListener.Access.{token}
use streamf.HttpListener.{
  HttpHandler, http2, http2_portal, websocket, websocket_portal, HttpListener, opened, close,
}
use streamf.HttpListener.Build.{
  Std, RouterConfig, ApiHandler, Built, built, failed, kind_of, mount, create_dialing,
  create_portal, route_stream, route_ws, add_router, add_routers, configure, new,
}
use streamf.HttpListener.Routed.{Built-cases, Reply-cases, RouterKind-cases}

-- The listeners of the portals, the newest first.
unfoldable pub portal_ids : List (String × ℕ) → List ℕ
portal_ids [] = []
portal_ids (e ∷ es) = e.1 ∷ portal_ids es

-- What the portals become when these are bound, in this order.
unfoldable pub bound_by : List ℕ → List ℕ → List ℕ
bound_by [] old = old
bound_by (d ∷ ds) old = bound_by ds (d ∷ old)

bound_by-snoc :
    (ds : List ℕ) (d : ℕ) (old : List ℕ) → bound_by (ds ++ d ∷ []) old ≡ d ∷ bound_by ds old
unfolding bound_by
bound_by-snoc [] d old = refl
bound_by-snoc (x ∷ ds) d old = bound_by-snoc ds d (x ∷ old)

new_portal-ids :
    (parse_duration : String → Option ℤ) (n m : Network) (portal : PortalConfig)
    (x : ℕ × DialerOptions)
    → new_portal parse_duration n portal ≡ ok x m
    → portal_ids m.portal.bound ≡ x.0 ∷ portal_ids n.portal.bound
unfolding new_portal bind portal_ids
new_portal-ids parse_duration n m portal x e =
    elim (Option-cases (streamf.Network.Rendezvous.lookup n.portal.bound portal.tag)) [
      | inr (t, f) ↦ absurd (ground arith)
      | inl f ↦ ground arith
    ]

-- The portals that were bound since `old` are those of `closer`, in the order they were made.
abbrev pub Opens {ℓ} : {D : Type ℓ} → List ℕ → Built D → Type 0
Opens old (built n l) = portal_ids n.portal.bound ≡ bound_by l.closer old
Opens old (failed e n l) = portal_ids n.portal.bound ≡ bound_by l.closer old

module _ {ℓ} {D : Type ℓ} (std : Std) (dialers : String → Option D) (old : List ℕ) where
  close-closer : (l : HttpListener D) → (close l).0.closer ≡ l.closer
  unfolding close
  close-closer l = elim (Bool-cases l.closed) [ inl e ↦ rw e refl | inr e ↦ rw e refl ]

  module _ (n : Network) (l : HttpListener D)
      (h : portal_ids n.portal.bound ≡ bound_by l.closer old) where
    closed-Opens : portal_ids n.portal.bound ≡ bound_by (close l).0.closer old
    closed-Opens = h ∙ ap (λ c. bound_by c old) (sym (close-closer l))

    create_dialing-Opens :
        (f : D → ℤ → HttpHandler D) (m : Method) (r : RouterConfig)
        → Opens old (create_dialing std dialers f m r n l)
    unfolding create_dialing mount
    create_dialing-Opens f m r = elim (Option-cases (dialers r.dialer.tag)) [
      | inl e ↦ rw (e, Opens) closed-Opens
      | inr (d, e) ↦ rw (e, Opens, mount) h
    ]

    create_portal-Opens :
        (f : HttpHandler D) (m : Method) (r : RouterConfig)
        → Opens old (create_portal std dialers f m r n l)
    unfolding create_portal mount
    create_portal-Opens f m r = elim (Reply-cases (new_portal std.parse_duration n r.portal)) [
      | inl (x, n', e) ↦
          rw (e, Opens, mount)
            (new_portal-ids std.parse_duration n n' r.portal x e
              ∙ ap (λ ds. x.0 ∷ ds) h
              ∙ sym (bound_by-snoc l.closer x.0 old))
      | inr (x, e) ↦ rw (e, Opens) closed-Opens
    ]

    route_stream-Opens :
        (m : Method) (r : RouterConfig) → Opens old (route_stream std dialers m r n l)
    unfolding route_stream
    route_stream-Opens m r = elim (Bool-cases (str_eq r.portal.tag "")) [
      | inl e ↦ rw (e, Opens) (create_dialing-Opens (http2 (token std.base64 r.access)) m r)
      | inr e ↦
          rw (e, Opens)
            (create_portal-Opens (http2_portal (token std.base64 r.access) r.portal.tag) m r)
    ]

    route_ws-Opens : (r : RouterConfig) → Opens old (route_ws std dialers r n l)
    unfolding route_ws
    route_ws-Opens r =
        let t = token std.base64 r.access in
        elim (Bool-cases (str_eq r.portal.tag "")) [
          | inl e ↦ rw (e, Opens) (create_dialing-Opens (websocket t r.fast) method_get r)
          | inr e ↦
              rw (e, Opens)
                (create_portal-Opens (websocket_portal t r.fast r.portal.tag) method_get r)
        ]

    add_router-Opens :
        (items : List ApiHandler) (r : RouterConfig)
        → Opens old (add_router std dialers items r n l)
    unfolding add_router
    add_router-Opens items r = elim (RouterKind-cases (kind_of (std.to_upper r.method))) [
      | inl (m, e) ↦ rw (e, Opens) (route_stream-Opens m r)
      | inr (inl e) ↦ rw (e, Opens) (route_ws-Opens r)
      | inr (inr (inl e)) ↦ rw (e, Opens) h
      | inr (inr (inr (inl e))) ↦ rw (e, Opens) h
      | inr (inr (inr (inr e))) ↦ rw (e, Opens) closed-Opens
    ]

  add_routers-Opens :
      (items : List ApiHandler) (rs : List RouterConfig) (n : Network) (l : HttpListener D)
      → portal_ids n.portal.bound ≡ bound_by l.closer old
      → Opens old (add_routers std dialers items rs n l)
  unfolding add_routers
  add_routers-Opens items [] n l h = h
  add_routers-Opens items (r ∷ rs) n l h =
      let one = add_router-Opens n l h items r in
      elim (Built-cases (add_router std dialers items r n l)) [
        | inl (n', l', e) ↦
            rw (e, Opens) (add_routers-Opens items rs n' l' (subst (Opens old) e one))
        | inr (x, n', l', e) ↦ rw (e, Opens) (subst (Opens old) e one)
      ]

  configure-Opens :
      (secure configures : Bool) (text : String) (n : Network) (l : HttpListener D)
      → portal_ids n.portal.bound ≡ bound_by l.closer old
      → Opens old (configure std dialers secure configures text n l)
  unfolding configure
  configure-Opens secure configures text n l h = elim (Bool-cases (not secure && not configures)) [
    | inl e ↦ rw (e, Opens) h
    | inr e ↦ rw (e, Opens) h
  ]

module _ {ℓ} {D : Type ℓ} (std : Std) (dialers : String → Option D) where
  pub new-Opens :
      (listens secure configures : Bool) (items : List ApiHandler) (rs : List RouterConfig)
      (text : String) (n : Network)
      → Opens
          (portal_ids n.portal.bound)
          (new std dialers listens secure configures items rs text n)
  unfolding new opened bound_by
  new-Opens listens secure configures items rs text n =
      let old = portal_ids n.portal.bound in
      elim (Bool-cases listens) [
        | inr f ↦ rw (f, Opens) refl
        | inl f ↦
            let all = add_routers-Opens std dialers old items rs n opened refl in
            elim (Built-cases (add_routers std dialers items rs n opened)) [
              | inl (n', l, e) ↦
                  rw (f, e, Opens)
                    (configure-Opens std dialers old secure configures text n' l
                      (subst (Opens old) e all))
              | inr (x, n', l, e) ↦ rw (f, e, Opens) (subst (Opens old) e all)
            ]
      ]
