-- ===== src/HttpListener/Closing.antt =====
-- listener/http.go: what `NewHttpListener` has closed when it fails, and the network behind it.
use streamf.Common.{
  ℕ, suc, ℤ, ◌≡◌, refl, ap, subst, inl, inr, List, [], ◌∷◌, ◌++◌, Option, Bool, true, false, not,
  ◌&&◌, String, str_eq, arith, Bool-cases, Option-cases,
}
use streamf.Network.{Network, PortalConfig, DialerOptions, ok, new_portal}
use streamf.Network.Reached.{new_portal-Step, AllSound, Step-AllSound}
use streamf.HttpMux.{Method, method_get}
use streamf.HttpListener.Access.{token}
use streamf.HttpListener.{
  HttpHandler, http2, http2_portal, websocket, websocket_portal, HttpListener, opened, close,
}
use streamf.HttpListener.Build.{
  Std, RouterConfig, ApiHandler, HttpError, dialer_not_found, portal_failed, method_not_supported,
  configure_failed, listen_failed, Built, built, failed, kind_of, mount, create_dialing,
  create_portal, route_stream, route_ws, add_router, add_routers, configure, new,
}
use streamf.HttpListener.Portals.{portal_ids, Opens, new-Opens}
use streamf.HttpListener.Routed.{Built-cases, Reply-cases, RouterKind-cases}

-- Nothing is closed yet.
pub record IsOpen {ℓ} {D : Type ℓ} (l : HttpListener D) : Type 0 where
  pub not_closed : l.closed ≡ false
  pub no_dialers : l.closed_dialers ≡ []
  pub socket_open : l.socket_closed ≡ 0

-- All is closed, once: the socket, and the dialers of the portals in the order they were made.
pub record IsClosed {ℓ} {D : Type ℓ} (l : HttpListener D) : Type 0 where
  pub is_closed : l.closed ≡ true
  pub is_done : l.done ≡ true
  pub all_dialers : l.closed_dialers ≡ l.closer
  pub socket_once : l.socket_closed ≡ 1

-- An error that a router causes.
abbrev pub IsRouterError : HttpError → Type 0
IsRouterError listen_failed = ⊥
IsRouterError configure_failed = ⊥
IsRouterError (dialer_not_found tag) = Unit
IsRouterError (portal_failed e) = Unit
IsRouterError method_not_supported = Unit

-- After the routers: the network stays sound, and all is open or, on an error, all is closed.
abbrev pub Settled {ℓ} : {D : Type ℓ} → (Network → Type 0) → Built D → Type 0
Settled P (built n l) = P n × IsOpen l
Settled P (failed e n l) = P n × IsClosed l × IsRouterError e

-- After `NewHttpListener`. An HTTP/2 server that cannot be configured leaves the portals open.
abbrev pub Ends {ℓ} : {D : Type ℓ} → (Network → Type 0) → Built D → Type 0
Ends P (built n l) = P n × IsOpen l
Ends P (failed listen_failed n l) = P n × IsOpen l
Ends P (failed configure_failed n l) =
    P n × (l.socket_closed ≡ 1) × (l.done ≡ true) × (l.closed_dialers ≡ [])
Ends P (failed (dialer_not_found tag) n l) = P n × IsClosed l
Ends P (failed (portal_failed e) n l) = P n × IsClosed l
Ends P (failed method_not_supported n l) = P n × IsClosed l

module _ {ℓ} {D : Type ℓ} where
  close-IsClosed : (l : HttpListener D) → IsOpen l → IsClosed (close l).0
  unfolding close
  close-IsClosed l o =
      let a = o.not_closed in
      let c = o.socket_open in
      record {
        is_closed = ground arith;
        is_done = ground arith;
        all_dialers = rw a (ap (λ x. x ++ l.closer) o.no_dialers);
        socket_once = rw a (ap suc c);
      }

  opened-IsOpen : IsOpen {D = D} opened
  unfolding opened
  opened-IsOpen = record { not_closed = refl; no_dialers = refl; socket_open = refl }

-- `P` is what the network keeps when a portal is made.
module _ {ℓ} {D : Type ℓ} (std : Std) (dialers : String → Option D) (P : Network → Type 0)
    (keeps : (n m : Network) (portal : PortalConfig) (x : ℕ × DialerOptions)
      → new_portal std.parse_duration n portal ≡ ok x m
      → P n
      → P m) where
  module _ (n : Network) (l : HttpListener D) (sound : P n) (o : IsOpen l) where
    create_dialing-Settled :
        (h : D → ℤ → HttpHandler D) (m : Method) (r : RouterConfig)
        → Settled P (create_dialing std dialers h m r n l)
    unfolding create_dialing mount
    create_dialing-Settled h m r = elim (Option-cases (dialers r.dialer.tag)) [
      | inl e ↦ rw (e, Settled) (sound, close-IsClosed l o, tt)
      | inr (d, e) ↦
          rw (e, Settled, mount)
            (
              sound,
              record {
                not_closed = o.not_closed;
                no_dialers = o.no_dialers;
                socket_open = o.socket_open;
              },
            )
    ]

    create_portal-Settled :
        (h : HttpHandler D) (m : Method) (r : RouterConfig)
        → Settled P (create_portal std dialers h m r n l)
    unfolding create_portal mount
    create_portal-Settled h m r = elim (Reply-cases (new_portal std.parse_duration n r.portal)) [
      | inl (x, n', e) ↦
          rw (e, Settled, mount)
            (
              keeps n n' r.portal x e sound,
              record {
                not_closed = o.not_closed;
                no_dialers = o.no_dialers;
                socket_open = o.socket_open;
              },
            )
      | inr (x, e) ↦ rw (e, Settled) (sound, close-IsClosed l o, tt)
    ]

    route_stream-Settled :
        (m : Method) (r : RouterConfig) → Settled P (route_stream std dialers m r n l)
    unfolding route_stream
    route_stream-Settled m r = elim (Bool-cases (str_eq r.portal.tag "")) [
      | inl e ↦ rw (e, Settled) (create_dialing-Settled (http2 (token std.base64 r.access)) m r)
      | inr e ↦
          rw (e, Settled)
            (create_portal-Settled (http2_portal (token std.base64 r.access) r.portal.tag) m r)
    ]

    route_ws-Settled : (r : RouterConfig) → Settled P (route_ws std dialers r n l)
    unfolding route_ws
    route_ws-Settled r =
        let t = token std.base64 r.access in
        elim (Bool-cases (str_eq r.portal.tag "")) [
          | inl e ↦ rw (e, Settled) (create_dialing-Settled (websocket t r.fast) method_get r)
          | inr e ↦
              rw (e, Settled)
                (create_portal-Settled (websocket_portal t r.fast r.portal.tag) method_get r)
        ]

    add_router-Settled :
        (items : List ApiHandler) (r : RouterConfig)
        → Settled P (add_router std dialers items r n l)
    unfolding add_router
    add_router-Settled items r =
        let same = λ (x : IsOpen l). x in
        elim (RouterKind-cases (kind_of (std.to_upper r.method))) [
          | inl (m, e) ↦ rw (e, Settled) (route_stream-Settled m r)
          | inr (inl e) ↦ rw (e, Settled) (route_ws-Settled r)
          | inr (inr (inl e)) ↦
              rw (e, Settled)
                (
                  sound,
                  record {
                    not_closed = o.not_closed;
                    no_dialers = o.no_dialers;
                    socket_open = o.socket_open;
                  },
                )
          | inr (inr (inr (inl e))) ↦
              rw (e, Settled)
                (
                  sound,
                  record {
                    not_closed = o.not_closed;
                    no_dialers = o.no_dialers;
                    socket_open = o.socket_open;
                  },
                )
          | inr (inr (inr (inr e))) ↦ rw (e, Settled) (sound, close-IsClosed l o, tt)
        ]

  add_routers-Settled :
      (items : List ApiHandler) (rs : List RouterConfig) (n : Network) (l : HttpListener D)
      → P n
      → IsOpen l
      → Settled P (add_routers std dialers items rs n l)
  unfolding add_routers
  add_routers-Settled items [] n l sound o = (sound, o)
  add_routers-Settled items (r ∷ rs) n l sound o =
      let one = add_router-Settled n l sound o items r in
      elim (Built-cases (add_router std dialers items r n l)) [
        | inl (n', l', e) ↦
            let (sound', o') : Settled P (built n' l') = subst (Settled P) e one in
            rw (e, Settled) (add_routers-Settled items rs n' l' sound' o')
        | inr (x, n', l', e) ↦ rw (e, Settled) (subst (Settled P) e one)
      ]

  -- An error of a router ends the constructor as it is.
  Settled-Ends :
      (x : HttpError) (n : Network) (l : HttpListener D)
      → Settled P (failed x n l)
      → Ends P (failed x n l)
  Settled-Ends (dialer_not_found tag) n l (s, c, r) = (s, c)
  Settled-Ends (portal_failed e) n l (s, c, r) = (s, c)
  Settled-Ends method_not_supported n l (s, c, r) = (s, c)
  Settled-Ends listen_failed n l (s, c, r) = absurd r
  Settled-Ends configure_failed n l (s, c, r) = absurd r

  configure-Ends :
      (secure configures : Bool) (text : String) (n : Network) (l : HttpListener D)
      → P n
      → IsOpen l
      → Ends P (configure std dialers secure configures text n l)
  unfolding configure
  configure-Ends secure configures text n l s o = elim (Bool-cases (not secure && not configures)) [
    | inl e ↦ rw (e, Ends) (s, ap suc o.socket_open, refl, o.no_dialers)
    | inr e ↦
        rw (e, Ends)
          (
            s,
            record {
              not_closed = o.not_closed;
              no_dialers = o.no_dialers;
              socket_open = o.socket_open;
            },
          )
  ]

  pub new-Ends_keeping :
      (listens secure configures : Bool) (items : List ApiHandler) (rs : List RouterConfig)
      (text : String) (n : Network)
      → P n
      → Ends P (new std dialers listens secure configures items rs text n)
  unfolding new
  new-Ends_keeping listens secure configures items rs text n s = elim (Bool-cases listens) [
    | inr f ↦ rw (f, Ends) (s, opened-IsOpen)
    | inl f ↦
        let all = add_routers-Settled items rs n opened s opened-IsOpen in
        elim (Built-cases (add_routers std dialers items rs n opened)) [
          | inl (n', l, e) ↦
              let (s', o) : Settled P (built n' l) = subst (Settled P) e all in
              rw (f, e, Ends) (configure-Ends secure configures text n' l s' o)
          | inr (x, n', l, e) ↦ rw (f, e, Ends) (Settled-Ends x n' l (subst (Settled P) e all))
        ]
  ]

-- A listener that the system makes does not fail as one that it refuses.
abbrev pub IsListened {ℓ} : {D : Type ℓ} → Built D → Type 0
IsListened (built n l) = Unit
IsListened (failed e n l) = ¬ (e ≡ listen_failed)

IsRouterError-IsListened : (e : HttpError) → IsRouterError e → ¬ (e ≡ listen_failed)
IsRouterError-IsListened (dialer_not_found tag) h = λ q. ground arith
IsRouterError-IsListened (portal_failed e) h = λ q. ground arith
IsRouterError-IsListened method_not_supported h = λ q. ground arith
IsRouterError-IsListened listen_failed h = absurd h
IsRouterError-IsListened configure_failed h = absurd h

module _ {ℓ} {D : Type ℓ} (std : Std) (dialers : String → Option D) where
  pub new-IsListened :
      (secure configures : Bool) (items : List ApiHandler) (rs : List RouterConfig) (text : String)
      (n : Network)
      → IsListened (new std dialers true secure configures items rs text n)
  unfolding new configure
  new-IsListened secure configures items rs text n =
      let all =
        add_routers-Settled std dialers (λ m. Unit) (λ m k portal x e u. tt) items rs n opened tt
          opened-IsOpen in
      elim (Built-cases (add_routers std dialers items rs n opened)) [
        | inr (x, m, l, e) ↦
            let (u, closed, r) : Settled (λ k. Unit) (failed x m l) =
              subst (Settled (λ k. Unit)) e all in
            rw (e, IsListened) (IsRouterError-IsListened x r)
        | inl (m, l, e) ↦ elim (Bool-cases (not secure && not configures)) [
          | inl f ↦ rw (e, f, IsListened) (λ q. ground arith)
          | inr f ↦ rw (e, f, IsListened) tt
        ]
      ]

  -- On a sound network, NewHttpListener leaves the network sound, on every branch, and its list of
  -- closers is that of the portals that were bound since, in the order they were made; if it
  -- succeeds, nothing is closed; if a router fails it, the socket is closed once and each portal of
  -- the list once, in order; if the HTTP/2 server cannot be configured, the socket is closed once,
  -- but no portal.
  pub new-Ends :
      (listens secure configures : Bool) (items : List ApiHandler) (rs : List RouterConfig)
      (text : String) (n : Network)
      → AllSound n
      → Ends AllSound (new std dialers listens secure configures items rs text n)
        × Opens
            (portal_ids n.portal.bound)
            (new std dialers listens secure configures items rs text n)
  new-Ends listens secure configures items rs text n s = (
    new-Ends_keeping std dialers AllSound
        (λ n m portal x e. Step-AllSound n m (new_portal-Step std.parse_duration n m portal x e))
        listens secure configures items rs text n s,
    new-Opens std dialers listens secure configures items rs text n,
  )
