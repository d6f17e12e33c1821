-- ===== src/Listener/Portal.antt =====
-- listener/: what is open, and what the network keeps, behind `New`.
use streamf.Common.{
  ℕ, ◌≡◌, refl, sym, subst, inl, inr, ◌⊎◌, List, [], ◌∷◌, Option, Bool, true, false, not, ◌&&◌,
  ◌||◌, String, str_eq, if◌then◌else◌, arith, Option-cases,
}
use streamf.Network.{
  Network, NetworkError, in_use, portal_exists, unsupported, not_unix, listen_failed, Opened,
  PortalConfig, DialerOptions,
}
use streamf.Network as Network
use streamf.Network.Reached.{AllSound, Step-AllSound, Binds-Step}
use streamf.Network.Binding.{Binds, listen-Binds, new_portal-Binds}
use streamf.Router.{ConnectDialer}
use streamf.HttpListener.{HttpListener}
use streamf.HttpListener.Build.{
  Std, RouterConfig, ApiHandler, HttpError, dialer_not_found, portal_failed, method_not_supported,
  configure_failed,
}
use streamf.HttpListener.Build as Http
use streamf.HttpListener.Routed.{Built-cases, Reply-cases}
use streamf.HttpListener.Closing.{IsOpen, IsListened, new-Ends_keeping, new-IsListened}
use streamf.HttpListener.Closing as Closing
use streamf.Listener.{
  Listener, basic, http, portal, ListenerError, certificate_failed, udp_failed, mode_not_supported,
  network_failed, http_failed, Made, made, failed, with_listener, listener_tag, new_basic_listener,
  open_portal, new_portal_listener, new_http_listener, new,
}
use streamf.Listener.Config.{
  BasicConfig, ListenerConfig, System, Certificate, plain, secured, not_loaded, certificate,
  new_udp_listener,
}

-- A listener that nothing has closed.
abbrev pub IsListening {ℓ} : {D : Type ℓ} → Listener D → Type 0
IsListening (basic l) = (l.closed ≡ false) × (l.closes ≡ 0)
IsListening (http l) = IsOpen l
IsListening (portal l) = (l.closed ≡ false) × (l.closes ≡ 0)

-- What an error leaves open: the listener of a portal whose tag is taken, and nothing else.
abbrev pub Leaves : ListenerError → List Opened → Type 0
Leaves (network_failed portal_exists) left = (o : Opened) × (left ≡ o ∷ [])
Leaves (network_failed in_use) left = left ≡ []
Leaves (network_failed unsupported) left = left ≡ []
Leaves (network_failed not_unix) left = left ≡ []
Leaves (network_failed (listen_failed e)) left = left ≡ []
Leaves certificate_failed left = left ≡ []
Leaves udp_failed left = left ≡ []
Leaves mode_not_supported left = left ≡ []
Leaves (ListenerError.dialer_not_found tag) left = left ≡ []
Leaves (http_failed e) left = left ≡ []

abbrev pub Ends {ℓ} : {D : Type ℓ} → (Network → Type 0) → Made (Listener D) → Type 0
Ends P (made l n) = P n × IsListening l
Ends P (failed e n left) = P n × Leaves e left

-- The errors of `Listen` and of `NewPortal`.
listen-no_portal :
    (net_listen : String → String → ℕ ⊎ ℕ) (linux : Bool) (n : Network) (network a : String)
    (e : NetworkError)
    → Network.listen net_listen linux n network a ≡ Network.error e
    → Leaves (network_failed e) []
unfolding Network.listen Network.listen_pipe
listen-no_portal net_listen linux n network a in_use h = refl
listen-no_portal net_listen linux n network a unsupported h = refl
listen-no_portal net_listen linux n network a not_unix h = refl
listen-no_portal net_listen linux n network a (listen_failed e) h = refl
listen-no_portal net_listen linux n network a portal_exists h = absurd (ground arith)

portal_exists_lem :
    (std : Std) (n : Network) (c : PortalConfig) (e : NetworkError)
    → Network.new_portal std.parse_duration n c ≡ Network.error e
    → e ≡ portal_exists
unfolding Network.new_portal
portal_exists_lem std n c e h = ground arith

module _ {ℓ} {D : Type ℓ} (P : Network → Type 0) where
  with_listener-Ends :
      (n : Network) (r : Network.Reply Opened) (make : Opened → Network → Made (Listener D))
      → P n
      → ((e : NetworkError) → r ≡ Network.error e → Leaves (network_failed e) [])
      → ((o : Opened) (m : Network) → r ≡ Network.ok o m → Ends P (make o m))
      → Ends P (with_listener n r make)
  unfolding with_listener
  with_listener-Ends n (Network.ok o m) make p h k = k o m refl
  with_listener-Ends n (Network.error e) make p h k = (p, h e refl)

  if-Ends : (b : Bool) (x y : Made (Listener D)) → Ends P x → Ends P y → Ends P (if b then x else y)
  if-Ends true x y h k = h
  if-Ends false x y h k = k

Certificate-cases :
    (c : Certificate) → (c ≡ plain) ⊎ ((c ≡ not_loaded) ⊎ ((ps : List String) × (c ≡ secured ps)))
Certificate-cases plain = inl refl
Certificate-cases not_loaded = inr (inl refl)
Certificate-cases (secured ps) = inr (inr (ps, refl))

http_failed-closed {ℓ} :
    {D : Type ℓ} (P : Network → Type 0) (x : HttpError) (n : Network) (l : HttpListener D)
    → Closing.Ends P (Http.failed x n l)
    → ¬ (x ≡ Http.listen_failed)
    → P n × (l.socket_closed ≡ 1)
http_failed-closed P Http.listen_failed n l h k = absurd (k refl)
http_failed-closed P configure_failed n l h k = (h.0, h.1)
http_failed-closed P (dialer_not_found tag) n l h k = (h.0, h.1.socket_once)
http_failed-closed P (portal_failed e) n l h k = (h.0, h.1.socket_once)
http_failed-closed P method_not_supported n l h k = (h.0, h.1.socket_once)

-- `keeps`: a listener or a portal keeps what holds of the network.
module _ (P : Network → Type 0) (std : Std) (sys : System) (n : Network)
    (keeps : (k m : Network) → Binds k m → P k → P m) (held : P n) where
  module _ {ℓ} {D : Type ℓ} (opts : BasicConfig) where
    listened-Ends :
        (make : Opened → Network → Made (Listener D))
        → ((o : Opened) (m : Network) → P m → Ends P (make o m))
        → Ends P (
            with_listener n (Network.listen sys.net_listen sys.linux n opts.network opts.addr) make)
    listened-Ends make h =
        with_listener-Ends P n (Network.listen sys.net_listen sys.linux n opts.network opts.addr)
          make held (listen-no_portal sys.net_listen sys.linux n opts.network opts.addr)
          (λ o m e.
            h o m (
              keeps n m (listen-Binds sys.net_listen sys.linux n m opts.network opts.addr o e)
                held))

    new_basic_listener-Ends :
        (d : D) (connect : ConnectDialer) → Ends P (new_basic_listener std sys n opts d connect)
    unfolding new_basic_listener
    new_basic_listener-Ends d connect = elim (Certificate-cases (certificate sys opts.tls)) [
      | inr (inl e) ↦ rw (e, Ends) (held, refl)
      | inr (inr (ps, e)) ↦ rw (e, Ends) (listened-Ends _ (λ o m p. (p, (refl, refl))))
      | inl e ↦
          rw (e, Ends)
            (if-Ends P
              (str_eq opts.network "udp"
                || (str_eq opts.network "udp4" || str_eq opts.network "udp6"))
              _ _
              (elim (Option-cases (new_udp_listener std sys opts.network opts.addr opts.udp)) [
                | inl f ↦ rw (f, Ends) (held, refl)
                | inr (u, f) ↦ rw (f, Ends) (held, (refl, refl))
              ])
              (listened-Ends _ (λ o m p. (p, (refl, refl)))))
    ]

    new_http_listener-Ends :
        (dialers : String → Option D) (api : List ApiHandler) (rs : List RouterConfig)
        (text : String)
        → Ends P (new_http_listener std sys n opts dialers api rs text)
    unfolding new_http_listener
    new_http_listener-Ends dialers api rs text =
        let secure = not (str_eq opts.tls.cert_file "") && not (str_eq opts.tls.key_file "") in
        listened-Ends _ (λ o m p.
          let all =
            new-Ends_keeping std dialers P
              (λ k m portal x e. keeps k m (new_portal-Binds std.parse_duration k m portal x e))
              true secure sys.configures api rs text m p in
          let one = new-IsListened std dialers secure sys.configures api rs text m in
          elim (Built-cases (Http.new std dialers true secure sys.configures api rs text m)) [
            | inl (k, l, e) ↦ rw (e, Ends) (subst (Closing.Ends P) e all)
            | inr (x, k, l, e) ↦
                let ends = subst (Closing.Ends P) e all in
                let closed = http_failed-closed P x k l ends (subst IsListened e one) in
                rw (e, Ends, closed.1) (closed.0, refl)
          ])

  open_portal-Ends {ℓ} :
      (D : Type ℓ) (opts : BasicConfig) (c : PortalConfig) (secure : Bool) (o : Opened)
      (m : Network)
      → P m
      → Ends {D = D} P (open_portal std sys n opts c secure o m)
  unfolding open_portal
  open_portal-Ends D opts c secure o m p =
      let at = sys.local_addr o in
      let tag = listener_tag "portal " secure at.0 at.1 opts.tag in
      let named : PortalConfig = record c { tag = if str_eq c.tag "" then tag else c.tag } in
      elim (Reply-cases (Network.new_portal std.parse_duration m named)) [
        | inl (x, k, e) ↦
            rw (e, Ends)
              (keeps m k (new_portal-Binds std.parse_duration m k named x e) p, (refl, refl))
        | inr (e, f) ↦
            rw (f, Ends)
              (
                p,
                subst (λ e. Leaves (network_failed e) (o ∷ []))
                    (sym (portal_exists_lem std m named e f)) (o, refl),
              )
      ]

  new_portal_listener-Ends {ℓ} :
      (D : Type ℓ) (opts : BasicConfig) (c : PortalConfig)
      → Ends {D = D} P (new_portal_listener std sys n opts c)
  unfolding new_portal_listener
  new_portal_listener-Ends D opts c = elim (Certificate-cases (certificate sys opts.tls)) [
    | inr (inl e) ↦ rw (e, Ends) (held, refl)
    | inr (inr (ps, e)) ↦ rw (e, Ends) (listened-Ends opts _ (open_portal-Ends D opts c true))
    | inl e ↦ rw (e, Ends) (listened-Ends opts _ (open_portal-Ends D opts c false))
  ]

  -- After New of a listener.
  pub listener_new-Ends {ℓ} :
      {D : Type ℓ} (dialers : String → Option D) (api : List ApiHandler) (c : ListenerConfig)
      → Ends P (new std sys dialers api n c)
  unfolding new
  listener_new-Ends {D = D} dialers api c =
      if-Ends P (str_eq c.mode "basic" || str_eq c.mode "") _ _
        (elim (Option-cases (dialers c.dialer.tag)) [
          | inl e ↦ rw (e, Ends) (held, refl)
          | inr (d, e) ↦ rw e (new_basic_listener-Ends c.options d c.dialer)
        ])
        (if-Ends P (str_eq c.mode "http") _ _
          (new_http_listener-Ends c.options dialers api c.router c.idle_timeout)
          (if-Ends P (str_eq c.mode "portal") _ _ (new_portal_listener-Ends D c.options c.portal)
            (held, refl)))

-- On a sound network, New of a listener leaves the network sound; if it succeeds, the basic, HTTP
-- or portal listener that it returns is open and has closed nothing; if it fails, no socket that it
-- opened is still open, except that of a portal listener whose portal has a tag that is taken.
pub new_listener-Ends {ℓ} :
    {D : Type ℓ} (std : Std) (sys : System) (dialers : String → Option D) (api : List ApiHandler)
    (n : Network) (c : ListenerConfig)
    → AllSound n
    → Ends AllSound (new std sys dialers api n c)
new_listener-Ends std sys dialers api n c s =
    listener_new-Ends AllSound std sys n (λ k m b. Step-AllSound k m (Binds-Step k m b)) s dialers
      api c
