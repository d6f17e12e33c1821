-- ===== src/Listener.antt =====
-- listener/: `New`, the basic and the portal listener; listener/http.go is HttpListener, and the loop
-- of `Serve` is in Accept.
pub mod Config
pub mod Portal
pub mod Runs
use Prim.Native.String.{String, ◌++◌}
use streamf.Common.{
  ℕ, suc, ℤ, pos, ltz, pos_part, ◌*◌, List, [], ◌∷◌, Option, none, some, Bool, true, false, not,
  ◌&&◌, ◌||◌, inl, inr, ◌⊎◌, str_eq, if◌then◌else◌, ◌==◌,
}
use streamf.Network.{
  Network, NetworkError, Opened, PortalConfig, DialerOptions, new_portal, duration_or,
}
use streamf.Network as Network
use streamf.Router.{ConnectDialer}
use streamf.HttpListener.{HttpListener}
use streamf.HttpListener.Build.{Std, RouterConfig, ApiHandler, HttpError}
use streamf.HttpListener.Build as Http
use streamf.Dialer.Build.{UdpConfig}
use streamf.Listener.Config.{
  TlsConfig, BasicConfig, ListenerConfig, System, Certificate, plain, secured, not_loaded, alpn_of,
  certificate, UdpListener, new_udp_listener,
}

pub data Source : Type 0 where
  socket : Opened → Source
  udp_socket : UdpListener → Source

-- `closes` counts the closes of what is below.
pub record BasicListener {ℓ} (D : Type ℓ) : Type ℓ where
  pub tag : String
  pub network : String
  pub addr : String
  pub secure : Bool
  pub source : Source
  pub dialer : D
  pub duration : ℤ
  pub closed : Bool
  pub closes : ℕ

pub record PortalListener : Type 0 where
  pub tag : String
  pub network : String
  pub addr : String
  pub secure : Bool
  pub source : Opened
  pub dialer : ℕ
  pub options : DialerOptions
  pub closed : Bool
  pub closes : ℕ

pub data Listener {ℓ} (D : Type ℓ) : Type ℓ where
  basic : BasicListener D → Listener D
  http : HttpListener D → Listener D
  portal : PortalListener → Listener D

pub data ListenerError : Type 0 where
  certificate_failed udp_failed mode_not_supported : ListenerError
  dialer_not_found : String → ListenerError
  network_failed : NetworkError → ListenerError
  http_failed : HttpError → ListenerError

-- On an error, the sockets that were opened and not closed.
pub data Made {ℓ} (A : Type ℓ) : Type ℓ where
  made : A → Network → Made A
  failed : ListenerError → Network → List Opened → Made A

unfoldable pub listener_tag : String → Bool → String → String → String → String
listener_tag kind secure network addr tag =
    if str_eq tag ""
    then kind ++ (network ++ ((if secure then "+tls://" else "://") ++ addr))
    else tag

-- `nk.Listen` and `nk.ListenTLS`, which wraps the listener.
unfoldable pub with_listener {ℓ} :
    {A : Type ℓ} → Network → Network.Reply Opened → (Opened → Network → Made A) → Made A
with_listener n (Network.ok o m) make = make o m
with_listener n (Network.error e) make = failed (network_failed e) n []

-- `Close` of the basic and the portal listener, and whether it returns `ErrClosed`.
unfoldable pub close_basic {ℓ} : {D : Type ℓ} → BasicListener D → BasicListener D × Bool
close_basic l =
    if l.closed then (l, true) else (record l { closed = true; closes = suc l.closes }, false)

unfoldable pub close_portal : PortalListener → PortalListener × Bool
close_portal l =
    if l.closed then (l, true) else (record l { closed = true; closes = suc l.closes }, false)

module _ (std : Std) (sys : System) (n : Network) (opts : BasicConfig) where
  module _ {ℓ} {D : Type ℓ} (dialer : D) (connect : ConnectDialer) where
    abbrev pub basic_of : Bool → String × String → Source → BasicListener D
    basic_of secure at source = record {
      tag = listener_tag "basic " secure at.0 at.1 opts.tag;
      network = at.0;
      addr = at.1;
      secure = secure;
      source = source;
      dialer = dialer;
      duration = duration_or std.parse_duration (pos 1000000000) connect.close;
      closed = false;
      closes = 0;
    }

    unfoldable pub new_basic_listener : Made (Listener D)
    unfolding with_listener
    new_basic_listener =
        let listened = Network.listen sys.net_listen sys.linux n opts.network opts.addr in
        elim (certificate sys opts.tls) [
          | not_loaded ↦ failed certificate_failed n []
          | secured protos ↦
              with_listener n listened
                (λ o m. made (basic (basic_of true (sys.local_addr o) (socket o))) m)
          | plain ↦
              if str_eq opts.network "udp"
                || (str_eq opts.network "udp4" || str_eq opts.network "udp6")
              then elim (new_udp_listener std sys opts.network opts.addr opts.udp) [
                | none ↦ failed udp_failed n []
                | some u ↦
                    made
                      (basic (basic_of false (sys.udp_addr opts.network opts.addr) (udp_socket u)))
                      n
              ]
              else with_listener n listened
                  (λ o m. made (basic (basic_of false (sys.local_addr o) (socket o))) m)
        ]

  -- Behind `Listen`: the portal, which takes the tag of the listener where it has none. On an error
  -- the listener is not closed.
  unfoldable pub open_portal {ℓ} :
      {D : Type ℓ} → PortalConfig → Bool → Opened → Network → Made (Listener D)
  open_portal config secure o m =
      let at = sys.local_addr o in
      let tag = listener_tag "portal " secure at.0 at.1 opts.tag in
      let named = record config { tag = if str_eq config.tag "" then tag else config.tag } in
      elim (new_portal std.parse_duration m named) [
        | Network.error e ↦ failed (network_failed e) m (o ∷ [])
        | Network.ok (dialer, options) k ↦
            made
              (portal (record {
                tag = tag;
                network = at.0;
                addr = at.1;
                secure = secure;
                source = o;
                dialer = dialer;
                options = options;
                closed = false;
                closes = 0;
              }))
              k
      ]

  unfoldable pub new_portal_listener {ℓ} : {D : Type ℓ} → PortalConfig → Made (Listener D)
  unfolding with_listener open_portal
  new_portal_listener config =
      let listened = Network.listen sys.net_listen sys.linux n opts.network opts.addr in
      elim (certificate sys opts.tls) [
        | not_loaded ↦ failed certificate_failed n []
        | secured protos ↦ with_listener n listened (λ o m. open_portal config true o m)
        | plain ↦ with_listener n listened (λ o m. open_portal config false o m)
      ]

  -- `NewHttpListener`, with `nk.Listen` before it.
  unfoldable pub new_http_listener {ℓ} :
      {D : Type ℓ}
      → (String → Option D)
      → List ApiHandler
      → List RouterConfig
      → String
      → Made (Listener D)
  unfolding with_listener
  new_http_listener dialers api routers idle_timeout =
      let secure = not (str_eq opts.tls.cert_file "") && not (str_eq opts.tls.key_file "") in
      with_listener n (Network.listen sys.net_listen sys.linux n opts.network opts.addr) (λ o m.
        elim (Http.new std dialers true secure sys.configures api routers idle_timeout m) [
          | Http.built k l ↦ made (http l) k
          | Http.failed e k l ↦
              failed (http_failed e) k (if l.socket_closed == 0 then o ∷ [] else [])
        ])

-- `New`
unfoldable pub new {ℓ} :
    {D : Type ℓ}
    → Std
    → System
    → (String → Option D)
    → List ApiHandler
    → Network
    → ListenerConfig
    → Made (Listener D)
new std sys dialers api n opts =
    if str_eq opts.mode "basic" || str_eq opts.mode ""
    then elim (dialers opts.dialer.tag) [
      | none ↦ failed (dialer_not_found opts.dialer.tag) n []
      | some found ↦ new_basic_listener std sys n opts.options found opts.dialer
    ]
    else if str_eq opts.mode "http"
    then new_http_listener std sys n opts.options dialers api opts.router opts.idle_timeout
    else if str_eq opts.mode "portal"
    then new_portal_listener std sys n opts.options opts.portal
    else failed mode_not_supported n []
