-- ===== src/Application/Gives.antt =====
-- forwarding/application.go: what each constructor keeps of the network.
use streamf.Common.{ℕ, ◌≡◌, refl, sym, subst, inl, inr, ◌⊎◌, List, [], Bool, true, String}
use streamf.Network.{
  Network, NetworkError, Opened, in_use, portal_exists, unsupported, not_unix, listen_failed,
}
use streamf.Network as Network
use streamf.Network.Binding.{Binds, listen-Binds}
use streamf.HttpListener.Routed.{Reply-cases}
use streamf.Router.Failure.{new-failed}
use streamf.Router as Router
use streamf.Router.Listener as Sni
use streamf.Dialer.Build.{DialerConfig, Result}
use streamf.Dialer.Build as Dialers
use streamf.Dialer.Kept.{Kept}
use streamf.Listener.{
  ListenerError, certificate_failed, udp_failed, mode_not_supported, network_failed, http_failed,
  Listener, Made, made, failed,
}
use streamf.Listener.Config.{ListenerConfig}
use streamf.Listener as Listeners
use streamf.Listener.Portal.{Leaves, listener_new-Ends}
use streamf.Listener.Portal as ListenerEnds
use streamf.Forward.Settings.{UdpForward}
use streamf.Forward.Settings as Forwarders
use streamf.Application.Wiring.{
  Libraries, SniConfig, Component, Fault, listener_fault, World, returned, refused, a_listener,
  a_sniproxy, a_forwarder, network_fault, router_fault, forwarder_fault, find_tag, settle,
  make_listener, make_sniproxy, make_forwarder,
}
use streamf.Application.Kept.{Gives}

-- The network of a state.
abbrev pub Nets : (Network → Type 0) → World → Type 0
Nets P w = P w.network

-- A dialer or a bridge.
pub settle-Gives {ℓ} :
    {E : Type 0} {A : Type ℓ} (P R : Network → Type 0) (later : (n : Network) → P n → R n)
    (w : World) (part : A → Component) (fault : E → Fault) (r : Result E A)
    → Nets P w
    → Kept P r
    → Gives (Nets P) (Nets R) (settle w part fault r)
unfolding settle
settle-Gives P R later w part fault (Dialers.ok a n) c k = k
settle-Gives P R later w part fault (Dialers.error e) c k = later w.network c

Built-cases {ℓ} :
    {A : Type ℓ} (b : Router.Built A)
    → ((a : A) × (b ≡ Router.built a))
      ⊎ ((e : Router.RouterError) × (closed : Bool) × (b ≡ Router.failed e closed))
Built-cases (Router.built a) = inl (a, refl)
Built-cases (Router.failed e closed) = inr (e, closed, refl)

module _ (lib : Libraries) (P : Network → Type 0) (keeps : (n m : Network) → Binds n m → P n → P m)
    (w : World) (c : Nets P w) where
  pub make_listener-Gives :
      (ds : List (String × ℕ)) (o : ListenerConfig)
      → Gives (Nets P) (Nets P) (make_listener lib w ds o)
  unfolding make_listener returned refused
  make_listener-Gives ds o =
      elim (Listeners.new lib.std lib.sys (find_tag ds) lib.api w.network o)
          as (λ r.
            ListenerEnds.Ends P r
            → Gives (Nets P) (Nets P) (elim r [
              | made l n ↦ returned w n (a_listener l)
              | failed e n left ↦ refused w n (listener_fault e) left
            ])) [ made l n ↦ λ h. h.0 | failed e n left ↦ λ h. h.0 ]
        (listener_new-Ends P lib.std lib.sys w.network keeps c (find_tag ds) lib.api o)

  pub make_sniproxy-Gives :
      (ds : List (String × ℕ)) (o : SniConfig) → Gives (Nets P) (Nets P) (make_sniproxy lib w ds o)
  unfolding make_sniproxy returned refused
  make_sniproxy-Gives ds o =
      let listened = Network.listen lib.sys.net_listen lib.sys.linux w.network o.network o.addr in
      elim (Reply-cases listened) [
        | inr (e, f) ↦
            let same : make_sniproxy lib w ds o ≡ refused w w.network (network_fault e) [] =
              rw (f, make_sniproxy) refl in
            subst (Gives (Nets P) (Nets P)) (sym same) c
        | inl (s, n, f) ↦
            let p =
              keeps w.network n
                (listen-Binds lib.sys.net_listen lib.sys.linux w.network n o.network o.addr s f)
                c in
            elim (Built-cases
              (Sni.new_listener (find_tag ds) lib.std.parse_duration lib.compile true o.proxy)) [
                | inl (l, g) ↦
                    let same : make_sniproxy lib w ds o ≡ returned w n (a_sniproxy s l) =
                      rw (f, g, make_sniproxy) refl in
                    subst (Gives (Nets P) (Nets P)) (sym same) p
                | inr (e, closed, g) ↦
                    let (shut, _) =
                      new-failed (find_tag ds) lib.std.parse_duration lib.compile true o.proxy e
                        closed g in
                    let same : make_sniproxy lib w ds o ≡ refused w n (router_fault e) [] =
                      rw (f, g, shut, make_sniproxy) refl in
                    subst (Gives (Nets P) (Nets P)) (sym same) p
              ]
      ]

  pub make_forwarder-Gives : (o : UdpForward) → Gives (Nets P) (Nets P) (make_forwarder lib w o)
  unfolding make_forwarder returned refused
  make_forwarder-Gives o =
      elim (Forwarders.new lib.listens_udp lib.std.parse_duration o)
        as (λ r. Gives (Nets P) (Nets P) (elim r [
          | Forwarders.made s ↦ returned w w.network (a_forwarder s)
          | Forwarders.network_not_supported network ↦ refused w w.network forwarder_fault []
          | Forwarders.listen_failed ↦ refused w w.network forwarder_fault []
        ])) [
          | Forwarders.made s ↦ c
          | Forwarders.network_not_supported network ↦ c
          | Forwarders.listen_failed ↦ c
        ]
