-- ===== src/Application/Wiring.antt =====
-- forwarding/application.go: `newApplication` with the constructors it calls, over one network.
use streamf.Common.{
  ℕ, List, [], ◌∷◌, ◌++◌, length, Option, none, some, Bool, true, String, str_eq, if◌then◌else◌,
}
use streamf.Network.{Network, NetworkError, Opened}
use streamf.Network as Network
use streamf.Router.{SniProxy, RouterError}
use streamf.Router as Router
use streamf.Router.Listener as Sni
use streamf.HttpListener.Build.{Std, ApiHandler}
use streamf.Dialer.Options.{Url}
use streamf.Dialer.Build.{DialerConfig, Dialer, DialerError, Result}
use streamf.Dialer.Build as Dialers
use streamf.Bridge.{BridgeConfig, Bridge, BridgeError}
use streamf.Bridge as Bridges
use streamf.Listener.{Listener, ListenerError, Made}
use streamf.Listener.Config.{ListenerConfig, System}
use streamf.Listener as Listeners
use streamf.Forward.Settings.{UdpForward, Settings}
use streamf.Forward.Settings as Forwarders
use streamf.Application.{
  Kind, bridge, listener, sniproxy, udp, Reply, ok, err, Config, Makers, Application, create,
}

-- The libraries: the parser of URLs, the keys of `http.Header`, the SOCKS client, regular
-- expressions, and whether a socket of `net.ListenUDP` is made.
pub record Libraries : Type 0 where
  pub std : Std
  pub sys : System
  pub canonical : String → String
  pub parse_uri : String → Option Url
  pub socks5 : String → String → Bool
  pub compile : List ℕ → Option (List ℕ → Bool)
  pub listens_udp : String → String → Bool
  pub api : List ApiHandler

-- `config.SNIProxy`, with what `nk.Listen` is given.
pub record SniConfig : Type 0 where
  pub network : String
  pub addr : String
  pub proxy : SniProxy

-- The options of a part of each kind.
abbrev pub Options : Kind → Type 0
Options bridge = BridgeConfig
Options listener = ListenerConfig
Options sniproxy = SniConfig
Options udp = UdpForward

-- A part, and a number for each dialer that it uses.
pub data Component : Type 0 where
  a_dialer : Dialer → Component
  a_bridge : Bridge ℕ → Component
  a_listener : Listener ℕ → Component
  a_sniproxy : Opened → Sni.Listener ℕ → Component
  a_forwarder : Settings → Component

pub data Fault : Type 0 where
  dialer_fault : DialerError → Fault
  bridge_fault : BridgeError → Fault
  listener_fault : ListenerError → Fault
  network_fault : NetworkError → Fault
  router_fault : RouterError → Fault
  forwarder_fault : Fault

-- `nk`, the parts and the errors, which their place numbers, and the sockets that no part has and
-- nothing closed.
pub record World : Type 0 where
  pub network : Network
  pub parts : List Component
  pub faults : List Fault
  pub left : List Opened

unfoldable pub start : World
start = record { network = Network.new; parts = []; faults = []; left = [] }

-- `dialers[tag]`
unfoldable pub find_tag : List (String × ℕ) → String → Option ℕ
find_tag [] tag = none
find_tag ((t, d) ∷ rest) tag = if str_eq t tag then some d else find_tag rest tag

unfoldable pub returned : World → Network → Component → World × Reply
returned w n c = (record w { network = n; parts = w.parts ++ c ∷ [] }, ok (length w.parts))

unfoldable pub refused : World → Network → Fault → List Opened → World × Reply
refused w n f left = (
  record w { network = n; faults = w.faults ++ f ∷ []; left = w.left ++ left },
  err (length w.faults),
)

-- A constructor that changes the network only where it succeeds.
unfoldable pub settle {ℓ} :
    {E : Type 0} {A : Type ℓ} → World → (A → Component) → (E → Fault) → Result E A → World × Reply
unfolding returned refused
settle w part fault (Dialers.ok a n) = returned w n (part a)
settle w part fault (Dialers.error e) = refused w w.network (fault e) []

module _ (lib : Libraries) where
  -- `bridge.New`
  unfoldable pub make_bridge : World → List (String × ℕ) → BridgeConfig → World × Reply
  unfolding settle
  make_bridge w dialers opts =
      settle w a_bridge bridge_fault (
        Bridges.new lib.std lib.parse_uri lib.socks5 lib.sys.linux (find_tag dialers) w.network
          opts)

  -- `listener.New`
  unfoldable pub make_listener : World → List (String × ℕ) → ListenerConfig → World × Reply
  unfolding returned refused
  make_listener w dialers opts =
      elim (Listeners.new lib.std lib.sys (find_tag dialers) lib.api w.network opts) [
        | Listeners.made l n ↦ returned w n (a_listener l)
        | Listeners.failed e n left ↦ refused w n (listener_fault e) left
      ]

  -- `sniproxy.New`: the socket is made first, and closed where what is behind it fails.
  unfoldable pub make_sniproxy : World → List (String × ℕ) → SniConfig → World × Reply
  unfolding returned refused
  make_sniproxy w dialers opts =
      elim (Network.listen lib.sys.net_listen lib.sys.linux w.network opts.network opts.addr) [
        | Network.error e ↦ refused w w.network (network_fault e) []
        | Network.ok o n ↦
            elim (Sni.new_listener (find_tag dialers) lib.std.parse_duration lib.compile true
              opts.proxy) [
                | Router.built l ↦ returned w n (a_sniproxy o l)
                | Router.failed e closed ↦
                    refused w n (router_fault e) (if closed then [] else (o ∷ []))
              ]
      ]

  -- `udp.New`
  unfoldable pub make_forwarder : World → UdpForward → World × Reply
  unfolding returned refused
  make_forwarder w opts = elim (Forwarders.new lib.listens_udp lib.std.parse_duration opts) [
    | Forwarders.made s ↦ returned w w.network (a_forwarder s)
    | Forwarders.network_not_supported network ↦ refused w w.network forwarder_fault []
    | Forwarders.listen_failed ↦ refused w w.network forwarder_fault []
  ]

  unfoldable pub make_part : (k : Kind) → World → List (String × ℕ) → Options k → World × Reply
  unfolding make_bridge make_listener make_sniproxy make_forwarder
  make_part bridge w dialers opts = make_bridge w dialers opts
  make_part listener w dialers opts = make_listener w dialers opts
  make_part sniproxy w dialers opts = make_sniproxy w dialers opts
  make_part udp w dialers opts = make_forwarder w opts

  unfoldable pub makers : Makers World DialerConfig Options
  unfolding settle make_part
  makers = record {
    tag = λ o. o.tag;
    new_dialer = λ w opts.
        settle w a_dialer dialer_fault
          (Dialers.new lib.std lib.canonical lib.parse_uri lib.socks5 lib.sys.linux w.network opts);
    new_part = make_part;
  }

-- `NewApplication`
unfoldable pub create_application :
    Libraries
    → (List (String × ℕ) → List (String × ℕ))
    → Config DialerConfig Options
    → Application World
unfolding makers start create
create_application lib ranged conf = create (makers lib) ranged start conf
