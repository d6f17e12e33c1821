-- ===== src/Listener/Config.antt =====
-- config/listener.go and internal/network/udp.go: the settings of a listener, its certificate and the
-- UDP listener; what the system does is an argument.
use Prim.Native.String.{String}
use streamf.Common.{
  ℕ, ℤ, pos, ltz, pos_part, ◌*◌, List, [], ◌∷◌, Option, none, some, Bool, not, ◌&&◌, ◌⊎◌, str_eq,
  if◌then◌else◌,
}
use streamf.Network.{Opened, PortalConfig, duration_or}
use streamf.Router.{ConnectDialer}
use streamf.HttpListener.Build.{Std, RouterConfig}
use streamf.Dialer.Build.{UdpConfig}

-- `config.TLS`
pub record TlsConfig : Type 0 where
  pub cert_file : String
  pub key_file : String
  pub cert : String
  pub key : String
  pub alpn : List String

-- `config.BasicListener`
pub record BasicConfig : Type 0 where
  pub tag : String
  pub network : String
  pub addr : String
  pub tls : TlsConfig
  pub udp : UdpConfig

-- `config.Listener`
pub record ListenerConfig : Type 0 where
  pub options : BasicConfig
  pub mode : String
  pub dialer : ConnectDialer
  pub idle_timeout : String
  pub router : List RouterConfig
  pub portal : PortalConfig

-- What the system does: `net.Listen`, the UDP sockets, the two ways to load a certificate, the
-- network and the address that a listener reports, and whether `http2.ConfigureServer` succeeds.
pub record System : Type 0 where
  pub linux : Bool
  pub net_listen : String → String → ℕ ⊎ ℕ
  pub listen_udp : String → String → Option ℕ
  pub udp_addr : String → String → String × String
  pub key_pair : String → String → Bool
  pub load_key_pair : String → String → Bool
  pub local_addr : Opened → String × String
  pub configures : Bool

-- `TLS.Certificate`: the protocols, where there is a certificate.
pub data Certificate : Type 0 where
  plain : Certificate
  secured : List String → Certificate
  not_loaded : Certificate

unfoldable pub alpn_of : List String → List String
alpn_of [] = "h2" ∷ "http/1.1" ∷ []
alpn_of (p ∷ ps) = p ∷ ps

unfoldable pub certificate : System → TlsConfig → Certificate
unfolding alpn_of
certificate sys t =
    if not (str_eq t.cert "") && not (str_eq t.key "")
    then (if sys.key_pair t.cert t.key then secured (alpn_of t.alpn) else not_loaded)
    else if not (str_eq t.cert_file "") && not (str_eq t.key_file "")
    then (if sys.load_key_pair t.cert_file t.key_file then secured (alpn_of t.alpn) else not_loaded)
    else plain

-- `udpListener`, of internal/network/udp.go.
pub record UdpListener : Type 0 where
  pub socket : ℕ
  pub size : ℕ
  pub frame : ℕ
  pub timeout : ℤ

-- `newUdpListener`; `listen_udp` also resolves the address.
unfoldable pub new_udp_listener : Std → System → String → String → UdpConfig → Option UdpListener
new_udp_listener std sys network addr opts = elim (sys.listen_udp network addr) [
  | none ↦ none
  | some s ↦ some (record {
    socket = s;
    size = if ltz opts.size 128 then 1024 * 2 else pos_part opts.size;
    frame = if ltz opts.frame 1 then 16 else pos_part opts.frame;
    timeout = duration_or std.parse_duration (pos (1000000000 * 60)) opts.timeout;
  })
]
