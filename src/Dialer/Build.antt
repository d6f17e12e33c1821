-- ===== src/Dialer/Build.antt =====
-- dialer/: `New` and the constructors. Go's library is an argument: `parse_uri` is
-- `url.ParseRequestURI`, and `socks5` says whether `proxy.SOCKS5` accepts a network and an address.
use streamf.Common.{
  ℕ, ℤ, pos, ltz, pos_part, ◌*◌, List, [], ◌∷◌, Option, none, some, Bool, true, false, ◌||◌, String,
  str_eq, if◌then◌else◌,
}
use streamf.Network.{Network, NetworkError, Opened, duration_or}
use streamf.Network as Network
use streamf.HttpListener.Build.{Std}
use streamf.Dialer.Options.{
  Url, SocksConfig, Tls, client_tls, query_network, query_addr, port_addr, text_or, ping_interval,
  ping_timeout, stream_method, socks_auth,
}
use streamf.Dialer.Headers.{dialer_header}

-- `config.UDP`
pub record UdpConfig : Type 0 where
  pub size : ℤ
  pub timeout : String
  pub frame : ℤ

-- `config.Dialer`
pub record DialerConfig : Type 0 where
  pub tag : String
  pub timeout : String
  pub url : String
  pub addr : String
  pub network : String
  pub fast : Bool
  pub allow_insecure : Bool
  pub retry : ℤ
  pub method : String
  pub access : String
  pub ping : String
  pub ping_timeout : String
  pub header : List (String × List String)
  pub udp : UdpConfig
  pub socks : SocksConfig

pub record RemoteAddr : Type 0 where
  pub dialer : String
  pub network : String
  pub addr : String
  pub secure : Bool
  pub url : String

pub record BasicDialer : Type 0 where
  pub remote_addr : RemoteAddr
  pub timeout : ℤ
  pub retry : ℤ
  pub raw_dialer : Opened
  pub tls : Option Tls

pub record HttpDialer : Type 0 where
  pub remote_addr : RemoteAddr
  pub timeout : ℤ
  pub retry : ℤ
  pub ping : ℤ
  pub ping_timeout : ℤ
  pub method : String
  pub header : List (String × String)
  pub raw_dialer : Opened
  pub tls : Option Tls

pub record WebsocketDialer : Type 0 where
  pub remote_addr : RemoteAddr
  pub timeout : ℤ
  pub retry : ℤ
  pub fast : Bool
  pub header : List (String × String)
  pub raw_dialer : Opened
  pub tls : Option Tls

pub record UdpDialer : Type 0 where
  pub remote_addr : RemoteAddr
  pub timeout : ℤ
  pub size : ℕ
  pub frame : ℕ

pub record SocksDialer : Type 0 where
  pub network : String
  pub addr : String
  pub auth : Option (String × String)
  pub remote_addr : RemoteAddr
  pub timeout : ℤ
  pub retry : ℤ

pub data Dialer : Type 0 where
  basic : BasicDialer → Dialer
  http : HttpDialer → Dialer
  websocket : WebsocketDialer → Dialer
  udp : UdpDialer → Dialer
  socks : SocksDialer → Dialer

pub data DialerError : Type 0 where
  tag_empty url_invalid scheme_not_supported method_not_supported socks_failed : DialerError
  dialer_failed : NetworkError → DialerError

-- What a constructor returns, with the network behind it.
pub data Result {ℓ κ} (E : Type ℓ) (A : Type κ) : Type (ℓ ⊔ κ) where
  ok : A → Network → Result E A
  error : E → Result E A

-- `rawDialer, e := nk.Dialer(network, addr, cfg)`
unfoldable pub with_dialer {ℓ κ} :
    {E : Type ℓ} {A : Type κ}
    → (NetworkError → E)
    → (Opened → A)
    → Network.Reply Opened
    → Result E A
with_dialer fail make (Network.ok o n) = ok (make o) n
with_dialer fail make (Network.error e) = error (fail e)

module _ (std : Std) (canonical : String → String) (linux : Bool) (n : Network)
    (opts : DialerConfig) (u : Url) where
  -- `timeout`, half a second by default
  abbrev connect_timeout : ℤ
  connect_timeout = duration_or std.parse_duration (pos (1000000 * 500)) opts.timeout

  abbrev remote : String → String → Bool → RemoteAddr
  remote network addr secure = record {
    dialer = opts.tag;
    network = network;
    addr = addr;
    secure = secure;
    url = opts.url;
  }

  unfoldable pub new_basic_dialer : Bool → Result DialerError Dialer
  unfolding with_dialer
  new_basic_dialer secure =
      let network = query_network "tcp" u opts.network in
      let addr = query_addr u opts.addr in
      with_dialer dialer_failed
        (λ o. basic (record {
          remote_addr = remote network addr secure;
          timeout = connect_timeout;
          retry = opts.retry;
          raw_dialer = o;
          tls = client_tls secure [] u opts.allow_insecure;
        }))
        (Network.dialer linux n network addr)

  unfoldable pub new_http_dialer : Bool → Result DialerError Dialer
  unfolding with_dialer
  new_http_dialer secure = elim (stream_method std.to_upper opts.method) [
    | none ↦ error method_not_supported
    | some method ↦
        let network = text_or "tcp" opts.network in
        let addr = port_addr secure u opts.addr in
        with_dialer dialer_failed
          (λ o. http (record {
            remote_addr = remote network addr secure;
            timeout = connect_timeout;
            retry = opts.retry;
            ping = ping_interval std.parse_duration opts.ping;
            ping_timeout = ping_timeout std.parse_duration opts.ping opts.ping_timeout;
            method = method;
            header = dialer_header canonical std.base64 opts.header opts.access;
            raw_dialer = o;
            tls = client_tls secure ("h2" ∷ []) u opts.allow_insecure;
          }))
          (Network.dialer linux n network addr)
  ]

  -- The TLS configuration is that of the websocket library, not of the dialer below it.
  unfoldable pub new_websocket_dialer : Bool → Result DialerError Dialer
  unfolding with_dialer
  new_websocket_dialer secure =
      let network = text_or "tcp" opts.network in
      let addr = port_addr secure u opts.addr in
      with_dialer dialer_failed
        (λ o. websocket (record {
          remote_addr = remote network addr secure;
          timeout = connect_timeout;
          retry = opts.retry;
          fast = opts.fast;
          header = dialer_header canonical std.base64 opts.header opts.access;
          raw_dialer = o;
          tls = client_tls secure [] u opts.allow_insecure;
        }))
        (Network.dialer linux n network addr)

  unfoldable pub new_udp_dialer : Result DialerError Dialer
  new_udp_dialer =
      ok
        (udp (record {
          remote_addr = remote (query_network "udp" u opts.network) (query_addr u opts.addr) false;
          timeout = duration_or std.parse_duration (pos (1000000000 * 60)) opts.udp.timeout;
          size = if ltz opts.udp.size 128 then 1024 * 2 else pos_part opts.udp.size;
          frame = if ltz opts.udp.frame 1 then 16 else pos_part opts.udp.frame;
        }))
        n

  unfoldable pub new_socks_dialer : (String → String → Bool) → Result DialerError Dialer
  new_socks_dialer socks5 =
      let network = query_network "tcp" u opts.network in
      let addr = query_addr u opts.addr in
      if socks5 network addr
      then ok
          (socks (record {
            network = network;
            addr = addr;
            auth = socks_auth opts.socks;
            remote_addr = remote "tcp" opts.socks.connect false;
            timeout = connect_timeout;
            retry = opts.retry;
          }))
          n
      else error socks_failed

-- `New`
unfoldable pub new :
    Std
    → (String → String)
    → (String → Option Url)
    → (String → String → Bool)
    → Bool
    → Network
    → DialerConfig
    → Result DialerError Dialer
new std canonical parse_uri socks5 linux n opts =
    if str_eq opts.tag "" then error tag_empty else elim (parse_uri opts.url) [
      | none ↦ error url_invalid
      | some u ↦
          if str_eq u.scheme "socks"
          then new_socks_dialer std canonical linux n opts u socks5
          else if str_eq u.scheme "ws"
          then new_websocket_dialer std canonical linux n opts u false
          else if str_eq u.scheme "wss"
          then new_websocket_dialer std canonical linux n opts u true
          else if str_eq u.scheme "http"
          then new_http_dialer std canonical linux n opts u false
          else if str_eq u.scheme "https"
          then new_http_dialer std canonical linux n opts u true
          else if str_eq u.scheme "basic"
          then (if str_eq opts.network "udp"
                || (str_eq opts.network "udp4" || str_eq opts.network "udp6")
              then new_udp_dialer std canonical linux n opts u
              else new_basic_dialer std canonical linux n opts u false)
          else if str_eq u.scheme "basic+tls"
          then new_basic_dialer std canonical linux n opts u true
          else error scheme_not_supported
    ]
