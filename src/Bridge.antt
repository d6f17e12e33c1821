-- ===== src/Bridge.antt =====
-- bridge/: `New` and the constructors of the bridges, which dial a portal elsewhere and forward what
-- it accepts to a dialer of the configuration. The loop of `Serve` is in Accept.
pub mod Address
pub mod Closing
pub mod Runs
use Prim.Native.String.{String, ◌++◌}
use streamf.Common.{
  ℕ, suc, ℤ, pos, ◌*◌, List, [], ◌∷◌, Option, none, some, Bool, true, false, str_eq, if◌then◌else◌,
}
use streamf.Network.{Network, NetworkError, Opened, duration_or}
use streamf.Network as Network
use streamf.Router.{ConnectDialer}
use streamf.HttpListener.Build.{Std}
use streamf.HttpListener.Access.{token}
use streamf.Dialer.Options.{
  Url, SocksConfig, Tls, client_tls, query_network, query_addr, text_or, ping_interval,
  ping_timeout, stream_method, socks_auth,
}
use streamf.Dialer.Build.{Result, ok, error, with_dialer}

-- `config.Bridge`
pub record BridgeConfig : Type 0 where
  pub tag : String
  pub url : String
  pub addr : String
  pub network : String
  pub fast : Bool
  pub allow_insecure : Bool
  pub method : String
  pub access : String
  pub dialer : ConnectDialer
  pub ping : String
  pub ping_timeout : String
  pub socks : SocksConfig

-- What the function does that `reverse.Listen` is given.
pub data Uplink : Type 0 where
  basic : Option Tls → Uplink
  http : String → List String → ℤ → ℤ → Option Tls → Uplink
  websocket : Bool → List String → Option Tls → Uplink
  socks : Option (String × String) → String → Uplink

-- `closer` is the dialer of the network, which the SOCKS case has not. What `Close` closed, as often.
pub record Bridge {ℓ} (D : Type ℓ) : Type ℓ where
  pub tag : String
  pub network : String
  pub addr : String
  pub url : String
  pub uplink : Uplink
  pub dialer : D
  pub close_duration : ℤ
  pub closer : Option Opened
  pub closed : Bool
  pub done_closed : ℕ
  pub closer_closed : ℕ
  pub listener_closed : ℕ

pub data BridgeError : Type 0 where
  url_invalid scheme_not_supported method_not_supported socks_failed : BridgeError
  dialer_not_found : String → BridgeError
  dialer_failed : NetworkError → BridgeError

-- `tag`, where the configuration has none
unfoldable pub bridge_tag : String → Bool → String → String → String → String
bridge_tag kind secure network addr tag =
    if str_eq tag ""
    then kind ++ (network ++ ((if secure then "+tls://" else "://") ++ addr))
    else tag

-- The header of a bridge with an access: its values of `Authorization`.
unfoldable pub bridge_header : (String → String) → String → List String
bridge_header base64 access = if str_eq access "" then [] else ("Bearer " ++ base64 access) ∷ []

module _ {ℓ} {D : Type ℓ} where
  -- `newBridge`
  unfoldable pub new_bridge :
      BridgeConfig → String → String → String → Uplink → D → ℤ → Option Opened → Bridge D
  new_bridge opts tag network addr uplink dialer close closer = record {
    tag = tag;
    network = network;
    addr = addr;
    url = opts.url;
    uplink = uplink;
    dialer = dialer;
    close_duration = close;
    closer = closer;
    closed = false;
    done_closed = 0;
    closer_closed = 0;
    listener_closed = 0;
  }

  -- `Close`, and whether it returns `ErrClosed`.
  unfoldable pub close : Bridge D → Bridge D × Bool
  close b = if b.closed then (b, true) else (
    record b {
      closed = true;
      done_closed = suc b.done_closed;
      closer_closed = elim b.closer [ none ↦ b.closer_closed | some c ↦ suc b.closer_closed ];
      listener_closed = suc b.listener_closed;
    },
    false,
  )

module _ {ℓ} {D : Type ℓ} (std : Std) (linux : Bool) (n : Network) (opts : BridgeConfig) (u : Url)
    (found : D) where
  -- `closeDuration`, a second by default
  abbrev closing : ℤ
  closing = duration_or std.parse_duration (pos 1000000000) opts.dialer.close

  unfoldable pub new_basic_bridge : Bool → Result BridgeError (Bridge D)
  unfolding with_dialer new_bridge
  new_basic_bridge secure =
      let network = query_network "tcp" u opts.network in
      let addr = query_addr u opts.addr in
      with_dialer dialer_failed
        (λ o.
          new_bridge opts (bridge_tag "basic " secure network addr opts.tag) network addr
            (basic (client_tls secure [] u opts.allow_insecure)) found closing (some o))
        (Network.dialer linux n network addr)

  unfoldable pub new_http_bridge : Bool → Result BridgeError (Bridge D)
  unfolding with_dialer new_bridge
  new_http_bridge secure = elim (stream_method std.to_upper opts.method) [
    | none ↦ error method_not_supported
    | some method ↦
        let network = text_or "tcp" opts.network in
        let addr = text_or u.host opts.addr in
        with_dialer dialer_failed
          (λ o.
            new_bridge opts (bridge_tag "http " secure network addr opts.tag) network addr
              (http method (bridge_header std.base64 opts.access)
                (ping_interval std.parse_duration opts.ping)
                (ping_timeout std.parse_duration opts.ping opts.ping_timeout)
                (client_tls secure ("h2" ∷ []) u opts.allow_insecure))
              found closing (some o))
          (Network.dialer linux n network addr)
  ]

  unfoldable pub new_websocket_bridge : Bool → Result BridgeError (Bridge D)
  unfolding with_dialer new_bridge
  new_websocket_bridge secure =
      let network = text_or "tcp" opts.network in
      let addr = text_or u.host opts.addr in
      with_dialer dialer_failed
        (λ o.
          new_bridge opts (bridge_tag "ws " secure network addr opts.tag) network addr
            (websocket opts.fast (bridge_header std.base64 opts.access)
              (client_tls secure [] u opts.allow_insecure))
            found closing (some o))
        (Network.dialer linux n network addr)

  unfoldable pub new_socks_bridge : (String → String → Bool) → Result BridgeError (Bridge D)
  unfolding new_bridge
  new_socks_bridge socks5 =
      let network = query_network "tcp" u opts.network in
      let addr = query_addr u opts.addr in
      if socks5 network addr
      then ok
          (new_bridge opts (bridge_tag "socks " false network addr opts.tag) network addr
            (socks (socks_auth opts.socks) opts.socks.connect) found closing none)
          n
      else error socks_failed

-- `dialers[opts.Dialer.Tag]`, by which each constructor begins.
unfoldable pub find_dialer {ℓ} :
    {D : Type ℓ}
    → (String → Option D)
    → BridgeConfig
    → (D → Result BridgeError (Bridge D))
    → Result BridgeError (Bridge D)
find_dialer dialers opts make = elim (dialers opts.dialer.tag) [
  | none ↦ error (dialer_not_found opts.dialer.tag)
  | some found ↦ make found
]

-- `New`
unfoldable pub new {ℓ} :
    {D : Type ℓ}
    → Std
    → (String → Option Url)
    → (String → String → Bool)
    → Bool
    → (String → Option D)
    → Network
    → BridgeConfig
    → Result BridgeError (Bridge D)
unfolding find_dialer
new std parse_uri socks5 linux dialers n opts = elim (parse_uri opts.url) [
  | none ↦ error url_invalid
  | some u ↦
      if str_eq u.scheme "socks"
      then find_dialer dialers opts (λ d. new_socks_bridge std linux n opts u d socks5)
      else if str_eq u.scheme "http"
      then find_dialer dialers opts (λ d. new_http_bridge std linux n opts u d false)
      else if str_eq u.scheme "https"
      then find_dialer dialers opts (λ d. new_http_bridge std linux n opts u d true)
      else if str_eq u.scheme "ws"
      then find_dialer dialers opts (λ d. new_websocket_bridge std linux n opts u d false)
      else if str_eq u.scheme "wss"
      then find_dialer dialers opts (λ d. new_websocket_bridge std linux n opts u d true)
      else if str_eq u.scheme "basic"
      then find_dialer dialers opts (λ d. new_basic_bridge std linux n opts u d false)
      else if str_eq u.scheme "basic+tls"
      then find_dialer dialers opts (λ d. new_basic_bridge std linux n opts u d true)
      else error scheme_not_supported
]
