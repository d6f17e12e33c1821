-- ===== src/Dialer/Options.antt =====
-- The settings that the constructors of dialer/ and bridge/ read the same way.
use Prim.Native.String.{String, ◌++◌}
use streamf.Common.{
  ℤ, pos, ltz, ◌*◌, List, Option, none, some, Bool, ◌||◌, not, str_eq, if◌then◌else◌,
}

-- What `url.ParseRequestURI` finds, with the first values of two keys of the query.
pub record Url : Type 0 where
  pub scheme : String
  pub host : String
  pub hostname : String
  pub port : String
  pub query_network : String
  pub query_addr : String

-- `config.Socks`
pub record SocksConfig : Type 0 where
  pub user : String
  pub password : String
  pub connect : String

-- `tls.Config`
pub record Tls : Type 0 where
  pub next_protos : List String
  pub server_name : String
  pub insecure : Bool

unfoldable pub client_tls : Bool → List String → Url → Bool → Option Tls
client_tls secure protos u insecure =
    if secure
    then some (record { next_protos = protos; server_name = u.hostname; insecure = insecure })
    else none

-- A setting, or its default where it is empty.
unfoldable pub text_or : String → String → String
text_or default text = if str_eq text "" then default else text

-- `network` of the basic, the UDP and the SOCKS case: the setting, else the query.
unfoldable pub query_network : String → Url → String → String
unfolding text_or
query_network default u network =
    if str_eq network "" then text_or default u.query_network else network

unfoldable pub query_addr : Url → String → String
unfolding text_or
query_addr u addr = if str_eq addr "" then text_or u.host u.query_addr else addr

-- `addr` of the HTTP and the websocket dialer.
unfoldable pub port_addr : Bool → Url → String → String
port_addr secure u addr =
    if str_eq addr ""
    then (if str_eq u.port "" then u.host ++ (if secure then ":443" else ":80") else u.host)
    else addr

-- `ping`: less than a second is none.
unfoldable pub ping_of : (String → Option ℤ) → ℤ → String → ℤ
ping_of parse_duration default text = elim (parse_duration text) [
  | none ↦ default
  | some d ↦ if ltz d 1000000000 then pos 0 else d
]

unfoldable pub ping_interval : (String → Option ℤ) → String → ℤ
unfolding ping_of
ping_interval parse_duration ping =
    let default : ℤ = pos (1000000000 * 40) in
    if str_eq ping "" then default else ping_of parse_duration default ping

-- `pingTimeout`, where `time.ParseDuration` is called on `opts.Ping`.
unfoldable pub ping_timeout : (String → Option ℤ) → String → String → ℤ
unfolding ping_of
ping_timeout parse_duration ping timeout =
    let default : ℤ = pos (1000000000 * 15) in
    if str_eq timeout "" then default else ping_of parse_duration default ping

-- The switch over `strings.ToUpper(opts.Method)`; `none` is `errHttpMethod`.
unfoldable pub stream_method : (String → String) → String → Option String
stream_method to_upper text =
    let method = to_upper text in
    if str_eq method ""
    then some "POST"
    else if str_eq method "POST" || (str_eq method "PUT" || str_eq method "PATCH")
    then some method
    else none

-- `auth` of the SOCKS proxy.
unfoldable pub socks_auth : SocksConfig → Option (String × String)
socks_auth s =
    if not (str_eq s.user "") || not (str_eq s.password "") then some (s.user, s.password) else none
