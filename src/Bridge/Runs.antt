-- ===== src/Bridge/Runs.antt =====
-- bridge/: a dialer and a bridge of one URL, as computed.
use streamf.Common.{ℕ, ◌≡◌, refl, pos, [], ◌∷◌, ◌⊎◌, ◌↔◌, some, false, true, str_eq}
use streamf.Network.{Network, raw_dialer}
use streamf.Network as Network
use streamf.HttpListener.Runs.{plain}
use streamf.Dialer.Options.{Url, Tls}
use streamf.Dialer.Build.{DialerConfig, Dialer, http, ok, new_http_dialer}
use streamf.Bridge.{BridgeConfig, Bridge, Uplink, new_http_bridge}
use streamf.Bridge.Address.{https, raw_of, Paired-addr}

abbrev no_port : Url
no_port = record {
  scheme = "https";
  host = "example.com";
  hostname = "example.com";
  port = "";
  query_network = "";
  query_addr = "";
}

abbrev dialing : DialerConfig
dialing = record {
  tag = "d";
  timeout = "";
  url = "https://example.com/p";
  addr = "";
  network = "";
  fast = false;
  allow_insecure = false;
  retry = pos 0;
  method = "";
  access = "";
  ping = "";
  ping_timeout = "";
  header = [];
  udp = record { size = pos 0; timeout = ""; frame = pos 0 };
  socks = record { user = ""; password = ""; connect = "" };
}

abbrev bridging : BridgeConfig
bridging = record {
  tag = "";
  url = "https://example.com/p";
  addr = "";
  network = "";
  fast = false;
  allow_insecure = false;
  method = "";
  access = "";
  dialer = record { tag = "d"; close = "" };
  ping = "";
  ping_timeout = "";
  socks = record { user = ""; password = ""; connect = "" };
}

abbrev client : Tls
client = record { next_protos = "h2" ∷ []; server_name = "example.com"; insecure = false }

-- With the port of https.
abbrev its_dialer : Dialer
its_dialer = http (record {
  remote_addr = record {
    dialer = "d";
    network = "tcp";
    addr = "example.com:443";
    secure = true;
    url = "https://example.com/p";
  };
  timeout = pos 500000000;
  retry = pos 0;
  ping = pos 40000000000;
  ping_timeout = pos 15000000000;
  method = "POST";
  header = [];
  raw_dialer = raw_dialer "tcp" "example.com:443";
  tls = some client;
})

-- Without one.
abbrev its_bridge : Bridge ℕ
its_bridge = record {
  tag = "http tcp+tls://example.com";
  network = "tcp";
  addr = "example.com";
  url = "https://example.com/p";
  uplink = Uplink.http "POST" [] (pos 40000000000) (pos 15000000000) (some client);
  dialer = 7;
  close_duration = pos 1000000000;
  closer = some (raw_dialer "tcp" "example.com");
  closed = false;
  done_closed = 0;
  closer_closed = 0;
  listener_closed = 0;
}

dialed_lem :
    new_http_dialer plain (λ s. s) true Network.new dialing no_port true ≡ ok its_dialer Network.new
unfolding new_http_dialer streamf.Dialer.Options.stream_method Network.dialer
    streamf.Dialer.Options.text_or streamf.Dialer.Options.port_addr Network.duration_or
    streamf.Dialer.Options.ping_interval streamf.Dialer.Options.ping_timeout
    streamf.Dialer.Headers.dialer_header streamf.Dialer.Options.client_tls
dialed_lem = refl

bridged_lem :
    new_http_bridge plain true Network.new bridging no_port 7 true ≡ ok its_bridge Network.new
unfolding new_http_bridge streamf.Dialer.Options.stream_method Network.dialer
    streamf.Dialer.Options.text_or streamf.Bridge.bridge_tag streamf.Bridge.bridge_header
    streamf.Dialer.Options.ping_interval streamf.Dialer.Options.ping_timeout
    streamf.Dialer.Options.client_tls Network.duration_or
bridged_lem = refl

Paired-addr_example :
    ((its_bridge.closer ≡ raw_of its_dialer) × (Network.new ≡ Network.new))
    ↔ ((str_eq dialing.addr "" ≡ false) ⊎ (str_eq no_port.port "" ≡ false))
Paired-addr_example =
    Paired-addr plain (λ s. s) true true Network.new dialing bridging no_port 7 its_dialer
      its_bridge Network.new Network.new refl refl (https dialed_lem bridged_lem)
