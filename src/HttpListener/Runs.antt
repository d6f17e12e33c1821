-- ===== src/HttpListener/Runs.antt =====
-- listener/http.go: a listener with a router for each kind, as computed.
use streamf.Common.{
  ℕ, ◌≡◌, refl, pos, List, [], ◌∷◌, Option, none, some, true, false, String, str_eq, if◌then◌else◌,
  get_elem?, ◌↔◌, ◌⊎◌, inl,
}
use streamf.HttpMux.{Method, method_post, serve_http}
use streamf.HttpMux.Latest.{latest, answer}
use streamf.Network
use streamf.Network.{Network}
use streamf.Network.Reached.{AllSound, started, Reaches-AllSound}
use streamf.HttpListener.Access.{Request}
use streamf.HttpListener.{
  HttpHandler, http2, basic_auth, HttpListener, World, Offer, Outcome, bridged, body,
  access_not_matched, serve,
}
use streamf.HttpListener.Build.{
  Std, RouterConfig, ApiHandler, Built, built, failed, dialer_not_found, idle, new,
}
use streamf.HttpListener.Rules.{router_rules, rules}
use streamf.HttpListener.Routed.{new-answer}
use streamf.HttpListener.Guards.{granted}
use streamf.HttpListener.Credentials.{Passes}
use streamf.HttpListener.Served.{new-granted}
use streamf.HttpListener.Portals.{portal_ids, Opens}
use streamf.HttpListener.Closing.{Ends, new-Ends}

abbrev pub plain : Std
plain = record {
  to_upper = λ s. s;
  base64 = λ s. s;
  join = λ a b. b;
  ends_in_slash = λ s. str_eq s "/";
  add_slash = λ s. "/";
  parse_duration = λ s. none;
}

abbrev one_dialer : String → Option ℕ
one_dialer tag = if str_eq tag "tcp" then some 7 else none

abbrev exact : List String → String → Option String
exact [] path = none
exact (p ∷ ps) path = if str_eq p path then some p else exact ps path

-- A stream to the dialer, behind a token and a user.
abbrev private_stream : RouterConfig
private_stream = record {
  method = "POST";
  pattern = "/private";
  dialer = record { tag = "tcp"; close = "" };
  access = "secret";
  auth = record { username = "kim"; password = "k" } ∷ [];
  portal = record { tag = ""; timeout = ""; heart = ""; heart_timeout = "" };
  fast = false;
  fs = "";
}

abbrev portal_stream : RouterConfig
portal_stream = record private_stream {
  pattern = "/portal";
  portal = record { tag = "p"; timeout = ""; heart = ""; heart_timeout = "" };
}

abbrev missing_stream : RouterConfig
missing_stream = record private_stream { dialer = record { tag = "gone"; close = "" } }

abbrev kim : Request
kim = record {
  method = "POST";
  path = "/private";
  authorization = "Bearer secret" ∷ [];
  access_token = [];
  basic = some ("kim", "k");
}

abbrev world : World ℕ
world = record { connects = λ d. true; upgrades = true; offer = Offer.accepted }

abbrev routers : List RouterConfig
routers = portal_stream ∷ private_stream ∷ []

abbrev made : Built ℕ
made = new plain one_dialer true false true [] routers "" Network.new

abbrev listener_of : Built ℕ → HttpListener ℕ
listener_of (built n l) = l
listener_of (failed e n l) = l

abbrev network_of : Built ℕ → Network
network_of (built n l) = n
network_of (failed e n l) = n

made_lem : made ≡ built (network_of made) (listener_of made)
unfolding new streamf.HttpListener.Build.add_routers streamf.HttpListener.Build.add_router
    streamf.HttpListener.Build.kind_of streamf.HttpListener.Build.route_stream
    streamf.HttpListener.Build.create_portal Network.new_portal streamf.Network.Rendezvous.bind
    streamf.Network.Rendezvous.lookup Network.new streamf.Network.Rendezvous.empty
    streamf.HttpListener.Build.create_dialing streamf.HttpListener.Build.configure
made_lem = refl

abbrev tunnel : HttpHandler ℕ
tunnel = basic_auth private_stream.auth (http2 "Bearer secret" 7 (pos 1000000000))

routed : serve_http exact (listener_of made).mux "POST" "/private" ≡ some tunnel
unfolding serve_http new streamf.HttpListener.Build.add_routers
    streamf.HttpListener.Build.add_router streamf.HttpListener.Build.kind_of
    streamf.HttpListener.Build.route_stream streamf.HttpListener.Build.create_portal
    Network.new_portal streamf.Network.Rendezvous.bind streamf.Network.Rendezvous.lookup Network.new
    streamf.Network.Rendezvous.empty streamf.HttpListener.Build.create_dialing
    streamf.HttpListener.Build.configure streamf.HttpMux.handle streamf.HttpMux.find_handler
    streamf.HttpListener.opened streamf.HttpMux.new_mux streamf.HttpMux.dispatch
    streamf.HttpListener.Access.token streamf.HttpListener.with_basic_auth
    streamf.HttpMux.update_handler streamf.Network.duration_or
routed = refl

bridged_kim : serve world kim tunnel ≡ bridged body 7 (pos 1000000000)
unfolding serve streamf.HttpListener.Access.authorized
bridged_kim = refl

picked : exact (listener_of made).mux.handled "/private" ≡ some "/private"
unfolding new streamf.HttpListener.Build.add_routers streamf.HttpListener.Build.add_router
    streamf.HttpListener.Build.kind_of streamf.HttpListener.Build.route_stream
    streamf.HttpListener.Build.create_portal Network.new_portal streamf.Network.Rendezvous.bind
    streamf.Network.Rendezvous.lookup Network.new streamf.Network.Rendezvous.empty
    streamf.HttpListener.Build.create_dialing streamf.HttpListener.Build.configure
    streamf.HttpMux.handle streamf.HttpMux.find_handler streamf.HttpListener.opened
    streamf.HttpMux.new_mux
picked = refl

new-answer_example :
    serve_http exact (listener_of made).mux "POST" "/private"
    ≡ answer (rules plain one_dialer [] routers) "POST" "/private"
new-answer_example =
    new-answer plain one_dialer exact true false true [] routers "" Network.new (network_of made)
      (listener_of made) "POST" "/private" "/private" made_lem picked

new-granted_example :
    (p : String) × (m : Method) × (i : ℕ) × (r : RouterConfig) × (exact
        (listener_of made).mux.handled
        "/private"
      ≡ some p)
    × (get_elem? routers i ≡ some r)
    × (latest (router_rules plain one_dialer [] r) m p ≡ some tunnel)
    × ((granted (serve world kim tunnel) ≡ true) ↔ Passes plain kim r)
new-granted_example =
    new-granted plain one_dialer exact true false true [] routers "" Network.new (network_of made)
      (listener_of made) world kim tunnel made_lem routed

no_sockets : String → String → ℕ ⊎ ℕ
no_sockets network address = inl 13

new-Ends_example :
    Ends AllSound
      (new plain one_dialer true false true [] (portal_stream ∷ missing_stream ∷ []) "" Network.new)
    × Opens (portal_ids Network.new.portal.bound) (
        new plain one_dialer true false true []
          (portal_stream ∷ missing_stream ∷ [])
          ""
          Network.new)
new-Ends_example =
    new-Ends plain one_dialer true false true [] (portal_stream ∷ missing_stream ∷ []) ""
      Network.new (Reaches-AllSound no_sockets (λ s. none) true Network.new started)
