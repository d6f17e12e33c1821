-- ===== src/Listener/Runs.antt =====
-- listener/: two portals of one tag, as computed.
use streamf.Common.{ℕ, ◌≡◌, refl, pos, List, [], ◌∷◌, ◌⊎◌, inl, none, false, true, String, Option}
use streamf.Network.{Network, PortalConfig, Opened, pipe_listener, portal_exists}
use streamf.Network as Network
use streamf.Network.Reached.{AllSound, started, Reaches-AllSound}
use streamf.HttpListener.Runs.{plain}
use streamf.Listener.{Listener, Made, made, failed, network_failed, new}
use streamf.Listener.Config.{BasicConfig, ListenerConfig, System}
use streamf.Listener.Portal.{Ends, new_listener-Ends}

abbrev no_sockets : String → String → ℕ ⊎ ℕ
no_sockets network addr = inl 13

abbrev pub pipes_only : System
pipes_only = record {
  linux = true;
  net_listen = no_sockets;
  listen_udp = λ network addr. none;
  udp_addr = λ network addr. (network, addr);
  key_pair = λ cert key. false;
  load_key_pair = λ cert key. false;
  local_addr = λ o. ("pipe", "a");
  configures = true;
}

abbrev pub on_pipe : String → BasicConfig
on_pipe addr = record {
  tag = "";
  network = "pipe";
  addr = addr;
  tls = record { cert_file = ""; key_file = ""; cert = ""; key = ""; alpn = [] };
  udp = record { size = pos 0; timeout = ""; frame = pos 0 };
}

abbrev pub portal_on : String → ListenerConfig
portal_on addr = record {
  options = on_pipe addr;
  mode = "portal";
  dialer = record { tag = ""; close = "" };
  idle_timeout = "";
  router = [];
  portal = record { tag = "p"; timeout = ""; heart = ""; heart_timeout = "" };
}

abbrev no_dialers : String → Option ℕ
no_dialers tag = none

abbrev network_of : Made (Listener ℕ) → Network
network_of (made l n) = n
network_of (failed e n left) = n

abbrev left_of : Made (Listener ℕ) → List Opened
left_of (made l n) = []
left_of (failed e n left) = left

abbrev first : Network
first = network_of (new plain pipes_only no_dialers [] Network.new (portal_on "a"))

first-AllSound : AllSound first
unfolding new streamf.Listener.new_portal_listener streamf.Listener.Config.certificate
    Network.listen Network.listen_pipe streamf.Network.Rendezvous.bind
    streamf.Network.Rendezvous.lookup Network.new streamf.Network.Rendezvous.empty
    Network.new_portal
first-AllSound =
    let (sound, listening) : Ends AllSound
        (new plain pipes_only no_dialers [] Network.new (portal_on "a")) =
      new_listener-Ends plain pipes_only no_dialers [] Network.new (portal_on "a")
        (Reaches-AllSound no_sockets (λ s. none) true Network.new started) in
    sound

-- The second listener is made, but its portal is not.
second_portal :
    left_of (new plain pipes_only no_dialers [] first (portal_on "b")) ≡ pipe_listener 2 ∷ []
unfolding new streamf.Listener.new_portal_listener streamf.Listener.Config.certificate
    Network.listen Network.listen_pipe streamf.Network.Rendezvous.bind
    streamf.Network.Rendezvous.lookup Network.new streamf.Network.Rendezvous.empty
    Network.new_portal
second_portal = refl

new_listener-Ends_example : Ends AllSound (new plain pipes_only no_dialers [] first (portal_on "b"))
new_listener-Ends_example =
    new_listener-Ends plain pipes_only no_dialers [] first (portal_on "b") first-AllSound
