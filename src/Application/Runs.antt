-- ===== src/Application/Runs.antt =====
-- forwarding/application.go: `NewApplication`, as it runs.
use mathlib.Core.List.Perm as Perm
use streamf.Common.{ℕ, suc, pos, ◌≡◌, refl, [], ◌∷◌, Option, none, some, false, String}
use streamf.Network.{pipe_listener}
use streamf.HttpListener.Runs.{plain}
use streamf.Listener.Runs.{pipes_only, portal_on}
use streamf.Dialer.Options.{Url}
use streamf.Dialer.Build.{DialerConfig}
use streamf.Application.Wiring.{Libraries, Options, create_application}
use streamf.Application.Order.{IsOrdered, create_application-IsOrdered}
use streamf.Application.{
  bridge, listener, dialer_part, part, Reply, ok, err, new_failed, Config, Makers, create,
}
use streamf.Application.Cleanup.{Ends, create-Ends}

-- Options are a tag and whether `New` fails; the parts are numbered.
abbrev reply : Option ℕ → ℕ → Reply
reply none n = ok n
reply (some e) n = err e

abbrev numbered : Makers ℕ (String × Option ℕ) (λ k. String × Option ℕ)
numbered = record {
  tag = λ o. o.0;
  new_dialer = λ n o. (suc n, reply o.1 n);
  new_part = λ k n ds o. (suc n, reply o.1 n);
}

-- The second listener fails.
abbrev failing : Config (String × Option ℕ) (λ k. String × Option ℕ)
failing = record {
  dialers = ("a", none) ∷ ("b", none) ∷ [];
  bridges = ("", none) ∷ [];
  listeners = ("", none) ∷ ("", some 7) ∷ ("", none) ∷ [];
  sniproxys = ("", none) ∷ [];
  udps = [];
}

closed_again :
    (create numbered (λ ds. ds) 0 failing).closed
    ≡ dialer_part 0 ∷ dialer_part 1 ∷ part bridge 2 ∷ part listener 3 ∷ []
unfolding create streamf.Application.clean_up streamf.Application.new_application
    streamf.Application.close_all
closed_again = refl

create-Ends_example : Ends numbered failing (create numbered (λ ds. ds) 0 failing)
create-Ends_example = create-Ends numbered (λ ds. ds) (λ ds. Perm.refl ds) 0 failing

-- A dialer of a pipe, and two portals of one tag on pipes.
abbrev pipe_dialer : DialerConfig
pipe_dialer = record {
  tag = "d";
  timeout = "";
  url = "";
  addr = "b";
  network = "pipe";
  fast = false;
  allow_insecure = false;
  retry = pos 0;
  method = "";
  access = "";
  ping = "";
  ping_timeout = "";
  header = [];
  udp = record { size = pos 0; timeout = ""; frame = pos 0 };
  socks = record { user = ""; password = ""; connect = "" };
}

abbrev basic_url : Url
basic_url = record {
  scheme = "basic";
  host = "";
  hostname = "";
  port = "";
  query_network = "";
  query_addr = "";
}

abbrev libraries : Libraries
libraries = record {
  std = plain;
  sys = pipes_only;
  canonical = λ s. s;
  parse_uri = λ s. some basic_url;
  socks5 = λ network addr. false;
  compile = λ s. none;
  listens_udp = λ network addr. false;
  api = [];
}

abbrev two_portals : Config DialerConfig Options
two_portals = record {
  dialers = pipe_dialer ∷ [];
  bridges = [];
  listeners = portal_on "a" ∷ portal_on "b" ∷ [];
  sniproxys = [];
  udps = [];
}

leaves_second :
    (create_application libraries (λ ds. ds) two_portals).built.state.left ≡ pipe_listener 3 ∷ []
unfolding create_application streamf.Application.new_application streamf.Dialer.Build.new
    streamf.Dialer.Build.new_basic_dialer streamf.Network.dialer
    streamf.Dialer.Options.query_network streamf.Listener.new streamf.Listener.new_portal_listener
    streamf.Listener.Config.certificate streamf.Network.listen streamf.Network.listen_pipe
    streamf.Network.Rendezvous.bind streamf.Network.Rendezvous.lookup
    streamf.Network.Rendezvous.wait streamf.Network.new streamf.Network.Rendezvous.empty
    streamf.Network.new_portal
leaves_second = refl

create_application-IsOrdered_example :
    IsOrdered (create_application libraries (λ ds. ds) two_portals).built.state.network
create_application-IsOrdered_example = create_application-IsOrdered libraries (λ ds. ds) two_portals
