-- ===== src/Forward/Runs.antt =====
-- internal/udp/udp.go: the forwarder at values it computes.
use streamf.Common.{
  ℕ, ◌*◌, ◌≡◌, refl, List, [], ◌∷◌, Option, none, some, true, false, String, arith, replicate, ltb,
  ◌⊎◌, ℤ, pos, Bool,
}
use streamf.Forward.{
  RemoteConn, Udp, lookup, find, Answers, serve, Event, read, inserted, closing, run, no_clients,
}
use streamf.Forward.Settings.{UdpForward, Settings, made, is_udp, default_network, new}
use streamf.Forward.Sockets.{no_clients-IsSound}
use streamf.Forward.Served.{run-IsSound, run-single}
use streamf.Forward.Stale.{IsStale, run-IsStale}
use streamf.Forward.Idle.{expires, expires_idle, tick, traffic}

abbrev fine : Answers
fine = record { resolves = true; dials = true; writes = true }

-- One client whose socket fails at once and is closed before it is put into the map.
abbrev early_close : List Event
early_close = read "a" fine ∷ closing 0 ∷ inserted ∷ []

abbrev two_clients : List Event
two_clients = read "a" fine ∷ inserted ∷ read "b" fine ∷ inserted ∷ []

two_clients_live :
    (run no_clients two_clients).live
    ≡ record { id = 1; key = "b" } ∷ record { id = 0; key = "a" } ∷ []
unfolding run no_clients streamf.Forward.step streamf.Forward.insert serve lookup
    streamf.Forward.new_remote_conn
two_clients_live = refl

two_clients_found : find 1 (run no_clients two_clients).live ≡ some (record { id = 1; key = "b" })
unfolding run no_clients find streamf.Forward.step streamf.Forward.insert serve lookup
    streamf.Forward.new_remote_conn
two_clients_found = refl

abbrev one : ℕ
one = 1

run-single_example :
    ((lookup (run no_clients two_clients).keys "b" ≡ some 1)
      ⊎ ((run no_clients two_clients).pending ≡ some (record { id = 1; key = "b" })))
    × (one ≡ one)
run-single_example =
    run-single two_clients 1 1 (record { id = 1; key = "b" }) (record { id = 1; key = "b" })
      two_clients_found two_clients_found refl

early_close-IsStale : IsStale (run no_clients early_close) "a" 0
unfolding run no_clients find lookup streamf.Forward.step streamf.Forward.insert
    streamf.Forward.close serve streamf.Forward.new_remote_conn streamf.Forward.remove
early_close-IsStale = record { entry = refl; dead = refl; old = omega arith }

run-IsStale_example :
    IsStale (run (run no_clients early_close) (read "b" fine ∷ inserted ∷ [])) "a" 0
    × ((serve (run (run no_clients early_close) (read "b" fine ∷ inserted ∷ [])) "a" fine).0
        ≡ false)
run-IsStale_example =
    run-IsStale (run no_clients early_close) "a" 0 (read "b" fine ∷ inserted ∷ []) fine
      (run-IsSound no_clients early_close no_clients-IsSound) early_close-IsStale

expires_idle_example :
    expires (180 * 1000000000) (traffic ∷ replicate 1800 tick) ≡ ltb (10 * 180) 1800
expires_idle_example = expires_idle 180 1800 (omega arith)

-- A configuration without `toNetwork`.
abbrev plain : UdpForward
plain = record {
  network = "udp4";
  listen = ":53";
  to = "8.8.8.8:53";
  to_network = "";
  size = pos 0;
  timeout = "";
}

abbrev plain_settings : Settings
plain_settings = record {
  network = "udp4";
  to_network = "";
  timeout = pos 180000000000;
  size = 2048;
}

abbrev anywhere : String → String → Bool
anywhere network address = true

abbrev no_durations : String → Option ℤ
no_durations text = none

-- `net.DialUDP` takes the UDP networks only.
abbrev dial_udp : String → Bool
dial_udp network = is_udp network

plain_made : new anywhere no_durations plain ≡ made plain_settings
unfolding new is_udp default_network
plain_made = refl

dial_udp_empty : dial_udp "" ≡ false
unfolding is_udp
dial_udp_empty = refl
