-- ===== src/Application/Order.antt =====
-- forwarding/application.go: the network behind `NewApplication`.
use streamf.Common.{ℕ, ◌≡◌, refl, List, Bool, String}
use streamf.Network.{
  Network, NetworkError, Opened, in_use, portal_exists, unsupported, not_unix, listen_failed,
}
use streamf.Network as Network
use streamf.Network.Reached.{dialer-Step, AllSound, Step-AllSound, Binds-Step, new-AllSound}
use streamf.Network.Binding.{Binds}
use streamf.Network.Timely.{
  IsTimely, HasNoListener, HasNoListener-IsTimely, Binds-IsTimely, dialer-HasNoListener,
}
use streamf.Dialer.Build.{DialerConfig}
use streamf.Dialer.Kept.{Kept}
use streamf.Dialer.Kept as DialerKept
use streamf.Bridge.Closing as BridgeKept
use streamf.Application.{Built, Config}
use streamf.Application.Wiring.{
  Libraries, Options, start, a_dialer, a_bridge, dialer_fault, bridge_fault, find_tag, make_bridge,
  make_part, makers, create_application,
}
use streamf.Application.Kept.{Reached, Reached-any, new_application-Reached}
use streamf.Application.Gives.{
  Nets, settle-Gives, make_listener-Gives, make_sniproxy-Gives, make_forwarder-Gives,
}

-- Before a listener there is none; then no dialer waits for one that there is.
abbrev pub IsBefore : Network → Type 0
IsBefore n = AllSound n × HasNoListener n

abbrev pub IsOrdered : Network → Type 0
IsOrdered n = AllSound n × IsTimely n

IsBefore-IsOrdered : (n : Network) → IsBefore n → IsOrdered n
IsBefore-IsOrdered n (s, h) = (s, HasNoListener-IsTimely n h)

Binds-IsOrdered : (n m : Network) → Binds n m → IsOrdered n → IsOrdered m
Binds-IsOrdered n m b (s, t) = (Step-AllSound n m (Binds-Step n m b) s, Binds-IsTimely n m b t)

dialer-IsBefore :
    (linux : Bool) (n : Network)
    → IsBefore n
    → (network a : String) (o : Opened) (m : Network)
    → Network.dialer linux n network a ≡ Network.ok o m
    → IsBefore m
dialer-IsBefore linux n (s, h) network a o m e = (
  Step-AllSound n m (dialer-Step linux n m network a o e) s,
  dialer-HasNoListener linux n m network a o e h,
)

module _ (lib : Libraries) (ranged : List (String × ℕ) → List (String × ℕ))
    (conf : Config DialerConfig Options) where
  create_application-Reached :
      Reached (Nets IsOrdered) (Nets IsOrdered) (create_application lib ranged conf).built
  unfolding create_application makers make_part make_bridge streamf.Application.create start
      Network.new streamf.Network.Rendezvous.empty
  create_application-Reached =
      new_application-Reached (makers lib) (Nets IsBefore) (Nets IsOrdered) (Nets IsOrdered)
        (λ w o c. settle-Gives IsBefore IsOrdered IsBefore-IsOrdered w a_dialer dialer_fault _ c (
          DialerKept.new-Kept IsBefore lib.std lib.canonical lib.sys.linux w.network
            (dialer-IsBefore lib.sys.linux w.network c) c lib.parse_uri lib.socks5 o))
        (λ w ds o c.
          settle-Gives IsBefore IsOrdered IsBefore-IsOrdered w a_bridge bridge_fault _ c (
            BridgeKept.new-Kept IsBefore lib.std lib.sys.linux w.network
              (dialer-IsBefore lib.sys.linux w.network c) c lib.parse_uri lib.socks5 (find_tag ds)
              o))
        (λ w ds o c. make_listener-Gives lib IsOrdered Binds-IsOrdered w c ds o)
        (λ w ds o c. make_sniproxy-Gives lib IsOrdered Binds-IsOrdered w c ds o)
        (λ w ds o c. make_forwarder-Gives lib IsOrdered Binds-IsOrdered w c o)
        (λ w c. IsBefore-IsOrdered w.network c) (λ w c. IsBefore-IsOrdered w.network c) start conf
        (new-AllSound, (refl, refl))

  -- Whatever the configuration, and whether NewApplication succeeds or fails, in the network behind
  -- it every number that was handed out is once that of a listener, or of a dialer that waits, or
  -- of a dialer that has been connected to the listener recorded for its address, and no dialer
  -- waits for an address or a tag that has a listener: the dialers and the bridges are made before
  -- the listeners, which take them off the list.
  pub create_application-IsOrdered :
      IsOrdered (create_application lib ranged conf).built.state.network
  create_application-IsOrdered =
      Reached-any (Nets IsOrdered) (create_application lib ranged conf).built
        create_application-Reached
