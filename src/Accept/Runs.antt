-- ===== src/Accept/Runs.antt =====
-- The loops of `Serve` on two failures with a connection between them, then a close.
use streamf.Common.{◌≡◌, refl, List, [], ◌∷◌, ◌++◌, true, false}
use streamf.Accept.{Accepted, conn, failed, Loop, basic_serve, sniproxy_serve, bridge_serve}
use streamf.Accept.Serving.{bridged, serve-closes}
use streamf.Bridging.Runs.{two_seconds, slept, slept-Reaches}
use streamf.Dialer.{ok, Connect, gone, received, dial, hand_over}
use streamf.Dialer.Handoff.{Reaches, started, next}
use streamf.Accept.Backoff.{Behaves, serve-Behaves}

abbrev bumpy : List Accepted
bumpy = failed false ∷ conn 7 ∷ failed false ∷ failed true ∷ conn 8 ∷ []

basic_bumpy :
    basic_serve bumpy ≡ record { served = 7 ∷ []; slept = 5000000 ∷ 10000000 ∷ []; returned = true }
unfolding basic_serve streamf.Accept.accept_loop streamf.Accept.next_delay
basic_bumpy = refl

serve-Behaves_example :
    Behaves (basic_serve bumpy) 0 bumpy
    × Behaves (sniproxy_serve bumpy) 0 bumpy
    × Behaves (bridge_serve bumpy) 0 bumpy
serve-Behaves_example = serve-Behaves bumpy

-- The dialer connects to 6, and the bridge of 5 and 6 has returned.
abbrev connected : Connect
connected = record {
  worker = gone;
  caller = received (ok 6);
  done = false;
  ctx_done = true;
  closed = [];
}

connected-Reaches : Reaches true (ok 6) connected
connected-Reaches = next _ connected (next _ _ started (dial refl)) (hand_over refl refl)

serve-closes_example : (5 ∷ 6 ∷ []) ++ connected.closed ≡ 5 ∷ 6 ∷ []
serve-closes_example =
    serve-closes two_seconds 5 true (ok 6) connected (5 ∷ 6 ∷ []) connected-Reaches refl (λ h. cc)
      (bridged 6 slept 100 2000000100 slept-Reaches refl)
