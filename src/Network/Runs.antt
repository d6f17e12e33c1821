-- ===== src/Network/Runs.antt =====
-- internal/network/network.go: a pipe with two dialers, one early and one late, as computed.
use streamf.Common.{ℕ, ◌≡◌, refl, inl, ◌⊎◌, ℤ, [], ◌∷◌, Option, none, true, String}
use streamf.Network.{
  Network, Opened, Reply, ok, error, in_use, pipe_listener, pipe_dialer, new, listen, dialer,
}
use streamf.Network.Rendezvous.{Waiting, Resolved, Registry, lookup}
use streamf.Network.Reached.{Reaches, started, listened, dialed, AllSound, Reaches-AllSound}
use streamf.Network.Late.{IsWaiting, IsLate}
use streamf.Network.Placed.{Keeps, Reaches-Keeps}

abbrev no_sockets : String → String → ℕ ⊎ ℕ
no_sockets network address = inl 13

abbrev no_durations : String → Option ℤ
no_durations text = none

abbrev early : Waiting
early = record { id = 0; addr = "a" }

abbrev late : Waiting
late = record { id = 2; addr = "a" }

-- A dialer, then its listener, then another dialer.
abbrev waiting : Network
waiting = record {
  pipe = record { bound = []; waiting = early ∷ []; resolved = [] };
  portal = record { bound = []; waiting = []; resolved = [] };
  next = 1;
}

abbrev met : Network
met = record {
  pipe = record {
    bound = ("a", 1) ∷ [];
    waiting = [];
    resolved = record { dialer = early; listener = 1 } ∷ [];
  };
  portal = record { bound = []; waiting = []; resolved = [] };
  next = 2;
}

abbrev missed : Network
missed = record {
  pipe = record {
    bound = ("a", 1) ∷ [];
    waiting = late ∷ [];
    resolved = record { dialer = early; listener = 1 } ∷ [];
  };
  portal = record { bound = []; waiting = []; resolved = [] };
  next = 3;
}

dialer_waiting : dialer true new "pipe" "a" ≡ ok (pipe_dialer 0) waiting
unfolding dialer new streamf.Network.Rendezvous.wait streamf.Network.Rendezvous.empty
dialer_waiting = refl

listen_pairs : listen no_sockets true waiting "pipe" "a" ≡ ok (pipe_listener 1) met
unfolding listen streamf.Network.listen_pipe streamf.Network.Rendezvous.bind lookup
    streamf.Network.Rendezvous.sweep
listen_pairs = refl

dialer_missed : dialer true met "pipe" "a" ≡ ok (pipe_dialer 2) missed
unfolding dialer streamf.Network.Rendezvous.wait
dialer_missed = refl

listen_twice : listen no_sockets true missed "pipe" "a" ≡ error in_use
unfolding listen streamf.Network.listen_pipe streamf.Network.Rendezvous.bind lookup
listen_twice = refl

missed-Reaches : Reaches no_sockets no_durations true new missed
missed-Reaches =
    dialed met missed "pipe" "a" (pipe_dialer 2)
      (listened waiting met "pipe" "a" (pipe_listener 1)
        (dialed new waiting "pipe" "a" (pipe_dialer 0) started dialer_waiting) listen_pairs)
      dialer_missed

Reaches-AllSound_example : AllSound missed
Reaches-AllSound_example = Reaches-AllSound no_sockets no_durations true missed missed-Reaches

late-IsLate : IsLate late missed.pipe
unfolding lookup IsWaiting
late-IsLate = ((1, refl), inl refl)

-- The early dialer of the three steps.
Reaches-Keeps_example : Keeps "pipe" "a" (pipe_dialer 0) missed
Reaches-Keeps_example =
    Reaches-Keeps no_sockets no_durations true new waiting missed "pipe" "a" (pipe_dialer 0)
      dialer_waiting
      (dialed met missed "pipe" "a" (pipe_dialer 2)
        (listened waiting met "pipe" "a" (pipe_listener 1) started listen_pairs) dialer_missed)
