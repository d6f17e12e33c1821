-- ===== src/Datagram/Runs.antt =====
-- Two datagrams over a stream that is cut, and an inbox of two places.
use streamf.Common.{
  ◌/◌, max, pos, ◌↔◌, ℕ, ◌≡◌, refl, List, [], ◌∷◌, ◌++◌, none, some, true, false, arith,
}
use streamf.Datagram.{frame, Drain, udp_to_tcp_run}
use streamf.Datagram.Framing.{frames, non_empty}
use streamf.Datagram.Drained.{run-total}
use streamf.Datagram.Inbox.{Message, Inbox, put_read, sees_message, read}
use streamf.Datagram.Streams.{
  Event, message as arrival, insert, close, closed, no_streams, on_event, on_events,
}
use streamf.Datagram.Dispatch.{Dispatched, on_events-Dispatched}
use streamf.Datagram.Outbound.{TcpFromUdp, failed, new_tcp_from_udp, read_stream_all}
use streamf.Datagram.Delivered.{received, received-run}
use streamf.Datagram.Idle.{tick, signal, goes_idle, HasTicks, goes_idle_iff}
use streamf.Datagram.Arrivals.{accounted, IsSound}
use streamf.Datagram.Reads.{stream, got_bytes, read-stream}

abbrev two : List (List ℕ)
two = (1 ∷ 2 ∷ 3 ∷ []) ∷ [] ∷ []

run-total_example :
    (d : Drain) × (udp_to_tcp_run (λ y. false) 4096 2048 (5 ∷ 0 ∷ 1 ∷ []) ≡ some d)
    × (d.pooled ≡ false)
    × (d.put ≡ 1)
run-total_example = run-total (λ y. false) 4096 2048 (5 ∷ 0 ∷ 1 ∷ [])

abbrev message : ℕ → Message
message n = record { datagram = n ∷ []; pooled = true }

abbrev full : Inbox
full = record {
  capacity = 2;
  queue = message 1 ∷ message 2 ∷ [];
  read = [];
  read_pooled = false;
  put = 0;
  signal = false;
  done = false;
  listener_done = false;
}

full-IsSound : IsSound full
full-IsSound = record { some_room = omega arith; bounded = omega arith; released = λ e. refl }

displaced : (put_read false full (message 3)).queue ≡ message 2 ∷ message 3 ∷ []
unfolding put_read
displaced = refl

read-stream_example :
    (got_bytes (read full 2 sees_message).0 ++ stream (read full 2 sees_message).1 ≡ stream full)
    × IsSound (read full 2 sees_message).1
    × (accounted (read full 2 sees_message).1 ≡ accounted full)
read-stream_example = read-stream full 2 sees_message full-IsSound

-- The stream of client 7 is closed; its next datagram gets a new one.
abbrev closed_once : List Event
closed_once = arrival 7 1 ∷ insert ∷ arrival 7 2 ∷ close 0 ∷ arrival 9 3 ∷ insert ∷ closed 0 ∷ []

closed_once_taken : (on_events no_streams closed_once).taken ≡ (0, 1) ∷ (0, 2) ∷ (1, 3) ∷ []
unfolding on_events on_event no_streams
closed_once_taken = refl

closed_once_idle : (on_events no_streams closed_once).pending ≡ none
unfolding on_events on_event no_streams
closed_once_idle = refl

on_events-Dispatched_example :
    Dispatched
      (on_events no_streams closed_once)
      7
      4
      (on_event (on_events no_streams closed_once) (arrival 7 4))
on_events-Dispatched_example = on_events-Dispatched closed_once 7 4 closed_once_idle

-- A stream of 25 seconds is closed at the second tick in a row.
goes_idle_iff_example :
    (goes_idle (pos 25000000000) (tick ∷ signal ∷ tick ∷ tick ∷ []) ≡ true)
    ↔ HasTicks (max 1 (25000000000 / 10000000000)) (tick ∷ signal ∷ tick ∷ tick ∷ [])
goes_idle_iff_example = goes_idle_iff 25000000000 (tick ∷ signal ∷ tick ∷ tick ∷ [])

-- An empty datagram is lost, and a long one is cut.
abbrev dialed : TcpFromUdp
dialed = new_tcp_from_udp 3 ((1 ∷ []) ∷ [] ∷ (2 ∷ 3 ∷ 4 ∷ 5 ∷ []) ∷ []) 5

received-run_example :
    (d : Drain) × (udp_to_tcp_run (λ y. true) 4096 2048 (read_stream_all 20 2 dialed).0 ≡ some d)
    × (d.sent ≡ received dialed.size dialed.incoming)
    × ((read_stream_all 20 2 dialed).1 ≡ some (failed dialed.gone))
unfolding new_tcp_from_udp frames non_empty frame
received-run_example =
    received-run (λ y. true) 4096 2048 20 1 dialed (λ y. refl) refl (omega arith) (omega arith)
