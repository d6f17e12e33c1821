-- ===== src/Websocket/Runs.antt =====
-- internal/httpmux/websocket.go and internal/network/bridging.go: websockets as computed.
use streamf.Common.{
  ℕ, ◌≤◌, ◌≡◌, refl, pos, List, [], ◌∷◌, ◌++◌, take, take-all, length, Option, none, some, Bool,
  false, true, arith,
}
use streamf.Relay.{Answer, failed}
use streamf.Relay.Copied.{source, IsWriter}
use streamf.Websocket.{
  Message, WebsocketConn, read_all, Sink, write_websocket, read_websocket, forward_websocket,
}
use streamf.Websocket.Streams.{arriving, left, read_all-arriving}
use streamf.Websocket.Passed.{
  NeverRefuses, Carries, nothing, message, IsTaker, AlwaysTakes, write_read,
}

-- A message in two blocks, and one that breaks off with error 7.
abbrev whole : Message ℕ
whole = record { kind = 2; blocks = (1 ∷ 2 ∷ []) ∷ []; last = 3 ∷ []; end = none }

abbrev broken : Message ℕ
broken = record { kind = 2; blocks = []; last = 4 ∷ []; end = some 7 }

abbrev conn : WebsocketConn ℕ
conn = record { r = none; incoming = whole ∷ broken ∷ []; gone = 9 }

read_both : read_all 9 conn ≡ (1 ∷ 2 ∷ 3 ∷ 4 ∷ [], some 7)
unfolding read_all
read_both = refl

read_all-arriving_example :
    read_all 9 conn ≡ ((arriving (left conn) conn.gone).0, some (arriving (left conn) conn.gone).1)
read_all-arriving_example = read_all-arriving 9 conn (omega arith)

abbrev every : Sink
every = record { opens = λ sent k. true; cuts = λ sent b. none; closes = λ sent. true }

-- The message that broke off is passed on as a whole one.
passed_broken :
    forward_websocket every (whole ∷ broken ∷ []) [] ≡ (2, 1 ∷ 2 ∷ 3 ∷ []) ∷ (2, 4 ∷ []) ∷ []
unfolding forward_websocket streamf.Websocket.copy_message source
passed_broken = refl

-- A file that takes everything.
abbrev append : List ℕ → List ℕ → Answer ℕ (List ℕ)
append w b = record { count = pos (length b); error = none; writer = w ++ b }

append-IsWriter : IsWriter append (λ w. w)
append-IsWriter w b =
    let all : take (length b) b ≡ b = take-all (length b) b (omega arith) in
    (length b, refl, omega arith, rw all refl, λ e. refl)

abbrev no_refusal : List (List ℕ) → List ℕ → Bool
no_refusal sent b = false

abbrev two_blocks : List (List ℕ)
two_blocks = (1 ∷ 2 ∷ []) ∷ [] ∷ []

abbrev second : Message ℕ
second = record { kind = 2; blocks = []; last = 5 ∷ []; end = none }

abbrev first : Message ℕ
first = record { kind = 2; blocks = (1 ∷ []) ∷ []; last = 2 ∷ []; end = none }

arrived : Carries (write_websocket no_refusal two_blocks (5 ∷ []) []) (first ∷ second ∷ [])
unfolding write_websocket source
arrived = message _ _ _ _ refl refl (message _ _ _ _ refl refl nothing)

-- The contract holds of the file without `ReadFrom`, and of one with it.
append-IsTaker : IsTaker (λ w. w) append none
append-IsTaker = append-IsWriter

abbrev append_all : List ℕ → Message ℕ → Option ℕ × List ℕ
append_all w m = (m.end, w ++ source m.blocks m.last)

append_all-IsTaker : IsTaker (λ w. w) append (some append_all)
append_all-IsTaker w m =
    let b = source m.blocks m.last in
    let all : take (length b) b ≡ b = take-all (length b) b (omega arith) in
    (length b, omega arith, rw all refl, λ e. (refl, e))

-- In either loop the message that broke off is written up to its error, and ends it.
read_both_ways :
    (read_websocket append none (whole ∷ broken ∷ first ∷ []) 9 [] ≡ (1 ∷ 2 ∷ 3 ∷ 4 ∷ [], failed 7))
    × (read_websocket append (some append_all) (whole ∷ broken ∷ first ∷ []) 9 []
        ≡ (1 ∷ 2 ∷ 3 ∷ 4 ∷ [], failed 7))
unfolding read_websocket source streamf.Relay.copy_buffer streamf.Relay.transfer
    streamf.Relay.answered
read_both_ways = (refl, refl)

write_read_example :
    (k : ℕ) × (k ≤ length (source two_blocks (5 ∷ [])))
    × ((read_websocket append (some append_all) (first ∷ second ∷ []) 9 []).0
        ≡ [] ++ take k (source two_blocks (5 ∷ [])))
    × (NeverRefuses no_refusal
        → AlwaysTakes (λ w. w) append (some append_all)
        → k ≡ length (source two_blocks (5 ∷ [])))
write_read_example =
    write_read append (λ w. w) (some append_all) no_refusal two_blocks (5 ∷ [])
      (first ∷ second ∷ []) 9 [] append_all-IsTaker arrived
