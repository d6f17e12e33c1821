-- ===== src/Websocket.antt =====
-- internal/httpmux/websocket.go, and the routines of internal/network/bridging.go that copy to and
-- from a websocket. What `NextReader` returns is a message with the blocks that its reader is going to
-- give; whether a write succeeds is asked of the messages that were sent before.
pub mod Streams
pub mod Passed
pub mod Runs
use streamf.Common.{
  ℕ, zero, suc, ◌+◌, List, [], ◌∷◌, ◌++◌, Option, none, some, Bool, true, false, if◌then◌else◌,
}
use streamf.Relay.{Answer, Copy, Failure, failed, copy_buffer}
use streamf.Relay.Copied.{source}

-- The blocks of the reader of a message, the last with the end of the file (`none`) or an error.
pub record Message (E : Type 0) : Type 0 where
  pub kind : ℕ
  pub blocks : List (List ℕ)
  pub last : List ℕ
  pub end : Option E

-- `WebsocketConn`: the reader in use, what is going to arrive, and the error behind it.
pub record WebsocketConn (E : Type 0) : Type 0 where
  pub r : Option (Message E)
  pub incoming : List (Message E)
  pub gone : E

module _ {E : Type 0} where
  -- `w.r.Read(b)`, where `w.r` is `m`
  unfoldable pub read_message : WebsocketConn E → Message E → (List ℕ × Option E) × WebsocketConn E
  read_message c m = elim m.blocks [
    | b ∷ bs ↦ ((b, none), record c { r = some (record m { blocks = bs }) })
    | [] ↦ elim m.end [
      | none ↦ ((m.last, none), record c { r = none })
      | some e ↦ ((m.last, some e), record c { r = some (record m { last = [] }) })
    ]
  ]

  -- `WebsocketConn.Read`: what is read, and its error.
  unfoldable pub read : WebsocketConn E → (List ℕ × Option E) × WebsocketConn E
  unfolding read_message
  read c = elim c.r [
    | some m ↦ read_message c m
    | none ↦ elim c.incoming [
      | [] ↦ (([], some c.gone), c)
      | m ∷ ms ↦ read_message (record c { incoming = ms }) m
    ]
  ]

  -- A caller that reads to the first error, with as many reads at most.
  unfoldable pub read_all : ℕ → WebsocketConn E → List ℕ × Option E
  unfolding read
  read_all zero c = ([], none)
  read_all (suc n) c =
      let ((b, e), d) = read c in
      elim e [ some x ↦ (b, some x) | none ↦ (let (bs, x) = read_all n d in (b ++ bs, x)) ]

-- `WriteMessage`, whether it succeeded, and the messages that were sent.
unfoldable pub write_message :
    (List (List ℕ) → List ℕ → Bool) → List (List ℕ) → List ℕ → Bool × List (List ℕ)
write_message refuses sent b = if refuses sent b then (false, sent) else (true, sent ++ b ∷ [])

-- One round of `writeWebsocket`: an empty block is not sent.
unfoldable pub write_block :
    (List (List ℕ) → List ℕ → Bool) → List (List ℕ) → List ℕ → Bool × List (List ℕ)
unfolding write_message
write_block refuses sent [] = (true, sent)
write_block refuses sent (x ∷ xs) = write_message refuses sent (x ∷ xs)

-- `writeWebsocket` of a source that returns these blocks, the last one with its error.
unfoldable pub write_websocket :
    (List (List ℕ) → List ℕ → Bool) → List (List ℕ) → List ℕ → List (List ℕ) → List (List ℕ)
unfolding write_block
write_websocket refuses [] last sent = (write_block refuses sent last).1
write_websocket refuses (b ∷ bs) last sent =
    let (taken, sent') = write_block refuses sent b in
    let rest = write_websocket refuses bs last sent' in if taken then rest else sent'

-- `read_from` is the `ReadFrom` of a writer that is an `io.ReaderFrom`: its error, if any, and the
-- writer behind it.
module _ {E W : Type 0} (write : W → List ℕ → Answer E W)
    (read_from : Option (W → Message E → Option E × W)) where
  -- One round of `readWebsocket`, in the loop with `ReadFrom` or in that with `copyBuffer`.
  unfoldable pub pass_message : W → Message E → Option (Failure E) × W
  pass_message w m = elim read_from [
    | some rt ↦ (elim (rt w m).0 [ none ↦ none | some e ↦ some (failed e) ], (rt w m).1)
    | none ↦ let t = copy_buffer write m.blocks m.last m.end w in (t.error, t.writer)
  ]

  -- `readWebsocket`: the writer behind it, and the error that ends it.
  unfoldable pub read_websocket : List (Message E) → E → W → W × Failure E
  unfolding pass_message
  read_websocket [] gone w = (w, failed gone)
  read_websocket (m ∷ ms) gone w =
      let (error, w') = pass_message w m in
      elim error [ some e ↦ (w', e) | none ↦ read_websocket ms gone w' ]

-- The websocket that `forwardingWebsocket` writes: whether `NextWriter` succeeds, what part of a
-- message is written before an error, where there is one, and whether `Close` of a message succeeds.
pub record Sink : Type 0 where
  pub opens : List (ℕ × List ℕ) → ℕ → Bool
  pub cuts : List (ℕ × List ℕ) → List ℕ → Option (List ℕ)
  pub closes : List (ℕ × List ℕ) → Bool

-- `io.Copy` of a message: what was written, and whether there was no error.
unfoldable pub copy_message : {E : Type 0} → Sink → List (ℕ × List ℕ) → Message E → List ℕ × Bool
unfolding source
copy_message s sent m =
    let b = source m.blocks m.last in
    elim (s.cuts sent b) [
      | some part ↦ (part, false)
      | none ↦ (b, elim m.end [ none ↦ true | some e ↦ false ])
    ]

-- `forwardingWebsocket`: the messages that were closed, each with its type, also the one that could
-- not be copied whole.
unfoldable pub forward_websocket :
    {E : Type 0} → Sink → List (Message E) → List (ℕ × List ℕ) → List (ℕ × List ℕ)
unfolding copy_message
forward_websocket s [] sent = sent
forward_websocket s (m ∷ ms) sent =
    let (b, copied) = copy_message s sent m in
    let sent' = if s.closes sent then sent ++ (m.kind, b) ∷ [] else sent in
    let rest = forward_websocket s ms sent' in
    if s.opens sent m.kind
    then (if copied then (if s.closes sent then rest else sent) else sent')
    else sent
