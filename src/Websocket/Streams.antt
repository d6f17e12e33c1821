-- ===== src/Websocket/Streams.antt =====
-- internal/httpmux/websocket.go: what a caller of `Read` gets in all.
use streamf.Common.{
  ℕ, zero, suc, ◌+◌, ◌≤◌, ◌≡◌, refl, sym, ap, ◌∙◌, ◌⊎◌, inl, inr, List, [], ◌∷◌, ◌++◌, append_assoc,
  append-nil, length, true, false, Option, none, some, arith, Option-cases,
}
use streamf.Relay.Copied.{source}
use streamf.Websocket.{
  Message, WebsocketConn, read_message, read, read_all, Sink, copy_message, forward_websocket,
}

module _ {E : Type 0} where
  -- The bytes of the messages up to the first that ends in an error, and the error.
  abbrev pub arriving : List (Message E) → E → List ℕ × E
  arriving [] gone = ([], gone)
  arriving (m ∷ ms) gone = elim m.end [
    | some e ↦ (source m.blocks m.last, e)
    | none ↦ (source m.blocks m.last ++ (arriving ms gone).0, (arriving ms gone).1)
  ]

  -- What is left to read.
  abbrev pub left : WebsocketConn E → List (Message E)
  left c = elim c.r [ none ↦ c.incoming | some m ↦ m ∷ c.incoming ]

  abbrev pub reads : List (Message E) → ℕ
  reads [] = 1
  reads (m ∷ ms) = suc (length m.blocks) + reads ms

  reads_positive : (ms : List (Message E)) → 1 ≤ reads ms
  reads_positive [] = omega arith
  reads_positive (m ∷ ms) = omega arith

  -- One read returns the last bytes and the error, or the next bytes.
  Reads : WebsocketConn E → Type 0
  Reads c =
      ((read c).0 ≡ ((arriving (left c) c.gone).0, some (arriving (left c) c.gone).1))
      ⊎ (((read c).0.1 ≡ none)
          × (arriving (left c) c.gone ≡ (
            (read c).0.0 ++ (arriving (left (read c).1) (read c).1.gone).0,
            (arriving (left (read c).1) (read c).1.gone).1,
          ))
          × (reads (left c) ≡ suc (reads (left (read c).1))))

  abbrev conn : Option (Message E) → List (Message E) → E → WebsocketConn E
  conn r ms gone = record { r = r; incoming = ms; gone = gone }

  reader-Reads :
      (k : ℕ) (bs : List (List ℕ)) (last : List ℕ) (end : Option E) (ms : List (Message E))
      (gone : E)
      → Reads (conn (some (record { kind = k; blocks = bs; last = last; end = end })) ms gone)
  unfolding Reads read read_message source
  reader-Reads k [] last none ms gone = inr (refl, refl, omega arith)
  reader-Reads k [] last (some e) ms gone = inl refl
  reader-Reads k (b ∷ bs) last none ms gone = inr (
    refl,
    ap (λ x. (x, (arriving ms gone).1)) (append_assoc b (source bs last) (arriving ms gone).0),
    omega arith,
  )
  reader-Reads k (b ∷ bs) last (some e) ms gone = inr (refl, refl, omega arith)

  read-Reads : (r : Option (Message E)) (ms : List (Message E)) (gone : E) → Reads (conn r ms gone)
  unfolding Reads read
  read-Reads (some m) ms gone = reader-Reads m.kind m.blocks m.last m.end ms gone
  read-Reads none (m ∷ ms) gone = reader-Reads m.kind m.blocks m.last m.end ms gone
  read-Reads none [] gone = inl refl

  -- Reading from a WebsocketConn to the first error, with reads enough, gives the bytes of all
  -- messages in order, whatever blocks their readers give them in, up to the first message that
  -- ends in an error, and that error, or else the error of the websocket.
  pub read_all-arriving :
      (n : ℕ) (c : WebsocketConn E)
      → reads (left c) ≤ n
      → read_all n c ≡ ((arriving (left c) c.gone).0, some (arriving (left c) c.gone).1)
  unfolding read_all Reads
  read_all-arriving zero c h = absurd (omega (arith, reads_positive (left c)))
  read_all-arriving (suc n) c h = elim (read-Reads c.r c.incoming c.gone) [
    | inl e ↦ rw (ap (λ x. x.1) e, read_all) (ap (λ x. (x.0, some (arriving (left c) c.gone).1)) e)
    | inr (e, s, k) ↦
        let rest = read_all-arriving n (read c).1 (omega arith) in rw (e, read_all, rest, s) refl
  ]

-- The messages that arrive, the last one with what came of it before an error.
abbrev pub forwarded : {E : Type 0} → List (Message E) → List (ℕ × List ℕ)
forwarded [] = []
forwarded (m ∷ ms) = elim m.end [
  | some e ↦ (m.kind, source m.blocks m.last) ∷ []
  | none ↦ (m.kind, source m.blocks m.last) ∷ forwarded ms
]

-- The websocket that is written to never fails.
pub record IsOpenSink (s : Sink) : Type 0 where
  pub opens : (sent : List (ℕ × List ℕ)) (k : ℕ) → s.opens sent k ≡ true
  pub cuts : (sent : List (ℕ × List ℕ)) (b : List ℕ) → s.cuts sent b ≡ none
  pub closes : (sent : List (ℕ × List ℕ)) → s.closes sent ≡ true

copy_message_whole :
    {E : Type 0} (s : Sink) (sent : List (ℕ × List ℕ)) (m : Message E)
    → IsOpenSink s
    → m.end ≡ none
    → copy_message s sent m ≡ (source m.blocks m.last, true)
unfolding copy_message
copy_message_whole s sent m o f = rw (o.cuts sent (source m.blocks m.last), copy_message, f) refl

copy_message_failed :
    {E : Type 0} (s : Sink) (sent : List (ℕ × List ℕ)) (m : Message E) (e : E)
    → IsOpenSink s
    → m.end ≡ some e
    → copy_message s sent m ≡ (source m.blocks m.last, false)
unfolding copy_message
copy_message_failed s sent m e o f = rw (o.cuts sent (source m.blocks m.last), copy_message, f) refl

-- With no error of its own, the websocket that is written to gets each message with its type, and
-- what came of a message that broke off.
forward_websocket-forwarded :
    {E : Type 0} (s : Sink) (ms : List (Message E)) (sent : List (ℕ × List ℕ))
    → IsOpenSink s
    → forward_websocket s ms sent ≡ sent ++ forwarded ms
unfolding forward_websocket
forward_websocket-forwarded s [] sent o = sym (append-nil sent)
forward_websocket-forwarded s (m ∷ ms) sent o =
    let b = source m.blocks m.last in
    elim (Option-cases m.end) [
      | inr (e, f) ↦
          rw (copy_message_failed s sent m e o f, o.opens sent m.kind, o.closes sent, f) refl
      | inl f ↦
          rw (copy_message_whole s sent m o f, o.opens sent m.kind, o.closes sent, f)
            (forward_websocket-forwarded s ms (sent ++ (m.kind, b) ∷ []) o
              ∙ append_assoc sent ((m.kind, b) ∷ []) (forwarded ms))
    ]
