-- ===== src/Datagram/Delivered.antt =====
-- dialer/udp.go: the datagrams that a dialer receives, at the other end of the stream.
use streamf.Common.{
  ℕ, zero, suc, ◌≤◌, ◌<◌, ◌≡◌, refl, sym, ap, subst, ◌∙◌, ◌⊎◌, inl, inr, List, [], ◌∷◌, ◌++◌, map,
  append-nil, append_assoc, take-append-drop, length, length-append, length-take, length-drop, take,
  drop, none, some, Bool, true, All, arith, List-cases,
}
use streamf.Datagram.{frame, Drain, udp_to_tcp_run}
use streamf.Datagram.Framing.{frames, non_empty}
use streamf.Datagram.Drained.{run-frames}
use streamf.Datagram.Outbound.{
  TcpFromUdp, Output, output, failed, receive, read_stream, read_stream_all,
}

-- The datagrams that hold a byte, cut to the buffer.
abbrev pub received : ℕ → List (List ℕ) → List (List ℕ)
received size ds = non_empty (map (take size) ds)

-- The stream that is still to be read.
abbrev pub pending : TcpFromUdp → List ℕ
pending c = c.held ++ frames (received c.size c.incoming)

receive-cases :
    (size : ℕ) (ds : List (List ℕ))
    → ((receive size ds ≡ none) × (frames (received size ds) ≡ []))
      ⊎ ((f : List ℕ) × (rest : List (List ℕ)) × (receive size ds ≡ some (f, rest))
          × (f ++ frames (received size rest) ≡ frames (received size ds))
          × (0 < length f))
unfolding receive frames non_empty frame
receive-cases size [] = inl (refl, refl)
receive-cases size (d ∷ ds) = elim (List-cases (take size d)) [
  | inr (x, xs, e) ↦
      inr (frame (x ∷ xs), ds, rw (e, receive) refl, rw (e, non_empty) refl, omega arith)
  | inl e ↦ elim (receive-cases size ds) [
    | inl (r, f) ↦ inl (rw (e, receive) r, rw (e, non_empty) f)
    | inr (f, rest, r, g, p) ↦ inr (f, rest, rw (e, receive) r, rw (e, non_empty) g, p)
  ]
]

-- One read: the error, with nothing left, or some bytes.
TakesTo : TcpFromUdp → Output × TcpFromUdp → Type 0
TakesTo c (o, d) =
    ((o ≡ failed c.gone) × (pending c ≡ []))
    ⊎ ((b : List ℕ) × (o ≡ output b)
        × (b ++ pending d ≡ pending c)
        × (length (pending d) < length (pending c))
        × (d.gone ≡ c.gone))

some_taken :
    (k : ℕ) (f rest : List ℕ)
    → 0 < length f
    → (take (suc k) f ++ (drop (suc k) f ++ rest) ≡ f ++ rest)
      × (length (drop (suc k) f ++ rest) < length (f ++ rest))
some_taken k f rest h = (
  sym (append_assoc (take (suc k) f) (drop (suc k) f) rest)
      ∙ ap (λ x. x ++ rest) (take-append-drop (suc k) f),
  omega (arith, length-append (drop (suc k) f) rest, length-append f rest, length-drop (suc k) f),
)

read_stream-TakesTo : (k : ℕ) (c : TcpFromUdp) → TakesTo c (read_stream (suc k) c)
unfolding TakesTo read_stream
read_stream-TakesTo k c =
    let rest = frames (received c.size c.incoming) in
    elim (List-cases c.held) [
      | inr (x, xs, e) ↦
          let same : read_stream (suc k) c
              ≡ (output (take (suc k) (x ∷ xs)), record c { held = drop (suc k) (x ∷ xs) }) =
            rw (e, read_stream, e) refl in
          let (whole, less) = some_taken k (x ∷ xs) rest (omega arith) in
          let all : (x ∷ xs) ++ rest ≡ pending c = ap (λ l. l ++ rest) (sym e) in
          subst (TakesTo c) (sym same) (
            inr (
              take (suc k) (x ∷ xs),
              refl,
              whole ∙ all,
              subst (λ l. suc (length (drop (suc k) (x ∷ xs) ++ rest)) ≤ length l) all less,
              refl,
            ))
      | inl e ↦ elim (receive-cases c.size c.incoming) [
        | inl (r, f) ↦
            let failing : (read_stream (suc k) c).0 ≡ failed c.gone = rw (e, read_stream, r) refl in
            inl (failing, rw e f)
        | inr (f, ds, r, g, p) ↦
            let same : read_stream (suc k) c
                ≡ (output (take (suc k) f), record c { held = drop (suc k) f; incoming = ds }) =
              rw (e, read_stream, r) refl in
            let (whole, less) = some_taken k f (frames (received c.size ds)) p in
            let all : f ++ frames (received c.size ds) ≡ pending c = rw e g in
            subst (TakesTo c) (sym same) (
              inr (
                take (suc k) f,
                refl,
                whole ∙ all,
                subst (λ x. suc (length (drop (suc k) f ++ frames (received c.size ds))) ≤ length x)
                    all less,
                refl,
              ))
      ]
    ]

read_stream_all-pending :
    (n k : ℕ) (c : TcpFromUdp)
    → length (pending c) < n
    → read_stream_all n (suc k) c ≡ (pending c, some (failed c.gone))
unfolding read_stream_all TakesTo
read_stream_all-pending zero k c h = absurd (omega arith)
read_stream_all-pending (suc n) k c h = elim (read_stream-TakesTo k c) [
  | inl (e, f) ↦ rw (e, read_stream_all, f) refl
  | inr (b, e, whole, less, g) ↦
      let rest = read_stream_all-pending n k (read_stream (suc k) c).1 (omega arith) in
      rw (e, read_stream_all, rest)
        (ap (λ x. (x, some (failed (read_stream (suc k) c).1.gone))) whole
          ∙ ap (λ x. (pending c, some (failed x))) g)
]

received-small :
    (size : ℕ) (ds : List (List ℕ)) → size < 65536 → All (λ y. length y < 65536) (received size ds)
unfolding non_empty
received-small size [] h = tt
received-small size (d ∷ ds) h = elim (List-cases (take size d)) [
  | inl e ↦ rw (e, non_empty) (received-small size ds h)
  | inr (x, xs, e) ↦
      rw (e, non_empty) (omega (arith, length-take size d, ap length e), received-small size ds h)
]

non_empty_twice : (ds : List (List ℕ)) → non_empty (non_empty ds) ≡ non_empty ds
unfolding non_empty
non_empty_twice [] = refl
non_empty_twice ([] ∷ ds) = non_empty_twice ds
non_empty_twice ((x ∷ xs) ∷ ds) = ap (λ l. (x ∷ xs) ∷ l) (non_empty_twice ds)

-- The stream that is read from a dialed UDP socket, by enough reads into a buffer of any length but
-- none, with frames of less than 65536 bytes, ends with the error of the socket, and where it is
-- sent through run of a UDP listener whose writes succeed, that sends every datagram that arrived
-- at the socket and holds a byte, in order, cut to the frame size of the dialer.
pub received-run :
    (send : List ℕ → Bool) (pool_size size n k : ℕ) (c : TcpFromUdp)
    → ((y : List ℕ) → send y ≡ true)
    → c.held ≡ []
    → c.size < 65536
    → length (pending c) < n
    → (d : Drain) × (udp_to_tcp_run send pool_size size (read_stream_all n (suc k) c).0 ≡ some d)
      × (d.sent ≡ received c.size c.incoming)
      × ((read_stream_all n (suc k) c).1 ≡ some (failed c.gone))
unfolding frame
received-run send pool_size size n k c ok empty small h =
    let ds = received c.size c.incoming in
    let all = read_stream_all-pending n k c h in
    let (d, e, p, q, r, t) =
      run-frames send pool_size size ds [] 0 ok
        (omega arith, received-small c.size c.incoming small) (omega arith) in
    let stream : (read_stream_all n (suc k) c).0 ≡ frames ds ++ [] =
      ap (λ x. x.0) all ∙ ap (λ x. x ++ frames ds) empty ∙ sym (append-nil (frames ds)) in
    (
      d,
      ap (udp_to_tcp_run send pool_size size) stream ∙ p,
      q ∙ non_empty_twice (map (take c.size) c.incoming),
      ap (λ x. x.1) all,
    )
