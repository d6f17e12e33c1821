-- ===== src/Capture/Replay.antt =====
-- What is taken from the connection, in terms of the bytes that arrive and not of the buffers.
use streamf.Common.{
  ℕ, ◌+◌, ◌-◌, ◌≤◌, ◌≡◌, refl, sym, ap, ◌∙◌, inl, inr, List, [], ◌∷◌, ◌++◌, none, some, Bool, true,
  false, not, ltb, leb, ◌==◌, if◌then◌else◌, length, take, drop, replicate, arith, length-append,
  length-take, length-drop, take_append, drop_append, take-add, drop-drop, drop-all, take-all, ◌*◌,
  append-nil, append_assoc, length-replicate, Bool-cases,
}
use streamf.Sniff.{
  Result, ok, ◌>>=◌, header_read, body_read, not_handshake_record, record_too_short,
  not_client_hello, at, be16,
}
use streamf.Capture.{
  Capture, captured, overwrite, grow, read_body, checked_record, read_client_hello,
}

-- The second read takes the record up to its length, and no more.
unfoldable pub body_spec : ℕ → List ℕ → Result Capture
body_spec len incoming =
    let record_bytes = take (5 + len) incoming in
    let rest = drop (5 + len) incoming in
    if ltb (length record_bytes) (5 + len)
    then ok (captured record_bytes true (some body_read) rest)
    else do
      message ← at record_bytes 5
      ok (captured record_bytes false (if message == 1 then none else some not_client_hello) rest)

unfoldable pub checked_spec : Bool → Bool → ℕ → List ℕ → Result Capture
checked_spec true short len incoming =
    ok (captured (take 5 incoming) false (some not_handshake_record) (drop 5 incoming))
checked_spec false true len incoming =
    ok (captured (take 5 incoming) false (some record_too_short) (drop 5 incoming))
checked_spec false false len incoming = body_spec len incoming

unfoldable pub read_spec : List ℕ → Result Capture
read_spec incoming =
    if ltb (length incoming) 5 then ok (captured incoming true (some header_read) []) else do
      kind ← at incoming 0
      len ← be16 incoming 3
      checked_spec (not (kind == 0x16)) (ltb len 38) len incoming

read_body_lem :
    (header tail rest : List ℕ)
    → length header ≡ 5
    → read_body (header ++ tail) rest ≡ body_spec (length tail) (header ++ rest)
unfolding read_body body_spec
read_body_lem header tail rest five =
    let n = length tail in
    let got : List ℕ = take n rest in
    let e1 : length (header ++ tail) - 5 ≡ n = omega (arith, length-append header tail) in
    let e2 : take 5 (header ++ tail) ≡ header = take_append 5 header tail (omega arith) in
    let e3 : take (5 + n) (header ++ rest) ≡ header ++ got = rw (
      take-add 5 n (header ++ rest),
      take_append 5 header rest (omega arith),
      drop_append 5 header rest (omega arith),
    ) in
    let e4 : drop (5 + n) (header ++ rest) ≡ drop n rest =
      sym (drop-drop n 5 (header ++ rest))
      ∙ ap (drop n) (drop_append 5 header rest (omega arith)) in
    let le = length-append header got in
    elim (Bool-cases (ltb (length got) n)) [
      | inl short ↦
          let more : ltb (length (header ++ got)) (5 + n) ≡ true = ground (arith, le) in
          let back = drop (5 + length got) (header ++ tail) in
          let e5 : take (5 + length got) (header ++ (got ++ back)) ≡ header ++ got =
            rw (← append_assoc header got back)
              (take_append (5 + length got) (header ++ got) back (omega (arith, le))) in
          rw (e1, e2, e3, e4, short, more, e5)
      | inr full ↦
          let more : ltb (length (header ++ got)) (5 + n) ≡ false = ground (arith, le) in
          let e5 : drop (5 + length got) (header ++ tail) ≡ [] =
            drop-all (5 + length got) (header ++ tail)
              (ground (arith, length-append header tail)) in
          rw (e1, e2, e3, e4, full, more, e5, append-nil got)
    ]

grow_lem :
    (mem header : List ℕ) (len : ℕ)
    → length header ≡ 5
    → 5 ≤ length mem
    → (tail : List ℕ) × (length tail ≡ len)
      × (grow (overwrite mem 0 header) header (5 + len) ≡ header ++ tail)
unfolding grow
grow_lem mem header len five room =
    let back = drop (0 + length header) mem in
    let l = length-append header back in
    let lb = length-drop (0 + length header) mem in
    elim (Bool-cases (leb (5 + len) (length (header ++ back)))) [
      | inl fits ↦ (
        take len back,
        ground (arith, length-take len back),
        rw (
          fits,
          take-add 5 len (header ++ back),
          take_append 5 header back (omega arith),
          drop_append 5 header back (omega arith),
        ),
      )
      | inr small ↦ (
        drop 5 (replicate (5 + len) 0),
        omega (
          arith,
          length-drop {A = ℕ} 5 (replicate (5 + len) 0),
          length-replicate {A = ℕ} (5 + len) 0,
        ),
        rw (small, five),
      )
    ]

checked_lem :
    (bad short : Bool) (mem header : List ℕ) (len : ℕ) (rest : List ℕ)
    → length header ≡ 5
    → 5 ≤ length mem
    → checked_record bad short (overwrite mem 0 header) header len rest
      ≡ checked_spec bad short len (header ++ rest)
unfolding checked_record checked_spec
checked_lem true short mem header len rest five room =
    rw (take_append 5 header rest (sym five), drop_append 5 header rest (sym five))
checked_lem false true mem header len rest five room =
    rw (take_append 5 header rest (sym five), drop_append 5 header rest (sym five))
checked_lem false false mem header len rest five room =
    let (tail, l, e) = grow_lem mem header len five room in
    rw e (read_body_lem header tail rest five ∙ ap (λ n. body_spec n (header ++ rest)) l)

pub header_of :
    (xs : List ℕ)
    → 5 ≤ length xs
    → (a b c d e : ℕ) × (rest : List ℕ) × (xs ≡ a ∷ b ∷ c ∷ d ∷ e ∷ rest)
header_of (a ∷ b ∷ c ∷ d ∷ e ∷ rest) h = (a, b, c, d, e, rest, refl)
header_of [] h = absurd (omega arith)
header_of (a ∷ []) h = absurd (omega arith)
header_of (a ∷ b ∷ []) h = absurd (omega arith)
header_of (a ∷ b ∷ c ∷ []) h = absurd (omega arith)
header_of (a ∷ b ∷ c ∷ d ∷ []) h = absurd (omega arith)

read_long :
    (mem : List ℕ) (a b c d e : ℕ) (rest : List ℕ)
    → 5 ≤ length mem
    → read_client_hello mem (a ∷ b ∷ c ∷ d ∷ e ∷ rest) ≡ read_spec (a ∷ b ∷ c ∷ d ∷ e ∷ rest)
unfolding read_client_hello read_spec be16 at
read_long mem a b c d e rest room =
    let header : List ℕ = a ∷ b ∷ c ∷ d ∷ e ∷ [] in
    let long : ltb (length (header ++ rest)) 5 ≡ false = ground arith in
    let len : ℕ = d * 256 + e in
    rw long (checked_lem (not (a == 0x16)) (ltb len 38) mem header len rest refl room)

-- What readClientHello captures depends on the bytes that arrive alone: it equals a reading of the
-- stream without buffers, for every pooled buffer of at least five bytes.
pub read-read_spec :
    (mem incoming : List ℕ) → 5 ≤ length mem → read_client_hello mem incoming ≡ read_spec incoming
unfolding read_client_hello read_spec
read-read_spec mem incoming room = elim (Bool-cases (ltb (length incoming) 5)) [
  | inl short ↦ rw (take-all 5 incoming (ground arith), drop-all 5 incoming (ground arith), short)
  | inr long ↦
      let (a, b, c, d, e, rest, p) = header_of incoming (ground arith) in
      rw p (read_long mem a b c d e rest room)
]
