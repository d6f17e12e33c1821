-- ===== src/Capture.antt =====
-- sniproxy/sniff.go: the bytes that are taken from a connection to find a ClientHello, in a pooled
-- buffer, and what is handed on with an error so that a fallback can replay them.
pub mod Replay
pub mod Sniffed
pub mod Runs
use streamf.Common.{
  ℕ, ◌+◌, ◌-◌, List, [], ◌++◌, Option, none, some, Bool, true, false, not, ltb, leb, ◌==◌,
  if◌then◌else◌, length, take, drop, replicate,
}
use streamf.Sniff.{
  Result, ok, err, panic, stuck, ◌>>=◌, SniffError, header_read, body_read, not_handshake_record,
  record_too_short, not_client_hello, at, be16, parse_client_hello,
}

-- What `readClientHello` and `sniffSNI` return; `rest` is what the connection still holds.
pub record Capture : Type 0 where
  pub buf : List ℕ
  pub closed : Bool
  pub error : Option SniffError
  pub rest : List ℕ

-- `io.ReadFull` and `copy` into a buffer at an offset.
abbrev pub overwrite : List ℕ → ℕ → List ℕ → List ℕ
overwrite mem offset bs = take offset mem ++ (bs ++ drop (offset + length bs) mem)

abbrev pub captured : List ℕ → Bool → Option SniffError → List ℕ → Capture
captured buf closed e rest = record { buf = buf; closed = closed; error = e; rest = rest }

-- `buf[:size]`, or a new buffer where the pooled one is too small.
unfoldable pub grow : List ℕ → List ℕ → ℕ → List ℕ
grow mem header size =
    if leb size (length mem) then take size mem else overwrite (replicate size 0) 0 header

-- `buf` holds the record header; the rest of the record is read behind it.
unfoldable pub read_body : List ℕ → List ℕ → Result Capture
read_body buf incoming =
    let got = take (length buf - 5) incoming in
    let buf' = overwrite buf 5 got in
    let rest = drop (length buf - 5) incoming in
    if ltb (length got) (length buf - 5)
    then ok (captured (take (5 + length got) buf') true (some body_read) rest)
    else do
      message ← at buf' 5
      ok (captured buf' false (if message == 1 then none else some not_client_hello) rest)

-- The two checks of the record header, then the body.
unfoldable pub checked_record : Bool → Bool → List ℕ → List ℕ → ℕ → List ℕ → Result Capture
checked_record true short mem header len rest =
    ok (captured header false (some not_handshake_record) rest)
checked_record false true mem header len rest =
    ok (captured header false (some record_too_short) rest)
checked_record false false mem header len rest = read_body (grow mem header (5 + len)) rest

-- `mem` is the buffer that the pool hands out, with whatever it held; `incoming` are the bytes that
-- arrive before the connection ends or fails.
unfoldable pub read_client_hello : List ℕ → List ℕ → Result Capture
read_client_hello mem incoming =
    let header = take 5 incoming in
    let mem' = overwrite mem 0 header in
    let rest = drop 5 incoming in
    if ltb (length header) 5 then ok (captured header true (some header_read) rest) else do
      kind ← at header 0
      len ← be16 header 3
      checked_record (not (kind == 0x16)) (ltb len 38) mem' header len rest

-- The name (empty on an error) and what was captured.
unfoldable pub finish : Capture → Result (List ℕ) → Result (List ℕ × Capture)
finish c (ok sni) = ok (sni, c)
finish c (err e) = ok ([], record c { error = some e })
finish c panic = panic
finish c stuck = stuck

unfoldable pub sniff_sni : List ℕ → List ℕ → Result (List ℕ × Capture)
unfolding finish
sniff_sni mem incoming = do
  c ← read_client_hello mem incoming
  elim c.error [ some e ↦ ok ([], c) | none ↦ finish c (parse_client_hello c.buf) ]
