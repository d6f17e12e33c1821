-- ===== src/Capture/Runs.antt =====
-- The sniffing of concrete connections.
use streamf.Common.{ℕ, ◌≡◌, refl, arith, List, [], ◌∷◌, ◌++◌, none, some, false, replicate}
use streamf.Sniff.{ok, not_handshake_record, at, be16}
use streamf.Sniff.Encode.{encode}
use streamf.Sniff.Runs.{small, small-IsWellFormed}
use streamf.Capture.{Capture, captured, checked_record, read_client_hello, sniff_sni}
use streamf.Capture.Replay.{read_spec, read-read_spec}
use streamf.Capture.Sniffed.{Kept, read_client_hello-Kept, sniff-Kept, sniff-encode}

-- What the pooled buffer held before.
abbrev pub used : List ℕ
used = replicate 64 0xaa

-- A client that speaks no TLS.
abbrev plain : List ℕ
plain = 0x47 ∷ 0x45 ∷ 0x54 ∷ 0x20 ∷ 0x2f ∷ 0x0d ∷ 0x0a ∷ []

plain_run :
    sniff_sni used plain
    ≡ ok (
      [],
      captured
          (0x47 ∷ 0x45 ∷ 0x54 ∷ 0x20 ∷ 0x2f ∷ [])
          false
          (some not_handshake_record)
          (0x0d ∷ 0x0a ∷ []),
    )
unfolding sniff_sni read_client_hello checked_record at be16
plain_run = refl

sniff-encode_example :
    sniff_sni used (encode small ++ (23 ∷ 3 ∷ []))
    ≡ ok (small.name, captured (encode small) false none (23 ∷ 3 ∷ []))
sniff-encode_example = sniff-encode small used (23 ∷ 3 ∷ []) small-IsWellFormed (omega arith)

sniff-Kept_example : Kept plain (
    captured
      (0x47 ∷ 0x45 ∷ 0x54 ∷ 0x20 ∷ 0x2f ∷ [])
      false
      (some not_handshake_record)
      (0x0d ∷ 0x0a ∷ []))
sniff-Kept_example = sniff-Kept used plain [] _ (omega arith) plain_run

read-read_spec_example : read_client_hello used plain ≡ read_spec plain
read-read_spec_example = read-read_spec used plain (omega arith)

read_client_hello-Kept_example :
    (c : Capture) × (read_client_hello used plain ≡ ok c) × Kept plain c
read_client_hello-Kept_example = read_client_hello-Kept used plain (omega arith)
