-- ===== src/Sniff.antt =====
-- sniproxy/sniff.go: the server name of a TLS ClientHello, read without decrypting. A byte slice is
-- a list of numbers; an index or a slice out of range is `panic`, as in Go.
pub mod Step
pub mod Faults
pub mod Sound
pub mod Encode
pub mod Cursor
pub mod RoundTrip
pub mod Runs
use streamf.Common.{
  ℕ, zero, suc, ◌+◌, ◌*◌, List, [], ◌∷◌, ◌++◌, Option, none, some, Bool, true, false, ltb, leb,
  ◌==◌, if◌then◌else◌, length, get_elem?, take, drop,
}

-- The texts of `errors.New` in the two functions.
pub data SniffError : Type 0 where
  header_read body_read : SniffError
  not_handshake_record record_too_short not_client_hello : SniffError
  buffer_too_short not_handshake : SniffError
  bad_session_id bad_cipher_suites bad_comp_methods : SniffError
  no_extensions bad_extensions bad_extension_format bad_extension : SniffError
  bad_sni bad_sni_list bad_name_type bad_name_length bad_name_data : SniffError
  sni_not_found : SniffError

-- `panic` is a run-time panic; `stuck` is no Go value: the fuel of a loop ran out.
pub data Result {ℓ} (A : Type ℓ) : Type ℓ where
  ok : A → Result A
  err : SniffError → Result A
  panic : Result A
  stuck : Result A

infixl 5 ◌>>=◌ ◌>>◌
abbrev pub ◌>>=◌ {ℓ κ} : {A : Type ℓ} {B : Type κ} → Result A → (A → Result B) → Result B
ok a >>= f = f a
err e >>= f = err e
panic >>= f = panic
stuck >>= f = stuck

abbrev pub ◌>>◌ {ℓ} : {B : Type ℓ} → Result (Unit {0}) → Result B → Result B
m >> k = m >>= λ _. k

-- `if !test { return "", errors.New(...) }`
abbrev pub guard : Bool → SniffError → Result (Unit {0})
guard true e = ok tt
guard false e = err e

abbrev pub or_panic {ℓ} : {A : Type ℓ} → Option A → Result A
or_panic none = panic
or_panic (some a) = ok a

-- `buf[pos]`
unfoldable pub at : List ℕ → ℕ → Result ℕ
at buf pos = or_panic (get_elem? buf pos)

-- `binary.BigEndian.Uint16(buf[pos:])`: it needs two bytes.
unfoldable pub be16 : List ℕ → ℕ → Result ℕ
be16 buf pos = do hi ← at buf pos; lo ← at buf (pos + 1); ok (hi * 256 + lo)

-- Skips a vector with a one-byte length, which must not end the buffer.
unfoldable pub skip8 : List ℕ → ℕ → SniffError → Result ℕ
skip8 buf pos e = do n ← at buf pos; guard (ltb (pos + (1 + n)) (length buf)) e; ok (pos + (1 + n))

-- The same with a two-byte length.
unfoldable pub skip16 : List ℕ → ℕ → SniffError → Result ℕ
skip16 buf pos e = do
  n ← be16 buf pos
  guard (ltb (pos + (2 + n)) (length buf)) e
  ok (pos + (2 + n))

-- The body of the SNI extension, which begins at `pos`.
unfoldable pub server_name : List ℕ → ℕ → Result (List ℕ)
server_name buf pos = do
  guard (leb (pos + 2) (length buf)) bad_sni
  list_len ← be16 buf pos
  guard (leb (pos + 2 + list_len) (length buf)) bad_sni_list
  guard (leb (pos + 2 + 1) (length buf)) bad_name_type
  name_type ← at buf (pos + 2)
  guard (name_type == 0) bad_name_type
  guard (leb (pos + 3 + 2) (length buf)) bad_name_length
  name_len ← be16 buf (pos + 3)
  guard (leb (pos + 5 + name_len) (length buf)) bad_name_data
  ok (take name_len (drop (pos + 5) buf))

-- Type and length of the extension at `pos`.
unfoldable pub extension_header : List ℕ → ℕ → Result (ℕ × ℕ)
extension_header buf pos = do
  guard (leb (pos + 4) (length buf)) bad_extension_format
  ext_type ← be16 buf pos
  ext_len ← be16 buf (pos + 2)
  guard (leb (pos + 4 + ext_len) (length buf)) bad_extension
  ok (ext_type, ext_len)

-- `for pos < end`
unfoldable pub extensions_loop : ℕ → List ℕ → ℕ → ℕ → Result (List ℕ)
extensions_loop zero buf pos end = stuck
extensions_loop (suc fuel) buf pos end = elim (ltb pos end) [
  | false ↦ err sni_not_found
  | true ↦ do
    (ext_type, ext_len) ← extension_header buf pos
    elim (ext_type == 0) [
      | true ↦ server_name buf (pos + 4)
      | false ↦ extensions_loop fuel buf (pos + 4 + ext_len) end
    ]
]

-- From the number of bytes of extensions on. A round of the loop passes four bytes at least, so one
-- round more than there are bytes is enough.
unfoldable pub parse_extensions : List ℕ → ℕ → Result (List ℕ)
parse_extensions buf pos = do
  guard (leb (pos + 2) (length buf)) no_extensions
  ext_len ← be16 buf pos
  guard (leb (pos + 2 + ext_len) (length buf)) bad_extensions
  extensions_loop (suc (length buf)) buf (pos + 2) (pos + 2 + ext_len)

-- The three vectors between the fixed part and the extensions.
unfoldable pub parse_vectors : List ℕ → Result (List ℕ)
parse_vectors buf = do
  pos ← skip8 buf 43 bad_session_id
  pos ← skip16 buf pos bad_cipher_suites
  pos ← skip8 buf pos bad_comp_methods
  parse_extensions buf pos

unfoldable pub parse_client_hello : List ℕ → Result (List ℕ)
parse_client_hello buf = do
  guard (leb 5 (length buf)) buffer_too_short
  kind ← at buf 0
  guard (kind == 0x16) not_handshake
  guard (leb 43 (length buf)) not_client_hello
  message ← at buf 5
  guard (message == 1) not_client_hello
  parse_vectors buf
