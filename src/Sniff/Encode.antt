-- ===== src/Sniff/Encode.antt =====
-- A TLS record that holds a ClientHello with a server name, written out as RFC 5246 and RFC 6066
-- describe it: the reference against which the parser is read.
use streamf.Common.{ℕ, ◌/◌, ◌%◌, ◌<◌, ◌≡◌, ◌≢◌, List, [], ◌∷◌, ◌++◌, length, All}

-- Two bytes, the high one first.
unfoldable pub u16 : ℕ → List ℕ
u16 n = (n / 256 % 256) ∷ (n % 256) ∷ []

-- Vectors behind their length.
unfoldable pub vec8 : List ℕ → List ℕ
vec8 body = (length body % 256) ∷ body

unfoldable pub vec16 : List ℕ → List ℕ
vec16 body = u16 (length body) ++ body

unfoldable pub extension : ℕ → List ℕ → List ℕ
extension t body = u16 t ++ vec16 body

unfoldable pub extensions : List (ℕ × List ℕ) → List ℕ
extensions [] = []
extensions ((t, body) ∷ es) = extension t body ++ extensions es

-- The server name list: the first host name, then whatever else the client lists.
unfoldable pub name_list : List ℕ → List ℕ → List ℕ
name_list name others = vec16 (0 ∷ (vec16 name ++ others))

pub record Hello : Type 0 where
  pub major : ℕ
  pub minor : ℕ
  -- the length of the message, the version and the random bytes
  pub fixed : List ℕ
  pub session : List ℕ
  pub ciphers : List ℕ
  pub compressions : List ℕ
  pub before : List (ℕ × List ℕ)
  pub name : List ℕ
  pub others : List ℕ
  pub after : List (ℕ × List ℕ)

unfoldable pub extension_block : Hello → List ℕ
extension_block h =
    extensions h.before ++ (extension 0 (name_list h.name h.others) ++ extensions h.after)

unfoldable pub payload : Hello → List ℕ
payload h =
    1
    ∷ (h.fixed
        ++ (vec8 h.session
            ++ (vec16 h.ciphers ++ (vec8 h.compressions ++ vec16 (extension_block h)))))

unfoldable pub encode : Hello → List ℕ
encode h = 0x16 ∷ h.major ∷ h.minor ∷ vec16 (payload h)

-- The lengths fit their fields, and the server name extension is the first of its type.
pub record IsWellFormed (h : Hello) : Type 0 where
  pub fixed_length : length h.fixed ≡ 37
  pub session_fits : length h.session < 256
  pub compressions_fit : length h.compressions < 256
  pub fits : length (payload h) < 65536
  pub others_before : All (λ e. (e.0 ≢ 0) × (e.0 < 65536) × (length e.1 < 65536)) h.before
