-- ===== src/Sniff/Sound.antt =====
-- What a successful parse says of the buffer.
use streamf.Common.{
  ℕ, zero, suc, subst, ◌&&◌, ap, ◌∙◌, sym, ◌+◌, ◌≤◌, ◌≡◌, ◌⊎◌, inl, inr, List, ◌==◌, ltb, leb, refl,
  sym, ap, ◌∙◌, arith, length, take, drop, length-take, length-drop, Bool-cases,
}
use streamf.Sniff.{
  Result, SniffError, ok, err, panic, stuck, ◌>>=◌, at, be16, skip8, skip16, server_name,
  extensions_loop, parse_extensions, parse_vectors, parse_client_hello,
}
use streamf.Sniff.Step.{at-lt, be16-lt, server_name-Returns, extension_header-cases}
use streamf.Sniff.Faults.{header-cases}

-- A host name: its type, its length in two bytes, and the name itself, all within the buffer.
pub record NameAt (buf : List ℕ) (name : List ℕ) : Type 0 where
  pub start : ℕ
  pub is_host : at buf start ≡ ok 0
  pub counted : be16 buf (start + 1) ≡ ok (length name)
  pub within : start + 3 + length name ≤ length buf
  pub text : name ≡ take (length name) (drop (start + 3) buf)

abbrev IsFailure {ℓ} : {A : Type ℓ} → Result A → Type 0
IsFailure (ok a) = ⊥
IsFailure _ = Unit {0}

server_name-cases :
    (buf : List ℕ) (pos : ℕ)
    → IsFailure (server_name buf pos)
      ⊎ ((n : ℕ) × (at buf (pos + 2) ≡ ok 0)
          × (be16 buf (pos + 3) ≡ ok n)
          × (pos + 5 + n ≤ length buf)
          × (server_name buf pos ≡ ok (take n (drop (pos + 5) buf))))
unfolding server_name
server_name-cases buf pos = elim (Bool-cases (leb (pos + 5) (length buf))) [
  | inr short ↦ inl (ground (arith, server_name-Returns buf pos))
  | inl room ↦
      let (l, p) = be16-lt buf pos (ground arith) in
      let (b, q) = at-lt buf (pos + 2) (ground arith) in
      let (n, r) = be16-lt buf (pos + 3) (ground arith) in
      elim (Bool-cases
        (leb (pos + 2 + l) (length buf) && (b == 0) && leb (pos + 5 + n) (length buf))) [
          | inr bad ↦ inl (ground arith)
          | inl good ↦ inr (n, ground arith, r, ground arith, ground arith)
        ]
]

server_name-NameAt :
    (buf : List ℕ) (pos : ℕ) (name : List ℕ) → server_name buf pos ≡ ok name → NameAt buf name
server_name-NameAt buf pos name h = elim (server_name-cases buf pos) [
  | inl f ↦ absurd (subst IsFailure h f)
  | inr (n, zero_type, at_len, room, p) ↦
      let e : name ≡ take n (drop (pos + 5) buf) = ground arith in
      let l : length name ≡ n =
        omega (arith, ap length e, length-take n (drop (pos + 5) buf), length-drop (pos + 5) buf) in
      let three : pos + 2 + 1 ≡ pos + 3 = omega arith in
      let five : pos + 2 + 3 ≡ pos + 5 = omega arith in
      record {
        start = pos + 2;
        is_host = zero_type;
        counted = rw (three, l) at_len;
        within = rw (five, l) room;
        text = rw (five, l) e;
      }
]

extensions_loop-NameAt :
    (fuel : ℕ) (buf : List ℕ) (pos end : ℕ) (name : List ℕ)
    → extensions_loop fuel buf pos end ≡ ok name
    → NameAt buf name
unfolding extensions_loop
extensions_loop-NameAt zero buf pos end name h = absurd (ground arith)
extensions_loop-NameAt (suc fuel) buf pos end name h = elim (Bool-cases (ltb pos end)) [
  | inr over ↦ absurd (ground arith)
  | inl more ↦ elim (extension_header-cases buf pos) [
    | inl (e, p) ↦ absurd (ground arith)
    | inr (t, l, p, _) ↦ elim (Bool-cases (t == 0)) [
      | inl sni ↦ server_name-NameAt buf (pos + 4) name (ground arith)
      | inr other ↦ extensions_loop-NameAt fuel buf (pos + 4 + l) end name (ground arith)
    ]
  ]
]

parse_extensions-NameAt :
    (buf : List ℕ) (pos : ℕ) (name : List ℕ) → parse_extensions buf pos ≡ ok name → NameAt buf name
unfolding parse_extensions
parse_extensions-NameAt buf pos name h = elim (Bool-cases (leb (pos + 2) (length buf))) [
  | inr short ↦ absurd (ground arith)
  | inl room ↦
      let (n, p) = be16-lt buf pos (ground arith) in
      extensions_loop-NameAt (suc (length buf)) buf (pos + 2) (pos + 2 + n) name (ground arith)
]

Result-cases {ℓ} : {A : Type ℓ} (m : Result A) → IsFailure m ⊎ ((a : A) × (m ≡ ok a))
Result-cases (ok a) = inr (a, refl)
Result-cases (err e) = inl tt
Result-cases panic = inl tt
Result-cases stuck = inl tt

>>=-IsFailure {ℓ κ} :
    {A : Type ℓ} {B : Type κ} (m : Result A) (f : A → Result B) → IsFailure m → IsFailure (m >>= f)
>>=-IsFailure (ok a) f h = absurd h
>>=-IsFailure (err e) f h = tt
>>=-IsFailure panic f h = tt
>>=-IsFailure stuck f h = tt

parse_vectors-reaches :
    (buf : List ℕ)
    → IsFailure (parse_vectors buf) ⊎ ((pos : ℕ) × (parse_vectors buf ≡ parse_extensions buf pos))
unfolding parse_vectors
parse_vectors-reaches buf = elim (Result-cases (skip8 buf 43 SniffError.bad_session_id)) [
  | inl f ↦ inl (>>=-IsFailure (skip8 buf 43 SniffError.bad_session_id) _ f)
  | inr (a, p) ↦ elim (Result-cases (skip16 buf a SniffError.bad_cipher_suites)) [
    | inl f ↦ inl (rw p (>>=-IsFailure (skip16 buf a SniffError.bad_cipher_suites) _ f))
    | inr (b, q) ↦ elim (Result-cases (skip8 buf b SniffError.bad_comp_methods)) [
      | inl f ↦ inl (rw (p, q) (>>=-IsFailure (skip8 buf b SniffError.bad_comp_methods) _ f))
      | inr (c, r) ↦ inr (c, rw (p, q, r))
    ]
  ]
]

parse_vectors-NameAt : (buf name : List ℕ) → parse_vectors buf ≡ ok name → NameAt buf name
parse_vectors-NameAt buf name h = elim (parse_vectors-reaches buf) [
  | inl f ↦ absurd (subst IsFailure h f)
  | inr (pos, p) ↦ parse_extensions-NameAt buf pos name (sym p ∙ h)
]

-- A name that the parser returns lies within the buffer, behind a zero byte for its type and its
-- own length in two bytes.
parse-NameAt : (buf name : List ℕ) → parse_client_hello buf ≡ ok name → NameAt buf name
parse-NameAt buf name h = elim (header-cases buf) [
  | inr (_, e, p) ↦ absurd (ground arith)
  | inl (hello, p) ↦ parse_vectors-NameAt buf name (sym p ∙ h)
]
