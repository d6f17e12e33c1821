-- ===== src/Sniff/Faults.antt =====
-- Where the parser can fail at run time: its first two unguarded reads, and no other.
use streamf.Common.{
  ℕ, ◌+◌, ◌≤◌, ◌<◌, ◌≡◌, ◌⊎◌, ◌↔◌, inl, inr, List, ◌==◌, ltb, leb, some, arith, subst, sym, ◌∙◌,
  length, get_elem?, Bool-cases,
}
use streamf.Sniff.{
  SniffError, ok, err, panic, ◌>>=◌, at, skip8, skip16, parse_extensions, parse_vectors,
  parse_client_hello,
}
use streamf.Sniff.Step.{Returns, at-lt, at-ge, be16-lt, be16-ge, parse_extensions-Returns}

pub skip8-cases :
    (buf : List ℕ) (pos : ℕ) (e : SniffError)
    → pos < length buf
    → (n : ℕ) × (at buf pos ≡ ok n)
      × (((skip8 buf pos e ≡ err e) × (length buf ≤ pos + (1 + n)))
          ⊎ ((skip8 buf pos e ≡ ok (pos + (1 + n))) × (pos + (1 + n) < length buf)))
unfolding skip8
skip8-cases buf pos e h =
    let (n, p) = at-lt buf pos h in
    elim (Bool-cases (ltb (pos + (1 + n)) (length buf))) [
      | inl t ↦ (n, p, inr (ground arith, ground arith))
      | inr t ↦ (n, p, inl (ground arith, ground arith))
    ]

pub skip16-cases :
    (buf : List ℕ) (pos : ℕ) (e : SniffError)
    → pos + 2 ≤ length buf
    → ((skip16 buf pos e ≡ err e) ⊎ ((n : ℕ) × (skip16 buf pos e ≡ ok n) × (n < length buf)))
unfolding skip16
skip16-cases buf pos e h =
    let (n, p) = be16-lt buf pos h in
    elim (Bool-cases (ltb (pos + (2 + n)) (length buf))) [
      | inl t ↦ inr (pos + (2 + n), ground arith, ground arith)
      | inr t ↦ inl (ground arith)
    ]

skip8_past : (buf : List ℕ) (pos : ℕ) (e : SniffError) → length buf ≤ pos → skip8 buf pos e ≡ panic
unfolding skip8
skip8_past buf pos e h = rw (at-ge buf pos h)

skip16_past :
    (buf : List ℕ) (pos : ℕ) (e : SniffError) → length buf ≤ pos + 1 → skip16 buf pos e ≡ panic
unfolding skip16
skip16_past buf pos e h = rw (be16-ge buf pos h)

-- From the cipher suites on, with two bytes to read their length from.
vectors_tail :
    (buf : List ℕ) (pos : ℕ)
    → pos + 2 ≤ length buf
    → Returns (
        skip16 buf pos SniffError.bad_cipher_suites >>= λ pos'.
        (skip8 buf pos' SniffError.bad_comp_methods >>= parse_extensions buf))
vectors_tail buf pos h = elim (skip16-cases buf pos SniffError.bad_cipher_suites h) [
  | inl e ↦ rw e tt
  | inr (n, e, lt) ↦
      let (m, a, c) = skip8-cases buf n SniffError.bad_comp_methods lt in
      elim c [
        | inl (e', _) ↦ rw (e, e') tt
        | inr (e', _) ↦ rw (e, e') (parse_extensions-Returns buf (n + (1 + m)))
      ]
]

-- The length of the session identifier is missing, or the identifier leaves one byte only.
abbrev pub Overruns : List ℕ → Type 0
Overruns buf = (length buf ≡ 43) ⊎ ((n : ℕ) × (get_elem? buf 43 ≡ some n) × (length buf ≡ 45 + n))

-- The fixed part is that of a ClientHello.
abbrev pub IsHello : List ℕ → Type 0
IsHello buf = (43 ≤ length buf) × (get_elem? buf 0 ≡ some 0x16) × (get_elem? buf 5 ≡ some 1)

at-eq-ok : (buf : List ℕ) (i : ℕ) {b : ℕ} → at buf i ≡ ok b → get_elem? buf i ≡ some b
unfolding at
at-eq-ok buf i h = ground arith

parse_vectors-cases :
    (buf : List ℕ)
    → 43 ≤ length buf
    → ((parse_vectors buf ≡ panic) × Overruns buf)
      ⊎ (Returns (parse_vectors buf) × (¬ Overruns buf))
unfolding parse_vectors
parse_vectors-cases buf h = elim (Bool-cases (length buf == 43)) [
  | inl exact ↦
      inl (rw (skip8_past buf 43 SniffError.bad_session_id (ground arith)), inl (ground arith))
  | inr more ↦
      let (n, p, c) = skip8-cases buf 43 SniffError.bad_session_id (ground arith) in
      let q = at-eq-ok buf 43 p in
      elim c [
        | inl (e, short) ↦ inr (rw e tt, λ o. ground arith)
        | inr (e, room) ↦ elim (Bool-cases (length buf == 45 + n)) [
          | inl exact ↦ inl (
            rw (e, skip16_past buf (43 + (1 + n)) SniffError.bad_cipher_suites (ground arith)),
            inr (n, q, ground arith),
          )
          | inr more' ↦
              inr (rw e (vectors_tail buf (43 + (1 + n)) (ground arith)), λ o. ground arith)
        ]
      ]
]

-- The fixed part is refused with an error, or the vectors follow.
pub header-cases :
    (buf : List ℕ)
    → (IsHello buf × (parse_client_hello buf ≡ parse_vectors buf))
      ⊎ ((¬ IsHello buf) × (e : SniffError) × (parse_client_hello buf ≡ err e))
unfolding parse_client_hello
header-cases buf = elim (Bool-cases (leb 5 (length buf))) [
  | inr short ↦ inr (λ h. ground arith, SniffError.buffer_too_short, ground arith)
  | inl room ↦
      let (a, p) = at-lt buf 0 (ground arith) in
      let p' = at-eq-ok buf 0 p in
      elim (Bool-cases (a == 0x16)) [
        | inr other ↦ inr (λ h. ground arith, SniffError.not_handshake, ground arith)
        | inl kind ↦ elim (Bool-cases (leb 43 (length buf))) [
          | inr short ↦ inr (λ h. ground arith, SniffError.not_client_hello, ground arith)
          | inl long ↦
              let (b, q) = at-lt buf 5 (ground arith) in
              let q' = at-eq-ok buf 5 q in
              elim (Bool-cases (b == 1)) [
                | inr other ↦ inr (λ h. ground arith, SniffError.not_client_hello, ground arith)
                | inl hello ↦ inl ((ground arith, ground arith, ground arith), ground arith)
              ]
        ]
      ]
]

-- The parser panics on exactly those buffers whose fixed part is that of a ClientHello and that end
-- at the length of the session identifier or one byte into the length of the cipher suites.
pub parse-panic_iff :
    (buf : List ℕ) → (parse_client_hello buf ≡ panic) ↔ (IsHello buf × Overruns buf)
parse-panic_iff buf = elim (header-cases buf) [
  | inr (n, e, p) ↦ (λ h. cc, λ (hello, _). absurd (n hello))
  | inl (hello, p) ↦ elim (parse_vectors-cases buf hello.0) [
    | inl (q, over) ↦ (λ _. (hello, over), λ _. p ∙ q)
    | inr (r, n) ↦ (λ h. absurd (subst Returns (sym p ∙ h) r), λ (_, over). absurd (n over))
  ]
]

-- On every buffer that does not meet the condition of the panic, the parser returns a name or an
-- error: the loop over the extensions ends.
pub parse-Returns :
    (buf : List ℕ) → (¬ (IsHello buf × Overruns buf)) → Returns (parse_client_hello buf)
parse-Returns buf h = elim (header-cases buf) [
  | inr (n, e, p) ↦ rw p tt
  | inl (hello, p) ↦ elim (parse_vectors-cases buf hello.0) [
    | inl (q, over) ↦ absurd (h (hello, over))
    | inr (r, n) ↦ rw p r
  ]
]
