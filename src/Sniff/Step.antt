-- ===== src/Sniff/Step.antt =====
-- Reads inside the buffer, and the steps of the parser that guard each of theirs.
use streamf.Common.{
  ℕ, zero, suc, ◌+◌, ◌*◌, ◌≤◌, ◌<◌, ◌≡◌, ◌⊎◌, inl, inr, List, ltb, leb, arith, length, get_elem?-lt,
  get_elem?-ge, Bool-cases,
}
use streamf.Sniff.{
  Result, SniffError, ok, err, panic, stuck, at, be16, server_name, extension_header,
  extensions_loop, parse_extensions,
}

-- A value or an error: no panic, and no loop cut short.
abbrev pub Returns {ℓ} : {A : Type ℓ} → Result A → Type 0
Returns (ok a) = Unit {0}
Returns (err e) = Unit {0}
Returns panic = ⊥
Returns stuck = ⊥

pub at-lt : (buf : List ℕ) (i : ℕ) → i < length buf → (b : ℕ) × (at buf i ≡ ok b)
unfolding at
at-lt buf i h = let (b, e) = get_elem?-lt buf i h in (b, rw e)

pub at-ge : (buf : List ℕ) (i : ℕ) → length buf ≤ i → at buf i ≡ panic
unfolding at
at-ge buf i h = rw (get_elem?-ge buf i h)

pub be16-lt : (buf : List ℕ) (pos : ℕ) → pos + 2 ≤ length buf → (n : ℕ) × (be16 buf pos ≡ ok n)
unfolding be16
be16-lt buf pos h =
    let (hi, p) = at-lt buf pos (omega arith) in
    let (lo, q) = at-lt buf (pos + 1) (omega arith) in (hi * 256 + lo, rw (p, q))

pub be16-ge : (buf : List ℕ) (pos : ℕ) → length buf ≤ pos + 1 → be16 buf pos ≡ panic
unfolding be16
be16-ge buf pos h = elim (Bool-cases (ltb pos (length buf))) [
  | inl below ↦
      let (hi, p) = at-lt buf pos (ground arith) in ground (arith, p, at-ge buf (pos + 1) h)
  | inr above ↦ ground (arith, at-ge buf pos)
]

-- Every read of the SNI extension is guarded.
pub server_name-Returns : (buf : List ℕ) (pos : ℕ) → Returns (server_name buf pos)
unfolding server_name
server_name-Returns buf pos = elim (Bool-cases (leb (pos + 2) (length buf))) [
  | inr short ↦ ground arith
  | inl room ↦
      let (n, p) = be16-lt buf pos (ground arith) in
      elim (Bool-cases (leb (pos + 5) (length buf))) [
        | inr short ↦ elim (Bool-cases (leb (pos + 2 + 1) (length buf))) [
          | inr shorter ↦ ground arith
          | inl room' ↦ let (b, q) = at-lt buf (pos + 2) (ground arith) in ground arith
        ]
        | inl room' ↦
            let (b, q) = at-lt buf (pos + 2) (ground arith) in
            let (m, r) = be16-lt buf (pos + 3) (ground arith) in ground arith
      ]
]

-- An extension's header is an error, or its body lies in the buffer.
pub extension_header-cases :
    (buf : List ℕ) (pos : ℕ)
    → ((e : SniffError) × (extension_header buf pos ≡ err e))
      ⊎ ((t l : ℕ) × (extension_header buf pos ≡ ok (t, l)) × (pos + 4 + l ≤ length buf))
unfolding extension_header
extension_header-cases buf pos = elim (Bool-cases (leb (pos + 4) (length buf))) [
  | inr short ↦ inl (SniffError.bad_extension_format, ground arith)
  | inl room ↦
      let (t, p) = be16-lt buf pos (ground arith) in
      let (l, q) = be16-lt buf (pos + 2) (ground arith) in
      elim (Bool-cases (leb (pos + 4 + l) (length buf))) [
        | inr long ↦ inl (SniffError.bad_extension, ground arith)
        | inl fits ↦ inr (t, l, ground arith, ground arith)
      ]
]

-- Enough fuel: a round for each byte left, and one more.
pub extensions_loop-Returns :
    (fuel : ℕ) (buf : List ℕ) (pos end : ℕ)
    → 0 < fuel
    → end < fuel + pos
    → Returns (extensions_loop fuel buf pos end)
unfolding extensions_loop
extensions_loop-Returns zero buf pos end h k = absurd (omega arith)
extensions_loop-Returns (suc fuel) buf pos end h k = elim (Bool-cases (ltb pos end)) [
  | inr over ↦ ground arith
  | inl more ↦ elim (extension_header-cases buf pos) [
    | inl (e, p) ↦ ground arith
    | inr (t, l, p, q) ↦ ground (
      arith,
      server_name-Returns buf (pos + 4),
      extensions_loop-Returns fuel buf (pos + 4 + l) end,
    )
  ]
]

pub parse_extensions-Returns : (buf : List ℕ) (pos : ℕ) → Returns (parse_extensions buf pos)
unfolding parse_extensions
parse_extensions-Returns buf pos = elim (Bool-cases (leb (pos + 2) (length buf))) [
  | inr short ↦ ground arith
  | inl room ↦
      let (n, p) = be16-lt buf pos (ground arith) in
      ground (
        arith,
        extensions_loop-Returns (suc (length buf)) buf (pos + 2) (pos + 2 + n) (omega arith),
      )
]
