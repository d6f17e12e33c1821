-- ===== src/Capture/Sniffed.antt =====
-- The whole of `sniffSNI` over a connection: what it keeps, what it finds, and where it panics.
use streamf.Common.{
  ℕ, suc, ◌+◌, ◌*◌, ◌/◌, ◌%◌, ◌≤◌, ◌<◌, ◌≡◌, ◌≢◌, refl, subst, inl, inr, List, [], ◌∷◌, ◌++◌, none,
  some, Bool, true, false, not, ltb, ◌==◌, if◌then◌else◌, length, take, drop, arith, length-take,
  take-append-drop, take_append, drop_append, drop-all, append-nil, Bool-cases, Option-cases,
}
use streamf.Sniff.{
  Result, ok, err, panic, stuck, header_read, body_read, not_client_hello, at, be16,
  parse_client_hello,
}
use streamf.Sniff.Step.{at-lt, be16-lt}
use streamf.Sniff.Faults.{parse-panic_iff}
use streamf.Sniff.Encode.{Hello, IsWellFormed, encode, payload, vec16, u16}
use streamf.Sniff.RoundTrip.{parse-encode, payload_parts}
use streamf.Capture.{Capture, captured, read_client_hello, finish, sniff_sni}
use streamf.Capture.Replay.{body_spec, checked_spec, read_spec, read-read_spec}

-- Nothing of the stream is lost, and the connection is closed only where the stream has ended.
pub record Kept (incoming : List ℕ) (c : Capture) : Type 0 where
  pub bytes : c.buf ++ c.rest ≡ incoming
  pub ended : c.closed ≡ true → c.rest ≡ []
  pub reported : c.closed ≡ true → c.error ≢ none

body_spec-Kept :
    (len : ℕ) (incoming : List ℕ)
    → 0 < len
    → (c : Capture) × (body_spec len incoming ≡ ok c) × Kept incoming c
unfolding body_spec
body_spec-Kept len incoming some_len =
    let t = take-append-drop (5 + len) incoming in
    let l = length-take (5 + len) incoming in
    elim (Bool-cases (ltb (length (take (5 + len) incoming)) (5 + len))) [
      | inl short ↦
          let d = drop-all (5 + len) incoming (ground (arith, l)) in
          (
            captured (take (5 + len) incoming) true (some body_read) (drop (5 + len) incoming),
            ground arith,
            record { bytes = t; ended = λ _. d; reported = λ _ e. cc },
          )
      | inr full ↦
          let (b, p) = at-lt (take (5 + len) incoming) 5 (ground arith) in
          (
            captured (take (5 + len) incoming) false
                (if b == 1 then none else some not_client_hello) (drop (5 + len) incoming),
            ground arith,
            record { bytes = t; ended = λ e. cc; reported = λ e. cc },
          )
    ]

checked_spec-Kept :
    (bad short : Bool) (len : ℕ) (incoming : List ℕ)
    → (short ≡ false → 0 < len)
    → (c : Capture) × (checked_spec bad short len incoming ≡ ok c) × Kept incoming c
unfolding checked_spec
checked_spec-Kept true short len incoming h =
    (_, refl, record { bytes = take-append-drop 5 incoming; ended = λ e. cc; reported = λ e. cc })
checked_spec-Kept false true len incoming h =
    (_, refl, record { bytes = take-append-drop 5 incoming; ended = λ e. cc; reported = λ e. cc })
checked_spec-Kept false false len incoming h = body_spec-Kept len incoming (h refl)

-- Reading never panics: on every stream it hands back what it took.
pub read_client_hello-Kept :
    (mem incoming : List ℕ)
    → 5 ≤ length mem
    → (c : Capture) × (read_client_hello mem incoming ≡ ok c) × Kept incoming c
unfolding read_spec
read_client_hello-Kept mem incoming room =
    rw (read-read_spec mem incoming room) (elim (Bool-cases (ltb (length incoming) 5)) [
      | inl short ↦ (
        captured incoming true (some header_read) [],
        rw short,
        record { bytes = append-nil incoming; ended = λ _. refl; reported = λ _ e. cc },
      )
      | inr long ↦
          let (kind, p) = at-lt incoming 0 (ground arith) in
          let (len, q) = be16-lt incoming 3 (ground arith) in
          let (c, r, k) =
            checked_spec-Kept (not (kind == 0x16)) (ltb len 38) len incoming (λ e. ground arith) in
          (c, rw (long, p, q) r, k)
    ])

finish-Kept :
    (incoming name : List ℕ) (c d : Capture) (r : Result (List ℕ))
    → Kept incoming d
    → finish d r ≡ ok (name, c)
    → Kept incoming c
unfolding finish
finish-Kept incoming name c d (ok sni) k h = subst (Kept incoming) (cc) k
finish-Kept incoming name c d (err e) k h =
    let k' : Kept incoming (record d { error = some e }) = record {
      bytes = k.bytes;
      ended = k.ended;
      reported = λ _ q. cc;
    } in
    subst (Kept incoming) (cc) k'
finish-Kept incoming name c d panic k h = absurd (ground arith)
finish-Kept incoming name c d stuck k h = absurd (ground arith)

-- A whole record is captured as it stands.
read_whole :
    (mem : List ℕ) (major minor hi lo : ℕ) (body rest : List ℕ)
    → 5 ≤ length mem
    → hi * 256 + lo ≡ suc (length body)
    → 37 ≤ length body
    → read_client_hello mem (0x16 ∷ major ∷ minor ∷ hi ∷ lo ∷ 1 ∷ (body ++ rest))
      ≡ ok (captured (0x16 ∷ major ∷ minor ∷ hi ∷ lo ∷ 1 ∷ body) false none rest)
unfolding read_spec be16 at checked_spec body_spec
read_whole mem major minor hi lo body rest room e long =
    let whole : List ℕ = 0x16 ∷ major ∷ minor ∷ hi ∷ lo ∷ 1 ∷ body in
    let not_short : ltb (length (whole ++ rest)) 5 ≡ false = ground arith in
    let fits : ltb (suc (length body)) 38 ≡ false = ground arith in
    let n : 5 + suc (length body) ≡ length whole = omega arith in
    let t = take_append (length whole) whole rest refl in
    let full : ltb (length (take (length whole) (whole ++ rest))) (length whole) ≡ false =
      ground (arith, t) in
    rw (
      read-read_spec mem (whole ++ rest) room,
      not_short,
      e,
      fits,
      n,
      full,
      t,
      drop_append (length whole) whole rest refl,
    )

-- Whenever sniffing returns, with a name or an error, the captured bytes followed by those still to
-- come are the stream as it was; a connection that it closed had ended, and is reported as an
-- error.
pub sniff-Kept :
    (mem incoming name : List ℕ) (c : Capture)
    → 5 ≤ length mem
    → sniff_sni mem incoming ≡ ok (name, c)
    → Kept incoming c
unfolding sniff_sni finish
sniff-Kept mem incoming name c room h =
    let (d, p, k) = read_client_hello-Kept mem incoming room in
    elim (Option-cases d.error) [
      | inr (e, q) ↦ subst (Kept incoming) (ground arith) k
      | inl q ↦ finish-Kept incoming name c d (parse_client_hello d.buf) k (ground arith)
    ]

read_encode :
    (h : Hello) (mem rest : List ℕ)
    → IsWellFormed h
    → 5 ≤ length mem
    → read_client_hello mem (encode h ++ rest) ≡ ok (captured (encode h) false none rest)
unfolding encode vec16 u16 payload
read_encode h mem rest w room =
    read_whole mem h.major h.minor (length (payload h) / 256 % 256) (length (payload h) % 256) _
      rest room (omega (arith, w.fits)) (omega (arith, payload_parts h, w.fixed_length))

-- A connection that opens with a well-formed ClientHello carrying a server name is sniffed to that
-- name; the record is captured whole, nothing behind it is taken, and the content and size of the
-- pooled buffer do not matter.
pub sniff-encode :
    (h : Hello) (mem rest : List ℕ)
    → IsWellFormed h
    → 5 ≤ length mem
    → sniff_sni mem (encode h ++ rest) ≡ ok (h.name, captured (encode h) false none rest)
unfolding sniff_sni finish
sniff-encode h mem rest w room =
    let r = read_encode h mem rest w room in ground (arith, r, parse-encode h w)

-- Every connection whose first bytes announce a TLS record of 38 bytes that holds a ClientHello
-- makes the sniffing panic.
sniff-panic :
    (mem : List ℕ) (major minor : ℕ) (random rest : List ℕ)
    → 5 ≤ length mem
    → length random ≡ 37
    → sniff_sni mem (0x16 ∷ major ∷ minor ∷ 0 ∷ 38 ∷ 1 ∷ (random ++ rest)) ≡ panic
unfolding sniff_sni finish
sniff-panic mem major minor random rest room l =
    let whole : List ℕ = 0x16 ∷ major ∷ minor ∷ 0 ∷ 38 ∷ 1 ∷ random in
    let r = read_whole mem major minor 0 38 random rest room (omega arith) (omega arith) in
    let p : parse_client_hello whole ≡ panic =
      (parse-panic_iff whole).1 ((omega arith, refl, refl), inl (omega arith)) in
    ground (arith, r, p)
