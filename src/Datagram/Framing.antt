-- ===== src/Datagram/Framing.antt =====
-- Frames and the loop that takes them apart.
use streamf.Common.{
  ℕ, zero, suc, ◌+◌, ◌/◌, ◌%◌, ◌≤◌, ◌<◌, ◌≡◌, refl, sym, ◌∙◌, inl, inr, List, [], ◌∷◌, ◌++◌, some,
  Bool, true, false, ltb, ◌==◌, if◌then◌else◌, length, take, drop, arith, All, append-nil,
  append_assoc, take_append, drop_append, length-append, length-drop, Bool-cases,
}
use streamf.Datagram.{frame, le16, Drain, fit, drain_loop}

unfoldable pub frames : List (List ℕ) → List ℕ
frames [] = []
frames (d ∷ ds) = frame d ++ frames ds

-- The datagrams that hold a byte at least.
unfoldable pub non_empty : List (List ℕ) → List (List ℕ)
non_empty [] = []
non_empty ([] ∷ ds) = non_empty ds
non_empty ((x ∷ xs) ∷ ds) = (x ∷ xs) ∷ non_empty ds

-- A pooled buffer is given back once, whether it is outgrown or kept to the end.
abbrev pub owed : Drain → ℕ
owed d = d.put + (if d.pooled then 1 else 0)

fit-owed : (d : Drain) (n : ℕ) → owed (fit d n) ≡ owed d
unfolding fit
fit-owed d n = ground arith

pub drain_loop-total :
    (send : List ℕ → Bool) (fuel : ℕ) (stream : List ℕ) (d : Drain)
    → length stream < fuel
    → (d' : Drain) × (drain_loop send fuel stream d ≡ some d') × (owed d' ≡ owed d)
unfolding drain_loop
drain_loop-total send zero stream d h = absurd (omega arith)
drain_loop-total send (suc fuel) [] d h = (d, refl, refl)
drain_loop-total send (suc fuel) (lo ∷ []) d h = (d, refl, refl)
drain_loop-total send (suc fuel) (lo ∷ hi ∷ rest) d h =
    let n = le16 lo hi in
    let d' = fit d n in
    let o = fit-owed d n in
    let next = record d' { sent = d'.sent ++ (take n rest ∷ []) } in
    let (a, p, q) = drain_loop-total send fuel rest d' (omega arith) in
    let (b, r, t) =
      drain_loop-total send fuel (drop n rest) next (omega (arith, length-drop n rest)) in
    elim (Bool-cases (n == 0)) [
      | inl skip ↦ (a, ground arith, ground arith)
      | inr some_bytes ↦ elim (Bool-cases (ltb (length rest) n)) [
        | inl cut ↦ (d', ground arith, ground arith)
        | inr whole ↦ elim (Bool-cases (send (take n rest))) [
          | inl good ↦ (b, ground arith, ground arith)
          | inr bad ↦ (d', ground arith, ground arith)
        ]
      ]
    ]

pub fit-sent : (d : Drain) (n : ℕ) → (fit d n).sent ≡ d.sent
unfolding fit
fit-sent d n = ground arith

-- A round over a whole frame that is written.
drain_loop_whole :
    (send : List ℕ → Bool) (fuel lo hi : ℕ) (rest : List ℕ) (d : Drain)
    → 0 < le16 lo hi
    → le16 lo hi ≤ length rest
    → send (take (le16 lo hi) rest) ≡ true
    → drain_loop send (suc fuel) (lo ∷ hi ∷ rest) d
      ≡ drain_loop send fuel
          (drop (le16 lo hi) rest)
          (record (fit d (le16 lo hi)) { sent = d.sent ++ (take (le16 lo hi) rest ∷ []) })
unfolding drain_loop
drain_loop_whole send fuel lo hi rest d some_bytes enough good =
    let z : (le16 lo hi == 0) ≡ false = ground arith in
    let w : ltb (length rest) (le16 lo hi) ≡ false = ground arith in
    rw (z, w, good, fit-sent d (le16 lo hi))

drain_loop-frame :
    (send : List ℕ → Bool) (fuel : ℕ) (x : ℕ) (xs rest : List ℕ) (d : Drain)
    → length (x ∷ xs) < 65536
    → send (x ∷ xs) ≡ true
    → drain_loop send (suc fuel) (frame (x ∷ xs) ++ rest) d
      ≡ drain_loop send fuel rest
          (record (fit d (length (x ∷ xs))) { sent = d.sent ++ ((x ∷ xs) ∷ []) })
unfolding frame
drain_loop-frame send fuel x xs rest d lt ok =
    let n = suc (length xs) in
    let lo = n % 65536 % 256 in
    let hi = n % 65536 / 256 in
    let e : le16 lo hi ≡ n = omega arith in
    let t : take (le16 lo hi) (x ∷ (xs ++ rest)) ≡ x ∷ xs =
      rw e (take_append n (x ∷ xs) rest refl) in
    let u : drop (le16 lo hi) (x ∷ (xs ++ rest)) ≡ rest = rw e (drop_append n (x ∷ xs) rest refl) in
    let step =
      drain_loop_whole send fuel lo hi (x ∷ (xs ++ rest)) d (omega (arith, e))
        (omega (arith, e, length-append xs rest)) (rw t ok) in
    rw (t, u, e) at step

drain_loop-empty :
    (send : List ℕ → Bool) (fuel : ℕ) (rest : List ℕ) (d : Drain)
    → drain_loop send (suc fuel) (frame [] ++ rest) d ≡ drain_loop send fuel rest d
unfolding drain_loop frame fit
drain_loop-empty send fuel rest d = ground arith

-- With every write succeeding, the loop over some frames sends their datagrams and goes on behind.
pub drain_loop-frames :
    (send : List ℕ → Bool) (ds : List (List ℕ)) (fuel : ℕ) (rest : List ℕ) (d : Drain)
    → ((x : List ℕ) → send x ≡ true)
    → All (λ x. length x < 65536) ds
    → (d' : Drain) × (drain_loop send (length ds + fuel) (frames ds ++ rest) d
        ≡ drain_loop send fuel rest d')
      × (d'.sent ≡ d.sent ++ non_empty ds)
unfolding frames non_empty
drain_loop-frames send [] fuel rest d ok small =
    let e : 0 + fuel ≡ fuel = omega arith in (d, rw e, sym (append-nil d.sent))
drain_loop-frames send ([] ∷ ds) fuel rest d ok small =
    let (d', p, q) = drain_loop-frames send ds fuel rest d ok small.1 in
    let e : suc (length ds) + fuel ≡ suc (length ds + fuel) = omega arith in
    (
      d',
      rw (e, append_assoc (frame []) (frames ds) rest)
          (drain_loop-empty send (length ds + fuel) (frames ds ++ rest) d ∙ p),
      q,
    )
drain_loop-frames send ((x ∷ xs) ∷ ds) fuel rest d ok small =
    let next = record (fit d (length (x ∷ xs))) { sent = d.sent ++ ((x ∷ xs) ∷ []) } in
    let (d', p, q) = drain_loop-frames send ds fuel rest next ok small.1 in
    let e : suc (length ds) + fuel ≡ suc (length ds + fuel) = omega arith in
    (
      d',
      rw (e, append_assoc (frame (x ∷ xs)) (frames ds) rest)
          (drain_loop-frame send (length ds + fuel) x xs (frames ds ++ rest) d small.0 (ok (x ∷ xs))
            ∙ p),
      q ∙ append_assoc d.sent ((x ∷ xs) ∷ []) (non_empty ds),
    )
