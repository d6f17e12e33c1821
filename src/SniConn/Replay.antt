-- ===== src/SniConn/Replay.antt =====
-- Reading through `sniConn` gives the captured bytes and then the rest of the stream.
use streamf.Common.{
  ℕ, zero, suc, ◌+◌, ◌≤◌, ◌<◌, ◌≡◌, ◌≢◌, refl, sym, ap, ◌∙◌, inl, inr, List, [], ◌∷◌, ◌++◌, none,
  some, ◌==◌, leb, if◌then◌else◌, length, take, drop, arith, take-append-drop-length, nil_of_length,
  append-nil, drop-drop, drop-all, append_assoc, Bool-cases, Option-cases,
}
use streamf.SniConn.{SniConn, read_buffer, read, read_each}

-- What is left of the captured bytes.
abbrev pub pending {ℓ} : {S : Type ℓ} → SniConn S → List ℕ
pending s = elim s.buffer [ none ↦ [] | some buf ↦ drop s.n buf ]

-- 1 while the buffer is held.
abbrev pub held {ℓ} : {S : Type ℓ} → SniConn S → ℕ
held s = elim s.buffer [ none ↦ 0 | some _ ↦ 1 ]

take-ne-nil : (k : ℕ) (xs : List ℕ) → 0 < k → xs ≢ [] → take k xs ≢ []
take-ne-nil zero xs h ne = absurd (omega arith)
take-ne-nil (suc k) [] h ne = absurd (ne refl)
take-ne-nil (suc k) (x ∷ xs) h ne = λ e. cc

took :
    (k n : ℕ) (buf : List ℕ)
    → take k (drop n buf) ++ drop (n + length (take k (drop n buf))) buf ≡ drop n buf
took k n buf =
    ap (λ l. take k (drop n buf) ++ l) (sym (drop-drop (length (take k (drop n buf))) n buf))
    ∙ take-append-drop-length k (drop n buf)

-- A read from the buffer takes it off the front, and leaves the connection alone.
read_buffer-pending {ℓ} :
    {S : Type ℓ} (inner : S → ℕ → List ℕ × S) (pool_size : ℕ) (s : SniConn S) (buf : List ℕ) (k : ℕ)
    → s.buffer ≡ some buf
    → let (got, s') = read_buffer inner pool_size s buf k in
      (got ++ pending s' ≡ pending s) × (s'.conn ≡ s.conn)
unfolding read_buffer
read_buffer-pending inner pool_size s buf k p =
    let t = took k s.n buf in
    let got = take k (drop s.n buf) in
    elim (Bool-cases (leb (length buf) (s.n + length got))) [
      | inl over ↦
          let d : drop (s.n + length got) buf ≡ [] = drop-all _ buf (ground arith) in
          ground (arith, append-nil got)
      | inr more ↦ ground arith
    ]

module _ {ℓ} {S : Type ℓ} (inner : S → ℕ → List ℕ × S) (pool_size : ℕ) (todo : S → List ℕ)
    (reads : (s : S) (k : ℕ) → (inner s k).0 ++ todo (inner s k).1 ≡ todo s)
    (within : (s : S) (k : ℕ) → length (inner s k).0 ≤ k) where
  -- All the bytes that the reader is still to see.
  abbrev stream : SniConn S → List ℕ
  stream s = pending s ++ todo s.conn

  read-stream :
      (s : SniConn S) (k : ℕ)
      → (read inner pool_size s k).0 ++ stream (read inner pool_size s k).1 ≡ stream s
  unfolding read
  read-stream s k = elim (Option-cases s.buffer) [
    | inl p ↦ ground (arith, reads s.conn k)
    | inr (buf, p) ↦ elim (Bool-cases (k == 0)) [
      | inl none_wanted ↦
          let e = nil_of_length (inner s.conn k).0 (ground (arith, within s.conn k)) in
          ground (arith, reads s.conn k)
      | inr wanted ↦
          let (a, b) = read_buffer-pending inner pool_size s buf k p in
          let g = (read_buffer inner pool_size s buf k).0 in
          let r = pending (read_buffer inner pool_size s buf k).1 in
          ground (arith, append_assoc g r (todo s.conn))
    ]
  ]

  -- Over any sequence of reads through sniConn, what the reads return followed by what is left is
  -- the captured bytes followed by the stream of the connection, for a connection whose reads
  -- return the next bytes of its stream and at most as many as were asked for.
  pub read_each-stream :
      (s : SniConn S) (ks : List ℕ)
      → (read_each inner pool_size s ks).0 ++ stream (read_each inner pool_size s ks).1 ≡ stream s
  unfolding read_each
  read_each-stream s [] = refl
  read_each-stream s (k ∷ ks) =
      let s' = (read inner pool_size s k).1 in
      append_assoc (read inner pool_size s k).0 (read_each inner pool_size s' ks).0
        (stream (read_each inner pool_size s' ks).1)
      ∙ ap (λ l. (read inner pool_size s k).0 ++ l) (read_each-stream s' ks)
      ∙ read-stream s k

module _ {ℓ} {S : Type ℓ} (inner : S → ℕ → List ℕ × S) (pool_size : ℕ) where
  read-put :
      (s : SniConn S) (k : ℕ)
      → let s' = (read inner pool_size s k).1 in
        (s'.cap ≡ s.cap)
        × (held s' ≤ held s)
        × (s'.put + (if s.cap == pool_size then held s' else 0)
            ≡ s.put + (if s.cap == pool_size then held s else 0))
  unfolding read
  read-put s k = elim (Option-cases s.buffer) [ inl p ↦ ground arith | inr (buf, p) ↦ ground arith ]

  -- Over any sequence of reads the captured buffer goes back to the pool when it has been read to
  -- its end, once, and only if its capacity is that of a pooled buffer.
  read_each-put :
      (s : SniConn S) (ks : List ℕ)
      → let s' = (read_each inner pool_size s ks).1 in
        (s'.cap ≡ s.cap)
        × (held s' ≤ held s)
        × (s'.put + (if s.cap == pool_size then held s' else 0)
            ≡ s.put + (if s.cap == pool_size then held s else 0))
  unfolding read_each
  read_each-put s [] = (refl, omega arith, refl)
  read_each-put s (k ∷ ks) =
      let a = read-put s k in let b = read_each-put (read inner pool_size s k).1 ks in ground arith

  -- A read with room takes at least a byte of the captured ones while any are left.
  pub read-progress :
      (s : SniConn S) (k : ℕ)
      → 0 < k
      → pending s ≢ []
      → ((read inner pool_size s k).0 ≢ []) × ((read inner pool_size s k).1.conn ≡ s.conn)
  unfolding read
  read-progress s k h more = elim (Option-cases s.buffer) [
    | inl p ↦ absurd (ground arith)
    | inr (buf, p) ↦
        let (_, same) = read_buffer-pending inner pool_size s buf k p in
        let ne = take-ne-nil k (drop s.n buf) h (ground arith) in (ground arith, ground arith)
  ]
