-- ===== src/SniConn.antt =====
-- sniproxy/listener.go: `sniConn`, which replays the captured bytes before it reads on. The
-- connection below it is an argument: its state, and its `Read` of at most `k` bytes.
pub mod Replay
pub mod Runs
use streamf.Common.{
  ℕ, suc, ◌+◌, List, [], ◌∷◌, ◌++◌, Option, none, some, ◌==◌, leb, if◌then◌else◌, length, take,
  drop,
}

-- `put` counts the calls of `s.pool.Put(s.buffer)`; `cap` is the capacity of the buffer.
pub record SniConn {ℓ} (S : Type ℓ) : Type ℓ where
  pub conn : S
  pub buffer : Option (List ℕ)
  pub n : ℕ
  pub cap : ℕ
  pub put : ℕ

module _ {ℓ} {S : Type ℓ} (inner : S → ℕ → List ℕ × S) (pool_size : ℕ) where
  unfoldable pub read_inner : SniConn S → ℕ → List ℕ × SniConn S
  read_inner s k = let (got, conn') = inner s.conn k in (got, record s { conn = conn' })

  unfoldable pub read_buffer : SniConn S → List ℕ → ℕ → List ℕ × SniConn S
  read_buffer s buf k =
      let got = take k (drop s.n buf) in
      let n' = s.n + length got in
      if leb (length buf) n'
      then (
        got,
        record s { n = n'; buffer = none; put = if s.cap == pool_size then suc s.put else s.put },
      )
      else (got, record s { n = n' })

  unfoldable pub read : SniConn S → ℕ → List ℕ × SniConn S
  unfolding read_inner read_buffer
  read s k = elim s.buffer [
    | none ↦ read_inner s k
    | some buf ↦ if k == 0 then read_inner s k else read_buffer s buf k
  ]

  -- Reads of the given sizes, one after the other.
  unfoldable pub read_each : SniConn S → List ℕ → List ℕ × SniConn S
  read_each s [] = ([], s)
  read_each s (k ∷ ks) =
      let (got, s') = read s k in let (more, s'') = read_each s' ks in (got ++ more, s'')
