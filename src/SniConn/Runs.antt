-- ===== src/SniConn/Runs.antt =====
-- Reads through a connection that holds three bytes behind a captured buffer of four.
use streamf.Common.{
  ℕ, ◌≤◌, ◌≡◌, ◌≢◌, refl, List, [], ◌∷◌, ◌++◌, some, take, drop, length, arith, take-append-drop,
  length-take,
}
use streamf.SniConn.{SniConn, read, read_each}
use streamf.SniConn.Replay.{pending, read_each-stream, read-progress}

-- A connection that gives as many bytes as are wanted and there.
abbrev source : List ℕ → ℕ → List ℕ × List ℕ
source todo k = (take k todo, drop k todo)

source_within : (s : List ℕ) (k : ℕ) → length (source s k).0 ≤ k
source_within s k = omega (arith, length-take k s)

abbrev start : SniConn (List ℕ)
start = record {
  conn = 5 ∷ 6 ∷ 7 ∷ [];
  buffer = some (1 ∷ 2 ∷ 3 ∷ 4 ∷ []);
  n = 0;
  cap = 4096;
  put = 0;
}

three_reads : (read_each source 4096 start (3 ∷ 3 ∷ 2 ∷ [])).0 ≡ 1 ∷ 2 ∷ 3 ∷ 4 ∷ 5 ∷ 6 ∷ []
unfolding read_each read
three_reads = refl

read_each-stream_example :
    (read_each source 4096 start (3 ∷ 3 ∷ [])).0
      ++ (pending (read_each source 4096 start (3 ∷ 3 ∷ [])).1
          ++ (read_each source 4096 start (3 ∷ 3 ∷ [])).1.conn)
    ≡ 1 ∷ 2 ∷ 3 ∷ 4 ∷ 5 ∷ 6 ∷ 7 ∷ []
read_each-stream_example =
    read_each-stream source 4096 (λ s. s) (λ s k. take-append-drop k s) source_within start
      (3 ∷ 3 ∷ [])

read-progress_example :
    ((read source 4096 start 3).0 ≢ []) × ((read source 4096 start 3).1.conn ≡ start.conn)
read-progress_example = read-progress source 4096 start 3 (omega arith) (λ e. cc)
