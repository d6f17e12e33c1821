-- ===== src/Relay.antt =====
-- internal/network/bridging.go: copying one direction of a bridge, and how long the bridge stays
-- open behind its first direction.
pub mod Copied
pub mod Runs
use streamf.Common.{
  ℕ, ◌+◌, ℤ, ltz, pos_part, pos, List, [], ◌∷◌, ◌++◌, Option, none, some, Bool, true, false, ltb,
  ◌==◌, if◌then◌else◌, length,
}

-- What `Write` returns, and the writer behind it.
pub record Answer (E W : Type 0) : Type 0 where
  pub count : ℤ
  pub error : Option E
  pub writer : W

pub data Failure (E : Type 0) : Type 0 where
  invalid_write : Failure E
  short_write : Failure E
  failed : E → Failure E

-- What `copyBuffer` returns, and the writer behind it.
pub record Copy (E W : Type 0) : Type 0 where
  pub written : ℕ
  pub error : Option (Failure E)
  pub writer : W

module _ {E W : Type 0} (write : W → List ℕ → Answer E W) where
  unfoldable pub answered : List ℕ → Answer E W → Copy E W
  answered b a =
      if ltz a.count 0
      then record {
        written = 0;
        error = elim a.error [ none ↦ some invalid_write | some e ↦ some (failed e) ];
        writer = a.writer;
      }
      else if ltb (length b) (pos_part a.count)
      then record {
        written = 0;
        error = elim a.error [ none ↦ some invalid_write | some e ↦ some (failed e) ];
        writer = a.writer;
      }
      else record {
        written = pos_part a.count;
        error = elim a.error [
          | some e ↦ some (failed e)
          | none ↦ if pos_part a.count == length b then none else some short_write
        ];
        writer = a.writer;
      }

  -- One block, where there is one.
  unfoldable pub transfer : W → List ℕ → Copy E W
  unfolding answered
  transfer w b = elim b [
    | [] ↦ record { written = 0; error = none; writer = w }
    | x ∷ xs ↦ answered (x ∷ xs) (write w (x ∷ xs))
  ]

  unfoldable pub source_error : Option E → Option (Failure E)
  source_error none = none
  source_error (some e) = some (failed e)

  -- `copyBuffer` of a source that returns these blocks, then the last one with its error: none is
  -- `io.EOF`.
  unfoldable pub copy_buffer : List (List ℕ) → List ℕ → Option E → W → Copy E W
  unfolding transfer source_error
  copy_buffer [] last end w =
      let t = transfer w last in
      elim t.error [
        | some e ↦ t
        | none ↦ record { written = t.written; error = source_error end; writer = t.writer }
      ]
  copy_buffer (b ∷ bs) last end w =
      let t = transfer w b in
      elim t.error [
        | some e ↦ t
        | none ↦
            let rest = copy_buffer bs last end t.writer in
            record { written = t.written + rest.written; error = rest.error; writer = rest.writer }
      ]
