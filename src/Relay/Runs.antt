-- ===== src/Relay/Runs.antt =====
-- internal/network/bridging.go: copies at the values they compute.
use streamf.Common.{ℕ, ◌≡◌, refl, pos, List, [], ◌∷◌, ◌++◌, none, some, arith}
use streamf.Relay.{Answer, Failure, Copy, failed, copy_buffer}
use streamf.Relay.Copied.{source, IsWriter, Copies, copy-Copies}

-- A writer that fails on blocks of more than two bytes, behind the first two.
abbrev full_disk : List ℕ → List ℕ → Answer ℕ (List ℕ)
full_disk w [] = record { count = pos 0; error = none; writer = w ++ [] }
full_disk w (a ∷ []) = record { count = pos 1; error = none; writer = w ++ (a ∷ []) }
full_disk w (a ∷ b ∷ []) = record { count = pos 2; error = none; writer = w ++ (a ∷ b ∷ []) }
full_disk w (a ∷ b ∷ c ∷ cs) = record { count = pos 2; error = some 28; writer = w ++ (a ∷ b ∷ []) }

full_disk-IsWriter : IsWriter full_disk (λ w. w)
full_disk-IsWriter w [] = (0, refl, omega arith, refl, λ e. refl)
full_disk-IsWriter w (a ∷ []) = (1, refl, omega arith, refl, λ e. refl)
full_disk-IsWriter w (a ∷ b ∷ []) = (2, refl, omega arith, refl, λ e. refl)
full_disk-IsWriter w (a ∷ b ∷ c ∷ cs) = (2, refl, omega arith, refl, λ e. absurd (ground arith))

copy_stops :
    copy_buffer full_disk ((1 ∷ 2 ∷ []) ∷ (3 ∷ 4 ∷ 5 ∷ []) ∷ []) (6 ∷ []) none []
    ≡ record { written = 4; error = some (failed 28); writer = 1 ∷ 2 ∷ 3 ∷ 4 ∷ [] }
unfolding copy_buffer streamf.Relay.transfer streamf.Relay.answered streamf.Relay.source_error
copy_stops = refl

copy-Copies_example :
    Copies full_disk
      (λ w. w)
      []
      (source ((1 ∷ 2 ∷ []) ∷ (3 ∷ 4 ∷ 5 ∷ []) ∷ []) (6 ∷ []))
      none
      (copy_buffer full_disk ((1 ∷ 2 ∷ []) ∷ (3 ∷ 4 ∷ 5 ∷ []) ∷ []) (6 ∷ []) none [])
copy-Copies_example =
    copy-Copies full_disk (λ w. w) ((1 ∷ 2 ∷ []) ∷ (3 ∷ 4 ∷ 5 ∷ []) ∷ []) (6 ∷ []) none []
      full_disk-IsWriter
