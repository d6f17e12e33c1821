-- ===== src/Pool/Runs.antt =====
-- pool/pool.go: a pool with a channel of one buffer, at the values it computes.
use streamf.Common.{refl, pos, [], ◌∷◌, some}
use streamf.Pool.{Buffer, Pool, new, get, put}
use streamf.Pool.Ownership.{IsSound}
use streamf.Pool.Traffic.{Reaches, made, got, gave, Reaches-IsSound}

abbrev first : Buffer
first = record { id = 0; cap = 4096 }

abbrev second : Buffer
second = record { id = 1; cap = 4096 }

-- Two buffers in use, then one of them given back.
abbrev busy : Pool
busy = record { size = 4096; cache = some 1; ch = []; shared = []; next = 2 }

abbrev back : Pool
back = record { size = 4096; cache = some 1; ch = first ∷ []; shared = []; next = 2 }

abbrev one : Pool
one = record { size = 4096; cache = some 1; ch = []; shared = []; next = 1 }

back-Reaches : Reaches (pos 4096) (pos 1) back (second ∷ [])
unfolding new get put streamf.Pool.pick
back-Reaches =
    gave busy (second ∷ first ∷ []) (second ∷ []) first 1
      (got one busy (first ∷ []) second 0 (got (new (pos 4096) (pos 1)) one [] first 0 made refl)
        refl)
      refl

Reaches-IsSound_example : IsSound back (second ∷ [])
Reaches-IsSound_example = Reaches-IsSound (pos 4096) (pos 1) back (second ∷ []) back-Reaches
