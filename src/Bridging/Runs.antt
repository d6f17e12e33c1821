-- ===== src/Bridging/Runs.antt =====
-- internal/network/bridging.go: `Bridging`, as it runs.
use streamf.Common.{◌≡◌, refl, ◌⊎◌, ℤ, pos, [], ◌∷◌, true, false, arith}
use streamf.Bridging.{
  c0, c1, sending, gone, returned, Bridge, read_websocket, write_websocket, goroutines, end0, end1,
  send0, pass, first, sleep, wake,
}
use streamf.Bridging.Ended.{Reaches, begun, next}
use streamf.Bridging.Closed.{Finished, Reaches-Finished}
use streamf.Bridging.Progress.{Waits, HasStep, Reaches-HasStep}

abbrev pub two_seconds : ℤ
two_seconds = pos 2000000000

-- The first direction ends at 100; the second one ends when the function has returned.
abbrev pub slept : Bridge
slept = record {
  sender0 = gone;
  sender1 = sending;
  queued = 0;
  main = returned 100 2000000100;
  now = 2000000100;
  closed = c0 ∷ c1 ∷ [];
}

pub slept-Reaches : Reaches two_seconds slept
slept-Reaches =
    next _ _
      (next _ _
        (next _ _
          (next _ _
            (next _ _ (next _ _ (next _ _ (begun 100) (end0 refl)) (send0 refl (omega arith)))
              (first refl (omega arith)))
            (sleep 100 refl refl refl refl))
          (pass 2000000000))
        (wake 100 100 refl (omega arith)))
      (end1 refl)

one_websocket : goroutines true false ≡ (read_websocket c1 c0, write_websocket c0 c1)
unfolding goroutines
one_websocket = refl

Reaches-Finished_example : Finished two_seconds slept (returned 100 2000000100)
Reaches-Finished_example = Reaches-Finished two_seconds slept slept-Reaches

Reaches-HasStep_example : Waits slept (returned 100 2000000100) ⊎ HasStep two_seconds slept
Reaches-HasStep_example = Reaches-HasStep two_seconds slept slept-Reaches
