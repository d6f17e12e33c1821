-- ===== src/Bridging/Closed.antt =====
-- internal/network/bridging.go: when `Bridging` returns, and what it has closed then.
use streamf.Common.{◌+◌, ◌≤◌, ◌≡◌, refl, ◌⊎◌, inl, inr, ℤ, pos_part, [], ◌∷◌, arith}
use streamf.Bridging.{
  Conn, c0, c1, Sender, copying, sending, gone, Main, first_wait, checking, sleeping, timing,
  returned, Bridge, Copying, goroutines, millisecond, leave,
}
use streamf.Bridging.Ended.{Reaches, sent, both_sent, Fits, Reason, Fits-At, Reaches-IsSound}

-- One of the goroutines has sent.
one_gone : (x y : Sender) → 1 ≤ sent x + sent y → (x ≡ gone) ⊎ (y ≡ gone)
one_gone gone y h = inl refl
one_gone copying gone h = inr refl
one_gone sending gone h = inr refl
one_gone copying copying h = absurd (omega arith)
one_gone copying sending h = absurd (omega arith)
one_gone sending copying h = absurd (omega arith)
one_gone sending sending h = absurd (omega arith)

both_gone : (x y : Sender) → sent x + sent y ≡ 2 → (x ≡ gone) × (y ≡ gone)
both_gone gone gone h = (refl, refl)
both_gone copying y h = absurd (let o = streamf.Bridging.Ended.sent_le y in omega arith)
both_gone sending y h = absurd (let o = streamf.Bridging.Ended.sent_le y in omega arith)
both_gone gone copying h = absurd (omega arith)
both_gone gone sending h = absurd (omega arith)

-- What holds of a bridge whose function is there: it has closed nothing, or returned, and closed `c1`
-- and then `c0`, for one of three reasons.
abbrev pub Finished : ℤ → Bridge → Main → Type 0
Finished d s first_wait = s.closed ≡ []
Finished d s (checking t) = s.closed ≡ []
Finished d s (sleeping t u) = s.closed ≡ []
Finished d s (timing t u) = s.closed ≡ []
Finished d s (returned t u) =
    (s.closed ≡ c0 ∷ c1 ∷ [])
    × ((s.sender0 ≡ gone) ⊎ (s.sender1 ≡ gone))
    × ((pos_part d ≤ millisecond)
        ⊎ (((s.sender0 ≡ gone) × (s.sender1 ≡ gone)) ⊎ (t + pos_part d ≤ u)))

Fits-Finished :
    (d : ℤ) (s : Bridge) (m : Main)
    → Fits d m (both_sent s) s.queued s.now s.closed
    → Finished d s m
Fits-Finished d s first_wait (a, b, c) = c
Fits-Finished d s (checking t) (a, b, c) = c
Fits-Finished d s (sleeping t u) (a, b, k, c) = c
Fits-Finished d s (timing t u) (a, b, k, c) = c
Fits-Finished d s (returned t u) (a, c, inl r) =
    (c, one_gone s.sender0 s.sender1 (omega arith), inl r)
Fits-Finished d s (returned t u) (a, c, inr (inl r)) =
    (c, one_gone s.sender0 s.sender1 (omega arith), inr (inl (both_gone s.sender0 s.sender1 r)))
Fits-Finished d s (returned t u) (a, c, inr (inr r)) =
    (c, one_gone s.sender0 s.sender1 (omega arith), inr (inr r))

-- However Bridging, its two goroutines and the clock interleave, until it returns no connection is
-- closed; when it has returned, c1 and then c0 were closed, once, one direction at least has ended,
-- and either the duration is a millisecond at most, or both directions have ended, or the duration
-- has passed since the first end was received.
pub Reaches-Finished : (d : ℤ) (s : Bridge) → Reaches d s → Finished d s s.main
Reaches-Finished d s h = Fits-Finished d s s.main (Reaches-IsSound d s h)
