-- ===== src/Forward/Idle.antt =====
-- internal/udp/udp.go: the goroutine of `newRemoteConn` that closes an idle socket.
use streamf.Common.{
  ℕ, zero, suc, ◌-◌, ◌*◌, ◌/◌, ◌<◌, ◌≤◌, ◌≡◌, List, [], ◌∷◌, Bool, true, false, ltb, if◌then◌else◌,
  arith, replicate, Bool-cases, inl, inr,
}

-- The ticker, every ten seconds, or traffic on `c.ch`.
pub data Signal : Type 0 where
  tick traffic : Signal

-- `udp.timeout / time.Second * 10`, of a timeout in nanoseconds.
unfoldable pub max_ticks : ℕ → ℕ
max_ticks timeout = timeout / 1000000000 * 10

-- The loop: whether it has closed the socket.
unfoldable pub watch : ℕ → ℕ → List Signal → Bool
watch max n [] = false
watch max n (tick ∷ ss) = let rest = watch max (suc n) ss in if ltb n max then rest else true
watch max n (traffic ∷ ss) = watch max 0 ss

-- `newRemoteConn`: the loop is started for a timeout of more than a second.
unfoldable pub expires : ℕ → List Signal → Bool
unfolding max_ticks watch
expires timeout ss = if ltb 1000000000 timeout then watch (max_ticks timeout) 0 ss else false

watch_ticks : (max n k : ℕ) → n ≤ max → watch max n (replicate k tick) ≡ ltb (max - n) k
unfolding watch
watch_ticks max n zero h = ground arith
watch_ticks max n (suc k) h = elim (Bool-cases (ltb n max)) [
  | inl f ↦ let r = watch_ticks max (suc n) k (ground arith) in ground arith
  | inr f ↦ ground arith
]

max_ticks_seconds : (seconds : ℕ) → max_ticks (seconds * 1000000000) ≡ 10 * seconds
unfolding max_ticks
max_ticks_seconds seconds =
    let q : seconds * 1000000000 / 1000000000 ≡ seconds = omega arith in omega (arith, q)

-- For a timeout of more than one second, given in seconds, the socket of a client that is idle is
-- closed at a tick of the ten-second ticker exactly when more than ten ticks have passed for each
-- second of the timeout.
pub expires_idle :
    (seconds k : ℕ)
    → 1 < seconds
    → expires (seconds * 1000000000) (traffic ∷ replicate k tick) ≡ ltb (10 * seconds) k
unfolding expires watch
expires_idle seconds k h =
    let m = max_ticks_seconds seconds in
    let r = watch_ticks (10 * seconds) 0 k (omega arith) in ground (arith, m, r)
