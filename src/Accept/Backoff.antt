-- ===== src/Accept/Backoff.antt =====
-- The loops of `Serve`: what is served, and how long the loop sleeps.
use native.Mathlib.Numerals.{unary_clauses}
use streamf.Common.{
  ℕ, zero, suc, ◌*◌, ◌^◌, ◌<◌, ◌≡◌, min, refl, ap, ◌∙◌, List, [], ◌∷◌, Bool, true, false, arith,
}
use streamf.Accept.{
  Accepted, conn, failed, Loop, next_delay, accept_loop, basic_serve, sniproxy_serve, bridge_serve,
}

-- What comes before the close.
unfoldable pub before_close : List Accepted → List ℕ
before_close [] = []
before_close (conn c ∷ xs) = c ∷ before_close xs
before_close (failed true ∷ xs) = []
before_close (failed false ∷ xs) = before_close xs

unfoldable pub failures : List Accepted → ℕ
failures [] = 0
failures (conn c ∷ xs) = failures xs
failures (failed true ∷ xs) = 0
failures (failed false ∷ xs) = suc (failures xs)

unfoldable pub is_closed : List Accepted → Bool
is_closed [] = false
is_closed (conn c ∷ xs) = is_closed xs
is_closed (failed true ∷ xs) = true
is_closed (failed false ∷ xs) = is_closed xs

-- Five milliseconds, doubled up to a second.
abbrev pub delay : ℕ → ℕ
delay i = min (5000000 * 2 ^ i) 1000000000

-- The delays from the `i`th on.
unfoldable pub delays : ℕ → ℕ → List ℕ
delays i zero = []
delays i (suc n) = delay i ∷ delays (suc i) n

next_delay-zero : next_delay 0 ≡ delay 0
unfolding next_delay
next_delay-zero = refl

pow_suc : (i : ℕ) → 2 ^ suc i ≡ 2 * 2 ^ i
pow_suc i = simp unary_clauses (omega arith)

pow_positive : (i : ℕ) → 0 < 2 ^ i
pow_positive zero = omega arith
pow_positive (suc i) = let h = pow_positive i in omega (arith, pow_suc i)

next_delay-delay : (i : ℕ) → next_delay (delay i) ≡ delay (suc i)
unfolding next_delay
next_delay-delay i =
    let p : 2 ^ suc i ≡ 2 * 2 ^ i = pow_suc i in
    let q : 0 < 2 ^ i = pow_positive i in ground (arith, p, q)

abbrev pub Behaves : Loop → ℕ → List Accepted → Type 0
Behaves l i xs =
    (l.served ≡ before_close xs) × (l.slept ≡ delays i (failures xs)) × (l.returned ≡ is_closed xs)

accept_loop-Behaves :
    (temp_delay i : ℕ) (xs : List Accepted)
    → next_delay temp_delay ≡ delay i
    → Behaves (accept_loop temp_delay xs) i xs
unfolding accept_loop before_close failures is_closed delays
accept_loop-Behaves temp_delay i [] h = (refl, refl, refl)
accept_loop-Behaves temp_delay i (conn c ∷ xs) h =
    let (served, slept, returned) = accept_loop-Behaves temp_delay i xs h in
    (ap (◌∷◌ c) served, slept, returned)
accept_loop-Behaves temp_delay i (failed true ∷ xs) h = (refl, refl, refl)
accept_loop-Behaves temp_delay i (failed false ∷ xs) h =
    let (served, slept, returned) =
      accept_loop-Behaves (next_delay temp_delay) (suc i) xs
        (ap next_delay h ∙ next_delay-delay i) in
    (
      served,
      ap (◌∷◌ (next_delay temp_delay)) slept ∙ ap (λ d. d ∷ delays (suc i) (failures xs)) h,
      returned,
    )

-- The loops of the basic listener, the SNI proxy and the bridges serve the connections accepted
-- before the close, in their order, and sleep at the n-th failure before it, counted from none, for
-- five milliseconds doubled n times, at most a second; they return exactly if the close is seen.
pub serve-Behaves :
    (xs : List Accepted)
    → Behaves (basic_serve xs) 0 xs
      × Behaves (sniproxy_serve xs) 0 xs
      × Behaves (bridge_serve xs) 0 xs
unfolding basic_serve sniproxy_serve bridge_serve
serve-Behaves xs = let b = accept_loop-Behaves 0 0 xs next_delay-zero in (b, b, b)
