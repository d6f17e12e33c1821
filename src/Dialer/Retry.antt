-- ===== src/Dialer/Retry.antt =====
-- dialer/basic.go, dialer/http.go, dialer/websocket.go: the attempts of `connect`.
use streamf.Common.{
  ℕ, suc, ◌+◌, ◌<◌, ◌≤◌, ◌≡◌, refl, ap, ◌∙◌, inl, inr, ℤ, pos_part, List, [], ◌∷◌, some, true,
  false, ◌||◌, leb, length, get_elem?, take, All, arith, Bool-cases,
}
use streamf.Dialer.{Attempt, is_ok, connect_loop, basic_connect, http_connect, websocket_connect}

-- An attempt behind which there is another one.
abbrev pub GoesOn : Attempt → Type 0
GoesOn a = (is_ok a.result ≡ false) × (a.stopped ≡ false)

-- The outcome at round `i` over these attempts: attempt `k` is the last.
pub record EndsAt (retry : ℤ) (i : ℕ) (attempts : List Attempt) (k : ℕ) (a : Attempt) : Type 0 where
  pub last : get_elem? attempts k ≡ some a
  pub earlier : All GoesOn (take k attempts)
  pub within : i + k ≤ pos_part retry
  pub reason : (is_ok a.result || (leb (pos_part retry) (i + k) || a.stopped)) ≡ true

connect_loop-EndsAt :
    (retry : ℤ) (i : ℕ) (attempts : List Attempt)
    → i ≤ pos_part retry
    → pos_part retry < i + length attempts
    → (k : ℕ) × (a : Attempt) × (connect_loop retry i attempts ≡ some (a.result, suc (i + k)))
      × EndsAt retry i attempts k a
unfolding connect_loop
connect_loop-EndsAt retry i [] h l = absurd (omega arith)
connect_loop-EndsAt retry i (a ∷ rest) h l =
    let z : i + 0 ≡ i = omega arith in
    elim (Bool-cases (is_ok a.result || leb (pos_part retry) i)) [
      | inl e ↦ (
        0,
        a,
        rw (e, z) refl,
        record { last = refl; earlier = tt; within = omega arith; reason = rw z (ground arith) },
      )
      | inr e ↦ elim (Bool-cases a.stopped) [
        | inl f ↦ (
          0,
          a,
          rw (e, f, z) refl,
          record { last = refl; earlier = tt; within = omega arith; reason = rw z (ground arith) },
        )
        | inr f ↦
            let below : suc i ≤ pos_part retry = ground arith in
            let (k, b, run, ends) = connect_loop-EndsAt retry (suc i) rest below (omega arith) in
            let s : i + suc k ≡ suc i + k = omega arith in
            let fails : is_ok a.result ≡ false = ground arith in
            (
              suc k,
              b,
              rw (e, f, s) run,
              record {
                last = ends.last;
                earlier = ((fails, f), ends.earlier);
                within = rw s ends.within;
                reason = rw s ends.reason;
              },
            )
      ]
    ]

-- Given one attempt more than the retries allow, connect of the three dialers returns what an
-- attempt returned that succeeded, was the last allowed or was followed by a stop; every attempt
-- before it failed without a stop, and there were no more of them than the retries, none where that
-- setting is negative.
pub connect-EndsAt :
    (retry : ℤ) (attempts : List Attempt)
    → pos_part retry < length attempts
    → (k : ℕ) × (a : Attempt) × (basic_connect retry attempts ≡ some (a.result, suc k))
      × (http_connect retry attempts ≡ some (a.result, suc k))
      × (websocket_connect retry attempts ≡ some (a.result, suc k))
      × EndsAt retry 0 attempts k a
unfolding basic_connect http_connect websocket_connect
connect-EndsAt retry attempts h =
    let (k, a, run, ends) = connect_loop-EndsAt retry 0 attempts (omega arith) (omega arith) in
    let z : 0 + k ≡ k = omega arith in
    let run' : connect_loop retry 0 attempts ≡ some (a.result, suc k) =
      run ∙ ap (λ x. some (a.result, suc x)) z in
    (k, a, run', run', run', ends)
