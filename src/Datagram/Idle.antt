-- ===== src/Datagram/Idle.antt =====
-- internal/network/udp.go: the goroutine of `run` that closes an idle stream.
use streamf.Common.{
  ℕ, zero, suc, ◌/◌, ◌<◌, ◌≡◌, max, refl, sym, ap, subst, ◌∙◌, ◌↔◌, inl, inr, ℤ, pos, negsuc, List,
  [], ◌∷◌, ◌++◌, append_assoc, Option, none, some, Bool, true, false, ◌==◌, if◌then◌else◌, arith,
  replicate, length, length-append, length-replicate, Bool-cases,
}

-- The ticker, every ten seconds, or `c.signal`.
pub data Signal : Type 0 where
  tick signal : Signal

-- `timeout / (time.Second * 10)`, and 1 where that is 0. It is negative, which `count` never is, for
-- `none`.
unfoldable pub wait_ticks : ℤ → Option ℕ
wait_ticks (pos d) = let wait = d / 10000000000 in some (if wait == 0 then 1 else wait)
wait_ticks (negsuc d) = if suc d / 10000000000 == 0 then some 1 else none

-- The loop: whether it has closed the stream.
unfoldable pub count_ticks : ℕ → ℕ → List Signal → Bool
count_ticks wait count [] = false
count_ticks wait count (tick ∷ ss) =
    let rest = count_ticks wait (suc count) ss in if suc count == wait then true else rest
count_ticks wait count (signal ∷ ss) = count_ticks wait 0 ss

unfoldable pub goes_idle : ℤ → List Signal → Bool
unfolding wait_ticks count_ticks
goes_idle timeout ss = elim (wait_ticks timeout) [
  | none ↦ false
  | some wait ↦ count_ticks wait 0 ss
]

-- Ticks without a signal between them.
abbrev pub HasTicks : ℕ → List Signal → Type 0
HasTicks n ss = (a b : List Signal) × (ss ≡ a ++ (replicate n tick ++ b))

replicate-snoc :
    (n : ℕ) (ss : List Signal) → replicate n tick ++ tick ∷ ss ≡ replicate (suc n) tick ++ ss
replicate-snoc zero ss = refl
replicate-snoc (suc n) ss = ap (λ l. tick ∷ l) (replicate-snoc n ss)

clash :
    (n w : ℕ) (ss b : List Signal)
    → n < w
    → replicate n tick ++ signal ∷ ss ≡ replicate w tick ++ b
    → ⊥
clash n zero ss b h e = omega arith
clash zero (suc w) ss b h e = cc
clash (suc n) (suc w) ss b h e = clash n w ss b (omega arith) cc

-- Fewer ticks than that before a signal do not count.
HasTicks-signal :
    (n w : ℕ) (ss a b : List Signal)
    → n < w
    → replicate n tick ++ signal ∷ ss ≡ a ++ (replicate w tick ++ b)
    → HasTicks w ss
HasTicks-signal n w ss [] b h e = absurd (clash n w ss b h e)
HasTicks-signal zero w ss (x ∷ a) b h e = (a, b, cc)
HasTicks-signal (suc n) w ss (x ∷ a) b h e = HasTicks-signal n w ss a b (omega arith) cc

count_ticks-HasTicks :
    (w n : ℕ) (ss : List Signal) → count_ticks w n ss ≡ true → HasTicks w (replicate n tick ++ ss)
unfolding count_ticks
count_ticks-HasTicks w n [] h = absurd cc
count_ticks-HasTicks w n (tick ∷ ss) h = elim (Bool-cases (suc n == w)) [
  | inl f ↦
      let e : suc n ≡ w = ground arith in
      ([], ss, replicate-snoc n ss ∙ ap (λ k. replicate k tick ++ ss) e)
  | inr f ↦
      let (a, b, e) = count_ticks-HasTicks w (suc n) ss (ground arith) in
      (a, b, replicate-snoc n ss ∙ e)
]
count_ticks-HasTicks w n (signal ∷ ss) h =
    let (a, b, e) = count_ticks-HasTicks w 0 ss h in
    (
      replicate n tick ++ signal ∷ a,
      b,
      ap (λ l. replicate n tick ++ signal ∷ l) e
          ∙ sym (append_assoc (replicate n tick) (signal ∷ a) (replicate w tick ++ b)),
    )

HasTicks-count_ticks :
    (w n : ℕ) (ss : List Signal)
    → n < w
    → HasTicks w (replicate n tick ++ ss)
    → count_ticks w n ss ≡ true
unfolding count_ticks
HasTicks-count_ticks w n [] h (a, b, e) =
    let l = ap length e in
    absurd (
      omega (
        arith,
        l,
        length-append (replicate n tick) [],
        length-append a (replicate w tick ++ b),
        length-append (replicate w tick) b,
        length-replicate n tick,
        length-replicate w tick,
      ))
HasTicks-count_ticks w n (tick ∷ ss) h (a, b, e) = elim (Bool-cases (suc n == w)) [
  | inl f ↦ ground arith
  | inr f ↦
      let r =
        HasTicks-count_ticks w (suc n) ss (ground arith) (a, b, sym (replicate-snoc n ss) ∙ e) in
      ground arith
]
HasTicks-count_ticks w n (signal ∷ ss) h (a, b, e) =
    HasTicks-count_ticks w 0 ss (omega arith) (HasTicks-signal n w ss a b h e)

-- For a timeout that is not negative, the goroutine of a UDP stream closes it exactly if the ticks
-- of the ten-second ticker and the signals that it receives hold as many ticks in a row as the
-- timeout has whole ten seconds, one at least.
pub goes_idle_iff :
    (d : ℕ) (ss : List Signal)
    → (goes_idle (pos d) ss ≡ true) ↔ HasTicks (max 1 (d / 10000000000)) ss
unfolding goes_idle wait_ticks
goes_idle_iff d ss =
    let wait = d / 10000000000 in
    let same : max 1 wait ≡ (if wait == 0 then 1 else wait) = ground arith in
    subst (λ w. (count_ticks w 0 ss ≡ true) ↔ HasTicks (max 1 wait) ss) same
      (count_ticks-HasTicks (max 1 wait) 0 ss, HasTicks-count_ticks (max 1 wait) 0 ss (omega arith))
