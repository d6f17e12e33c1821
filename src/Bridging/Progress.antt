-- ===== src/Bridging/Progress.antt =====
-- internal/network/bridging.go: no goroutine of `Bridging` is stuck.
use streamf.Common.{
  ℕ, suc, ◌+◌, ◌-◌, ◌≤◌, ◌<◌, ◌≡◌, ◌≢◌, refl, ap, ◌⊎◌, inl, inr, ℤ, pos_part, leb, ltb, arith,
  Bool-cases,
}
use streamf.Bridging.{
  Sender, copying, sending, gone, Main, first_wait, checking, sleeping, timing, returned, Bridge,
  capacity, millisecond, ten_seconds, leave, receive, Step, send0, send1, pass, first, brief, both,
  sleep, arm, wake, fire,
}
use streamf.Bridging.Ended.{Reaches, sent, sent_le, At, Reaches-IsSound}

-- What is left to do without another end of a stream, the time to wait included.
abbrev pub sender_weight : Sender → ℕ
sender_weight copying = 0
sender_weight sending = 1
sender_weight gone = 0

abbrev pub main_weight : ℤ → ℕ → Main → ℕ
main_weight d now first_wait = 3 + pos_part d
main_weight d now (checking t) = 2 + pos_part d
main_weight d now (sleeping t u) = 1 + ((u + pos_part d) - now)
main_weight d now (timing t u) = 1 + ((u + pos_part d) - now)
main_weight d now (returned t u) = 0

abbrev pub weight : ℤ → Bridge → ℕ
weight d s = sender_weight s.sender0 + sender_weight s.sender1 + main_weight d s.now s.main

-- The time passes, to the end of a wait.
abbrev later : ℤ → ℕ → Bridge → Bridge
later d u s = record s { now = ((u + pos_part d) - s.now) + s.now }

abbrev pub HasStep : ℤ → Bridge → Type 0
HasStep d s = (t : Bridge) × Step d s t × (weight d t < weight d s)

-- Behind the first `<-done` the function goes on by itself.
checking-HasStep : (d : ℤ) (s : Bridge) (t : ℕ) → s.main ≡ checking t → t ≤ s.now → HasStep d s
checking-HasStep d s t h l =
    let m = ap (main_weight d s.now) h in
    elim (Bool-cases (leb (pos_part d) millisecond)) [
      | inl b ↦ (leave t s, brief t h b, omega (arith, m))
      | inr b ↦ elim (Bool-cases (ltb 0 s.queued)) [
        | inl q ↦ (leave t (receive s), both t h b (ground arith), omega (arith, m))
        | inr q ↦
            let z : s.queued ≡ 0 = ground arith in
            elim (Bool-cases (ltb (pos_part d) ten_seconds)) [
              | inl k ↦ (record s { main = sleeping t s.now }, sleep t h b z k, omega (arith, m))
              | inr k ↦ (record s { main = timing t s.now }, arm t h b z k, omega (arith, m))
            ]
      ]
    ]

waited-HasStep :
    (d : ℤ) (s : Bridge) (t u : ℕ) → (s.main ≡ sleeping t u) ⊎ (s.main ≡ timing t u) → HasStep d s
waited-HasStep d s t u (inl h) =
    let m = ap (main_weight d s.now) h in
    let m' = ap (main_weight d (((u + pos_part d) - s.now) + s.now)) h in
    elim (Bool-cases (leb (u + pos_part d) s.now)) [
      | inl b ↦ (leave t s, wake t u h (ground arith), omega (arith, m))
      | inr b ↦ (later d u s, pass _, ground (arith, m, m'))
    ]
waited-HasStep d s t u (inr h) =
    let m = ap (main_weight d s.now) h in
    let m' = ap (main_weight d (((u + pos_part d) - s.now) + s.now)) h in
    elim (Bool-cases (leb (u + pos_part d) s.now)) [
      | inl b ↦ (leave t s, fire t u h (ground arith), omega (arith, m))
      | inr b ↦ (later d u s, pass _, ground (arith, m, m'))
    ]

-- A goroutine that waits to send does so where the channel has room.
send-HasStep :
    (d : ℤ) (s : Bridge)
    → s.queued < capacity
    → (s.sender0 ≡ sending) ⊎ (s.sender1 ≡ sending)
    → HasStep d s
send-HasStep d s l (inl h) =
    let w = ap sender_weight h in
    (record s { sender0 = gone; queued = suc s.queued }, send0 h l, omega (arith, w))
send-HasStep d s l (inr h) =
    let w = ap sender_weight h in
    (record s { sender1 = gone; queued = suc s.queued }, send1 h l, omega (arith, w))

Sender-cases : (x y : Sender) → ((x ≡ sending) ⊎ (y ≡ sending)) ⊎ ((x ≢ sending) × (y ≢ sending))
Sender-cases sending y = inl (inl refl)
Sender-cases copying sending = inl (inr refl)
Sender-cases gone sending = inl (inr refl)
Sender-cases copying copying = inr ((λ h. cc), (λ h. cc))
Sender-cases copying gone = inr ((λ h. cc), (λ h. cc))
Sender-cases gone copying = inr ((λ h. cc), (λ h. cc))
Sender-cases gone gone = inr ((λ h. cc), (λ h. cc))

sending_sent : (x y : Sender) → (x ≡ sending) ⊎ (y ≡ sending) → sent x + sent y ≤ 1
sending_sent x y (inl h) = let z = ap sent h in let o = sent_le y in omega (arith, z)
sending_sent x y (inr h) = let z = ap sent h in let o = sent_le x in omega (arith, z)

unsent :
    (x y : Sender) → x ≢ sending → y ≢ sending → sent x + sent y ≡ 0 → (x ≡ copying) × (y ≡ copying)
unsent copying copying h k e = (refl, refl)
unsent sending y h k e = absurd (h refl)
unsent x sending h k e = absurd (k refl)
unsent gone y h k e = absurd (omega arith)
unsent copying gone h k e = absurd (omega arith)

-- All that is open is the copying.
abbrev pub Waits : Bridge → Main → Type 0
Waits s first_wait = (s.sender0 ≡ copying) × (s.sender1 ≡ copying)
Waits s (checking t) = ⊥
Waits s (sleeping t u) = ⊥
Waits s (timing t u) = ⊥
Waits s (returned t u) = (s.sender0 ≢ sending) × (s.sender1 ≢ sending)

progress : (d : ℤ) (s : Bridge) (m : Main) → s.main ≡ m → At d s m → Waits s m ⊎ HasStep d s
progress d s first_wait h (a, b, c) = elim (Bool-cases (ltb 0 s.queued)) [
  | inl q ↦
      let m = ap (main_weight d s.now) h in
      inr (record (receive s) { main = checking s.now }, first h (ground arith), omega (arith, m))
  | inr q ↦
      let z : s.queued ≡ 0 = ground arith in
      elim (Sender-cases s.sender0 s.sender1) [
        | inl k ↦ inr (send-HasStep d s (omega arith) k)
        | inr (k, l) ↦ inl (unsent s.sender0 s.sender1 k l (omega arith))
      ]
]
progress d s (checking t) h (a, b, c) = inr (checking-HasStep d s t h b)
progress d s (sleeping t u) h f = inr (waited-HasStep d s t u (inl h))
progress d s (timing t u) h f = inr (waited-HasStep d s t u (inr h))
progress d s (returned t u) h (a, c, r) = elim (Sender-cases s.sender0 s.sender1) [
  | inl k ↦ let o = sending_sent s.sender0 s.sender1 k in inr (send-HasStep d s (omega arith) k)
  | inr k ↦ inl k
]

-- In every state that Bridging reaches, either both directions are still being copied, or it has
-- returned and no goroutine waits to send, or there is a step, of it, of a goroutine that waits to
-- send or of the clock, that leaves less to do: one direction that ends makes it return, and no
-- goroutine is stuck on the channel, also behind its return.
pub Reaches-HasStep : (d : ℤ) (s : Bridge) → Reaches d s → Waits s s.main ⊎ HasStep d s
Reaches-HasStep d s h = progress d s s.main refl (Reaches-IsSound d s h)
