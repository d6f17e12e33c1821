-- ===== src/Bridging/Ended.antt =====
-- internal/network/bridging.go: what `Bridging` has received, and from whom.
use streamf.Common.{
  ℕ, suc, ◌+◌, ◌≤◌, ◌<◌, ◌≡◌, refl, sym, ap, subst, ◌⊎◌, inl, inr, ℤ, pos_part, List, [], ◌∷◌,
  arith,
}
use streamf.Bridging.{
  Conn, c0, c1, Sender, copying, sending, gone, Main, first_wait, checking, sleeping, timing,
  returned, Bridge, started, capacity, millisecond, Step, end0, end1, send0, send1, pass, first,
  brief, both, sleep, arm, wake, fire, second,
}

pub data Reaches (duration : ℤ) : Bridge → Type 0 where
  begun : (now : ℕ) → Reaches duration (started now)
  next : (s t : Bridge) → Reaches duration s → Step duration s t → Reaches duration t

-- Whether a goroutine has sent.
abbrev pub sent : Sender → ℕ
sent copying = 0
sent sending = 0
sent gone = 1

pub sent_le : (x : Sender) → sent x ≤ 1
sent_le copying = omega arith
sent_le sending = omega arith
sent_le gone = omega arith

abbrev pub both_sent : Bridge → ℕ
both_sent s = sent s.sender0 + sent s.sender1

-- Why the function returned at `u`, where it received for the first time at `t`.
abbrev pub Reason : ℤ → (t u e : ℕ) → Type 0
Reason duration t u e = (pos_part duration ≤ millisecond) ⊎ ((e ≡ 2) ⊎ (t + pos_part duration ≤ u))

-- Where the function is, what was sent and is queued, the time, and what is closed.
abbrev pub Fits : ℤ → Main → (e q now : ℕ) → List Conn → Type 0
Fits d first_wait e q now cl = (q ≡ e) × (q ≤ 1) × (cl ≡ [])
Fits d (checking t) e q now cl = (suc q ≡ e) × (t ≤ now) × (cl ≡ [])
Fits d (sleeping t u) e q now cl = (suc q ≡ e) × (t ≤ u) × (u ≤ now) × (cl ≡ [])
Fits d (timing t u) e q now cl = (suc q ≡ e) × (t ≤ u) × (u ≤ now) × (cl ≡ [])
Fits d (returned t u) e q now cl = (suc q ≤ e) × (cl ≡ c0 ∷ c1 ∷ []) × Reason d t u e

abbrev pub IsSound : ℤ → Bridge → Type 0
IsSound d s = Fits d s.main (both_sent s) s.queued s.now s.closed

Fits-send :
    (d : ℤ) (m : Main) (e q now : ℕ) (cl : List Conn)
    → e < 2
    → q < capacity
    → Fits d m e q now cl
    → Fits d m (suc e) (suc q) now cl
Fits-send d first_wait e q now cl b h f = (ap suc f.0, omega arith, f.2)
Fits-send d (checking t) e q now cl b h (a, k, f) = (ap suc a, k, f)
Fits-send d (sleeping t u) e q now cl b h (a, k, l, f) = (ap suc a, k, l, f)
Fits-send d (timing t u) e q now cl b h (a, k, l, f) = (ap suc a, k, l, f)
Fits-send d (returned t u) e q now cl b h (a, k, inl r) = (omega arith, k, inl r)
Fits-send d (returned t u) e q now cl b h (a, k, inr (inl r)) = absurd (omega arith)
Fits-send d (returned t u) e q now cl b h (a, k, inr (inr r)) = (omega arith, k, inr (inr r))

Fits-pass :
    (d : ℤ) (m : Main) (e q now n : ℕ) (cl : List Conn)
    → Fits d m e q now cl
    → Fits d m e q (n + now) cl
Fits-pass d first_wait e q now n cl f = f
Fits-pass d (checking t) e q now n cl (a, le, c) = (a, omega arith, c)
Fits-pass d (sleeping t u) e q now n cl (a, b, le, c) = (a, b, omega arith, c)
Fits-pass d (timing t u) e q now n cl (a, b, le, c) = (a, b, omega arith, c)
Fits-pass d (returned t u) e q now n cl f = f

-- The function at a place it is known to be.
abbrev pub At : (d : ℤ) (s : Bridge) (m : Main) → Type 0
At d s m = Fits d m (both_sent s) s.queued s.now s.closed

pub Fits-At : (d : ℤ) (s : Bridge) (m : Main) → s.main ≡ m → IsSound d s → At d s m
Fits-At d s m h f = subst (λ x. Fits d x (both_sent s) s.queued s.now s.closed) h f

Step-IsSound : (d : ℤ) (s t : Bridge) → Step d s t → IsSound d s → IsSound d t
Step-IsSound d s _ (end0 h) f = let z : sent s.sender0 ≡ 0 = ap sent h in rw (sym z) f
Step-IsSound d s _ (end1 h) f =
    let z : sent s.sender1 ≡ 0 = ap sent h in
    subst (λ x. Fits d s.main (sent s.sender0 + x) s.queued s.now s.closed) z f
Step-IsSound d s _ (send0 h l) f =
    let z : sent s.sender0 ≡ 0 = ap sent h in
    let o = sent_le s.sender1 in
    let e : suc (both_sent s) ≡ 1 + sent s.sender1 = omega arith in
    subst (λ x. Fits d s.main x (suc s.queued) s.now s.closed) e
      (Fits-send d s.main (both_sent s) s.queued s.now s.closed (omega arith) l f)
Step-IsSound d s _ (send1 h l) f =
    let z : sent s.sender1 ≡ 0 = ap sent h in
    let o = sent_le s.sender0 in
    let e : suc (both_sent s) ≡ sent s.sender0 + 1 = omega arith in
    subst (λ x. Fits d s.main x (suc s.queued) s.now s.closed) e
      (Fits-send d s.main (both_sent s) s.queued s.now s.closed (omega arith) l f)
Step-IsSound d s _ (pass n) f = Fits-pass d s.main (both_sent s) s.queued s.now n s.closed f
Step-IsSound d s _ (first h l) f =
    let (a, b, c) = Fits-At d s first_wait h f in (omega arith, omega arith, c)
Step-IsSound d s _ (brief t h g) f =
    let (a, b, c) = Fits-At d s (checking t) h f in
    (omega arith, ap (λ x. c0 ∷ c1 ∷ x) c, inl (ground arith))
Step-IsSound d s _ (both t h g l) f =
    let (a, b, c) = Fits-At d s (checking t) h f in
    let o = sent_le s.sender0 in
    let p = sent_le s.sender1 in (omega arith, ap (λ x. c0 ∷ c1 ∷ x) c, inr (inl (omega arith)))
Step-IsSound d s _ (sleep t h g q l) f =
    let (a, b, c) = Fits-At d s (checking t) h f in (a, b, omega arith, c)
Step-IsSound d s _ (arm t h g q l) f =
    let (a, b, c) = Fits-At d s (checking t) h f in (a, b, omega arith, c)
Step-IsSound d s _ (wake t u h l) f =
    let (a, b, k, c) = Fits-At d s (sleeping t u) h f in
    (omega arith, ap (λ x. c0 ∷ c1 ∷ x) c, inr (inr (omega arith)))
Step-IsSound d s _ (fire t u h l) f =
    let (a, b, k, c) = Fits-At d s (timing t u) h f in
    (omega arith, ap (λ x. c0 ∷ c1 ∷ x) c, inr (inr (omega arith)))
Step-IsSound d s _ (second t u h l) f =
    let (a, b, k, c) = Fits-At d s (timing t u) h f in
    let o = sent_le s.sender0 in
    let p = sent_le s.sender1 in (omega arith, ap (λ x. c0 ∷ c1 ∷ x) c, inr (inl (omega arith)))

pub Reaches-IsSound : (d : ℤ) (s : Bridge) → Reaches d s → IsSound d s
Reaches-IsSound d _ (begun now) = (refl, omega arith, refl)
Reaches-IsSound d _ (next s t h st) = Step-IsSound d s t st (Reaches-IsSound d s h)
