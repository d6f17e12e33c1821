-- ===== src/Datagram/Drained.antt =====
-- The stream of a connection taken apart into datagrams, from the start of `run` to its end.
use streamf.Common.{
  ℕ, zero, suc, ◌+◌, ◌-◌, ◌/◌, ◌%◌, ◌≤◌, ◌<◌, ◌≡◌, refl, ap, ◌∙◌, List, [], ◌∷◌, ◌++◌, some, Bool,
  true, false, ltb, ◌==◌, if◌then◌else◌, length, take, arith, All, length-append, length-take,
}
use streamf.Datagram.{
  frame, le16, Drain, fit, release, drain_loop, start, drain, udp_to_tcp_run, tcp_from_udp_run,
}
use streamf.Datagram.Framing.{
  frames, non_empty, owed, drain_loop-total, drain_loop-frames, fit-sent,
}

-- The part of a frame that arrives before the pipe is closed sends nothing.
drain_loop-cut :
    (send : List ℕ → Bool) (fuel j : ℕ) (x : List ℕ) (d : Drain)
    → length x < 65536
    → j < length (frame x)
    → (d' : Drain) × (drain_loop send (suc fuel) (take j (frame x)) d ≡ some d')
      × (d'.sent ≡ d.sent)
unfolding drain_loop frame
drain_loop-cut send fuel zero x d lt h = (d, refl, refl)
drain_loop-cut send fuel (suc zero) x d lt h = (d, refl, refl)
drain_loop-cut send fuel (suc (suc i)) x d lt h =
    let n = length x in
    let lo = n % 65536 % 256 in
    let hi = n % 65536 / 256 in
    let e : le16 lo hi ≡ n = omega arith in
    let z : (n == 0) ≡ false = ground arith in
    let w : ltb (length (take i x)) n ≡ true = ground (arith, length-take i x) in
    (fit d n, rw (e, z, w), fit-sent d n)

release-sent : (d : Drain) → (release d).sent ≡ d.sent
unfolding release
release-sent d = ground arith

start-sent : (pool_size size : ℕ) → (start pool_size size).sent ≡ []
unfolding start
start-sent pool_size size = ground arith

length-frames : (ds : List (List ℕ)) → length ds + length ds ≤ length (frames ds)
unfolding frames frame
length-frames [] = omega arith
length-frames (d ∷ ds) = omega (arith, length-frames ds, length-append (frame d) (frames ds))

drain-eq :
    (send : List ℕ → Bool) (pool_size size : ℕ) (stream : List ℕ) (d : Drain)
    → drain_loop send (suc (length stream)) stream (start pool_size size) ≡ some d
    → drain send pool_size size stream ≡ some (release d)
unfolding drain
drain-eq send pool_size size stream d h = rw (h, drain)

release-owed : (d : Drain) → ((release d).pooled ≡ false) × ((release d).put ≡ owed d)
unfolding release
release-owed d = ground arith

start-owed :
    (pool_size size : ℕ) → owed (start pool_size size) ≡ (if ltb pool_size size then 0 else 1)
unfolding start
start-owed pool_size size = ground arith

drain-cut :
    (send : List ℕ → Bool) (pool_size size : ℕ) (ds : List (List ℕ)) (x : List ℕ) (j : ℕ)
    → ((y : List ℕ) → send y ≡ true)
    → All (λ y. length y < 65536) (x ∷ ds)
    → j < length (frame x)
    → (d : Drain) × (drain send pool_size size (frames ds ++ take j (frame x)) ≡ some d)
      × (d.sent ≡ non_empty ds)
drain-cut send pool_size size ds x j ok small h =
    let tail = take j (frame x) in
    let stream = frames ds ++ tail in
    let k = length stream - length ds in
    let fuel : suc (length stream) ≡ length ds + suc k =
      omega (arith, length-frames ds, length-append (frames ds) tail) in
    let s = start pool_size size in
    let (d, p, q) = drain_loop-frames send ds (suc k) tail s ok small.1 in
    let (d', r, t) = drain_loop-cut send k j x d small.0 h in
    let run : drain_loop send (suc (length stream)) stream s ≡ some d' =
      ap (λ f. drain_loop send f stream s) fuel ∙ p ∙ r in
    (
      release d',
      drain-eq send pool_size size stream d' run,
      release-sent d' ∙ t ∙ q ∙ ap (λ l. l ++ non_empty ds) (start-sent pool_size size),
    )

-- Where every write succeeds, the datagrams of less than 65536 bytes that were framed and hold a
-- byte are sent, whole and in order, by both loops, and a frame that is cut off by the end of the
-- stream is not.
pub run-frames :
    (send : List ℕ → Bool) (pool_size size : ℕ) (ds : List (List ℕ)) (x : List ℕ) (j : ℕ)
    → ((y : List ℕ) → send y ≡ true)
    → All (λ y. length y < 65536) (x ∷ ds)
    → j < length (frame x)
    → (d e : Drain) × (udp_to_tcp_run send pool_size size (frames ds ++ take j (frame x)) ≡ some d)
      × (d.sent ≡ non_empty ds)
      × (tcp_from_udp_run send pool_size size (frames ds ++ take j (frame x)) ≡ some e)
      × (e.sent ≡ non_empty ds)
unfolding udp_to_tcp_run tcp_from_udp_run
run-frames send pool_size size ds x j ok small h =
    let (d, p, q) = drain-cut send pool_size size ds x j ok small h in (d, d, p, q, p, q)

-- On every stream, well formed or not, and whichever writes fail, the loop of udpToTcp.run ends,
-- and a buffer that was taken from the pool has gone back once.
pub run-total :
    (send : List ℕ → Bool) (pool_size size : ℕ) (stream : List ℕ)
    → (d : Drain) × (udp_to_tcp_run send pool_size size stream ≡ some d)
      × (d.pooled ≡ false)
      × (d.put ≡ (if ltb pool_size size then 0 else 1))
unfolding udp_to_tcp_run
run-total send pool_size size stream =
    let (d, p, q) =
      drain_loop-total send (suc (length stream)) stream (start pool_size size) (omega arith) in
    let (a, b) = release-owed d in
    (release d, drain-eq send pool_size size stream d p, a, b ∙ q ∙ start-owed pool_size size)
