-- ===== src/Pool/Traffic.antt =====
-- pool/pool.go: any number of callers that get buffers and give them back, in any order.
use streamf.Common.{ℕ, ◌≤◌, ◌≡◌, subst, ℤ, List, [], ◌∷◌, some, arith}
use streamf.Pool.{Buffer, Pool, new, pick, get, put}
use streamf.Pool.Ownership.{count, IsSound, pick_lem, new-IsSound, get-IsSound, put-IsSound}

-- The pool and the buffers in use after some calls: a `Get`, with the item that the shared pool
-- would give, or a `Put` of a buffer in use.
pub data Reaches (size cache : ℤ) : Pool → List Buffer → Type 0 where
  made : Reaches size cache (new size cache) []
  got :
      (p q : Pool) (out : List Buffer) (b : Buffer) (choice : ℕ)
      → Reaches size cache p out
      → get p choice ≡ some (b, q)
      → Reaches size cache q (b ∷ out)
  gave :
      (p : Pool) (out rest : List Buffer) (b : Buffer) (i : ℕ)
      → Reaches size cache p out
      → pick out i ≡ some (b, rest)
      → Reaches size cache (put p b) rest

picked_out-IsSound :
    (p : Pool) (out rest : List Buffer) (b : Buffer) (i : ℕ)
    → pick out i ≡ some (b, rest)
    → IsSound p out
    → IsSound p (b ∷ rest)
unfolding count
picked_out-IsSound p out rest b i e sound =
    let (wide, wides, counts) = pick_lem out i b rest p.size e sound.out_wide in
    record {
      large = sound.large;
      ch_wide = sound.ch_wide;
      shared_wide = sound.shared_wide;
      out_wide = (wide, wides);
      bounded = sound.bounded;
      single = λ j. omega (arith, counts j, sound.single j);
      unmade = λ j h. omega (arith, counts j, sound.unmade j h);
    }

-- However calls of Get and Put interleave on a new pool, each buffer has at most one owner among
-- the channel, the shared pool and the callers, every buffer is as large as the pool's size, which
-- is 4096 at least, and the channel holds no more than its capacity.
pub Reaches-IsSound :
    (size cache : ℤ) (p : Pool) (out : List Buffer) → Reaches size cache p out → IsSound p out
Reaches-IsSound size cache _ _ made = new-IsSound size cache
Reaches-IsSound size cache _ _ (got p q out b choice r e) =
    let (c, s, run, sound) = get-IsSound p out choice (Reaches-IsSound size cache p out r) in
    let buffer : c ≡ b = ground arith in
    let pool : s ≡ q = ground arith in
    subst (λ x. IsSound x (b ∷ out)) pool (subst (λ x. IsSound s (x ∷ out)) buffer sound)
Reaches-IsSound size cache _ _ (gave p out rest b i r e) =
    put-IsSound p b rest (picked_out-IsSound p out rest b i e (Reaches-IsSound size cache p out r))

-- However calls of Get and Put interleaved before on a new pool, Get returns a buffer, without a
-- panic, that is as large as the pool's size, at least 4096, and that no other caller has.
Reaches-get :
    (size cache : ℤ) (p : Pool) (out : List Buffer) (choice : ℕ)
    → Reaches size cache p out
    → (b : Buffer) × (q : Pool) × (get p choice ≡ some (b, q))
      × (4096 ≤ q.size)
      × (q.size ≤ b.cap)
      × (count b.id out ≡ 0)
unfolding count
Reaches-get size cache p out choice r =
    let (b, q, run, sound) = get-IsSound p out choice (Reaches-IsSound size cache p out r) in
    let alone : count b.id out ≡ 0 = let s = sound.single b.id in ground arith in
    (b, q, run, sound.large, sound.out_wide.0, alone)
