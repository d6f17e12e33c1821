-- ===== src/Pool/Ownership.antt =====
-- Who owns a buffer: the channel, the shared pool, or the one caller that got it.
use streamf.Common.{
  ℕ, zero, suc, ◌+◌, ◌≤◌, ◌<◌, ◌≡◌, sym, ap, subst, ◌∙◌, inl, inr, ℤ, List, [], ◌∷◌, ◌++◌, none,
  some, ltb, ◌==◌, if◌then◌else◌, length, arith, All, length-append, Bool-cases, Option-cases,
  List-cases,
}
use streamf.Pool.{Buffer, Pool, new, pick, slice, get_shared, get, put_shared, put}

-- How often a buffer occurs.
unfoldable pub count : ℕ → List Buffer → ℕ
count i [] = 0
count i (b ∷ bs) = (if b.id == i then 1 else 0) + count i bs

count-append : (i : ℕ) (bs cs : List Buffer) → count i (bs ++ cs) ≡ count i bs + count i cs
unfolding count
count-append i [] cs = omega arith
count-append i (b ∷ bs) cs = omega (arith, count-append i bs cs)

-- Places that hold a buffer, with the buffers that callers have.
abbrev pub owners : ℕ → Pool → List Buffer → ℕ
owners i p out = count i p.ch + count i p.shared + count i out

abbrev pub Wide : ℕ → List Buffer → Type 0
Wide n bs = All (λ b. n ≤ b.cap) bs

Wide-append : (n : ℕ) (bs cs : List Buffer) → Wide n bs → Wide n cs → Wide n (bs ++ cs)
Wide-append n [] cs h k = k
Wide-append n (b ∷ bs) cs h k = (h.0, Wide-append n bs cs h.1 k)

-- The invariant: wide buffers, a bounded channel, one owner for each buffer ever made, and none for
-- those still to be made.
pub record IsSound (p : Pool) (out : List Buffer) : Type 0 where
  pub large : 4096 ≤ p.size
  pub ch_wide : Wide p.size p.ch
  pub shared_wide : Wide p.size p.shared
  pub out_wide : Wide p.size out
  pub bounded : length p.ch ≤ (elim p.cache [ none ↦ 0 | some n ↦ n ])
  pub single : (i : ℕ) → owners i p out ≤ 1
  pub unmade : (i : ℕ) → p.next ≤ i → owners i p out ≡ 0

-- A new pool has buffers of 4096 bytes at least, whatever the configuration says.
pub new-IsSound : (size cache : ℤ) → IsSound (new size cache) []
unfolding new count
new-IsSound size cache = record {
  large = ground arith;
  ch_wide = tt;
  shared_wide = tt;
  out_wide = tt;
  bounded = ground arith;
  single = λ i. omega arith;
  unmade = λ i h. omega arith;
}

pub pick_lem :
    (bs : List Buffer) (i : ℕ) (b : Buffer) (rest : List Buffer) (n : ℕ)
    → pick bs i ≡ some (b, rest)
    → Wide n bs
    → (n ≤ b.cap)
      × Wide n rest
      × ((j : ℕ) → count j bs ≡ (if b.id == j then 1 else 0) + count j rest)
unfolding pick count
pick_lem [] i b rest n h w = absurd (ground arith)
pick_lem (c ∷ cs) zero b rest n h w =
    let c≡b : c ≡ b = ground arith in
    let cs≡rest : cs ≡ rest = ground arith in
    let wide : n ≤ b.cap = subst (λ x. n ≤ x.cap) c≡b w.0 in
    let wides : Wide n rest = subst (Wide n) cs≡rest w.1 in
    let counts : (j : ℕ) → count j (c ∷ cs) ≡ (if b.id == j then 1 else 0) + count j rest = λ j.
      subst (λ xs. count j (c ∷ cs) ≡ (if b.id == j then 1 else 0) + count j xs) cs≡rest
        (ap (λ x. (if x.id == j then 1 else 0) + count j cs) c≡b) in
    (wide, wides, counts)
pick_lem (c ∷ cs) (suc i) b rest n h w = elim (Option-cases (pick cs i)) [
  | inl e ↦ absurd (ground arith)
  | inr ((x, xs), e) ↦
      let x≡b : x ≡ b = ground arith in
      let tail : c ∷ xs ≡ rest = ground arith in
      let found : pick cs i ≡ some (b, xs) = e ∙ ap (λ y. some (y, xs)) x≡b in
      let (wide, wides, counts) = pick_lem cs i b xs n found w.1 in
      let all : Wide n rest = subst (Wide n) tail (w.0, wides) in
      let same : (j : ℕ) → count j (c ∷ cs) ≡ (if b.id == j then 1 else 0) + count j rest = λ j.
        subst (λ ys. count j (c ∷ cs) ≡ (if b.id == j then 1 else 0) + count j ys) tail
          (omega (arith, counts j)) in
      (wide, all, same)
]

slice_lem : (p : Pool) (b : Buffer) → p.size ≤ b.cap → slice p b ≡ some (b, p)
unfolding slice
slice_lem p b h = ground arith

module _ (p : Pool) (out : List Buffer) (sound : IsSound p out) where
  -- The buffer at the head of the channel.
  received-IsSound :
      (b : Buffer) (rest : List Buffer)
      → p.ch ≡ b ∷ rest
      → IsSound (record p { ch = rest }) (b ∷ out)
  unfolding count
  received-IsSound b rest e =
      let w : Wide p.size (b ∷ rest) = subst (Wide p.size) e sound.ch_wide in
      let l : length p.ch ≡ suc (length rest) = ap length e in
      let c : (i : ℕ) → count i p.ch ≡ (if b.id == i then 1 else 0) + count i rest =
        λ i. ap (count i) e in
      record {
        large = sound.large;
        ch_wide = w.1;
        shared_wide = sound.shared_wide;
        out_wide = (w.0, sound.out_wide);
        bounded = omega (arith, l, sound.bounded);
        single = λ i. omega (arith, c i, sound.single i);
        unmade = λ i h. omega (arith, c i, sound.unmade i h);
      }

  -- An item of the shared pool.
  picked-IsSound :
      (i : ℕ) (b : Buffer) (rest : List Buffer)
      → pick p.shared i ≡ some (b, rest)
      → IsSound (record p { shared = rest }) (b ∷ out)
  unfolding count
  picked-IsSound i b rest e =
      let (wide, wides, counts) = pick_lem p.shared i b rest p.size e sound.shared_wide in
      record {
        large = sound.large;
        ch_wide = sound.ch_wide;
        shared_wide = wides;
        out_wide = (wide, sound.out_wide);
        bounded = sound.bounded;
        single = λ j. omega (arith, counts j, sound.single j);
        unmade = λ j h. omega (arith, counts j, sound.unmade j h);
      }

  -- A new buffer.
  made-IsSound :
      IsSound (record p { next = suc p.next }) (record { id = p.next; cap = p.size } ∷ out)
  unfolding count
  made-IsSound = record {
    large = sound.large;
    ch_wide = sound.ch_wide;
    shared_wide = sound.shared_wide;
    out_wide = (omega arith, sound.out_wide);
    bounded = sound.bounded;
    single = λ j. let one = sound.single j in let none_yet = sound.unmade j in ground arith;
    unmade = λ j h. let none_yet = sound.unmade j in ground arith;
  }

-- A sound pool gives a buffer.
pub get-IsSound :
    (p : Pool) (out : List Buffer) (choice : ℕ)
    → IsSound p out
    → (b : Buffer) × (q : Pool) × (get p choice ≡ some (b, q)) × IsSound q (b ∷ out)
unfolding get get_shared slice
get-IsSound p out choice sound = elim (List-cases p.ch) [
  | inr (b, rest, e) ↦
      let s : IsSound (record p { ch = rest }) (b ∷ out) = received-IsSound p out sound b rest e in
      let run : get p choice ≡ some (b, record p { ch = rest }) =
        let w = s.out_wide.0 in ground arith in
      (b, record p { ch = rest }, run, s)
  | inl e ↦ elim (Option-cases (pick p.shared choice)) [
    | inr ((b, rest), f) ↦
        let s : IsSound (record p { shared = rest }) (b ∷ out) =
          picked-IsSound p out sound choice b rest f in
        let run : get p choice ≡ some (b, record p { shared = rest }) =
          let w = s.out_wide.0 in ground arith in
        (b, record p { shared = rest }, run, s)
    | inl f ↦
        let made : Buffer = record { id = p.next; cap = p.size } in
        let run : get p choice ≡ some (made, record p { next = suc p.next }) = ground arith in
        (made, record p { next = suc p.next }, run, made-IsSound p out sound)
  ]
]

module _ (p : Pool) (b : Buffer) (out : List Buffer) (sound : IsSound p (b ∷ out)) where
  put_shared-IsSound : IsSound (put_shared p b) out
  unfolding put_shared count
  put_shared-IsSound = record {
    large = sound.large;
    ch_wide = sound.ch_wide;
    shared_wide = (sound.out_wide.0, sound.shared_wide);
    out_wide = sound.out_wide.1;
    bounded = sound.bounded;
    single = λ j. omega (arith, sound.single j);
    unmade = λ j h. omega (arith, sound.unmade j h);
  }

  sent-IsSound :
      (n : ℕ)
      → p.cache ≡ some n
      → length p.ch < n
      → IsSound (record p { ch = p.ch ++ (b ∷ []) }) out
  unfolding count
  sent-IsSound n e room = record {
    large = sound.large;
    ch_wide = Wide-append p.size p.ch (b ∷ []) sound.ch_wide (sound.out_wide.0, tt);
    shared_wide = sound.shared_wide;
    out_wide = sound.out_wide.1;
    bounded =
        subst (λ c. length (p.ch ++ (b ∷ [])) ≤ (elim c [ none ↦ 0 | some n ↦ n ])) (sym e)
          (omega (arith, length-append p.ch (b ∷ [])));
    single = λ j. omega (arith, count-append j p.ch (b ∷ []), sound.single j);
    unmade = λ j h. omega (arith, count-append j p.ch (b ∷ []), sound.unmade j h);
  }

-- A buffer that a caller gives back.
pub put-IsSound :
    (p : Pool) (b : Buffer) (out : List Buffer) → IsSound p (b ∷ out) → IsSound (put p b) out
unfolding put
put-IsSound p b out sound =
    let wide : p.size ≤ b.cap = sound.out_wide.0 in
    elim (Option-cases p.cache) [
      | inl e ↦
          let run : put_shared p b ≡ put p b = ground arith in
          subst (λ q. IsSound q out) run (put_shared-IsSound p b out sound)
      | inr (n, e) ↦ elim (Bool-cases (ltb (length p.ch) n)) [
        | inr full ↦
            let run : put_shared p b ≡ put p b = ground arith in
            subst (λ q. IsSound q out) run (put_shared-IsSound p b out sound)
        | inl room ↦
            let run : record p { ch = p.ch ++ (b ∷ []) } ≡ put p b = ground arith in
            subst (λ q. IsSound q out) run (sent-IsSound p b out sound n e (ground arith))
      ]
    ]
