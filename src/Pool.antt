-- ===== src/Pool.antt =====
-- pool/pool.go: buffers of one size, kept in a channel and in a `sync.Pool`. A buffer is its
-- identity and its capacity; which item a `sync.Pool` gives out is an argument, as its
-- documentation promises none.
pub mod Ownership
pub mod Traffic
pub mod Runs
use streamf.Common.{
  ℕ, zero, suc, ◌+◌, ◌*◌, ℤ, ltz, pos_part, List, [], ◌∷◌, ◌++◌, Option, none, some, ltb,
  if◌then◌else◌, length,
}

pub record Buffer : Type 0 where
  pub id : ℕ
  pub cap : ℕ

-- `cache` is the capacity of the channel, `none` where there is none; `next` numbers new buffers.
pub record Pool : Type 0 where
  pub size : ℕ
  pub cache : Option ℕ
  pub ch : List Buffer
  pub shared : List Buffer
  pub next : ℕ

unfoldable pub new : ℤ → ℤ → Pool
new size cache = record {
  size = if ltz size (1024 * 4) then 1024 * 32 else pos_part size;
  cache = if ltz cache 1 then none else some (pos_part cache);
  ch = [];
  shared = [];
  next = 0;
}

-- An item of a list and the others.
unfoldable pub pick : List Buffer → ℕ → Option (Buffer × List Buffer)
pick [] i = none
pick (b ∷ bs) zero = some (b, bs)
pick (b ∷ bs) (suc i) = elim (pick bs i) [ none ↦ none | some (c, cs) ↦ some (c, b ∷ cs) ]

-- `b[:p.size]`: a panic, `none`, where the capacity is less.
unfoldable pub slice : Pool → Buffer → Option (Buffer × Pool)
slice p b = if ltb b.cap p.size then none else some (b, p)

-- `p.pool.Get()`: some item, or a new one where the choice names none.
unfoldable pub get_shared : Pool → ℕ → Option (Buffer × Pool)
unfolding slice
get_shared p choice = elim (pick p.shared choice) [
  | some (b, rest) ↦ slice (record p { shared = rest }) b
  | none ↦ slice (record p { next = suc p.next }) (record { id = p.next; cap = p.size })
]

-- `Get`
unfoldable pub get : Pool → ℕ → Option (Buffer × Pool)
unfolding slice get_shared
get p choice = elim p.ch [ b ∷ rest ↦ slice (record p { ch = rest }) b | [] ↦ get_shared p choice ]

unfoldable pub put_shared : Pool → Buffer → Pool
put_shared p b = record p { shared = b ∷ p.shared }

-- `Put`
unfoldable pub put : Pool → Buffer → Pool
unfolding put_shared
put p b = if ltb b.cap p.size then p else elim p.cache [
  | none ↦ put_shared p b
  | some n ↦ if ltb (length p.ch) n then record p { ch = p.ch ++ (b ∷ []) } else put_shared p b
]
