-- ===== src/Sniff/Cursor.antt =====
-- What the steps of the parser do at a position whose following bytes are known.
use streamf.Common.{
  ℕ, zero, suc, ◌+◌, ◌*◌, ◌/◌, ◌%◌, ◌<◌, ◌≡◌, List, [], ◌∷◌, ◌++◌, some, sym, ap, ◌∙◌, arith,
  length, get_elem?, drop, length-drop, drop-drop, drop-length_append,
}
use streamf.Sniff.{SniffError, ok, at, be16, skip8, skip16}
use streamf.Sniff.Encode.{u16, vec8, vec16}

-- What stands in the buffer from a position on.
abbrev pub From : List ℕ → ℕ → List ℕ → Type 0
From buf pos rest = drop pos buf ≡ rest

pub From-length :
    (buf : List ℕ) (pos x : ℕ) (xs : List ℕ)
    → From buf pos (x ∷ xs)
    → length buf ≡ pos + suc (length xs)
From-length buf pos x xs h = omega (arith, ap length h, length-drop pos buf)

pub From-step :
    (buf : List ℕ) (pos : ℕ) (xs ys : List ℕ)
    → From buf pos (xs ++ ys)
    → From buf (pos + length xs) ys
From-step buf pos xs ys h =
    sym (drop-drop (length xs) pos buf) ∙ ap (drop (length xs)) h ∙ drop-length_append xs ys

pub From-next :
    (buf : List ℕ) (pos x : ℕ) (ys : List ℕ) → From buf pos (x ∷ ys) → From buf (pos + 1) ys
From-next buf pos x ys h = From-step buf pos (x ∷ []) ys h

get_elem?-drop :
    (buf : List ℕ) (pos x : ℕ) (ys : List ℕ) → drop pos buf ≡ x ∷ ys → get_elem? buf pos ≡ some x
get_elem?-drop [] zero x ys h = absurd (ground arith)
get_elem?-drop [] (suc pos) x ys h = absurd (ground arith)
get_elem?-drop (b ∷ bs) zero x ys h = ground arith
get_elem?-drop (b ∷ bs) (suc pos) x ys h = get_elem?-drop bs pos x ys h

pub at-From : (buf : List ℕ) (pos x : ℕ) (ys : List ℕ) → From buf pos (x ∷ ys) → at buf pos ≡ ok x
unfolding at
at-From buf pos x ys h = rw (get_elem?-drop buf pos x ys h)

pub be16-From :
    (buf : List ℕ) (pos n : ℕ) (ys : List ℕ)
    → n < 65536
    → From buf pos (u16 n ++ ys)
    → be16 buf pos ≡ ok n
unfolding be16 u16
be16-From buf pos n ys lt h =
    let p = at-From buf pos _ _ h in
    let q = at-From buf (pos + 1) _ _ (From-next buf pos _ _ h) in
    let e : n / 256 % 256 * 256 + n % 256 ≡ n = omega arith in rw (p, q, e)

-- A vector that is followed by another byte is skipped.
pub skip8-From :
    (buf : List ℕ) (pos : ℕ) (e : SniffError) (body : List ℕ) (y : ℕ) (ys : List ℕ)
    → length body < 256
    → From buf pos (vec8 body ++ (y ∷ ys))
    → (skip8 buf pos e ≡ ok (pos + (1 + length body))) × From buf (pos + (1 + length body)) (y ∷ ys)
unfolding skip8 vec8
skip8-From buf pos e body y ys lt h =
    let p = at-From buf pos _ _ h in
    let m : length body % 256 ≡ length body = omega arith in
    let s = From-step buf pos (vec8 body) (y ∷ ys) h in
    let k : pos + suc (length body) ≡ pos + (1 + length body) = omega arith in
    let f = From-length buf (pos + (1 + length body)) y ys (rw k at s) in
    (rw (p, m) (ground arith), rw k at s)

pub skip16-From :
    (buf : List ℕ) (pos : ℕ) (e : SniffError) (body : List ℕ) (y : ℕ) (ys : List ℕ)
    → length body < 65536
    → From buf pos (vec16 body ++ (y ∷ ys))
    → (skip16 buf pos e ≡ ok (pos + (2 + length body)))
      × From buf (pos + (2 + length body)) (y ∷ ys)
unfolding skip16 vec16 u16
skip16-From buf pos e body y ys lt h =
    let p = be16-From buf pos (length body) (body ++ (y ∷ ys)) lt h in
    let s = From-step buf pos (vec16 body) (y ∷ ys) h in
    let k : pos + suc (suc (length body)) ≡ pos + (2 + length body) = omega arith in
    let f = From-length buf (pos + (2 + length body)) y ys (rw k at s) in
    (rw p (ground arith), rw k at s)
