-- ===== src/Datagram/Clients.antt =====
-- internal/network/udp.go: which stream the datagrams of a client go to.
use streamf.Common.{
  ℕ, ◌≤◌, ◌≡◌, refl, sym, ap, subst, ◌∙◌, ◌⊎◌, inl, inr, none, some, Bool, true, false, ◌==◌,
  if◌then◌else◌, arith, Bool-cases,
}
use streamf.Datagram.Streams.{
  Status, unmade, opened, closing, gone, Streams, set, accept_stream, insert_stream, is_current,
  on_closed, close_stream,
}

-- A stream that is open, or whose `Close` waits.
abbrev pub alive : Status → Bool
alive unmade = false
alive opened = true
alive closing = true
alive gone = false

-- The map has the streams that are alive, but for one that is about to be put there.
pub record IsSound (s : Streams) : Type 0 where
  pub current : (k i : ℕ) → s.keys k ≡ some i → (s.key_of i ≡ k) × (alive (s.status i) ≡ true)
  pub found :
      (i : ℕ)
      → alive (s.status i) ≡ true
      → (s.keys (s.key_of i) ≡ some i) ⊎ ((m : ℕ) × (s.pending ≡ some (i, m)))
  pub free :
      (i m : ℕ)
      → s.pending ≡ some (i, m)
      → (s.keys (s.key_of i) ≡ none) × (alive (s.status i) ≡ true)
  pub fresh : (i : ℕ) → s.next ≤ i → alive (s.status i) ≡ false

module _ {ℓ} {A : Type ℓ} (f : ℕ → A) (k : ℕ) (a : A) where
  set_same : set f k a k ≡ a
  set_same = ground arith

  set_other : (x : ℕ) → (x == k) ≡ false → set f k a x ≡ f x
  set_other x h = rw h refl

pub accept_stream-IsSound :
    (s : Streams) (key m : ℕ)
    → s.pending ≡ none
    → s.keys key ≡ none
    → IsSound s
    → IsSound (accept_stream s key m)
unfolding accept_stream
accept_stream-IsSound s key m p h v =
    let z = v.fresh s.next (omega arith) in
    record {
      current = λ k i e.
          let (a, b) = v.current k i e in
          elim (Bool-cases (i == s.next)) [
            | inl f ↦ absurd (
                let q : i ≡ s.next = ground arith in
                let w = subst (λ x. alive (s.status x) ≡ true) q b in cc)
            | inr f ↦ (rw f a, rw f b)
          ];
      found = λ i e. elim (Bool-cases (i == s.next)) [
        | inl f ↦ inr (m, let q : s.next ≡ i = ground arith in ap (λ x. some (x, m)) q)
        | inr f ↦
            let old : alive (s.status i) ≡ true =
              subst (λ x. alive x ≡ true) (set_other s.status s.next opened i f) e in
            elim (v.found i old) [ inl q ↦ inl (rw f q) | inr (n, q) ↦ absurd cc ]
      ];
      free = λ i n e.
          let q : s.next ≡ i = cc in
          subst
            (λ x.
              (s.keys (set s.key_of s.next key x) ≡ none)
              × (alive (set s.status s.next opened x) ≡ true))
            q
            (
              ap s.keys (set_same s.key_of s.next key) ∙ h,
              ap alive (set_same s.status s.next opened),
            );
      fresh = λ i l. let f : (i == s.next) ≡ false = ground arith in rw f (v.fresh i (omega arith));
    }

pub insert_stream-IsSound :
    (s : Streams) (c m : ℕ) → s.pending ≡ some (c, m) → IsSound s → IsSound (insert_stream s c m)
unfolding insert_stream
insert_stream-IsSound s c m p v =
    let (absent, lives) = v.free c m p in
    record {
      current = λ k i e. elim (Bool-cases (k == s.key_of c)) [
        | inl f ↦
            let g = subst (λ b. (if b then some c else s.keys k) ≡ some i) f e in
            let q : c ≡ i = cc in
            let k-key : s.key_of c ≡ k = ground arith in
            subst (λ x. (s.key_of x ≡ k) × (alive (s.status x) ≡ true)) q (k-key, lives)
        | inr f ↦ v.current k i (subst (λ b. (if b then some c else s.keys k) ≡ some i) f e)
      ];
      found = λ i a. elim (v.found i a) [
        | inl q ↦ elim (Bool-cases (s.key_of i == s.key_of c)) [
          | inl f ↦
              let same : s.key_of i ≡ s.key_of c = ground arith in
              absurd (let w = ap s.keys same in cc)
          | inr f ↦ inl (rw f q)
        ]
        | inr (n, q) ↦
            let same : c ≡ i = cc in
            inl (
              subst (λ x. set s.keys (s.key_of c) (some c) (s.key_of x) ≡ some x) same
                (set_same s.keys (s.key_of c) (some c)))
      ];
      free = λ i n e. absurd cc;
      fresh = v.fresh;
    }

pub on_closed-IsSound :
    (s : Streams) (c : ℕ)
    → s.pending ≡ none
    → s.status c ≡ closing
    → IsSound s
    → IsSound (on_closed s c)
unfolding on_closed
on_closed-IsSound s c p h v =
    let there : s.keys (s.key_of c) ≡ some c = elim (v.found c (ap alive h)) [
      | inl q ↦ q
      | inr (m, q) ↦ absurd cc
    ] in
    let now : is_current (s.keys (s.key_of c)) c ≡ true = rw (there, is_current) (ground arith) in
    let left : Streams = record s {
      status = set s.status c gone;
      keys = set s.keys (s.key_of c) none;
    } in
    let same : on_closed s c ≡ left =
      ap (λ b. if b then left else record s { status = set s.status c gone }) now in
    subst IsSound (sym same) (record {
      current = λ k i e. elim (Bool-cases (k == s.key_of c)) [
        | inl f ↦ absurd (let g = subst (λ b. (if b then none else s.keys k) ≡ some i) f e in cc)
        | inr f ↦
            let (a, b) = v.current k i (subst (λ b. (if b then none else s.keys k) ≡ some i) f e) in
            elim (Bool-cases (i == c)) [
              | inl g ↦
                  let q : i ≡ c = ground arith in absurd (let w = ap s.key_of q in ground arith)
              | inr g ↦ (a, rw g b)
            ]
      ];
      found = λ i a. elim (Bool-cases (i == c)) [
        | inl g ↦
            absurd (let w = subst (λ b. alive (if b then gone else s.status i) ≡ true) g a in cc)
        | inr g ↦
            let w = subst (λ b. alive (if b then gone else s.status i) ≡ true) g a in
            elim (v.found i w) [
              | inr (m, q) ↦ absurd cc
              | inl q ↦ elim (Bool-cases (s.key_of i == s.key_of c)) [
                | inl f ↦
                    let k : s.key_of i ≡ s.key_of c = ground arith in
                    let j : i ≡ c = let x = ap s.keys k in cc in absurd (ground arith)
                | inr f ↦ inl (rw f q)
              ]
            ]
      ];
      free = λ i n e. absurd cc;
      fresh = λ i l. elim (Bool-cases (i == c)) [ inl g ↦ rw g refl | inr g ↦ rw g (v.fresh i l) ];
    })

-- A stream that waits in `Close` is still alive.
closing-alive :
    (s : Streams) (c i : ℕ)
    → s.status c ≡ opened
    → alive (set s.status c closing i) ≡ alive (s.status i)
closing-alive s c i h = elim (Bool-cases (i == c)) [
  | inl f ↦
      let q : c ≡ i = ground arith in rw f (sym (ap alive (subst (λ x. s.status x ≡ opened) q h)))
  | inr f ↦ rw f refl
]

begin_close-IsSound :
    (s : Streams) (c : ℕ)
    → s.status c ≡ opened
    → IsSound s
    → IsSound (record s { status = set s.status c closing })
begin_close-IsSound s c h v = record {
  current = λ k i e. let (a, b) = v.current k i e in (a, closing-alive s c i h ∙ b);
  found = λ i a. v.found i (sym (closing-alive s c i h) ∙ a);
  free = λ i m e. let (a, b) = v.free i m e in (a, closing-alive s c i h ∙ b);
  fresh = λ i l. closing-alive s c i h ∙ v.fresh i l;
}

-- `Close` and the loop, by the status of the stream.
pub close_stream-IsSound :
    (s : Streams) (c : ℕ) (x : Status) → s.status c ≡ x → IsSound s → IsSound (close_stream s c)
unfolding close_stream
close_stream-IsSound s c unmade h v =
    let same : close_stream s c ≡ s = rw (h, close_stream) refl in subst IsSound (sym same) v
close_stream-IsSound s c closing h v =
    let same : close_stream s c ≡ s = rw (h, close_stream) refl in subst IsSound (sym same) v
close_stream-IsSound s c gone h v =
    let same : close_stream s c ≡ s = rw (h, close_stream) refl in subst IsSound (sym same) v
close_stream-IsSound s c opened h v =
    let same : close_stream s c ≡ record s { status = set s.status c closing } =
      rw (h, close_stream) refl in
    subst IsSound (sym same) (begin_close-IsSound s c h v)
