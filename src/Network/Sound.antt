-- ===== src/Network/Sound.antt =====
-- internal/network/network.go: each dialer finds the listener of its address, at most once.
use streamf.Common.{
  ℕ, suc, ◌+◌, ◌≤◌, ◌≡◌, refl, sym, subst, inl, inr, List, [], ◌∷◌, ◌++◌, none, some, true, ◌==◌,
  if◌then◌else◌, String, str_eq, eq_iff, arith, All, Bool-cases,
}
use streamf.Network.Rendezvous.{Waiting, Resolved, Registry, empty, lookup, sweep, wait}

-- How often a dialer waits, and how often its channel was closed.
unfoldable pub waits : ℕ → List Waiting → ℕ
waits i [] = 0
waits i (d ∷ ds) = (if d.id == i then 1 else 0) + waits i ds

unfoldable pub closes : ℕ → List Resolved → ℕ
closes i [] = 0
closes i (d ∷ ds) = (if d.dialer.id == i then 1 else 0) + closes i ds

-- How often a number is that of a listener.
unfoldable pub binds : ℕ → List (String × ℕ) → ℕ
binds i [] = 0
binds i (e ∷ es) = (if e.1 == i then 1 else 0) + binds i es

waits-append : (i : ℕ) (xs ys : List Waiting) → waits i (xs ++ ys) ≡ waits i xs + waits i ys
unfolding waits
waits-append i [] ys = omega arith
waits-append i (x ∷ xs) ys = omega (arith, waits-append i xs ys)

closes-append : (i : ℕ) (xs ys : List Resolved) → closes i (xs ++ ys) ≡ closes i xs + closes i ys
unfolding closes
closes-append i [] ys = omega arith
closes-append i (x ∷ xs) ys = omega (arith, closes-append i xs ys)

sweep_lem :
    (a : String) (l i : ℕ) (ds : List Waiting)
    → waits i (sweep a l ds).0 + closes i (sweep a l ds).1 ≡ waits i ds
unfolding sweep waits closes
sweep_lem a l i [] = refl
sweep_lem a l i (d ∷ ds) =
    let h = sweep_lem a l i ds in
    elim (Bool-cases (str_eq d.addr a)) [ inl e ↦ ground arith | inr e ↦ ground arith ]

-- A dialer whose channel is closed has the listener of its address.
abbrev pub Found : List (String × ℕ) → List Resolved → Type 0
Found bound rs = All (λ r. lookup bound r.dialer.addr ≡ some r.listener) rs

Found-append :
    (b : List (String × ℕ)) (xs ys : List Resolved) → Found b xs → Found b ys → Found b (xs ++ ys)
Found-append b [] ys h k = k
Found-append b (x ∷ xs) ys h k = (h.0, Found-append b xs ys h.1 k)

-- A new address does not hide another one.
Found-bind :
    (b : List (String × ℕ)) (a : String) (l : ℕ) (rs : List Resolved)
    → lookup b a ≡ none
    → Found b rs
    → Found ((a, l) ∷ b) rs
unfolding lookup
Found-bind b a l [] h f = tt
Found-bind b a l (r ∷ rs) h f =
    let here : lookup ((a, l) ∷ b) r.dialer.addr ≡ some r.listener =
      elim (Bool-cases (str_eq a r.dialer.addr)) [
        | inl e ↦
            let same : a ≡ r.dialer.addr = (eq_iff a r.dialer.addr).0 e in
            let gone : lookup b r.dialer.addr ≡ none = subst (λ x. lookup b x ≡ none) same h in
            absurd (ground (arith, f.0))
        | inr e ↦ let k = f.0 in ground arith
      ] in
    (here, Found-bind b a l rs h f.1)

Found-sweep :
    (b : List (String × ℕ)) (a : String) (l : ℕ) (ds : List Waiting)
    → Found ((a, l) ∷ b) (sweep a l ds).1
unfolding sweep lookup
Found-sweep b a l [] = tt
Found-sweep b a l (d ∷ ds) = elim (Bool-cases (str_eq d.addr a)) [
  | inl e ↦
      let same : d.addr ≡ a = (eq_iff d.addr a).0 e in
      let here : lookup ((a, l) ∷ b) d.addr ≡ some l =
        let k : str_eq a d.addr ≡ true = (eq_iff a d.addr).1 (sym same) in rw k in
      rw e (here, Found-sweep b a l ds)
  | inr e ↦ rw e (Found-sweep b a l ds)
]

-- The invariant of one map and its list: a dialer waits or has been closed at most once, and none
-- of those to come does; each closed one has its listener.
pub record IsSound (next : ℕ) (r : Registry) : Type 0 where
  pub once : (i : ℕ) → waits i r.waiting + closes i r.resolved ≤ 1
  pub unmade : (i : ℕ) → next ≤ i → waits i r.waiting + closes i r.resolved ≡ 0
  pub found : Found r.bound r.resolved

pub empty-IsSound : IsSound 0 empty
unfolding empty waits closes
empty-IsSound = record { once = λ i. omega arith; unmade = λ i h. refl; found = tt }

pub later-IsSound : (n : ℕ) (r : Registry) → IsSound n r → IsSound (suc n) r
later-IsSound n r s = record {
  once = s.once;
  unmade = λ i h. s.unmade i (omega arith);
  found = s.found;
}

pub wait-IsSound : (n : ℕ) (r : Registry) (a : String) → IsSound n r → IsSound (suc n) (wait r a n)
unfolding wait waits
wait-IsSound n r a s =
    let d : Waiting = record { id = n; addr = a } in
    record {
      once = λ i.
          let h = waits-append i r.waiting (d ∷ []) in
          let o = s.once i in let u = s.unmade i in ground arith;
      unmade =
          λ i h. let k = waits-append i r.waiting (d ∷ []) in let u = s.unmade i in ground arith;
      found = s.found;
    }

-- What `bind` makes of a registry whose address is free.
abbrev pub bound_registry : Registry → String → ℕ → Registry
bound_registry r a l = record {
  bound = (a, l) ∷ r.bound;
  waiting = (sweep a l r.waiting).0;
  resolved = r.resolved ++ (sweep a l r.waiting).1;
}

pub bind-IsSound :
    (n : ℕ) (r : Registry) (a : String) (l : ℕ)
    → lookup r.bound a ≡ none
    → IsSound n r
    → IsSound n (bound_registry r a l)
bind-IsSound n r a l free s = record {
  once = λ i. omega (
    arith,
    closes-append i r.resolved (sweep a l r.waiting).1,
    sweep_lem a l i r.waiting,
    s.once i,
  );
  unmade = λ i h. omega (
    arith,
    closes-append i r.resolved (sweep a l r.waiting).1,
    sweep_lem a l i r.waiting,
    s.unmade i h,
  );
  found =
      Found-append ((a, l) ∷ r.bound) r.resolved (sweep a l r.waiting).1
        (Found-bind r.bound a l r.resolved free s.found) (Found-sweep r.bound a l r.waiting);
}

-- What a number is in one map and its list: a listener, a dialer that waits, a dialer whose channel
-- was closed.
unfoldable pub uses : ℕ → Registry → ℕ
uses i r = (waits i r.waiting + closes i r.resolved) + binds i r.bound

pub uses-wait :
    (i : ℕ) (r : Registry) (a : String) (n : ℕ)
    → uses i (wait r a n) ≡ (if n == i then 1 else 0) + uses i r
unfolding uses wait waits
uses-wait i r a n =
    let h = waits-append i r.waiting (record { id = n; addr = a } ∷ []) in omega (arith, h)

pub uses-bind :
    (i : ℕ) (r : Registry) (a : String) (l : ℕ)
    → uses i (bound_registry r a l) ≡ (if l == i then 1 else 0) + uses i r
unfolding uses binds
uses-bind i r a l =
    let h = closes-append i r.resolved (sweep a l r.waiting).1 in
    omega (arith, h, sweep_lem a l i r.waiting)
