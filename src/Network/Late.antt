-- ===== src/Network/Late.antt =====
-- internal/network/network.go: a dialer made behind the listener of its address.
use streamf.Common.{
  ℕ, ◌≤◌, ◌≡◌, sym, ap, subst, inl, inr, ◌⊎◌, ℤ, List, [], ◌∷◌, ◌++◌, Option, none, some, Bool,
  false, String, str_eq, eq_iff, arith, Bool-cases,
}
use streamf.Network.{Network}
use streamf.Network.Rendezvous.{Waiting, Registry, lookup, sweep, wait}
use streamf.Network.Sound.{waits, closes, bound_registry}
use streamf.Network.Reached.{
  Step, same, piped, portaled, pipe_waits, portal_waits, Reaches, Reaches-keeps, AllSound,
  Step-AllSound,
}

-- The dialer is on the list, with its address.
unfoldable pub IsWaiting : Waiting → List Waiting → Type 0
IsWaiting d [] = ⊥
IsWaiting d (e ∷ ds) = (e ≡ d) ⊎ IsWaiting d ds

pub IsWaiting-append :
    (d : Waiting) (xs ys : List Waiting) → IsWaiting d xs → IsWaiting d (xs ++ ys)
unfolding IsWaiting
IsWaiting-append d [] ys h = absurd h
IsWaiting-append d (x ∷ xs) ys (inl e) = inl e
IsWaiting-append d (x ∷ xs) ys (inr e) = inr (IsWaiting-append d xs ys e)

-- Another address does not take it off.
pub IsWaiting-sweep :
    (d : Waiting) (a : String) (l : ℕ) (ds : List Waiting)
    → str_eq d.addr a ≡ false
    → IsWaiting d ds
    → IsWaiting d (sweep a l ds).0
unfolding IsWaiting sweep
IsWaiting-sweep d a l [] f h = h
IsWaiting-sweep d a l (e ∷ ds) f (inl h) =
    let g : str_eq e.addr a ≡ false = subst (λ x. str_eq x.addr a ≡ false) (sym h) f in rw g (inl h)
IsWaiting-sweep d a l (e ∷ ds) f (inr h) = elim (Bool-cases (str_eq e.addr a)) [
  | inl g ↦ rw g (IsWaiting-sweep d a l ds f h)
  | inr g ↦ rw g (inr (IsWaiting-sweep d a l ds f h))
]

waits-IsWaiting : (d : Waiting) (ds : List Waiting) → IsWaiting d ds → 1 ≤ waits d.id ds
unfolding IsWaiting waits
waits-IsWaiting d [] h = absurd h
waits-IsWaiting d (e ∷ ds) (inl h) = let k : e.id ≡ d.id = ap (λ x. x.id) h in ground arith
waits-IsWaiting d (e ∷ ds) (inr h) = let k = waits-IsWaiting d ds h in ground arith

-- It waits for an address that has a listener.
abbrev pub IsLate : Waiting → Registry → Type 0
IsLate d r = ((v : ℕ) × (lookup r.bound d.addr ≡ some v)) × IsWaiting d r.waiting

IsLate-bind :
    (d : Waiting) (r : Registry) (a : String) (l : ℕ)
    → lookup r.bound a ≡ none
    → IsLate d r
    → IsLate d (bound_registry r a l)
unfolding lookup
IsLate-bind d r a l free ((v, taken), w) =
    let other : str_eq d.addr a ≡ false = elim (Bool-cases (str_eq d.addr a)) [
      | inr f ↦ f
      | inl f ↦
          let at : d.addr ≡ a = (eq_iff d.addr a).0 f in
          let gone : lookup r.bound d.addr ≡ none =
            subst (λ x. lookup r.bound x ≡ none) (sym at) free in
          absurd (ground arith)
    ] in
    let found : (u : ℕ) × (lookup ((a, l) ∷ r.bound) d.addr ≡ some u) =
      elim (Bool-cases (str_eq a d.addr)) [ inl f ↦ (l, rw f) | inr f ↦ (v, rw f taken) ] in
    (found, IsWaiting-sweep d a l r.waiting other w)

IsLate-wait :
    (d : Waiting) (r : Registry) (a : String) (id : ℕ) → IsLate d r → IsLate d (wait r a id)
unfolding wait
IsLate-wait d r a id (t, w) =
    (t, IsWaiting-append d r.waiting (record { id = id; addr = a } ∷ []) w)

Step-IsLate : (d : Waiting) (n m : Network) → Step n m → IsLate d n.pipe → IsLate d m.pipe
Step-IsLate d n _ same h = h
Step-IsLate d n _ (piped a free) h = IsLate-bind d n.pipe a n.next free h
Step-IsLate d n _ (portaled a free) h = h
Step-IsLate d n _ (pipe_waits a) h = IsLate-wait d n.pipe a n.next h
Step-IsLate d n _ (portal_waits a) h = h

-- On a sound network, a pipe dialer that waits for an address which already has a listener still
-- waits after any successful calls of Listen, Dialer and NewPortal: its channel is never closed.
Reaches-late :
    (net_listen : String → String → ℕ ⊎ ℕ) (parse_duration : String → Option ℤ) (linux : Bool)
    (n m : Network) (d : Waiting)
    → AllSound n
    → IsLate d n.pipe
    → Reaches net_listen parse_duration linux n m
    → (closes d.id m.pipe.resolved ≡ 0) × IsWaiting d m.pipe.waiting
Reaches-late net_listen parse_duration linux n m d sound late r =
    let ((s, t), numbered) = Reaches-keeps AllSound Step-AllSound sound r in
    let (taken, w) = Reaches-keeps (λ k. IsLate d k.pipe) (Step-IsLate d) late r in
    (omega (arith, s.once d.id, waits-IsWaiting d m.pipe.waiting w), w)
