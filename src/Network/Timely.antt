-- ===== src/Network/Timely.antt =====
-- internal/network/network.go: no dialer waits for an address that has a listener.
use streamf.Common.{
  ◌≡◌, sym, subst, refl, ◌⊎◌, if◌then◌else◌, inl, inr, List, [], ◌∷◌, some, Bool, false, String,
  str_eq, eq_iff, ℕ, arith, Bool-cases,
}
use streamf.Network.{Network, Opened, ok, dialer}
use streamf.Network.Rendezvous.{Waiting, Registry, lookup, sweep, wait}
use streamf.Network.Sound.{bound_registry}
use streamf.Network.Binding.{Binds, same, piped, portaled}
use streamf.Network.Late.{IsWaiting, IsLate}

abbrev pub NoneLate : Registry → Type 0
NoneLate r = (d : Waiting) → IsLate d r → ⊥

abbrev pub IsTimely : Network → Type 0
IsTimely n = NoneLate n.pipe × NoneLate n.portal

-- There is no listener yet.
abbrev pub HasNoListener : Network → Type 0
HasNoListener n = (n.pipe.bound ≡ []) × (n.portal.bound ≡ [])

unbound-NoneLate : (r : Registry) → r.bound ≡ [] → NoneLate r
unfolding lookup
unbound-NoneLate r e d ((v, h), w) =
    absurd (let k = subst (λ b. lookup b d.addr ≡ some v) e h in cc)

pub HasNoListener-IsTimely : (n : Network) → HasNoListener n → IsTimely n
HasNoListener-IsTimely n h = (unbound-NoneLate n.pipe h.0, unbound-NoneLate n.portal h.1)

sweep-IsWaiting :
    (d : Waiting) (a : String) (l : ℕ) (ds : List Waiting)
    → IsWaiting d (sweep a l ds).0
    → IsWaiting d ds × (str_eq d.addr a ≡ false)
unfolding IsWaiting sweep
sweep-IsWaiting d a l [] h = absurd h
sweep-IsWaiting d a l (e ∷ ds) h = elim (Bool-cases (str_eq e.addr a)) [
  | inl f ↦
      let kept : (sweep a l (e ∷ ds)).0 ≡ (sweep a l ds).0 = rw f refl in
      let (w, g) = sweep-IsWaiting d a l ds (subst (IsWaiting d) kept h) in (inr w, g)
  | inr f ↦
      let kept : (sweep a l (e ∷ ds)).0 ≡ e ∷ (sweep a l ds).0 = rw f refl in
      let k : (e ≡ d) ⊎ IsWaiting d (sweep a l ds).0 = subst (IsWaiting d) kept h in
      elim k [
        | inl q ↦ (inl q, subst (λ x. str_eq x.addr a ≡ false) q f)
        | inr q ↦ let (w, g) = sweep-IsWaiting d a l ds q in (inr w, g)
      ]
]

-- A new listener takes the dialers of its address off the list.
bind-NoneLate : (r : Registry) (a : String) (l : ℕ) → NoneLate r → NoneLate (bound_registry r a l)
unfolding lookup
bind-NoneLate r a l h d ((v, k), w) =
    let (was, other) = sweep-IsWaiting d a l r.waiting w in
    let f : str_eq a d.addr ≡ false = elim (Bool-cases (str_eq a d.addr)) [
      | inr g ↦ g
      | inl g ↦ absurd (let e = (eq_iff d.addr a).1 (sym ((eq_iff a d.addr).0 g)) in cc)
    ] in
    h d ((v, subst (λ b. (if b then some l else lookup r.bound d.addr) ≡ some v) f k), was)

pub Binds-IsTimely : (n m : Network) → Binds n m → IsTimely n → IsTimely m
Binds-IsTimely n _ same h = h
Binds-IsTimely n _ (piped a free) h = (bind-NoneLate n.pipe a n.next h.0, h.1)
Binds-IsTimely n _ (portaled a free) h = (h.0, bind-NoneLate n.portal a n.next h.1)

-- A dialer makes no listener.
pub dialer-HasNoListener :
    (linux : Bool) (n m : Network) (network a : String) (o : Opened)
    → dialer linux n network a ≡ ok o m
    → HasNoListener n
    → HasNoListener m
unfolding dialer wait
dialer-HasNoListener linux n m network a o e (p, q) = ground arith
