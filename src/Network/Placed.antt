-- ===== src/Network/Placed.antt =====
-- internal/network/network.go: what becomes of a dialer that `Dialer` returned.
use streamf.Common.{
  ℕ, suc, ◌≡◌, refl, sym, ap, subst, inl, inr, ◌⊎◌, ℤ, List, [], ◌∷◌, ◌++◌, Option, none, some,
  Bool, true, String, str_eq, eq_iff, arith, Bool-cases,
}
use streamf.Network.{
  Network, Opened, pipe_listener, socket, raw_dialer, pipe_dialer, portal_dialer, ok, dialer,
}
use streamf.Network.Rendezvous.{Waiting, Resolved, Registry, lookup, sweep, wait}
use streamf.Network.Sound.{bound_registry}
use streamf.Network.Reached.{
  Step, same, piped, portaled, pipe_waits, portal_waits, Reaches, Reaches-keeps,
}
use streamf.Network.Late.{IsWaiting, IsWaiting-append, IsWaiting-sweep}

-- The channel of the dialer was closed, with this listener.
unfoldable pub WasClosed : Waiting → ℕ → List Resolved → Type 0
WasClosed d l [] = ⊥
WasClosed d l (r ∷ rs) = (r ≡ record { dialer = d; listener = l }) ⊎ WasClosed d l rs

-- The dialer waits, or has the listener that is bound to its address.
unfoldable pub IsPlaced : Waiting → Registry → Type 0
IsPlaced d r =
    IsWaiting d r.waiting ⊎ ((l : ℕ) × (lookup r.bound d.addr ≡ some l) × WasClosed d l r.resolved)

WasClosed-append_left :
    (d : Waiting) (l : ℕ) (xs ys : List Resolved) → WasClosed d l xs → WasClosed d l (xs ++ ys)
unfolding WasClosed
WasClosed-append_left d l [] ys h = absurd h
WasClosed-append_left d l (x ∷ xs) ys (inl e) = inl e
WasClosed-append_left d l (x ∷ xs) ys (inr e) = inr (WasClosed-append_left d l xs ys e)

WasClosed-append_right :
    (d : Waiting) (l : ℕ) (xs ys : List Resolved) → WasClosed d l ys → WasClosed d l (xs ++ ys)
unfolding WasClosed
WasClosed-append_right d l [] ys h = h
WasClosed-append_right d l (x ∷ xs) ys h = inr (WasClosed-append_right d l xs ys h)

IsWaiting-snoc : (d : Waiting) (ds : List Waiting) → IsWaiting d (ds ++ d ∷ [])
unfolding IsWaiting
IsWaiting-snoc d [] = inl refl
IsWaiting-snoc d (x ∷ ds) = inr (IsWaiting-snoc d ds)

-- The listener of its address closes the channel.
WasClosed-sweep :
    (d : Waiting) (a : String) (l : ℕ) (ds : List Waiting)
    → str_eq d.addr a ≡ true
    → IsWaiting d ds
    → WasClosed d l (sweep a l ds).1
unfolding IsWaiting sweep WasClosed
WasClosed-sweep d a l [] f h = absurd h
WasClosed-sweep d a l (e ∷ ds) f (inl h) =
    let g : str_eq e.addr a ≡ true = subst (λ x. str_eq x.addr a ≡ true) (sym h) f in
    rw g (inl (ap (λ x. record { dialer = x; listener = l }) h))
WasClosed-sweep d a l (e ∷ ds) f (inr h) = elim (Bool-cases (str_eq e.addr a)) [
  | inl g ↦ rw g (inr (WasClosed-sweep d a l ds f h))
  | inr g ↦ rw g (WasClosed-sweep d a l ds f h)
]

bind-IsPlaced :
    (d : Waiting) (r : Registry) (a : String) (l : ℕ)
    → lookup r.bound a ≡ none
    → IsPlaced d r
    → IsPlaced d (bound_registry r a l)
unfolding IsPlaced lookup
bind-IsPlaced d r a l free (inl w) = elim (Bool-cases (str_eq d.addr a)) [
  | inr f ↦ inl (IsWaiting-sweep d a l r.waiting f w)
  | inl f ↦
      let back : str_eq a d.addr ≡ true = (eq_iff a d.addr).1 (sym ((eq_iff d.addr a).0 f)) in
      inr (
        l,
        rw back refl,
        WasClosed-append_right d l r.resolved (sweep a l r.waiting).1
            (WasClosed-sweep d a l r.waiting f w),
      )
]
bind-IsPlaced d r a l free (inr (v, at, c)) =
    let kept : lookup ((a, l) ∷ r.bound) d.addr ≡ some v = elim (Bool-cases (str_eq a d.addr)) [
      | inr f ↦ rw f at
      | inl f ↦
          let gone : lookup r.bound d.addr ≡ none =
            subst (λ x. lookup r.bound x ≡ none) ((eq_iff a d.addr).0 f) free in
          absurd (ground arith)
    ] in
    inr (v, kept, WasClosed-append_left d v r.resolved (sweep a l r.waiting).1 c)

wait-IsPlaced :
    (d : Waiting) (r : Registry) (a : String) (id : ℕ) → IsPlaced d r → IsPlaced d (wait r a id)
unfolding wait IsPlaced
wait-IsPlaced d r a id (inl w) =
    inl (IsWaiting-append d r.waiting (record { id = id; addr = a } ∷ []) w)
wait-IsPlaced d r a id (inr c) = inr c

wait-IsPlaced_new :
    (r : Registry) (a : String) (id : ℕ) → IsPlaced (record { id = id; addr = a }) (wait r a id)
unfolding wait IsPlaced
wait-IsPlaced_new r a id = inl (IsWaiting-snoc (record { id = id; addr = a }) r.waiting)

-- What `Dialer` returned for a network and an address, in the network behind it.
abbrev pub Keeps : String → String → Opened → Network → Type 0
Keeps network a (pipe_listener i) n = ⊥
Keeps network a (socket i) n = ⊥
Keeps network a (raw_dialer w b) n = (w ≡ network) × (b ≡ a)
Keeps network a (pipe_dialer i) n =
    (network ≡ "pipe") × IsPlaced (record { id = i; addr = a }) n.pipe
Keeps network a (portal_dialer i) n =
    (network ≡ "portal") × IsPlaced (record { id = i; addr = a }) n.portal

Step-Keeps :
    (network a : String) (o : Opened) (n m : Network)
    → Step n m
    → Keeps network a o n
    → Keeps network a o m
Step-Keeps network a o n _ same h = h
Step-Keeps network a (pipe_listener i) n m s h = absurd h
Step-Keeps network a (socket i) n m s h = absurd h
Step-Keeps network a (raw_dialer w b) n m s h = h
Step-Keeps network a (pipe_dialer i) n _ (piped b free) (e, h) =
    (e, bind-IsPlaced _ n.pipe b n.next free h)
Step-Keeps network a (pipe_dialer i) n _ (pipe_waits b) (e, h) =
    (e, wait-IsPlaced _ n.pipe b n.next h)
Step-Keeps network a (pipe_dialer i) n _ (portaled b free) h = h
Step-Keeps network a (pipe_dialer i) n _ (portal_waits b) h = h
Step-Keeps network a (portal_dialer i) n _ (portaled b free) (e, h) =
    (e, bind-IsPlaced _ n.portal b n.next free h)
Step-Keeps network a (portal_dialer i) n _ (portal_waits b) (e, h) =
    (e, wait-IsPlaced _ n.portal b n.next h)
Step-Keeps network a (portal_dialer i) n _ (piped b free) h = h
Step-Keeps network a (portal_dialer i) n _ (pipe_waits b) h = h

dialer-Keeps :
    (linux : Bool) (n m : Network) (network a : String) (o : Opened)
    → dialer linux n network a ≡ ok o m
    → Keeps network a o m
unfolding dialer
dialer-Keeps linux n m network a o e = elim (Bool-cases (str_eq network "portal")) [
  | inl p ↦
      let next : record n { portal = wait n.portal a n.next; next = suc n.next } ≡ m =
        ground arith in
      let made : portal_dialer n.next ≡ o = ground arith in
      subst (λ x. Keeps network a x m) made
        (
          (eq_iff network "portal").0 p,
          subst (λ k. IsPlaced (record { id = n.next; addr = a }) k.portal) next
              (wait-IsPlaced_new n.portal a n.next),
        )
  | inr p ↦ elim (Bool-cases (str_eq network "pipe")) [
    | inl q ↦
        let next : record n { pipe = wait n.pipe a n.next; next = suc n.next } ≡ m = ground arith in
        let made : pipe_dialer n.next ≡ o = ground arith in
        subst (λ x. Keeps network a x m) made
          (
            (eq_iff network "pipe").0 q,
            subst (λ k. IsPlaced (record { id = n.next; addr = a }) k.pipe) next
                (wait-IsPlaced_new n.pipe a n.next),
          )
    | inr q ↦
        let made : raw_dialer network a ≡ o = ground arith in
        subst (λ x. Keeps network a x m) made (refl, refl)
  ]
]

-- What Dialer returned in any network is, after any successful calls of Listen, Dialer and
-- NewPortal behind it, for a pipe or a portal a dialer of that network which waits under the
-- address it was asked for, or whose channel was closed with the listener that is bound to this
-- address, and for the other networks a dialer of the network and the address that were asked for.
pub Reaches-Keeps :
    (net_listen : String → String → ℕ ⊎ ℕ) (parse_duration : String → Option ℤ) (linux : Bool)
    (n m k : Network) (network a : String) (o : Opened)
    → dialer linux n network a ≡ ok o m
    → Reaches net_listen parse_duration linux m k
    → Keeps network a o k
Reaches-Keeps net_listen parse_duration linux n m k network a o e r =
    Reaches-keeps (Keeps network a o) (Step-Keeps network a o)
      (dialer-Keeps linux n m network a o e) r
