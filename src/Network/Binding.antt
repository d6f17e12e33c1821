-- ===== src/Network/Binding.antt =====
-- internal/network/network.go: what a listener or a portal does to the network.
use streamf.Common.{
  ℕ, suc, ◌≡◌, subst, inl, inr, ◌⊎◌, ℤ, Option, none, some, Bool, ◌||◌, String, str_eq, arith,
  Bool-cases, Option-cases,
}
use streamf.Network.{
  Network, Opened, ok, PortalConfig, DialerOptions, listen_pipe, listen, new_portal,
}
use streamf.Network.Rendezvous.{Registry, lookup, bind}
use streamf.Network.Sound.{bound_registry}

pub data Binds (n : Network) : Network → Type 0 where
  same : Binds n n
  piped :
      (a : String)
      → lookup n.pipe.bound a ≡ none
      → Binds n (record n { pipe = bound_registry n.pipe a n.next; next = suc n.next })
  portaled :
      (a : String)
      → lookup n.portal.bound a ≡ none
      → Binds n (record n { portal = bound_registry n.portal a n.next; next = suc n.next })

pub bind-none :
    (r : Registry) (a : String) (l : ℕ) → bind r a l ≡ none → (v : ℕ) × (lookup r.bound a ≡ some v)
unfolding bind
bind-none r a l e = elim (Option-cases (lookup r.bound a)) [
  | inl f ↦ absurd (ground arith)
  | inr (v, f) ↦ (v, f)
]

bind-some :
    (r s : Registry) (a : String) (l : ℕ)
    → bind r a l ≡ some s
    → (lookup r.bound a ≡ none) × (bound_registry r a l ≡ s)
unfolding bind
bind-some r s a l e = elim (Option-cases (lookup r.bound a)) [
  | inl f ↦ (f, ground arith)
  | inr (v, f) ↦ absurd (ground arith)
]

listen_pipe-Binds : (n m : Network) (a : String) (o : Opened) → listen_pipe n a ≡ ok o m → Binds n m
unfolding listen_pipe
listen_pipe-Binds n m a o e = elim (Option-cases (bind n.pipe a n.next)) [
  | inl f ↦ absurd (ground arith)
  | inr (r, f) ↦
      let (free, made) = bind-some n.pipe r a n.next f in
      let next : record n { pipe = r; next = suc n.next } ≡ m = ground arith in
      subst (Binds n) next
        (subst (λ x. Binds n (record n { pipe = x; next = suc n.next })) made (piped a free))
]

pub listen-Binds :
    (net_listen : String → String → ℕ ⊎ ℕ) (linux : Bool) (n m : Network) (network a : String)
    (o : Opened)
    → listen net_listen linux n network a ≡ ok o m
    → Binds n m
unfolding listen
listen-Binds net_listen linux n m network a o e = elim (Bool-cases (str_eq network "pipe")) [
  | inl p ↦
      elim (Bool-cases (str_eq network "tcp" || (str_eq network "tcp4" || str_eq network "tcp6"))) [
        | inl q ↦ let next : n ≡ m = ground arith in subst (Binds n) next same
        | inr q ↦ let run : listen_pipe n a ≡ ok o m = ground arith in listen_pipe-Binds n m a o run
      ]
  | inr p ↦ let next : n ≡ m = ground arith in subst (Binds n) next same
]

pub new_portal-Binds :
    (parse_duration : String → Option ℤ) (n m : Network) (portal : PortalConfig)
    (x : ℕ × DialerOptions)
    → new_portal parse_duration n portal ≡ ok x m
    → Binds n m
unfolding new_portal
new_portal-Binds parse_duration n m portal x e =
    elim (Option-cases (bind n.portal portal.tag n.next)) [
      | inl f ↦ absurd (ground arith)
      | inr (r, f) ↦
          let (free, made) = bind-some n.portal r portal.tag n.next f in
          let next : record n { portal = r; next = suc n.next } ≡ m = ground arith in
          subst (Binds n) next (
            subst (λ x. Binds n (record n { portal = x; next = suc n.next })) made
              (portaled portal.tag free))
    ]
