-- ===== src/Network/Reached.antt =====
-- internal/network/network.go: what any sequence of `Listen`, `Dialer` and `NewPortal` leaves.
use streamf.Common.{
  ℕ, suc, ◌+◌, ◌<◌, ◌≤◌, ◌≡◌, refl, if◌then◌else◌, ◌==◌, subst, inl, inr, ◌⊎◌, ℤ, Option, none,
  Bool, String, str_eq, arith, Bool-cases,
}
use streamf.Network.{
  Network, Opened, ok, PortalConfig, DialerOptions, new, listen, dialer, new_portal,
}
use streamf.Network.Rendezvous.{lookup, wait, empty}
use streamf.Network.Binding.{Binds, listen-Binds, new_portal-Binds}
use streamf.Network.Sound.{
  IsSound, bound_registry, empty-IsSound, later-IsSound, wait-IsSound, bind-IsSound, uses,
  uses-wait, uses-bind, waits, closes, binds,
}

-- What a call did to the network.
pub data Step (n : Network) : Network → Type 0 where
  same : Step n n
  piped :
      (a : String)
      → lookup n.pipe.bound a ≡ none
      → Step n (record n { pipe = bound_registry n.pipe a n.next; next = suc n.next })
  portaled :
      (a : String)
      → lookup n.portal.bound a ≡ none
      → Step n (record n { portal = bound_registry n.portal a n.next; next = suc n.next })
  pipe_waits : (a : String) → Step n (record n { pipe = wait n.pipe a n.next; next = suc n.next })
  portal_waits :
      (a : String) → Step n (record n { portal = wait n.portal a n.next; next = suc n.next })

pub Binds-Step : (n m : Network) → Binds n m → Step n m
Binds-Step n _ Binds.same = same
Binds-Step n _ (Binds.piped a free) = piped a free
Binds-Step n _ (Binds.portaled a free) = portaled a free

pub listen-Step :
    (net_listen : String → String → ℕ ⊎ ℕ) (linux : Bool) (n m : Network) (network a : String)
    (o : Opened)
    → listen net_listen linux n network a ≡ ok o m
    → Step n m
listen-Step net_listen linux n m network a o e =
    Binds-Step n m (listen-Binds net_listen linux n m network a o e)

pub dialer-Step :
    (linux : Bool) (n m : Network) (network a : String) (o : Opened)
    → dialer linux n network a ≡ ok o m
    → Step n m
unfolding dialer
dialer-Step linux n m network a o e = elim (Bool-cases (str_eq network "portal")) [
  | inl p ↦
      let next : record n { portal = wait n.portal a n.next; next = suc n.next } ≡ m =
        ground arith in
      subst (Step n) next (portal_waits a)
  | inr p ↦ elim (Bool-cases (str_eq network "pipe")) [
    | inl q ↦
        let next : record n { pipe = wait n.pipe a n.next; next = suc n.next } ≡ m = ground arith in
        subst (Step n) next (pipe_waits a)
    | inr q ↦ let next : n ≡ m = ground arith in subst (Step n) next same
  ]
]

pub new_portal-Step :
    (parse_duration : String → Option ℤ) (n m : Network) (portal : PortalConfig)
    (x : ℕ × DialerOptions)
    → new_portal parse_duration n portal ≡ ok x m
    → Step n m
new_portal-Step parse_duration n m portal x e =
    Binds-Step n m (new_portal-Binds parse_duration n m portal x e)

-- The networks after any successful calls, from `start` on; a call that fails changes nothing.
pub data Reaches (net_listen : String → String → ℕ ⊎ ℕ) (parse_duration : String → Option ℤ)
    (linux : Bool) (start : Network) : Network → Type 0 where
  started : Reaches net_listen parse_duration linux start start
  listened :
      (n m : Network) (network a : String) (o : Opened)
      → Reaches net_listen parse_duration linux start n
      → listen net_listen linux n network a ≡ ok o m
      → Reaches net_listen parse_duration linux start m
  dialed :
      (n m : Network) (network a : String) (o : Opened)
      → Reaches net_listen parse_duration linux start n
      → dialer linux n network a ≡ ok o m
      → Reaches net_listen parse_duration linux start m
  opened :
      (n m : Network) (portal : PortalConfig) (x : ℕ × DialerOptions)
      → Reaches net_listen parse_duration linux start n
      → new_portal parse_duration n portal ≡ ok x m
      → Reaches net_listen parse_duration linux start m

-- A property that every step keeps.
pub Reaches-keeps :
    {net_listen : String → String → ℕ ⊎ ℕ} {parse_duration : String → Option ℤ} {linux : Bool}
    {start m : Network} (P : Network → Type 0)
    → ((n k : Network) → Step n k → P n → P k)
    → P start
    → Reaches net_listen parse_duration linux start m
    → P m
Reaches-keeps P keeps p started = p
Reaches-keeps P keeps p (listened n m network a o r e) =
    keeps n m (listen-Step _ _ n m network a o e) (Reaches-keeps P keeps p r)
Reaches-keeps P keeps p (dialed n m network a o r e) =
    keeps n m (dialer-Step _ n m network a o e) (Reaches-keeps P keeps p r)
Reaches-keeps P keeps p (opened n m portal x r e) =
    keeps n m (new_portal-Step _ n m portal x e) (Reaches-keeps P keeps p r)

-- Every number that was handed out is one listener, or one dialer that waits, or one whose channel
-- was closed; the others are none of these.
pub record IsNumbered (n : Network) : Type 0 where
  pub made : (i : ℕ) → i < n.next → uses i n.pipe + uses i n.portal ≡ 1
  pub unmade : (i : ℕ) → n.next ≤ i → uses i n.pipe + uses i n.portal ≡ 0

-- A step that hands out a number, and uses it once.
next-IsNumbered :
    (n m : Network)
    → m.next ≡ suc n.next
    → ((i : ℕ)
        → uses i m.pipe + uses i m.portal
          ≡ (if n.next == i then 1 else 0) + (uses i n.pipe + uses i n.portal))
    → IsNumbered n
    → IsNumbered m
next-IsNumbered n m e h s = record {
  made = λ i lt. let k = h i in let a = s.made i in let b = s.unmade i in ground arith;
  unmade = λ i le. let k = h i in let b = s.unmade i in ground arith;
}

Step-IsNumbered : (n m : Network) → Step n m → IsNumbered n → IsNumbered m
Step-IsNumbered n _ same s = s
Step-IsNumbered n m (piped a free) s =
    next-IsNumbered n m refl (λ i. omega (arith, uses-bind i n.pipe a n.next)) s
Step-IsNumbered n m (portaled a free) s =
    next-IsNumbered n m refl (λ i. omega (arith, uses-bind i n.portal a n.next)) s
Step-IsNumbered n m (pipe_waits a) s =
    next-IsNumbered n m refl (λ i. omega (arith, uses-wait i n.pipe a n.next)) s
Step-IsNumbered n m (portal_waits a) s =
    next-IsNumbered n m refl (λ i. omega (arith, uses-wait i n.portal a n.next)) s

abbrev pub AllSound : Network → Type 0
AllSound n = (IsSound n.next n.pipe × IsSound n.next n.portal) × IsNumbered n

Step-BothSound :
    (n m : Network)
    → Step n m
    → IsSound n.next n.pipe × IsSound n.next n.portal
    → IsSound m.next m.pipe × IsSound m.next m.portal
Step-BothSound n _ same s = s
Step-BothSound n _ (piped a free) s = (
  later-IsSound n.next (bound_registry n.pipe a n.next)
      (bind-IsSound n.next n.pipe a n.next free s.0),
  later-IsSound n.next n.portal s.1,
)
Step-BothSound n _ (portaled a free) s = (
  later-IsSound n.next n.pipe s.0,
  later-IsSound n.next (bound_registry n.portal a n.next)
      (bind-IsSound n.next n.portal a n.next free s.1),
)
Step-BothSound n _ (pipe_waits a) s =
    (wait-IsSound n.next n.pipe a s.0, later-IsSound n.next n.portal s.1)
Step-BothSound n _ (portal_waits a) s =
    (later-IsSound n.next n.pipe s.0, wait-IsSound n.next n.portal a s.1)

pub Step-AllSound : (n m : Network) → Step n m → AllSound n → AllSound m
Step-AllSound n m t s = (Step-BothSound n m t s.0, Step-IsNumbered n m t s.1)

pub new-AllSound : AllSound new
unfolding new empty uses waits closes binds
new-AllSound = (
  (empty-IsSound, empty-IsSound),
  record { made = λ i h. absurd (omega arith); unmade = λ i h. refl },
)

-- After any successful calls of Listen, Dialer and NewPortal on a new network, every number that
-- was handed out is, among the pipes and the portals together and once, that of a listener, or of a
-- dialer that waits, or of a dialer whose channel was closed, a number still to be handed out is
-- none of these, and each dialer whose channel was closed is recorded with the listener bound to
-- its address.
pub Reaches-AllSound :
    (net_listen : String → String → ℕ ⊎ ℕ) (parse_duration : String → Option ℤ) (linux : Bool)
    (n : Network)
    → Reaches net_listen parse_duration linux new n
    → AllSound n
Reaches-AllSound net_listen parse_duration linux n r =
    Reaches-keeps AllSound Step-AllSound new-AllSound r
