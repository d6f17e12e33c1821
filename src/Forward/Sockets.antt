-- ===== src/Forward/Sockets.antt =====
-- internal/udp/udp.go: the sockets of the clients.
use streamf.Common.{
  ℕ, ◌<◌, ◌≡◌, ◌≢◌, refl, sym, subst, ◌∙◌, inl, inr, ◌⊎◌, List, [], ◌∷◌, none, some, false, ◌==◌,
  String, str_eq, eq_iff, if◌then◌else◌, arith, Bool-cases, Option-cases,
}
use streamf.Forward.{RemoteConn, Udp, lookup, delete, find, remove, is_entry, close, no_clients}

pub find-id : (i : ℕ) (cs : List RemoteConn) (c : RemoteConn) → find i cs ≡ some c → c.id ≡ i
unfolding find
find-id i [] c e = absurd (ground arith)
find-id i (d ∷ cs) c e = elim (Bool-cases (d.id == i)) [
  | inl f ↦ let at : d ≡ c = ground arith in subst (λ x. x.id ≡ i) at (ground arith)
  | inr f ↦ find-id i cs c (ground arith)
]

pub find-remove :
    (i j : ℕ) (cs : List RemoteConn) → find j (remove i cs) ≡ (if i == j then none else find j cs)
unfolding find remove
find-remove i j [] = ground arith
find-remove i j (c ∷ cs) = let h = find-remove i j cs in ground arith

lookup-delete :
    (es : List (String × ℕ)) (key other : String)
    → str_eq key other ≡ false
    → lookup (delete es key) other ≡ lookup es other
unfolding lookup delete
lookup-delete [] key other h = refl
lookup-delete (e ∷ es) key other h =
    let k = lookup-delete es key other h in
    elim (Bool-cases (str_eq e.0 key)) [
      | inl f ↦
          let at : e.0 ≡ key = (eq_iff e.0 key).0 f in
          let g : str_eq e.0 other ≡ false = subst (λ x. str_eq x other ≡ false) (sym at) h in
          ground arith
      | inr f ↦ ground arith
    ]

lookup-deleted : (es : List (String × ℕ)) (key : String) → lookup (delete es key) key ≡ none
unfolding lookup delete
lookup-deleted [] key = refl
lookup-deleted (e ∷ es) key = let h = lookup-deleted es key in ground arith

-- Every open socket has its entry or is about to get it, and a client that is about to get one has
-- none.
pub record IsSound (u : Udp) : Type 0 where
  pub listed :
      (i : ℕ) (c : RemoteConn)
      → find i u.live ≡ some c
      → (lookup u.keys c.key ≡ some i) ⊎ (u.pending ≡ some c)
  pub fresh : (c : RemoteConn) → u.pending ≡ some c → lookup u.keys c.key ≡ none
  pub made : (i : ℕ) (c : RemoteConn) → find i u.live ≡ some c → i < u.next

pub no_clients-IsSound : IsSound no_clients
unfolding no_clients find
no_clients-IsSound = record {
  listed = λ i c h. absurd (ground arith);
  fresh = λ c h. absurd (ground arith);
  made = λ i c h. absurd (ground arith);
}

-- What closing the socket `c` leaves.
abbrev pub closed_state : Udp → RemoteConn → Udp
closed_state u c = record u {
  live = remove c.id u.live;
  keys = if is_entry (lookup u.keys c.key) c.id then delete u.keys c.key else u.keys;
}

-- Another entry stays.
pub kept_entry :
    (u : Udp) (c : RemoteConn) (key : String) (j : ℕ)
    → c.id ≢ j
    → lookup u.keys key ≡ some j
    → lookup (closed_state u c).keys key ≡ some j
unfolding is_entry
kept_entry u c key j other e = elim (Bool-cases (is_entry (lookup u.keys c.key) c.id)) [
  | inr f ↦ rw f e
  | inl f ↦ elim (Bool-cases (str_eq c.key key)) [
    | inl g ↦
        let at : c.key ≡ key = (eq_iff c.key key).0 g in
        let own : lookup u.keys c.key ≡ some j = subst (λ x. lookup u.keys x ≡ some j) (sym at) e in
        absurd (ground arith)
    | inr g ↦ rw f (lookup-delete u.keys c.key key g ∙ e)
  ]
]

-- No entry stays none.
kept_none :
    (u : Udp) (c : RemoteConn) (key : String)
    → lookup u.keys key ≡ none
    → lookup (closed_state u c).keys key ≡ none
kept_none u c key e = elim (Bool-cases (is_entry (lookup u.keys c.key) c.id)) [
  | inr f ↦ rw f e
  | inl f ↦ elim (Bool-cases (str_eq c.key key)) [
    | inl g ↦
        let at : c.key ≡ key = (eq_iff c.key key).0 g in
        rw f (subst (λ x. lookup (delete u.keys c.key) x ≡ none) at (lookup-deleted u.keys c.key))
    | inr g ↦ rw f (lookup-delete u.keys c.key key g ∙ e)
  ]
]

closed-IsSound : (u : Udp) (c : RemoteConn) → IsSound u → IsSound (closed_state u c)
closed-IsSound u c s = record {
  listed = λ i d h.
      let r = find-remove c.id i u.live in
      let other : c.id ≢ i = λ z. absurd (ground arith) in
      let there : find i u.live ≡ some d = ground arith in
      elim (s.listed i d there) [ inl e ↦ inl (kept_entry u c d.key i other e) | inr e ↦ inr e ];
  fresh = λ d h. kept_none u c d.key (s.fresh d h);
  made = λ i d h.
      let r = find-remove c.id i u.live in
      let there : find i u.live ≡ some d = ground arith in s.made i d there;
}

pub close-IsSound : (u : Udp) (i : ℕ) → IsSound u → IsSound (close u i)
unfolding close
close-IsSound u i s = elim (Option-cases (find i u.live)) [
  | inl e ↦ let eq : u ≡ close u i = ground arith in subst IsSound eq s
  | inr (c, e) ↦
      let own : c.id ≡ i = find-id i u.live c e in
      let eq : closed_state u c ≡ close u i = ground arith in
      subst IsSound eq (closed-IsSound u c s)
]
