-- ===== src/Forward/Served.antt =====
-- internal/udp/udp.go: one socket for each client, whatever happens.
use streamf.Common.{
  ℕ, ◌≡◌, sym, ap, subst, ◌∙◌, inl, inr, ◌⊎◌, List, [], ◌∷◌, none, some, Bool, ◌&&◌, ◌==◌, String,
  str_eq, eq_iff, eq_refl, arith, Bool-cases, Option-cases,
}
use streamf.Forward.{
  RemoteConn, Udp, lookup, find, close, Answers, new_remote_conn, write, serve, insert, Event, read,
  inserted, closing, step, run, no_clients,
}
use streamf.Forward.Sockets.{IsSound, find-id, close-IsSound, no_clients-IsSound}

new-IsSound :
    (u : Udp) (key : String)
    → u.pending ≡ none
    → lookup u.keys key ≡ none
    → IsSound u
    → IsSound (new_remote_conn u key)
unfolding new_remote_conn find
new-IsSound u key free absent s =
    let c : RemoteConn = record { id = u.next; key = key } in
    record {
      listed = λ i d h. elim (Bool-cases (u.next == i)) [
        | inl f ↦ let at : c ≡ d = ground arith in inr (ap some at)
        | inr f ↦
            let there : find i u.live ≡ some d = ground arith in
            elim (s.listed i d there) [ inl e ↦ inl e | inr e ↦ absurd (ground arith) ]
      ];
      fresh =
          λ d h. let at : c ≡ d = ground arith in subst (λ x. lookup u.keys x.key ≡ none) at absent;
      made = λ i d h. elim (Bool-cases (u.next == i)) [
        | inl f ↦ ground arith
        | inr f ↦
            let there : find i u.live ≡ some d = ground arith in
            let m = s.made i d there in omega arith
      ];
    }

write-IsSound : (u : Udp) (i : ℕ) (writes : Bool) → IsSound u → IsSound (write u i writes).1
unfolding write
write-IsSound u i writes s = elim (Option-cases (find i u.live)) [
  | inl e ↦
      let eq : close u i ≡ (write u i writes).1 = ground arith in
      subst IsSound eq (close-IsSound u i s)
  | inr (c, e) ↦ elim (Bool-cases writes) [
    | inl f ↦ let eq : u ≡ (write u i writes).1 = ground arith in subst IsSound eq s
    | inr f ↦
        let eq : close u i ≡ (write u i writes).1 = ground arith in
        subst IsSound eq (close-IsSound u i s)
  ]
]

serve-IsSound :
    (u : Udp) (key : String) (a : Answers)
    → u.pending ≡ none
    → IsSound u
    → IsSound (serve u key a).1
unfolding serve
serve-IsSound u key a free s = elim (Option-cases (lookup u.keys key)) [
  | inr (i, e) ↦
      let eq : (write u i a.writes).1 ≡ (serve u key a).1 = ground arith in
      subst IsSound eq (write-IsSound u i a.writes s)
  | inl e ↦ elim (Bool-cases (a.resolves && (a.dials && a.writes))) [
    | inl f ↦
        let eq : new_remote_conn u key ≡ (serve u key a).1 = ground arith in
        subst IsSound eq (new-IsSound u key free e s)
    | inr f ↦ let eq : u ≡ (serve u key a).1 = ground arith in subst IsSound eq s
  ]
]

insert-IsSound : (u : Udp) → IsSound u → IsSound (insert u)
unfolding insert lookup
insert-IsSound u s = elim (Option-cases u.pending) [
  | inl e ↦ let eq : u ≡ insert u = ground arith in subst IsSound eq s
  | inr (c, e) ↦
      let eq : record u { keys = (c.key, c.id) ∷ u.keys; pending = none } ≡ insert u =
        ground arith in
      let sound : IsSound (record u { keys = (c.key, c.id) ∷ u.keys; pending = none }) = record {
        listed = λ i d h. elim (s.listed i d h) [
          | inr f ↦
              let at : c ≡ d = ground arith in
              let own : d.id ≡ i = find-id i u.live d h in
              inl (
                subst (λ x. lookup ((c.key, c.id) ∷ u.keys) x.key ≡ some i) at
                  (let k = eq_refl c.key in
                    let z : c.id ≡ i = ap (λ x. x.id) at ∙ own in ground arith))
          | inl f ↦ elim (Bool-cases (str_eq c.key d.key)) [
            | inr g ↦ inl (rw g f)
            | inl g ↦
                let at : c.key ≡ d.key = (eq_iff c.key d.key).0 g in
                let gone : lookup u.keys d.key ≡ none =
                  subst (λ x. lookup u.keys x ≡ none) at (s.fresh c e) in
                absurd (ground arith)
          ]
        ];
        fresh = λ d h. absurd (ground arith);
        made = s.made;
      } in
      subst IsSound eq sound
]

pub step-IsSound : (u : Udp) (e : Event) → IsSound u → IsSound (step u e)
unfolding step
step-IsSound u (read key a) s = elim (Option-cases u.pending) [
  | inl f ↦
      let eq : (serve u key a).1 ≡ step u (read key a) = ground arith in
      subst IsSound eq (serve-IsSound u key a f s)
  | inr (c, f) ↦ let eq : u ≡ step u (read key a) = ground arith in subst IsSound eq s
]
step-IsSound u inserted s = insert-IsSound u s
step-IsSound u (closing i) s = close-IsSound u i s

pub run-IsSound : (u : Udp) (es : List Event) → IsSound u → IsSound (run u es)
unfolding run
run-IsSound u [] s = s
run-IsSound u (e ∷ es) s = run-IsSound (step u e) es (step-IsSound u e s)

-- Whatever datagrams arrive and whenever sockets are closed, an open socket of the forwarder stands
-- in the map under the address of its client, or is just about to be put there, and no client has
-- two open sockets.
pub run-single :
    (es : List Event) (i j : ℕ) (c d : RemoteConn)
    → find i (run no_clients es).live ≡ some c
    → find j (run no_clients es).live ≡ some d
    → c.key ≡ d.key
    → ((lookup (run no_clients es).keys c.key ≡ some i) ⊎ ((run no_clients es).pending ≡ some c))
      × (i ≡ j)
run-single es i j c d h k e =
    let s = run-IsSound no_clients es no_clients-IsSound in
    let own : c.id ≡ i = find-id i _ c h in
    let own' : d.id ≡ j = find-id j _ d k in
    let same_socket : i ≡ j = elim (s.listed i c h) [
      | inl f ↦ elim (s.listed j d k) [
        | inl g ↦
            let f' = subst (λ x. lookup (run no_clients es).keys x ≡ some i) e f in ground arith
        | inr g ↦
            let n = subst (λ x. lookup (run no_clients es).keys x ≡ none) (sym e) (s.fresh d g) in
            absurd (ground arith)
      ]
      | inr f ↦ elim (s.listed j d k) [
        | inl g ↦
            let n = subst (λ x. lookup (run no_clients es).keys x ≡ none) e (s.fresh c f) in
            absurd (ground arith)
        | inr g ↦ let at : c ≡ d = ground arith in sym own ∙ ap (λ x. x.id) at ∙ own'
      ]
    ] in
    (s.listed i c h, same_socket)
