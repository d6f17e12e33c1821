-- ===== src/Forward/Stale.antt =====
-- internal/udp/udp.go: an entry of a socket that is closed.
use streamf.Common.{
  ℕ, ◌<◌, ◌≡◌, ◌≢◌, sym, subst, ◌∙◌, inl, inr, List, [], ◌∷◌, none, some, Bool, false, ◌&&◌, String,
  str_eq, eq_iff, arith, Bool-cases, Option-cases,
}
use streamf.Forward.{
  Udp, lookup, find, close, Answers, new_remote_conn, write, serve, insert, Event, read, inserted,
  closing, step, run,
}
use streamf.Forward.Sockets.{IsSound, find-id, find-remove, closed_state, kept_entry}
use streamf.Forward.Served.{step-IsSound}

pub record IsStale (u : Udp) (key : String) (i : ℕ) : Type 0 where
  pub entry : lookup u.keys key ≡ some i
  pub dead : find i u.live ≡ none
  pub old : i < u.next

module _ (u : Udp) (key : String) (i : ℕ) (s : IsStale u key i) where
  close-IsStale : (j : ℕ) → IsStale (close u j) key i
  unfolding close
  close-IsStale j = elim (Option-cases (find j u.live)) [
    | inl e ↦ let eq : u ≡ close u j = ground arith in subst (λ x. IsStale x key i) eq s
    | inr (c, e) ↦
        let own : c.id ≡ j = find-id j u.live c e in
        let dead = s.dead in
        let other : c.id ≢ i = λ z.
          let at : j ≡ i = sym own ∙ z in
          let there : find i u.live ≡ some c = subst (λ x. find x u.live ≡ some c) at e in
          absurd (ground arith) in
        let eq : closed_state u c ≡ close u j = ground arith in
        let r = find-remove c.id i u.live in
        subst (λ x. IsStale x key i) eq
          (record { entry = kept_entry u c key i other s.entry; dead = ground arith; old = s.old })
  ]

  insert-IsStale : IsSound u → IsStale (insert u) key i
  unfolding insert lookup
  insert-IsStale v = elim (Option-cases u.pending) [
    | inl e ↦ let eq : u ≡ insert u = ground arith in subst (λ x. IsStale x key i) eq s
    | inr (c, e) ↦
        let eq : record u { keys = (c.key, c.id) ∷ u.keys; pending = none } ≡ insert u =
          ground arith in
        let entry = s.entry in
        let other : str_eq c.key key ≡ false = elim (Bool-cases (str_eq c.key key)) [
          | inr f ↦ f
          | inl f ↦
              let at : c.key ≡ key = (eq_iff c.key key).0 f in
              let gone : lookup u.keys key ≡ none =
                subst (λ x. lookup u.keys x ≡ none) at (v.fresh c e) in
              absurd (ground arith)
        ] in
        subst (λ x. IsStale x key i) eq
          (record { entry = rw other s.entry; dead = s.dead; old = s.old })
  ]

  made-IsStale : (other : String) → IsStale (new_remote_conn u other) key i
  unfolding new_remote_conn find
  made-IsStale other =
      let old = s.old in
      let dead = s.dead in record { entry = s.entry; dead = ground arith; old = ground arith }

  write-IsStale : (j : ℕ) (writes : Bool) → IsStale (write u j writes).1 key i
  unfolding write
  write-IsStale j writes = elim (Bool-cases writes) [
    | inl f ↦ elim (Option-cases (find j u.live)) [
      | inl e ↦
          let eq : close u j ≡ (write u j writes).1 = ground arith in
          subst (λ x. IsStale x key i) eq (close-IsStale j)
      | inr (c, e) ↦
          let eq : u ≡ (write u j writes).1 = ground arith in subst (λ x. IsStale x key i) eq s
    ]
    | inr f ↦
        let eq : close u j ≡ (write u j writes).1 = elim (Option-cases (find j u.live)) [
          | inl e ↦ ground arith
          | inr e ↦ ground arith
        ] in
        subst (λ x. IsStale x key i) eq (close-IsStale j)
  ]

  serve-IsStale : (other : String) (a : Answers) → IsStale (serve u other a).1 key i
  unfolding serve
  serve-IsStale other a = elim (Option-cases (lookup u.keys other)) [
    | inr (j, e) ↦
        let eq : (write u j a.writes).1 ≡ (serve u other a).1 = ground arith in
        subst (λ x. IsStale x key i) eq (write-IsStale j a.writes)
    | inl e ↦ elim (Bool-cases (a.resolves && (a.dials && a.writes))) [
      | inl f ↦
          let eq : new_remote_conn u other ≡ (serve u other a).1 = ground arith in
          subst (λ x. IsStale x key i) eq (made-IsStale other)
      | inr f ↦ let eq : u ≡ (serve u other a).1 = ground arith in subst (λ x. IsStale x key i) eq s
    ]
  ]

  step-IsStale : (e : Event) → IsSound u → IsStale (step u e) key i
  unfolding step
  step-IsStale (read other a) v = elim (Option-cases u.pending) [
    | inl f ↦
        let eq : (serve u other a).1 ≡ step u (read other a) = ground arith in
        subst (λ x. IsStale x key i) eq (serve-IsStale other a)
    | inr (c, f) ↦
        let eq : u ≡ step u (read other a) = ground arith in subst (λ x. IsStale x key i) eq s
  ]
  step-IsStale inserted v = insert-IsStale v
  step-IsStale (closing j) v = close-IsStale j

-- Once the map of a sound forwarder holds a socket that is closed, as when it is closed before
-- Serve puts it there, the entry stays for ever, whatever happens, and no datagram of that client
-- is sent on.
pub run-IsStale :
    (u : Udp) (key : String) (i : ℕ) (es : List Event) (a : Answers)
    → IsSound u
    → IsStale u key i
    → IsStale (run u es) key i × ((serve (run u es) key a).0 ≡ false)
unfolding run serve write
run-IsStale u key i [] a v s = let entry = s.entry in let dead = s.dead in (s, ground arith)
run-IsStale u key i (e ∷ es) a v s =
    run-IsStale (step u e) key i es a (step-IsSound u e v) (step-IsStale u key i s e v)
