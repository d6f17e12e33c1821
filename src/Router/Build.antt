-- ===== src/Router/Build.antt =====
-- What the tables hold once `New` has read the configuration.
use streamf.Common.{
  ℕ, ℤ, pos, ◌≡◌, refl, subst, inl, inr, List, [], ◌∷◌, ◌++◌, Option, none, some, Bool, true, false,
  String, arith, Option-cases,
}
use streamf.Router.{
  Target, Tables, SniMatcher, SniRouter, Built, built, failed, ◌>>=◌, Kind, kind_of, or_duration,
  second, find_accuracy, order_match, add_kind, add_matchers, add_routers,
}
use streamf.Router.Rules.{
  Rule, rules_of_matchers, is_exact, is_affix, is_regexp, Adds, Adds-none, Adds-trans, Adds-equal,
  Adds-order, Adds-regexp,
}

pub >>=-eq-built {ℓ κ} :
    {A : Type ℓ} {B : Type κ} (m : Built A) (f : A → Built B) {b : B}
    → (m >>= f) ≡ built b
    → (a : A) × (m ≡ built a) × (f a ≡ built b)
>>=-eq-built (built a) f h = (a, refl, h)
>>=-eq-built (failed e c) f h = absurd (ground arith)

module _ {ℓ} {D : Type ℓ} (dialers : String → Option D) (parse_duration : String → Option ℤ)
    (compile : List ℕ → Option (List ℕ → Bool)) where
  pub add_kind-Adds :
      (k : Kind) (value : List ℕ) (target : Target D) (t t' : Tables D)
      → add_kind dialers parse_duration compile k value target t ≡ built t'
      → Adds compile t (record { kind = k; value = value; target = target } ∷ []) t'
  unfolding add_kind order_match is_exact is_affix is_regexp
  add_kind-Adds Kind.equal value target t t' h =
      elim (Option-cases (find_accuracy value t.accuracy)) [
        | inr (other, p) ↦ absurd (ground arith)
        | inl p ↦ subst (Adds compile t _) (ground arith) (Adds-equal compile t value target p)
      ]
  add_kind-Adds Kind.prefix value target t t' h =
      subst (Adds compile t _) (cc)
        (Adds-order compile t Kind.prefix true value target refl refl refl)
  add_kind-Adds Kind.suffix value target t t' h =
      subst (Adds compile t _) (cc)
        (Adds-order compile t Kind.suffix false value target refl refl refl)
  add_kind-Adds Kind.regexp value target t t' h = elim (Option-cases (compile value)) [
    | inl p ↦ absurd (ground arith)
    | inr (r, p) ↦ subst (Adds compile t _) (ground arith) (Adds-regexp compile t value target r p)
  ]

  pub add_matchers-Adds :
      (ms : List SniMatcher) (target : Target D) (t t' : Tables D)
      → add_matchers dialers parse_duration compile ms target t ≡ built t'
      → Adds compile t (rules_of_matchers ms target) t'
  unfolding add_matchers rules_of_matchers
  add_matchers-Adds [] target t t' h = subst (Adds compile t []) (cc) (Adds-none compile t)
  add_matchers-Adds (m ∷ ms) target t t' h =
      let (u, p, q) = >>=-eq-built _ _ h in
      Adds-trans compile t u t'
        (record { kind = kind_of m.type; value = m.value; target = target } ∷ [])
        (rules_of_matchers ms target) (add_kind-Adds (kind_of m.type) m.value target t u p)
        (add_matchers-Adds ms target u t' q)

  -- The rules of all routers; a router without a dialer adds none, and stops `New`.
  unfoldable pub rules_of : List SniRouter → List (Rule D)
  rules_of [] = []
  rules_of (r ∷ rs) = elim (dialers r.dialer.tag) [
    | none ↦ rules_of rs
    | some d ↦
        rules_of_matchers r.matcher (record {
          dialer = d;
          duration = or_duration (parse_duration r.dialer.close) (pos second);
        })
        ++ rules_of rs
  ]

  -- One round of the outer loop that does not stop `New`.
  pub add_routers-eq-built :
      (r : SniRouter) (rs : List SniRouter) (d d' : ℤ) (t t' : Tables D)
      → add_routers dialers parse_duration compile (r ∷ rs) d t ≡ built (d', t')
      → let close = or_duration (parse_duration r.dialer.close) (pos second) in
        (x : D) × (u : Tables D) × (dialers r.dialer.tag ≡ some x)
        × (add_matchers dialers parse_duration compile r.matcher
              (record { dialer = x; duration = close })
              t
            ≡ built u)
        × (add_routers dialers parse_duration compile rs close u ≡ built (d', t'))
  unfolding add_routers
  add_routers-eq-built r rs d d' t t' h = elim (Option-cases (dialers r.dialer.tag)) [
    | inl p ↦ absurd (ground arith)
    | inr (x, p) ↦
        let target : Target D = record {
          dialer = x;
          duration = or_duration (parse_duration r.dialer.close) (pos second);
        } in
        let (u, q, k) =
          >>=-eq-built (add_matchers dialers parse_duration compile r.matcher target t)
            (add_routers dialers parse_duration compile rs target.duration)
            (rw (p, add_routers) at h) in
        (x, u, p, q, k)
  ]

  pub add_routers-Adds :
      (rs : List SniRouter) (d d' : ℤ) (t t' : Tables D)
      → add_routers dialers parse_duration compile rs d t ≡ built (d', t')
      → Adds compile t (rules_of rs) t'
  unfolding add_routers rules_of
  add_routers-Adds [] d d' t t' h = subst (Adds compile t []) (ground arith) (Adds-none compile t)
  add_routers-Adds (r ∷ rs) d d' t t' h =
      let (x, u, p, q, k) = add_routers-eq-built r rs d d' t t' h in
      let close = or_duration (parse_duration r.dialer.close) (pos second) in
      let target : Target D = record { dialer = x; duration = close } in
      rw (p, rules_of)
        (Adds-trans compile t u t' (rules_of_matchers r.matcher target) (rules_of rs)
          (add_matchers-Adds r.matcher target t u q) (add_routers-Adds rs close d' u t' k))
