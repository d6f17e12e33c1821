-- ===== src/Router/Failure.antt =====
-- The ways in which `New` fails, and the socket that it closes then.
use streamf.Common.{
  ℕ, ℤ, pos, suc, ◌+◌, ◌≤◌, ◌≡◌, refl, subst, ◌⊎◌, inl, inr, List, [], ◌∷◌, ◌++◌, Option, none,
  some, Bool, true, false, if◌then◌else◌, String, str_eq, bytes_eq_refl, arith, Bool-cases,
  Option-cases,
}
use streamf.Router.{
  Target, Tables, SniMatcher, SniRouter, SniProxy, ConnectDialer, Built, built, failed, ◌>>=◌,
  RouterError, Kind, kind_of, or_duration, second, find_accuracy, add_kind, add_matchers,
  add_routers, optional_target, sniff_timeout,
}
use streamf.Router.Listener.{no_tables, new_listener}
use streamf.Router.Rules.{Rule, rules_of_matchers, is_exact, first_rule, Adds}
use streamf.Router.Build.{rules_of, add_kind-Adds, add_matchers-Adds}

>>=-eq-failed {ℓ κ} :
    {A : Type ℓ} {B : Type κ} (m : Built A) (f : A → Built B) {e : RouterError} {c : Bool}
    → (m >>= f) ≡ failed e c
    → (m ≡ failed e c) ⊎ ((a : A) × (m ≡ built a) × (f a ≡ failed e c))
>>=-eq-failed (built a) f h = inr (a, refl, h)
>>=-eq-failed (failed e c) f h = inl (ground arith)

module _ {D : Type 0} where
  -- How many rules name exactly this server.
  unfoldable pub hits : List ℕ → List (Rule D) → ℕ
  hits name [] = 0
  hits name (r ∷ rs) = if is_exact r name then suc (hits name rs) else hits name rs

  known : List ℕ → Tables D → ℕ
  known name t = elim (find_accuracy name t.accuracy) [ none ↦ 0 | some _ ↦ 1 ]

  hits-append :
      (name : List ℕ) (rs ss : List (Rule D)) → hits name (rs ++ ss) ≡ hits name rs + hits name ss
  unfolding hits
  hits-append name [] ss = omega arith
  hits-append name (r ∷ rs) ss = ground (arith, hits-append name rs ss)

  first_rule-hits :
      (name : List ℕ) (rs : List (Rule D))
      → (first_rule is_exact rs name ≡ none) ⊎ (1 ≤ hits name rs)
  unfolding first_rule hits
  first_rule-hits name [] = inl refl
  first_rule-hits name (r ∷ rs) = ground (arith, first_rule-hits name rs)

module _ {D : Type 0} (dialers : String → Option D) (parse_duration : String → Option ℤ)
    (compile : List ℕ → Option (List ℕ → Bool)) where
  known-Adds :
      (name : List ℕ) (t t' : Tables D) (rs : List (Rule D))
      → Adds compile t rs t'
      → known name t' ≤ known name t + hits name rs
  unfolding known
  known-Adds name t t' rs a = ground (arith, a.exact name, first_rule-hits name rs)

  -- Why reading some routers failed, over what was read before.
  abbrev Why : Tables D → List (Rule D) → RouterError → Type 0
  Why t rs RouterError.listen_failed = ⊥
  Why t rs (RouterError.dialer_not_found tag) = dialers tag ≡ none
  Why t rs (RouterError.bad_regexp value) = compile value ≡ none
  Why t rs (RouterError.router_repeat value) = 2 ≤ known value t + hits value rs

  Why-later :
      (t u : Tables D) (rs ss : List (Rule D)) (e : RouterError)
      → Adds compile t rs u
      → Why u ss e
      → Why t (rs ++ ss) e
  Why-later t u rs ss RouterError.listen_failed a w = w
  Why-later t u rs ss (RouterError.dialer_not_found tag) a w = w
  Why-later t u rs ss (RouterError.bad_regexp value) a w = w
  Why-later t u rs ss (RouterError.router_repeat value) a w =
      omega (arith, known-Adds value t u rs a, hits-append value rs ss)

  Why-now :
      (t : Tables D) (rs ss : List (Rule D)) (e : RouterError) → Why t rs e → Why t (rs ++ ss) e
  Why-now t rs ss RouterError.listen_failed w = w
  Why-now t rs ss (RouterError.dialer_not_found tag) w = w
  Why-now t rs ss (RouterError.bad_regexp value) w = w
  Why-now t rs ss (RouterError.router_repeat value) w = omega (arith, hits-append value rs ss)

  add_kind-Why :
      (k : Kind) (value : List ℕ) (target : Target D) (t : Tables D) (e : RouterError) (c : Bool)
      → add_kind dialers parse_duration compile k value target t ≡ failed e c
      → (c ≡ true) × Why t (record { kind = k; value = value; target = target } ∷ []) e
  unfolding add_kind known hits is_exact
  add_kind-Why Kind.equal value target t e c h =
      elim (Option-cases (find_accuracy value t.accuracy)) [
        | inl p ↦ absurd (ground arith)
        | inr (other, p) ↦
            let q : RouterError.router_repeat value ≡ e = ground arith in
            (
              ground arith,
              subst (Why t (record { kind = Kind.equal; value = value; target = target } ∷ [])) q
                  (ground (arith, bytes_eq_refl value)),
            )
      ]
  add_kind-Why Kind.prefix value target t e c h = absurd (ground arith)
  add_kind-Why Kind.suffix value target t e c h = absurd (ground arith)
  add_kind-Why Kind.regexp value target t e c h = elim (Option-cases (compile value)) [
    | inr (r, p) ↦ absurd (ground arith)
    | inl p ↦
        let q : RouterError.bad_regexp value ≡ e = ground arith in
        (
          ground arith,
          subst (Why t (record { kind = Kind.regexp; value = value; target = target } ∷ [])) q p,
        )
  ]

  add_matchers-Why :
      (ms : List SniMatcher) (target : Target D) (t : Tables D) (e : RouterError) (c : Bool)
      → add_matchers dialers parse_duration compile ms target t ≡ failed e c
      → (c ≡ true) × Why t (rules_of_matchers ms target) e
  unfolding add_matchers rules_of_matchers
  add_matchers-Why [] target t e c h = absurd (ground arith)
  add_matchers-Why (m ∷ ms) target t e c h =
      let first : List (Rule D) =
        record { kind = kind_of m.type; value = m.value; target = target } ∷ [] in
      elim (>>=-eq-failed
        (add_kind dialers parse_duration compile (kind_of m.type) m.value target t)
        (add_matchers dialers parse_duration compile ms target) h) [
          | inl p ↦
              let (q, w) = add_kind-Why (kind_of m.type) m.value target t e c p in
              (q, Why-now t first (rules_of_matchers ms target) e w)
          | inr (u, p, k) ↦
              let (q, w) = add_matchers-Why ms target u e c k in
              (
                q,
                Why-later t u first (rules_of_matchers ms target) e
                    (add_kind-Adds dialers parse_duration compile (kind_of m.type) m.value target t
                      u p)
                    w,
              )
        ]

  add_routers-Why :
      (rs : List SniRouter) (d : ℤ) (t : Tables D) (e : RouterError) (c : Bool)
      → add_routers dialers parse_duration compile rs d t ≡ failed e c
      → (c ≡ true) × Why t (rules_of dialers parse_duration compile rs) e
  unfolding add_routers rules_of
  add_routers-Why [] d t e c h = absurd (ground arith)
  add_routers-Why (r ∷ rs) d t e c h = elim (Option-cases (dialers r.dialer.tag)) [
    | inl p ↦
        let q : RouterError.dialer_not_found r.dialer.tag ≡ e = ground arith in
        (ground arith, subst (Why t (rules_of dialers parse_duration compile (r ∷ rs))) q p)
    | inr (x, p) ↦
        let close = or_duration (parse_duration r.dialer.close) (pos second) in
        let target : Target D = record { dialer = x; duration = close } in
        let first = rules_of_matchers r.matcher target in
        rw (p, rules_of)
          (elim (>>=-eq-failed (add_matchers dialers parse_duration compile r.matcher target t)
            (add_routers dialers parse_duration compile rs close) (rw (p, add_routers) at h)) [
              | inl q ↦
                  let (z, w) = add_matchers-Why r.matcher target t e c q in
                  (z, Why-now t first (rules_of dialers parse_duration compile rs) e w)
              | inr (u, q, k) ↦
                  let (z, w) = add_routers-Why rs close u e c k in
                  (
                    z,
                    Why-later t u first (rules_of dialers parse_duration compile rs) e
                        (add_matchers-Adds dialers parse_duration compile r.matcher target t u q) w,
                  )
            ])
  ]

  optional-Why :
      (o : ConnectDialer) (e : RouterError) (c : Bool) (t : Tables D) (rs : List (Rule D))
      → optional_target dialers parse_duration compile o ≡ failed e c
      → (c ≡ true) × Why t rs e
  unfolding optional_target
  optional-Why o e c t rs h = elim (Bool-cases (str_eq o.tag "")) [
    | inl p ↦ absurd (ground arith)
    | inr p ↦ elim (Option-cases (dialers o.tag)) [
      | inr (x, q) ↦ absurd (ground arith)
      | inl q ↦
          let z : RouterError.dialer_not_found o.tag ≡ e = ground arith in
          (ground arith, subst (Why t rs) z q)
    ]
  ]

  -- Why `New` as a whole failed.
  abbrev pub Reason : Bool → List (Rule D) → RouterError → Type 0
  Reason listened rules RouterError.listen_failed = listened ≡ false
  Reason listened rules (RouterError.dialer_not_found tag) = dialers tag ≡ none
  Reason listened rules (RouterError.bad_regexp value) = compile value ≡ none
  Reason listened rules (RouterError.router_repeat value) = 2 ≤ hits value rules

  Why-Reason :
      (rules : List (Rule D)) (e : RouterError) → Why no_tables rules e → Reason true rules e
  unfolding known find_accuracy
  Why-Reason rules RouterError.listen_failed w = absurd w
  Why-Reason rules (RouterError.dialer_not_found tag) w = w
  Why-Reason rules (RouterError.bad_regexp value) w = w
  Why-Reason rules (RouterError.router_repeat value) w = omega arith

  -- When New fails, the socket has been closed exactly if it had been opened, and the error names a
  -- dialer that does not exist, an expression that does not compile, or a server name that at least
  -- two exact rules share.
  pub new-failed :
      (listened : Bool) (opts : SniProxy) (e : RouterError) (closed : Bool)
      → new_listener dialers parse_duration compile listened opts ≡ failed e closed
      → (closed ≡ listened)
        × Reason listened (rules_of dialers parse_duration compile opts.router) e
  unfolding new_listener
  new-failed false opts e closed h =
      let q : RouterError.listen_failed ≡ e = ground arith in
      (
        ground arith,
        subst (Reason false (rules_of dialers parse_duration compile opts.router)) q refl,
      )
  new-failed true opts e closed h =
      let rules = rules_of dialers parse_duration compile opts.router in
      let (q, w) : (closed ≡ true) × Why no_tables rules e =
        elim (>>=-eq-failed (optional_target dialers parse_duration compile opts.default) _ h) [
          | inl p ↦ optional-Why opts.default e closed no_tables rules p
          | inr (def, _, h1) ↦
              elim (>>=-eq-failed (optional_target dialers parse_duration compile opts.fallback) _
                h1) [
                  | inl p ↦ optional-Why opts.fallback e closed no_tables rules p
                  | inr (fb, _, h2) ↦
                      elim (>>=-eq-failed
                        (add_routers dialers parse_duration compile opts.router
                          (sniff_timeout dialers parse_duration compile opts.timeout) no_tables)
                        _ h2) [
                          | inl p ↦ add_routers-Why opts.router _ no_tables e closed p
                          | inr (_, _, h3) ↦ absurd (ground arith)
                        ]
                ]
        ] in
      (q, Why-Reason rules e w)
