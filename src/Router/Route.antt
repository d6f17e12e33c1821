-- ===== src/Router/Route.antt =====
-- The route that a name takes, read off the configuration; what `New` does with the sniffing
-- timeout; what each way of failing means.
use streamf.Common.{
  or_else, ℕ, ℤ, pos, ◌≡◌, subst, ◌↔◌, inl, inr, List, [], ◌∷◌, ◌++◌, Option, Bool, true, false,
  if◌then◌else◌, String, has_prefix_iff, has_suffix_iff, arith, Bool-cases,
}
use streamf.Router.{
  OrderMatcher, Tables, SniRouter, SniProxy, built, or_duration, second, find_accuracy, order_match,
  add_routers, optional_target, sniff_timeout,
}
use streamf.Router.Listener.{Listener, no_tables, new_listener, first_order, first_regexp, route}
use streamf.Router.Rules.{is_exact, is_affix, is_regexp, first_rule}
use streamf.Router.Build.{>>=-eq-built, rules_of, add_routers-eq-built, add_routers-Adds}

module _ {ℓ} {D : Type ℓ} (dialers : String → Option D) (parse_duration : String → Option ℤ)
    (compile : List ℕ → Option (List ℕ → Bool)) where
  -- What a successful `New` was built from.
  record Parts (opts : SniProxy) (l : Listener D) : Type ℓ where
    default_target : optional_target dialers parse_duration compile opts.default ≡ built l.def
    fallback_target :
        optional_target dialers parse_duration compile opts.fallback ≡ built l.fallback
    routers :
        add_routers dialers parse_duration compile opts.router
          (sniff_timeout dialers parse_duration compile opts.timeout)
          no_tables
        ≡ built (l.timeout, l.tables)

  new-Parts :
      (listened : Bool) (opts : SniProxy) (l : Listener D)
      → new_listener dialers parse_duration compile listened opts ≡ built l
      → Parts opts l
  unfolding new_listener
  new-Parts false opts l h = absurd (ground arith)
  new-Parts true opts l h =
      let (def, p, h1) =
        >>=-eq-built (optional_target dialers parse_duration compile opts.default) _ h in
      let (fb, q, h2) =
        >>=-eq-built (optional_target dialers parse_duration compile opts.fallback) _ h1 in
      let ((d, t), r, h3) =
        >>=-eq-built
          (add_routers dialers parse_duration compile opts.router
            (sniff_timeout dialers parse_duration compile opts.timeout) no_tables)
          _ h2 in
      let e : record { timeout = d; tables = t; def = def; fallback = fb } ≡ l = ground arith in
      subst (Parts opts) e (record { default_target = p; fallback_target = q; routers = r })

  -- After a successful New, a server name is routed to the first exact rule of the configuration
  -- that names it, else to the first prefix or suffix rule that it meets, else to the first
  -- expression that it matches, else to the configured default.
  pub new-route :
      (listened : Bool) (opts : SniProxy) (l : Listener D) (name : List ℕ)
      → new_listener dialers parse_duration compile listened opts ≡ built l
      → let rules = rules_of dialers parse_duration compile opts.router in
        (route l name
          ≡ or_else (first_rule is_exact rules name) (
              or_else
                (first_rule is_affix rules name)
                (or_else (first_rule (is_regexp compile) rules name) l.def)))
        × (optional_target dialers parse_duration compile opts.default ≡ built l.def)
  unfolding route find_accuracy first_order first_regexp
  new-route listened opts l name h =
      let parts = new-Parts listened opts l h in
      let a =
        add_routers-Adds dialers parse_duration compile opts.router _ l.timeout no_tables l.tables
          parts.routers in
      (rw (a.exact name, a.affix name, a.regexps name), parts.default_target)

  last_close :
      (front : List SniRouter) (r : SniRouter) (d d' : ℤ) (t t' : Tables D)
      → add_routers dialers parse_duration compile (front ++ (r ∷ [])) d t ≡ built (d', t')
      → d' ≡ or_duration (parse_duration r.dialer.close) (pos second)
  unfolding add_routers
  last_close [] r d d' t t' h =
      let (x, u, p, q, k) = add_routers-eq-built dialers parse_duration compile r [] d d' t t' h in
      ground arith
  last_close (s ∷ front) r d d' t t' h =
      let (x, u, p, q, k) =
        add_routers-eq-built dialers parse_duration compile s (front ++ (r ∷ [])) d d' t t' h in
      last_close front r _ d' u t' k

  -- With any router configured, the sniffing timeout of the listener is the close duration of the
  -- last router, whatever timeout the configuration names.
  new-timeout :
      (listened : Bool) (opts : SniProxy) (l : Listener D) (front : List SniRouter) (r : SniRouter)
      → new_listener dialers parse_duration compile listened opts ≡ built l
      → opts.router ≡ front ++ (r ∷ [])
      → l.timeout ≡ or_duration (parse_duration r.dialer.close) (pos second)
  new-timeout listened opts l front r h e = last_close front r _ l.timeout no_tables l.tables (
      subst
        (λ rs.
          add_routers dialers parse_duration compile rs
            (sniff_timeout dialers parse_duration compile opts.timeout) no_tables
          ≡ built (l.timeout, l.tables))
        e (new-Parts listened opts l h).routers)

-- The tests of the tables mean what their names say.
pub order_match_iff {ℓ} :
    {D : Type ℓ} (o : OrderMatcher D) (name : List ℕ)
    → (order_match o name ≡ true) ↔ (
        if o.prefix
        then ((t : List ℕ) × (name ≡ o.value ++ t))
        else ((t : List ℕ) × (name ≡ t ++ o.value)))
unfolding order_match
order_match_iff o name = elim (Bool-cases o.prefix) [
  | inl p ↦ rw p (has_prefix_iff name o.value)
  | inr p ↦ rw p (has_suffix_iff name o.value)
]
