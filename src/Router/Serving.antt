-- ===== src/Router/Serving.antt =====
-- What `serve` bridges, from the bytes of the connection to the dialer.
use streamf.Common.{
  ℕ, ◌≤◌, ◌≡◌, refl, sym, ap, subst, ◌∙◌, ◌↔◌, inl, inr, ◌⊎◌, ℤ, String, List, Option, some,
  or_else, Bool-cases, ◌++◌, none, some, Bool, true, false, length, arith,
}
use streamf.Sniff.{Result, ok, SniffError}
use streamf.Sniff.Encode.{Hello, IsWellFormed, encode}
use streamf.Capture.{Capture, captured, sniff_sni}
use streamf.Capture.Sniffed.{sniff-encode}
use streamf.Router.{Target, SniProxy, built, optional_target}
use streamf.Router.Rules.{first_rule, is_exact, is_affix, is_regexp}
use streamf.Router.Build.{rules_of}
use streamf.Router.Route.{new-route}
use streamf.Router.Listener.{
  Listener, new_listener, route, First, bridged, sniffed, connect_to, after_sniff, serve,
}

module _ {ℓ} {D : Type ℓ} where
  -- Why a connection was bridged: the route of its server name, or the fallback.
  abbrev pub Chosen : Listener D → List ℕ → Capture → Target D → Type ℓ
  Chosen l name c t =
      ((c.error ≡ none) × (route l name ≡ some t))
      ⊎ ((e : SniffError) × (c.error ≡ some e) × (c.closed ≡ false) × (l.fallback ≡ some t))

  -- A connection is bridged only after it was sniffed, behind all the captured bytes, to a dialer
  -- that answered; that is the dialer of its route if there was no error, and otherwise the
  -- fallback, and then only if the connection was not closed.
  pub serve-bridged :
      (l : Listener D) (connect : D → Bool) (first : First) (buffer : List ℕ) (t : Target D)
      → serve l connect first ≡ bridged buffer t
      → (name : List ℕ) × (c : Capture) × (first ≡ sniffed name c)
        × (buffer ≡ c.buf)
        × (connect t.dialer ≡ true)
        × Chosen l name c t
  unfolding serve after_sniff connect_to
  serve-bridged l connect First.closing buffer t h = absurd (ground arith)
  serve-bridged l connect First.timed_out buffer t h = absurd (ground arith)
  serve-bridged l connect (sniffed name c) buffer t h =
      (name, c, refl, ground arith, ground arith, ground arith)

-- What may come first for a connection with this stream: the sniffing ends as `sniff_sni` does.
pub data Comes (mem stream : List ℕ) : First → Type 0 where
  at_close : Comes mem stream First.closing
  at_timeout : Comes mem stream First.timed_out
  at_sniff :
      (name : List ℕ) (c : Capture)
      → sniff_sni mem stream ≡ ok (name, c)
      → Comes mem stream (sniffed name c)

-- The sniffing came first, and left this of the stream.
abbrev pub IsSniffed : List ℕ → First → Type 0
IsSniffed rest First.closing = ⊥
IsSniffed rest First.timed_out = ⊥
IsSniffed rest (sniffed name c) = c.rest ≡ rest

ok-injective :
    (a b : List ℕ) (c d : Capture)
    → ◌≡◌ {A = Result (List ℕ × Capture)} (ok (a, c)) (ok (b, d))
    → (a ≡ b) × (c ≡ d)
ok-injective a b c d e = (ground arith, ground arith)

module _ {ℓ} {D : Type ℓ} where
  connect_to-bridged :
      (connect : D → Bool) (b buffer : List ℕ) (o : Option (Target D)) (t : Target D)
      → (connect_to connect b o ≡ bridged buffer t)
        ↔ ((buffer ≡ b) × (o ≡ some t) × (connect t.dialer ≡ true))
  unfolding connect_to
  connect_to-bridged connect b buffer none t = (λ h. absurd (ground arith), λ (x, y, z). absurd cc)
  connect_to-bridged connect b buffer (some s) t = (
    λ h. elim (Bool-cases (connect s.dialer)) [
      | inr e ↦ absurd (ground arith)
      | inl e ↦
          let same : s ≡ t = ground arith in
          (ground arith, ap some same, subst (λ x. connect x.dialer ≡ true) same e)
    ],
    λ (x, y, z).
        let same : s ≡ t = ground arith in
        let e : connect s.dialer ≡ true = subst (λ x. connect x.dialer ≡ true) (sym same) z in
        rw (e, same, x) refl,
  )

module _ {ℓ} {D : Type ℓ} (dialers : String → Option D) (parse_duration : String → Option ℤ)
    (compile : List ℕ → Option (List ℕ → Bool)) where
  -- The target of a name by the rules of the configuration.
  abbrev pub ruled : SniProxy → Option (Target D) → List ℕ → Option (Target D)
  ruled opts def name =
      let rules = rules_of dialers parse_duration compile opts.router in
      or_else (first_rule is_exact rules name) (
        or_else (first_rule is_affix rules name)
          (or_else (first_rule (is_regexp compile) rules name) def))

  -- After a successful New, for a client that opens with a well-formed ClientHello, and whichever
  -- of the end of the sniffing, the timeout and the close of the listener comes first, serve
  -- bridges the client to a target exactly if the sniffing came first, the target is the one that
  -- the rules of the configuration, with its default behind them, give for the server name, and its
  -- dialer answers; the dialer then receives the ClientHello whole, with the rest of the stream
  -- still unread.
  pub serve-encode :
      (opts : SniProxy) (l : Listener D) (connect : D → Bool) (first : First) (h : Hello)
      (mem rest buffer : List ℕ) (t : Target D)
      → new_listener dialers parse_duration compile true opts ≡ built l
      → IsWellFormed h
      → 5 ≤ length mem
      → Comes mem (encode h ++ rest) first
      → (def : Option (Target D)) × (optional_target dialers parse_duration compile opts.default
          ≡ built def)
        × ((serve l connect first ≡ bridged buffer t) ↔ (
            IsSniffed rest first
            × (buffer ≡ encode h)
            × (ruled opts def h.name ≡ some t)
            × (connect t.dialer ≡ true)))
  unfolding serve after_sniff
  serve-encode opts l connect _ h mem rest buffer t made w room at_close =
      let (r, d) = new-route dialers parse_duration compile true opts l h.name made in
      (l.def, d, (λ e. absurd (ground arith), λ e. absurd e.0))
  serve-encode opts l connect _ h mem rest buffer t made w room at_timeout =
      let (r, d) = new-route dialers parse_duration compile true opts l h.name made in
      (l.def, d, (λ e. absurd (ground arith), λ e. absurd e.0))
  serve-encode opts l connect _ h mem rest buffer t made w room (at_sniff name c e) =
      let (r, d) = new-route dialers parse_duration compile true opts l h.name made in
      let (named, whole) =
        ok-injective h.name name (captured (encode h) false none rest) c
          (sym (sniff-encode h mem rest w room) ∙ e) in
      let (to, from) = connect_to-bridged connect (encode h) buffer (route l h.name) t in
      let run : serve l connect (sniffed name c) ≡ connect_to connect (encode h) (route l h.name) =
        rw (sym whole, sym named) refl in
      (
        l.def,
        d,
        (
          λ b. let (x, y, z) = to (sym run ∙ b) in (ap (λ k. k.rest) (sym whole), x, sym r ∙ y, z),
          λ (u, x, y, z). run ∙ from (x, r ∙ y, z),
        ),
      )
