-- ===== src/Application/Cleanup.antt =====
-- forwarding/application.go: what `NewApplication` returns and closes.
use mathlib.Core.List.{Perm}
use mathlib.Core.List.Perm as Perm
use streamf.Common.{
  ℕ, ◌≡◌, refl, sym, ap, subst, ◌∙◌, ◌⊎◌, inl, inr, List, [], map, length, none, some, String,
  arith, Option-cases,
}
use streamf.Application.{
  Kind, bridge, listener, sniproxy, udp, Part, dialer_part, part, AppError, Config, Makers, Built,
  nothing, after, close_all, make_dialers, make_parts, new_application, Application, clean_up,
  create,
}
use streamf.Application.Stages.{
  Distinct, extend, Extends, extend-nil, make_parts-Extends, make_dialers-ExtendsDialers,
}

module _ {ℓ κ} {S : Type ℓ} {OD : Type κ} {O : Kind → Type κ} (makers : Makers S OD O) where
  -- A stage behind an error adds nothing.
  after-Extends :
      (k : Kind) (b : Built S) (os : List (O k))
      → Extends k b (length os) (after b (λ c. make_parts makers k c os))
  unfolding after
  after-Extends k b os = elim (Option-cases b.error) [
    | inl h ↦
        let same : after b (λ c. make_parts makers k c os) ≡ make_parts makers k b os = rw h refl in
        subst (λ t. Extends k b (length os) t) (sym same) (make_parts-Extends makers k b os h)
    | inr (e, h) ↦
        let same : after b (λ c. make_parts makers k c os) ≡ b = rw h refl in
        ([], b.state, b.error, same ∙ sym (extend-nil k b b.state b.error), λ x. absurd cc)
  ]

-- All parts that `b` holds, in the order of the loops.
abbrev pub held {ℓ} : {S : Type ℓ} → Built S → List Part
held b = close_all (λ ds. ds) b

-- The order of the dialers does not matter.
close_all-Perm {ℓ} :
    {S : Type ℓ} (ranged : List (String × ℕ) → List (String × ℕ)) (b : Built S)
    → Perm (ranged b.dialers) b.dialers
    → Perm (close_all ranged b) (held b)
unfolding close_all
close_all-Perm ranged b h = Perm.append_right (map (part udp) b.udps) (
    Perm.append_right (map (part sniproxy) b.sniproxys) (
      Perm.append_right (map (part listener) b.listeners)
        (Perm.append_right (map (part bridge) b.bridges) (Perm.map (λ d. dialer_part d.1) h))))

-- Every option of the configuration has a part.
pub record IsComplete {ℓ κ} {S : Type ℓ} {OD : Type κ} {O : Kind → Type κ} (makers : Makers S OD O)
    (conf : Config OD O) (b : Built S) : Type 0 where
  pub tags : map (λ d. d.0) b.dialers ≡ map makers.tag conf.dialers
  pub all_bridges : length b.bridges ≡ length conf.bridges
  pub all_listeners : length b.listeners ≡ length conf.listeners
  pub all_sniproxys : length b.sniproxys ≡ length conf.sniproxys
  pub all_udps : length b.udps ≡ length conf.udps

abbrev pub Builds {ℓ κ} :
    {S : Type ℓ} {OD : Type κ} {O : Kind → Type κ} → Makers S OD O → Config OD O → Built S → Type 0
Builds makers conf b =
    (b.made ≡ held b) × Distinct b.dialers × (b.error ≡ none → IsComplete makers conf b)

module _ {ℓ κ} {S : Type ℓ} {OD : Type κ} {O : Kind → Type κ} (makers : Makers S OD O) where
  new_application-Builds :
      (s : S) (conf : Config OD O) → Builds makers conf (new_application makers s conf)
  unfolding new_application close_all
  new_application-Builds s conf =
      let b0 = make_dialers makers (nothing s) conf.dialers in
      let b1 = after b0 (λ b. make_parts makers bridge b conf.bridges) in
      let b2 = after b1 (λ b. make_parts makers listener b conf.listeners) in
      let b3 = after b2 (λ b. make_parts makers sniproxy b conf.sniproxys) in
      let (ds, s0, e0, p0, distinct, f0) =
        make_dialers-ExtendsDialers makers (nothing s) conf.dialers refl in
      let (i1, s1, e1, p1, f1) = after-Extends makers bridge b0 conf.bridges in
      let (i2, s2, e2, p2, f2) = after-Extends makers listener b1 conf.listeners in
      let (i3, s3, e3, p3, f3) = after-Extends makers sniproxy b2 conf.sniproxys in
      let (i4, s4, e4, p4, f4) = after-Extends makers udp b3 conf.udps in
      let q1 = p1 ∙ ap (λ x. extend bridge x i1 s1 e1) p0 in
      let q2 = p2 ∙ ap (λ x. extend listener x i2 s2 e2) q1 in
      let q3 = p3 ∙ ap (λ x. extend sniproxy x i3 s3 e3) q2 in
      let q4 = p4 ∙ ap (λ x. extend udp x i4 s4 e4) q3 in
      subst (Builds makers conf) (sym q4) (
        refl,
        distinct (λ u. omega arith),
        λ h.
            let (h3, n4) = f4 h in
            let (h2, n3) = f3 (ap (λ x. x.error) (sym p3) ∙ h3) in
            let (h1, n2) = f2 (ap (λ x. x.error) (sym p2) ∙ h2) in
            let (h0, n1) = f1 (ap (λ x. x.error) (sym p1) ∙ h1) in
            record {
              tags = f0 (ap (λ x. x.error) (sym p0) ∙ h0);
              all_bridges = n1;
              all_listeners = n2;
              all_sniproxys = n3;
              all_udps = n4;
            },
      )

  -- What `NewApplication` leaves behind.
  abbrev pub Ends : Config OD O → Application S → Type 0
  Ends conf app =
      ((app.built.error ≡ none)
        × (app.closed ≡ [])
        × Distinct app.built.dialers
        × IsComplete makers conf app.built)
      ⊎ ((e : AppError) × (app.built.error ≡ some e) × Perm app.closed app.built.made)

  -- Whatever the New of each part does, NewApplication either succeeds, with nothing closed, a
  -- dialer for each option, under its tag and no two under one, and as many bridges, listeners and
  -- proxies as the configuration has; or it fails, and has closed every part that a New returned,
  -- each once, and no other, in whichever order Go goes through the dialers.
  pub create-Ends :
      (ranged : List (String × ℕ) → List (String × ℕ))
      → ((ds : List (String × ℕ)) → Perm (ranged ds) ds)
      → (s : S) (conf : Config OD O) → Ends conf (create makers ranged s conf)
  unfolding create clean_up
  create-Ends ranged same s conf =
      let b = new_application makers s conf in
      let (made, distinct, complete) = new_application-Builds s conf in
      elim (Option-cases b.error) [
        | inl h ↦ inl (h, ap (clean_up ranged b) h, distinct, complete h)
        | inr (e, h) ↦ inr (
          e,
          h,
          subst (λ x. Perm (clean_up ranged b x) b.made) (sym h)
              (subst (Perm (close_all ranged b)) (sym made)
                (close_all-Perm ranged b (same b.dialers))),
        )
      ]
