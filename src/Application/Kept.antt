-- ===== src/Application/Kept.antt =====
-- forwarding/application.go: what the constructors keep of the state, through the stages.
use streamf.Common.{
  ℕ, ◌≡◌, refl, sym, subst, ◌∙◌, inl, inr, List, [], ◌∷◌, Option, none, some, String, Bool-cases,
  Option-cases,
}
use streamf.Application.{
  Kind, bridge, listener, sniproxy, udp, Reply, ok, err, AppError, Config, Makers, Built, nothing,
  has_tag, fail, add_dialer, add, after, make_dialers, make_parts, new_application,
}
use streamf.Application.Stages.{Reply-cases}

module _ {ℓ} {S : Type ℓ} where
  -- After a constructor: `P` of the state, or `Q` on an error.
  abbrev pub Gives : (S → Type 0) → (S → Type 0) → S × Reply → Type 0
  Gives P Q (s, ok i) = P s
  Gives P Q (s, err e) = Q s

  -- After a stage.
  abbrev AtError : (S → Type 0) → (S → Type 0) → Built S → Option AppError → Type 0
  AtError P Q b none = P b.state
  AtError P Q b (some e) = Q b.state

  abbrev pub Reached : (S → Type 0) → (S → Type 0) → Built S → Type 0
  Reached P Q b = AtError P Q b b.error

  pub Reached_ok : (P Q : S → Type 0) (b : Built S) → b.error ≡ none → Reached P Q b → P b.state
  Reached_ok P Q b h r = subst (AtError P Q b) h r

  pub Reached_err :
      (P Q : S → Type 0) (b : Built S) (e : AppError) → b.error ≡ some e → Reached P Q b → Q b.state
  Reached_err P Q b e h r = subst (AtError P Q b) h r

  pub Reached-any : (P : S → Type 0) (b : Built S) → Reached P P b → P b.state
  Reached-any P b r = elim (Option-cases b.error) [
    | inl h ↦ Reached_ok P P b h r
    | inr (e, h) ↦ Reached_err P P b e h r
  ]

  add-state :
      (k : Kind) (b : Built S) (s : S) (i : ℕ)
      → ((add k b s i).state ≡ s) × ((add k b s i).error ≡ b.error)
  unfolding add
  add-state bridge b s i = (refl, refl)
  add-state listener b s i = (refl, refl)
  add-state sniproxy b s i = (refl, refl)
  add-state udp b s i = (refl, refl)

module _ {ℓ κ} {S : Type ℓ} {OD : Type κ} {O : Kind → Type κ} (makers : Makers S OD O)
    (P Q : S → Type 0) where
  make_dialers-Reached :
      (gives : (s : S) (o : OD) → P s → Gives P Q (makers.new_dialer s o))
      (weaken : (s : S) → P s → Q s) (b : Built S) (os : List OD)
      → b.error ≡ none
      → P b.state
      → Reached P Q (make_dialers makers b os)
  unfolding make_dialers fail add_dialer
  make_dialers-Reached gives weaken b [] h p = rw h p
  make_dialers-Reached gives weaken b (o ∷ os) h p =
      let r = makers.new_dialer b.state o in
      let g : Gives P Q (r.0, r.1) = gives b.state o p in
      elim (Bool-cases (has_tag b.dialers (makers.tag o))) [
        | inl f ↦ rw f (weaken b.state p)
        | inr f ↦ elim (Reply-cases r.1) [
          | inl (i, q) ↦
              rw (f, q)
                (make_dialers-Reached gives weaken (add_dialer b r.0 (makers.tag o) i) os h
                  (subst (λ x. Gives P Q (r.0, x)) q g))
          | inr (e, q) ↦ rw (f, q) (subst (λ x. Gives P Q (r.0, x)) q g)
        ]
      ]

  make_parts-Reached :
      (k : Kind)
      (gives : (s : S) (ds : List (String × ℕ)) (o : O k)
        → P s
        → Gives P Q (makers.new_part k s ds o))
      (b : Built S) (os : List (O k))
      → b.error ≡ none
      → P b.state
      → Reached P Q (make_parts makers k b os)
  unfolding make_parts fail
  make_parts-Reached k gives b [] h p = rw h p
  make_parts-Reached k gives b (o ∷ os) h p =
      let r = makers.new_part k b.state b.dialers o in
      let g : Gives P Q (r.0, r.1) = gives b.state b.dialers o p in
      elim (Reply-cases r.1) [
        | inl (i, q) ↦
            let (state, error) = add-state k b r.0 i in
            let same : make_parts makers k b (o ∷ os) ≡ make_parts makers k (add k b r.0 i) os =
              rw (q, make_parts) refl in
            subst (Reached P Q) (sym same) (
              make_parts-Reached k gives (add k b r.0 i) os (error ∙ h)
                (subst P (sym state) (subst (λ x. Gives P Q (r.0, x)) q g)))
        | inr (e, q) ↦ rw (q, make_parts) (subst (λ x. Gives P Q (r.0, x)) q g)
      ]

  -- A stage that follows another.
  after-Reached :
      (k : Kind)
      (gives : (s : S) (ds : List (String × ℕ)) (o : O k)
        → P s
        → Gives P Q (makers.new_part k s ds o))
      (b : Built S) (os : List (O k))
      → Reached P Q b
      → Reached P Q (after b (λ c. make_parts makers k c os))
  unfolding after
  after-Reached k gives b os r = elim (Option-cases b.error) [
    | inl h ↦
        let same : after b (λ c. make_parts makers k c os) ≡ make_parts makers k b os = rw h refl in
        subst (Reached P Q) (sym same) (make_parts-Reached k gives b os h (Reached_ok P Q b h r))
    | inr (e, h) ↦
        let same : after b (λ c. make_parts makers k c os) ≡ b = rw h refl in
        subst (Reached P Q) (sym same) r
  ]

-- What the dialers and the bridges keep, `P`, gives what the other parts keep, `R`; behind an error
-- there is `Q`.
module _ {ℓ κ} {S : Type ℓ} {OD : Type κ} {O : Kind → Type κ} (makers : Makers S OD O)
    (P R Q : S → Type 0) where
  Reached-later : (b : Built S) → ((s : S) → P s → R s) → Reached P Q b → Reached R Q b
  Reached-later b later r = elim (Option-cases b.error) [
    | inl h ↦ rw h (later b.state (Reached_ok P Q b h r))
    | inr (e, h) ↦ rw h (subst (AtError P Q b) h r)
  ]

  pub new_application-Reached :
      (dialers : (s : S) (o : OD) → P s → Gives P Q (makers.new_dialer s o))
      (bridges : (s : S) (ds : List (String × ℕ)) (o : O bridge)
        → P s
        → Gives P Q (makers.new_part bridge s ds o))
      (listeners : (s : S) (ds : List (String × ℕ)) (o : O listener)
        → R s
        → Gives R Q (makers.new_part listener s ds o))
      (sniproxys : (s : S) (ds : List (String × ℕ)) (o : O sniproxy)
        → R s
        → Gives R Q (makers.new_part sniproxy s ds o))
      (udps : (s : S) (ds : List (String × ℕ)) (o : O udp)
        → R s
        → Gives R Q (makers.new_part udp s ds o))
      (later : (s : S) → P s → R s) (weaken : (s : S) → P s → Q s) (s : S) (conf : Config OD O)
      → P s
      → Reached R Q (new_application makers s conf)
  unfolding new_application
  new_application-Reached dialers bridges listeners sniproxys udps later weaken s conf p =
      let b0 = make_dialers makers (nothing s) conf.dialers in
      let b1 = after b0 (λ b. make_parts makers bridge b conf.bridges) in
      let b2 = after b1 (λ b. make_parts makers listener b conf.listeners) in
      let b3 = after b2 (λ b. make_parts makers sniproxy b conf.sniproxys) in
      let r0 = make_dialers-Reached makers P Q dialers weaken (nothing s) conf.dialers refl p in
      let r1 =
        Reached-later b1 later (after-Reached makers P Q bridge bridges b0 conf.bridges r0) in
      let r2 = after-Reached makers R Q listener listeners b1 conf.listeners r1 in
      let r3 = after-Reached makers R Q sniproxy sniproxys b2 conf.sniproxys r2 in
      after-Reached makers R Q udp udps b3 conf.udps r3
