-- ===== src/Application/Stages.antt =====
-- forwarding/application.go: what each loop of `newApplication` adds.
use streamf.Common.{
  ℕ, suc, ◌+◌, ◌≤◌, ◌≡◌, refl, sym, ap, subst, ◌∙◌, ◌⊎◌, inl, inr, List, [], ◌∷◌, ◌++◌, append-nil,
  append_assoc, map, length, Option, none, some, false, String, str_eq, eq_iff, if◌then◌else◌,
  arith, Bool-cases,
}
use streamf.Application.{
  Kind, bridge, listener, sniproxy, udp, dialer_part, part, Reply, ok, err, AppError, tag_repeat,
  new_failed, Makers, Built, has_tag, fail, add_dialer, add, make_dialers, make_parts,
}

-- How many dialers have a tag.
abbrev pub times : String → List (String × ℕ) → ℕ
times u [] = 0
times u ((t, d) ∷ rest) = (if str_eq t u then 1 else 0) + times u rest

pub times-append :
    (u : String) (xs ys : List (String × ℕ)) → times u (xs ++ ys) ≡ times u xs + times u ys
times-append u [] ys = omega arith
times-append u ((t, d) ∷ xs) ys = omega (arith, times-append u xs ys)

times-has_tag : (u : String) (xs : List (String × ℕ)) → has_tag xs u ≡ false → times u xs ≡ 0
unfolding has_tag
times-has_tag u [] h = refl
times-has_tag u ((t, d) ∷ xs) h = ground (arith, times-has_tag u xs (ground arith))

-- No two dialers have the same tag.
abbrev pub Distinct : List (String × ℕ) → Type 0
Distinct ds = (u : String) → times u ds ≤ 1

Distinct-snoc :
    (ds : List (String × ℕ)) (t : String) (d : ℕ)
    → has_tag ds t ≡ false
    → Distinct ds
    → Distinct (ds ++ (t, d) ∷ [])
Distinct-snoc ds t d h k u =
    let a = times-append u ds ((t, d) ∷ []) in
    elim (Bool-cases (str_eq t u)) [
      | inl e ↦
          let t-u = (eq_iff t u).0 e in
          let z : times u ds ≡ 0 = subst (λ x. times x ds ≡ 0) t-u (times-has_tag t ds h) in
          ground (arith, a, z, e)
      | inr e ↦ ground (arith, a, k u, e)
    ]

module _ {ℓ} {S : Type ℓ} where
  -- A part of each kind is added at the end, and to what was made.
  abbrev pub extend : Kind → Built S → List ℕ → S → Option AppError → Built S
  extend bridge b is s e = record b {
    state = s;
    error = e;
    bridges = b.bridges ++ is;
    made = b.made ++ map (part bridge) is;
  }
  extend listener b is s e = record b {
    state = s;
    error = e;
    listeners = b.listeners ++ is;
    made = b.made ++ map (part listener) is;
  }
  extend sniproxy b is s e = record b {
    state = s;
    error = e;
    sniproxys = b.sniproxys ++ is;
    made = b.made ++ map (part sniproxy) is;
  }
  extend udp b is s e = record b {
    state = s;
    error = e;
    udps = b.udps ++ is;
    made = b.made ++ map (part udp) is;
  }

  abbrev pub extend_dialers : Built S → List (String × ℕ) → S → Option AppError → Built S
  extend_dialers b ds s e = record b {
    state = s;
    error = e;
    dialers = b.dialers ++ ds;
    made = b.made ++ map (λ d. dialer_part d.1) ds;
  }

  pub extend-nil :
      (k : Kind) (b : Built S) (s : S) (e : Option AppError)
      → extend k b [] s e ≡ record b { state = s; error = e }
  extend-nil bridge b s e = rw (append-nil b.bridges, append-nil b.made) refl
  extend-nil listener b s e = rw (append-nil b.listeners, append-nil b.made) refl
  extend-nil sniproxy b s e = rw (append-nil b.sniproxys, append-nil b.made) refl
  extend-nil udp b s e = rw (append-nil b.udps, append-nil b.made) refl

  extend-add :
      (k : Kind) (b : Built S) (t : S) (i : ℕ) (is : List ℕ) (s : S) (e : Option AppError)
      → extend k (add k b t i) is s e ≡ extend k b (i ∷ is) s e
  unfolding add
  extend-add bridge b t i is s e =
      rw
        (
          append_assoc b.bridges (i ∷ []) is,
          append_assoc b.made (part bridge i ∷ []) (map (part bridge) is),
        )
        refl
  extend-add listener b t i is s e =
      rw
        (
          append_assoc b.listeners (i ∷ []) is,
          append_assoc b.made (part listener i ∷ []) (map (part listener) is),
        )
        refl
  extend-add sniproxy b t i is s e =
      rw
        (
          append_assoc b.sniproxys (i ∷ []) is,
          append_assoc b.made (part sniproxy i ∷ []) (map (part sniproxy) is),
        )
        refl
  extend-add udp b t i is s e =
      rw
        (append_assoc b.udps (i ∷ []) is, append_assoc b.made (part udp i ∷ []) (map (part udp) is))
        refl

module _ {ℓ} {S : Type ℓ} where
  error-add : (k : Kind) (b : Built S) (s : S) (i : ℕ) → (add k b s i).error ≡ b.error
  unfolding add
  error-add bridge b s i = refl
  error-add listener b s i = refl
  error-add sniproxy b s i = refl
  error-add udp b s i = refl

-- A loop over `n` options: what it added, all of it where there is no error.
abbrev pub Extends {ℓ} : {S : Type ℓ} → Kind → Built S → ℕ → Built S → Type ℓ
Extends {S = S} k b n t =
    (is : List ℕ) × (s : S) × (e : Option AppError) × (t ≡ extend k b is s e)
    × (e ≡ none → (b.error ≡ none) × (length is ≡ n))

pub Reply-cases : (r : Reply) → ((i : ℕ) × (r ≡ ok i)) ⊎ ((e : ℕ) × (r ≡ err e))
Reply-cases (ok i) = inl (i, refl)
Reply-cases (err e) = inr (e, refl)

module _ {ℓ κ} {S : Type ℓ} {OD : Type κ} {O : Kind → Type κ} (makers : Makers S OD O) where
  pub make_parts-Extends :
      (k : Kind) (b : Built S) (os : List (O k))
      → b.error ≡ none
      → Extends k b (length os) (make_parts makers k b os)
  unfolding make_parts fail
  make_parts-Extends k b [] h =
      ([], b.state, b.error, sym (extend-nil k b b.state b.error), λ x. (x, refl))
  make_parts-Extends k b (o ∷ os) h =
      let r = makers.new_part k b.state b.dialers o in
      elim (Reply-cases r.1) [
        | inr (e, q) ↦ (
          [],
          r.0,
          some (new_failed e),
          rw (q, make_parts) (sym (extend-nil k b r.0 (some (new_failed e)))),
          λ x. cc,
        )
        | inl (i, q) ↦
            let (is, s, e, same, full) =
              make_parts-Extends k (add k b r.0 i) os (error-add k b r.0 i ∙ h) in
            (
              i ∷ is,
              s,
              e,
              rw (q, make_parts) (same ∙ extend-add k b r.0 i is s e),
              λ x. (h, ap suc ((full x).1)),
            )
      ]

  -- The loop over the dialers.
  abbrev pub ExtendsDialers : Built S → List OD → Built S → Type ℓ
  ExtendsDialers b os t =
      (ds : List (String × ℕ)) × (s : S) × (e : Option AppError) × (t ≡ extend_dialers b ds s e)
      × (Distinct b.dialers → Distinct (b.dialers ++ ds))
      × (e ≡ none → map (λ d. d.0) ds ≡ map makers.tag os)

  pub make_dialers-ExtendsDialers :
      (b : Built S) (os : List OD) → b.error ≡ none → ExtendsDialers b os (make_dialers makers b os)
  unfolding make_dialers fail add_dialer
  make_dialers-ExtendsDialers b [] h = (
    [],
    b.state,
    b.error,
    rw (append-nil b.dialers, append-nil b.made) refl,
    λ d. subst Distinct (sym (append-nil b.dialers)) d,
    λ x. refl,
  )
  make_dialers-ExtendsDialers b (o ∷ os) h =
      let t = makers.tag o in
      let r = makers.new_dialer b.state o in
      elim (Bool-cases (has_tag b.dialers t)) [
        | inl f ↦ (
          [],
          b.state,
          some (tag_repeat t),
          rw (f, append-nil b.dialers, append-nil b.made) refl,
          λ d. subst Distinct (sym (append-nil b.dialers)) d,
          λ x. cc,
        )
        | inr f ↦ elim (Reply-cases r.1) [
          | inr (e, q) ↦ (
            [],
            r.0,
            some (new_failed e),
            rw (f, q, append-nil b.dialers, append-nil b.made) refl,
            λ d. subst Distinct (sym (append-nil b.dialers)) d,
            λ x. cc,
          )
          | inl (i, q) ↦
              let (ds, s, e, same, distinct, full) =
                make_dialers-ExtendsDialers (add_dialer b r.0 t i) os h in
              (
                (t, i) ∷ ds,
                s,
                e,
                rw (f, q)
                    (same
                      ∙ rw
                          (
                            append_assoc b.dialers ((t, i) ∷ []) ds,
                            append_assoc b.made (dialer_part i ∷ [])
                                (map (λ d. dialer_part d.1) ds),
                          )
                          refl),
                λ d.
                    subst Distinct (append_assoc b.dialers ((t, i) ∷ []) ds)
                      (distinct (Distinct-snoc b.dialers t i f d)),
                λ x. ap (λ l. t ∷ l) (full x),
              )
        ]
      ]
