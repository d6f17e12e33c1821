-- ===== src/Router/Rules.antt =====
-- The reference for the routing tables: the configuration as one list of rules in its order, and
-- what it means for tables to answer by such a list.
use streamf.Common.{
  or_else, or_else_assoc, or_else-none, ℕ, ◌≡◌, refl, sym, inl, inr, List, [], ◌∷◌, ◌++◌, Option,
  none, some, Bool, false, if◌then◌else◌, bytes_eq, bytes_eq_iff, has_prefix, has_suffix, arith,
  Bool-cases,
}
use streamf.Router.{
  Target, OrderMatcher, RegexpMatcher, Tables, SniMatcher, Kind, kind_of, find_accuracy,
  order_match,
}
use streamf.Router.Listener.{first_order, first_regexp}

-- A matcher with the target of its router: the configuration as one list, in its order.
pub record Rule {ℓ} (D : Type ℓ) : Type ℓ where
  pub kind : Kind
  pub value : List ℕ
  pub target : Target D

module _ {ℓ} {D : Type ℓ} where
  unfoldable pub rules_of_matchers : List SniMatcher → Target D → List (Rule D)
  rules_of_matchers [] target = []
  rules_of_matchers (m ∷ ms) target =
      record { kind = kind_of m.type; value = m.value; target = target }
      ∷ rules_of_matchers ms target

  -- The rules that a name meets, by their kinds.
  unfoldable pub is_exact : Rule D → List ℕ → Bool
  is_exact r name = elim r.kind [ Kind.equal ↦ bytes_eq r.value name | _ ↦ false ]

  unfoldable pub is_affix : Rule D → List ℕ → Bool
  is_affix r name = elim r.kind [
    | Kind.prefix ↦ has_prefix name r.value
    | Kind.suffix ↦ has_suffix name r.value
    | _ ↦ false
  ]

  unfoldable pub is_regexp : (List ℕ → Option (List ℕ → Bool)) → Rule D → List ℕ → Bool
  is_regexp compile r name = elim r.kind [
    | Kind.regexp ↦ elim (compile r.value) [ some test ↦ test name | none ↦ false ]
    | _ ↦ false
  ]

  -- The target of the first rule that passes a test.
  unfoldable pub first_rule : (Rule D → List ℕ → Bool) → List (Rule D) → List ℕ → Option (Target D)
  first_rule test [] name = none
  first_rule test (r ∷ rs) name = if test r name then some r.target else first_rule test rs name

  first_rule-append :
      (test : Rule D → List ℕ → Bool) (rs ss : List (Rule D)) (name : List ℕ)
      → first_rule test (rs ++ ss) name
        ≡ or_else (first_rule test rs name) (first_rule test ss name)
  unfolding first_rule
  first_rule-append test [] ss name = refl
  first_rule-append test (r ∷ rs) ss name = ground (arith, first_rule-append test rs ss name)

  first_order-append :
      (os ps : List (OrderMatcher D)) (name : List ℕ)
      → first_order (os ++ ps) name ≡ or_else (first_order os name) (first_order ps name)
  unfolding first_order
  first_order-append [] ps name = refl
  first_order-append (o ∷ os) ps name = ground (arith, first_order-append os ps name)

  first_regexp-append :
      (rs ss : List (RegexpMatcher D)) (name : List ℕ)
      → first_regexp (rs ++ ss) name ≡ or_else (first_regexp rs name) (first_regexp ss name)
  unfolding first_regexp
  first_regexp-append [] ss name = refl
  first_regexp-append (r ∷ rs) ss name = ground (arith, first_regexp-append rs ss name)

module _ {ℓ} {D : Type ℓ} (compile : List ℕ → Option (List ℕ → Bool)) where
  -- The tables answer as before, and then by the rules that were added.
  pub record Adds (t : Tables D) (rs : List (Rule D)) (t' : Tables D) : Type ℓ where
    pub exact :
        (name : List ℕ)
        → find_accuracy name t'.accuracy
          ≡ or_else (find_accuracy name t.accuracy) (first_rule is_exact rs name)
    pub affix :
        (name : List ℕ)
        → first_order t'.order name
          ≡ or_else (first_order t.order name) (first_rule is_affix rs name)
    pub regexps :
        (name : List ℕ)
        → first_regexp t'.regexp name
          ≡ or_else (first_regexp t.regexp name) (first_rule (is_regexp compile) rs name)

  pub Adds-none : (t : Tables D) → Adds t [] t
  unfolding first_rule
  Adds-none t = record {
    exact = λ name. sym (or_else-none _);
    affix = λ name. sym (or_else-none _);
    regexps = λ name. sym (or_else-none _);
  }

  pub Adds-trans :
      (t u v : Tables D) (rs ss : List (Rule D)) → Adds t rs u → Adds u ss v → Adds t (rs ++ ss) v
  Adds-trans t u v rs ss a b = record {
    exact = λ name.
        rw (b.exact name, a.exact name, first_rule-append is_exact rs ss name, or_else_assoc);
    affix = λ name.
        rw (b.affix name, a.affix name, first_rule-append is_affix rs ss name, or_else_assoc);
    regexps = λ name. rw (
      b.regexps name,
      a.regexps name,
      first_rule-append (is_regexp compile) rs ss name,
      or_else_assoc,
    );
  }

  abbrev pub rule : Kind → List ℕ → Target D → List (Rule D)
  rule k value target = record { kind = k; value = value; target = target } ∷ []

  pub Adds-equal :
      (t : Tables D) (value : List ℕ) (target : Target D)
      → find_accuracy value t.accuracy ≡ none
      → Adds t (rule Kind.equal value target) (record t { accuracy = (value, target) ∷ t.accuracy })
  unfolding find_accuracy first_rule is_exact is_affix is_regexp
  Adds-equal t value target fresh = record {
    exact = λ name. elim (Bool-cases (bytes_eq value name)) [
      | inl same ↦ rw (same, ← (bytes_eq_iff value name).0 same, fresh)
      | inr other ↦ rw (other, or_else-none)
    ];
    affix = λ name. sym (or_else-none (first_order t.order name));
    regexps = λ name. sym (or_else-none (first_regexp t.regexp name));
  }

  pub Adds-order :
      (t : Tables D) (k : Kind) (p : Bool) (value : List ℕ) (target : Target D)
      → (is_affix (record { kind = k; value = value; target = target })
          ≡ order_match (record { target = target; value = value; prefix = p }))
      → (is_exact (record { kind = k; value = value; target = target }) ≡ λ name. false)
      → (is_regexp compile (record { kind = k; value = value; target = target }) ≡ λ name. false)
      → Adds t (rule k value target) (record t {
        order = t.order ++ (record { target = target; value = value; prefix = p } ∷ []);
      })
  unfolding first_rule first_order
  Adds-order t k p value target e ne nr = record {
    exact = λ name. rw (ne, or_else-none);
    affix = λ name. rw (e, first_order-append);
    regexps = λ name. rw (nr, or_else-none);
  }

  pub Adds-regexp :
      (t : Tables D) (value : List ℕ) (target : Target D) (r : List ℕ → Bool)
      → compile value ≡ some r
      → Adds t
          (rule Kind.regexp value target)
          (record t { regexp = t.regexp ++ (record { target = target; matches = r } ∷ []) })
  unfolding first_regexp first_rule is_exact is_affix is_regexp
  Adds-regexp t value target r e =
      let rl : Rule D = record { kind = Kind.regexp; value = value; target = target } in
      let q : (name : List ℕ) → is_regexp compile rl name ≡ r name = λ name. ground arith in
      record {
        exact = λ name. sym (or_else-none (find_accuracy name t.accuracy));
        affix = λ name. sym (or_else-none (first_order t.order name));
        regexps = λ name. ground (
          arith,
          q name,
          first_regexp-append t.regexp (record { target = target; matches = r } ∷ []) name,
        );
      }
