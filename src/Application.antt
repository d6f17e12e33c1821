-- ===== src/Application.antt =====
-- forwarding/application.go: `NewApplication`, which makes the dialers, bridges, listeners and
-- proxies of a configuration, and closes those it made when one fails. The `New` of each is an
-- argument, over a state of its own; what it returns is a number.
pub mod Stages
pub mod Wiring
pub mod Kept
pub mod Gives
pub mod Order
pub mod Cleanup
pub mod Runs
use streamf.Common.{
  ℕ, List, [], ◌∷◌, ◌++◌, map, Option, none, some, Bool, true, false, ◌||◌, String, str_eq,
  if◌then◌else◌,
}

pub data Kind : Type 0 where
  bridge listener sniproxy udp : Kind

pub data Part : Type 0 where
  dialer_part : ℕ → Part
  part : Kind → ℕ → Part

pub data Reply : Type 0 where
  ok : ℕ → Reply
  err : ℕ → Reply

pub data AppError : Type 0 where
  tag_repeat : String → AppError
  new_failed : ℕ → AppError

-- `OD` are the options of a dialer, `O` those of a part of each kind.
pub record Config {ℓ} (OD : Type ℓ) (O : Kind → Type ℓ) : Type ℓ where
  pub dialers : List OD
  pub bridges : List (O bridge)
  pub listeners : List (O listener)
  pub sniproxys : List (O sniproxy)
  pub udps : List (O udp)

-- `dialer.New`, and those of the other packages, which take the dialers by tag.
pub record Makers {ℓ κ} (S : Type ℓ) (OD : Type κ) (O : Kind → Type κ) : Type (ℓ ⊔ κ) where
  pub tag : OD → String
  pub new_dialer : S → OD → S × Reply
  pub new_part : (k : Kind) → S → List (String × ℕ) → O k → S × Reply

-- The results of `newApplication`. `made` are the parts that a `New` returned, in that order.
pub record Built {ℓ} (S : Type ℓ) : Type ℓ where
  pub state : S
  pub dialers : List (String × ℕ)
  pub bridges : List ℕ
  pub listeners : List ℕ
  pub sniproxys : List ℕ
  pub udps : List ℕ
  pub made : List Part
  pub error : Option AppError

-- `_, exists = dialers[tag]`
unfoldable pub has_tag : List (String × ℕ) → String → Bool
has_tag [] tag = false
has_tag ((t, d) ∷ rest) tag = str_eq t tag || has_tag rest tag

module _ {ℓ} {S : Type ℓ} where
  abbrev pub nothing : S → Built S
  nothing s = record {
    state = s;
    dialers = [];
    bridges = [];
    listeners = [];
    sniproxys = [];
    udps = [];
    made = [];
    error = none;
  }

  unfoldable pub fail : Built S → S → AppError → Built S
  fail b s e = record b { state = s; error = some e }

  -- `dialers[opts.Tag] = d`
  unfoldable pub add_dialer : Built S → S → String → ℕ → Built S
  add_dialer b s tag d = record b {
    state = s;
    dialers = b.dialers ++ (tag, d) ∷ [];
    made = b.made ++ dialer_part d ∷ [];
  }

  -- `bridges = append(bridges, b)`, and the same for the other kinds
  unfoldable pub add : Kind → Built S → S → ℕ → Built S
  add bridge b s i = record b {
    state = s;
    bridges = b.bridges ++ i ∷ [];
    made = b.made ++ part bridge i ∷ [];
  }
  add listener b s i = record b {
    state = s;
    listeners = b.listeners ++ i ∷ [];
    made = b.made ++ part listener i ∷ [];
  }
  add sniproxy b s i = record b {
    state = s;
    sniproxys = b.sniproxys ++ i ∷ [];
    made = b.made ++ part sniproxy i ∷ [];
  }
  add udp b s i = record b { state = s; udps = b.udps ++ i ∷ []; made = b.made ++ part udp i ∷ [] }

  -- `if e != nil { return }`
  unfoldable pub after : Built S → (Built S → Built S) → Built S
  after b f = elim b.error [ some e ↦ b | none ↦ f b ]

  -- The calls of `Close`; `ranged` is the order in which Go goes through the map.
  unfoldable pub close_all : (List (String × ℕ) → List (String × ℕ)) → Built S → List Part
  close_all ranged b =
      map (λ d. dialer_part d.1) (ranged b.dialers)
      ++ map (part bridge) b.bridges
      ++ map (part listener) b.listeners
      ++ map (part sniproxy) b.sniproxys
      ++ map (part udp) b.udps

module _ {ℓ κ} {S : Type ℓ} {OD : Type κ} {O : Kind → Type κ} (makers : Makers S OD O) where
  unfoldable pub make_dialers : Built S → List OD → Built S
  unfolding has_tag fail add_dialer
  make_dialers b [] = b
  make_dialers b (o ∷ os) =
      if has_tag b.dialers (makers.tag o)
      then fail b b.state (tag_repeat (makers.tag o))
      else (let (s, reply) = makers.new_dialer b.state o in
          elim reply [
            | err e ↦ fail b s (new_failed e)
            | ok d ↦ make_dialers (add_dialer b s (makers.tag o) d) os
          ])

  -- The loops over the bridges, the listeners, the SNI proxies and the UDP forwarders.
  unfoldable pub make_parts : (k : Kind) → Built S → List (O k) → Built S
  unfolding fail add
  make_parts k b [] = b
  make_parts k b (o ∷ os) =
      let (s, reply) = makers.new_part k b.state b.dialers o in
      elim reply [ err e ↦ fail b s (new_failed e) | ok i ↦ make_parts k (add k b s i) os ]

  -- `newApplication`
  unfoldable pub new_application : S → Config OD O → Built S
  unfolding make_dialers make_parts after
  new_application s conf =
      let b0 = make_dialers (nothing s) conf.dialers in
      let b1 = after b0 (λ b. make_parts bridge b conf.bridges) in
      let b2 = after b1 (λ b. make_parts listener b conf.listeners) in
      let b3 = after b2 (λ b. make_parts sniproxy b conf.sniproxys) in
      after b3 (λ b. make_parts udp b conf.udps)

-- What `NewApplication` returns, and the parts that it closed.
pub record Application {ℓ} (S : Type ℓ) : Type ℓ where
  pub built : Built S
  pub closed : List Part

-- `if e != nil`
unfoldable pub clean_up {ℓ} :
    {S : Type ℓ} → (List (String × ℕ) → List (String × ℕ)) → Built S → Option AppError → List Part
clean_up ranged b none = []
clean_up ranged b (some e) = close_all ranged b

module _ {ℓ κ} {S : Type ℓ} {OD : Type κ} {O : Kind → Type κ} (makers : Makers S OD O) where
  -- `NewApplication`, behind the logger.
  unfoldable pub create : (List (String × ℕ) → List (String × ℕ)) → S → Config OD O → Application S
  unfolding clean_up
  create ranged s conf =
      let b = new_application makers s conf in
      record { built = b; closed = clean_up ranged b b.error }
