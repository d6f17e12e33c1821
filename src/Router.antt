-- ===== src/Router.antt =====
-- sniproxy/listener.go and sniproxy/dailer.go: the routing tables that `New` builds from the
-- configuration, and the route that `serve` takes. The dialers stand for themselves (`D`), regular
-- expressions and durations are compiled and parsed by functions of the standard library, which
-- are arguments.
pub mod Listener
pub mod Rules
pub mod Build
pub mod Route
pub mod Failure
pub mod Serving
pub mod Runs
use streamf.Common.{
  ℕ, ℤ, pos, ◌*◌, List, [], ◌∷◌, ◌++◌, Option, none, some, Bool, true, false, ◌==◌, if◌then◌else◌,
  String, str_eq, bytes_eq, has_prefix, has_suffix,
}

-- A dialer and how long the other direction is kept open after one has ended.
pub record Target {ℓ} (D : Type ℓ) : Type ℓ where
  pub dialer : D
  pub duration : ℤ

pub record OrderMatcher {ℓ} (D : Type ℓ) : Type ℓ where
  pub target : Target D
  pub value : List ℕ
  pub prefix : Bool

pub record RegexpMatcher {ℓ} (D : Type ℓ) : Type ℓ where
  pub target : Target D
  pub matches : List ℕ → Bool

pub record Tables {ℓ} (D : Type ℓ) : Type ℓ where
  pub accuracy : List (List ℕ × Target D)
  pub order : List (OrderMatcher D)
  pub regexp : List (RegexpMatcher D)

pub record SniMatcher : Type 0 where
  pub type : String
  pub value : List ℕ

pub record ConnectDialer : Type 0 where
  pub tag : String
  pub close : String

pub record SniRouter : Type 0 where
  pub matcher : List SniMatcher
  pub dialer : ConnectDialer

pub record SniProxy : Type 0 where
  pub timeout : String
  pub default : ConnectDialer
  pub fallback : ConnectDialer
  pub router : List SniRouter

pub data RouterError : Type 0 where
  listen_failed : RouterError
  dialer_not_found : String → RouterError
  router_repeat : List ℕ → RouterError
  bad_regexp : List ℕ → RouterError

-- `failed e closed`: the error, and whether the listening socket was closed before returning.
pub data Built {ℓ} (A : Type ℓ) : Type ℓ where
  built : A → Built A
  failed : RouterError → Bool → Built A

infixl 5 ◌>>=◌
abbrev pub ◌>>=◌ {ℓ κ} : {A : Type ℓ} {B : Type κ} → Built A → (A → Built B) → Built B
built a >>= f = f a
failed e closed >>= f = failed e closed

pub data Kind : Type 0 where
  prefix suffix regexp equal : Kind

-- `switch matcher.Type`
unfoldable pub kind_of : String → Kind
kind_of s =
    if str_eq s "prefix"
    then prefix
    else if str_eq s "suffix"
    then suffix
    else if str_eq s "regexp"
    then regexp
    else equal

abbrev pub or_duration : Option ℤ → ℤ → ℤ
or_duration none d = d
or_duration (some z) d = z

abbrev pub millisecond : ℕ
millisecond = 1000000

abbrev pub second : ℕ
second = 1000000000

-- The last of equal keys would win, but `New` refuses a second one.
unfoldable pub find_accuracy {ℓ} :
    {D : Type ℓ} → List ℕ → List (List ℕ × Target D) → Option (Target D)
find_accuracy name [] = none
find_accuracy name ((v, t) ∷ rest) = if bytes_eq v name then some t else find_accuracy name rest

-- `orderMatcher.Match`
unfoldable pub order_match {ℓ} : {D : Type ℓ} → OrderMatcher D → List ℕ → Bool
order_match o s = if o.prefix then has_prefix s o.value else has_suffix s o.value

module _ {ℓ} {D : Type ℓ} (dialers : String → Option D) (parse_duration : String → Option ℤ)
    (compile : List ℕ → Option (List ℕ → Bool)) where
  -- One case of the inner loop's `switch`.
  unfoldable pub add_kind : Kind → List ℕ → Target D → Tables D → Built (Tables D)
  add_kind equal value target t = elim (find_accuracy value t.accuracy) [
    | some other ↦ failed (router_repeat value) true
    | none ↦ built (record t { accuracy = (value, target) ∷ t.accuracy })
  ]
  add_kind prefix value target t = built (record t {
    order = t.order ++ (record { target = target; value = value; prefix = true } ∷ []);
  })
  add_kind suffix value target t = built (record t {
    order = t.order ++ (record { target = target; value = value; prefix = false } ∷ []);
  })
  add_kind regexp value target t = elim (compile value) [
    | none ↦ failed (bad_regexp value) true
    | some r ↦
        built (record t { regexp = t.regexp ++ (record { target = target; matches = r } ∷ []) })
  ]

  unfoldable pub add_matchers : List SniMatcher → Target D → Tables D → Built (Tables D)
  add_matchers [] target t = built t
  add_matchers (m ∷ ms) target t =
      add_kind (kind_of m.type) m.value target t >>= add_matchers ms target

  -- The outer loop. `duration` is the variable of `New` that held the sniffing timeout.
  unfoldable pub add_routers : List SniRouter → ℤ → Tables D → Built (ℤ × Tables D)
  add_routers [] duration t = built (duration, t)
  add_routers (r ∷ rs) duration t = elim (dialers r.dialer.tag) [
    | none ↦ failed (dialer_not_found r.dialer.tag) true
    | some d ↦
        let duration' = or_duration (parse_duration r.dialer.close) (pos second) in
        add_matchers r.matcher (record { dialer = d; duration = duration' }) t
        >>= add_routers rs duration'
  ]

  -- The default and the fallback: none where the tag is empty.
  unfoldable pub optional_target : ConnectDialer → Built (Option (Target D))
  optional_target c = if str_eq c.tag "" then built none else elim (dialers c.tag) [
    | none ↦ failed (dialer_not_found c.tag) true
    | some d ↦
        built (
          some
            (record { dialer = d; duration = or_duration (parse_duration c.close) (pos second) }))
  ]

  unfoldable pub sniff_timeout : String → ℤ
  sniff_timeout s =
      if str_eq s ""
      then pos (500 * millisecond)
      else or_duration (parse_duration s) (pos (500 * millisecond))
