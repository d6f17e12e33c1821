-- ===== src/Router/Listener.antt =====
-- sniproxy/listener.go: the listener that `New` returns, and what `serve` does with one connection.
-- The goroutine that sniffs, the timer and the close of the listener race; what comes first is an
-- argument.
use streamf.Common.{
  or_else, ℤ, ℕ, List, [], ◌∷◌, Option, none, some, Bool, true, false, if◌then◌else◌, String,
}
use streamf.Capture.{Capture}
use streamf.Router.{
  Target, OrderMatcher, RegexpMatcher, Tables, SniProxy, Built, built, failed, RouterError, ◌>>=◌,
  find_accuracy, order_match, add_routers, optional_target, sniff_timeout,
}

pub record Listener {ℓ} (D : Type ℓ) : Type ℓ where
  pub timeout : ℤ
  pub tables : Tables D
  pub def : Option (Target D)
  pub fallback : Option (Target D)

abbrev pub no_tables {ℓ} : {D : Type ℓ} → Tables D
no_tables = record { accuracy = []; order = []; regexp = [] }

-- `New`; `listened` says whether `nk.Listen` succeeded.
unfoldable pub new_listener {ℓ} :
    {D : Type ℓ} (dialers : String → Option D) (parse_duration : String → Option ℤ)
    (compile : List ℕ → Option (List ℕ → Bool))
    → Bool
    → SniProxy
    → Built (Listener D)
new_listener dialers parse_duration compile false opts = failed RouterError.listen_failed false
new_listener dialers parse_duration compile true opts = do
  def ← optional_target dialers parse_duration compile opts.default
  fallback ← optional_target dialers parse_duration compile opts.fallback
  (duration, tables) ←
      add_routers dialers parse_duration compile opts.router
        (sniff_timeout dialers parse_duration compile opts.timeout) no_tables
  built (record { timeout = duration; tables = tables; def = def; fallback = fallback })

-- The first of the events that `serve` waits for.
pub data First : Type 0 where
  closing timed_out : First
  sniffed : List ℕ → Capture → First

-- The client is closed, or bridged to a dialer behind the bytes that were captured.
pub data Served {ℓ} (D : Type ℓ) : Type ℓ where
  closed : Served D
  bridged : List ℕ → Target D → Served D

module _ {ℓ} {D : Type ℓ} where
  -- `for _, matcher := range l.order`
  unfoldable pub first_order : List (OrderMatcher D) → List ℕ → Option (Target D)
  first_order [] name = none
  first_order (o ∷ os) name = if order_match o name then some o.target else first_order os name

  unfoldable pub first_regexp : List (RegexpMatcher D) → List ℕ → Option (Target D)
  first_regexp [] name = none
  first_regexp (r ∷ rs) name = if r.matches name then some r.target else first_regexp rs name

  -- Exact names, then prefixes and suffixes in their order, then expressions, then the default.
  unfoldable pub route : Listener D → List ℕ → Option (Target D)
  route l name = or_else (find_accuracy name l.tables.accuracy) (
      or_else (first_order l.tables.order name) (or_else (first_regexp l.tables.regexp name) l.def))

  unfoldable pub connect_to : (D → Bool) → List ℕ → Option (Target D) → Served D
  connect_to connect buffer none = closed
  connect_to connect buffer (some t) = if connect t.dialer then bridged buffer t else closed

  unfoldable pub after_sniff : Listener D → (D → Bool) → List ℕ → Capture → Served D
  after_sniff l connect name c = elim c.error [
    | some e ↦ if c.closed then closed else connect_to connect c.buf l.fallback
    | none ↦ connect_to connect c.buf (route l name)
  ]

  unfoldable pub serve : Listener D → (D → Bool) → First → Served D
  serve l connect closing = closed
  serve l connect timed_out = closed
  serve l connect (sniffed name c) = after_sniff l connect name c
