-- ===== src/Forward/Settings.antt =====
-- internal/udp/udp.go: what `New` makes of the configuration.
use streamf.Common.{
  ℕ, ◌*◌, ◌≤◌, ◌≡◌, sym, subst, ◌∙◌, negsuc, inl, inr, ℤ, pos, ltz, pos_part, Option, none, some,
  Bool, true, false, ◌||◌, not, String, str_eq, if◌then◌else◌, arith, Bool-cases,
}
use streamf.Forward.{serve, no_clients, lookup}

-- `config.UDPForward`
pub record UdpForward : Type 0 where
  pub network : String
  pub listen : String
  pub to : String
  pub to_network : String
  pub size : ℤ
  pub timeout : String

-- The fields of `UDP` that do not change, and the network that the socket is opened on.
pub record Settings : Type 0 where
  pub network : String
  pub to_network : String
  pub timeout : ℤ
  pub size : ℕ

pub data Made : Type 0 where
  made : Settings → Made
  network_not_supported : String → Made
  listen_failed : Made

unfoldable pub default_network : String → String
default_network network = if str_eq network "" then "udp" else network

unfoldable pub is_udp : String → Bool
is_udp network = str_eq network "udp" || (str_eq network "udp4" || str_eq network "udp6")

-- `New`; `listens` says whether a socket can be opened on a network and an address.
unfoldable pub new : (String → String → Bool) → (String → Option ℤ) → UdpForward → Made
unfolding default_network is_udp
new listens parse_duration opts =
    let network = default_network opts.network in
    let to_network = default_network opts.to_network in
    let three_minutes : ℤ = pos (1000000000 * 180) in
    if not (is_udp network)
    then network_not_supported network
    else if not (is_udp to_network)
    then network_not_supported to_network
    else if not (listens network opts.listen)
    then listen_failed
    else made (record {
      network = network;
      to_network = opts.to_network;
      timeout =
          if str_eq opts.timeout ""
          then three_minutes
          else elim (parse_duration opts.timeout) [ none ↦ three_minutes | some d ↦ d ];
      size = if ltz opts.size 128 then 1024 * 2 else pos_part opts.size;
    })

-- The guards that a successful `New` passed, and what it returned.
made_lem :
    (listens : String → String → Bool) (parse_duration : String → Option ℤ) (opts : UdpForward)
    (s : Settings)
    → new listens parse_duration opts ≡ made s
    → (is_udp (default_network opts.network) ≡ true)
      × (s.network ≡ default_network opts.network)
      × (s.to_network ≡ opts.to_network)
      × (s.size ≡ (if ltz opts.size 128 then 1024 * 2 else pos_part opts.size))
unfolding new
made_lem listens parse_duration opts s e =
    elim (Bool-cases (is_udp (default_network opts.network))) [
      | inr f ↦ absurd (ground arith)
      | inl f ↦ elim (Bool-cases (is_udp (default_network opts.to_network))) [
        | inr g ↦ absurd (ground arith)
        | inl g ↦ elim (Bool-cases (listens (default_network opts.network) opts.listen)) [
          | inr h ↦ absurd (ground arith)
          | inl h ↦ (f, ground arith, ground arith, ground arith)
        ]
      ]
    ]

at_least : (z : ℤ) → 128 ≤ (if ltz z 128 then 1024 * 2 else pos_part z)
at_least (pos n) = ground arith
at_least (negsuc n) = ground arith

-- A forwarder that New makes is bound to a UDP network and has frames of 128 bytes at least; but
-- where the configuration leaves out the network of the target, and dialing refuses an empty one,
-- it drops the first datagram of every client.
new_without_target :
    (listens : String → String → Bool) (parse_duration : String → Option ℤ) (dials : String → Bool)
    (opts : UdpForward) (s : Settings) (key : String) (resolves writes : Bool)
    → new listens parse_duration opts ≡ made s
    → dials "" ≡ false
    → opts.to_network ≡ ""
    → (is_udp s.network ≡ true)
      × (128 ≤ s.size)
      × (serve no_clients key
            (record { resolves = resolves; dials = dials s.to_network; writes = writes })
          ≡ (false, no_clients))
unfolding serve no_clients lookup
new_without_target listens parse_duration dials opts s key resolves writes e refused empty =
    let (valid, network, to_network, size) = made_lem listens parse_duration opts s e in
    let refuses : dials s.to_network ≡ false =
      subst (λ x. dials x ≡ false) (sym (to_network ∙ empty)) refused in
    let dropped : serve no_clients key
          (record { resolves = resolves; dials = dials s.to_network; writes = writes })
        ≡ (false, no_clients) =
      elim (Bool-cases resolves) [ inl f ↦ ground arith | inr f ↦ ground arith ] in
    (rw network valid, rw size (at_least opts.size), dropped)
