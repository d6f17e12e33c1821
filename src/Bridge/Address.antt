-- ===== src/Bridge/Address.antt =====
-- bridge/http.go and bridge/websocket.go beside dialer/http.go and dialer/websocket.go: the address
-- that each dials, from the same URL and settings, and the ping of the HTTP ones.
use Prim.Native.String.{String}
use streamf.Common.{
  ℤ, ◌≡◌, refl, sym, ◌↔◌, ◌⊎◌, inl, inr, ap, ◌∙◌, List, [], ◌∷◌, ◌++◌, Option, none, some, Bool,
  true, false, str_eq, eq_iff, if◌then◌else◌, arith, Bool-cases, Option-cases,
}
use streamf.Network.{Network, NetworkError, Opened}
use streamf.Network as Network
use streamf.Network.Rendezvous.{Waiting, wait}
use streamf.HttpListener.Build.{Std}
use streamf.Dialer.Headers.{concat-same}
use streamf.Dialer.Options.{Url, port_addr, text_or, ping_timeout, stream_method}
use streamf.Dialer.Build.{
  DialerConfig, Dialer, http, websocket, ok, with_dialer, new_http_dialer, new_websocket_dialer,
}
use streamf.Bridge.{BridgeConfig, Bridge, new_http_bridge, new_websocket_bridge}

default_port : (secure : Bool) → ¬ (◌≡◌ {A = String} (if secure then ":443" else ":80") "")
default_port true h = let k : false ≡ true = (eq_iff ":443" "").1 h in ground arith
default_port false h = let k : false ≡ true = (eq_iff ":80" "").1 h in ground arith

port_addr-same :
    (secure : Bool) (u : Url) (addr : String)
    → (port_addr secure u addr ≡ text_or u.host addr)
      ↔ ((str_eq addr "" ≡ false) ⊎ (str_eq u.port "" ≡ false))
unfolding port_addr text_or
port_addr-same secure u addr = elim (Bool-cases (str_eq addr "")) [
  | inr e ↦ rw e (λ h. inl refl, λ h. refl)
  | inl e ↦ elim (Bool-cases (str_eq u.port "")) [
    | inr f ↦ rw (e, f) (λ h. inr refl, λ h. refl)
    | inl f ↦
        rw (e, f)
          (λ h. absurd (default_port secure (concat-same u.host _ h)), λ h. absurd (ground arith))
  ]
]

-- The dialer of the network that a dialer of a stream uses.
abbrev pub raw_of : Dialer → Option Opened
raw_of (http d) = some d.raw_dialer
raw_of (websocket d) = some d.raw_dialer
raw_of (Dialer.basic d) = some d.raw_dialer
raw_of (Dialer.udp d) = none
raw_of (Dialer.socks d) = none

-- A constructor that succeeds has asked the network for its dialer.
with_dialer-ok {ℓ} :
    {E A : Type ℓ} (fail : NetworkError → E) (make : Opened → A) (r : Network.Reply Opened) (a : A)
    (m : Network)
    → with_dialer fail make r ≡ ok a m
    → (o : Opened) × (r ≡ Network.ok o m) × (make o ≡ a)
unfolding with_dialer
with_dialer-ok fail make (Network.ok o n) a m e = (o, ground arith, ground arith)
with_dialer-ok fail make (Network.error x) a m e = absurd (ground arith)

module _ (std : Std) (canonical : String → String) (linux : Bool) (n : Network)
    (opts : DialerConfig) (u : Url) (secure : Bool) (d : Dialer) (m : Network) where
  -- It has this dialer, which the network gave for this address.
  abbrev DialsAt : Type 0
  DialsAt =
      (o : Opened) × (Network.dialer linux n (text_or "tcp" opts.network)
          (port_addr secure u opts.addr)
        ≡ Network.ok o m)
      × (raw_of d ≡ some o)

  http_dialer-DialsAt : new_http_dialer std canonical linux n opts u secure ≡ ok d m → DialsAt
  unfolding new_http_dialer
  http_dialer-DialsAt h = elim (Option-cases (stream_method std.to_upper opts.method)) [
    | inl e ↦ absurd (ground arith)
    | inr (method, e) ↦
        let (o, r, made) = with_dialer-ok _ _ _ d m (rw (e, new_http_dialer) at h) in
        (o, r, ap raw_of (sym made))
  ]

  websocket_dialer-DialsAt :
      new_websocket_dialer std canonical linux n opts u secure ≡ ok d m → DialsAt
  unfolding new_websocket_dialer
  websocket_dialer-DialsAt h =
      let (o, r, made) = with_dialer-ok _ _ _ d m h in (o, r, ap raw_of (sym made))

module _ (D : Type 0) (std : Std) (linux : Bool) (n : Network) (opts : BridgeConfig) (u : Url)
    (found : D) (secure : Bool) (b : Bridge D) (k : Network) where
  abbrev BridgesAt : Type 0
  BridgesAt =
      (o : Opened) × (Network.dialer linux n (text_or "tcp" opts.network) (text_or u.host opts.addr)
        ≡ Network.ok o k)
      × (b.closer ≡ some o)

  http_bridge-BridgesAt : new_http_bridge std linux n opts u found secure ≡ ok b k → BridgesAt
  unfolding new_http_bridge
  http_bridge-BridgesAt h = elim (Option-cases (stream_method std.to_upper opts.method)) [
    | inl e ↦ absurd (ground arith)
    | inr (method, e) ↦
        let (o, r, made) = with_dialer-ok _ _ _ b k (rw (e, new_http_bridge) at h) in
        (o, r, ap (λ x. x.closer) (sym made))
  ]

  websocket_bridge-BridgesAt :
      new_websocket_bridge std linux n opts u found secure ≡ ok b k → BridgesAt
  unfolding new_websocket_bridge
  websocket_bridge-BridgesAt h =
      let (o, r, made) = with_dialer-ok _ _ _ b k h in (o, r, ap (λ x. x.closer) (sym made))

-- The address of the dialer that waits last.
last_addr : List Waiting → String
last_addr [] = ""
last_addr (w ∷ []) = w.addr
last_addr (w ∷ x ∷ ws) = last_addr (x ∷ ws)

last_addr-snoc : (ws : List Waiting) (w : Waiting) → last_addr (ws ++ w ∷ []) ≡ w.addr
unfolding last_addr
last_addr-snoc [] w = refl
last_addr-snoc (v ∷ []) w = refl
last_addr-snoc (v ∷ x ∷ ws) w = last_addr-snoc (x ∷ ws) w

-- For one network setting, the network gives the same dialer for the same address only.
dialer-injective :
    (linux : Bool) (n m k : Network) (network a b : String) (o p : Opened)
    → Network.dialer linux n network a ≡ Network.ok o m
    → Network.dialer linux n network b ≡ Network.ok p k
    → o ≡ p
    → m ≡ k
    → a ≡ b
unfolding Network.dialer wait
dialer-injective linux n m k network a b o p e f same behind =
    elim (Bool-cases (str_eq network "portal")) [
      | inl g ↦
          let x : n.portal.waiting ++ record { id = n.next; addr = a } ∷ [] ≡ m.portal.waiting =
            ground arith in
          let y : n.portal.waiting ++ record { id = n.next; addr = b } ∷ [] ≡ k.portal.waiting =
            ground arith in
          sym (last_addr-snoc n.portal.waiting (record { id = n.next; addr = a }))
          ∙ ap last_addr (x ∙ ap (λ z. z.portal.waiting) behind ∙ sym y)
          ∙ last_addr-snoc n.portal.waiting (record { id = n.next; addr = b })
      | inr g ↦ elim (Bool-cases (str_eq network "pipe")) [
        | inl q ↦
            let x : n.pipe.waiting ++ record { id = n.next; addr = a } ∷ [] ≡ m.pipe.waiting =
              ground arith in
            let y : n.pipe.waiting ++ record { id = n.next; addr = b } ∷ [] ≡ k.pipe.waiting =
              ground arith in
            sym (last_addr-snoc n.pipe.waiting (record { id = n.next; addr = a }))
            ∙ ap last_addr (x ∙ ap (λ z. z.pipe.waiting) behind ∙ sym y)
            ∙ last_addr-snoc n.pipe.waiting (record { id = n.next; addr = b })
        | inr q ↦
            let x : Network.raw_dialer network a ≡ o = ground arith in
            let y : Network.raw_dialer network b ≡ p = ground arith in
            let z : Network.raw_dialer network a ≡ Network.raw_dialer network b =
              x ∙ same ∙ sym y in
            ground arith
      ]
    ]

dialer-same :
    (linux : Bool) (n m k : Network) (network a b : String) (o p : Opened)
    → Network.dialer linux n network a ≡ Network.ok o m
    → Network.dialer linux n network b ≡ Network.ok p k
    → (((some p ≡ some o) × (m ≡ k)) ↔ (a ≡ b))
dialer-same linux n m k network a b o p e f = (
  λ (same, behind).
      dialer-injective linux n m k network a b o p e f (let g = same in ground arith) behind,
  λ same.
      let g : Network.ok o m ≡ Network.ok p k =
        sym e ∙ ap (Network.dialer linux n network) same ∙ f in
      (ground arith, ground arith),
)

-- A dialer and a bridge of one kind from one URL, each with the network behind it.
pub data Paired {D : Type 0} (std : Std) (canonical : String → String) (linux secure : Bool)
    (n : Network) (dopts : DialerConfig) (bopts : BridgeConfig) (u : Url) (found : D) (d : Dialer)
    (b : Bridge D) (m k : Network) : Type 0 where
  https :
      new_http_dialer std canonical linux n dopts u secure ≡ ok d m
      → new_http_bridge std linux n bopts u found secure ≡ ok b k
      → Paired std canonical linux secure n dopts bopts u found d b m k
  websockets :
      new_websocket_dialer std canonical linux n dopts u secure ≡ ok d m
      → new_websocket_bridge std linux n bopts u found secure ≡ ok b k
      → Paired std canonical linux secure n dopts bopts u found d b m k

both-addr :
    {D : Type 0} (std : Std) (canonical : String → String) (linux secure : Bool) (n : Network)
    (dopts : DialerConfig) (bopts : BridgeConfig) (u : Url) (found : D) (d : Dialer) (b : Bridge D)
    (m k : Network)
    → dopts.network ≡ bopts.network
    → dopts.addr ≡ bopts.addr
    → DialsAt std canonical linux n dopts u secure d m
    → BridgesAt D std linux n bopts u found secure b k
    → ((b.closer ≡ raw_of d) × (m ≡ k))
      ↔ ((str_eq dopts.addr "" ≡ false) ⊎ (str_eq u.port "" ≡ false))
both-addr std canonical linux secure n dopts bopts u found d b m k net addr (o, e, raw) (p, f, cl) =
    let f' : Network.dialer linux n (text_or "tcp" dopts.network) (text_or u.host dopts.addr)
        ≡ Network.ok p k =
      rw (net, addr) f in
    let (to, from) =
      dialer-same linux n m k (text_or "tcp" dopts.network) (port_addr secure u dopts.addr)
        (text_or u.host dopts.addr) o p e f' in
    let (same_to, same_from) = port_addr-same secure u dopts.addr in
    (
      λ (c, behind). same_to (to (sym cl ∙ c ∙ raw, behind)),
      λ h. let (c, behind) = from (same_from h) in (cl ∙ c ∙ sym raw, behind),
    )

-- An HTTP or websocket dialer and the bridge of the same kind, made in one network from one URL and
-- with the same Network and Addr settings, get the same dialer from the network, and leave the same
-- network behind it, exactly if Addr is not empty or the URL names its port: the bridge does not
-- dial with the default port, as the dialer does.
pub Paired-addr :
    {D : Type 0} (std : Std) (canonical : String → String) (linux secure : Bool) (n : Network)
    (dopts : DialerConfig) (bopts : BridgeConfig) (u : Url) (found : D) (d : Dialer) (b : Bridge D)
    (m k : Network)
    → dopts.network ≡ bopts.network
    → dopts.addr ≡ bopts.addr
    → Paired std canonical linux secure n dopts bopts u found d b m k
    → ((b.closer ≡ raw_of d) × (m ≡ k))
      ↔ ((str_eq dopts.addr "" ≡ false) ⊎ (str_eq u.port "" ≡ false))
Paired-addr std canonical linux secure n dopts bopts u found d b m k net addr (https h g) =
    both-addr std canonical linux secure n dopts bopts u found d b m k net addr
      (http_dialer-DialsAt std canonical linux n dopts u secure d m h)
      (http_bridge-BridgesAt _ std linux n bopts u found secure b k g)
Paired-addr std canonical linux secure n dopts bopts u found d b m k net addr (websockets h g) =
    both-addr std canonical linux secure n dopts bopts u found d b m k net addr
      (websocket_dialer-DialsAt std canonical linux n dopts u secure d m h)
      (websocket_bridge-BridgesAt _ std linux n bopts u found secure b k g)

ping_timeout_same :
    (parse_duration : String → Option ℤ) (ping t t' : String)
    → str_eq t "" ≡ false
    → str_eq t' "" ≡ false
    → ping_timeout parse_duration ping t ≡ ping_timeout parse_duration ping t'
unfolding ping_timeout
ping_timeout_same parse_duration ping t t' h k = rw (h, k) refl

-- Two ping timeouts that are not empty make the same dialer and the same bridge.
ping_timeout_ignored {ℓ} :
    {D : Type ℓ} (std : Std) (canonical : String → String) (linux secure : Bool) (n : Network)
    (dopts : DialerConfig) (bopts : BridgeConfig) (u : Url) (found : D) (t t' : String)
    → str_eq t "" ≡ false
    → str_eq t' "" ≡ false
    → (new_http_dialer std canonical linux n (record dopts { ping_timeout = t }) u secure
        ≡ new_http_dialer std canonical linux n (record dopts { ping_timeout = t' }) u secure)
      × (new_http_bridge std linux n (record bopts { ping_timeout = t }) u found secure
          ≡ new_http_bridge std linux n (record bopts { ping_timeout = t' }) u found secure)
unfolding new_http_dialer new_http_bridge
ping_timeout_ignored std canonical linux secure n dopts bopts u found t t' h k = (
  (elim (Option-cases (stream_method std.to_upper dopts.method)) [
    | inl e ↦ rw (e, new_http_dialer) refl
    | inr (m, e) ↦
        rw (e, new_http_dialer, ping_timeout_same std.parse_duration dopts.ping t t' h k) refl
  ]),
  (elim (Option-cases (stream_method std.to_upper bopts.method)) [
    | inl e ↦ rw (e, new_http_bridge) refl
    | inr (m, e) ↦
        rw (e, new_http_bridge, ping_timeout_same std.parse_duration bopts.ping t t' h k) refl
  ]),
)
