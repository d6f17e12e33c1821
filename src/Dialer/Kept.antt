-- ===== src/Dialer/Kept.antt =====
-- dialer/: what the network keeps behind `New`.
use streamf.Common.{
  ◌≡◌, refl, inl, inr, Option, Bool, true, false, ◌||◌, String, str_eq, if◌then◌else◌, Option-cases,
}
use streamf.Network.{Network, NetworkError, Opened}
use streamf.Network as Network
use streamf.HttpListener.Build.{Std}
use streamf.Dialer.Options.{Url, stream_method}
use streamf.Dialer.Build.{
  DialerConfig, Result, ok, error, with_dialer, new_basic_dialer, new_http_dialer,
  new_websocket_dialer, new_udp_dialer, new_socks_dialer, new,
}

-- A predicate of the network behind a constructor that succeeds.
abbrev pub Kept {ℓ κ} : {E : Type ℓ} {A : Type κ} → (Network → Type 0) → Result E A → Type 0
Kept P (ok a n) = P n
Kept P (error e) = Unit {0}

module _ {ℓ κ} {E : Type ℓ} {A : Type κ} (P : Network → Type 0) where
  pub with_dialer-Kept :
      (fail : NetworkError → E) (make : Opened → A) (r : Network.Reply Opened)
      → ((o : Opened) (m : Network) → r ≡ Network.ok o m → P m)
      → Kept P (with_dialer fail make r)
  unfolding with_dialer
  with_dialer-Kept fail make (Network.ok o n) h = h o n refl
  with_dialer-Kept fail make (Network.error e) h = tt

  pub if-Kept : (b : Bool) (x y : Result E A) → Kept P x → Kept P y → Kept P (if b then x else y)
  if-Kept true x y h k = h
  if-Kept false x y h k = k

-- `keeps`: a dialer of the network keeps it.
module _ (P : Network → Type 0) (std : Std) (canonical : String → String) (linux : Bool)
    (n : Network)
    (keeps : (network a : String) (o : Opened) (m : Network)
      → Network.dialer linux n network a ≡ Network.ok o m
      → P m)
    (held : P n) where
  module _ (opts : DialerConfig) (u : Url) (secure : Bool) where
    new_basic_dialer-Kept : Kept P (new_basic_dialer std canonical linux n opts u secure)
    unfolding new_basic_dialer
    new_basic_dialer-Kept = with_dialer-Kept P _ _ _ (keeps _ _)

    new_websocket_dialer-Kept : Kept P (new_websocket_dialer std canonical linux n opts u secure)
    unfolding new_websocket_dialer
    new_websocket_dialer-Kept = with_dialer-Kept P _ _ _ (keeps _ _)

    new_http_dialer-Kept : Kept P (new_http_dialer std canonical linux n opts u secure)
    unfolding new_http_dialer
    new_http_dialer-Kept = elim (Option-cases (stream_method std.to_upper opts.method)) [
      | inl e ↦ rw (e, Kept) tt
      | inr (m, e) ↦ rw (e, Kept) (with_dialer-Kept P _ _ _ (keeps _ _))
    ]

  new_udp_dialer-Kept :
      (opts : DialerConfig) (u : Url) → Kept P (new_udp_dialer std canonical linux n opts u)
  unfolding new_udp_dialer
  new_udp_dialer-Kept opts u = held

  new_socks_dialer-Kept :
      (opts : DialerConfig) (u : Url) (socks5 : String → String → Bool)
      → Kept P (new_socks_dialer std canonical linux n opts u socks5)
  unfolding new_socks_dialer
  new_socks_dialer-Kept opts u socks5 = if-Kept P (socks5 _ _) _ _ held tt

  pub new-Kept :
      (parse_uri : String → Option Url) (socks5 : String → String → Bool) (opts : DialerConfig)
      → Kept P (new std canonical parse_uri socks5 linux n opts)
  unfolding new
  new-Kept parse_uri socks5 opts = elim (Option-cases (parse_uri opts.url)) [
    | inl e ↦ rw e (if-Kept P (str_eq opts.tag "") _ _ tt tt)
    | inr (u, e) ↦ rw e (
        if-Kept P (str_eq opts.tag "") _ _ tt (
          if-Kept P (str_eq u.scheme "socks") _ _ (new_socks_dialer-Kept opts u socks5) (
            if-Kept P (str_eq u.scheme "ws") _ _ (new_websocket_dialer-Kept opts u false) (
              if-Kept P (str_eq u.scheme "wss") _ _ (new_websocket_dialer-Kept opts u true) (
                if-Kept P (str_eq u.scheme "http") _ _ (new_http_dialer-Kept opts u false) (
                  if-Kept P (str_eq u.scheme "https") _ _ (new_http_dialer-Kept opts u true) (
                    if-Kept P (str_eq u.scheme "basic") _ _
                      (if-Kept P
                        (str_eq opts.network "udp"
                          || (str_eq opts.network "udp4" || str_eq opts.network "udp6"))
                        _ _ (new_udp_dialer-Kept opts u) (new_basic_dialer-Kept opts u false))
                      (if-Kept P (str_eq u.scheme "basic+tls") _ _
                        (new_basic_dialer-Kept opts u true) tt))))))))
  ]
