-- ===== src/Bridge/Closing.antt =====
-- bridge/: what the network keeps behind `New`, and `Close`.
use streamf.Common.{◌≡◌, inl, inr, Option, Bool, true, false, String, str_eq, Option-cases}
use streamf.Network.{Network, Opened}
use streamf.Network as Network
use streamf.HttpListener.Build.{Std}
use streamf.Dialer.Options.{Url, stream_method}
use streamf.Dialer.Build.{Result}
use streamf.Dialer.Kept.{Kept, with_dialer-Kept, if-Kept}
use streamf.Bridge.{
  BridgeConfig, BridgeError, Bridge, new_basic_bridge, new_http_bridge, new_websocket_bridge,
  new_socks_bridge, find_dialer, new,
}

module _ {ℓ} {D : Type ℓ} (P : Network → Type 0) (std : Std) (linux : Bool) (n : Network)
    (keeps : (network a : String) (o : Opened) (m : Network)
      → Network.dialer linux n network a ≡ Network.ok o m
      → P m)
    (held : P n) where
  module _ (opts : BridgeConfig) (u : Url) (d : D) (secure : Bool) where
    new_basic_bridge-Kept : Kept P (new_basic_bridge std linux n opts u d secure)
    unfolding new_basic_bridge
    new_basic_bridge-Kept = with_dialer-Kept P _ _ _ (keeps _ _)

    new_websocket_bridge-Kept : Kept P (new_websocket_bridge std linux n opts u d secure)
    unfolding new_websocket_bridge
    new_websocket_bridge-Kept = with_dialer-Kept P _ _ _ (keeps _ _)

    new_http_bridge-Kept : Kept P (new_http_bridge std linux n opts u d secure)
    unfolding new_http_bridge
    new_http_bridge-Kept = elim (Option-cases (stream_method std.to_upper opts.method)) [
      | inl e ↦ rw (e, Kept) tt
      | inr (m, e) ↦ rw (e, Kept) (with_dialer-Kept P _ _ _ (keeps _ _))
    ]

  new_socks_bridge-Kept :
      (opts : BridgeConfig) (u : Url) (d : D) (socks5 : String → String → Bool)
      → Kept P (new_socks_bridge std linux n opts u d socks5)
  unfolding new_socks_bridge
  new_socks_bridge-Kept opts u d socks5 = if-Kept P (socks5 _ _) _ _ held tt

  find_dialer-Kept :
      (dialers : String → Option D) (opts : BridgeConfig) (make : D → Result BridgeError (Bridge D))
      → ((d : D) → Kept P (make d))
      → Kept P (find_dialer dialers opts make)
  unfolding find_dialer
  find_dialer-Kept dialers opts make h = elim (Option-cases (dialers opts.dialer.tag)) [
    | inl e ↦ rw (e, Kept) tt
    | inr (d, e) ↦ rw (e, Kept) (h d)
  ]

  pub new-Kept :
      (parse_uri : String → Option Url) (socks5 : String → String → Bool)
      (dialers : String → Option D) (opts : BridgeConfig)
      → Kept P (new std parse_uri socks5 linux dialers n opts)
  unfolding new
  new-Kept parse_uri socks5 dialers opts = elim (Option-cases (parse_uri opts.url)) [
    | inl e ↦ rw (e, Kept) tt
    | inr (u, e) ↦
        rw (e, Kept)
          (if-Kept P (str_eq u.scheme "socks") _ _
            (find_dialer-Kept dialers opts _ (λ d. new_socks_bridge-Kept opts u d socks5))
            (if-Kept P (str_eq u.scheme "http") _ _
              (find_dialer-Kept dialers opts _ (λ d. new_http_bridge-Kept opts u d false))
              (if-Kept P (str_eq u.scheme "https") _ _
                (find_dialer-Kept dialers opts _ (λ d. new_http_bridge-Kept opts u d true))
                (if-Kept P (str_eq u.scheme "ws") _ _
                  (find_dialer-Kept dialers opts _ (λ d. new_websocket_bridge-Kept opts u d false))
                  (if-Kept P (str_eq u.scheme "wss") _ _
                    (find_dialer-Kept dialers opts _ (λ d. new_websocket_bridge-Kept opts u d true))
                    (if-Kept P (str_eq u.scheme "basic") _ _
                      (find_dialer-Kept dialers opts _ (λ d. new_basic_bridge-Kept opts u d false))
                      (if-Kept P (str_eq u.scheme "basic+tls") _ _
                        (find_dialer-Kept dialers opts _ (λ d. new_basic_bridge-Kept opts u d true))
                        tt)))))))
  ]
