-- ===== src/HttpListener/Timeouts.antt =====
-- listener/http.go: the idle timeout of the server.
use streamf.Common.{
  Bool, ◌≡◌, ap, ◌∙◌, inl, inr, ℤ, ltz, List, Option, some, false, String, str_eq, arith,
  Bool-cases,
}
use streamf.Network.{Network}
use streamf.HttpListener.{HttpListener, opened}
use streamf.HttpListener.Build.{
  Std, RouterConfig, ApiHandler, built, idle, add_routers, configure, new,
}
use streamf.HttpListener.Routed.{Built-cases}

module _ {ℓ} {D : Type ℓ} (std : Std) (dialers : String → Option D) where
  idle-ge : (text : String) → ltz (idle std dialers text) 1000000000 ≡ false
  unfolding idle
  idle-ge text = ground arith

  idle-parsed :
      (text : String) (z : ℤ)
      → str_eq text "" ≡ false
      → std.parse_duration text ≡ some z
      → ltz z 1000000000 ≡ false
      → idle std dialers text ≡ z
  unfolding idle
  idle-parsed text z a b c = ground arith

  -- The idle timeout of a listener that NewHttpListener makes is `idle` of the configuration, and a
  -- second at least.
  new-idle_timeout :
      (listens secure configures : Bool) (items : List ApiHandler) (rs : List RouterConfig)
      (text : String) (n n' : Network) (l : HttpListener D)
      → new std dialers listens secure configures items rs text n ≡ built n' l
      → (ltz l.idle_timeout 1000000000 ≡ false) × (l.idle_timeout ≡ idle std dialers text)
  unfolding new configure
  new-idle_timeout listens secure configures items rs text n n' l e =
      let ge = idle-ge text in
      elim (Bool-cases listens) [
        | inr f ↦ absurd (ground arith)
        | inl f ↦ elim (Built-cases (add_routers std dialers items rs n opened)) [
          | inr (x, m, k, g) ↦ absurd (ground arith)
          | inl (m, k, g) ↦
              let same : l.idle_timeout ≡ idle std dialers text = ground arith in
              (ap (λ z. ltz z 1000000000) same ∙ ge, same)
        ]
      ]
