-- ===== src/HttpListener/Guards.antt =====
-- listener/http.go: a request gets past the credentials of the router that made its handler.
use streamf.Common.{
  ℤ, pos, ◌≡◌, refl, ◌∙◌, inl, inr, List, [], ◌∷◌, ◌++◌, Option, Bool, true, false, ◌&&◌, String,
  if◌then◌else◌, All, arith, Option-cases, ◌↔◌, ◌⊎◌, str_eq, eq_iff, Bool-cases,
}
use streamf.HttpMux.{Method}
use streamf.HttpMux.Latest.{Registration}
use streamf.Network.{duration_or}
use streamf.HttpListener.Credentials.{IsUser, Passes, authorized-IsUser, may_access-HasAccess}
use streamf.HttpListener.Access.{Request, BasicAuth, token, may_access, authorized}
use streamf.HttpListener.{
  HttpHandler, http2, http2_portal, websocket, websocket_portal, with_basic_auth, World, Offer,
  Carrier, Outcome, unauthorized, access_not_matched, connect_failed, upgrade_failed, bridged,
  handed, dropped, called, files, offered, serve,
}
use streamf.HttpListener.Build.{
  Std, RouterConfig, RouterKind, stream, ws, api, fs, unsupported, kind_of,
}
use streamf.HttpListener.Rules.{dialing_rules}

-- The request was not refused for want of credentials.
unfoldable pub granted {ℓ} : {D : Type ℓ} → Outcome D → Bool
granted unauthorized = false
granted access_not_matched = false
granted connect_failed = true
granted upgrade_failed = true
granted (bridged c d z) = true
granted (handed c t) = true
granted dropped = true
granted (called i) = true
granted (files p d) = true

unfoldable pub logged_in : Request → List BasicAuth → Bool
logged_in q [] = true
logged_in q (a ∷ auths) = authorized q (a ∷ auths)

-- Which routers look at the access token.
unfoldable pub is_tunnel : RouterKind → Bool
is_tunnel (stream m) = true
is_tunnel ws = true
is_tunnel api = false
is_tunnel fs = false
is_tunnel unsupported = false

unfoldable pub passes : Std → Request → RouterConfig → Bool
passes std q r =
    logged_in q r.auth
    && (if is_tunnel (kind_of (std.to_upper r.method))
        then may_access q (token std.base64 r.access)
        else true)

logged_in-IsUser :
    (q : Request) (auths : List BasicAuth) → (logged_in q auths ≡ true) ↔ IsUser q auths
unfolding logged_in
logged_in-IsUser q [] = (λ h. tt, λ u. refl)
logged_in-IsUser q (a ∷ auths) = authorized-IsUser q a auths

-- The methods of the routers that do not look at the token.
is_tunnel-false :
    (method : String)
    → is_tunnel (kind_of method) ≡ false
    → (method ≡ "API") ⊎ ((method ≡ "FS") ⊎ (kind_of method ≡ unsupported))
unfolding kind_of is_tunnel
is_tunnel-false method h = elim (Bool-cases (str_eq method "API")) [
  | inl e ↦ inl ((eq_iff method "API").0 e)
  | inr e ↦ elim (Bool-cases (str_eq method "FS")) [
    | inl f ↦ inr (inl ((eq_iff method "FS").0 f))
    | inr f ↦ inr (inr (ground arith))
  ]
]

api_open : (method : String) → method ≡ "API" → is_tunnel (kind_of method) ≡ false
unfolding kind_of is_tunnel
api_open method h = rw h refl

fs_open : (method : String) → method ≡ "FS" → is_tunnel (kind_of method) ≡ false
unfolding kind_of is_tunnel
fs_open method h = rw h refl

-- The tests of the code are what `Passes` says.
pub passes-Passes :
    (std : Std) (q : Request) (r : RouterConfig)
    → ¬ (kind_of (std.to_upper r.method) ≡ unsupported)
    → (passes std q r ≡ true) ↔ Passes std q r
unfolding passes
passes-Passes std q r known =
    let (user_to, user_from) = logged_in-IsUser q r.auth in
    let (access_to, access_from) = may_access-HasAccess std.base64 q r.access in
    (
      λ h.
          let user : logged_in q r.auth ≡ true = ground arith in
          (
            user_to user,
            elim (Bool-cases (is_tunnel (kind_of (std.to_upper r.method)))) [
              | inl e ↦ inr (inr (access_to (ground arith)))
              | inr e ↦ elim (is_tunnel-false (std.to_upper r.method) e) [
                | inl f ↦ inl f
                | inr (inl f) ↦ inr (inl f)
                | inr (inr f) ↦ absurd (known f)
              ]
            ],
          ),
      λ (user, token_or).
          let u = user_from user in
          elim token_or [
            | inl f ↦ let o = api_open (std.to_upper r.method) f in ground arith
            | inr (inl f) ↦ let o = fs_open (std.to_upper r.method) f in ground arith
            | inr (inr f) ↦ let g = access_from f in ground arith
          ],
    )

module _ {ℓ} (D : Type ℓ) where
  granted-offered : (o : Offer) (c : Carrier) (t : String) → granted {D = D} (offered o c t) ≡ true
  unfolding offered granted
  granted-offered o c t = ground arith

  -- The handlers of the routers that look at the token.
  unfoldable pub Tunnels : HttpHandler D → String → Type ℓ
  Tunnels h t = (w : World D) (q : Request) → granted (serve w q h) ≡ may_access q t

  pub http2-Tunnels : (t : String) (d : D) (z : ℤ) → Tunnels (http2 t d z) t
  unfolding Tunnels serve granted
  http2-Tunnels t d z w q = ground arith

  pub http2_portal-Tunnels : (t s : String) → Tunnels (http2_portal t s) t
  unfolding Tunnels serve granted
  http2_portal-Tunnels t s w q = let o = granted-offered w.offer Carrier.body s in ground arith

  pub websocket-Tunnels : (t : String) (f : Bool) (d : D) (z : ℤ) → Tunnels (websocket t f d z) t
  unfolding Tunnels serve granted
  websocket-Tunnels t f d z w q = ground arith

  pub websocket_portal-Tunnels :
      (t : String) (f : Bool) (s : String) → Tunnels (websocket_portal t f s) t
  unfolding Tunnels serve granted
  websocket_portal-Tunnels t f s w q =
      let o = granted-offered w.offer (if f then Carrier.raw else Carrier.messages) s in
      ground arith

module _ {ℓ} {D : Type ℓ} (std : Std) (dialers : String → Option D) where
  -- The handler asks for what the router asks for.
  unfoldable pub Guarded : RouterConfig → HttpHandler D → Type ℓ
  Guarded r h = (w : World D) (q : Request) → granted (serve w q h) ≡ passes std q r

  serve-with_basic_auth :
      (w : World D) (q : Request) (h : HttpHandler D) (auths : List BasicAuth)
      → granted (serve w q (with_basic_auth h auths)) ≡ (logged_in q auths && granted (serve w q h))
  unfolding serve with_basic_auth logged_in granted
  serve-with_basic_auth w q h [] = refl
  serve-with_basic_auth w q h (a ∷ auths) = ground arith

  -- A handler that checks the token, behind the users.
  pub Guarded-tunnel :
      (r : RouterConfig) (h : HttpHandler D)
      → is_tunnel (kind_of (std.to_upper r.method)) ≡ true
      → Tunnels D h (token std.base64 r.access)
      → Guarded r (with_basic_auth h r.auth)
  unfolding Guarded passes Tunnels
  Guarded-tunnel r h k t w q = serve-with_basic_auth w q h r.auth ∙ rw (k, t w q) refl

  -- A handler that is open to all, behind the users.
  pub Guarded-open :
      (r : RouterConfig) (h : HttpHandler D)
      → is_tunnel (kind_of (std.to_upper r.method)) ≡ false
      → ((w : World D) (q : Request) → granted (serve w q h) ≡ true)
      → Guarded r (with_basic_auth h r.auth)
  unfolding Guarded passes
  Guarded-open r h k t w q = serve-with_basic_auth w q h r.auth ∙ rw (k, t w q) refl

  abbrev pub AllGuarded : RouterConfig → List (Registration (HttpHandler D)) → Type ℓ
  AllGuarded r rs = All (λ g. Guarded r g.handler) rs

  pub AllGuarded-append :
      (r : RouterConfig) (rs ss : List (Registration (HttpHandler D)))
      → AllGuarded r rs
      → AllGuarded r ss
      → AllGuarded r (rs ++ ss)
  AllGuarded-append r [] ss h k = k
  AllGuarded-append r (g ∷ rs) ss h k = (h.0, AllGuarded-append r rs ss h.1 k)

  module _ (r : RouterConfig) where
    pub dialing_rules-Guarded :
        (h : D → ℤ → HttpHandler D) (m : Method)
        → is_tunnel (kind_of (std.to_upper r.method)) ≡ true
        → ((d : D) (z : ℤ) → Tunnels D (h d z) (token std.base64 r.access))
        → AllGuarded r (dialing_rules std dialers h m r)
    unfolding dialing_rules
    dialing_rules-Guarded h m k t = elim (Option-cases (dialers r.dialer.tag)) [
      | inl e ↦ rw (e, dialing_rules) tt
      | inr (d, e) ↦
          let z = duration_or std.parse_duration (pos 1000000000) r.dialer.close in
          rw (e, dialing_rules) (Guarded-tunnel r (h d z) k (t d z), tt)
    ]
