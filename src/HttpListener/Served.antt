-- ===== src/HttpListener/Served.antt =====
-- listener/http.go: from a request to the router of the configuration that answers it.
use streamf.Common.{
  ℕ, suc, ◌≡◌, refl, sym, ap, ◌∙◌, subst, inl, inr, List, [], ◌∷◌, ◌++◌, Option, none, some, Bool,
  ◌&&◌, String, str_eq, if◌then◌else◌, or_else, or_else_assoc, or_else-none, get_elem?, ◌↔◌, true,
  All, arith, Bool-cases, Option-cases,
}
use streamf.HttpMux.{
  Method, method_get, method_head, method_post, method_put, method_patch, method_delete, serve_http,
  method_of,
}
use streamf.HttpMux.Latest.{Registration, latest, answer, same_method}
use streamf.Network.{Network}
use streamf.HttpListener.Access.{Request}
use streamf.HttpListener.{HttpHandler, HttpListener, World, serve}
use streamf.HttpListener.Build.{Std, RouterConfig, ApiHandler, built, kind_of, unsupported, new}
use streamf.HttpListener.Rules.{router_rules, rules}
use streamf.HttpListener.Routed.{new-answer}
use streamf.HttpListener.Guards.{granted, passes-Passes, Guarded}
use streamf.HttpListener.Credentials.{Passes}
use streamf.HttpListener.Guarded.{router_rules-Guarded}

module _ {ℓ} {H : Type ℓ} where
  latest-append :
      (rs ss : List (Registration H)) (m : Method) (p : String)
      → latest (rs ++ ss) m p ≡ or_else (latest ss m p) (latest rs m p)
  unfolding latest
  latest-append [] ss m p = sym (or_else-none (latest ss m p))
  latest-append (r ∷ rs) ss m p =
      let last = if str_eq r.pattern p && same_method r.method m then some r.handler else none in
      ap (λ x. or_else x last) (latest-append rs ss m p)
      ∙ or_else_assoc (latest ss m p) (latest rs m p) last

  latest-All {κ} :
      (P : H → Type κ) (rs : List (Registration H)) (m : Method) (p : String) (h : H)
      → All (λ r. P r.handler) rs
      → latest rs m p ≡ some h
      → P h
  unfolding latest
  latest-All P [] m p h a e = absurd (ground arith)
  latest-All P (r ∷ rs) m p h a e = elim (Option-cases (latest rs m p)) [
    | inr (k, f) ↦ let same : k ≡ h = ground arith in latest-All P rs m p h a.1 (f ∙ ap some same)
    | inl f ↦ elim (Bool-cases (str_eq r.pattern p && same_method r.method m)) [
      | inl g ↦ let same : r.handler ≡ h = ground arith in subst P same a.0
      | inr g ↦ absurd (ground arith)
    ]
  ]

  -- An answer is the last registration of some method.
  answer-latest :
      (rs : List (Registration H)) (method p : String) (h : H)
      → answer rs method p ≡ some h
      → (m : Method) × (latest rs m p ≡ some h)
  unfolding answer
  answer-latest rs method p h e = elim (Option-cases (method_of method)) [
    | inl f ↦ absurd (ground arith)
    | inr (method_head, f) ↦ elim (Option-cases (latest rs method_head p)) [
      | inl g ↦ (method_get, ground arith)
      | inr (k, g) ↦ (method_head, ground arith)
    ]
    | inr (method_get, f) ↦ (method_get, ground arith)
    | inr (method_post, f) ↦ (method_post, ground arith)
    | inr (method_put, f) ↦ (method_put, ground arith)
    | inr (method_patch, f) ↦ (method_patch, ground arith)
    | inr (method_delete, f) ↦ (method_delete, ground arith)
  ]

module _ {ℓ} {D : Type ℓ} (std : Std) (dialers : String → Option D) where
  -- A router that registers a handler has a method of the switch.
  router_rules-known :
      (items : List ApiHandler) (r : RouterConfig) (m : Method) (p : String) (h : HttpHandler D)
      → latest (router_rules std dialers items r) m p ≡ some h
      → ¬ (kind_of (std.to_upper r.method) ≡ unsupported)
  unfolding router_rules latest
  router_rules-known items r m p h e = λ k.
      let gone : latest (router_rules std dialers items r) m p ≡ none = rw (k, router_rules) refl in
      absurd (ground arith)

  -- The router of the configuration that a handler comes from.
  rules-Guarded :
      (items : List ApiHandler) (rs : List RouterConfig) (m : Method) (p : String)
      (h : HttpHandler D)
      → latest (rules std dialers items rs) m p ≡ some h
      → (i : ℕ) × (r : RouterConfig) × (get_elem? rs i ≡ some r)
        × (latest (router_rules std dialers items r) m p ≡ some h)
        × Guarded std dialers r h
  unfolding rules latest
  rules-Guarded items [] m p h e = absurd (ground arith)
  rules-Guarded items (r ∷ rs) m p h e =
      let split =
        latest-append (router_rules std dialers items r) (rules std dialers items rs) m p in
      elim (Option-cases (latest (rules std dialers items rs) m p)) [
        | inr (k, f) ↦
            let same : k ≡ h = ground arith in
            let (i, q, at, own, g) = rules-Guarded items rs m p h (f ∙ ap some same) in
            (suc i, q, at, own, g)
        | inl f ↦
            let here : latest (router_rules std dialers items r) m p ≡ some h = ground arith in
            (
              0,
              r,
              refl,
              here,
              latest-All (Guarded std dialers r) (router_rules std dialers items r) m p h
                  (router_rules-Guarded std dialers r items) here,
            )
      ]

  -- After a successful NewHttpListener, whatever handler serves a request was registered by a
  -- router of the configuration at the pattern that was picked, and the request is let through
  -- exactly if, where that router lists users, its user is listed and its password is that of the
  -- last entry of this user, and, unless the router is one of the API or of files, its
  -- Authorization or its access_token has the text Bearer and the encoded access of the router,
  -- where one is configured.
  pub new-granted :
      (pick : List String → String → Option String) (listens secure configures : Bool)
      (items : List ApiHandler) (rs : List RouterConfig) (text : String) (n n' : Network)
      (l : HttpListener D) (w : World D) (q : Request) (h : HttpHandler D)
      → new std dialers listens secure configures items rs text n ≡ built n' l
      → serve_http pick l.mux q.method q.path ≡ some h
      → (p : String) × (m : Method) × (i : ℕ) × (r : RouterConfig) × (pick l.mux.handled q.path
          ≡ some p)
        × (get_elem? rs i ≡ some r)
        × (latest (router_rules std dialers items r) m p ≡ some h)
        × ((granted (serve w q h) ≡ true) ↔ Passes std q r)
  unfolding serve_http Guarded
  new-granted pick listens secure configures items rs text n n' l w q h e served =
      elim (Option-cases (pick l.mux.handled q.path)) [
        | inl f ↦ absurd (ground arith)
        | inr (p, f) ↦
            let a =
              new-answer std dialers pick listens secure configures items rs text n n' l q.method
                q.path p e f in
            let (m, latest_h) =
              answer-latest (rules std dialers items rs) q.method p h (sym a ∙ served) in
            let (i, r, at, own, g) = rules-Guarded items rs m p h latest_h in
            let passing : (granted (serve w q h) ≡ true) ↔ Passes std q r =
              subst (λ x. (x ≡ true) ↔ Passes std q r) (sym (g w q))
                (passes-Passes std q r (router_rules-known items r m p h own)) in
            (p, m, i, r, f, at, own, passing)
      ]
