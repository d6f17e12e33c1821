-- ===== src/HttpListener/Credentials.antt =====
-- listener/http.go: the credentials that let a request through, said without the code that looks for
-- them: of the users with one name the last counts, as of the assignments to `keys`.
use Prim.Native.String.{String, ◌++◌ as concat}
use streamf.Common.{
  ◌≡◌, ◌≢◌, refl, ap, ◌∙◌, ◌↔◌, inl, inr, ◌⊎◌, List, [], ◌∷◌, none, some, true, str_eq, eq_iff, All,
  arith, Bool-cases, Option-cases,
}
use streamf.HttpListener.Access.{
  Request, BasicAuth, token, contains, access, may_access, password_of, authorized,
}
use streamf.HttpListener.Build.{Std, RouterConfig}
use streamf.Dialer.Headers.{bearer_filled, str_ne}

-- None of these users has the name.
abbrev pub Unnamed : String → List BasicAuth → Type 0
Unnamed name auths = All (λ a. a.username ≢ name) auths

-- The last user of this name has this password.
pub data LastFor (name password : String) : List BasicAuth → Type 0 where
  here :
      (a : BasicAuth) (auths : List BasicAuth)
      → a.username ≡ name
      → a.password ≡ password
      → Unnamed name auths
      → LastFor name password (a ∷ auths)
  later :
      (a : BasicAuth) (auths : List BasicAuth)
      → LastFor name password auths
      → LastFor name password (a ∷ auths)

-- The text is one of these.
unfoldable pub IsAmong : String → List String → Type 0
IsAmong s [] = ⊥
IsAmong s (t ∷ ts) = (t ≡ s) ⊎ IsAmong s ts

-- The request gives the user and the password of an entry, where there are entries.
abbrev pub IsUser : Request → List BasicAuth → Type 0
IsUser q [] = Unit
IsUser q (a ∷ auths) =
    (name : String) × (password : String) × (q.basic ≡ some (name, password))
    × LastFor name password (a ∷ auths)

-- The request has the access token in its header or in its query, where one is configured.
abbrev pub HasAccess : (String → String) → Request → String → Type 0
HasAccess base64 q a =
    (a ≡ "")
    ⊎ (IsAmong (concat "Bearer " (base64 a)) q.authorization
        ⊎ IsAmong (concat "Bearer " (base64 a)) q.access_token)

password_of-none :
    (auths : List BasicAuth) (name : String) → (password_of auths name ≡ none) ↔ Unnamed name auths
unfolding password_of
password_of-none [] name = (λ h. tt, λ u. refl)
password_of-none (a ∷ auths) name =
    let (to, from) = password_of-none auths name in
    (
      λ h. elim (Option-cases (password_of auths name)) [
        | inr (v, f) ↦ absurd (ground arith)
        | inl f ↦ (λ e. let g = (eq_iff a.username name).1 e in absurd (ground arith), to f)
      ],
      λ (ne, u). let f = from u in let g = str_ne a.username name ne in ground arith,
    )

LastFor-password_of :
    (name password : String) (auths : List BasicAuth)
    → LastFor name password auths
    → password_of auths name ≡ some password
unfolding password_of
LastFor-password_of name password _ (LastFor.here a auths e f u) =
    let h = (password_of-none auths name).1 u in
    let g = (eq_iff a.username name).1 e in rw (h, g, f) refl
LastFor-password_of name password _ (LastFor.later a auths l) =
    rw (LastFor-password_of name password auths l) refl

password_of-LastFor :
    (auths : List BasicAuth) (name password : String)
    → password_of auths name ≡ some password
    → LastFor name password auths
unfolding password_of
password_of-LastFor [] name password h = absurd (ground arith)
password_of-LastFor (a ∷ auths) name password h = elim (Option-cases (password_of auths name)) [
  | inr (v, f) ↦
      let same : v ≡ password = ground arith in
      LastFor.later a auths (password_of-LastFor auths name password (f ∙ ap some same))
  | inl f ↦ elim (Bool-cases (str_eq a.username name)) [
    | inr g ↦ absurd (ground arith)
    | inl g ↦
        let same : a.password ≡ password = ground arith in
        LastFor.here a auths ((eq_iff a.username name).0 g) same ((password_of-none auths name).0 f)
  ]
]

-- What `basicAuth` lets through.
pub authorized-IsUser :
    (q : Request) (a : BasicAuth) (auths : List BasicAuth)
    → (authorized q (a ∷ auths) ≡ true) ↔ IsUser q (a ∷ auths)
unfolding authorized
authorized-IsUser q a auths = elim (Option-cases q.basic) [
  | inl e ↦ (λ h. absurd (ground arith), λ (name, password, f, l). absurd (ground arith))
  | inr ((name, password), e) ↦ (
    λ h. elim (Option-cases (password_of (a ∷ auths) name)) [
      | inl f ↦ absurd (ground arith)
      | inr (v, f) ↦
          let g : str_eq v password ≡ true = ground arith in
          (
            name,
            password,
            e,
            password_of-LastFor (a ∷ auths) name password (f ∙ ap some ((eq_iff v password).0 g)),
          )
    ],
    λ (name', password', f, l).
        let k = LastFor-password_of name' password' (a ∷ auths) l in
        let g = (eq_iff password' password').1 refl in rw (f, authorized) (rw k g),
  )
]

contains-IsAmong : (ts : List String) (s : String) → (contains ts s ≡ true) ↔ IsAmong s ts
unfolding contains IsAmong
contains-IsAmong [] s = (λ h. absurd (ground arith), λ h. absurd h)
contains-IsAmong (t ∷ ts) s =
    let (to, from) = contains-IsAmong ts s in
    (
      λ h. elim (Bool-cases (str_eq t s)) [
        | inl e ↦ inl ((eq_iff t s).0 e)
        | inr e ↦ inr (to (ground arith))
      ],
      λ h. elim h [
        | inl e ↦ let g = (eq_iff t s).1 e in ground arith
        | inr e ↦ let g = from e in ground arith
      ],
    )

-- What `access` lets through.
pub may_access-HasAccess :
    (base64 : String → String) (q : Request) (a : String)
    → (may_access q (token base64 a) ≡ true) ↔ HasAccess base64 q a
unfolding may_access access token
may_access-HasAccess base64 q a =
    let bearer = concat "Bearer " (base64 a) in
    let (header_to, header_from) = contains-IsAmong q.authorization bearer in
    let (query_to, query_from) = contains-IsAmong q.access_token bearer in
    elim (Bool-cases (str_eq a "")) [
      | inl e ↦ let none_set = (eq_iff a "").0 e in (λ h. inl none_set, λ h. rw e (ground arith))
      | inr e ↦
          let filled = str_ne bearer "" (bearer_filled (base64 a)) in
          rw e (
            λ h. elim (Bool-cases (contains q.authorization bearer)) [
              | inl f ↦ inr (inl (header_to f))
              | inr f ↦ inr (inr (query_to (ground arith)))
            ],
            λ h. elim h [
              | inl f ↦ absurd (let g = (eq_iff a "").1 f in ground arith)
              | inr (inl f) ↦ let g = header_from f in ground arith
              | inr (inr f) ↦ let g = query_from f in ground arith
            ],
          )
    ]

-- The request is one of a user of the router and, but for the API and the files, has its token.
abbrev pub Passes : Std → Request → RouterConfig → Type 0
Passes std q r =
    IsUser q r.auth
    × ((std.to_upper r.method ≡ "API")
        ⊎ ((std.to_upper r.method ≡ "FS") ⊎ HasAccess std.base64 q r.access))
