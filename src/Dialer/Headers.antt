-- ===== src/Dialer/Headers.antt =====
-- dialer/http.go and dialer/websocket.go: the header that a dialer sends, and whether a listener of
-- listener/http.go lets its requests through. A header is its keys and values, in their order.
use Prim.Native.String.{String, [] as empty, ◌∷◌ as push, ◌++◌ as concat}
use Prim.Native.String.append
use Prim.Native.Char.{Char}
use streamf.Common.{
  ◌≡◌, ◌≢◌, refl, sym, ap, ◌∙◌, ◌↔◌, ◌⊎◌, inl, inr, List, [], ◌∷◌, ◌++◌, Bool, true, false, ◌||◌,
  str_eq, eq_iff, if◌then◌else◌, arith, Bool-cases,
}
use streamf.HttpListener.Access.{Request, token, contains, access, may_access}

-- `header.Add(k, v)` for the values of a key; `canonical` is that of net/http.
unfoldable pub add_values : (String → String) → String → List String → List (String × String)
add_values canonical k [] = []
add_values canonical k (v ∷ vs) = (canonical k, v) ∷ add_values canonical k vs

-- The loop over `opts.Header`.
unfoldable pub add_headers :
    (String → String) → List (String × List String) → List (String × String)
unfolding add_values
add_headers canonical [] = []
add_headers canonical ((k, vs) ∷ rest) = add_values canonical k vs ++ add_headers canonical rest

-- `header.Set(k, v)`, where `k` is canonical.
unfoldable pub set_header : String → String → List (String × String) → List (String × String)
set_header key value [] = (key, value) ∷ []
set_header key value ((k, v) ∷ rest) =
    let rest' = set_header key value rest in if str_eq k key then rest' else (k, v) ∷ rest'

-- The header of a dialer; `http.Header{}` and a `nil` one are both empty.
unfoldable pub dialer_header :
    (String → String)
    → (String → String)
    → List (String × List String)
    → String
    → List (String × String)
unfolding add_headers set_header
dialer_header canonical base64 headers access =
    let header = add_headers canonical headers in
    if str_eq access ""
    then header
    else set_header "Authorization" (concat "Bearer " (base64 access)) header

-- The values of a key, as the listener reads them.
unfoldable pub values : String → List (String × String) → List String
values key [] = []
values key ((k, v) ∷ rest) =
    let rest' = values key rest in if str_eq k key then v ∷ rest' else rest'

values-set_header :
    (key value : String) (header : List (String × String))
    → values key (set_header key value header) ≡ value ∷ []
unfolding values set_header
values-set_header key value [] = let r = (eq_iff key key).1 refl in rw r refl
values-set_header key value ((k, v) ∷ rest) = elim (Bool-cases (str_eq k key)) [
  | inl f ↦ rw f (values-set_header key value rest)
  | inr f ↦ rw (f, values, f) (values-set_header key value rest)
]

tail : String → String
tail empty = empty
tail (push c s) = s

concat-push : (c : Char) (s x : String) → concat (push c s) x ≡ push c (concat s x)
concat-push c s x = λ i. append.cons c s x i

concat-empty : (x : String) → concat empty x ≡ x
concat-empty x = λ i. append.nil x i

concat-injective : (s x y : String) → concat s x ≡ concat s y → x ≡ y
unfolding tail
concat-injective empty x y h = sym (concat-empty x) ∙ (h ∙ concat-empty y)
concat-injective (push c s) x y h =
    concat-injective s x y (ap tail (sym (concat-push c s x) ∙ (h ∙ concat-push c s y)))

pub concat-same : (s x : String) → concat s x ≡ s → x ≡ ""
unfolding tail
concat-same empty x h = sym (concat-empty x) ∙ h
concat-same (push c s) x h = concat-same s x (ap tail (sym (concat-push c s x) ∙ h))

is_pushed : String → Bool
is_pushed empty = false
is_pushed (push c s) = true

pub bearer_filled : (x : String) → concat "Bearer " x ≢ ""
unfolding is_pushed
bearer_filled x h = let w = ap is_pushed (sym (concat-push "B" "earer " x) ∙ h) in cc

pub str_ne : (s t : String) → s ≢ t → str_eq s t ≡ false
str_ne s t h = elim (Bool-cases (str_eq s t)) [ inl f ↦ absurd (h ((eq_iff s t).0 f)) | inr f ↦ f ]

values-dialer_header :
    (canonical base64 : String → String) (headers : List (String × List String)) (a : String)
    → a ≢ ""
    → values "Authorization" (dialer_header canonical base64 headers a)
      ≡ concat "Bearer " (base64 a) ∷ []
unfolding dialer_header
values-dialer_header canonical base64 headers a h = elim (Bool-cases (str_eq a "")) [
  | inl f ↦ absurd (h ((eq_iff a "").0 f))
  | inr f ↦ rw f (
      values-set_header "Authorization" (concat "Bearer " (base64 a))
        (add_headers canonical headers))
]

may_access-single :
    (r : Request) (t u : String)
    → r.authorization ≡ t ∷ []
    → r.access_token ≡ []
    → may_access r u ≡ (str_eq u "" || str_eq t u)
unfolding may_access access contains
may_access-single r t u h k = rw (h, k) (ground arith)

-- Where base64 gives different texts for different ones, a request that carries the Authorization
-- header of an HTTP or websocket dialer with an access, whatever else its configured header has,
-- and no access_token in its query, passes the test of a router exactly if the router has no access
-- or the same one.
pub may_access-dialer_header :
    (canonical base64 : String → String)
    → ((x y : String) → base64 x ≡ base64 y → x ≡ y)
    → (headers : List (String × List String)) (a b : String) (r : Request) → a ≢ ""
    → r.authorization ≡ values "Authorization" (dialer_header canonical base64 headers a)
    → r.access_token ≡ []
    → (may_access r (token base64 b) ≡ true) ↔ ((b ≡ "") ⊎ (a ≡ b))
unfolding token
may_access-dialer_header canonical base64 injective headers a b r h k l =
    let sent = concat "Bearer " (base64 a) in
    let e : may_access r (token base64 b)
        ≡ (str_eq (token base64 b) "" || str_eq sent (token base64 b)) =
      may_access-single r sent (token base64 b)
        (k ∙ values-dialer_header canonical base64 headers a h) l in
    let filled = concat "Bearer " (base64 b) in
    elim (Bool-cases (str_eq b "")) [
      | inl f ↦
          let none_set : token base64 b ≡ "" = rw f refl in
          (λ g. inl ((eq_iff b "").0 f), λ g. e ∙ ap (λ t. str_eq t "" || str_eq sent t) none_set)
      | inr f ↦
          let set : token base64 b ≡ filled = rw f refl in
          let e' = e ∙ ap (λ t. str_eq t "" || str_eq sent t) set in
          let z : str_eq filled "" ≡ false = str_ne filled "" (bearer_filled (base64 b)) in
          (
            λ g.
                let same : str_eq sent filled ≡ true = ground (arith, e', z) in
                inr (
                  injective a b (
                    concat-injective "Bearer " (base64 a) (base64 b)
                      ((eq_iff sent filled).0 same))),
            λ g. elim g [
              | inl q ↦ absurd (let w = (eq_iff b "").1 q in cc)
              | inr q ↦
                  let same : str_eq sent filled ≡ true =
                    (eq_iff sent filled).1 (ap (λ x. concat "Bearer " (base64 x)) q) in
                  ground (arith, e', same)
            ],
          )
    ]
