-- ===== src/HttpListener/Access.antt =====
-- listener/http.go: who may use a handler. Go's library is an argument: `base64` encodes an access
-- token, and a request carries what `BasicAuth`, its header and its query give.
use Prim.Native.String.{String, ◌++◌}
use streamf.Common.{
  List, [], ◌∷◌, Option, none, some, Bool, false, ◌||◌, str_eq, if◌then◌else◌, or_else,
}

pub record Request : Type 0 where
  pub method : String
  pub path : String
  -- The values of `Authorization` in the header, and of `access_token` in the query.
  pub authorization : List String
  pub access_token : List String
  -- The user and the password of `r.BasicAuth()`.
  pub basic : Option (String × String)

pub record BasicAuth : Type 0 where
  pub username : String
  pub password : String

-- `accessToken`, which is empty if no access is configured.
unfoldable pub token : (String → String) → String → String
token base64 access = if str_eq access "" then "" else "Bearer " ++ base64 access

unfoldable pub contains : List String → String → Bool
contains [] s = false
contains (t ∷ ts) s = str_eq t s || contains ts s

-- `HttpListener.access`
unfoldable pub access : Request → String → Bool
unfolding contains
access r access_token =
    contains r.authorization access_token || contains r.access_token access_token

-- `accessToken != "" && !l.access(r, accessToken)`, negated.
unfoldable pub may_access : Request → String → Bool
unfolding access
may_access r access_token = str_eq access_token "" || access r access_token

-- `keys[username]`, where the last of equal names wins.
unfoldable pub password_of : List BasicAuth → String → Option String
password_of [] name = none
password_of (a ∷ auths) name =
    or_else (password_of auths name) (if str_eq a.username name then some a.password else none)

-- The test of the handler that `basicAuth` returns.
unfoldable pub authorized : Request → List BasicAuth → Bool
unfolding password_of
authorized r auths = elim r.basic [
  | none ↦ false
  | some (username, password) ↦ elim (password_of auths username) [
    | none ↦ false
    | some value ↦ str_eq value password
  ]
]
