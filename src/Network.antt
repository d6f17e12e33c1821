-- ===== src/Network.antt =====
-- internal/network/network.go: the listeners and the dialers that find each other by an address,
-- without a socket between them: the pipes and the portals.
pub mod Rendezvous
pub mod Sound
pub mod Binding
pub mod Reached
pub mod Late
pub mod Placed
pub mod Timely
pub mod Runs
use streamf.Common.{
  ℕ, zero, suc, ℤ, List, [], ◌∷◌, ◌++◌, Option, none, some, Bool, true, false, ◌||◌, String, str_eq,
  inl, inr, ◌⊎◌, ◌*◌, pos, if◌then◌else◌,
}
use streamf.Network.Rendezvous.{Waiting, Resolved, Registry, empty, wait, bind}

pub record Network : Type 0 where
  pub pipe : Registry
  pub portal : Registry
  -- Listeners and dialers are pointers: numbers that nothing else has.
  pub next : ℕ

unfoldable pub new : Network
new = record { pipe = empty; portal = empty; next = 0 }

pub data NetworkError : Type 0 where
  in_use : NetworkError
  portal_exists : NetworkError
  unsupported : NetworkError
  -- `ErrNetworkUnix`
  not_unix : NetworkError
  listen_failed : ℕ → NetworkError

pub data Opened : Type 0 where
  pipe_listener : ℕ → Opened
  socket : ℕ → Opened
  raw_dialer : String → String → Opened
  pipe_dialer : ℕ → Opened
  portal_dialer : ℕ → Opened

pub data Reply (A : Type 0) : Type 0 where
  ok : A → Network → Reply A
  error : NetworkError → Reply A

-- `listenPipe`
unfoldable pub listen_pipe : Network → String → Reply Opened
listen_pipe n address = elim (bind n.pipe address n.next) [
  | none ↦ error in_use
  | some r ↦ ok (pipe_listener n.next) (record n { pipe = r; next = suc n.next })
]

-- `Listen`; `net_listen` is Go's, with an error's number or a socket's.
unfoldable pub listen : (String → String → ℕ ⊎ ℕ) → Bool → Network → String → String → Reply Opened
listen net_listen linux n network address =
    let system : Reply Opened = elim (net_listen network address) [
      | inl e ↦ error (listen_failed e)
      | inr s ↦ ok (socket s) n
    ] in
    if str_eq network "tcp" || (str_eq network "tcp4" || str_eq network "tcp6")
    then system
    else if str_eq network "pipe"
    then listen_pipe n address
    else if str_eq network "unix"
    then (if linux then system else error not_unix)
    else error unsupported

-- `Dialer`
unfoldable pub dialer : Bool → Network → String → String → Reply Opened
dialer linux n network address =
    let raw : Reply Opened = ok (raw_dialer network address) n in
    if str_eq network "portal"
    then ok (portal_dialer n.next)
        (record n { portal = wait n.portal address n.next; next = suc n.next })
    else if str_eq network "pipe"
    then ok (pipe_dialer n.next) (record n { pipe = wait n.pipe address n.next; next = suc n.next })
    else if str_eq network "tcp" || (str_eq network "tcp4" || str_eq network "tcp6")
    then raw
    else if str_eq network "unix"
    then (if linux then raw else error not_unix)
    else error unsupported

-- `config.Portal`
pub record PortalConfig : Type 0 where
  pub tag : String
  pub timeout : String
  pub heart : String
  pub heart_timeout : String

-- What `reverse.NewDialer` is called with, in nanoseconds.
pub record DialerOptions : Type 0 where
  pub syn_ack : Bool
  pub timeout : ℤ
  pub heart : ℤ

unfoldable pub duration_or : (String → Option ℤ) → ℤ → String → ℤ
duration_or parse_duration default text =
    if str_eq text "" then default else elim (parse_duration text) [ none ↦ default | some d ↦ d ]

-- `NewPortal`, with `time.ParseDuration` as an argument.
unfoldable pub new_portal : (String → Option ℤ) → Network → PortalConfig → Reply (ℕ × DialerOptions)
new_portal parse_duration n portal =
    let timeout = duration_or parse_duration (pos (1000000 * 500)) portal.timeout in
    let heart = duration_or parse_duration (pos (1000000000 * 40)) portal.heart in
    let opts : DialerOptions = record { syn_ack = true; timeout = timeout; heart = heart } in
    elim (bind n.portal portal.tag n.next) [
      | none ↦ error portal_exists
      | some r ↦ ok (n.next, opts) (record n { portal = r; next = suc n.next })
    ]
