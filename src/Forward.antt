-- ===== src/Forward.antt =====
-- internal/udp/udp.go: the UDP forwarder. Every client of `Serve` has a socket of its own to the
-- target, in a map by the client's address; goroutines close those sockets at any time.

pub mod Settings
pub mod Sockets
pub mod Served
pub mod Stale
pub mod Idle
pub mod Runs
use streamf.Common.{
  ℕ, suc, List, [], ◌∷◌, Option, none, some, Bool, true, false, ◌&&◌, ◌==◌, String, str_eq,
  if◌then◌else◌,
}

-- `remoteConn`: its identity and the address of its client.
pub record RemoteConn : Type 0 where
  pub id : ℕ
  pub key : String

-- `live` are the sockets that nobody closed. `pending` is the socket that `Serve` made and did not
-- put into the map yet.
pub record Udp : Type 0 where
  pub keys : List (String × ℕ)
  pub live : List RemoteConn
  pub pending : Option RemoteConn
  pub next : ℕ

unfoldable pub lookup : List (String × ℕ) → String → Option ℕ
lookup [] key = none
lookup (e ∷ es) key = if str_eq e.0 key then some e.1 else lookup es key

unfoldable pub delete : List (String × ℕ) → String → List (String × ℕ)
delete [] key = []
delete (e ∷ es) key = if str_eq e.0 key then delete es key else e ∷ delete es key

unfoldable pub find : ℕ → List RemoteConn → Option RemoteConn
find i [] = none
find i (c ∷ cs) = if c.id == i then some c else find i cs

unfoldable pub remove : ℕ → List RemoteConn → List RemoteConn
remove i [] = []
remove i (c ∷ cs) = if c.id == i then remove i cs else c ∷ remove i cs

unfoldable pub is_entry : Option ℕ → ℕ → Bool
is_entry none i = false
is_entry (some j) i = j == i

-- `remoteConn.Close`, as one step: what was closed before stays as it is.
unfoldable pub close : Udp → ℕ → Udp
close u i = elim (find i u.live) [
  | none ↦ u
  | some c ↦ record u {
    live = remove i u.live;
    keys = if is_entry (lookup u.keys c.key) i then delete u.keys c.key else u.keys;
  }
]

-- What the network answers to `Serve`.
pub record Answers : Type 0 where
  pub resolves : Bool
  pub dials : Bool
  pub writes : Bool

-- `newRemoteConn`, behind a first datagram that was written.
unfoldable pub new_remote_conn : Udp → String → Udp
new_remote_conn u key =
    let c : RemoteConn = record { id = u.next; key = key } in
    record u { live = c ∷ u.live; pending = some c; next = suc u.next }

-- `c.Write`: a closed socket takes nothing.
unfoldable pub write : Udp → ℕ → Bool → Bool × Udp
write u i writes = elim (find i u.live) [
  | none ↦ (false, close u i)
  | some c ↦ if writes then (true, u) else (false, close u i)
]

-- A datagram that `Serve` reads, up to the map: whether it was sent on, and the state behind it.
unfoldable pub serve : Udp → String → Answers → Bool × Udp
serve u key a = elim (lookup u.keys key) [
  | some i ↦ write u i a.writes
  | none ↦ if a.resolves && (a.dials && a.writes) then (true, new_remote_conn u key) else (false, u)
]

-- `u.keys[key] = c`
unfoldable pub insert : Udp → Udp
insert u = elim u.pending [
  | none ↦ u
  | some c ↦ record u { keys = (c.key, c.id) ∷ u.keys; pending = none }
]

-- What happens next. `Serve` reads no datagram while a socket is pending.
pub data Event : Type 0 where
  read : String → Answers → Event
  inserted : Event
  closing : ℕ → Event

unfoldable pub step : Udp → Event → Udp
step u (read key a) = elim u.pending [ none ↦ (serve u key a).1 | some c ↦ u ]
step u inserted = insert u
step u (closing i) = close u i

unfoldable pub run : Udp → List Event → Udp
run u [] = u
run u (e ∷ es) = run (step u e) es

-- `make(map[string]*remoteConn)`
unfoldable pub no_clients : Udp
no_clients = record { keys = []; live = []; pending = none; next = 0 }
