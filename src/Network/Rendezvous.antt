-- ===== src/Network/Rendezvous.antt =====
-- internal/network/network.go: one map of listeners with the list of the dialers that wait for
-- theirs. `pipe` with `pipeList` is one, `portal` with `portalList` another.
use streamf.Common.{ℕ, List, [], ◌∷◌, ◌++◌, Option, none, some, String, str_eq, if◌then◌else◌}

-- A dialer with its `done` channel open.
pub record Waiting : Type 0 where
  pub id : ℕ
  pub addr : String

-- A `close(d.done)`, behind the assignment of the listener.
pub record Resolved : Type 0 where
  pub dialer : Waiting
  pub listener : ℕ

pub record Registry : Type 0 where
  pub bound : List (String × ℕ)
  pub waiting : List Waiting
  pub resolved : List Resolved

unfoldable pub empty : Registry
empty = record { bound = []; waiting = []; resolved = [] }

unfoldable pub lookup : List (String × ℕ) → String → Option ℕ
lookup [] address = none
lookup (e ∷ es) address = if str_eq e.0 address then some e.1 else lookup es address

-- The loop over the list: what it keeps and what it closes.
unfoldable pub sweep : String → ℕ → List Waiting → List Waiting × List Resolved
sweep address l [] = ([], [])
sweep address l (d ∷ ds) =
    let rest = sweep address l ds in
    if str_eq d.addr address
    then (rest.0, record { dialer = d; listener = l } ∷ rest.1)
    else (d ∷ rest.0, rest.1)

-- A new listener: none where the address is taken.
unfoldable pub bind : Registry → String → ℕ → Option Registry
bind r address l = elim (lookup r.bound address) [
  | some taken ↦ none
  | none ↦
      let swept = sweep address l r.waiting in
      some (record {
        bound = (address, l) ∷ r.bound;
        waiting = swept.0;
        resolved = r.resolved ++ swept.1;
      })
]

-- A new dialer.
unfoldable pub wait : Registry → String → ℕ → Registry
wait r address id = record r { waiting = r.waiting ++ (record { id = id; addr = address } ∷ []) }
