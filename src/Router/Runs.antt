-- ===== src/Router/Runs.antt =====
-- A configuration with one router of each kind, and the theorems at it.
use streamf.Common.{
  or_else, ℕ, ℤ, pos, ◌≤◌, ◌≡◌, refl, ◌↔◌, List, [], ◌∷◌, ◌++◌, Option, none, some, Bool, true,
  false, String, str_eq, arith, if◌then◌else◌, bytes_eq,
}
use streamf.Sniff.Encode.{encode}
use streamf.Sniff.Runs.{small, small-IsWellFormed}
use streamf.Capture.{Capture, captured}
use streamf.Capture.Sniffed.{sniff-encode}
use streamf.Capture.Runs.{used}
use streamf.Router.{
  Target, SniProxy, built, failed, RouterError, kind_of, add_kind, add_matchers, add_routers,
  optional_target, find_accuracy, order_match,
}
use streamf.Router.Listener.{
  Listener, new_listener, route, bridged, sniffed, serve, connect_to, after_sniff,
}
use streamf.Router.Rules.{first_rule, is_exact, is_affix, is_regexp}
use streamf.Router.Build.{rules_of}
use streamf.Router.Route.{new-route, order_match_iff}
use streamf.Router.Failure.{hits, new-failed}
use streamf.Router.Serving.{Chosen, serve-bridged, at_sniff, IsSniffed, ruled, serve-encode}

-- Two dialers; all durations read as seven nanoseconds; no expression compiles.
abbrev dialers : String → Option ℕ
dialers tag = if str_eq tag "one" then some 1 else if str_eq tag "two" then some 2 else none

abbrev durations : String → Option ℤ
durations s = if str_eq s "" then none else some (pos 7)

abbrev compile : List ℕ → Option (List ℕ → Bool)
compile s = none

abbrev opts : SniProxy
opts = record {
  timeout = "1s";
  default = record { tag = "two"; close = "" };
  fallback = record { tag = ""; close = "" };
  router =
      record {
        matcher =
            record { type = "prefix"; value = 97 ∷ [] }
            ∷ record { type = "equal"; value = 97 ∷ 46 ∷ 98 ∷ [] }
            ∷ [];
        dialer = record { tag = "one"; close = "7ns" };
      }
      ∷ [];
}

abbrev one : Target ℕ
one = record { dialer = 1; duration = pos 7 }

abbrev listener : Listener ℕ
listener = record {
  timeout = pos 7;
  tables = record {
    accuracy = (97 ∷ 46 ∷ 98 ∷ [], one) ∷ [];
    order = record { target = one; value = 97 ∷ []; prefix = true } ∷ [];
    regexp = [];
  };
  def = some (record { dialer = 2; duration = pos 1000000000 });
  fallback = none;
}

new_run : new_listener dialers durations compile true opts ≡ built listener
unfolding new_listener optional_target add_routers add_matchers add_kind kind_of find_accuracy
    bytes_eq
new_run = refl

new-route_example :
    let rules = rules_of dialers durations compile opts.router in
    (route listener (98 ∷ [])
      ≡ or_else (first_rule is_exact rules (98 ∷ [])) (
          or_else
            (first_rule is_affix rules (98 ∷ []))
            (or_else (first_rule (is_regexp compile) rules (98 ∷ [])) listener.def)))
    × (optional_target dialers durations compile opts.default ≡ built listener.def)
new-route_example = new-route dialers durations compile true opts listener (98 ∷ []) new_run

-- The same name twice.
abbrev repeated : SniProxy
repeated = record opts {
  router =
      record {
        matcher =
            record { type = "equal"; value = 97 ∷ [] } ∷ record { type = ""; value = 97 ∷ [] } ∷ [];
        dialer = record { tag = "one"; close = "" };
      }
      ∷ [];
}

repeated_run :
    new_listener dialers durations compile true repeated
    ≡ failed (RouterError.router_repeat (97 ∷ [])) true
unfolding new_listener optional_target add_routers add_matchers add_kind kind_of find_accuracy
    bytes_eq
repeated_run = refl

new-failed_example :
    (true ≡ true) × (2 ≤ hits (97 ∷ []) (rules_of dialers durations compile repeated.router))
new-failed_example =
    new-failed dialers durations compile true repeated (RouterError.router_repeat (97 ∷ [])) true
      repeated_run

order_match_iff_example :
    (order_match (record { target = one; value = 97 ∷ []; prefix = false }) (98 ∷ 97 ∷ []) ≡ true)
    ↔ ((t : List ℕ) × (98 ∷ 97 ∷ [] ≡ t ++ (97 ∷ [])))
order_match_iff_example =
    order_match_iff (record { target = one; value = 97 ∷ []; prefix = false }) (98 ∷ 97 ∷ [])

route_small : route listener small.name ≡ some one
unfolding route find_accuracy bytes_eq
route_small = refl

serve-bridged_example :
    (name : List ℕ) × (c : Capture) × (sniffed small.name (captured (encode small) false none [])
      ≡ sniffed name c)
    × (encode small ≡ c.buf)
    × (true ≡ true)
    × Chosen listener name c one
serve-bridged_example =
    serve-bridged listener (λ d. true) (sniffed small.name (captured (encode small) false none []))
      (encode small) one (unfold serve after_sniff connect_to route find_accuracy bytes_eq in refl)

serve-encode_example :
    (def : Option (Target ℕ)) × (optional_target dialers durations compile opts.default ≡ built def)
    × ((serve listener
            (λ d. true)
            (sniffed small.name (captured (encode small) false none (9 ∷ [])))
          ≡ bridged (encode small) one)
        ↔ (IsSniffed (9 ∷ []) (sniffed small.name (captured (encode small) false none (9 ∷ [])))
            × (encode small ≡ encode small)
            × (ruled dialers durations compile opts def small.name ≡ some one)
            × (true ≡ true)))
serve-encode_example =
    serve-encode dialers durations compile opts listener (λ d. true)
      (sniffed small.name (captured (encode small) false none (9 ∷ []))) small used (9 ∷ [])
      (encode small) one new_run small-IsWellFormed (omega arith)
      (at_sniff small.name (captured (encode small) false none (9 ∷ []))
        (sniff-encode small used (9 ∷ []) small-IsWellFormed (omega arith)))
