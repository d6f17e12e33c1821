-- ===== src/Dialer/Runs.antt =====
-- dialer/basic.go, dialer/http.go, dialer/websocket.go: `Connect`, as computed.
use streamf.Common.{
  ◌↔◌, String, none, ℕ, suc, ◌<◌, ◌≡◌, ◌≢◌, refl, ◌⊎◌, pos, [], ◌∷◌, some, true, false, arith,
}
use streamf.Dialer.{
  Dialed, ok, err, Attempt, basic_connect, http_connect, websocket_connect, holding, gone, waiting,
  err_context, Connect, Step, dial, expire, leave_context, drop,
}
use streamf.Dialer.Handoff.{Reaches, started, next}
use streamf.Dialer.Ended.{weight, Settled, Reaches-Settled, Reaches-progress}
use streamf.Dialer.Headers.{dialer_header, values, may_access-dialer_header}
use streamf.HttpListener.Access.{Request, token, may_access}
use streamf.Dialer.Retry.{EndsAt, connect-EndsAt}

abbrev refused : Attempt
refused = record { result = err 111; stopped = false }

abbrev answered : Attempt
answered = record { result = ok 5; stopped = false }

third_time : basic_connect (pos 3) (refused ∷ refused ∷ answered ∷ refused ∷ []) ≡ some (ok 5, 3)
unfolding basic_connect streamf.Dialer.connect_loop
third_time = refl

connect-EndsAt_example :
    (k : ℕ) × (a : Attempt) × (basic_connect (pos 1) (refused ∷ refused ∷ answered ∷ [])
      ≡ some (a.result, suc k))
    × (http_connect (pos 1) (refused ∷ refused ∷ answered ∷ []) ≡ some (a.result, suc k))
    × (websocket_connect (pos 1) (refused ∷ refused ∷ answered ∷ []) ≡ some (a.result, suc k))
    × EndsAt (pos 1) 0 (refused ∷ refused ∷ answered ∷ []) k a
connect-EndsAt_example = connect-EndsAt (pos 1) (refused ∷ refused ∷ answered ∷ []) (omega arith)

-- The context ends while the connection is being made.
abbrev late : Connect
late = record {
  worker = holding (ok 5);
  caller = err_context;
  done = false;
  ctx_done = true;
  closed = [];
}

abbrev settled : Connect
settled = record late { worker = gone; closed = 5 ∷ [] }

late-Reaches : Reaches true (ok 5) late
late-Reaches = next _ _ (next _ _ (next _ _ started expire) (leave_context refl refl)) (dial refl)

settled-Reaches : Reaches true (ok 5) settled
settled-Reaches = next late settled late-Reaches (drop refl refl)

Reaches-Settled_example : Settled (ok 5) err_context (5 ∷ [])
Reaches-Settled_example = Reaches-Settled true (ok 5) settled settled-Reaches refl (λ h. cc)

Reaches-progress_example :
    ((late.worker ≡ gone) × (late.caller ≢ waiting))
    ⊎ ((t : Connect) × Step true (ok 5) late t × (weight t < weight late))
Reaches-progress_example = Reaches-progress true (ok 5) late late-Reaches

abbrev key : String
key = "key"

-- A request of a dialer with an access, and one of its own in the configured header.
abbrev sent : Request
sent = record {
  method = "POST";
  path = "/a";
  authorization =
      values "Authorization" (
        dialer_header (λ k. k) (λ x. x) (("Authorization", "x" ∷ []) ∷ ("Host", "h" ∷ []) ∷ [])
          key);
  access_token = [];
  basic = none;
}

may_access-dialer_header_example :
    (may_access sent (token (λ x. x) key) ≡ true) ↔ ((key ≡ "") ⊎ (key ≡ key))
may_access-dialer_header_example =
    may_access-dialer_header (λ k. k) (λ x. x) (λ x y h. h)
      (("Authorization", "x" ∷ []) ∷ ("Host", "h" ∷ []) ∷ []) key key sent (λ h. absurd cc) refl
      refl
