-- ===== src/HttpConnect/Runs.antt =====
-- internal/httpmux/http.go: the context of the caller ends while the request is on its way.
use streamf.Common.{◌≡◌, refl, [], ◌∷◌, inr, some, true, false}
use streamf.Dialer.{ok, gone, err_context}
use streamf.HttpConnect.{ConnectHttp, dial, expire, leave_context, drop, refused, connect_http}
use streamf.HttpConnect.Handed.{Reaches, started, next, Left, Reaches-Left}

not_found :
    connect_http true (inr (record { status_code = 404; body = some (1 ∷ []) }))
    ≡ record { error = some (refused 404 (1 ∷ [])); pipe_closed = true; body_closed = true }
unfolding connect_http
not_found = refl

abbrev late : ConnectHttp
late = record {
  connect = record {
    worker = gone;
    caller = err_context;
    done = false;
    ctx_done = true;
    closed = 5 ∷ [];
  };
  cancelled = true;
}

late-Reaches : Reaches (ok 5) late
unfolding streamf.Dialer.is_ok
late-Reaches =
    next _ late
      (next _ _ (next _ _ (next _ _ started expire) (leave_context refl refl)) (dial refl))
      (drop refl refl)

Reaches-Left_example : Left (ok 5) err_context (5 ∷ []) true
Reaches-Left_example = Reaches-Left (ok 5) late late-Reaches refl (λ h. cc)
