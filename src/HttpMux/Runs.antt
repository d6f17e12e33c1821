-- ===== src/HttpMux/Runs.antt =====
-- internal/httpmux/mux.go: a mux with two patterns, as computed.
use streamf.Common.{ℕ, ◌≡◌, refl, List, [], ◌∷◌, Option, none, some, String, str_eq, if◌then◌else◌}
use streamf.HttpMux.{method_get, method_head, method_post, new_mux, find_handler, serve_http}
use streamf.HttpMux.Latest.{Registration, handle_all}

-- The last of these handlers of `POST /a` is 3.
abbrev registered : List (Registration ℕ)
registered =
    record { method = method_get; pattern = "/a"; handler = 1 }
    ∷ record { method = method_post; pattern = "/a"; handler = 2 }
    ∷ record { method = method_post; pattern = "/a"; handler = 3 }
    ∷ record { method = method_get; pattern = "/b"; handler = 4 }
    ∷ []

-- Patterns without wildcards.
abbrev exact : List String → String → Option String
exact [] path = none
exact (p ∷ ps) path = if str_eq p path then some p else exact ps path

head_falls_to_get : serve_http exact (handle_all new_mux registered) "HEAD" "/a" ≡ some 1
unfolding serve_http handle_all new_mux streamf.HttpMux.handle find_handler
    streamf.HttpMux.update_handler streamf.HttpMux.dispatch
head_falls_to_get = refl
