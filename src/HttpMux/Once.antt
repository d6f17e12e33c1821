-- ===== src/HttpMux/Once.antt =====
-- internal/httpmux/mux.go: no pattern is handed to Go's `http.ServeMux` twice, which would panic.
use streamf.Common.{
  ℕ, ◌+◌, ◌≤◌, ◌≡◌, refl, sym, ap, ◌∙◌, inl, inr, List, [], ◌∷◌, none, some, String, str_eq, eq_iff,
  if◌then◌else◌, arith, Bool-cases, Option-cases,
}
use streamf.HttpMux.{Method, Handler, ServeMux, find_handler, update_handler, new_mux, handle}
use streamf.HttpMux.Latest.{Registration, handle_all}

unfoldable pub times : String → List String → ℕ
times p [] = 0
times p (q ∷ qs) = (if str_eq q p then 1 else 0) + times p qs

module _ {ℓ} {H : Type ℓ} where
  unfoldable pub present : String → List (String × Handler H) → ℕ
  present p keys = elim (find_handler p keys) [ none ↦ 0 | some h ↦ 1 ]

  present-update :
      (keys : List (String × Handler H)) (p q : String) (m : Method) (f : H)
      → present q (update_handler p m f keys) ≡ present q keys
  unfolding present update_handler find_handler
  present-update [] p q m f = refl
  present-update ((o, h) ∷ rest) p q m f =
      let ih = present-update rest p q m f in ground (arith, eq_iff o p, eq_iff o q)

  -- A pattern was handled once if the map has it, and else never.
  abbrev pub IsHandled : ServeMux H → Type 0
  IsHandled mux = (p : String) → times p mux.handled ≡ present p mux.keys

  handle-IsHandled :
      (mux : ServeMux H) (m : Method) (p : String) (f : H)
      → IsHandled mux
      → IsHandled (handle mux m p f)
  unfolding handle present find_handler times
  handle-IsHandled mux m p f h q =
      let hq = h q in
      let u = present-update mux.keys p q m f in
      elim (Option-cases (find_handler p mux.keys)) [
        | inr (found, e) ↦ ground arith
        | inl e ↦ elim (Bool-cases (str_eq p q)) [
          | inl g ↦
              let same : find_handler q mux.keys ≡ none =
                ap (λ x. find_handler x mux.keys) (sym ((eq_iff p q).0 g)) ∙ e in
              ground arith
          | inr g ↦ ground arith
        ]
      ]

  handle_all-IsHandled :
      (rs : List (Registration H)) (mux : ServeMux H)
      → IsHandled mux
      → IsHandled (handle_all mux rs)
  unfolding handle_all
  handle_all-IsHandled [] mux h = h
  handle_all-IsHandled (r ∷ rs) mux h =
      handle_all-IsHandled rs (handle mux r.method r.pattern r.handler)
        (handle-IsHandled mux r.method r.pattern r.handler h)

  -- After any registrations, a pattern has been given to the ServeMux of net/http as often as it
  -- stands in the map of the mux, and at most once, so that it does not panic.
  handle_all-times :
      (rs : List (Registration H)) (p : String)
      → (times p (handle_all new_mux rs).handled ≡ present p (handle_all new_mux rs).keys)
        × (times p (handle_all new_mux rs).handled ≤ 1)
  unfolding new_mux times present find_handler
  handle_all-times rs p =
      let e = handle_all-IsHandled rs new_mux (λ q. refl) p in
      (
        e,
        elim (Option-cases (find_handler p (handle_all new_mux rs).keys)) [
          | inl n ↦ ground arith
          | inr n ↦ ground arith
        ],
      )
