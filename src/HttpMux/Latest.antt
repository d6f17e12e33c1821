-- ===== src/HttpMux/Latest.antt =====
-- internal/httpmux/mux.go: what a mux answers after a sequence of registrations.
use streamf.Common.{
  ◌≡◌, refl, sym, ap, ◌∙◌, inl, inr, List, [], ◌∷◌, Option, none, some, Bool, true, false, ◌&&◌,
  String, str_eq, eq_iff, if◌then◌else◌, or_else, or_else-none, arith, Bool-cases, Option-cases,
}
use streamf.HttpMux.{
  Method, method_get, method_head, method_post, method_put, method_patch, method_delete, Handler,
  ServeMux, method_of, no_handlers, set_handler, find_handler, update_handler, new_mux, handle,
  dispatch, serve_http,
}

unfoldable pub same_method : Method → Method → Bool
same_method method_get method_get = true
same_method method_head method_head = true
same_method method_post method_post = true
same_method method_put method_put = true
same_method method_patch method_patch = true
same_method method_delete method_delete = true
same_method _ _ = false

pub record Registration {ℓ} (H : Type ℓ) : Type ℓ where
  pub method : Method
  pub pattern : String
  pub handler : H

module _ {ℓ} {H : Type ℓ} where
  -- One registration after the other.
  unfoldable pub handle_all : ServeMux H → List (Registration H) → ServeMux H
  handle_all mux [] = mux
  handle_all mux (r ∷ rs) = handle_all (handle mux r.method r.pattern r.handler) rs

  -- The last registration of a method at a pattern.
  unfoldable pub latest : List (Registration H) → Method → String → Option H
  latest [] m p = none
  latest (r ∷ rs) m p =
      or_else (latest rs m p)
        (if str_eq r.pattern p && same_method r.method m then some r.handler else none)

  -- What a request is answered by, from the registrations alone.
  unfoldable pub answer : List (Registration H) → String → String → Option H
  answer rs method p = elim (method_of method) [
    | none ↦ none
    | some method_head ↦ or_else (latest rs method_head p) (latest rs method_get p)
    | some m ↦ latest rs m p
  ]

  unfoldable pub field : Handler H → Method → Option H
  field h method_get = h.get
  field h method_head = h.head
  field h method_post = h.post
  field h method_put = h.put
  field h method_patch = h.patch
  field h method_delete = h.delete

  field-set_handler :
      (h : Handler H) (m n : Method) (f : H)
      → field (set_handler h m f) n ≡ (if same_method m n then some f else field h n)
  unfolding field set_handler same_method
  field-set_handler h m n f = ground arith

  field-no_handlers : (n : Method) → field no_handlers n ≡ none
  unfolding field no_handlers
  field-no_handlers n = ground arith

  -- The field of the handler of a pattern.
  unfoldable pub at : List (String × Handler H) → Method → String → Option H
  at keys m p = elim (find_handler p keys) [ none ↦ none | some h ↦ field h m ]

  at-update :
      (keys : List (String × Handler H)) (p q : String) (m n : Method) (f : H)
      → at (update_handler p m f keys) n q ≡ (
          if str_eq p q && same_method m n
          then elim (find_handler p keys) [ none ↦ none | some h ↦ some f ]
          else at keys n q)
  unfolding at update_handler find_handler
  at-update [] p q m n f = ground arith
  at-update ((o, h) ∷ rest) p q m n f =
      let ih = at-update rest p q m n f in
      let s = field-set_handler h m n f in ground (arith, eq_iff o p, eq_iff p q, eq_iff o q)

  at-handle :
      (mux : ServeMux H) (p q : String) (m n : Method) (f : H)
      → at (handle mux m p f).keys n q
        ≡ (if str_eq p q && same_method m n then some f else at mux.keys n q)
  unfolding at handle find_handler
  at-handle mux p q m n f =
      let u = at-update mux.keys p q m n f in
      let s = field-set_handler no_handlers m n f in
      let z = field-no_handlers n in
      let same : str_eq p q ≡ true → find_handler q mux.keys ≡ find_handler p mux.keys =
        λ e. ap (λ x. find_handler x mux.keys) (sym ((eq_iff p q).0 e)) in
      elim (Option-cases (find_handler p mux.keys)) [
        | inl e ↦ elim (Bool-cases (str_eq p q)) [
          | inl g ↦ let k = same g in ground arith
          | inr g ↦ ground arith
        ]
        | inr (h, e) ↦ ground arith
      ]

  at-handle_all :
      (rs : List (Registration H)) (mux : ServeMux H) (m : Method) (p : String)
      → at (handle_all mux rs).keys m p ≡ or_else (latest rs m p) (at mux.keys m p)
  unfolding handle_all latest
  at-handle_all [] mux m p = refl
  at-handle_all (r ∷ rs) mux m p =
      let ih = at-handle_all rs (handle mux r.method r.pattern r.handler) m p in
      let h = at-handle mux r.pattern p r.method m r.handler in
      ih
      ∙ ap (or_else (latest rs m p)) h
      ∙ elim (Bool-cases (str_eq r.pattern p && same_method r.method m)) [
        | inl e ↦ ground arith
        | inr e ↦ ground arith
      ]

  dispatch-at :
      (mux : ServeMux H) (method p : String)
      → (elim (find_handler p mux.keys) as (λ x. Option H) [
        | none ↦ none
        | some h ↦ dispatch h method
      ])
        ≡ (elim (method_of method) as (λ x. Option H) [
          | none ↦ none
          | some method_head ↦ or_else (at mux.keys method_head p) (at mux.keys method_get p)
          | some m ↦ at mux.keys m p
        ])
  unfolding dispatch at field
  dispatch-at mux method p = elim (Option-cases (find_handler p mux.keys)) [
    | inl e ↦ ground arith
    | inr (h, e) ↦ ground arith
  ]

  at-new_mux :
      (rs : List (Registration H)) (m : Method) (p : String)
      → at (handle_all new_mux rs).keys m p ≡ latest rs m p
  unfolding new_mux at find_handler
  at-new_mux rs m p = at-handle_all rs new_mux m p ∙ or_else-none (latest rs m p)

  -- After any registrations, a request at the pattern that was picked is served by the last
  -- function registered for its method there, for HEAD by that of HEAD or else that of GET, and by
  -- 404 where there is none or for another method.
  pub serve_http-answer :
      (pick : List String → String → Option String) (rs : List (Registration H))
      (method path p : String)
      → pick (handle_all new_mux rs).handled path ≡ some p
      → serve_http pick (handle_all new_mux rs) method path ≡ answer rs method p
  unfolding serve_http answer
  serve_http-answer pick rs method path p e =
      let d = dispatch-at (handle_all new_mux rs) method p in
      let l = λ (m : Method). at-new_mux rs m p in
      ground (
        arith,
        l method_get,
        l method_head,
        l method_post,
        l method_put,
        l method_patch,
        l method_delete,
      )
