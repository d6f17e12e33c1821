-- ===== src/HttpMux.antt =====
-- internal/httpmux/mux.go and handler.go: handlers by method and pattern. Go's `http.ServeMux`,
-- which finds the pattern of a path, is an argument; the patterns that it was given are kept here.
pub mod Latest
pub mod Once
pub mod Runs
use streamf.Common.{
  List, [], ◌∷◌, ◌++◌, Option, none, some, Bool, true, false, String, str_eq, if◌then◌else◌,
  or_else,
}

-- The six functions of `ServeMux` that register a handler, each with a field of its own.
pub data Method : Type 0 where
  method_get method_head method_post method_put method_patch method_delete : Method

pub record Handler {ℓ} (H : Type ℓ) : Type ℓ where
  pub get : Option H
  pub head : Option H
  pub post : Option H
  pub put : Option H
  pub patch : Option H
  pub delete : Option H

-- `keys`, and the patterns that `http.ServeMux.Handle` was called with, the last one first.
pub record ServeMux {ℓ} (H : Type ℓ) : Type ℓ where
  pub keys : List (String × Handler H)
  pub handled : List String

-- What a request line names, where it is one of the six.
unfoldable pub method_of : String → Option Method
method_of s =
    if str_eq s "GET"
    then some method_get
    else if str_eq s "HEAD"
    then some method_head
    else if str_eq s "POST"
    then some method_post
    else if str_eq s "PUT"
    then some method_put
    else if str_eq s "PATCH"
    then some method_patch
    else if str_eq s "DELETE"
    then some method_delete
    else none

module _ {ℓ} {H : Type ℓ} where
  unfoldable pub no_handlers : Handler H
  no_handlers = record {
    get = none;
    head = none;
    post = none;
    put = none;
    patch = none;
    delete = none;
  }

  -- `found.get = handler`, and the same for the other five.
  unfoldable pub set_handler : Handler H → Method → H → Handler H
  set_handler h method_get f = record h { get = some f }
  set_handler h method_head f = record h { head = some f }
  set_handler h method_post f = record h { post = some f }
  set_handler h method_put f = record h { put = some f }
  set_handler h method_patch f = record h { patch = some f }
  set_handler h method_delete f = record h { delete = some f }

  -- `mux.keys[pattern]`
  unfoldable pub find_handler : String → List (String × Handler H) → Option (Handler H)
  find_handler pattern [] = none
  find_handler pattern ((p, h) ∷ rest) =
      if str_eq p pattern then some h else find_handler pattern rest

  -- The assignment through the pointer that the map holds.
  unfoldable pub update_handler :
      String → Method → H → List (String × Handler H) → List (String × Handler H)
  unfolding set_handler
  update_handler pattern m f [] = []
  update_handler pattern m f ((p, h) ∷ rest) =
      if str_eq p pattern
      then (p, set_handler h m f) ∷ rest
      else (p, h) ∷ update_handler pattern m f rest

  -- `New`
  unfoldable pub new_mux : ServeMux H
  new_mux = record { keys = []; handled = [] }

  -- `Get`, `Head`, `Post`, `Put`, `Patch`, `Delete`, of a pattern that the `ServeMux` of Go takes.
  unfoldable pub handle : ServeMux H → Method → String → H → ServeMux H
  unfolding set_handler no_handlers
  handle mux m pattern f = elim (find_handler pattern mux.keys) [
    | some found ↦ record mux { keys = update_handler pattern m f mux.keys }
    | none ↦ record mux {
      keys = (pattern, set_handler no_handlers m f) ∷ mux.keys;
      handled = pattern ∷ mux.handled;
    }
  ]

  -- `Handler.ServeHTTP`: the function that is called, or `404`.
  unfoldable pub dispatch : Handler H → String → Option H
  unfolding method_of
  dispatch h method = elim (method_of method) [
    | none ↦ none
    | some method_get ↦ h.get
    | some method_head ↦ or_else h.head h.get
    | some method_post ↦ h.post
    | some method_put ↦ h.put
    | some method_patch ↦ h.patch
    | some method_delete ↦ h.delete
  ]

  -- `ServeMux.ServeHTTP`; `pick` finds the pattern of a path among those that were handled.
  unfoldable pub serve_http :
      (List String → String → Option String) → ServeMux H → String → String → Option H
  serve_http pick mux method path = elim (pick mux.handled path) [
    | none ↦ none
    | some pattern ↦ elim (find_handler pattern mux.keys) [
      | none ↦ none
      | some h ↦ dispatch h method
    ]
  ]
