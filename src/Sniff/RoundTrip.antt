-- ===== src/Sniff/RoundTrip.antt =====
-- The parser reads back the server name of every well-formed ClientHello.
use streamf.Common.{
  ℕ, zero, suc, ◌+◌, ◌-◌, ◌≤◌, ◌<◌, ◌≡◌, ◌≢◌, List, [], ◌∷◌, ◌++◌, refl, subst, ap, arith, length,
  take, drop, All, length-append, length-drop, drop-length_append, take-length_append, append_assoc,
  lt→ltb,
}
use streamf.Sniff.{
  SniffError, ok, at, server_name, extension_header, extensions_loop, parse_extensions,
  parse_vectors, parse_client_hello,
}
use streamf.Sniff.Encode.{
  u16, vec8, vec16, extension, extensions, name_list, Hello, extension_block, payload, encode,
  IsWellFormed,
}
use streamf.Sniff.Cursor.{From, From-step, From-next, at-From, be16-From, skip8-From, skip16-From}

-- The header of an extension, and where its body begins.
extension_header-From :
    (buf : List ℕ) (pos t : ℕ) (body ys : List ℕ)
    → t < 65536
    → length body < 65536
    → From buf pos (extension t body ++ ys)
    → (extension_header buf pos ≡ ok (t, length body)) × From buf (pos + 4) (body ++ ys)
unfolding extension_header extension vec16 u16
extension_header-From buf pos t body ys ht hb h =
    let p = be16-From buf pos t _ ht h in
    let s = From-step buf pos (u16 t) (u16 (length body) ++ (body ++ ys)) h in
    let q = be16-From buf (pos + 2) (length body) (body ++ ys) hb s in
    let r = From-step buf (pos + 2) (u16 (length body)) (body ++ ys) s in
    let k : pos + 2 + 2 ≡ pos + 4 = omega arith in
    let r' : From buf (pos + 4) (body ++ ys) = rw k at r in
    let l : length buf ≡ pos + 4 + (length body + length ys) =
      omega (arith, ap length h, length-drop pos buf, length-append body ys) in
    (ground arith, r')

server_name-From :
    (buf : List ℕ) (pos : ℕ) (name others ys : List ℕ)
    → length (name_list name others) < 65536
    → From buf pos (name_list name others ++ ys)
    → server_name buf pos ≡ ok name
unfolding server_name name_list vec16 u16
server_name-From buf pos name others ys lt h =
    let more : List ℕ = (name ++ others) ++ ys in
    let list_len : ℕ = length (name_list name others) - 2 in
    let s = From-step buf pos (u16 (suc (suc (suc (length (name ++ others)))))) _ h in
    let s' = From-next buf (pos + 2) 0 (u16 (length name) ++ more) s in
    let three : pos + 2 + 1 ≡ pos + 3 = omega arith in
    let t : From buf (pos + 3) (u16 (length name) ++ more) = rw three at s' in
    let five : pos + 3 + 2 ≡ pos + 5 = omega arith in
    let u : From buf (pos + 5) more =
      rw five at (From-step buf (pos + 3) (u16 (length name)) more t) in
    let n : take (length name) (drop (pos + 5) buf) ≡ name =
      rw (u, append_assoc name others ys) (take-length_append name (others ++ ys)) in
    let l : length buf ≡ pos + 5 + (length name + length others + length ys) = omega (
      arith,
      ap length h,
      length-drop pos buf,
      length-append (name ++ others) ys,
      length-append name others,
    ) in
    let a = length-append name others in
    let p = be16-From buf pos (suc (suc (suc (length (name ++ others))))) _ (omega arith) h in
    let q = at-From buf (pos + 2) 0 _ s in
    let r = be16-From buf (pos + 3) (length name) more (omega arith) t in ground arith

-- The loop passes the extensions of other types and stops at the first server name.
extensions_loop-From :
    (es : List (ℕ × List ℕ)) (fuel : ℕ) (buf : List ℕ) (pos end : ℕ) (name others ys : List ℕ)
    → All (λ e. (e.0 ≢ 0) × (e.0 < 65536) × (length e.1 < 65536)) es
    → length (name_list name others) < 65536
    → From buf pos (extensions es ++ (extension 0 (name_list name others) ++ ys))
    → pos + length (extensions es) < end
    → end < fuel + pos
    → extensions_loop fuel buf pos end ≡ ok name
unfolding extensions_loop extensions
extensions_loop-From es zero buf pos end name others ys fine lt h room enough = absurd (omega arith)
extensions_loop-From [] (suc fuel) buf pos end name others ys fine lt h room enough =
    let (p, s) = extension_header-From buf pos 0 (name_list name others) ys (omega arith) lt h in
    rw (lt→ltb pos end (omega arith), extensions_loop, p)
      (server_name-From buf (pos + 4) name others ys lt s)
extensions_loop-From ((t, body) ∷ es) (suc fuel) buf pos end name others ys fine lt h room enough =
    let (ht, ht', hb) = fine.0 in
    let rest : List ℕ = extensions es ++ (extension 0 (name_list name others) ++ ys) in
    let h' : From buf pos (extension t body ++ rest) =
      rw (append_assoc (extension t body) (extensions es)) at h in
    let (p, s) = extension_header-From buf pos t body rest ht' hb h' in
    let s' = From-step buf (pos + 4) body rest s in
    let l = length-append (extension t body) (extensions es) in
    let l' : length (extension t body) ≡ 4 + length body =
      unfold extension u16 vec16 in omega arith in
    let ih =
      extensions_loop-From es fuel buf (pos + 4 + length body) end name others ys fine.1 lt s'
        (omega arith) (omega arith) in
    let more : pos < end = omega arith in ground arith

-- The number of bytes of a well-formed payload bounds that of each of its parts.
pub payload_parts :
    (h : Hello)
    → length (payload h)
      ≡ 1
        + length h.fixed
        + (1 + length h.session)
        + (2 + length h.ciphers)
        + (1 + length h.compressions)
        + (2 + length (extension_block h))
unfolding payload vec8 vec16 u16
payload_parts h = omega (
  arith,
  length-append h.fixed
      (vec8 h.session ++ (vec16 h.ciphers ++ (vec8 h.compressions ++ vec16 (extension_block h)))),
  length-append h.session (vec16 h.ciphers ++ (vec8 h.compressions ++ vec16 (extension_block h))),
  length-append h.ciphers (vec8 h.compressions ++ vec16 (extension_block h)),
  length-append h.compressions (vec16 (extension_block h)),
)

block_parts :
    (h : Hello)
    → length (extension_block h)
      ≡ length (extensions h.before)
        + (4 + length (name_list h.name h.others))
        + length (extensions h.after)
unfolding extension_block extension vec16 u16
block_parts h = omega (
  arith,
  length-append (extensions h.before)
      (extension 0 (name_list h.name h.others) ++ extensions h.after),
  length-append (name_list h.name h.others) (extensions h.after),
)

parse_extensions-From :
    (buf : List ℕ) (pos : ℕ) (h : Hello)
    → IsWellFormed h
    → From buf pos (vec16 (extension_block h))
    → parse_extensions buf pos ≡ ok h.name
unfolding parse_extensions vec16
parse_extensions-From buf pos h w f =
    let b = extension_block h in
    let lt : length b < 65536 = omega (arith, payload_parts h, w.fits) in
    let p = be16-From buf pos (length b) b lt f in
    let s = From-step buf pos (u16 (length b)) b f in
    let l : length buf ≡ pos + 2 + length b =
      unfold u16 in omega (arith, ap length f, length-drop pos buf) in
    let s' : From buf (pos + 2) b = unfold u16 in s in
    let loop =
      extensions_loop-From h.before (suc (length buf)) buf (pos + 2) (pos + 2 + length b) h.name
        h.others (extensions h.after) w.others_before (omega (arith, block_parts h))
        (unfold extension_block in s') (omega (arith, block_parts h)) (omega arith) in
    ground arith

parse_vectors-From :
    (buf : List ℕ) (h : Hello)
    → IsWellFormed h
    → From buf 43
        (vec8 h.session ++ (vec16 h.ciphers ++ (vec8 h.compressions ++ vec16 (extension_block h))))
    → parse_vectors buf ≡ ok h.name
unfolding parse_vectors vec16 u16 vec8 extension_block
parse_vectors-From buf h w f =
    let ciphers : length h.ciphers < 65536 = omega (arith, payload_parts h, w.fits) in
    let (p, f1) = skip8-From buf 43 SniffError.bad_session_id h.session _ _ w.session_fits f in
    let (q, f2) =
      skip16-From buf (43 + (1 + length h.session)) SniffError.bad_cipher_suites h.ciphers _ _
        ciphers f1 in
    let (r, f3) =
      skip8-From buf (43 + (1 + length h.session) + (2 + length h.ciphers))
        SniffError.bad_comp_methods h.compressions _ _ w.compressions_fit f2 in
    rw (p, q, r) (parse_extensions-From buf _ h w f3)

encode-From :
    (h : Hello)
    → IsWellFormed h
    → From
        (encode h)
        43
        (vec8 h.session ++ (vec16 h.ciphers ++ (vec8 h.compressions ++ vec16 (extension_block h))))
unfolding encode payload vec16 u16
encode-From h w =
    let rest : List ℕ =
      vec8 h.session ++ (vec16 h.ciphers ++ (vec8 h.compressions ++ vec16 (extension_block h))) in
    subst (λ n. drop n (h.fixed ++ rest) ≡ rest) w.fixed_length (drop-length_append h.fixed rest)

-- Every well-formed ClientHello that carries a server name is parsed to that name, whatever the
-- session, the cipher suites and the other extensions are.
pub parse-encode : (h : Hello) → IsWellFormed h → parse_client_hello (encode h) ≡ ok h.name
unfolding parse_client_hello
parse-encode h w =
    let f = parse_vectors-From (encode h) h w (encode-From h w) in
    let long : 43 ≤ length (encode h) =
      unfold encode vec16 u16 in omega (arith, payload_parts h, w.fixed_length) in
    let kind : at (encode h) 0 ≡ ok 0x16 = unfold at encode in refl in
    let message : at (encode h) 5 ≡ ok 1 = unfold at encode payload vec16 u16 in refl in
    ground arith
