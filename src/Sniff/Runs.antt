-- ===== src/Sniff/Runs.antt =====
-- The parser on concrete records, and its theorems at them.
use streamf.Common.{ℕ, ◌≡◌, ◌↔◌, inl, inr, refl, arith, List, [], ◌∷◌, ◌++◌, replicate}
use streamf.Sniff.{
  ok, err, panic, sni_not_found, at, be16, skip8, skip16, extensions_loop, parse_extensions,
  parse_vectors, parse_client_hello,
}
use streamf.Sniff.Step.{Returns}
use streamf.Sniff.Faults.{IsHello, Overruns, parse-panic_iff, parse-Returns}
use streamf.Sniff.Encode.{
  u16, vec8, vec16, extension, extensions, name_list, Hello, extension_block, payload, encode,
  IsWellFormed,
}
use streamf.Sniff.RoundTrip.{parse-encode}

-- "a.b", behind one extension of type 10.
abbrev pub small : Hello
small = record {
  major = 3;
  minor = 1;
  fixed = replicate 37 7;
  session = 9 ∷ 9 ∷ [];
  ciphers = 0x13 ∷ 0x01 ∷ [];
  compressions = 0 ∷ [];
  before = (10, 0 ∷ 29 ∷ []) ∷ [];
  name = 97 ∷ 46 ∷ 98 ∷ [];
  others = [];
  after = (16, []) ∷ [];
}

pub small-IsWellFormed : IsWellFormed small
unfolding payload vec8 vec16 u16 extension_block extensions extension name_list
small-IsWellFormed = record {
  fixed_length = refl;
  session_fits = omega arith;
  compressions_fit = omega arith;
  fits = omega arith;
  others_before = omega arith;
}

parse-encode_example : parse_client_hello (encode small) ≡ ok (97 ∷ 46 ∷ 98 ∷ [])
parse-encode_example = parse-encode small small-IsWellFormed

-- A record of the least length that `readClientHello` accepts.
abbrev shortest : List ℕ
shortest = 0x16 ∷ 3 ∷ 1 ∷ 0 ∷ 38 ∷ 1 ∷ replicate 37 0

parse-panic_iff_example :
    (parse_client_hello shortest ≡ panic) ↔ (IsHello shortest × Overruns shortest)
parse-panic_iff_example = parse-panic_iff shortest

shortest_panics : parse_client_hello shortest ≡ panic
shortest_panics = (parse-panic_iff shortest).1 ((omega arith, refl, refl), inl refl)

-- One byte more, and the session identifier is empty: the other unguarded read.
one_more_panics : parse_client_hello (shortest ++ (0 ∷ 0 ∷ [])) ≡ panic
one_more_panics =
    (parse-panic_iff (shortest ++ (0 ∷ 0 ∷ []))).1 ((omega arith, refl, refl), inr (0, refl, refl))

abbrev no_name : List ℕ
no_name = shortest ++ (0 ∷ 0 ∷ 0 ∷ 0 ∷ 0 ∷ 0 ∷ [])

no_name_run : parse_client_hello no_name ≡ err sni_not_found
unfolding parse_client_hello parse_vectors parse_extensions extensions_loop skip8 skip16 be16 at
no_name_run = refl

parse-Returns_example : Returns (parse_client_hello no_name)
parse-Returns_example = parse-Returns no_name (λ (_, over). ground arith)
