-- ===== src/Common/Texts.antt =====
-- Texts as lists of bytes, with the tests of Go's `strings`, and whole texts as native strings.
use Prim.Native.Nat.{ℕ, ◌-◌}
use mathlib.Core.Path.{◌≡◌, refl, sym, ap, ◌∙◌}
use mathlib.Core.Logic.{◌↔◌}
use mathlib.Core.Bool.{Bool, true, false, ◌&&◌}
use mathlib.Core.List.{List, [], ◌∷◌, ◌++◌}
use native.Mathlib.Omega.{arith}
use streamf.Common.Tests.{leb, ◌==◌}
use streamf.Common.Lists.{
  length, take, drop, length-append, take-append-drop, take-length_append, drop_append,
}
pub use Prim.Native.String.{String}
unfoldable pub use text.Mathlib.Text.{◌==◌ as str_eq}
pub use text.Mathlib.TextEquality.{eq_iff}
pub use text.Mathlib.TextPositions.{eq_refl}

unfoldable pub bytes_eq : List ℕ → List ℕ → Bool
bytes_eq [] [] = true
bytes_eq [] (y ∷ ys) = false
bytes_eq (x ∷ xs) [] = false
bytes_eq (x ∷ xs) (y ∷ ys) = (x == y) && bytes_eq xs ys

pub bytes_eq-eq : (xs ys : List ℕ) → bytes_eq xs ys ≡ true → xs ≡ ys
unfolding bytes_eq
bytes_eq-eq [] [] h = refl
bytes_eq-eq [] (y ∷ ys) h = cc
bytes_eq-eq (x ∷ xs) [] h = cc
bytes_eq-eq (x ∷ xs) (y ∷ ys) h = ground (arith, bytes_eq-eq xs ys)

pub bytes_eq_refl : (xs : List ℕ) → bytes_eq xs xs ≡ true
unfolding bytes_eq
bytes_eq_refl [] = refl
bytes_eq_refl (x ∷ xs) = ground (arith, bytes_eq_refl xs)

pub bytes_eq_iff : (xs ys : List ℕ) → (bytes_eq xs ys ≡ true) ↔ (xs ≡ ys)
bytes_eq_iff xs ys = (bytes_eq-eq xs ys, λ e. rw e (bytes_eq_refl ys))

-- `strings.HasPrefix`
unfoldable pub has_prefix : List ℕ → List ℕ → Bool
has_prefix s v = leb (length v) (length s) && bytes_eq (take (length v) s) v

-- `strings.HasSuffix`
unfoldable pub has_suffix : List ℕ → List ℕ → Bool
has_suffix s v = leb (length v) (length s) && bytes_eq (drop (length s - length v) s) v

pub has_prefix_iff : (s v : List ℕ) → (has_prefix s v ≡ true) ↔ ((t : List ℕ) × (s ≡ v ++ t))
unfolding has_prefix
has_prefix_iff s v = (
  λ h.
      let e : take (length v) s ≡ v = bytes_eq-eq _ _ (ground arith) in
      (drop (length v) s, sym (take-append-drop (length v) s) ∙ ap (λ l. l ++ drop (length v) s) e),
  λ (t, e). rw (e, take-length_append v t) (ground (arith, bytes_eq_refl v, length-append v t)),
)

pub has_suffix_iff : (s v : List ℕ) → (has_suffix s v ≡ true) ↔ ((t : List ℕ) × (s ≡ t ++ v))
unfolding has_suffix
has_suffix_iff s v = (
  λ h.
      let n = length s - length v in
      let e : drop n s ≡ v = bytes_eq-eq _ _ (ground arith) in
      (take n s, sym (take-append-drop n s) ∙ ap (λ l. take n s ++ l) e),
  λ (t, e).
      rw (e, drop_append (length (t ++ v) - length v) t v (omega (arith, length-append t v)))
        (ground (arith, bytes_eq_refl v, length-append t v)),
)
