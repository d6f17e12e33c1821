-- ===== src/Relay/Copied.antt =====
-- internal/network/bridging.go, copyBuffer: what arrives at the writer.
use streamf.Common.{
  ℕ, zero, suc, ◌+◌, ◌≤◌, ◌≡◌, refl, sym, ap, subst, ◌∙◌, inl, inr, pos, List, [], ◌∷◌, ◌++◌,
  append-nil, append_assoc, Option, none, some, length, take, length-append, take-all, arith,
  Option-cases,
}
use streamf.Relay.{Answer, Copy, answered, transfer, source_error, copy_buffer}

-- What a source returns over all its reads.
unfoldable pub source : List (List ℕ) → List ℕ → List ℕ
source [] last = last
source (b ∷ bs) last = b ++ source bs last

pub take_inside : (n : ℕ) (xs ys : List ℕ) → n ≤ length xs → take n (xs ++ ys) ≡ take n xs
take_inside zero xs ys h = refl
take_inside (suc n) [] ys h = absurd (omega arith)
take_inside (suc n) (x ∷ xs) ys h = ap (◌∷◌ x) (take_inside n xs ys (omega arith))

take_over : (n : ℕ) (xs ys : List ℕ) → take (length xs + n) (xs ++ ys) ≡ xs ++ take n ys
take_over n [] ys = let e : 0 + n ≡ n = omega arith in rw e
take_over n (x ∷ xs) ys =
    let e : suc (length xs) + n ≡ suc (length xs + n) = omega arith in
    rw e (ap (◌∷◌ x) (take_over n xs ys))

module _ {E W : Type 0} (write : W → List ℕ → Answer E W) (got : W → List ℕ) where
  -- What `io.Writer` documents: the count is that of the bytes written from the front, and an error
  -- comes with fewer.
  abbrev pub IsWriter : Type 0
  IsWriter =
      (w : W) (b : List ℕ)
      → (n : ℕ) × ((write w b).count ≡ pos n)
        × (n ≤ length b)
        × (got (write w b).writer ≡ got w ++ take n b)
        × ((write w b).error ≡ none → n ≡ length b)

  abbrev pub Delivers : W → List ℕ → Copy E W → Type 0
  Delivers w s r = (r.written ≤ length s) × (got r.writer ≡ got w ++ take r.written s)

  answered-Delivers :
      (w : W) (b : List ℕ)
      → IsWriter
      → Delivers w b (answered write b (write w b))
        × ((answered write b (write w b)).error ≡ none
            → (answered write b (write w b)).written ≡ length b)
  unfolding answered
  answered-Delivers w b h =
      let (n, count, le, got_n, all) = h w b in
      let written : (answered write b (write w b)).written ≡ n = ground arith in
      let writer : (answered write b (write w b)).writer ≡ (write w b).writer = ground arith in
      let full : (answered write b (write w b)).error ≡ none → n ≡ length b = λ e.
        elim (Option-cases (write w b).error) [
          | inl none_yet ↦ all none_yet
          | inr (x, some_e) ↦ absurd (ground arith)
        ] in
      (
        (rw written le, ap got writer ∙ got_n ∙ ap (λ k. got w ++ take k b) (sym written)),
        λ e. written ∙ full e,
      )

  pub transfer-Delivers :
      (w : W) (b : List ℕ)
      → IsWriter
      → Delivers w b (transfer write w b)
        × ((transfer write w b).error ≡ none → (transfer write w b).written ≡ length b)
  unfolding transfer
  transfer-Delivers w [] h = ((omega arith, sym (append-nil (got w))), λ e. refl)
  transfer-Delivers w (x ∷ xs) h = answered-Delivers w (x ∷ xs) h

  -- Two blocks one after the other, the first written whole.
  pub Delivers-append :
      (w v : W) (b s : List ℕ) (r : Copy E W)
      → got v ≡ got w ++ b
      → Delivers v s r
      → (length b + r.written ≤ length (b ++ s))
        × (got r.writer ≡ got w ++ take (length b + r.written) (b ++ s))
  Delivers-append w v b s r e (le, f) = (
    omega (arith, length-append b s),
    f
        ∙ ap (λ x. x ++ take r.written s) e
        ∙ append_assoc (got w) b (take r.written s)
        ∙ ap (λ x. got w ++ x) (sym (take_over r.written b s)),
  )

  -- A first block where writing failed.
  pub Delivers-source :
      (w : W) (b s : List ℕ) (r : Copy E W) → Delivers w b r → Delivers w (b ++ s) r
  Delivers-source w b s r (le, f) = (
    omega (arith, length-append b s),
    f ∙ ap (λ x. got w ++ x) (sym (take_inside r.written b s le)),
  )

  pub written_whole :
      (w : W) (b : List ℕ) (r : Copy E W)
      → Delivers w b r
      → r.written ≡ length b
      → got r.writer ≡ got w ++ b
  written_whole w b r (le, f) e = f ∙ ap (λ x. got w ++ x) (take-all r.written b (omega arith))

  -- What is delivered is a first part of the source, all of it and to its end where there is no error.
  abbrev pub Copies : W → List ℕ → Option E → Copy E W → Type 0
  Copies w s end r = Delivers w s r × (r.error ≡ none → (r.written ≡ length s) × (end ≡ none))

  source_error-none : (end : Option E) → source_error write end ≡ none → end ≡ none
  unfolding source_error
  source_error-none none e = refl
  source_error-none (some x) e = absurd (ground arith)

  -- For a writer that keeps to the contract of io.Writer, copyBuffer delivers a first part of the
  -- source, as long as the count it returns, and where it returns no error, the whole of it, up to
  -- the end of the file.
  pub copy-Copies :
      (bs : List (List ℕ)) (last : List ℕ) (end : Option E) (w : W)
      → IsWriter
      → Copies w (source bs last) end (copy_buffer write bs last end w)
  unfolding copy_buffer source
  copy-Copies [] last end w h =
      let t : Copy E W = transfer write w last in
      let (d, whole) = transfer-Delivers w last h in
      elim (Option-cases (transfer write w last).error) [
        | inr (x, e) ↦
            let run : transfer write w last ≡ copy_buffer write [] last end w = ground arith in
            subst (Copies w last end) run (d, λ f. absurd (ground arith))
        | inl e ↦
            let run : record {
              written = t.written;
              error = source_error write end;
              writer = t.writer;
            }
                ≡ copy_buffer write [] last end w =
              ground arith in
            subst (Copies w last end) run (d, λ f. (whole e, source_error-none end f))
      ]
  copy-Copies (b ∷ bs) last end w h =
      let t : Copy E W = transfer write w b in
      let (d, whole) = transfer-Delivers w b h in
      elim (Option-cases (transfer write w b).error) [
        | inr (x, e) ↦
            let run : transfer write w b ≡ copy_buffer write (b ∷ bs) last end w = ground arith in
            subst (Copies w (b ++ source bs last) end) run
              (Delivers-source w b (source bs last) t d, λ f. absurd (ground arith))
        | inl e ↦
            let rest : Copy E W = copy_buffer write bs last end t.writer in
            let (after, ended) = copy-Copies bs last end t.writer h in
            let run : record {
              written = t.written + rest.written;
              error = rest.error;
              writer = rest.writer;
            }
                ≡ copy_buffer write (b ∷ bs) last end w =
              ground arith in
            let n : t.written ≡ length b = whole e in
            let both =
              Delivers-append w t.writer b (source bs last) rest (written_whole w b t d n) after in
            subst (Copies w (b ++ source bs last) end) run (
              rw n both,
              λ f.
                  let (k, done) = ended f in
                  (omega (arith, n, k, length-append b (source bs last)), done),
            )
      ]
