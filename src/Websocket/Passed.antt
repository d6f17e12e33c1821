-- ===== src/Websocket/Passed.antt =====
-- internal/network/bridging.go: a stream that one side of a websocket sends in messages, and the other
-- side writes.
use streamf.Common.{
  ℕ, ◌+◌, ◌≤◌, ◌≡◌, refl, sym, ap, subst, ◌∙◌, ◌⊎◌, inl, inr, List, [], ◌∷◌, ◌++◌, append_assoc,
  append-nil, length, take, length-append, Option, none, some, Bool, true, false, arith, Bool-cases,
  Option-cases,
}
use streamf.Relay.{Answer, Copy, answered, transfer, source_error, copy_buffer}
use streamf.Relay.Copied.{
  source, IsWriter, Delivers-append, Delivers-source, written_whole, copy-Copies, take_inside,
}
use streamf.Websocket.{
  Message, write_message, write_block, write_websocket, pass_message, read_websocket,
}

-- The bytes of messages.
abbrev pub joined : List (List ℕ) → List ℕ
joined [] = []
joined (b ∷ bs) = b ++ joined bs

joined-snoc : (bs : List (List ℕ)) (b : List ℕ) → joined (bs ++ b ∷ []) ≡ joined bs ++ b
joined-snoc [] b = append-nil b
joined-snoc (c ∷ bs) b = ap (λ x. c ++ x) (joined-snoc bs b) ∙ sym (append_assoc c (joined bs) b)

-- A message is sent whole, or nothing is.
write_block-joined :
    (refuses : List (List ℕ) → List ℕ → Bool) (sent : List (List ℕ)) (b : List ℕ)
    → (((write_block refuses sent b).0 ≡ true)
        × (joined (write_block refuses sent b).1 ≡ joined sent ++ b))
      ⊎ (((write_block refuses sent b).0 ≡ false)
          × ((write_block refuses sent b).1 ≡ sent)
          × (refuses sent b ≡ true))
unfolding write_block write_message
write_block-joined refuses sent [] = inl (refl, sym (append-nil (joined sent)))
write_block-joined refuses sent (x ∷ xs) = elim (Bool-cases (refuses sent (x ∷ xs))) [
  | inl e ↦ inr (rw e refl, rw e refl, e)
  | inr e ↦ inl (rw e refl, rw e (joined-snoc sent (x ∷ xs)))
]

abbrev pub NeverRefuses : (List (List ℕ) → List ℕ → Bool) → Type 0
NeverRefuses refuses = (sent : List (List ℕ)) (b : List ℕ) → refuses sent b ≡ false

-- What is sent is a first part of the source.
Sends : (List (List ℕ) → List ℕ → Bool) → List ℕ → List (List ℕ) → Type 0
Sends refuses s out =
    (rest : List ℕ) × (joined out ++ rest ≡ s) × (NeverRefuses refuses → rest ≡ [])

write_websocket-Sends :
    (refuses : List (List ℕ) → List ℕ → Bool) (bs : List (List ℕ)) (last : List ℕ)
    (sent : List (List ℕ))
    → Sends refuses (joined sent ++ source bs last) (write_websocket refuses bs last sent)
unfolding Sends write_websocket source
write_websocket-Sends refuses [] last sent = elim (write_block-joined refuses sent last) [
  | inl (e, h) ↦ ([], append-nil _ ∙ h, λ n. refl)
  | inr (e, h, r) ↦
      (last, ap (λ x. joined x ++ last) h, λ n. absurd (let f = n sent last in ground arith))
]
write_websocket-Sends refuses (b ∷ bs) last sent =
    let one = write_block refuses sent b in
    elim (write_block-joined refuses sent b) [
      | inl (e, h) ↦
          let (rest, same, all) = write_websocket-Sends refuses bs last one.1 in
          (
            rest,
            rw (e, write_websocket)
                (same
                  ∙ ap (λ x. x ++ source bs last) h
                  ∙ append_assoc (joined sent) b (source bs last)),
            all,
          )
      | inr (e, h, r) ↦ (
        b ++ source bs last,
        rw (e, write_websocket) (ap (λ x. joined x ++ (b ++ source bs last)) h),
        λ n. absurd (let f = n sent b in ground arith),
      )
    ]

-- The messages arrive whole, each in any blocks.
pub data Carries {E : Type 0} : List (List ℕ) → List (Message E) → Type 0 where
  nothing : Carries [] []
  message :
      (b : List ℕ) (bs : List (List ℕ)) (m : Message E) (ms : List (Message E))
      → source m.blocks m.last ≡ b
      → m.end ≡ none
      → Carries bs ms
      → Carries (b ∷ bs) (m ∷ ms)

module _ {E W : Type 0} (got : W → List ℕ) where
  -- The contract of io.ReaderFrom: it reads to the end or to an error, which it returns; what it
  -- reads it writes, in order, and all of it where it returns no error.
  abbrev pub IsReaderFrom : (W → Message E → Option E × W) → Type 0
  IsReaderFrom rt =
      (w : W) (m : Message E)
      → (k : ℕ) × (k ≤ length (source m.blocks m.last))
        × (got (rt w m).1 ≡ got w ++ take k (source m.blocks m.last))
        × ((rt w m).0 ≡ none → (k ≡ length (source m.blocks m.last)) × (m.end ≡ none))

  -- The contract of the writer: that of io.ReaderFrom where it is one, else that of io.Writer.
  abbrev pub IsTaker : (W → List ℕ → Answer E W) → Option (W → Message E → Option E × W) → Type 0
  IsTaker write none = IsWriter write got
  IsTaker write (some rt) = IsReaderFrom rt

  -- No write fails, and no ReadFrom of a message that ends.
  abbrev pub AlwaysTakes :
      (W → List ℕ → Answer E W) → Option (W → Message E → Option E × W) → Type 0
  AlwaysTakes write none = (w : W) (b : List ℕ) → (write w b).error ≡ none
  AlwaysTakes write (some rt) = (w : W) (m : Message E) → m.end ≡ none → (rt w m).0 ≡ none

module _ {E W : Type 0} (write : W → List ℕ → Answer E W) (got : W → List ℕ) where
  transfer-none :
      (w : W) (b : List ℕ)
      → IsWriter write got
      → AlwaysTakes got write none
      → (transfer write w b).error ≡ none
  unfolding transfer answered
  transfer-none w [] h a = refl
  transfer-none w (x ∷ xs) h a =
      let (n, count, le, got_n, all) = h w (x ∷ xs) in
      let whole = all (a w (x ∷ xs)) in ground (arith, a w (x ∷ xs))

  copy-none :
      (bs : List (List ℕ)) (last : List ℕ) (w : W)
      → IsWriter write got
      → AlwaysTakes got write none
      → (copy_buffer write bs last none w).error ≡ none
  unfolding copy_buffer source_error
  copy-none [] last w h a = rw (transfer-none w last h a, copy_buffer) refl
  copy-none (b ∷ bs) last w h a =
      rw (transfer-none w b h a, copy_buffer) (copy-none bs last (transfer write w b).writer h a)

module _ {E W : Type 0} (write : W → List ℕ → Answer E W) (got : W → List ℕ) where
  -- What a round does, in either loop.
  abbrev Taken : Option (W → Message E → Option E × W) → W → Message E → Type 0
  Taken rt w m =
      let (error, v) = pass_message write rt w m in
      (k : ℕ) × (k ≤ length (source m.blocks m.last))
      × (got v ≡ got w ++ take k (source m.blocks m.last))
      × (error ≡ none → k ≡ length (source m.blocks m.last))
      × (AlwaysTakes got write rt → m.end ≡ none → error ≡ none)

  pass_message-Taken :
      (rt : Option (W → Message E → Option E × W)) (w : W) (m : Message E)
      → IsTaker got write rt
      → Taken rt w m
  unfolding pass_message
  pass_message-Taken none w m h =
      let t = copy_buffer write m.blocks m.last m.end w in
      let ((le, f), whole) = copy-Copies write got m.blocks m.last m.end w h in
      (
        t.written,
        le,
        f,
        λ e. (whole e).0,
        λ a ended.
            subst (λ z. (copy_buffer write m.blocks m.last z w).error ≡ none) (sym ended)
              (copy-none write got m.blocks m.last w h a),
      )
  pass_message-Taken (some f) w m h =
      let (k, le, g, whole) = h w m in
      (
        k,
        le,
        g,
        λ e. elim (Option-cases (f w m).0) [
          | inl none_yet ↦ (whole none_yet).0
          | inr (x, some_x) ↦ absurd (ground arith)
        ],
        λ a ended. let none_yet = a w m ended in ground arith,
      )

  -- A first part of the messages is written.
  abbrev Passes : Option (W → Message E → Option E × W) → W → List ℕ → W → Type 0
  Passes rt w s v =
      (k : ℕ) × (k ≤ length s)
      × (got v ≡ got w ++ take k s)
      × (AlwaysTakes got write rt → k ≡ length s)

  read_websocket-Passes :
      (rt : Option (W → Message E → Option E × W)) (sent : List (List ℕ)) (ms : List (Message E))
      (gone : E) (w : W)
      → IsTaker got write rt
      → Carries sent ms
      → Passes rt w (joined sent) (read_websocket write rt ms gone w).0
  unfolding read_websocket
  read_websocket-Passes rt _ _ gone w h nothing =
      (0, omega arith, sym (append-nil (got w)), λ a. refl)
  read_websocket-Passes rt _ _ gone w h (message b bs m ms same ended rest) =
      let v = (pass_message write rt w m).1 in
      let (k, le, f, whole, none_lost) = pass_message-Taken rt w m h in
      let le_b : k ≤ length b = subst (λ x. k ≤ length x) same le in
      let f_b : got v ≡ got w ++ take k b = subst (λ x. got v ≡ got w ++ take k x) same f in
      let t : Copy E W = record { written = k; error = none; writer = v } in
      elim (Option-cases (pass_message write rt w m).0) [
        | inr (x, e) ↦
            let (le', f') = Delivers-source write got w b (joined bs) t (le_b, f_b) in
            (k, le', rw (e, read_websocket) f', λ a. let none_yet = none_lost a ended in absurd cc)
        | inl e ↦
            let all_b : k ≡ length b = whole e ∙ ap length same in
            let (j, le', f', all) = read_websocket-Passes rt bs ms gone v h rest in
            let after : Copy E W = record {
              written = j;
              error = none;
              writer = (read_websocket write rt ms gone v).0;
            } in
            let (le_all, f_all) =
              Delivers-append write got w v b (joined bs) after
                (written_whole write got w b t (le_b, f_b) all_b) (le', f') in
            (
              length b + j,
              le_all,
              rw (e, read_websocket) f_all,
              λ a. omega (arith, all a, length-append b (joined bs)),
            )
      ]

  -- A stream that writeWebsocket sends and readWebsocket, at the other end, passes to a writer, by
  -- its ReadFrom where it is an io.ReaderFrom and in copyBuffer where it is none, arrives there as
  -- a first part of itself, however its messages are cut into blocks on the way and whichever
  -- writes fail, and whole where none does; the messages that were sent have to arrive whole,
  -- ReadFrom has to write what it reads, to the end or to an error that it returns, and a writer
  -- without it has to keep to the contract of io.Writer.
  pub write_read :
      (rt : Option (W → Message E → Option E × W)) (refuses : List (List ℕ) → List ℕ → Bool)
      (bs : List (List ℕ)) (last : List ℕ) (ms : List (Message E)) (gone : E) (w : W)
      → IsTaker got write rt
      → Carries (write_websocket refuses bs last []) ms
      → (k : ℕ) × (k ≤ length (source bs last))
        × (got (read_websocket write rt ms gone w).0 ≡ got w ++ take k (source bs last))
        × (NeverRefuses refuses → AlwaysTakes got write rt → k ≡ length (source bs last))
  unfolding Sends
  write_read rt refuses bs last ms gone w h c =
      let sent = write_websocket refuses bs last [] in
      let (rest, same, all) = write_websocket-Sends refuses bs last [] in
      let (k, le, f, taken) = read_websocket-Passes rt sent ms gone w h c in
      (
        k,
        subst (λ x. k ≤ length x) same (omega (arith, length-append (joined sent) rest)),
        f ∙ ap (λ x. got w ++ x) (sym (take_inside k (joined sent) rest le) ∙ ap (take k) same),
        λ n a.
            taken a
            ∙ ap length
                (sym (append-nil (joined sent)) ∙ ap (λ x. joined sent ++ x) (sym (all n)) ∙ same),
      )
