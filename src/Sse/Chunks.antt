-- ===== src/Sse/Chunks.antt =====
-- How the upstream's bytes are cut into chunks, and what that does to the events.
use mathlib.Core.List.{append_assoc}
use agcp.Prelude.{
  ℕ, zero, suc, ◌≤◌, ◌<◌, ◌≡◌, refl, sym, ap, ◌∙◌, Bool, false, none, some, [], ◌∷◌, ◌++◌, arith,
  ◌==◌, length, any, any-append, Option-cases, inl, inr,
}
use agcp.Prelude.Text.{Bytes, split_on}
use agcp.Prelude.Text.Split.{
  split_on_sound, length-split_on, split_on-append, split_on_absent, split_on_first,
}
use agcp.Sse.Parser.{Externals}
use agcp.Sse.Feed.{Decoder, Feed, Fed, boundary, take_line, drain, feed}

-- A boundary takes at least one byte off the buffer.
length-boundary : (s line rest : Bytes) → boundary s ≡ some (line, rest) → length rest < length s
unfolding boundary
length-boundary s line rest h = ground (
  arith,
  length-split_on (13 ∷ 10 ∷ 13 ∷ 10 ∷ []) s line rest,
  length-split_on (10 ∷ 10 ∷ []) s line rest,
)

boundary-nil : boundary [] ≡ none
unfolding boundary split_on
boundary-nil = refl

-- No carriage return.
abbrev pub has_cr : Bytes → Bool
has_cr = any (λ b. b == 13)

boundary_lf : (s : Bytes) → has_cr s ≡ false → boundary s ≡ split_on (10 ∷ 10 ∷ []) s
unfolding boundary
boundary_lf s h = rw (split_on_absent 13 (10 ∷ 13 ∷ 10 ∷ []) s h)

boundary-append :
    (s line rest more : Bytes)
    → has_cr (s ++ more) ≡ false
    → boundary s ≡ some (line, rest)
    → boundary (s ++ more) ≡ some (line, rest ++ more)
boundary-append s line rest more h e =
    let p : has_cr s ≡ false = ground (arith, any-append (λ b. b == 13) s more) in
    boundary_lf (s ++ more) h
    ∙ split_on-append (10 ∷ 10 ∷ []) s line rest more (sym (boundary_lf s p) ∙ e)

has_cr-rest :
    (s line rest more : Bytes)
    → has_cr (s ++ more) ≡ false
    → boundary s ≡ some (line, rest)
    → has_cr (rest ++ more) ≡ false
has_cr-rest s line rest more h e =
    let p : has_cr s ≡ false = ground (arith, any-append (λ b. b == 13) s more) in
    let q = split_on_sound (10 ∷ 10 ∷ []) s line rest (sym (boundary_lf s p) ∙ e) in
    ground (
      arith,
      q,
      any-append (λ b. b == 13) s more,
      any-append (λ b. b == 13) rest more,
      any-append (λ b. b == 13) line (10 ∷ 10 ∷ rest),
    )

boundary_short : (s : Bytes) → length s ≤ 0 → boundary s ≡ none
boundary_short [] h = boundary-nil
boundary_short (b ∷ s) h = absurd (omega arith)

module _ (ext : Externals) (dec : Decoder ext) (clocks : ℕ → ℕ → ℕ × ℕ) where
  open ext use {Json}

  abbrev run : ℕ → Feed → Fed ext dec clocks
  run = drain ext dec clocks

  drain_none : (n : ℕ) (f : Feed) → boundary f.buffer ≡ none → run n f ≡ (f, [])
  unfolding drain
  drain_none zero f e = refl
  drain_none (suc n) f e = rw (e, drain)

  -- The events of one line, and those of the rest of the buffer behind them.
  abbrev after : ℕ → Fed ext dec clocks → Fed ext dec clocks
  after n one = ((run n one.0).0, one.1 ++ (run n one.0).1)

  drain_some :
      (n : ℕ) (f : Feed) (line rest : Bytes)
      → boundary f.buffer ≡ some (line, rest)
      → run (suc n) f ≡ after n (take_line ext dec clocks line rest f)
  unfolding drain
  drain_some n f line rest e = rw (e, drain)

  buffer-take_line :
      (line rest : Bytes) (f : Feed) → (take_line ext dec clocks line rest f).0.buffer ≡ rest
  unfolding take_line
  buffer-take_line line rest f = refl

  -- More fuel than bytes changes nothing.
  drain_enough :
      (n m : ℕ) (f : Feed) → length f.buffer ≤ n → length f.buffer ≤ m → run n f ≡ run m f
  drain_enough zero m f h k =
      let e = boundary_short f.buffer h in drain_none zero f e ∙ sym (drain_none m f e)
  drain_enough (suc n) zero f h k =
      let e = boundary_short f.buffer k in drain_none (suc n) f e ∙ sym (drain_none zero f e)
  drain_enough (suc n) (suc m) f h k = elim (Option-cases (boundary f.buffer)) [
    | inl e ↦ drain_none (suc n) f e ∙ sym (drain_none (suc m) f e)
    | inr (found, e) ↦
        let one = take_line ext dec clocks found.0 found.1 f in
        let shorter = length-boundary f.buffer found.0 found.1 e in
        let b = buffer-take_line found.0 found.1 f in
        let ih =
          drain_enough n m one.0 (rw b (omega (arith, shorter))) (rw b (omega (arith, shorter))) in
        drain_some n f found.0 found.1 e
        ∙ ap (λ r. (r.0, one.1 ++ r.1)) ih
        ∙ sym (drain_some m f found.0 found.1 e)
  ]

  -- Fuel for every byte leaves no complete event in the buffer.
  boundary-drain : (n : ℕ) (f : Feed) → length f.buffer ≤ n → boundary (run n f).0.buffer ≡ none
  boundary-drain zero f h = let e = boundary_short f.buffer h in rw (drain_none zero f e) e
  boundary-drain (suc n) f h = elim (Option-cases (boundary f.buffer)) [
    | inl e ↦ rw (drain_none (suc n) f e) e
    | inr (found, e) ↦
        let one = take_line ext dec clocks found.0 found.1 f in
        let shorter = length-boundary f.buffer found.0 found.1 e in
        rw (drain_some n f found.0 found.1 e) (
          boundary-drain n one.0 (rw (buffer-take_line found.0 found.1 f) (omega (arith, shorter))))
  ]

  -- After `feed` no complete event is left in the buffer: the loop never stops for want of fuel.
  pub boundary-feed :
      (chunk : Bytes) (f : Feed) → boundary (feed ext dec clocks chunk f).0.buffer ≡ none
  unfolding feed
  boundary-feed chunk f =
      boundary-drain (length (f.buffer ++ chunk)) (record f { buffer = f.buffer ++ chunk })
        (omega arith)

  -- The chunk that has not come yet, behind the buffer.
  abbrev append : Bytes → Feed → Feed
  append more f = record f { buffer = f.buffer ++ more }

  take_line-append :
      (line rest more : Bytes) (f : Feed)
      → take_line ext dec clocks line (rest ++ more) (append more f) ≡ (
        append more (take_line ext dec clocks line rest f).0,
        (take_line ext dec clocks line rest f).1,
      )
  unfolding take_line
  take_line-append line rest more f = refl

  abbrev full : Feed → Fed ext dec clocks
  full f = run (length f.buffer) f

  abbrev then_drain : Bytes → Fed ext dec clocks → Fed ext dec clocks
  then_drain more r = ((full (append more r.0)).0, r.1 ++ (full (append more r.0)).1)

  -- To drain a buffer and then, with more bytes behind what is left, again, is to drain both.
  drain-append :
      (n : ℕ) (more : Bytes) (f : Feed)
      → length f.buffer ≤ n
      → has_cr (f.buffer ++ more) ≡ false
      → full (append more f) ≡ then_drain more (run n f)
  drain-append zero more f h cr = let e = boundary_short f.buffer h in rw (drain_none zero f e)
  drain-append (suc n) more f h cr = elim (Option-cases (boundary f.buffer)) [
    | inl e ↦ rw (drain_none (suc n) f e)
    | inr (found, e) ↦
        let one = take_line ext dec clocks found.0 found.1 f in
        let size = length (f.buffer ++ more) in
        let b = buffer-take_line found.0 found.1 f in
        let e' = boundary-append f.buffer found.0 found.1 more cr e in
        let shorter = length-boundary f.buffer found.0 found.1 e in
        let shorter' = length-boundary (f.buffer ++ more) found.0 (found.1 ++ more) e' in
        let ih =
          drain-append n more one.0 (rw b (omega (arith, shorter)))
            (rw b (has_cr-rest f.buffer found.0 found.1 more cr e)) in
        let enough : run size (append more one.0) ≡ full (append more one.0) =
          drain_enough size (length (one.0.buffer ++ more)) (append more one.0)
            (rw b (omega (arith, shorter'))) (omega arith) in
        let r = run n one.0 in
        drain_enough size (suc size) (append more f) (omega arith) (omega arith)
        ∙ drain_some size (append more f) found.0 (found.1 ++ more) e'
        ∙ ap (after size) (take_line-append found.0 found.1 more f)
        ∙ ap (λ q. (q.0, one.1 ++ q.1)) (enough ∙ ih)
        ∙ ap (λ events. ((full (append more r.0)).0, events))
            (sym (append_assoc one.1 r.1 (full (append more r.0)).1))
        ∙ ap (then_drain more) (sym (drain_some n f found.0 found.1 e))
  ]

  abbrev then_feed : Bytes → Fed ext dec clocks → Fed ext dec clocks
  then_feed more r = ((feed ext dec clocks more r.0).0, r.1 ++ (feed ext dec clocks more r.0).1)

  -- Bytes without a carriage return give the same events and leave the same state, whether they
  -- come in one chunk or in two.
  pub feed-append :
      (chunk more : Bytes) (f : Feed)
      → has_cr (f.buffer ++ (chunk ++ more)) ≡ false
      → feed ext dec clocks (chunk ++ more) f ≡ then_feed more (feed ext dec clocks chunk f)
  unfolding feed
  feed-append chunk more f cr =
      let a = append_assoc f.buffer chunk more in
      rw (← a) (
        drain-append (length (f.buffer ++ chunk)) more (record f { buffer = f.buffer ++ chunk })
          (omega arith) (rw a cr))

-- Two events, the first ended by LF LF and the second by CR LF CR LF: if they are in the buffer
-- together, they are taken off it as one line; if the first comes alone, it is a line of its own.
pub boundary_mixed :
    (l k : Bytes)
    → any (λ b. b == 10) l ≡ false
    → has_cr l ≡ false
    → has_cr k ≡ false
    → (boundary ((l ++ (10 ∷ 10 ∷ k)) ++ (13 ∷ 10 ∷ 13 ∷ 10 ∷ [])) ≡ some (l ++ (10 ∷ 10 ∷ k), []))
      × (boundary (l ++ (10 ∷ 10 ∷ [])) ≡ some (l, []))
boundary_mixed l k lf cr cr' =
    let whole : has_cr (l ++ (10 ∷ 10 ∷ k)) ≡ false =
      ground (arith, any-append (λ b. b == 13) l (10 ∷ 10 ∷ k)) in
    let alone : has_cr (l ++ (10 ∷ 10 ∷ [])) ≡ false =
      ground (arith, any-append (λ b. b == 13) l (10 ∷ 10 ∷ [])) in
    (
      unfold boundary in rw (split_on_first 13 (10 ∷ 13 ∷ 10 ∷ []) (l ++ (10 ∷ 10 ∷ k)) [] whole),
      boundary_lf (l ++ (10 ∷ 10 ∷ [])) alone ∙ split_on_first 10 (10 ∷ []) l [] lf,
    )
