-- ===== src/Pipeline/Buffer/Stream.antt =====
-- The stream that the buffer stage hands on: blocks of exactly `BUFFER_LEN` bytes, and what it
-- holds back.
use upkit.Prelude.{
  ℕ, zero, suc, ◌+◌, ◌-◌, ◌≤◌, ◌<◌, ◌≡◌, refl, sym, ap, ◌∙◌, List, [], ◌∷◌, ◌++◌, Option, none,
  some, ℤ, pos, length, take, drop, min, arith, append-nil, append_assoc, take-append-drop,
  length-take, length-drop, inl, inr, lt→ltb, ltb→lt, Bool-cases, ltb, subst, memcpy, length-memcpy,
  take-memcpy,
}
use upkit.Pipeline.{Stage, feed, feed-append, concat}
use upkit.Pipeline.Buffer.{
  BufferCtx, buffer_len, fill_round, fill, buffer_pipeline, pipeline_buffer_clear,
}

-- The array is whole, and `bufferp` points into it or just past it.
pub record IsValid (c : BufferCtx) : Type 0 where
  pub whole : length c.buffer ≡ buffer_len
  pub within : c.used ≤ buffer_len

-- The bytes that the stage holds back.
abbrev pub contents : BufferCtx → List ℕ
contents c = take c.used c.buffer

abbrev pub Blocks : List (List ℕ) → Type 0
Blocks [] = Unit
Blocks (b ∷ bs) = (length b ≡ buffer_len) × Blocks bs

Blocks-append : (bs cs : List (List ℕ)) → Blocks bs → Blocks cs → Blocks (bs ++ cs)
Blocks-append [] cs p q = q
Blocks-append (b ∷ bs) cs p q = (p.0, Blocks-append bs cs p.1 q)

concat-append : (bs cs : List (List ℕ)) → concat (bs ++ cs) ≡ concat bs ++ concat cs
concat-append [] cs = refl
concat-append (b ∷ bs) cs = rw (concat-append bs cs) (sym (append_assoc b (concat bs) (concat cs)))

module _ {S : Type 0} (next : Stage S) where
  -- What the stage has done with the bytes `input`, from `c` and `s` to `c'` and `s'`.
  pub record Buffered (c : BufferCtx) (s : S) (input : List ℕ) (c' : BufferCtx) (s' : S)
      : Type 0 where
    pub blocks : List (List ℕ)
    pub full : Blocks blocks
    pub fed : s' ≡ feed next blocks s
    pub kept : contents c ++ input ≡ concat blocks ++ contents c'
    pub valid : IsValid c'

  Buffered-nil : (c : BufferCtx) (s : S) → IsValid c → Buffered c s [] c s
  Buffered-nil c s v = record {
    blocks = [];
    full = tt;
    fed = refl;
    kept = append-nil (contents c);
    valid = v;
  }

  -- The copy of the first branch.
  Buffered-copy :
      (c : BufferCtx) (s : S) (n : ℕ) (xs : List ℕ)
      → IsValid c
      → n ≤ length xs
      → c.used + n ≤ buffer_len
      → Buffered c s
          (take n xs)
          (record { buffer = memcpy c.buffer c.used (take n xs); used = c.used + n })
          s
  Buffered-copy c s n xs v h k =
      let e : length (take n xs) ≡ n = omega (arith, length-take n xs) in
      record {
        blocks = [];
        full = tt;
        fed = refl;
        kept =
            sym (take-memcpy c.buffer c.used (take n xs) (omega (arith, v.whole)))
            ∙ ap (λ t. take (c.used + t) (memcpy c.buffer c.used (take n xs))) e;
        valid = record {
          whole = length-memcpy c.buffer c.used (take n xs) (omega (arith, v.whole)) ∙ v.whole;
          within = k;
        };
      }

  Buffered-flush :
      (c : BufferCtx) (s : S)
      → IsValid c
      → c.used ≡ buffer_len
      → Buffered c s [] (record c { used = 0 }) (next (take c.used c.buffer) s).1
  Buffered-flush c s v e = record {
    blocks = contents c ∷ [];
    full = (omega (arith, length-take c.used c.buffer, v.whole), tt);
    fed = refl;
    kept = sym (append-nil (contents c ++ []));
    valid = record { whole = v.whole; within = omega arith };
  }

  Buffered-trans :
      {c c' c'' : BufferCtx} {s s' s'' : S} {xs ys : List ℕ}
      → Buffered c s xs c' s'
      → Buffered c' s' ys c'' s''
      → Buffered c s (xs ++ ys) c'' s''
  Buffered-trans {c} {c'} {c''} {s} {s'} {s''} {xs} {ys} p q = record {
    blocks = p.blocks ++ q.blocks;
    full = Blocks-append p.blocks q.blocks p.full q.full;
    fed = q.fed ∙ (ap (feed next q.blocks) p.fed ∙ sym (feed-append next p.blocks q.blocks s));
    kept = cc (
      append_assoc (contents c) xs ys,
      append_assoc (concat p.blocks) (contents c') ys,
      append_assoc (concat p.blocks) (concat q.blocks) (contents c''),
      concat-append p.blocks q.blocks,
      p.kept,
      q.kept,
    );
    valid = q.valid;
  }

  fill_round-copy :
      (rest : List ℕ) (c : BufferCtx) (s : S)
      → c.used < buffer_len
      → let n = min (length rest) (buffer_len - c.used) in
        fill_round next rest c s
        ≡ some (
          drop n rest,
          record { buffer = memcpy c.buffer c.used (take n rest); used = c.used + n },
          s,
        )
  unfolding fill_round
  fill_round-copy rest c s h = rw (lt→ltb _ _ h)

  fill_round-flush :
      (rest : List ℕ) (c : BufferCtx) (s : S)
      → c.used ≡ buffer_len
      → fill_round next rest c s
        ≡ some (rest, record c { used = 0 }, (next (take c.used c.buffer) s).1)
  unfolding fill_round
  fill_round-flush rest c s e = ground (arith, e)

  -- One round at valid state: the bytes it takes, and those that it leaves.
  record Round (rest : List ℕ) (c : BufferCtx) (s : S) : Type 0 where
    taken : List ℕ
    left : List ℕ
    c' : BufferCtx
    s' : S
    runs : fill_round next rest c s ≡ some (left, c', s')
    split : taken ++ left ≡ rest
    done : Buffered c s taken c' s'
    falls :
        length left + length left + 1
        ≤ length rest + length rest + min 1 (buffer_len - c'.used) - min 1 (buffer_len - c.used)

  Round-runs : (x : ℕ) (xs : List ℕ) (c : BufferCtx) (s : S) → IsValid c → Round (x ∷ xs) c s
  Round-runs x xs c s v = elim (Bool-cases (ltb c.used buffer_len)) [
    | inl t ↦
        let n : ℕ = min (suc (length xs)) (buffer_len - c.used) in
        record {
          taken = take n (x ∷ xs);
          left = drop n (x ∷ xs);
          c' = record { buffer = memcpy c.buffer c.used (take n (x ∷ xs)); used = c.used + n };
          s' = s;
          runs = fill_round-copy (x ∷ xs) c s (ltb→lt _ _ t);
          split = take-append-drop n (x ∷ xs);
          done = Buffered-copy c s n (x ∷ xs) v (omega arith) (omega (arith, ltb→lt _ _ t));
          falls = omega (arith, ltb→lt _ _ t, length-drop n (x ∷ xs));
        }
    | inr t ↦
        let e : c.used ≡ buffer_len = ground (arith, v.within) in
        record {
          taken = [];
          left = x ∷ xs;
          c' = record c { used = 0 };
          s' = (next (take c.used c.buffer) s).1;
          runs = fill_round-flush (x ∷ xs) c s e;
          split = refl;
          done = Buffered-flush c s v e;
          falls = omega arith;
        }
  ]

  fill-suc :
      (fuel x : ℕ) (xs left : List ℕ) (c c' : BufferCtx) (s s' : S)
      → fill_round next (x ∷ xs) c s ≡ some (left, c', s')
      → fill next (suc fuel) (x ∷ xs) c s ≡ fill next fuel left c' s'
  unfolding fill
  fill-suc fuel x xs left c c' s s' e = rw (fill, e)

  -- The loop ends, within two rounds for each byte, and its state is the buffered stream.
  fill_runs :
      (fuel : ℕ) (xs : List ℕ) (c : BufferCtx) (s : S)
      → IsValid c
      → length xs + length xs ≤ fuel + min 1 (buffer_len - c.used)
      → (c' : BufferCtx) × (s' : S) × (fill next fuel xs c s ≡ some (c', s'))
        × Buffered c s xs c' s'
  unfolding fill
  fill_runs fuel [] c s v h = (c, s, refl, Buffered-nil c s v)
  fill_runs zero (x ∷ xs) c s v h = absurd (omega arith)
  fill_runs (suc fuel) (x ∷ xs) c s v h =
      let r = Round-runs x xs c s v in
      let (c', s', e, q) = fill_runs fuel r.left r.c' r.s' r.done.valid (omega (arith, r.falls)) in
      (
        c',
        s',
        fill-suc fuel x xs r.left c r.c' s r.s' r.runs ∙ e,
        subst (λ i. Buffered c s i c' s') r.split (Buffered-trans r.done q),
      )

  buffer_pipeline-some :
      (xs : List ℕ) (c c' : BufferCtx) (s s' : S)
      → fill next (length xs + length xs) xs c s ≡ some (c', s')
      → buffer_pipeline next xs c s ≡ some (pos (length xs), c', s')
  unfolding buffer_pipeline
  buffer_pipeline-some xs c c' s s' e = rw (buffer_pipeline, e)

  -- In a valid buffer stage every call ends, without the failed assertion, and returns the number of
  -- bytes that it was given; the next stage is handed blocks of exactly `BUFFER_LEN` bytes, which,
  -- followed by what the stage still holds, are what it held before and the new bytes, in order.
  pub buffer_pipeline_lem :
      (xs : List ℕ) (c : BufferCtx) (s : S)
      → IsValid c
      → (c' : BufferCtx) × (s' : S) × (buffer_pipeline next xs c s ≡ some (pos (length xs), c', s'))
        × Buffered c s xs c' s'
  unfolding buffer_pipeline
  buffer_pipeline_lem xs c s v =
      let (c', s', e, q) = fill_runs (length xs + length xs) xs c s v (omega arith) in
      (c', s', buffer_pipeline-some xs c c' s s' e, q)

  -- The calls of `buffer_pipeline` on a list of inputs, then `pipeline_buffer_clear`.
  unfoldable pub stream : List (List ℕ) → BufferCtx → S → Option S
  unfolding pipeline_buffer_clear
  stream [] c s = some (pipeline_buffer_clear next c s).2
  stream (xs ∷ xss) c s = elim (buffer_pipeline next xs c s) [
    | none ↦ none
    | some (_, c', s') ↦ stream xss c' s'
  ]

  stream-cons :
      (xs : List ℕ) (xss : List (List ℕ)) (c c' : BufferCtx) (s s' : S) (n : ℤ)
      → buffer_pipeline next xs c s ≡ some (n, c', s')
      → stream (xs ∷ xss) c s ≡ stream xss c' s'
  unfolding stream
  stream-cons xs xss c c' s s' n e = rw (stream, e)

  fed_on :
      (bs cs : List (List ℕ)) (s s' : S)
      → s' ≡ feed next bs s
      → feed next cs s' ≡ feed next (bs ++ cs) s
  fed_on bs cs s s' e = ap (feed next cs) e ∙ sym (feed-append next bs cs s)

  -- However the input is cut into calls, the next stage receives exactly its bytes, in order: whole
  -- blocks of `BUFFER_LEN`, and a last block with the rest.
  pub stream_lem :
      (xss : List (List ℕ)) (c : BufferCtx) (s : S)
      → IsValid c
      → (bs : List (List ℕ)) × (rest : List ℕ) × Blocks bs
        × (stream xss c s ≡ some (feed next (bs ++ (rest ∷ [])) s))
        × (concat bs ++ rest ≡ contents c ++ concat xss)
  unfolding stream
  stream_lem [] c s v = ([], contents c, tt, refl, sym (append-nil (contents c)))
  stream_lem (xs ∷ xss) c s v =
      let (c', s', e, q) = buffer_pipeline_lem xs c s v in
      let (bs, rest, full, fed, kept) = stream_lem xss c' s' q.valid in
      (
        q.blocks ++ bs,
        rest,
        Blocks-append q.blocks bs q.full full,
        stream-cons xs xss c c' s s' _ e
            ∙ (fed
                ∙ ap some (
                    fed_on q.blocks (bs ++ (rest ∷ [])) s s' q.fed
                    ∙ ap (λ t. feed next t s) (sym (append_assoc q.blocks bs (rest ∷ []))))),
        cc (
          kept,
          q.kept,
          concat-append q.blocks bs,
          append_assoc (concat q.blocks) (concat bs) rest,
          append_assoc (concat q.blocks) (contents c') (concat xss),
          append_assoc (contents c) xs (concat xss),
        ),
      )
