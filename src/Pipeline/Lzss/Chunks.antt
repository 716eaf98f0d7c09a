-- ===== src/Pipeline/Lzss/Chunks.antt =====
-- The decoder is a function of the bits of its input: how the input is cut into calls does not matter.
use upkit.Prelude.{
  ℕ, zero, suc, ◌+◌, ◌/◌, ◌%◌, ◌^◌, ◌≡◌, refl, sym, ap, subst, subst₂, ◌∙◌, List, [], ◌∷◌, ◌++◌, ℤ,
  pos, negsuc, is_negative, false, length, length-append,
}
use upkit.Pipeline.{Stage}
use upkit.Pipeline.Lzss.{
  Getbit, Decoder, Run, going, failed, run_then, Saved, inside, LzssCtx, push_bit, drain,
  take_bytes, resume, suspend, lzss_pipeline,
}

-- The `n` low bits of a number, the highest first.
abbrev pub bits : ℕ → ℕ → List ℕ
bits zero v = []
bits (suc n) v = (v / 2 ^ n) % 2 ∷ bits n v

-- The bits of a byte string, as the decoder reads them.
abbrev pub spell : List ℕ → List ℕ
spell [] = []
spell (b ∷ bs) = bits 8 b ++ spell bs

-- The result of a call, with `n` more bytes counted if it is a count.
abbrev pub add_count : ℕ → ℤ → ℤ
add_count n (pos m) = pos (n + m)
add_count n (negsuc m) = negsuc m

module _ {S : Type 0} (next : Stage S) where
  unfoldable pub feed_bits : List ℕ → Getbit → Decoder → S → Run S
  feed_bits [] g d s = going g d s
  feed_bits (b ∷ bs) g d s = run_then (push_bit next b g d s) (feed_bits bs)

  run_then_assoc :
      (m : Run S) (f h : Getbit → Decoder → S → Run S)
      → run_then (run_then m f) h ≡ run_then m (λ g d s. run_then (f g d s) h)
  run_then_assoc (going g d s) f h = refl
  run_then_assoc (failed d s) f h = refl

  pub feed_bits-append :
      (xs ys : List ℕ) (g : Getbit) (d : Decoder) (s : S)
      → feed_bits (xs ++ ys) g d s ≡ run_then (feed_bits xs g d s) (feed_bits ys)
  unfolding feed_bits
  feed_bits-append [] ys g d s = refl
  feed_bits-append (x ∷ xs) ys g d s =
      (λ i. run_then (push_bit next x g d s) (λ g' d' s'. feed_bits-append xs ys g' d' s' i))
      ∙ sym (run_then_assoc (push_bit next x g d s) (feed_bits xs) (feed_bits ys))

  -- The mask goes through the bits of the byte, the highest first.
  drain_lem :
      (b : ℕ) (g : Getbit) (d : Decoder) (s : S)
      → drain next 8 b 128 g d s ≡ feed_bits (bits 8 b) g d s
  unfolding drain feed_bits
  drain_lem b g d s = refl

  pub take_bytes_lem :
      (bs : List ℕ) (g : Getbit) (d : Decoder) (s : S)
      → take_bytes next bs g d s ≡ feed_bits (spell bs) g d s
  unfolding take_bytes feed_bits
  take_bytes_lem [] g d s = refl
  take_bytes_lem (b ∷ bs) g d s =
      (λ i. run_then (drain_lem b g d s i) (λ g' d' s'. take_bytes_lem bs g' d' s' i))
      ∙ sym (feed_bits-append (bits 8 b) (spell bs) g d s)

  pub take_bytes-append :
      (xs ys : List ℕ) (g : Getbit) (d : Decoder) (s : S)
      → take_bytes next (xs ++ ys) g d s ≡ run_then (take_bytes next xs g d s) (take_bytes next ys)
  unfolding take_bytes
  take_bytes-append [] ys g d s = refl
  take_bytes-append (x ∷ xs) ys g d s =
      (λ i. run_then (drain next 8 x 128 g d s) (λ g' d' s'. take_bytes-append xs ys g' d' s' i))
      ∙ sym (run_then_assoc (drain next 8 x 128 g d s) (take_bytes next xs) (take_bytes next ys))

  -- One call on two inputs, `whole`, against the call on the second after the first, of `n` bytes.
  abbrev pub SameCall : ℕ → ℤ × LzssCtx × S → ℤ × LzssCtx × S → Type 0
  SameCall n whole second =
      (whole.2 ≡ second.2)
      × (whole.1.dec ≡ second.1.dec)
      × (whole.0 ≡ add_count n second.0)
      × (is_negative second.0 ≡ false → whole.1 ≡ second.1)

  suspend-add :
      (n m k : ℕ) (saved saved' : Saved) (r : Run S)
      → k ≡ n + m
      → SameCall n (suspend k saved r) (suspend m saved' r)
  unfolding suspend
  suspend-add n m k saved saved' (going g d s) e = (refl, refl, ap pos e, λ _. refl)
  suspend-add n m k saved saved' (failed d s) e = (refl, refl, refl, λ h. cc)

  lzss_after :
      (xs ys : List ℕ) (ctx ctx' : LzssCtx) (s s' : S) (k : ℕ) (r : Run S)
      → take_bytes next xs (resume ctx).0 (resume ctx).1 s ≡ r
      → suspend (length xs) ctx.state r ≡ (pos k, ctx', s')
      → SameCall (length xs) (lzss_pipeline next (xs ++ ys) ctx s) (lzss_pipeline next ys ctx' s')
  unfolding lzss_pipeline
  lzss_after xs ys ctx ctx' s s' k (failed d t) e h = cc
  lzss_after xs ys ctx ctx' s s' k (going g d t) e h =
      subst₂
        (λ c t.
          SameCall (length xs) (lzss_pipeline next (xs ++ ys) ctx s) (lzss_pipeline next ys c t))
        (ap (λ t. t.1) h) (ap (λ t. t.2) h)
        (subst
          (λ r.
            SameCall (length xs) (suspend (length (xs ++ ys)) ctx.state r)
              (suspend (length ys) (inside g) (take_bytes next ys g d t)))
          (sym (
            take_bytes-append xs ys (resume ctx).0 (resume ctx).1 s
            ∙ ap (λ m. run_then m (take_bytes next ys)) e))
          (suspend-add (length xs) (length ys) (length (xs ++ ys)) ctx.state (inside g)
            (take_bytes next ys g d t) (length-append xs ys)))

  -- If a first call has not failed, one call on both inputs does what a second call on the rest does:
  -- the same bytes go on, the variables and the result are the same (the bytes of the first call
  -- counted too), and so is the saved state if the second call does not fail.
  pub lzss_pipeline-append :
      (xs ys : List ℕ) (ctx ctx' : LzssCtx) (s s' : S) (k : ℕ)
      → lzss_pipeline next xs ctx s ≡ (pos k, ctx', s')
      → SameCall (length xs) (lzss_pipeline next (xs ++ ys) ctx s) (lzss_pipeline next ys ctx' s')
  unfolding lzss_pipeline
  lzss_pipeline-append xs ys ctx ctx' s s' k h = lzss_after xs ys ctx ctx' s s' k _ refl h
