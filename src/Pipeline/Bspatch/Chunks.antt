-- ===== src/Pipeline/Bspatch/Chunks.antt =====
-- The stage is a function of its input: how the patch is cut into calls does not matter.
use upkit.Prelude.{
  ℕ, ◌+◌, ◌≡◌, refl, sym, ap, subst, subst₂, ◌∙◌, Bool, true, false, List, [], ◌∷◌, ◌++◌, ℤ, pos,
  negsuc, is_negative, if◌then◌else◌, arith,
}
use upkit.Memory.{MemoryImpl}
use upkit.Pipeline.{Stage}
use upkit.Pipeline.Bspatch.{
  Patch, Saved, inside, BspatchCtx, Run, going, finished, failed, suspend, resume, on_byte,
  take_bytes, bspatch_pipeline,
}

-- The result of a call, with `n` more bytes counted if it is a count.
abbrev pub add_count : ℕ → ℤ → ℤ
add_count n (pos m) = pos (n + m)
add_count n (negsuc m) = negsuc m

-- One call on two inputs, `whole`, against the call on the second after the first, which took `n` bytes.
abbrev pub SameCall : {S : Type 0} → ℕ → ℤ × BspatchCtx × S → ℤ × BspatchCtx × S → Type 0
SameCall n whole second =
    (whole.2 ≡ second.2)
    × (whole.1.patch ≡ second.1.patch)
    × (whole.0 ≡ add_count n second.0)
    × (is_negative second.0 ≡ false → whole.1.finish ≡ second.1.finish)

module _ {O W S : Type 0} (mem : MemoryImpl O W) (old : O) (dev : S → W) (put : W → S → S)
    (next : Stage S) where
  take : ℕ → List ℕ → Run S → ℕ × Run S
  take = take_bytes mem old dev put next

  take-finished :
      (n : ℕ) (bs : List ℕ) (p : Patch) (s : S) → take n bs (finished p s) ≡ (n, finished p s)
  unfolding take take_bytes
  take-finished n [] p s = refl
  take-finished n (b ∷ bs) p s = refl

  take-failed :
      (n : ℕ) (bs : List ℕ) (e : ℕ) (p : Patch) (s : S)
      → take n bs (failed e p s) ≡ (n, failed e p s)
  unfolding take take_bytes
  take-failed n [] e p s = refl
  take-failed n (b ∷ bs) e p s = refl

  take-append :
      (n : ℕ) (xs ys : List ℕ) (r : Run S)
      → take n (xs ++ ys) r ≡ take (take n xs r).0 ys (take n xs r).1
  unfolding take take_bytes
  take-append n [] ys r = refl
  take-append n (x ∷ xs) ys (going g p s) =
      take-append (n + 1) xs ys (on_byte mem old dev put next x g p s)
  take-append n (x ∷ xs) ys (finished p s) = sym (take-finished n ys p s)
  take-append n (x ∷ xs) ys (failed e p s) = sym (take-failed n ys e p s)

  take-add :
      (m n : ℕ) (ys : List ℕ) (r : Run S)
      → take (m + n) ys r ≡ (m + (take n ys r).0, (take n ys r).1)
  unfolding take take_bytes
  take-add m n [] r = refl
  take-add m n (y ∷ ys) (going g p s) =
      let e : m + n + 1 ≡ m + (n + 1) = omega arith in
      ap (λ k. take k ys (on_byte mem old dev put next y g p s)) e
      ∙ take-add m (n + 1) ys (on_byte mem old dev put next y g p s)
  take-add m n (y ∷ ys) (finished p s) = refl
  take-add m n (y ∷ ys) (failed e p s) = refl

  suspend-add :
      (n m k : ℕ) (saved saved' : Saved) (r : Run S)
      → k ≡ n + m
      → SameCall n (suspend saved (k, r)) (suspend saved' (m, r))
  unfolding suspend
  suspend-add n m k saved saved' (going g p s) e = (refl, refl, ap pos e, λ _. refl)
  suspend-add n m k saved saved' (finished p s) e = (refl, refl, ap pos e, λ _. refl)
  suspend-add n m k saved saved' (failed x p s) e = (refl, refl, refl, λ h. cc)

  whole_call :
      (xs ys : List ℕ) (ctx ctx' : BspatchCtx) (s s' : S) (k : ℕ) (r : ℕ × Run S)
      → take 0 xs (going (resume ctx).0 (resume ctx).1 s) ≡ r
      → suspend ctx.state r ≡ (pos k, ctx', s')
      → SameCall k
          (suspend ctx.state (take r.0 ys r.1))
          (bspatch_pipeline mem old dev put next ys ctx' s')
  unfolding take bspatch_pipeline suspend resume
  whole_call xs ys ctx ctx' s s' k (m, failed e p t) q h = cc
  whole_call xs ys ctx ctx' s s' k (m, finished p t) q h =
      let a : m ≡ k = cc (ap (λ (z : ℤ × BspatchCtx × S). z.0) h) in
      subst₂
        (λ c t'.
          SameCall k (suspend ctx.state (take m ys (finished p t)))
            (bspatch_pipeline mem old dev put next ys c t'))
        (ap (λ z. z.1) h) (ap (λ z. z.2) h)
        (subst
          (λ w.
            SameCall k (suspend ctx.state w)
              (pos 0, record { state = ctx.state; finish = true; patch = p }, t))
          (sym (take-finished m ys p t)) (refl, refl, ap pos (omega arith), λ _. refl))
  whole_call xs ys ctx ctx' s s' k (m, going g p t) q h =
      let a : m ≡ k = cc (ap (λ (z : ℤ × BspatchCtx × S). z.0) h) in
      subst₂
        (λ c t'.
          SameCall k (suspend ctx.state (take m ys (going g p t)))
            (bspatch_pipeline mem old dev put next ys c t'))
        (ap (λ z. z.1) h) (ap (λ z. z.2) h)
        (subst
          (λ w. SameCall k (suspend ctx.state w) (suspend (inside g) (take 0 ys (going g p t))))
          (sym (
            ap (λ j. take j ys (going g p t)) (let e : m ≡ k + 0 = omega arith in e)
            ∙ take-add k 0 ys (going g p t)))
          (suspend-add k (take 0 ys (going g p t)).0 _ ctx.state (inside g)
            (take 0 ys (going g p t)).1 refl))

  split_call :
      (xs ys : List ℕ) (ctx ctx' : BspatchCtx) (s s' : S) (k : ℕ) (b : Bool)
      → ctx.finish ≡ b
      → (if b
          then (pos 0, ctx, s)
          else suspend ctx.state (take 0 xs (going (resume ctx).0 (resume ctx).1 s)))
        ≡ (pos k, ctx', s')
      → SameCall k
          (if b
            then (pos 0, ctx, s)
            else suspend ctx.state (take 0 (xs ++ ys) (going (resume ctx).0 (resume ctx).1 s)))
          (bspatch_pipeline mem old dev put next ys ctx' s')
  unfolding bspatch_pipeline
  split_call xs ys ctx ctx' s s' k false f h =
      subst
        (λ w. SameCall k (suspend ctx.state w) (bspatch_pipeline mem old dev put next ys ctx' s'))
        (sym (take-append 0 xs ys (going (resume ctx).0 (resume ctx).1 s)))
        (whole_call xs ys ctx ctx' s s' k _ refl h)
  split_call xs ys ctx ctx' s s' k true f h =
      let a : 0 ≡ k = cc (ap (λ (z : ℤ × BspatchCtx × S). z.0) h) in
      let e : bspatch_pipeline mem old dev put next ys ctx s ≡ (pos 0, ctx, s) = rw f refl in
      subst₂ (λ c t'. SameCall k (pos 0, ctx, s) (bspatch_pipeline mem old dev put next ys c t'))
        (ap (λ z. z.1) h) (ap (λ z. z.2) h)
        (subst (SameCall k (pos 0, ctx, s)) (sym e) (refl, refl, ap pos (omega arith), λ _. refl))

  -- If a first call has returned a count, one call on both inputs does what a second call on the rest
  -- does: the same bytes go on, the variables and the result are the same (the bytes of the first call
  -- counted too), and the patch is at its end after the one if it is after the other and that has not
  -- failed. So it is too when the patch ends in the first call.
  pub bspatch_pipeline-append :
      (xs ys : List ℕ) (ctx ctx' : BspatchCtx) (s s' : S) (k : ℕ)
      → bspatch_pipeline mem old dev put next xs ctx s ≡ (pos k, ctx', s')
      → SameCall k
          (bspatch_pipeline mem old dev put next (xs ++ ys) ctx s)
          (bspatch_pipeline mem old dev put next ys ctx' s')
  unfolding bspatch_pipeline take
  bspatch_pipeline-append xs ys ctx ctx' s s' k h =
      split_call xs ys ctx ctx' s s' k ctx.finish refl h
