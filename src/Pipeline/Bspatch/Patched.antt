-- ===== src/Pipeline/Bspatch/Patched.antt =====
-- The stage makes the new image out of the old one and a patch.
use upkit.Prelude.{
  ℕ, ◌+◌, ◌%◌, ◌<◌, ◌≤◌, ◌≡◌, refl, sym, ap, ap₂, subst, ◌∙◌, true, false, List, [], ◌∷◌, ◌++◌, ℤ,
  pos, ◌+ℤ◌, length, replicate, append_assoc, arith,
}
use upkit.Memory.{MemoryImpl, memory_read}
use upkit.Pipeline.{Stage, feed, feed-append, singles, singles-append}
use upkit.Pipeline.Bspatch.{
  at_header, at_control, at_diff, at_extra, Patch, start, BspatchCtx, Run, going, finished, read_y,
  next_block, end_block, extra_loop, end_diff, diff_loop, on_diff, on_extra, on_byte, take_bytes,
  resume, suspend, bspatch_pipeline,
}
use upkit.Pipeline.Bspatch.Words.{length-received, receive, read_y-receive}
use upkit.Pipeline.Bspatch.Format.{
  Entry, encode, encode_all, size_of, encode_patch, address, sums, behind, patched, InRange, Runs,
  Runs-append, Runs-nil, Runs-cons, magic-Runs, size-Runs, control-Runs,
}
use upkit.FirmwareTool.Offset.{magnitude, offtout}
use upkit.Pipeline.Bspatch.Branches.{
  Ready, diff_loop-going, diff_loop-end, extra_loop-going, extra_loop-end, end_control-diff,
  end_diff-extra, next_block-going, next_block-finished,
}

module _ {O W S : Type 0} (mem : MemoryImpl O W) (old : O) (dev : S → W) (put : W → S → S)
    (next : Stage S) where
  -- The bytes of the old image can be read one by one, without changing the device, whatever the stages
  -- behind are handed.
  pub record ReadsOld (Good : S → Type 0) (size : ℕ) (image : ℕ → ℕ) : Type 0 where
    pub read :
        (s : S) (a : ℕ)
        → Good s
        → a < size
        → memory_read mem old 1 a (dev s) ≡ (1, image a ∷ [], dev s)
    pub unread : (s : S) → put (dev s) s ≡ s
    pub keeps : (b : List ℕ) (s : S) → Good s → Good (next b s).1

  module _ (Good : S → Type 0) (size : ℕ) (image : ℕ → ℕ) (ro : ReadsOld Good size image) where
    feed-Good : (bs : List (List ℕ)) (s : S) → Good s → Good (feed next bs s)
    feed-Good [] s g = g
    feed-Good (b ∷ bs) s g = feed-Good bs (next b s).1 (ro.keeps b s g)

    on_diff_lem :
        (d : ℕ) (p : Patch) (s : S)
        → Good s
        → address p.oldpos p.i < size
        → on_byte mem old dev put next d at_diff p s
          ≡ diff_loop
              (record p { i = p.i + 1 })
              (next (((d + image (address p.oldpos p.i)) % 256) ∷ []) s).1
    unfolding on_byte on_diff
    on_diff_lem d p s g l = rw (ro.read s (address p.oldpos p.i) g l, ro.unread s) refl

    Runs-from :
        {bs : List ℕ} {r r' : Run S} (t : Run S)
        → t ≡ r
        → Runs mem old dev put next bs r r'
        → Runs mem old dev put next bs t r'
    Runs-from {bs} {r} {r'} t e a = subst (λ x. Runs mem old dev put next bs x r') (sym e) a

    -- The diff string, from index `i` on.
    diff-Runs :
        (ds : List ℕ) (p : Patch) (i m : ℕ) (s : S)
        → read_y p.ctrl_0 ≡ pos m
        → i + length ds ≡ m
        → ((k : ℕ) → k < m → address p.oldpos k < size)
        → Good s
        → Runs mem old dev put next ds
            (diff_loop (record p { i = i }) s)
            (end_diff (record p { i = m }) (feed next (singles (sums image p.oldpos i ds)) s))
    diff-Runs [] p i m s e h inside g =
        let q : i ≡ m = omega arith in
        Runs-from _
          (diff_loop-end (record p { i = i }) s m e (omega arith)
            ∙ ap (λ t. end_diff (record p { i = t }) s) q)
          (Runs-nil mem old dev put next _)
    diff-Runs (d ∷ ds) p i m s e h inside g =
        let sum : ℕ = (d + image (address p.oldpos i)) % 256 in
        Runs-from _ (diff_loop-going (record p { i = i }) s m e (omega arith)) (
          Runs-cons mem old dev put next d ds _ _ _ _ (
            Runs-from _ (on_diff_lem d (record p { i = i }) s g (inside i (omega arith))) (
              diff-Runs ds p (i + 1) m (next (sum ∷ []) s).1 e (omega arith) inside
                (ro.keeps (sum ∷ []) s g))))

    on_extra_lem :
        (b : ℕ) (p : Patch) (s : S)
        → on_byte mem old dev put next b at_extra p s
          ≡ extra_loop (record p { i = p.i + 1 }) (next (b ∷ []) s).1
    unfolding on_byte on_extra
    on_extra_lem b p s = refl

    extra-Runs :
        (xs : List ℕ) (p : Patch) (i m : ℕ) (s : S)
        → read_y p.ctrl_1 ≡ pos m
        → i + length xs ≡ m
        → Runs mem old dev put next xs
            (extra_loop (record p { i = i }) s)
            (end_block (record p { i = m }) (feed next (singles xs) s))
    extra-Runs [] p i m s e h =
        let q : i ≡ m = omega arith in
        Runs-from _
          (extra_loop-end (record p { i = i }) s m e (omega arith)
            ∙ ap (λ t. end_block (record p { i = t }) s) q)
          (Runs-nil mem old dev put next _)
    extra-Runs (x ∷ xs) p i m s e h =
        Runs-from _ (extra_loop-going (record p { i = i }) s m e (omega arith)) (
          Runs-cons mem old dev put next x xs _ _ _ _ (
            Runs-from _ (on_extra_lem x (record p { i = i }) s)
              (extra-Runs xs p (i + 1) m (next (x ∷ []) s).1 e (omega arith))))

    -- A block, from its first byte to the test for the next one.
    record Block (e : Entry) (p : Patch) (a : ℕ) (q : ℤ) (m : ℕ) (s : S) : Type 0 where
      p' : Patch
      ready : Ready p' (a + length e.diff + length e.extra) (behind q e) m
      runs :
          Runs mem old dev put next
            (encode e)
            (going at_control (record p { i = 0; j = 0 }) s)
            (next_block p' (feed next (singles (sums image q 0 e.diff ++ e.extra)) s))

    Block-Runs :
        (e : Entry) (p : Patch) (a m : ℕ) (q : ℤ) (s : S)
        → Ready p a q m
        → a + length e.diff + length e.extra ≤ m
        → m < 2147483648
        → magnitude e.seek < 2147483648
        → ((k : ℕ) → k < length e.diff → address q k < size)
        → Good s
        → Block e p a q m s
    unfolding end_block
    Block-Runs e p a m q s r fits small far inside g =
        let d = length e.diff in
        let x = length e.extra in
        let p1 : Patch = record p {
          ctrl_0 = receive (pos d) p.ctrl_0;
          ctrl_1 = receive (pos x) p.ctrl_1;
          ctrl_2 = receive e.seek p.ctrl_2;
          i = 3;
          j = 8;
        } in
        let y0 : read_y p1.ctrl_0 ≡ pos d =
          read_y-receive (pos d) p.ctrl_0 r.room_0 (omega arith) in
        let y1 : read_y p1.ctrl_1 ≡ pos x =
          read_y-receive (pos x) p.ctrl_1 r.room_1 (omega arith) in
        let y2 : read_y p1.ctrl_2 ≡ e.seek = read_y-receive e.seek p.ctrl_2 r.room_2 far in
        let p2 : Patch = record p1 {
          newpos = p1.newpos +ℤ read_y p1.ctrl_0;
          oldpos = p1.oldpos +ℤ read_y p1.ctrl_0;
        } in
        let p3 : Patch = record p2 {
          newpos = p2.newpos +ℤ read_y p2.ctrl_1;
          oldpos = p2.oldpos +ℤ read_y p2.ctrl_2;
          i = x;
        } in
        let out = sums image p.oldpos 0 e.diff in
        let s1 = feed next (singles out) s in
        let added : p2.newpos ≡ pos (a + d) = ap₂ (λ u v. u +ℤ v) r.newpos y0 in
        record {
          p' = p3;
          ready = record {
            newpos = ap₂ (λ u v. u +ℤ v) added y1;
            oldpos = ap₂ (λ u v. u +ℤ v) (ap₂ (λ u v. u +ℤ v) r.oldpos y0) y2;
            newsize = r.newsize;
            room_0 = length-received _ _ _ _ _ _ _ _ p.ctrl_0 r.room_0;
            room_1 = length-received _ _ _ _ _ _ _ _ p.ctrl_1 r.room_1;
            room_2 = length-received _ _ _ _ _ _ _ _ p.ctrl_2 r.room_2;
          };
          runs =
              subst
                (λ t.
                  Runs mem old dev put next (encode e)
                    (going at_control (record p { i = 0; j = 0 }) s) (next_block p3 t))
                (sym (feed-append next (singles out) (singles e.extra) s)
                  ∙ ap (λ bs. feed next bs s)
                      (sym (singles-append out e.extra)
                        ∙ ap (λ t. singles (sums image t 0 e.diff ++ e.extra)) r.oldpos))
                (control-Runs mem old dev put next (pos d) (pos x) e.seek p s (e.diff ++ e.extra) _
                  (Runs-append mem old dev put next e.diff e.extra _ _ _
                    (Runs-from _ (end_control-diff p1 s a d m r.newpos y0 r.newsize (omega arith)) (
                      diff-Runs e.diff p1 0 d s y0 (omega arith)
                        (λ k l. subst (λ t. address t k < size) (sym r.oldpos) (inside k l)) g))
                    (Runs-from _
                      (end_diff-extra (record p1 { i = d }) s1 a d x m r.newpos y0 y1 r.newsize
                        (omega arith))
                      (extra-Runs e.extra p2 0 x s1 y1 (omega arith)))));
        }

    patch-Runs :
        (es : List Entry) (p : Patch) (a m : ℕ) (q : ℤ) (s : S)
        → Ready p a q m
        → a + size_of es ≡ m
        → m < 2147483648
        → InRange size q es
        → Good s
        → (p' : Patch) × Runs mem old dev put next
            (encode_all es)
            (next_block p s)
            (finished p' (feed next (singles (patched image q es)) s))
    patch-Runs [] p a m q s r e small inside g = (
      p,
      Runs-from _ (next_block-finished p s a m r.newpos r.newsize (omega arith))
          (Runs-nil mem old dev put next _),
    )
    patch-Runs (e ∷ es) p a m q s r total small (inside, far, more, later) g =
        let out : List ℕ = sums image q 0 e.diff ++ e.extra in
        let b = Block-Runs e p a m q s r (omega arith) small far inside g in
        let (p', c) =
          patch-Runs es b.p' (a + length e.diff + length e.extra) m (behind q e)
            (feed next (singles out) s) b.ready (omega arith) small later
            (feed-Good (singles out) s g) in
        (
          p',
          subst
              (λ t.
                Runs mem old dev put next (encode_all (e ∷ es)) (next_block p s) (finished p' t))
              (sym (feed-append next (singles out) (singles (patched image (behind q e) es)) s)
                ∙ ap (λ bs. feed next bs s)
                    (sym (singles-append out (patched image (behind q e) es))
                      ∙ ap singles (
                          append_assoc (sums image q 0 e.diff) e.extra
                            (patched image (behind q e) es))))
              (Runs-append mem old dev put next (encode e) (encode_all es) _ _ _
                (Runs-from _ (next_block-going p s a m r.newpos r.newsize (omega arith)) b.runs) c),
        )

    fresh_call :
        (bs : List ℕ) (ctx : BspatchCtx) (p' : Patch) (s s' : S)
        → ctx.state ≡ start
        → ctx.finish ≡ false
        → take_bytes mem old dev put next 0 bs
            (going at_header (record ctx.patch { oldpos = pos 0; newpos = pos 0; j = 0 }) s)
          ≡ (length bs, finished p' s')
        → bspatch_pipeline mem old dev put next bs ctx s
          ≡ (pos (length bs), record { state = start; finish = true; patch = p' }, s')
    unfolding bspatch_pipeline resume suspend
    fresh_call bs ctx p' s s' e f h = rw (e, f) (ap (suspend start) h)

    -- A fresh stage that is given a whole patch in one call takes all of it, is then finished, and hands
    -- the next stage exactly the bytes of the new image that the patch describes, one at a time and in
    -- order. The new image has less than 2^31 bytes, and the old one can be read wherever the patch adds
    -- to it.
    pub bspatch_pipeline_lem :
        (es : List Entry) (ctx : BspatchCtx) (s : S)
        → InRange size (pos 0) es
        → size_of es < 2147483648
        → ctx.state ≡ start
        → ctx.finish ≡ false
        → (length ctx.patch.ctrl_0 ≡ 8)
          × (length ctx.patch.ctrl_1 ≡ 8)
          × (length ctx.patch.ctrl_2 ≡ 8)
          × (length ctx.patch.newsize ≡ 8)
        → Good s
        → (p' : Patch) × (bspatch_pipeline mem old dev put next (encode_patch es) ctx s ≡ (
          pos (length (encode_patch es)),
          record { state = start; finish = true; patch = p' },
          feed next (singles (patched image (pos 0) es)) s,
        ))
    bspatch_pipeline_lem es ctx s inside small e f (l0, l1, l2, l3) g =
        let m = size_of es in
        let p0 : Patch = record ctx.patch { oldpos = pos 0; newpos = pos 0; j = 0 } in
        let p1 : Patch = record p0 { newsize = receive (pos m) p0.newsize; j = 24 } in
        let ready : Ready p1 0 (pos 0) m = record {
          newpos = refl;
          oldpos = refl;
          newsize = read_y-receive (pos m) p0.newsize l3 small;
          room_0 = l0;
          room_1 = l1;
          room_2 = l2;
        } in
        let (p', runs) = patch-Runs es p1 0 m (pos 0) s ready (omega arith) small inside g in
        let whole =
          Runs-append mem old dev put next (replicate 16 0x2a) _ _ _ _
            (magic-Runs mem old dev put next p0 s)
            (Runs-append mem old dev put next (offtout (pos m)) (encode_all es) _ _ _
              (size-Runs mem old dev put next m p0 s l3 small) runs) in
        (
          p',
          fresh_call (encode_patch es) ctx p' s _ e f (
              whole.runs 0
              ∙ ap (λ k. (k, finished p' (feed next (singles (patched image (pos 0) es)) s)))
                  (omega arith)),
        )
