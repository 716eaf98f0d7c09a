-- ===== src/FirmwareTool/Patch/Blocks.antt =====
-- utils/firmware_tool/commands/pipeline.cpp: bspatch, on one block of a patch of the format.
use upkit.Prelude.{
  ℕ, zero, suc, ◌+◌, ◌<◌, ◌≤◌, ◌≡◌, refl, sym, ap, ap₂, ◌∙◌, List, [], ◌∷◌, ◌++◌, append_assoc,
  some, ℤ, pos, length, length-append, length-drop, drop, memcpy, bind-some, arith,
}
use upkit.Pipeline.Bspatch.Format.{Entry, encode, sums, behind}
use upkit.FirmwareTool.Offset.{magnitude, offtout}
use upkit.FirmwareTool.Diff.Blocks.{byte_of}
use upkit.FirmwareTool.Patch.{PatchState, read_string, patch_round}
use upkit.FirmwareTool.Patch.Reads.{
  stream, length-offtout, memcpy-append, read_ctrl_lem, read_string_lem, add_old-append,
}

-- The variables when `done` is made and `post` is still to be written.
abbrev pub between : ℤ → List ℕ → List ℕ → List ℕ → List ℕ → PatchState
between q done post buf rest = record {
  oldpos = q;
  nnewpos = pos (length done);
  nnew = done ++ post;
  buf = buf;
  input = stream rest;
}

drop-nil : (n : ℕ) → drop {A = ℕ} n [] ≡ []
drop-nil zero = refl
drop-nil (suc n) = refl

drop-drop : (m n : ℕ) (xs : List ℕ) → drop n (drop m xs) ≡ drop (m + n) xs
drop-drop zero n xs = let z : 0 + n ≡ n = omega arith in rw z refl
drop-drop (suc m) n [] = drop-nil n ∙ sym (drop-nil (suc m + n))
drop-drop (suc m) n (x ∷ xs) =
    let z : suc m + n ≡ suc (m + n) = omega arith in rw z (drop-drop m n xs)

regroup :
    (a b c d x rest : List ℕ)
    → (a ++ (b ++ (c ++ (d ++ x)))) ++ rest ≡ a ++ (b ++ (c ++ (d ++ (x ++ rest))))
regroup a b c d x rest = simp append_assoc

length-sums : (f : ℕ → ℕ) (q : ℤ) (k : ℕ) (ds : List ℕ) → length (sums f q k ds) ≡ length ds
length-sums f q k [] = refl
length-sums f q k (d ∷ ds) = ap suc (length-sums f q (k + 1) ds)

module _ (old : List ℕ) (small_old : length old < 2147483648) where
  -- What a block makes.
  abbrev pub made : ℕ → Entry → List ℕ
  made a e = sums (byte_of old) (pos a) 0 e.diff ++ e.extra

  pub length-made : (a : ℕ) (e : Entry) → length (made a e) ≡ length e.diff + length e.extra
  length-made a e =
      length-append (sums (byte_of old) (pos a) 0 e.diff) e.extra
      ∙ ap (λ n. n + length e.extra) (length-sums (byte_of old) (pos a) 0 e.diff)

  module _ (e : Entry) (a newsize : ℕ) (done post buf rest : List ℕ) (room : length buf ≡ 8)
      (inside : a + length e.diff ≤ length old) (seek : magnitude e.seek < 2147483648)
      (fits : length done + length e.diff + length e.extra ≤ newsize) (small : newsize < 2147483648)
      (whole : length done + length post ≡ newsize) where
    -- After the control data
    controls : PatchState
    controls = between (pos a) done post (offtout e.seek) (e.diff ++ (e.extra ++ rest))

    diff_string :
        read_string newsize controls (pos (length e.diff))
        ≡ some (record controls {
          nnew = done ++ (e.diff ++ drop (length e.diff) post);
          input = stream (e.extra ++ rest);
        })
    unfolding controls
    diff_string =
        read_string_lem e.diff (e.extra ++ rest) newsize (length done) controls refl refl
          (omega arith) (omega (arith, length-append done post)) (omega arith)
        ∙ ap (λ n. some (record controls { nnew = n; input = stream (e.extra ++ rest) }))
            (memcpy-append done post e.diff (length done) refl)

    -- After the diff string
    summed : PatchState
    summed = record {
      oldpos = pos (a + length e.diff);
      nnewpos = pos (length done + length e.diff);
      nnew = done ++ (sums (byte_of old) (pos a) 0 e.diff ++ drop (length e.diff) post);
      buf = offtout e.seek;
      input = stream (e.extra ++ rest);
    }

    extra_string :
        read_string newsize summed (pos (length e.extra))
        ≡ some (record summed {
          nnew = (done ++ made a e) ++ drop (length e.diff + length e.extra) post;
          input = stream rest;
        })
    unfolding summed
    extra_string =
        let sm = sums (byte_of old) (pos a) 0 e.diff in
        read_string_lem e.extra rest newsize (length done + length e.diff) summed refl refl
          (omega arith)
          (omega (
            arith,
            length-append done (sm ++ drop (length e.diff) post),
            length-append sm (drop (length e.diff) post),
            length-sums (byte_of old) (pos a) 0 e.diff,
            length-drop (length e.diff) post,
          ))
          (omega arith)
        ∙ ap (λ n. some (record summed { nnew = n; input = stream rest }))
            (ap (λ l. memcpy l (length done + length e.diff) e.extra)
                (sym (append_assoc done sm (drop (length e.diff) post)))
              ∙ (memcpy-append (done ++ sm) (drop (length e.diff) post) e.extra
                    (length done + length e.diff)
                    (length-append done sm
                      ∙ ap (λ n. length done + n) (length-sums (byte_of old) (pos a) 0 e.diff))
                  ∙ (sym (append_assoc (done ++ sm) e.extra _)
                      ∙ ap₂ (λ u v. u ++ v) (append_assoc done sm e.extra)
                          (drop-drop (length e.diff) (length e.extra) post))))

    pub block :
        patch_round old newsize (between (pos a) done post buf (encode e ++ rest))
        ≡ some (
            between
              (behind (pos a) e)
              (done ++ made a e)
              (drop (length e.diff + length e.extra) post)
              (offtout e.seek)
              rest)
    unfolding patch_round controls summed
    block =
        let d = e.diff in
        let x = e.extra in
        ap (λ i. patch_round old newsize (between (pos a) done post buf i))
          (regroup (offtout (pos (length d))) (offtout (pos (length x))) (offtout e.seek) d x rest)
        ∙ bind-some _ (read_ctrl_lem (pos (length d)) buf _ room (omega arith)) (
            bind-some _
              (read_ctrl_lem (pos (length x)) (offtout (pos (length d))) _ (length-offtout _)
                (omega arith))
              (bind-some _
                (read_ctrl_lem e.seek (offtout (pos (length x))) _ (length-offtout _) (omega arith))
                (bind-some _ diff_string (
                  bind-some _
                    (add_old-append old d done (drop (length d) post) 0 (length done) a
                      (omega arith) (omega arith) (omega arith))
                    (bind-some _ extra_string (
                      ap
                        (λ (n : ℕ).
                          some
                            (record (between (behind (pos a) e) (done ++ made a e)
                              (drop (length d + length x) post) (offtout e.seek) rest) {
                                nnewpos = pos n;
                              }))
                        (omega (arith, length-append done (made a e), length-made a e))))))))
