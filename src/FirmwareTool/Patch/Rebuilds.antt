-- ===== src/FirmwareTool/Patch/Rebuilds.antt =====
-- utils/firmware_tool/commands/pipeline.cpp: bspatch rebuilds the new file out of the old one and a patch of the
-- format.
use upkit.Prelude.{
  ℕ, zero, suc, ◌+◌, ◌<◌, ◌≤◌, ◌≡◌, refl, sym, ap, subst, ◌∙◌, List, [], ◌∷◌, ◌++◌, append_assoc,
  Option, none, some, ℤ, pos, if◌then◌else◌, lt→ltb, length, length-append, length-drop, drop,
  arith,
}
use upkit.Pipeline.Bspatch.Format.{
  Entry, encode, encode_all, size_of, sums, behind, patched, InRange, InOld,
}
use upkit.FirmwareTool.Offset.{offtout}
use upkit.FirmwareTool.Diff.Blocks.{byte_of}
use upkit.FirmwareTool.Patch.{
  PatchState, PatchResult, returns_0, fails, patch_round, patch_loop, bspatch,
}
use upkit.FirmwareTool.Patch.Reads.{stream, length-offtout, not_ltb}
use upkit.FirmwareTool.Patch.Blocks.{between, made, length-made, block}

module _ (old : List ℕ) (small_old : length old < 2147483648) where
  empty_post : (done post : List ℕ) → length post ≡ 0 → done ++ post ≡ done ++ []
  empty_post done [] h = refl
  empty_post done (x ∷ xs) h = absurd (omega arith)

  -- The loop behind a round.
  abbrev go_on : ℕ → ℕ → Option PatchState → PatchResult
  unfolding patch_loop
  go_on newsize fuel none = fails
  go_on newsize fuel (some s) = patch_loop old newsize fuel s

  pub patch_loop_lem :
      (es : List Entry) (fuel newsize : ℕ) (q : ℤ) (done post buf : List ℕ)
      → length buf ≡ 8
      → InRange (length old) q es
      → InOld (length old) q es
      → length done + size_of es ≡ newsize
      → length post ≡ size_of es
      → newsize < 2147483648
      → length es < fuel
      → patch_loop old newsize fuel (between q done post buf (encode_all es))
        ≡ returns_0 (done ++ patched (byte_of old) q es)
  unfolding patch_loop
  patch_loop_lem es zero newsize q done post buf room ir io total left small h =
      absurd (omega arith)
  patch_loop_lem [] (suc fuel) newsize q done post buf room ir io total left small h =
      ap
        (λ b.
          if b
          then go_on newsize fuel (patch_round old newsize (between q done post buf []))
          else returns_0 (done ++ post))
        (not_ltb (length done) newsize (omega arith))
      ∙ ap returns_0 (empty_post done post left)
  patch_loop_lem (e ∷ es) (suc fuel) newsize q done post buf room (inside, seek, more, later)
        (a, at, fits, after) total left small h =
      let s = between q done post buf (encode e ++ encode_all es) in
      let n = length e.diff + length e.extra in
      let round : patch_round old newsize s
          ≡ some (
              between (behind q e) (done ++ made old small_old a e) (drop n post) (offtout e.seek)
                (encode_all es)) =
        subst
          (λ z.
            patch_round old newsize (between z done post buf (encode e ++ encode_all es))
            ≡ some (
                between (behind z e) (done ++ made old small_old a e) (drop n post) (offtout e.seek)
                  (encode_all es)))
          (sym at)
          (block old small_old e a newsize done post buf (encode_all es) room fits seek
            (omega arith) small (omega arith)) in
      ap
        (λ b.
          if b then go_on newsize fuel (patch_round old newsize s) else returns_0 (done ++ post))
        (lt→ltb (length done) newsize (omega arith))
      ∙ (ap (go_on newsize fuel) round
          ∙ (patch_loop_lem es fuel newsize (behind q e) (done ++ made old small_old a e)
                (drop n post) (offtout e.seek) (length-offtout e.seek) later after
                (omega (
                  arith,
                  length-append done (made old small_old a e),
                  length-made old small_old a e,
                ))
                (omega (arith, length-drop n post)) small (omega arith)
              ∙ ap returns_0 (
                  append_assoc done (made old small_old a e) _
                  ∙ ap (λ t. done ++ t)
                      (append_assoc (sums (byte_of old) (pos a) 0 e.diff) e.extra
                          (patched (byte_of old) (behind q e) es)
                        ∙ ap
                            (λ z.
                              sums (byte_of old) z 0 e.diff
                              ++ (e.extra ++ patched (byte_of old) (behind q e) es))
                            (sym at)))))

length-encode_all : (es : List Entry) → length es ≤ length (encode_all es)
length-encode_all [] = omega arith
length-encode_all (e ∷ es) = omega (
  arith,
  length-encode_all es,
  length-append (encode e) (encode_all es),
  length-append (offtout (pos (length e.diff)))
      (offtout (pos (length e.extra)) ++ (offtout e.seek ++ (e.diff ++ e.extra))),
  length-offtout (pos (length e.diff)),
)

-- A patch of the format, behind its header.
pub bspatch_lem :
    (old : List ℕ) (es : List Entry) (nnew buf : List ℕ)
    → length old < 2147483648
    → length buf ≡ 8
    → InRange (length old) (pos 0) es
    → InOld (length old) (pos 0) es
    → size_of es < 2147483648
    → length nnew ≡ size_of es
    → bspatch old (size_of es) nnew buf (stream (encode_all es))
      ≡ returns_0 (patched (byte_of old) (pos 0) es)
unfolding bspatch
bspatch_lem old es nnew buf so room ir io small left =
    patch_loop_lem old so es (length (encode_all es) + 3) (size_of es) (pos 0) [] nnew buf room ir
      io (omega arith) left small (omega (arith, length-encode_all es))
