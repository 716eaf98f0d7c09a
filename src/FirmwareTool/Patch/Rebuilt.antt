-- ===== src/FirmwareTool/Patch/Rebuilt.antt =====
-- utils/firmware_tool/commands/pipeline.cpp: bspatch undoes bsdiff.
use upkit.Prelude.{ℕ, ◌<◌, ◌≤◌, ◌≡◌, sym, ap, subst, ◌∙◌, List, ◌++◌, Option, some, length}
use upkit.Pipeline.Bspatch.Format.{encode_all}
use upkit.FirmwareTool.Diff.{patch_header, bsdiff_internal}
use upkit.FirmwareTool.Diff.Blocks.{AreBytes}
use upkit.FirmwareTool.Diff.Entries.{bsdiff_internal-Patches}
use upkit.FirmwareTool.Patch.{returns_0, bspatch}
use upkit.FirmwareTool.Patch.Reads.{stream}
use upkit.FirmwareTool.Patch.Rebuilds.{bspatch_lem}

module _ (old new : List ℕ) where
  -- Behind the header the output is what makes `bspatch` return the new file.
  pub record Rebuilds (o : Option (List ℕ)) : Type 0 where
    pub rest : List ℕ
    pub made : o ≡ some (patch_header (length new) ++ rest)
    pub rebuilt :
        (nnew buf : List ℕ)
        → length nnew ≡ length new
        → length buf ≡ 8
        → bspatch old (length new) nnew buf (stream rest) ≡ returns_0 new

  -- Let no entry of the sorted array, from 0 to the size of the old file, be behind the end of the old file. Then the
  -- loop of bsdiff ends, and `bspatch`, given the old file, the size of the new one and what is written behind the
  -- header, returns 0 with exactly the new file in its buffer. Both files are bytes, and are smaller than 2^31; the
  -- two buffers of `bspatch`, of the new file's size and of 8 bytes, hold anything at first.
  pub bsdiff_internal-Rebuilds :
      AreBytes old
      → AreBytes new
      → length old < 2147483648
      → length new < 2147483648
      → (I : ℕ → ℕ) → ((x : ℕ) → x ≤ length old → I x ≤ length old)
      → Rebuilds (bsdiff_internal I old new (patch_header (length new)))
  bsdiff_internal-Rebuilds old_bytes new_bytes small_old small_new I within =
      let d =
        bsdiff_internal-Patches I old new old_bytes new_bytes small_old small_new within
          (patch_header (length new)) in
      record {
        rest = encode_all d.entries;
        made = d.written;
        rebuilt = λ nnew buf sized room.
            ap (λ n. bspatch old n nnew buf (stream (encode_all d.entries))) (sym d.size)
            ∙ (bspatch_lem old d.entries nnew buf small_old room d.in_range d.in_old
                  (subst (λ n. n < 2147483648) (sym d.size) small_new) (sized ∙ sym d.size)
                ∙ ap returns_0 d.makes);
      }
