-- ===== src/FirmwareTool/Diff/RoundTrip.antt =====
-- utils/firmware_tool/commands/pipeline.cpp and core/pipeline/bspatch.c: a patch that the tool makes, on the
-- device.
use upkit.Prelude.{
  ℕ, ◌<◌, ◌≤◌, ◌≡◌, sym, ap, subst, ◌∙◌, true, false, List, ◌++◌, append_assoc, Option, some, pos,
  length, replicate,
}
use upkit.Memory.{MemoryImpl}
use upkit.Pipeline.{Stage, feed, singles}
use upkit.Pipeline.Bspatch.{start, Patch, BspatchCtx, bspatch_pipeline}
use upkit.Pipeline.Bspatch.Format.{Entry, size_of, encode_all, encode_patch}
use upkit.Pipeline.Bspatch.Patched.{ReadsOld, bspatch_pipeline_lem}
use upkit.FirmwareTool.Offset.{offtout}
use upkit.FirmwareTool.Diff.{patch_header, bsdiff_internal}
use upkit.FirmwareTool.Diff.Blocks.{byte_of, AreBytes}
use upkit.FirmwareTool.Diff.Entries.{bsdiff_internal-Patches}

-- The header of the command, in front of the blocks, is the header of the format.
pub patch_header-encode_patch :
    (es : List Entry) (n : ℕ) → size_of es ≡ n → patch_header n ++ encode_all es ≡ encode_patch es
unfolding patch_header
patch_header-encode_patch es n e =
    append_assoc (replicate 16 0x2a) (offtout (pos n)) (encode_all es)
    ∙ ap (λ m. replicate 16 0x2a ++ (offtout (pos m) ++ encode_all es)) (sym e)

module _ {O W S : Type 0} (mem : MemoryImpl O W) (slot : O) (dev : S → W) (put : W → S → S)
    (next : Stage S) (Good : S → Type 0) where
  -- A fresh stage takes the whole of the output and hands on the new file, byte by byte.
  pub record Applies (new : List ℕ) (ctx : BspatchCtx) (s : S) (o : Option (List ℕ)) : Type 0 where
    pub patch : List ℕ
    pub p : Patch
    pub made : o ≡ some patch
    pub applied : bspatch_pipeline mem slot dev put next patch ctx s ≡ (
      pos (length patch),
      record { state = start; finish = true; patch = p },
      feed next (singles new) s,
    )

  -- Whatever order the sort leaves, as long as its entries are indices into the old file or its end, the
  -- loop of bsdiff ends, and what it writes behind the header of the command is a patch which a fresh
  -- stage of the device takes wholly in one call and from which it hands the next stage exactly the new
  -- file. Both files are bytes, and are smaller than 2^31; the image of the device is the old file and can
  -- be read.
  pub bsdiff_internal-Applies :
      (I : ℕ → ℕ) (old new : List ℕ) (ctx : BspatchCtx) (s : S)
      → AreBytes old
      → AreBytes new
      → length old < 2147483648
      → length new < 2147483648
      → ((x : ℕ) → x ≤ length old → I x ≤ length old)
      → ReadsOld mem slot dev put next Good (length old) (byte_of old)
      → ctx.state ≡ start
      → ctx.finish ≡ false
      → (length ctx.patch.ctrl_0 ≡ 8)
        × (length ctx.patch.ctrl_1 ≡ 8)
        × (length ctx.patch.ctrl_2 ≡ 8)
        × (length ctx.patch.newsize ≡ 8)
      → Good s
      → Applies new ctx s (bsdiff_internal I old new (patch_header (length new)))
  bsdiff_internal-Applies I old new ctx s ob nb so sn within reads e f rooms g =
      let d = bsdiff_internal-Patches I old new ob nb so sn within (patch_header (length new)) in
      let (p, a) =
        bspatch_pipeline_lem mem slot dev put next Good (length old) (byte_of old) reads d.entries
          ctx s d.in_range (subst (λ n. n < 2147483648) (sym d.size) sn) e f rooms g in
      record {
        patch = encode_patch d.entries;
        p = p;
        made = d.written ∙ ap some (patch_header-encode_patch d.entries (length new) d.size);
        applied =
            a
            ∙ ap
                (λ out. (
                  pos (length (encode_patch d.entries)),
                  record { state = start; finish = true; patch = p },
                  feed next (singles out) s,
                ))
                d.makes;
      }
