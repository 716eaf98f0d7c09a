-- ===== src/FirmwareTool/Compress/Tests.antt =====
-- A small file, compressed by the tool and decoded by a stage that keeps the bytes.
use upkit.Prelude.{
  ℕ, ◌≡◌, refl, List, [], ◌∷◌, ◌++◌, pos, length, replicate, some, true, false, is_negative, arith,
}
use upkit.Pipeline.{Stage}
use upkit.Pipeline.Lzss.{LzssCtx, start, lzss_pipeline}
use upkit.FirmwareTool.Compress.{compress}
use upkit.FirmwareTool.Compress.RoundTrip.{lzss_pipeline-compress}

abbrev keep : Stage (List ℕ)
keep bytes s = (pos (length bytes), s ++ bytes)

abbrev fresh : LzssCtx
fresh = record {
  state = start;
  dec = record { i = 0; j = 0; c = 0; s = 0; r = 0; buffer = replicate 2048 0 };
}

abbrev fine : (b : List ℕ) (s : List ℕ) → is_negative (keep b s).0 ≡ false
fine b s = refl

lzss_pipeline-compress_example :
    (bytes : List ℕ) × (ctx' : LzssCtx) × (compress true (0x61 ∷ 0x61 ∷ 0x61 ∷ 0xff ∷ [])
      ≡ some bytes)
    × (lzss_pipeline keep bytes fresh []
        ≡ (pos (length bytes), ctx', 0x61 ∷ 0x61 ∷ 0x61 ∷ 0xff ∷ []))
lzss_pipeline-compress_example =
    lzss_pipeline-compress keep fine true (0x61 ∷ 0x61 ∷ 0x61 ∷ 0xff ∷ []) fresh [] (omega arith)
      (omega arith) refl refl
