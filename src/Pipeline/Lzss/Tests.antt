-- ===== src/Pipeline/Lzss/Tests.antt =====
-- The decoder before a stage that keeps the bytes.
use upkit.Prelude.{
  ℕ, ◌≡◌, refl, List, [], ◌∷◌, ◌++◌, pos, length, replicate, arith, false, is_negative,
}
use upkit.Pipeline.{Stage}
use upkit.Pipeline.Lzss.{
  LzssCtx, start, lzss_pipeline, resume, suspend, take_bytes, drain, push_bit,
}
use upkit.Pipeline.Lzss.Chunks.{SameCall, lzss_pipeline-append}
use upkit.Pipeline.Lzss.Tokens.{Token, lit, ref, lzss_pipeline_lem}

abbrev keep : Stage (List ℕ)
keep bytes s = (pos (length bytes), s ++ bytes)

abbrev fresh : LzssCtx
fresh = record {
  state = start;
  dec = record { i = 0; j = 0; c = 0; s = 0; r = 0; buffer = replicate 2048 0 };
}

-- A literal and a copy of it: 1 01100001, 0 1111101111 0001, and one more literal.
abbrev packed : List ℕ
packed = 0xb0 ∷ 0xbe ∷ 0xf1 ∷ 0xb1 ∷ 0x00 ∷ []

abbrev tokens : List Token
tokens = lit 0x61 ∷ ref 1007 1 ∷ lit 0x62 ∷ []

abbrev fine : (b : List ℕ) (s : List ℕ) → is_negative (keep b s).0 ≡ false
fine b s = refl

lzss_pipeline_lem_example :
    (ctx : LzssCtx) × (lzss_pipeline keep packed fresh []
      ≡ (pos 5, ctx, 0x61 ∷ 0x61 ∷ 0x61 ∷ 0x61 ∷ 0x62 ∷ []))
lzss_pipeline_lem_example =
    lzss_pipeline_lem keep fine tokens packed 7 fresh [] (omega arith) refl (omega arith) refl refl

abbrev suspended : LzssCtx
suspended = (lzss_pipeline keep (0xb0 ∷ []) fresh []).1

lzss_pipeline-append_example : SameCall keep 1 (lzss_pipeline keep packed fresh []) (
    lzss_pipeline keep
      (0xbe ∷ 0xf1 ∷ 0xb1 ∷ 0x00 ∷ [])
      suspended
      (lzss_pipeline keep (0xb0 ∷ []) fresh []).2)
unfolding lzss_pipeline resume suspend take_bytes drain push_bit
lzss_pipeline-append_example =
    lzss_pipeline-append keep (0xb0 ∷ []) (0xbe ∷ 0xf1 ∷ 0xb1 ∷ 0x00 ∷ []) fresh suspended []
      (lzss_pipeline keep (0xb0 ∷ []) fresh []).2 1 refl
