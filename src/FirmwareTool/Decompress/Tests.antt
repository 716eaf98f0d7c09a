-- ===== src/FirmwareTool/Decompress/Tests.antt =====
-- A small file, compressed and decompressed by the tool.
use upkit.Prelude.{ℕ, ◌≡◌, List, [], ◌∷◌, some, true, arith}
use upkit.FirmwareTool.Compress.{compress}
use upkit.FirmwareTool.Decompress.{decompress}
use upkit.FirmwareTool.Decompress.RoundTrip.{decompress-compress}

abbrev text : List ℕ
text = 0x61 ∷ 0x61 ∷ 0x61 ∷ 0xff ∷ []

decompress-compress_example :
    (bytes : List ℕ) × (compress true text ≡ some bytes) × (decompress bytes ≡ some text)
decompress-compress_example = decompress-compress true text (omega arith) (omega arith)
