-- ===== src/Pipeline/Buffer/Tests.antt =====
-- The buffer stage before a stage that keeps the bytes.
use upkit.Prelude.{ℕ, ◌≡◌, List, [], ◌∷◌, ◌++◌, some, pos, length, replicate, arith}
use upkit.Pipeline.{Stage, feed, concat}
use upkit.Pipeline.Buffer.{BufferCtx, buffer_pipeline}
use upkit.Pipeline.Buffer.Stream.{
  IsValid, Blocks, Buffered, contents, buffer_pipeline_lem, stream, stream_lem,
}

abbrev keep : Stage (List ℕ)
keep bytes s = (pos (length bytes), s ++ bytes)

abbrev almost_full : BufferCtx
almost_full = record { buffer = replicate 1000 7; used = 999 }

almost_full-IsValid : IsValid almost_full
almost_full-IsValid = omega arith

buffer_pipeline_lem_example :
    (c : BufferCtx) × (s : List ℕ) × (buffer_pipeline keep (1 ∷ 2 ∷ 3 ∷ []) almost_full []
      ≡ some (pos 3, c, s))
    × Buffered keep almost_full [] (1 ∷ 2 ∷ 3 ∷ []) c s
buffer_pipeline_lem_example =
    buffer_pipeline_lem keep (1 ∷ 2 ∷ 3 ∷ []) almost_full [] almost_full-IsValid

stream_lem_example :
    (bs : List (List ℕ)) × (rest : List ℕ) × Blocks bs
    × (stream keep ((1 ∷ []) ∷ (2 ∷ 3 ∷ []) ∷ []) almost_full []
        ≡ some (feed keep (bs ++ (rest ∷ [])) []))
    × (concat bs ++ rest ≡ contents almost_full ++ (1 ∷ 2 ∷ 3 ∷ []))
stream_lem_example =
    stream_lem keep ((1 ∷ []) ∷ (2 ∷ 3 ∷ []) ∷ []) almost_full [] almost_full-IsValid
