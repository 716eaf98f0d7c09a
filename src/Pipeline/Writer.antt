-- ===== src/Pipeline/Writer.antt =====
-- src/core/pipeline/writer.c and include/libpull/pipeline/writer.h: the stage that writes into a memory
-- object. The object is the one of the update, which the stage holds by a pointer.
use upkit.Prelude.{ℕ, ◌+◌, pos, u32}
use upkit.Memory.{MemoryImpl, memory_write}
use upkit.Pipeline.{Stage}

-- `written` of `struct writer_ctx`, and the device.
pub record Writer (W : Type 0) : Type 0 where
  pub written : ℕ
  pub dev : W

abbrev pub pipeline_writer_init : {W : Type 0} → W → Writer W
pipeline_writer_init w = record { written = 0; dev = w }

-- The result of the write is added as it is, an error code included.
unfoldable pub writer_pipeline : {O W : Type 0} → MemoryImpl O W → O → Stage (Writer W)
unfolding memory_write
writer_pipeline mem obj buf c =
    let (ret, w) = memory_write mem obj buf c.written c.dev in
    (pos ret, record { written = u32 (c.written + ret); dev = w })
