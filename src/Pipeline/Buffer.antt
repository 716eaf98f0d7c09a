-- ===== src/Pipeline/Buffer.antt =====
-- src/core/pipeline/buffer.c and include/libpull/pipeline/buffer.h: the stage that collects bytes
-- into blocks of `BUFFER_LEN` for the next stage.
pub mod Stream
mod Tests
use upkit.Prelude.{
  ℕ, zero, suc, ◌+◌, ◌-◌, List, [], ◌∷◌, ◌++◌, Option, none, some, ℤ, pos, length, take, drop,
  if◌then◌else◌, ltb, ◌==◌, min, memcpy,
}
use upkit.Pipeline.{Stage}

abbrev pub buffer_len : ℕ
buffer_len = 1000

-- `struct buffer_ctx`: the array, and `bufferp - buffer`.
pub record BufferCtx : Type 0 where
  pub buffer : List ℕ
  pub used : ℕ

-- `pipeline_buffer_init`: the pointer goes back to the start of the array, which keeps its bytes.
unfoldable pub pipeline_buffer_init : BufferCtx → BufferCtx
pipeline_buffer_init c = record c { used = 0 }

module _ {S : Type 0} (next : Stage S) where
  -- One round of the loop of `buffer_pipeline`: the bytes left, the buffer, the next stage.
  -- `none`: more than `BUFFER_LEN` bytes are in use, the assertion of the third branch.
  unfoldable pub fill_round : List ℕ → BufferCtx → S → Option (List ℕ × BufferCtx × S)
  fill_round rest c s =
      let n = min (length rest) (buffer_len - c.used) in
      if ltb c.used buffer_len
      then some (
        drop n rest,
        record { buffer = memcpy c.buffer c.used (take n rest); used = c.used + n },
        s,
      )
      else (if c.used == buffer_len
          then some (rest, record c { used = 0 }, (next (take c.used c.buffer) s).1)
          else none)

  -- The loop, on fuel: `none` when it runs out or the assertion fails.
  unfoldable pub fill : ℕ → List ℕ → BufferCtx → S → Option (BufferCtx × S)
  fill fuel [] c s = some (c, s)
  fill zero (x ∷ xs) c s = none
  fill (suc fuel) (x ∷ xs) c s = elim (fill_round (x ∷ xs) c s) [
    | none ↦ none
    | some (rest, c', s') ↦ fill fuel rest c' s'
  ]

  -- Two rounds for each byte are more than the loop takes: `fill_runs` of the child.
  unfoldable pub buffer_pipeline : List ℕ → BufferCtx → S → Option (ℤ × BufferCtx × S)
  buffer_pipeline buf c s = elim (fill (length buf + length buf) buf c s) [
    | none ↦ none
    | some (c', s') ↦ some (pos (length buf), c', s')
  ]

  -- The bytes that are left go to the next stage; the buffer is not reset.
  unfoldable pub pipeline_buffer_clear : BufferCtx → S → ℤ × BufferCtx × S
  pipeline_buffer_clear c s = (pos 0, c, (next (take c.used c.buffer) s).1)
