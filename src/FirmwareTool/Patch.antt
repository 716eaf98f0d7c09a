-- ===== src/FirmwareTool/Patch.antt =====
-- utils/firmware_tool/commands/pipeline.cpp: bspatch, which applies a patch.
mod Reads
mod Blocks
mod Rebuilds
pub mod Rebuilt
pub mod Ends
mod Tests
use upkit.Prelude.{
  ℕ, zero, suc, ◌+◌, ◌%◌, Bool, true, false, not, ◌&&◌, List, [], Option, none, some, ℤ, pos,
  negsuc, ◌+ℤ◌, ltb_int, is_negative, int_to_u32, if◌then◌else◌, ltb, length, get_or, set, take,
  drop, memcpy, slice, ◌>>=◌,
}
use upkit.Pipeline.Bspatch.{int32}
use upkit.FirmwareTool.Offset.{offtin}

-- The input stream: what is left of the file, and `eof()`.
pub record Input : Type 0 where
  pub rest : List ℕ
  pub eof : Bool

-- `input->read(buffer, length)`: the bytes that arrive in the buffer. A read that asks for more than there is
-- meets the end of the file.
abbrev pub stream_read : Input → ℤ → List ℕ × Input
stream_read input (pos n) =
    (take n input.rest, record { rest = drop n input.rest; eof = ltb (length input.rest) n })
stream_read input (negsuc n) = ([], record input { eof = true })

-- `none` is the result -1. The length is converted to an `int`.
unfoldable pub patch_read : Input → ℤ → Option (List ℕ × Input)
patch_read input n = if input.eof then none else some (stream_read input (int32 (int_to_u32 n)))

-- The variables of `bspatch`; sums of type `int64_t` are taken to be exact.
pub record PatchState : Type 0 where
  pub oldpos : ℤ
  pub nnewpos : ℤ
  pub nnew : List ℕ
  pub buf : List ℕ
  pub input : Input

-- `ctrl[i]`, with `buf` and the stream behind it.
unfoldable pub read_ctrl : List ℕ → Input → Option (ℤ × List ℕ × Input)
unfolding patch_read
read_ctrl buf input = do
  r ← patch_read input (pos 8)
  let buf1 : List ℕ = memcpy buf 0 r.0
  some (offtin buf1, buf1, r.1)

-- The bytes that a read puts at an address relative to the buffer; `none` is a write outside the buffer.
abbrev pub put_bytes : List ℕ → ℤ → List ℕ → Option (List ℕ)
put_bytes nnew (pos k) bytes =
    if ltb (length nnew) (k + length bytes) && ltb 0 (length bytes)
    then none
    else some (memcpy nnew k bytes)
put_bytes nnew (negsuc k) bytes = if ltb 0 (length bytes) then none else some nnew

-- `nnew[k] += old[q]`, for a `q` inside the old file; `none` is a write outside the buffer.
abbrev pub add_byte : List ℕ → List ℕ → ℤ → ℤ → Option (List ℕ)
add_byte old nnew (pos k) (pos q) =
    if ltb q (length old)
    then (if ltb k (length nnew)
        then some (set nnew k ((get_or nnew k 0 + get_or old q 0) % 256))
        else none)
    else some nnew
add_byte old nnew (negsuc k) (pos q) = if ltb q (length old) then none else some nnew
add_byte old nnew k (negsuc q) = some nnew

-- `for (i = 0; i < ctrl[0]; i++) …` with `n` rounds left.
unfoldable pub add_old : List ℕ → ℕ → ℕ → ℤ → ℤ → List ℕ → Option (List ℕ)
add_old old zero i nnewpos oldpos nnew = some nnew
add_old old (suc n) i nnewpos oldpos nnew =
    add_byte old nnew (nnewpos +ℤ pos i) (oldpos +ℤ pos i)
    >>= (λ (nnew1 : List ℕ). add_old old n (i + 1) nnewpos oldpos nnew1)

-- The rounds of a loop up to a signed number.
abbrev pub rounds : ℤ → ℕ
rounds (pos n) = n
rounds (negsuc n) = 0

-- `if (nnewpos + ctrl > nnewsize) return -1;`, then the string is read to `nnew + nnewpos`.
unfoldable pub read_string : ℕ → PatchState → ℤ → Option PatchState
unfolding patch_read
read_string nnewsize s ctrl = do
  r ← if ltb_int (pos nnewsize) (s.nnewpos +ℤ ctrl) then none else patch_read s.input ctrl
  nnew1 ← put_bytes s.nnew s.nnewpos r.0
  some (record s { nnew = nnew1; input = r.1 })

-- One block; `none` is the result -1, or a write outside the buffer of the new file.
unfoldable pub patch_round : List ℕ → ℕ → PatchState → Option PatchState
patch_round old nnewsize s = do
  c0 ← read_ctrl s.buf s.input
  c1 ← read_ctrl c0.1 c0.2
  c2 ← read_ctrl c1.1 c1.2
  s1 ← read_string nnewsize (record s { buf = c2.1; input = c2.2 }) c0.0
  nnew2 ← add_old old (rounds c0.0) 0 s1.nnewpos s1.oldpos s1.nnew
  let s2 : PatchState = record s1 {
    nnew = nnew2;
    nnewpos = s1.nnewpos +ℤ c0.0;
    oldpos = s1.oldpos +ℤ c0.0;
  }
  s3 ← read_string nnewsize s2 c1.0
  some (record s3 { nnewpos = s3.nnewpos +ℤ c1.0; oldpos = s3.oldpos +ℤ c2.0 })

-- What `bspatch` returns, with the new file if it is 0. A write outside the buffer of the new file, whose
-- effect C leaves open, stops it as the result -1 does.
pub data PatchResult : Type 0 where
  out_of_fuel : PatchResult
  fails : PatchResult
  returns_0 : List ℕ → PatchResult

-- `while (nnewpos < nnewsize)`, on fuel.
unfoldable pub patch_loop : List ℕ → ℕ → ℕ → PatchState → PatchResult
unfolding patch_round
patch_loop old nnewsize zero s = out_of_fuel
patch_loop old nnewsize (suc fuel) s =
    if ltb_int s.nnewpos (pos nnewsize)
    then elim (patch_round old nnewsize s) [
      | none ↦ fails
      | some s1 ↦ patch_loop old nnewsize fuel s1
    ]
    else returns_0 s.nnew

-- `nnew` is the buffer of `nnewsize` bytes and `buf` that of 8 bytes, with what they hold at first. Each round reads
-- 24 bytes, or meets the end of the input.
unfoldable pub bspatch : List ℕ → ℕ → List ℕ → List ℕ → Input → PatchResult
unfolding patch_loop
bspatch old nnewsize nnew buf input =
    patch_loop old nnewsize (length input.rest + 3)
      (record { oldpos = pos 0; nnewpos = pos 0; nnew = nnew; buf = buf; input = input })
