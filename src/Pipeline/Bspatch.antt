-- ===== src/Pipeline/Bspatch.antt =====
-- src/core/pipeline/bspatch.c and include/libpull/pipeline/bspatch.h: the stage that applies a binary
-- patch to the image of another memory object.
pub mod Chunks
pub mod Words
pub mod Format
mod Branches
pub mod Patched
mod Tests
use upkit.Prelude.{
  ℕ, zero, suc, ◌+◌, ◌-◌, ◌*◌, ◌/◌, ◌%◌, Bool, true, false, not, List, [], ◌∷◌, ℤ, pos, negsuc,
  length, get_or, set, if◌then◌else◌, ltb, leb, ◌==◌, ◌+ℤ◌, ltb_int, int_to_u32,
}
use upkit.Memory.{MemoryImpl, memory_read}
use upkit.Pipeline.{Stage}

-- `ctrl_t`: the eight bytes, and what `y`, an `int32_t` in the first four of them, reads.
abbrev pub Ctrl : Type 0
Ctrl = List ℕ

abbrev pub low_word : Ctrl → ℕ
low_word c = get_or c 0 0 + 256 * get_or c 1 0 + 65536 * get_or c 2 0 + 16777216 * get_or c 3 0

abbrev pub int32 : ℕ → ℤ
int32 v = if ltb v 2147483648 then pos v else negsuc (4294967295 - v)

unfoldable pub read_y : Ctrl → ℤ
read_y c = int32 (low_word c)

-- `c.y = -c.y`
unfoldable pub negate_y : Ctrl → Ctrl
negate_y c =
    let v = (4294967296 - low_word c) % 4294967296 in
    set (set (set (set c 0 (v % 256)) 1 (v / 256 % 256)) 2 (v / 65536 % 256)) 3 (v / 16777216)

-- A byte that has been received into the union: the last of the eight holds the sign.
unfoldable pub put_byte : ℕ → ℕ → Ctrl → Ctrl
unfolding negate_y
put_byte j b c =
    if not (j == 7)
    then set c j b
    else (if leb 128 b then negate_y (set c j (b % 128)) else set c j (b % 128))

-- Where the stage waits for a byte.
pub data Wait : Type 0 where
  at_header at_control at_diff at_extra : Wait

-- The static variables.
pub record Patch : Type 0 where
  pub oldpos : ℤ
  pub newpos : ℤ
  pub ctrl_0 : Ctrl
  pub ctrl_1 : Ctrl
  pub ctrl_2 : Ctrl
  pub i : ℕ
  pub j : ℕ
  pub newsize : Ctrl

pub data Saved : Type 0 where
  start : Saved
  inside : Wait → Saved

-- `state` and `finish` of the context.
pub record BspatchCtx : Type 0 where
  pub state : Saved
  pub finish : Bool
  pub patch : Patch

-- Where the stage stands: in want of a byte, at the end of the patch, or returned with the error
-- -(n + 1).
pub data Run (S : Type 0) : Type 0 where
  going : Wait → Patch → S → Run S
  finished : Patch → S → Run S
  failed : ℕ → Patch → S → Run S

abbrev pub pipeline_bspatch_init : BspatchCtx → BspatchCtx
pipeline_bspatch_init ctx = record ctx { state = start; finish = false }

-- `ctrl[i].c[j] = …`
abbrev pub put_ctrl : ℕ → ℕ → ℕ → Patch → Patch
put_ctrl zero j b p = record p { ctrl_0 = put_byte j b p.ctrl_0 }
put_ctrl (suc zero) j b p = record p { ctrl_1 = put_byte j b p.ctrl_1 }
put_ctrl (suc (suc i)) j b p = record p { ctrl_2 = put_byte j b p.ctrl_2 }

module _ {S : Type 0} where
  -- The test of the loop over the control blocks.
  unfoldable pub next_block : Patch → S → Run S
  next_block p s =
      if ltb_int p.newpos (read_y p.newsize)
      then going at_control (record p { i = 0; j = 0 }) s
      else finished p s

  -- `newpos += ctrl[1].y; oldpos += ctrl[2].y;`
  unfoldable pub end_block : Patch → S → Run S
  end_block p s =
      next_block
        (record p { newpos = p.newpos +ℤ read_y p.ctrl_1; oldpos = p.oldpos +ℤ read_y p.ctrl_2 }) s

  -- The test of the loop over the extra string.
  unfoldable pub extra_loop : Patch → S → Run S
  extra_loop p s = if ltb_int (pos p.i) (read_y p.ctrl_1) then going at_extra p s else end_block p s

  -- From the end of the diff string to the start of the extra string.
  unfoldable pub end_diff : Patch → S → Run S
  end_diff p s =
      let p1 = record p {
        newpos = p.newpos +ℤ read_y p.ctrl_0;
        oldpos = p.oldpos +ℤ read_y p.ctrl_0;
      } in
      if ltb_int (read_y p.newsize) (p1.newpos +ℤ read_y p.ctrl_1)
      then failed 0 p1 s
      else extra_loop (record p1 { i = 0 }) s

  -- The test of the loop over the diff string.
  unfoldable pub diff_loop : Patch → S → Run S
  diff_loop p s = if ltb_int (pos p.i) (read_y p.ctrl_0) then going at_diff p s else end_diff p s

  -- The sanity check after the control data.
  unfoldable pub end_control : Patch → S → Run S
  end_control p s =
      if ltb_int (read_y p.newsize) (p.newpos +ℤ read_y p.ctrl_0)
      then failed 0 p s
      else diff_loop (record p { i = 0 }) s

  unfoldable pub on_control : ℕ → Patch → S → Run S
  on_control b p s =
      let p1 = put_ctrl p.i p.j b p in
      if ltb p.j 7
      then going at_control (record p1 { j = p.j + 1 }) s
      else (if ltb p.i 2
          then going at_control (record p1 { i = p.i + 1; j = 0 }) s
          else end_control (record p1 { i = p.i + 1; j = 8 }) s)

  -- Sixteen times 0x2a, then the size.
  unfoldable pub on_header : ℕ → Patch → S → Run S
  on_header b p s =
      let p1 = if ltb p.j 16 then p else record p { newsize = put_byte (p.j - 16) b p.newsize } in
      let p2 = record p1 { j = p.j + 1 } in
      if ltb p.j 16
      then (if b == 0x2a then going at_header p2 s else failed 0 p s)
      else (if ltb p.j 23
          then going at_header p2 s
          else (if ltb_int (read_y p2.newsize) (pos 0) then failed 1 p2 s else next_block p2 s))

  -- The result of a call that was given `n` bytes up to where it stands; a failed call, and one that
  -- ends, keep the saved state.
  unfoldable pub suspend : Saved → ℕ × Run S → ℤ × BspatchCtx × S
  suspend saved (n, going g p s) =
      (pos n, record { state = inside g; finish = false; patch = p }, s)
  suspend saved (n, finished p s) = (pos n, record { state = saved; finish = true; patch = p }, s)
  suspend saved (n, failed e p s) =
      (negsuc e, record { state = saved; finish = false; patch = p }, s)

unfoldable pub resume : BspatchCtx → Wait × Patch
resume ctx = elim ctx.state [
  | start ↦ (at_header, record ctx.patch { oldpos = pos 0; newpos = pos 0; j = 0 })
  | inside g ↦ (g, ctx.patch)
]

-- The stage reads the old image from the object `old`, on the device that the state of the stages behind
-- it contains.
module _ {O W S : Type 0} (mem : MemoryImpl O W) (old : O) (dev : S → W) (put : W → S → S)
    (next : Stage S) where
  unfoldable pub on_diff : ℕ → Patch → S → Run S
  on_diff b p s =
      let (n, bytes, w) = memory_read mem old 1 (int_to_u32 (p.oldpos +ℤ pos p.i)) (dev s) in
      let s1 = put w s in
      let sum = (b + get_or bytes 0 0) % 256 in
      if not (n == 1)
      then failed 0 p s1
      else diff_loop (record p { i = p.i + 1 }) (next (sum ∷ []) s1).1

  unfoldable pub on_extra : ℕ → Patch → S → Run S
  on_extra b p s = extra_loop (record p { i = p.i + 1 }) (next (b ∷ []) s).1

  -- What the stage does with a byte, up to where it needs the next one.
  unfoldable pub on_byte : ℕ → Wait → Patch → S → Run S
  on_byte b at_header p s = on_header b p s
  on_byte b at_control p s = on_control b p s
  on_byte b at_diff p s = on_diff b p s
  on_byte b at_extra p s = on_extra b p s

  -- The bytes of a call, with the number that has been taken. What follows the end of the patch is left.
  unfoldable pub take_bytes : ℕ → List ℕ → Run S → ℕ × Run S
  take_bytes n [] r = (n, r)
  take_bytes n (b ∷ bs) (going g p s) = take_bytes (n + 1) bs (on_byte b g p s)
  take_bytes n (b ∷ bs) (finished p s) = (n, finished p s)
  take_bytes n (b ∷ bs) (failed e p s) = (n, failed e p s)

  unfoldable pub bspatch_pipeline : List ℕ → BspatchCtx → S → ℤ × BspatchCtx × S
  unfolding resume suspend take_bytes
  bspatch_pipeline buf ctx s =
      let (g, p) = resume ctx in
      if ctx.finish then (pos 0, ctx, s) else suspend ctx.state (take_bytes 0 buf (going g p s))
