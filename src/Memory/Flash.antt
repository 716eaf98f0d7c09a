-- ===== src/Memory/Flash.antt =====
-- src/core/memory/memory_flash.c and include/libpull/memory/flash_interface.h: the memory functions over
-- a driver of a flash memory, whose pages are erased before they are written.
pub mod Erase
mod Tests
use upkit.Prelude.{
  ℕ, zero, suc, ◌+◌, ◌-◌, ◌%◌, Bool, true, false, not, ◌&&◌, List, Option, none, some, ℤ, pos,
  negsuc, u32, if◌then◌else◌, ltb, ◌==◌, length,
}
use upkit.Errors.{PullError, pull_success, memory_open_error, memory_close_error}
use upkit.Memory.{MemId, MemMode, write_all, sequential_rewrite}

-- `flash_descr_t`: the functions that may be NULL are options. `read` returns the bytes that it put at the
-- start of the caller's buffer.
pub record FlashDescr (W : Type 0) : Type 0 where
  pub page_size : ℕ
  pub flash_open : Option (W → ℤ × W)
  pub erase : ℕ → ℕ → W → ℤ × W
  pub program : List ℕ → ℕ → W → ℤ × W
  pub read : ℕ → ℕ → W → ℤ × List ℕ × W
  pub flash_close : Option (W → ℤ × W)
  pub rst : Option (W → W)

-- `mem_object_t`
pub record FlashObject (W : Type 0) : Type 0 where
  pub start : ℕ
  pub end : ℕ
  pub fdescr : FlashDescr W
  pub mode : MemMode

-- `ret != 0`
abbrev pub is_nonzero : ℤ → Bool
is_nonzero (pos zero) = false
is_nonzero _ = true

abbrev pub is_write_all : MemMode → Bool
is_write_all write_all = true
is_write_all _ = false

abbrev pub is_sequential : MemMode → Bool
is_sequential sequential_rewrite = true
is_sequential _ = false

module _ {W : Type 0} where
  -- A function that may be NULL counts as one that succeeds.
  abbrev pub call : Option (W → ℤ × W) → W → ℤ × W
  call none w = (pos 0, w)
  call (some f) w = f w

  abbrev pub reset : Option (W → W) → W → W
  reset none w = w
  reset (some f) w = f w

  -- The loop that erases the object, on fuel; the offset is an `address_t`.
  unfoldable pub erase_loop : ℕ → FlashDescr W → ℕ → ℕ → W → Option (PullError × W)
  erase_loop zero fd offset end w = none
  erase_loop (suc fuel) fd offset end w =
      let (ret, w1) = fd.erase offset fd.page_size (reset fd.rst w) in
      let rest = erase_loop fuel fd (u32 (offset + fd.page_size)) end w1 in
      if not (ltb offset end)
      then some (pull_success, w)
      else (if is_nonzero ret then some (memory_open_error, w1) else rest)

  abbrev pub opened :
      FlashObject W → Option (PullError × W) → Option (PullError × FlashObject W × W)
  opened o none = none
  opened o (some (err, w)) = some (err, o, w)

  unfoldable pub memory_open_impl :
      (MemId → FlashObject W) → MemId → MemMode → W → Option (PullError × FlashObject W × W)
  memory_open_impl flash_objects id mode w =
      let o = record (flash_objects id) { mode = mode } in
      let (ret, w1) = call o.fdescr.flash_open w in
      if is_nonzero ret
      then some (memory_open_error, o, w1)
      else (if is_write_all mode
          then opened o (erase_loop (suc (o.end - o.start)) o.fdescr o.start o.end w1)
          else some (pull_success, o, w1))

  unfoldable pub memory_read_impl : FlashObject W → ℕ → ℕ → W → ℤ × List ℕ × W
  memory_read_impl o size offset w =
      let (ret, bytes, w1) = o.fdescr.read (u32 (o.start + offset)) size w in
      (if is_nonzero ret then negsuc 0 else pos size, bytes, w1)

  -- The write behind the erasure of a page.
  abbrev pub program_at : FlashObject W → List ℕ → ℕ → W → ℤ × W
  program_at o bytes offset w =
      let (ret, w1) = o.fdescr.program bytes (u32 (o.start + offset)) w in
      (if is_nonzero ret then negsuc 0 else pos (length bytes), w1)

  unfoldable pub memory_write_impl : FlashObject W → List ℕ → ℕ → W → ℤ × W
  memory_write_impl o bytes offset w =
      let (ret, w1) = o.fdescr.erase (u32 (o.start + offset)) o.fdescr.page_size w in
      if is_sequential o.mode && (u32 (o.start + offset) % o.fdescr.page_size == 0)
      then (if is_nonzero ret then (negsuc 0, w1) else program_at o bytes offset w1)
      else program_at o bytes offset w

  unfoldable pub memory_close_impl : FlashObject W → W → PullError × W
  memory_close_impl o w =
      let (ret, w1) = call o.fdescr.flash_close w in
      (if is_nonzero ret then memory_close_error else pull_success, w1)
