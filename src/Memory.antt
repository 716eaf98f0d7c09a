-- ===== src/Memory.antt =====
-- include/libpull/memory/memory_interface.h and src/core/memory/memory_impl.c: the memory objects that
-- the library works on, through the four functions that a platform implements.
pub mod Manifest
pub mod Stores
pub mod Objects
pub mod Flash
pub mod Posix
use upkit.Prelude.{ℕ, Bool, List, ℤ, int_to_u16}
use upkit.Errors.{PullError}

pub data MemMode : Type 0 where
  read_only write_chunk write_all sequential_rewrite : MemMode

-- `mem_id_t` is signed: negative values stand for no object.
abbrev pub MemId : Type 0
MemId = ℤ

pub record MemSlot : Type 0 where
  pub id : MemId
  pub bootable : Bool
  pub loaded : Bool

-- The platform's functions, over its `mem_object_t` and the state of the device. A read returns the
-- result and the bytes that it put at the start of the caller's buffer.
pub record MemoryImpl (O W : Type 0) : Type 0 where
  pub open_impl : O → MemId → MemMode → W → PullError × O × W
  pub read_impl : O → ℕ → ℕ → W → ℤ × List ℕ × W
  pub write_impl : O → List ℕ → ℕ → W → ℤ × W
  pub close_impl : O → W → PullError × W

module _ {O W : Type 0} (mem : MemoryImpl O W) where
  unfoldable pub memory_open : O → MemId → MemMode → W → PullError × O × W
  memory_open o id mode w = mem.open_impl o id mode w

  -- memory_impl.c declares the platform's function with the result type `uint16_t`.
  unfoldable pub memory_read : O → ℕ → ℕ → W → ℕ × List ℕ × W
  memory_read o size offset w =
      let (ret, bytes, w') = mem.read_impl o size offset w in (int_to_u16 ret, bytes, w')

  unfoldable pub memory_write : O → List ℕ → ℕ → W → ℕ × W
  memory_write o bytes offset w =
      let (ret, w') = mem.write_impl o bytes offset w in (int_to_u16 ret, w')

  unfoldable pub memory_close : O → W → PullError × W
  memory_close o w = mem.close_impl o w
