-- ===== src/Memory/Posix.antt =====
-- src/platform/posix/memory_posix.c and memory_posix.h: the memory functions over files.
pub mod Files
mod Tests
use upkit.Prelude.{
  ℕ, zero, suc, Bool, true, false, ◌||◌, List, [], ℤ, pos, negsuc, is_negative, if◌then◌else◌, leb,
  ◌==◌,
}
use upkit.Errors.{
  PullError, pull_success, invalid_object_error, memory_mapping_error, memory_open_error,
  memory_close_error, is_error,
}
use upkit.Memory.{MemId, MemMode, MemoryImpl}

-- The system calls, over the state of the system. `open_file` takes the index of the path in
-- `memory_objects_mapper`; a read returns the bytes that it put at the start of the caller's buffer.
pub record Syscalls (W : Type 0) : Type 0 where
  pub open_file : ℕ → W → ℤ × W
  pub lseek : ℤ → ℕ → W → ℤ × W
  pub read_file : ℤ → ℕ → W → ℤ × List ℕ × W
  pub write_file : ℤ → List ℕ → W → ℤ × W
  pub close_file : ℤ → W → ℤ × W

-- `mem_object_t`; the path 0 is NULL, as `memory_objects_mapper[0]` is.
pub record PosixObject : Type 0 where
  pub path : ℕ
  pub fp : ℤ
  pub start_offset : ℕ
  pub end_offset : ℕ

-- From OBJ_FIRST, 0, to OBJ_LAST, 8, both excluded.
unfoldable pub resource_mapper : PosixObject → MemId → PullError × PosixObject
resource_mapper ctx (negsuc n) = (invalid_object_error, ctx)
resource_mapper ctx (pos n) =
    if (n == 0) || leb 8 n
    then (invalid_object_error, ctx)
    else (pull_success, record ctx { path = n })

module _ {W : Type 0} (sys : Syscalls W) where
  -- The object is cleared first; the mode is not used.
  unfoldable pub posix_memory_open_impl :
      PosixObject → MemId → MemMode → W → PullError × PosixObject × W
  unfolding resource_mapper
  posix_memory_open_impl ctx id mode w =
      let cleared : PosixObject = record {
        path = 0;
        fp = pos 0;
        start_offset = 0;
        end_offset = 0;
      } in
      let (err, ctx1) = resource_mapper cleared id in
      let (fp, w1) = sys.open_file ctx1.path w in
      if is_error err
      then (memory_mapping_error, ctx1, w)
      else (if is_negative fp
          then (memory_open_error, record ctx1 { fp = fp }, w1)
          else (pull_success, record ctx1 { fp = fp }, w1))

  unfoldable pub posix_memory_read_impl : PosixObject → ℕ → ℕ → W → ℤ × List ℕ × W
  posix_memory_read_impl ctx size offset w =
      let (ret, w1) = sys.lseek ctx.fp offset w in
      if is_negative ret then (negsuc 0, [], w1) else sys.read_file ctx.fp size w1

  unfoldable pub posix_memory_write_impl : PosixObject → List ℕ → ℕ → W → ℤ × W
  posix_memory_write_impl ctx bytes offset w =
      let (ret, w1) = sys.lseek ctx.fp offset w in
      if is_negative ret then (negsuc 0, w1) else sys.write_file ctx.fp bytes w1

  -- `ctx` is not NULL.
  unfoldable pub posix_memory_close_impl : PosixObject → W → PullError × W
  posix_memory_close_impl ctx w =
      let (ret, w1) = sys.close_file ctx.fp w in
      (
        elim ret [
          | pos n ↦ (if n == 0 then pull_success else memory_close_error)
          | negsuc n ↦ memory_close_error
        ],
        w1,
      )

  abbrev pub posix : MemoryImpl PosixObject W
  posix = record {
    open_impl = posix_memory_open_impl;
    read_impl = posix_memory_read_impl;
    write_impl = posix_memory_write_impl;
    close_impl = posix_memory_close_impl;
  }
