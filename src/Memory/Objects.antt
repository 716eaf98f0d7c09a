-- ===== src/Memory/Objects.antt =====
-- src/core/memory/memory_objects.c and include/libpull/memory/memory_objects.h: the images in the
-- slots of the device.
pub mod Ordered
pub mod Copy
mod Tests
use upkit.Prelude.{
  ℕ, zero, suc, ◌+◌, ◌-◌, ◌*◌, ◌<◌, Bool, true, false, not, ◌&&◌, ◌||◌, List, [], ◌∷◌, Option, none,
  some, ℤ, pos, negsuc, u32, if◌then◌else◌, ltb, leb, ◌==◌, length, take, replicate, memcpy,
}
use upkit.Errors.{
  PullError, pull_success, get_newest_error, copy_firmware_error, read_manifest_error,
  write_manifest_error, memory_read_error, memory_write_error, is_error,
}
use upkit.Memory.{
  MemId, MemSlot, MemMode, read_only, write_chunk, MemoryImpl, memory_open, memory_read,
  memory_write, memory_close,
}
use upkit.Memory.Manifest.{Manifest, Layout}

-- `memory_slots[i].id > 0`
abbrev pub is_slot : MemId → Bool
is_slot (pos zero) = false
is_slot (pos (suc n)) = true
is_slot (negsuc n) = false

-- The variables of `get_ordered_firmware`.
pub record Found : Type 0 where
  pub id : MemId
  pub version : ℕ
  pub bootable : Bool
  pub first : Bool

-- The test of `get_ordered_firmware`, and the branch that it guards.
unfoldable pub consider : Bool → Bool → Found → MemSlot → ℕ → Found
consider newest prefer_bootable f slot version =
    if f.first
      || (not (prefer_bootable && (f.bootable && not slot.bootable))
          && (if newest then ltb f.version version else ltb version f.version))
    then (record { id = slot.id; version = version; bootable = slot.bootable; first = false })
    else f

-- `int` from an unsigned 32-bit sum: a negative size is below every offset.
abbrev pub int_size : ℕ → ℕ
int_size n = if ltb n 2147483648 then n else 0

module _ {O W : Type 0} (mem : MemoryImpl O W) (layout : Layout) where
  unfoldable pub read_firmware_manifest : O → W → PullError × Manifest × W
  unfolding memory_read
  read_firmware_manifest o w =
      let (n, bytes, w') = memory_read mem o layout.size_of_manifest 0 w in
      (
        if n == layout.size_of_manifest then pull_success else read_manifest_error,
        layout.decode bytes,
        w',
      )

  unfoldable pub write_firmware_manifest : O → Manifest → W → PullError × W
  unfolding memory_write
  write_firmware_manifest o mt w =
      let (n, w') = memory_write mem o (layout.encode mt) 0 w in
      (if n == layout.size_of_manifest then pull_success else write_manifest_error, w')

  -- The loop over `memory_slots`; the list ends with `OBJ_END`.
  unfoldable pub ordered_loop :
      Bool → Bool → List MemSlot → Found → O → W → PullError × Found × O × W
  unfolding memory_open memory_close read_firmware_manifest consider
  ordered_loop newest prefer_bootable [] f o w = (pull_success, f, o, w)
  ordered_loop newest prefer_bootable (slot ∷ slots) f o w =
      let (err, o1, w1) = memory_open mem o slot.id read_only w in
      let (err2, mt, w2) = read_firmware_manifest o1 w1 in
      let (ignored, w3) = memory_close mem o1 w2 in
      let rest =
        ordered_loop newest prefer_bootable slots
          (consider newest prefer_bootable f slot mt.vendor.version) o1 w3 in
      if not (is_slot slot.id)
      then (pull_success, f, o, w)
      else (if is_error err
          then (get_newest_error, f, o1, w1)
          else (if is_error err2 then (get_newest_error, f, o1, w3) else rest))

  -- `id` and `version` are the values that the out parameters have before the call.
  unfoldable pub get_ordered_firmware :
      List MemSlot → MemId → ℕ → Bool → Bool → O → W → PullError × Found × O × W
  unfolding ordered_loop
  get_ordered_firmware slots id version newest prefer_bootable o w =
      ordered_loop newest prefer_bootable slots
        (record { id = id; version = version; bootable = false; first = true }) o w

  unfoldable pub get_newest_firmware :
      List MemSlot → MemId → ℕ → Bool → O → W → PullError × Found × O × W
  unfolding get_ordered_firmware
  get_newest_firmware slots id version prefer_bootable o w =
      get_ordered_firmware slots id version true prefer_bootable o w

  unfoldable pub get_oldest_firmware :
      List MemSlot → MemId → ℕ → Bool → O → W → PullError × Found × O × W
  unfolding get_ordered_firmware
  get_oldest_firmware slots id version prefer_bootable o w =
      get_ordered_firmware slots id version false prefer_bootable o w

  -- The loop of `copy_firmware`, on fuel. `none`: out of fuel, or a write of more bytes than the buffer
  -- has, which is undefined.
  unfoldable pub copy_loop :
      ℕ → O → O → ℕ → ℕ → ℕ → ℕ → List ℕ → W → Option (PullError × List ℕ × W)
  unfolding memory_read memory_write
  copy_loop zero src dst firmware_size offset step readed buffer w = none
  copy_loop (suc fuel) src dst firmware_size offset step readed buffer w =
      let (n, bytes, w1) = memory_read mem src step offset w in
      let buffer1 = memcpy buffer 0 bytes in
      let (m, w2) = memory_write mem dst (take n buffer1) offset w1 in
      let step' =
        if ltb firmware_size (offset + n + step) then firmware_size - (offset + n) else step in
      let rest = copy_loop fuel src dst firmware_size (offset + n) step' n buffer1 w2 in
      if not (ltb offset firmware_size)
      then some (if readed == 0 then copy_firmware_error else pull_success, buffer, w)
      else (if n == 0
          then some (copy_firmware_error, buffer1, w1)
          else (if ltb (length buffer) n
              then none
              else (if m == n then rest else some (copy_firmware_error, buffer1, w2))))

  unfoldable pub copy_firmware : O → O → List ℕ → W → Option (PullError × List ℕ × W)
  unfolding read_firmware_manifest copy_loop
  copy_firmware src dst buffer w =
      let (err, mt, w1) = read_firmware_manifest src w in
      let size = int_size (u32 (mt.vendor.size + mt.vendor.offset)) in
      if is_error err
      then some (copy_firmware_error, buffer, w1)
      else copy_loop (suc size) src dst size 0 (length buffer) 0 buffer w1

  -- The loop of `swap_chunk`, on fuel: `none` when it runs out, or by an overrun of the buffer.
  unfoldable pub swap_chunk_loop :
      ℕ → O → O → ℕ → ℕ → ℕ → ℕ → Bool → Bool → List ℕ → W → Option (PullError × List ℕ × W)
  unfolding memory_read memory_write
  swap_chunk_loop zero src dst offset swap_size swap_full step read_swap write_swap buffer w = none
  swap_chunk_loop (suc fuel) src dst offset swap_size swap_full step read_swap write_swap buffer w =
      let step' = if ltb swap_size (swap_full + step) then swap_size - swap_full else step in
      let (done, bytes, w1) =
        memory_read mem src step' (if read_swap then swap_full else offset) w in
      let buffer1 = memcpy buffer 0 bytes in
      let (done', w2) =
        memory_write mem dst (take step' buffer1) (if write_swap then swap_full else offset) w1 in
      let rest =
        swap_chunk_loop fuel src dst (offset + step') swap_size (swap_full + step') step' read_swap
          write_swap buffer1 w2 in
      if not (ltb swap_full swap_size)
      then some (pull_success, buffer, w)
      else (if not (done == step')
          then some (memory_read_error, buffer1, w1)
          else (if ltb (length buffer) step'
              then none
              else (if done' == step' then rest else some (memory_write_error, buffer1, w2))))

  unfoldable pub swap_chunk :
      O → O → ℕ → ℕ → Bool → Bool → List ℕ → W → Option (PullError × List ℕ × W)
  unfolding swap_chunk_loop
  swap_chunk src dst offset swap_size read_swap write_swap buffer w =
      swap_chunk_loop (suc swap_size) src dst offset swap_size 0 (length buffer) read_swap
        write_swap buffer w

  -- The loop of `swap_slots`. The results of the second and the third `swap_chunk` are not looked at:
  -- the test after each is on the result of the first.
  unfoldable pub swap_loop :
      ℕ → O → O → O → ℕ → ℕ → ℕ → List ℕ → W → Option (PullError × List ℕ × W)
  unfolding swap_chunk
  swap_loop zero obj1 obj2 obj_swap size offset swap_size buffer w = none
  swap_loop (suc fuel) obj1 obj2 obj_swap size offset swap_size buffer w =
      let swap_size' = if ltb size (offset + swap_size) then size - offset else swap_size in
      if not (ltb offset size)
      then some (pull_success, buffer, w)
      else (elim (swap_chunk obj1 obj_swap offset swap_size' false true buffer w) [
        | none ↦ none
        | some (err, buffer1, w1) ↦ elim (is_error err) [
          | true ↦ some (err, buffer1, w1)
          | false ↦ elim (swap_chunk obj2 obj1 offset swap_size' false false buffer1 w1) [
            | none ↦ none
            | some (_, buffer2, w2) ↦
                elim (swap_chunk obj_swap obj2 offset swap_size' true false buffer2 w2) [
                  | none ↦ none
                  | some (_, buffer3, w3) ↦
                      swap_loop fuel obj1 obj2 obj_swap size (offset + swap_size') swap_size'
                        buffer3 w3
                ]
          ]
        ]
      ])

  unfoldable pub swap_slots : O → O → O → ℕ → List ℕ → W → Option (PullError × List ℕ × W)
  unfolding read_firmware_manifest swap_loop
  swap_slots obj1 obj2 obj_swap swap_size buffer w =
      let (err, mt, w1) = read_firmware_manifest obj1 w in
      let (err2, mt2, w2) = read_firmware_manifest obj2 w1 in
      let size = u32 (mt.vendor.size + mt.vendor.offset) in
      let size2 = u32 (mt2.vendor.size + mt2.vendor.offset) in
      let larger = if ltb size size2 then size2 else size in
      if is_error err
      then some (err, buffer, w1)
      else (if is_error err2
          then some (err2, buffer, w2)
          else swap_loop (suc larger) obj1 obj2 obj_swap larger 0 swap_size buffer w2)

  -- `memset(&mt, 0, sizeof(mt))`: the manifest of no bytes but zeros.
  unfoldable pub invalidate_object : MemId → O → W → PullError × O × W
  unfolding memory_open memory_close write_firmware_manifest
  invalidate_object id o w =
      let (err, o1, w1) = memory_open mem o id write_chunk w in
      let (err2, w2) =
        write_firmware_manifest o1 (layout.decode (replicate layout.size_of_manifest 0)) w1 in
      let (ignored, w3) = memory_close mem o1 w2 in
      if is_error err
      then (write_manifest_error, o1, w1)
      else (if is_error err2 then write_manifest_error else pull_success, o1, w3)
