-- ===== src/Memory/Objects/Tests.antt =====
-- The operations on the slots of `Fixtures`.
use upkit.Prelude.{
  ℕ, ◌<◌, ◌%◌, ◌≡◌, ◌≢◌, refl, ap, true, false, List, [], Option, some, none, pos, arith, replicate,
}
use upkit.Errors.{PullError}
use upkit.Memory.{MemId, memory_open, memory_close, memory_read, memory_write}
use upkit.Memory.Objects.{
  Found, get_ordered_firmware, copy_firmware, copy_loop, read_firmware_manifest,
}
use upkit.Memory.Objects.Copy.{copy_firmware_copies, copy_firmware_ends}
use upkit.Memory.Objects.Ordered.{IsFound, Best, IsOneOf, Steady, active, get_ordered_firmware_lem}
use upkit.Fixtures.{Ram, ram, ram_stores, layout, slots, first_slot, other_slots, device, object_of}

-- What is left when the image of slot 3 has gone to slot 1, four bytes at a time.
result_of : Option (PullError × List ℕ × Ram) → List ℕ × Ram
result_of none = ([], device)
result_of (some (err, buffer, w)) = (buffer, w)

abbrev copied : List ℕ × Ram
copied = result_of (copy_firmware ram layout 3 1 (replicate 4 0) device)

copy_firmware_copies_example : copied.1 1 7 ≡ device 3 7
unfolding copy_firmware copy_loop read_firmware_manifest memory_read memory_write result_of
copy_firmware_copies_example =
    copy_firmware_copies ram layout ram_stores 3 1 device refl (replicate 4 0) copied.0 copied.1
      (omega arith) refl 7 (omega arith)

u16_read : (size : ℕ) → size < 32768 → size % 65536 < 32768
u16_read size h = omega arith

copy_firmware_ends_example : copy_firmware ram layout 3 1 (replicate 4 0) device ≢ none
unfolding memory_read
copy_firmware_ends_example =
    copy_firmware_ends ram layout ram_stores 3 1 device refl (replicate 4 0) device (omega arith)
      (λ size offset w h. u16_read size h)

-- The version of each image on the device.
abbrev version_of : MemId → ℕ
version_of id = device (object_of id) 0

abbrev IsDevice : Ram → Type 0
IsDevice w = w ≡ device

steady : Steady version_of ram layout IsDevice
unfolding memory_open memory_close read_firmware_manifest
steady = record {
  opens = λ o id w h. h;
  reads = λ o w h. h;
  closes = λ o w h. h;
  same = λ o id w h _ _. ap (λ t. t (object_of id) 0) h;
}

abbrev oldest : Found
oldest = (get_ordered_firmware ram layout slots (pos 0) 0 false true 0 device).1

get_ordered_firmware_lem_example :
    IsFound version_of true oldest
    × Best version_of false true (active slots) oldest
    × IsOneOf oldest (active slots)
unfolding get_ordered_firmware
get_ordered_firmware_lem_example =
    get_ordered_firmware_lem version_of ram layout IsDevice false true first_slot other_slots
      (pos 0) 0 0 device steady refl refl (λ _. refl) refl

-- Slot 2 is the oldest bootable one.
oldest_id : oldest.id ≡ pos 2
unfolding get_ordered_firmware
oldest_id = refl
