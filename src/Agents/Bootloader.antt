-- ===== src/Agents/Bootloader.antt =====
-- src/agents/bootloader_agent.c and include/libpull_agents/bootloader_agent.h: what a device does at
-- its start, without a factory image (FACTORY_IMAGE unset) and without coroutines (ENABLE_COROUTINES unset, as
-- in the builds of Zephyr and RIOT): PULL_RETURN returns, and PULL_CONTINUE is empty.
pub mod Boot
mod Tests
use upkit.Prelude.{
  ℕ, zero, suc, ◌%◌, Bool, true, false, not, ◌&&◌, List, [], ◌∷◌, Option, none, some, ℤ, pos,
  negsuc, if◌then◌else◌, ltb, ◌==◌, length, get_or, set, take, memcpy,
}
use upkit.Errors.{PullError, pull_success, memory_read_error, memory_write_error, is_error}
use upkit.Memory.{
  MemId, MemSlot, MemoryImpl, MemMode, read_only, write_chunk, sequential_rewrite, memory_open,
  memory_read, memory_write, memory_close,
}
use upkit.Memory.Manifest.{Layout}
use upkit.Memory.Objects.{get_newest_firmware, get_oldest_firmware, invalidate_object, swap_slots}
use upkit.Security.{Crypto, Safestore}
use upkit.Security.Verifier.{verify_object}

-- The events that end a start: `EVENT_BOOT` and the failures.
pub data Event : Type 0 where
  event_boot : Event
  event_validate_bootable_failure event_bootstrap_failure event_bootstrap_failure_2 : Event
  event_first_boot_failure event_get_newest_firmware_failure : Event
  event_get_newest_firmware_failure_2 event_get_newest_non_bootable_failure : Event
  event_store_bootloader_ctx_failure event_upgrade_copy_failure event_upgrade_failure : Event
  event_upgrade_failure_2 event_upgrade_failure_3 event_upgrade_failure_4 : Event
  event_validate_non_bootable_failure : Event

-- `bootloader_agent_config`; the bytes of its buffer are among the variables.
pub record Config : Type 0 where
  pub bootloader_ctx_id : MemId
  pub swap_id : MemId
  pub swap_size : ℕ
  pub safestore : Safestore

-- The static variables of the file, the buffer of the configuration, and the device.
pub record Statics (O W : Type 0) : Type 0 where
  pub obj_t : O
  pub bctx : List ℕ
  pub version_bootable : ℕ
  pub version_non_bootable : ℕ
  pub bootloader_object : O
  pub source_slot : O
  pub destination_slot : O
  pub newest_bootable : O
  pub swap_slot : O
  pub id_newest_non_bootable : MemId
  pub id_newest_bootable : MemId
  pub id_oldest_bootable : MemId
  pub boot_id : MemId
  pub buffer : List ℕ
  pub already_validated : Bool
  pub cfg_buffer : List ℕ
  pub dev : W

-- How a start ends: the event, the variable `err`, and the variables.
pub record Ended (O W : Type 0) : Type 0 where
  pub event : Event
  pub err : PullError
  pub statics : Statics O W

-- What the build gives.
pub record Board (D O W : Type 0) : Type 0 where
  pub mem : MemoryImpl O W
  pub layout : Layout
  pub crypto : Crypto D
  pub slots : List MemSlot
  pub obj_end : MemId

abbrev pub same_id : MemId → MemId → Bool
same_id (pos m) (pos n) = m == n
same_id (negsuc m) (negsuc n) = m == n
same_id (pos m) (negsuc n) = false
same_id (negsuc m) (pos n) = false

-- `sizeof(bootloader_ctx)`, and where `startup_flags` is in it.
abbrev pub size_of_bctx : ℕ
size_of_bctx = 128

-- `(bctx.startup_flags & FIRST_BOOT) == FIRST_BOOT`
abbrev pub is_first_boot : List ℕ → Bool
is_first_boot bctx = get_or bctx 127 0 % 2 == 1

module _ {D O W : Type 0} (bd : Board D O W) where
  -- `PULL_RETURN`
  abbrev pub stop : Event → PullError → Statics O W → Option (Ended O W)
  stop ev err s = some (record { event = ev; err = err; statics = s })

  -- (5.1), after `verify_object`.
  unfoldable pub after_verify_bootable :
      Statics O W → Option (PullError × List ℕ × W) → Option (Ended O W)
  after_verify_bootable s none = none
  after_verify_bootable s (some (err, bytes, w)) =
      let s1 = record s { cfg_buffer = bytes; dev = w } in
      if is_error err
      then stop event_validate_bootable_failure err s1
      else stop event_boot err (record s1 { boot_id = s.id_newest_bootable })

  -- (5)
  unfoldable pub validate_bootable : Config → PullError → Statics O W → Option (Ended O W)
  validate_bootable cfg err s =
      if s.already_validated
      then stop event_boot err s
      else after_verify_bootable s (
          verify_object bd.crypto bd.layout bd.mem s.newest_bootable cfg.safestore s.cfg_buffer
            s.dev)

  -- (4.2), after `swap_slots`.
  unfoldable pub after_swap :
      Config → Statics O W → Option (PullError × List ℕ × W) → Option (Ended O W)
  after_swap cfg s none = none
  after_swap cfg s (some (err, bytes, w)) =
      let s1 = record s { buffer = bytes; dev = w } in
      let s2 = record s1 {
        dev = (memory_close bd.mem s1.destination_slot s1.dev).1;
        already_validated = true;
        boot_id = s.id_oldest_bootable;
      } in
      if is_error err then stop event_upgrade_copy_failure err s1 else validate_bootable cfg err s2

  -- (4.2)
  unfoldable pub upgrade : Config → Statics O W → Option (Ended O W)
  upgrade cfg s =
      let (err, found, o, w) =
        get_oldest_firmware bd.mem bd.layout bd.slots s.id_oldest_bootable s.version_bootable true
          s.obj_t s.dev in
      let s1 = record s {
        id_oldest_bootable = found.id;
        version_bootable = found.version;
        obj_t = o;
        dev = w;
      } in
      let (err2, o2, w2) = memory_open bd.mem s1.destination_slot found.id sequential_rewrite w in
      let s2 = record s1 { destination_slot = o2; dev = w2 } in
      let (err3, o3, w3) =
        memory_open bd.mem s2.source_slot s2.id_newest_non_bootable sequential_rewrite w2 in
      let s3 = record s2 { source_slot = o3; dev = w3 } in
      let (err4, o4, w4) = memory_open bd.mem s3.swap_slot cfg.swap_id sequential_rewrite w3 in
      let s4 = record s3 { swap_slot = o4; dev = w4 } in
      if is_error err
      then stop event_upgrade_failure err s1
      else (if is_error err2
          then stop event_upgrade_failure_2 err2 s2
          else (if is_error err3
              then stop event_upgrade_failure_3 err3 s3
              else (if is_error err4
                  then stop event_upgrade_failure_4 err4 s4
                  else after_swap cfg s4 (
                      swap_slots bd.mem bd.layout s4.source_slot s4.destination_slot s4.swap_slot
                        cfg.swap_size s4.buffer s4.dev))))

  -- (4.1), after `verify_object`: what it returned is not looked at, since PULL_CONTINUE is empty.
  unfoldable pub after_verify_source :
      Config → Statics O W → Option (PullError × List ℕ × W) → Option (Ended O W)
  after_verify_source cfg s none = none
  after_verify_source cfg s (some (err, bytes, w)) =
      let s1 = record s { cfg_buffer = bytes; dev = w } in
      upgrade cfg (record s1 { dev = (memory_close bd.mem s1.source_slot s1.dev).1 })

  -- (4.1)
  unfoldable pub verify_source : Config → Statics O W → Option (Ended O W)
  verify_source cfg s =
      let (err, o, w) = memory_open bd.mem s.source_slot s.id_newest_non_bootable read_only s.dev in
      let s1 = record s { source_slot = o; dev = w } in
      if is_error err
      then stop event_validate_non_bootable_failure err s1
      else after_verify_source cfg s1
          (verify_object bd.crypto bd.layout bd.mem o cfg.safestore s.cfg_buffer w)

  -- (4): the newest image against the newest bootable one.
  unfoldable pub compare_versions : Config → PullError → Statics O W → Option (Ended O W)
  compare_versions cfg err s =
      if ltb s.version_bootable s.version_non_bootable
      then verify_source cfg s
      else validate_bootable cfg err s

  -- (3), after the bootloader's object has been closed.
  unfoldable pub find_newest : Config → Statics O W → Option (Ended O W)
  find_newest cfg s =
      let s1 = record s { dev = (memory_close bd.mem s.bootloader_object s.dev).1 } in
      let (err, found, o, w) =
        get_newest_firmware bd.mem bd.layout bd.slots s.id_newest_non_bootable
          s.version_non_bootable false s1.obj_t s1.dev in
      let s2 = record s1 {
        id_newest_non_bootable = found.id;
        version_non_bootable = found.version;
        obj_t = o;
        dev = w;
      } in
      if is_error err
      then stop event_get_newest_non_bootable_failure err s2
      else compare_versions cfg err s2

  -- (2.1): every slot but that of the newest bootable image is invalidated.
  unfoldable pub erase_slots : List MemSlot → MemId → O → W → PullError × O × W
  erase_slots [] keep o w = (pull_success, o, w)
  erase_slots (slot ∷ slots) keep o w =
      let (err, o1, w1) = invalidate_object bd.mem bd.layout slot.id o w in
      let rest = erase_slots slots keep o1 w1 in
      let skip = erase_slots slots keep o w in
      if same_id slot.id bd.obj_end
      then (pull_success, o, w)
      else (if same_id slot.id keep then skip else (if is_error err then (err, o1, w1) else rest))

  -- (2.1) and (2.3)
  unfoldable pub first_boot : Config → Statics O W → Option (Ended O W)
  first_boot cfg s =
      let (err, o, w) = erase_slots bd.slots s.id_newest_bootable s.obj_t s.dev in
      let s1 = record s { obj_t = o; dev = w } in
      let s2 = record s1 { bctx = set s1.bctx 127 0 } in
      let (n, w2) = memory_write bd.mem s2.bootloader_object s2.bctx 0 s2.dev in
      let s3 = record s2 { dev = w2 } in
      if is_error err
      then stop event_first_boot_failure err s1
      else (if not (n == size_of_bctx)
          then stop event_store_bootloader_ctx_failure memory_write_error s3
          else find_newest cfg s3)

  -- The branch of (2) for the first boot, and what follows it.
  unfoldable pub after_bootstrap : Config → Statics O W → Option (Ended O W)
  after_bootstrap cfg s = if is_first_boot s.bctx then first_boot cfg s else find_newest cfg s

  -- (2)
  unfoldable pub bootstrap : Config → Statics O W → Option (Ended O W)
  bootstrap cfg s =
      let (err, o, w) =
        memory_open bd.mem s.bootloader_object cfg.bootloader_ctx_id write_chunk s.dev in
      let s1 = record s { bootloader_object = o; dev = w } in
      let (n, bytes, w2) = memory_read bd.mem o size_of_bctx 0 w in
      let s2 = record s1 { bctx = memcpy s1.bctx 0 bytes; dev = w2 } in
      if is_error err
      then stop event_bootstrap_failure err s1
      else (if not (n == size_of_bctx)
          then stop event_bootstrap_failure_2 memory_read_error s2
          else after_bootstrap cfg s2)

  -- (1), and all that follows.
  unfoldable pub bootloader_agent : Config → Statics O W → Option (Ended O W)
  bootloader_agent cfg s =
      let (err, found, o, w) =
        get_newest_firmware bd.mem bd.layout bd.slots s.id_newest_bootable s.version_bootable true
          s.obj_t s.dev in
      let s1 = record s {
        id_newest_bootable = found.id;
        version_bootable = found.version;
        obj_t = o;
        dev = w;
      } in
      let (err2, o2, w2) = memory_open bd.mem s1.newest_bootable found.id read_only w in
      let s2 = record s1 { newest_bootable = o2; dev = w2 } in
      if is_error err
      then stop event_get_newest_firmware_failure err s1
      else (if is_error err2
          then stop event_get_newest_firmware_failure_2 err2 s2
          else bootstrap cfg s2)
