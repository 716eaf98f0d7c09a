-- ===== src/Agents/Bootloader/Tests.antt =====
-- A start of the device of `Fixtures`: slot 3 holds an image that is newer than the running one.
use upkit.Prelude.{
  ℕ, ◌≡◌, refl, false, Option, none, some, List, pos, negsuc, replicate, if◌then◌else◌, ◌==◌,
}
use upkit.Errors.{generic_error}
use upkit.Memory.{memory_open, memory_read, memory_write, memory_close}
use upkit.Memory.Objects.{get_newest_firmware, get_oldest_firmware, swap_slots}
use upkit.Security.Verifier.{verify_object}
use upkit.Agents.Bootloader.{
  event_boot, event_bootstrap_failure, Config, Statics, Ended, Board, after_verify_bootable,
  validate_bootable, after_swap, upgrade, after_verify_source, verify_source, compare_versions,
  find_newest, first_boot, after_bootstrap, bootstrap, bootloader_agent,
}
use upkit.Fixtures.{Ram, ram, layout, crypto, safestore, slots, device}

abbrev board : Board (List ℕ) ℕ Ram
board = record { mem = ram; layout = layout; crypto = crypto; slots = slots; obj_end = negsuc 0 }

abbrev config : Config
config = record { bootloader_ctx_id = pos 4; swap_id = pos 5; swap_size = 4; safestore = safestore }

abbrev statics : Statics ℕ Ram
statics = record {
  obj_t = 0;
  bctx = replicate 128 0;
  version_bootable = 0;
  version_non_bootable = 0;
  bootloader_object = 0;
  source_slot = 0;
  destination_slot = 0;
  newest_bootable = 0;
  swap_slot = 0;
  id_newest_non_bootable = pos 0;
  id_newest_bootable = pos 0;
  id_oldest_bootable = pos 0;
  boot_id = pos 0;
  buffer = replicate 2 0;
  already_validated = false;
  cfg_buffer = replicate 2 0;
  dev = device;
}

ended_of : Option (Ended ℕ Ram) → Ended ℕ Ram
ended_of none = record { event = event_bootstrap_failure; err = generic_error; statics = statics }
ended_of (some r) = r

abbrev ended : Ended ℕ Ram
ended = ended_of (bootloader_agent board config statics)

-- The slot with the oldest bootable image, 2, is the one to boot, and it now holds the image of slot 3.
booted : (ended.event ≡ event_boot) × (ended.statics.boot_id ≡ pos 2) × (ended.statics.dev 2 0 ≡ 4)
unfolding ended_of bootloader_agent bootstrap after_bootstrap first_boot find_newest
    compare_versions verify_source after_verify_source upgrade after_swap validate_bootable
    after_verify_bootable get_newest_firmware get_oldest_firmware swap_slots verify_object
    memory_open memory_read memory_write memory_close
booted = (refl, refl, refl)

-- An image that does not pass is installed and started all the same.
unverified : Ended ℕ Ram
unverified = ended_of (
    bootloader_agent board config
      (record statics { dev = λ o p. if p == 7 then 1 else device o p }))

unverified_booted :
    (unverified.event ≡ event_boot)
    × (unverified.statics.boot_id ≡ pos 2)
    × (unverified.statics.dev 2 7 ≡ 1)
unfolding unverified ended_of bootloader_agent bootstrap after_bootstrap first_boot find_newest
    compare_versions verify_source after_verify_source upgrade after_swap validate_bootable
    after_verify_bootable get_newest_firmware get_oldest_firmware swap_slots verify_object
    memory_open memory_read memory_write memory_close
unverified_booted = (refl, refl, refl)
