-- ===== src/Agents/Bootloader/Boot.antt =====
-- What has been done when the bootloader agent ends with `EVENT_BOOT`.
use upkit.Prelude.{ℕ, ◌≡◌, ◌⊎◌, Bool, true, false, ltb, List, some}
use upkit.Errors.{pull_success}
use upkit.Memory.{MemId, read_only, sequential_rewrite, memory_open, memory_close}
use upkit.Memory.Objects.{swap_slots}
use upkit.Security.Verifier.{verify_object}
use upkit.Agents.Bootloader.{Event, event_boot, Config, Statics, Board}

abbrev is_boot : Event → Bool
is_boot event_boot = true
is_boot _ = false

module _ {D O W : Type 0} (bd : Board D O W) (cfg : Config) where
  -- No image is newer than the newest bootable one, which is the one to boot, and `verify_object`, with the
  -- buffer `buf`, has passed it and left the buffer and the device as they are at the end.
  pub record Kept (buf : List ℕ) (obj : O) (id : MemId) (s : Statics O W) : Type 0 where
    pub same_object : s.newest_bootable ≡ obj
    pub same_id : s.id_newest_bootable ≡ id
    pub newest : ltb s.version_bootable s.version_non_bootable ≡ false
    pub before : W
    pub passed :
        verify_object bd.crypto bd.layout bd.mem s.newest_bootable cfg.safestore buf before
        ≡ some (pull_success, s.cfg_buffer, s.dev)
    pub boots : s.boot_id ≡ s.id_newest_bootable

  -- One after the other, the oldest bootable slot, the slot of the newest image and the one for the swap have been
  -- opened for writing.
  pub record Opened (s : Statics O W) (before : W) : Type 0 where
    pub destination : O
    pub source : O
    pub swap : O
    pub found : W
    pub at_source : W
    pub at_swap : W
    pub opens_destination :
        memory_open bd.mem destination s.id_oldest_bootable sequential_rewrite found
        ≡ (pull_success, s.destination_slot, at_source)
    pub opens_source :
        memory_open bd.mem source s.id_newest_non_bootable sequential_rewrite at_source
        ≡ (pull_success, s.source_slot, at_swap)
    pub opens_swap :
        memory_open bd.mem swap cfg.swap_id sequential_rewrite at_swap
        ≡ (pull_success, s.swap_slot, before)

  -- `swap_slots`, with the buffer `buf`, has succeeded for the opened objects; but for the close of the
  -- destination the device is as it left it, and the oldest bootable slot is the one to boot.
  pub record Installed (buf : List ℕ) (s : Statics O W) : Type 0 where
    pub before : W
    pub swapped_at : W
    pub opened : Opened s before
    pub swapped :
        swap_slots bd.mem bd.layout s.source_slot s.destination_slot s.swap_slot cfg.swap_size buf
          before
        ≡ some (pull_success, s.buffer, swapped_at)
    pub closed : s.dev ≡ (memory_close bd.mem s.destination_slot swapped_at).1
    pub boots : s.boot_id ≡ s.id_oldest_bootable

  -- What the stages behind the opening of the newest bootable image come to.
  abbrev Staged : Statics O W → Statics O W → Type 0
  Staged s0 s =
      Installed s0.buffer s ⊎ Kept s0.cfg_buffer s0.newest_bootable s0.id_newest_bootable s

  -- The newest bootable image has been opened for reading, and kept.
  pub record Checked (buf : List ℕ) (s : Statics O W) : Type 0 where
    pub closed_object : O
    pub found : W
    pub opened_at : W
    pub opened :
        memory_open bd.mem closed_object s.id_newest_bootable read_only found
        ≡ (pull_success, s.newest_bootable, opened_at)
    pub kept : Kept buf s.newest_bootable s.id_newest_bootable s

  abbrev pub Booted : Statics O W → Statics O W → Type 0
  Booted s0 s = Installed s0.buffer s ⊎ Checked s0.cfg_buffer s
