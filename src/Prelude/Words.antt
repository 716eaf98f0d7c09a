-- ===== src/Prelude/Words.antt =====
-- The fixed-width integers of include/libpull/common/types.h and the `int` results of the library.
use Prim.Native.Nat.{ℕ, ◌-◌, ◌%◌}
use mathlib.Core.Bool.{Bool, true, false}

-- `negsuc n` is -(n + 1).
pub data ℤ : Type 0 where
  pos : ℕ → ℤ
  negsuc : ℕ → ℤ

abbrev pub u8 : ℕ → ℕ
u8 n = n % 256

abbrev pub u16 : ℕ → ℕ
u16 n = n % 65536

abbrev pub u32 : ℕ → ℕ
u32 n = n % 4294967296

-- The conversion of an `int` to `uint16_t`.
abbrev pub int_to_u16 : ℤ → ℕ
int_to_u16 (pos n) = u16 n
int_to_u16 (negsuc n) = 65535 - u16 n

abbrev pub is_negative : ℤ → Bool
is_negative (pos n) = false
is_negative (negsuc n) = true

-- The conversion of an `int64_t` to `uint32_t`.
abbrev pub int_to_u32 : ℤ → ℕ
int_to_u32 (pos n) = u32 n
int_to_u32 (negsuc n) = 4294967295 - u32 n
