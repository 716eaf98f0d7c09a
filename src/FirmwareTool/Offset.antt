-- ===== src/FirmwareTool/Offset.antt =====
-- utils/firmware_tool/commands/pipeline.cpp: the numbers of a patch, as a sign and a magnitude in eight
-- bytes.
use upkit.Prelude.{
  ℕ, zero, suc, ◌+◌, ◌*◌, ◌/◌, ◌%◌, ◌<◌, ◌≡◌, refl, List, [], ◌∷◌, ℤ, pos, negsuc, neg_int,
  is_negative, get_or, if◌then◌else◌, leb, arith,
}

-- `y`, the magnitude.
abbrev pub magnitude : ℤ → ℕ
magnitude (pos n) = n
magnitude (negsuc n) = n + 1

-- The sign bit of the last byte is clear in the magnitude of an `int64_t`.
unfoldable pub offtout : ℤ → List ℕ
offtout x =
    let y = magnitude x in
    y % 256
    ∷ y / 256 % 256
    ∷ y / 65536 % 256
    ∷ y / 16777216 % 256
    ∷ y / 4294967296 % 256
    ∷ y / 1099511627776 % 256
    ∷ y / 281474976710656 % 256
    ∷ (y / 72057594037927936 % 256 + (if is_negative x then 128 else 0))
    ∷ []

unfoldable pub offtin : List ℕ → ℤ
offtin buf =
    let b = λ (k : ℕ). get_or buf k 0 in
    let y =
      ((((((b 7 % 128 * 256 + b 6) * 256 + b 5) * 256 + b 4) * 256 + b 3) * 256 + b 2) * 256 + b 1)
        * 256
      + b 0 in
    if leb 128 (b 7) then neg_int (pos y) else pos y

neg-suc : (y n : ℕ) → y ≡ n + 1 → neg_int (pos y) ≡ negsuc n
neg-suc zero n h = absurd (omega arith)
neg-suc (suc y) n h = let e : y ≡ n = omega arith in rw e refl

-- `offtin` reads what `offtout` writes, for every number whose magnitude is below 2^63.
pub offtin-offtout : (x : ℤ) → magnitude x < 9223372036854775808 → offtin (offtout x) ≡ x
unfolding offtin offtout
offtin-offtout (pos n) h = ground arith
offtin-offtout (negsuc n) h = ground (arith, neg-suc _ n)
