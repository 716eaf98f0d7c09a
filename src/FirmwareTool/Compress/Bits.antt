-- ===== src/FirmwareTool/Compress/Bits.antt =====
-- utils/firmware_tool/commands/pipeline.cpp: a byte that is filled bit by bit under a mask.
use Prim.Native.Nat.{bit_or}
use upkit.Prelude.{
  ℕ, zero, suc, ◌+◌, ◌*◌, ◌/◌, ◌<◌, ◌≡◌, refl, ap, ◌∙◌, Bool, true, false, List, [], ◌∷◌, ◌++◌,
  if◌then◌else◌, ◌==◌, length, arith,
}

-- The value of the first bits of a byte, from the weight `m` on, and the mask behind them.
abbrev pub weigh : ℕ → List ℕ → ℕ
weigh m [] = 0
weigh m (x ∷ xs) = x * m + weigh (m / 2) xs

abbrev pub mask_after : ℕ → List ℕ → ℕ
mask_after m [] = m
mask_after m (x ∷ xs) = mask_after (m / 2) xs

abbrev pub AllBits : List ℕ → Type 0
AllBits [] = Unit {0}
AllBits (x ∷ xs) = (x < 2) × AllBits xs

module _ (f g : ℕ → ℕ) where
  agree_below : ℕ → Bool
  agree_below zero = true
  agree_below (suc n) = let rest = agree_below n in if f n == g n then rest else false

  agree_below_sound : (n : ℕ) → agree_below n ≡ true → (i : ℕ) → i < n → f i ≡ g i
  unfolding agree_below
  agree_below_sound zero e i h = absurd (omega arith)
  agree_below_sound (suc n) e i h = ground (arith, agree_below_sound n (ground arith) i)

-- `|=` with a mask whose bit is clear.
or_mask_64 : (h : ℕ) → h < 2 → bit_or (h * 128) 64 ≡ h * 128 + 64
unfolding agree_below
or_mask_64 = agree_below_sound (λ h. bit_or (h * 128) 64) (λ h. h * 128 + 64) 2 refl

or_mask_32 : (h : ℕ) → h < 4 → bit_or (h * 64) 32 ≡ h * 64 + 32
unfolding agree_below
or_mask_32 = agree_below_sound (λ h. bit_or (h * 64) 32) (λ h. h * 64 + 32) 4 refl

or_mask_16 : (h : ℕ) → h < 8 → bit_or (h * 32) 16 ≡ h * 32 + 16
unfolding agree_below
or_mask_16 = agree_below_sound (λ h. bit_or (h * 32) 16) (λ h. h * 32 + 16) 8 refl

or_mask_8 : (h : ℕ) → h < 16 → bit_or (h * 16) 8 ≡ h * 16 + 8
unfolding agree_below
or_mask_8 = agree_below_sound (λ h. bit_or (h * 16) 8) (λ h. h * 16 + 8) 16 refl

or_mask_4 : (h : ℕ) → h < 32 → bit_or (h * 8) 4 ≡ h * 8 + 4
unfolding agree_below
or_mask_4 = agree_below_sound (λ h. bit_or (h * 8) 4) (λ h. h * 8 + 4) 32 refl

or_mask_2 : (h : ℕ) → h < 64 → bit_or (h * 4) 2 ≡ h * 4 + 2
unfolding agree_below
or_mask_2 = agree_below_sound (λ h. bit_or (h * 4) 2) (λ h. h * 4 + 2) 64 refl

or_mask_1 : (h : ℕ) → h < 128 → bit_or (h * 2) 1 ≡ h * 2 + 1
unfolding agree_below
or_mask_1 = agree_below_sound (λ h. bit_or (h * 2) 1) (λ h. h * 2 + 1) 128 refl

or_at :
    (m h k : ℕ) {v u : ℕ}
    → v ≡ h * k
    → bit_or (h * k) m ≡ h * k + m
    → h * k + m ≡ u
    → bit_or v m ≡ u
or_at m h k e f g = ap (λ v. bit_or v m) e ∙ (f ∙ g)

-- `putbit1` adds the bit under the mask.
pub or-weigh :
    (l : List ℕ)
    → length l < 8
    → AllBits l
    → bit_or (weigh 128 l) (mask_after 128 l) ≡ weigh 128 (l ++ (1 ∷ []))
or-weigh [] n h = refl
or-weigh (a ∷ []) n h =
    or_at 64 (a) 128 (omega (arith, h)) (or_mask_64 (a) (omega (arith, h))) (omega (arith, h))
or-weigh (a ∷ b ∷ []) n h =
    or_at 32 (a * 2 + b) 64 (omega (arith, h)) (or_mask_32 (a * 2 + b) (omega (arith, h)))
      (omega (arith, h))
or-weigh (a ∷ b ∷ c ∷ []) n h =
    or_at 16 (a * 4 + b * 2 + c) 32 (omega (arith, h))
      (or_mask_16 (a * 4 + b * 2 + c) (omega (arith, h))) (omega (arith, h))
or-weigh (a ∷ b ∷ c ∷ d ∷ []) n h =
    or_at 8 (a * 8 + b * 4 + c * 2 + d) 16 (omega (arith, h))
      (or_mask_8 (a * 8 + b * 4 + c * 2 + d) (omega (arith, h))) (omega (arith, h))
or-weigh (a ∷ b ∷ c ∷ d ∷ e ∷ []) n h =
    or_at 4 (a * 16 + b * 8 + c * 4 + d * 2 + e) 8 (omega (arith, h))
      (or_mask_4 (a * 16 + b * 8 + c * 4 + d * 2 + e) (omega (arith, h))) (omega (arith, h))
or-weigh (a ∷ b ∷ c ∷ d ∷ e ∷ f ∷ []) n h =
    or_at 2 (a * 32 + b * 16 + c * 8 + d * 4 + e * 2 + f) 4 (omega (arith, h))
      (or_mask_2 (a * 32 + b * 16 + c * 8 + d * 4 + e * 2 + f) (omega (arith, h)))
      (omega (arith, h))
or-weigh (a ∷ b ∷ c ∷ d ∷ e ∷ f ∷ g ∷ []) n h =
    or_at 1 (a * 64 + b * 32 + c * 16 + d * 8 + e * 4 + f * 2 + g) 2 (omega (arith, h))
      (or_mask_1 (a * 64 + b * 32 + c * 16 + d * 8 + e * 4 + f * 2 + g) (omega (arith, h)))
      (omega (arith, h))
or-weigh (a ∷ b ∷ c ∷ d ∷ e ∷ f ∷ g ∷ p ∷ l) n h = absurd (omega arith)
