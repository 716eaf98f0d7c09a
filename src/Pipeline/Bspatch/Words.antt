-- ===== src/Pipeline/Bspatch/Words.antt =====
-- The numbers of a patch, as the stage receives them.
use upkit.Prelude.{
  ℕ, ◌+◌, ◌/◌, ◌%◌, ◌<◌, ◌≡◌, refl, ap, ◌∙◌, [], ◌∷◌, ℤ, pos, negsuc, length, if◌then◌else◌, leb,
  is_negative, arith,
}
use upkit.Pipeline.Bspatch.{Ctrl, read_y, negate_y, put_byte}
use upkit.FirmwareTool.Offset.{magnitude}

-- Eight bytes received into a union.
abbrev pub received : ℕ → ℕ → ℕ → ℕ → ℕ → ℕ → ℕ → ℕ → Ctrl → Ctrl
received a b c d e f g h x = put_byte 7 h (
    put_byte 6 g
      (put_byte 5 f (put_byte 4 e (put_byte 3 d (put_byte 2 c (put_byte 1 b (put_byte 0 a x)))))))

abbrev bytes : ℕ → ℕ → ℕ → ℕ → ℕ → ℕ → ℕ → ℕ → Ctrl
bytes a b c d e f g h =
    let x = a ∷ b ∷ c ∷ d ∷ e ∷ f ∷ g ∷ (h % 128) ∷ [] in if leb 128 h then negate_y x else x

-- What the union held before does not matter.
received_lem :
    (a b c d e f g h : ℕ) (x : Ctrl)
    → length x ≡ 8
    → received a b c d e f g h x ≡ bytes a b c d e f g h
unfolding put_byte
received_lem a b c d e f g h [] k = absurd (omega arith)
received_lem a b c d e f g h (x0 ∷ []) k = absurd (omega arith)
received_lem a b c d e f g h (x0 ∷ x1 ∷ []) k = absurd (omega arith)
received_lem a b c d e f g h (x0 ∷ x1 ∷ x2 ∷ []) k = absurd (omega arith)
received_lem a b c d e f g h (x0 ∷ x1 ∷ x2 ∷ x3 ∷ []) k = absurd (omega arith)
received_lem a b c d e f g h (x0 ∷ x1 ∷ x2 ∷ x3 ∷ x4 ∷ []) k = absurd (omega arith)
received_lem a b c d e f g h (x0 ∷ x1 ∷ x2 ∷ x3 ∷ x4 ∷ x5 ∷ []) k = absurd (omega arith)
received_lem a b c d e f g h (x0 ∷ x1 ∷ x2 ∷ x3 ∷ x4 ∷ x5 ∷ x6 ∷ []) k = absurd (omega arith)
received_lem a b c d e f g h (x0 ∷ x1 ∷ x2 ∷ x3 ∷ x4 ∷ x5 ∷ x6 ∷ x7 ∷ []) k = refl
received_lem a b c d e f g h (x0 ∷ x1 ∷ x2 ∷ x3 ∷ x4 ∷ x5 ∷ x6 ∷ x7 ∷ x8 ∷ xs) k =
    absurd (omega arith)

length-bytes : (a b c d e f g h : ℕ) → length (bytes a b c d e f g h) ≡ 8
unfolding negate_y
length-bytes a b c d e f g h = ground arith

pub length-received :
    (a b c d e f g h : ℕ) (x : Ctrl) → length x ≡ 8 → length (received a b c d e f g h x) ≡ 8
length-received a b c d e f g h x k =
    ap length (received_lem a b c d e f g h x k) ∙ length-bytes a b c d e f g h

-- The union after the eight bytes of a number.
abbrev pub receive : ℤ → Ctrl → Ctrl
receive z x =
    let y = magnitude z in
    received (y % 256) (y / 256 % 256) (y / 65536 % 256) (y / 16777216 % 256) (y / 4294967296 % 256)
      (y / 1099511627776 % 256) (y / 281474976710656 % 256)
      (y / 72057594037927936 % 256 + (if is_negative z then 128 else 0)) x

pub read_y-receive :
    (z : ℤ) (x : Ctrl) → length x ≡ 8 → magnitude z < 2147483648 → read_y (receive z x) ≡ z
unfolding read_y negate_y
read_y-receive (pos n) x k h = ap read_y (received_lem _ _ _ _ _ _ _ _ x k) ∙ ground arith
read_y-receive (negsuc n) x k h = ap read_y (received_lem _ _ _ _ _ _ _ _ x k) ∙ ground arith
