-- ===== src/FirmwareTool/Compress/Flush.antt =====
-- utils/firmware_tool/commands/pipeline.cpp: the last byte of the LZSS encoder, filled up with zeros.

use upkit.Prelude.{
  ℕ, ◌<◌, ◌≡◌, refl, sym, ap, subst₂, ◌∙◌, List, [], ◌∷◌, ◌++◌, append_assoc, append-nil, length,
  replicate, ◌-◌, arith,
}
use upkit.FirmwareTool.Compress.{BitOut, flush_bit_buffer}
use upkit.FirmwareTool.Compress.Bits.{weigh, mask_after, AllBits}
use upkit.Pipeline.Lzss.Chunks.{bits, spell}
use upkit.FirmwareTool.Compress.Output.{Written, spell-append, cons}

-- The bits of a byte, of which `l` are the first and the others are zero.
filled_up :
    (l : List ℕ) → length l < 8 → AllBits l → bits 8 (weigh 128 l) ≡ l ++ replicate (8 - length l) 0
filled_up [] n h = refl
filled_up (a ∷ []) n h = cons (ground (arith, h)) (
    cons (ground (arith, h)) (
      cons (ground (arith, h)) (
        cons (ground (arith, h)) (
          cons (ground (arith, h)) (
            cons (ground (arith, h))
              (cons (ground (arith, h)) (cons (ground (arith, h)) (refl))))))))
filled_up (a ∷ b ∷ []) n h = cons (ground (arith, h)) (
    cons (ground (arith, h)) (
      cons (ground (arith, h)) (
        cons (ground (arith, h)) (
          cons (ground (arith, h)) (
            cons (ground (arith, h))
              (cons (ground (arith, h)) (cons (ground (arith, h)) (refl))))))))
filled_up (a ∷ b ∷ c ∷ []) n h = cons (ground (arith, h)) (
    cons (ground (arith, h)) (
      cons (ground (arith, h)) (
        cons (ground (arith, h)) (
          cons (ground (arith, h)) (
            cons (ground (arith, h))
              (cons (ground (arith, h)) (cons (ground (arith, h)) (refl))))))))
filled_up (a ∷ b ∷ c ∷ d ∷ []) n h = cons (ground (arith, h)) (
    cons (ground (arith, h)) (
      cons (ground (arith, h)) (
        cons (ground (arith, h)) (
          cons (ground (arith, h)) (
            cons (ground (arith, h))
              (cons (ground (arith, h)) (cons (ground (arith, h)) (refl))))))))
filled_up (a ∷ b ∷ c ∷ d ∷ e ∷ []) n h = cons (ground (arith, h)) (
    cons (ground (arith, h)) (
      cons (ground (arith, h)) (
        cons (ground (arith, h)) (
          cons (ground (arith, h)) (
            cons (ground (arith, h))
              (cons (ground (arith, h)) (cons (ground (arith, h)) (refl))))))))
filled_up (a ∷ b ∷ c ∷ d ∷ e ∷ f ∷ []) n h = cons (ground (arith, h)) (
    cons (ground (arith, h)) (
      cons (ground (arith, h)) (
        cons (ground (arith, h)) (
          cons (ground (arith, h)) (
            cons (ground (arith, h))
              (cons (ground (arith, h)) (cons (ground (arith, h)) (refl))))))))
filled_up (a ∷ b ∷ c ∷ d ∷ e ∷ f ∷ g ∷ []) n h = cons (ground (arith, h)) (
    cons (ground (arith, h)) (
      cons (ground (arith, h)) (
        cons (ground (arith, h)) (
          cons (ground (arith, h)) (
            cons (ground (arith, h))
              (cons (ground (arith, h)) (cons (ground (arith, h)) (refl))))))))
filled_up (a ∷ b ∷ c ∷ d ∷ e ∷ f ∷ g ∷ p ∷ l) n h = absurd (omega arith)

-- At most seven zero bits follow `ws`.
abbrev pub Padded : List ℕ → List ℕ → Type 0
Padded ws out = (n : ℕ) × (n < 8) × (spell out ≡ ws ++ replicate n 0)

fill_last :
    (l o : List ℕ)
    → 0 < length l
    → length l < 8
    → AllBits l
    → Padded (spell o ++ l) (o ++ (weigh 128 l ∷ []))
fill_last l o m n h = (
  8 - length l,
  omega arith,
  spell-append o _
      ∙ (ap (λ t. spell o ++ t) (append-nil _ ∙ filled_up l n h)
          ∙ sym (append_assoc (spell o) l _)),
)

flush_at :
    (l o : List ℕ)
    → length l < 8
    → AllBits l
    → Padded
        (spell o ++ l)
        (flush_bit_buffer
          (record { bit_buffer = weigh 128 l; bit_mask = mask_after 128 l; outfile = o })).outfile
unfolding flush_bit_buffer
flush_at [] o n h = (0, omega arith, sym (append-nil _ ∙ append-nil _))
flush_at (a ∷ []) o n h = fill_last (a ∷ []) o (omega arith) n h
flush_at (a ∷ b ∷ []) o n h = fill_last (a ∷ b ∷ []) o (omega arith) n h
flush_at (a ∷ b ∷ c ∷ []) o n h = fill_last (a ∷ b ∷ c ∷ []) o (omega arith) n h
flush_at (a ∷ b ∷ c ∷ d ∷ []) o n h = fill_last (a ∷ b ∷ c ∷ d ∷ []) o (omega arith) n h
flush_at (a ∷ b ∷ c ∷ d ∷ e ∷ []) o n h = fill_last (a ∷ b ∷ c ∷ d ∷ e ∷ []) o (omega arith) n h
flush_at (a ∷ b ∷ c ∷ d ∷ e ∷ f ∷ []) o n h =
    fill_last (a ∷ b ∷ c ∷ d ∷ e ∷ f ∷ []) o (omega arith) n h
flush_at (a ∷ b ∷ c ∷ d ∷ e ∷ f ∷ g ∷ []) o n h =
    fill_last (a ∷ b ∷ c ∷ d ∷ e ∷ f ∷ g ∷ []) o (omega arith) n h
flush_at (a ∷ b ∷ c ∷ d ∷ e ∷ f ∷ g ∷ p ∷ l) o n h = absurd (omega arith)

pub flush-Written :
    {ws : List ℕ} (b : BitOut) → Written ws b → Padded ws (flush_bit_buffer b).outfile
flush-Written {ws} b w =
    subst₂ (λ v (u : BitOut). Padded v (flush_bit_buffer u).outfile) w.whole
      (λ i. record { bit_buffer = sym w.buffer i; bit_mask = sym w.mask i; outfile = b.outfile })
      (flush_at w.waiting b.outfile w.few w.binary)
