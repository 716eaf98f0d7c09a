-- ===== src/FirmwareTool/Decompress/Reads.antt =====
-- utils/firmware_tool/commands/pipeline.cpp: the decoder of the firmware tool, as it reads a file bit by bit.
use upkit.Prelude.{
  ℕ, zero, suc, ◌+◌, ◌*◌, ◌/◌, ◌%◌, ◌^◌, ◌<◌, ◌≤◌, ◌≡◌, refl, sym, ap, subst, ◌∙◌, List, [], ◌∷◌,
  ◌++◌, Option, none, some, if◌then◌else◌, ◌==◌, false, length, arith,
}
use upkit.FirmwareTool.Decompress.{BitIn, first_bit, next_bit, and_then, getbit}
use upkit.Pipeline.Lzss.Chunks.{bits, spell}

-- The mask in front of the last `k` bits of a byte.
abbrev pub mask_of : ℕ → ℕ
mask_of zero = 0
mask_of (suc k) = 2 ^ k

-- The bits that are still to be read.
pub record Reads (ws : List ℕ) (b : BitIn) : Type 0 where
  pub k : ℕ
  pub few : k ≤ 8
  pub mask : b.mask ≡ mask_of k
  pub left : bits k b.buf ++ spell b.input ≡ ws

-- A bit has been read.
abbrev pub Read : ℕ → List ℕ → Option (ℕ × BitIn) → Type 0
Read w ws o = (b : BitIn) × (o ≡ some (w, b)) × Reads ws b

abbrev first_of : List ℕ → ℕ
first_of [] = 0
first_of (x ∷ xs) = x

abbrev rest_of : List ℕ → List ℕ
rest_of [] = []
rest_of (x ∷ xs) = xs

last_bits :
    (k buf : ℕ) (input : List ℕ) (w : ℕ) (ws : List ℕ)
    → k ≤ 8
    → bits (suc k) buf ++ spell input ≡ w ∷ ws
    → (2 ^ k == 0) ≡ false
    → 2 ^ k / 2 ≡ mask_of k
    → Read w ws (next_bit (record { input = input; buf = buf; mask = 2 ^ k }))
unfolding next_bit
last_bits k buf input w ws h e p q =
    let b : BitIn = record { input = input; buf = buf; mask = 2 ^ k / 2 } in
    (
      b,
      ap (λ c. if c then first_bit input else some ((buf / 2 ^ k) % 2, b)) p
          ∙ ap (λ t. some (t, b)) (ap first_of e),
      record { k = k; few = h; mask = q; left = ap rest_of e },
    )

next_at :
    (k buf : ℕ) (input : List ℕ) (w : ℕ) (ws : List ℕ)
    → k ≤ 8
    → bits k buf ++ spell input ≡ w ∷ ws
    → Read w ws (next_bit (record { input = input; buf = buf; mask = mask_of k }))
unfolding next_bit
next_at zero buf [] w ws h e = cc
next_at zero buf (c ∷ cs) w ws h e = (
  _,
  ap (λ t. some (t, record { input = cs; buf = c; mask = 64 })) (ap first_of e),
  record { k = 7; few = omega arith; mask = refl; left = ap rest_of e },
)
next_at (suc zero) buf input w ws h e = last_bits 0 buf input w ws (omega arith) e refl refl
next_at (suc (suc zero)) buf input w ws h e = last_bits 1 buf input w ws (omega arith) e refl refl
next_at (suc (suc (suc zero))) buf input w ws h e =
    last_bits 2 buf input w ws (omega arith) e refl refl
next_at (suc (suc (suc (suc zero)))) buf input w ws h e =
    last_bits 3 buf input w ws (omega arith) e refl refl
next_at (suc (suc (suc (suc (suc zero))))) buf input w ws h e =
    last_bits 4 buf input w ws (omega arith) e refl refl
next_at (suc (suc (suc (suc (suc (suc zero)))))) buf input w ws h e =
    last_bits 5 buf input w ws (omega arith) e refl refl
next_at (suc (suc (suc (suc (suc (suc (suc zero))))))) buf input w ws h e =
    last_bits 6 buf input w ws (omega arith) e refl refl
next_at (suc (suc (suc (suc (suc (suc (suc (suc zero)))))))) buf input w ws h e =
    last_bits 7 buf input w ws (omega arith) e refl refl
next_at (suc (suc (suc (suc (suc (suc (suc (suc (suc k))))))))) buf input w ws h e =
    absurd (omega arith)

next_bit_lem : (b : BitIn) (w : ℕ) (ws : List ℕ) → Reads (w ∷ ws) b → Read w ws (next_bit b)
next_bit_lem b w ws r =
    subst (λ m. Read w ws (next_bit (record { input = b.input; buf = b.buf; mask = m })))
      (sym r.mask) (next_at r.k b.buf b.input w ws r.few r.left)

-- The number that the bits spell, after `x`.
abbrev pub horner : ℕ → List ℕ → ℕ
horner x [] = x
horner x (b ∷ bs) = horner (2 * x + b) bs

getbit_lem :
    (n x v : ℕ) (ws : List ℕ) (b : BitIn)
    → Reads (bits n v ++ ws) b
    → Read (horner x (bits n v)) ws (getbit n x b)
unfolding getbit
getbit_lem zero x v ws b r = (b, refl, r)
getbit_lem (suc n) x v ws b r =
    let w = (v / 2 ^ n) % 2 in
    let (b1, e, r1) = next_bit_lem b w (bits n v ++ ws) r in
    let (b2, e2, r2) = getbit_lem n (2 * x + w) v ws b1 r1 in
    (b2, ap (λ o. and_then o (λ bit b1. getbit n (2 * x + bit) b1)) e ∙ e2, r2)

-- `getbit` on as many bits as a number below 2 ^ n has.
pub getbit-bits :
    (n v : ℕ) (ws : List ℕ) (b : BitIn)
    → horner 0 (bits n v) ≡ v
    → Reads (bits n v ++ ws) b
    → Read v ws (getbit n 0 b)
getbit-bits n v ws b e r = subst (λ t. Read t ws (getbit n 0 b)) e (getbit_lem n 0 v ws b r)

end_at :
    (k buf : ℕ) (input : List ℕ)
    → bits k buf ++ spell input ≡ []
    → next_bit (record { input = input; buf = buf; mask = mask_of k }) ≡ none
unfolding next_bit
end_at zero buf [] e = refl
end_at zero buf (c ∷ cs) e = cc
end_at (suc k) buf input e = cc

-- The end of the file.
next_bit_end : (b : BitIn) → Reads [] b → next_bit b ≡ none
next_bit_end b r =
    subst (λ m. next_bit (record { input = b.input; buf = b.buf; mask = m }) ≡ none) (sym r.mask)
      (end_at r.k b.buf b.input r.left)

pub getbit_short :
    (n x : ℕ) (ws : List ℕ) (b : BitIn) → length ws < n → Reads ws b → getbit n x b ≡ none
unfolding getbit
getbit_short zero x ws b h r = absurd (omega arith)
getbit_short (suc n) x [] b h r =
    ap (λ o. and_then o (λ bit b1. getbit n (2 * x + bit) b1)) (next_bit_end b r)
getbit_short (suc n) x (w ∷ ws) b h r =
    let (b1, e, r1) = next_bit_lem b w ws r in
    ap (λ o. and_then o (λ bit b1. getbit n (2 * x + bit) b1)) e
    ∙ getbit_short n (2 * x + w) ws b1 (omega arith) r1
