-- ===== src/FirmwareTool/Decompress.antt =====
-- utils/firmware_tool/commands/pipeline.cpp: the LZSS decoder of the firmware tool.
mod Reads
pub mod RoundTrip
mod Tests
use upkit.Prelude.{
  ℕ, zero, suc, ◌+◌, ◌*◌, ◌/◌, ◌%◌, List, [], ◌∷◌, ◌++◌, Option, none, some, if◌then◌else◌, ◌==◌,
  get_or, set, replicate, length,
}

-- The input file, and the static `buf` and `mask` of `getbit`.
pub record BitIn : Type 0 where
  pub input : List ℕ
  pub buf : ℕ
  pub mask : ℕ

-- `input.get(c); if (input.eof()) return EOF;` with the round that follows it.
abbrev pub first_bit : List ℕ → Option (ℕ × BitIn)
first_bit [] = none
first_bit (c ∷ cs) = some ((c / 128) % 2, record { input = cs; buf = c; mask = 64 })

-- One round of the loop of `getbit`: the bit under the mask, or none at the end of the file.
unfoldable pub next_bit : BitIn → Option (ℕ × BitIn)
next_bit b =
    if b.mask == 0
    then first_bit b.input
    else some ((b.buf / b.mask) % 2, record b { mask = b.mask / 2 })

abbrev pub and_then : {A B : Type 0} → Option (A × BitIn) → (A → BitIn → Option B) → Option B
and_then none f = none
and_then (some (x, b)) f = f x b

-- `getbit` with `n` rounds left; none for EOF.
unfoldable pub getbit : ℕ → ℕ → BitIn → Option (ℕ × BitIn)
unfolding next_bit
getbit zero x b = some (x, b)
getbit (suc n) x b = and_then (next_bit b) (λ bit b1. getbit n (2 * x + bit) b1)

-- The variables of `pipeline_decompress_command`, and the output file.
pub record Inflater : Type 0 where
  pub bits : BitIn
  pub buffer : List ℕ
  pub r : ℕ
  pub output : List ℕ

-- `output.put(c); buffer[r++] = c; r &= (N - 1);`
unfoldable pub put_out : ℕ → Inflater → Inflater
put_out c h = record h {
  output = h.output ++ (c ∷ []);
  buffer = set h.buffer h.r c;
  r = (h.r + 1) % 1024;
}

-- The loop that copies `n` bytes of the window from `i + k` on.
unfoldable pub copy_out : ℕ → ℕ → ℕ → Inflater → Inflater
unfolding put_out
copy_out zero i k h = h
copy_out (suc n) i k h = copy_out n i (k + 1) (put_out (get_or h.buffer ((i + k) % 1024) 0) h)

-- One round of the loop; none where it ends.
unfoldable pub inflate_round : Inflater → Option Inflater
unfolding getbit copy_out
inflate_round h = and_then (getbit 1 0 h.bits) (λ c b.
    if c == 0
    then and_then (getbit 10 0 b) (λ i b1.
      and_then (getbit 4 0 b1) (λ j b2. some (copy_out (j + 2) i 0 (record h { bits = b2 }))))
    else and_then (getbit 8 0 b) (λ c b1. some (put_out c (record h { bits = b1 }))))

-- The output file where the loop ends, and otherwise the next round.
abbrev pub or_stop : List ℕ → Option Inflater → (Inflater → Option (List ℕ)) → Option (List ℕ)
or_stop output none f = some output
or_stop output (some h) f = f h

-- The main loop, on fuel, with the output file.
unfoldable pub inflate_loop : ℕ → Inflater → Option (List ℕ)
inflate_loop zero h = none
inflate_loop (suc fuel) h = or_stop h.output (inflate_round h) (inflate_loop fuel)

abbrev pub first_inflater : List ℕ → Inflater
first_inflater input = record {
  bits = record { input = input; buf = 0; mask = 0 };
  buffer = replicate 1007 32 ++ replicate 1041 0;
  r = 1007;
  output = [];
}

-- `pipeline_decompress_command` on the bytes of the input file.
unfoldable pub decompress : List ℕ → Option (List ℕ)
decompress input = inflate_loop (8 * length input + 1) (first_inflater input)
