-- ===== src/FirmwareTool/Compress.antt =====
-- utils/firmware_tool/commands/pipeline.cpp: the LZSS encoder, whose output the device decodes
-- (src/core/pipeline/lzss.c).
mod Bits
mod Output
mod Flush
mod Match
mod Tests
pub mod RoundTrip
mod Slide
mod Refill
mod Emit
mod Sliding
use Prim.Native.Nat.{bit_or}
use upkit.Prelude.{
  ℕ, zero, suc, ◌+◌, ◌-◌, ◌*◌, ◌/◌, ◌%◌, ◌^◌, Bool, not, ◌&&◌, List, [], ◌∷◌, ◌++◌, Option, none,
  some, if◌then◌else◌, ltb, leb, ◌==◌, get_or, set, drop, replicate, length, memcpy,
}

-- `bit_buffer`, `bit_mask`, and the bytes put into `outfile`.
pub record BitOut : Type 0 where
  pub bit_buffer : ℕ
  pub bit_mask : ℕ
  pub outfile : List ℕ

-- The byte goes out when the mask has been used up.
abbrev pub put_full : BitOut → BitOut
put_full b =
    if b.bit_mask == 0
    then (record { bit_buffer = 0; bit_mask = 128; outfile = b.outfile ++ (b.bit_buffer ∷ []) })
    else b

unfoldable pub putbit1 : BitOut → BitOut
putbit1 b =
    put_full (record b { bit_buffer = bit_or b.bit_buffer b.bit_mask; bit_mask = b.bit_mask / 2 })

unfoldable pub putbit0 : BitOut → BitOut
putbit0 b = put_full (record b { bit_mask = b.bit_mask / 2 })

unfoldable pub flush_bit_buffer : BitOut → BitOut
flush_bit_buffer b =
    if not (b.bit_mask == 128) then (record b { outfile = b.outfile ++ (b.bit_buffer ∷ []) }) else b

-- `while (mask >>= 1) { if (c & mask) putbit1(outfile); else putbit0(outfile); }` for the masks below
-- 2 ^ n.
unfoldable pub put_masks : ℕ → ℕ → BitOut → BitOut
put_masks zero c b = b
put_masks (suc n) c b = put_masks n c (if (c / 2 ^ n) % 2 == 0 then putbit0 b else putbit1 b)

-- The sign extension of a `char` does not reach the eight low bits.
unfoldable pub output1 : ℕ → BitOut → BitOut
output1 c b = put_masks 8 c (putbit1 b)

unfoldable pub output2 : ℕ → ℕ → BitOut → BitOut
output2 x y b = put_masks 4 y (put_masks 10 x (putbit0 b))

-- The variables of `pipeline_compress_command`, and what is left of the input file.
pub record Encoder : Type 0 where
  pub buffer : List ℕ
  pub bufferend : ℕ
  pub r : ℕ
  pub s : ℕ
  pub input : List ℕ
  pub textcount : ℕ
  pub bit_out : BitOut

-- The loops that read into the buffer from `bufferend` on.
unfoldable pub read_in : List ℕ → ℕ → List ℕ → List ℕ × ℕ × List ℕ
read_in buffer e [] = (buffer, e, [])
read_in buffer e (c ∷ cs) =
    let rest = read_in (set buffer e c) (e + 1) cs in
    if ltb e 2048 then rest else (buffer, e, c ∷ cs)

unfoldable pub refill : Encoder → Encoder
refill e =
    let (buffer, end, input) = read_in e.buffer e.bufferend e.input in
    record e {
      buffer = buffer;
      bufferend = end;
      input = input;
      textcount = e.textcount + (end - e.bufferend);
    }

-- `for (j = 1; j < f1; j++) if (buffer[i + j] != buffer[r + j]) break;` with the rounds that are left.
unfoldable pub match_length : ℕ → List ℕ → ℕ → ℕ → ℕ → ℕ
match_length zero buffer i r j = j
match_length (suc n) buffer i r j =
    let rest = match_length n buffer i r (j + 1) in
    if get_or buffer (i + j) 0 == get_or buffer (r + j) 0 then rest else j

-- `buffer[i] == c`, where `c` is a `char`: a byte from 128 on is negative where `char` is signed.
unfoldable pub same_char : Bool → ℕ → ℕ → Bool
same_char signed_char b c = b == c && not (signed_char && leb 128 c)

-- The loop over the starts of a match from `r - 1` down to `s`, on those that are left: the best start
-- and its length.
unfoldable pub find_match : Bool → ℕ → List ℕ → ℕ → ℕ → ℕ → ℕ → ℕ → ℕ × ℕ
find_match signed_char zero buffer s r f1 x y = (x, y)
find_match signed_char (suc k) buffer s r f1 x y =
    let j = match_length (f1 - 1) buffer (s + k) r 1 in
    let better = same_char signed_char (get_or buffer (s + k) 0) (get_or buffer r 0) && ltb y j in
    find_match signed_char k buffer s r f1 (if better then s + k else x) (if better then j else y)

-- `if (r >= N * 2 - F) …`: the second half of the buffer moves to the first.
unfoldable pub slide : Encoder → Encoder
slide e =
    if leb 2031 e.r
    then refill (record e {
      buffer = memcpy e.buffer 0 (drop 1024 e.buffer);
      bufferend = e.bufferend - 1024;
      r = e.r - 1024;
      s = e.s - 1024;
    })
    else e

-- A match, or one byte, goes out.
unfoldable pub emit : ℕ → ℕ → Encoder → Encoder
emit x y e =
    if leb y 1
    then (record e {
      bit_out = output1 (get_or e.buffer e.r 0) e.bit_out;
      r = e.r + 1;
      s = e.s + 1;
    })
    else (record e { bit_out = output2 (x % 1024) (y - 2) e.bit_out; r = e.r + y; s = e.s + y })

-- `(F <= bufferend - r) ? F : bufferend - r`
abbrev pub lookahead : Encoder → ℕ
lookahead e = if leb 17 (e.bufferend - e.r) then 17 else e.bufferend - e.r

unfoldable pub encode_round : Bool → Encoder → Encoder
encode_round signed_char e =
    let (x, y) = find_match signed_char (e.r - e.s) e.buffer e.s e.r (lookahead e) 0 1 in
    slide (emit x y e)

-- The main loop, on fuel.
unfoldable pub encode_loop : Bool → ℕ → Encoder → Option Encoder
encode_loop signed_char zero e = none
encode_loop signed_char (suc fuel) e =
    let rest = encode_loop signed_char fuel (encode_round signed_char e) in
    if ltb e.r e.bufferend then rest else some e

abbrev pub first_bits : BitOut
first_bits = record { bit_buffer = 0; bit_mask = 128; outfile = [] }

-- The static buffer is zero at first; then 1007 spaces are put in front.
unfoldable pub first_encoder : List ℕ → Encoder
first_encoder text = refill (record {
  buffer = replicate 1007 32 ++ replicate 1041 0;
  bufferend = 1007;
  r = 1007;
  s = 0;
  input = text;
  textcount = 0;
  bit_out = first_bits;
})

-- The division by `textcount` in the last output fails on an empty file.
abbrev pub finish_file : Option Encoder → Option (List ℕ)
finish_file none = none
finish_file (some e) = if e.textcount == 0 then none else some (flush_bit_buffer e.bit_out).outfile

-- `pipeline_compress_command` on the bytes of the input file, to those of the output file.
unfoldable pub compress : Bool → List ℕ → Option (List ℕ)
compress signed_char text =
    finish_file (encode_loop signed_char (length text + 1) (first_encoder text))
