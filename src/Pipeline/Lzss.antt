-- ===== src/Pipeline/Lzss.antt =====
-- src/core/pipeline/lzss.c: the stage that decompresses an LZSS stream bit by bit.
pub mod Chunks
pub mod Tokens
mod Tests
use upkit.Prelude.{
  ℕ, zero, suc, ◌+◌, ◌*◌, ◌/◌, ◌%◌, List, [], ◌∷◌, ◌++◌, ℤ, pos, negsuc, is_negative, length,
  get_or, set, drop, replicate, if◌then◌else◌, ◌==◌, true, false,
}
use upkit.Pipeline.{Stage}

-- `N`, the size of the window, and `N - F`, where the first byte is written.
abbrev pub window_size : ℕ
window_size = 1024

abbrev pub window_start : ℕ
window_start = 1007

-- The `getbit` that runs, of one bit, of `c`, of `i` or of `j`. `ctx->state` holds the one that was
-- suspended.
pub data Getbit : Type 0 where
  flag literal position span : Getbit

-- The static variables. `buffer` has 2 * N bytes. `b` and `mask` are not kept: the stage returns in
-- want of a byte, and goes on by a write to both.
pub record Decoder : Type 0 where
  pub i : ℕ
  pub j : ℕ
  pub c : ℕ
  pub s : ℕ
  pub r : ℕ
  pub buffer : List ℕ

pub data Saved : Type 0 where
  start : Saved
  inside : Getbit → Saved

pub record LzssCtx : Type 0 where
  pub state : Saved
  pub dec : Decoder

-- Where the decoder stands inside a call: about to read a bit, or returned with -1.
pub data Run (S : Type 0) : Type 0 where
  going : Getbit → Decoder → S → Run S
  failed : Decoder → S → Run S

abbrev pub run_then : {S : Type 0} → Run S → (Getbit → Decoder → S → Run S) → Run S
run_then (going g d s) f = f g d s
run_then (failed d s) f = failed d s

-- `n` of the running `getbit`
abbrev pub width : Getbit → ℕ
width flag = 1
width literal = 8
width position = 10
width span = 4

-- `x` of the running `getbit`
abbrev pub read_var : Getbit → Decoder → ℕ
read_var flag d = d.c
read_var literal d = d.c
read_var position d = d.i
read_var span d = d.j

abbrev pub write_var : Getbit → ℕ → Decoder → Decoder
write_var flag x d = record d { c = x }
write_var literal x d = record d { c = x }
write_var position x d = record d { i = x }
write_var span x d = record d { j = x }

-- `x = 0; s = 0;`
abbrev pub enter : Getbit → Decoder → Decoder
enter g d = record (write_var g 0 d) { s = 0 }

-- `buffer[r++] = c; r &= (N - 1);`
pub store : Decoder → Decoder
store d = record d { buffer = set d.buffer d.r d.c; r = (d.r + 1) % window_size }

-- `for (i = 0; i < N - F; i++) buffer[i] = ' ';` and the writes after it, up to the first `getbit`.
pub begin : Decoder → Decoder
begin d = enter flag (record d {
  i = window_start;
  r = window_start;
  buffer = replicate window_start 32 ++ drop window_start d.buffer;
})

pub resume : LzssCtx → Getbit × Decoder
unfolding begin
resume ctx = elim ctx.state [ start ↦ (flag, begin ctx.dec) | inside g ↦ (g, ctx.dec) ]

-- The number of bytes on suspension. After -1 the saved state is still that of the last suspension.
pub suspend : {S : Type 0} → ℕ → Saved → Run S → ℤ × LzssCtx × S
suspend n saved (going g d s) = (pos n, record { state = inside g; dec = d }, s)
suspend n saved (failed d s) = (negsuc 0, record { state = saved; dec = d }, s)

module _ {S : Type 0} (next : Stage S) where
  -- The loop that copies `j + 2` bytes of the window, from `k` on; the next stage's result is ignored.
  pub copy : ℕ → ℕ → Decoder → S → Decoder × S
  unfolding store
  copy zero k d s = (d, s)
  copy (suc n) k d s =
      let d' = record d { c = get_or d.buffer ((d.i + k) % window_size) 0 } in
      copy n (k + 1) (store d') (next (d'.c ∷ []) s).1

  -- What follows a `getbit`, up to the next one.
  pub after : Getbit → Decoder → S → Run S
  unfolding store copy
  after flag d s =
      if d.c == 0 then going position (enter position d) s else going literal (enter literal d) s
  after literal d s =
      if is_negative (next (d.c ∷ []) s).0
      then failed d (next (d.c ∷ []) s).1
      else going flag (enter flag (store d)) (next (d.c ∷ []) s).1
  after position d s = going span (enter span d) s
  after span d s = let (d', s') = copy (d.j + 2) 0 d s in going flag (enter flag d') s'

  -- One round of the loop of `getbit`, with the bit that the mask selects.
  pub push_bit : ℕ → Getbit → Decoder → S → Run S
  unfolding after
  push_bit bit g d s =
      let d' = record (write_var g (2 * read_var g d + bit) d) { s = d.s + 1 } in
      if d.s + 1 == width g then after g d' s else going g d' s

  -- The rounds that a byte allows: `mask` goes from 128 down to 0.
  pub drain : ℕ → ℕ → ℕ → Getbit → Decoder → S → Run S
  drain zero b mask g d s = going g d s
  drain (suc n) b mask g d s =
      if mask == 0
      then going g d s
      else run_then (push_bit ((b / mask) % 2) g d s) (drain n b (mask / 2))

  -- The bytes of a call, each taken when the mask is used up.
  pub take_bytes : List ℕ → Getbit → Decoder → S → Run S
  take_bytes [] g d s = going g d s
  take_bytes (b ∷ bs) g d s = run_then (drain 8 b 128 g d s) (take_bytes bs)

  pub lzss_pipeline : List ℕ → LzssCtx → S → ℤ × LzssCtx × S
  unfolding resume suspend take_bytes
  lzss_pipeline buf ctx s =
      let (g, d) = resume ctx in suspend (length buf) ctx.state (take_bytes buf g d s)
