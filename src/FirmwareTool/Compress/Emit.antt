-- ===== src/FirmwareTool/Compress/Emit.antt =====
-- utils/firmware_tool/commands/pipeline.cpp: what one round of the LZSS encoder puts out.

use upkit.Prelude.{
  ℕ, ◌+◌, ◌-◌, ◌%◌, ◌<◌, ◌≤◌, ◌≡◌, refl, sym, subst, List, ◌++◌, inl, inr, if◌then◌else◌, leb,
  get_or, arith, Bool-cases, slice,
}
use upkit.FirmwareTool.Compress.{BitOut, Encoder, emit, output1, output2}
use upkit.FirmwareTool.Compress.Match.{Same, Found}
use upkit.FirmwareTool.Compress.Sliding.{bytes_at, Trailing, Trailing-write, expand_ref_lem}
use upkit.FirmwareTool.Compress.Output.{Written, output1-Written, output2-Written}
use upkit.Pipeline.Lzss.Tokens.{Token, lit, ref, InRange, Window, expand, encode}

abbrev pub moved : ℕ → BitOut → Encoder → Encoder
moved n b e = record e { bit_out = b; r = e.r + n; s = e.s + n }

-- A token has gone out, which stands for the next `size` bytes, `m` at most.
pub record Emitted (m : ℕ) (ws : List ℕ) (w : Window) (e e' : Encoder) : Type 0 where
  pub token : Token
  pub in_range : InRange token
  pub size : ℕ
  pub some_bytes : 0 < size
  pub bound : size ≤ m
  pub out : (expand token w).0 ≡ slice (bytes_at e.buffer) e.r size
  pub trailing : Trailing e.buffer (e.s + size) (e.r + size) (expand token w).1
  pub bit_out : BitOut
  pub sent : Written (ws ++ encode token) bit_out
  pub state : e' ≡ moved size bit_out e

module _ {ws : List ℕ} {w : Window} (e : Encoder) (tr : Trailing e.buffer e.s e.r w)
    (b : Written ws e.bit_out) where
  emit_byte :
      (m : ℕ)
      → 1 ≤ m
      → get_or e.buffer e.r 0 < 256
      → Emitted m ws w e (moved 1 (output1 (get_or e.buffer e.r 0) e.bit_out) e)
  emit_byte m h k = record {
    token = lit (get_or e.buffer e.r 0);
    in_range = k;
    size = 1;
    some_bytes = omega arith;
    bound = h;
    out = refl;
    trailing = Trailing-write e.buffer e.s e.r w tr;
    bit_out = output1 (get_or e.buffer e.r 0) e.bit_out;
    sent = output1-Written (get_or e.buffer e.r 0) e.bit_out b;
    state = refl;
  }

  emit_ref :
      (m x n : ℕ)
      → n + 2 ≤ m
      → m ≤ 17
      → e.s ≤ x
      → x < e.r
      → Same e.buffer x e.r (n + 2)
      → Emitted m ws w e (moved (n + 2) (output2 (x % 1024) n e.bit_out) e)
  emit_ref m x n h h17 a c same =
      let (o, t) =
        expand_ref_lem e.buffer (n + 2) x (x % 1024) e.s e.r w a c (omega arith) same tr in
      record {
        token = ref (x % 1024) n;
        in_range = (omega arith, omega arith);
        size = n + 2;
        some_bytes = omega arith;
        bound = h;
        out = o;
        trailing = t;
        bit_out = output2 (x % 1024) n e.bit_out;
        sent = output2-Written (x % 1024) n e.bit_out b;
        state = refl;
      }

  emit_matched :
      (m x y : ℕ)
      → m ≤ 17
      → 1 < y
      → Found e.buffer e.s e.r m x y
      → Emitted m ws w e (moved y (output2 (x % 1024) (y - 2) e.bit_out) e)
  emit_matched m x y h17 q (inl p) = absurd (omega arith)
  emit_matched m x y h17 q (inr (a, c, (d, same))) =
      let eq : y - 2 + 2 ≡ y = omega arith in
      subst (λ v. Emitted m ws w e (moved v (output2 (x % 1024) (y - 2) e.bit_out) e)) eq
        (emit_ref m x (y - 2) (omega arith) h17 a c (λ k l. same k (omega arith)))

  pub emit_lem :
      (m x y : ℕ)
      → 1 ≤ m
      → m ≤ 17
      → get_or e.buffer e.r 0 < 256
      → Found e.buffer e.s e.r m x y
      → Emitted m ws w e (emit x y e)
  unfolding emit
  emit_lem m x y h h17 k f = elim (Bool-cases (leb y 1)) [
    | inl p ↦
        subst
          (λ t. Emitted m ws w e (
            if t
            then moved 1 (output1 (get_or e.buffer e.r 0) e.bit_out) e
            else moved y (output2 (x % 1024) (y - 2) e.bit_out) e))
          (sym p) (emit_byte m h k)
    | inr p ↦
        subst
          (λ t. Emitted m ws w e (
            if t
            then moved 1 (output1 (get_or e.buffer e.r 0) e.bit_out) e
            else moved y (output2 (x % 1024) (y - 2) e.bit_out) e))
          (sym p) (emit_matched m x y h17 (ground arith) f)
  ]
