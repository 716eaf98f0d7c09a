-- ===== src/FirmwareTool/Compress/RoundTrip.antt =====
-- utils/firmware_tool/commands/pipeline.cpp and src/core/pipeline/lzss.c: the device decodes what the
-- LZSS encoder of the firmware tool has put out.

use upkit.Prelude.{
  ℕ, zero, suc, ◌+◌, ◌-◌, ◌%◌, ◌<◌, ◌≤◌, ◌≡◌, refl, sym, ap, ap₂, subst, ◌∙◌, Bool, false, List, [],
  ◌∷◌, ◌++◌, append-nil, append_assoc, inl, inr, if◌then◌else◌, ltb, Option, some, get_or,
  replicate, length, length-append, length-replicate, length-slice, arith, Bool-cases, slice,
  slice-append, pos, is_negative,
}
use upkit.Pipeline.{Stage, feed, singles}
use upkit.FirmwareTool.Compress.{
  Encoder, refill, slide, emit, lookahead, find_match, encode_round, encode_loop, first_encoder,
  finish_file, compress, flush_bit_buffer,
}
use upkit.FirmwareTool.Compress.Match.{find_match_lem}
use upkit.FirmwareTool.Compress.Emit.{Emitted, emit_lem, moved}
use upkit.FirmwareTool.Compress.Refill.{Ready, Ready-refill}
use upkit.FirmwareTool.Compress.Slide.{slide-Ready}
use upkit.FirmwareTool.Compress.Sliding.{bytes_at, Trailing}
use upkit.FirmwareTool.Compress.Output.{Written, first_bits-Written}
use upkit.FirmwareTool.Compress.Flush.{Padded, flush-Written}
use upkit.Pipeline.Lzss.{LzssCtx, start, lzss_pipeline}
use upkit.Pipeline.Lzss.Tokens.{
  Token, InRange, AllInRange, encode, encode_all, Window, expand, expand_all, initial,
  lzss_pipeline_lem,
}

abbrev pub AllBytes : List ℕ → Type 0
AllBytes [] = Unit {0}
AllBytes (b ∷ bs) = (b < 256) × AllBytes bs

AllBytes-after : (xs ys : List ℕ) → AllBytes (xs ++ ys) → AllBytes ys
AllBytes-after [] ys h = h
AllBytes-after (x ∷ xs) ys h = AllBytes-after xs ys h.1

-- The first byte of a text that is not over.
first_byte :
    (f : ℕ → ℕ) (p n : ℕ) (more rest : List ℕ)
    → 0 < n
    → slice f p n ++ more ≡ rest
    → AllBytes rest
    → f p < 256
first_byte f p zero more rest h e a = absurd (omega arith)
first_byte f p (suc n) more rest h e a = (subst AllBytes (sym e) a).0

-- A round has put out one token, which stands for the first bytes of what was left.
record Advanced (rest ws : List ℕ) (w : Window) (e' : Encoder) : Type 0 where
  token : Token
  in_range : InRange token
  left : List ℕ
  text : rest ≡ (expand token w).0 ++ left
  shorter : length left < length rest
  ready : Ready left (expand token w).1 e'
  low : e'.r < 2031
  sent : Written (ws ++ encode token) e'.bit_out

module _ {rest ws : List ℕ} {w : Window} (e : Encoder) (h : Ready rest w e) where
  -- The encoder after a token.
  moved-Ready :
      (m : ℕ) (e' : Encoder) (t : Emitted m ws w e e')
      → m ≤ e.bufferend - e.r
      → Ready
          (slice (bytes_at e.buffer) (e.r + t.size) (e.bufferend - (e.r + t.size)) ++ e.input)
          (expand t.token w).1
          (moved t.size t.bit_out e)
  moved-Ready m e' t l = record {
    room = h.room;
    order = omega (arith, t.bound, h.order);
    bound = h.bound;
    full = h.full;
    text = refl;
    trailing = t.trailing;
    counted = h.counted;
  }

  advance :
      (m : ℕ) (e' : Encoder)
      → Emitted m ws w e e'
      → m ≤ e.bufferend - e.r
      → m ≤ 17
      → e.r < 2031
      → Advanced rest ws w (slide e')
  advance m e' t l l17 low =
      let n = t.size in
      let left = slice (bytes_at e.buffer) (e.r + n) (e.bufferend - (e.r + n)) ++ e.input in
      let (ready, below, same) =
        slide-Ready (moved n t.bit_out e) (moved-Ready m e' t l) (omega (arith, t.bound)) in
      let whole : rest ≡ slice (bytes_at e.buffer) e.r n ++ left =
        sym h.text
        ∙ (ap (λ x. x ++ e.input)
              (slice-append (bytes_at e.buffer) e.r n (e.bufferend - (e.r + n)) (e.bufferend - e.r)
                (omega (arith, t.bound)))
            ∙ append_assoc (slice (bytes_at e.buffer) e.r n) _ e.input) in
      subst (λ v. Advanced rest ws w (slide v)) (sym t.state)
        (record {
          token = t.token;
          in_range = t.in_range;
          left = left;
          text = whole ∙ ap (λ x. x ++ left) (sym t.out);
          shorter = omega (
            arith,
            ap length whole,
            length-append (slice (bytes_at e.buffer) e.r n) left,
            length-slice (bytes_at e.buffer) e.r n,
            t.some_bytes,
          );
          ready = ready;
          low = below;
          sent = subst (Written (ws ++ encode t.token)) (sym same) t.sent;
        })

  encode_round_lem :
      (signed_char : Bool)
      → AllBytes rest
      → Written ws e.bit_out
      → e.r < e.bufferend
      → e.r < 2031
      → Advanced rest ws w (encode_round signed_char e)
  unfolding encode_round
  encode_round_lem signed_char a b more low =
      let m = lookahead e in
      let p : 1 ≤ m = ground arith in
      let p17 : m ≤ 17 = ground arith in
      let pe : m ≤ e.bufferend - e.r = ground arith in
      let (x, y) = find_match signed_char (e.r - e.s) e.buffer e.s e.r m 0 1 in
      let found =
        find_match_lem e.buffer e.r signed_char (e.r - e.s) e.s m 0 1
          (omega (arith, h.trailing.size)) p (inl (omega arith)) in
      let byte =
        first_byte (bytes_at e.buffer) e.r (e.bufferend - e.r) e.input rest (omega arith) h.text
          a in
      advance m (emit x y e) (emit_lem e h.trailing b m x y p p17 byte found) pe p17 low

-- There is nothing left where the loop ends.
Ready-over :
    {rest : List ℕ} {w : Window} (e : Encoder)
    → Ready rest w e
    → e.r < 2031
    → e.bufferend ≤ e.r
    → [] ≡ rest
Ready-over e h low over = elim h.full [
  | inl c ↦ absurd (omega arith)
  | inr i ↦
      let z : e.bufferend - e.r ≡ 0 = omega arith in
      ap₂ (λ n l. slice (bytes_at e.buffer) e.r n ++ l) (sym z) (sym i) ∙ h.text
]

-- The encoder has come to the end of the file.
record Finished (rest ws : List ℕ) (w : Window) (o : Option Encoder) : Type 0 where
  e : Encoder
  ended : o ≡ some e
  tokens : List Token
  in_range : AllInRange tokens
  sent : Written (ws ++ encode_all tokens) e.bit_out
  text : expand_all tokens w ≡ rest
  counted : 0 < e.textcount

encode_loop_lem :
    (signed_char : Bool) (fuel : ℕ) (rest ws : List ℕ) (w : Window) (e : Encoder)
    → length rest < fuel
    → AllBytes rest
    → Ready rest w e
    → Written ws e.bit_out
    → e.r < 2031
    → Finished rest ws w (encode_loop signed_char fuel e)
unfolding encode_loop
encode_loop_lem signed_char zero rest ws w e f a h b low = absurd (omega arith)
encode_loop_lem signed_char (suc fuel) rest ws w e f a h b low =
    let later = encode_loop signed_char fuel (encode_round signed_char e) in
    elim (Bool-cases (ltb e.r e.bufferend)) [
      | inl p ↦
          let t = encode_round_lem e h signed_char a b (ground arith) low in
          let left = AllBytes-after (expand t.token w).0 t.left (subst AllBytes t.text a) in
          let end =
            encode_loop_lem signed_char fuel t.left (ws ++ encode t.token) (expand t.token w).1
              (encode_round signed_char e) (omega (arith, t.shorter)) left t.ready t.sent t.low in
          subst (λ c. Finished rest ws w (if c then later else some e)) (sym p)
            (record {
              e = end.e;
              ended = end.ended;
              tokens = t.token ∷ end.tokens;
              in_range = (t.in_range, end.in_range);
              sent =
                  subst (λ v. Written v end.e.bit_out)
                    (append_assoc ws (encode t.token) (encode_all end.tokens)) end.sent;
              text = ap (λ v. (expand t.token w).0 ++ v) end.text ∙ sym t.text;
              counted = end.counted;
            })
      | inr p ↦
          subst (λ c. Finished rest ws w (if c then later else some e)) (sym p)
            (record {
              e = e;
              ended = refl;
              tokens = [];
              in_range = tt;
              sent = subst (λ v. Written v e.bit_out) (sym (append-nil ws)) b;
              text = Ready-over e h low (ground arith);
              counted = h.counted;
            })
    ]

pub get_or-replicate_lt :
    (n v : ℕ) (xs : List ℕ) (q : ℕ) → q < n → get_or (replicate n v ++ xs) q 0 ≡ v
get_or-replicate_lt zero v xs q h = absurd (omega arith)
get_or-replicate_lt (suc n) v xs zero h = refl
get_or-replicate_lt (suc n) v xs (suc q) h = get_or-replicate_lt n v xs q (omega arith)

-- The spaces that the encoder and a decoder start with.
spaces_Trailing : (buffer xs : List ℕ) → Trailing (replicate 1007 32 ++ xs) 0 1007 (initial buffer)
spaces_Trailing buffer xs = record {
  same = λ q a b.
      let m : q % 1024 ≡ q = omega arith in get_or-replicate_lt 1007 32 xs q b ∙ ground arith;
  here = refl;
  size = refl;
}

pub first_room : length {A = ℕ} (replicate 1007 32 ++ replicate 1041 0) ≡ 2048
first_room = omega (
  arith,
  length-append {A = ℕ} (replicate 1007 32) (replicate 1041 0),
  length-replicate {A = ℕ} 1007 32,
  length-replicate {A = ℕ} 1041 0,
)

first_encoder-low : (text : List ℕ) → (first_encoder text).r < 2031
unfolding first_encoder refill
first_encoder-low text = omega arith

first_encoder-Written : (text : List ℕ) → Written [] (first_encoder text).bit_out
unfolding first_encoder refill
first_encoder-Written text = first_bits-Written

finish_file-some :
    (e : Encoder)
    → 0 < e.textcount
    → finish_file (some e) ≡ some (flush_bit_buffer e.bit_out).outfile
finish_file-some e h = ground arith

first_encoder-Ready :
    (text buffer : List ℕ) → 0 < length text → Ready text (initial buffer) (first_encoder text)
unfolding first_encoder
first_encoder-Ready text buffer h =
    Ready-refill text (initial buffer) _ first_room (omega arith) (omega arith) refl
      (spaces_Trailing buffer (replicate 1041 0)) (inr (omega arith, h))

-- What `compress` makes of a text: bytes that spell tokens, which stand for the text over any window that
-- begins with the spaces.
pub record Compressed (signed_char : Bool) (text buffer : List ℕ) : Type 0 where
  pub bytes : List ℕ
  pub made : compress signed_char text ≡ some bytes
  pub tokens : List Token
  pub in_range : AllInRange tokens
  pub padded : Padded (encode_all tokens) bytes
  pub stands_for : expand_all tokens (initial buffer) ≡ text

pub compress_lem :
    (signed_char : Bool) (text buffer : List ℕ)
    → AllBytes text
    → 0 < length text
    → Compressed signed_char text buffer
unfolding compress
compress_lem signed_char text buffer a h =
    let f =
      encode_loop_lem signed_char (length text + 1) text [] (initial buffer) (first_encoder text)
        (omega arith) a (first_encoder-Ready text buffer h) (first_encoder-Written text)
        (first_encoder-low text) in
    record {
      bytes = (flush_bit_buffer f.e.bit_out).outfile;
      made = ap finish_file f.ended ∙ finish_file-some f.e f.counted;
      tokens = f.tokens;
      in_range = f.in_range;
      padded = flush-Written f.e.bit_out f.sent;
      stands_for = f.text;
    }

module _ {S : Type 0} (next : Stage S)
    (fine : (b : List ℕ) (s : S) → is_negative (next b s).0 ≡ false) where
  -- The tool compresses every file that is not empty, whether `char` is signed or not. A fresh decoder
  -- on the device takes all of the compressed bytes and hands the next stage exactly the bytes of the
  -- file, one at a time and in order, if the next stage never fails.
  pub lzss_pipeline-compress :
      (signed_char : Bool) (text : List ℕ) (ctx : LzssCtx) (s : S)
      → AllBytes text
      → 0 < length text
      → ctx.state ≡ start
      → length ctx.dec.buffer ≡ 2048
      → (bytes : List ℕ) × (ctx' : LzssCtx) × (compress signed_char text ≡ some bytes)
        × (lzss_pipeline next bytes ctx s ≡ (pos (length bytes), ctx', feed next (singles text) s))
  lzss_pipeline-compress signed_char text ctx s a h fresh room =
      let f = compress_lem signed_char text ctx.dec.buffer a h in
      let (n, n8, padded) = f.padded in
      let (ctx', p) =
        lzss_pipeline_lem next fine f.tokens f.bytes n ctx s f.in_range padded n8 fresh room in
      (
        f.bytes,
        ctx',
        f.made,
        p ∙ ap (λ t. (pos (length f.bytes), ctx', feed next (singles t) s)) f.stands_for,
      )
