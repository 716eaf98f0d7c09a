-- ===== src/FirmwareTool/Decompress/RoundTrip.antt =====
-- utils/firmware_tool/commands/pipeline.cpp: the decoder of the firmware tool on a stream of tokens, and on
-- what its encoder has put out.
use upkit.Prelude.{
  ℕ, zero, suc, ◌+◌, ◌*◌, ◌%◌, ◌<◌, ◌≤◌, ◌≡◌, refl, sym, ap, subst, ◌∙◌, List, [], ◌∷◌, ◌++◌,
  append_assoc, append-nil, none, some, if◌then◌else◌, get_or, get_or-set, length-set, replicate,
  length, length-append, length-replicate, arith, ltb, ltb→lt, Bool-cases, Bool, inl, inr,
}
use upkit.FirmwareTool.Decompress.{
  BitIn, Inflater, getbit, put_out, copy_out, inflate_round, inflate_loop, or_stop, first_inflater,
  decompress,
}
use upkit.FirmwareTool.Decompress.Reads.{Reads, horner, getbit-bits, getbit_short}
use upkit.FirmwareTool.Compress.RoundTrip.{AllBytes, compress_lem, get_or-replicate_lt, first_room}
use upkit.FirmwareTool.Compress.{compress}
use upkit.Pipeline.Lzss.Chunks.{bits, spell}
use upkit.Pipeline.Lzss.Tokens.{
  Token, lit, ref, InRange, AllInRange, encode, encode_all, Window, write, expand_ref, expand,
  expand_all, initial,
}

-- The array holds the window.
record Shows (h : Inflater) (w : Window) : Type 0 where
  same : (p : ℕ) → get_or h.buffer p 0 ≡ w.at p
  here : h.r ≡ w.next
  inside : h.r < 1024
  room : length h.buffer ≡ 2048

put_out-Shows : {h : Inflater} {w : Window} (c : ℕ) → Shows h w → Shows (put_out c h) (write c w)
unfolding put_out
put_out-Shows {h} {w} c s = record {
  same = λ p.
      get_or-set h.buffer h.r p c 0 (omega (arith, s.room, s.inside))
      ∙ ground (arith, s.same p, s.here);
  here = ap (λ t. (t + 1) % 1024) s.here;
  inside = omega arith;
  room = length-set h.buffer h.r c ∙ s.room;
}

-- The bytes have gone out, and the window is the one after them.
record Put (h h' : Inflater) (out : List ℕ) (w' : Window) : Type 0 where
  output : h'.output ≡ h.output ++ out
  bits_left : h'.bits ≡ h.bits
  shows : Shows h' w'

put_bits : (c : ℕ) (h : Inflater) → (put_out c h).bits ≡ h.bits
unfolding put_out
put_bits c h = refl

put_out-output : (c : ℕ) (h : Inflater) → (put_out c h).output ≡ h.output ++ (c ∷ [])
unfolding put_out
put_out-output c h = refl

put_then :
    (c : ℕ) (h : Inflater) (out : List ℕ) → (put_out c h).output ++ out ≡ h.output ++ (c ∷ out)
unfolding put_out
put_then c h out = append_assoc h.output (c ∷ []) out

copy_out_lem :
    (n i k p : ℕ) (h : Inflater) (w : Window)
    → p ≡ i + k
    → Shows h w
    → let (out, w') = expand_ref n p w in Put h (copy_out n i k h) out w'
unfolding copy_out
copy_out_lem zero i k p h w e s = record {
  output = sym (append-nil h.output);
  bits_left = refl;
  shows = s;
}
copy_out_lem (suc n) i k p h w e s =
    let c = get_or h.buffer ((i + k) % 1024) 0 in
    let eq : c ≡ w.at (p % 1024) = rw e (s.same ((i + k) % 1024)) in
    let ih =
      copy_out_lem n i (k + 1) (p + 1) (put_out c h) (write c w) (omega arith)
        (put_out-Shows c s) in
    subst
      (λ v.
        let (out, w') = expand_ref n (p + 1) (write v w) in
        Put h (copy_out n i (k + 1) (put_out c h)) (v ∷ out) w')
      eq
      (record {
        output = ih.output ∙ put_then c h (expand_ref n (p + 1) (write c w)).0;
        bits_left = ih.bits_left ∙ put_bits c h;
        shows = ih.shows;
      })

byte_value : (c : ℕ) → c < 256 → horner 0 (bits 8 c) ≡ c
byte_value c h = omega arith

position_value : (i : ℕ) → i < 1024 → horner 0 (bits 10 i) ≡ i
position_value i h = omega arith

length_value : (j : ℕ) → j < 16 → horner 0 (bits 4 j) ≡ j
length_value j h = omega arith

-- A round has decoded one token.
record Decoded (h : Inflater) (rest out : List ℕ) (w' : Window) : Type 0 where
  h' : Inflater
  runs : inflate_round h ≡ some h'
  output : h'.output ≡ h.output ++ out
  shows : Shows h' w'
  reads : Reads rest h'.bits

module _ (rest : List ℕ) (h : Inflater) (w : Window) (s : Shows h w) where
  -- The bits of the token have been read.
  put_byte_run :
      (c : ℕ) (b b1 : BitIn)
      → getbit 1 0 h.bits ≡ some (1, b)
      → getbit 8 0 b ≡ some (c, b1)
      → Reads rest b1
      → Decoded h rest (c ∷ []) (write c w)
  unfolding inflate_round
  put_byte_run c b b1 e e1 r =
      let h1 : Inflater = record h { bits = b1 } in
      let held : Shows h1 w = record {
        same = s.same;
        here = s.here;
        inside = s.inside;
        room = s.room;
      } in
      record {
        h' = put_out c h1;
        runs = rw (e, e1) refl;
        output = put_out-output c h1;
        shows = put_out-Shows c held;
        reads = subst (Reads rest) (sym (put_bits c h1)) r;
      }

  copy_run :
      (i j : ℕ) (b b1 b2 : BitIn)
      → getbit 1 0 h.bits ≡ some (0, b)
      → getbit 10 0 b ≡ some (i, b1)
      → getbit 4 0 b1 ≡ some (j, b2)
      → Reads rest b2
      → Decoded h rest (expand (ref i j) w).0 (expand (ref i j) w).1
  unfolding inflate_round
  copy_run i j b b1 b2 e e1 e2 r =
      let h1 : Inflater = record h { bits = b2 } in
      let held : Shows h1 w = record {
        same = s.same;
        here = s.here;
        inside = s.inside;
        room = s.room;
      } in
      let p = copy_out_lem (j + 2) i 0 i h1 w (omega arith) held in
      record {
        h' = copy_out (j + 2) i 0 h1;
        runs = rw (e, e1, e2) refl;
        output = p.output;
        shows = p.shows;
        reads = subst (Reads rest) (sym p.bits_left) r;
      }

  token_round :
      (t : Token)
      → InRange t
      → Reads (encode t ++ rest) h.bits
      → Decoded h rest (expand t w).0 (expand t w).1
  token_round (lit c) small r =
      let (b, e, r1) = getbit-bits 1 1 (bits 8 c ++ rest) h.bits refl r in
      let (b1, e1, r2) = getbit-bits 8 c rest b (byte_value c small) r1 in
      put_byte_run c b b1 e e1 r2
  token_round (ref i j) small r =
      let (b, e, r1) = getbit-bits 1 0 ((bits 10 i ++ bits 4 j) ++ rest) h.bits refl r in
      let (b1, e1, r2) =
        getbit-bits 10 i (bits 4 j ++ rest) b (position_value i small.0)
          (subst (λ t. Reads t b) (append_assoc (bits 10 i) (bits 4 j) rest) r1) in
      let (b2, e2, r3) = getbit-bits 4 j rest b1 (length_value j small.1) r2 in
      copy_run i j b b1 b2 e e1 e2 r3

-- The zeros that fill the last byte, and the end of the file, end the loop.
padding_round :
    (n : ℕ) (h : Inflater) → n < 8 → Reads (replicate n 0) h.bits → inflate_round h ≡ none
unfolding inflate_round
padding_round zero h k r = rw (getbit_short 1 0 [] h.bits (omega arith) r) refl
padding_round (suc n) h k r =
    let (b, e, r1) = getbit-bits 1 0 (replicate n 0) h.bits refl r in
    let f = getbit_short 10 0 (replicate n 0) b (omega (arith, length-replicate {A = ℕ} n 0)) r1 in
    rw (e, f) refl

loop_none :
    (fuel : ℕ) (h : Inflater) → inflate_round h ≡ none → inflate_loop (suc fuel) h ≡ some h.output
unfolding inflate_loop
loop_none fuel h e = ap (λ o. or_stop h.output o (inflate_loop fuel)) e

loop_some :
    (fuel : ℕ) (h h' : Inflater)
    → inflate_round h ≡ some h'
    → inflate_loop (suc fuel) h ≡ inflate_loop fuel h'
unfolding inflate_loop
loop_some fuel h h' e = ap (λ o. or_stop h.output o (inflate_loop fuel)) e

inflate_loop_lem :
    (ts : List Token) (n fuel : ℕ) (h : Inflater) (w : Window)
    → length ts < fuel
    → AllInRange ts
    → n < 8
    → Reads (encode_all ts ++ replicate n 0) h.bits
    → Shows h w
    → inflate_loop fuel h ≡ some (h.output ++ expand_all ts w)
inflate_loop_lem ts n zero h w f a k r s = absurd (omega arith)
inflate_loop_lem [] n (suc fuel) h w f a k r s =
    loop_none fuel h (padding_round n h k r) ∙ ap some (sym (append-nil h.output))
inflate_loop_lem (t ∷ ts) n (suc fuel) h w f a k r s =
    let rest = encode_all ts ++ replicate n 0 in
    let d =
      token_round rest h w s t a.0
        (subst (λ x. Reads x h.bits) (append_assoc (encode t) (encode_all ts) (replicate n 0)) r) in
    loop_some fuel h d.h' d.runs
    ∙ (inflate_loop_lem ts n fuel d.h' (expand t w).1 (omega arith) a.1 k d.reads d.shows
        ∙ ap some (
            ap (λ o. o ++ expand_all ts (expand t w).1) d.output
            ∙ append_assoc h.output (expand t w).0 (expand_all ts (expand t w).1)))

length-spell : (bs : List ℕ) → length (spell bs) ≡ 8 * length bs
length-spell [] = refl
length-spell (b ∷ bs) = omega (arith, length-spell bs)

-- A token takes one bit at least.
length-encode : (t : Token) → 1 ≤ length (encode t)
length-encode (lit c) = omega arith
length-encode (ref i j) = omega arith

length-encode_all : (ts : List Token) → length ts ≤ length (encode_all ts)
length-encode_all [] = omega arith
length-encode_all (t ∷ ts) =
    omega (arith, length-append (encode t) (encode_all ts), length-encode t, length-encode_all ts)

first_Reads : (bs ws : List ℕ) → spell bs ≡ ws → Reads ws (first_inflater bs).bits
first_Reads bs ws e = record { k = 0; few = omega arith; mask = refl; left = e }

spaces-initial :
    (xs : List ℕ) (p : ℕ)
    → get_or (replicate 1007 32 ++ xs) p 0 ≡ (initial (replicate 1007 32 ++ xs)).at p
spaces-initial xs p = elim (Bool-cases (ltb p 1007)) [
  | inl l ↦
      get_or-replicate_lt 1007 32 xs p (ltb→lt p 1007 l)
      ∙ ap (λ b. if b then 32 else get_or (replicate 1007 32 ++ xs) p 0) (sym l)
  | inr l ↦ ap (λ b. if b then 32 else get_or (replicate 1007 32 ++ xs) p 0) (sym l)
]

first_Shows : (bs : List ℕ) → Shows (first_inflater bs) (initial (first_inflater bs).buffer)
first_Shows bs = record {
  same = spaces-initial (replicate 1041 0);
  here = refl;
  inside = omega arith;
  room = first_room;
}

-- The bytes that spell a list of tokens, filled up with at most seven zero bits, decode to the bytes of the
-- tokens.
pub decompress_lem :
    (ts : List Token) (bs : List ℕ) (n : ℕ)
    → AllInRange ts
    → spell bs ≡ encode_all ts ++ replicate n 0
    → n < 8
    → decompress bs ≡ some (expand_all ts (initial (first_inflater bs).buffer))
unfolding decompress
decompress_lem ts bs n a e k =
    inflate_loop_lem ts n (8 * length bs + 1) (first_inflater bs)
      (initial (first_inflater bs).buffer)
      (omega (
        arith,
        length-spell bs,
        ap length e,
        length-append (encode_all ts) (replicate n 0),
        length-encode_all ts,
      ))
      a k (first_Reads bs _ e) (first_Shows bs)

-- The tool gives back every file of bytes that is not empty: it compresses the file, whether `char` is signed
-- or not, and from the compressed file its decoder writes the bytes of the first one.
pub decompress-compress :
    (signed_char : Bool) (text : List ℕ)
    → AllBytes text
    → 0 < length text
    → (bytes : List ℕ) × (compress signed_char text ≡ some bytes) × (decompress bytes ≡ some text)
decompress-compress signed_char text a h =
    let f = compress_lem signed_char text (replicate 1007 32 ++ replicate 1041 0) a h in
    let (n, n8, padded) = f.padded in
    (f.bytes, f.made, decompress_lem f.tokens f.bytes n f.in_range padded n8 ∙ ap some f.stands_for)
