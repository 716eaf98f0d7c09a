-- ===== src/FirmwareTool/Compress/Output.antt =====
-- utils/firmware_tool/commands/pipeline.cpp: what the output functions of the LZSS encoder write.
use Prim.Native.Nat.{bit_or}
use upkit.Prelude.{
  ℕ, zero, suc, ◌+◌, ◌*◌, ◌/◌, ◌%◌, ◌^◌, ◌<◌, ◌≡◌, refl, sym, ap, ap₂, subst, ◌∙◌, false, List, [],
  ◌∷◌, ◌++◌, if◌then◌else◌, ◌==◌, append_assoc, append-nil, length, length-append, arith,
}
use upkit.FirmwareTool.Compress.{
  BitOut, first_bits, put_full, putbit0, putbit1, put_masks, output1, output2,
}
use upkit.FirmwareTool.Compress.Bits.{weigh, mask_after, AllBits, or-weigh}
use upkit.Pipeline.Lzss.Chunks.{bits, spell}

-- The bits `ws` have been put out.
pub record Written (ws : List ℕ) (b : BitOut) : Type 0 where
  pub waiting : List ℕ
  pub few : length waiting < 8
  pub binary : AllBits waiting
  pub buffer : b.bit_buffer ≡ weigh 128 waiting
  pub mask : b.bit_mask ≡ mask_after 128 waiting
  pub whole : spell b.outfile ++ waiting ≡ ws

pub first_bits-Written : Written [] first_bits
first_bits-Written = record {
  waiting = [];
  few = omega arith;
  binary = tt;
  buffer = refl;
  mask = refl;
  whole = refl;
}

pub spell-append : (xs ys : List ℕ) → spell (xs ++ ys) ≡ spell xs ++ spell ys
spell-append [] ys = refl
spell-append (x ∷ xs) ys = ap (λ t. bits 8 x ++ t) (spell-append xs ys)

pub cons : {a b : ℕ} {l m : List ℕ} → a ≡ b → l ≡ m → a ∷ l ≡ b ∷ m
cons = ap₂ (λ a l. a ∷ l)

byte_bits :
    (a b c d e f g x : ℕ)
    → AllBits (a ∷ b ∷ c ∷ d ∷ e ∷ f ∷ g ∷ [])
    → x < 2
    → bits 8 (weigh 128 (a ∷ b ∷ c ∷ d ∷ e ∷ f ∷ g ∷ x ∷ [])) ≡ a ∷ b ∷ c ∷ d ∷ e ∷ f ∷ g ∷ x ∷ []
byte_bits a b c d e f g x h k = cons (ground (arith, h, k)) (
    cons (ground (arith, h, k)) (
      cons (ground (arith, h, k)) (
        cons (ground (arith, h, k)) (
          cons (ground (arith, h, k)) (
            cons (ground (arith, h, k))
              (cons (ground (arith, h, k)) (cons (ground (arith, h, k)) (refl))))))))

AllBits-append : (l : List ℕ) (x : ℕ) → AllBits l → x < 2 → AllBits (l ++ (x ∷ []))
AllBits-append [] x h k = (k, tt)
AllBits-append (a ∷ l) x h k = (h.0, AllBits-append l x h.1 k)

weigh-append_zero : (m : ℕ) (l : List ℕ) → weigh m (l ++ (0 ∷ [])) ≡ weigh m l
weigh-append_zero m [] = omega arith
weigh-append_zero m (x ∷ l) = ap (λ t. x * m + t) (weigh-append_zero (m / 2) l)

mask_after-append : (m : ℕ) (l : List ℕ) (x : ℕ) → mask_after m (l ++ (x ∷ [])) ≡ mask_after m l / 2
mask_after-append m [] x = refl
mask_after-append m (y ∷ l) x = mask_after-append (m / 2) l x

-- The bit `x` is in its place, and the mask is behind it.
abbrev filled : List ℕ → ℕ → List ℕ → BitOut
filled l x o = record {
  bit_buffer = weigh 128 (l ++ (x ∷ []));
  bit_mask = mask_after 128 l / 2;
  outfile = o;
}

kept :
    (l : List ℕ) (x : ℕ) (o : List ℕ)
    → length l < 7
    → AllBits l
    → x < 2
    → (mask_after 128 l / 2 == 0) ≡ false
    → Written (spell o ++ (l ++ (x ∷ []))) (put_full (filled l x o))
kept l x o n h k e =
    subst
      (λ t. Written (spell o ++ (l ++ (x ∷ []))) (
        if t
        then (record {
          bit_buffer = 0;
          bit_mask = 128;
          outfile = o ++ (weigh 128 (l ++ (x ∷ [])) ∷ []);
        })
        else filled l x o))
      (sym e)
      (record {
        waiting = l ++ (x ∷ []);
        few = omega (arith, length-append l (x ∷ []));
        binary = AllBits-append l x h k;
        buffer = refl;
        mask = sym (mask_after-append 128 l x);
        whole = refl;
      })

push :
    (l : List ℕ) (x : ℕ) (o : List ℕ)
    → length l < 8
    → AllBits l
    → x < 2
    → Written (spell o ++ (l ++ (x ∷ []))) (put_full (filled l x o))
push ([]) x o n h k = kept ([]) x o (omega arith) h k refl
push (a ∷ []) x o n h k = kept (a ∷ []) x o (omega arith) h k refl
push (a ∷ b ∷ []) x o n h k = kept (a ∷ b ∷ []) x o (omega arith) h k refl
push (a ∷ b ∷ c ∷ []) x o n h k = kept (a ∷ b ∷ c ∷ []) x o (omega arith) h k refl
push (a ∷ b ∷ c ∷ d ∷ []) x o n h k = kept (a ∷ b ∷ c ∷ d ∷ []) x o (omega arith) h k refl
push (a ∷ b ∷ c ∷ d ∷ e ∷ []) x o n h k = kept (a ∷ b ∷ c ∷ d ∷ e ∷ []) x o (omega arith) h k refl
push (a ∷ b ∷ c ∷ d ∷ e ∷ f ∷ []) x o n h k =
    kept (a ∷ b ∷ c ∷ d ∷ e ∷ f ∷ []) x o (omega arith) h k refl
push (a ∷ b ∷ c ∷ d ∷ e ∷ f ∷ g ∷ []) x o n h k = record {
  waiting = [];
  few = omega arith;
  binary = tt;
  buffer = refl;
  mask = refl;
  whole =
      append-nil _
      ∙ (spell-append o _ ∙ ap (λ t. spell o ++ t) (append-nil _ ∙ byte_bits a b c d e f g x h k));
}
push (a ∷ b ∷ c ∷ d ∷ e ∷ f ∷ g ∷ h ∷ l) x o n p k = absurd (omega arith)

module _ {ws : List ℕ} (b : BitOut) (w : Written ws b) where
  more : (x : ℕ) → x < 2 → Written (ws ++ (x ∷ [])) (put_full (filled w.waiting x b.outfile))
  more x h =
      subst (λ t. Written t (put_full (filled w.waiting x b.outfile)))
        (sym (append_assoc (spell b.outfile) w.waiting (x ∷ [])) ∙ ap (λ t. t ++ (x ∷ [])) w.whole)
        (push w.waiting x b.outfile w.few w.binary h)

  putbit0-Written : Written (ws ++ (0 ∷ [])) (putbit0 b)
  unfolding putbit0
  putbit0-Written =
      subst (λ v. Written (ws ++ (0 ∷ [])) (put_full v))
        (λ i. record {
          bit_buffer = (weigh-append_zero 128 w.waiting ∙ sym w.buffer) i;
          bit_mask = sym w.mask i / 2;
          outfile = b.outfile;
        })
        (more 0 (omega arith))

  putbit1-Written : Written (ws ++ (1 ∷ [])) (putbit1 b)
  unfolding putbit1
  putbit1-Written =
      subst (λ v. Written (ws ++ (1 ∷ [])) (put_full v))
        (λ i. record {
          bit_buffer =
              (sym (or-weigh w.waiting w.few w.binary) ∙ ap₂ bit_or (sym w.buffer) (sym w.mask)) i;
          bit_mask = sym w.mask i / 2;
          outfile = b.outfile;
        })
        (more 1 (omega arith))

one_bit :
    (x : ℕ) {ws : List ℕ} (b : BitOut)
    → x < 2
    → Written ws b
    → Written (ws ++ (x ∷ [])) (if x == 0 then putbit0 b else putbit1 b)
one_bit zero b h w = putbit0-Written b w
one_bit (suc zero) b h w = putbit1-Written b w
one_bit (suc (suc x)) b h w = absurd (omega arith)

pub put_masks-Written :
    (n c : ℕ) {ws : List ℕ} (b : BitOut) → Written ws b → Written (ws ++ bits n c) (put_masks n c b)
unfolding put_masks
put_masks-Written zero c b w = subst (λ t. Written t b) (sym (append-nil _)) w
put_masks-Written (suc n) c {ws} b w =
    let x = c / 2 ^ n % 2 in
    let b' = if x == 0 then putbit0 b else putbit1 b in
    subst (λ t. Written t (put_masks n c b')) (append_assoc ws (x ∷ []) (bits n c))
      (put_masks-Written n c b' (one_bit x b (omega arith) w))

pub output1-Written :
    (c : ℕ) {ws : List ℕ} (b : BitOut) → Written ws b → Written (ws ++ (1 ∷ bits 8 c)) (output1 c b)
unfolding output1
output1-Written c {ws} b w =
    subst (λ t. Written t (output1 c b)) (append_assoc ws (1 ∷ []) (bits 8 c))
      (put_masks-Written 8 c (putbit1 b) (putbit1-Written b w))

pub output2-Written :
    (x y : ℕ) {ws : List ℕ} (b : BitOut)
    → Written ws b
    → Written (ws ++ (0 ∷ (bits 10 x ++ bits 4 y))) (output2 x y b)
unfolding output2
output2-Written x y {ws} b w =
    subst (λ t. Written t (output2 x y b))
      (append_assoc _ (bits 10 x) (bits 4 y) ∙ append_assoc ws (0 ∷ []) _)
      (put_masks-Written 4 y (put_masks 10 x (putbit0 b))
        (put_masks-Written 10 x (putbit0 b) (putbit0-Written b w)))
