-- ===== src/Pipeline/Bspatch/Format.antt =====
-- The format of a patch, and what the stage does with each part of one.
use upkit.Prelude.{
  ℕ, ◌+◌, ◌%◌, ◌<◌, ◌≤◌, ◌≡◌, refl, ap, ◌∙◌, false, List, [], ◌∷◌, ◌++◌, ℤ, pos, ltb_int, ◌+ℤ◌,
  int_to_u32, length, length-append, replicate, if◌then◌else◌, ltb, arith,
}
use upkit.Memory.{MemoryImpl}
use upkit.Pipeline.{Stage}
use upkit.Pipeline.Bspatch.{
  Wait, at_header, at_control, Patch, Run, going, finished, failed, read_y, next_block, end_control,
  on_control, on_header, on_byte, take_bytes,
}
use upkit.Pipeline.Bspatch.Words.{receive, read_y-receive}
use upkit.FirmwareTool.Offset.{magnitude, offtout}

-- A control block: the bytes to add to old ones, the bytes to insert, and how far to go on in the old
-- image after that.
pub record Entry : Type 0 where
  pub diff : List ℕ
  pub extra : List ℕ
  pub seek : ℤ

abbrev pub encode : Entry → List ℕ
encode e =
    offtout (pos (length e.diff))
    ++ (offtout (pos (length e.extra)) ++ (offtout e.seek ++ (e.diff ++ e.extra)))

abbrev pub encode_all : List Entry → List ℕ
encode_all [] = []
encode_all (e ∷ es) = encode e ++ encode_all es

-- The size of what the blocks make.
abbrev pub size_of : List Entry → ℕ
size_of [] = 0
size_of (e ∷ es) = length e.diff + length e.extra + size_of es

abbrev pub encode_patch : List Entry → List ℕ
encode_patch es = replicate 16 0x2a ++ (offtout (pos (size_of es)) ++ encode_all es)

-- The address of the `k`-th byte from a position of the old image.
abbrev pub address : ℤ → ℕ → ℕ
address q k = int_to_u32 (q +ℤ pos k)

abbrev pub sums : (ℕ → ℕ) → ℤ → ℕ → List ℕ → List ℕ
sums image q k [] = []
sums image q k (d ∷ ds) = ((d + image (address q k)) % 256) ∷ sums image q (k + 1) ds

-- Where the old image is read from after a block.
abbrev pub behind : ℤ → Entry → ℤ
behind q e = q +ℤ pos (length e.diff) +ℤ e.seek

-- The new image.
abbrev pub patched : (ℕ → ℕ) → ℤ → List Entry → List ℕ
patched image q [] = []
patched image q (e ∷ es) = sums image q 0 e.diff ++ (e.extra ++ patched image (behind q e) es)

-- The bytes of the old image that the blocks add to are inside its size, no number needs more than 31
-- bits, and no suffix of the list makes nothing (the stage stops when the size is reached).
abbrev pub InRange : ℕ → ℤ → List Entry → Type 0
InRange size q [] = Unit {0}
InRange size q (e ∷ es) =
    ((k : ℕ) → k < length e.diff → address q k < size)
    × (magnitude e.seek < 2147483648)
    × (0 < size_of (e ∷ es))
    × InRange size (behind q e) es

-- Each block adds to bytes inside the old image, at places that are counted without wrapping round.
abbrev pub InOld : ℕ → ℤ → List Entry → Type 0
InOld size q [] = Unit {0}
InOld size q (e ∷ es) =
    (a : ℕ) × (q ≡ pos a) × (a + length e.diff ≤ size) × InOld size (behind q e) es

not_ltb : (m : ℕ) → ltb m 0 ≡ false
not_ltb m = ground arith

module _ {O W S : Type 0} (mem : MemoryImpl O W) (old : O) (dev : S → W) (put : W → S → S)
    (next : Stage S) where
  -- From `r`, the stage takes all the bytes and comes to `r'`.
  pub record Runs (bs : List ℕ) (r r' : Run S) : Type 0 where
    pub runs : (n : ℕ) → take_bytes mem old dev put next n bs r ≡ (n + length bs, r')

  take-append :
      (n : ℕ) (xs ys : List ℕ) (r : Run S)
      → take_bytes mem old dev put next n (xs ++ ys) r
        ≡ take_bytes mem old dev put next
            (take_bytes mem old dev put next n xs r).0
            ys
            (take_bytes mem old dev put next n xs r).1
  unfolding take_bytes
  take-append n [] ys r = refl
  take-append n (x ∷ xs) ys (going g p s) =
      take-append (n + 1) xs ys (on_byte mem old dev put next x g p s)
  take-append n (x ∷ xs) [] (finished p s) = refl
  take-append n (x ∷ xs) (y ∷ ys) (finished p s) = refl
  take-append n (x ∷ xs) [] (failed e p s) = refl
  take-append n (x ∷ xs) (y ∷ ys) (failed e p s) = refl

  pub Runs-append :
      (xs ys : List ℕ) (r r' r'' : Run S) → Runs xs r r' → Runs ys r' r'' → Runs (xs ++ ys) r r''
  Runs-append xs ys r r' r'' a b = record {
    runs = λ n.
        take-append n xs ys r
        ∙ (ap (λ t. take_bytes mem old dev put next t.0 ys t.1) (a.runs n)
            ∙ (b.runs (n + length xs)
                ∙ ap (λ k. (k, r'')) (omega (arith, length-append {0} xs ys))));
  }

  pub Runs-nil : (r : Run S) → Runs [] r r
  unfolding take_bytes
  Runs-nil r = record { runs = λ n. ap (λ k. (k, r)) (omega arith) }

  pub Runs-cons :
      (b : ℕ) (bs : List ℕ) (g : Wait) (p : Patch) (s : S) (r' : Run S)
      → Runs bs (on_byte mem old dev put next b g p s) r'
      → Runs (b ∷ bs) (going g p s) r'
  unfolding take_bytes
  Runs-cons b bs g p s r' a = record {
    runs = λ n. a.runs (n + 1) ∙ ap (λ k. (k, r')) (omega arith);
  }

  -- The sixteen magic bytes.
  pub magic-Runs :
      (p : Patch) (s : S)
      → Runs
          (replicate 16 0x2a)
          (going at_header (record p { j = 0 }) s)
          (going at_header (record p { j = 16 }) s)
  unfolding take_bytes on_byte on_header
  magic-Runs p s = record {
    runs = λ n. ap (λ k. (k, going at_header (record p { j = 16 }) s)) (omega arith);
  }

  -- The size, which is not negative.
  pub size-Runs :
      (m : ℕ) (p : Patch) (s : S)
      → length p.newsize ≡ 8
      → m < 2147483648
      → let p' : Patch = record p { newsize = receive (pos m) p.newsize; j = 24 } in
        Runs (offtout (pos m)) (going at_header (record p { j = 16 }) s) (next_block p' s)
  unfolding take_bytes on_byte on_header offtout
  size-Runs m p s l h =
      let p' : Patch = record p { newsize = receive (pos m) p.newsize; j = 24 } in
      let y : read_y p'.newsize ≡ pos m = read_y-receive (pos m) p.newsize l h in
      record {
        runs = λ n.
            ap
              (λ v. (
                n + 1 + 1 + 1 + 1 + 1 + 1 + 1 + 1,
                if ltb_int v (pos 0) then failed 1 p' s else next_block p' s,
              ))
              y
            ∙ (ap
                  (λ b. (
                    n + 1 + 1 + 1 + 1 + 1 + 1 + 1 + 1,
                    if b then failed 1 p' s else next_block p' s,
                  ))
                  (not_ltb m)
                ∙ ap (λ k. (k, next_block p' s)) (omega arith));
      }

  control_0 :
      (z : ℤ) (p : Patch) (s : S)
      → Runs
          (offtout z)
          (going at_control (record p { i = 0; j = 0 }) s)
          (going at_control (record p { ctrl_0 = receive z p.ctrl_0; i = 1; j = 0 }) s)
  unfolding take_bytes on_byte on_control offtout
  control_0 z p s =
      let q : Patch = record p { ctrl_0 = receive z p.ctrl_0; i = 1; j = 0 } in
      record { runs = λ n. ap (λ k. (k, going at_control q s)) (omega arith) }

  control_1 :
      (z : ℤ) (p : Patch) (s : S)
      → Runs
          (offtout z)
          (going at_control (record p { i = 1; j = 0 }) s)
          (going at_control (record p { ctrl_1 = receive z p.ctrl_1; i = 2; j = 0 }) s)
  unfolding take_bytes on_byte on_control offtout
  control_1 z p s =
      let q : Patch = record p { ctrl_1 = receive z p.ctrl_1; i = 2; j = 0 } in
      record { runs = λ n. ap (λ k. (k, going at_control q s)) (omega arith) }

  control_2 :
      (z : ℤ) (p : Patch) (s : S)
      → Runs
          (offtout z)
          (going at_control (record p { i = 2; j = 0 }) s)
          (end_control (record p { ctrl_2 = receive z p.ctrl_2; i = 3; j = 8 }) s)
  unfolding take_bytes on_byte on_control offtout
  control_2 z p s =
      let q : Patch = record p { ctrl_2 = receive z p.ctrl_2; i = 3; j = 8 } in
      record { runs = λ n. ap (λ k. (k, end_control q s)) (omega arith) }

  -- The control data of a block, up to the sanity check.
  pub control-Runs :
      (d x z : ℤ) (p : Patch) (s : S)
      → let q : Patch = record p {
        ctrl_0 = receive d p.ctrl_0;
        ctrl_1 = receive x p.ctrl_1;
        ctrl_2 = receive z p.ctrl_2;
        i = 3;
        j = 8;
      } in
        (rest : List ℕ) (r : Run S)
        → Runs rest (end_control q s) r
        → Runs
            (offtout d ++ (offtout x ++ (offtout z ++ rest)))
            (going at_control (record p { i = 0; j = 0 }) s)
            r
  control-Runs d x z p s rest r a =
      let p1 : Patch = record p { ctrl_0 = receive d p.ctrl_0 } in
      let p2 : Patch = record p1 { ctrl_1 = receive x p.ctrl_1 } in
      Runs-append (offtout d) _ _ _ r (control_0 d p s) (
        Runs-append (offtout x) _ _ _ r (control_1 x p1 s)
          (Runs-append (offtout z) rest _ _ r (control_2 z p2 s) a))
