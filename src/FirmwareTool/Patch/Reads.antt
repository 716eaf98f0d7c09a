-- ===== src/FirmwareTool/Patch/Reads.antt =====
-- utils/firmware_tool/commands/pipeline.cpp: what bspatch does with the parts of a block.
use upkit.Prelude.{
  ℕ, zero, suc, ◌+◌, ◌%◌, ◌<◌, ◌≤◌, ◌≡◌, refl, sym, ap, ap₂, ◌∙◌, false, List, [], ◌∷◌, ◌++◌,
  append_assoc, none, some, ℤ, pos, negsuc, ◌-◌, append-nil, ltb_int, ◌+ℤ◌, if◌then◌else◌, ltb,
  lt→ltb, length, length-append, get_or, set, take, drop, take-append_left, drop-append_left,
  memcpy, ◌>>=◌, bind-some, ◌&&◌, arith, int_to_u32,
}
use upkit.Pipeline.Bspatch.{int32}
use upkit.Pipeline.Bspatch.Format.{sums}
use upkit.FirmwareTool.Offset.{magnitude, offtout, offtin, offtin-offtout}
use upkit.FirmwareTool.Diff.Blocks.{byte_of}
use upkit.FirmwareTool.Patch.{
  Input, PatchState, stream_read, patch_read, read_ctrl, put_bytes, add_byte, add_old, read_string,
}

-- A stream that has not met the end of the file.
abbrev pub stream : List ℕ → Input
stream rest = record { rest = rest; eof = false }

pub not_ltb : (a b : ℕ) → b ≤ a → ltb a b ≡ false
not_ltb a b h = ground arith

int32_small : (n : ℕ) → n < 2147483648 → int32 (int_to_u32 (pos n)) ≡ pos n
int32_small n h =
    let e : n % 4294967296 ≡ n = omega arith in
    rw e (ap (λ b. if b then pos n else negsuc (4294967295 - n)) (lt→ltb n 2147483648 h))

pub patch_read_lem :
    (ds rest : List ℕ)
    → length ds < 2147483648
    → patch_read (stream (ds ++ rest)) (pos (length ds)) ≡ some (ds, stream rest)
unfolding patch_read
patch_read_lem ds rest h =
    ap (λ z. some (stream_read (stream (ds ++ rest)) z)) (int32_small (length ds) h)
    ∙ (ap
          (λ b. some (
            take (length ds) (ds ++ rest),
            record { rest = drop (length ds) (ds ++ rest); eof = b },
          ))
          (not_ltb (length (ds ++ rest)) (length ds) (omega (arith, length-append ds rest)))
        ∙ ap₂ (λ x y. some (x, stream y)) (take-append_left _ ds rest refl)
            (drop-append_left _ ds rest refl))

drop_long : (xs ys : List ℕ) (k n : ℕ) → k ≡ length xs + n → drop k (xs ++ ys) ≡ drop n ys
drop_long [] ys k n h = let e : k ≡ n = omega arith in rw e refl
drop_long (x ∷ xs) ys zero n h = absurd (omega arith)
drop_long (x ∷ xs) ys (suc k) n h = drop_long xs ys k n (omega arith)

-- A string that arrives behind what is done.
pub memcpy-append :
    (done post ds : List ℕ) (a : ℕ)
    → length done ≡ a
    → memcpy (done ++ post) a ds ≡ done ++ (ds ++ drop (length ds) post)
memcpy-append done post ds a h =
    ap₂ (λ x y. x ++ (ds ++ y)) (take-append_left a done post (sym h))
      (drop_long done post (a + length ds) (length ds) (omega arith))

drop_all : (xs : List ℕ) → drop (length xs) xs ≡ []
drop_all [] = refl
drop_all (x ∷ xs) = drop_all xs

memcpy_whole : (buf bs : List ℕ) → length buf ≡ length bs → memcpy buf 0 bs ≡ bs
memcpy_whole buf bs h =
    let z : 0 + length bs ≡ length buf = omega (arith, h) in
    ap (λ t. bs ++ t) (ap (λ n. drop n buf) z ∙ drop_all buf) ∙ append-nil bs

pub length-offtout : (z : ℤ) → length (offtout z) ≡ 8
unfolding offtout
length-offtout z = refl

pub read_ctrl_lem :
    (z : ℤ) (buf rest : List ℕ)
    → length buf ≡ 8
    → magnitude z < 9223372036854775808
    → read_ctrl buf (stream (offtout z ++ rest)) ≡ some (z, offtout z, stream rest)
unfolding read_ctrl
read_ctrl_lem z buf rest h k =
    let l = length-offtout z in
    let took : patch_read (stream (offtout z ++ rest)) (pos 8) ≡ some (offtout z, stream rest) =
      ap (λ n. patch_read (stream (offtout z ++ rest)) (pos n)) (sym l)
      ∙ patch_read_lem (offtout z) rest (omega (arith, l)) in
    ap
      (λ o. o >>= (λ (r : List ℕ × Input). some (offtin (memcpy buf 0 r.0), memcpy buf 0 r.0, r.1)))
      took
    ∙ ap₂ (λ x y. some (x, y, stream rest))
        (ap offtin (memcpy_whole buf (offtout z) (h ∙ sym l)) ∙ offtin-offtout z k)
        (memcpy_whole buf (offtout z) (h ∙ sym l))

pub read_string_lem :
    (ds rest : List ℕ) (newsize a : ℕ) (s : PatchState)
    → s.nnewpos ≡ pos a
    → s.input ≡ stream (ds ++ rest)
    → a + length ds ≤ newsize
    → a + length ds ≤ length s.nnew
    → length ds < 2147483648
    → read_string newsize s (pos (length ds))
      ≡ some (record s { nnew = memcpy s.nnew a ds; input = stream rest })
unfolding read_string
read_string_lem ds rest newsize a s e f h inside k =
    let fits : ltb_int (pos newsize) (s.nnewpos +ℤ pos (length ds)) ≡ false =
      ap (λ z. ltb_int (pos newsize) (z +ℤ pos (length ds))) e
      ∙ not_ltb newsize (a + length ds) h in
    let took : patch_read s.input (pos (length ds)) ≡ some (ds, stream rest) =
      ap (λ i. patch_read i (pos (length ds))) f ∙ patch_read_lem ds rest k in
    bind-some _ (ap (λ b. if b then none else patch_read s.input (pos (length ds))) fits ∙ took) (
      bind-some _
        (ap (λ z. put_bytes s.nnew z ds) e
          ∙ ap (λ b. if b && ltb 0 (length ds) then none else some (memcpy s.nnew a ds))
              (not_ltb (length s.nnew) (a + length ds) inside))
        refl)

get_at : (done post : List ℕ) (d k : ℕ) → k ≡ length done → get_or (done ++ d ∷ post) k 0 ≡ d
get_at [] post d zero h = refl
get_at [] post d (suc k) h = absurd (omega arith)
get_at (x ∷ xs) post d zero h = absurd (omega arith)
get_at (x ∷ xs) post d (suc k) h = get_at xs post d k (omega arith)

set_at :
    (done post : List ℕ) (d v k : ℕ)
    → k ≡ length done
    → set (done ++ d ∷ post) k v ≡ done ++ v ∷ post
set_at [] post d v zero h = refl
set_at [] post d v (suc k) h = absurd (omega arith)
set_at (x ∷ xs) post d v zero h = absurd (omega arith)
set_at (x ∷ xs) post d v (suc k) h = ap (λ t. x ∷ t) (set_at xs post d v k (omega arith))

-- The old bytes are added to a diff string that has arrived.
pub add_old-append :
    (old ds done post : List ℕ) (i a q : ℕ)
    → length done ≡ a + i
    → q + i + length ds ≤ length old
    → length old < 4294967296
    → add_old old (length ds) i (pos a) (pos q) (done ++ (ds ++ post))
      ≡ some (done ++ (sums (byte_of old) (pos q) i ds ++ post))
unfolding add_old
add_old-append old [] done post i a q e h small = refl
add_old-append old (d ∷ ds) done post i a q e h small =
    let v : ℕ = (d + byte_of old ((q + i) % 4294967296)) % 256 in
    let here : add_byte old (done ++ (d ∷ ds ++ post)) (pos a +ℤ pos i) (pos q +ℤ pos i)
        ≡ some ((done ++ v ∷ []) ++ (ds ++ post)) =
      ap
        (λ b.
          if b
          then (if ltb (a + i) (length (done ++ (d ∷ ds ++ post)))
              then some (
                  set (done ++ (d ∷ ds ++ post)) (a + i)
                    ((get_or (done ++ (d ∷ ds ++ post)) (a + i) 0 + byte_of old (q + i)) % 256))
              else none)
          else some (done ++ (d ∷ ds ++ post)))
        (lt→ltb (q + i) (length old) (omega arith))
      ∙ (ap
            (λ b.
              if b
              then some (
                  set (done ++ (d ∷ ds ++ post)) (a + i)
                    ((get_or (done ++ (d ∷ ds ++ post)) (a + i) 0 + byte_of old (q + i)) % 256))
              else none)
            (lt→ltb (a + i) (length (done ++ (d ∷ ds ++ post)))
              (omega (arith, length-append done (d ∷ ds ++ post))))
          ∙ ap some (
              set_at done (ds ++ post) d _ (a + i) (sym e)
              ∙ (ap₂ (λ x y. done ++ ((x + byte_of old y) % 256 ∷ (ds ++ post)))
                    (get_at done (ds ++ post) d (a + i) (sym e)) (omega arith)
                  ∙ sym (append_assoc done (v ∷ []) (ds ++ post))))) in
    bind-some _ here (
      add_old-append old ds (done ++ v ∷ []) post (i + 1) a q
        (omega (arith, length-append done (v ∷ []))) (omega arith) small
      ∙ ap some (append_assoc done (v ∷ []) _))
