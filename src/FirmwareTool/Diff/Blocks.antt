-- ===== src/FirmwareTool/Diff/Blocks.antt =====
-- utils/firmware_tool/commands/pipeline.cpp: a block that bsdiff writes is one of the format that the device
-- reads.
use native.Mathlib.Decide.{dec_le}
use upkit.Prelude.{
  ℕ, zero, suc, ◌+◌, ◌-◌, ◌%◌, ◌<◌, ◌≤◌, ◌≡◌, refl, sym, ap, ap₂, subst, ◌∙◌, List, [], ◌∷◌, ◌++◌,
  append_assoc, append-nil, pos, negsuc, sub_ℕ, ◌+ℤ◌, if◌then◌else◌, lt→ltb, length, get_or, take,
  drop, take-append-drop, length-drop, length-slice, min, slice, arith,
}
use upkit.FirmwareTool.Offset.{magnitude, offtout}
use upkit.FirmwareTool.Diff.{Scan, diff_bytes, writedata, write_all, write_block}
use upkit.FirmwareTool.Diff.Bounds.{Fits}
use upkit.Pipeline.Bspatch.Format.{Entry, encode, address, sums}

-- The stream takes everything that it is given.
writedata_lem :
    (fuel : ℕ) (output bytes : List ℕ)
    → length bytes ≤ fuel
    → writedata fuel output bytes ≡ output ++ bytes
unfolding writedata
writedata_lem zero output [] h = sym (append-nil output)
writedata_lem zero output (b ∷ bs) h = absurd (omega arith)
writedata_lem (suc fuel) output [] h = sym (append-nil output)
writedata_lem (suc fuel) output (b ∷ bs) h =
    let k = min (length (b ∷ bs)) 2147483647 in
    let rest = writedata fuel (output ++ take k (b ∷ bs)) (drop k (b ∷ bs)) in
    ap (λ t. if t then rest else output) (lt→ltb 0 (length (b ∷ bs)) (omega arith))
    ∙ (writedata_lem fuel (output ++ take k (b ∷ bs)) (drop k (b ∷ bs))
          (omega (arith, length-drop k (b ∷ bs)))
        ∙ (append_assoc output (take k (b ∷ bs)) (drop k (b ∷ bs))
            ∙ ap (λ t. output ++ t) (take-append-drop k (b ∷ bs))))

abbrev pub byte_of : List ℕ → ℕ → ℕ
byte_of file q = get_or file q 0

abbrev pub AreBytes : List ℕ → Type 0
AreBytes file = (q : ℕ) → byte_of file q < 256

sub_ℕ-le : (a b : ℕ) → b ≤ a → sub_ℕ a b ≡ pos (a - b)
sub_ℕ-le a b h = ground arith

sub_ℕ-gt : (a b : ℕ) → a < b → sub_ℕ a b ≡ negsuc (b - a - 1)
sub_ℕ-gt a b h = ground arith

pub add-sub_ℕ : (a b : ℕ) → pos a +ℤ sub_ℕ b a ≡ pos b
add-sub_ℕ a b = elim (dec_le a b) [
  | yes h ↦ ap (λ z. pos a +ℤ z) (sub_ℕ-le b a h) ∙ ap pos (omega arith)
  | no h ↦
      ap (λ z. pos a +ℤ z) (sub_ℕ-gt b a (omega arith))
      ∙ (sub_ℕ-le a (a - b - 1 + 1) (omega arith) ∙ ap pos (omega arith))
]

pub magnitude-sub_ℕ : (a b m : ℕ) → a < m → b < m → magnitude (sub_ℕ a b) < m
magnitude-sub_ℕ a b m h k = elim (dec_le b a) [
  | yes l ↦ subst (λ z. magnitude z < m) (sym (sub_ℕ-le a b l)) (omega arith)
  | no l ↦ subst (λ z. magnitude z < m) (sym (sub_ℕ-gt a b (omega arith))) (omega arith)
]

byte_back : (x y : ℕ) → x < 256 → y < 256 → ((x + 256 - y) % 256 + y) % 256 ≡ x
byte_back x y h k = omega arith

regroup :
    (o a b c d e : List ℕ) → ((o ++ (a ++ (b ++ c))) ++ d) ++ e ≡ o ++ (a ++ (b ++ (c ++ (d ++ e))))
regroup o a b c d e = simp append_assoc

module _ (old new : List ℕ) (old_bytes : AreBytes old) (new_bytes : AreBytes new) where
  pub length-diff_bytes : (n ls lp : ℕ) → length (diff_bytes old new n ls lp) ≡ n
  unfolding diff_bytes
  length-diff_bytes zero ls lp = refl
  length-diff_bytes (suc n) ls lp = ap suc (length-diff_bytes n (ls + 1) (lp + 1))

  -- What the device adds gives back the bytes of the new file.
  pub sums-diff_bytes :
      (n ls lp q k : ℕ)
      → lp ≡ q + k
      → q + k + n < 4294967296
      → sums (byte_of old) (pos q) k (diff_bytes old new n ls lp) ≡ slice (byte_of new) ls n
  unfolding diff_bytes
  sums-diff_bytes zero ls lp q k e h = refl
  sums-diff_bytes (suc n) ls lp q k e h =
      let a : address (pos q) k ≡ lp = omega arith in
      ap₂ (λ x l. x ∷ l)
        (ap (λ t. ((byte_of new ls + 256 - byte_of old lp) % 256 + byte_of old t) % 256) a
          ∙ byte_back (byte_of new ls) (byte_of old lp) (new_bytes ls) (old_bytes lp))
        (sums-diff_bytes n (ls + 1) (lp + 1) q (k + 1) (omega arith) (omega arith))

  -- The block as an entry of the format.
  abbrev pub entry_of : Scan → ℕ → ℕ → Entry
  entry_of s lenf lenb = record {
    diff = diff_bytes old new lenf s.lastscan s.lastpos;
    extra = slice (byte_of new) (s.lastscan + lenf) (s.scan - lenb - (s.lastscan + lenf));
    seek = sub_ℕ (s.pos_old - lenb) (s.lastpos + lenf);
  }

  pub write_block-encode :
      (I : ℕ → ℕ) (s : Scan) (lenf lenb : ℕ) (output : List ℕ)
      → Fits old new s lenf lenb
      → (write_block I old new s lenf lenb output).1 ≡ output ++ encode (entry_of s lenf lenb)
  unfolding write_block
  write_block-encode I s lenf lenb output f =
      let e = entry_of s lenf lenb in
      let c0 = offtout (pos lenf) in
      let c1 = offtout (sub_ℕ (s.scan - lenb) (s.lastscan + lenf)) in
      let c2 = offtout e.seek in
      let all : (o b : List ℕ) → write_all o b ≡ o ++ b =
        λ o b. writedata_lem (length b) o b (omega arith) in
      let written : write_all (write_all (write_all output (c0 ++ (c1 ++ c2))) e.diff) e.extra
          ≡ ((output ++ (c0 ++ (c1 ++ c2))) ++ e.diff) ++ e.extra =
        all _ e.extra
        ∙ ap (λ t. t ++ e.extra) (all _ e.diff ∙ ap (λ t. t ++ e.diff) (all output _)) in
      let n0 : c0 ≡ offtout (pos (length e.diff)) =
        ap (λ n. offtout (pos n)) (sym (length-diff_bytes lenf s.lastscan s.lastpos)) in
      let n1 : c1 ≡ offtout (pos (length e.extra)) = ap offtout (
        sub_ℕ-le _ _ f.front
        ∙ ap pos (
            sym (
              length-slice (byte_of new) (s.lastscan + lenf)
                (s.scan - lenb - (s.lastscan + lenf))))) in
      written
      ∙ (regroup output c0 c1 c2 e.diff e.extra
          ∙ ap₂ (λ a b. output ++ (a ++ (b ++ (c2 ++ (e.diff ++ e.extra))))) n0 n1)
