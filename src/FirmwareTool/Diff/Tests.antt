-- ===== src/FirmwareTool/Diff/Tests.antt =====
-- A patch between two small files; the device is that of `Fixtures`, whose slot 3 starts with the old one.
use upkit.Prelude.{
  ℕ, zero, suc, ◌<◌, ◌≤◌, ◌≡◌, refl, ap, ◌∙◌, false, List, [], ◌∷◌, ◌++◌, pos, length, replicate,
  get_or, arith,
}
use upkit.Memory.{memory_read}
use upkit.Pipeline.{Stage}
use upkit.Pipeline.Bspatch.{BspatchCtx, start}
use upkit.Pipeline.Bspatch.Patched.{ReadsOld}
use upkit.FirmwareTool.Search.{search}
use upkit.FirmwareTool.Diff.{Scan, patch_header, bsdiff_internal}
use upkit.FirmwareTool.Diff.Blocks.{byte_of, AreBytes}
use upkit.FirmwareTool.Diff.RoundTrip.{Applies, bsdiff_internal-Applies}
use upkit.Fixtures.{Ram, ram, device}

record Sink : Type 0 where
  dev : Ram
  out : List ℕ

abbrev keep : Stage Sink
keep bytes s = (pos (length bytes), record s { out = s.out ++ bytes })

abbrev put : Ram → Sink → Sink
put w s = record s { dev = w }

abbrev OnDevice : Sink → Type 0
OnDevice s = s.dev ≡ device

abbrev old_file : List ℕ
old_file = 4 ∷ 5 ∷ 4 ∷ 6 ∷ []

abbrev new_file : List ℕ
new_file = 4 ∷ 5 ∷ 9 ∷ 4 ∷ 6 ∷ 7 ∷ []

-- The suffixes of the old file in order.
abbrev suffixes : ℕ → ℕ
suffixes x = get_or (4 ∷ 0 ∷ 2 ∷ 1 ∷ 3 ∷ []) x 0

old_file-AreBytes : AreBytes old_file
old_file-AreBytes zero = omega arith
old_file-AreBytes (suc zero) = omega arith
old_file-AreBytes (suc (suc zero)) = omega arith
old_file-AreBytes (suc (suc (suc zero))) = omega arith
old_file-AreBytes (suc (suc (suc (suc q)))) = omega arith

new_file-AreBytes : AreBytes new_file
new_file-AreBytes zero = omega arith
new_file-AreBytes (suc zero) = omega arith
new_file-AreBytes (suc (suc zero)) = omega arith
new_file-AreBytes (suc (suc (suc zero))) = omega arith
new_file-AreBytes (suc (suc (suc (suc zero)))) = omega arith
new_file-AreBytes (suc (suc (suc (suc (suc zero))))) = omega arith
new_file-AreBytes (suc (suc (suc (suc (suc (suc q)))))) = omega arith

within : (x : ℕ) → x ≤ 4 → suffixes x ≤ 4
within zero h = omega arith
within (suc zero) h = omega arith
within (suc (suc zero)) h = omega arith
within (suc (suc (suc zero))) h = omega arith
within (suc (suc (suc (suc x)))) h = let e : x ≡ 0 = omega arith in rw e (omega arith)

same_byte : (a : ℕ) → a < 4 → device 3 a ≡ byte_of old_file a
same_byte zero h = refl
same_byte (suc zero) h = refl
same_byte (suc (suc zero)) h = refl
same_byte (suc (suc (suc zero))) h = refl
same_byte (suc (suc (suc (suc a)))) h = absurd (omega arith)

abbrev reads_old : ReadsOld ram 3 (λ s. s.dev) put keep OnDevice 4 (byte_of old_file)
unfolding memory_read
reads_old = record {
  read = λ s a g l.
      ap (λ (w : Ram). (1, w 3 a ∷ [], s.dev)) g
      ∙ ap (λ (b : ℕ). (1, b ∷ [], s.dev)) (same_byte a l);
  unread = λ s. refl;
  keeps = λ b s g. g;
}

abbrev eight : List ℕ
eight = replicate 8 0

abbrev fresh : BspatchCtx
fresh = record {
  state = start;
  finish = false;
  patch = record {
    oldpos = pos 0;
    newpos = pos 0;
    ctrl_0 = eight;
    ctrl_1 = eight;
    ctrl_2 = eight;
    i = 0;
    j = 0;
    newsize = eight;
  };
}

abbrev empty : Sink
empty = record { dev = device; out = [] }

-- 4 6 is at the end of the old file.
finds_last : search suffixes old_file 4 (4 ∷ 6 ∷ 7 ∷ []) 0 4 ≡ (2, 2)
unfolding search
finds_last = refl

-- A match from the third byte of the old file, with two bytes in front of it.
abbrev matched : Scan
matched = record { scan = 3; len = 2; pos_old = 2; lastscan = 0; lastpos = 0; lastoffset = pos 0 }

bsdiff_internal-Applies_example :
    Applies ram 3
      (λ s. s.dev)
      put
      keep
      OnDevice
      new_file
      fresh
      empty
      (bsdiff_internal suffixes old_file new_file (patch_header 6))
bsdiff_internal-Applies_example =
    bsdiff_internal-Applies ram 3 (λ s. s.dev) put keep OnDevice suffixes old_file new_file fresh
      empty old_file-AreBytes new_file-AreBytes (omega arith) (omega arith) within reads_old refl
      refl (refl, refl, refl, refl) refl
