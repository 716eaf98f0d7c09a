-- ===== src/FirmwareTool/Patch/Tests.antt =====
-- bspatch on small files.
use upkit.Prelude.{
  ℕ, zero, suc, ◌≡◌, ◌≤◌, refl, false, List, [], ◌∷◌, ◌++◌, pos, negsuc, replicate, arith,
}
use upkit.FirmwareTool.Diff.{patch_header, bsdiff_internal}
use upkit.FirmwareTool.Diff.Blocks.{AreBytes}
use upkit.FirmwareTool.Offset.{offtout, offtin}
use upkit.FirmwareTool.Patch.{
  Input, returns_0, fails, bspatch, patch_round, read_ctrl, read_string, add_old,
}
use upkit.FirmwareTool.Patch.Rebuilt.{Rebuilds, bsdiff_internal-Rebuilds}

abbrev old_file : List ℕ
old_file = 7 ∷ 8 ∷ 7 ∷ []

abbrev new_file : List ℕ
new_file = 8 ∷ 7 ∷ 1 ∷ 8 ∷ []

abbrev suffixes : ℕ → ℕ
suffixes zero = 3
suffixes (suc zero) = 2
suffixes (suc (suc zero)) = 0
suffixes (suc (suc (suc n))) = 1

old_file-AreBytes : AreBytes old_file
old_file-AreBytes zero = omega arith
old_file-AreBytes (suc zero) = omega arith
old_file-AreBytes (suc (suc zero)) = omega arith
old_file-AreBytes (suc (suc (suc q))) = omega arith

new_file-AreBytes : AreBytes new_file
new_file-AreBytes zero = omega arith
new_file-AreBytes (suc zero) = omega arith
new_file-AreBytes (suc (suc zero)) = omega arith
new_file-AreBytes (suc (suc (suc zero))) = omega arith
new_file-AreBytes (suc (suc (suc (suc q)))) = omega arith

within : (x : ℕ) → x ≤ 3 → suffixes x ≤ 3
within zero h = omega arith
within (suc zero) h = omega arith
within (suc (suc zero)) h = omega arith
within (suc (suc (suc n))) h = omega arith

bsdiff_internal-Rebuilds_example :
    Rebuilds old_file new_file (bsdiff_internal suffixes old_file new_file (patch_header 4))
bsdiff_internal-Rebuilds_example =
    bsdiff_internal-Rebuilds old_file new_file old_file-AreBytes new_file-AreBytes (omega arith)
      (omega arith) suffixes within

-- Control numbers of one block, and what is behind them.
abbrev cut_off : Input
unfolding offtout
cut_off = record {
  rest = offtout (pos 0) ++ (offtout (pos 2) ++ (offtout (pos 0) ++ 9 ∷ []));
  eof = false;
}

-- The patch ends in the middle of an extra string: the second byte is what the memory held.
cut_off_accepted :
    bspatch old_file 2 (77 ∷ 77 ∷ []) (replicate 8 0) cut_off ≡ returns_0 (9 ∷ 77 ∷ [])
unfolding bspatch patch_round read_ctrl read_string add_old cut_off offtin
cut_off_accepted = refl

-- A diff string of negative length, of which 32 bits are 1, leaves the position below 0, where the extra string is
-- then written.
abbrev below : Input
unfolding offtout
below = record {
  rest = offtout (negsuc 4294967294) ++ (offtout (pos 1) ++ (offtout (pos 0) ++ 9 ∷ 9 ∷ 9 ∷ []));
  eof = false;
}

written_below : bspatch old_file 2 (77 ∷ 77 ∷ []) (replicate 8 0) below ≡ fails
unfolding bspatch patch_round read_ctrl read_string add_old below offtin
written_below = refl
