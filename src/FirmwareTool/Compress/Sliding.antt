-- ===== src/FirmwareTool/Compress/Sliding.antt =====
-- utils/firmware_tool/commands/pipeline.cpp: the window of the decoder, as the buffer of the LZSS
-- encoder has it.
use native.Mathlib.Nat.{add-zero}
use upkit.Prelude.{
  ℕ, zero, suc, ◌+◌, ◌%◌, ◌<◌, ◌≤◌, ◌≡◌, refl, sym, ap, subst, ◌∙◌, List, ◌∷◌, inl, inr, ◌==◌,
  get_or, arith, Bool-cases, slice,
}
use upkit.FirmwareTool.Compress.Match.{Same}
use upkit.Pipeline.Lzss.Tokens.{Window, write, expand_ref}

abbrev pub bytes_at : List ℕ → ℕ → ℕ
bytes_at buffer q = get_or buffer q 0

-- The window holds the bytes from `s` up to `r`.
pub record Trailing (buffer : List ℕ) (s r : ℕ) (w : Window) : Type 0 where
  pub same : (q : ℕ) → s ≤ q → q < r → get_or buffer q 0 ≡ w.at (q % 1024)
  pub here : w.next ≡ r % 1024
  pub size : r ≡ s + 1007

module _ (buffer : List ℕ) where
  pub Trailing-write :
      (s r : ℕ) (w : Window)
      → Trailing buffer s r w
      → Trailing buffer (s + 1) (r + 1) (write (get_or buffer r 0) w)
  Trailing-write s r w h = record {
    same = λ q a b. elim (Bool-cases (q == r)) [
      | inl e ↦ let p : q ≡ r = ground arith in rw p (ground (arith, h.here))
      | inr e ↦ ground (arith, h.here, h.size, h.same q (omega arith))
    ];
    here = omega (arith, h.here);
    size = omega (arith, h.size);
  }

  Same-tail : (x r n : ℕ) → Same buffer x r (suc n) → Same buffer (x + 1) (r + 1) n
  Same-tail x r n h k l =
      let a : x + 1 + k ≡ x + suc k = omega arith in
      let b : r + 1 + k ≡ r + suc k = omega arith in rw (a, b) (h (suc k) (omega arith))

  pub expand_ref_lem :
      (n x p s r : ℕ) (w : Window)
      → s ≤ x
      → x < r
      → p % 1024 ≡ x % 1024
      → Same buffer x r n
      → Trailing buffer s r w
      → let (out, w') = expand_ref n p w in
        (out ≡ slice (bytes_at buffer) r n) × Trailing buffer (s + n) (r + n) w'
  expand_ref_lem zero x p s r w a b e h t = (refl, rw (add-zero s, add-zero r) t)
  expand_ref_lem (suc n) x p s r w a b e h t =
      let c = get_or buffer r 0 in
      let first : get_or buffer x 0 ≡ c =
        rw (sym (add-zero x), sym (add-zero r)) (h 0 (omega arith)) in
      let eq : c ≡ w.at (p % 1024) = sym first ∙ (t.same x a b ∙ ap w.at (sym e)) in
      let (out, tr) =
        expand_ref_lem n (x + 1) (p + 1) (s + 1) (r + 1) (write c w) (omega arith) (omega arith)
          (omega arith) (Same-tail x r n h) (Trailing-write s r w t) in
      let e1 : s + suc n ≡ s + 1 + n = omega arith in
      let e2 : r + suc n ≡ r + 1 + n = omega arith in
      subst
        (λ v.
          let (o, w') = expand_ref n (p + 1) (write v w) in
          (v ∷ o ≡ c ∷ slice (bytes_at buffer) (r + 1) n)
          × Trailing buffer (s + suc n) (r + suc n) w')
        eq (ap (λ o. c ∷ o) out, rw (e1, e2) tr)
