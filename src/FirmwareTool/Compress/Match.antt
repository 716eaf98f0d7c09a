-- ===== src/FirmwareTool/Compress/Match.antt =====
-- utils/firmware_tool/commands/pipeline.cpp: what the search of the LZSS encoder finds.
use native.Mathlib.Nat.{add-zero}
use upkit.Prelude.{
  ℕ, zero, suc, ◌+◌, ◌-◌, ◌<◌, ◌≤◌, ◌≡◌, refl, sym, subst, Bool, true, false, ◌&&◌, List, ◌⊎◌, inl,
  inr, if◌then◌else◌, ltb, leb, not, ◌==◌, get_or, arith, Bool-cases,
}
use upkit.FirmwareTool.Compress.{match_length, same_char, find_match}

first_of : (a b c : Bool) → ((a && b) && c) ≡ true → a ≡ true
first_of true b c h = refl
first_of false b c h = h

-- The `n` bytes from `i` on are those from `r` on.
abbrev pub Same : List ℕ → ℕ → ℕ → ℕ → Type 0
Same buffer i r n = (k : ℕ) → k < n → get_or buffer (i + k) 0 ≡ get_or buffer (r + k) 0

abbrev pub Matched : List ℕ → ℕ → ℕ → ℕ → ℕ → Type 0
Matched buffer i r m n = (n ≤ m) × Same buffer i r n

-- No match, or one that starts behind `s` and before `r`.
abbrev pub Found : List ℕ → ℕ → ℕ → ℕ → ℕ → ℕ → Type 0
Found buffer s r m x y = (y ≤ 1) ⊎ ((s ≤ x) × (x < r) × Matched buffer x r m y)

module _ (buffer : List ℕ) (r : ℕ) where
  Same-suc :
      (i j : ℕ)
      → Same buffer i r j
      → (get_or buffer (i + j) 0 == get_or buffer (r + j) 0) ≡ true
      → Same buffer i r (j + 1)
  Same-suc i j h e k l = elim (Bool-cases (k == j)) [
    | inl p ↦ let q : k ≡ j = ground arith in rw q (ground arith)
    | inr p ↦ h k (ground arith)
  ]

  match_length_lem :
      (n i j : ℕ) → Same buffer i r j → Matched buffer i r (j + n) (match_length n buffer i r j)
  unfolding match_length
  match_length_lem zero i j h = (omega arith, h)
  match_length_lem (suc n) i j h =
      let rest = match_length n buffer i r (j + 1) in
      elim (Bool-cases (get_or buffer (i + j) 0 == get_or buffer (r + j) 0)) [
        | inl e ↦
            let (a, b) = match_length_lem n i (j + 1) (Same-suc i j h e) in
            subst (λ t. Matched buffer i r (j + suc n) (if t then rest else j)) (sym e)
              (omega (arith, a), b)
        | inr e ↦
            subst (λ t. Matched buffer i r (j + suc n) (if t then rest else j)) (sym e)
              (omega arith, h)
      ]

  same_char_lem :
      (signed_char better : Bool) (i : ℕ)
      → (same_char signed_char (get_or buffer i 0) (get_or buffer r 0) && better) ≡ true
      → Same buffer i r 1
  unfolding same_char
  same_char_lem signed_char better i h zero l =
      let e : get_or buffer i 0 ≡ get_or buffer r 0 = ground (
        arith,
        first_of (get_or buffer i 0 == get_or buffer r 0)
            (not (signed_char && leb 128 (get_or buffer r 0))) better h,
      ) in
      rw (add-zero i, add-zero r, e) refl
  same_char_lem signed_char better i h (suc k) l = absurd (omega arith)

  pub find_match_lem :
      (signed_char : Bool) (k s f1 x y : ℕ)
      → s + k ≤ r
      → 1 ≤ f1
      → Found buffer s r f1 x y
      → let (x', y') = find_match signed_char k buffer s r f1 x y in Found buffer s r f1 x' y'
  unfolding find_match
  find_match_lem signed_char zero s f1 x y h l f = f
  find_match_lem signed_char (suc k) s f1 x y h l f =
      let j = match_length (f1 - 1) buffer (s + k) r 1 in
      let better = same_char signed_char (get_or buffer (s + k) 0) (get_or buffer r 0) && ltb y j in
      elim (Bool-cases better) [
        | inl e ↦
            let (a, b) =
              match_length_lem (f1 - 1) (s + k) 1 (same_char_lem signed_char (ltb y j) (s + k) e) in
            subst
              (λ t.
                let (x', y') =
                  find_match signed_char k buffer s r f1 (if t then s + k else x)
                    (if t then j else y) in
                Found buffer s r f1 x' y')
              (sym e)
              (find_match_lem signed_char k s f1 (s + k) j (omega arith) l
                (inr (omega arith, omega arith, (omega (arith, a), b))))
        | inr e ↦
            subst
              (λ t.
                let (x', y') =
                  find_match signed_char k buffer s r f1 (if t then s + k else x)
                    (if t then j else y) in
                Found buffer s r f1 x' y')
              (sym e) (find_match_lem signed_char k s f1 x y (omega arith) l f)
      ]
