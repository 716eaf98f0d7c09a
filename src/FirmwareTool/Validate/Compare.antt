-- ===== src/FirmwareTool/Validate/Compare.antt =====
-- utils/firmware_tool/commands/manifest.cpp: what its calls of `memcmp` and its reads of the keys give.
use upkit.Prelude.{
  ℕ, zero, suc, ◌+◌, ◌<◌, ◌≡◌, ◌↔◌, refl, sym, ap, ◌∙◌, true, false, List, [], ◌∷◌, if◌then◌else◌,
  ==_iff, length, get_or, take, take_all, memcpy, length-memcpy, take-memcpy, arith,
}
use native.Mathlib.Decide.{dec_lt}
use upkit.Security.Verifier.{same_digest}

-- The first `n` bytes agree.
abbrev pub Agree : ℕ → List ℕ → List ℕ → Type 0
Agree n xs ys = (i : ℕ) → i < n → get_or xs i 0 ≡ get_or ys i 0

sound : (n : ℕ) (xs ys : List ℕ) → same_digest n xs ys ≡ true → Agree n xs ys
sound zero xs ys h i l = absurd (omega arith)
sound (suc n) xs ys h i l = elim (dec_lt i n) [
  | yes k ↦ sound n xs ys (ground arith) i k
  | no k ↦ let e : i ≡ n = omega arith in rw e (ground arith)
]

complete : (n : ℕ) (xs ys : List ℕ) → Agree n xs ys → same_digest n xs ys ≡ true
complete zero xs ys h = refl
complete (suc n) xs ys h =
    let rest = complete n xs ys (λ i l. h i (omega arith)) in
    ap (λ b. if b then same_digest n xs ys else false)
      ((==_iff (get_or xs n 0) (get_or ys n 0)).1 (h n (omega arith)))
    ∙ rest

pub same_digest_iff : (n : ℕ) (xs ys : List ℕ) → (same_digest n xs ys ≡ true) ↔ Agree n xs ys
same_digest_iff n xs ys = (sound n xs ys, complete n xs ys)

get_or-take : (n : ℕ) (ys : List ℕ) (i : ℕ) → i < n → get_or (take n ys) i 0 ≡ get_or ys i 0
get_or-take zero ys i l = absurd (omega arith)
get_or-take (suc n) [] i l = refl
get_or-take (suc n) (y ∷ ys) zero l = refl
get_or-take (suc n) (y ∷ ys) (suc i) l = get_or-take n ys i (omega arith)

pub same_digest-take :
    (n : ℕ) (xs ys : List ℕ) → (same_digest n xs ys ≡ true) ↔ Agree n xs (take n ys)
same_digest-take n xs ys = (
  λ h i l. sound n xs ys h i l ∙ sym (get_or-take n ys i l),
  λ h. complete n xs ys (λ i l. h i l ∙ get_or-take n ys i l),
)

-- A file that has the size of the buffer it is read to fills it.
pub memcpy_all :
    (n : ℕ) (xs ys : List ℕ) → length xs ≡ n → length ys ≡ n → memcpy xs 0 (take n ys) ≡ ys
memcpy_all n xs ys a b =
    let whole : take n ys ≡ ys = take_all n ys (omega arith) in
    let copied : length (memcpy xs 0 ys) ≡ length xs = length-memcpy xs 0 ys (omega arith) in
    ap (memcpy xs 0) whole
    ∙ (sym (take_all (0 + length ys) (memcpy xs 0 ys) (omega arith))
        ∙ take-memcpy xs 0 ys (omega arith))
