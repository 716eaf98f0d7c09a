-- ===== src/Prelude/Memcpy.antt =====
-- Copies into an array, and the bytes of a memory that is read as a function of the address.
use Prim.Native.Nat.{ℕ, zero, suc, ◌+◌, ◌≤◌, ◌<◌}
use mathlib.Core.Path.{◌≡◌, refl, sym, ap}
use mathlib.Core.List.{List, [], ◌∷◌, ◌++◌, append_assoc}
use native.Mathlib.Omega.{arith}
use native.Mathlib.Nat.{add-zero}
use upkit.Prelude.Tests.{if◌then◌else◌, ◌==◌}
use upkit.Prelude.Lists.{
  length, take, drop, length-append, length-take, length-drop, take-append_left,
}

-- `memcpy(buffer + at, bytes, length bytes)`
abbrev pub memcpy : List ℕ → ℕ → List ℕ → List ℕ
memcpy buffer at bytes = take at buffer ++ (bytes ++ drop (at + length bytes) buffer)

pub length-memcpy :
    (xs : List ℕ) (u : ℕ) (ys : List ℕ)
    → u + length ys ≤ length xs
    → length (memcpy xs u ys) ≡ length xs
length-memcpy xs u ys h = omega (
  arith,
  length-append (take u xs) (ys ++ drop (u + length ys) xs),
  length-append ys (drop (u + length ys) xs),
  length-take u xs,
  length-drop (u + length ys) xs,
)

-- After a copy at the end of what is in use, the bytes in use go on with the copied ones.
pub take-memcpy :
    (xs : List ℕ) (u : ℕ) (ys : List ℕ)
    → u + length ys ≤ length xs
    → take (u + length ys) (memcpy xs u ys) ≡ take u xs ++ ys
take-memcpy xs u ys h = rw (sym (append_assoc (take u xs) ys (drop (u + length ys) xs))) (
    take-append_left (u + length ys) (take u xs ++ ys) (drop (u + length ys) xs)
      (omega (arith, length-append (take u xs) ys, length-take u xs)))

-- `n` bytes from address `p` on.
abbrev pub slice : (ℕ → ℕ) → ℕ → ℕ → List ℕ
slice f p zero = []
slice f p (suc n) = f p ∷ slice f (p + 1) n

pub length-slice : (f : ℕ → ℕ) (p n : ℕ) → length (slice f p n) ≡ n
length-slice f p zero = refl
length-slice f p (suc n) = ap suc (length-slice f (p + 1) n)

-- The memory after the bytes have been written at `p`.
abbrev pub overlay : (ℕ → ℕ) → ℕ → List ℕ → ℕ → ℕ
overlay f p [] = f
overlay f p (x ∷ xs) = λ q. if p == q then x else overlay f (p + 1) xs q

pub overlay-before : (f : ℕ → ℕ) (p : ℕ) (xs : List ℕ) (q : ℕ) → q < p → overlay f p xs q ≡ f q
overlay-before f p [] q h = refl
overlay-before f p (x ∷ xs) q h = ground (arith, overlay-before f (p + 1) xs q)

pub overlay-behind :
    (f : ℕ → ℕ) (p : ℕ) (xs : List ℕ) (q : ℕ) → p + length xs ≤ q → overlay f p xs q ≡ f q
overlay-behind f p [] q h = refl
overlay-behind f p (x ∷ xs) q h = ground (arith, overlay-behind f (p + 1) xs q)

-- Where a slice of `g` has been written, shifted from `i` to `p`, there is what `g` has.
pub overlay-slice :
    (f g : ℕ → ℕ) (p i n k : ℕ) → k < n → overlay f p (slice g i n) (p + k) ≡ g (i + k)
overlay-slice f g p i zero k h = absurd (omega arith)
overlay-slice f g p i (suc n) zero h = ground (arith, add-zero p, add-zero i)
overlay-slice f g p i (suc n) (suc k) h =
    let here : p + suc k ≡ p + 1 + k = omega arith in
    let there : i + suc k ≡ i + 1 + k = omega arith in
    rw (here, there) (ground (arith, overlay-slice f g (p + 1) (i + 1) n k))

pub slice-append :
    (f : ℕ → ℕ) (p n m k : ℕ) → k ≡ n + m → slice f p k ≡ slice f p n ++ slice f (p + n) m
slice-append f p zero m k h = let e : k ≡ m = omega arith in rw (e, add-zero)
slice-append f p (suc n) m zero h = absurd (omega arith)
slice-append f p (suc n) m (suc k) h =
    let e : p + suc n ≡ p + 1 + n = omega arith in
    rw e (ap (λ t. f p ∷ t) (slice-append f (p + 1) n m k (omega arith)))
