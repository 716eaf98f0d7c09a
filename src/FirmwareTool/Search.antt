-- ===== src/FirmwareTool/Search.antt =====
-- utils/firmware_tool/commands/pipeline.cpp: the search for the longest match in the sorted suffixes of the old
-- file (bsdiff).
use upkit.Prelude.{
  ℕ, zero, suc, ◌+◌, ◌-◌, ◌/◌, Bool, false, not, List, [], ◌∷◌, if◌then◌else◌, ltb, ◌==◌, drop,
}

-- The loop compares the two strings from their starts.
unfoldable pub matchlen : List ℕ → List ℕ → ℕ
matchlen [] new = 0
matchlen (x ∷ xs) [] = 0
matchlen (x ∷ xs) (y ∷ ys) = let rest = matchlen xs ys in if not (x == y) then 0 else rest + 1

-- `memcmp(old, new, MIN(…)) < 0`, on what is left of both.
unfoldable pub memcmp_lt : List ℕ → List ℕ → Bool
memcmp_lt [] new = false
memcmp_lt (x ∷ xs) [] = false
memcmp_lt (x ∷ xs) (y ∷ ys) = let rest = memcmp_lt xs ys in if x == y then rest else ltb x y

-- `I` is the array once the sort is done: in each place there is an index.
module _ (I : ℕ → ℕ) (old : List ℕ) where
  -- `if (en - st < 2)`: the length of the match, and `*pos`.
  unfoldable pub closer : List ℕ → ℕ → ℕ → ℕ × ℕ
  unfolding matchlen
  closer new st en =
      let x = matchlen (drop (I st) old) new in
      let y = matchlen (drop (I en) old) new in if ltb y x then (x, I st) else (y, I en)

  -- On fuel: `en - st` is enough, since a range of less than two entries is not halved.
  unfoldable pub search : ℕ → List ℕ → ℕ → ℕ → ℕ × ℕ
  unfolding closer memcmp_lt
  search zero new st en = closer new st en
  search (suc fuel) new st en =
      let x = st + (en - st) / 2 in
      let above = search fuel new x en in
      let below = search fuel new st x in
      if ltb (en - st) 2
      then closer new st en
      else (if memcmp_lt (drop (I x) old) new then above else below)
