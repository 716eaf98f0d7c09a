-- ===== src/Pipeline.antt =====
-- include/libpull/pipeline/pipeline.h: a stage of the pipeline that a downloaded image goes through.
pub mod Buffer
pub mod Lzss
pub mod Bspatch
pub mod Writer
use upkit.Prelude.{ℕ, List, [], ◌∷◌, ◌++◌, ◌≡◌, refl, ap, ℤ}

-- `pipeline_stage_t` with its context: the bytes handed over, and the state before and after. A
-- negative result is an error.
abbrev pub Stage : Type 0 → Type 0
Stage S = List ℕ → S → ℤ × S

module _ {S : Type 0} where
  -- What a stage's state becomes when it is handed the blocks one by one, its results ignored.
  abbrev pub feed : Stage S → List (List ℕ) → S → S
  feed next [] s = s
  feed next (b ∷ bs) s = feed next bs (next b s).1

  pub feed-append :
      (next : Stage S) (bs cs : List (List ℕ)) (s : S)
      → feed next (bs ++ cs) s ≡ feed next cs (feed next bs s)
  feed-append next [] cs s = refl
  feed-append next (b ∷ bs) cs s = feed-append next bs cs (next b s).1

abbrev pub concat : List (List ℕ) → List ℕ
concat [] = []
concat (b ∷ bs) = b ++ concat bs

-- The bytes, in blocks of one.
abbrev pub singles : List ℕ → List (List ℕ)
singles [] = []
singles (x ∷ xs) = (x ∷ []) ∷ singles xs

pub singles-append : (xs ys : List ℕ) → singles (xs ++ ys) ≡ singles xs ++ singles ys
singles-append [] ys = refl
singles-append (x ∷ xs) ys = ap (λ t. (x ∷ []) ∷ t) (singles-append xs ys)
