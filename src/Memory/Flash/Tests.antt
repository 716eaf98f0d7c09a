-- ===== src/Memory/Flash/Tests.antt =====
-- A driver that keeps a log of the pages that it has erased.
use upkit.Prelude.{ℕ, ◌≡◌, ◌≢◌, refl, List, [], ◌∷◌, none, pos, replicate, arith}
use upkit.Memory.{MemId, read_only, write_all, sequential_rewrite}
use upkit.Memory.Flash.{FlashDescr, FlashObject, erase_loop, memory_open_impl, memory_write_impl}
use upkit.Memory.Flash.Erase.{Erased, memory_open-Erased, memory_open-ends}

abbrev driver : FlashDescr (List ℕ)
driver = record {
  page_size = 4;
  flash_open = none;
  erase = λ offset size w. (pos 0, offset ∷ w);
  program = λ bytes offset w. (pos 0, w);
  read = λ offset size w. (pos 0, replicate size 255, w);
  flash_close = none;
  rst = none;
}

abbrev objects : MemId → FlashObject (List ℕ)
objects id = record { start = 8; end = 20; fdescr = driver; mode = read_only }

memory_open-Erased_example : Erased driver 8 20 [] (16 ∷ 12 ∷ 8 ∷ [])
unfolding memory_open_impl erase_loop
memory_open-Erased_example =
    memory_open-Erased objects (pos 2) [] (16 ∷ 12 ∷ 8 ∷ []) _ (omega arith) refl

memory_open-ends_example : memory_open_impl objects (pos 2) write_all [] ≢ none
memory_open-ends_example = memory_open-ends objects (pos 2) write_all [] (omega arith) (omega arith)

-- A write at the start of a page erases the page first in the mode SEQUENTIAL_REWRITE only.
rewritten :
    (memory_write_impl (record (objects (pos 2)) { mode = sequential_rewrite }) (1 ∷ []) 4 []
      ≡ (pos 1, 12 ∷ []))
    × (memory_write_impl (objects (pos 2)) (1 ∷ []) 4 [] ≡ (pos 1, []))
unfolding memory_write_impl
rewritten = (refl, refl)
