-- ===== src/Memory/Flash/Erase.antt =====
-- What `memory_open` with WRITE_ALL leaves erased.
use upkit.Prelude.{
  ℕ, zero, suc, ◌+◌, ◌-◌, ◌<◌, ◌≤◌, ◌≡◌, ◌≢◌, ◌⊎◌, inl, inr, refl, false, Option, none, some, u32,
  arith, subst,
}
use upkit.Errors.{PullError, pull_success}
use upkit.Memory.{MemId, MemMode, write_all}
use upkit.Memory.Flash.{
  FlashDescr, FlashObject, call, reset, opened, is_nonzero, erase_loop, memory_open_impl,
}

-- From an offset on, each page up to the end has been erased by a call that returned 0, one after the
-- other.
pub data Erased {W : Type 0} (fd : FlashDescr W) : ℕ → ℕ → W → W → Type 0 where
  done : {offset end : ℕ} {w : W} → end ≤ offset → Erased fd offset end w w
  page :
      {offset end : ℕ} {w w' : W}
      → offset < end
      → is_nonzero (fd.erase offset fd.page_size (reset fd.rst w)).0 ≡ false
      → Erased fd (offset + fd.page_size) end (fd.erase offset fd.page_size (reset fd.rst w)).1 w'
      → Erased fd offset end w w'

module _ {W : Type 0} (fd : FlashDescr W) where
  erase_loop-round :
      (fuel offset end : ℕ) (w w' : W)
      → erase_loop (suc fuel) fd offset end w ≡ some (pull_success, w')
      → offset < end
      → (is_nonzero (fd.erase offset fd.page_size (reset fd.rst w)).0 ≡ false)
        × (erase_loop fuel fd
              (u32 (offset + fd.page_size))
              end
              (fd.erase offset fd.page_size (reset fd.rst w)).1
            ≡ some (pull_success, w'))
  unfolding erase_loop
  erase_loop-round fuel offset end w w' h l = ground arith

  erase_loop-end :
      (fuel offset end : ℕ) (w w' : W)
      → erase_loop (suc fuel) fd offset end w ≡ some (pull_success, w')
      → end ≤ offset
      → w ≡ w'
  unfolding erase_loop
  erase_loop-end fuel offset end w w' h l = ground arith

  erase_loop-none :
      (fuel offset end : ℕ) (w : W)
      → erase_loop (suc fuel) fd offset end w ≡ none
      → (offset < end)
        × (erase_loop fuel fd
              (u32 (offset + fd.page_size))
              end
              (fd.erase offset fd.page_size (reset fd.rst w)).1
            ≡ none)
  unfolding erase_loop
  erase_loop-none fuel offset end w h = ground arith

  order : (m n : ℕ) → (m < n) ⊎ (n ≤ m)
  order m n = ground arith

  erase_loop-Erased :
      (fuel offset end : ℕ) (w w' : W)
      → end + fd.page_size < 4294967296
      → erase_loop fuel fd offset end w ≡ some (pull_success, w')
      → Erased fd offset end w w'
  unfolding erase_loop
  erase_loop-Erased zero offset end w w' room h = cc
  erase_loop-Erased (suc fuel) offset end w w' room h = elim (order offset end) [
    | inl l ↦
        let (fine, rest) = erase_loop-round fuel offset end w w' h l in
        let no_wrap : u32 (offset + fd.page_size) ≡ offset + fd.page_size = omega arith in
        page l fine (
          subst (λ o. Erased fd o end (fd.erase offset fd.page_size (reset fd.rst w)).1 w') no_wrap
            (erase_loop-Erased fuel _ end _ w' room rest))
    | inr l ↦ subst (Erased fd offset end w) (erase_loop-end fuel offset end w w' h l) (done l)
  ]

  erase_loop-ends :
      (fuel offset end : ℕ) (w : W)
      → 0 < fd.page_size
      → end + fd.page_size < 4294967296
      → end - offset < fuel
      → erase_loop fuel fd offset end w ≢ none
  erase_loop-ends zero offset end w p room f h = omega arith
  erase_loop-ends (suc fuel) offset end w p room f h =
      let (l, rest) = erase_loop-none fuel offset end w h in
      erase_loop-ends fuel _ end _ p room (omega arith) rest

module _ {W : Type 0} (flash_objects : MemId → FlashObject W) where
  opened-success :
      (o o' : FlashObject W) (v : Option (PullError × W)) (w' : W)
      → opened o v ≡ some (pull_success, o', w')
      → (o ≡ o') × (v ≡ some (pull_success, w'))
  opened-success o o' none w' h = cc
  opened-success o o' (some (err, w)) w' h = ground arith

  open-success :
      (id : MemId) (w w' : W) (o : FlashObject W)
      → memory_open_impl flash_objects id write_all w ≡ some (pull_success, o, w')
      → let o1 : FlashObject W = record (flash_objects id) { mode = write_all } in
        opened o1 (
          erase_loop
            (suc (o1.end - o1.start))
            o1.fdescr
            o1.start
            o1.end
            (call o1.fdescr.flash_open w).1)
        ≡ some (pull_success, o, w')
  unfolding memory_open_impl
  open-success id w w' o h = ground arith

  -- If an object is opened with WRITE_ALL and this succeeds, then every page from the start of the object
  -- to its end has been erased, one after the other, by a call of the driver that returned 0, on the
  -- device as the driver's open function left it. The end is at least a page below 2^32.
  pub memory_open-Erased :
      (id : MemId) (w w' : W) (o : FlashObject W)
      → let s = flash_objects id in
        s.end + s.fdescr.page_size < 4294967296
        → memory_open_impl flash_objects id write_all w ≡ some (pull_success, o, w')
        → Erased s.fdescr s.start s.end (call s.fdescr.flash_open w).1 w'
  memory_open-Erased id w w' o room h =
      let s = flash_objects id in
      erase_loop-Erased s.fdescr _ s.start s.end _ w' room
        (opened-success _ o _ w' (open-success id w w' o h)).1

  opened-none : (o : FlashObject W) (v : Option (PullError × W)) → opened o v ≡ none → v ≡ none
  opened-none o none h = refl
  opened-none o (some (err, w)) h = cc

  open-none :
      (id : MemId) (mode : MemMode) (w : W)
      → memory_open_impl flash_objects id mode w ≡ none
      → let o1 : FlashObject W = record (flash_objects id) { mode = mode } in
        opened o1 (
          erase_loop
            (suc (o1.end - o1.start))
            o1.fdescr
            o1.start
            o1.end
            (call o1.fdescr.flash_open w).1)
        ≡ none
  unfolding memory_open_impl
  open-none id mode w h = ground arith

  -- Opening an object ends, in every mode, if a page has at least one byte and the end of the object is
  -- at least a page below 2^32.
  pub memory_open-ends :
      (id : MemId) (mode : MemMode) (w : W)
      → let s = flash_objects id in
        0 < s.fdescr.page_size
        → s.end + s.fdescr.page_size < 4294967296
        → memory_open_impl flash_objects id mode w ≢ none
  memory_open-ends id mode w p room h =
      let s = flash_objects id in
      erase_loop-ends s.fdescr (suc (s.end - s.start)) s.start s.end _ p room (omega arith)
        (opened-none _ _ (open-none id mode w h))
