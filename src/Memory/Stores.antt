-- ===== src/Memory/Stores.antt =====
-- What the library relies on in a platform's memory functions: each object holds bytes at offsets, a
-- read that succeeds returns them and a write that succeeds stores them (memory_interface.h).
use upkit.Prelude.{
  ℕ, ◌+◌, ◌<◌, ◌≤◌, ◌≡◌, refl, sym, ap, ◌∙◌, Bool, true, List, ℤ, pos, negsuc, length, take, drop,
  slice, overlay, memcpy, int_to_u16, arith, length-slice, length-memcpy, take-append_left,
  overlay-slice, overlay-before, overlay-behind,
}
use upkit.Memory.{MemoryImpl, memory_read, memory_write}

pub record Stores {O W : Type 0} (mem : MemoryImpl O W) : Type 0 where
  pub at : O → W → ℕ → ℕ
  -- Two objects that share no byte.
  pub apart : O → O → Bool
  pub read_bytes :
      (o : O) (size offset : ℕ) (w : W) (k : ℕ)
      → (mem.read_impl o size offset w).0 ≡ pos k
      → ((mem.read_impl o size offset w).1 ≡ slice (at o w) offset k) × (k ≤ size)
  pub read_error :
      (o : O) (size offset : ℕ) (w : W) (k : ℕ)
      → (mem.read_impl o size offset w).0 ≡ negsuc k
      → k < 32768
  pub read_same :
      (o o' : O) (size offset : ℕ) (w : W) (p : ℕ)
      → at o' (mem.read_impl o size offset w).2 p ≡ at o' w p
  pub write_bytes :
      (o : O) (bytes : List ℕ) (offset : ℕ) (w : W) (p : ℕ)
      → (mem.write_impl o bytes offset w).0 ≡ pos (length bytes)
      → at o (mem.write_impl o bytes offset w).1 p ≡ overlay (at o w) offset bytes p
  pub write_error :
      (o : O) (bytes : List ℕ) (offset : ℕ) (w : W) (k : ℕ)
      → (mem.write_impl o bytes offset w).0 ≡ negsuc k
      → k < 32768
  pub write_count :
      (o : O) (bytes : List ℕ) (offset : ℕ) (w : W) (k : ℕ)
      → (mem.write_impl o bytes offset w).0 ≡ pos k
      → k ≤ length bytes
  pub write_apart :
      (o o' : O) (bytes : List ℕ) (offset : ℕ) (w : W) (p : ℕ)
      → apart o o' ≡ true
      → at o' (mem.write_impl o bytes offset w).1 p ≡ at o' w p

-- The conversion to `uint16_t` keeps a small count, and takes an error to a large number.
u16_small :
    (r : ℤ) (n m : ℕ)
    → int_to_u16 r ≡ n
    → n < 32768
    → ((k : ℕ) → r ≡ pos k → k ≤ m)
    → ((k : ℕ) → r ≡ negsuc k → k < 32768)
    → m < 32768
    → r ≡ pos n
u16_small (pos k) n m e h c f b = ap pos (omega (arith, c k refl))
u16_small (negsuc k) n m e h c f b = absurd (omega (arith, f k refl))

module _ {O W : Type 0} (mem : MemoryImpl O W) (st : Stores mem) where
  -- A count of `memory_read` that is no error code: so many bytes have been read.
  pub memory_read_lem :
      (o : O) (size offset : ℕ) (w : W)
      → size < 32768
      → (memory_read mem o size offset w).0 < 32768
      → let (n, bytes, w') = memory_read mem o size offset w in
        (bytes ≡ slice (st.at o w) offset n) × (n ≤ size)
  unfolding memory_read
  memory_read_lem o size offset w b h = st.read_bytes o size offset w _ (
      u16_small (mem.read_impl o size offset w).0 _ size refl h
        (λ k e. (st.read_bytes o size offset w k e).1) (st.read_error o size offset w) b)

  pub memory_read_same :
      (o o' : O) (size offset : ℕ) (w : W) (p : ℕ)
      → st.at o' (memory_read mem o size offset w).2 p ≡ st.at o' w p
  unfolding memory_read
  memory_read_same o o' size offset w p = st.read_same o o' size offset w p

  -- A `memory_write` that returns the number of the bytes has written them.
  pub memory_write_lem :
      (o : O) (bytes : List ℕ) (offset : ℕ) (w : W) (p : ℕ)
      → length bytes < 32768
      → (memory_write mem o bytes offset w).0 ≡ length bytes
      → st.at o (memory_write mem o bytes offset w).1 p ≡ overlay (st.at o w) offset bytes p
  unfolding memory_write
  memory_write_lem o bytes offset w p b h = st.write_bytes o bytes offset w p (
      u16_small (mem.write_impl o bytes offset w).0 _ (length bytes) h b
        (st.write_count o bytes offset w) (st.write_error o bytes offset w) b)

  pub memory_write_apart :
      (o o' : O) (bytes : List ℕ) (offset : ℕ) (w : W) (p : ℕ)
      → st.apart o o' ≡ true
      → st.at o' (memory_write mem o bytes offset w).1 p ≡ st.at o' w p
  unfolding memory_write
  memory_write_apart o o' bytes offset w p h = st.write_apart o o' bytes offset w p h

-- The bytes that a read puts into the buffer are those that go out of it.
pub take-memcpy-slice :
    (buffer : List ℕ) (f : ℕ → ℕ) (p n : ℕ) → take n (memcpy buffer 0 (slice f p n)) ≡ slice f p n
take-memcpy-slice buffer f p n =
    take-append_left n (slice f p n) (drop (0 + length (slice f p n)) buffer)
      (sym (length-slice f p n))

module _ {O W : Type 0} (mem : MemoryImpl O W) (st : Stores mem) where
  -- `n` bytes have gone from offset `i` of `src` to offset `p` of `dst`, and nothing else has changed.
  pub record Moved (src dst : O) (i p n : ℕ) (w w' : W) : Type 0 where
    pub moved : (k : ℕ) → k < n → st.at dst w' (p + k) ≡ st.at src w (i + k)
    pub before : (q : ℕ) → q < p → st.at dst w' q ≡ st.at dst w q
    pub behind : (q : ℕ) → p + n ≤ q → st.at dst w' q ≡ st.at dst w q
    pub others : (o : O) (q : ℕ) → st.apart dst o ≡ true → st.at o w' q ≡ st.at o w q

  write_slice :
      (src dst : O) (i p n : ℕ) (out : List ℕ) (w w1 : W)
      → out ≡ slice (st.at src w) i n
      → ((o : O) (q : ℕ) → st.at o w1 q ≡ st.at o w q)
      → length out < 32768
      → (memory_write mem dst out p w1).0 ≡ n
      → Moved src dst i p n w (memory_write mem dst out p w1).1
  write_slice src dst i p n out w w1 e same small full =
      let len : length out ≡ n = ap length e ∙ length-slice (st.at src w) i n in
      let put = λ (q : ℕ). memory_write_lem mem st dst out p w1 q small (full ∙ sym len) in
      record {
        moved = λ k h.
            put (p + k)
            ∙ (ap (λ t. overlay (st.at dst w1) p t (p + k)) e
                ∙ overlay-slice (st.at dst w1) (st.at src w) p i n k h);
        before = λ q h. put q ∙ (overlay-before (st.at dst w1) p out q h ∙ same dst q);
        behind = λ q h. put q ∙ (overlay-behind (st.at dst w1) p out q (omega arith) ∙ same dst q);
        others = λ o q h. memory_write_apart mem st dst o out p w1 q h ∙ same o q;
      }

  -- A read through a buffer and the write of the bytes that it returned, as all copies of the library
  -- are made.
  pub move_lem :
      (src dst : O) (step i p : ℕ) (buffer : List ℕ) (w : W)
      → let (n, bytes, w1) = memory_read mem src step i w in
        let buffer1 = memcpy buffer 0 bytes in
        let (m, w2) = memory_write mem dst (take n buffer1) p w1 in
        step ≤ length buffer
        → length buffer < 32768
        → n ≤ length buffer
        → m ≡ n
        → Moved src dst i p n w w2 × (length buffer1 ≡ length buffer) × (n ≤ step)
  move_lem src dst step i p buffer w fits small fit full =
      let n = (memory_read mem src step i w).0 in
      let bytes = (memory_read mem src step i w).1 in
      let got = memory_read_lem mem st src step i w (omega arith) (omega arith) in
      let out : take n (memcpy buffer 0 bytes) ≡ slice (st.at src w) i n =
        ap (λ t. take n (memcpy buffer 0 t)) got.0 ∙ take-memcpy-slice buffer (st.at src w) i n in
      let len : length bytes ≡ n = ap length got.0 ∙ length-slice (st.at src w) i n in
      (
        write_slice src dst i p n (take n (memcpy buffer 0 bytes)) w _ out
            (λ o q. memory_read_same mem st src o step i w q)
            (omega (arith, ap length out, length-slice (st.at src w) i n)) full,
        length-memcpy buffer 0 bytes (omega arith),
        got.1,
      )
