-- ===== src/Memory/Objects/Copy.antt =====
-- `copy_firmware`: a success means that the whole image is in the destination.
use upkit.Prelude.{
  ℕ, zero, suc, ◌+◌, ◌-◌, ◌<◌, ◌≤◌, ◌≡◌, ◌≢◌, ◌⊎◌, inl, inr, ◌∙◌, true, List, none, some, length,
  take, memcpy, arith, subst, u32, ltb, if◌then◌else◌,
}
use native.Mathlib.Decide.{dec_lt}
use upkit.Errors.{PullError, pull_success}
use upkit.Memory.{MemoryImpl, memory_read, memory_write}
use upkit.Memory.Manifest.{Layout}
use upkit.Memory.Stores.{Stores, Moved, move_lem, memory_read_lem, memory_read_same}
use upkit.Memory.Objects.{read_firmware_manifest, int_size, copy_loop, copy_firmware}

clip-le :
    (size offset n step : ℕ)
    → (if ltb size (offset + n + step) then size - (offset + n) else step) ≤ step
clip-le size offset n step = ground arith

module _ {O W : Type 0} (mem : MemoryImpl O W) (layout : Layout) where
  -- A round of the loop from which it goes on, or its end.
  copy_loop_cases :
      (fuel : ℕ) (src dst : O) (size offset step readed : ℕ) (buffer : List ℕ) (w w' : W)
      (buffer' : List ℕ)
      → copy_loop mem layout (suc fuel) src dst size offset step readed buffer w
        ≡ some (pull_success, buffer', w')
      → let (n, bytes, w1) = memory_read mem src step offset w in
        let buffer1 = memcpy buffer 0 bytes in
        let (m, w2) = memory_write mem dst (take n buffer1) offset w1 in
        ((size ≤ offset) × (w' ≡ w))
        ⊎ ((n ≤ length buffer)
            × (m ≡ n)
            × (copy_loop mem layout fuel src dst size
                  (offset + n)
                  (if ltb size (offset + n + step) then size - (offset + n) else step)
                  n
                  buffer1
                  w2
                ≡ some (pull_success, buffer', w')))
  unfolding copy_loop
  copy_loop_cases fuel src dst size offset step readed buffer w w' buffer' h = ground arith

  copy_loop-zero :
      (src dst : O) (size offset step readed : ℕ) (buffer : List ℕ) (w : W)
      (r : PullError × List ℕ × W)
      → copy_loop mem layout zero src dst size offset step readed buffer w ≢ some r
  unfolding copy_loop
  copy_loop-zero size offset step readed buffer w r h = cc

  copy_firmware-success :
      (src dst : O) (buffer : List ℕ) (w : W) (r : List ℕ × W)
      → copy_firmware mem layout src dst buffer w ≡ some (pull_success, r.0, r.1)
      → let (err, mt, w1) = read_firmware_manifest mem layout src w in
        let size = int_size (u32 (mt.vendor.size + mt.vendor.offset)) in
        copy_loop mem layout (suc size) src dst size 0 (length buffer) 0 buffer w1
        ≡ some (pull_success, r.0, r.1)
  unfolding copy_firmware
  copy_firmware-success src dst buffer w r h = ground arith

  copy_firmware-none :
      (src dst : O) (buffer : List ℕ) (w : W)
      → copy_firmware mem layout src dst buffer w ≡ none
      → let (err, mt, w1) = read_firmware_manifest mem layout src w in
        let size = int_size (u32 (mt.vendor.size + mt.vendor.offset)) in
        copy_loop mem layout (suc size) src dst size 0 (length buffer) 0 buffer w1 ≡ none
  unfolding copy_firmware
  copy_firmware-none src dst buffer w h = ground arith

  -- A round in which the read is no error does not run out of the buffer: the loop ends in it, or
  -- goes on closer to the end.
  copy_loop_goes :
      (fuel : ℕ) (src dst : O) (size offset step readed : ℕ) (buffer : List ℕ) (w : W)
      → let (n, bytes, w1) = memory_read mem src step offset w in
        let buffer1 = memcpy buffer 0 bytes in
        let (m, w2) = memory_write mem dst (take n buffer1) offset w1 in
        n ≤ length buffer
        → copy_loop mem layout (suc fuel) src dst size offset step readed buffer w ≡ none
        → (offset < size)
          × (0 < n)
          × (m ≡ n)
          × (copy_loop mem layout fuel src dst size
                (offset + n)
                (if ltb size (offset + n + step) then size - (offset + n) else step)
                n
                buffer1
                w2
              ≡ none)
  unfolding copy_loop
  copy_loop_goes fuel src dst size offset step readed buffer w fit h = ground arith

  module _ (st : Stores mem) (src dst : O) (w0 : W) where
    -- So far the destination has the bytes of the source, which has not changed.
    record Copied (offset step : ℕ) (buffer : List ℕ) (w : W) : Type 0 where
      kept : (p : ℕ) → st.at src w p ≡ st.at src w0 p
      copied : (p : ℕ) → p < offset → st.at dst w p ≡ st.at src w0 p
      fits : step ≤ length buffer
      small : length buffer < 32768

    module _ (others : st.apart dst src ≡ true) where
      extend :
          (offset n step : ℕ) (buffer buffer' : List ℕ) (w w' : W) (step' : ℕ)
          → Copied offset step buffer w
          → Moved mem st src dst offset offset n w w'
          → length buffer' ≡ length buffer
          → step' ≤ step
          → Copied (offset + n) step' buffer' w'
      extend offset n step buffer buffer' w w' step' c m e less = record {
        kept = λ p. m.others src p others ∙ c.kept p;
        copied = λ p h. elim (dec_lt p offset) [
          | yes l ↦ m.before p l ∙ c.copied p l
          | no l ↦
              let k : ℕ = p - offset in
              let eq : offset + k ≡ p = omega arith in
              subst (λ t. st.at dst w' t ≡ st.at src w0 t) eq
                (m.moved k (omega arith) ∙ c.kept (offset + k))
        ];
        fits = omega (arith, c.fits);
        small = omega (arith, c.small);
      }

      copy_loop_lem :
          (fuel size offset step readed : ℕ) (buffer : List ℕ) (w w' : W) (buffer' : List ℕ)
          → Copied offset step buffer w
          → copy_loop mem layout fuel src dst size offset step readed buffer w
            ≡ some (pull_success, buffer', w')
          → (p : ℕ) → p < size
          → st.at dst w' p ≡ st.at src w0 p
      copy_loop_lem zero size offset step readed buffer w w' buffer' c h p l =
          absurd (copy_loop-zero src dst size offset step readed buffer w _ h)
      copy_loop_lem (suc fuel) size offset step readed buffer w w' buffer' c h p l =
          elim (copy_loop_cases fuel src dst size offset step readed buffer w w' buffer' h) [
            | inl (e, same) ↦ rw same (c.copied p (omega arith))
            | inr (fit, full, rest) ↦
                let (m, len, less) =
                  move_lem mem st src dst step offset offset buffer w c.fits c.small fit full in
                copy_loop_lem fuel size _ _ _ _ _ w' buffer'
                  (extend offset _ step buffer _ w _ _ c m len (ground arith)) rest p l
          ]

      -- If `copy_firmware` returns success, every byte of the image, up to the size that the source's
      -- manifest states (offset and size, as a 32-bit sum below 2^31), is in the destination as it was
      -- in the source. The buffer has less than 32768 bytes and the two objects are apart.
      pub copy_firmware_copies :
          (buffer buffer' : List ℕ) (w' : W)
          → length buffer < 32768
          → copy_firmware mem layout src dst buffer w0 ≡ some (pull_success, buffer', w')
          → let mt = (read_firmware_manifest mem layout src w0).1 in
            (p : ℕ)
            → p < int_size (u32 (mt.vendor.size + mt.vendor.offset))
            → st.at dst w' p ≡ st.at src w0 p
      unfolding read_firmware_manifest
      copy_firmware_copies buffer buffer' w' small h =
          let w1 = (read_firmware_manifest mem layout src w0).2 in
          copy_loop_lem _ _ 0 _ _ buffer w1 w' buffer'
            (record {
              kept = λ p. memory_read_same mem st src src layout.size_of_manifest 0 w0 p;
              copied = λ p l. absurd (omega arith);
              fits = omega arith;
              small = small;
            })
            (copy_firmware-success src dst buffer w0 (buffer', w') h)

      copy_loop_ends :
          (reads : (size offset : ℕ) (w : W)
            → size < 32768
            → (memory_read mem src size offset w).0 < 32768)
          (fuel size offset step readed : ℕ) (buffer : List ℕ) (w : W)
          → step ≤ length buffer
          → length buffer < 32768
          → size - offset < fuel
          → copy_loop mem layout fuel src dst size offset step readed buffer w ≢ none
      copy_loop_ends reads zero size offset step readed buffer w fits small bound h =
          absurd (omega arith)
      copy_loop_ends reads (suc fuel) size offset step readed buffer w fits small bound h =
          let got =
            memory_read_lem mem st src step offset w (omega arith)
              (reads step offset w (omega arith)) in
          let (more, pos_n, full, rest) =
            copy_loop_goes fuel src dst size offset step readed buffer w (omega (arith, got.1)) h in
          let (m, len, less) =
            move_lem mem st src dst step offset offset buffer w fits small (omega (arith, got.1))
              full in
          copy_loop_ends reads fuel size _ _ _ _ _
            (omega (arith, clip-le size offset (memory_read mem src step offset w).0 step, len))
            (omega (arith, len)) (omega arith) rest

      -- Let the source and the destination share no byte. If no read of less than 32768 bytes of the source returns
      -- an error, `copy_firmware` ends, with success or with an error, and stays inside its buffer of less than
      -- 32768 bytes.
      pub copy_firmware_ends :
          (buffer : List ℕ) (w : W)
          → length buffer < 32768
          → ((size offset : ℕ) (w : W)
              → size < 32768
              → (memory_read mem src size offset w).0 < 32768)
          → copy_firmware mem layout src dst buffer w ≢ none
      copy_firmware_ends buffer w small reads h =
          let (err, mt, w1) = read_firmware_manifest mem layout src w in
          copy_loop_ends reads _ (int_size (u32 (mt.vendor.size + mt.vendor.offset))) 0 _ 0 buffer
            w1 (omega arith) small (omega arith) (copy_firmware-none src dst buffer w h)
