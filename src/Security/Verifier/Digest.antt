-- ===== src/Security/Verifier/Digest.antt =====
-- `verify_digest`: which bytes it takes into the digest, and what its success means.
use upkit.Prelude.{
  ℕ, zero, suc, ◌+◌, ◌-◌, ◌<◌, ◌≤◌, ◌≡◌, ◌≢◌, ◌⊎◌, inl, inr, sym, ap, fun_ext, ◌∙◌, true, false,
  List, [], ◌++◌, Option, none, some, u32, length, get_or, take, slice, memcpy, max, arith,
  length-slice, length-memcpy, slice-append, append_assoc, append-nil, ltb, if◌then◌else◌,
}
use native.Mathlib.Decide.{dec_lt}
use upkit.Errors.{PullError, pull_success, is_error}
use upkit.Memory.{MemoryImpl, memory_read}
use upkit.Memory.Manifest.{Manifest, Layout}
use upkit.Memory.Stores.{Stores, memory_read_lem, memory_read_same, take-memcpy-slice}
use upkit.Security.{Crypto}
use upkit.Security.Verifier.{same_digest, digest_loop, finish_digest, verify_digest}

-- The digest is a function of the bytes taken in, in order.
pub record Streaming {D : Type 0} (crypto : Crypto D) : Type 0 where
  pub absorbed : D → List ℕ
  pub hash : List ℕ → List ℕ
  pub init : is_error crypto.digest_init.0 ≡ false → absorbed crypto.digest_init.1 ≡ []
  pub update :
      (d : D) (xs : List ℕ)
      → is_error (crypto.digest_update d xs).0 ≡ false
      → absorbed (crypto.digest_update d xs).1 ≡ absorbed d ++ xs
  pub finalize : (d : D) → crypto.digest_finalize d ≡ hash (absorbed d)

same_digest_sound :
    (n : ℕ) (xs ys : List ℕ)
    → same_digest n xs ys ≡ true
    → (i : ℕ) → i < n
    → get_or xs i 0 ≡ get_or ys i 0
same_digest_sound zero xs ys h i l = absurd (omega arith)
same_digest_sound (suc n) xs ys h i l = elim (dec_lt i n) [
  | yes k ↦ same_digest_sound n xs ys (ground arith) i k
  | no k ↦ let e : i ≡ n = omega arith in rw e (ground arith)
]

clip_step :
    (final step o : ℕ)
    → o + step < 4294967296
    → let step1 = if ltb final (u32 (o + step)) then final - o else step in
      (step1 ≤ step) × (step1 ≤ final - o)
clip_step final step o h = ground arith

join :
    (a0 a1 a2 : List ℕ) (f g : ℕ → ℕ) (offset step offset1 final k : ℕ)
    → a1 ≡ a0 ++ slice f offset step
    → a2 ≡ a1 ++ slice g offset1 (final - offset1)
    → g ≡ f
    → offset1 ≡ offset + step
    → k ≡ step + (final - (offset + step))
    → a2 ≡ a0 ++ slice f offset k
join a0 a1 a2 f g offset step offset1 final k e1 e2 eg eo ek =
    let tail = slice f (offset + step) (final - (offset + step)) in
    e2
    ∙ (rw (e1, eg, eo) (append_assoc a0 (slice f offset step) tail)
        ∙ ap (λ t. a0 ++ t) (sym (slice-append f offset step (final - (offset + step)) k ek)))

module _ {D O W : Type 0} (crypto : Crypto D) (layout : Layout) (mem : MemoryImpl O W) where
  digest_loop-zero :
      (obj : O) (offset final step : ℕ) (ctx : D) (buffer : List ℕ) (w : W)
      (r : PullError × D × List ℕ × W)
      → digest_loop crypto layout mem zero obj offset final step ctx buffer w ≡ some r
      → ⊥
  unfolding digest_loop
  digest_loop-zero obj offset final step ctx buffer w r h = cc

  digest_loop_cases :
      (fuel : ℕ) (obj : O) (offset final step : ℕ) (ctx ctx' : D) (buffer buffer' : List ℕ)
      (w w' : W)
      → digest_loop crypto layout mem (suc fuel) obj offset final step ctx buffer w
        ≡ some (pull_success, ctx', buffer', w')
      → let (n, bytes, w1) = memory_read mem obj step offset w in
        let buffer1 = memcpy buffer 0 bytes in
        let (err, ctx1) = crypto.digest_update ctx (take n buffer1) in
        let offset1 = u32 (offset + n) in
        ((final ≤ offset) × (ctx' ≡ ctx))
        ⊎ ((offset < final)
            × (n ≡ step)
            × (is_error err ≡ false)
            × (digest_loop crypto layout mem fuel obj offset1 final
                  (if ltb final (u32 (offset1 + step)) then final - offset1 else step)
                  ctx1
                  buffer1
                  w1
                ≡ some (pull_success, ctx', buffer', w')))
  unfolding digest_loop
  digest_loop_cases fuel obj offset final step ctx ctx' buffer buffer' w w' h = ground arith

  module _ (st : Stores mem) (sm : Streaming crypto) (obj : O) (final : ℕ) where
    -- What a round takes in.
    round_lem :
        (offset step : ℕ) (ctx : D) (buffer : List ℕ) (w : W)
        → let (n, bytes, w1) = memory_read mem obj step offset w in
          let buffer1 = memcpy buffer 0 bytes in
          let (err, ctx1) = crypto.digest_update ctx (take n buffer1) in
          step ≤ length buffer
          → length buffer < 32768
          → n ≡ step
          → is_error err ≡ false
          → (sm.absorbed ctx1 ≡ sm.absorbed ctx ++ slice (st.at obj w) offset step)
            × (length buffer1 ≡ length buffer)
            × (st.at obj w1 ≡ st.at obj w)
    round_lem offset step ctx buffer w fits small full fine =
        let n = (memory_read mem obj step offset w).0 in
        let bytes = (memory_read mem obj step offset w).1 in
        let got = memory_read_lem mem st obj step offset w (omega arith) (omega arith) in
        let out : take n (memcpy buffer 0 bytes) ≡ slice (st.at obj w) offset n =
          ap (λ t. take n (memcpy buffer 0 t)) got.0
          ∙ take-memcpy-slice buffer (st.at obj w) offset n in
        let len : length bytes ≡ n = ap length got.0 ∙ length-slice (st.at obj w) offset n in
        (
          sm.update ctx _ fine
              ∙ (ap (λ t. sm.absorbed ctx ++ t) out
                  ∙ ap (λ t. sm.absorbed ctx ++ slice (st.at obj w) offset t) full),
          length-memcpy buffer 0 bytes (omega arith),
          fun_ext (λ p. memory_read_same mem st obj obj step offset w p),
        )

    -- `k` bytes: those of the first round, which may go past the end, and those that are left then.
    digest_loop_lem :
        (fuel offset step k : ℕ) (ctx ctx' : D) (buffer buffer' : List ℕ) (w w' : W)
        → step ≤ length buffer
        → length buffer < 32768
        → final + length buffer + length buffer < 4294967296
        → (offset < final → k ≡ step + (final - (offset + step)))
        → (final ≤ offset → k ≡ 0)
        → digest_loop crypto layout mem fuel obj offset final step ctx buffer w
          ≡ some (pull_success, ctx', buffer', w')
        → sm.absorbed ctx' ≡ sm.absorbed ctx ++ slice (st.at obj w) offset k
    digest_loop_lem zero offset step k ctx ctx' buffer buffer' w w' fits small room more_k none_k
          h =
        absurd (digest_loop-zero obj offset final step ctx buffer w _ h)
    digest_loop_lem (suc fuel) offset step k ctx ctx' buffer buffer' w w' fits small room more_k
          none_k h =
        elim (digest_loop_cases fuel obj offset final step ctx ctx' buffer buffer' w w' h) [
          | inl (e, same) ↦ rw (none_k e) (ap sm.absorbed same ∙ sym (append-nil (sm.absorbed ctx)))
          | inr (more, full, fine, rest) ↦
              let (taken, len, same) = round_lem offset step ctx buffer w fits small full fine in
              let offset1 : ℕ = u32 (offset + (memory_read mem obj step offset w).0) in
              let o1 : offset1 ≡ offset + step = omega arith in
              let clip = clip_step final step offset1 (omega arith) in
              join (sm.absorbed ctx) _ (sm.absorbed ctx') (st.at obj w) _ offset step offset1 final
                k taken
                (digest_loop_lem fuel offset1 _ (final - offset1) _ ctx' _ buffer' _ w'
                  (omega (arith, clip, len)) (omega (arith, len)) (omega (arith, len))
                  (λ l. omega (arith, clip)) (λ l. omega arith) rest)
                same o1 (more_k more)
        ]

  finish_digest-success :
      (mt : Manifest) (r : Option (PullError × D × List ℕ × W)) (buffer' : List ℕ) (w' : W)
      → finish_digest crypto layout mem mt r ≡ some (pull_success, buffer', w')
      → (ctx : D) × (r ≡ some (pull_success, ctx, buffer', w'))
        × (same_digest crypto.digest_size mt.vendor.digest (crypto.digest_finalize ctx) ≡ true)
  unfolding finish_digest
  finish_digest-success mt none buffer' w' h = cc
  finish_digest-success mt (some (err, ctx, buffer, w)) buffer' w' h =
      (ctx, ground arith, ground arith)

  verify_digest-success :
      (obj : O) (mt : Manifest) (buffer buffer' : List ℕ) (w w' : W)
      → verify_digest crypto layout mem obj mt buffer w ≡ some (pull_success, buffer', w')
      → let final = u32 (mt.vendor.offset + mt.vendor.size) in
        (is_error crypto.digest_init.0 ≡ false)
        × (mt.vendor.offset ≢ final)
        × (finish_digest crypto layout mem mt (
              digest_loop crypto layout mem
                (suc final)
                obj
                mt.vendor.offset
                final
                (length buffer)
                crypto.digest_init.1
                buffer
                w)
            ≡ some (pull_success, buffer', w'))
  unfolding verify_digest
  verify_digest-success obj mt buffer buffer' w w' h = ground arith

  -- The bytes that `verify_digest` takes in: those of the image, and at least a whole buffer.
  abbrev pub hashed : Stores mem → O → W → Manifest → List ℕ → List ℕ
  hashed st obj w mt buffer =
      slice (st.at obj w) mt.vendor.offset (max mt.vendor.size (length buffer))

  module _ (st : Stores mem) (sm : Streaming crypto) where
    -- If `verify_digest` returns success, then the first `digest_size` bytes of the digest in the
    -- manifest are those of the hash of the object's bytes from the manifest's offset on: as many as
    -- the manifest's size, or as the buffer has, if that is more. The buffer has less than 32768
    -- bytes, and no offset within reach passes 2^32.
    pub verify_digest_sound :
        (obj : O) (mt : Manifest) (buffer buffer' : List ℕ) (w w' : W)
        → length buffer < 32768
        → mt.vendor.offset + mt.vendor.size + length buffer + length buffer < 4294967296
        → verify_digest crypto layout mem obj mt buffer w ≡ some (pull_success, buffer', w')
        → (i : ℕ) → i < crypto.digest_size
        → get_or mt.vendor.digest i 0 ≡ get_or (sm.hash (hashed st obj w mt buffer)) i 0
    verify_digest_sound obj mt buffer buffer' w w' small room h i l =
        let (begun, some_bytes, fin) = verify_digest-success obj mt buffer buffer' w w' h in
        let (ctx, loop, same) = finish_digest-success mt _ buffer' w' fin in
        let final : ℕ = u32 (mt.vendor.offset + mt.vendor.size) in
        let all : sm.absorbed ctx ≡ hashed st obj w mt buffer =
          digest_loop_lem st sm obj final (suc final) mt.vendor.offset (length buffer) _ _ ctx
            buffer buffer' w w' (omega arith) small (omega arith) (λ k. omega arith)
            (λ k. omega arith) loop
          ∙ ap (λ t. t ++ hashed st obj w mt buffer) (sm.init begun) in
        same_digest_sound crypto.digest_size mt.vendor.digest _ same i l
        ∙ ap (λ t. get_or t i 0) (sm.finalize ctx ∙ ap sm.hash all)
