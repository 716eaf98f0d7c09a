-- ===== src/Security/Verifier.antt =====
-- src/core/security/verifier.c and `verify_signature_impl` of src/core/memory/simple_manifest.c: the
-- checks that an image passes before it is started.
pub mod Digest
pub mod Signature
mod Tests
use upkit.Prelude.{
  ℕ, zero, suc, ◌+◌, ◌-◌, Bool, true, false, not, ◌&&◌, List, [], ◌∷◌, Option, none, some, u32,
  if◌then◌else◌, ltb, ◌==◌, length, get_or, take, memcpy,
}
use upkit.Errors.{
  PullError, pull_success, generic_error, invalid_signature_error, memory_read_error,
  verification_failed_error, is_error,
}
use upkit.Memory.{MemoryImpl, memory_read}
use upkit.Memory.Manifest.{Manifest, Layout}
use upkit.Memory.Objects.{read_firmware_manifest}
use upkit.Security.{Crypto, Keystore, Safestore}

-- `while (i >= 0) { if (hash[i] != result[i]) …; i--; }` from the end of the digest.
abbrev pub same_digest : ℕ → List ℕ → List ℕ → Bool
same_digest zero hash result = true
same_digest (suc i) hash result =
    let rest = same_digest i hash result in
    if get_or hash i 0 == get_or result i 0 then rest else false

module _ {D : Type 0} (crypto : Crypto D) (layout : Layout) where
  -- One of the two halves of `verify_signature_impl`; the result of `digest_update` is not looked at.
  unfoldable pub verify_half : List ℕ → List ℕ → List ℕ → List ℕ → List ℕ → PullError
  verify_half data_bytes x y r s =
      let (err, ctx) = crypto.digest_init in
      let ctx1 = (crypto.digest_update ctx data_bytes).1 in
      let hash = crypto.digest_finalize ctx1 in
      if is_error err
      then generic_error
      else (if is_error (crypto.ecc_verify x y r s hash crypto.digest_size)
          then generic_error
          else pull_success)

  unfoldable pub verify_signature : Manifest → Keystore → PullError
  unfolding verify_half
  verify_signature mt keystore =
      let vendor =
        verify_half (layout.vendor_bytes mt) keystore.x keystore.y mt.vendor_signature_r
          mt.vendor_signature_s in
      let server =
        verify_half (layout.server_bytes mt) mt.vendor.server_key_x mt.vendor.server_key_y
          mt.server_signature_r mt.server_signature_s in
      if is_error vendor
      then generic_error
      else (if is_error server then generic_error else pull_success)

  unfoldable pub verify_manifest : Manifest → Safestore → PullError
  unfolding verify_signature
  verify_manifest mt sf =
      if not (mt.vendor.appid == sf.appid)
      then invalid_signature_error
      else verify_signature mt sf.keystore

  module _ {O W : Type 0} (mem : MemoryImpl O W) where
    -- The loop of `verify_digest`, on fuel, with the digest state when it is through.
    unfoldable pub digest_loop :
        ℕ → O → ℕ → ℕ → ℕ → D → List ℕ → W → Option (PullError × D × List ℕ × W)
    unfolding memory_read
    digest_loop zero obj offset final_offset step ctx buffer w = none
    digest_loop (suc fuel) obj offset final_offset step ctx buffer w =
        let (n, bytes, w1) = memory_read mem obj step offset w in
        let buffer1 = memcpy buffer 0 bytes in
        let (err, ctx1) = crypto.digest_update ctx (take n buffer1) in
        let offset1 = u32 (offset + n) in
        let step1 =
          if ltb final_offset (u32 (offset1 + step)) then final_offset - offset1 else step in
        let rest = digest_loop fuel obj offset1 final_offset step1 ctx1 buffer1 w1 in
        if not (ltb offset final_offset)
        then some (pull_success, ctx, buffer, w)
        else (if not (n == step)
            then some (memory_read_error, ctx, buffer1, w1)
            else (if is_error err then some (err, ctx1, buffer1, w1) else rest))

    unfoldable pub finish_digest :
        Manifest → Option (PullError × D × List ℕ × W) → Option (PullError × List ℕ × W)
    finish_digest mt none = none
    finish_digest mt (some (err, ctx, buffer, w)) = some (
      if is_error err
          then err
          else (if same_digest crypto.digest_size mt.vendor.digest (crypto.digest_finalize ctx)
              then pull_success
              else verification_failed_error),
      buffer,
      w,
    )

    unfoldable pub verify_digest : O → Manifest → List ℕ → W → Option (PullError × List ℕ × W)
    unfolding digest_loop finish_digest
    verify_digest obj mt buffer w =
        let (err, ctx) = crypto.digest_init in
        let offset = mt.vendor.offset in
        let final_offset = u32 (offset + mt.vendor.size) in
        if is_error err
        then some (err, buffer, w)
        else (if offset == final_offset
            then some (memory_read_error, buffer, w)
            else finish_digest mt (
                digest_loop (suc final_offset) obj offset final_offset (length buffer) ctx buffer
                  w))

    unfoldable pub verify_object : O → Safestore → List ℕ → W → Option (PullError × List ℕ × W)
    unfolding read_firmware_manifest verify_manifest verify_digest
    verify_object obj sf buffer w =
        let (err, mt, w1) = read_firmware_manifest mem layout obj w in
        if is_error err
        then some (memory_read_error, buffer, w1)
        else (if is_error (verify_manifest mt sf)
            then some (verify_manifest mt sf, buffer, w1)
            else verify_digest obj mt buffer w1)
