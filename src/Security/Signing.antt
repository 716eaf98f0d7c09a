-- ===== src/Security/Signing.antt =====
-- src/core/memory/simple_manifest.c: the signatures of a manifest, as the vendor and the server put them
-- in (`ENABLE_SIGN`).
pub mod RoundTrip
mod Tests
use upkit.Prelude.{ℕ, List, ℤ, pos, not, if◌then◌else◌, ◌==◌, take, drop, memcpy}
use upkit.Errors.{PullError, pull_success, generic_error, is_error}
use upkit.Memory.Manifest.{Manifest, Layout}
use upkit.Security.{Crypto}

-- `ecc_sign` and `get_curve_size` of include/libpull/security/ecc.h: the private key, the hash and its
-- length; the result, and the bytes that were put at the start of the signature buffer.
pub record Signer : Type 0 where
  pub ecc_sign : List ℕ → List ℕ → ℕ → PullError × List ℕ
  pub curve_size : ℕ

-- The setters refuse every size but 32; `memcpy` returns its target, so the result is then 0.
unfoldable pub set_vendor_signature_r : Manifest → List ℕ → ℕ → ℤ × Manifest
set_vendor_signature_r mt bytes size =
    if not (size == 32)
    then (pos 1, mt)
    else (pos 0, record mt { vendor_signature_r = take 32 bytes })

unfoldable pub set_vendor_signature_s : Manifest → List ℕ → ℕ → ℤ × Manifest
set_vendor_signature_s mt bytes size =
    if not (size == 32)
    then (pos 1, mt)
    else (pos 0, record mt { vendor_signature_s = take 32 bytes })

unfoldable pub set_server_signature_r : Manifest → List ℕ → ℕ → ℤ × Manifest
set_server_signature_r mt bytes size =
    if not (size == 32)
    then (pos 1, mt)
    else (pos 0, record mt { server_signature_r = take 32 bytes })

unfoldable pub set_server_signature_s : Manifest → List ℕ → ℕ → ℤ × Manifest
set_server_signature_s mt bytes size =
    if not (size == 32)
    then (pos 1, mt)
    else (pos 0, record mt { server_signature_s = take 32 bytes })

module _ {D : Type 0} (crypto : Crypto D) (layout : Layout) (signer : Signer) where
  -- `sign_data_impl`: the result, and the signature buffer.
  unfoldable pub sign_data : List ℕ → List ℕ → List ℕ → PullError × List ℕ
  sign_data data_bytes private_key signature_buffer =
      let (err, ctx) = crypto.digest_init in
      let hash = crypto.digest_finalize (crypto.digest_update ctx data_bytes).1 in
      let (err2, bytes) = signer.ecc_sign private_key hash crypto.digest_size in
      if is_error err
      then (generic_error, signature_buffer)
      else (if is_error err2 then generic_error else pull_success, memcpy signature_buffer 0 bytes)

  -- The signature is set whether or not `sign_data` has failed.
  unfoldable pub sign_manifest_vendor : Manifest → List ℕ → List ℕ → PullError × Manifest × List ℕ
  sign_manifest_vendor mt private_key signature_buffer =
      let (err, buffer) = sign_data (layout.vendor_bytes mt) private_key signature_buffer in
      let mt1 = (set_vendor_signature_r mt buffer signer.curve_size).1 in
      let mt2 = (set_vendor_signature_s mt1 (drop signer.curve_size buffer) signer.curve_size).1 in
      (err, mt2, buffer)

  unfoldable pub sign_manifest_server : Manifest → List ℕ → List ℕ → PullError × Manifest × List ℕ
  sign_manifest_server mt private_key signature_buffer =
      let (err, buffer) = sign_data (layout.server_bytes mt) private_key signature_buffer in
      let mt1 = (set_server_signature_r mt buffer signer.curve_size).1 in
      let mt2 = (set_server_signature_s mt1 (drop signer.curve_size buffer) signer.curve_size).1 in
      (err, mt2, buffer)
