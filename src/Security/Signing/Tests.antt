-- ===== src/Security/Signing/Tests.antt =====
-- A manifest of `Fixtures` that is signed twice.
use upkit.Prelude.{ℕ, ◌≡◌, refl, List, [], ◌∷◌, replicate}
use upkit.Errors.{pull_success}
use upkit.Memory.Manifest.{Manifest}
use upkit.Security.Verifier.{verify_manifest}
use upkit.Security.Signing.{
  sign_manifest_vendor, sign_manifest_server, sign_data, set_vendor_signature_r,
  set_vendor_signature_s, set_server_signature_r, set_server_signature_s,
}
use upkit.Security.Signing.RoundTrip.{verify_manifest-sign_manifest}
use upkit.Fixtures.Keys.{signer, signs, local}
use upkit.Fixtures.{layout, crypto, safestore, decode, image}

abbrev unsigned : Manifest
unsigned = record (decode (image 4)) { vendor_signature_r = []; server_signature_r = [] }

abbrev key : List ℕ
key = 1 ∷ []

abbrev by_vendor : Manifest
by_vendor = (sign_manifest_vendor crypto layout signer unsigned key (replicate 64 0)).1

abbrev by_both : Manifest
by_both = (sign_manifest_server crypto layout signer by_vendor key (1 ∷ replicate 63 0)).1

verify_manifest-sign_manifest_example :
    verify_manifest crypto layout by_both safestore ≡ pull_success
unfolding sign_manifest_vendor sign_manifest_server sign_data set_vendor_signature_r
    set_vendor_signature_s set_server_signature_r set_server_signature_s
verify_manifest-sign_manifest_example =
    verify_manifest-sign_manifest crypto layout signer signs unsigned safestore key key
      (replicate 64 0) local refl refl refl refl refl
