-- ===== src/Security/Verifier/Tests.antt =====
-- The checks of the image in slot 3 of `Fixtures`.
use upkit.Prelude.{
  ℕ, ◌<◌, ◌≡◌, ◌↔◌, refl, false, [], ◌∷◌, some, arith, get_or, replicate, if◌then◌else◌, ◌==◌,
}
use upkit.Errors.{verification_failed_error, is_error}
use upkit.Memory.{memory_read}
use upkit.Memory.Manifest.{Manifest}
use upkit.Memory.Objects.{read_firmware_manifest}
use upkit.Security.Verifier.{verify_manifest, verify_digest, verify_object}
use upkit.Security.Verifier.Digest.{verify_digest_sound}
use upkit.Security.Verifier.Signature.{Authentic, verify_manifest_iff, verify_object_sound}
use upkit.Fixtures.{
  Ram, ram, ram_stores, layout, crypto, streaming, safestore, device, decode, image,
}

abbrev mt : Manifest
mt = decode (image 4)

verify_manifest_iff_example :
    (is_error (verify_manifest crypto layout mt safestore) ≡ false)
    ↔ Authentic crypto layout mt safestore
verify_manifest_iff_example = verify_manifest_iff crypto layout mt safestore refl

-- The digest is over the four bytes 7 9 8 8.
verify_digest_sound_example : get_or mt.vendor.digest 1 0 ≡ get_or (7 ∷ 9 ∷ 8 ∷ 8 ∷ []) 1 0
unfolding verify_digest memory_read
verify_digest_sound_example =
    verify_digest_sound crypto layout ram ram_stores streaming 3 mt (replicate 2 0) (8 ∷ 8 ∷ [])
      device device (omega arith) (omega arith) refl 1 (omega arith)

verify_object_sound_example :
    (is_error (read_firmware_manifest ram layout 3 device).0 ≡ false)
    × Authentic crypto layout mt safestore
    × ((i : ℕ) → i < 2 → get_or mt.vendor.digest i 0 ≡ get_or (7 ∷ 9 ∷ 8 ∷ 8 ∷ []) i 0)
unfolding verify_object read_firmware_manifest memory_read
verify_object_sound_example =
    verify_object_sound crypto layout ram ram_stores streaming 3 safestore (replicate 2 0)
      (8 ∷ 8 ∷ []) device device (omega arith) (omega arith) refl

-- A device with another byte in the image fails.
broken : Ram
broken o p = if p == 7 then 1 else device o p

broken_fails :
    verify_digest crypto layout ram 3 mt (replicate 2 0) broken
    ≡ some (verification_failed_error, 8 ∷ 8 ∷ [], broken)
unfolding verify_digest memory_read broken
broken_fails = refl
