-- ===== src/FirmwareTool/Generate/Tests.antt =====
-- The manifest of a file of two bytes, for the device of `Fixtures`.
use upkit.Prelude.{ℕ, ◌≡◌, refl, true, List, [], ◌∷◌, some, replicate}
use upkit.Errors.{pull_success}
use upkit.Memory.Manifest.{Manifest}
use upkit.Security.Verifier.{verify_manifest}
use upkit.Security.Signing.{
  sign_manifest_vendor, sign_manifest_server, sign_data, set_vendor_signature_r,
  set_vendor_signature_s, set_server_signature_r, set_server_signature_s,
}
use upkit.FirmwareTool.Generate.{File, Request, Uninitialised, Made, manifest_generate_command}
use upkit.FirmwareTool.Generate.Accepted.{Describes, verify_manifest-manifest_generate_command}
use upkit.Fixtures.Keys.{signer, signs, local}
use upkit.Fixtures.{layout, crypto, streaming, safestore, decode, image}

abbrev file : List ℕ → File
file bytes = record { opens = true; content = bytes }

abbrev request : Request
request = record {
  binary = file (7 ∷ 9 ∷ []);
  server_pub_key = file (1 ∷ replicate 63 0);
  vendor_priv_key = file (1 ∷ replicate 31 0);
  server_priv_key = file (1 ∷ replicate 31 0);
  signature_file_opens = true;
  out_file_opens = true;
  appid = 5;
  offset = 6;
  version = 4;
}

abbrev un : Uninitialised
un = record {
  mt = decode (image 1);
  st_size = 0;
  key_buffer = replicate 64 3;
  vend_priv_key_buffer = replicate 32 3;
  signature = replicate 64 3;
  server_priv_key_buffer = replicate 32 3;
}

abbrev made : Made
made = record {
  exit_success = true;
  signature_file = some (1 ∷ replicate 63 0);
  out_file = some (4 ∷ 5 ∷ 2 ∷ 6 ∷ 7 ∷ 9 ∷ []);
}

verify_manifest-manifest_generate_command_example :
    (mt : Manifest) × (made.out_file ≡ some (layout.encode mt))
    × Describes streaming request mt
    × (verify_manifest crypto layout mt safestore ≡ pull_success)
unfolding manifest_generate_command sign_manifest_vendor sign_manifest_server sign_data
    set_vendor_signature_r set_vendor_signature_s set_server_signature_r set_server_signature_s
verify_manifest-manifest_generate_command_example =
    verify_manifest-manifest_generate_command crypto layout signer signs streaming request un made
      safestore local refl refl refl refl refl
