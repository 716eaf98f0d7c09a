-- ===== src/FirmwareTool/Validate/Tests.antt =====
-- The manifest of a file of two bytes, as FirmwareTool.Generate makes it for the device of `Fixtures`.
use upkit.Prelude.{ℕ, ◌≡◌, refl, true, false, List, [], ◌∷◌, some, replicate}
use upkit.FirmwareTool.Generate.{File}
use upkit.FirmwareTool.Validate.{
  Subject, Leftover, item_size, item_digest, item_server_key_x, item_server_key_y, item_signature,
  manifest_validate_command,
}
use upkit.FirmwareTool.Validate.Agrees.{Able, Belongs, Reported, manifest_validate_command-Reported}
use upkit.Security.{Safestore}
use upkit.Fixtures.Keys.{signer}
use upkit.Fixtures.{layout, crypto, streaming}

abbrev file : List ℕ → File
file bytes = record { opens = true; content = bytes }

abbrev subject : Subject
subject = record {
  manifest = file (4 ∷ 5 ∷ 2 ∷ 6 ∷ 7 ∷ 9 ∷ []);
  binary = file (7 ∷ 9 ∷ []);
  server_pub_key = file (1 ∷ replicate 63 0);
  vendor_pub_key = file (1 ∷ replicate 63 0);
}

abbrev un : Leftover
un = record {
  mt_bytes = replicate 6 3;
  st_size = 0;
  server_public_key_buffer = replicate 64 3;
  vendor_public_key_buffer = replicate 64 3;
}

able : Able crypto layout signer streaming subject un
able = record {
  manifest = refl;
  binary = refl;
  server_pub_key = refl;
  vendor_pub_key = refl;
  manifest_size = refl;
  mt_size = refl;
  server_size = refl;
  server_buffer_size = refl;
  vendor_size = refl;
  vendor_buffer_size = refl;
  init = refl;
  update = λ c xs. refl;
}

-- The device that the manifest is meant for.
abbrev vendor_device : Safestore
vendor_device = record {
  keystore = record { x = 1 ∷ replicate 31 0; y = replicate 32 0 };
  udid = 0;
  aes_key = [];
  appid = (layout.decode (4 ∷ 5 ∷ 2 ∷ 6 ∷ 7 ∷ 9 ∷ [])).vendor.appid;
}

manifest_validate_command-Reported_example :
    Reported crypto layout signer streaming subject un
      (Belongs crypto layout signer streaming subject un
        (layout.decode (4 ∷ 5 ∷ 2 ∷ 6 ∷ 7 ∷ 9 ∷ []))
        vendor_device)
      (manifest_validate_command crypto layout signer subject un)
manifest_validate_command-Reported_example =
    manifest_validate_command-Reported crypto layout signer streaming subject un vendor_device able
      refl refl refl

-- Every item is valid.
all_items :
    manifest_validate_command crypto layout signer subject un
    ≡ some (record {
      exit_success = true;
      items =
          (item_size, true)
          ∷ (item_digest, true)
          ∷ (item_server_key_x, true)
          ∷ (item_server_key_y, true)
          ∷ (item_signature, true)
          ∷ [];
    })
unfolding manifest_validate_command
all_items = refl

-- With another file, only the digest is not.
other_file :
    manifest_validate_command crypto layout signer
      (record subject { binary = file (7 ∷ 8 ∷ []) })
      un
    ≡ some (record {
      exit_success = true;
      items =
          (item_size, true)
          ∷ (item_digest, false)
          ∷ (item_server_key_x, true)
          ∷ (item_server_key_y, true)
          ∷ (item_signature, true)
          ∷ [];
    })
unfolding manifest_validate_command
other_file = refl
