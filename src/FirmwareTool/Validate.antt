-- ===== src/FirmwareTool/Validate.antt =====
-- utils/firmware_tool/commands/manifest.cpp: the command that validates the manifest of an image.
mod Compare
pub mod Agrees
mod Tests
use upkit.Prelude.{
  ℕ, ◌+◌, Bool, true, false, not, List, [], ◌∷◌, ◌++◌, Option, none, some, if◌then◌else◌, ◌==◌,
  length, take, drop, memcpy,
}
use upkit.Errors.{PullError, is_error}
use upkit.Memory.Manifest.{Manifest, Layout}
use upkit.Memory.Manifest.Fields.{get_size, get_digest, get_server_key_x, get_server_key_y}
use upkit.Security.{Crypto, Keystore}
use upkit.Security.Verifier.{same_digest, verify_signature}
use upkit.Security.Signing.{Signer}
use upkit.FirmwareTool.Generate.{File, hash_loop}

-- The files that the command line names.
pub record Subject : Type 0 where
  pub manifest : File
  pub binary : File
  pub server_pub_key : File
  pub vendor_pub_key : File

-- What the variables and the buffers hold that the command does not initialise.
pub record Leftover : Type 0 where
  pub mt_bytes : List ℕ
  pub st_size : ℕ
  pub server_public_key_buffer : List ℕ
  pub vendor_public_key_buffer : List ℕ

-- The names that `log_item` is called with.
pub data Item : Type 0 where
  item_size item_digest item_server_key_x item_server_key_y item_signature : Item

-- `EXIT_SUCCESS` or not, and the calls of `log_item`.
pub record Report : Type 0 where
  pub exit_success : Bool
  pub items : List (Item × Bool)

abbrev pub server_buffer : Subject → Leftover → List ℕ
server_buffer rq un = memcpy un.server_public_key_buffer 0 (take 64 rq.server_pub_key.content)

-- `keystore`
abbrev pub vendor_keystore : Subject → Leftover → Keystore
vendor_keystore rq un =
    let key = memcpy un.vendor_public_key_buffer 0 (take 64 rq.vendor_pub_key.content) in
    record { x = take 32 key; y = take 32 (drop 32 key) }

-- `memcmp(a, b, n) == 0` is `same_digest`.
module _ {D : Type 0} (crypto : Crypto D) (layout : Layout) (signer : Signer) where
  -- (1)
  unfoldable pub read_manifest : Subject → Leftover → Manifest
  read_manifest rq un =
      layout.decode (memcpy un.mt_bytes 0 (take layout.size_of_manifest rq.manifest.content))

  -- (4) and (5)
  unfoldable pub check_keys : Subject → Leftover → Manifest → List (Item × Bool) → Report
  unfolding get_server_key_x get_server_key_y verify_signature
  check_keys rq un mt items =
      let key = server_buffer rq un in
      let items1 =
        items
        ++ ((item_server_key_x, same_digest 32 (get_server_key_x mt) key)
            ∷ (item_server_key_y, same_digest 32 (get_server_key_y mt) (drop 32 key))
            ∷ []) in
      let err = verify_signature crypto layout mt (vendor_keystore rq un) in
      if not rq.server_pub_key.opens
      then record { exit_success = false; items = items }
      else (if not rq.vendor_pub_key.opens
          then record { exit_success = false; items = items1 }
          else record {
            exit_success = true;
            items = items1 ++ ((item_signature, not (is_error err)) ∷ []);
          })

  -- The end of (3), behind the loop over the file.
  unfoldable pub check_digest :
      Subject → Leftover → Manifest → List (Item × Bool) → Option (PullError × D) → Option Report
  unfolding check_keys get_digest
  check_digest rq un mt items none = none
  check_digest rq un mt items (some (err, ctx)) = some (
      if is_error err
      then record { exit_success = false; items = items }
      else check_keys rq un mt (
          items
          ++ ((
            item_digest,
            same_digest crypto.digest_size (get_digest mt) (crypto.digest_finalize ctx),
          )
              ∷ [])))

  unfoldable pub manifest_validate_command : Subject → Leftover → Option Report
  unfolding read_manifest check_digest hash_loop get_size
  manifest_validate_command rq un =
      let mt = read_manifest rq un in
      let st_size = if rq.binary.opens then length rq.binary.content else un.st_size in
      let items = (item_size, get_size mt == st_size) ∷ [] in
      let (err, dctx) = crypto.digest_init in
      if not rq.manifest.opens
      then some (record { exit_success = false; items = [] })
      else (if is_error err
          then some (record { exit_success = false; items = items })
          else (if not rq.binary.opens
              then some (check_keys rq un mt (items ++ ((item_digest, false) ∷ [])))
              else check_digest rq un mt items (
                  hash_loop crypto layout signer (length rq.binary.content + 1) rq.binary.content
                    dctx)))
