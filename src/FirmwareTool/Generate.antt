-- ===== src/FirmwareTool/Generate.antt =====
-- utils/firmware_tool/commands/manifest.cpp: the command that makes the manifest of an image.
pub mod Hash
pub mod Ends
pub mod Accepted
mod Tests
use upkit.Prelude.{
  ℕ, zero, suc, ◌+◌, Bool, true, false, not, List, [], Option, none, some, u32, if◌then◌else◌, leb,
  length, take, drop, memcpy,
}
use upkit.Errors.{PullError, pull_success, is_error}
use upkit.Memory.Manifest.{Manifest, Layout}
use upkit.Memory.Manifest.Fields.{
  set_size, set_prop_size, set_appid, set_offset, set_version, set_server_key_x, set_server_key_y,
  set_digest,
}
use upkit.Security.{Crypto}
use upkit.Security.Signing.{Signer, sign_manifest_vendor, sign_manifest_server}

-- A file that is read: whether it can be opened, and its bytes.
pub record File : Type 0 where
  pub opens : Bool
  pub content : List ℕ

-- What the command line names. The three numbers are those that the stream extracts from its texts.
pub record Request : Type 0 where
  pub binary : File
  pub server_pub_key : File
  pub vendor_priv_key : File
  pub server_priv_key : File
  pub signature_file_opens : Bool
  pub out_file_opens : Bool
  pub appid : ℕ
  pub offset : ℕ
  pub version : ℕ

-- What the variables and the buffers hold that the command does not initialise.
pub record Uninitialised : Type 0 where
  pub mt : Manifest
  pub st_size : ℕ
  pub key_buffer : List ℕ
  pub vend_priv_key_buffer : List ℕ
  pub signature : List ℕ
  pub server_priv_key_buffer : List ℕ

-- `EXIT_SUCCESS` or not, and the two files if they have been written.
pub record Made : Type 0 where
  pub exit_success : Bool
  pub signature_file : Option (List ℕ)
  pub out_file : Option (List ℕ)

abbrev pub failed : Option (List ℕ) → Made
failed signature_file = record {
  exit_success = false;
  signature_file = signature_file;
  out_file = none;
}

-- (1) to (4)
unfoldable pub set_numbers : Request → Uninitialised → Manifest
unfolding set_size set_prop_size set_appid set_offset set_version
set_numbers rq un =
    let st_size = if rq.binary.opens then length rq.binary.content else un.st_size in
    set_version
      (set_offset (set_appid (set_prop_size (set_size un.mt (u32 st_size)) (u32 st_size)) rq.appid)
        rq.offset)
      rq.version

-- (5): a key file that is too short leaves the end of the buffer as it was.
unfoldable pub set_server_keys : Request → Uninitialised → Manifest → Manifest
unfolding set_server_key_x set_server_key_y
set_server_keys rq un mt =
    let key_buffer = memcpy un.key_buffer 0 (take 64 rq.server_pub_key.content) in
    set_server_key_y (set_server_key_x mt key_buffer) (drop 32 key_buffer)

module _ {D : Type 0} (crypto : Crypto D) (layout : Layout) (signer : Signer) where
  -- `while (!file.eof()) …`, on fuel: a read of less than BUFFER_LEN bytes meets the end of the file.
  unfoldable pub hash_loop : ℕ → List ℕ → D → Option (PullError × D)
  hash_loop zero file ctx = none
  hash_loop (suc fuel) file ctx =
      let (err, ctx1) = crypto.digest_update ctx (take 4096 file) in
      let rest = hash_loop fuel (drop 4096 file) ctx1 in
      if is_error err
      then some (err, ctx1)
      else (if leb 4096 (length file) then rest else some (pull_success, ctx1))

  -- (8) and (9)
  unfoldable pub sign_server : Request → Uninitialised → Manifest → List ℕ → Made
  sign_server rq un mt signature =
      let key = memcpy un.server_priv_key_buffer 0 (take 32 rq.server_priv_key.content) in
      let (err, mt1, _) = sign_manifest_server crypto layout signer mt key signature in
      let written = some (take 64 signature) in
      if not rq.server_priv_key.opens
      then failed written
      else (if is_error err
          then failed written
          else (if not rq.out_file_opens then failed written else (record {
            exit_success = true;
            signature_file = written;
            out_file = some (layout.encode mt1);
          })))

  -- The second (6) and (7)
  unfoldable pub sign_vendor : Request → Uninitialised → Manifest → Made
  unfolding sign_server
  sign_vendor rq un mt =
      let key = memcpy un.vend_priv_key_buffer 0 (take 32 rq.vendor_priv_key.content) in
      let (err, mt1, signature) = sign_manifest_vendor crypto layout signer mt key un.signature in
      if not rq.vendor_priv_key.opens
      then failed none
      else (if is_error err
          then failed none
          else (if not rq.signature_file_opens
              then failed none
              else sign_server rq un mt1 signature))

  unfoldable pub after_hash :
      Request → Uninitialised → Manifest → Option (PullError × D) → Option Made
  unfolding sign_vendor set_digest
  after_hash rq un mt none = none
  after_hash rq un mt (some (err, ctx)) = some (
      if is_error err
      then failed none
      else sign_vendor rq un (set_digest mt (crypto.digest_finalize ctx)))

  unfoldable pub manifest_generate_command : Request → Uninitialised → Option Made
  unfolding set_numbers set_server_keys after_hash hash_loop
  manifest_generate_command rq un =
      let mt = set_server_keys rq un (set_numbers rq un) in
      let (err, ctx) = crypto.digest_init in
      if not rq.server_pub_key.opens
      then some (failed none)
      else (if is_error err
          then some (failed none)
          else (if not rq.binary.opens
              then some (failed none)
              else after_hash rq un mt
                  (hash_loop (length rq.binary.content + 1) rq.binary.content ctx)))
