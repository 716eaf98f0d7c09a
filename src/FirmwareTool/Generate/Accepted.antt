-- ===== src/FirmwareTool/Generate/Accepted.antt =====
-- utils/firmware_tool/commands/manifest.cpp: a manifest that the tool has made, before the checks of the
-- device.
use upkit.Prelude.{
  ℕ, ◌+◌, ◌≡◌, refl, sym, ap, subst₂, ◌∙◌, true, false, List, ◌++◌, none, some, u32, if◌then◌else◌,
  length, take, drop, memcpy, arith,
}
use upkit.Errors.{PullError, pull_success, is_error, is_error-false}
use upkit.Memory.Manifest.{Manifest, Layout}
use upkit.Memory.Manifest.Fields.{
  set_size, set_prop_size, set_appid, set_offset, set_version, set_server_key_x, set_server_key_y,
  set_digest, get_size, get_prop_size, get_appid, get_offset, get_version, get_digest,
}
use upkit.Security.{Crypto, Safestore}
use upkit.Security.Verifier.{verify_manifest}
use upkit.Security.Verifier.Digest.{Streaming}
use upkit.Security.Signing.{Signer, sign_manifest_vendor, sign_manifest_server}
use upkit.Security.Signing.RoundTrip.{
  Signs, Local, vendor_signed, server_signed, verify_manifest-sign_manifest,
}
use upkit.FirmwareTool.Generate.{
  Request, Uninitialised, Made, failed, set_numbers, set_server_keys, hash_loop, sign_server,
  sign_vendor, after_hash, manifest_generate_command,
}
use upkit.FirmwareTool.Generate.Hash.{hash_loop_lem}

-- What the manifest says of the file, with the number of bytes as `address_t` has it.
pub record Describes {D : Type 0} {crypto : Crypto D} (sm : Streaming crypto) (rq : Request)
    (mt : Manifest) : Type 0 where
  pub size : get_size mt ≡ u32 (length rq.binary.content)
  pub prop_size : get_prop_size mt ≡ u32 (length rq.binary.content)
  pub appid : get_appid mt ≡ rq.appid
  pub offset : get_offset mt ≡ rq.offset
  pub version : get_version mt ≡ rq.version
  pub digest : get_digest mt ≡ take 32 (sm.hash rq.binary.content)

Describes-same :
    {D : Type 0} {crypto : Crypto D} (sm : Streaming crypto) (rq : Request) (m n : Manifest)
    → m.vendor ≡ n.vendor
    → m.server ≡ n.server
    → Describes sm rq m
    → Describes sm rq n
unfolding get_size get_prop_size get_appid get_offset get_version get_digest
Describes-same sm rq m n v s d = record {
  size = ap (λ t. t.size) (sym v) ∙ d.size;
  prop_size = ap (λ t. t.prop_size) (sym s) ∙ d.prop_size;
  appid = ap (λ t. t.appid) (sym v) ∙ d.appid;
  offset = ap (λ t. t.offset) (sym v) ∙ d.offset;
  version = ap (λ t. t.version) (sym v) ∙ d.version;
  digest = ap (λ t. t.digest) (sym v) ∙ d.digest;
}

abbrev pub server_key : Request → Uninitialised → List ℕ
server_key rq un = memcpy un.key_buffer 0 (take 64 rq.server_pub_key.content)

-- The manifest that is signed.
abbrev filled : Request → Uninitialised → List ℕ → Manifest
filled rq un hash = set_digest (set_server_keys rq un (set_numbers rq un)) hash

filled-Describes :
    {D : Type 0} {crypto : Crypto D} (sm : Streaming crypto) (rq : Request) (un : Uninitialised)
    (hash : List ℕ)
    → rq.binary.opens ≡ true
    → hash ≡ sm.hash rq.binary.content
    → Describes sm rq (filled rq un hash)
unfolding get_size get_prop_size get_appid get_offset get_version get_digest set_numbers
    set_server_keys set_size set_prop_size set_appid set_offset set_version set_server_key_x
    set_server_key_y set_digest
filled-Describes sm rq un hash o h = record {
  size = ap (λ b. u32 (if b then length rq.binary.content else un.st_size)) o;
  prop_size = ap (λ b. u32 (if b then length rq.binary.content else un.st_size)) o;
  appid = refl;
  offset = refl;
  version = refl;
  digest = ap (take 32) h;
}

filled-keys :
    (rq : Request) (un : Uninitialised) (hash : List ℕ)
    → let mt = filled rq un hash in
      (mt.vendor.appid ≡ rq.appid)
      × (mt.vendor.server_key_x ≡ take 32 (server_key rq un))
      × (mt.vendor.server_key_y ≡ take 32 (drop 32 (server_key rq un)))
unfolding set_numbers set_server_keys set_size set_prop_size set_appid set_offset set_version
    set_server_key_x set_server_key_y set_digest
filled-keys rq un hash = (refl, refl, refl)

module _ {D : Type 0} (crypto : Crypto D) (layout : Layout) (signer : Signer) where
  sign_server-success :
      (rq : Request) (un : Uninitialised) (mt : Manifest) (signature : List ℕ)
      → (sign_server crypto layout signer rq un mt signature).exit_success ≡ true
      → let key = memcpy un.server_priv_key_buffer 0 (take 32 rq.server_priv_key.content) in
        let (err, mt1, _) = sign_manifest_server crypto layout signer mt key signature in
        (is_error err ≡ false)
        × (sign_server crypto layout signer rq un mt signature ≡ record {
          exit_success = true;
          signature_file = some (take 64 signature);
          out_file = some (layout.encode mt1);
        })
  unfolding sign_server
  sign_server-success rq un mt signature h = ground arith

  sign_vendor-success :
      (rq : Request) (un : Uninitialised) (mt : Manifest)
      → (sign_vendor crypto layout signer rq un mt).exit_success ≡ true
      → let key = memcpy un.vend_priv_key_buffer 0 (take 32 rq.vendor_priv_key.content) in
        let (err, mt1, signature) = sign_manifest_vendor crypto layout signer mt key un.signature in
        (is_error err ≡ false)
        × (sign_vendor crypto layout signer rq un mt
            ≡ sign_server crypto layout signer rq un mt1 signature)
  unfolding sign_vendor
  sign_vendor-success rq un mt h = ground arith

  failed_at : (made : Made) → some (failed none) ≡ some made → made.exit_success ≡ true → ⊥
  failed_at made h e = ground arith

  after_hash-success :
      (rq : Request) (un : Uninitialised) (mt : Manifest) (err : PullError) (ctx : D) (made : Made)
      → after_hash crypto layout signer rq un mt (some (err, ctx)) ≡ some made
      → made.exit_success ≡ true
      → (is_error err ≡ false)
        × (made
            ≡ sign_vendor crypto layout signer rq un (set_digest mt (crypto.digest_finalize ctx)))
  unfolding after_hash
  after_hash-success rq un mt err ctx made h e = ground arith

  generate-success :
      (rq : Request) (un : Uninitialised) (made : Made)
      → manifest_generate_command crypto layout signer rq un ≡ some made
      → made.exit_success ≡ true
      → (rq.binary.opens ≡ true)
        × (is_error crypto.digest_init.0 ≡ false)
        × (after_hash crypto layout signer rq un (set_server_keys rq un (set_numbers rq un)) (
              hash_loop crypto layout signer
                (length rq.binary.content + 1)
                rq.binary.content
                crypto.digest_init.1)
            ≡ some made)
  unfolding manifest_generate_command
  generate-success rq un made h e = ground arith

  module _ (sg : Signs crypto signer) where
    signed_fields :
        (mt : Manifest) (kv ks b b' : List ℕ)
        → let mt1 = (sign_manifest_vendor crypto layout signer mt kv b).1 in
          let mt2 = (sign_manifest_server crypto layout signer mt1 ks b').1 in
          (mt.vendor ≡ mt2.vendor) × (mt.server ≡ mt2.server)
    signed_fields mt kv ks b b' =
        rw
          (
            vendor_signed crypto layout signer sg mt kv b,
            server_signed crypto layout signer sg _ ks b',
          )
          (refl, refl)

    -- If the command succeeds, then it has written the bytes of a manifest that has the numbers of the
    -- request, the number of the file's bytes modulo 2^32 and the first 32 bytes of the file's hash, and
    -- that a device of the same application accepts, if the device has the public key that belongs to
    -- the vendor's private key, and the server's public key in the request belongs to its private one.
    pub verify_manifest-manifest_generate_command :
        (sm : Streaming crypto) (rq : Request) (un : Uninitialised) (made : Made) (sf : Safestore)
        → Local layout
        → manifest_generate_command crypto layout signer rq un ≡ some made
        → made.exit_success ≡ true
        → rq.appid ≡ sf.appid
        → sg.belongs
            (memcpy un.vend_priv_key_buffer 0 (take 32 rq.vendor_priv_key.content))
            sf.keystore.x
            sf.keystore.y
          ≡ true
        → sg.belongs
            (memcpy un.server_priv_key_buffer 0 (take 32 rq.server_priv_key.content))
            (take 32 (server_key rq un))
            (take 32 (drop 32 (server_key rq un)))
          ≡ true
        → (mt : Manifest) × (made.out_file ≡ some (layout.encode mt))
          × Describes sm rq mt
          × (verify_manifest crypto layout mt sf ≡ pull_success)
    verify_manifest-manifest_generate_command sm rq un made sf lo h ok app bv bs =
        let (opens, begun, ah) = generate-success rq un made h ok in
        let mt0 = set_server_keys rq un (set_numbers rq un) in
        let hd =
          hash_loop_lem crypto layout signer sm (length rq.binary.content + 1) rq.binary.content
            crypto.digest_init.1 (omega arith) in
        let (fine, e) =
          after_hash-success rq un mt0 hd.err hd.ctx made
            (ap (after_hash crypto layout signer rq un mt0) (sym hd.ends) ∙ ah) ok in
        let hash = crypto.digest_finalize hd.ctx in
        let right : hash ≡ sm.hash rq.binary.content =
          sm.finalize hd.ctx
          ∙ ap sm.hash (hd.taken fine ∙ ap (λ t. t ++ rq.binary.content) (sm.init begun)) in
        let mt = filled rq un hash in
        let ok1 = ap (λ t. t.exit_success) (sym e) ∙ ok in
        let (v, e2) = sign_vendor-success rq un mt ok1 in
        let kv = memcpy un.vend_priv_key_buffer 0 (take 32 rq.vendor_priv_key.content) in
        let ks = memcpy un.server_priv_key_buffer 0 (take 32 rq.server_priv_key.content) in
        let mt1 = (sign_manifest_vendor crypto layout signer mt kv un.signature).1 in
        let sig = (sign_manifest_vendor crypto layout signer mt kv un.signature).2 in
        let (s, e3) = sign_server-success rq un mt1 sig (ap (λ t. t.exit_success) (sym e2) ∙ ok1) in
        let mt2 = (sign_manifest_server crypto layout signer mt1 ks sig).1 in
        let (f1, f2) = signed_fields mt kv ks un.signature sig in
        let (k0, k1, k2) = filled-keys rq un hash in
        (
          mt2,
          ap (λ t. t.out_file) (e ∙ (e2 ∙ e3)),
          Describes-same sm rq mt mt2 f1 f2 (filled-Describes sm rq un hash opens right),
          verify_manifest-sign_manifest crypto layout signer sg mt sf kv ks un.signature lo
              (k0 ∙ app) bv (subst₂ (λ x y. sg.belongs ks x y ≡ true) (sym k1) (sym k2) bs)
              (is_error-false _ v) (is_error-false _ s),
        )
