-- ===== src/Security/Verifier/Signature.antt =====
-- `verify_manifest` and `verify_object`: what an image that passes has been checked for.
use upkit.Prelude.{
  ℕ, ◌+◌, ◌<◌, ◌≡◌, ◌↔◌, ap, ◌∙◌, false, List, some, length, get_or, arith, fun_ext, slice, max,
}
use upkit.Errors.{pull_success, is_error}
use upkit.Memory.{MemoryImpl}
use upkit.Memory.Manifest.{Manifest, Layout}
use upkit.Memory.Stores.{Stores, memory_read_same}
use upkit.Memory.Objects.{read_firmware_manifest}
use upkit.Security.{Crypto, Safestore}
use upkit.Security.Verifier.{verify_half, verify_manifest, verify_digest, verify_object}
use upkit.Security.Verifier.Digest.{Streaming, hashed, verify_digest_sound}

module _ {D : Type 0} (crypto : Crypto D) (layout : Layout) where
  -- A signature over the bytes by the key: the digest of the bytes as the back end computes it.
  abbrev pub Signed : List ℕ → List ℕ → List ℕ → List ℕ → List ℕ → Type 0
  Signed bytes x y r s =
      is_error (
        crypto.ecc_verify x y r s
          (crypto.digest_finalize (crypto.digest_update crypto.digest_init.1 bytes).1)
          crypto.digest_size)
      ≡ false

  pub record Authentic (mt : Manifest) (sf : Safestore) : Type 0 where
    pub app : mt.vendor.appid ≡ sf.appid
    pub vendor :
        Signed
          (layout.vendor_bytes mt)
          sf.keystore.x
          sf.keystore.y
          mt.vendor_signature_r
          mt.vendor_signature_s
    pub server :
        Signed
          (layout.server_bytes mt)
          mt.vendor.server_key_x
          mt.vendor.server_key_y
          mt.server_signature_r
          mt.server_signature_s

  pub verify_manifest-Authentic :
      (mt : Manifest) (sf : Safestore)
      → is_error (verify_manifest crypto layout mt sf) ≡ false
      → Authentic mt sf
  unfolding verify_manifest verify_half
  verify_manifest-Authentic mt sf h = ground arith

  pub Authentic-verify_manifest :
      (mt : Manifest) (sf : Safestore)
      → is_error crypto.digest_init.0 ≡ false
      → Authentic mt sf
      → verify_manifest crypto layout mt sf ≡ pull_success
  unfolding verify_manifest verify_half
  Authentic-verify_manifest mt sf b h = ground arith

  -- Where the digest can be initialised, `verify_manifest` accepts exactly the manifests for the
  -- application of the device whose vendor part is signed by the device's vendor key and whose server
  -- part is signed by the server key that the vendor part states.
  pub verify_manifest_iff :
      (mt : Manifest) (sf : Safestore)
      → is_error crypto.digest_init.0 ≡ false
      → (is_error (verify_manifest crypto layout mt sf) ≡ false) ↔ Authentic mt sf
  verify_manifest_iff mt sf b =
      (verify_manifest-Authentic mt sf, λ h. ap is_error (Authentic-verify_manifest mt sf b h))

  module _ {O W : Type 0} (mem : MemoryImpl O W) (st : Stores mem) (sm : Streaming crypto) where
    verify_object-success :
        (obj : O) (sf : Safestore) (buffer buffer' : List ℕ) (w w' : W)
        → verify_object crypto layout mem obj sf buffer w ≡ some (pull_success, buffer', w')
        → let (err, mt, w1) = read_firmware_manifest mem layout obj w in
          (is_error err ≡ false)
          × (is_error (verify_manifest crypto layout mt sf) ≡ false)
          × (verify_digest crypto layout mem obj mt buffer w1 ≡ some (pull_success, buffer', w'))
    unfolding verify_object
    verify_object-success obj sf buffer buffer' w w' h = ground arith

    -- If `verify_object` returns success, the manifest of the object could be read and is authentic,
    -- and the digest that it states agrees with the hash of the object's bytes which
    -- `verify_digest_sound` names. The buffer has less than 32768 bytes, and no offset within reach of
    -- the digest passes 2^32.
    pub verify_object_sound :
        (obj : O) (sf : Safestore) (buffer buffer' : List ℕ) (w w' : W)
        → let (err, mt, w1) = read_firmware_manifest mem layout obj w in
          length buffer < 32768
          → mt.vendor.offset + mt.vendor.size + length buffer + length buffer < 4294967296
          → verify_object crypto layout mem obj sf buffer w ≡ some (pull_success, buffer', w')
          → (is_error err ≡ false)
            × Authentic mt sf
            × ((i : ℕ)
                → i < crypto.digest_size
                → get_or mt.vendor.digest i 0
                  ≡ get_or (sm.hash (hashed crypto layout mem st obj w mt buffer)) i 0)
    unfolding read_firmware_manifest
    verify_object_sound obj sf buffer buffer' w w' small room h =
        let (err, mt, w1) = read_firmware_manifest mem layout obj w in
        let (read, signed, digest) = verify_object-success obj sf buffer buffer' w w' h in
        let same : st.at obj w1 ≡ st.at obj w =
          fun_ext (λ p. memory_read_same mem st obj obj layout.size_of_manifest 0 w p) in
        (
          read,
          verify_manifest-Authentic mt sf signed,
          λ i l.
              verify_digest_sound crypto layout mem st sm obj mt buffer buffer' w1 w' small room
                digest i l
              ∙ ap
                  (λ f.
                    get_or (sm.hash (slice f mt.vendor.offset (max mt.vendor.size (length buffer))))
                      i 0)
                  same,
        )
