-- ===== src/Security/Signing/RoundTrip.antt =====
-- A manifest that has been signed by the vendor and by the server is accepted by a device.
use upkit.Prelude.{
  ℕ, zero, suc, ◌+◌, ◌≤◌, ◌≡◌, refl, ap, subst, Bool, true, false, List, [], ◌∷◌, ◌++◌, length,
  take, drop, memcpy, arith,
}
use upkit.Errors.{pull_success, is_error}
use upkit.Memory.Manifest.{Manifest, Layout}
use upkit.Security.{Crypto, Safestore}
use upkit.Security.Verifier.{verify_manifest}
use upkit.Security.Verifier.Signature.{Signed, Authentic-verify_manifest}
use upkit.Security.Signing.{
  Signer, set_vendor_signature_r, set_vendor_signature_s, set_server_signature_r,
  set_server_signature_s, sign_data, sign_manifest_vendor, sign_manifest_server,
}

-- What the library relies on: a signature has two parts of 32 bytes, and one that has been made with a
-- private key is valid under the public key that belongs to it.
pub record Signs {D : Type 0} (crypto : Crypto D) (signer : Signer) : Type 0 where
  pub belongs : List ℕ → List ℕ → List ℕ → Bool
  pub curve : signer.curve_size ≡ 32
  pub parts :
      (k hash : List ℕ) (n : ℕ)
      → is_error (signer.ecc_sign k hash n).0 ≡ false
      → length (signer.ecc_sign k hash n).1 ≡ 64
  pub valid :
      (k x y hash : List ℕ) (n : ℕ)
      → belongs k x y ≡ true
      → is_error (signer.ecc_sign k hash n).0 ≡ false
      → let bytes = (signer.ecc_sign k hash n).1 in
        is_error (crypto.ecc_verify x y (take 32 bytes) (take 32 (drop 32 bytes)) hash n) ≡ false

-- The bytes of a part of the manifest are those of its fields.
pub record Local (layout : Layout) : Type 0 where
  pub vendor :
      (m n : Manifest) → m.vendor ≡ n.vendor → layout.vendor_bytes m ≡ layout.vendor_bytes n
  pub server :
      (m n : Manifest) → m.server ≡ n.server → layout.server_bytes m ≡ layout.server_bytes n

take-append_le : (n : ℕ) (xs ys : List ℕ) → n ≤ length xs → take n (xs ++ ys) ≡ take n xs
take-append_le zero xs ys h = refl
take-append_le (suc n) [] ys h = absurd (omega arith)
take-append_le (suc n) (x ∷ xs) ys h = ap (λ t. x ∷ t) (take-append_le n xs ys (omega arith))

take-drop-append :
    (k n : ℕ) (xs ys : List ℕ) → k + n ≤ length xs → take n (drop k (xs ++ ys)) ≡ take n (drop k xs)
take-drop-append zero n xs ys h = take-append_le n xs ys (omega arith)
take-drop-append (suc k) n [] ys h = absurd (omega arith)
take-drop-append (suc k) n (x ∷ xs) ys h = take-drop-append k n xs ys (omega arith)

module _ {D : Type 0} (crypto : Crypto D) (layout : Layout) (signer : Signer) where
  digest_of : List ℕ → List ℕ
  digest_of bytes = crypto.digest_finalize (crypto.digest_update crypto.digest_init.1 bytes).1

  sign_data-success :
      (bytes k buffer : List ℕ)
      → (sign_data crypto layout signer bytes k buffer).0 ≡ pull_success
      → (is_error crypto.digest_init.0 ≡ false)
        × (is_error (signer.ecc_sign k (digest_of bytes) crypto.digest_size).0 ≡ false)
        × ((sign_data crypto layout signer bytes k buffer).1
            ≡ memcpy buffer 0 (signer.ecc_sign k (digest_of bytes) crypto.digest_size).1)
  unfolding sign_data digest_of
  sign_data-success bytes k buffer h = ground arith

  module _ (sg : Signs crypto signer) where
    -- What `sign_data` leaves in its buffer is a signature over the bytes.
    sign_data-Signed :
        (bytes k buffer x y : List ℕ)
        → sg.belongs k x y ≡ true
        → (sign_data crypto layout signer bytes k buffer).0 ≡ pull_success
        → let b = (sign_data crypto layout signer bytes k buffer).1 in
          Signed crypto layout bytes x y (take 32 b) (take 32 (drop 32 b))
    unfolding digest_of
    sign_data-Signed bytes k buffer x y m h =
        let (_, ok, e) = sign_data-success bytes k buffer h in
        let sig = (signer.ecc_sign k (digest_of bytes) crypto.digest_size).1 in
        let len : length sig ≡ 64 = sg.parts k (digest_of bytes) crypto.digest_size ok in
        let rest = drop (0 + length sig) buffer in
        rw
          (
            e,
            take-append_le 32 sig rest (omega (arith, len)),
            take-drop-append 32 32 sig rest (omega (arith, len)),
          )
          (sg.valid k x y (digest_of bytes) crypto.digest_size m ok)

    pub vendor_signed :
        (mt : Manifest) (k buffer : List ℕ)
        → let (err, b) = sign_data crypto layout signer (layout.vendor_bytes mt) k buffer in
          sign_manifest_vendor crypto layout signer mt k buffer ≡ (
            err,
            record mt { vendor_signature_r = take 32 b; vendor_signature_s = take 32 (drop 32 b) },
            b,
          )
    unfolding sign_manifest_vendor set_vendor_signature_r set_vendor_signature_s
    vendor_signed mt k buffer = rw (sg.curve) refl

    pub server_signed :
        (mt : Manifest) (k buffer : List ℕ)
        → let (err, b) = sign_data crypto layout signer (layout.server_bytes mt) k buffer in
          sign_manifest_server crypto layout signer mt k buffer ≡ (
            err,
            record mt { server_signature_r = take 32 b; server_signature_s = take 32 (drop 32 b) },
            b,
          )
    unfolding sign_manifest_server set_server_signature_r set_server_signature_s
    server_signed mt k buffer = rw (sg.curve) refl

    -- A manifest that the vendor signs, and the server after it, both without an error, is accepted by
    -- `verify_manifest` on a device of the same application that has the vendor's public key, if the
    -- manifest states the public key of the server.
    pub verify_manifest-sign_manifest :
        (mt : Manifest) (sf : Safestore) (vendor_key server_key buffer : List ℕ)
        → Local layout
        → mt.vendor.appid ≡ sf.appid
        → sg.belongs vendor_key sf.keystore.x sf.keystore.y ≡ true
        → sg.belongs server_key mt.vendor.server_key_x mt.vendor.server_key_y ≡ true
        → let (err1, mt1, buffer1) =
            sign_manifest_vendor crypto layout signer mt vendor_key buffer in
          let (err2, mt2, buffer2) =
            sign_manifest_server crypto layout signer mt1 server_key buffer1 in
          err1 ≡ pull_success
          → err2 ≡ pull_success
          → verify_manifest crypto layout mt2 sf ≡ pull_success
    verify_manifest-sign_manifest mt sf kv ks buffer lo app bv bs =
        let (e1, b1) = sign_data crypto layout signer (layout.vendor_bytes mt) kv buffer in
        let m1 : Manifest = record mt {
          vendor_signature_r = take 32 b1;
          vendor_signature_s = take 32 (drop 32 b1);
        } in
        let (e2, b2) = sign_data crypto layout signer (layout.server_bytes m1) ks b1 in
        let m2 : Manifest = record m1 {
          server_signature_r = take 32 b2;
          server_signature_s = take 32 (drop 32 b2);
        } in
        rw (vendor_signed mt kv buffer, server_signed m1 ks b1)
          (λ h1 h2.
            Authentic-verify_manifest crypto layout m2 sf
              (sign_data-success (layout.vendor_bytes mt) kv buffer h1).0
              (record {
                app = app;
                vendor =
                    subst
                      (λ t.
                        Signed crypto layout t sf.keystore.x sf.keystore.y (take 32 b1)
                          (take 32 (drop 32 b1)))
                      (lo.vendor mt m2 refl)
                      (sign_data-Signed (layout.vendor_bytes mt) kv buffer _ _ bv h1);
                server =
                    subst
                      (λ t.
                        Signed crypto layout t mt.vendor.server_key_x mt.vendor.server_key_y
                          (take 32 b2) (take 32 (drop 32 b2)))
                      (lo.server m1 m2 refl)
                      (sign_data-Signed (layout.server_bytes m1) ks b1 _ _ bs h2);
              }))
