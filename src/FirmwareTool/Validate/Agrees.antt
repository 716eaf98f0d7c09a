-- ===== src/FirmwareTool/Validate/Agrees.antt =====
-- utils/firmware_tool/commands/manifest.cpp: what the command reports of a manifest, the image and the keys.
use upkit.Prelude.{
  ℕ, ◌+◌, ◌≡◌, ◌↔◌, refl, sym, ap, ap₂, subst, ◌∙◌, Bool, true, false, not, List, [], ◌∷◌, ◌++◌,
  Option, some, if◌then◌else◌, ◌&&◌, ◌==◌, ==_iff, length, take, drop, arith,
}
use upkit.Errors.{PullError, pull_success, is_error, invalid_signature_error}
use upkit.Memory.Manifest.{Manifest, Layout}
use upkit.Memory.Manifest.Fields.{get_size, get_digest, get_server_key_x, get_server_key_y}
use upkit.Security.{Crypto, Keystore, Safestore}
use upkit.Security.Verifier.{same_digest, verify_signature, verify_manifest}
use upkit.Security.Verifier.Digest.{Streaming}
use upkit.Security.Signing.{Signer}
use upkit.FirmwareTool.Generate.{hash_loop}
use upkit.FirmwareTool.Generate.Hash.{hash_loop_lem}
use upkit.FirmwareTool.Validate.Compare.{Agree, same_digest_iff, same_digest-take, memcpy_all}
use upkit.FirmwareTool.Validate.{
  Subject, Leftover, Report, item_size, item_digest, item_server_key_x, item_server_key_y,
  item_signature, read_manifest, server_buffer, vendor_keystore, check_keys, check_digest,
  manifest_validate_command, Item,
}

-- No item is reported as invalid.
abbrev pub all_valid : List (Item × Bool) → Bool
all_valid [] = true
all_valid ((i, valid) ∷ items) = valid && all_valid items

five :
    (a b c d e : Bool)
    → (a && (b && (c && (d && (e && true)))) ≡ true)
      ↔ ((a ≡ true) × (b ≡ true) × (c ≡ true) × (d ≡ true) × (e ≡ true))
five a b c d e = ground arith

succeeds : (e : PullError) → (not (is_error e) ≡ true) ↔ (e ≡ pull_success)
succeeds e = ground arith

past :
    (b : Bool) (x : Report) (o : Option Report) (m : Report)
    → b ≡ false
    → o ≡ some m
    → (if b then some x else o) ≡ some m
past true x o m e h = cc
past false x o m e h = h

module _ {D : Type 0} (crypto : Crypto D) (layout : Layout) (signer : Signer)
    (sm : Streaming crypto) (rq : Subject) (un : Leftover) where
  -- Nothing that the command needs is missing, and the files have the sizes of what is read from them.
  pub record Able : Type 0 where
    pub manifest : rq.manifest.opens ≡ true
    pub binary : rq.binary.opens ≡ true
    pub server_pub_key : rq.server_pub_key.opens ≡ true
    pub vendor_pub_key : rq.vendor_pub_key.opens ≡ true
    pub manifest_size : length rq.manifest.content ≡ layout.size_of_manifest
    pub mt_size : length un.mt_bytes ≡ layout.size_of_manifest
    pub server_size : length rq.server_pub_key.content ≡ 64
    pub server_buffer_size : length un.server_public_key_buffer ≡ 64
    pub vendor_size : length rq.vendor_pub_key.content ≡ 64
    pub vendor_buffer_size : length un.vendor_public_key_buffer ≡ 64
    pub init : is_error crypto.digest_init.0 ≡ false
    pub update : (c : D) (xs : List ℕ) → is_error (crypto.digest_update c xs).0 ≡ false

  -- The manifest is that of the image, it states the server's key, and the device accepts it.
  abbrev pub Belongs : Manifest → Safestore → Type 0
  Belongs mt sf =
      (mt.vendor.size ≡ length rq.binary.content)
      × Agree crypto.digest_size mt.vendor.digest (sm.hash rq.binary.content)
      × Agree 32 mt.vendor.server_key_x (take 32 rq.server_pub_key.content)
      × Agree 32 mt.vendor.server_key_y (drop 32 rq.server_pub_key.content)
      × (verify_manifest crypto layout mt sf ≡ pull_success)

  -- What the code tests.
  abbrev Tested : Manifest → List ℕ → Keystore → Type 0
  Tested mt key ks =
      (get_size mt ≡ length rq.binary.content)
      × (same_digest crypto.digest_size (get_digest mt) (sm.hash rq.binary.content) ≡ true)
      × (same_digest 32 (get_server_key_x mt) key ≡ true)
      × (same_digest 32 (get_server_key_y mt) (drop 32 key) ≡ true)
      × (verify_signature crypto layout mt ks ≡ pull_success)

  -- The command ends with success, and all its items are valid just where `P` holds.
  pub record Reported (P : Type 0) (o : Option Report) : Type 0 where
    pub report : Report
    pub ends : o ≡ some report
    pub success : report.exit_success ≡ true
    pub valid : (all_valid report.items ≡ true) ↔ P

  abbrev checked : Manifest → Bool → Bool → Report
  checked mt s d = record {
    exit_success = true;
    items =
        (item_size, s)
        ∷ (item_digest, d)
        ∷ (item_server_key_x, same_digest 32 (get_server_key_x mt) (server_buffer rq un))
        ∷ (item_server_key_y, same_digest 32 (get_server_key_y mt) (drop 32 (server_buffer rq un)))
        ∷ (
          item_signature,
          not (is_error (verify_signature crypto layout mt (vendor_keystore rq un))),
        )
        ∷ [];
  }

  check_keys_lem :
      (mt : Manifest) (s d : Bool)
      → Able
      → check_keys crypto layout signer rq un mt ((item_size, s) ∷ (item_digest, d) ∷ [])
        ≡ checked mt s d
  unfolding check_keys
  check_keys_lem mt s d a = rw (a.server_pub_key, a.vendor_pub_key) refl

  hashed :
      (mt : Manifest) (s : Bool) (err : PullError) (ctx : D) (hash : List ℕ)
      → Able
      → is_error err ≡ false
      → crypto.digest_finalize ctx ≡ hash
      → check_digest crypto layout signer rq un mt ((item_size, s) ∷ []) (some (err, ctx))
        ≡ some (checked mt s (same_digest crypto.digest_size (get_digest mt) hash))
  unfolding check_digest
  hashed mt s err ctx hash a e h =
      ap
        (λ b. some (
          if b
          then record { exit_success = false; items = (item_size, s) ∷ [] }
          else check_keys crypto layout signer rq un mt (
              (item_size, s)
              ∷ (
                item_digest,
                same_digest crypto.digest_size (get_digest mt) (crypto.digest_finalize ctx),
              )
              ∷ [])))
        e
      ∙ (ap some (check_keys_lem mt s _ a)
          ∙ ap (λ t. some (checked mt s (same_digest crypto.digest_size (get_digest mt) t))) h)

  valid_iff :
      (mt : Manifest) (s d : Bool)
      → (s ≡ true) ↔ (get_size mt ≡ length rq.binary.content)
      → (all_valid (checked mt s d).items ≡ true) ↔ (
          (get_size mt ≡ length rq.binary.content)
          × (d ≡ true)
          × (same_digest 32 (get_server_key_x mt) (server_buffer rq un) ≡ true)
          × (same_digest 32 (get_server_key_y mt) (drop 32 (server_buffer rq un)) ≡ true)
          × (verify_signature crypto layout mt (vendor_keystore rq un) ≡ pull_success))
  valid_iff mt s d f =
      let x = same_digest 32 (get_server_key_x mt) (server_buffer rq un) in
      let y = same_digest 32 (get_server_key_y mt) (drop 32 (server_buffer rq un)) in
      let err = verify_signature crypto layout mt (vendor_keystore rq un) in
      let g = five s d x y (not (is_error err)) in
      let e = succeeds err in
      (
        λ h. let (h0, h1, h2, h3, h4) = g.0 h in (f.0 h0, h1, h2, h3, e.0 h4),
        λ (h0, h1, h2, h3, h4). g.1 (f.1 h0, h1, h2, h3, e.1 h4),
      )

  tested :
      Able
      → Reported
          (Tested
            (read_manifest crypto layout signer rq un)
            (server_buffer rq un)
            (vendor_keystore rq un))
          (manifest_validate_command crypto layout signer rq un)
  unfolding manifest_validate_command
  tested a =
      let mt = read_manifest crypto layout signer rq un in
      let content = rq.binary.content in
      let s = get_size mt == length content in
      let d = same_digest crypto.digest_size (get_digest mt) (sm.hash content) in
      let hd =
        hash_loop_lem crypto layout signer sm (length content + 1) content crypto.digest_init.1
          (omega arith) in
      let right : crypto.digest_finalize hd.ctx ≡ sm.hash content =
        sm.finalize hd.ctx
        ∙ ap sm.hash (hd.taken (hd.fine a.update) ∙ ap (λ t. t ++ content) (sm.init a.init)) in
      let sized = ap (λ b. get_size mt == (if b then length content else un.st_size)) a.binary in
      record {
        report = checked mt s d;
        ends = past _ _ _ _ (ap not a.manifest) (
            past _ _ _ _ a.init (
              past _ _ _ _ (ap not a.binary) (
                ap
                  (λ t. check_digest crypto layout signer rq un mt ((item_size, t) ∷ []) (
                    hash_loop crypto layout signer (length content + 1) content
                      crypto.digest_init.1))
                  sized
                ∙ (ap (check_digest crypto layout signer rq un mt ((item_size, s) ∷ [])) hd.ends
                    ∙ hashed mt s hd.err hd.ctx (sm.hash content) a (hd.fine a.update) right))));
        success = refl;
        valid = valid_iff mt s d (==_iff (get_size mt) (length content));
      }

  read_whole : Able → read_manifest crypto layout signer rq un ≡ layout.decode rq.manifest.content
  unfolding read_manifest
  read_whole a =
      ap layout.decode (
        memcpy_all layout.size_of_manifest un.mt_bytes rq.manifest.content a.mt_size
          a.manifest_size)

  vendor_keystore_lem :
      Able
      → vendor_keystore rq un ≡ record {
        x = take 32 rq.vendor_pub_key.content;
        y = take 32 (drop 32 rq.vendor_pub_key.content);
      }
  vendor_keystore_lem a =
      ap (λ key. record { x = take 32 key; y = take 32 (drop 32 key) })
        (memcpy_all 64 un.vendor_public_key_buffer rq.vendor_pub_key.content a.vendor_buffer_size
          a.vendor_size)

  verify_manifest-verify_signature :
      (mt : Manifest) (sf : Safestore)
      → mt.vendor.appid ≡ sf.appid
      → verify_manifest crypto layout mt sf ≡ verify_signature crypto layout mt sf.keystore
  unfolding verify_manifest
  verify_manifest-verify_signature mt sf h =
      ap
        (λ c.
          if not c then invalid_signature_error else verify_signature crypto layout mt sf.keystore)
        ((==_iff mt.vendor.appid sf.appid).1 h)

  Tested-Belongs :
      (mt : Manifest) (sf : Safestore)
      → mt.vendor.appid ≡ sf.appid
      → Tested mt rq.server_pub_key.content sf.keystore ↔ Belongs mt sf
  unfolding get_size get_digest get_server_key_x get_server_key_y
  Tested-Belongs mt sf h =
      let key = rq.server_pub_key.content in
      let e = verify_manifest-verify_signature mt sf h in
      let d = same_digest_iff crypto.digest_size mt.vendor.digest (sm.hash rq.binary.content) in
      let x = same_digest-take 32 mt.vendor.server_key_x key in
      let y = same_digest_iff 32 mt.vendor.server_key_y (drop 32 key) in
      (
        λ (a, b, c, f, g). (a, d.0 b, x.0 c, y.0 f, e ∙ g),
        λ (a, b, c, f, g). (a, d.1 b, x.1 c, y.1 f, sym e ∙ g),
      )

  -- Let the four files be opened, the manifest's file be of the size of a manifest and those of the keys of 64
  -- bytes, as the buffers are, and no call of the back end that hashes fail. Let a device have the vendor's key, and
  -- the application that the manifest in the file states. Then the command ends and succeeds, and no item is
  -- reported as invalid just if the manifest states the size of the image, its hash byte for byte and the server's
  -- key byte for byte, and `verify_manifest` accepts it on the device.
  pub manifest_validate_command-Reported :
      (sf : Safestore)
      → Able
      → sf.keystore.x ≡ take 32 rq.vendor_pub_key.content
      → sf.keystore.y ≡ take 32 (drop 32 rq.vendor_pub_key.content)
      → (layout.decode rq.manifest.content).vendor.appid ≡ sf.appid
      → Reported
          (Belongs (layout.decode rq.manifest.content) sf)
          (manifest_validate_command crypto layout signer rq un)
  manifest_validate_command-Reported sf a x y app =
      let r = tested a in
      let mt = layout.decode rq.manifest.content in
      let key =
        memcpy_all 64 un.server_public_key_buffer rq.server_pub_key.content a.server_buffer_size
          a.server_size in
      let ks : vendor_keystore rq un ≡ sf.keystore =
        vendor_keystore_lem a ∙ sym (ap₂ (λ u v. record { x = u; y = v }) x y) in
      let same : Tested (read_manifest crypto layout signer rq un) (server_buffer rq un)
            (vendor_keystore rq un)
          ≡ Tested mt rq.server_pub_key.content sf.keystore =
        ap (λ m. Tested m (server_buffer rq un) (vendor_keystore rq un)) (read_whole a)
        ∙ (ap (λ k. Tested mt k (vendor_keystore rq un)) key
            ∙ ap (Tested mt rq.server_pub_key.content) ks) in
      let v = subst (λ P. (all_valid r.report.items ≡ true) ↔ P) same r.valid in
      let b = Tested-Belongs mt sf app in
      record {
        report = r.report;
        ends = r.ends;
        success = r.success;
        valid = (λ h. b.0 (v.0 h), λ h. v.1 (b.1 h));
      }
