-- ===== src/Memory/Manifest.antt =====
-- include/libpull/memory/simple_manifest.h: the manifest at the start of an image.
pub mod Fields
use upkit.Prelude.{ℕ, List}

pub record VendorManifest : Type 0 where
  pub size : ℕ
  pub offset : ℕ
  pub version : ℕ
  pub appid : ℕ
  pub digest : List ℕ
  pub server_key_x : List ℕ
  pub server_key_y : List ℕ

pub record ServerManifest : Type 0 where
  pub udid : ℕ
  pub nonce : ℕ
  pub diff_version : ℕ
  pub prop_size : ℕ
  pub flags : ℕ

pub record Manifest : Type 0 where
  pub vendor_signature_r : List ℕ
  pub vendor_signature_s : List ℕ
  pub vendor : VendorManifest
  pub server_signature_r : List ℕ
  pub server_signature_s : List ℕ
  pub server : ServerManifest

-- The layout that the compiler gives the structures: `sizeof(manifest_t)`, and what the bytes of an
-- object in memory stand for.
pub record Layout : Type 0 where
  pub size_of_manifest : ℕ
  pub decode : List ℕ → Manifest
  pub encode : Manifest → List ℕ
  pub vendor_bytes : Manifest → List ℕ
  pub server_bytes : Manifest → List ℕ
  -- `mt.server.diff_version = v` on the bytes of a manifest
  pub put_diff_version : ℕ → List ℕ → List ℕ
