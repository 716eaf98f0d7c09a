-- ===== src/Security.antt =====
-- include/libpull/security/digest.h, ecc.h and safestore.h: what the library asks of a cryptographic
-- back end, and the keys of the device. The back ends call libraries that are not in the repository.
pub mod Verifier
pub mod Signing
use upkit.Prelude.{ℕ, List}
use upkit.Errors.{PullError}

-- `D` is `digest_ctx`. The verification takes x, y, r, s and the hash with its length.
pub record Crypto (D : Type 0) : Type 0 where
  pub digest_init : PullError × D
  pub digest_update : D → List ℕ → PullError × D
  pub digest_finalize : D → List ℕ
  pub digest_size : ℕ
  pub ecc_verify : List ℕ → List ℕ → List ℕ → List ℕ → List ℕ → ℕ → PullError

pub record Keystore : Type 0 where
  pub x : List ℕ
  pub y : List ℕ

pub record Safestore : Type 0 where
  pub keystore : Keystore
  pub udid : ℕ
  pub appid : ℕ
  pub aes_key : List ℕ
