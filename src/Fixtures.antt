-- ===== src/Fixtures.antt =====
-- A small concrete platform on which the tests of the modules run: a memory of bytes, a layout of six
-- bytes for the manifest, and a back end whose hash is the input itself.
pub mod Keys
use upkit.Prelude.{
  ℕ, ◌<◌, ◌≤◌, ◌≡◌, refl, ap, true, false, not, List, [], ◌∷◌, ◌++◌, pos, negsuc, length, get_or,
  slice, overlay, arith, if◌then◌else◌, ◌==◌,
}
use upkit.Errors.{pull_success, generic_error}
use upkit.Memory.{MemId, MemSlot, MemoryImpl}
use upkit.Memory.Manifest.{Manifest, Layout}
use upkit.Memory.Stores.{Stores}
use upkit.Security.{Crypto, Safestore}
use upkit.Security.Verifier.Digest.{Streaming}

-- The bytes of each object.
abbrev pub Ram : Type 0
Ram = ℕ → ℕ → ℕ

abbrev pub object_of : MemId → ℕ
object_of (pos n) = n
object_of (negsuc n) = 0

-- Every operation succeeds.
abbrev pub ram : MemoryImpl ℕ Ram
ram = record {
  open_impl = λ o id mode w. (pull_success, object_of id, w);
  read_impl = λ o size offset w. (pos size, slice (w o) offset size, w);
  write_impl = λ o bytes offset w.
      (pos (length bytes), λ o' q. if o == o' then overlay (w o) offset bytes q else w o' q);
  close_impl = λ o w. (pull_success, w);
}

pub pos_injective : {n k : ℕ} → pos n ≡ pos k → n ≡ k
pos_injective h = cc

pub read_bytes_lem :
    (o size offset : ℕ) (w : Ram) (k : ℕ)
    → pos size ≡ pos k
    → (slice (w o) offset size ≡ slice (w o) offset k) × (k ≤ size)
read_bytes_lem o size offset w k h =
    let e : size ≡ k = pos_injective h in (ap (slice (w o) offset) e, omega arith)

pub write_same : (o : ℕ) (x y : ℕ) → (if o == o then x else y) ≡ x
write_same o x y = ground arith

pub write_other : (o o' x y : ℕ) → not (o == o') ≡ true → (if o == o' then x else y) ≡ y
write_other o o' x y h = ground arith

pub no_error : {n k : ℕ} → pos n ≡ negsuc k → k < 32768
no_error h = cc

pub count_le : {n k : ℕ} → n ≡ k → k ≤ n
count_le h = omega arith

abbrev pub ram_stores : Stores ram
ram_stores = record {
  at = λ o w. w o;
  apart = λ o o'. not (o == o');
  read_bytes = read_bytes_lem;
  read_error = λ o size offset w k h. no_error h;
  read_same = λ o o' size offset w p. refl;
  write_bytes = λ o bytes offset w p h. write_same o (overlay (w o) offset bytes p) (w o p);
  write_error = λ o bytes offset w k h. no_error h;
  write_count = λ o bytes offset w k h. count_le (pos_injective h);
  write_apart =
      λ o o' bytes offset w p h. write_other o o' (overlay (w o) offset bytes p) (w o' p) h;
}

-- version, appid, size, offset, and two bytes of digest
abbrev pub decode : List ℕ → Manifest
decode bs = record {
  vendor_signature_r = 1 ∷ [];
  vendor_signature_s = [];
  vendor = record {
    size = get_or bs 2 0;
    offset = get_or bs 3 0;
    version = get_or bs 0 0;
    appid = get_or bs 1 0;
    digest = get_or bs 4 0 ∷ get_or bs 5 0 ∷ [];
    server_key_x = 1 ∷ [];
    server_key_y = [];
  };
  server_signature_r = 1 ∷ [];
  server_signature_s = [];
  server = record { udid = 0; nonce = 0; diff_version = 0; prop_size = get_or bs 2 0; flags = 0 };
}

abbrev pub encode : Manifest → List ℕ
encode mt =
    mt.vendor.version
    ∷ mt.vendor.appid
    ∷ mt.vendor.size
    ∷ mt.vendor.offset
    ∷ get_or mt.vendor.digest 0 0
    ∷ get_or mt.vendor.digest 1 0
    ∷ []

abbrev pub layout : Layout
layout = record {
  size_of_manifest = 6;
  decode = decode;
  encode = encode;
  vendor_bytes = encode;
  server_bytes = λ mt. mt.server.prop_size ∷ [];
  put_diff_version = λ v bs. bs;
}

-- A signature is right if it begins as the key does.
abbrev pub crypto : Crypto (List ℕ)
crypto = record {
  digest_init = (pull_success, []);
  digest_update = λ d xs. (pull_success, d ++ xs);
  digest_finalize = λ d. d;
  digest_size = 2;
  ecc_verify = λ x y r s h n. if get_or x 0 0 == get_or r 0 0 then pull_success else generic_error;
}

abbrev pub streaming : Streaming crypto
streaming = record {
  absorbed = λ d. d;
  hash = λ xs. xs;
  init = λ _. refl;
  update = λ d xs _. refl;
  finalize = λ d. refl;
}

abbrev pub safestore : Safestore
safestore = record { keystore = record { x = 1 ∷ []; y = [] }; udid = 40; appid = 5; aes_key = [] }

-- Slot 1 runs version 3, slot 2 holds version 2, and slot 3 version 4 with an image of four bytes.
abbrev pub first_slot : MemSlot
first_slot = record { id = pos 1; bootable = true; loaded = true }

abbrev pub other_slots : List MemSlot
other_slots =
    record { id = pos 2; bootable = true; loaded = false }
    ∷ record { id = pos 3; bootable = false; loaded = false }
    ∷ record { id = negsuc 0; bootable = false; loaded = false }
    ∷ []

abbrev pub slots : List MemSlot
slots = first_slot ∷ other_slots

abbrev pub image : ℕ → List ℕ
image v = v ∷ 5 ∷ 4 ∷ 6 ∷ 7 ∷ 9 ∷ 7 ∷ 9 ∷ 8 ∷ 8 ∷ []

abbrev pub device : Ram
device o p =
    get_or
      (if o == 1 then image 3 else (if o == 2 then image 2 else (if o == 3 then image 4 else []))) p
      0
