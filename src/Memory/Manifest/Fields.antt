-- ===== src/Memory/Manifest/Fields.antt =====
-- src/core/memory/simple_manifest.c: the fields of a manifest, as the rest of the library reads and writes
-- them.
use upkit.Prelude.{ℕ, List, take}
use upkit.Memory.Manifest.{Manifest}

unfoldable pub get_version : Manifest → ℕ
get_version mt = mt.vendor.version

unfoldable pub get_size : Manifest → ℕ
get_size mt = mt.vendor.size

unfoldable pub get_offset : Manifest → ℕ
get_offset mt = mt.vendor.offset

unfoldable pub get_digest : Manifest → List ℕ
get_digest mt = mt.vendor.digest

unfoldable pub get_server_key_x : Manifest → List ℕ
get_server_key_x mt = mt.vendor.server_key_x

unfoldable pub get_server_key_y : Manifest → List ℕ
get_server_key_y mt = mt.vendor.server_key_y

unfoldable pub get_appid : Manifest → ℕ
get_appid mt = mt.vendor.appid

unfoldable pub get_diff_version : Manifest → ℕ
get_diff_version mt = mt.server.diff_version

unfoldable pub get_prop_size : Manifest → ℕ
get_prop_size mt = mt.server.prop_size

unfoldable pub get_nonce : Manifest → ℕ
get_nonce mt = mt.server.nonce

unfoldable pub get_udid : Manifest → ℕ
get_udid mt = mt.server.udid

unfoldable pub set_diff_version : Manifest → ℕ → Manifest
set_diff_version mt diff_version = record mt {
  server = record mt.server { diff_version = diff_version };
}

unfoldable pub set_nonce : Manifest → ℕ → Manifest
set_nonce mt nonce = record mt { server = record mt.server { nonce = nonce } }

unfoldable pub set_udid : Manifest → ℕ → Manifest
set_udid mt udid = record mt { server = record mt.server { udid = udid } }

unfoldable pub set_appid : Manifest → ℕ → Manifest
set_appid mt appid = record mt { vendor = record mt.vendor { appid = appid } }

unfoldable pub set_version : Manifest → ℕ → Manifest
set_version mt version = record mt { vendor = record mt.vendor { version = version } }

unfoldable pub set_size : Manifest → ℕ → Manifest
set_size mt size = record mt { vendor = record mt.vendor { size = size } }

unfoldable pub set_prop_size : Manifest → ℕ → Manifest
set_prop_size mt prop_size = record mt { server = record mt.server { prop_size = prop_size } }

unfoldable pub set_offset : Manifest → ℕ → Manifest
set_offset mt offset = record mt { vendor = record mt.vendor { offset = offset } }

-- Each copies 32 bytes.
unfoldable pub set_digest : Manifest → List ℕ → Manifest
set_digest mt bytes = record mt { vendor = record mt.vendor { digest = take 32 bytes } }

unfoldable pub set_server_key_x : Manifest → List ℕ → Manifest
set_server_key_x mt bytes = record mt { vendor = record mt.vendor { server_key_x = take 32 bytes } }

unfoldable pub set_server_key_y : Manifest → List ℕ → Manifest
set_server_key_y mt bytes = record mt { vendor = record mt.vendor { server_key_y = take 32 bytes } }
