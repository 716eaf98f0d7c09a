-- ===== src/Errors.antt =====
-- include/libpull/common/error.h: the results of the library's functions.
use upkit.Prelude.{Bool, true, false, ◌≡◌, refl}

pub data PullError : Type 0 where
  pull_success : PullError
  generic_error not_implemented_error invalid_arguments_error : PullError
  connection_init_error callback_error resolver_error invalid_url_error : PullError
  block_wise_error invalid_method_error invalid_resource_error invalid_data_error : PullError
  invalid_conn_data_error request_error request_rst_error send_error memory_error : PullError
  invalid_object_error invalid_access_error memory_mapping_error memory_open_error : PullError
  memory_close_error memory_erase_error memory_read_error memory_write_error : PullError
  memory_flush_error read_manifest_error get_newest_error get_oldest_error : PullError
  copy_firmware_error invalidate_object_error write_manifest_error : PullError
  invalid_manifest_error receiver_open_error receiver_chunk_error : PullError
  receiver_close_error invalid_size_error invalid_identity_error network_error : PullError
  subscribe_error subscriber_check_error digest_init_error digest_update_error : PullError
  digest_final_error sha256_init_error sha256_update_error sha256_final_error : PullError
  not_supported_curve_error verification_failed_error pipeline_error : PullError
  invalid_patch_error invalid_version_error invalid_signature_error : PullError
  invalid_state_error sign_failed_error : PullError

-- `if (err)`
abbrev pub is_error : PullError → Bool
is_error pull_success = false
is_error _ = true

pub is_error-false : (e : PullError) → is_error e ≡ false → e ≡ pull_success
is_error-false pull_success h = refl
is_error-false _ h = cc
