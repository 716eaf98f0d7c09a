-- ===== src/Network/Fsm/Tests.antt =====
-- Calls of the state machine on the platform of `Fixtures`.
use upkit.Prelude.{◌<◌, ◌≡◌, ◌≢◌, ◌⊎◌, refl, ℕ, [], ◌∷◌, Option, some, none}
use upkit.Errors.{invalid_version_error}
use upkit.Security.Verifier.{verify_object}
use upkit.Security.Verifier.Signature.{Authentic}
use upkit.Fixtures.{Ram, layout, crypto, safestore}
use upkit.Network.Fsm.{
  Fsm, Reply, clean, idle, start_update, receive_manifest, verify_manifest_state, verify_firmware,
  fsm, fsm_dispatch, finish_verify, on_verify_firmware, on_idle, on_receive_manifest,
  on_verify_manifest, store_manifest, after_manifest, after_rest, open_target, run_pipeline,
  fill_manifest,
}
use upkit.Pipeline.Buffer.{buffer_pipeline, fill, fill_round, pipeline_buffer_init}
use upkit.Pipeline.Writer.{writer_pipeline}
use upkit.Memory.{memory_open, memory_close}
use upkit.Memory.Objects.{get_oldest_firmware}
use upkit.Security.Verifier.{verify_manifest}
use upkit.Network.Device.{platform, machine}
use upkit.Network.Fsm.Step.{Verified}
use upkit.Network.Fsm.Machine.{Next, fsm-Next, fsm_verifies, fsm_accepts, fsm-error}

-- A version of three bytes is refused.
refused :
    fsm platform (1 ∷ 2 ∷ 3 ∷ []) (machine idle)
    ≡ some (record { err = invalid_version_error; fsm = machine clean; msg = none })
unfolding fsm fsm_dispatch on_idle
refused = refl

fsm-error_example : (clean ≡ clean) ⊎ (clean ≡ idle)
unfolding fsm fsm_dispatch on_idle
fsm-error_example = fsm-error platform (1 ∷ 2 ∷ 3 ∷ []) (machine idle) _ refl refl

fsm-Next_example : Next idle start_update × (start_update ≢ verify_manifest_state)
unfolding fsm fsm_dispatch on_idle
fsm-Next_example = fsm-Next platform (4 ∷ 0 ∷ []) (machine idle) _ refl

-- The device after the call.
state_after : Option (Reply ℕ Ram ℕ) → Fsm ℕ Ram ℕ
state_after none = machine verify_firmware
state_after (some r) = r.fsm

fsm_verifies_example :
    Verified platform
      (0 ∷ [])
      (machine verify_firmware)
      (state_after (fsm platform (0 ∷ []) (machine verify_firmware)))
unfolding fsm fsm_dispatch on_verify_firmware finish_verify verify_object memory_open memory_close
    state_after
fsm_verifies_example =
    fsm_verifies platform (0 ∷ []) (machine verify_firmware) _ refl (λ e. cc) refl

fsm_accepts_example :
    (3 < 4) × Authentic crypto layout (layout.decode (4 ∷ 5 ∷ 4 ∷ 6 ∷ 7 ∷ 9 ∷ [])) safestore
unfolding fsm fsm_dispatch on_receive_manifest on_verify_manifest store_manifest after_manifest
    after_rest open_target run_pipeline fill_manifest buffer_pipeline fill fill_round
    pipeline_buffer_init writer_pipeline memory_open memory_close get_oldest_firmware
    verify_manifest
fsm_accepts_example =
    fsm_accepts platform (4 ∷ 5 ∷ 4 ∷ 6 ∷ 7 ∷ 9 ∷ []) (machine receive_manifest) _ refl refl refl
