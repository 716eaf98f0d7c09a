-- ===== src/Network/Request/Tests.antt =====
-- Callbacks on the machine of the tests of the state machine.
use upkit.Prelude.{◌+◌, ◌≡◌, refl, false, ℕ, List, [], ◌∷◌, Option, some, none}
use upkit.Errors.{pull_success, is_error}
use upkit.Security.Verifier.{verify_object}
use upkit.Memory.{memory_open, memory_close}
use upkit.Fixtures.{Ram}
use upkit.Network.Fsm.{verify_firmware, fsm, fsm_dispatch, finish_verify, on_verify_firmware}
use upkit.Network.Device.{platform, machine}
use upkit.Network.Fsm.Step.{Verified}
use upkit.Network.Request.{RequestCtx, request_cb, after_fsm}
use upkit.Network.Request.Reboot.{request_cb-reboot}

abbrev waiting : RequestCtx ℕ Ram ℕ ℕ
waiting = record { fsmc = machine verify_firmware; conn = 0; err = pull_success }

context_after : Option (RequestCtx ℕ Ram ℕ ℕ) → RequestCtx ℕ Ram ℕ ℕ
context_after none = waiting
context_after (some ctx) = ctx

request_cb-reboot_example :
    (is_error pull_success ≡ false)
    × (bytes : List ℕ) × (some (0 ∷ []) ≡ some bytes)
    × Verified platform bytes
        (machine verify_firmware)
        (context_after (request_cb platform (λ c. c + 1) pull_success (some (0 ∷ [])) waiting)).fsmc
unfolding request_cb after_fsm fsm fsm_dispatch on_verify_firmware finish_verify verify_object
    memory_open memory_close context_after
request_cb-reboot_example =
    request_cb-reboot platform (λ c. c + 1) pull_success (some (0 ∷ [])) waiting _ refl (λ e. cc)
      refl
