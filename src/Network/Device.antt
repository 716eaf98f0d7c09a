-- ===== src/Network/Device.antt =====
-- The platform of `Fixtures` with a random number generator that counts, and a state machine on it, for
-- the tests.
use upkit.Prelude.{◌+◌, ℕ, List, pos, replicate}
use upkit.Errors.{pull_success}
use upkit.Fixtures.{Ram, ram, layout, crypto, safestore, slots, device}
use upkit.Network.Fsm.{State, Platform, Fsm}

abbrev pub platform : Platform (List ℕ) ℕ Ram ℕ
platform = record {
  mem = ram;
  layout = layout;
  crypto = crypto;
  slots = slots;
  rng_init = λ r. (pull_success, r);
  rng_generate = λ r. (pull_success, r, r + 1);
  size_of_receiver_msg = 16;
  as_bytes = λ is. is.mt;
  as_internal = λ bs. record { mt = bs; nonce = 0 };
}

abbrev pub machine : State → Fsm ℕ Ram ℕ
machine st = record {
  state = st;
  version = 3;
  sf = safestore;
  processed = 0;
  expected = 10;
  id = pos 3;
  obj = 3;
  rctx = 77;
  old_id = pos 1;
  old_obj = 1;
  internal = record { mt = replicate 6 0; nonce = 0 };
  buffer_ctx = record { buffer = replicate 1000 0; used = 0 };
  written = 0;
  dev = device;
}
