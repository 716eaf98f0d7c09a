-- ===== src/Network/Fsm.antt =====
-- src/core/network/fsm.c and include/libpull/network/fsm.h: the state machine that receives an update.
pub mod Step
pub mod Machine
mod Tests
use upkit.Prelude.{
  ℕ, zero, suc, ◌+◌, ◌-◌, ◌*◌, Bool, true, false, not, List, [], ◌∷◌, Option, none, some, ℤ, pos,
  u32, if◌then◌else◌, ltb, leb, ◌==◌, length, get_or, set, replicate,
}
use upkit.Errors.{
  PullError, pull_success, invalid_version_error, invalid_state_error, invalid_signature_error,
  invalid_size_error, pipeline_error, is_error,
}
use upkit.Pipeline.Buffer.{BufferCtx, pipeline_buffer_init, buffer_pipeline, pipeline_buffer_clear}
use upkit.Pipeline.Writer.{Writer, pipeline_writer_init, writer_pipeline}
use upkit.Memory.{
  MemId, MemSlot, MemoryImpl, MemMode, read_only, write_all, memory_open, memory_close,
}
use upkit.Memory.Manifest.{Manifest, Layout}
use upkit.Memory.Objects.{get_newest_firmware, get_oldest_firmware}
use upkit.Security.{Crypto, Safestore}
use upkit.Security.Verifier.{verify_manifest, verify_object}

pub data State : Type 0 where
  clean idle start_update receive_manifest verify_manifest_state receive_firmware verify_firmware
        reboot :
      State

-- What of `fsm_internal_state_t` outlives a call. It lives in the static array `buffer`.
pub record Internal : Type 0 where
  pub mt : List ℕ
  pub nonce : ℕ

-- `receiver_msg_t`, but for `offset`, which `fsm` does not write.
pub record ReceiverMsg : Type 0 where
  pub udid : ℕ
  pub nonce : ℕ
  pub version : ℕ

-- What the platform gives: the slots, the random numbers, the size of `receiver_msg_t`, and how the
-- static array `buffer` is read as bytes and as the internal state.
pub record Platform (D O W R : Type 0) : Type 0 where
  pub mem : MemoryImpl O W
  pub layout : Layout
  pub crypto : Crypto D
  pub slots : List MemSlot
  pub rng_init : R → PullError × R
  pub rng_generate : R → PullError × ℕ × R
  pub size_of_receiver_msg : ℕ
  pub as_bytes : Internal → List ℕ
  pub as_internal : List ℕ → Internal

-- `fsm_ctx_t`, with the static data that `fsm` works on and the device.
pub record Fsm (O W R : Type 0) : Type 0 where
  pub state : State
  pub version : ℕ
  pub sf : Safestore
  pub processed : ℕ
  pub expected : ℕ
  pub id : MemId
  pub obj : O
  pub rctx : R
  pub old_id : MemId
  pub old_obj : O
  pub internal : Internal
  pub buffer_ctx : BufferCtx
  pub written : ℕ
  pub dev : W

-- The result of a call, with the message that it left in the caller's buffer.
pub record Reply (O W R : Type 0) : Type 0 where
  pub err : PullError
  pub fsm : Fsm O W R
  pub msg : Option ReceiverMsg

-- `*((version_t*)buf)`, on a little-endian machine.
abbrev pub version_of_bytes : List ℕ → ℕ
version_of_bytes buf = get_or buf 0 0 + 256 * get_or buf 1 0

-- The loop that fills the manifest: the manifest, `processed`, and the bytes from `bufp` on.
unfoldable pub fill_manifest : ℕ → List ℕ → ℕ → List ℕ → List ℕ × ℕ × List ℕ
fill_manifest size mt processed [] = (mt, processed, [])
fill_manifest size mt processed (b ∷ bs) =
    let rest = fill_manifest size (set mt processed b) (processed + 1) bs in
    if ltb processed size then rest else (mt, processed, b ∷ bs)

-- `ret == n`
abbrev pub ret_is : ℤ → ℕ → Bool
ret_is (pos n) m = n == m
ret_is (ℤ.negsuc n) m = false

module _ {D O W R : Type 0} (pl : Platform D O W R) where
  -- `return err;` with nothing in the caller's buffer, in a state.
  abbrev pub reply : PullError → State → Fsm O W R → Option (Reply O W R)
  reply err st f = some (record { err = err; fsm = record f { state = st }; msg = none })

  abbrev pub piped : Fsm O W R → Option (ℤ × BufferCtx × Writer W) → Option (ℤ × Fsm O W R)
  piped f none = none
  piped f (some (ret, c, s)) =
      some (ret, record f { buffer_ctx = c; written = s.written; dev = s.dev })

  -- The buffer stage with the writer behind it, on the object of the update.
  unfoldable pub run_pipeline : List ℕ → Fsm O W R → Option (ℤ × Fsm O W R)
  run_pipeline bytes f = piped f (
      buffer_pipeline (writer_pipeline pl.mem f.obj) bytes f.buffer_ctx
        (record { written = f.written; dev = f.dev }))

  unfoldable pub clear_pipeline : Fsm O W R → Fsm O W R
  clear_pipeline f =
      let (ret, c, s) =
        pipeline_buffer_clear (writer_pipeline pl.mem f.obj) f.buffer_ctx
          (record { written = f.written; dev = f.dev }) in
      record f { buffer_ctx = c; written = s.written; dev = s.dev }

  unfoldable pub on_idle : List ℕ → Fsm O W R → Option (Reply O W R)
  on_idle buf f =
      if not (length buf == 2)
      then reply invalid_version_error clean f
      else (if leb (version_of_bytes buf) f.version
          then reply pull_success idle f
          else reply pull_success start_update f)

  unfoldable pub on_clean : List ℕ → Fsm O W R → Option (Reply O W R)
  on_clean buf f = on_idle buf (record f {
    internal = record { mt = replicate pl.layout.size_of_manifest 0; nonce = f.internal.nonce };
    processed = 0;
    id = pos 0;
  })

  unfoldable pub on_start_update : List ℕ → Fsm O W R → Option (Reply O W R)
  on_start_update buf f =
      let (err, nonce, r) = pl.rng_generate f.rctx in
      let f1 = record f { rctx = r; internal = record { mt = f.internal.mt; nonce = nonce } } in
      if ltb (length buf) pl.size_of_receiver_msg
      then reply invalid_state_error clean f
      else (if is_error err
          then reply err clean f1
          else some (record {
            err = pull_success;
            fsm = record f1 { state = receive_manifest };
            msg = some (record { udid = f.sf.udid; nonce = nonce; version = f.version });
          }))

  -- `ctx->expected = is->mt.vendor.offset + is->mt.server.prop_size;`
  abbrev pub expect : Fsm O W R → Fsm O W R
  expect f =
      let mt = pl.layout.decode f.internal.mt in
      record f { expected = u32 (mt.vendor.offset + mt.server.prop_size) }

  -- What follows the pipeline on the bytes behind the manifest.
  unfoldable pub after_rest : ℕ → Option (ℤ × Fsm O W R) → Option (Reply O W R)
  after_rest n none = none
  after_rest n (some (ret, f)) =
      if ret_is ret n
      then reply pull_success receive_firmware (expect (record f { processed = f.processed + n }))
      else reply pipeline_error clean f

  -- What follows the buffer stage on the manifest. Its error is returned as `err`, which is
  -- PULL_SUCCESS here.
  unfoldable pub after_manifest : List ℕ → Option (ℤ × Fsm O W R) → Option (Reply O W R)
  after_manifest rest none = none
  after_manifest rest (some (ret, f)) =
      if not (ret_is ret pl.layout.size_of_manifest)
      then reply pull_success clean f
      else (if ltb 0 (length rest)
          then after_rest (length rest) (run_pipeline rest f)
          else reply pull_success receive_firmware (expect f))

  -- The manifest goes out first, then the bytes behind it.
  unfoldable pub store_manifest : List ℕ → Fsm O W R → Option (Reply O W R)
  store_manifest rest f = after_manifest rest (run_pipeline f.internal.mt f)

  -- From `pipeline_buffer_init` to `pipeline_writer_init`: the manifest as it is stored, and the object
  -- that the update goes into. The assignment to `diff_version` that the source marks as XXX DEBUG
  -- leaves only the pipeline of a full image: the code for differential updates behind it is not
  -- reached.
  unfoldable pub open_target : Fsm O W R → PullError × Fsm O W R
  open_target f =
      let f1 = record f {
        buffer_ctx = pipeline_buffer_init f.buffer_ctx;
        internal = record {
          mt = pl.layout.put_diff_version 0 f.internal.mt;
          nonce = f.internal.nonce;
        };
      } in
      let (err, found, o, w) =
        get_oldest_firmware pl.mem pl.layout pl.slots f.id 0 false f.obj f.dev in
      let f2 = record f1 { id = found.id; obj = o; dev = w } in
      let (err2, o2, w2) = memory_open pl.mem o found.id write_all w in
      let f3 = record f2 { obj = o2; dev = w2 } in
      if is_error err
      then (err, f2)
      else (if is_error err2 then (err2, f3) else (pull_success, record f3 { written = 0 }))

  -- `STATE_VERIFY_MANIFEST`, with the bytes from `bufp` on.
  unfoldable pub on_verify_manifest : List ℕ → Fsm O W R → Option (Reply O W R)
  on_verify_manifest rest f =
      let mt = pl.layout.decode f.internal.mt in
      let (err, f1) = open_target f in
      if leb mt.vendor.version f.version
      then reply invalid_signature_error clean f
      else (if is_error (verify_manifest pl.crypto pl.layout mt f.sf)
          then reply invalid_signature_error clean f
          else (if is_error err then reply err clean f1 else store_manifest rest f1))

  unfoldable pub on_receive_manifest : List ℕ → Fsm O W R → Option (Reply O W R)
  on_receive_manifest buf f =
      let (mt, processed, rest) =
        fill_manifest pl.layout.size_of_manifest f.internal.mt f.processed buf in
      let f1 = record f {
        processed = processed;
        internal = record { mt = mt; nonce = f.internal.nonce };
      } in
      if ltb pl.layout.size_of_manifest f.processed
      then reply invalid_state_error clean f
      else (if ltb processed pl.layout.size_of_manifest
          then reply pull_success receive_manifest f1
          else on_verify_manifest rest f1)

  -- What follows `verify_object`, on the opened object.
  unfoldable pub finish_verify :
      Fsm O W R → O → Option (PullError × List ℕ × W) → Option (Reply O W R)
  finish_verify f o none = none
  finish_verify f o (some (err, bytes, w)) =
      let f1 = record f {
        obj = o;
        dev = (memory_close pl.mem o w).1;
        internal = pl.as_internal bytes;
      } in
      if is_error err then reply err idle f1 else reply pull_success reboot f1

  -- The results of the opening and of the closings are not looked at. The array `buffer`, which holds
  -- the internal state, is what the image is read through.
  unfoldable pub on_verify_firmware : Fsm O W R → Option (Reply O W R)
  on_verify_firmware f =
      let (ignored, o, w) = memory_open pl.mem f.obj f.id read_only f.dev in
      finish_verify f o (verify_object pl.crypto pl.layout pl.mem o f.sf (pl.as_bytes f.internal) w)

  -- The end of the download: the rest of the buffer goes out, and the object is closed.
  unfoldable pub end_download : Fsm O W R → Fsm O W R
  end_download f =
      let f1 = clear_pipeline f in
      record f1 { dev = (memory_close pl.mem f1.obj f1.dev).1; state = verify_firmware }

  -- What follows the pipeline, given `n` bytes.
  unfoldable pub after_pipeline : ℕ → Option (ℤ × Fsm O W R) → Option (Reply O W R)
  after_pipeline n none = none
  after_pipeline n (some (ret, f)) =
      let f1 = record f { processed = f.processed + n } in
      if not (ret_is ret n)
      then reply pipeline_error clean f
      else (if not (f1.processed == f1.expected)
          then reply pull_success receive_firmware f1
          else on_verify_firmware (end_download f1))

  unfoldable pub on_receive_firmware : List ℕ → Fsm O W R → Option (Reply O W R)
  on_receive_firmware buf f =
      if ltb f.expected (f.processed + length buf)
      then reply invalid_size_error clean f
      else after_pipeline (length buf) (run_pipeline buf f)

  -- `fsm` on the bytes of a call. `none`: a loop without end, or the state `STATE_VERIFY_MANIFEST` at
  -- the start of a call, in which `bufp` has no value.
  unfoldable pub fsm_dispatch : State → List ℕ → Fsm O W R → Option (Reply O W R)
  fsm_dispatch clean buf f = on_clean buf f
  fsm_dispatch idle buf f = on_idle buf f
  fsm_dispatch start_update buf f = on_start_update buf f
  fsm_dispatch receive_manifest buf f = on_receive_manifest buf f
  fsm_dispatch verify_manifest_state buf f = none
  fsm_dispatch receive_firmware buf f = on_receive_firmware buf f
  fsm_dispatch verify_firmware buf f = on_verify_firmware f
  fsm_dispatch reboot buf f = reply pull_success reboot f

  -- `PULL_ASSERT(buf != NULL && len > 0)`, where assertions are enabled: `none` on no bytes.
  unfoldable pub fsm : List ℕ → Fsm O W R → Option (Reply O W R)
  fsm [] f = none
  fsm (b ∷ bs) f = fsm_dispatch f.state (b ∷ bs) f

  -- The context before is the memory that `ctx` points to.
  unfoldable pub fsm_init : Fsm O W R → Safestore → O → O → PullError × Fsm O W R
  fsm_init f sf obj old_obj =
      let (err, found, o, w) =
        get_newest_firmware pl.mem pl.layout pl.slots f.old_id f.version true obj f.dev in
      let f1 = record f {
        state = idle;
        processed = 0;
        sf = sf;
        obj = o;
        old_obj = old_obj;
        old_id = found.id;
        version = found.version;
        dev = w;
      } in
      let (err2, r) = pl.rng_init f.rctx in
      if is_error err
      then (err, f1)
      else (if is_error err2 then err2 else pull_success, record f1 { rctx = r })
