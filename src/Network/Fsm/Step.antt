-- ===== src/Network/Fsm/Step.antt =====
-- The states that a call of `fsm` can leave the machine in, and what has been checked on the way.
use upkit.Prelude.{
  ℕ, ◌+◌, ◌<◌, Bool, leb, if◌then◌else◌, ◌≡◌, ◌≢◌, ◌⊎◌, inl, inr, refl, sym, ap, ◌∙◌, ℤ, true,
  false, List, Option, none, some, length, arith,
}
use upkit.Errors.{PullError, pull_success, invalid_signature_error, is_error, is_error-false}
use upkit.Memory.{memory_open, memory_close, read_only}
use upkit.Pipeline.Buffer.{BufferCtx, pipeline_buffer_clear}
use upkit.Pipeline.Writer.{Writer, writer_pipeline}
use upkit.Security.Verifier.{verify_manifest, verify_object}
use upkit.Network.Fsm.{
  clean, idle, start_update, receive_manifest, receive_firmware, verify_firmware, reboot, ret_is,
  Platform, Fsm, Reply, reply, version_of_bytes, fill_manifest, on_idle, on_start_update,
  store_manifest, on_verify_manifest, on_receive_manifest, on_receive_firmware, on_verify_firmware,
  finish_verify, after_pipeline, after_manifest, after_rest, open_target, end_download,
  run_pipeline, clear_pipeline, piped,
}

module _ {D O W R : Type 0} (pl : Platform D O W R) where
  -- From the machine `f`, whose device is the one right before, an object is opened for reading under the id
  -- of the update, `verify_object` passes it, and it is closed, which leaves the device of `f'`.
  pub record Passed (f f' : Fsm O W R) : Type 0 where
    pub obj : O
    pub buffer' : List ℕ
    pub before : W
    pub after : W
    pub result : PullError
    pub opened : memory_open pl.mem f.obj f.id read_only f.dev ≡ (result, obj, before)
    pub passed :
        verify_object pl.crypto pl.layout pl.mem obj f.sf (pl.as_bytes f.internal) before
        ≡ some (pull_success, buffer', after)
    pub closes : f'.dev ≡ (memory_close pl.mem obj after).1

  -- The machine as the verification finds it: that of the call, or the one after the last bytes of the image
  -- have gone through the pipeline, what was left in its buffer has gone out and the object has been closed.
  pub data Complete (buf : List ℕ) (f : Fsm O W R) : Fsm O W R → Type 0 where
    resumed : f.state ≡ verify_firmware → Complete buf f f
    downloaded :
        {g h : Fsm O W R} (ret : ℤ)
        → f.state ≡ receive_firmware
        → run_pipeline pl buf f ≡ some (ret, g)
        → ret_is ret (length buf) ≡ true
        → g.processed + length buf ≡ g.expected
        → h.dev
          ≡ (memory_close pl.mem g.obj
              (pipeline_buffer_clear
                (writer_pipeline pl.mem g.obj)
                g.buffer_ctx
                (record { written = g.written; dev = g.dev })).2.dev).1
        → h.obj ≡ g.obj
        → h.internal ≡ g.internal
        → Complete buf f h

  -- The verification of a call, with the safestore and the id of the machine that is called.
  pub record Verified (buf : List ℕ) (f f' : Fsm O W R) : Type 0 where
    pub at_end : Fsm O W R
    pub complete : Complete buf f at_end
    pub same_safestore : f.sf ≡ at_end.sf
    pub same_id : f.id ≡ at_end.id
    pub passes : Passed at_end f'

  pub finish_verify_lem :
      (f : Fsm O W R) (o : O) (err : PullError) (bytes : List ℕ) (w : W) (r : Reply O W R)
      → finish_verify pl f o (some (err, bytes, w)) ≡ some r
      → ((r.fsm.state ≡ reboot)
          × (r.err ≡ pull_success)
          × (is_error err ≡ false)
          × (r.fsm.dev ≡ (memory_close pl.mem o w).1))
        ⊎ ((r.fsm.state ≡ idle) × (is_error r.err ≡ true))
  unfolding finish_verify
  finish_verify_lem f o err bytes w r h = ground arith

  finish_verify-none :
      (f : Fsm O W R) (o : O) (r : Reply O W R) → finish_verify pl f o none ≡ some r → ⊥
  unfolding finish_verify
  finish_verify-none f o r h = cc

  -- How the verification of the image ends: it passed and the device may reboot, or it failed and the
  -- machine is idle, with an error.
  abbrev pub Outcome : Fsm O W R → Reply O W R → Type 0
  Outcome f r =
      ((r.fsm.state ≡ reboot) × (r.err ≡ pull_success) × Passed f r.fsm)
      ⊎ ((r.fsm.state ≡ idle) × (is_error r.err ≡ true))

  -- What the pipeline and the end of the download leave as it was.
  abbrev pub Same : Fsm O W R → Fsm O W R → Type 0
  Same f g = (f.sf ≡ g.sf) × (f.id ≡ g.id)

  Same-trans : (f g h : Fsm O W R) → Same f g → Same g h → Same f h
  Same-trans f g h a b = (a.0 ∙ b.0, a.1 ∙ b.1)

  verify_object-Outcome :
      (f : Fsm O W R) (ret : PullError) (o : O) (w : W) (r : Reply O W R)
      (v : Option (PullError × List ℕ × W))
      → memory_open pl.mem f.obj f.id read_only f.dev ≡ (ret, o, w)
      → verify_object pl.crypto pl.layout pl.mem o f.sf (pl.as_bytes f.internal) w ≡ v
      → finish_verify pl f o v ≡ some r
      → Outcome f r
  verify_object-Outcome f ret o w r none a e h = absurd (finish_verify-none f o r h)
  verify_object-Outcome f ret o w r (some (err, bytes, w')) a e h =
      elim (finish_verify_lem f o err bytes w' r h) [
        | inl (st, ok, fine, closes) ↦ inl (
          st,
          ok,
          record {
            obj = o;
            result = ret;
            opened = a;
            buffer' = bytes;
            before = w;
            after = w';
            passed = e ∙ ap (λ t. some (t, bytes, w')) (is_error-false err fine);
            closes = closes;
          },
        )
        | inr p ↦ inr p
      ]

  pub on_verify_firmware_lem :
      (f : Fsm O W R) (r : Reply O W R) → on_verify_firmware pl f ≡ some r → Outcome f r
  unfolding on_verify_firmware
  on_verify_firmware_lem f r h =
      let (ignored, o, w) = memory_open pl.mem f.obj f.id read_only f.dev in
      verify_object-Outcome f ignored o w r _ refl refl h

  end_download-Same : (f : Fsm O W R) → Same (end_download pl f) f
  unfolding end_download clear_pipeline
  end_download-Same f = (refl, refl)

  piped-Same :
      (f : Fsm O W R) (q : Option (ℤ × BufferCtx × Writer W)) (ret : ℤ) (g : Fsm O W R)
      → piped pl f q ≡ some (ret, g)
      → Same g f
  piped-Same f none ret g h = cc
  piped-Same f (some (ret', c, s)) ret g h = ground arith

  run_pipeline-Same :
      (bytes : List ℕ) (f : Fsm O W R) (ret : ℤ) (g : Fsm O W R)
      → run_pipeline pl bytes f ≡ some (ret, g)
      → Same g f
  unfolding run_pipeline
  run_pipeline-Same bytes f ret g h = piped-Same f _ ret g h

  -- How a call with bytes of the image ends, once it has verified: as `Outcome`, of the whole call.
  abbrev pub Ended : List ℕ → Fsm O W R → Reply O W R → Type 0
  Ended buf f r =
      ((r.fsm.state ≡ reboot) × (r.err ≡ pull_success) × Verified buf f r.fsm)
      ⊎ ((r.fsm.state ≡ idle) × (is_error r.err ≡ true))

  Outcome-Ended :
      (buf : List ℕ) (f g : Fsm O W R) (r : Reply O W R)
      → Complete buf f g
      → Same g f
      → Outcome g r
      → Ended buf f r
  Outcome-Ended buf f g r c s (inl (st, ok, p)) = inl (
    st,
    ok,
    record { at_end = g; complete = c; same_safestore = sym s.0; same_id = sym s.1; passes = p },
  )
  Outcome-Ended buf f g r c s (inr p) = inr p

  -- The three ways behind the pipeline.
  after_pipeline_cases :
      (n : ℕ) (ret : ℤ) (g : Fsm O W R) (r : Reply O W R)
      → after_pipeline pl n (some (ret, g)) ≡ some r
      → let g1 : Fsm O W R = record g { processed = g.processed + n } in
        (r.fsm.state ≡ clean)
        ⊎ ((r.fsm.state ≡ receive_firmware)
            × (r.err ≡ pull_success)
            × (r.fsm.processed ≢ r.fsm.expected))
        ⊎ ((ret_is ret n ≡ true)
            × (g.processed + n ≡ g.expected)
            × (on_verify_firmware pl (end_download pl g1) ≡ some r))
  unfolding after_pipeline
  after_pipeline_cases n ret g r h = ground arith

  downloaded_by :
      (buf : List ℕ) (f g : Fsm O W R) (ret : ℤ)
      → f.state ≡ receive_firmware
      → run_pipeline pl buf f ≡ some (ret, g)
      → ret_is ret (length buf) ≡ true
      → g.processed + length buf ≡ g.expected
      → Complete buf f (end_download pl (record g { processed = g.processed + length buf }))
  unfolding end_download clear_pipeline
  downloaded_by buf f g ret s h a b = downloaded ret s h a b refl refl refl

  after_pipeline_lem :
      (buf : List ℕ) (f : Fsm O W R) (p : Option (ℤ × Fsm O W R)) (r : Reply O W R)
      → f.state ≡ receive_firmware
      → run_pipeline pl buf f ≡ p
      → after_pipeline pl (length buf) p ≡ some r
      → (r.fsm.state ≡ clean)
        ⊎ ((r.fsm.state ≡ receive_firmware)
            × (r.err ≡ pull_success)
            × (r.fsm.processed ≢ r.fsm.expected))
        ⊎ Ended buf f r
  unfolding after_pipeline
  after_pipeline_lem buf f none r s e h = cc
  after_pipeline_lem buf f (some (ret, g)) r s e h =
      let g1 : Fsm O W R = record g { processed = g.processed + length buf } in
      elim (after_pipeline_cases (length buf) ret g r h) [
        | inl p ↦ inl p
        | inr (inl p) ↦ inr (inl p)
        | inr (inr (a, b, v)) ↦ inr (
            inr (
              Outcome-Ended buf f (end_download pl g1) r (downloaded_by buf f g ret s e a b)
                (Same-trans (end_download pl g1) g1 f (end_download-Same g1)
                  (run_pipeline-Same buf f ret g e))
                (on_verify_firmware_lem (end_download pl g1) r v)))
      ]

  pub on_receive_firmware_lem :
      (buf : List ℕ) (f : Fsm O W R) (r : Reply O W R)
      → f.state ≡ receive_firmware
      → on_receive_firmware pl buf f ≡ some r
      → (r.fsm.state ≡ clean)
        ⊎ ((r.fsm.state ≡ receive_firmware)
            × (r.err ≡ pull_success)
            × (r.fsm.processed ≢ r.fsm.expected))
        ⊎ Ended buf f r
  unfolding on_receive_firmware
  on_receive_firmware_lem buf f r s h =
      ground (arith, after_pipeline_lem buf f (run_pipeline pl buf f) r s refl)

  pub on_verify_firmware-Ended :
      (buf : List ℕ) (f : Fsm O W R) (r : Reply O W R)
      → f.state ≡ verify_firmware
      → on_verify_firmware pl f ≡ some r
      → Ended buf f r
  on_verify_firmware-Ended buf f r s h =
      Outcome-Ended buf f f r (resumed s) (refl, refl) (on_verify_firmware_lem f r h)

  store_manifest_lem :
      (rest : List ℕ) (f : Fsm O W R) (r : Reply O W R)
      → store_manifest pl rest f ≡ some r
      → (r.fsm.state ≡ clean) ⊎ ((r.fsm.state ≡ receive_firmware) × (r.err ≡ pull_success))
  unfolding store_manifest after_manifest after_rest
  store_manifest_lem rest f r h = ground arith

  -- Three early returns: one of them is taken, or what follows them.
  early_returns :
      {A : Type 0} (a b c : Bool) (x y z s r : A)
      → (if a then x else (if b then y else (if c then z else s))) ≡ r
      → (x ≡ r) ⊎ (y ≡ r) ⊎ (z ≡ r) ⊎ ((a ≡ false) × (b ≡ false) × (s ≡ r))
  early_returns true b c x y z s r h = inl h
  early_returns false true c x y z s r h = inr (inl h)
  early_returns false false true x y z s r h = inr (inr (inl h))
  early_returns false false false x y z s r h = inr (inr (inr (refl, refl, h)))

  reply-clean :
      (e : PullError) (f : Fsm O W R) (r : Reply O W R)
      → reply pl e clean f ≡ some r
      → r.fsm.state ≡ clean
  reply-clean e f r h = ground arith

  not_leb : (m n : ℕ) → leb m n ≡ false → n < m
  not_leb m n h = ground arith

  on_verify_manifest_lem :
      (rest : List ℕ) (f : Fsm O W R) (r : Reply O W R)
      → on_verify_manifest pl rest f ≡ some r
      → (r.fsm.state ≡ clean)
        ⊎ ((r.fsm.state ≡ receive_firmware)
            × (r.err ≡ pull_success)
            × (f.version < (pl.layout.decode f.internal.mt).vendor.version)
            × (is_error (verify_manifest pl.crypto pl.layout (pl.layout.decode f.internal.mt) f.sf)
                ≡ false))
  unfolding on_verify_manifest
  on_verify_manifest_lem rest f r h =
      let mt = pl.layout.decode f.internal.mt in
      let (err, f1) = open_target pl f in
      elim (early_returns (leb mt.vendor.version f.version)
        (is_error (verify_manifest pl.crypto pl.layout mt f.sf)) (is_error err)
        (reply pl invalid_signature_error clean f) (reply pl invalid_signature_error clean f)
        (reply pl err clean f1) (store_manifest pl rest f1) (some r) h) [
          | inl e ↦ inl (reply-clean invalid_signature_error f r e)
          | inr (inl e) ↦ inl (reply-clean invalid_signature_error f r e)
          | inr (inr (inl e)) ↦ inl (reply-clean err f1 r e)
          | inr (inr (inr (newer, signed, e))) ↦ elim (store_manifest_lem rest f1 r e) [
            | inl p ↦ inl p
            | inr p ↦ inr (p.0, p.1, not_leb mt.vendor.version f.version newer, signed)
          ]
        ]

  pub on_receive_manifest_lem :
      (buf : List ℕ) (f : Fsm O W R) (r : Reply O W R)
      → on_receive_manifest pl buf f ≡ some r
      → let (bytes, processed, rest) =
          fill_manifest pl.layout.size_of_manifest f.internal.mt f.processed buf in
        let mt = pl.layout.decode bytes in
        (r.fsm.state ≡ clean)
        ⊎ ((r.fsm.state ≡ receive_manifest) × (r.err ≡ pull_success))
        ⊎ ((r.fsm.state ≡ receive_firmware)
            × (r.err ≡ pull_success)
            × (f.version < mt.vendor.version)
            × (is_error (verify_manifest pl.crypto pl.layout mt f.sf) ≡ false))
  unfolding on_receive_manifest
  on_receive_manifest_lem buf f r h =
      let (bytes, processed, rest) =
        fill_manifest pl.layout.size_of_manifest f.internal.mt f.processed buf in
      ground (
        arith,
        on_verify_manifest_lem rest
            (record f {
              processed = processed;
              internal = record { mt = bytes; nonce = f.internal.nonce };
            })
            r,
      )

  pub on_idle_lem :
      (buf : List ℕ) (f : Fsm O W R) (r : Reply O W R)
      → on_idle pl buf f ≡ some r
      → (r.fsm.state ≡ clean)
        ⊎ ((r.fsm.state ≡ idle) × (r.err ≡ pull_success))
        ⊎ ((r.fsm.state ≡ start_update)
            × (r.err ≡ pull_success)
            × (length buf ≡ 2)
            × (f.version < version_of_bytes buf))
  unfolding on_idle
  on_idle_lem buf f r h = ground arith

  pub on_start_update_lem :
      (buf : List ℕ) (f : Fsm O W R) (r : Reply O W R)
      → on_start_update pl buf f ≡ some r
      → (r.fsm.state ≡ clean) ⊎ ((r.fsm.state ≡ receive_manifest) × (r.err ≡ pull_success))
  unfolding on_start_update
  on_start_update_lem buf f r h = ground arith
