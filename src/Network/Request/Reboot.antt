-- ===== src/Network/Request/Reboot.antt =====
-- What a callback can bring the device to.
use upkit.Prelude.{
  ℕ, ◌≡◌, ◌≢◌, inl, inr, refl, ap, subst, ◌∙◌, true, false, List, Option, none, some, arith,
  Bool-cases,
}
use upkit.Errors.{PullError, is_error}
use upkit.Network.Fsm.{Platform, Reply, reboot, fsm}
use upkit.Network.Fsm.Step.{Verified}
use upkit.Network.Fsm.Machine.{fsm_verifies}
use upkit.Network.Request.{RequestCtx, after_fsm, request_cb}

module _ {D O W R C : Type 0} (pl : Platform D O W R) (break_loop : C → C) where
  after_fsm-some :
      (ctx ctx' : RequestCtx O W R C) (q : Option (Reply O W R))
      → after_fsm pl break_loop ctx q ≡ some ctx'
      → (r : Reply O W R) × (q ≡ some r) × (r.fsm ≡ ctx'.fsmc)
  unfolding after_fsm
  after_fsm-some ctx ctx' none h = cc
  after_fsm-some ctx ctx' (some r) h = (r, refl, ground arith)

  request_cb-error :
      (err : PullError) (data_bytes : Option (List ℕ)) (ctx ctx' : RequestCtx O W R C)
      → is_error err ≡ true
      → request_cb pl break_loop err data_bytes ctx ≡ some ctx'
      → ctx.fsmc ≡ ctx'.fsmc
  unfolding request_cb
  request_cb-error err none ctx ctx' e h = ground arith
  request_cb-error err (some bytes) ctx ctx' e h = ground arith

  request_cb-none :
      (err : PullError) (ctx ctx' : RequestCtx O W R C)
      → request_cb pl break_loop err none ctx ≡ some ctx'
      → ctx.fsmc ≡ ctx'.fsmc
  unfolding request_cb
  request_cb-none err ctx ctx' h = ground arith

  -- The call of `fsm` that a callback with data makes.
  request_cb-fsm :
      (err : PullError) (bytes : List ℕ) (ctx ctx' : RequestCtx O W R C)
      → is_error err ≡ false
      → request_cb pl break_loop err (some bytes) ctx ≡ some ctx'
      → (r : Reply O W R) × (fsm pl bytes ctx.fsmc ≡ some r) × (r.fsm ≡ ctx'.fsmc)
  unfolding request_cb
  request_cb-fsm err bytes ctx ctx' e h =
      after_fsm-some ctx ctx' (fsm pl bytes ctx.fsmc) (ground arith)

  same_state :
      (ctx ctx' : RequestCtx O W R C)
      → ctx.fsmc ≡ ctx'.fsmc
      → ctx.fsmc.state ≢ reboot
      → ctx'.fsmc.state ≡ reboot
      → ⊥
  same_state ctx ctx' e ne r = ne (ap (λ f. f.state) e ∙ r)

  -- A callback brings the machine to `STATE_REBOOT` from another state only if the connection reports no error
  -- and hands over data, and only if the call of `fsm` on that data verifies the image: `verify_object`
  -- passes the object that is opened for reading under the id of the machine, in the device that the
  -- call has come to, and the device is left as the closing of that object leaves it.
  pub request_cb-reboot :
      (err : PullError) (data_bytes : Option (List ℕ)) (ctx ctx' : RequestCtx O W R C)
      → request_cb pl break_loop err data_bytes ctx ≡ some ctx'
      → ctx.fsmc.state ≢ reboot
      → ctx'.fsmc.state ≡ reboot
      → (is_error err ≡ false)
        × (bytes : List ℕ) × (data_bytes ≡ some bytes)
        × Verified pl bytes ctx.fsmc ctx'.fsmc
  request_cb-reboot err none ctx ctx' h ne e =
      absurd (same_state ctx ctx' (request_cb-none err ctx ctx' h) ne e)
  request_cb-reboot err (some bytes) ctx ctx' h ne e = elim (Bool-cases (is_error err)) [
    | inl bad ↦ absurd (same_state ctx ctx' (request_cb-error err (some bytes) ctx ctx' bad h) ne e)
    | inr fine ↦
        let (r, call, same) = request_cb-fsm err bytes ctx ctx' fine h in
        (
          fine,
          bytes,
          refl,
          subst (Verified pl bytes ctx.fsmc) same
              (fsm_verifies pl bytes ctx.fsmc r call ne (ap (λ f. f.state) same ∙ e)),
        )
  ]
