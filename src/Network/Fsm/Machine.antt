-- ===== src/Network/Fsm/Machine.antt =====
-- What a call of `fsm` can do in each state: the transitions, and what they require.
use upkit.Prelude.{
  ℕ, ◌<◌, ◌≡◌, ◌≢◌, ◌⊎◌, inl, inr, refl, sym, ap, subst, true, List, [], ◌∷◌, some, arith,
}
use upkit.Errors.{PullError, pull_success, is_error}
use upkit.Security.Verifier.Signature.{Authentic, verify_manifest-Authentic}
use upkit.Network.Fsm.{
  State, clean, idle, start_update, receive_manifest, verify_manifest_state, receive_firmware,
  verify_firmware, reboot, Platform, Fsm, Reply, fill_manifest, on_clean, fsm_dispatch, fsm,
}
use upkit.Network.Fsm.Step.{
  Verified, on_verify_firmware-Ended, on_receive_firmware_lem, on_receive_manifest_lem, on_idle_lem,
  on_start_update_lem,
}

-- The ways of the machine from the state before a call to the state after it.
pub data Next : State → State → Type 0 where
  reset : {s : State} → Next s clean
  no_news : Next idle idle
  news : Next idle start_update
  clean_idle : Next clean idle
  clean_news : Next clean start_update
  asked : Next start_update receive_manifest
  more_manifest : Next receive_manifest receive_manifest
  accepted : Next receive_manifest receive_firmware
  more_firmware : Next receive_firmware receive_firmware
  received : Next receive_firmware reboot
  rejected : Next receive_firmware idle
  verified : Next verify_firmware reboot
  refused : Next verify_firmware idle
  done : Next reboot reboot

-- Every state but `STATE_VERIFY_MANIFEST` is kept out of that state.
Next-ne : {s t : State} → Next s t → t ≢ verify_manifest_state
Next-ne reset h = cc
Next-ne no_news h = cc
Next-ne news h = cc
Next-ne clean_idle h = cc
Next-ne clean_news h = cc
Next-ne asked h = cc
Next-ne more_manifest h = cc
Next-ne accepted h = cc
Next-ne more_firmware h = cc
Next-ne received h = cc
Next-ne rejected h = cc
Next-ne verified h = cc
Next-ne refused h = cc
Next-ne done h = cc

success_ne : (e : PullError) → e ≡ pull_success → is_error e ≡ true → ⊥
success_ne e p h = cc (ap is_error p)

module _ {D O W R : Type 0} (pl : Platform D O W R) where
  to : {s t : State} (r : Reply O W R) → r.fsm.state ≡ t → Next s t → Next s r.fsm.state
  to {s} r e n = subst (Next s) (sym e) n

  edge :
      (st : State) (buf : List ℕ) (f : Fsm O W R) (r : Reply O W R)
      → f.state ≡ st
      → fsm_dispatch pl st buf f ≡ some r
      → Next st r.fsm.state
  unfolding fsm_dispatch on_clean
  edge clean buf f r q h = elim (on_idle_lem pl buf _ r h) [
    | inl e ↦ to r e reset
    | inr (inl e) ↦ to r e.0 clean_idle
    | inr (inr e) ↦ to r e.0 clean_news
  ]
  edge idle buf f r q h = elim (on_idle_lem pl buf f r h) [
    | inl e ↦ to r e reset
    | inr (inl e) ↦ to r e.0 no_news
    | inr (inr e) ↦ to r e.0 news
  ]
  edge start_update buf f r q h = elim (on_start_update_lem pl buf f r h) [
    | inl e ↦ to r e reset
    | inr e ↦ to r e.0 asked
  ]
  edge receive_manifest buf f r q h = elim (on_receive_manifest_lem pl buf f r h) [
    | inl e ↦ to r e reset
    | inr (inl e) ↦ to r e.0 more_manifest
    | inr (inr e) ↦ to r e.0 accepted
  ]
  edge verify_manifest_state buf f r q h = cc
  edge receive_firmware buf f r q h = elim (on_receive_firmware_lem pl buf f r q h) [
    | inl e ↦ to r e reset
    | inr (inl e) ↦ to r e.0 more_firmware
    | inr (inr (inl e)) ↦ to r e.0 received
    | inr (inr (inr e)) ↦ to r e.0 rejected
  ]
  edge verify_firmware buf f r q h = elim (on_verify_firmware-Ended pl buf f r q h) [
    | inl e ↦ to r e.0 verified
    | inr e ↦ to r e.0 refused
  ]
  edge reboot buf f r q h = to r (ground arith) done

  -- Each call of `fsm` that returns takes the machine along one of the transitions of `Next`; in
  -- particular no call leaves it in `STATE_VERIFY_MANIFEST`, where the code would read `bufp` unset.
  pub fsm-Next :
      (buf : List ℕ) (f : Fsm O W R) (r : Reply O W R)
      → fsm pl buf f ≡ some r
      → Next f.state r.fsm.state × (r.fsm.state ≢ verify_manifest_state)
  unfolding fsm
  fsm-Next [] f r h = cc
  fsm-Next (b ∷ bs) f r h = let e = edge f.state (b ∷ bs) f r refl h in (e, Next-ne e)

  reboots :
      (st : State) (buf : List ℕ) (f : Fsm O W R) (r : Reply O W R)
      → f.state ≡ st
      → fsm_dispatch pl st buf f ≡ some r
      → r.fsm.state ≡ reboot
      → (st ≡ reboot) ⊎ Verified pl buf f r.fsm
  unfolding fsm_dispatch on_clean
  reboots clean buf f r q h e = elim (on_idle_lem pl buf _ r h) [
    | inl p ↦ cc
    | inr (inl p) ↦ cc (p.0)
    | inr (inr p) ↦ cc (p.0)
  ]
  reboots idle buf f r q h e = elim (on_idle_lem pl buf f r h) [
    | inl p ↦ cc
    | inr (inl p) ↦ cc (p.0)
    | inr (inr p) ↦ cc (p.0)
  ]
  reboots start_update buf f r q h e = elim (on_start_update_lem pl buf f r h) [
    | inl p ↦ cc
    | inr p ↦ cc (p.0)
  ]
  reboots receive_manifest buf f r q h e = elim (on_receive_manifest_lem pl buf f r h) [
    | inl p ↦ cc
    | inr (inl p) ↦ cc (p.0)
    | inr (inr p) ↦ cc (p.0)
  ]
  reboots verify_manifest_state buf f r q h e = cc
  reboots receive_firmware buf f r q h e = elim (on_receive_firmware_lem pl buf f r q h) [
    | inl p ↦ cc
    | inr (inl p) ↦ cc (p.0)
    | inr (inr (inl p)) ↦ inr p.2
    | inr (inr (inr p)) ↦ cc (p.0)
  ]
  reboots verify_firmware buf f r q h e = elim (on_verify_firmware-Ended pl buf f r q h) [
    | inl p ↦ inr p.2
    | inr p ↦ cc (p.0)
  ]
  reboots reboot buf f r q h e = inl refl

  -- The machine comes to `STATE_REBOOT` from another state only in a call in which `verify_object` returns
  -- success, with the safestore of the machine, on an object that has been opened for reading under its
  -- id. The device in which the object is opened is that of the call, if the machine waits for the
  -- verification, or the one that the call has made by taking its bytes through the pipeline, clearing the
  -- buffer and closing the object, if they are the last bytes of the image. The call closes the object and
  -- leaves the device so.
  pub fsm_verifies :
      (buf : List ℕ) (f : Fsm O W R) (r : Reply O W R)
      → fsm pl buf f ≡ some r
      → f.state ≢ reboot
      → r.fsm.state ≡ reboot
      → Verified pl buf f r.fsm
  unfolding fsm
  fsm_verifies [] f r h ne e = cc
  fsm_verifies (b ∷ bs) f r h ne e = elim (reboots f.state (b ∷ bs) f r refl h e) [
    | inl p ↦ absurd (ne p)
    | inr v ↦ v
  ]

  accepts :
      (buf : List ℕ) (f : Fsm O W R) (r : Reply O W R)
      → fsm_dispatch pl receive_manifest buf f ≡ some r
      → r.fsm.state ≡ receive_firmware
      → let mt =
          pl.layout.decode
            (fill_manifest pl.layout.size_of_manifest f.internal.mt f.processed buf).0 in
        (f.version < mt.vendor.version) × Authentic pl.crypto pl.layout mt f.sf
  unfolding fsm_dispatch
  accepts buf f r h e =
      let mt =
        pl.layout.decode
          (fill_manifest pl.layout.size_of_manifest f.internal.mt f.processed buf).0 in
      elim (on_receive_manifest_lem pl buf f r h) [
        | inl p ↦ cc
        | inr (inl p) ↦ cc (p.0)
        | inr (inr p) ↦ (p.2, verify_manifest-Authentic pl.crypto pl.layout mt f.sf p.3)
      ]

  -- The machine goes on from the manifest to the image only if the manifest that it has received has a
  -- version above that of the running image and is authentic: for the device's application, with the
  -- vendor's signature and the server's.
  pub fsm_accepts :
      (buf : List ℕ) (f : Fsm O W R) (r : Reply O W R)
      → fsm pl buf f ≡ some r
      → f.state ≡ receive_manifest
      → r.fsm.state ≡ receive_firmware
      → let mt =
          pl.layout.decode
            (fill_manifest pl.layout.size_of_manifest f.internal.mt f.processed buf).0 in
        (f.version < mt.vendor.version) × Authentic pl.crypto pl.layout mt f.sf
  unfolding fsm
  fsm_accepts [] f r h s e = cc
  fsm_accepts (b ∷ bs) f r h s e =
      accepts (b ∷ bs) f r (subst (λ st. fsm_dispatch pl st (b ∷ bs) f ≡ some r) s h) e

  fails :
      (st : State) (buf : List ℕ) (f : Fsm O W R) (r : Reply O W R)
      → f.state ≡ st
      → fsm_dispatch pl st buf f ≡ some r
      → is_error r.err ≡ true
      → (r.fsm.state ≡ clean) ⊎ (r.fsm.state ≡ idle)
  unfolding fsm_dispatch on_clean
  fails clean buf f r q h e = ground (arith, on_idle_lem pl buf _ r h)
  fails idle buf f r q h e = ground (arith, on_idle_lem pl buf f r h)
  fails start_update buf f r q h e = ground (arith, on_start_update_lem pl buf f r h)
  fails receive_manifest buf f r q h e = ground (arith, on_receive_manifest_lem pl buf f r h)
  fails verify_manifest_state buf f r q h e = cc
  fails receive_firmware buf f r q h e = elim (on_receive_firmware_lem pl buf f r q h) [
    | inl p ↦ inl p
    | inr (inl p) ↦ ground arith
    | inr (inr (inl p)) ↦ absurd (success_ne r.err p.1 e)
    | inr (inr (inr p)) ↦ inr p.0
  ]
  fails verify_firmware buf f r q h e = elim (on_verify_firmware-Ended pl buf f r q h) [
    | inl p ↦ absurd (success_ne r.err p.1 e)
    | inr p ↦ inr p.0
  ]
  fails reboot buf f r q h e = ground arith

  -- A call that returns an error leaves the machine in `STATE_CLEAN` or in `STATE_IDLE`.
  pub fsm-error :
      (buf : List ℕ) (f : Fsm O W R) (r : Reply O W R)
      → fsm pl buf f ≡ some r
      → is_error r.err ≡ true
      → (r.fsm.state ≡ clean) ⊎ (r.fsm.state ≡ idle)
  unfolding fsm
  fsm-error [] f r h e = cc
  fsm-error (b ∷ bs) f r h e = fails f.state (b ∷ bs) f r refl h e
