-- ===== src/Agents/Update/Outcomes.antt =====
-- src/agents/update.c: what each part of the agent returns.
use upkit.Prelude.{
  ℕ, ◌+◌, ◌≤◌, ◌≡◌, refl, subst, inl, inr, not, Option, none, some, if◌then◌else◌, Bool, true,
  false, arith,
}
use upkit.Errors.{is_error}
use upkit.Security.{Safestore}
use upkit.Network.Fsm.{Platform, Reply, fsm, fsm_init}
use upkit.Agents.Update.{
  AgentEvent, event_init, event_subscribe, event_get_msg, event_receive, event_apply,
  event_subscribe_timeout, event_subscribe_send, event_receive_send, event_init_failure,
  event_init_failure_2, event_init_failure_3, event_get_msg_failure, event_subscribe_failure,
  event_subscribe_failure_2, event_receiver_failure, event_receiver_failure_2, EventData, no_data,
  err_data, request_err_data, conn_data, version, firmware, Connection, UpdateAgent, pull_return,
  called, is_start_update, is_receive_firmware, stored, set_callback, init_fsm, init_conn,
  request_version, until_start_update, after_version, after_get_msg, get_msg, update_receiver_msg,
  request_firmware, after_firmware, while_receive_firmware, continue_at, update_agent,
}
use upkit.Agents.Update.Phases.{
  phase, is_stop, is_failure, is_get_msg, is_apply, reported_error, Outcome, Outcomes,
}

either :
    {A : Type 0} (P : A → Type 0) (b : Bool) (x y : A)
    → (b ≡ true → P x)
    → (b ≡ false → P y)
    → P (if b then x else y)
either P true x y f g = f refl
either P false x y f g = g refl

module _ {O W R C : Type 0} where
  -- An event that asks for nothing.
  goes_on :
      (p : ℕ) (ev : AgentEvent) (d : EventData) (a : UpdateAgent O W R C)
      → is_stop ev ≡ true
      → is_failure ev ≡ false
      → is_get_msg ev ≡ false
      → is_apply ev ≡ false
      → p ≤ phase ev
      → phase ev ≤ p + 1
      → Outcomes p (pull_return ev d a)
  goes_on p ev d a s f g l h k = record {
    stands = s;
    stored_event = inl refl;
    no_phase_back = h;
    no_phase_skipped = k;
    error_reported = λ e. cc;
    update_announced = λ e. cc;
    not_receiving = λ e. cc;
  }

  fails :
      (p : ℕ) (ev : AgentEvent) (d : EventData) (a : UpdateAgent O W R C)
      → is_stop ev ≡ true
      → is_get_msg ev ≡ false
      → is_apply ev ≡ false
      → p ≤ phase ev
      → phase ev ≤ p + 1
      → is_error (reported_error a d) ≡ true
      → Outcomes p (pull_return ev d a)
  fails p ev d a s g l h k e = record {
    stands = s;
    stored_event = inl refl;
    no_phase_back = h;
    no_phase_skipped = k;
    error_reported = λ _. reported d e;
    update_announced = λ e. cc;
    not_receiving = λ e. cc;
  }
    where
      reported :
          (d : EventData)
          → is_error (reported_error a d) ≡ true
          → is_error (reported_error (record a { current_event = ev; event_data = d }) d) ≡ true
      reported no_data e = e
      reported err_data e = e
      reported request_err_data e = e
      reported conn_data e = e

module _ {D O W R C : Type 0} (pl : Platform D O W R) (conn : Connection C)
    (safestore : Safestore) where
  set_callback-Outcomes : (a : UpdateAgent O W R C) → Outcomes 0 (set_callback pl conn safestore a)
  unfolding set_callback
  set_callback-Outcomes a =
      let a1 = called (conn.conn_on_data a.reqc.conn) a in
      either (Outcomes 0) (is_error a1.err) (pull_return event_init_failure_3 err_data a1)
        (pull_return event_subscribe no_data a1)
        (λ e. fails 0 event_init_failure_3 err_data a1 refl refl refl (omega arith) (omega arith) e)
        (λ e. goes_on 0 event_subscribe no_data a1 refl refl refl refl (omega arith) (omega arith))

  init_fsm-Outcomes : (a : UpdateAgent O W R C) → Outcomes 0 (init_fsm pl conn safestore a)
  unfolding init_fsm
  init_fsm-Outcomes a =
      let (err, f) = fsm_init pl a.reqc.fsmc safestore a.obj_t a.old_obj in
      let a1 = record a { err = err; reqc = record a.reqc { fsmc = f } } in
      either (Outcomes 0) (is_error err) (pull_return event_init_failure_2 err_data a1)
        (set_callback pl conn safestore a1)
        (λ e. fails 0 event_init_failure_2 err_data a1 refl refl refl (omega arith) (omega arith) e)
        (λ e. set_callback-Outcomes a1)

  init_conn-Outcomes : (a : UpdateAgent O W R C) → Outcomes 0 (init_conn pl conn safestore a)
  unfolding init_conn
  init_conn-Outcomes a =
      let a1 = called (conn.conn_init a.reqc.conn) a in
      either (Outcomes 0) (is_error a1.err) (pull_return event_init_failure err_data a1)
        (init_fsm pl conn safestore a1)
        (λ e. fails 0 event_init_failure err_data a1 refl refl refl (omega arith) (omega arith) e)
        (λ e. init_fsm-Outcomes a1)

  request_version-Outcomes :
      (a : UpdateAgent O W R C) → Outcomes 1 (request_version pl conn safestore a)
  unfolding request_version
  request_version-Outcomes a =
      let a1 = called (conn.conn_request a.reqc.conn version) a in
      either (Outcomes 1) (is_error a1.err) (pull_return event_subscribe_failure err_data a1)
        (pull_return event_subscribe_send conn_data a1)
        (λ e.
          fails 1 event_subscribe_failure err_data a1 refl refl refl (omega arith) (omega arith) e)
        (λ e.
          goes_on 1 event_subscribe_send conn_data a1 refl refl refl refl (omega arith)
            (omega arith))

  unnegate : (b : Bool) → not b ≡ false → b ≡ true
  unnegate true h = refl
  unnegate false h = cc

  until_start_update-Outcomes :
      (a : UpdateAgent O W R C) → Outcomes 1 (until_start_update pl conn safestore a)
  unfolding until_start_update
  until_start_update-Outcomes a =
      either (Outcomes 1) (not (is_start_update a.reqc.fsmc.state))
        (request_version pl conn safestore a) (pull_return event_get_msg no_data a)
        (λ e. request_version-Outcomes a)
        (λ e. record {
          stands = refl;
          stored_event = inl refl;
          no_phase_back = omega arith;
          no_phase_skipped = omega arith;
          error_reported = λ h. cc;
          update_announced = λ h. unnegate (is_start_update a.reqc.fsmc.state) e;
          not_receiving = λ h. cc;
        })

  after_version-Outcomes :
      (a : UpdateAgent O W R C) → Outcomes 1 (after_version pl conn safestore a)
  unfolding after_version
  after_version-Outcomes a =
      either (Outcomes 1) (is_error a.reqc.err)
        (pull_return event_subscribe_failure_2 request_err_data a)
        (until_start_update pl conn safestore a)
        (λ e.
          fails 1 event_subscribe_failure_2 request_err_data a refl refl refl (omega arith)
            (omega arith) e)
        (λ e. until_start_update-Outcomes a)

  after_get_msg-Outcomes :
      (a : UpdateAgent O W R C) (o : Option (Reply O W R))
      → Outcomes 2 (after_get_msg pl conn safestore a o)
  unfolding after_get_msg
  after_get_msg-Outcomes a none = tt
  after_get_msg-Outcomes a (some r) =
      let a1 = record a {
        err = r.err;
        reqc = record a.reqc { fsmc = r.fsm };
        msg = stored pl conn safestore a.msg r.msg;
      } in
      either (Outcomes 2) (is_error r.err) (pull_return event_get_msg_failure err_data a1)
        (pull_return event_receive no_data a1)
        (λ e.
          fails 2 event_get_msg_failure err_data a1 refl refl refl (omega arith) (omega arith) e)
        (λ e. goes_on 2 event_receive no_data a1 refl refl refl refl (omega arith) (omega arith))

  request_firmware-Outcomes :
      (a : UpdateAgent O W R C) → Outcomes 3 (request_firmware pl conn safestore a)
  unfolding request_firmware
  request_firmware-Outcomes a =
      let msg = update_receiver_msg a.reqc.fsmc a.msg in
      let a1 = called (conn.conn_request a.reqc.conn (firmware msg)) (record a { msg = msg }) in
      either (Outcomes 3) (is_error a1.err) (pull_return event_receiver_failure err_data a1)
        (pull_return event_receive_send conn_data a1)
        (λ e.
          fails 3 event_receiver_failure err_data a1 refl refl refl (omega arith) (omega arith) e)
        (λ e.
          goes_on 3 event_receive_send conn_data a1 refl refl refl refl (omega arith) (omega arith))

  after_firmware-Outcomes :
      (a : UpdateAgent O W R C) → Outcomes 3 (after_firmware pl conn safestore a)
  unfolding after_firmware
  after_firmware-Outcomes a =
      either (Outcomes 3) (is_error a.reqc.err)
        (pull_return event_receiver_failure_2 request_err_data a)
        (pull_return event_subscribe_timeout no_data a)
        (λ e.
          fails 3 event_receiver_failure_2 request_err_data a refl refl refl (omega arith)
            (omega arith) e)
        (λ e.
          goes_on 3 event_subscribe_timeout no_data a refl refl refl refl (omega arith)
            (omega arith))

  while_receive_firmware-Outcomes :
      (a : UpdateAgent O W R C)
      → is_stop a.current_event ≡ true
      → phase a.current_event ≡ 3
      → Outcomes 3 (while_receive_firmware pl conn safestore a)
  unfolding while_receive_firmware
  while_receive_firmware-Outcomes a h k =
      let a1 = record a { reqc = record a.reqc { conn = conn.conn_end a.reqc.conn } } in
      either (Outcomes 3) (is_receive_firmware a.reqc.fsmc.state)
        (request_firmware pl conn safestore a) (some (event_apply, a1))
        (λ e. request_firmware-Outcomes a)
        (λ e. record {
          stands = h;
          stored_event = inr (refl, k);
          no_phase_back = omega arith;
          no_phase_skipped = omega arith;
          error_reported = λ l. cc;
          update_announced = λ l. cc;
          not_receiving = λ l. e;
        })

  continue_at-Outcomes :
      (ev : AgentEvent) (a : UpdateAgent O W R C)
      → is_stop ev ≡ true
      → is_stop a.current_event ≡ true
      → phase a.current_event ≡ phase ev
      → Outcomes (phase ev) (continue_at pl conn safestore ev a)
  unfolding continue_at get_msg
  continue_at-Outcomes event_init a h k l = init_conn-Outcomes a
  continue_at-Outcomes event_init_failure a h k l = init_fsm-Outcomes a
  continue_at-Outcomes event_init_failure_2 a h k l = set_callback-Outcomes a
  continue_at-Outcomes event_init_failure_3 a h k l =
      goes_on 0 event_subscribe no_data a refl refl refl refl (omega arith) (omega arith)
  continue_at-Outcomes event_subscribe a h k l = request_version-Outcomes a
  continue_at-Outcomes event_subscribe_failure a h k l =
      goes_on 1 event_subscribe_send conn_data a refl refl refl refl (omega arith) (omega arith)
  continue_at-Outcomes event_subscribe_send a h k l = after_version-Outcomes a
  continue_at-Outcomes event_subscribe_failure_2 a h k l = until_start_update-Outcomes a
  continue_at-Outcomes event_get_msg a h k l =
      after_get_msg-Outcomes a (fsm pl (conn.msg_bytes a.msg) a.reqc.fsmc)
  continue_at-Outcomes event_get_msg_failure a h k l =
      goes_on 2 event_receive no_data a refl refl refl refl (omega arith) (omega arith)
  continue_at-Outcomes event_receive a h k l = request_firmware-Outcomes a
  continue_at-Outcomes event_receiver_failure a h k l =
      goes_on 3 event_receive_send conn_data a refl refl refl refl (omega arith) (omega arith)
  continue_at-Outcomes event_receive_send a h k l = after_firmware-Outcomes a
  continue_at-Outcomes event_receiver_failure_2 a h k l = while_receive_firmware-Outcomes a k l
  continue_at-Outcomes event_subscribe_timeout a h k l = while_receive_firmware-Outcomes a k l
  continue_at-Outcomes _ a h k l = cc

  -- A call of the agent that returns stands at one of its events again. The event it returns is the one
  -- at which the next call goes on, or EVENT_APPLY; it is of the same phase as the event before or of
  -- the next phase. A failure comes with an error that is not PULL_SUCCESS. EVENT_GET_MSG is returned
  -- only with the state machine in STATE_START_UPDATE, and EVENT_APPLY never with it in
  -- STATE_RECEIVE_FIRMWARE.
  pub update_agent-Outcome :
      (a a' : UpdateAgent O W R C) (ev : AgentEvent)
      → is_stop a.current_event ≡ true
      → update_agent pl conn safestore a ≡ some (ev, a')
      → Outcome (phase a.current_event) ev a'
  unfolding update_agent
  update_agent-Outcome a a' ev h e =
      subst (Outcomes (phase a.current_event)) e (continue_at-Outcomes a.current_event a h h refl)
