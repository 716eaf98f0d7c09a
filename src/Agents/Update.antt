-- ===== src/Agents/Update.antt =====
-- src/agents/update.c, include/libpull_agents/update.h and coroutines.h (ENABLE_COROUTINES): the agent that
-- fetches an update, one event at a time.
pub mod Phases
pub mod Outcomes
pub mod Runs
mod Tests
use upkit.Prelude.{ℕ, not, List, Option, none, some, if◌then◌else◌, Bool, true, false}
use upkit.Errors.{PullError, is_error}
use upkit.Security.{Safestore}
use upkit.Network.Fsm.{
  State, start_update, receive_firmware, Platform, Fsm, ReceiverMsg, Reply, fsm, fsm_init,
}
use upkit.Network.Request.{RequestCtx}

pub data AgentEvent : Type 0 where
  event_init event_continue_start event_subscribe event_get_msg event_receive event_verify :
      AgentEvent
  event_final event_apply event_verify_before event_subscribe_timeout event_verify_after :
      AgentEvent
  event_continue_end event_send_start event_subscribe_send event_receive_send event_send_end :
      AgentEvent
  event_recover_start event_checking_updates_recover event_receive_recover event_recover_end :
      AgentEvent
  event_failure_start event_init_failure event_init_failure_2 event_init_failure_3 : AgentEvent
  event_get_msg_failure event_subscribe_failure event_subscribe_failure_2 : AgentEvent
  event_receiver_failure event_receiver_failure_2 event_verify_failure : AgentEvent
  event_invalidate_object_failure event_failure_end : AgentEvent

-- What `*event_data` points to: nothing, `ctx->err`, `ctx->reqc.err`, or the connection.
pub data EventData : Type 0 where
  no_data err_data request_err_data conn_data : EventData

-- `receiver_msg_t` as it is sent: what `fsm` writes, and `offset`.
pub record Message : Type 0 where
  pub written : ReceiverMsg
  pub offset : ℕ

-- The two requests of the agent: `GET "/version"`, and `GET_BLOCKWISE2 "/firmware"` with the message.
pub data Resource : Type 0 where
  version : Resource
  firmware : Message → Resource

-- The network stack behind connection_interface.h, with the configuration of the connection and the
-- callback `request_cb` in it; `loop` runs it between two calls of the agent.
pub record Connection (C : Type 0) : Type 0 where
  pub conn_init : C → PullError × C
  pub conn_on_data : C → PullError × C
  pub conn_request : C → Resource → PullError × C
  pub conn_end : C → C
  -- The bytes of a `receiver_msg_t`.
  pub msg_bytes : Message → List ℕ

-- `update_agent_ctx_t`, the static `current_event` of the coroutine, and `*event_data`. The pointers
-- `reqc.fsmc` and `reqc.conn` are to the context's own state machine and connection.
pub record UpdateAgent (O W R C : Type 0) : Type 0 where
  pub current_event : AgentEvent
  pub event_data : EventData
  pub obj_t : O
  pub old_obj : O
  pub err : PullError
  pub reqc : RequestCtx O W R C
  pub msg : Message

-- `ctx->fsmc.state == …`
abbrev pub is_start_update : State → Bool
is_start_update start_update = true
is_start_update _ = false

abbrev pub is_receive_firmware : State → Bool
is_receive_firmware receive_firmware = true
is_receive_firmware _ = false

-- `ctx->msg.offset = …`
unfoldable pub update_receiver_msg : {O W R : Type 0} → Fsm O W R → Message → Message
update_receiver_msg f msg = record msg { offset = f.processed }

-- What a call returns, with the context that it leaves. `none`: the state machine does not come back.
abbrev pub Returned : (O W R C : Type 0) → Type 0
Returned O W R C = Option (AgentEvent × UpdateAgent O W R C)

-- `PULL_CONTINUE`, `PULL_RETURN` and `PULL_SEND`: the next call goes on behind it.
abbrev pub pull_return :
    {O W R C : Type 0} → AgentEvent → EventData → UpdateAgent O W R C → Returned O W R C
pull_return ev ev_data a = some (ev, record a { current_event = ev; event_data = ev_data })

-- `ctx->err = …` with what the call left of the connection.
abbrev pub called : {O W R C : Type 0} → PullError × C → UpdateAgent O W R C → UpdateAgent O W R C
called (err, c) a = record a { err = err; reqc = record a.reqc { conn = c } }

module _ {D O W R C : Type 0} (pl : Platform D O W R) (conn : Connection C)
    (safestore : Safestore) where
  -- (3)
  unfoldable pub set_callback : UpdateAgent O W R C → Returned O W R C
  set_callback a =
      let a1 = called (conn.conn_on_data a.reqc.conn) a in
      if is_error a1.err
      then pull_return event_init_failure_3 err_data a1
      else pull_return event_subscribe no_data a1

  -- (2)
  unfoldable pub init_fsm : UpdateAgent O W R C → Returned O W R C
  unfolding set_callback
  init_fsm a =
      let (err, f) = fsm_init pl a.reqc.fsmc safestore a.obj_t a.old_obj in
      let a1 = record a { err = err; reqc = record a.reqc { fsmc = f } } in
      if is_error err then pull_return event_init_failure_2 err_data a1 else set_callback a1

  -- (1)
  unfoldable pub init_conn : UpdateAgent O W R C → Returned O W R C
  unfolding init_fsm
  init_conn a =
      let a1 = called (conn.conn_init a.reqc.conn) a in
      if is_error a1.err then pull_return event_init_failure err_data a1 else init_fsm a1

  -- (4): the loop's body up to the call of the network.
  unfoldable pub request_version : UpdateAgent O W R C → Returned O W R C
  request_version a =
      let a1 = called (conn.conn_request a.reqc.conn version) a in
      if is_error a1.err
      then pull_return event_subscribe_failure err_data a1
      else pull_return event_subscribe_send conn_data a1

  -- `while (ctx->fsmc.state != STATE_START_UPDATE)`
  unfoldable pub until_start_update : UpdateAgent O W R C → Returned O W R C
  unfolding request_version
  until_start_update a =
      if not (is_start_update a.reqc.fsmc.state)
      then request_version a
      else pull_return event_get_msg no_data a

  unfoldable pub after_version : UpdateAgent O W R C → Returned O W R C
  unfolding until_start_update
  after_version a =
      if is_error a.reqc.err
      then pull_return event_subscribe_failure_2 request_err_data a
      else until_start_update a

  -- (5): what follows the call of `fsm`, which writes into `ctx->msg`.
  abbrev pub stored : Message → Option ReceiverMsg → Message
  stored msg none = msg
  stored msg (some written) = record msg { written = written }

  unfoldable pub after_get_msg : UpdateAgent O W R C → Option (Reply O W R) → Returned O W R C
  after_get_msg a none = none
  after_get_msg a (some r) =
      let a1 = record a {
        err = r.err;
        reqc = record a.reqc { fsmc = r.fsm };
        msg = stored a.msg r.msg;
      } in
      if is_error r.err
      then pull_return event_get_msg_failure err_data a1
      else pull_return event_receive no_data a1

  unfoldable pub get_msg : UpdateAgent O W R C → Returned O W R C
  unfolding after_get_msg
  get_msg a = after_get_msg a (fsm pl (conn.msg_bytes a.msg) a.reqc.fsmc)

  -- (6)
  unfoldable pub request_firmware : UpdateAgent O W R C → Returned O W R C
  unfolding update_receiver_msg
  request_firmware a =
      let msg = update_receiver_msg a.reqc.fsmc a.msg in
      let a1 = called (conn.conn_request a.reqc.conn (firmware msg)) (record a { msg = msg }) in
      if is_error a1.err
      then pull_return event_receiver_failure err_data a1
      else pull_return event_receive_send conn_data a1

  unfoldable pub after_firmware : UpdateAgent O W R C → Returned O W R C
  after_firmware a =
      if is_error a.reqc.err
      then pull_return event_receiver_failure_2 request_err_data a
      else pull_return event_subscribe_timeout no_data a

  -- The end of the loop, whatever the state is then. `PULL_FINISH` does not store its event.
  unfoldable pub while_receive_firmware : UpdateAgent O W R C → Returned O W R C
  unfolding request_firmware
  while_receive_firmware a =
      if is_receive_firmware a.reqc.fsmc.state
      then request_firmware a
      else some
          (event_apply, record a { reqc = record a.reqc { conn = conn.conn_end a.reqc.conn } })

  -- `switch (current_event)`. The ignored events are labels in front of EVENT_INIT; behind the switch
  -- there is another `return EVENT_APPLY`.
  unfoldable pub continue_at : AgentEvent → UpdateAgent O W R C → Returned O W R C
  unfolding init_conn init_fsm set_callback request_version until_start_update after_version get_msg
      request_firmware after_firmware while_receive_firmware
  continue_at event_init a = init_conn a
  continue_at event_continue_start a = init_conn a
  continue_at event_continue_end a = init_conn a
  continue_at event_send_start a = init_conn a
  continue_at event_send_end a = init_conn a
  continue_at event_recover_start a = init_conn a
  continue_at event_recover_end a = init_conn a
  continue_at event_failure_start a = init_conn a
  continue_at event_failure_end a = init_conn a
  continue_at event_init_failure a = init_fsm a
  continue_at event_init_failure_2 a = set_callback a
  continue_at event_init_failure_3 a = pull_return event_subscribe no_data a
  continue_at event_subscribe a = request_version a
  continue_at event_subscribe_failure a = pull_return event_subscribe_send conn_data a
  continue_at event_subscribe_send a = after_version a
  continue_at event_subscribe_failure_2 a = until_start_update a
  continue_at event_get_msg a = get_msg a
  continue_at event_get_msg_failure a = pull_return event_receive no_data a
  continue_at event_receive a = request_firmware a
  continue_at event_receiver_failure a = pull_return event_receive_send conn_data a
  continue_at event_receive_send a = after_firmware a
  continue_at event_receiver_failure_2 a = while_receive_firmware a
  continue_at event_subscribe_timeout a = while_receive_firmware a
  continue_at _ a = some (event_apply, a)

  unfoldable pub update_agent : UpdateAgent O W R C → Returned O W R C
  unfolding continue_at
  update_agent a = continue_at a.current_event a
