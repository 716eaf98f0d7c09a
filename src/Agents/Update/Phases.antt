-- ===== src/Agents/Update/Phases.antt =====
-- src/agents/update.c: the order of the events that the agent returns, and what holds when it returns them.
use upkit.Prelude.{ℕ, ◌+◌, ◌≤◌, ◌≡◌, ◌⊎◌, none, some, Bool, true, false}
use upkit.Errors.{PullError, pull_success, is_error}
use upkit.Agents.Update.{
  AgentEvent, event_init, event_subscribe, event_get_msg, event_receive, event_apply,
  event_subscribe_timeout, event_subscribe_send, event_receive_send, event_init_failure,
  event_init_failure_2, event_init_failure_3, event_get_msg_failure, event_subscribe_failure,
  event_subscribe_failure_2, event_receiver_failure, event_receiver_failure_2, EventData, err_data,
  request_err_data, UpdateAgent, Returned, is_start_update, is_receive_firmware,
}

-- The connection is set up, an update is waited for, the message is made, the image is received, and it is
-- there.
abbrev pub phase : AgentEvent → ℕ
phase event_subscribe = 1
phase event_subscribe_failure = 1
phase event_subscribe_send = 1
phase event_subscribe_failure_2 = 1
phase event_get_msg = 2
phase event_get_msg_failure = 2
phase event_receive = 3
phase event_receiver_failure = 3
phase event_receive_send = 3
phase event_receiver_failure_2 = 3
phase event_subscribe_timeout = 3
phase event_apply = 4
phase _ = 0

-- The events at which the coroutine can stand.
abbrev pub is_stop : AgentEvent → Bool
is_stop event_init = true
is_stop event_init_failure = true
is_stop event_init_failure_2 = true
is_stop event_init_failure_3 = true
is_stop event_subscribe = true
is_stop event_subscribe_failure = true
is_stop event_subscribe_send = true
is_stop event_subscribe_failure_2 = true
is_stop event_get_msg = true
is_stop event_get_msg_failure = true
is_stop event_receive = true
is_stop event_receiver_failure = true
is_stop event_receive_send = true
is_stop event_receiver_failure_2 = true
is_stop event_subscribe_timeout = true
is_stop _ = false

-- `IS_FAILURE`, on the events at which the coroutine can stand.
abbrev pub is_failure : AgentEvent → Bool
is_failure event_init_failure = true
is_failure event_init_failure_2 = true
is_failure event_init_failure_3 = true
is_failure event_subscribe_failure = true
is_failure event_subscribe_failure_2 = true
is_failure event_get_msg_failure = true
is_failure event_receiver_failure = true
is_failure event_receiver_failure_2 = true
is_failure _ = false

abbrev pub is_get_msg : AgentEvent → Bool
is_get_msg event_get_msg = true
is_get_msg _ = false

abbrev pub is_apply : AgentEvent → Bool
is_apply event_apply = true
is_apply _ = false

-- `GET_ERROR(event_data)`
abbrev pub reported_error : {O W R C : Type 0} → UpdateAgent O W R C → EventData → PullError
reported_error a err_data = a.err
reported_error a request_err_data = a.reqc.err
reported_error a _ = pull_success

-- What holds of an event that is returned in phase `p`, with the context.
pub record Outcome {O W R C : Type 0} (p : ℕ) (ev : AgentEvent) (a : UpdateAgent O W R C)
    : Type 0 where
  pub stands : is_stop a.current_event ≡ true
  pub stored_event : (a.current_event ≡ ev) ⊎ ((is_apply ev ≡ true) × (phase a.current_event ≡ p))
  pub no_phase_back : p ≤ phase ev
  pub no_phase_skipped : phase ev ≤ p + 1
  pub error_reported : is_failure ev ≡ true → is_error (reported_error a a.event_data) ≡ true
  pub update_announced : is_get_msg ev ≡ true → is_start_update a.reqc.fsmc.state ≡ true
  pub not_receiving : is_apply ev ≡ true → is_receive_firmware a.reqc.fsmc.state ≡ false

abbrev pub Outcomes : {O W R C : Type 0} → ℕ → Returned O W R C → Type 0
Outcomes p none = Unit {0}
Outcomes p (some (ev, a)) = Outcome p ev a
