-- ===== src/Agents/Update/Tests.antt =====
-- The agent over the machine of the tests and a connection that counts its requests.
use upkit.Prelude.{ℕ, ◌+◌, [], ◌∷◌, ◌≡◌, refl, replicate, some}
use upkit.Errors.{pull_success}
use upkit.Fixtures.{Ram, safestore}
use upkit.Memory.{memory_open, memory_read, memory_close}
use upkit.Memory.Objects.{
  get_newest_firmware, get_ordered_firmware, ordered_loop, consider, read_firmware_manifest,
}
use upkit.Network.Fsm.{State, start_update, clean, fsm_init}
use upkit.Network.Device.{platform, machine}
use upkit.Agents.Update.{
  AgentEvent, event_init, event_subscribe, event_get_msg, event_subscribe_send,
  event_subscribe_timeout, event_apply, no_data, conn_data, Connection, UpdateAgent, update_agent,
  continue_at, init_conn, init_fsm, set_callback, request_version, after_version,
  until_start_update, while_receive_firmware,
}
use upkit.Agents.Update.Phases.{Outcome}
use upkit.Agents.Update.Outcomes.{update_agent-Outcome}
use upkit.Agents.Update.Runs.{Ordered, begun, call, network, run-Ordered}

abbrev conn : Connection ℕ
conn = record {
  conn_init = λ c. (pull_success, 0);
  conn_on_data = λ c. (pull_success, c);
  conn_request = λ c resource. (pull_success, c + 1);
  conn_end = λ c. c;
  msg_bytes = λ msg. replicate 16 0;
}

abbrev agent : AgentEvent → State → UpdateAgent ℕ Ram ℕ ℕ
agent ev st = record {
  current_event = ev;
  event_data = conn_data;
  obj_t = 3;
  old_obj = 1;
  err = pull_success;
  reqc = record { fsmc = machine st; conn = 1; err = pull_success };
  msg = record { written = record { udid = 0; nonce = 0; version = 0 }; offset = 0 };
}

update_agent-Outcome_example :
    Outcome 1 event_get_msg (record (agent event_get_msg start_update) { event_data = no_data })
unfolding update_agent continue_at after_version until_start_update
update_agent-Outcome_example =
    update_agent-Outcome platform conn safestore (agent event_subscribe_send start_update) _
      event_get_msg refl refl

-- EVENT_APPLY comes after a failed update too.
apply_clean :
    update_agent platform conn safestore (agent event_subscribe_timeout clean)
    ≡ some (event_apply, agent event_subscribe_timeout clean)
unfolding update_agent continue_at while_receive_firmware
apply_clean = refl

-- Two calls from the start on, with an answer of the network behind them.
run-Ordered_example : Ordered (event_subscribe_send ∷ event_subscribe ∷ [])
unfolding update_agent continue_at init_conn init_fsm set_callback request_version fsm_init
    get_newest_firmware get_ordered_firmware ordered_loop consider read_firmware_manifest
    memory_open memory_read memory_close
run-Ordered_example = run-Ordered platform conn safestore refl (
    network (record { fsmc = machine start_update; conn = 7; err = pull_success })
      (call event_subscribe_send (call event_subscribe (begun (agent event_init clean)) refl) refl))
