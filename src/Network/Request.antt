-- ===== src/Network/Request.antt =====
-- src/core/network/request.c: the callback through which a connection hands what it receives to the state
-- machine.
pub mod Reboot
mod Tests
use upkit.Prelude.{ℕ, List, Option, none, some, if◌then◌else◌}
use upkit.Errors.{PullError, is_error}
use upkit.Network.Fsm.{Platform, Fsm, Reply, fsm}

-- `request_ctx_t`, with the connection as the network stack keeps it.
pub record RequestCtx (O W R C : Type 0) : Type 0 where
  pub fsmc : Fsm O W R
  pub conn : C
  pub err : PullError

module _ {D O W R C : Type 0} (pl : Platform D O W R) (break_loop : C → C) where
  -- What follows the call of `fsm`.
  unfoldable pub after_fsm : RequestCtx O W R C → Option (Reply O W R) → Option (RequestCtx O W R C)
  after_fsm ctx none = none
  after_fsm ctx (some r) = some (record {
    fsmc = r.fsm;
    conn = if is_error r.err then break_loop ctx.conn else ctx.conn;
    err = r.err;
  })

  -- With data that is no error but is missing (`none`: NULL, or a negative length) the error that is kept
  -- is the `err` of the call, which is then PULL_SUCCESS.
  unfoldable pub request_cb :
      PullError → Option (List ℕ) → RequestCtx O W R C → Option (RequestCtx O W R C)
  request_cb err none ctx =
      if is_error err
      then some (record ctx { err = err })
      else some (record ctx { conn = break_loop ctx.conn; err = err })
  request_cb err (some bytes) ctx =
      if is_error err
      then some (record ctx { err = err })
      else after_fsm ctx (fsm pl bytes ctx.fsmc)
