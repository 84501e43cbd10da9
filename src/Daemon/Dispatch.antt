-- ===== src/Daemon/Dispatch.antt =====
-- crates/crewd/src/handlers.rs: dispatch, which answers a request with the handler of its method. An
-- await that has to wait has no answer yet.
pub mod Sound
use mcp_crewd_rs.Base.{ℕ, String, ◌==◌, if◌then◌else◌}
use mcp_crewd_rs.Error.{Result, ok, err, internal}
use mcp_crewd_rs.Canonical.{Value}
use mcp_crewd_rs.Wire.{WireRequest, WireResponse, response_ok, response_err}
use mcp_crewd_rs.Daemon.{World, DaemonState, Action, fail}
use mcp_crewd_rs.Daemon.Send.{handle_send}
use mcp_crewd_rs.Daemon.Ask.{handle_ask}
use mcp_crewd_rs.Daemon.Await.{Progress, finished, waiting, Waiting, await_begin}
use mcp_crewd_rs.Daemon.Reply.{handle_reply}
use mcp_crewd_rs.Daemon.Broadcast.{handle_broadcast}
use mcp_crewd_rs.Daemon.Fabric.{handle_spawn, handle_send_task, handle_cancel}
use mcp_crewd_rs.Daemon.Reads.{
  handle_inbox, handle_list, handle_status, handle_result, handle_report_tool_correlation,
}
use mcp_crewd_rs.Daemon.Operator.{handle_op_status, handle_op_inspect, handle_op_audit_verify}

pub data Method : Type 0 where
  cell_send cell_ask cell_await cell_reply cell_inbox cell_list cell_broadcast cell_spawn : Method
  cell_send_task cell_status cell_result cell_cancel report_tool_correlation op_status : Method
  op_inspect op_audit_verify unknown : Method

pub method_of : String → Method
method_of s =
    if s == "cell_send"
    then cell_send
    else if s == "cell_ask"
    then cell_ask
    else if s == "cell_await"
    then cell_await
    else if s == "cell_reply"
    then cell_reply
    else if s == "cell_inbox"
    then cell_inbox
    else if s == "cell_list"
    then cell_list
    else if s == "cell_broadcast"
    then cell_broadcast
    else if s == "cell_spawn"
    then cell_spawn
    else if s == "cell_send_task"
    then cell_send_task
    else if s == "cell_status"
    then cell_status
    else if s == "cell_result"
    then cell_result
    else if s == "cell_cancel"
    then cell_cancel
    else if s == "report_tool_correlation"
    then report_tool_correlation
    else if s == "op_status"
    then op_status
    else if s == "op_inspect"
    then op_inspect
    else if s == "op_audit_verify"
    then op_audit_verify
    else unknown

pub data Answer : Type 0 where
  respond : WireResponse → Answer
  suspended : ℕ → Waiting → Answer

abbrev pub to_answer : ℕ → Result Value → Answer
to_answer id (ok v) = respond (response_ok id v)
to_answer id (err e) = respond (response_err id e)

abbrev pub await_answer : ℕ → Result Progress → Answer
await_answer id (ok (finished v)) = respond (response_ok id v)
await_answer id (ok (waiting x)) = suspended id x
await_answer id (err e) = respond (response_err id e)

module _ (w : World) where
  -- The handler of a method; `cell_await` is dealt with apart.
  pub handler : Method → String → Value → Action Value
  handler cell_send = handle_send w
  handler cell_ask = handle_ask w
  handler cell_reply = handle_reply w
  handler cell_inbox = handle_inbox w
  handler cell_list = handle_list w
  handler cell_broadcast = handle_broadcast w
  handler cell_spawn = handle_spawn w
  handler cell_send_task = handle_send_task w
  handler cell_status = handle_status w
  handler cell_result = handle_result w
  handler cell_cancel = handle_cancel w
  handler report_tool_correlation = handle_report_tool_correlation w
  handler op_status = handle_op_status w
  handler op_inspect = handle_op_inspect w
  handler op_audit_verify = handle_op_audit_verify w
  handler _ = λ from params. fail internal

  abbrev pub run_method : Method → ℕ → String → Value → DaemonState → Answer × DaemonState
  run_method cell_await id from params d =
      let (r, e) = await_begin w from params d in (await_answer id r, e)
  run_method method id from params d =
      let (r, e) = handler method from params d in (to_answer id r, e)

  pub dispatch : String → WireRequest → DaemonState → Answer × DaemonState
  unfolding method_of handler
  dispatch from req d = run_method (method_of req.method) req.id from req.params d
