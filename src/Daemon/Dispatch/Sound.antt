-- ===== src/Daemon/Dispatch/Sound.antt =====
-- dispatch of crates/crewd/src/handlers.rs: no message can be read that the audit does not know.
use mcp_crewd_rs.Base.{ℕ, String}
use mcp_crewd_rs.Error.{Result, ok, err}
use mcp_crewd_rs.Canonical.{Value}
use mcp_crewd_rs.Audit.{Codec}
use mcp_crewd_rs.Audit.Append.{Grows}
use mcp_crewd_rs.Wire.{WireRequest, response_ok, response_err}
use mcp_crewd_rs.Daemon.{World, DaemonState, Action}
use mcp_crewd_rs.Daemon.Trail.{Post, Kept, Kept-refl, Keeps}
use mcp_crewd_rs.Daemon.Gates.{Backed, Sound, Kept-Sound}
use mcp_crewd_rs.Daemon.Writes.{Ends, Kept_is-Ends, failed_is-Sound}
use mcp_crewd_rs.Daemon.Send.Sound.{handle_send-Sound}
use mcp_crewd_rs.Daemon.Ask.Sound.{handle_ask-Sound}
use mcp_crewd_rs.Daemon.Await.{Progress, finished, waiting, await_begin}
use mcp_crewd_rs.Daemon.Await.Sound.{await_begin-Keeps}
use mcp_crewd_rs.Daemon.Reply.Sound.{handle_reply-Sound}
use mcp_crewd_rs.Daemon.Broadcast.Sound.{handle_broadcast-Sound}
use mcp_crewd_rs.Daemon.Fabric.Keeps.{handle_spawn-Keeps, handle_send_task-Keeps}
use mcp_crewd_rs.Daemon.Fabric.CancelKeeps.{handle_cancel-Keeps}
use mcp_crewd_rs.Daemon.Reads.{handle_inbox}
use mcp_crewd_rs.Daemon.Reads.Sound.{
  handle_inbox-Sound, handle_list-Keeps, handle_status-Keeps, handle_result-Keeps,
  handle_report-Keeps,
}
use mcp_crewd_rs.Daemon.Operator.Keeps.{
  handle_op_status-Keeps, handle_op_inspect-Keeps, handle_op_audit_verify-Keeps,
}
use mcp_crewd_rs.Daemon.Dispatch.{
  Method, cell_send, cell_ask, cell_await, cell_reply, cell_inbox, cell_list, cell_broadcast,
  cell_spawn, cell_send_task, cell_status, cell_result, cell_cancel, report_tool_correlation,
  op_status, op_inspect, op_audit_verify, unknown, method_of, Answer, to_answer, await_answer,
  handler, run_method, dispatch,
}

-- A step that leaves the queue announced and the audit longer
abbrev Fair : Codec → DaemonState → Answer × DaemonState → Type 0
Fair c d (answer, e) = Sound c d e

respond-Fair :
    (c : Codec) (id : ℕ) (d : DaemonState) (r : Result Value × DaemonState)
    → Ends c d r
    → Fair c d (to_answer id r.0, r.1)
unfolding Post response_ok response_err
respond-Fair c id d (ok v, e) sound = sound
respond-Fair c id d (err x, e) sound = sound

await-Fair :
    (c : Codec) (id : ℕ) (d : DaemonState) (r : Result Progress × DaemonState)
    → Post (λ _ e. Kept d e × Unit {0}) (λ _ e. Kept d e) r
    → Fair c d (await_answer id r.0, r.1)
unfolding Post
await-Fair c id d (ok (finished v), e) kept = Kept-Sound c d e kept.0
await-Fair c id d (ok (waiting x), e) kept = Kept-Sound c d e kept.0
await-Fair c id d (err x, e) kept = Kept-Sound c d e kept

module _ (w : World) where
  keeps : (call : Action Value) → Keeps call → (d : DaemonState) → Ends w.codec d (call d)
  keeps call h d = Kept_is-Ends w.codec d d (call d) (Kept-refl d) (h d)

  handler-Sound :
      (method : Method) (from : String) (params : Value) (d : DaemonState)
      → Ends w.codec d (handler w method from params d)
  unfolding handler Post
  handler-Sound cell_send from params d = handle_send-Sound w from params d
  handler-Sound cell_ask from params d = handle_ask-Sound w from params d
  handler-Sound cell_reply from params d = handle_reply-Sound w from params d
  handler-Sound cell_inbox from params d =
      failed_is-Sound w.codec (λ (_ : Value) e. Sound w.codec d e) d (handle_inbox w from params d)
        (handle_inbox-Sound w from params d)
  handler-Sound cell_list from params d = keeps _ (handle_list-Keeps w from params) d
  handler-Sound cell_broadcast from params d = handle_broadcast-Sound w from params d
  handler-Sound cell_spawn from params d = keeps _ (handle_spawn-Keeps w from params) d
  handler-Sound cell_send_task from params d = keeps _ (handle_send_task-Keeps w from params) d
  handler-Sound cell_status from params d = keeps _ (handle_status-Keeps w from params) d
  handler-Sound cell_result from params d = keeps _ (handle_result-Keeps w from params) d
  handler-Sound cell_cancel from params d = keeps _ (handle_cancel-Keeps w from params) d
  handler-Sound report_tool_correlation from params d =
      keeps _ (handle_report-Keeps w from params) d
  handler-Sound op_status from params d = keeps _ (handle_op_status-Keeps w from params) d
  handler-Sound op_inspect from params d = keeps _ (handle_op_inspect-Keeps w from params) d
  handler-Sound op_audit_verify from params d =
      keeps _ (handle_op_audit_verify-Keeps w from params) d
  handler-Sound cell_await from params d = Kept-Sound w.codec d d (Kept-refl d)
  handler-Sound unknown from params d = Kept-Sound w.codec d d (Kept-refl d)

  run_method-Fair :
      (method : Method) (id : ℕ) (from : String) (params : Value) (d : DaemonState)
      → Fair w.codec d (run_method w method id from params d)
  run_method-Fair cell_await id from params d =
      await-Fair w.codec id d (await_begin w from params d) (await_begin-Keeps w from params d)
  run_method-Fair method id from params d =
      respond-Fair w.codec id d (handler w method from params d)
        (handler-Sound method from params d)

  dispatch-Fair :
      (from : String) (req : WireRequest) (d : DaemonState) → Fair w.codec d (dispatch w from req d)
  unfolding dispatch
  dispatch-Fair from req d = run_method-Fair (method_of req.method) req.id from req.params d

  -- Whatever the request, a queue whose rows are all announced in the audit (an event says that the
  -- message was enqueued for the row's recipient, or fanned out) stays such a queue, and the audit only
  -- grows: no message becomes deliverable without its event, even where SQLite fails between two writes.
  pub dispatch-Backed :
      (from : String) (req : WireRequest) (d : DaemonState)
      → Backed w.codec d
      → Grows d.audit.lines (dispatch w from req d).1.audit.lines
        × Backed w.codec (dispatch w from req d).1
  dispatch-Backed from req d backed = let fair = dispatch-Fair from req d in (fair.0, fair.1 backed)
