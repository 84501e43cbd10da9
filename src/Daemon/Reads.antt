-- ===== src/Daemon/Reads.antt =====
-- crates/crewd/src/handlers.rs: the handlers that only look, but for the marks of a read inbox and the
-- audit: handle_inbox, handle_list, handle_status, handle_result and handle_report_tool_correlation.
pub mod Sound
use mcp_crewd_rs.Base.{
  ℕ, min, String, Bool, true, false, not, Option, none, some, List, [], ◌∷◌, ◌==◌, if◌then◌else◌,
  unwrap_or, length,
}
use mcp_crewd_rs.Error.{Result, ok, acl_denied, internal, unknown_cell}
use mcp_crewd_rs.Types.{msg_type_as_str}
use mcp_crewd_rs.Canonical.{Value, bool, string}
use mcp_crewd_rs.Delivery.{DeliveryState, delivered, acked}
use mcp_crewd_rs.Audit.{AuditEventDraft}
use mcp_crewd_rs.Acl.{CellAcl, Capability, check}
use mcp_crewd_rs.Store.Tables.{
  Store, CellThread, CellDef, ThreadState, spawning, running, idle, interrupted, timeout,
  failed_unknown, done,
}
use mcp_crewd_rs.Store.Deliveries.{inbox, delivery_state, get_envelope}
use mcp_crewd_rs.Jobs.{jobs_for_thread, job_active_count_for_cell}
use mcp_crewd_rs.Threads.{as_str, is_active, thread_get, thread_active_for_cell}
use mcp_crewd_rs.Cells.{cell_list_defs}
use mcp_crewd_rs.Engine.{CellResult, from_thread, journal_tail}
use mcp_crewd_rs.Daemon.{
  World, ReportCorrelationParams, Action, pure, lift, or_fail, fail_if, gets, parse_params, ◌>>=◌,
  ◌>>◌, audit, plain, reject_client_identity_keys,
}
use mcp_crewd_rs.Daemon.Json.{json, opt, list_value, count_value, envelope_value}
use mcp_crewd_rs.Daemon.Names.{journal_final_answer}
use mcp_crewd_rs.Daemon.Fabric.{check_thread_owner}

abbrev pub inbox_limit : Option ℕ → ℕ
inbox_limit limit = min (unwrap_or limit 50) 200

-- The messages that are taken, and whether there are more
abbrev pub take_inbox : String → ℕ → Action Value
take_inbox from limit d =
    let ((msgs, more), s) = inbox from limit d.store in
    (
      ok (json (("messages", list_value envelope_value msgs) ∷ ("has_more", bool more) ∷ [])),
      record d { store = s },
    )

abbrev cell_entry : String × CellAcl → Value
cell_entry (name, c) = json (("name", string name) ∷ ("engine", string c.engine) ∷ [])

abbrev thread_id_of : CellThread → Value
thread_id_of t = string t.crewd_thread_id

abbrev fabric_entry : Store → CellDef → Value
fabric_entry s d = json (
    ("cell", string d.name)
    ∷ ("active_thread", opt thread_id_of (thread_active_for_cell d.name s))
    ∷ ("queue_depth", count_value (job_active_count_for_cell d.name s))
    ∷ [])

abbrev pub thread_status_value : Store → CellThread → Value
thread_status_value s t = json (
    ("crewd_thread_id", string t.crewd_thread_id)
    ∷ ("cell", string t.cell_name)
    ∷ ("state", string (as_str t.state))
    ∷ ("engine_proc_state", string (if is_active t.state then "up" else "down"))
    ∷ ("jobs", count_value (length (jobs_for_thread t.crewd_thread_id s)))
    ∷ ("engine_thread_id", opt string t.engine_thread_id)
    ∷ ("engine_turn_id", opt string t.engine_turn_id)
    ∷ ("engine_session_id", opt string t.engine_session_id)
    ∷ [])

-- The active threads of the registered cells that the caller has made
pub own_threads : String → Store → List CellDef → List CellThread
own_threads from s [] = []
own_threads from s (d ∷ ds) =
    let rest = own_threads from s ds in
    elim (thread_active_for_cell d.name s) [
      | none ↦ rest
      | some t ↦ if t.created_by_principal == from then t ∷ rest else rest
    ]

pub exit_status : ThreadState → String
exit_status idle = "done"
exit_status done = "done"
exit_status interrupted = "interrupted"
exit_status timeout = "timeout"
exit_status failed_unknown = "failed_unknown"
exit_status spawning = "running"
exit_status running = "running"

pub cell_result : Store → CellThread → CellResult
cell_result s t =
    let tail = journal_tail t.crewd_thread_id 50 s in
    record (from_thread t) {
      final_answer = journal_final_answer tail;
      event_tail = tail;
      exit_status = exit_status t.state;
    }

-- The derived `Serialize` of a CellResult; the process id is a positive i64.
abbrev result_value : CellResult → Value
result_value r = json (
    ("final_answer", opt string r.final_answer)
    ∷ ("event_tail", list_value string r.event_tail)
    ∷ ("artifact_refs", list_value string r.artifact_refs)
    ∷ ("exit_status", string r.exit_status)
    ∷ ("crewd_thread_id", string r.crewd_thread_id)
    ∷ ("engine_process_id", opt count_value r.engine_process_id)
    ∷ ("engine_thread_id", opt string r.engine_thread_id)
    ∷ ("engine_turn_id", opt string r.engine_turn_id)
    ∷ ("engine_session_id", opt string r.engine_session_id)
    ∷ [])

-- `matches!(dstate, Ok(Delivered) | Ok(Acked))`
pub has_consumed : Result DeliveryState → Bool
has_consumed (ok delivered) = true
has_consumed (ok acked) = true
has_consumed _ = false

abbrev pub causal : ReportCorrelationParams → String → String → AuditEventDraft
causal p from msg_type = record (plain "acked" (some p.message_id) (some from) none "ok") {
  detail = some (
      json (
        ("causal", bool true)
        ∷ ("message_id", string p.message_id)
        ∷ ("tool", string p.tool)
        ∷ ("high_risk", bool p.high_risk)
        ∷ ("outcome", string p.outcome)
        ∷ ("msg_type", string msg_type)
        ∷ []));
}

module _ (w : World) where
  pub handle_inbox : String → Value → Action Value
  handle_inbox from params = do
    lift (reject_client_identity_keys params [])
    p ← parse_params (w.inbox_params params)
    acl ← gets (λ d. d.acl)
    lift (check acl from Capability.read_inbox)
    take_inbox from (inbox_limit p.limit)

  pub handle_list : String → Value → Action Value
  handle_list from params = do
    lift (reject_client_identity_keys params [])
    acl ← gets (λ d. d.acl)
    lift (check acl from Capability.list_cells)
    gets (λ d. json (
        ("cells", list_value cell_entry acl.cells)
        ∷ ("fabric", list_value (fabric_entry d.store) (cell_list_defs d.store))
        ∷ []))

  pub status_of : String → Option String → Action Value
  status_of from (some thread_id) = do
    found ← gets (λ d. thread_get thread_id d.store)
    t ← or_fail found unknown_cell
    acl ← gets (λ d. d.acl)
    lift (check_thread_owner acl from t)
    gets (λ d. json (("threads", list_value (thread_status_value d.store) (t ∷ [])) ∷ []))
  status_of from none = gets (λ d. json (
      (
        "threads",
        list_value (thread_status_value d.store)
            (own_threads from d.store (cell_list_defs d.store)),
      )
      ∷ []))

  pub handle_status : String → Value → Action Value
  handle_status from params = do
    lift (reject_client_identity_keys params [])
    p ← parse_params (w.status_params params)
    status_of from p.crewd_thread_id

  pub handle_result : String → Value → Action Value
  handle_result from params = do
    lift (reject_client_identity_keys params [])
    p ← parse_params (w.result_params params)
    found ← gets (λ d. thread_get p.crewd_thread_id d.store)
    t ← or_fail found unknown_cell
    acl ← gets (λ d. d.acl)
    lift (check_thread_owner acl from t)
    gets (λ d. result_value (cell_result d.store t))

  pub handle_report_tool_correlation : String → Value → Action Value
  handle_report_tool_correlation from params = do
    lift (reject_client_identity_keys params ("message_id" ∷ []))
    p ← parse_params (w.correlation_params params)
    consumed ← gets (λ d. has_consumed (delivery_state p.message_id from d.store))
    fail_if (not consumed) acl_denied
    found ← gets (λ d. get_envelope p.message_id d.store)
    env ← or_fail found internal
    audit w (causal p from (msg_type_as_str env.msg_type))
    pure (json (("recorded", bool true) ∷ []))
