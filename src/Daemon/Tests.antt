-- ===== src/Daemon/Tests.antt =====
-- Runs of crates/crewd/src/handlers.rs, with a world whose disk always writes and whose identifiers are
-- counted; the JSON reader knows one request of each tool.
use mcp_crewd_rs.Base.{suc, String, ◌≡◌, refl, Bool, true, false, none, some, [], ◌∷◌}
use mcp_crewd_rs.Error.{ok, err, acl_denied}
use mcp_crewd_rs.Types.{Envelope, task}
use mcp_crewd_rs.Canonical.{null}
use mcp_crewd_rs.Audit.{Codec, synced, readable, genesis_hash, append, assert_kind}
use mcp_crewd_rs.Audit.Append.{Grows}
use mcp_crewd_rs.Acl.{
  CellAcl, Capability, via_send, check, rank, is_registered, check_reach, is_protected, get,
}
use mcp_crewd_rs.Quota.{
  default_config, note_and_check_sender, note_and_check_capability, check_queue_depth, prune,
  capability_ceiling, window_of, put,
}
use mcp_crewd_rs.Quota.{new as new_quota}
use mcp_crewd_rs.Tickets.{new as new_graph, try_activate_await, closes_cycle, search, scan, bump}
use mcp_crewd_rs.Store.Tables.{Store, Ask, pending, CellThread, fake, running, create_schema}
use mcp_crewd_rs.Store.Deliveries.{
  next_seq, insert_envelope, insert_delivery, pending_deliveries_count,
}
use mcp_crewd_rs.Store.Asks.{dedupe_lookup, dedupe_insert, get_ask, reply_precheck}
use mcp_crewd_rs.Jobs.{new_job, job_cancel, jobs_for_thread, sort_by_seq, insert_by_seq}
use mcp_crewd_rs.Threads.{thread_get, thread_transition, transition_allowed}
use mcp_crewd_rs.Wire.{WireRequest, SendParams}
use mcp_crewd_rs.Daemon.{
  World, DaemonState, ◌>>=◌, write, audit, audited_check, check_body, check_idem,
  reject_client_identity_keys, reject_keys, check_msg_type, build_envelope_with_caps,
}
use mcp_crewd_rs.Daemon.Json.{json, count_value, envelope_value}
use mcp_crewd_rs.Daemon.Gates.{Backed}
use mcp_crewd_rs.Daemon.Runs.{denied}
use mcp_crewd_rs.Daemon.Outbound.{authorize_outbound, admit_rate, admit_outbound, denied_reach}
use mcp_crewd_rs.Daemon.Send.{enqueued_value, deliver, submit, handle_send}
use mcp_crewd_rs.Daemon.Send.Gated.{Passed, handle_send-Passed, handle_send-denied}
use mcp_crewd_rs.Daemon.Send.Resend.{handle_send_once}
use mcp_crewd_rs.Daemon.Await.{
  Waiting, waiting, notified, elapsed, answered_value, suspend, await_state, await_begin, await_end,
  await_drop,
}
use mcp_crewd_rs.Tickets.Counts.{count_of}
use mcp_crewd_rs.Daemon.Await.Balance.{await_begin-released}
use mcp_crewd_rs.Daemon.Reply.{reply_value, answer, settle, handle_reply}
use mcp_crewd_rs.Daemon.Reply.Answers.{handle_reply-await_end}
use mcp_crewd_rs.Daemon.Fabric.{check_thread_owner, cancel_jobs, interrupt, handle_cancel}
use mcp_crewd_rs.Daemon.Fabric.Cancel.{Cancelled, handle_cancel-count}
use mcp_crewd_rs.Daemon.Dispatch.{dispatch}
use mcp_crewd_rs.Daemon.Dispatch.Sound.{dispatch-Backed}

abbrev codec : Codec
codec = record {
  escape = λ s. s;
  hex_sha256 = λ s. s;
  from_str = λ s. none;
  to_line = λ v. "l";
  is_blank = λ s. false;
}

abbrev send_to : String → SendParams
send_to to = record {
  to_cell = to;
  body = "hello";
  file_refs = [];
  idempotency_key = some "k";
  ttl_seconds = none;
  msg_type = none;
}

abbrev pub world : World
world = record {
  codec = codec;
  disk = λ n. synced;
  new_uuidv7 = λ n. "u";
  secs = λ n. 0;
  millis = λ n. 0;
  sql_fails = λ n. false;
  audit_file = readable;
  send_params = λ v. some (send_to "b");
  ask_params = λ v. none;
  await_params = λ v. some (record { ask_id = "q"; timeout_ms = none });
  reply_params =
      λ v. some (record { ask_id = "q"; body = "yes"; file_refs = []; idempotency_key = none });
  inbox_params = λ v. none;
  broadcast_params = λ v. none;
  spawn_params = λ v. none;
  send_task_params = λ v. none;
  status_params = λ v. none;
  result_params = λ v. none;
  cancel_params = λ v. some (record { crewd_thread_id = "t" });
  correlation_params = λ v. none;
  inspect_params = λ v. none;
}

abbrev cell : Bool → CellAcl
cell protected = record {
  capabilities = Capability.send ∷ Capability.ask ∷ Capability.reply ∷ Capability.spawn ∷ [];
  protected = protected;
  send_to_protected = [];
  ask_protected = [];
  engine = "fake";
  order_preserving = false;
}

abbrev pub daemon : Bool → Store → DaemonState
daemon protected store = record {
  store = store;
  acl = record { cells = ("a", cell false) ∷ ("b", cell protected) ∷ [] };
  quota = new_quota default_config;
  graph = new_graph;
  audit = record { head_hash = genesis_hash; lines = [] };
  ask_wakers = [];
  cancel_tx = none;
  tick = 0;
}

abbrev start : DaemonState
start = daemon false create_schema

abbrev sent : DaemonState
sent = (handle_send world "a" null start).1

run_send : handle_send world "a" null start ≡ (ok (enqueued_value "u"), sent)
unfolding handle_send submit deliver authorize_outbound admit_outbound admit_rate audited_check
    audit ◌>>=◌ write check_body check_idem reject_client_identity_keys reject_keys check_msg_type
    build_envelope_with_caps check rank is_registered check_reach is_protected get
    note_and_check_sender note_and_check_capability check_queue_depth prune capability_ceiling
    window_of put next_seq insert_envelope insert_delivery pending_deliveries_count dedupe_lookup
    dedupe_insert append assert_kind
run_send = refl

run_again :
    handle_send world "a" null sent ≡ (ok (enqueued_value "u"), (handle_send world "a" null sent).1)
unfolding handle_send submit deliver authorize_outbound admit_outbound admit_rate audited_check
    audit ◌>>=◌ write check_body check_idem reject_client_identity_keys reject_keys check_msg_type
    build_envelope_with_caps check rank is_registered check_reach is_protected get
    note_and_check_sender note_and_check_capability check_queue_depth prune capability_ceiling
    window_of put next_seq insert_envelope insert_delivery pending_deliveries_count dedupe_lookup
    dedupe_insert append assert_kind
run_again = refl

handle_send-Passed_example : Passed world "a" null start
handle_send-Passed_example = handle_send-Passed world "a" null start run_send

handle_send_once_example :
    (enqueued_value "u" ≡ enqueued_value "u")
    × ((handle_send world "a" null sent).1.store ≡ sent.store)
    × (codec.hex_sha256 "hello" ≡ codec.hex_sha256 "hello")
handle_send_once_example =
    handle_send_once world "a" null null (send_to "b") (send_to "b") "k" start sent sent refl refl
      refl refl run_send refl run_again

-- The recipient is protected now.
abbrev guarded : DaemonState
guarded = daemon true create_schema

may_send : check guarded.acl "a" Capability.send ≡ ok tt
unfolding check get rank
may_send = refl

has_recipient : is_registered guarded.acl "b" ≡ true
unfolding is_registered get
has_recipient = refl

no_reach : check_reach guarded.acl "a" "b" via_send ≡ err acl_denied
unfolding check_reach is_protected get
no_reach = refl

any_type : check_msg_type guarded.acl "a" task ≡ ok tt
unfolding check_msg_type
any_type = refl

no_keys : reject_client_identity_keys null [] ≡ ok tt
unfolding reject_client_identity_keys
no_keys = refl

handle_send-denied_example :
    handle_send world "a" null guarded
    ≡ denied acl_denied (audit world (denied_reach none "a" "b") guarded)
handle_send-denied_example =
    handle_send-denied world "a" null (send_to "b") acl_denied guarded no_keys refl any_type
      may_send has_recipient no_reach

abbrev send_request : WireRequest
send_request = record { id = 1; method = "cell_send"; params = null }

dispatch-Backed_example :
    Grows [] (dispatch world "a" send_request start).1.audit.lines
    × Backed codec (dispatch world "a" send_request start).1
dispatch-Backed_example = dispatch-Backed world "a" send_request start tt

-- An ask of `a` to `b` that has no reply yet
abbrev asked : Ask
asked = record {
  ask_id = "q";
  message_id = "m";
  from_cell = "a";
  to_cell = "b";
  expires_at = "9";
  state = pending;
  reply_message_id = none;
  reply_body_sha256 = none;
}

abbrev asking : DaemonState
asking = daemon false (record create_schema { asks = asked ∷ [] })

abbrev awaiting : Waiting
awaiting = record {
  guard = record { from = "a"; to = "b" };
  ask_id = "q";
  ask = asked;
  timeout_ms = 120000;
}

run_await :
    await_begin world "a" null asking
    ≡ (ok (waiting awaiting), (await_begin world "a" null asking).1)
unfolding await_begin await_state suspend ◌>>=◌ write reject_client_identity_keys get_ask
    try_activate_await closes_cycle search scan bump
run_await = refl

await_begin-released_example :
    (awaiting.guard.from ≡ "a")
    × (awaiting.guard.to ≡ "b")
    × (count_of (await_begin world "a" null asking).1.graph.edges "a" "b"
        ≡ suc (count_of asking.graph.edges "a" "b"))
    × ((await_end elapsed awaiting (await_begin world "a" null asking).1).1.graph ≡ asking.graph)
    × ((await_drop awaiting (await_begin world "a" null asking).1).graph ≡ asking.graph)
await_begin-released_example =
    await_begin-released world "a" null elapsed awaiting asking
      (await_begin world "a" null asking).1 (await_begin world "a" null asking).1 tt run_await refl

found_ask : get_ask "q" asking.store ≡ some asked
unfolding get_ask
found_ask = refl

run_reply :
    handle_reply world "b" null asking
    ≡ (ok (reply_value "u" "recorded"), (handle_reply world "b" null asking).1)
unfolding handle_reply settle answer reply_precheck get_ask authorize_outbound admit_outbound
    admit_rate audited_check audit ◌>>=◌ write check_body check_idem reject_client_identity_keys
    reject_keys check_msg_type build_envelope_with_caps check rank is_registered check_reach
    is_protected get note_and_check_sender note_and_check_capability check_queue_depth prune
    capability_ceiling window_of put next_seq insert_envelope insert_delivery
    pending_deliveries_count dedupe_lookup dedupe_insert append assert_kind
run_reply = refl

handle_reply-await_end_example :
    (asked.to_cell ≡ "b")
    × ((env : Envelope) × (env.body ≡ "yes")
        × ((await_end notified awaiting (handle_reply world "b" null asking).1).0
            ≡ ok (answered_value (envelope_value env))))
handle_reply-await_end_example =
    handle_reply-await_end world "b" null
      (record { ask_id = "q"; body = "yes"; file_refs = []; idempotency_key = none }) asked awaiting
      asking (handle_reply world "b" null asking).1 refl found_ask refl refl run_reply

abbrev worker : CellThread
worker = record {
  crewd_thread_id = "t";
  cell_name = "w";
  engine_kind = fake;
  model = none;
  profile = none;
  engine_process_id = none;
  engine_thread_id = none;
  engine_turn_id = none;
  engine_session_id = none;
  cwd = ".";
  worktree_path = none;
  state = running;
  generation = 0;
  created_by_principal = "a";
  idempotency_key = "k";
  created_at = "0";
  updated_at = "0";
}

abbrev working : DaemonState
working = daemon false (record create_schema {
  cell_threads = worker ∷ [];
  cell_jobs = new_job "j1" "0" "t" "w" "go" 1 ∷ new_job "j2" "0" "t" "w" "on" 2 ∷ [];
})

run_cancel :
    handle_cancel world "a" null working
    ≡ (ok (json (("cancelled_jobs", count_value 2) ∷ [])), (handle_cancel world "a" null working).1)
unfolding handle_cancel cancel_jobs interrupt job_cancel thread_get thread_transition
    transition_allowed jobs_for_thread sort_by_seq insert_by_seq check_thread_owner audit ◌>>=◌
    write reject_client_identity_keys check rank get append assert_kind
run_cancel = refl

handle_cancel-count_example :
    Cancelled world "a"
      (record { crewd_thread_id = "t" })
      working
      (handle_cancel world "a" null working).1
handle_cancel-count_example =
    handle_cancel-count world "a" null (record { crewd_thread_id = "t" }) working refl run_cancel
