-- ===== src/Daemon/Send.antt =====
-- crates/crewd/src/handlers.rs: handle_send.
pub mod Sound
pub mod Gated
pub mod Resend
use mcp_crewd_rs.Base.{ℕ, String, Option, none, some, [], ◌∷◌, ◌==◌, if◌then◌else◌, unwrap_or}
use mcp_crewd_rs.Error.{dup}
use mcp_crewd_rs.Types.{Kind, MsgType, task, clamp_ttl}
use mcp_crewd_rs.Types.Clock.{now_rfc3339}
use mcp_crewd_rs.Canonical.{Value, string, object, end, field}
use mcp_crewd_rs.Acl.{Capability, via_send}
use mcp_crewd_rs.Store.Tables.{Dedupe}
use mcp_crewd_rs.Store.Deliveries.{next_seq, insert_envelope, insert_delivery}
use mcp_crewd_rs.Store.Asks.{dedupe_lookup, dedupe_insert}
use mcp_crewd_rs.Wire.{SendParams}
use mcp_crewd_rs.Daemon.{
  World, Draft, Action, pure, fail, lift, gets, draw, on_store, write, parse_params, ◌>>=◌, ◌>>◌,
  audit, check_body, check_idem, reject_client_identity_keys, check_msg_type,
  build_envelope_with_caps,
}
use mcp_crewd_rs.Daemon.Outbound.{
  check_files, key_or_fresh, authorize_outbound, admit_outbound, enqueued,
}

abbrev pub enqueued_value : String → Value
enqueued_value message_id =
    object (field "message_id" (string message_id) (field "status" (string "enqueued") end))

abbrev pub send_draft : String → SendParams → MsgType → String → ℕ → Draft
send_draft from p msg_type key seq = record {
  kind = Kind.send;
  msg_type = msg_type;
  from = from;
  to = some p.to_cell;
  body = p.body;
  file_refs = p.file_refs;
  ask_id = none;
  reply_to = none;
  idempotency_key = key;
  ttl_secs = clamp_ttl Kind.send p.ttl_seconds;
  seq = seq;
}

module _ (w : World) where
  -- What follows the audit: the message becomes deliverable, and the submission is noted.
  unfoldable pub deliver : String → String → String → String → String → Action Value
  deliver from to key body_h message_id = do
    write w (insert_delivery message_id to)
    secs ← draw w.secs
    write w (dedupe_insert (now_rfc3339 secs) from key message_id none body_h)
    pure (enqueued_value message_id)

  -- From the answer of the dedupe table on
  unfoldable pub submit : String → SendParams → MsgType → String → Option Dedupe → Action Value
  submit from p msg_type key (some hit) =
      if hit.body_sha256 == w.codec.hex_sha256 p.body
      then pure (enqueued_value hit.message_id)
      else fail dup
  submit from p msg_type key none = do
    seq ← on_store (next_seq from p.to_cell)
    env ← build_envelope_with_caps w (send_draft from p msg_type key seq)
    write w (insert_envelope env)
    audit w (enqueued env.message_id from p.to_cell)
    deliver from p.to_cell key (w.codec.hex_sha256 p.body) env.message_id

  unfoldable pub handle_send : String → Value → Action Value
  handle_send from params = do
    lift (reject_client_identity_keys params [])
    p ← parse_params (w.send_params params)
    acl ← gets (λ d. d.acl)
    lift (check_msg_type acl from (unwrap_or p.msg_type task))
    authorize_outbound w from p.to_cell Capability.send via_send
    lift (check_idem (unwrap_or p.idempotency_key ""))
    lift (check_body p.body)
    lift (check_files acl from p.file_refs)
    admit_outbound w from p.to_cell Capability.send 1
    key ← key_or_fresh w p.idempotency_key
    hit ← gets (λ d. dedupe_lookup from key d.store)
    submit from p (unwrap_or p.msg_type task) key hit
