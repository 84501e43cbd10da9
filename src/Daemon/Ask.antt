-- ===== src/Daemon/Ask.antt =====
-- crates/crewd/src/handlers.rs: handle_ask.
pub mod Sound
use mcp_crewd_rs.Base.{ℕ, String, Option, none, some, [], ◌∷◌, ◌==◌, if◌then◌else◌, unwrap_or}
use mcp_crewd_rs.Error.{dup}
use mcp_crewd_rs.Types.{Kind, MsgType, clamp_ttl}
use mcp_crewd_rs.Types.Clock.{now_rfc3339, rfc3339_after}
use mcp_crewd_rs.Canonical.{Value, string}
use mcp_crewd_rs.Audit.{AuditEventDraft}
use mcp_crewd_rs.Acl.{Capability, via_ask}
use mcp_crewd_rs.Quota.{check_pending_ask_cap}
use mcp_crewd_rs.Store.Tables.{Dedupe}
use mcp_crewd_rs.Store.Deliveries.{next_seq, insert_envelope, insert_delivery}
use mcp_crewd_rs.Store.Asks.{dedupe_lookup, dedupe_insert, insert_ask, pending_asks_count}
use mcp_crewd_rs.Wire.{AskParams}
use mcp_crewd_rs.Daemon.{
  World, Draft, Action, pure, fail, lift, gets, draw, on_store, write, parse_params, ◌>>=◌, ◌>>◌,
  audit, audited_check, plain, check_body, check_idem, reject_client_identity_keys,
  build_envelope_with_caps,
}
use mcp_crewd_rs.Daemon.Json.{json, opt}
use mcp_crewd_rs.Daemon.Outbound.{
  check_files, key_or_fresh, authorize_outbound, admit_outbound, exceeded, enqueued,
}

abbrev pub pending_value : Option String → String → Value
pending_value ask_id message_id = json (
    ("ask_id", opt string ask_id)
    ∷ ("message_id", string message_id)
    ∷ ("status", string "pending")
    ∷ [])

abbrev pub ask_draft : String → AskParams → String → String → ℕ → Draft
ask_draft from p ask_id key seq = record {
  kind = Kind.ask;
  msg_type = MsgType.ask;
  from = from;
  to = some p.to_cell;
  body = p.body;
  file_refs = p.file_refs;
  ask_id = some ask_id;
  reply_to = none;
  idempotency_key = key;
  ttl_secs = clamp_ttl Kind.ask p.ttl_seconds;
  seq = seq;
}

abbrev pub ask_opened : String → String → String → String → AuditEventDraft
ask_opened ask_id message_id from to =
    record (plain "ask_opened" (some message_id) (some from) (some to) "ok") {
      detail = some (json (("ask_id", string ask_id) ∷ []));
    }

module _ (w : World) where
  -- What follows the audit: the ask becomes deliverable and awaitable.
  pub open_ask : String → AskParams → String → String → String → Action Value
  open_ask from p ask_id key message_id = do
    write w (insert_delivery message_id p.to_cell)
    secs ← draw w.secs
    write w (
        insert_ask ask_id message_id from p.to_cell
          (rfc3339_after secs (clamp_ttl Kind.ask p.ttl_seconds)))
    now ← draw w.secs
    write w (
        dedupe_insert (now_rfc3339 now) from key message_id (some ask_id)
          (w.codec.hex_sha256 p.body))
    pure (pending_value (some ask_id) message_id)

  -- From the answer of the dedupe table on
  unfoldable pub submit : String → AskParams → String → String → Option Dedupe → Action Value
  submit from p ask_id key (some hit) =
      if hit.body_sha256 == w.codec.hex_sha256 p.body
      then pure (pending_value hit.ask_id hit.message_id)
      else fail dup
  submit from p ask_id key none = do
    seq ← on_store (next_seq from p.to_cell)
    env ← build_envelope_with_caps w (ask_draft from p ask_id key seq)
    write w (insert_envelope env)
    audit w (enqueued env.message_id from p.to_cell)
    audit w (ask_opened ask_id env.message_id from p.to_cell)
    open_ask from p ask_id key env.message_id

  pub handle_ask : String → Value → Action Value
  handle_ask from params = do
    lift (reject_client_identity_keys params [])
    p ← parse_params (w.ask_params params)
    authorize_outbound w from p.to_cell Capability.ask via_ask
    lift (check_idem (unwrap_or p.idempotency_key ""))
    lift (check_body p.body)
    acl ← gets (λ d. d.acl)
    lift (check_files acl from p.file_refs)
    admit_outbound w from p.to_cell Capability.ask 1
    verdict ← gets (λ d. check_pending_ask_cap d.quota (pending_asks_count from d.store))
    audited_check w verdict (exceeded from (some p.to_cell))
    key ← key_or_fresh w p.idempotency_key
    ask_id ← draw w.new_uuidv7
    hit ← gets (λ d. dedupe_lookup from key d.store)
    submit from p ask_id key hit
