-- ===== src/Daemon/Broadcast.antt =====
-- crates/crewd/src/handlers.rs: handle_broadcast.
pub mod Sound
use mcp_crewd_rs.Base.{
  ℕ, ◌%◌, ◌^◌, String, max, Option, none, some, List, [], ◌∷◌, ◌==◌, if◌then◌else◌, unwrap_or,
  length,
}
use mcp_crewd_rs.Error.{dup}
use mcp_crewd_rs.Types.{Kind, note, clamp_ttl}
use mcp_crewd_rs.Types.Clock.{now_rfc3339}
use mcp_crewd_rs.Canonical.{Value, string}
use mcp_crewd_rs.Audit.{AuditEventDraft}
use mcp_crewd_rs.Acl.{Capability, check, recipients_for_broadcast}
use mcp_crewd_rs.Store.Tables.{Dedupe}
use mcp_crewd_rs.Store.Deliveries.{insert_envelope, insert_delivery}
use mcp_crewd_rs.Store.Asks.{dedupe_lookup, dedupe_insert}
use mcp_crewd_rs.Wire.{BroadcastParams}
use mcp_crewd_rs.Daemon.{
  World, Draft, Action, pure, fail, lift, gets, draw, write, parse_params, ◌>>=◌, ◌>>◌, audit,
  plain, check_body, check_idem, reject_client_identity_keys, check_msg_type,
  build_envelope_with_caps,
}
use mcp_crewd_rs.Daemon.Json.{json, list_value}
use mcp_crewd_rs.Daemon.Outbound.{check_files, key_or_fresh, admit_rate, denied_reach}

abbrev pub fanned_value : String → List String → Value
fanned_value message_id included = json (
    ("message_id", string message_id)
    ∷ ("recipients", list_value string included)
    ∷ ("status", string "enqueued")
    ∷ [])

abbrev pub broadcast_draft : String → BroadcastParams → String → Draft
broadcast_draft from p key = record {
  kind = Kind.broadcast;
  msg_type = unwrap_or p.msg_type note;
  from = from;
  to = none;
  body = p.body;
  file_refs = p.file_refs;
  ask_id = none;
  reply_to = none;
  idempotency_key = key;
  ttl_secs = clamp_ttl Kind.broadcast p.ttl_seconds;
  seq = 0;
}

abbrev pub fanned_out : String → String → List String → List String → AuditEventDraft
fanned_out message_id from included denied =
    record (plain "broadcast_fanned_out" (some message_id) (some from) none "ok") {
      detail = some (
          json (
            ("recipients", list_value string included)
            ∷ ("denied", list_value string denied)
            ∷ []));
    }

-- `included.len().max(1) as u32`
abbrev pub fanout_units : List String → ℕ
fanout_units included = max (length included) 1 % 2 ^ 32

module _ (w : World) where
  -- The loop over the protected cells that the sender may not reach
  pub audit_denied : String → String → List String → Action (Unit {0})
  audit_denied message_id from [] = pure tt
  audit_denied message_id from (to ∷ rest) = do
    audit w (denied_reach (some message_id) from to)
    audit_denied message_id from rest

  pub insert_deliveries : String → List String → Action (Unit {0})
  insert_deliveries message_id [] = pure tt
  insert_deliveries message_id (r ∷ rs) = do
    write w (insert_delivery message_id r)
    insert_deliveries message_id rs

  -- What follows the audit: every recipient gets its row.
  unfoldable pub fan_out : String → BroadcastParams → List String → String → String → Action Value
  fan_out from p included key message_id = do
    insert_deliveries message_id included
    now ← draw w.secs
    write w (dedupe_insert (now_rfc3339 now) from key message_id none (w.codec.hex_sha256 p.body))
    pure (fanned_value message_id included)

  -- From the answer of the dedupe table on
  unfoldable pub submit :
      String → BroadcastParams → List String → List String → String → Option Dedupe → Action Value
  submit from p included denied key (some hit) =
      if hit.body_sha256 == w.codec.hex_sha256 p.body
      then pure (fanned_value hit.message_id included)
      else fail dup
  submit from p included denied key none = do
    env ← build_envelope_with_caps w (broadcast_draft from p key)
    write w (insert_envelope env)
    audit_denied env.message_id from denied
    audit w (fanned_out env.message_id from included denied)
    fan_out from p included key env.message_id

  pub handle_broadcast : String → Value → Action Value
  handle_broadcast from params = do
    lift (reject_client_identity_keys params [])
    p ← parse_params (w.broadcast_params params)
    acl ← gets (λ d. d.acl)
    lift (check_msg_type acl from (unwrap_or p.msg_type note))
    lift (check_idem (unwrap_or p.idempotency_key ""))
    lift (check_body p.body)
    lift (check_files acl from p.file_refs)
    lift (check acl from Capability.broadcast)
    recipients ← gets (λ d. recipients_for_broadcast acl from)
    admit_rate w from none Capability.broadcast (fanout_units recipients.0)
    key ← key_or_fresh w p.idempotency_key
    hit ← gets (λ d. dedupe_lookup from key d.store)
    submit from p recipients.0 recipients.1 key hit
