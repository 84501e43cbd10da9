-- ===== src/Daemon/Reply.antt =====
-- crates/crewd/src/handlers.rs: handle_reply.
pub mod Sound
pub mod Answers
use mcp_crewd_rs.Base.{
  ℕ, String, Bool, true, not, none, some, List, [], ◌∷◌, ◌==◌, unwrap_or, update,
}
use mcp_crewd_rs.Error.{ok, ask_not_found, reply_exists}
use mcp_crewd_rs.Types.{Kind, MsgType, Envelope, clamp_ttl}
use mcp_crewd_rs.Canonical.{Value, string}
use mcp_crewd_rs.Acl.{Capability, check}
use mcp_crewd_rs.Store.Tables.{Ask}
use mcp_crewd_rs.Store.Deliveries.{next_seq, insert_envelope, insert_delivery}
use mcp_crewd_rs.Store.Asks.{
  get_ask, ReplyOutcome, recorded, duplicate_identical, conflict, reply_precheck, commit_reply,
}
use mcp_crewd_rs.Wire.{ReplyParams}
use mcp_crewd_rs.Daemon.{
  World, Draft, Action, pure, fail, lift, or_fail, fail_if, gets, on_store, write, parse_params,
  ◌>>=◌, ◌>>◌, audit, plain, check_body, check_idem, reject_client_identity_keys,
  build_envelope_with_caps,
}
use mcp_crewd_rs.Daemon.Json.{json}
use mcp_crewd_rs.Daemon.Outbound.{check_files, key_or_fresh, enqueued}

abbrev pub reply_value : String → String → Value
reply_value message_id status =
    json (("message_id", string message_id) ∷ ("status", string status) ∷ [])

abbrev pub reply_draft : String → ReplyParams → Ask → String → ℕ → Draft
reply_draft from p ask key seq = record {
  kind = Kind.reply;
  msg_type = MsgType.reply;
  from = from;
  to = some ask.from_cell;
  body = p.body;
  file_refs = p.file_refs;
  ask_id = some p.ask_id;
  reply_to = some ask.message_id;
  idempotency_key = key;
  ttl_secs = clamp_ttl Kind.reply none;
  seq = seq;
}

-- `notify_one` on the ask's `Notify`, if there is one
pub notify_one : String → List (String × Bool) → List (String × Bool)
notify_one ask_id = update (λ waker. waker.0 == ask_id) (λ waker. (waker.0, true))

abbrev pub wake_asker : String → Action (Unit {0})
wake_asker ask_id d = (ok tt, record d { ask_wakers = notify_one ask_id d.ask_wakers })

module _ (w : World) where
  -- What follows the audit: the ask is answered, the reply deliverable, the asker woken.
  unfoldable pub answer : ReplyParams → Ask → Envelope → Action Value
  answer p ask env = do
    write w (commit_reply w.codec.hex_sha256 p.ask_id env)
    write w (insert_delivery env.message_id ask.from_cell)
    wake_asker p.ask_id
    pure (reply_value env.message_id "recorded")

  unfoldable pub settle : String → ReplyParams → Ask → Envelope → ReplyOutcome → Action Value
  settle from p ask env recorded = do
    write w (insert_envelope env)
    audit w (enqueued env.message_id from ask.from_cell)
    answer p ask env
  settle from p ask env (duplicate_identical message_id) = pure (reply_value message_id "duplicate")
  settle from p ask env conflict = do
    audit w (plain "duplicate_reply" none (some from) (some ask.from_cell) "dropped")
    fail reply_exists

  unfoldable pub handle_reply : String → Value → Action Value
  handle_reply from params = do
    lift (reject_client_identity_keys params ("ask_id" ∷ []))
    p ← parse_params (w.reply_params params)
    lift (check_idem (unwrap_or p.idempotency_key ""))
    lift (check_body p.body)
    acl ← gets (λ d. d.acl)
    lift (check_files acl from p.file_refs)
    lift (check acl from Capability.reply)
    found ← gets (λ d. get_ask p.ask_id d.store)
    ask ← or_fail found ask_not_found
    fail_if (not (ask.to_cell == from)) ask_not_found
    key ← key_or_fresh w p.idempotency_key
    seq ← on_store (next_seq from ask.from_cell)
    env ← build_envelope_with_caps w (reply_draft from p ask key seq)
    outcome ← gets (λ d. reply_precheck w.codec.hex_sha256 p.ask_id env d.store)
    settle from p ask env outcome
