-- ===== src/Types.antt =====
-- crates/crewd-core/src/types.rs: kinds, semantic types, the envelope with its invariants, and the
-- TTL ceilings. The clock and its RFC 3339 text are in `Types.Clock`.
pub mod Clock
pub mod Envelopes
mod Tests
use mcp_crewd_rs.Base.{
  ℕ, String, len, ltb, Bool, true, false, not, ◌||◌, ◌&&◌, Option, none, some, List, min, is_some,
  is_none, ◌==◌,
}
use mcp_crewd_rs.Error.{Result, internal, ask_not_found, body_too_large, reject_if, ◌>>=◌, ◌>>◌}

abbrev pub spec_version_current : String
spec_version_current = "0.1"

abbrev pub max_body_bytes : ℕ
max_body_bytes = 65536

abbrev pub max_idempotency_key_bytes : ℕ
max_idempotency_key_bytes = 128

abbrev pub ttl_ceiling_ask_secs : ℕ
ttl_ceiling_ask_secs = 900

abbrev pub ttl_ceiling_send_secs : ℕ
ttl_ceiling_send_secs = 86400

abbrev pub ttl_ceiling_broadcast_secs : ℕ
ttl_ceiling_broadcast_secs = 3600

abbrev pub taint_const : String
taint_const = "peer_untrusted"

pub data Kind : Type 0 where
  send ask reply broadcast notice : Kind

pub kind_as_str : Kind → String
kind_as_str send = "send"
kind_as_str ask = "ask"
kind_as_str reply = "reply"
kind_as_str broadcast = "broadcast"
kind_as_str notice = "notice"

pub data MsgType : Type 0 where
  note task ask reply evidence admin_request : MsgType

pub msg_type_as_str : MsgType → String
msg_type_as_str note = "note"
msg_type_as_str task = "task"
msg_type_as_str MsgType.ask = "ask"
msg_type_as_str MsgType.reply = "reply"
msg_type_as_str evidence = "evidence"
msg_type_as_str admin_request = "admin_request"

pub record Envelope : Type 0 where
  pub spec_version : String
  pub message_id : String
  pub ask_id : Option String
  pub from_cell : String
  pub to_cell : Option String
  pub kind : Kind
  pub msg_type : MsgType
  pub principal_capabilities : List String
  pub created_at : String
  pub expires_at : String
  pub seq : ℕ
  pub idempotency_key : String
  pub body : String
  pub file_refs : List String
  pub taint : String
  pub reply_to : Option String

-- The `match self.kind` of `validate_invariants`: broadcast exactly with a null `to_cell`.
abbrev addressing : Kind → Option String → Result (Unit {0})
addressing broadcast to = reject_if (is_some to) internal
addressing _ to = reject_if (is_none to) internal

abbrev is_reply : Kind → Bool
is_reply Kind.reply = true
is_reply _ = false

pub validate_invariants : Envelope → Result (Unit {0})
validate_invariants env = do
  reject_if (not (env.taint == taint_const)) internal
  addressing env.kind env.to_cell
  reject_if (is_reply env.kind && (is_none env.reply_to || is_none env.ask_id)) ask_not_found
  reject_if (ltb max_body_bytes (len env.body)) body_too_large

abbrev ttl_ceiling : Kind → ℕ
ttl_ceiling Kind.ask = ttl_ceiling_ask_secs
ttl_ceiling broadcast = ttl_ceiling_broadcast_secs
ttl_ceiling _ = ttl_ceiling_send_secs

-- A requested TTL is clamped to the ceiling of the kind.
pub clamp_ttl : Kind → Option ℕ → ℕ
clamp_ttl kind none = ttl_ceiling kind
clamp_ttl kind (some s) = min s (ttl_ceiling kind)
