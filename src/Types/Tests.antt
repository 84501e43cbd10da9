-- ===== src/Types/Tests.antt =====
-- Runs of types.rs.
use mcp_crewd_rs.Base.{◌+◌, ◌≡◌, some, none, []}
use mcp_crewd_rs.Types.{Envelope, send, note}
use mcp_crewd_rs.Types.Clock.{civil_from_days}
use mcp_crewd_rs.Types.Clock.Calendar.{IsDate, day_number, epoch, civil_from_days_lem}

abbrev letter : Envelope
letter = record {
  spec_version = "0.1";
  message_id = "m";
  ask_id = none;
  from_cell = "a";
  to_cell = some "b";
  kind = send;
  msg_type = note;
  principal_capabilities = [];
  created_at = "2026-01-01T00:00:00Z";
  expires_at = "2026-01-02T00:00:00Z";
  seq = 1;
  idempotency_key = "k";
  body = "hello";
  file_refs = [];
  taint = "peer_untrusted";
  reply_to = none;
}

-- The last day of February of a leap year
civil_from_days_lem_example :
    IsDate (civil_from_days 19782) × (day_number (civil_from_days 19782) ≡ day_number epoch + 19782)
civil_from_days_lem_example = civil_from_days_lem 19782
