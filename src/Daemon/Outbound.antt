-- ===== src/Daemon/Outbound.antt =====
-- crates/crewd/src/handlers.rs: the gates before a message, authorize_outbound and admit_outbound.
pub mod Passed
use mcp_crewd_rs.Base.{ℕ, String, not, Option, none, some, List, [], ◌∷◌}
use mcp_crewd_rs.Error.{Result, unknown_cell}
use mcp_crewd_rs.Audit.{AuditEventDraft}
use mcp_crewd_rs.Acl.{Acl, Capability, attach_files, ReachVia, check, is_registered, check_reach}
use mcp_crewd_rs.Quota.{
  QuotaTracker, note_and_check_sender, note_and_check_capability, check_queue_depth,
}
use mcp_crewd_rs.Store.Deliveries.{pending_deliveries_count}
use mcp_crewd_rs.Daemon.{
  World, Action, pure, gets, draw, lift, fail_if, ◌>>=◌, ◌>>◌, audited_check, plain,
}

-- A call of the quota tracker, whose verdict the handler looks at itself.
abbrev pub on_quota : {A : Type 0} → (QuotaTracker → A × QuotaTracker) → Action A
on_quota call d = let (r, q) = call d.quota in (Result.ok r, record d { quota = q })

abbrev pub exceeded : String → Option String → AuditEventDraft
exceeded from to = plain "quota_exceeded" none (some from) to "rejected"

abbrev pub denied_reach : Option String → String → String → AuditEventDraft
denied_reach message_id from to =
    plain "protected_access_denied" message_id (some from) (some to) "denied"

-- The event of a message to one cell
abbrev pub enqueued : String → String → String → AuditEventDraft
enqueued message_id from to = plain "enqueued" (some message_id) (some from) (some to) "ok"

-- `if !p.file_refs.is_empty() { acl.check(from, Capability::AttachFiles)?; }`
abbrev pub check_files : Acl → String → List String → Result (Unit {0})
check_files acl from [] = Result.ok tt
check_files acl from (f ∷ fs) = check acl from attach_files

-- `p.idempotency_key.unwrap_or_else(new_uuidv7)`
abbrev pub key_or_fresh : World → Option String → Action String
key_or_fresh w none = draw w.new_uuidv7
key_or_fresh w (some key) = pure key

module _ (w : World) where
  unfoldable pub authorize_outbound : String → String → Capability → ReachVia → Action (Unit {0})
  authorize_outbound from to cap via = do
    acl ← gets (λ d. d.acl)
    lift (check acl from cap)
    fail_if (not (is_registered acl to)) unknown_cell
    audited_check w (check_reach acl from to via) (denied_reach none from to)

  -- The two quotas of the sender, which a broadcast checks too
  unfoldable pub admit_rate : String → Option String → Capability → ℕ → Action (Unit {0})
  admit_rate from to cap units = do
    now ← draw w.millis
    sender_res ← on_quota (λ q. note_and_check_sender q from now units)
    audited_check w sender_res (exceeded from to)
    cap_res ← on_quota (λ q. note_and_check_capability q from cap now)
    audited_check w cap_res (exceeded from to)

  unfoldable pub admit_outbound : String → String → Capability → ℕ → Action (Unit {0})
  admit_outbound from to cap units = do
    pending ← gets (λ d. pending_deliveries_count to d.store)
    depth ← gets (λ d. check_queue_depth d.quota pending)
    audited_check w depth (exceeded from (some to))
    admit_rate from (some to) cap units
