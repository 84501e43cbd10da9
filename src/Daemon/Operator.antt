-- ===== src/Daemon/Operator.antt =====
-- crates/crewd/src/handlers.rs: the calls of the operator, handle_op_status, handle_op_inspect and
-- handle_op_audit_verify.
pub mod Keeps
use mcp_crewd_rs.Base.{String, none, some, List, [], ◌∷◌, ◌==◌, if◌then◌else◌}
use mcp_crewd_rs.Error.{Result, ok, err, internal}
use mcp_crewd_rs.Canonical.{Value, string}
use mcp_crewd_rs.Audit.{Codec, FileState, readable, VerifyResult, intact, broken, verify, get_str}
use mcp_crewd_rs.Acl.{Capability, check}
use mcp_crewd_rs.Store.Deliveries.{get_envelope, pending_deliveries_total}
use mcp_crewd_rs.Store.Asks.{get_ask, open_asks_total}
use mcp_crewd_rs.Daemon.{
  World, Action, pure, lift, gets, parse_params, ◌>>=◌, ◌>>◌, reject_client_identity_keys,
}
use mcp_crewd_rs.Daemon.Json.{json, opt, list_value, count_value, envelope_value, ask_value}

-- The events of the file that name the message: a line that is blank or no JSON is passed over.
pub audit_events_for : Codec → String → List String → List Value
audit_events_for c id [] = []
audit_events_for c id (line ∷ rest) =
    let later = audit_events_for c id rest in
    if c.is_blank line then later else elim (c.from_str line) [
      | none ↦ later
      | some v ↦ elim (get_str "message_id" v) [
        | none ↦ later
        | some m ↦ if m == id then v ∷ later else later
      ]
    ]

pub read_audit_events_for : Codec → FileState → String → Result (List Value)
unfolding audit_events_for
read_audit_events_for c (readable lines) id = ok (audit_events_for c id lines)
read_audit_events_for c _ id = err internal

abbrev verdict_value : VerifyResult → Value
verdict_value (intact head events) =
    json
      (("status", string "ok") ∷ ("head_hash", string head) ∷ ("events", count_value events) ∷ [])
verdict_value (broken event_id index) = json (
    ("status", string "broken") ∷ ("event_id", string event_id) ∷ ("index", count_value index) ∷ [])

module _ (w : World) where
  pub handle_op_status : String → Value → Action Value
  handle_op_status from params = do
    lift (reject_client_identity_keys params [])
    acl ← gets (λ d. d.acl)
    lift (check acl from Capability.read_audit)
    gets (λ d. json (
        ("head_hash", string d.audit.head_hash)
        ∷ ("pending_deliveries", count_value (pending_deliveries_total d.store))
        ∷ ("open_asks", count_value (open_asks_total d.store))
        ∷ []))

  pub handle_op_inspect : String → Value → Action Value
  handle_op_inspect from params = do
    lift (reject_client_identity_keys params ("id" ∷ []))
    acl ← gets (λ d. d.acl)
    lift (check acl from Capability.read_audit)
    p ← parse_params (w.inspect_params params)
    envelope ← gets (λ d. get_envelope p.id d.store)
    ask ← gets (λ d. get_ask p.id d.store)
    read ← gets (λ d. read_audit_events_for w.codec (w.audit_file d.audit.lines) p.id)
    events ← lift read
    pure (
        json (
          ("envelope", opt envelope_value envelope)
          ∷ ("ask", opt ask_value ask)
          ∷ ("audit_events", list_value (λ v. v) events)
          ∷ []))

  pub handle_op_audit_verify : String → Value → Action Value
  handle_op_audit_verify from params = do
    lift (reject_client_identity_keys params [])
    acl ← gets (λ d. d.acl)
    lift (check acl from Capability.read_audit)
    gets (λ d. verdict_value (verify w.codec (w.audit_file d.audit.lines)))
