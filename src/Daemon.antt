-- ===== src/Daemon.antt =====
-- crates/crewd/src/handlers.rs: the state of the daemon and the steps that the handlers are made of.
-- A handler is one step from a state to a result and a state, an await two (Daemon.Await): what another
-- handler does between two locks of one, and a poisoned lock, are not modelled. The adapters, the
-- sessions and the configuration, which no handler here uses, are no part of the state.
pub mod Trail
pub mod Json
pub mod Outbound
pub mod Gates
pub mod Writes
pub mod Success
pub mod Runs
pub mod Send
pub mod Ask
pub mod Await
pub mod Reply
pub mod Broadcast
pub mod Names
pub mod Fabric
pub mod Reads
pub mod Operator
pub mod Dispatch
pub mod Loop
mod Tests
use mcp_crewd_rs.Base.{
  ℕ, ◌+◌, String, len, Bool, true, false, not, ◌&&◌, Option, none, some, List, [], ◌∷◌, ◌==◌, ltb,
  if◌then◌else◌, any,
}
use mcp_crewd_rs.Error.{BusError, Result, ok, err, internal, body_too_large}
use mcp_crewd_rs.Types.{
  Kind, MsgType, Envelope, admin_request, spec_version_current, taint_const, max_body_bytes,
  max_idempotency_key_bytes,
}
use mcp_crewd_rs.Types.Clock.{now_rfc3339, rfc3339_after}
use mcp_crewd_rs.Canonical.{Value, object, Fields, end, field}
use mcp_crewd_rs.Audit.{Codec, Disk, FileState, AuditChain, AuditEvent, AuditEventDraft, append}
use mcp_crewd_rs.Acl.{Acl, Capability, admin_registry, check, capabilities_of}
use mcp_crewd_rs.Quota.{QuotaTracker}
use mcp_crewd_rs.Tickets.{WaitForGraph}
use mcp_crewd_rs.Store.Tables.{Store}
use mcp_crewd_rs.Wire.{
  SendParams, AskParams, AwaitParams, ReplyParams, InboxParams, BroadcastParams, CellSpawnParams,
  CellSendTaskParams, CellStatusParams, CellResultParams, CellCancelParams,
}

pub record ReportCorrelationParams : Type 0 where
  pub message_id : String
  pub tool : String
  pub high_risk : Bool
  pub outcome : String

pub record InspectParams : Type 0 where
  pub id : String

-- The code outside the repository, and what the n-th look at the surroundings sees: what the disk does
-- with a line, a fresh UUID, the clock in seconds and in milliseconds. serde_json's reading of a
-- tool's parameters is `none` on an error.
pub record World : Type 0 where
  pub codec : Codec
  pub disk : ℕ → Disk
  pub new_uuidv7 : ℕ → String
  pub secs : ℕ → ℕ
  pub millis : ℕ → ℕ
  -- whether SQLite fails on a write
  pub sql_fails : ℕ → Bool
  -- what a reading of the audit file finds, of the lines that were written
  pub audit_file : List String → FileState
  pub send_params : Value → Option SendParams
  pub ask_params : Value → Option AskParams
  pub await_params : Value → Option AwaitParams
  pub reply_params : Value → Option ReplyParams
  pub inbox_params : Value → Option InboxParams
  pub broadcast_params : Value → Option BroadcastParams
  pub spawn_params : Value → Option CellSpawnParams
  pub send_task_params : Value → Option CellSendTaskParams
  pub status_params : Value → Option CellStatusParams
  pub result_params : Value → Option CellResultParams
  pub cancel_params : Value → Option CellCancelParams
  pub correlation_params : Value → Option ReportCorrelationParams
  pub inspect_params : Value → Option InspectParams

pub record DaemonState : Type 0 where
  pub store : Store
  pub acl : Acl
  pub quota : QuotaTracker
  pub graph : WaitForGraph
  pub audit : AuditChain
  -- the asks with a `Notify`, and whether it holds a permit
  pub ask_wakers : List (String × Bool)
  -- what was sent to the scheduler, if there is one
  pub cancel_tx : Option (List String)
  -- the looks at the surroundings so far
  pub tick : ℕ

abbrev pub Action {ℓ} : Type ℓ → Type ℓ
Action A = DaemonState → Result A × DaemonState

module _ {ℓ} {A : Type ℓ} where
  abbrev pub pure : A → Action A
  pure a d = (ok a, d)

  abbrev pub fail : BusError → Action A
  fail e d = (err e, d)

  abbrev pub lift : Result A → Action A
  lift r d = (r, d)

  abbrev pub gets : (DaemonState → A) → Action A
  gets f d = (ok (f d), d)

  -- a look at the surroundings
  abbrev pub draw : (ℕ → A) → Action A
  draw f d = (ok (f d.tick), record d { tick = d.tick + 1 })

  -- a call that may change the store
  abbrev pub on_store : (Store → Result A × Store) → Action A
  on_store call d = let (r, s) = call d.store in (r, record d { store = s })

  abbrev pub or_fail : Option A → BusError → Action A
  or_fail none e = fail e
  or_fail (some a) e = pure a

-- A statement of SQLite that the schema allows, with the error that `?` passes on, E_INTERNAL, when
-- SQLite itself fails; nothing is written then.
pub write : World → (Store → Store) → Action (Unit {0})
write w f d =
    if w.sql_fails d.tick
    then (err internal, record d { tick = d.tick + 1 })
    else (ok tt, record d { store = f d.store; tick = d.tick + 1 })

infixl 5 ◌>>=◌ ◌>>◌
pub ◌>>=◌ {κ ℓ} : {B : Type κ} {A : Type ℓ} → Action B → (B → Action A) → Action A
(call >>= next) d = let (r, d_2) = call d in elim r [ err e ↦ (err e, d_2) | ok b ↦ next b d_2 ]

abbrev pub ◌>>◌ {κ ℓ} : {B : Type κ} {A : Type ℓ} → Action B → Action A → Action A
call >> next = call >>= λ _. next

-- `if fails { return Err(e) }`
abbrev pub fail_if : Bool → BusError → Action (Unit {0})
fail_if true e = fail e
fail_if false e = pure tt

-- `.map(|_| ()).map_err(..)`
abbrev pub acknowledged : Result AuditEvent → Result (Unit {0})
acknowledged (err e) = err internal
acknowledged (ok event) = ok tt

module _ (w : World) where
  -- The event's id and time are drawn from the surroundings too; its error is E_INTERNAL.
  pub audit : AuditEventDraft → Action (Unit {0})
  audit draft d =
      let (appended, chain) =
        append w.codec (w.disk d.tick) (w.new_uuidv7 d.tick) (now_rfc3339 (w.secs d.tick)) draft
          d.audit in
      (acknowledged appended, record d { audit = chain; tick = d.tick + 1 })

  -- `if let Err(e) = check { audit(..)?; return Err(e) }`
  pub audited_check : Result (Unit {0}) → AuditEventDraft → Action (Unit {0})
  audited_check (ok _) draft = pure tt
  audited_check (err e) draft = do audit draft; fail e

  -- The handlers discard the result of the audit here.
  pub audit_best_effort : AuditEventDraft → DaemonState → DaemonState
  audit_best_effort draft d = (audit draft d).1

-- A draft with an outcome and no detail
abbrev pub plain : String → Option String → Option String → Option String → String → AuditEventDraft
plain kind message_id from to outcome = record {
  kind = kind;
  message_id = message_id;
  from = from;
  to = to;
  outcome = outcome;
  detail = none;
}

pub check_body : String → Result (Unit {0})
check_body body = if ltb max_body_bytes (len body) then err body_too_large else ok tt

pub check_idem : String → Result (Unit {0})
check_idem key = if ltb max_idempotency_key_bytes (len key) then err body_too_large else ok tt

abbrev pub forbidden : List String
forbidden =
    "from_cell" ∷ "message_id" ∷ "ask_id" ∷ "seq" ∷ "kind" ∷ "taint" ∷ "created_at" ∷ "expires_at"
    ∷ "spec_version" ∷ "reply_to" ∷ "principal_capabilities" ∷ []

abbrev contains : List String → String → Bool
contains names name = any (λ n. n == name) names

pub reject_keys : Fields → List String → Result (Unit {0})
reject_keys end extra_allowed = ok tt
reject_keys (field key v rest) extra_allowed =
    let later = reject_keys rest extra_allowed in
    if contains forbidden key && not (contains extra_allowed key) then err internal else later

pub reject_client_identity_keys : Value → List String → Result (Unit {0})
unfolding reject_keys
reject_client_identity_keys (object fields) extra_allowed = reject_keys fields extra_allowed
reject_client_identity_keys _ extra_allowed = ok tt

pub check_msg_type : Acl → String → MsgType → Result (Unit {0})
check_msg_type acl from admin_request = check acl from admin_registry
check_msg_type acl from MsgType.ask = check acl from Capability.ask
check_msg_type acl from MsgType.reply = check acl from Capability.reply
check_msg_type acl from _ = ok tt

-- `serde_json::from_value`, with its error as E_INTERNAL
abbrev pub parse_params {ℓ} : {A : Type ℓ} → Option A → Action A
parse_params read = or_fail read internal

-- What a handler says of the message that it makes
pub record Draft : Type 0 where
  pub kind : Kind
  pub msg_type : MsgType
  pub from : String
  pub to : Option String
  pub body : String
  pub file_refs : List String
  pub ask_id : Option String
  pub reply_to : Option String
  pub idempotency_key : String
  pub ttl_secs : ℕ
  pub seq : ℕ

-- The clock is read twice.
pub build_envelope : World → Draft → ℕ → Envelope
build_envelope w m tick = record {
  spec_version = spec_version_current;
  message_id = w.new_uuidv7 tick;
  ask_id = m.ask_id;
  from_cell = m.from;
  to_cell = m.to;
  kind = m.kind;
  msg_type = m.msg_type;
  principal_capabilities = [];
  created_at = now_rfc3339 (w.secs tick);
  expires_at = rfc3339_after (w.secs (tick + 1)) m.ttl_secs;
  seq = m.seq;
  idempotency_key = m.idempotency_key;
  body = m.body;
  file_refs = m.file_refs;
  taint = taint_const;
  reply_to = m.reply_to;
}

pub build_envelope_with_caps : World → Draft → Action Envelope
unfolding build_envelope
build_envelope_with_caps w m d = (
  ok (record (build_envelope w m d.tick) { principal_capabilities = capabilities_of d.acl m.from }),
  record d { tick = d.tick + 2 },
)
