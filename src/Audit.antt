-- ===== src/Audit.antt =====
-- crates/crewd-core/src/audit.rs: the append-only chain of events. serde_json and SHA-256 are the
-- operations of `Codec`. The file is the list of its lines.
pub mod Chain
pub mod Append
pub mod Tamper
pub mod Sync
mod Tests
use Prim.Native.String.{◌++◌ as ◌^^◌}
use mcp_crewd_rs.Base.{
  ℕ, ◌+◌, String, Bool, not, ◌||◌, Option, none, some, List, [], ◌∷◌, ◌++◌, any, select, ◌==◌,
  if◌then◌else◌,
}
use mcp_crewd_rs.Error.{Result, ok, err, internal}
use mcp_crewd_rs.Canonical.{Value, null, string, object, Fields, end, field, to_canonical_json}

pub record Codec : Type 0 where
  -- serde_json's string escaping
  pub escape : String → String
  -- hex(sha256(text))
  pub hex_sha256 : String → String
  -- serde_json::from_str, `none` on an error
  pub from_str : String → Option Value
  -- serde_json::to_string of a value
  pub to_line : Value → String
  -- line.trim().is_empty()
  pub is_blank : String → Bool

abbrev pub audit_kinds : List String
audit_kinds =
    "enqueued" ∷ "delivered" ∷ "acked" ∷ "delivery_failed" ∷ "expired" ∷ "ask_opened"
    ∷ "ask_expired" ∷ "duplicate_reply" ∷ "acl_changed" ∷ "quota_exceeded" ∷ "deadlock_prevented"
    ∷ "broadcast_fanned_out" ∷ "auth_rejected" ∷ "spec_version_rejected" ∷ "protected_access_denied"
    ∷ "registry_changed" ∷ "token_revoked" ∷ "cell_registered" ∷ "cell_updated"
    ∷ "cell_spawn_requested" ∷ "cell_turn_started" ∷ "cell_turn_completed" ∷ "cell_turn_failed"
    ∷ "cell_cancelled" ∷ "cell_timeout" ∷ "engine_started" ∷ "engine_stopped" ∷ "worktree_created"
    ∷ "worktree_cleanup" ∷ []

abbrev pub genesis_hash : String
genesis_hash = "0000000000000000000000000000000000000000000000000000000000000000"

pub record AuditEvent : Type 0 where
  pub event_id : String
  pub ts : String
  pub kind : String
  pub message_id : Option String
  pub from : Option String
  pub to : Option String
  pub outcome : String
  pub detail : Option Value
  pub prev_hash : String
  pub hash : String

pub record AuditEventDraft : Type 0 where
  pub kind : String
  pub message_id : Option String
  pub from : Option String
  pub to : Option String
  pub outcome : String
  pub detail : Option Value

unfoldable pub assert_kind : String → Result (Unit {0})
assert_kind kind = if any (λ k. k == kind) audit_kinds then ok tt else err internal

abbrev opt_string : Option String → Value
opt_string none = null
opt_string (some s) = string s

abbrev opt_value : Option Value → Value
opt_value none = null
opt_value (some v) = v

-- serde_json::to_value of an event.
pub to_value : AuditEvent → Fields
to_value e = field "event_id" (string e.event_id) (
    field "ts" (string e.ts) (
      field "kind" (string e.kind) (
        field "message_id" (opt_string e.message_id) (
          field "from" (opt_string e.from) (
            field "to" (opt_string e.to) (
              field "outcome" (string e.outcome) (
                field "detail" (opt_value e.detail)
                  (field "prev_hash" (string e.prev_hash) (field "hash" (string e.hash) end)))))))))

pub get : String → Fields → Option Value
get key end = none
get key (field k v fs) = let found = get key fs in if k == key then some v else found

-- `m.remove(key)`
pub remove : String → Fields → Fields
remove key end = end
remove key (field k v fs) = let rest = remove key fs in if k == key then rest else field k v rest

-- `val.get(key).and_then(|v| v.as_str())`, of a value that need not be an object
abbrev as_str : Option Value → Option String
as_str (some (string s)) = some s
as_str _ = none

pub get_str : String → Value → Option String
unfolding get
get_str key (object fs) = as_str (get key fs)
get_str key _ = none

abbrev or_empty : Option String → String
or_empty none = ""
or_empty (some s) = s

-- The value with its `hash` field removed, if it is an object.
pub without_hash : Value → Value
unfolding remove
without_hash (object fs) = object (remove "hash" fs)
without_hash v = v

pub recompute : Codec → Value → String → String
recompute c v prev_hash = c.hex_sha256 (to_canonical_json c.escape (without_hash v) ^^ prev_hash)

pub record AuditChain : Type 0 where
  pub head_hash : String
  pub lines : List String

-- What the file system does with the line: the file cannot be opened or nothing is written; all of
-- the line is written but `sync_all` fails; all goes well. A
-- write that stops within the line is left out, as the file is a list of whole lines.
pub data Disk : Type 0 where
  refused unsynced synced : Disk

-- The event that `append` writes.
pub seal : Codec → String → String → String → AuditEventDraft → AuditEvent
unfolding recompute without_hash to_value
seal c head event_id ts draft =
    let blank : AuditEvent = record {
      event_id = event_id;
      ts = ts;
      kind = draft.kind;
      message_id = draft.message_id;
      from = draft.from;
      to = draft.to;
      outcome = draft.outcome;
      detail = draft.detail;
      prev_hash = head;
      hash = "";
    } in
    record blank { hash = recompute c (object (to_value blank)) head }

abbrev pub event_line : Codec → AuditEvent → String
event_line c e = c.to_line (object (to_value e))

abbrev write : Disk → Codec → AuditEvent → AuditChain → Result AuditEvent × AuditChain
write refused c e chain = (err internal, chain)
write unsynced c e chain =
    (err internal, record chain { lines = chain.lines ++ event_line c e ∷ [] })
write synced c e chain =
    (ok e, record { head_hash = e.hash; lines = chain.lines ++ event_line c e ∷ [] })

-- `event_id` and `ts` are the fresh identifier and the time of the call.
unfoldable pub append :
    Codec → Disk → String → String → AuditEventDraft → AuditChain → Result AuditEvent × AuditChain
unfolding assert_kind seal to_value
append c disk event_id ts draft chain = elim (assert_kind draft.kind) [
  | err e ↦ (err e, chain)
  | ok _ ↦ write disk c (seal c chain.head_hash event_id ts draft) chain
]

pub data FileState : Type 0 where
  absent unreadable : FileState
  readable : List String → FileState

pub data VerifyResult : Type 0 where
  intact : String → ℕ → VerifyResult
  broken : String → ℕ → VerifyResult

-- What `verify` reads off one line.
pub record Entry : Type 0 where
  pub event_id : String
  pub prev_hash : String
  pub hash : String
  pub recomputed : String

pub read_entry : Codec → String → Option Entry
unfolding get_str recompute without_hash
read_entry c line = elim (c.from_str line) [
  | none ↦ none
  | some v ↦
      let prev_hash = or_empty (get_str "prev_hash" v) in
      some (record {
        event_id = or_empty (get_str "event_id" v);
        prev_hash = prev_hash;
        hash = or_empty (get_str "hash" v);
        recomputed = recompute c v prev_hash;
      })
]

pub verify_from : Codec → ℕ → String → List String → VerifyResult
unfolding read_entry
verify_from c i prev_event_hash [] = intact prev_event_hash i
verify_from c i prev_event_hash (line ∷ rest) = elim (read_entry c line) [
  | none ↦ broken "" i
  | some e ↦
      let later = verify_from c (i + 1) e.hash rest in
      if not (e.recomputed == e.hash) || not (e.prev_hash == prev_event_hash)
      then broken e.event_id i
      else later
]

pub verify : Codec → FileState → VerifyResult
unfolding verify_from
verify c absent = intact genesis_hash 0
verify c unreadable = broken "" 0
verify c (readable lines) = verify_from c 0 genesis_hash (select (λ l. not (c.is_blank l)) lines)

-- `lines().rfind(..)`
abbrev last : List String → Option String
last [] = none
last (l ∷ ls) = elim (last ls) [ none ↦ some l | some m ↦ some m ]

abbrev head_of : Option Value → Option String
head_of none = none
head_of (some v) = elim (get_str "hash" v) [ none ↦ some genesis_hash | some h ↦ some h ]

-- `AuditChain::open` on the lines of the file, none of them if it is absent; `none` is an error.
pub open_chain : Codec → List String → Option AuditChain
unfolding get_str
open_chain c lines = elim (last (select (λ l. not (c.is_blank l)) lines)) [
  | none ↦ some (record { head_hash = genesis_hash; lines = lines })
  | some line ↦ elim (head_of (c.from_str line)) [
    | none ↦ none
    | some h ↦ some (record { head_hash = h; lines = lines })
  ]
]
