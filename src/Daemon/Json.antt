-- ===== src/Daemon/Json.antt =====
-- The JSON that the handlers of crates/crewd/src/handlers.rs answer with: `json!` and the derived
-- `Serialize` of an envelope and of an ask. The order of an object's entries has no meaning.
use mcp_crewd_rs.Base.{ℕ, String, Option, none, some, List, [], ◌∷◌}
use mcp_crewd_rs.Types.{Envelope, kind_as_str, msg_type_as_str}
use mcp_crewd_rs.Types.Clock.{pad}
use mcp_crewd_rs.Canonical.{
  Value, null, number, string, array, object, Items, nil, cons, Fields, end, field,
}
use mcp_crewd_rs.Store.Tables.{Ask, AskState, pending, answered, expired}

-- The decimal text of a u64
abbrev pub count_value : ℕ → Value
count_value n = number (pad 20 1 n)

abbrev pub opt : {A : Type 0} → (A → Value) → Option A → Value
opt f none = null
opt f (some a) = f a

abbrev pub items : {A : Type 0} → (A → Value) → List A → Items
items f [] = nil
items f (x ∷ xs) = cons (f x) (items f xs)

abbrev pub list_value : {A : Type 0} → (A → Value) → List A → Value
list_value f xs = array (items f xs)

-- `json!({..})`
abbrev pub fields : List (String × Value) → Fields
fields [] = end
fields ((key, v) ∷ rest) = field key v (fields rest)

abbrev pub json : List (String × Value) → Value
json entries = object (fields entries)

pub envelope_value : Envelope → Value
envelope_value e = json (
    ("spec_version", string e.spec_version)
    ∷ ("message_id", string e.message_id)
    ∷ ("ask_id", opt string e.ask_id)
    ∷ ("from_cell", string e.from_cell)
    ∷ ("to_cell", opt string e.to_cell)
    ∷ ("kind", string (kind_as_str e.kind))
    ∷ ("msg_type", string (msg_type_as_str e.msg_type))
    ∷ ("principal_capabilities", list_value string e.principal_capabilities)
    ∷ ("created_at", string e.created_at)
    ∷ ("expires_at", string e.expires_at)
    ∷ ("seq", count_value e.seq)
    ∷ ("idempotency_key", string e.idempotency_key)
    ∷ ("body", string e.body)
    ∷ ("file_refs", list_value string e.file_refs)
    ∷ ("taint", string e.taint)
    ∷ ("reply_to", opt string e.reply_to)
    ∷ [])

-- The text of the `state` column
pub ask_state_text : AskState → String
ask_state_text pending = "pending"
ask_state_text answered = "answered"
ask_state_text expired = "expired"

pub ask_value : Ask → Value
unfolding ask_state_text
ask_value a = json (
    ("ask_id", string a.ask_id)
    ∷ ("message_id", string a.message_id)
    ∷ ("from_cell", string a.from_cell)
    ∷ ("to_cell", string a.to_cell)
    ∷ ("expires_at", string a.expires_at)
    ∷ ("state", string (ask_state_text a.state))
    ∷ ("reply_message_id", opt string a.reply_message_id)
    ∷ [])
