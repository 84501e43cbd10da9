-- ===== src/Wire.antt =====
-- crates/crewd-core/src/wire.rs: frames, responses and the parameters of the tools. serde_json is the
-- pair `to_vec` and `from_slice`; a stream is the list of the bytes that it holds until it ends, and
-- a write that fails is not modelled. Of an error on the wire only the stable code is modelled.
mod Tests
use mcp_crewd_rs.Base.{
  ℕ, ◌<◌, String, ◌≡◌, refl, ap, ◌∙◌, false, Option, none, some, List, [], ◌∷◌, ◌++◌, arith, eqb,
  if◌then◌else◌, length, any,
}
use mathlib.Core.List.{append_assoc}
use mcp_crewd_rs.Error.{BusError, code}
use mcp_crewd_rs.Types.{MsgType}
use mcp_crewd_rs.Canonical.{Value}

pub record WireRequest : Type 0 where
  pub id : ℕ
  pub method : String
  pub params : Value

pub record WireError : Type 0 where
  pub code : String

pub record WireResponse : Type 0 where
  pub id : ℕ
  pub result : Option Value
  pub error : Option WireError

unfoldable pub response_ok : ℕ → Value → WireResponse
response_ok id v = record { id = id; result = some v; error = none }

unfoldable pub response_err : ℕ → BusError → WireResponse
response_err id e = record { id = id; result = none; error = some (record { code = code e }) }

abbrev newline : ℕ
newline = 10

-- The bytes of the line, and what the stream still holds: the loop ends at a newline or at the end.
pub read_line : List ℕ → List ℕ × List ℕ
read_line [] = ([], [])
read_line (byte ∷ rest) =
    let (line, left) = read_line rest in
    if eqb byte newline then ([], rest) else (byte ∷ line, left)

read_line-append :
    (line rest : List ℕ)
    → any (eqb newline) line ≡ false
    → read_line (line ++ newline ∷ rest) ≡ (line, rest)
unfolding read_line
read_line-append [] rest h = refl
read_line-append (b ∷ line) rest h = ground (arith, read_line-append line rest)

module _ (to_vec : WireRequest → List ℕ) (from_slice : List ℕ → Option WireRequest) where
  pub write_frame : List ℕ → WireRequest → List ℕ
  write_frame stream req = stream ++ to_vec req ++ newline ∷ []

  -- `none` for an empty line, and for one that is no request.
  pub read_frame : List ℕ → Option WireRequest × List ℕ
  unfolding read_line
  read_frame stream =
      let (line, left) = read_line stream in
      (if eqb (length line) 0 then none else from_slice line, left)

  -- A request whose JSON is not empty, holds no newline and is read back by serde_json is read off the
  -- stream as it was written, whatever follows it, and what follows stays.
  pub read_frame-write_frame :
      (req : WireRequest) (rest : List ℕ)
      → from_slice (to_vec req) ≡ some req
      → any (eqb newline) (to_vec req) ≡ false
      → 0 < length (to_vec req)
      → read_frame (write_frame [] req ++ rest) ≡ (some req, rest)
  unfolding read_frame write_frame
  read_frame-write_frame req rest h k l =
      ap (λ stream. read_frame stream) (append_assoc (to_vec req) (newline ∷ []) rest)
      ∙ ap
          (λ (read : List ℕ × List ℕ).
            (if eqb (length read.0) 0 then none else from_slice read.0, read.1))
          (read_line-append (to_vec req) rest k)
      ∙ ground (arith, h, l)

pub record SendParams : Type 0 where
  pub to_cell : String
  pub body : String
  pub file_refs : List String
  pub idempotency_key : Option String
  pub ttl_seconds : Option ℕ
  pub msg_type : Option MsgType

pub record AskParams : Type 0 where
  pub to_cell : String
  pub body : String
  pub file_refs : List String
  pub idempotency_key : Option String
  pub ttl_seconds : Option ℕ

pub record AwaitParams : Type 0 where
  pub ask_id : String
  pub timeout_ms : Option ℕ

pub record ReplyParams : Type 0 where
  pub ask_id : String
  pub body : String
  pub file_refs : List String
  pub idempotency_key : Option String

pub record InboxParams : Type 0 where
  pub limit : Option ℕ

pub record BroadcastParams : Type 0 where
  pub body : String
  pub file_refs : List String
  pub idempotency_key : Option String
  pub ttl_seconds : Option ℕ
  pub msg_type : Option MsgType

pub record CellSpawnParams : Type 0 where
  pub cell : Option String
  pub engine : Option String
  pub model : Option String
  pub profile : Option String
  pub cwd : Option String
  pub worktree : Option String
  pub task : String
  pub idempotency_key : String
  pub mode : Option String

pub record CellSendTaskParams : Type 0 where
  pub crewd_thread_id : String
  pub message : String
  pub idempotency_key : Option String

pub record CellStatusParams : Type 0 where
  pub crewd_thread_id : Option String

pub record CellResultParams : Type 0 where
  pub crewd_thread_id : String

pub record CellCancelParams : Type 0 where
  pub crewd_thread_id : String
