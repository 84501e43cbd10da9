-- ===== src/Store/Tables.antt =====
-- The SQLite schema of crates/crewd-core/src/store.rs: a table is the list of its rows in the order of
-- their rowids, and a row is a record of its columns. A `state` column holds the text of a state, and
-- is modelled by the state (see `Delivery.Machine.parse-as_str`). A statement that the schema allows
-- succeeds: failures of the disk under SQLite are not modelled.
use mcp_crewd_rs.Base.{ℕ, String, Bool, Option, List, []}
use mcp_crewd_rs.Types.{Envelope}
use mcp_crewd_rs.Delivery.{DeliveryState}

pub data AskState : Type 0 where
  pending answered expired : AskState

pub data JobState : Type 0 where
  queued leased started finished cancelled : JobState

pub data ThreadState : Type 0 where
  spawning running idle interrupted timeout failed_unknown done : ThreadState

pub data EngineKind : Type 0 where
  codex claude pi fake : EngineKind

pub data WorktreeState : Type 0 where
  created cleanup_requested : WorktreeState

pub record Delivery : Type 0 where
  pub envelope_id : String
  pub recipient : String
  pub state : DeliveryState
  pub attempts : ℕ
  pub lease_until : Option ℕ
  pub next_retry_at : ℕ

pub record Ask : Type 0 where
  pub ask_id : String
  pub message_id : String
  pub from_cell : String
  pub to_cell : String
  pub expires_at : String
  pub state : AskState
  pub reply_message_id : Option String
  pub reply_body_sha256 : Option String

pub record Dedupe : Type 0 where
  pub from_cell : String
  pub idempotency_key : String
  pub message_id : String
  pub ask_id : Option String
  pub body_sha256 : String
  pub created_at : String

pub record SeqCounter : Type 0 where
  pub from_cell : String
  pub to_cell : String
  pub next_seq : ℕ

pub record CellDef : Type 0 where
  pub name : String
  pub engine : EngineKind
  pub model : Option String
  pub profile : Option String
  pub cwd : String
  pub worktree_default : Bool
  pub memory_device : Option String
  pub created_at : String

pub record CellThread : Type 0 where
  pub crewd_thread_id : String
  pub cell_name : String
  pub engine_kind : EngineKind
  pub model : Option String
  pub profile : Option String
  pub engine_process_id : Option ℕ
  pub engine_thread_id : Option String
  pub engine_turn_id : Option String
  pub engine_session_id : Option String
  pub cwd : String
  pub worktree_path : Option String
  pub state : ThreadState
  pub generation : ℕ
  pub created_by_principal : String
  pub idempotency_key : String
  pub created_at : String
  pub updated_at : String

pub record CellJob : Type 0 where
  pub job_id : String
  pub crewd_thread_id : String
  pub cell_name : String
  pub payload : String
  pub state : JobState
  pub lease_expires_at : Option String
  pub accepted_by_engine_at : Option String
  pub engine_turn_id : Option String
  pub created_at : String
  pub enqueue_seq : ℕ

pub record SpawnRow : Type 0 where
  pub caller : String
  pub cell_name : String
  pub idempotency_key : String
  pub crewd_thread_id : String
  pub created_at : String

pub record Worktree : Type 0 where
  pub canonical_path : String
  pub created_by_thread : String
  pub state : WorktreeState
  pub created_at : String

pub record JournalLine : Type 0 where
  pub thread_id : String
  pub seq : ℕ
  pub line : String
  pub at : String

pub record Store : Type 0 where
  pub envelopes : List Envelope
  pub deliveries : List Delivery
  pub asks : List Ask
  pub dedupe : List Dedupe
  pub seq_counters : List SeqCounter
  pub cells : List CellDef
  pub cell_threads : List CellThread
  pub cell_jobs : List CellJob
  pub spawn_requests : List SpawnRow
  pub cell_locks : List String
  pub worktrees : List Worktree
  pub thread_journal : List JournalLine

-- A new database.
abbrev pub create_schema : Store
create_schema = record {
  envelopes = [];
  deliveries = [];
  asks = [];
  dedupe = [];
  seq_counters = [];
  cells = [];
  cell_threads = [];
  cell_jobs = [];
  spawn_requests = [];
  cell_locks = [];
  worktrees = [];
  thread_journal = [];
}
