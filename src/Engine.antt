-- ===== src/Engine.antt =====
-- crates/crewd-core/src/engine.rs: what an engine says, the result of a thread and its journal. The
-- clock's text `now` is an argument.
pub mod Journal
mod Tests
use Prim.Native.String.{◌++◌ as ◌^^◌}
use mcp_crewd_rs.Base.{
  ℕ, ◌+◌, String, max, Bool, Option, none, List, [], ◌∷◌, ◌++◌, map, ◌==◌, leb, if◌then◌else◌, take,
  select, reverse,
}
use mcp_crewd_rs.Types.Clock.{pad}
use mcp_crewd_rs.Store.Tables.{Store, CellThread, JournalLine}

pub record EngineCaps : Type 0 where
  pub supports_session_resume : Bool
  pub supports_abort : Bool
  pub supports_stream_replay : Bool
  pub supports_model_override : Bool
  pub supports_yolo : Bool

pub data EngineEvent : Type 0 where
  accepted : String → EngineEvent
  note : String → EngineEvent
  final : String → EngineEvent
  failed : String → EngineEvent

pub record CellResult : Type 0 where
  pub final_answer : Option String
  pub event_tail : List String
  pub artifact_refs : List String
  pub exit_status : String
  pub crewd_thread_id : String
  pub engine_process_id : Option ℕ
  pub engine_thread_id : Option String
  pub engine_turn_id : Option String
  pub engine_session_id : Option String

abbrev pub from_thread : CellThread → CellResult
from_thread t = record {
  final_answer = none;
  event_tail = [];
  artifact_refs = [];
  exit_status = "";
  crewd_thread_id = t.crewd_thread_id;
  engine_process_id = t.engine_process_id;
  engine_thread_id = t.engine_thread_id;
  engine_turn_id = t.engine_turn_id;
  engine_session_id = t.engine_session_id;
}

abbrev pub of_thread : String → JournalLine → Bool
of_thread thread_id l = l.thread_id == thread_id

-- COALESCE(MAX(seq), 0) over the lines of the thread
unfoldable pub max_seq : String → List JournalLine → ℕ
max_seq thread_id [] = 0
max_seq thread_id (l ∷ ls) =
    let rest = max_seq thread_id ls in if of_thread thread_id l then max l.seq rest else rest

pub journal_append : String → String → String → Store → ℕ × Store
unfolding max_seq
journal_append now thread_id line s =
    let next = max_seq thread_id s.thread_journal + 1 in
    let entry : JournalLine = record { thread_id = thread_id; seq = next; line = line; at = now } in
    (next, record s { thread_journal = s.thread_journal ++ entry ∷ [] })

-- ORDER BY seq DESC
unfoldable pub insert_by_seq : JournalLine → List JournalLine → List JournalLine
insert_by_seq l [] = l ∷ []
insert_by_seq l (k ∷ ks) =
    let later = insert_by_seq l ks in if leb k.seq l.seq then l ∷ k ∷ ks else k ∷ later

pub newest_first : List JournalLine → List JournalLine
unfolding insert_by_seq
newest_first [] = []
newest_first (l ∷ ls) = insert_by_seq l (newest_first ls)

-- `format!("{seq:04} {line}")`
abbrev pub numbered : JournalLine → String
numbered l = pad 20 4 l.seq ^^ " " ^^ l.line

pub journal_rows : String → ℕ → Store → List JournalLine
unfolding newest_first
journal_rows thread_id n s =
    reverse (take n (newest_first (select (of_thread thread_id) s.thread_journal)))

pub journal_tail : String → ℕ → Store → List String
unfolding journal_rows
journal_tail thread_id n s = map numbered (journal_rows thread_id n s)
