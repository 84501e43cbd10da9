-- ===== src/Threads.antt =====
-- crates/crewd-core/src/threads.rs: the threads of the cells. The clock's text `now` is an argument.
pub mod Lifecycle
pub mod Recovery
mod Tests
use mcp_crewd_rs.Base.{
  ℕ, ◌+◌, ◌%◌, ◌^◌, String, Bool, true, false, ◌&&◌, Option, none, some, List, [], ◌∷◌, ◌++◌, find,
  update, any, ◌==◌, text_leb, if◌then◌else◌,
}
use mcp_crewd_rs.Error.{Result, ok, err, internal}
use mcp_crewd_rs.Store.Tables.{
  Store, CellThread, ThreadState, spawning, running, idle, interrupted, timeout, failed_unknown,
  done,
}

pub as_str : ThreadState → String
as_str spawning = "spawning"
as_str running = "running"
as_str idle = "idle"
as_str interrupted = "interrupted"
as_str timeout = "timeout"
as_str failed_unknown = "failed_unknown"
as_str done = "done"

pub from_db_str : String → Option ThreadState
from_db_str s =
    if s == "spawning"
    then some spawning
    else if s == "running"
    then some running
    else if s == "idle"
    then some idle
    else if s == "interrupted"
    then some interrupted
    else if s == "timeout"
    then some timeout
    else if s == "failed_unknown"
    then some failed_unknown
    else if s == "done"
    then some done
    else none

unfoldable pub transition_allowed : ThreadState → ThreadState → Bool
transition_allowed spawning running = true
transition_allowed spawning failed_unknown = true
transition_allowed running idle = true
transition_allowed running interrupted = true
transition_allowed running timeout = true
transition_allowed running failed_unknown = true
transition_allowed running done = true
transition_allowed idle running = true
transition_allowed interrupted running = true
transition_allowed timeout running = true
transition_allowed failed_unknown running = true
transition_allowed done running = true
transition_allowed _ _ = false

abbrev pub is_thread : String → CellThread → Bool
is_thread id t = t.crewd_thread_id == id

-- An INSERT that the primary key may refuse
unfoldable pub thread_insert : CellThread → Store → Result (Unit {0}) × Store
thread_insert t s =
    if any (is_thread t.crewd_thread_id) s.cell_threads
    then (err internal, s)
    else (ok tt, record s { cell_threads = s.cell_threads ++ t ∷ [] })

unfoldable pub thread_get : String → Store → Option CellThread
thread_get id s = find (is_thread id) s.cell_threads

-- state IN ('spawning','running')
abbrev pub is_active : ThreadState → Bool
is_active spawning = true
is_active running = true
is_active _ = false

abbrev pub active_for : String → CellThread → Bool
active_for cell t = t.cell_name == cell && is_active t.state

abbrev later : CellThread → Option CellThread → CellThread
later t none = t
later t (some u) = if text_leb u.updated_at t.updated_at then t else u

-- ... ORDER BY updated_at DESC LIMIT 1
unfoldable pub latest_active : String → List CellThread → Option CellThread
latest_active cell [] = none
latest_active cell (t ∷ ts) =
    let rest = latest_active cell ts in if active_for cell t then some (later t rest) else rest

unfoldable pub thread_active_for_cell : String → Store → Option CellThread
unfolding latest_active
thread_active_for_cell cell s = latest_active cell s.cell_threads

abbrev pub set_thread : String → (CellThread → CellThread) → Store → Store
set_thread id f s = record s { cell_threads = update (is_thread id) f s.cell_threads }

unfoldable pub thread_transition : String → String → ThreadState → Store → Result (Unit {0}) × Store
unfolding transition_allowed
thread_transition now id to s = elim (find (is_thread id) s.cell_threads) [
  | none ↦ (err internal, s)
  | some t ↦
      if transition_allowed t.state to
      then (ok tt, set_thread id (λ u. record u { state = to; updated_at = now }) s)
      else (err internal, s)
]

abbrev coalesce : {A : Type 0} → Option A → Option A → Option A
coalesce (some a) old = some a
coalesce none old = old

pub thread_set_engine_ids :
    String
    → String
    → Option ℕ
    → Option String
    → Option String
    → Option String
    → Store
    → Result (Unit {0}) × Store
thread_set_engine_ids now id process_id thread_id turn_id session_id s =
    if any (is_thread id) s.cell_threads
    then (
      ok tt,
      set_thread id
          (λ t. record t {
            engine_process_id = coalesce process_id t.engine_process_id;
            engine_thread_id = coalesce thread_id t.engine_thread_id;
            engine_turn_id = coalesce turn_id t.engine_turn_id;
            engine_session_id = coalesce session_id t.engine_session_id;
            updated_at = now;
          })
          s,
    )
    else (err internal, s)

-- The generation comes back as a u32.
pub thread_bump_generation : String → String → Store → Result ℕ × Store
thread_bump_generation now id s = elim (find (is_thread id) s.cell_threads) [
  | none ↦ (err internal, s)
  | some t ↦ (
    ok ((t.generation + 1) % 2 ^ 32),
    set_thread id (λ u. record u { generation = u.generation + 1; updated_at = now }) s,
  )
]
