-- ===== src/Spawn.antt =====
-- crates/crewd-core/src/spawn.rs: idempotent spawn and the ownership of worktrees. What the file system
-- does with an audit line, the fresh ids and the clock's text are arguments. A transaction that is not
-- committed leaves the store as it was; what was appended to the audit stays.
pub mod Replay
pub mod Untouched
pub mod Worktrees
mod Tests
use mcp_crewd_rs.Base.{
  ℕ, String, Bool, ◌&&◌, Option, none, some, [], ◌∷◌, ◌++◌, find, any, ◌==◌, if◌then◌else◌, is_some,
}
use mcp_crewd_rs.Error.{Result, ok, err, ◌>>=◌, ◌>>◌, cell_busy, internal}
use mcp_crewd_rs.Validators.{validate_cell_name_allowing_ephemeral, validate_idempotency_key}
use mcp_crewd_rs.Canonical.{string, object, end, field}
use mcp_crewd_rs.Audit.{Codec, Disk, AuditChain, AuditEventDraft, append}
use mcp_crewd_rs.Store.Tables.{
  Store, CellThread, EngineKind, codex, claude, pi, fake, spawning, SpawnRow,
}
use mcp_crewd_rs.Jobs.{job_enqueue_inner}
use mcp_crewd_rs.Threads.{thread_insert, thread_get, thread_active_for_cell}

pub engine_as_str : EngineKind → String
engine_as_str codex = "codex"
engine_as_str claude = "claude"
engine_as_str pi = "pi"
engine_as_str fake = "fake"

pub record SpawnRequest : Type 0 where
  pub caller : String
  pub cell_name : String
  pub idempotency_key : String
  pub payload : String

-- How the thread is to be started
pub record Launch : Type 0 where
  pub engine : EngineKind
  pub model : Option String
  pub profile : Option String
  pub cwd : String
  pub worktree_path : Option String
  pub depth_cap : ℕ

-- What a call takes from its surroundings
pub record Ambient : Type 0 where
  pub disk : Disk
  pub event_id : String
  pub event_ts : String
  pub thread_id : String
  pub job_id : String
  pub now : String

pub data SpawnOutcome : Type 0 where
  created_thread replayed : CellThread → SpawnOutcome

abbrev pub is_request : String → String → String → SpawnRow → Bool
is_request caller cell key r =
    r.caller == caller && (r.cell_name == cell && r.idempotency_key == key)

pub lookup_spawn_request : String → String → String → Store → Option String
lookup_spawn_request caller cell key s = elim (find (is_request caller cell key) s.spawn_requests) [
  | none ↦ none
  | some r ↦ some r.crewd_thread_id
]

abbrev pub lock_cell : String → Store → Store
lock_cell cell s =
    if any (λ c. c == cell) s.cell_locks
    then s
    else record s { cell_locks = s.cell_locks ++ cell ∷ [] }

abbrev pub new_request : SpawnRequest → Ambient → SpawnRow
new_request req a = record {
  caller = req.caller;
  cell_name = req.cell_name;
  idempotency_key = req.idempotency_key;
  crewd_thread_id = a.thread_id;
  created_at = a.now;
}

abbrev pub add_request : SpawnRequest → Ambient → Store → Store
add_request req a s = record s { spawn_requests = s.spawn_requests ++ new_request req a ∷ [] }

abbrev pub new_thread : SpawnRequest → Launch → Ambient → CellThread
new_thread req l a = record {
  crewd_thread_id = a.thread_id;
  cell_name = req.cell_name;
  engine_kind = l.engine;
  model = l.model;
  profile = l.profile;
  engine_process_id = none;
  engine_thread_id = none;
  engine_turn_id = none;
  engine_session_id = none;
  cwd = l.cwd;
  worktree_path = l.worktree_path;
  state = spawning;
  generation = 0;
  created_by_principal = req.caller;
  idempotency_key = req.idempotency_key;
  created_at = a.now;
  updated_at = a.now;
}

abbrev pub requested : SpawnRequest → Launch → AuditEventDraft
unfolding engine_as_str
requested req l = record {
  kind = "cell_spawn_requested";
  message_id = none;
  from = some req.caller;
  to = some req.cell_name;
  outcome = "ok";
  detail = some (
      object (
        field "caller" (string req.caller) (
          field "cell" (string req.cell_name) (
            field "engine" (string (engine_as_str l.engine))
              (field "idempotency_key" (string req.idempotency_key) end)))));
}

-- The writes of steps 3 to 5, inside the transaction
pub spawn_writes : SpawnRequest → Launch → Ambient → Store → Result SpawnOutcome × Store
unfolding thread_active_for_cell thread_insert job_enqueue_inner
spawn_writes req l a s =
    let locked = lock_cell req.cell_name s in
    if is_some (thread_active_for_cell req.cell_name locked)
    then (err cell_busy, locked)
    else let thread = new_thread req l a in
      let (inserted, t) = thread_insert thread (add_request req a locked) in
      elim inserted [
        | err e ↦ (err e, t)
        | ok _ ↦
            let (enqueued, u) =
              job_enqueue_inner a.job_id a.now a.thread_id req.cell_name req.payload l.depth_cap
                t in
            (enqueued >>= λ _. ok (created_thread thread), u)
      ]

-- COMMIT of a success, ROLLBACK of a failure: SQLite restores the tables, which is its part and not
-- shown here.
abbrev pub settle : {A : Type 0} → Store → Result A × Store → Result A × Store
settle s (ok a, t) = (ok a, t)
settle s (err e, t) = (err e, s)

pub replay : Store → String → Result SpawnOutcome
unfolding thread_get
replay s id = elim (thread_get id s) [ none ↦ err internal | some t ↦ ok (replayed t) ]

pub spawn_idempotent :
    Codec
    → SpawnRequest
    → Launch
    → Ambient
    → Store
    → AuditChain
    → Result SpawnOutcome × Store × AuditChain
unfolding lookup_spawn_request replay spawn_writes requested
spawn_idempotent c req l a s chain =
    elim (validate_cell_name_allowing_ephemeral req.cell_name
      >> validate_idempotency_key req.idempotency_key) [
        | err e ↦ (err e, s, chain)
        | ok _ ↦ elim (lookup_spawn_request req.caller req.cell_name req.idempotency_key s) [
          | some id ↦ (replay s id, s, chain)
          | none ↦
              let (appended, chain_2) =
                append c a.disk a.event_id a.event_ts (requested req l) chain in
              elim appended [
                | err e ↦ (err internal, s, chain_2)
                | ok _ ↦
                    let (outcome, t) = settle s (spawn_writes req l a s) in (outcome, t, chain_2)
              ]
        ]
      ]
