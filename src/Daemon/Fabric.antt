-- ===== src/Daemon/Fabric.antt =====
-- crates/crewd/src/handlers.rs: the handlers of the cells' threads that change them, handle_spawn,
-- handle_send_task and handle_cancel.
pub mod Keeps
pub mod CancelKeeps
pub mod Cancel
use mcp_crewd_rs.Base.{
  ℕ, ◌+◌, String, Bool, true, false, ◌&&◌, Option, none, some, List, [], ◌∷◌, ◌++◌, ◌==◌,
  if◌then◌else◌,
}
use mcp_crewd_rs.Error.{
  Result, ok, err, unknown_cell, policy_denied, internal, thread_not_resumable,
}
use mcp_crewd_rs.Types.Clock.{now_rfc3339}
use mcp_crewd_rs.Canonical.{Value, bool, string}
use mcp_crewd_rs.Acl.{Acl, Capability, admin_registry, check}
use mcp_crewd_rs.Store.Tables.{
  Store, CellDef, CellThread, CellJob, ThreadState, spawning, running, idle, interrupted,
  EngineKind, codex, claude, pi, fake,
}
use mcp_crewd_rs.Jobs.{is_active, job_cancel, job_enqueue, jobs_for_thread, queue_depth_default}
use mcp_crewd_rs.Threads.{thread_get, thread_transition}
use mcp_crewd_rs.Spawn.{
  SpawnRequest, Launch, Ambient, SpawnOutcome, created_thread, replayed, spawn_idempotent,
}
use mcp_crewd_rs.Cells.{SpawnTarget, named, ephemeral, cell_get, resolve_spawn_target}
use mcp_crewd_rs.Wire.{CellSpawnParams}
use mcp_crewd_rs.Daemon.{
  World, Action, pure, lift, or_fail, fail_if, gets, draw, on_store, parse_params, ◌>>=◌, ◌>>◌,
  audit, plain, check_idem, reject_client_identity_keys,
}
use mcp_crewd_rs.Daemon.Json.{json, count_value}
use mcp_crewd_rs.Daemon.Names.{has_reserved_prefix, ephemeral_cell_name}

pub engine_from_db_str : String → Option EngineKind
engine_from_db_str s =
    if s == "codex"
    then some codex
    else if s == "claude"
    then some claude
    else if s == "pi"
    then some pi
    else if s == "fake"
    then some fake
    else none

abbrev pub reserved : Option String → Bool
reserved none = false
reserved (some cell) = has_reserved_prefix cell

abbrev named_cell : Option String → Store → Option CellDef
named_cell none s = none
named_cell (some cell) s = cell_get cell s

abbrev requested_engine : Option String → Result (Option EngineKind)
requested_engine none = ok none
requested_engine (some s) = elim (engine_from_db_str s) [
  | none ↦ err internal
  | some e ↦ ok (some e)
]

-- What `spawn_idempotent` takes from its surroundings
abbrev pub ambient : World → ℕ → Ambient
ambient w tick = record {
  disk = w.disk tick;
  event_id = w.new_uuidv7 tick;
  event_ts = now_rfc3339 (w.secs tick);
  thread_id = w.new_uuidv7 (tick + 1);
  job_id = w.new_uuidv7 (tick + 2);
  now = now_rfc3339 (w.secs (tick + 1));
}

abbrev thread_of : SpawnOutcome → CellThread
thread_of (created_thread t) = t
thread_of (replayed t) = t

abbrev was_replayed : SpawnOutcome → Bool
was_replayed (created_thread t) = false
was_replayed (replayed t) = true

abbrev pub spawn_value : SpawnOutcome → Value
spawn_value outcome = json (
    ("crewd_thread_id", string (thread_of outcome).crewd_thread_id)
    ∷ ("replayed", bool (was_replayed outcome))
    ∷ [])

abbrev is_terminal : ThreadState → Bool
is_terminal spawning = false
is_terminal running = false
is_terminal idle = false
is_terminal _ = true

abbrev is_pi : EngineKind → Bool
is_pi pi = true
is_pi _ = false

-- The owner of a thread, or a cell with `admin_registry`
unfoldable pub check_thread_owner : Acl → String → CellThread → Result (Unit {0})
check_thread_owner acl from thread =
    if thread.created_by_principal == from then ok tt else check acl from admin_registry

module _ (w : World) where
  -- The name of the cell, and how the thread is to be started
  pub launch_target : CellSpawnParams → SpawnTarget → Action (String × Launch)
  launch_target p (named d) = pure (
    d.name,
    record {
      engine = d.engine;
      model = d.model;
      profile = d.profile;
      cwd = d.cwd;
      worktree_path = p.worktree;
      depth_cap = queue_depth_default;
    },
  )
  launch_target p (ephemeral engine model profile cwd) = do
    uuid ← draw w.new_uuidv7
    pure (
      ephemeral_cell_name uuid,
      record {
        engine = engine;
        model = model;
        profile = profile;
        cwd = cwd;
        worktree_path = p.worktree;
        depth_cap = queue_depth_default;
      },
    )

  pub run_spawn : SpawnRequest → Launch → Action SpawnOutcome
  run_spawn req launch d =
      let (outcome, s, chain) =
        spawn_idempotent w.codec req launch (ambient w d.tick) d.store d.audit in
      (outcome, record d { store = s; audit = chain; tick = d.tick + 3 })

  pub handle_spawn : String → Value → Action Value
  handle_spawn from params = do
    lift (reject_client_identity_keys params [])
    p ← parse_params (w.spawn_params params)
    acl ← gets (λ d. d.acl)
    lift (check acl from Capability.spawn)
    lift (check_idem p.idempotency_key)
    fail_if (reserved p.cell) policy_denied
    def ← gets (λ d. named_cell p.cell d.store)
    engine ← lift (requested_engine p.engine)
    target ← lift (resolve_spawn_target def engine p.model p.profile p.cwd)
    launch ← launch_target p target
    outcome ←
        run_spawn
          (record {
            caller = from;
            cell_name = launch.0;
            idempotency_key = p.idempotency_key;
            payload = p.task;
          })
          launch.1
    pure (spawn_value outcome)

  pub handle_send_task : String → Value → Action Value
  handle_send_task from params = do
    lift (reject_client_identity_keys params [])
    p ← parse_params (w.send_task_params params)
    acl ← gets (λ d. d.acl)
    lift (check acl from Capability.spawn)
    found ← gets (λ d. thread_get p.crewd_thread_id d.store)
    thread ← or_fail found unknown_cell
    fail_if (is_terminal thread.state && is_pi thread.engine_kind) thread_not_resumable
    job_id ← draw w.new_uuidv7
    secs ← draw w.secs
    job ← on_store (
        job_enqueue job_id (now_rfc3339 secs) p.crewd_thread_id thread.cell_name p.message
          queue_depth_default)
    pure (json (("job_id", string job.job_id) ∷ []))

  -- The loop over the jobs of the thread: those that are not over are cancelled, and counted.
  unfoldable pub cancel_jobs : List CellJob → Action ℕ
  cancel_jobs [] = pure 0
  cancel_jobs (j ∷ js) = do
    if is_active j.state then on_store (job_cancel j.job_id) else pure tt
    n ← cancel_jobs js
    pure (if is_active j.state then n + 1 else n)

  unfoldable pub interrupt : ThreadState → String → Action (Unit {0})
  interrupt running thread_id = do
    secs ← draw w.secs
    on_store (thread_transition (now_rfc3339 secs) thread_id interrupted)
  interrupt _ thread_id = pure tt

  -- The signal to the scheduler, if there is one
  abbrev pub signal : String → Action (Unit {0})
  signal cell d = (
    ok tt,
    record d {
      cancel_tx = elim d.cancel_tx [ none ↦ none | some sent ↦ some (sent ++ cell ∷ []) ];
    },
  )

  unfoldable pub handle_cancel : String → Value → Action Value
  handle_cancel from params = do
    lift (reject_client_identity_keys params [])
    p ← parse_params (w.cancel_params params)
    acl ← gets (λ d. d.acl)
    lift (check acl from Capability.spawn)
    found ← gets (λ d. thread_get p.crewd_thread_id d.store)
    thread ← or_fail found unknown_cell
    lift (check_thread_owner acl from thread)
    jobs ← gets (λ d. jobs_for_thread p.crewd_thread_id d.store)
    cancelled_jobs ← cancel_jobs jobs
    interrupt thread.state p.crewd_thread_id
    audit w (plain "cell_cancelled" (some p.crewd_thread_id) (some from) none "cancelled")
    signal thread.cell_name
    pure (json (("cancelled_jobs", count_value cancelled_jobs) ∷ []))
