-- ===== src/Daemon/Fabric/Keeps.antt =====
-- The handlers of the threads in crates/crewd/src/handlers.rs keep the messages.
use mcp_crewd_rs.Base.{ℕ, ◌+◌, String, [], arith}
use mcp_crewd_rs.Error.{Result, ok, err}
use mcp_crewd_rs.Types.Clock.{now_rfc3339}
use mcp_crewd_rs.Canonical.{Value}
use mcp_crewd_rs.Acl.{Capability, check}
use mcp_crewd_rs.Audit.{AuditChain}
use mcp_crewd_rs.Audit.Append.{Grows-refl}
use mcp_crewd_rs.Store.Tables.{Store}
use mcp_crewd_rs.Jobs.{job_enqueue, job_enqueue_inner, queue_depth_default}
use mcp_crewd_rs.Spawn.{SpawnRequest, Launch, SpawnOutcome}
use mcp_crewd_rs.Spawn.Untouched.{SameMessages, Untouched, spawn-Untouched}
use mcp_crewd_rs.Cells.{SpawnTarget, named, ephemeral, resolve_spawn_target}
use mcp_crewd_rs.Wire.{CellSpawnParams}
use mcp_crewd_rs.Daemon.{
  World, DaemonState, pure, on_store, check_idem, reject_client_identity_keys,
}
use mcp_crewd_rs.Daemon.Trail.{
  Post, Post-Kept, Kept, Kept-refl, Keeps, next_step, gets-Keeps, draw-Keeps, lift-Keeps,
  or_fail-Keeps, fail_if-Keeps,
}
use mcp_crewd_rs.Daemon.Gates.{Only}
use mcp_crewd_rs.Daemon.Fabric.{
  ambient, reserved, requested_engine, launch_target, run_spawn, handle_spawn, handle_send_task,
}

known-Keeps :
    {A : Type 0} (d : DaemonState) (r : Result A × Store)
    → SameMessages d.store r.1
    → Post (λ _ e. Kept d e × Unit {0}) (λ _ e. Kept d e) (r.0, record d { store = r.1 })
unfolding Post
known-Keeps d (ok a, s) (x, y, z) = ((x, y, z, Grows-refl d.audit.lines), tt)
known-Keeps d (err e, s) (x, y, z) = (x, y, z, Grows-refl d.audit.lines)

pub pure-Keeps : {A : Type 0} (a : A) → Keeps (pure a)
unfolding Post
pure-Keeps a d = (Kept-refl d, tt)

-- A call that leaves the tables of the messages alone
pub on_store-Keeps :
    {A : Type 0} (call : Store → Result A × Store)
    → ((s : Store) → SameMessages s (call s).1)
    → Keeps (on_store call)
on_store-Keeps call same d = known-Keeps d (call d.store) (same d.store)

job_enqueue-SameMessages :
    (id now thread cell payload : String) (cap : ℕ) (s : Store)
    → SameMessages s (job_enqueue id now thread cell payload cap s).1
unfolding job_enqueue job_enqueue_inner
job_enqueue-SameMessages id now thread cell payload depth s =
    (ground arith, ground arith, ground arith)

spawned-Keeps :
    (d : DaemonState) (tick : ℕ) (r : Result SpawnOutcome × Store × AuditChain)
    → Untouched d.store d.audit r
    → Post
        (λ _ e. Kept d e × Unit {0})
        (λ _ e. Kept d e)
        (r.0, record d { store = r.1; audit = r.2; tick = tick })
unfolding Post
spawned-Keeps d tick (ok outcome, s, chain) ((x, y, z), grows) = ((x, y, z, grows), tt)
spawned-Keeps d tick (err e, s, chain) ((x, y, z), grows) = (x, y, z, grows)

module _ (w : World) where
  launch_target-Keeps :
      (p : CellSpawnParams) (target : SpawnTarget) → Keeps (launch_target w p target)
  unfolding launch_target
  launch_target-Keeps p (named def) d = pure-Keeps _ d
  launch_target-Keeps p (ephemeral engine model profile cwd) d =
      next_step (Only d) d d _ _ (Kept-refl d) (draw-Keeps w.new_uuidv7)
        λ uuid e k. Post-Kept (λ _ _. Unit {0}) d e _ k (pure-Keeps _ e)

  run_spawn-Keeps : (req : SpawnRequest) (launch : Launch) → Keeps (run_spawn w req launch)
  unfolding run_spawn
  run_spawn-Keeps req launch d =
      spawned-Keeps d (d.tick + 3) _
        (spawn-Untouched w.codec req launch (ambient w d.tick) d.store d.audit)

  pub handle_spawn-Keeps : (from : String) (params : Value) → Keeps (handle_spawn w from params)
  unfolding handle_spawn
  handle_spawn-Keeps from params d =
      next_step (Only d) d d _ _ (Kept-refl d) (lift-Keeps (reject_client_identity_keys params []))
        λ _ e k. next_step (Only d) d e _ _ k (or_fail-Keeps (w.spawn_params params) _) λ p e k.
          next_step (Only d) d e _ _ k (gets-Keeps _) λ acl e k.
            next_step (Only d) d e _ _ k (lift-Keeps (check acl from Capability.spawn)) λ _ e k.
              next_step (Only d) d e _ _ k (lift-Keeps (check_idem p.idempotency_key)) λ _ e k.
                next_step (Only d) d e _ _ k (fail_if-Keeps (reserved p.cell) _) λ _ e k.
                  next_step (Only d) d e _ _ k (gets-Keeps _) λ def e k.
                    next_step (Only d) d e _ _ k (lift-Keeps (requested_engine p.engine))
                      λ engine e k.
                        next_step (Only d) d e _ _ k
                          (lift-Keeps (resolve_spawn_target def engine p.model p.profile p.cwd))
                          λ target e k.
                            next_step (Only d) d e _ _ k (launch_target-Keeps p target)
                              λ launch e k.
                                next_step (Only d) d e _ _ k (run_spawn-Keeps _ launch.1)
                                  λ outcome e k.
                                    Post-Kept (λ _ _. Unit {0}) d e _ k (pure-Keeps _ e)

  pub handle_send_task-Keeps :
      (from : String) (params : Value) → Keeps (handle_send_task w from params)
  unfolding handle_send_task
  handle_send_task-Keeps from params d =
      next_step (Only d) d d _ _ (Kept-refl d) (lift-Keeps (reject_client_identity_keys params []))
        λ _ e k. next_step (Only d) d e _ _ k (or_fail-Keeps (w.send_task_params params) _) λ p e k.
          next_step (Only d) d e _ _ k (gets-Keeps _) λ acl e k.
            next_step (Only d) d e _ _ k (lift-Keeps (check acl from Capability.spawn)) λ _ e k.
              next_step (Only d) d e _ _ k (gets-Keeps _) λ found e k.
                next_step (Only d) d e _ _ k (or_fail-Keeps found _) λ thread e k.
                  next_step (Only d) d e _ _ k (fail_if-Keeps _ _) λ _ e k.
                    next_step (Only d) d e _ _ k (draw-Keeps w.new_uuidv7) λ job_id e k.
                      next_step (Only d) d e _ _ k (draw-Keeps w.secs) λ secs e k.
                        next_step (Only d) d e _ _ k
                          (on_store-Keeps _ (
                            job_enqueue-SameMessages job_id (now_rfc3339 secs) p.crewd_thread_id
                              thread.cell_name p.message queue_depth_default))
                          λ job e k. Post-Kept (λ _ _. Unit {0}) d e _ k (pure-Keeps _ e)
