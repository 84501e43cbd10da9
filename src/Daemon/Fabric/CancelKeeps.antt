-- ===== src/Daemon/Fabric/CancelKeeps.antt =====
-- handle_cancel of crates/crewd/src/handlers.rs keeps the messages.
use mcp_crewd_rs.Base.{String, Bool, true, false, none, some, List, [], ◌∷◌, arith, if◌then◌else◌}
use mcp_crewd_rs.Types.Clock.{now_rfc3339}
use mcp_crewd_rs.Canonical.{Value}
use mcp_crewd_rs.Acl.{Capability, check}
use mcp_crewd_rs.Store.Tables.{
  Store, CellJob, ThreadState, interrupted, spawning, running, idle, timeout, failed_unknown, done,
}
use mcp_crewd_rs.Jobs.{is_active, job_cancel}
use mcp_crewd_rs.Threads.{thread_transition}
use mcp_crewd_rs.Spawn.Untouched.{SameMessages}
use mcp_crewd_rs.Daemon.{World, pure, on_store, plain, reject_client_identity_keys}
use mcp_crewd_rs.Daemon.Trail.{
  Post, Post-Kept, Kept-refl, Keeps, next_step, gets-Keeps, draw-Keeps, lift-Keeps, or_fail-Keeps,
  audit-Keeps,
}
use mcp_crewd_rs.Daemon.Gates.{Only}
use mcp_crewd_rs.Daemon.Fabric.{check_thread_owner, cancel_jobs, interrupt, signal, handle_cancel}
use mcp_crewd_rs.Daemon.Fabric.Keeps.{pure-Keeps, on_store-Keeps}

job_cancel-SameMessages : (id : String) (s : Store) → SameMessages s (job_cancel id s).1
unfolding job_cancel
job_cancel-SameMessages id s = (ground arith, ground arith, ground arith)

transition-SameMessages :
    (now id : String) (to : ThreadState) (s : Store)
    → SameMessages s (thread_transition now id to s).1
unfolding thread_transition
transition-SameMessages now id to s = (ground arith, ground arith, ground arith)

signal-Keeps : (w : World) (cell : String) → Keeps (signal w cell)
unfolding Post
signal-Keeps w cell d = (Kept-refl d, tt)

module _ (w : World) where
  cancel_one-Keeps :
      (active : Bool) (id : String) → Keeps (if active then on_store (job_cancel id) else pure tt)
  cancel_one-Keeps true id = on_store-Keeps (job_cancel id) (job_cancel-SameMessages id)
  cancel_one-Keeps false id = pure-Keeps tt

  cancel_jobs-Keeps : (jobs : List CellJob) → Keeps (cancel_jobs w jobs)
  unfolding cancel_jobs
  cancel_jobs-Keeps [] d = pure-Keeps _ d
  cancel_jobs-Keeps (j ∷ js) d =
      next_step (Only d) d d _ _ (Kept-refl d) (cancel_one-Keeps (is_active j.state) j.job_id)
        λ _ e k.
          next_step (Only d) d e _ _ k (cancel_jobs-Keeps js)
            λ n e k. Post-Kept (λ _ _. Unit {0}) d e _ k (pure-Keeps _ e)

  interrupt-Keeps : (state : ThreadState) (id : String) → Keeps (interrupt w state id)
  unfolding interrupt
  interrupt-Keeps running id d =
      next_step (Only d) d d _ _ (Kept-refl d) (draw-Keeps w.secs) λ secs e k.
        Post-Kept (λ _ _. Unit {0}) d e _ k
          (on_store-Keeps (thread_transition (now_rfc3339 secs) id interrupted)
            (transition-SameMessages (now_rfc3339 secs) id interrupted) e)
  interrupt-Keeps spawning id d = pure-Keeps tt d
  interrupt-Keeps idle id d = pure-Keeps tt d
  interrupt-Keeps interrupted id d = pure-Keeps tt d
  interrupt-Keeps timeout id d = pure-Keeps tt d
  interrupt-Keeps failed_unknown id d = pure-Keeps tt d
  interrupt-Keeps done id d = pure-Keeps tt d

  pub handle_cancel-Keeps : (from : String) (params : Value) → Keeps (handle_cancel w from params)
  unfolding handle_cancel
  handle_cancel-Keeps from params d =
      next_step (Only d) d d _ _ (Kept-refl d) (lift-Keeps (reject_client_identity_keys params []))
        λ _ e k. next_step (Only d) d e _ _ k (or_fail-Keeps (w.cancel_params params) _) λ p e k.
          next_step (Only d) d e _ _ k (gets-Keeps _) λ acl e k.
            next_step (Only d) d e _ _ k (lift-Keeps (check acl from Capability.spawn)) λ _ e k.
              next_step (Only d) d e _ _ k (gets-Keeps _) λ found e k.
                next_step (Only d) d e _ _ k (or_fail-Keeps found _) λ thread e k.
                  next_step (Only d) d e _ _ k (lift-Keeps (check_thread_owner acl from thread))
                    λ _ e k. next_step (Only d) d e _ _ k (gets-Keeps _) λ jobs e k.
                      next_step (Only d) d e _ _ k (cancel_jobs-Keeps jobs) λ n e k.
                        next_step (Only d) d e _ _ k
                          (interrupt-Keeps thread.state p.crewd_thread_id)
                          λ _ e k.
                            next_step (Only d) d e _ _ k
                              (audit-Keeps w (
                                plain "cell_cancelled" (some p.crewd_thread_id) (some from) none
                                  "cancelled"))
                              λ _ e k.
                                next_step (Only d) d e _ _ k (signal-Keeps w thread.cell_name)
                                  λ _ e k. Post-Kept (λ _ _. Unit {0}) d e _ k (pure-Keeps _ e)
