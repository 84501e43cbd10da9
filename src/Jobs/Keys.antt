-- ===== src/Jobs/Keys.antt =====
-- crates/crewd-core/src/jobs.rs: the calls on the job table, and its PRIMARY KEY (job_id).
use mcp_crewd_rs.Base.{
  ℕ, ◌+◌, ◌≤◌, String, ◌≡◌, refl, ap, ◌∙◌, inl, inr, Bool, ◌&&◌, some, List, [], ◌∷◌, arith, eq_iff,
  Option-cases, any-find, count, update, count-append, count-update, find-none-count,
}
use mcp_crewd_rs.Store.Tables.{Store, CellJob, create_schema, leased, started, finished, cancelled}
use mcp_crewd_rs.Jobs.{
  is_job, new_job, max_seq, first_queued, job_enqueue_inner, job_enqueue, job_lease_next,
  job_mark_started, job_mark_accepted, job_finish, job_cancel, job_requeue, requeue_ids,
  job_requeue_expired_leases, back_to_queue, may_requeue,
}

pub data Step : Store → Store → Type 0 where
  enqueues :
      (fresh now thread_id cell payload : String) (depth_cap : ℕ) (s : Store)
      → Step s (job_enqueue fresh now thread_id cell payload depth_cap s).1
  leases : (expires cell : String) (s : Store) → Step s (job_lease_next expires cell s).1
  starts : (job_id : String) (s : Store) → Step s (job_mark_started job_id s).1
  accepts :
      (now job_id turn_id : String) (s : Store) → Step s (job_mark_accepted now job_id turn_id s).1
  finishes : (job_id : String) (s : Store) → Step s (job_finish job_id s).1
  cancels : (job_id : String) (s : Store) → Step s (job_cancel job_id s).1
  requeues : (job_id : String) (s : Store) → Step s (job_requeue job_id s).1
  lapses : (now : String) (s : Store) → Step s (job_requeue_expired_leases now s).1

pub data Reach : Store → Type 0 where
  created : Reach create_schema
  step : {s t : Store} → Reach s → Step s t → Reach t

set-keyed :
    (id : String) (p : CellJob → Bool) (f : CellJob → CellJob) (js : List CellJob)
    → ((j : CellJob) → (f j).job_id ≡ j.job_id)
    → count (is_job id) (update p f js) ≡ count (is_job id) js
set-keyed id p f js h = count-update (is_job id) p f js (λ j l. ground (arith, h j))

requeue_ids-keyed :
    (id : String) (ids : List String) (js : List CellJob)
    → count (is_job id) (requeue_ids ids js) ≡ count (is_job id) js
unfolding requeue_ids
requeue_ids-keyed id [] js = refl
requeue_ids-keyed id (i ∷ ids) js =
    requeue_ids-keyed id ids _ ∙ set-keyed id (is_job i) back_to_queue js (λ j. refl)

same_job : (i k : String) (js : List CellJob) → i ≡ k → count (is_job i) js ≡ count (is_job k) js
same_job i k js h = ap (λ x. count (is_job x) js) h

Step-keyed :
    (id : String) {s t : Store}
    → Step s t
    → count (is_job id) s.cell_jobs ≤ 1
    → count (is_job id) t.cell_jobs ≤ 1
unfolding job_enqueue job_enqueue_inner job_lease_next job_mark_started job_mark_accepted job_finish
    job_cancel job_requeue job_requeue_expired_leases
Step-keyed id (enqueues fresh now thread_id cell payload depth_cap s) h = ground (
  arith,
  h,
  count-append (is_job id) s.cell_jobs
      (new_job fresh now thread_id cell payload (max_seq cell s.cell_jobs + 1) ∷ []),
  eq_iff fresh id,
  any-find (is_job fresh) s.cell_jobs,
  find-none-count (is_job fresh) s.cell_jobs,
  same_job fresh id s.cell_jobs,
)
Step-keyed id (leases expires cell s) h = elim (Option-cases (first_queued cell s.cell_jobs)) [
  | inl e ↦ ground (arith, h, e)
  | inr (j, e) ↦ ground (
    arith,
    h,
    e,
    set-keyed id (is_job j.job_id)
        (λ x. record x { state = leased; lease_expires_at = some expires }) s.cell_jobs (λ x. refl),
  )
]
Step-keyed id (starts job_id s) h = ground (
  arith,
  h,
  set-keyed id (is_job job_id) (λ x. record x { state = started }) s.cell_jobs (λ x. refl),
)
Step-keyed id (accepts now job_id turn_id s) h = ground (
  arith,
  h,
  set-keyed id (is_job job_id)
      (λ x. record x { accepted_by_engine_at = some now; engine_turn_id = some turn_id })
      s.cell_jobs (λ x. refl),
)
Step-keyed id (finishes job_id s) h = ground (
  arith,
  h,
  set-keyed id (is_job job_id) (λ x. record x { state = finished }) s.cell_jobs (λ x. refl),
)
Step-keyed id (cancels job_id s) h = ground (
  arith,
  h,
  set-keyed id (is_job job_id) (λ x. record x { state = cancelled }) s.cell_jobs (λ x. refl),
)
Step-keyed id (requeues job_id s) h = ground (
  arith,
  h,
  set-keyed id (λ j. is_job job_id j && may_requeue j) back_to_queue s.cell_jobs (λ x. refl),
)
Step-keyed id (lapses now s) h =
    omega (arith, h, requeue_ids-keyed id (job_requeue_expired_leases now s).0 s.cell_jobs)

-- In every store that the calls on the job queue make of an empty one, at most one job has an id.
pub Reach-jobs_keyed : {s : Store} (id : String) → Reach s → count (is_job id) s.cell_jobs ≤ 1
Reach-jobs_keyed id created = omega arith
Reach-jobs_keyed id (step w k) = Step-keyed id k (Reach-jobs_keyed id w)
