-- ===== src/Jobs/Acceptance.antt =====
-- crates/crewd-core/src/jobs.rs: a job that its engine has accepted is never queued again.
use mcp_crewd_rs.Base.{
  find-update, String, ◌≡◌, refl, ap, ◌∙◌, inl, inr, Bool, true, false, ◌&&◌, none, some, text_ltb,
  ◌⊎◌, List, [], ◌∷◌, map, arith, ◌==◌, eq_iff, if◌then◌else◌, Bool-cases, any-only, select, find,
  update, any, find-update_ne, find-update_eq,
}
use mcp_crewd_rs.Store.Tables.{Store, CellJob, queued, leased, started, finished, cancelled}
use mcp_crewd_rs.Jobs.{
  is_job, job_requeue, requeue_ids, job_requeue_expired_leases, back_to_queue, may_requeue,
  lease_expired,
}
use mcp_crewd_rs.Jobs.Keys.{Reach, Reach-jobs_keyed}

requeue_ids-find :
    (id : String) (ids : List String) (js : List CellJob) (j : CellJob)
    → find (is_job id) js ≡ some j
    → find (is_job id) (requeue_ids ids js)
      ≡ some (if any (λ i. i == id) ids then back_to_queue j else j)
unfolding requeue_ids
requeue_ids-find id [] js j h = h
requeue_ids-find id (i ∷ ids) js j h = elim (Bool-cases (i == id)) [
  | inl e ↦ ground (
    arith,
    e,
    requeue_ids-find id ids (update (is_job i) back_to_queue js) (back_to_queue j) (
        ap (λ x. find (is_job id) (update (is_job x) back_to_queue js))
          (ground (arith, e, eq_iff i id))
        ∙ find-update_eq (is_job id) back_to_queue js j (λ x l. l) h),
  )
  | inr e ↦ ground (
    arith,
    e,
    requeue_ids-find id ids (update (is_job i) back_to_queue js) j (
        find-update_ne (is_job id) (is_job i) back_to_queue js (λ x l. other_job i id e x l)
          (λ x l. other_job i id e x l)
        ∙ h),
  )
]
  where
    other_job :
        (i id : String)
        → (i == id) ≡ false
        → (x : CellJob) → is_job i x ≡ true
        → is_job id x ≡ false
    other_job i id e x l =
        ground (
          arith,
          e,
          l,
          eq_iff x.job_id i,
          eq_iff x.job_id id,
          eq_iff i id,
          Bool-cases (is_job id x),
        )

any-ids :
    (id : String) (p : CellJob → Bool) (js : List CellJob)
    → any (λ i. i == id) (map (λ (j : CellJob). j.job_id) (select p js))
      ≡ any (λ j. p j && is_job id j) js
any-ids id p [] = refl
any-ids id p (j ∷ js) = ground (arith, any-ids id p js)

-- The job is with an engine, or over.
abbrev pub IsSettled : CellJob → Type 0
IsSettled j =
    ((at : String) × (j.accepted_by_engine_at ≡ some at))
    ⊎ (j.state ≡ finished)
    ⊎ (j.state ≡ cancelled)

settled_stays : (j : CellJob) → IsSettled j → may_requeue j ≡ false
settled_stays j (inl accepted) = ground (arith, accepted)
settled_stays j (inr (inl over)) = ground (arith, over)
settled_stays j (inr (inr over)) = ground (arith, over)

-- In every store that the calls on the job queue reach, neither the explicit nor the timed re-queue
-- changes a job that has the time of its engine's acceptance, or one that is finished or cancelled,
-- whatever its lease.
pub accepted_never_requeued :
    (now id other : String) (s : Store) (j : CellJob)
    → Reach s
    → find (is_job id) s.cell_jobs ≡ some j
    → IsSettled j
    → (find (is_job id) (job_requeue other s).1.cell_jobs ≡ some j)
      × (find (is_job id) (job_requeue_expired_leases now s).1.cell_jobs ≡ some j)
unfolding job_requeue job_requeue_expired_leases
accepted_never_requeued now id other s j w h settled =
    let k = settled_stays j settled in
    (
      ground (
        arith,
        k,
        find-update (is_job id) (λ x. is_job other x && may_requeue x) back_to_queue s.cell_jobs j
            (λ x. refl) h,
      ),
      ground (
        arith,
        k,
        requeue_ids-find id (job_requeue_expired_leases now s).0 s.cell_jobs j h,
        any-ids id (lease_expired now) s.cell_jobs,
        any-only (lease_expired now) (is_job id) s.cell_jobs j (Reach-jobs_keyed id w) h,
      ),
    )

-- In every store that the calls on the job queue reach, a job that is leased or started, that no engine
-- has accepted, and whose lease ended before `now`, is queued without a lease after the timed re-queue,
-- with its number, its payload and the rest as they were.
pub expired_lease_requeued :
    (now ends id : String) (s : Store) (j : CellJob)
    → Reach s
    → find (is_job id) s.cell_jobs ≡ some j
    → (j.state ≡ leased) ⊎ (j.state ≡ started)
    → j.accepted_by_engine_at ≡ none
    → j.lease_expires_at ≡ some ends
    → text_ltb ends now ≡ true
    → find (is_job id) (job_requeue_expired_leases now s).1.cell_jobs
      ≡ some (record {
        job_id = j.job_id;
        crewd_thread_id = j.crewd_thread_id;
        cell_name = j.cell_name;
        payload = j.payload;
        state = queued;
        lease_expires_at = none;
        accepted_by_engine_at = none;
        engine_turn_id = j.engine_turn_id;
        created_at = j.created_at;
        enqueue_seq = j.enqueue_seq;
      })
unfolding job_requeue_expired_leases
expired_lease_requeued now ends id s j w h out fresh lease over =
    let k : lease_expired now j ≡ true = ground (arith, out, fresh, lease, over) in
    ground (
      arith,
      k,
      fresh,
      requeue_ids-find id (job_requeue_expired_leases now s).0 s.cell_jobs j h,
      any-ids id (lease_expired now) s.cell_jobs,
      any-only (lease_expired now) (is_job id) s.cell_jobs j (Reach-jobs_keyed id w) h,
    )
