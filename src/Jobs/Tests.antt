-- ===== src/Jobs/Tests.antt =====
-- Runs of jobs.rs.
use mcp_crewd_rs.Base.{
  inl, ◌++◌, suc, ◌≤◌, ◌≡◌, refl, ◌⊎◌, true, false, not, ◌||◌, none, some, [], ◌∷◌, ◌==◌, ltb, find,
  any, all,
}
use mcp_crewd_rs.Error.{Result, ok, err, queue_full}
use mcp_crewd_rs.Store.Tables.{Store, CellJob, queued, leased, create_schema}
use mcp_crewd_rs.Jobs.{
  is_job, new_job, max_seq, queued_for, started_for, job_enqueue, job_enqueue_inner,
  job_active_count_for_cell, job_lease_next, job_mark_accepted, job_requeue,
  job_requeue_expired_leases, first_queued,
}
use mcp_crewd_rs.Jobs.Depth.{job_enqueue_lem}
use mcp_crewd_rs.Jobs.Keys.{Reach, created, step, Step, enqueues, leases, accepts}
use mcp_crewd_rs.Jobs.Fifo.{is_first, job_lease_next_lem}
use mcp_crewd_rs.Jobs.Acceptance.{accepted_never_requeued, expired_lease_requeued}

abbrev waiting_job : CellJob
waiting_job = new_job "j" "t0" "t" "w" "payload" 1

abbrev one_job : Store
one_job = record create_schema { cell_jobs = waiting_job ∷ [] }

one_job-Reach : Reach one_job
one_job-Reach = step created enqueued
  where
    enqueued : Step create_schema one_job
    enqueued =
        unfold job_enqueue job_enqueue_inner max_seq in
        enqueues "j" "t0" "t" "w" "payload" 8 create_schema

abbrev leased_job : CellJob
leased_job = record waiting_job { state = leased; lease_expires_at = some "t1" }

abbrev one_lease : Store
one_lease = record create_schema { cell_jobs = leased_job ∷ [] }

one_lease-Reach : Reach one_lease
one_lease-Reach = step one_job-Reach taken
  where
    taken : Step one_job one_lease
    taken = unfold job_lease_next first_queued in leases "t1" "w" one_job

abbrev accepted_job : CellJob
accepted_job = record leased_job { accepted_by_engine_at = some "t1"; engine_turn_id = some "e" }

abbrev one_accepted : Store
one_accepted = record create_schema { cell_jobs = accepted_job ∷ [] }

one_accepted-Reach : Reach one_accepted
one_accepted-Reach = step one_lease-Reach accepted
  where
    accepted : Step one_lease one_accepted
    accepted = unfold job_mark_accepted in accepts "t1" "j" "e" one_lease

abbrev enqueuing : Result CellJob × Store
enqueuing = job_enqueue "k" "t1" "t" "w" "more" 8 one_job

job_enqueue_lem_example :
    ((8 ≤ job_active_count_for_cell "w" one_job) × (enqueuing ≡ (err queue_full, one_job)))
    ⊎ ((job : CellJob) × (enqueuing.0 ≡ ok job)
        × (job.cell_name ≡ "w")
        × (job.payload ≡ "more")
        × (job.state ≡ queued)
        × (job.accepted_by_engine_at ≡ none)
        × (enqueuing.1 ≡ record one_job { cell_jobs = one_job.cell_jobs ++ job ∷ [] })
        × (all
              (λ j. not (j.cell_name == "w") || ltb j.enqueue_seq job.enqueue_seq)
              one_job.cell_jobs
            ≡ true)
        × (job_active_count_for_cell "w" enqueuing.1 ≡ suc (job_active_count_for_cell "w" one_job))
        × (job_active_count_for_cell "w" enqueuing.1 ≤ 8)
        × (job_active_count_for_cell "v" enqueuing.1 ≡ job_active_count_for_cell "v" one_job))
job_enqueue_lem_example = job_enqueue_lem "k" "t1" "t" "w" "v" "more" 8 one_job refl refl

job_lease_next_lem_example :
    ((any (started_for "w") one_job.cell_jobs ≡ true)
      × (job_lease_next "t1" "w" one_job ≡ (ok none, one_job)))
    ⊎ ((any (queued_for "w") one_job.cell_jobs ≡ false)
        × (job_lease_next "t1" "w" one_job ≡ (ok none, one_job)))
    ⊎ ((any (started_for "w") one_job.cell_jobs ≡ false)
        × ((j : CellJob) × (find (is_job j.job_id) one_job.cell_jobs ≡ some j)
            × (queued_for "w" j ≡ true)
            × (is_first "w" j one_job.cell_jobs ≡ true)
            × ((job_lease_next "t1" "w" one_job).0
                ≡ ok (some (record j { state = leased; lease_expires_at = some "t1" })))
            × (find (is_job j.job_id) (job_lease_next "t1" "w" one_job).1.cell_jobs
                ≡ some (record j { state = leased; lease_expires_at = some "t1" }))))
job_lease_next_lem_example = job_lease_next_lem "t1" "w" one_job one_job-Reach

accepted_never_requeued_example :
    (find (is_job "j") (job_requeue "j" one_accepted).1.cell_jobs ≡ some accepted_job)
    × (find (is_job "j") (job_requeue_expired_leases "t9" one_accepted).1.cell_jobs
        ≡ some accepted_job)
accepted_never_requeued_example =
    accepted_never_requeued "t9" "j" "j" one_accepted accepted_job one_accepted-Reach refl
      (inl ("t1", refl))

expired_lease_requeued_example :
    find (is_job "j") (job_requeue_expired_leases "t9" one_lease).1.cell_jobs
    ≡ some (record leased_job { state = queued; lease_expires_at = none })
expired_lease_requeued_example =
    expired_lease_requeued "t9" "t1" "j" one_lease leased_job one_lease-Reach refl (inl refl) refl
      refl refl
