-- ===== src/Jobs/Depth.antt =====
-- crates/crewd-core/src/jobs.rs, job_enqueue: the depth cap and the number of a new job.
use mcp_crewd_rs.Base.{
  leb→le, ℕ, suc, ◌+◌, ◌≤◌, String, ◌≡◌, refl, ◌⊎◌, inl, inr, true, false, not, ◌||◌, List, none,
  [], ◌∷◌, ◌++◌, arith, ◌==◌, eq_iff, eq_refl, ltb, leb, Bool-cases, count, any, all, count-append,
}
use mcp_crewd_rs.Error.{ok, err, queue_full}
use mcp_crewd_rs.Store.Tables.{Store, CellJob, queued}
use mcp_crewd_rs.Jobs.{
  new_job, active_for, is_job, max_seq, job_enqueue_inner, job_enqueue, job_active_count_for_cell,
}

-- The number of a new job is above that of every job of the cell.
pub max_seq-bounds :
    (cell : String) (js : List CellJob)
    → all (λ j. not (j.cell_name == cell) || ltb j.enqueue_seq (max_seq cell js + 1)) js ≡ true
unfolding max_seq
max_seq-bounds cell js = go js (max_seq cell js) (omega arith)
  where
    go :
        (ks : List CellJob) (n : ℕ)
        → max_seq cell ks ≤ n
        → all (λ j. not (j.cell_name == cell) || ltb j.enqueue_seq (n + 1)) ks ≡ true
    go [] n h = refl
    go (k ∷ ks) n h = ground (arith, go ks n)

-- A call on a cell with `depth_cap` or more active jobs is refused with E_QUEUE_FULL and changes
-- nothing. With fewer, and a fresh id, it adds to the queue the one row of the job that it
-- returns, which is queued, not accepted, and numbered above every number that the cell's jobs have;
-- the rest of the store stays, the count of the active jobs stays within the cap, and that of another
-- cell does not change.
pub job_enqueue_lem :
    (fresh now thread_id cell other payload : String) (depth_cap : ℕ) (s : Store)
    → any (is_job fresh) s.cell_jobs ≡ false
    → (other == cell) ≡ false
    → let after = job_enqueue fresh now thread_id cell payload depth_cap s in
      (((depth_cap ≤ job_active_count_for_cell cell s) × (after ≡ (err queue_full, s)))
        ⊎ ((job : CellJob) × (after.0 ≡ ok job)
            × (job.cell_name ≡ cell)
            × (job.payload ≡ payload)
            × (job.state ≡ queued)
            × (job.accepted_by_engine_at ≡ none)
            × (after.1 ≡ record s { cell_jobs = s.cell_jobs ++ job ∷ [] })
            × (all (λ j. not (j.cell_name == cell) || ltb j.enqueue_seq job.enqueue_seq) s.cell_jobs
                ≡ true)
            × (job_active_count_for_cell cell after.1 ≡ suc (job_active_count_for_cell cell s))
            × (job_active_count_for_cell cell after.1 ≤ depth_cap)
            × (job_active_count_for_cell other after.1 ≡ job_active_count_for_cell other s)))
unfolding job_enqueue job_enqueue_inner job_active_count_for_cell
job_enqueue_lem fresh now thread_id cell other payload depth_cap s h k =
    elim (Bool-cases (leb depth_cap (count (active_for cell) s.cell_jobs))) [
      | inl full ↦ inl (leb→le _ _ full, ground (arith, full))
      | inr room ↦
          let job = new_job fresh now thread_id cell payload (max_seq cell s.cell_jobs + 1) in
          let grown = count-append (active_for cell) s.cell_jobs (job ∷ []) in
          inr (
            job,
            ground (arith, room, h),
            refl,
            refl,
            refl,
            refl,
            ground (arith, room, h),
            max_seq-bounds cell s.cell_jobs,
            ground (arith, room, h, grown, eq_refl cell),
            ground (arith, room, h, grown, eq_refl cell),
            ground (
              arith,
              room,
              h,
              k,
              count-append (active_for other) s.cell_jobs (job ∷ []),
              eq_iff cell other,
              eq_iff other cell,
            ),
          )
    ]
