-- ===== src/Jobs/Fifo.antt =====
-- crates/crewd-core/src/jobs.rs, job_lease_next: the first queued job goes first, one at a time.
use mcp_crewd_rs.Base.{
  leb→le, find-some-count, ◌≤◌, String, ◌≡◌, refl, subst, ◌⊎◌, inl, inr, Bool, true, false, not,
  ◌||◌, none, some, List, [], ◌∷◌, arith, eq_refl, leb, Bool-cases, Option-cases, count, find, any,
  all, find-update_eq,
}
use mcp_crewd_rs.Error.{ok}
use mcp_crewd_rs.Store.Tables.{Store, CellJob, leased}
use mcp_crewd_rs.Jobs.{queued_for, started_for, is_job, first_queued, job_lease_next}
use mcp_crewd_rs.Jobs.Keys.{Reach, Reach-jobs_keyed}

none_first :
    (cell : String) (j : CellJob) (js : List CellJob)
    → any (queued_for cell) js ≡ false
    → all (λ k. not (queued_for cell k) || leb j.enqueue_seq k.enqueue_seq) js ≡ true
none_first cell j [] h = refl
none_first cell j (k ∷ ks) h = ground (arith, none_first cell j ks)

-- None of the cell's queued jobs has a smaller number.
abbrev pub is_first : String → CellJob → List CellJob → Bool
is_first cell j js = all (λ k. not (queued_for cell k) || leb j.enqueue_seq k.enqueue_seq) js

is_first_mono :
    (cell : String) (i j : CellJob) (js : List CellJob)
    → i.enqueue_seq ≤ j.enqueue_seq
    → is_first cell j js ≡ true
    → is_first cell i js ≡ true
is_first_mono cell i j [] l h = refl
is_first_mono cell i j (k ∷ ks) l h = ground (arith, is_first_mono cell i j ks l)

first_queued-none :
    (cell : String) (js : List CellJob)
    → first_queued cell js ≡ none
    → any (queued_for cell) js ≡ false
unfolding first_queued
first_queued-none cell [] h = refl
first_queued-none cell (j ∷ js) h = ground (arith, first_queued-none cell js)

abbrev IsCandidate : String → List CellJob → CellJob → Type 0
IsCandidate cell js j = (queued_for cell j ≡ true) × (is_first cell j js ≡ true)

first_queued-some :
    (cell : String) (js : List CellJob) (j : CellJob)
    → first_queued cell js ≡ some j
    → IsCandidate cell js j
unfolding first_queued
first_queued-some cell [] j h = ground arith
first_queued-some cell (k ∷ ks) j h = elim (Bool-cases (queued_for cell k)) [
  | inr q ↦
      let (is_queued, first) = first_queued-some cell ks j (ground (arith, h, q)) in
      (is_queued, ground (arith, q, first))
  | inl q ↦ elim (Option-cases (first_queued cell ks)) [
    | inl e ↦
        let none_queued = none_first cell k ks (first_queued-none cell ks e) in
        subst (IsCandidate cell (k ∷ ks)) {x = k} {y = j} (ground (arith, h, q, e))
          (q, ground (arith, none_queued))
    | inr (i, e) ↦
        let (is_queued, first) = first_queued-some cell ks i e in
        elim (Bool-cases (leb k.enqueue_seq i.enqueue_seq)) [
          | inl l ↦
              let least = is_first_mono cell k i ks (leb→le _ _ l) first in
              subst (IsCandidate cell (k ∷ ks)) {x = k} {y = j} (ground (arith, h, q, e, l))
                (q, ground (arith, least))
          | inr l ↦
              subst (IsCandidate cell (k ∷ ks)) {x = i} {y = j} (ground (arith, h, q, e, l))
                (is_queued, ground (arith, l, first))
        ]
  ]
]

-- The row found by the id of the job is the job.
first_queued-find :
    (cell : String) (js : List CellJob) (j : CellJob)
    → ((id : String) → count (is_job id) js ≤ 1)
    → first_queued cell js ≡ some j
    → find (is_job j.job_id) js ≡ some j
unfolding first_queued
first_queued-find cell [] j u h = ground arith
first_queued-find cell (k ∷ ks) j u h = elim (Option-cases (first_queued cell ks)) [
  | inl e ↦ ground (arith, h, e, eq_refl k.job_id)
  | inr (i, e) ↦
      let found = first_queued-find cell ks i (λ id. ground (arith, u id)) e in
      ground (
        arith,
        h,
        e,
        eq_refl k.job_id,
        found,
        find-some-count (is_job i.job_id) ks i found,
        u i.job_id,
      )
]

-- In every store that the calls on the job queue reach, a cell that has a started job, or no queued
-- one, gets no job and the store does not change. Another
-- cell gets the queued job with the smallest number, which is leased until the time given.
pub job_lease_next_lem :
    (expires cell : String) (s : Store)
    → Reach s
    → ((any (started_for cell) s.cell_jobs ≡ true) × (job_lease_next expires cell s ≡ (ok none, s)))
      ⊎ ((any (queued_for cell) s.cell_jobs ≡ false)
          × (job_lease_next expires cell s ≡ (ok none, s)))
      ⊎ ((any (started_for cell) s.cell_jobs ≡ false)
          × ((j : CellJob) × (find (is_job j.job_id) s.cell_jobs ≡ some j)
              × (queued_for cell j ≡ true)
              × (is_first cell j s.cell_jobs ≡ true)
              × ((job_lease_next expires cell s).0
                  ≡ ok (some (record j { state = leased; lease_expires_at = some expires })))
              × (find (is_job j.job_id) (job_lease_next expires cell s).1.cell_jobs
                  ≡ some (record j { state = leased; lease_expires_at = some expires }))))
unfolding job_lease_next
job_lease_next_lem expires cell s w = elim (Bool-cases (any (started_for cell) s.cell_jobs)) [
  | inl e ↦ inl (e, ground (arith, e))
  | inr e ↦ inr (elim (Option-cases (first_queued cell s.cell_jobs)) [
    | inl n ↦ inl (first_queued-none cell s.cell_jobs n, ground (arith, e, n))
    | inr (j, h) ↦
        let found = first_queued-find cell s.cell_jobs j (λ id. Reach-jobs_keyed id w) h in
        let (is_queued, first) = first_queued-some cell s.cell_jobs j h in
        let lease = λ (x : CellJob). record x { state = leased; lease_expires_at = some expires } in
        let after = find-update_eq (is_job j.job_id) lease s.cell_jobs j (λ x l. l) found in
        inr (
          e,
          (j, found, is_queued, first, ground (arith, e, h, after), ground (arith, e, h, after)),
        )
  ])
]
