-- ===== src/Jobs.antt =====
-- crates/crewd-core/src/jobs.rs: the queue of a cell. The fresh id of a job, the clock's text and the
-- end of a lease (`rfc3339_after`) are arguments. `BEGIN IMMEDIATE` makes each call one step.
pub mod Depth
pub mod Keys
pub mod Fifo
pub mod Acceptance
mod Tests
use mcp_crewd_rs.Base.{
  ℕ, ◌+◌, max, String, Bool, true, false, ◌&&◌, Option, none, some, List, [], ◌∷◌, ◌++◌, map,
  select, count, find, update, any, leb, ◌==◌, text_ltb, if◌then◌else◌, is_none,
}
use mcp_crewd_rs.Error.{Result, ok, err, queue_full, internal}
use mcp_crewd_rs.Store.Tables.{
  Store, CellJob, JobState, queued, leased, started, finished, cancelled,
}

pub as_str : JobState → String
as_str queued = "queued"
as_str leased = "leased"
as_str started = "started"
as_str finished = "finished"
as_str cancelled = "cancelled"

pub from_db_str : String → Option JobState
from_db_str s =
    if s == "queued"
    then some queued
    else if s == "leased"
    then some leased
    else if s == "started"
    then some started
    else if s == "finished"
    then some finished
    else if s == "cancelled"
    then some cancelled
    else none

abbrev pub queue_depth_default : ℕ
queue_depth_default = 8

abbrev pub is_active : JobState → Bool
is_active queued = true
is_active leased = true
is_active started = true
is_active _ = false

abbrev pub is_queued : JobState → Bool
is_queued queued = true
is_queued _ = false

abbrev pub is_started : JobState → Bool
is_started started = true
is_started _ = false

-- state IN ('leased','started')
abbrev pub is_out : JobState → Bool
is_out leased = true
is_out started = true
is_out _ = false

abbrev pub active_for : String → CellJob → Bool
active_for cell j = j.cell_name == cell && is_active j.state

abbrev pub queued_for : String → CellJob → Bool
queued_for cell j = j.cell_name == cell && is_queued j.state

abbrev pub started_for : String → CellJob → Bool
started_for cell j = j.cell_name == cell && is_started j.state

abbrev pub is_job : String → CellJob → Bool
is_job job_id j = j.job_id == job_id

-- COALESCE(MAX(enqueue_seq), 0) over the rows of the cell
unfoldable pub max_seq : String → List CellJob → ℕ
max_seq cell [] = 0
max_seq cell (j ∷ js) =
    let rest = max_seq cell js in if j.cell_name == cell then max j.enqueue_seq rest else rest

abbrev pub new_job : String → String → String → String → String → ℕ → CellJob
new_job fresh now thread_id cell payload seq = record {
  job_id = fresh;
  crewd_thread_id = thread_id;
  cell_name = cell;
  payload = payload;
  state = queued;
  lease_expires_at = none;
  accepted_by_engine_at = none;
  engine_turn_id = none;
  created_at = now;
  enqueue_seq = seq;
}

unfoldable pub job_enqueue_inner :
    String → String → String → String → String → ℕ → Store → Result CellJob × Store
unfolding max_seq
job_enqueue_inner fresh now thread_id cell payload depth_cap s =
    if leb depth_cap (count (active_for cell) s.cell_jobs)
    then (err queue_full, s)
    else if any (is_job fresh) s.cell_jobs
    then (err internal, s)
    else let job = new_job fresh now thread_id cell payload (max_seq cell s.cell_jobs + 1) in
      (ok job, record s { cell_jobs = s.cell_jobs ++ job ∷ [] })

-- A refused call writes nothing, so that the roll-back of its transaction changes nothing.
unfoldable pub job_enqueue :
    String → String → String → String → String → ℕ → Store → Result CellJob × Store
job_enqueue = job_enqueue_inner

-- The first of two candidates by `enqueue_seq`
abbrev earlier : CellJob → Option CellJob → CellJob
earlier j none = j
earlier j (some k) = if leb j.enqueue_seq k.enqueue_seq then j else k

-- ... AND state = 'queued' ORDER BY enqueue_seq ASC LIMIT 1
pub first_queued : String → List CellJob → Option CellJob
first_queued cell [] = none
first_queued cell (j ∷ js) =
    let rest = first_queued cell js in if queued_for cell j then some (earlier j rest) else rest

-- The UPDATE statements of one job
abbrev pub set_job : String → (CellJob → CellJob) → Store → Store
set_job job_id f s = record s { cell_jobs = update (is_job job_id) f s.cell_jobs }

pub job_lease_next : String → String → Store → Result (Option CellJob) × Store
unfolding first_queued
job_lease_next expires cell s =
    if any (started_for cell) s.cell_jobs
    then (ok none, s)
    else elim (first_queued cell s.cell_jobs) [
      | none ↦ (ok none, s)
      | some c ↦
          let after =
            set_job c.job_id (λ j. record j { state = leased; lease_expires_at = some expires })
              s in
          (
            elim (find (is_job c.job_id) after.cell_jobs) [
              | none ↦ err internal
              | some j ↦ ok (some j)
            ],
            after,
          )
    ]

-- An UPDATE of one job that fails when there is no such row
abbrev pub update_job : String → (CellJob → CellJob) → Store → Result (Unit {0}) × Store
update_job job_id f s =
    if any (is_job job_id) s.cell_jobs then (ok tt, set_job job_id f s) else (err internal, s)

pub job_mark_started : String → Store → Result (Unit {0}) × Store
job_mark_started job_id = update_job job_id (λ j. record j { state = started })

pub job_mark_accepted : String → String → String → Store → Result (Unit {0}) × Store
job_mark_accepted now job_id turn_id =
    update_job job_id
      (λ j. record j { accepted_by_engine_at = some now; engine_turn_id = some turn_id })

pub job_finish : String → Store → Result (Unit {0}) × Store
job_finish job_id = update_job job_id (λ j. record j { state = finished })

unfoldable pub job_cancel : String → Store → Result (Unit {0}) × Store
job_cancel job_id = update_job job_id (λ j. record j { state = cancelled })

abbrev pub may_requeue : CellJob → Bool
may_requeue j = is_none j.accepted_by_engine_at && is_out j.state

abbrev pub back_to_queue : CellJob → CellJob
back_to_queue j = record j { state = queued; lease_expires_at = none }

pub job_requeue : String → Store → Bool × Store
job_requeue job_id s = (
  any (λ j. is_job job_id j && may_requeue j) s.cell_jobs,
  record s { cell_jobs = update (λ j. is_job job_id j && may_requeue j) back_to_queue s.cell_jobs },
)

abbrev pub lease_expired : String → CellJob → Bool
lease_expired now j =
    elim j.lease_expires_at [ none ↦ false | some t ↦ text_ltb t now ] && may_requeue j

pub requeue_ids : List String → List CellJob → List CellJob
requeue_ids [] js = js
requeue_ids (id ∷ ids) js = requeue_ids ids (update (is_job id) back_to_queue js)

pub job_requeue_expired_leases : String → Store → List String × Store
unfolding requeue_ids
job_requeue_expired_leases now s =
    let ids = map (λ (j : CellJob). j.job_id) (select (lease_expired now) s.cell_jobs) in
    (ids, record s { cell_jobs = requeue_ids ids s.cell_jobs })

unfoldable pub insert_by_seq : CellJob → List CellJob → List CellJob
insert_by_seq j [] = j ∷ []
insert_by_seq j (k ∷ ks) =
    let later = insert_by_seq j ks in
    if leb j.enqueue_seq k.enqueue_seq then j ∷ k ∷ ks else k ∷ later

unfoldable pub sort_by_seq : List CellJob → List CellJob
unfolding insert_by_seq
sort_by_seq [] = []
sort_by_seq (j ∷ js) = insert_by_seq j (sort_by_seq js)

unfoldable pub jobs_for_thread : String → Store → List CellJob
jobs_for_thread thread_id s = sort_by_seq (select (λ j. j.crewd_thread_id == thread_id) s.cell_jobs)

pub job_active_count_for_cell : String → Store → ℕ
job_active_count_for_cell cell s = count (active_for cell) s.cell_jobs
