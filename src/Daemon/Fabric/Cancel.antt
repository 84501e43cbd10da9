-- ===== src/Daemon/Fabric/Cancel.antt =====
-- handle_cancel of crates/crewd/src/handlers.rs: after it no job of the thread is active.
use mcp_crewd_rs.Base.{
  ℕ, ◌+◌, String, ◌≡◌, refl, ap, ◌∙◌, Bool, true, false, ◌&&◌, none, some, List, [], ◌∷◌, arith,
  ◌==◌, eq_refl, if◌then◌else◌, select, count, update, any, All, All-imp,
}
use mcp_crewd_rs.Error.{ok, err, internal}
use mcp_crewd_rs.Types.Clock.{now_rfc3339}
use mcp_crewd_rs.Canonical.{Value}
use mcp_crewd_rs.Acl.{Capability, check}
use mcp_crewd_rs.Store.Tables.{
  Store, CellThread, CellJob, ThreadState, interrupted, spawning, running, idle, timeout,
  failed_unknown, done, cancelled,
}
use mcp_crewd_rs.Jobs.{is_active, is_job, job_cancel, jobs_for_thread, sort_by_seq, insert_by_seq}
use mcp_crewd_rs.Threads.{thread_get, thread_transition}
use mcp_crewd_rs.Wire.{CellCancelParams}
use mcp_crewd_rs.Daemon.{
  World, DaemonState, on_store, pure, plain, audit, reject_client_identity_keys,
}
use mcp_crewd_rs.Daemon.Trail.{Post}
use mcp_crewd_rs.Daemon.Success.{
  Success, then_lift, then_gets, then_or_fail, then_call, then_parsed, then_draw, stored,
  ended_with, audit-store, Success-state, Success-ok,
}
use mcp_crewd_rs.Daemon.Fabric.{check_thread_owner, cancel_jobs, interrupt, signal, handle_cancel}

abbrev pub active_of : String → CellJob → Bool
active_of thread_id r = r.crewd_thread_id == thread_id && is_active r.state

-- The loop has still to cancel the row.
abbrev to_cancel : List CellJob → CellJob → Bool
to_cancel js r = any (λ j. is_job j.job_id r && is_active j.state) js

-- Every active row of the thread has still to be cancelled.
abbrev Pending : String → List CellJob → List CellJob → Type 0
Pending thread_id js rows = All (λ r. active_of thread_id r ≡ true → to_cancel js r ≡ true) rows

cancelled_one :
    (thread_id : String) (j : CellJob) (js rows : List CellJob)
    → Pending thread_id (j ∷ js) rows
    → Pending thread_id js (update (is_job j.job_id) (λ r. record r { state = cancelled }) rows)
cancelled_one thread_id j js [] h = tt
cancelled_one thread_id j js (r ∷ rows) h =
    (λ active. ground (arith, h.0, active), cancelled_one thread_id j js rows h.1)

none_active :
    (thread_id : String) (rows : List CellJob)
    → Pending thread_id [] rows
    → count (active_of thread_id) rows ≡ 0
none_active thread_id [] h = refl
none_active thread_id (r ∷ rows) h = ground (arith, none_active thread_id rows h.1, h.0)

skipped :
    (thread_id : String) (j : CellJob) (js rows : List CellJob)
    → is_active j.state ≡ false
    → Pending thread_id (j ∷ js) rows
    → Pending thread_id js rows
skipped thread_id j js rows idle_job =
    All-imp _ _ rows (λ r h active. ground (arith, h active, idle_job))

any-insert :
    (p : CellJob → Bool) (j : CellJob) (js : List CellJob)
    → any p (insert_by_seq j js) ≡ any p (j ∷ js)
unfolding insert_by_seq
any-insert p j [] = refl
any-insert p j (k ∷ ks) = ground (arith, any-insert p j ks)

any-sort : (p : CellJob → Bool) (js : List CellJob) → any p (sort_by_seq js) ≡ any p js
unfolding sort_by_seq
any-sort p [] = refl
any-sort p (j ∷ js) = any-insert p j (sort_by_seq js) ∙ ground (arith, any-sort p js)

selected :
    (thread_id : String) (rows : List CellJob)
    → Pending thread_id (select (λ j. j.crewd_thread_id == thread_id) rows) rows
selected thread_id [] = tt
selected thread_id (r ∷ rows) = (
  λ active. ground (arith, active, eq_refl r.job_id),
  All-imp _ _ rows (λ x h active. ground (arith, h active)) (selected thread_id rows),
)

jobs_for_thread-Pending :
    (thread_id : String) (s : Store) → Pending thread_id (jobs_for_thread thread_id s) s.cell_jobs
unfolding jobs_for_thread
jobs_for_thread-Pending thread_id s =
    let mine = select (λ (j : CellJob). j.crewd_thread_id == thread_id) s.cell_jobs in
    All-imp _ _ s.cell_jobs
      (λ r h active. any-sort (λ j. is_job j.job_id r && is_active j.state) mine ∙ h active)
      (selected thread_id s.cell_jobs)

written :
    (P : Store → Type 0) (found : Bool) (s after : Store) (d : DaemonState)
    → P after
    → Success
        (λ _ e. P e.store)
        (on_store (λ (t : Store). if found then (ok tt, after) else (err internal, s)) d)
unfolding Post
written P true s after d h = h
written P false s after d h = tt

cancel_one-Pending :
    (thread_id : String) (j : CellJob) (js : List CellJob) (active : Bool) (d : DaemonState)
    → is_active j.state ≡ active
    → Pending thread_id (j ∷ js) d.store.cell_jobs
    → Success
        (λ _ e. Pending thread_id js e.store.cell_jobs)
        ((if active then on_store (job_cancel j.job_id) else pure tt) d)
unfolding Post job_cancel
cancel_one-Pending thread_id j js false d h pending =
    skipped thread_id j js d.store.cell_jobs h pending
cancel_one-Pending thread_id j js true d h pending =
    written (λ s. Pending thread_id js s.cell_jobs) (any (is_job j.job_id) d.store.cell_jobs)
      d.store _ d (cancelled_one thread_id j js d.store.cell_jobs pending)

moved :
    (now id : String) (to : ThreadState) (s : Store)
    → (thread_transition now id to s).1.cell_jobs ≡ s.cell_jobs
unfolding thread_transition
moved now id to s = ground arith

module _ (w : World) where
  cancel_jobs-Pending :
      (thread_id : String) (js : List CellJob) (d : DaemonState)
      → Pending thread_id js d.store.cell_jobs
      → Success (λ _ e. Pending thread_id [] e.store.cell_jobs) (cancel_jobs w js d)
  unfolding cancel_jobs
  cancel_jobs-Pending thread_id [] d pending =
      ended_with (λ _ e. Pending thread_id [] e.store.cell_jobs) 0 d pending
  cancel_jobs-Pending thread_id (j ∷ js) d pending =
      let Q : ℕ → DaemonState → Type 0 = λ _ e. Pending thread_id [] e.store.cell_jobs in
      then_call Q _ _ _ d (cancel_one-Pending thread_id j js (is_active j.state) d refl pending)
        λ _ e left.
          then_call Q _ _ _ e (cancel_jobs-Pending thread_id js e left)
            λ n f over. ended_with (λ _ e. Pending thread_id [] e.store.cell_jobs) _ f over

  -- The jobs of a thread stay as they are while it is interrupted.
  interrupt-same :
      (state : ThreadState) (id : String) (d : DaemonState)
      → Success (λ _ e. e.store.cell_jobs ≡ d.store.cell_jobs) (interrupt w state id d)
  unfolding interrupt
  interrupt-same running id d =
      then_draw (λ _ e. e.store.cell_jobs ≡ d.store.cell_jobs) _ _ d
        (stored (λ s. s.cell_jobs ≡ d.store.cell_jobs)
          (thread_transition (now_rfc3339 (w.secs d.tick)) id interrupted d.store)
          (record d { tick = d.tick + 1 })
          (moved (now_rfc3339 (w.secs d.tick)) id interrupted d.store))
  interrupt-same spawning id d = ended_with (λ _ e. e.store.cell_jobs ≡ d.store.cell_jobs) tt d refl
  interrupt-same idle id d = ended_with (λ _ e. e.store.cell_jobs ≡ d.store.cell_jobs) tt d refl
  interrupt-same interrupted id d =
      ended_with (λ _ e. e.store.cell_jobs ≡ d.store.cell_jobs) tt d refl
  interrupt-same timeout id d = ended_with (λ _ e. e.store.cell_jobs ≡ d.store.cell_jobs) tt d refl
  interrupt-same failed_unknown id d =
      ended_with (λ _ e. e.store.cell_jobs ≡ d.store.cell_jobs) tt d refl
  interrupt-same done id d = ended_with (λ _ e. e.store.cell_jobs ≡ d.store.cell_jobs) tt d refl

  abbrev pub Cancelled : String → CellCancelParams → DaemonState → DaemonState → Type 0
  Cancelled from p d e =
      (count (active_of p.crewd_thread_id) e.store.cell_jobs ≡ 0)
      × (check d.acl from Capability.spawn ≡ ok tt)
      × ((t : CellThread) × (thread_get p.crewd_thread_id d.store ≡ some t)
          × (check_thread_owner d.acl from t ≡ ok tt))

  cancel-Cancelled :
      (from : String) (params : Value) (p : CellCancelParams) (d : DaemonState)
      → w.cancel_params params ≡ some p
      → Success (λ _ e. Cancelled from p d e) (handle_cancel w from params d)
  unfolding handle_cancel
  cancel-Cancelled from params p d parsed =
      let Q : Value → DaemonState → Type 0 = λ _ e. Cancelled from p d e in
      let id = p.crewd_thread_id in
      then_lift Q (reject_client_identity_keys params []) _ d λ _ _.
        then_parsed Q _ p _ _ d parsed (
          then_gets Q _ _ d (
            then_lift Q (check d.acl from Capability.spawn) _ d λ _ allowed. then_gets Q _ _ d (
              then_or_fail Q (thread_get id d.store) _ _ d λ t found.
                then_lift Q (check_thread_owner d.acl from t) _ d λ _ owned. then_gets Q _ _ d (
                  then_call Q _ _ _ d
                    (cancel_jobs-Pending id (jobs_for_thread id d.store) d
                      (jobs_for_thread-Pending id d.store))
                    λ n e over. then_call Q _ _ _ e (interrupt-same t.state id e) λ _ f same.
                      let quiet = plain "cell_cancelled" (some id) (some from) none "cancelled" in
                      then_call Q (λ _ g. g.store ≡ f.store) (audit w quiet) _ f
                        (Success-state (λ g. g.store ≡ f.store) (audit w quiet f)
                          (audit-store w quiet f))
                        λ _ g kept.
                          then_call Q (λ _ h. h.store ≡ g.store) (signal w t.cell_name) _ g
                            (ended_with (λ _ h. h.store ≡ g.store) tt _ refl)
                            λ _ h left. ended_with Q _ h (
                              ap (λ (s : Store). count (active_of id) s.cell_jobs) (left ∙ kept)
                                  ∙ ap (count (active_of id)) same
                                  ∙ none_active id e.store.cell_jobs over,
                              allowed,
                              (t, found, owned),
                            )))))

  -- A cancel that succeeds was asked for by a cell with the spawn capability that made the thread or has
  -- admin_registry; after it no job of the thread is queued, leased or started.
  pub handle_cancel-count :
      (from : String) (params : Value) (p : CellCancelParams) (d : DaemonState) {v : Value}
      {e : DaemonState}
      → w.cancel_params params ≡ some p
      → handle_cancel w from params d ≡ (ok v, e)
      → Cancelled from p d e
  handle_cancel-count from params p d parsed run =
      Success-ok (λ _ e. Cancelled from p d e) _ (cancel-Cancelled from params p d parsed) run
