-- ===== src/Threads/Recovery.antt =====
-- crates/crewd-core/src/threads.rs, threads_in_states, and crates/crewd/src/scheduler.rs, boot_recovery:
-- the threads that a crash left active. What each turn of the loop meets is a function of its thread.
pub mod Restart
mod Tests
use mcp_crewd_rs.Base.{
  String, Bool, true, false, none, some, List, [], ◌∷◌, ◌++◌, if◌then◌else◌, select, text_leb,
}
use mcp_crewd_rs.Error.{Result, ok, err, internal}
use mcp_crewd_rs.Canonical.{string, object, end, field}
use mcp_crewd_rs.Audit.{Codec, Disk, AuditChain, AuditEventDraft, append}
use mcp_crewd_rs.Store.Tables.{
  Store, CellThread, ThreadState, spawning, running, interrupted, failed_unknown,
}
use mcp_crewd_rs.Threads.{as_str, thread_transition}

abbrev pub is_running : ThreadState → Bool
is_running running = true
is_running _ = false

abbrev pub is_spawning : ThreadState → Bool
is_spawning spawning = true
is_spawning _ = false

pub insert_by_created : CellThread → List CellThread → List CellThread
insert_by_created t [] = t ∷ []
insert_by_created t (u ∷ us) =
    let later = insert_by_created t us in
    if text_leb t.created_at u.created_at then t ∷ u ∷ us else u ∷ later

pub sort_by_created : List CellThread → List CellThread
unfolding insert_by_created
sort_by_created [] = []
sort_by_created (t ∷ ts) = insert_by_created t (sort_by_created ts)

-- The states are given by their test.
pub threads_in_states : (ThreadState → Bool) → Store → List CellThread
threads_in_states p s = sort_by_created (select (λ t. p t.state) s.cell_threads)

-- What a turn of the loop takes from its surroundings
pub record Moment : Type 0 where
  pub disk : Disk
  pub event_id : String
  pub event_ts : String
  pub now : String

abbrev pub turn_failed : ThreadState → ThreadState → CellThread → AuditEventDraft
unfolding as_str
turn_failed previous to t = record {
  kind = "cell_turn_failed";
  message_id = some t.crewd_thread_id;
  from = none;
  to = some t.cell_name;
  outcome = as_str to;
  detail = some (
      object (
        field "previous_state" (string (as_str previous))
          (field "reason" (string "boot_recovery") end)));
}

-- One of the two loops; the first failure ends it.
pub recover :
    Codec
    → (CellThread → Moment)
    → ThreadState
    → ThreadState
    → List CellThread
    → Store
    → AuditChain
    → Result (List String) × Store × AuditChain
unfolding turn_failed
recover c moment previous to [] s chain = (ok [], s, chain)
recover c moment previous to (t ∷ ts) s chain =
    let (appended, chain_2) =
      append c (moment t).disk (moment t).event_id (moment t).event_ts (turn_failed previous to t)
        chain in
    let (moved, s_2) = thread_transition (moment t).now t.crewd_thread_id to s in
    let (rest, s_3, chain_3) = recover c moment previous to ts s_2 chain_2 in
    elim appended [
      | err e ↦ (err internal, s, chain_2)
      | ok _ ↦ elim moved [
        | err e ↦ (err e, s_2, chain_2)
        | ok _ ↦ elim rest [
          | err e ↦ (err e, s_3, chain_3)
          | ok ids ↦ (ok (t.crewd_thread_id ∷ ids), s_3, chain_3)
        ]
      ]
    ]

pub boot_recovery :
    Codec → (CellThread → Moment) → Store → AuditChain → Result (List String) × Store × AuditChain
unfolding recover threads_in_states
boot_recovery c moment s chain =
    let (first, s_2, chain_2) =
      recover c moment running interrupted (threads_in_states is_running s) s chain in
    elim first [
      | err e ↦ (err e, s_2, chain_2)
      | ok ids ↦
          let (second, s_3, chain_3) =
            recover c moment spawning failed_unknown (threads_in_states is_spawning s_2) s_2
              chain_2 in
          (elim second [ err e ↦ err e | ok more ↦ ok (ids ++ more) ], s_3, chain_3)
    ]
