-- ===== src/Threads/Lifecycle.antt =====
-- crates/crewd-core/src/threads.rs: the moves of a thread.
use mcp_crewd_rs.Base.{
  String, ◌≡◌, refl, ◌≢◌, ◌⊎◌, inl, inr, true, false, some, List, [], ◌∷◌, arith, ◌==◌, eq_iff,
  Bool-cases, is_some, any, find-update_ne, find-update_eq,
}
use mcp_crewd_rs.Error.{ok, err, internal}
use mcp_crewd_rs.Store.Tables.{
  Store, CellThread, ThreadState, spawning, running, idle, interrupted, timeout, failed_unknown,
  done,
}
use mcp_crewd_rs.Threads.{
  as_str, from_db_str, transition_allowed, is_thread, thread_get, thread_transition, active_for,
  latest_active,
}

-- The text in the `state` column stands for one state, and no other text is read as a state.
pub from_db_str-as_str : (t : ThreadState) → from_db_str (as_str t) ≡ some t
unfolding from_db_str as_str
from_db_str-as_str spawning = refl
from_db_str-as_str running = refl
from_db_str-as_str idle = refl
from_db_str-as_str interrupted = refl
from_db_str-as_str timeout = refl
from_db_str-as_str failed_unknown = refl
from_db_str-as_str done = refl

pub from_db_str-eq-some : (s : String) (t : ThreadState) → from_db_str s ≡ some t → s ≡ as_str t
unfolding from_db_str as_str
from_db_str-eq-some s spawning h = ground (arith, eq_iff s "spawning")
from_db_str-eq-some s running h = ground (arith, eq_iff s "running")
from_db_str-eq-some s idle h = ground (arith, eq_iff s "idle")
from_db_str-eq-some s interrupted h = ground (arith, eq_iff s "interrupted")
from_db_str-eq-some s timeout h = ground (arith, eq_iff s "timeout")
from_db_str-eq-some s failed_unknown h = ground (arith, eq_iff s "failed_unknown")
from_db_str-eq-some s done h = ground (arith, eq_iff s "done")

-- Of a thread that is there: the call succeeds exactly when the table allows the move, the thread is
-- then in the new state, and otherwise the store is what it was. Another thread is found as before,
-- and nothing makes a thread `spawning` again.
pub thread_transition_lem :
    (now id other : String) (to : ThreadState) (s : Store) (t : CellThread)
    → thread_get id s ≡ some t
    → (other == id) ≡ false
    → (((transition_allowed t.state to ≡ true)
          × (to ≢ spawning)
          × ((thread_transition now id to s).0 ≡ ok tt)
          × (thread_get id (thread_transition now id to s).1
              ≡ some (record t { state = to; updated_at = now })))
        ⊎ ((transition_allowed t.state to ≡ false)
            × (thread_transition now id to s ≡ (err internal, s))))
      × (thread_get other (thread_transition now id to s).1 ≡ thread_get other s)
unfolding thread_transition thread_get
thread_transition_lem now id other to s t h k = elim (Bool-cases (transition_allowed t.state to)) [
  | inl e ↦
      let move = λ (u : CellThread). record u { state = to; updated_at = now } in
      (
        inl (
          e,
          not_to_spawning t.state to e,
          ground (arith, h, e),
          ground (arith, h, e, find-update_eq (is_thread id) move s.cell_threads t (λ x l. l) h),
        ),
        ground (
          arith,
          h,
          e,
          find-update_ne (is_thread other) (is_thread id) move s.cell_threads
              (λ x l. other_thread id other k x l) (λ x l. other_thread id other k x l),
        ),
      )
  | inr e ↦ (inr (e, ground (arith, h, e)), ground (arith, h, e))
]
  where
    other_thread :
        (i o : String)
        → (o == i) ≡ false
        → (u : CellThread) → is_thread i u ≡ true
        → is_thread o u ≡ false
    other_thread i o e u l = ground (
      arith,
      e,
      l,
      eq_iff u.crewd_thread_id i,
      eq_iff u.crewd_thread_id o,
      eq_iff o i,
      Bool-cases (is_thread o u),
    )

    not_to_spawning : (a b : ThreadState) → transition_allowed a b ≡ true → b ≢ spawning
    not_to_spawning a b e l = ground (arith, e, l)

-- A cell has an active thread exactly when a row of the cell is spawning or running.
pub latest_active-none :
    (cell : String) (ts : List CellThread)
    → is_some (latest_active cell ts) ≡ any (active_for cell) ts
unfolding latest_active
latest_active-none cell [] = refl
latest_active-none cell (t ∷ ts) = ground (arith, latest_active-none cell ts)
