-- ===== src/Threads/Tests.antt =====
-- Runs of threads.rs.
use mcp_crewd_rs.Base.{◌≡◌, ◌≢◌, refl, ◌⊎◌, some, none, [], ◌∷◌, true, false}
use mcp_crewd_rs.Error.{ok, err, internal}
use mcp_crewd_rs.Store.Tables.{Store, CellThread, fake, spawning, running, create_schema}
use mcp_crewd_rs.Threads.{transition_allowed, thread_get, thread_transition}
use mcp_crewd_rs.Threads.Lifecycle.{thread_transition_lem}

abbrev young : CellThread
young = record {
  crewd_thread_id = "t";
  cell_name = "w";
  engine_kind = fake;
  model = none;
  profile = none;
  engine_process_id = none;
  engine_thread_id = none;
  engine_turn_id = none;
  engine_session_id = none;
  cwd = "/tmp";
  worktree_path = none;
  state = spawning;
  generation = 0;
  created_by_principal = "p";
  idempotency_key = "k";
  created_at = "t0";
  updated_at = "t0";
}

abbrev one_thread : Store
one_thread = record create_schema { cell_threads = young ∷ [] }

found : thread_get "t" one_thread ≡ some young
unfolding thread_get
found = refl

thread_transition_lem_example :
    (((transition_allowed spawning running ≡ true)
        × (running ≢ spawning)
        × ((thread_transition "t1" "t" running one_thread).0 ≡ ok tt)
        × (thread_get "t" (thread_transition "t1" "t" running one_thread).1
            ≡ some (record young { state = running; updated_at = "t1" })))
      ⊎ ((transition_allowed spawning running ≡ false)
          × (thread_transition "t1" "t" running one_thread ≡ (err internal, one_thread))))
    × (thread_get "u" (thread_transition "t1" "t" running one_thread).1 ≡ thread_get "u" one_thread)
thread_transition_lem_example =
    thread_transition_lem "t1" "t" "u" running one_thread young found refl
