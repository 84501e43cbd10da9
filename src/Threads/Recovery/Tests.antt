-- ===== src/Threads/Recovery/Tests.antt =====
-- A run of boot_recovery, with a JSON writer and a hash that are constant.
use mcp_crewd_rs.Base.{◌≡◌, refl, String, none, [], ◌∷◌, true, false, not, all}
use mcp_crewd_rs.Error.{ok}
use mcp_crewd_rs.Audit.{Codec, AuditChain, genesis_hash, synced, append, assert_kind}
use mcp_crewd_rs.Store.Tables.{
  Store, CellThread, ThreadState, fake, running, spawning, create_schema,
}
use mcp_crewd_rs.Threads.{thread_transition}
use mcp_crewd_rs.Threads.Recovery.{
  Moment, is_running, is_spawning, recover, boot_recovery, threads_in_states, sort_by_created,
  insert_by_created,
}
use mcp_crewd_rs.Threads.Recovery.Restart.{boot_recovery_clears}

abbrev codec : Codec
codec = record {
  escape = λ s. s;
  hex_sha256 = λ s. "h";
  from_str = λ s. none;
  to_line = λ v. "l";
  is_blank = λ s. false;
}

abbrev chain : AuditChain
chain = record { head_hash = genesis_hash; lines = [] }

abbrev moment : CellThread → Moment
moment t = record { disk = synced; event_id = t.crewd_thread_id; event_ts = "t1"; now = "t1" }

abbrev thread : String → ThreadState → CellThread
thread id state = record {
  crewd_thread_id = id;
  cell_name = "w";
  engine_kind = fake;
  model = none;
  profile = none;
  engine_process_id = none;
  engine_thread_id = none;
  engine_turn_id = none;
  engine_session_id = none;
  cwd = "/tmp";
  worktree_path = none;
  state = state;
  generation = 0;
  created_by_principal = "p";
  idempotency_key = "k";
  created_at = "t0";
  updated_at = "t0";
}

abbrev crashed : Store
crashed = record create_schema { cell_threads = thread "a" spawning ∷ thread "b" running ∷ [] }

recovered : (boot_recovery codec moment crashed chain).0 ≡ ok ("b" ∷ "a" ∷ [])
unfolding boot_recovery recover threads_in_states sort_by_created insert_by_created
    thread_transition append assert_kind
recovered = refl

boot_recovery_clears_example :
    (all (λ t. not (is_running t.state)) (boot_recovery codec moment crashed chain).1.cell_threads
      ≡ true)
    × (all
          (λ t. not (is_spawning t.state))
          (boot_recovery codec moment crashed chain).1.cell_threads
        ≡ true)
boot_recovery_clears_example =
    boot_recovery_clears codec moment crashed chain ("b" ∷ "a" ∷ []) recovered
