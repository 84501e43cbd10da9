-- ===== src/Spawn/Tests.antt =====
-- Runs of spawn.rs, with a JSON writer and a hash that are constant.
use mcp_crewd_rs.Base.{◌≡◌, refl, String, none, [], false, count}
use mcp_crewd_rs.Error.{Result, ok}
use mcp_crewd_rs.Validators.{
  validate_cell_name, validate_cell_name_allowing_ephemeral, validate_idempotency_key,
}
use mcp_crewd_rs.Audit.{Codec, AuditChain, genesis_hash, synced, append, assert_kind}
use mcp_crewd_rs.Store.Tables.{Store, CellThread, fake, create_schema}
use mcp_crewd_rs.Jobs.{job_enqueue_inner, max_seq}
use mcp_crewd_rs.Threads.{active_for, thread_insert, thread_active_for_cell, latest_active}
use mcp_crewd_rs.Spawn.{
  SpawnRequest, Launch, Ambient, SpawnOutcome, created_thread, replayed, new_thread,
  spawn_idempotent, lookup_spawn_request, spawn_writes,
}
use mcp_crewd_rs.Spawn.Replay.{spawn_replay, spawn_one_active}

abbrev codec : Codec
codec = record {
  escape = λ s. s;
  hex_sha256 = λ s. "h";
  from_str = λ s. none;
  to_line = λ v. "l";
  is_blank = λ s. false;
}

abbrev request : SpawnRequest
request = record { caller = "p"; cell_name = "w"; idempotency_key = "k"; payload = "go" }

abbrev other_request : SpawnRequest
other_request = record { caller = "p"; cell_name = "w"; idempotency_key = "k2"; payload = "go" }

abbrev launch : Launch
launch = record {
  engine = fake;
  model = none;
  profile = none;
  cwd = "/tmp";
  worktree_path = none;
  depth_cap = 8;
}

abbrev ambient : String → Ambient
ambient id = record {
  disk = synced;
  event_id = id;
  event_ts = "t0";
  thread_id = id;
  job_id = id;
  now = "t0";
}

abbrev empty_chain : AuditChain
empty_chain = record { head_hash = genesis_hash; lines = [] }

abbrev spawned : Result SpawnOutcome × Store × AuditChain
spawned = spawn_idempotent codec request launch (ambient "1") create_schema empty_chain

abbrev thread : CellThread
thread = new_thread request launch (ambient "1")

first_spawn : spawned.0 ≡ ok (created_thread thread)
unfolding spawn_idempotent lookup_spawn_request spawn_writes validate_cell_name
    validate_cell_name_allowing_ephemeral validate_idempotency_key append assert_kind
    job_enqueue_inner max_seq thread_insert thread_active_for_cell latest_active
first_spawn = refl

spawn_replay_example :
    spawn_idempotent codec request launch (ambient "2") spawned.1 spawned.2
    ≡ (ok (replayed thread), spawned.1, spawned.2)
spawn_replay_example =
    spawn_replay codec request launch launch (ambient "1") (ambient "2") create_schema empty_chain
      thread first_spawn

spawn_one_active_example :
    (count (active_for "w") create_schema.cell_threads ≡ 0)
    × (count (active_for "w") spawned.1.cell_threads ≡ 1)
spawn_one_active_example =
    spawn_one_active codec request launch (ambient "1") create_schema empty_chain thread first_spawn
