-- ===== src/Cells/Tests.antt =====
-- Runs of cells.rs, with a JSON writer and a hash that are constant.
use mcp_crewd_rs.Base.{◌≡◌, refl, some, none, [], false}
use mcp_crewd_rs.Error.{BusError, err}
use mcp_crewd_rs.Audit.{Codec, AuditChain, genesis_hash, synced}
use mcp_crewd_rs.Store.Tables.{CellDef, fake}
use mcp_crewd_rs.Spawn.{Ambient}
use mcp_crewd_rs.Cells.{resolve_spawn_target}

abbrev codec : Codec
codec = record {
  escape = λ s. s;
  hex_sha256 = λ s. "h";
  from_str = λ s. none;
  to_line = λ v. "l";
  is_blank = λ s. false;
}

abbrev ambient : Ambient
ambient = record {
  disk = synced;
  event_id = "1";
  event_ts = "t0";
  thread_id = "t";
  job_id = "j";
  now = "t0";
}

abbrev worker : CellDef
worker = record {
  name = "w";
  engine = fake;
  model = none;
  profile = none;
  cwd = "/tmp";
  worktree_default = false;
  memory_device = none;
  created_at = "t0";
}

abbrev chain : AuditChain
chain = record { head_hash = genesis_hash; lines = [] }

override_refused :
    resolve_spawn_target (some worker) none (some "big") none none ≡ err BusError.policy_denied
unfolding resolve_spawn_target
override_refused = refl
