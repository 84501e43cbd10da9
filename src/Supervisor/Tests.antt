-- ===== src/Supervisor/Tests.antt =====
-- Runs of crates/crewd/src/supervisor.rs with the engine of crates/crewd/src/engines/fake.rs.
use mcp_crewd_rs.Base.{ℕ, ◌^◌, min, ◌≡◌, refl, some, [], ◌∷◌}
use mcp_crewd_rs.Error.{Result, ok, err, internal}
use mcp_crewd_rs.Audit.{genesis_hash}
use mcp_crewd_rs.Store.Tables.{EngineKind, fake, codex}
use mcp_crewd_rs.Engines.Fake.{FakeEngine, new as fresh, fake_engine}
use mcp_crewd_rs.Supervisor.{
  EngineSupervisor, new, SupervisedEngine, respawn_backoff_secs, ensure, start_turn,
}
use mcp_crewd_rs.Supervisor.Backoff.{respawn_all, respawn_backoff_secs_lem}
use mcp_crewd_rs.Supervisor.Engines.{here, there, started, ensure_once}

abbrev supervisor : EngineSupervisor FakeEngine
supervisor = new (record { head_hash = genesis_hash; lines = [] })

abbrev fakes : EngineKind → ℕ → Result FakeEngine
fakes kind cfg = ok fresh

abbrev cell_a : EngineSupervisor FakeEngine
cell_a = (ensure fakes "a" fake 0 supervisor).1

made : (ensure fakes "a" fake 0 supervisor).0 ≡ ok fresh
unfolding ensure
made = refl

respawn_backoff_secs_lem_example :
    (respawn_backoff_secs "a" (respawn_all ("a" ∷ "b" ∷ "a" ∷ []) supervisor)).0 ≡ min 60 (2 ^ 2)
respawn_backoff_secs_lem_example =
    respawn_backoff_secs_lem "a" ("a" ∷ "b" ∷ "a" ∷ []) supervisor refl

ensure_once_example :
    (engine : SupervisedEngine FakeEngine) × ((start_turn fake_engine "a" "hi" cell_a).1.engines "a"
      ≡ some engine)
    × (ensure (λ _ (_ : ℕ). err internal) "a" codex 1 (start_turn fake_engine "a" "hi" cell_a).1
        ≡ (ok engine.adapter, (start_turn fake_engine "a" "hi" cell_a).1))
ensure_once_example =
    ensure_once fakes (λ _ (_ : ℕ). err internal) fake_engine "a" fake codex 0 1 fresh supervisor
      (start_turn fake_engine "a" "hi" cell_a).1 made
      (there cell_a cell_a (start_turn fake_engine "a" "hi" cell_a).1 (here cell_a)
        (started "a" "hi" cell_a))
