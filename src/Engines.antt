-- ===== src/Engines.antt =====
-- crates/crewd/src/engines/mod.rs: what the supervisor asks of an engine. The adapters of codex, claude
-- and pi drive child processes, so they are no part of the model; Fake is the one inside the process.
pub mod Fake
use mcp_crewd_rs.Base.{String, Option, List}
use mcp_crewd_rs.Error.{Result}
use mcp_crewd_rs.Engine.{EngineCaps, EngineEvent}

pub data EngineProcState : Type 0 where
  up down : EngineProcState

-- The trait over the adapter's state; an operation on `&mut self` returns the state after it.
pub record EngineAdapter (A : Type 0) : Type 0 where
  pub caps : A → EngineCaps
  pub start_turn : String → A → Result (Unit {0}) × A
  pub poll_events : A → List EngineEvent × A
  pub interrupt : A → Result (Unit {0}) × A
  pub resume_thread : String → A → Result (Unit {0}) × A
  pub resume_session : String → A → Result (Unit {0}) × A
  pub engine_thread_id : A → Option String
  pub engine_session_id : A → Option String
  pub proc_state : A → EngineProcState
  pub shutdown : A → A
