-- ===== src/Supervisor.antt =====
-- crates/crewd/src/supervisor.rs: one engine per active cell, and how long a cell waits before its
-- engine is started again. A HashMap is the function that looks a key up. `make_adapter` spawns child
-- processes, so it is a parameter, as are the settings it reads.
pub mod Engines
pub mod Backoff
mod Tests
use mcp_crewd_rs.Base.{
  ℕ, ◌+◌, ◌-◌, ◌^◌, min, String, Bool, Option, none, some, List, [], ◌==◌, ltb, if◌then◌else◌,
  is_some, unwrap_or,
}
use mcp_crewd_rs.Error.{Result, ok, err, engine_down}
use mcp_crewd_rs.Audit.{Codec, Disk, AuditEventDraft, AuditChain, append}
use mcp_crewd_rs.Store.Tables.{EngineKind, fake}
use mcp_crewd_rs.Engine.{EngineEvent}
use mcp_crewd_rs.Engines.{EngineProcState, EngineAdapter}

abbrev pub respawn_backoff_cap_secs : ℕ
respawn_backoff_cap_secs = 60

pub record SupervisedEngine (A : Type 0) : Type 0 where
  pub kind : EngineKind
  pub adapter : A

pub record EngineSupervisor (A : Type 0) : Type 0 where
  pub engines : String → Option (SupervisedEngine A)
  pub backoff_step : String → Option ℕ
  pub audit : AuditChain

abbrev pub set {ℓ} : {V : Type ℓ} → String → V → (String → V) → String → V
set key value table k = if key == k then value else table k

abbrev stopped : String → AuditEventDraft
stopped cell = record {
  kind = "engine_stopped";
  message_id = none;
  from = none;
  to = some cell;
  outcome = "stopped";
  detail = none;
}

-- `1u64.checked_shl(step).unwrap_or(u64::MAX)`
pub power_of_two : ℕ → ℕ
power_of_two step = if ltb step 64 then 2 ^ step else 2 ^ 64 - 1

module _ {A : Type 0} where
  abbrev pub new : AuditChain → EngineSupervisor A
  new audit = record { engines = λ _. none; backoff_step = λ _. none; audit = audit }

  abbrev pub has : String → EngineSupervisor A → Bool
  has cell s = is_some (s.engines cell)

  pub insert : String → A → EngineSupervisor A → EngineSupervisor A
  insert cell adapter s = record s {
    engines = set cell (some (record { kind = fake; adapter = adapter })) s.engines;
    backoff_step = set cell (some (unwrap_or (s.backoff_step cell) 0)) s.backoff_step;
  }

  -- The settings' type and the making of an adapter
  module _ {Cfg : Type 0} (make_adapter : EngineKind → Cfg → Result A) where
    pub ensure : String → EngineKind → Cfg → EngineSupervisor A → Result A × EngineSupervisor A
    ensure cell kind cfg s = elim (s.engines cell) [
      | some engine ↦ (ok engine.adapter, s)
      | none ↦ elim (make_adapter kind cfg) [
        | err e ↦ (err e, s)
        | ok adapter ↦ (
          ok adapter,
          record s {
            engines = set cell (some (record { kind = kind; adapter = adapter })) s.engines;
          },
        )
      ]
    ]

  -- The step of a cell saturates at u32::MAX.
  pub respawn_backoff_secs : String → EngineSupervisor A → ℕ × EngineSupervisor A
  unfolding power_of_two
  respawn_backoff_secs cell s =
      let step = unwrap_or (s.backoff_step cell) 0 in
      (
        min respawn_backoff_cap_secs (power_of_two step),
        record s { backoff_step = set cell (some (min (step + 1) (2 ^ 32 - 1))) s.backoff_step },
      )

  -- The calls that go to the adapter of a cell; `missing` is the answer of a cell without one.
  module _ (a : EngineAdapter A) where
    pub on_engine {ℓ} :
        {B : Type ℓ} → String → B → (A → B × A) → EngineSupervisor A → B × EngineSupervisor A
    on_engine cell missing call s = elim (s.engines cell) [
      | none ↦ (missing, s)
      | some engine ↦
          let (answer, adapter) = call engine.adapter in
          (
            answer,
            record s { engines = set cell (some (record engine { adapter = adapter })) s.engines },
          )
    ]

    pub start_turn : String → String → EngineSupervisor A → Result (Unit {0}) × EngineSupervisor A
    unfolding on_engine
    start_turn cell payload = on_engine cell (err engine_down) (a.start_turn payload)

    pub poll : String → EngineSupervisor A → List EngineEvent × EngineSupervisor A
    unfolding on_engine
    poll cell = on_engine cell [] a.poll_events

    pub interrupt : String → EngineSupervisor A → Result (Unit {0}) × EngineSupervisor A
    unfolding on_engine
    interrupt cell = on_engine cell (ok tt) a.interrupt

    pub resume_session :
        String → String → EngineSupervisor A → Result (Unit {0}) × EngineSupervisor A
    unfolding on_engine
    resume_session cell id = on_engine cell (ok tt) (a.resume_session id)

    pub resume_thread :
        String → String → EngineSupervisor A → Result (Unit {0}) × EngineSupervisor A
    unfolding on_engine
    resume_thread cell id = on_engine cell (ok tt) (a.resume_thread id)

    abbrev pub proc_state : String → EngineSupervisor A → Option EngineProcState
    proc_state cell s = elim (s.engines cell) [
      | none ↦ none
      | some engine ↦ some (a.proc_state engine.adapter)
    ]

    abbrev pub engine_session_id : String → EngineSupervisor A → Option String
    engine_session_id cell s = elim (s.engines cell) [
      | none ↦ none
      | some engine ↦ a.engine_session_id engine.adapter
    ]

    abbrev pub engine_thread_id : String → EngineSupervisor A → Option String
    engine_thread_id cell s = elim (s.engines cell) [
      | none ↦ none
      | some engine ↦ a.engine_thread_id engine.adapter
    ]

    -- The adapter is shut down and dropped, and the error of the audit discarded. The disk, the event's
    -- id and its time are arguments.
    pub stop : Codec → Disk → String → String → String → EngineSupervisor A → EngineSupervisor A
    stop codec disk event_id ts cell s = elim (s.engines cell) [
      | none ↦ s
      | some engine ↦ record s {
        engines = set cell none s.engines;
        audit = (append codec disk event_id ts (stopped cell) s.audit).1;
      }
    ]
