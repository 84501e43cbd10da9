-- ===== src/Engines/Fake.antt =====
-- crates/crewd/src/engines/fake.rs: the engine inside the process.
pub mod Turns
mod Tests
use Prim.Native.String.{◌++◌ as ◌^^◌}
use mcp_crewd_rs.Base.{
  ℕ, ◌+◌, ◌%◌, ◌^◌, String, Bool, true, false, Option, none, some, List, [], ◌∷◌, ◌++◌,
  if◌then◌else◌,
}
use mcp_crewd_rs.Error.{Result, ok, err, engine_down, thread_not_resumable}
use mcp_crewd_rs.Types.Clock.{pad}
use mcp_crewd_rs.Engine.{EngineCaps, EngineEvent, accepted, final, failed}
use mcp_crewd_rs.Engines.{EngineProcState, up, down, EngineAdapter}

pub record FakeEngine : Type 0 where
  pub fail_next : Bool
  pub hang : Bool
  pub interrupted : Bool
  pub turn_counter : ℕ
  pub in_flight : Bool
  pub queued : List EngineEvent
  pub proc : EngineProcState
  pub last_session : Option String

abbrev pub new : FakeEngine
new = record {
  fail_next = false;
  hang = false;
  interrupted = false;
  turn_counter = 0;
  in_flight = false;
  queued = [];
  proc = up;
  last_session = none;
}

abbrev pub with_fail_next : FakeEngine → FakeEngine
with_fail_next e = record e { fail_next = true }

abbrev pub with_hang : FakeEngine → FakeEngine
with_hang e = record e { hang = true }

abbrev fake_caps : EngineCaps
fake_caps = record {
  supports_session_resume = true;
  supports_abort = true;
  supports_stream_replay = false;
  supports_model_override = true;
  supports_yolo = true;
}

abbrev push : EngineEvent → FakeEngine → FakeEngine
push event e = record e { queued = e.queued ++ event ∷ [] }

-- after the event `Accepted` is queued
pub run_turn : String → FakeEngine → FakeEngine
run_turn payload e =
    if e.hang
    then e
    else if e.fail_next
    then record (push (failed "fake-failure") e) { fail_next = false; in_flight = false }
    else record (push (final ("done: " ^^ payload))
        (record e { last_session = some "fake-sess-1" })) { in_flight = false }

abbrev next_turn : FakeEngine → ℕ
next_turn e = (e.turn_counter + 1) % 2 ^ 64

pub start_turn : String → FakeEngine → Result (Unit {0}) × FakeEngine
unfolding run_turn
start_turn payload e = elim e.proc [
  | down ↦ (err engine_down, e)
  | up ↦ (
    ok tt,
    run_turn payload (record (push (accepted ("fake-turn-" ^^ pad 20 1 (next_turn e))) e) {
      interrupted = false;
      turn_counter = next_turn e;
      in_flight = true;
    }),
  )
]

pub poll_events : FakeEngine → List EngineEvent × FakeEngine
poll_events e = (e.queued, record e { queued = [] })

pub interrupt : FakeEngine → Result (Unit {0}) × FakeEngine
interrupt e = (ok tt, record e { interrupted = e.in_flight; in_flight = false })

pub resume_session : String → FakeEngine → Result (Unit {0}) × FakeEngine
resume_session id e = (ok tt, record e { last_session = some id })

pub shutdown : FakeEngine → FakeEngine
shutdown e = record e { proc = down; in_flight = false; queued = [] }

-- `resume_thread` and `engine_thread_id` are the defaults of the trait.
abbrev pub fake_engine : EngineAdapter FakeEngine
fake_engine = record {
  caps = λ _. fake_caps;
  start_turn = start_turn;
  poll_events = poll_events;
  interrupt = interrupt;
  resume_thread = λ _ e. (err thread_not_resumable, e);
  resume_session = resume_session;
  engine_thread_id = λ _. none;
  engine_session_id = λ e. e.last_session;
  proc_state = λ e. e.proc;
  shutdown = shutdown;
}
