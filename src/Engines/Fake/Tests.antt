-- ===== src/Engines/Fake/Tests.antt =====
-- Runs of the engine of crates/crewd/src/engines/fake.rs.
use mcp_crewd_rs.Base.{◌≡◌, refl, [], ◌∷◌, ◌++◌}
use mcp_crewd_rs.Engine.{accepted, final}
use mcp_crewd_rs.Types.Clock.{pad}
use mcp_crewd_rs.Engines.Fake.{FakeEngine, new, with_hang, run_turn, start_turn, poll_events}
use mcp_crewd_rs.Engines.Fake.Turns.{Ordered, made, hanging, started, polled, Run-Ordered}

abbrev answered : FakeEngine
answered = (start_turn "hi" new).1

events_of_a_turn : (poll_events answered).0 ≡ accepted "fake-turn-1" ∷ final "done: hi" ∷ []
unfolding start_turn run_turn poll_events pad
events_of_a_turn = refl

Run-Ordered_example :
    Ordered
      (start_turn "more" (with_hang (poll_events answered).1)).1
      ([] ++ (poll_events answered).0)
Run-Ordered_example = Run-Ordered (
    started "more" (with_hang (poll_events answered).1) ([] ++ (poll_events answered).0) (
      hanging (poll_events answered).1 ([] ++ (poll_events answered).0)
        (polled answered [] (started "hi" new [] made))))
