-- ===== src/Engines/Fake/Turns.antt =====
-- The order of the events that the engine of crates/crewd/src/engines/fake.rs gives.
use mcp_crewd_rs.Base.{
  String, ◌≡◌, refl, sym, ap, subst, ◌⊎◌, inl, inr, Bool, true, false, List, [], ◌∷◌, ◌++◌,
  Bool-cases,
}
use mcp_crewd_rs.Engine.{EngineEvent, accepted, final, failed}
use mcp_crewd_rs.Engines.{EngineProcState, up, down}
use mcp_crewd_rs.Engines.Fake.{
  FakeEngine, new, with_fail_next, with_hang, run_turn, start_turn, poll_events, interrupt,
  resume_session, shutdown,
}

-- The specification: a turn opens with an acceptance, and one event at most closes it. The Boolean
-- tells whether the last turn is open; a turn that hangs stays open when the next one starts.
pub data Turns : Bool → List EngineEvent → Type 0 where
  quiet : Turns false []
  opened :
      (is_open : Bool) (events : List EngineEvent) (id : String)
      → Turns is_open events
      → Turns true (events ++ accepted id ∷ [])
  finished :
      (events : List EngineEvent) (answer : String)
      → Turns true events
      → Turns false (events ++ final answer ∷ [])
  broken :
      (events : List EngineEvent) (error : String)
      → Turns true events
      → Turns false (events ++ failed error ∷ [])

-- An engine after some calls, and the events that its polls gave so far
pub data Run : FakeEngine → List EngineEvent → Type 0 where
  made : Run new []
  failing : (e : FakeEngine) (seen : List EngineEvent) → Run e seen → Run (with_fail_next e) seen
  hanging : (e : FakeEngine) (seen : List EngineEvent) → Run e seen → Run (with_hang e) seen
  started :
      (payload : String) (e : FakeEngine) (seen : List EngineEvent)
      → Run e seen
      → Run (start_turn payload e).1 seen
  polled :
      (e : FakeEngine) (seen : List EngineEvent)
      → Run e seen
      → Run (poll_events e).1 (seen ++ (poll_events e).0)
  interrupted : (e : FakeEngine) (seen : List EngineEvent) → Run e seen → Run (interrupt e).1 seen
  resumed :
      (id : String) (e : FakeEngine) (seen : List EngineEvent)
      → Run e seen
      → Run (resume_session id e).1 seen
  shut : (e : FakeEngine) (seen : List EngineEvent) → Run e seen → Run (shutdown e) seen

abbrev pub InTurns : List EngineEvent → Type 0
InTurns events = (is_open : Bool) × Turns is_open events

-- What was polled and what is queued behind it, each in turns
abbrev pub Ordered : FakeEngine → List EngineEvent → Type 0
Ordered e seen = InTurns seen × InTurns (seen ++ e.queued)

append_assoc : (xs ys zs : List EngineEvent) → (xs ++ ys) ++ zs ≡ xs ++ (ys ++ zs)
append_assoc [] ys zs = refl
append_assoc (x ∷ xs) ys zs = ap (λ t. x ∷ t) (append_assoc xs ys zs)

append_nil : (xs : List EngineEvent) → xs ++ [] ≡ xs
append_nil [] = refl
append_nil (x ∷ xs) = ap (λ t. x ∷ t) (append_nil xs)

-- A turn that has just been accepted is left open or closed.
run_turn-InTurns :
    (payload : String) (e : FakeEngine) (seen : List EngineEvent)
    → Turns true (seen ++ e.queued)
    → InTurns (seen ++ (run_turn payload e).queued)
unfolding run_turn
run_turn-InTurns payload e seen h = elim (Bool-cases e.hang) [
  | inl hangs ↦ rw hangs (true, h)
  | inr goes ↦ rw goes (elim (Bool-cases e.fail_next) [
    | inl fails ↦
        rw fails (false, subst (Turns false) (append_assoc seen e.queued _) (broken _ _ h))
    | inr ends ↦
        rw ends (false, subst (Turns false) (append_assoc seen e.queued _) (finished _ _ h))
  ])
]

proc_cases : (p : EngineProcState) → (p ≡ down) ⊎ (p ≡ up)
proc_cases up = inr refl
proc_cases down = inl refl

start_turn-Ordered :
    (payload : String) (e : FakeEngine) (seen : List EngineEvent)
    → Ordered e seen
    → Ordered (start_turn payload e).1 seen
unfolding start_turn
start_turn-Ordered payload e seen h = elim (proc_cases e.proc) [
  | inl is_down ↦ rw (is_down, start_turn) h
  | inr is_up ↦
      rw (is_up, start_turn)
        (
          h.0,
          run_turn-InTurns payload _ seen
              (subst (Turns true) (append_assoc seen e.queued _) (opened _ _ _ h.1.1)),
        )
]

-- Whatever calls are made on the engine, starts, polls, interrupts, resumes and shutdowns in any
-- order, the events polled so far are turns of the specification, each opened by an acceptance and
-- closed by one final answer or failure at most, and so are these events with those that still wait
-- behind them.
pub Run-Ordered : {e : FakeEngine} {seen : List EngineEvent} → Run e seen → Ordered e seen
unfolding poll_events interrupt resume_session shutdown
Run-Ordered made = ((false, quiet), (false, quiet))
Run-Ordered (failing e seen r) = Run-Ordered r
Run-Ordered (hanging e seen r) = Run-Ordered r
Run-Ordered (started payload e seen r) = start_turn-Ordered payload e seen (Run-Ordered r)
Run-Ordered (polled e seen r) =
    let h = Run-Ordered r in (h.1, subst InTurns (sym (append_nil (seen ++ e.queued))) h.1)
Run-Ordered (interrupted e seen r) = Run-Ordered r
Run-Ordered (resumed id e seen r) = Run-Ordered r
Run-Ordered (shut e seen r) =
    let h = Run-Ordered r in (h.0, subst InTurns (sym (append_nil seen)) h.0)
