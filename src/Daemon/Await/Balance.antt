-- ===== src/Daemon/Await/Balance.antt =====
-- handle_await of crates/crewd/src/handlers.rs: the edge of a suspended await goes with it.
use mcp_crewd_rs.Base.{suc, String, ◌≡◌, refl, ap, ◌∙◌, not, Option, none, some, [], ◌∷◌, ◌==◌}
use mcp_crewd_rs.Error.{Result, ok, err}
use mcp_crewd_rs.Canonical.{Value}
use mcp_crewd_rs.Tickets.{AwaitGuard, WaitForGraph, try_activate_await, release}
use mcp_crewd_rs.Tickets.Release.{Counted, release-activate}
use mcp_crewd_rs.Tickets.Counts.{count_of, Taken, try_activate_await-Taken}
use mcp_crewd_rs.Store.Tables.{Ask, AskState, pending, answered, expired}
use mcp_crewd_rs.Store.Asks.{get_ask}
use mcp_crewd_rs.Wire.{AwaitParams}
use mcp_crewd_rs.Daemon.{World, DaemonState, audit, fail, reject_client_identity_keys}
use mcp_crewd_rs.Daemon.Trail.{Post}
use mcp_crewd_rs.Daemon.Success.{
  Success, then_lift, then_gets, then_or_fail, then_fail_if, then_call, anything, ended_with,
  Success-ok,
}
use mcp_crewd_rs.Daemon.Await.{
  Progress, finished, waiting, Wake, Waiting, activated, wait_for, suspend, await_state,
  await_begin, await_end, await_drop,
}

-- What the graph is, once the await is over
abbrev pub Balanced : String → WaitForGraph → Progress → DaemonState → Type 0
Balanced from g (finished v) e = e.graph ≡ g
Balanced from g (waiting x) e =
    (release e.graph x.guard ≡ g) × Taken from x.ask.to_cell g x.guard e.graph

module _ (w : World) where
  activated-Balanced :
      (from : String) (ask : Ask) (outcome : Option (Result AwaitGuard × WaitForGraph))
      (d : DaemonState)
      → Counted d.graph.edges
      → try_activate_await d.graph from ask.to_cell ≡ outcome
      → Success
          (λ guard e.
            (release e.graph guard ≡ d.graph) × Taken from ask.to_cell d.graph guard e.graph)
          (activated w from ask outcome d)
  unfolding Post
  activated-Balanced from ask none d counted h = tt
  activated-Balanced from ask (some (ok guard, g)) d counted h = (
    release-activate d.graph from ask.to_cell guard g counted h,
    try_activate_await-Taken d.graph from ask.to_cell guard g counted h,
  )
  activated-Balanced from ask (some (err x, g)) d counted h =
      then_call _ (λ _ _. Unit {0}) (audit w _) (λ _. fail x) d (anything _) (λ _ _ _. tt)

  wait_for-Balanced :
      (from : String) (p : AwaitParams) (ask : Ask) (guard : AwaitGuard) (g : WaitForGraph)
      (d : DaemonState)
      → (release d.graph guard ≡ g) × Taken from ask.to_cell g guard d.graph
      → Success (Balanced from g) (wait_for p ask guard d)
  unfolding Post
  wait_for-Balanced from p ask guard g d h = h

  suspend-Balanced :
      (from : String) (p : AwaitParams) (ask : Ask) (d : DaemonState)
      → Counted d.graph.edges
      → Success (Balanced from d.graph) (suspend w from p ask d)
  unfolding suspend
  suspend-Balanced from p ask d counted = then_gets (Balanced from d.graph) _ _ d (
      then_call (Balanced from d.graph) _ _ _ d (activated-Balanced from ask _ d counted refl)
        λ guard e held. wait_for-Balanced from p ask guard d.graph e held)

  state-Balanced :
      (from : String) (p : AwaitParams) (ask : Ask) (state : AskState) (d : DaemonState)
      → Counted d.graph.edges
      → Success (Balanced from d.graph) (await_state w from p ask state d)
  unfolding await_state
  state-Balanced from p ask answered d counted = ended_with (Balanced from d.graph) _ d refl
  state-Balanced from p ask expired d counted = ended_with (Balanced from d.graph) _ d refl
  state-Balanced from p ask pending d counted = suspend-Balanced from p ask d counted

  begin-Balanced :
      (from : String) (params : Value) (d : DaemonState)
      → Counted d.graph.edges
      → Success (Balanced from d.graph) (await_begin w from params d)
  unfolding await_begin
  begin-Balanced from params d counted =
      let Q = Balanced from d.graph in
      then_lift Q (reject_client_identity_keys params ("ask_id" ∷ [])) _ d λ _ _.
        then_or_fail Q (w.await_params params) _ _ d λ p _. then_gets Q _ _ d (
          then_or_fail Q (get_ask p.ask_id d.store) _ _ d λ ask _.
            then_fail_if Q (not (ask.from_cell == from)) _ _ d
              λ _. state-Balanced from p ask ask.state d counted)

  -- An await that is suspended takes the edge from the caller to the cell that it asked: the edge is
  -- counted once more in the wait-for graph. It gives the edge back however it ends, notified, at its
  -- deadline, or dropped with its connection: the graph is then what it was, when no other await has
  -- changed it in between and its counts were positive and below 2^32 - 1.
  pub await_begin-released :
      (from : String) (params : Value) (wake : Wake) (x : Waiting) (d e f : DaemonState)
      → Counted d.graph.edges
      → await_begin w from params d ≡ (ok (waiting x), e)
      → f.graph ≡ e.graph
      → (x.guard.from ≡ from)
        × (x.guard.to ≡ x.ask.to_cell)
        × (count_of e.graph.edges from x.ask.to_cell
            ≡ suc (count_of d.graph.edges from x.ask.to_cell))
        × ((await_end wake x f).1.graph ≡ d.graph)
        × ((await_drop x f).graph ≡ d.graph)
  unfolding await_end await_drop
  await_begin-released from params wake x d e f counted run same =
      let held = Success-ok (Balanced from d.graph) _ (begin-Balanced from params d counted) run in
      let back = ap (λ g. release g x.guard) same ∙ held.0 in
      (held.1.0, held.1.1, held.1.2, back, back)
