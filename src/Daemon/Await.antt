-- ===== src/Daemon/Await.antt =====
-- crates/crewd/src/handlers.rs: handle_await, in two steps. `await_begin` runs to the suspension; then
-- the runtime resumes it, at a notification or at the deadline (`await_end`), or drops it with its
-- connection (`await_drop`). The guard of the wait-for edge is released whichever comes.
pub mod Sound
pub mod Balance
use mcp_crewd_rs.Base.{
  ℕ, min, String, Bool, false, not, Option, none, some, List, [], ◌∷◌, ◌++◌, ◌==◌, if◌then◌else◌,
  unwrap_or, update, any,
}
use mcp_crewd_rs.Error.{Result, ok, err, ask_not_found, internal}
use mcp_crewd_rs.Types.{Envelope}
use mcp_crewd_rs.Canonical.{Value, null, string}
use mcp_crewd_rs.Tickets.{AwaitGuard, WaitForGraph, try_activate_await, release}
use mcp_crewd_rs.Store.Tables.{Store, Ask, AskState, pending, answered, expired}
use mcp_crewd_rs.Store.Deliveries.{get_envelope}
use mcp_crewd_rs.Store.Asks.{get_ask}
use mcp_crewd_rs.Wire.{AwaitParams}
use mcp_crewd_rs.Daemon.{
  World, DaemonState, Action, pure, fail, lift, or_fail, fail_if, gets, parse_params, ◌>>=◌, ◌>>◌,
  audit, plain, reject_client_identity_keys,
}
use mcp_crewd_rs.Daemon.Json.{json, opt, envelope_value}

-- A suspended await
pub record Waiting : Type 0 where
  pub guard : AwaitGuard
  pub ask_id : String
  pub ask : Ask
  pub timeout_ms : ℕ

pub data Progress : Type 0 where
  finished : Value → Progress
  waiting : Waiting → Progress

pub data Wake : Type 0 where
  notified elapsed : Wake

abbrev pub answered_value : Value → Value
answered_value reply = json (("status", string "answered") ∷ ("reply", reply) ∷ [])

abbrev pub no_reply : String → Value
no_reply status = json (("status", string status) ∷ ("reply", null) ∷ [])

abbrev pub reply_envelope : Option String → Store → Option Envelope
reply_envelope none s = none
reply_envelope (some message_id) s = get_envelope message_id s

abbrev pub reply_json : Ask → Option Envelope → Value
reply_json ask (some env) = envelope_value env
reply_json ask none =
    json (("message_id", opt string ask.reply_message_id) ∷ ("ask_id", string ask.ask_id) ∷ [])

-- `answered`
unfoldable pub answered_reply : Store → Ask → Value
answered_reply s ask = answered_value (reply_json ask (reply_envelope ask.reply_message_id s))

-- `.entry(ask_id).or_insert_with(Notify::new)`
pub with_waker : String → List (String × Bool) → List (String × Bool)
with_waker ask_id wakers =
    if any (λ (waker : String × Bool). waker.0 == ask_id) wakers
    then wakers
    else wakers ++ (ask_id, false) ∷ []

abbrev pub await_ceiling_ms : ℕ
await_ceiling_ms = 120000

-- The edge is in the graph, or refused with its audit. `none` stands for a search that did not end,
-- which the fuel of the graph excludes.
abbrev activated :
    World → String → Ask → Option (Result AwaitGuard × WaitForGraph) → Action AwaitGuard
activated w from ask none = fail internal
activated w from ask (some (ok guard, g)) = λ d. (ok guard, record d { graph = g })
activated w from ask (some (err e, g)) = do
  audit w (plain "deadlock_prevented" none (some from) (some ask.to_cell) "rejected")
  fail e

-- The suspension: the ask has a `Notify`, and the timeout is at most two minutes.
abbrev pub wait_for : AwaitParams → Ask → AwaitGuard → Action Progress
wait_for p ask guard d = (
  ok (
      waiting (record {
        guard = guard;
        ask_id = p.ask_id;
        ask = ask;
        timeout_ms = min (unwrap_or p.timeout_ms await_ceiling_ms) await_ceiling_ms;
      })),
  record d { ask_wakers = with_waker p.ask_id d.ask_wakers },
)

module _ (w : World) where
  unfoldable pub suspend : String → AwaitParams → Ask → Action Progress
  suspend from p ask = do
    outcome ← gets (λ d. try_activate_await d.graph from ask.to_cell)
    guard ← activated w from ask outcome
    wait_for p ask guard

  unfoldable pub await_state : String → AwaitParams → Ask → AskState → Action Progress
  await_state from p ask answered = gets (λ d. finished (answered_reply d.store ask))
  await_state from p ask expired = pure (finished (no_reply "expired"))
  await_state from p ask pending = suspend from p ask

  unfoldable pub await_begin : String → Value → Action Progress
  await_begin from params = do
    lift (reject_client_identity_keys params ("ask_id" ∷ []))
    p ← parse_params (w.await_params params)
    found ← gets (λ d. get_ask p.ask_id d.store)
    ask ← or_fail found ask_not_found
    fail_if (not (ask.from_cell == from)) ask_not_found
    await_state from p ask ask.state

abbrev pub woken : Wake → Store → Ask → AskState → Value
woken elapsed s ask state = no_reply "pending"
woken notified s ask answered = answered_reply s ask
woken notified s ask expired = no_reply "expired"
woken notified s ask pending = no_reply "pending"

-- A notification takes the permit of the ask's `Notify`.
pub take_permit : Wake → String → List (String × Bool) → List (String × Bool)
take_permit elapsed ask_id wakers = wakers
take_permit notified ask_id wakers =
    update (λ waker. waker.0 == ask_id) (λ waker. (waker.0, false)) wakers

unfoldable pub await_end : Wake → Waiting → Action Value
await_end wake x d =
    let ask = unwrap_or (get_ask x.ask_id d.store) x.ask in
    (
      ok (woken wake d.store ask ask.state),
      record d {
        graph = release d.graph x.guard;
        ask_wakers = take_permit wake x.ask_id d.ask_wakers;
      },
    )

pub await_drop : Waiting → DaemonState → DaemonState
await_drop x d = record d { graph = release d.graph x.guard }
