-- ===== src/Daemon/Loop.antt =====
-- crates/crewd/src/delivery.rs: one tick of the delivery loop. Nothing else runs between its locks,
-- and the clock is read once. An adapter's answer to the n-th envelope is an argument, `none` where it
-- panics or takes over 250 ms.
pub mod Outcomes
mod Tests
use mcp_crewd_rs.Base.{
  ℕ, suc, String, Bool, false, Option, none, some, List, [], ◌∷◌, if◌then◌else◌, unwrap_or,
}
use mcp_crewd_rs.Error.{Result, ok, err}
use mcp_crewd_rs.Types.{Envelope}
use mcp_crewd_rs.Types.Clock.{now_rfc3339}
use mcp_crewd_rs.Canonical.{string}
use mcp_crewd_rs.Audit.{AuditEventDraft}
use mcp_crewd_rs.Delivery.{
  DeliveryOutcome, outcome_to_state, delivered, acked, transient_failure, permanent_failure,
  not_ready,
}
use mcp_crewd_rs.Store.Deliveries.{transition, record_attempt_failure, expire_due, claim_due}
use mcp_crewd_rs.Store.Asks.{expire_asks_due}
use mcp_crewd_rs.Daemon.{World, DaemonState, audit_best_effort, plain}
use mcp_crewd_rs.Daemon.Json.{json}
use mcp_crewd_rs.Daemon.Reply.{notify_one}

-- What the loop reads of the configuration
pub record LoopConfig : Type 0 where
  pub lease_secs : ℕ
  pub max_attempts : ℕ
  pub backoff_base_secs : ℕ
  pub backoff_cap_secs : ℕ

abbrev pub Adapters : Type 0
Adapters = String → Option (ℕ → Envelope → Option DeliveryOutcome)

pub deliver_with_timeout : (ℕ → Envelope → Option DeliveryOutcome) → ℕ → Envelope → DeliveryOutcome
deliver_with_timeout adapter n env = unwrap_or (adapter n env) not_ready

-- The adapter's outcome, and that of a cell without one
pub outcome_for : Adapters → ℕ → Envelope → String → DeliveryOutcome
unfolding deliver_with_timeout
outcome_for adapters n env recipient = elim (adapters recipient) [
  | none ↦ not_ready
  | some adapter ↦ deliver_with_timeout adapter n env
]

abbrev delivery_event : String → String → String → String → AuditEventDraft
delivery_event kind outcome message_id recipient =
    plain kind (some message_id) none (some recipient) outcome

-- `exhausted == Some(true)`
abbrev pub exhausted : Result Bool → Bool
exhausted (ok answer) = answer
exhausted (err e) = false

module _ (w : World) where
  -- the result of the transition is dropped
  abbrev pub moved : String → String → DeliveryOutcome → DaemonState → DaemonState
  moved message_id recipient outcome d = record d {
    store = (transition message_id recipient (outcome_to_state outcome) d.store).1;
  }

  abbrev delivered_event : String → String → DaemonState → DaemonState
  delivered_event message_id recipient =
      audit_best_effort w (delivery_event "delivered" "ok" message_id recipient)

  abbrev failed_event : String → String → DaemonState → DaemonState
  failed_event message_id recipient =
      audit_best_effort w (delivery_event "delivery_failed" "failed" message_id recipient)

  pub attempt_failed : LoopConfig → ℕ → ℕ → String → String → DaemonState → DaemonState
  attempt_failed cfg now jitter message_id recipient d =
      let (answer, store) =
        record_attempt_failure now jitter message_id recipient cfg.max_attempts
          cfg.backoff_base_secs cfg.backoff_cap_secs d.store in
      let tried = record d { store = store } in
      if exhausted answer then failed_event message_id recipient tried else tried

  pub apply_outcome :
      LoopConfig → ℕ → ℕ → String → String → DeliveryOutcome → DaemonState → DaemonState
  unfolding attempt_failed
  apply_outcome cfg now jitter message_id recipient delivered d =
      delivered_event message_id recipient (moved message_id recipient delivered d)
  apply_outcome cfg now jitter message_id recipient acked d =
      delivered_event message_id recipient (moved message_id recipient acked d)
  apply_outcome cfg now jitter message_id recipient permanent_failure d =
      failed_event message_id recipient (moved message_id recipient permanent_failure d)
  apply_outcome cfg now jitter message_id recipient transient_failure d =
      attempt_failed cfg now jitter message_id recipient d
  apply_outcome cfg now jitter message_id recipient not_ready d = d

  pub wake_expired : List String → DaemonState → DaemonState
  wake_expired [] d = d
  wake_expired (id ∷ ids) d =
      let noted =
        audit_best_effort w
          (record (plain "ask_expired" none none none "expired") {
            detail = some (json (("ask_id", string id) ∷ []));
          })
          d in
      wake_expired ids (record noted { ask_wakers = notify_one id noted.ask_wakers })

  pub note_expired : List (String × String) → DaemonState → DaemonState
  note_expired [] d = d
  note_expired ((mid, recipient) ∷ rows) d =
      note_expired rows (audit_best_effort w (delivery_event "expired" "expired" mid recipient) d)

  -- `jitter n` is the random jitter of the n-th delivery.
  pub drive :
      LoopConfig → Adapters → ℕ → (ℕ → ℕ) → ℕ → List (Envelope × String) → DaemonState → DaemonState
  unfolding apply_outcome outcome_for
  drive cfg adapters now jitter n [] d = d
  drive cfg adapters now jitter n ((env, recipient) ∷ rows) d =
      drive cfg adapters now jitter (suc n) rows (
        apply_outcome cfg now (jitter n) env.message_id recipient
          (outcome_for adapters n env recipient) d)

  pub tick : LoopConfig → Adapters → (ℕ → ℕ) → DaemonState → DaemonState
  unfolding wake_expired note_expired drive
  tick cfg adapters jitter d =
      let now_unix = w.secs d.tick in
      let now_rfc = now_rfc3339 now_unix in
      let (expired_asks, asks_expired) = expire_asks_due now_rfc d.store in
      let woken = wake_expired expired_asks (record d { store = asks_expired }) in
      let (expired, rows_expired) = expire_due now_rfc woken.store in
      let noted = note_expired expired (record woken { store = rows_expired }) in
      let (claimed, leased) = claim_due now_unix cfg.lease_secs 50 noted.store in
      drive cfg adapters now_unix jitter 0 claimed (record noted { store = leased })
