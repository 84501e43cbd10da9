-- ===== src/Delivery.antt =====
-- crates/crewd-core/src/state.rs and the contract of crates/crewd-core/src/adapter.rs: the delivery
-- state machine, and the states that an adapter's outcome asks for.
pub mod Machine
mod Tests
use mcp_crewd_rs.Base.{String, Bool, true, false, Option, none, some, ◌==◌, if◌then◌else◌}

pub data DeliveryState : Type 0 where
  queued claimed delivered acked failed expired : DeliveryState

unfoldable pub as_str : DeliveryState → String
as_str queued = "queued"
as_str claimed = "claimed"
as_str delivered = "delivered"
as_str acked = "acked"
as_str failed = "failed"
as_str expired = "expired"

unfoldable pub parse : String → Option DeliveryState
parse s =
    if s == "queued"
    then some queued
    else if s == "claimed"
    then some claimed
    else if s == "delivered"
    then some delivered
    else if s == "acked"
    then some acked
    else if s == "failed"
    then some failed
    else if s == "expired"
    then some expired
    else none

unfoldable pub transition_allowed : DeliveryState → DeliveryState → Bool
transition_allowed queued claimed = true
transition_allowed claimed delivered = true
transition_allowed claimed queued = true
transition_allowed claimed failed = true
transition_allowed delivered acked = true
transition_allowed queued failed = true
transition_allowed queued expired = true
transition_allowed claimed expired = true
transition_allowed _ _ = false

-- `DeliveryOutcome`; the constructors are written `DeliveryOutcome.delivered` where they clash.
pub data DeliveryOutcome : Type 0 where
  delivered acked transient_failure permanent_failure not_ready : DeliveryOutcome

unfoldable pub outcome_to_state : DeliveryOutcome → DeliveryState
outcome_to_state DeliveryOutcome.delivered = DeliveryState.delivered
outcome_to_state DeliveryOutcome.acked = DeliveryState.acked
outcome_to_state transient_failure = queued
outcome_to_state not_ready = queued
outcome_to_state permanent_failure = failed
