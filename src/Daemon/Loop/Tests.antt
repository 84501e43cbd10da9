-- ===== src/Daemon/Loop/Tests.antt =====
-- Runs of crates/crewd/src/delivery.rs.
use mcp_crewd_rs.Base.{◌≡◌, refl, false, none, some, [], ◌∷◌}
use mcp_crewd_rs.Error.{ok}
use mcp_crewd_rs.Types.Clock.{rfc3339_from_unix_secs}
use mcp_crewd_rs.Types.{Kind, note, Envelope}
use mcp_crewd_rs.Delivery.{
  DeliveryState, outcome_to_state, transition_allowed, DeliveryOutcome, claimed, transient_failure,
  queued,
}
use mcp_crewd_rs.Store.Tables.{Store, Delivery, create_schema}
use mcp_crewd_rs.Store.Asks.{expire_asks_due}
use mcp_crewd_rs.Store.Deliveries.{transition, claim_due, expire_due, delivery_state}
use mcp_crewd_rs.Daemon.{DaemonState, audit, audit_best_effort}
use mcp_crewd_rs.Daemon.Tests.{world, daemon}
use mcp_crewd_rs.Daemon.Loop.{
  LoopConfig, Adapters, apply_outcome, tick, drive, outcome_for, deliver_with_timeout, wake_expired,
  note_expired,
}
use mcp_crewd_rs.Daemon.Loop.Outcomes.{state_after, apply_outcome_lem}

abbrev config : LoopConfig
config = record { lease_secs = 30; max_attempts = 5; backoff_base_secs = 1; backoff_cap_secs = 60 }

abbrev row : Delivery
row = record {
  envelope_id = "m";
  recipient = "b";
  state = claimed;
  attempts = 0;
  lease_until = some 30;
  next_retry_at = 0;
}

abbrev busy : DaemonState
busy = daemon false (record create_schema { deliveries = row ∷ [] })

abbrev after : DeliveryOutcome → Store
after outcome = (apply_outcome world config 10 2 "m" "b" outcome busy).store

apply_outcome_lem_example :
    (delivery_state "m" "b" (after transient_failure) ≡ ok queued)
    × (delivery_state "m" "c" (after transient_failure) ≡ delivery_state "m" "c" busy.store)
unfolding state_after
apply_outcome_lem_example =
    apply_outcome_lem world config 10 2 "m" "b" "m" "c" transient_failure row busy refl refl refl

abbrev letter : Envelope
letter = record {
  spec_version = "0.1";
  message_id = "m";
  ask_id = none;
  from_cell = "a";
  to_cell = some "b";
  kind = Kind.send;
  msg_type = note;
  principal_capabilities = [];
  created_at = "1970-01-01T00:00:00Z";
  expires_at = "1970-01-02T00:00:00Z";
  seq = 1;
  idempotency_key = "k";
  body = "hello";
  file_refs = [];
  taint = "peer_untrusted";
  reply_to = none;
}

abbrev waiting_letter : DaemonState
waiting_letter = daemon false (record create_schema {
  envelopes = letter ∷ [];
  deliveries = record row { state = queued; lease_until = none } ∷ [];
})

abbrev always : DeliveryOutcome → Adapters
always outcome cell = some (λ n env. some outcome)

-- An adapter that takes the message has it delivered, one that acknowledges it too leaves it claimed.
taken :
    delivery_state "m" "b"
      (tick world config (always DeliveryOutcome.delivered) (λ n. 0) waiting_letter).store
    ≡ ok DeliveryState.delivered
unfolding rfc3339_from_unix_secs tick drive apply_outcome outcome_for deliver_with_timeout
    wake_expired note_expired transition delivery_state claim_due audit audit_best_effort expire_due
    expire_asks_due outcome_to_state transition_allowed
taken = refl

acknowledged :
    delivery_state "m" "b"
      (tick world config (always DeliveryOutcome.acked) (λ n. 0) waiting_letter).store
    ≡ ok claimed
unfolding rfc3339_from_unix_secs tick drive apply_outcome outcome_for deliver_with_timeout
    wake_expired note_expired transition delivery_state claim_due audit audit_best_effort expire_due
    expire_asks_due outcome_to_state transition_allowed
acknowledged = refl
