-- ===== src/Store/Tests.antt =====
-- Runs of store.rs.
use mcp_crewd_rs.Base.{
  min, ◌*◌, ◌^◌, ◌+◌, ◌≤◌, ◌<◌, String, ◌≡◌, refl, ◌⊎◌, Bool, true, false, ◌&&◌, none, some, [],
  ◌∷◌, arith, ◌==◌, if◌then◌else◌, find, any,
}
use mcp_crewd_rs.Error.{Result, ok}
use mcp_crewd_rs.Types.{Envelope, send, note}
use mcp_crewd_rs.Delivery.{queued, expired, failed}
use mcp_crewd_rs.Store.Tables.{Store, Delivery, Ask, AskState, create_schema}
use mcp_crewd_rs.Store.Deliveries.{
  has_id, is_delivery, delivery_state, insert_envelope, insert_delivery, claim_due, inbox, join,
  claim_rows, expire_due, expires_by, is_pending, record_attempt_failure, backoff_delay, shifted,
  sort_by_seq, insert_by_seq, mark_delivered,
}
use mcp_crewd_rs.Store.Asks.{get_ask, record_reply, recorded, duplicate_identical, conflict}
use mcp_crewd_rs.Store.Queue.{record_attempt_failure_lem}
use mcp_crewd_rs.Store.Once.{is_row, claim_due_once}
use mcp_crewd_rs.Store.Inbox.{inbox_once}
use mcp_crewd_rs.Store.Keys.{Reach, created, step, Step, stores, queues}
use mcp_crewd_rs.Store.Expiry.{expire_due_lem}
use mcp_crewd_rs.Store.Replies.{record_reply_once}

abbrev letter : Envelope
letter = record {
  spec_version = "0.1";
  message_id = "m";
  ask_id = none;
  from_cell = "a";
  to_cell = some "b";
  kind = send;
  msg_type = note;
  principal_capabilities = [];
  created_at = "2026-01-01T00:00:00Z";
  expires_at = "2026-01-02T00:00:00Z";
  seq = 1;
  idempotency_key = "k";
  body = "hello";
  file_refs = [];
  taint = "peer_untrusted";
  reply_to = none;
}

abbrev waiting_row : Delivery
waiting_row = record {
  envelope_id = "m";
  recipient = "b";
  state = queued;
  attempts = 0;
  lease_until = none;
  next_retry_at = 0;
}

abbrev one_letter : Store
one_letter = record create_schema { envelopes = letter ∷ []; deliveries = waiting_row ∷ [] }

one_letter-Reach : Reach one_letter
one_letter-Reach = step (step created (stored)) queued_step
  where
    stored : Step create_schema (record create_schema { envelopes = letter ∷ [] })
    stored = unfold insert_envelope in stores letter create_schema

    queued_step : Step (record create_schema { envelopes = letter ∷ [] }) one_letter
    queued_step =
        unfold insert_delivery in queues "m" "b" (record create_schema { envelopes = letter ∷ [] })

letter_queued : delivery_state "m" "b" one_letter ≡ ok queued
unfolding delivery_state
letter_queued = refl

-- The bits that the shift drops: a base of 2 at the 64th attempt waits for no time at all.
overflowing_backoff : backoff_delay 2 60 64 ≡ 0
unfolding backoff_delay shifted
overflowing_backoff = refl

abbrev failing : Result Bool × Store
failing = record_attempt_failure 100 3 "m" "b" 5 1 60 one_letter

record_attempt_failure_lem_example :
    (((5 ≤ 1)
        × (failing.0 ≡ ok true)
        × (find (is_delivery "m" "b") failing.1.deliveries
            ≡ some (record waiting_row { state = failed; attempts = 1 })))
      ⊎ ((1 < 5)
          × (failing.0 ≡ ok false)
          × (find (is_delivery "m" "b") failing.1.deliveries
              ≡ some (record waiting_row {
                state = queued;
                attempts = 1;
                lease_until = none;
                next_retry_at = 100 + min 60 (1 * 2 ^ 0) + 3;
              }))))
    × (find (is_delivery "m" "c") failing.1.deliveries
        ≡ find (is_delivery "m" "c") one_letter.deliveries)
record_attempt_failure_lem_example =
    record_attempt_failure_lem 100 3 5 1 60 "m" "b" "m" "c" one_letter waiting_row refl refl
      (omega arith) (omega arith)

letter_claimed : any (is_row "m" "b") (claim_due 10 30 16 one_letter).0 ≡ true
unfolding claim_due join claim_rows
letter_claimed = refl

claim_due_once_example :
    any (is_row "m" "b") (claim_due 20 30 16 (claim_due 10 30 16 one_letter).1).0 ≡ false
claim_due_once_example =
    claim_due_once "m" "b" 10 30 16 20 30 16 one_letter letter_claimed (omega arith)

letter_read : any (has_id "m") (inbox "b" 10 one_letter).0.0 ≡ true
unfolding inbox join sort_by_seq insert_by_seq mark_delivered
letter_read = refl

inbox_once_example :
    (any (has_id "m") (inbox "b" 5 (inbox "b" 10 one_letter).1).0.0 ≡ false)
    × (any (is_row "m" "b") (claim_due 20 30 16 (inbox "b" 10 one_letter).1).0 ≡ false)
inbox_once_example = inbox_once "m" "b" 10 5 20 30 16 one_letter letter_read

expire_due_lem_example :
    delivery_state "m" "b" (expire_due "2026-01-03T00:00:00Z" one_letter).1
    ≡ ok (
        if is_pending queued && expires_by "2026-01-03T00:00:00Z" (letter ∷ []) waiting_row
        then expired
        else queued)
expire_due_lem_example =
    expire_due_lem "2026-01-03T00:00:00Z" "m" "b" one_letter waiting_row one_letter-Reach refl

abbrev open_ask : Ask
open_ask = record {
  ask_id = "q";
  message_id = "m";
  from_cell = "a";
  to_cell = "b";
  expires_at = "2026-01-02T00:00:00Z";
  state = AskState.pending;
  reply_message_id = none;
  reply_body_sha256 = none;
}

abbrev one_ask : Store
one_ask = record create_schema { asks = open_ask ∷ [] }

abbrev reply : String → String → Envelope
reply id body = record letter { message_id = id; body = body }

ask_found : get_ask "q" one_ask ≡ some open_ask
unfolding get_ask
ask_found = refl

abbrev after_reply : Store
after_reply = (record_reply (λ s. s) "q" (reply "r" "yes") one_ask).1

-- A letter has come in between.
abbrev later : Store
later = record after_reply { envelopes = letter ∷ [] }

still_answered : get_ask "q" later ≡ get_ask "q" after_reply
unfolding get_ask
still_answered = refl

record_reply_once_example :
    ((record_reply (λ s. s) "q" (reply "r" "yes") one_ask).0 ≡ recorded)
    × (record_reply (λ s. s) "q" (reply "t" "no") later
        ≡ (if "yes" == "no" then duplicate_identical "r" else conflict, later))
record_reply_once_example =
    record_reply_once (λ s. s) "q" (reply "r" "yes") (reply "t" "no") one_ask later open_ask
      ask_found refl still_answered
