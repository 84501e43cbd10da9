-- ===== src/Store/Deliveries.antt =====
-- crates/crewd-core/src/store.rs: sequence numbers, envelopes and the delivery queue. The system clock
-- and the random jitter of a back-off are arguments. Times in seconds fit an i64.
use mcp_crewd_rs.Base.{
  ℕ, ◌+◌, ◌-◌, ◌*◌, ◌^◌, ◌%◌, min, String, Bool, true, false, not, ◌&&◌, Option, none, some, List,
  [], ◌∷◌, ◌++◌, map, select, count, find, update, any, take, length, ltb, leb, ◌==◌, text_leb,
  if◌then◌else◌,
}
use mcp_crewd_rs.Error.{Result, ok, err, internal}
use mcp_crewd_rs.Types.{Envelope}
use mcp_crewd_rs.Delivery.{
  DeliveryState, queued, claimed, delivered, failed, expired, transition_allowed,
}
use mcp_crewd_rs.Store.Tables.{Store, Delivery, SeqCounter}

abbrev pub is_pair : String → String → SeqCounter → Bool
is_pair from to c = c.from_cell == from && c.to_cell == to

abbrev pub first_counter : String → String → SeqCounter
first_counter from to = record { from_cell = from; to_cell = to; next_seq = 1 }

-- INSERT OR IGNORE
abbrev pub with_counter : String → String → List SeqCounter → List SeqCounter
with_counter from to counters =
    if any (is_pair from to) counters then counters else counters ++ first_counter from to ∷ []

unfoldable pub next_seq : String → String → Store → Result ℕ × Store
next_seq from to s =
    let counters = with_counter from to s.seq_counters in
    elim (find (is_pair from to) counters) [
      | none ↦ (err internal, s)
      | some c ↦ (
        ok c.next_seq,
        record s {
          seq_counters =
              update (is_pair from to) (λ k. record k { next_seq = k.next_seq + 1 }) counters;
        },
      )
    ]

abbrev pub has_id : String → Envelope → Bool
has_id message_id e = e.message_id == message_id

-- INSERT OR REPLACE: the old row goes, the new one stands last.
unfoldable pub insert_envelope : Envelope → Store → Store
insert_envelope env s = record s {
  envelopes = select (λ e. not (has_id env.message_id e)) s.envelopes ++ env ∷ [];
}

unfoldable pub get_envelope : String → Store → Option Envelope
get_envelope message_id s = find (has_id message_id) s.envelopes

abbrev pub is_delivery : String → String → Delivery → Bool
is_delivery message_id recipient d = d.envelope_id == message_id && d.recipient == recipient

abbrev pub fresh_delivery : String → String → Delivery
fresh_delivery message_id recipient = record {
  envelope_id = message_id;
  recipient = recipient;
  state = queued;
  attempts = 0;
  lease_until = none;
  next_retry_at = 0;
}

unfoldable pub insert_delivery : String → String → Store → Store
insert_delivery message_id recipient s = record s {
  deliveries =
      select (λ d. not (is_delivery message_id recipient d)) s.deliveries
      ++ fresh_delivery message_id recipient ∷ [];
}

abbrev pub is_queued : DeliveryState → Bool
is_queued queued = true
is_queued _ = false

abbrev pub is_claimed : DeliveryState → Bool
is_claimed claimed = true
is_claimed _ = false

abbrev pub is_pending : DeliveryState → Bool
is_pending queued = true
is_pending claimed = true
is_pending _ = false

unfoldable pub pending_deliveries_count : String → Store → ℕ
pending_deliveries_count recipient s =
    count (λ d. d.recipient == recipient && is_pending d.state) s.deliveries

pub pending_deliveries_total : Store → ℕ
pending_deliveries_total s = count (λ d. is_pending d.state) s.deliveries

unfoldable pub delivery_state : String → String → Store → Result DeliveryState
delivery_state message_id recipient s =
    elim (find (is_delivery message_id recipient) s.deliveries) [
      | none ↦ err internal
      | some d ↦ ok d.state
    ]

-- UPDATE deliveries SET ... of one delivery.
abbrev pub set_delivery : String → String → (Delivery → Delivery) → Store → Store
set_delivery message_id recipient f s = record s {
  deliveries = update (is_delivery message_id recipient) f s.deliveries;
}

unfoldable pub transition : String → String → DeliveryState → Store → Result (Unit {0}) × Store
transition message_id recipient to s = elim (find (is_delivery message_id recipient) s.deliveries) [
  | none ↦ (err internal, s)
  | some d ↦
      if transition_allowed d.state to
      then (ok tt, set_delivery message_id recipient (λ x. record x { state = to }) s)
      else (err internal, s)
]

abbrev pub lapsed : ℕ → Delivery → Bool
lapsed now d = is_claimed d.state && elim d.lease_until [ none ↦ false | some t ↦ leb t now ]

abbrev pub due : ℕ → Delivery → Bool
due now d = is_queued d.state && leb d.next_retry_at now

-- deliveries d JOIN envelopes e ON e.message_id = d.envelope_id, for the rows of the test
unfoldable pub join : (Delivery → Bool) → List Envelope → List Delivery → List (Envelope × String)
join p envelopes [] = []
join p envelopes (d ∷ ds) =
    let rest = join p envelopes ds in
    if p d
    then elim (find (has_id d.envelope_id) envelopes) [
      | none ↦ rest
      | some e ↦ (e, d.recipient) ∷ rest
    ]
    else rest

-- The loop over the rows that the query returned.
unfoldable pub claim_rows : ℕ → List (Envelope × String) → List Delivery → List Delivery
claim_rows until [] ds = ds
claim_rows until ((e, recipient) ∷ rows) ds = claim_rows until rows (
    update (is_delivery e.message_id recipient)
      (λ d. record d { state = claimed; lease_until = some until }) ds)

abbrev pub release_lapsed : ℕ → List Delivery → List Delivery
release_lapsed now = update (lapsed now) (λ d. record d { state = queued; lease_until = none })

unfoldable pub claim_due : ℕ → ℕ → ℕ → Store → List (Envelope × String) × Store
unfolding join claim_rows
claim_due now lease_secs max s =
    let released = release_lapsed now s.deliveries in
    let rows = take max (join (due now) s.envelopes released) in
    (rows, record s { deliveries = claim_rows (now + lease_secs) rows released })

abbrev pub u64_mod : ℕ
u64_mod = 2 ^ 64

-- `base.checked_shl(k).unwrap_or(u64::MAX)`: a shift of 64 or more is refused, and a smaller one drops
-- the bits above the word.
unfoldable pub shifted : ℕ → ℕ → ℕ
shifted base k = if ltb k 64 then base * 2 ^ k % u64_mod else u64_mod - 1

unfoldable pub backoff_delay : ℕ → ℕ → ℕ → ℕ
unfolding shifted
backoff_delay base cap new_attempts = min cap (shifted base (new_attempts - 1))

-- The attempts are below 2^32 - 1 and the next time below 2^63, so that the words hold them.
unfoldable pub record_attempt_failure :
    ℕ → ℕ → String → String → ℕ → ℕ → ℕ → Store → Result Bool × Store
unfolding backoff_delay
record_attempt_failure now jitter message_id recipient max_attempts base cap s =
    elim (find (is_delivery message_id recipient) s.deliveries) [
      | none ↦ (err internal, s)
      | some d ↦
          let new_attempts = d.attempts + 1 in
          if leb max_attempts new_attempts
          then (
            ok true,
            set_delivery message_id recipient
                (λ x. record x { state = failed; attempts = new_attempts }) s,
          )
          else (
            ok false,
            set_delivery message_id recipient
                (λ x. record x {
                  state = queued;
                  attempts = new_attempts;
                  lease_until = none;
                  next_retry_at = now + backoff_delay base cap new_attempts + jitter;
                })
                s,
          )
    ]

abbrev pub expires_by : String → List Envelope → Delivery → Bool
expires_by now envelopes d = elim (find (has_id d.envelope_id) envelopes) [
  | none ↦ false
  | some e ↦ text_leb e.expires_at now
]

-- Of the rows that the query returns, those whose state may still expire: `queued` and `claimed`.
abbrev may_expire : Delivery → Bool
may_expire d = transition_allowed d.state expired

abbrev pub in_flight : DeliveryState → Bool
in_flight delivered = true
in_flight s = is_pending s

abbrev pub expiring : String → List Envelope → Delivery → Bool
expiring now envelopes d = in_flight d.state && expires_by now envelopes d && may_expire d

unfoldable pub expire_rows : List (String × String) → List Delivery → List Delivery
expire_rows [] ds = ds
expire_rows ((mid, recipient) ∷ rows) ds =
    expire_rows rows (update (is_delivery mid recipient) (λ d. record d { state = expired }) ds)

unfoldable pub expire_due : String → Store → List (String × String) × Store
unfolding expire_rows transition_allowed
expire_due now s =
    let out =
      map (λ d. (d.envelope_id, d.recipient)) (select (expiring now s.envelopes) s.deliveries) in
    (out, record s { deliveries = expire_rows out s.deliveries })

-- ORDER BY e.seq ASC. SQL leaves the order of equal sequence numbers open; here it is that of the rows.
unfoldable pub insert_by_seq : Envelope → List Envelope → List Envelope
insert_by_seq e [] = e ∷ []
insert_by_seq e (f ∷ fs) =
    let later = insert_by_seq e fs in if leb e.seq f.seq then e ∷ f ∷ fs else f ∷ later

unfoldable pub sort_by_seq : List Envelope → List Envelope
unfolding insert_by_seq
sort_by_seq [] = []
sort_by_seq (e ∷ es) = insert_by_seq e (sort_by_seq es)

unfoldable pub mark_delivered : String → List Envelope → List Delivery → List Delivery
mark_delivered recipient [] ds = ds
mark_delivered recipient (e ∷ es) ds = mark_delivered recipient es (
    update (is_delivery e.message_id recipient)
      (λ d. record d { state = delivered; lease_until = none }) ds)

unfoldable pub inbox : String → ℕ → Store → (List Envelope × Bool) × Store
unfolding join sort_by_seq mark_delivered
inbox recipient limit s =
    let found =
      map (λ (row : Envelope × String). row.0)
        (join (λ d. d.recipient == recipient && is_pending d.state) s.envelopes s.deliveries) in
    let rows = take (limit + 1) (sort_by_seq found) in
    let chosen = take limit rows in
    (
      (chosen, ltb limit (length rows)),
      record s { deliveries = mark_delivered recipient chosen s.deliveries },
    )
