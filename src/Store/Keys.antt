-- ===== src/Store/Keys.antt =====
-- crates/crewd-core/src/store.rs: PRIMARY KEY (envelope_id, recipient) of the deliveries, and what
-- expire_due does to a delivery.
use mcp_crewd_rs.Base.{
  ℕ, ◌+◌, ◌≤◌, String, ◌≡◌, refl, ◌∙◌, inl, inr, Bool, true, not, none, List, [], ◌∷◌, ◌++◌, arith,
  eq_iff, Bool-cases, Option-cases, select, count, find, update, count-append, count-update,
}
use mcp_crewd_rs.Types.{Envelope}
use mcp_crewd_rs.Delivery.{DeliveryState, queued, failed}
use mcp_crewd_rs.Store.Tables.{Store, Delivery, create_schema}
use mcp_crewd_rs.Store.Deliveries.{
  lapsed, fresh_delivery, is_delivery, release_lapsed, claim_rows, claim_due, mark_delivered, inbox,
  insert_delivery, insert_envelope, next_seq, transition, record_attempt_failure, expire_rows,
  expire_due, backoff_delay,
}
use mcp_crewd_rs.Store.Once.{same_delivery}

-- The calls that write the queue
pub data Step : Store → Store → Type 0 where
  stores : (e : Envelope) (s : Store) → Step s (insert_envelope e s)
  numbers : (from to : String) (s : Store) → Step s (next_seq from to s).1
  queues : (m r : String) (s : Store) → Step s (insert_delivery m r s)
  moves : (m r : String) (to : DeliveryState) (s : Store) → Step s (transition m r to s).1
  claims : (now lease_secs max : ℕ) (s : Store) → Step s (claim_due now lease_secs max s).1
  fails :
      (now jitter : ℕ) (m r : String) (max_attempts base cap : ℕ) (s : Store)
      → Step s (record_attempt_failure now jitter m r max_attempts base cap s).1
  expires : (now : String) (s : Store) → Step s (expire_due now s).1
  reads : (r : String) (limit : ℕ) (s : Store) → Step s (inbox r limit s).1

-- The stores that such calls make of an empty one
pub data Reach : Store → Type 0 where
  created : Reach create_schema
  step : {s t : Store} → Reach s → Step s t → Reach t

count-select_le : {A : Type 0} (q p : A → Bool) (xs : List A) → count q (select p xs) ≤ count q xs
count-select_le q p [] = omega arith
count-select_le q p (x ∷ xs) = ground (arith, count-select_le q p xs)

count-select-not :
    {A : Type 0} (q p : A → Bool) (xs : List A)
    → ((x : A) → q x ≡ true → p x ≡ true)
    → count q (select (λ x. not (p x)) xs) ≡ 0
count-select-not q p [] h = refl
count-select-not q p (x ∷ xs) h = ground (arith, count-select-not q p xs h, h x)

abbrev Keyed : String → String → List Delivery → Type 0
Keyed m r ds = count (is_delivery m r) ds ≤ 1

claim_rows-Keyed :
    (m r : String) (until : ℕ) (rows : List (Envelope × String)) (ds : List Delivery)
    → count (is_delivery m r) (claim_rows until rows ds) ≡ count (is_delivery m r) ds
unfolding claim_rows
claim_rows-Keyed m r until [] ds = refl
claim_rows-Keyed m r until ((e, q) ∷ rows) ds =
    claim_rows-Keyed m r until rows _
    ∙ count-update (is_delivery m r) (is_delivery e.message_id q) _ ds (λ d k. refl)

mark_delivered-Keyed :
    (m r q : String) (es : List Envelope) (ds : List Delivery)
    → count (is_delivery m r) (mark_delivered q es ds) ≡ count (is_delivery m r) ds
unfolding mark_delivered
mark_delivered-Keyed m r q [] ds = refl
mark_delivered-Keyed m r q (e ∷ es) ds =
    mark_delivered-Keyed m r q es _
    ∙ count-update (is_delivery m r) (is_delivery e.message_id q) _ ds (λ d k. refl)

expire_rows-Keyed :
    (m r : String) (rows : List (String × String)) (ds : List Delivery)
    → count (is_delivery m r) (expire_rows rows ds) ≡ count (is_delivery m r) ds
unfolding expire_rows
expire_rows-Keyed m r [] ds = refl
expire_rows-Keyed m r ((n, q) ∷ rows) ds =
    expire_rows-Keyed m r rows _
    ∙ count-update (is_delivery m r) (is_delivery n q) _ ds (λ d k. refl)

-- A statement that writes a row's other columns keeps the keys.
set-Keyed :
    (m r n q : String) (f : Delivery → Delivery) (ds : List Delivery)
    → ((d : Delivery) → (f d).envelope_id ≡ d.envelope_id)
    → ((d : Delivery) → (f d).recipient ≡ d.recipient)
    → count (is_delivery m r) (update (is_delivery n q) f ds) ≡ count (is_delivery m r) ds
set-Keyed m r n q f ds h k =
    count-update (is_delivery m r) (is_delivery n q) f ds (λ d l. ground (arith, h d, k d))

insert_delivery-Keyed :
    (m r n q : String) (ds : List Delivery)
    → Keyed m r ds
    → Keyed m r (select (λ d. not (is_delivery n q d)) ds ++ fresh_delivery n q ∷ [])
insert_delivery-Keyed m r n q ds h = elim (Bool-cases (is_delivery m r (fresh_delivery n q))) [
  | inl e ↦ ground (
    arith,
    e,
    count-append (is_delivery m r) (select (λ d. not (is_delivery n q d)) ds)
        (fresh_delivery n q ∷ []),
    count-select-not (is_delivery m r) (is_delivery n q) ds
        (λ d k. ground (arith, e, k, eq_iff n m, eq_iff q r, same_delivery m r n q d)),
  )
  | inr e ↦ ground (
    arith,
    e,
    count-append (is_delivery m r) (select (λ d. not (is_delivery n q d)) ds)
        (fresh_delivery n q ∷ []),
    count-select_le (is_delivery m r) (λ d. not (is_delivery n q d)) ds,
  )
]

Step-Keyed :
    (m r : String) {s t : Store} → Step s t → Keyed m r s.deliveries → Keyed m r t.deliveries
unfolding insert_envelope next_seq insert_delivery transition claim_due record_attempt_failure
    expire_due inbox
Step-Keyed m r (stores e s) h = h
Step-Keyed m r (numbers from to s) h = ground (arith, h)
Step-Keyed m r (queues n q s) h = insert_delivery-Keyed m r n q s.deliveries h
Step-Keyed m r (moves n q to s) h = ground (
  arith,
  h,
  set-Keyed m r n q (λ x. record x { state = to }) s.deliveries (λ d. refl) (λ d. refl),
)
Step-Keyed m r (claims now lease_secs max s) h = omega (
  arith,
  h,
  claim_rows-Keyed m r (now + lease_secs) (claim_due now lease_secs max s).0
      (release_lapsed now s.deliveries),
  count-update (is_delivery m r) (lapsed now) (λ d. record d { state = queued; lease_until = none })
      s.deliveries (λ d k. refl),
)
Step-Keyed m r (fails now jitter n q max_attempts base cap s) h =
    elim (Option-cases (find (is_delivery n q) s.deliveries)) [
      | inl e ↦ ground (arith, e, h)
      | inr (d, e) ↦ ground (
        arith,
        e,
        h,
        set-Keyed m r n q (λ x. record x { state = failed; attempts = d.attempts + 1 }) s.deliveries
            (λ d. refl) (λ d. refl),
        set-Keyed m r n q
            (λ x. record x {
              state = queued;
              attempts = d.attempts + 1;
              lease_until = none;
              next_retry_at = now + backoff_delay base cap (d.attempts + 1) + jitter;
            })
            s.deliveries (λ d. refl) (λ d. refl),
      )
    ]
Step-Keyed m r (expires now s) h =
    omega (arith, h, expire_rows-Keyed m r (expire_due now s).0 s.deliveries)
Step-Keyed m r (reads q limit s) h =
    omega (arith, h, mark_delivered-Keyed m r q (inbox q limit s).0.0 s.deliveries)

-- In every store that the calls on the queue make of an empty one, at most one delivery row stands for
-- a message and a recipient.
pub Reach-Keyed : {s : Store} (m r : String) → Reach s → count (is_delivery m r) s.deliveries ≤ 1
Reach-Keyed m r created = omega arith
Reach-Keyed m r (step w k) = Step-Keyed m r k (Reach-Keyed m r w)
