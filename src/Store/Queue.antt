-- ===== src/Store/Queue.antt =====
-- crates/crewd-core/src/store.rs: a delivery's moves in the queue (transition, record_attempt_failure).
use mcp_crewd_rs.Base.{
  subst, ℕ, suc, ◌+◌, ◌-◌, ◌*◌, ◌%◌, ◌^◌, ◌≤◌, ◌<◌, min, String, ◌≡◌, refl, ◌⊎◌, inl, inr, true,
  false, ◌&&◌, none, some, arith, ◌==◌, eq_iff, Bool-cases, Option-cases, find, find-update_ne,
  find-update_eq,
}
use mcp_crewd_rs.Error.{ok, err, internal}
use mcp_crewd_rs.Delivery.{DeliveryState, queued, failed, transition_allowed}
use mcp_crewd_rs.Store.Tables.{Store, Delivery}
use mcp_crewd_rs.Store.Deliveries.{
  is_delivery, delivery_state, set_delivery, transition, shifted, backoff_delay,
  record_attempt_failure,
}

pub other_delivery :
    (m r n q : String)
    → (n == m && q == r) ≡ false
    → (d : Delivery) → is_delivery m r d ≡ true
    → is_delivery n q d ≡ false
other_delivery m r n q h d e = elim (Bool-cases (is_delivery n q d)) [
  | inr k ↦ k
  | inl k ↦ ground (
    arith,
    eq_iff d.envelope_id m,
    eq_iff d.recipient r,
    eq_iff d.envelope_id n,
    eq_iff d.recipient q,
    eq_iff n m,
    eq_iff q r,
  )
]

-- A statement that writes one delivery leaves the others as they are found.
pub find-set_delivery_ne :
    (m r n q : String) (f : Delivery → Delivery) (s : Store)
    → ((d : Delivery) → (f d).envelope_id ≡ d.envelope_id)
    → ((d : Delivery) → (f d).recipient ≡ d.recipient)
    → (n == m && q == r) ≡ false
    → find (is_delivery n q) (set_delivery m r f s).deliveries ≡ find (is_delivery n q) s.deliveries
find-set_delivery_ne m r n q f s keep_id keep_recipient h =
    find-update_ne (is_delivery n q) (is_delivery m r) f s.deliveries
      (λ d e. ground (arith, keep_id d, keep_recipient d, other_delivery m r n q h d e))
      (λ d e. other_delivery m r n q h d e)

pub find-set_delivery_eq :
    (m r : String) (f : Delivery → Delivery) (s : Store) (d : Delivery)
    → ((x : Delivery) → (f x).envelope_id ≡ x.envelope_id)
    → ((x : Delivery) → (f x).recipient ≡ x.recipient)
    → find (is_delivery m r) s.deliveries ≡ some d
    → find (is_delivery m r) (set_delivery m r f s).deliveries ≡ some (f d)
find-set_delivery_eq m r f s d keep_id keep_recipient e =
    find-update_eq (is_delivery m r) f s.deliveries d
      (λ x k. ground (arith, keep_id x, keep_recipient x)) e

-- Of a delivery that is there in state `from`: the call succeeds exactly when the table allows the
-- edge, the delivery is then in the new state, and otherwise the store is what it was. Another
-- delivery's state stays.
pub transition_lem :
    (m r n q : String) (from to : DeliveryState) (s : Store)
    → delivery_state m r s ≡ ok from
    → (n == m && q == r) ≡ false
    → (((transition_allowed from to ≡ true)
          × ((transition m r to s).0 ≡ ok tt)
          × (delivery_state m r (transition m r to s).1 ≡ ok to))
        ⊎ ((transition_allowed from to ≡ false) × (transition m r to s ≡ (err internal, s))))
      × (delivery_state n q (transition m r to s).1 ≡ delivery_state n q s)
unfolding transition delivery_state
transition_lem m r n q from to s h k = elim (Option-cases (find (is_delivery m r) s.deliveries)) [
  | inl e ↦ absurd (ground (arith, h, e))
  | inr (d, e) ↦
      let set = λ (x : Delivery). record x { state = to } in
      let own = find-set_delivery_eq m r set s d (λ x. refl) (λ x. refl) e in
      let other = find-set_delivery_ne m r n q set s (λ x. refl) (λ x. refl) k in
      ground (arith, h, e, own, other)
]

mod_word : (x : ℕ) → x < 2 ^ 64 → x % 2 ^ 64 ≡ x
mod_word x h = omega arith

-- The delay of the attempt after `n` others, where the product fits in a word
backoff_delay-suc :
    (base most n : ℕ)
    → base * 2 ^ n < 2 ^ 64
    → n < 64
    → backoff_delay base most (suc n) ≡ min most (base * 2 ^ n)
unfolding backoff_delay shifted
backoff_delay-suc base most n fits few =
    let before : suc n - 1 ≡ n = omega arith in
    rw before (ground (arith, mod_word (base * 2 ^ n) fits))

-- Both branches, with the delay as the code computes it
pub record_attempt_failure-cases :
    (now jitter max_attempts base cap : ℕ) (m r n q : String) (s : Store) (d : Delivery)
    → find (is_delivery m r) s.deliveries ≡ some d
    → (n == m && q == r) ≡ false
    → let after = record_attempt_failure now jitter m r max_attempts base cap s in
      (((max_attempts ≤ suc d.attempts)
          × (after.0 ≡ ok true)
          × (find (is_delivery m r) after.1.deliveries
              ≡ some (record d { state = failed; attempts = suc d.attempts })))
        ⊎ ((suc d.attempts < max_attempts)
            × (after.0 ≡ ok false)
            × (find (is_delivery m r) after.1.deliveries
                ≡ some (record d {
                  state = queued;
                  attempts = suc d.attempts;
                  lease_until = none;
                  next_retry_at = now + backoff_delay base cap (suc d.attempts) + jitter;
                }))))
      × (find (is_delivery n q) after.1.deliveries ≡ find (is_delivery n q) s.deliveries)
unfolding record_attempt_failure
record_attempt_failure-cases now jitter max_attempts base cap m r n q s d e k =
    let f = λ (x : Delivery). record x { state = failed; attempts = suc d.attempts } in
    let g = λ (x : Delivery). record x {
      state = queued;
      attempts = suc d.attempts;
      lease_until = none;
      next_retry_at = now + backoff_delay base cap (suc d.attempts) + jitter;
    } in
    ground (
      arith,
      e,
      find-set_delivery_eq m r f s d (λ x. refl) (λ x. refl) e,
      find-set_delivery_eq m r g s d (λ x. refl) (λ x. refl) e,
      find-set_delivery_ne m r n q f s (λ x. refl) (λ x. refl) k,
      find-set_delivery_ne m r n q g s (λ x. refl) (λ x. refl) k,
    )

-- A failed attempt on a delivery that is there, the n-th after n - 1 others, is the last when n reaches
-- the attempts allowed: the answer is true and the delivery is failed. Before, the answer is false and the
-- delivery is queued again without a lease, to be retried after `base * 2 ^ (n - 1)` seconds, the
-- cap at most, and the jitter; this for n up to 64 and a product that fits in 64 bits. Either way the attempts
-- are n, and another delivery stays as it is.
pub record_attempt_failure_lem :
    (now jitter max_attempts base cap : ℕ) (m r n q : String) (s : Store) (d : Delivery)
    → find (is_delivery m r) s.deliveries ≡ some d
    → (n == m && q == r) ≡ false
    → d.attempts < 64
    → base * 2 ^ d.attempts < 2 ^ 64
    → let after = record_attempt_failure now jitter m r max_attempts base cap s in
      (((max_attempts ≤ suc d.attempts)
          × (after.0 ≡ ok true)
          × (find (is_delivery m r) after.1.deliveries
              ≡ some (record d { state = failed; attempts = suc d.attempts })))
        ⊎ ((suc d.attempts < max_attempts)
            × (after.0 ≡ ok false)
            × (find (is_delivery m r) after.1.deliveries
                ≡ some (record d {
                  state = queued;
                  attempts = suc d.attempts;
                  lease_until = none;
                  next_retry_at = now + min cap (base * 2 ^ d.attempts) + jitter;
                }))))
      × (find (is_delivery n q) after.1.deliveries ≡ find (is_delivery n q) s.deliveries)
record_attempt_failure_lem now jitter max_attempts base cap m r n q s d e k few fits =
    let facts = record_attempt_failure-cases now jitter max_attempts base cap m r n q s d e k in
    let delay : backoff_delay base cap (suc d.attempts) ≡ min cap (base * 2 ^ d.attempts) =
      backoff_delay-suc base cap d.attempts fits few in
    subst
      (λ x.
        let after = record_attempt_failure now jitter m r max_attempts base cap s in
        (((max_attempts ≤ suc d.attempts)
            × (after.0 ≡ ok true)
            × (find (is_delivery m r) after.1.deliveries
                ≡ some (record d { state = failed; attempts = suc d.attempts })))
          ⊎ ((suc d.attempts < max_attempts)
              × (after.0 ≡ ok false)
              × (find (is_delivery m r) after.1.deliveries
                  ≡ some (record d {
                    state = queued;
                    attempts = suc d.attempts;
                    lease_until = none;
                    next_retry_at = now + x + jitter;
                  }))))
        × (find (is_delivery n q) after.1.deliveries ≡ find (is_delivery n q) s.deliveries))
      delay facts
