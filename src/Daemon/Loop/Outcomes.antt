-- ===== src/Daemon/Loop/Outcomes.antt =====
-- What an outcome makes of a claimed delivery, in crates/crewd/src/delivery.rs.
use mcp_crewd_rs.Base.{
  ℕ, suc, String, ◌≡◌, refl, sym, subst, inl, inr, Bool, true, false, ◌&&◌, some, arith, ◌==◌, leb,
  if◌then◌else◌, Bool-cases, find,
}
use mcp_crewd_rs.Error.{Result, ok}
use mcp_crewd_rs.Delivery.{
  DeliveryState, DeliveryOutcome, outcome_to_state, transition_allowed, queued, claimed, failed,
  transient_failure, permanent_failure, not_ready,
}
use mcp_crewd_rs.Store.Tables.{Store, Delivery}
use mcp_crewd_rs.Store.Deliveries.{is_delivery, delivery_state, transition, record_attempt_failure}
use mcp_crewd_rs.Daemon.{World, DaemonState, audit, audit_best_effort}
use mcp_crewd_rs.Daemon.Loop.{LoopConfig, apply_outcome, attempt_failed, exhausted}
use mcp_crewd_rs.Store.Queue.{transition_lem, record_attempt_failure-cases}

unfoldable pub state_after : ℕ → ℕ → DeliveryOutcome → DeliveryState
state_after max_attempts attempts DeliveryOutcome.delivered = DeliveryState.delivered
state_after max_attempts attempts DeliveryOutcome.acked = claimed
state_after max_attempts attempts permanent_failure = failed
state_after max_attempts attempts transient_failure =
    if leb max_attempts (suc attempts) then failed else queued
state_after max_attempts attempts not_ready = claimed

claimed_row :
    (m r : String) (row : Delivery) (s : Store)
    → find (is_delivery m r) s.deliveries ≡ some row
    → row.state ≡ claimed
    → delivery_state m r s ≡ ok claimed
unfolding delivery_state
claimed_row m r row s e c = ground (arith, e, c)

moved_on :
    (m r n q : String) (to : DeliveryState) (row : Delivery) (s : Store)
    → find (is_delivery m r) s.deliveries ≡ some row
    → row.state ≡ claimed
    → (n == m && q == r) ≡ false
    → transition_allowed claimed to ≡ true
    → (delivery_state m r (transition m r to s).1 ≡ ok to)
      × (delivery_state n q (transition m r to s).1 ≡ delivery_state n q s)
moved_on m r n q to row s e c k allowed =
    ground (arith, allowed, transition_lem m r n q claimed to s (claimed_row m r row s e c) k)

stays :
    (m r n q : String) (to : DeliveryState) (row : Delivery) (s : Store)
    → find (is_delivery m r) s.deliveries ≡ some row
    → row.state ≡ claimed
    → (n == m && q == r) ≡ false
    → transition_allowed claimed to ≡ false
    → (delivery_state m r (transition m r to s).1 ≡ ok claimed)
      × (delivery_state n q (transition m r to s).1 ≡ delivery_state n q s)
stays m r n q to row s e c k refused =
    let own = claimed_row m r row s e c in
    ground (arith, refused, own, transition_lem m r n q claimed to s own k)

-- The store after a failed attempt; the audit leaves it alone.
abbrev attempted : LoopConfig → ℕ → ℕ → String → String → Store → Result Bool × Store
attempted cfg now jitter m r =
    record_attempt_failure now jitter m r cfg.max_attempts cfg.backoff_base_secs
      cfg.backoff_cap_secs

attempt_failed-store :
    (w : World) (cfg : LoopConfig) (now jitter : ℕ) (m r : String) (d : DaemonState)
    → (attempt_failed w cfg now jitter m r d).store ≡ (attempted cfg now jitter m r d.store).1
unfolding attempt_failed audit_best_effort audit
attempt_failed-store w cfg now jitter m r d =
    elim (Bool-cases (exhausted (attempted cfg now jitter m r d.store).0)) [
      | inl e ↦ rw e refl
      | inr e ↦ rw e refl
    ]

retried :
    (cfg : LoopConfig) (now jitter : ℕ) (m r n q : String) (row : Delivery) (s : Store)
    → find (is_delivery m r) s.deliveries ≡ some row
    → (n == m && q == r) ≡ false
    → let after = (attempted cfg now jitter m r s).1 in
      (delivery_state m r after ≡ ok (state_after cfg.max_attempts row.attempts transient_failure))
      × (delivery_state n q after ≡ delivery_state n q s)
unfolding delivery_state state_after
retried cfg now jitter m r n q row s e k =
    let facts =
      record_attempt_failure-cases now jitter cfg.max_attempts cfg.backoff_base_secs
        cfg.backoff_cap_secs m r n q s row e k in
    ground (arith, facts)

-- The outcome that an adapter gives a claimed delivery: a delivered one is delivered, a permanent failure
-- fails it, a transient one fails it from the last attempt allowed on and queues it again before, and
-- one not ready leaves it claimed. So does an acknowledgement, since the table has no edge from
-- `claimed` to `acked`; and another delivery's state stays as it is.
pub apply_outcome_lem :
    (w : World) (cfg : LoopConfig) (now jitter : ℕ) (m r n q : String) (outcome : DeliveryOutcome)
    (row : Delivery) (d : DaemonState)
    → find (is_delivery m r) d.store.deliveries ≡ some row
    → row.state ≡ claimed
    → (n == m && q == r) ≡ false
    → let after = (apply_outcome w cfg now jitter m r outcome d).store in
      (delivery_state m r after ≡ ok (state_after cfg.max_attempts row.attempts outcome))
      × (delivery_state n q after ≡ delivery_state n q d.store)
unfolding apply_outcome audit_best_effort audit outcome_to_state transition_allowed state_after
apply_outcome_lem w cfg now jitter m r n q DeliveryOutcome.delivered row d e c k =
    moved_on m r n q DeliveryState.delivered row d.store e c k refl
apply_outcome_lem w cfg now jitter m r n q DeliveryOutcome.acked row d e c k =
    stays m r n q DeliveryState.acked row d.store e c k refl
apply_outcome_lem w cfg now jitter m r n q permanent_failure row d e c k =
    moved_on m r n q failed row d.store e c k refl
apply_outcome_lem w cfg now jitter m r n q transient_failure row d e c k =
    subst
      (λ s.
        (delivery_state m r s ≡ ok (state_after cfg.max_attempts row.attempts transient_failure))
        × (delivery_state n q s ≡ delivery_state n q d.store))
      (sym (attempt_failed-store w cfg now jitter m r d))
      (retried cfg now jitter m r n q row d.store e k)
apply_outcome_lem w cfg now jitter m r n q not_ready row d e c k =
    (claimed_row m r row d.store e c, refl)
