-- ===== src/Store/Expiry.antt =====
-- crates/crewd-core/src/store.rs, expire_due: which deliveries expire.
use mcp_crewd_rs.Base.{
  any-only, String, ◌≡◌, refl, ap, ◌∙◌, inl, inr, Bool, false, ◌&&◌, some, List, [], ◌∷◌, map,
  arith, ◌==◌, eq_iff, if◌then◌else◌, Bool-cases, select, find, update, any, find-update_ne,
  find-update_eq,
}
use mcp_crewd_rs.Error.{ok}
use mcp_crewd_rs.Delivery.{expired, transition_allowed}
use mcp_crewd_rs.Store.Tables.{Store, Delivery}
use mcp_crewd_rs.Store.Deliveries.{
  is_delivery, is_pending, expire_rows, expire_due, expires_by, expiring, delivery_state,
}
use mcp_crewd_rs.Store.Queue.{other_delivery}
use mcp_crewd_rs.Store.Keys.{Reach, Reach-Keyed}

abbrev is_key : String → String → String × String → Bool
is_key m r row = row.0 == m && row.1 == r

update-same :
    (n q m r : String) (ds : List Delivery) (d : Delivery)
    → n ≡ m
    → q ≡ r
    → find (is_delivery m r) ds ≡ some d
    → find (is_delivery m r) (update (is_delivery n q) (λ x. record x { state = expired }) ds)
      ≡ some (record d { state = expired })
update-same n q m r ds d h k e =
    ap
      (λ x.
        find (is_delivery m r) (update (is_delivery x q) (λ x. record x { state = expired }) ds))
      h
    ∙ ap
        (λ x.
          find (is_delivery m r) (update (is_delivery m x) (λ x. record x { state = expired }) ds))
        k
    ∙ find-update_eq (is_delivery m r) (λ x. record x { state = expired }) ds d (λ x l. l) e

other : (n q m r : String) → (n == m && q == r) ≡ false → (m == n && r == q) ≡ false
other n q m r h = ground (arith, eq_iff n m, eq_iff q r, eq_iff m n, eq_iff r q)

expire_rows-find :
    (m r : String) (rows : List (String × String)) (ds : List Delivery) (d : Delivery)
    → find (is_delivery m r) ds ≡ some d
    → find (is_delivery m r) (expire_rows rows ds)
      ≡ some (if any (is_key m r) rows then record d { state = expired } else d)
unfolding expire_rows
expire_rows-find m r [] ds d h = h
expire_rows-find m r ((n, q) ∷ rows) ds d h = elim (Bool-cases (is_key m r (n, q))) [
  | inl e ↦ ground (
    arith,
    e,
    expire_rows-find m r rows (update (is_delivery n q) (λ x. record x { state = expired }) ds)
        (record d { state = expired })
        (update-same n q m r ds d (ground (arith, e, eq_iff n m)) (ground (arith, e, eq_iff q r))
          h),
  )
  | inr e ↦ ground (
    arith,
    e,
    expire_rows-find m r rows (update (is_delivery n q) (λ x. record x { state = expired }) ds) d (
        find-update_ne (is_delivery m r) (is_delivery n q) _ ds
          (λ x k. ground (arith, other_delivery n q m r (other n q m r e) x k))
          (λ x k. other_delivery n q m r (other n q m r e) x k)
        ∙ h),
  )
]

any-expiring :
    (m r : String) (p : Delivery → Bool) (ds : List Delivery)
    → any (is_key m r) (map (λ (d : Delivery). (d.envelope_id, d.recipient)) (select p ds))
      ≡ any (λ d. p d && is_delivery m r d) ds
any-expiring m r p [] = refl
any-expiring m r p (d ∷ ds) = ground (arith, any-expiring m r p ds)

-- In a store that the calls on the queue reach, a delivery that is there is `expired` afterwards when
-- it was queued or claimed and its envelope's `expires_at` has come, and else it is as it was.
pub expire_due_lem :
    (now m r : String) (s : Store) (d : Delivery)
    → Reach s
    → find (is_delivery m r) s.deliveries ≡ some d
    → delivery_state m r (expire_due now s).1
      ≡ ok (if is_pending d.state && expires_by now s.envelopes d then expired else d.state)
unfolding expire_due delivery_state transition_allowed
expire_due_lem now m r s d w h =
    let gone = any (is_key m r) (expire_due now s).0 in
    ground (
      arith,
      expire_rows-find m r (expire_due now s).0 s.deliveries d h,
      any-expiring m r (expiring now s.envelopes) s.deliveries,
      any-only (expiring now s.envelopes) (is_delivery m r) s.deliveries d (Reach-Keyed m r w) h,
    )
