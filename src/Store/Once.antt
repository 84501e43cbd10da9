-- ===== src/Store/Once.antt =====
-- crates/crewd-core/src/store.rs: what claim_due hands out.
use mcp_crewd_rs.Base.{
  eqb_iff, ℕ, zero, suc, ◌+◌, ◌<◌, String, ◌≡◌, refl, ap, ◌∙◌, inl, inr, Bool, true, false, not,
  ◌&&◌, ◌||◌, none, some, List, [], ◌∷◌, arith, ◌==◌, eq_iff, eqb, Bool-cases, Option-cases, take,
  find, update, any, all, find-test,
}
use mcp_crewd_rs.Types.{Envelope}
use mcp_crewd_rs.Delivery.{queued}
use mcp_crewd_rs.Store.Tables.{Store, Delivery}
use mcp_crewd_rs.Store.Deliveries.{
  has_id, is_delivery, is_claimed, lapsed, due, release_lapsed, join, claim_rows, claim_due,
}

-- The row that hands message `m` to recipient `r`
abbrev pub is_row : String → String → Envelope × String → Bool
is_row m r row = row.0.message_id == m && row.1 == r

module _ {A : Type 0} (p : A → Bool) where
  pub any-take : (n : ℕ) (xs : List A) → any p xs ≡ false → any p (take n xs) ≡ false
  any-take zero xs h = refl
  any-take (suc n) [] h = refl
  any-take (suc n) (x ∷ xs) h = ground (arith, any-take n xs)

  pub all-update :
      (q : A → Bool) (f : A → A) (xs : List A)
      → ((x : A) → q x ≡ true → p x ≡ true → p (f x) ≡ true)
      → all p xs ≡ true
      → all p (update q f xs) ≡ true
  all-update q f [] h k = refl
  all-update q f (x ∷ xs) h k = ground (arith, all-update q f xs h, h x)

  pub all-update_new :
      (q : A → Bool) (f : A → A) (xs : List A)
      → ((x : A) → q x ≡ true → p (f x) ≡ true)
      → ((x : A) → q x ≡ false → p x ≡ true)
      → all p (update q f xs) ≡ true
  all-update_new q f [] h k = refl
  all-update_new q f (x ∷ xs) h k = ground (arith, all-update_new q f xs h k, h x, k x)

  pub all_imp :
      (q : A → Bool) (xs : List A)
      → ((x : A) → p x ≡ true → q x ≡ true)
      → all p xs ≡ true
      → all q xs ≡ true
  all_imp q [] h k = refl
  all_imp q (x ∷ xs) h k = ground (arith, all_imp q xs h, h x)

pub has_id-is_row :
    (m r : String) (envelopes : List Envelope) (d : Delivery) (e : Envelope)
    → find (has_id d.envelope_id) envelopes ≡ some e
    → is_row m r (e, d.recipient) ≡ true
    → is_delivery m r d ≡ true
has_id-is_row m r envelopes d e h k = ground (
  arith,
  find-test (has_id d.envelope_id) envelopes e h,
  eq_iff e.message_id d.envelope_id,
  eq_iff e.message_id m,
  eq_iff d.envelope_id m,
)

-- A query that leaves the delivery out does not return it.
pub join_without :
    (m r : String) (p : Delivery → Bool) (envelopes : List Envelope) (ds : List Delivery)
    → all (λ d. not (p d && is_delivery m r d)) ds ≡ true
    → any (is_row m r) (join p envelopes ds) ≡ false
unfolding join
join_without m r p envelopes [] h = refl
join_without m r p envelopes (d ∷ ds) h =
    elim (Option-cases (find (has_id d.envelope_id) envelopes)) [
      | inl e ↦ ground (arith, e, join_without m r p envelopes ds)
      | inr (x, e) ↦
          ground (arith, e, join_without m r p envelopes ds, has_id-is_row m r envelopes d x e)
    ]

-- Every row of the delivery is claimed until `until`.
held : ℕ → String → String → Delivery → Bool
held until m r d =
    not (is_delivery m r d)
    || (is_claimed d.state && elim d.lease_until [ none ↦ false | some t ↦ eqb t until ])

claim_rows-keeps :
    (until : ℕ) (m r : String) (rows : List (Envelope × String)) (ds : List Delivery)
    → all (held until m r) ds ≡ true
    → all (held until m r) (claim_rows until rows ds) ≡ true
unfolding claim_rows held
claim_rows-keeps until m r [] ds h = h
claim_rows-keeps until m r ((e, q) ∷ rows) ds h =
    claim_rows-keeps until m r rows _
      (all-update (held until m r) (is_delivery e.message_id q) _ ds (λ d k l. ground arith) h)

pub same_delivery :
    (n q m r : String) (d : Delivery) → n ≡ m → q ≡ r → is_delivery n q d ≡ is_delivery m r d
same_delivery n q m r d h k = ap (λ x. is_delivery x q d) h ∙ ap (λ x. is_delivery m x d) k

claim_rows-held :
    (until : ℕ) (m r : String) (rows : List (Envelope × String)) (ds : List Delivery)
    → any (is_row m r) rows ≡ true
    → all (held until m r) (claim_rows until rows ds) ≡ true
unfolding claim_rows held
claim_rows-held until m r [] ds h = absurd (cc)
claim_rows-held until m r ((e, q) ∷ rows) ds h = elim (Bool-cases (is_row m r (e, q))) [
  | inl k ↦ claim_rows-keeps until m r rows _ (
      all-update_new (held until m r) (is_delivery e.message_id q) _ ds
        (λ d l. ground (arith, eqb_iff until until))
        (λ d l.
          ground
            (arith, k, l, eq_iff e.message_id m, eq_iff q r, same_delivery e.message_id q m r d)))
  | inr k ↦ claim_rows-held until m r rows _ (ground arith)
]

held-not-due :
    (until now : ℕ) (m r : String) (ds : List Delivery)
    → now < until
    → all (held until m r) ds ≡ true
    → all (λ d. not (due now d && is_delivery m r d)) (release_lapsed now ds) ≡ true
unfolding held
held-not-due until now m r ds l h =
    all_imp (held until m r) (λ d. not (due now d && is_delivery m r d)) (release_lapsed now ds)
      (λ d k. held_due d k)
      (all-update (held until m r) (lapsed now) _ ds (λ d k x. held_lapsed d k x) h)
  where
    held_due :
        (d : Delivery) → held until m r d ≡ true → not (due now d && is_delivery m r d) ≡ true
    held_due d k = ground arith

    held_lapsed :
        (d : Delivery)
        → lapsed now d ≡ true
        → held until m r d ≡ true
        → held until m r (record d { state = queued; lease_until = none }) ≡ true
    held_lapsed d k x = ground (arith, Option-cases d.lease_until)

-- A delivery that a claim hands out is not handed out by the next claim before its lease ends.
pub claim_due_once :
    (m r : String) (now lease_secs max now_2 lease_secs_2 max_2 : ℕ) (s : Store)
    → any (is_row m r) (claim_due now lease_secs max s).0 ≡ true
    → now_2 < now + lease_secs
    → any (is_row m r) (claim_due now_2 lease_secs_2 max_2 (claim_due now lease_secs max s).1).0
      ≡ false
unfolding claim_due
claim_due_once m r now lease_secs max now_2 lease_secs_2 max_2 s h l =
    let ds = release_lapsed now s.deliveries in
    let rows = take max (join (due now) s.envelopes ds) in
    any-take (is_row m r) max_2 _ (
      join_without m r (due now_2) s.envelopes
        (release_lapsed now_2 (claim_rows (now + lease_secs) rows ds))
        (held-not-due (now + lease_secs) now_2 m r (claim_rows (now + lease_secs) rows ds) l
          (claim_rows-held (now + lease_secs) m r rows ds h)))
