-- ===== src/Store/Inbox.antt =====
-- crates/crewd-core/src/store.rs: what inbox hands out, and in which order.
use mcp_crewd_rs.Base.{
  ℕ, zero, suc, ◌+◌, ◌≤◌, min, String, ◌≡◌, refl, ap, ◌∙◌, inl, inr, Bool, true, false, not, ◌&&◌,
  List, [], ◌∷◌, map, arith, ◌==◌, eq_iff, ltb, leb, Bool-cases, Option-cases, length, take, find,
  any, all,
}
use mcp_crewd_rs.Types.{Envelope}
use mcp_crewd_rs.Store.Tables.{Store, Delivery}
use mcp_crewd_rs.Store.Deliveries.{
  has_id, is_delivery, is_pending, lapsed, due, release_lapsed, join, claim_due, sort_by_seq,
  insert_by_seq, mark_delivered, inbox,
}
use mcp_crewd_rs.Store.Once.{
  is_row, any-take, all-update, all-update_new, all_imp, has_id-is_row, join_without, same_delivery,
}

-- No row of the delivery is pending, claimed or queued.
taken : String → String → Delivery → Bool
taken m r d = not (is_delivery m r d && is_pending d.state)

mark_delivered-keeps :
    (m r q : String) (es : List Envelope) (ds : List Delivery)
    → all (taken m r) ds ≡ true
    → all (taken m r) (mark_delivered q es ds) ≡ true
unfolding mark_delivered taken
mark_delivered-keeps m r q [] ds h = h
mark_delivered-keeps m r q (e ∷ es) ds h =
    mark_delivered-keeps m r q es _
      (all-update (taken m r) (is_delivery e.message_id q) _ ds (λ d k l. ground arith) h)

mark_delivered-taken :
    (m r : String) (es : List Envelope) (ds : List Delivery)
    → any (has_id m) es ≡ true
    → all (taken m r) (mark_delivered r es ds) ≡ true
unfolding mark_delivered taken
mark_delivered-taken m r [] ds h = absurd (cc)
mark_delivered-taken m r (e ∷ es) ds h = elim (Bool-cases (has_id m e)) [
  | inl k ↦ mark_delivered-keeps m r r es _ (
      all-update_new (taken m r) (is_delivery e.message_id r) _ ds (λ d l. ground arith)
        (λ d l. ground (arith, k, l, eq_iff e.message_id m, same_delivery e.message_id r m r d)))
  | inr k ↦ mark_delivered-taken m r es _ (ground arith)
]

any-insert_by_seq :
    (p : Envelope → Bool) (e : Envelope) (es : List Envelope)
    → any p es ≡ false
    → p e ≡ false
    → any p (insert_by_seq e es) ≡ false
unfolding insert_by_seq
any-insert_by_seq p e [] h k = ground arith
any-insert_by_seq p e (f ∷ fs) h k = ground (arith, any-insert_by_seq p e fs)

any-sort_by_seq :
    (p : Envelope → Bool) (es : List Envelope) → any p es ≡ false → any p (sort_by_seq es) ≡ false
unfolding sort_by_seq
any-sort_by_seq p [] h = refl
any-sort_by_seq p (e ∷ es) h =
    any-insert_by_seq p e (sort_by_seq es) (any-sort_by_seq p es (ground arith)) (ground arith)

-- What a query for one recipient returns, without the recipient
any-inbox_rows :
    (m r : String) (p : Delivery → Bool) (envelopes : List Envelope) (ds : List Delivery)
    → all (λ d. not (d.recipient == r && p d && is_delivery m r d)) ds ≡ true
    → any (has_id m) (
        map (λ (row : Envelope × String). row.0) (join (λ d. d.recipient == r && p d) envelopes ds))
      ≡ false
unfolding join
any-inbox_rows m r p envelopes [] h = refl
any-inbox_rows m r p envelopes (d ∷ ds) h =
    elim (Option-cases (find (has_id d.envelope_id) envelopes)) [
      | inl e ↦ ground (arith, e, any-inbox_rows m r p envelopes ds)
      | inr (x, e) ↦
          ground (arith, e, any-inbox_rows m r p envelopes ds, has_id-is_row m r envelopes d x e)
    ]

abbrev after : String → String → ℕ → Store → List Delivery
after m r limit s = (inbox r limit s).1.deliveries

after-taken :
    (m r : String) (limit : ℕ) (s : Store)
    → any (has_id m) (inbox r limit s).0.0 ≡ true
    → all (taken m r) (after m r limit s) ≡ true
unfolding inbox
after-taken m r limit s h = mark_delivered-taken m r (inbox r limit s).0.0 s.deliveries h

-- A message that a read of the inbox hands to a recipient is handed out neither by the recipient's
-- next read nor by a claim.
pub inbox_once :
    (m r : String) (limit limit_2 now lease_secs max : ℕ) (s : Store)
    → any (has_id m) (inbox r limit s).0.0 ≡ true
    → (any (has_id m) (inbox r limit_2 (inbox r limit s).1).0.0 ≡ false)
      × (any (is_row m r) (claim_due now lease_secs max (inbox r limit s).1).0 ≡ false)
unfolding inbox claim_due taken
inbox_once m r limit limit_2 now lease_secs max s h = (
  any-take (has_id m) limit_2 _ (
      any-take (has_id m) (limit_2 + 1) _ (
        any-sort_by_seq (has_id m) _ (
          any-inbox_rows m r (λ d. is_pending d.state) s.envelopes (after m r limit s)
            (all_imp (taken m r)
              (λ d. not (d.recipient == r && is_pending d.state && is_delivery m r d))
              (after m r limit s) (λ d k. ground arith) (after-taken m r limit s h))))),
  any-take (is_row m r) max _ (
      join_without m r (due now) s.envelopes (release_lapsed now (after m r limit s)) (
        all_imp (taken m r) (λ d. not (due now d && is_delivery m r d))
          (release_lapsed now (after m r limit s)) (λ d k. ground arith)
          (all-update (taken m r) (lapsed now) _ (after m r limit s) (λ d k l. ground arith)
            (after-taken m r limit s h)))),
)

-- Sorted by sequence number
abbrev pub sorted : List Envelope → Bool
sorted [] = true
sorted (e ∷ es) = let rest = sorted es in all (λ f. leb e.seq f.seq) es && rest

all-insert_by_seq :
    (n : ℕ) (e : Envelope) (es : List Envelope)
    → leb n e.seq ≡ true
    → all (λ f. leb n f.seq) es ≡ true
    → all (λ f. leb n f.seq) (insert_by_seq e es) ≡ true
unfolding insert_by_seq
all-insert_by_seq n e [] h k = ground arith
all-insert_by_seq n e (f ∷ fs) h k = ground (arith, all-insert_by_seq n e fs)

all_from_mono :
    (n m : ℕ) (es : List Envelope)
    → n ≤ m
    → all (λ f. leb m f.seq) es ≡ true
    → all (λ f. leb n f.seq) es ≡ true
all_from_mono n m es l = all_imp (λ f. leb m f.seq) (λ f. leb n f.seq) es (λ f k. ground arith)

sorted-insert_by_seq :
    (e : Envelope) (es : List Envelope) → sorted es ≡ true → sorted (insert_by_seq e es) ≡ true
unfolding insert_by_seq
sorted-insert_by_seq e [] h = refl
sorted-insert_by_seq e (f ∷ fs) h =
    ground
      (arith, sorted-insert_by_seq e fs, all-insert_by_seq f.seq e fs, all_from_mono e.seq f.seq fs)

sorted-sort_by_seq : (es : List Envelope) → sorted (sort_by_seq es) ≡ true
unfolding sort_by_seq
sorted-sort_by_seq [] = refl
sorted-sort_by_seq (e ∷ es) = sorted-insert_by_seq e (sort_by_seq es) (sorted-sort_by_seq es)

all-take :
    {A : Type 0} (p : A → Bool) (n : ℕ) (xs : List A) → all p xs ≡ true → all p (take n xs) ≡ true
all-take p zero xs h = refl
all-take p (suc n) [] h = refl
all-take p (suc n) (x ∷ xs) h = ground (arith, all-take p n xs)

sorted-take : (n : ℕ) (es : List Envelope) → sorted es ≡ true → sorted (take n es) ≡ true
sorted-take zero es h = refl
sorted-take (suc n) [] h = refl
sorted-take (suc n) (e ∷ es) h =
    ground (arith, sorted-take n es, all-take (λ f. leb e.seq f.seq) n es)

length-insert_by_seq :
    (e : Envelope) (es : List Envelope) → length (insert_by_seq e es) ≡ suc (length es)
unfolding insert_by_seq
length-insert_by_seq e [] = refl
length-insert_by_seq e (f ∷ fs) = ground (arith, length-insert_by_seq e fs)

length-sort_by_seq : (es : List Envelope) → length (sort_by_seq es) ≡ length es
unfolding sort_by_seq
length-sort_by_seq [] = refl
length-sort_by_seq (e ∷ es) =
    length-insert_by_seq e (sort_by_seq es) ∙ ap suc (length-sort_by_seq es)

length-take_eq : {A : Type 0} (n : ℕ) (xs : List A) → length (take n xs) ≡ min n (length xs)
length-take_eq zero xs = omega arith
length-take_eq (suc n) [] = omega arith
length-take_eq (suc n) (x ∷ xs) = omega (arith, length-take_eq n xs)

-- The messages that wait for a recipient
abbrev pub waiting : String → Store → List Envelope
waiting r s =
    map (λ (row : Envelope × String). row.0)
      (join (λ d. d.recipient == r && is_pending d.state) s.envelopes s.deliveries)

-- A read of the inbox returns as many of the waiting messages as there are, up to the limit, by
-- ascending sequence number, and says truly whether more are waiting.
pub inbox_lem :
    (r : String) (limit : ℕ) (s : Store)
    → (length (inbox r limit s).0.0 ≡ min limit (length (waiting r s)))
      × (sorted (inbox r limit s).0.0 ≡ true)
      × ((inbox r limit s).0.1 ≡ ltb limit (length (waiting r s)))
unfolding inbox
inbox_lem r limit s =
    let sorted_rows = sort_by_seq (waiting r s) in
    let l = length-sort_by_seq (waiting r s) in
    let k = length-take_eq (limit + 1) sorted_rows in
    (
      omega (arith, l, k, length-take_eq limit (take (limit + 1) sorted_rows)),
      sorted-take limit _ (sorted-take (limit + 1) _ (sorted-sort_by_seq (waiting r s))),
      ground (arith, l, k),
    )
