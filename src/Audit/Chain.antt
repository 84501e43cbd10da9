-- ===== src/Audit/Chain.antt =====
-- The chain of audit.rs stays intact under `append`, and is taken up again by `open`.
use mcp_crewd_rs.Base.{
  ℕ, ◌+◌, ◌≡◌, refl, sym, ap, subst, ◌∙◌, String, false, not, ◌||◌, some, List, [], ◌∷◌, ◌++◌,
  select, ◌==◌, eq_refl, arith, Bool-cases, Option-cases, inl, inr,
}
use mcp_crewd_rs.Error.{Result, BusError, ok, err, Result-cases}
use mcp_crewd_rs.Canonical.{object}
use mcp_crewd_rs.Audit.{
  Codec, AuditEvent, AuditEventDraft, AuditChain, synced, append, seal, to_value, event_line,
  verify, verify_from, readable, intact, read_entry, open_chain, genesis_hash, assert_kind, get_str,
  recompute, without_hash, get, last,
}

-- What the chain relies on in serde_json, for an event that is written: its line is not blank, and
-- reads back as the value that it was written from.
pub record IsFaithful (c : Codec) (e : AuditEvent) : Type 0 where
  pub reads_back : c.from_str (event_line c e) ≡ some (object (to_value e))
  pub not_blank : c.is_blank (event_line c e) ≡ false

-- `verify` of the file succeeds, with the chain's head and `n` events.
abbrev pub IsIntact : Codec → AuditChain → ℕ → Type 0
IsIntact c chain n = verify c (readable chain.lines) ≡ intact chain.head_hash n

pub verify_from-append :
    (c : Codec) (i : ℕ) (prev : String) (xs : List String) (h : String) (n : ℕ) (l : String)
    → verify_from c i prev xs ≡ intact h n
    → verify_from c i prev (xs ++ l ∷ []) ≡ verify_from c n h (l ∷ [])
unfolding verify_from
verify_from-append c i prev [] h n l e =
    let same_head : prev ≡ h = cc in let same_count : i ≡ n = cc in cc (same_head, same_count)
verify_from-append c i prev (x ∷ xs) h n l e = elim (Option-cases (read_entry c x)) [
  | inl none_read ↦ absurd (ground (arith, none_read))
  | inr (en, p) ↦ elim (Bool-cases (not (en.recomputed == en.hash) || not (en.prev_hash == prev))) [
    | inl bad ↦ absurd (ground (arith, p, bad))
    | inr good ↦
        rw (p, verify_from, good)
          (verify_from-append c (i + 1) en.hash xs h n l (ground (arith, p, good)))
  ]
]

-- What `verify` reads off the line of an event that `append` wrote.
pub read_entry-seal :
    (c : Codec) (head event_id ts : String) (draft : AuditEventDraft)
    → IsFaithful c (seal c head event_id ts draft)
    → let e = seal c head event_id ts draft in
      read_entry c (event_line c e)
      ≡ some (record { event_id = event_id; prev_hash = head; hash = e.hash; recomputed = e.hash })
unfolding read_entry seal to_value get_str recompute without_hash
read_entry-seal c head event_id ts draft w = rw (w.reads_back, read_entry) refl

pub select-append_one :
    (c : Codec) (xs : List String) (l : String)
    → c.is_blank l ≡ false
    → select (λ x. not (c.is_blank x)) (xs ++ l ∷ [])
      ≡ select (λ x. not (c.is_blank x)) xs ++ l ∷ []
select-append_one c [] l h = ground arith
select-append_one c (x ∷ xs) l h = ground (arith, select-append_one c xs l h)

abbrev pub appended : Codec → String → String → AuditEventDraft → AuditChain → AuditChain
appended c event_id ts draft chain =
    let e = seal c chain.head_hash event_id ts draft in
    record { head_hash = e.hash; lines = chain.lines ++ event_line c e ∷ [] }

pub append-eq-ok :
    (c : Codec) (event_id ts : String) (draft : AuditEventDraft) (chain chain' : AuditChain)
    (e : AuditEvent)
    → append c synced event_id ts draft chain ≡ (ok e, chain')
    → (seal c chain.head_hash event_id ts draft ≡ e) × (appended c event_id ts draft chain ≡ chain')
unfolding append
append-eq-ok c event_id ts draft chain chain' e h = elim (Result-cases (assert_kind draft.kind)) [
  | inl (_, p) ↦
      let now : append c synced event_id ts draft chain
          ≡ (ok (seal c chain.head_hash event_id ts draft), appended c event_id ts draft chain) =
        rw (p, append) refl in
      split (sym now ∙ h)
  | inr (x, p) ↦
      let now : append c synced event_id ts draft chain ≡ (err x, chain) = rw (p, append) refl in
      absurd (clash (sym now ∙ h))
]
  where
    split :
        {a b : AuditEvent} {k l : AuditChain}
        → ◌≡◌ {A = Result AuditEvent × AuditChain} (ok a, k) (ok b, l)
        → (a ≡ b) × (k ≡ l)
    split p = (cc, cc)

    clash :
        {x : BusError} {b : AuditEvent} {k l : AuditChain}
        → ◌≡◌ {A = Result AuditEvent × AuditChain} (err x, k) (ok b, l)
        → ⊥
    clash p = cc

pub appended-IsIntact :
    (c : Codec) (event_id ts : String) (draft : AuditEventDraft) (chain : AuditChain) (n : ℕ)
    → IsFaithful c (seal c chain.head_hash event_id ts draft)
    → IsIntact c chain n
    → IsIntact c (appended c event_id ts draft chain) (n + 1)
unfolding verify
appended-IsIntact c event_id ts draft chain n w v =
    let e = seal c chain.head_hash event_id ts draft in
    let line = event_line c e in
    rw
      (
        select-append_one c chain.lines line w.not_blank,
        verify_from-append c 0 genesis_hash _ chain.head_hash n line v,
      )
      (unfold verify_from in
        rw (verify_from, read_entry-seal c chain.head_hash event_id ts draft w)
          (ground (arith, eq_refl e.hash, eq_refl chain.head_hash)))

-- A successful `append`, of an event whose line reads back, to an intact chain leaves an intact chain of one more event, whose head is
-- the hash of the event and whose event points to the old head.
pub append-IsIntact :
    (c : Codec) (event_id ts : String) (draft : AuditEventDraft) (chain chain' : AuditChain)
    (e : AuditEvent) (n : ℕ)
    → IsFaithful c e
    → IsIntact c chain n
    → append c synced event_id ts draft chain ≡ (ok e, chain')
    → IsIntact c chain' (n + 1) × (e.prev_hash ≡ chain.head_hash) × (chain'.head_hash ≡ e.hash)
append-IsIntact c event_id ts draft chain chain' e n w v h =
    let (p, q) = append-eq-ok c event_id ts draft chain chain' e h in
    (
      subst (λ k. IsIntact c k (n + 1)) q
          (appended-IsIntact c event_id ts draft chain n (subst (IsFaithful c) (sym p) w) v),
      unfold seal in ap (λ (x : AuditEvent). x.prev_hash) (sym p),
      ap (λ (k : AuditChain). k.head_hash) (sym q) ∙ ap (λ (x : AuditEvent). x.hash) p,
    )

select-last : (c : Codec) (xs : List String) (l : String) → last (xs ++ l ∷ []) ≡ some l
select-last c [] l = refl
select-last c (x ∷ xs) l = ground (arith, select-last c xs l)

-- A daemon that opens the file after a successful `append`, of an event whose line reads back, goes on from the chain that it left.
pub open-append :
    (c : Codec) (event_id ts : String) (draft : AuditEventDraft) (chain chain' : AuditChain)
    (e : AuditEvent)
    → IsFaithful c e
    → append c synced event_id ts draft chain ≡ (ok e, chain')
    → open_chain c chain'.lines ≡ some chain'
unfolding open_chain
open-append c event_id ts draft chain chain' e w h =
    let (p, q) = append-eq-ok c event_id ts draft chain chain' e h in
    let faithful = subst (IsFaithful c) (sym p) w in
    subst (λ (k : AuditChain). open_chain c k.lines ≡ some k) q
      (rw
        (
          select-append_one c chain.lines (event_line c (seal c chain.head_hash event_id ts draft))
              faithful.not_blank,
          select-last c _ (event_line c (seal c chain.head_hash event_id ts draft)),
          open_chain,
          faithful.reads_back,
        )
        (unfold get_str get to_value seal in refl))
