-- ===== src/Daemon/Gates.antt =====
-- The gates of crates/crewd/src/handlers.rs keep the messages.
use mcp_crewd_rs.Base.{
  ℕ, String, ◌≡◌, sym, subst, ◌⊎◌, inl, inr, Bool, true, false, not, Option, none, some, List, [],
  ◌∷◌, if◌then◌else◌, Option-cases, select, find, All, All-imp, All-select, All-append,
}
use mcp_crewd_rs.Acl.{Capability, ReachVia}
use mcp_crewd_rs.Audit.{Codec, AuditEventDraft}
use mcp_crewd_rs.Audit.Append.{Grows, Recorded, Recorded-Grows}
use mcp_crewd_rs.Error.{BusError, Result, ok, err}
use mcp_crewd_rs.Store.Tables.{Delivery, Store}
use mcp_crewd_rs.Store.Deliveries.{
  is_delivery, fresh_delivery, insert_delivery, next_seq, with_counter, is_pair,
}
use mcp_crewd_rs.Quota.{QuotaTracker}
use mcp_crewd_rs.Acl.{check, check_reach}
use mcp_crewd_rs.Daemon.{World, DaemonState, Draft, pure, fail, on_store, build_envelope_with_caps}
use mcp_crewd_rs.Daemon.Trail.{
  Post, Post-Kept, Kept, Kept-refl, Kept-trans, Keeps, next_step, gets-Keeps, draw-Keeps,
  lift-Keeps, fail_if-Keeps, audited_check-Keeps,
}
use mcp_crewd_rs.Daemon.Outbound.{
  on_quota, exceeded, denied_reach, key_or_fresh, authorize_outbound, admit_rate, admit_outbound,
}

-- The audit says that the message of the row was enqueued for its recipient, or fanned out.
abbrev pub Announced : Codec → List String → Delivery → Type 0
Announced c lines row =
    (draft : AuditEventDraft) × Recorded c lines draft
    × (draft.message_id ≡ some row.envelope_id)
    × (((draft.kind ≡ "enqueued") × (draft.to ≡ some row.recipient))
        ⊎ (draft.kind ≡ "broadcast_fanned_out"))

-- Every row of the queue is announced.
abbrev pub Backed : Codec → DaemonState → Type 0
Backed c d = All (Announced c d.audit.lines) d.store.deliveries

-- What a handler that succeeds does to the audit and the queue
abbrev pub Sound : Codec → DaemonState → DaemonState → Type 0
Sound c d e = Grows d.audit.lines e.audit.lines × (Backed c d → Backed c e)

pub Announced-Grows :
    (c : Codec) (lines now : List String) (ds : List Delivery)
    → Grows lines now
    → All (Announced c lines) ds
    → All (Announced c now) ds
Announced-Grows c lines now ds g =
    All-imp (Announced c lines) (Announced c now) ds
      (λ row w. (w.0, Recorded-Grows c w.1 g, w.2, w.3))

pub Kept-Sound : (c : Codec) (d e : DaemonState) → Kept d e → Sound c d e
Kept-Sound c d e (same, a, b, g) = (
  g,
  λ backed.
      subst (All (Announced c e.audit.lines)) (sym same)
        (Announced-Grows c d.audit.lines e.audit.lines d.store.deliveries g backed),
)

pub Kept_is-Sound :
    {A : Type 0} (c : Codec) (d f : DaemonState) (r : Result A × DaemonState)
    → Kept d f
    → Post (λ _ e. Kept f e × Unit {0}) (λ _ e. Kept f e) r
    → Post (λ _ e. Sound c d e) (λ _ e. Kept d e) r
unfolding Post
Kept_is-Sound c d f (ok a, e) k h = Kept-Sound c d e (Kept-trans d f e k h.0)
Kept_is-Sound c d f (err x, e) k h = Kept-trans d f e k h

pub insert_delivery-Announced :
    (c : Codec) (lines : List String) (message_id recipient : String) (s : Store)
    → Announced c lines (fresh_delivery message_id recipient)
    → All (Announced c lines) s.deliveries
    → All (Announced c lines) (insert_delivery message_id recipient s).deliveries
unfolding insert_delivery
insert_delivery-Announced c lines message_id recipient s new old =
    All-append (Announced c lines) (fresh_delivery message_id recipient ∷ [])
      (select (λ d. not (is_delivery message_id recipient d)) s.deliveries) (new, tt)
      (All-select (Announced c lines) (λ d. not (is_delivery message_id recipient d)) s.deliveries
        old)

-- What a step that keeps the messages says of its value: nothing.
abbrev pub Only : {A : Type 0} → DaemonState → A → DaemonState → Type 0
Only d a e = Kept d e × Unit {0}

pub on_quota-Keeps : {A : Type 0} (call : QuotaTracker → A × QuotaTracker) → Keeps (on_quota call)
unfolding Post
on_quota-Keeps call d = (Kept-refl d, tt)

module _ (w : World) where
  pub authorize-Keeps :
      (from to : String) (cap : Capability) (via : ReachVia)
      → Keeps (authorize_outbound w from to cap via)
  unfolding authorize_outbound
  authorize-Keeps from to cap via d =
      next_step (Only d) d d _ _ (Kept-refl d) (gets-Keeps _) λ acl e k.
        next_step (Only d) d e _ _ k (lift-Keeps (check acl from cap)) λ _ e k.
          next_step (Only d) d e _ _ k (fail_if-Keeps _ _) λ _ e k.
            Post-Kept (λ _ _. Unit {0}) d e _ k
              (audited_check-Keeps w (check_reach acl from to via) (denied_reach none from to) e)

  pub admit_rate-Keeps :
      (from : String) (to : Option String) (cap : Capability) (units : ℕ)
      → Keeps (admit_rate w from to cap units)
  unfolding admit_rate
  admit_rate-Keeps from to cap units d =
      next_step (Only d) d d _ _ (Kept-refl d) (draw-Keeps w.millis) λ now e k.
        next_step (Only d) d e _ _ k (on_quota-Keeps _) λ sender e k.
          next_step (Only d) d e _ _ k (audited_check-Keeps w sender (exceeded from to)) λ _ e k.
            next_step (Only d) d e _ _ k (on_quota-Keeps _) λ verdict e k.
              Post-Kept (λ _ _. Unit {0}) d e _ k
                (audited_check-Keeps w verdict (exceeded from to) e)

  pub admit-Keeps :
      (from to : String) (cap : Capability) (units : ℕ) → Keeps (admit_outbound w from to cap units)
  unfolding admit_outbound
  admit-Keeps from to cap units d =
      next_step (Only d) d d _ _ (Kept-refl d) (gets-Keeps _) λ pending e k.
        next_step (Only d) d e _ _ k (gets-Keeps _) λ depth e k.
          next_step (Only d) d e _ _ k (audited_check-Keeps w depth (exceeded from (some to)))
            λ _ e k.
              Post-Kept (λ _ _. Unit {0}) d e _ k (admit_rate-Keeps from (some to) cap units e)

  pub key_or_fresh-Keeps : (key : Option String) → Keeps (key_or_fresh w key)
  unfolding Post
  key_or_fresh-Keeps none d = (Kept-refl d, tt)
  key_or_fresh-Keeps (some key) d = (Kept-refl d, tt)

  pub build-Keeps : (m : Draft) → Keeps (build_envelope_with_caps w m)
  unfolding build_envelope_with_caps Post
  build-Keeps m d = (Kept-refl d, tt)

pub next_seq-Keeps : (from to : String) → Keeps (on_store (next_seq from to))
unfolding next_seq Post
next_seq-Keeps from to d =
    let counters = with_counter from to d.store.seq_counters in
    elim (Option-cases (find (is_pair from to) counters)) [
      | inl e ↦ rw (Post, next_seq, e) (Kept-refl d)
      | inr (c, e) ↦ rw (Post, next_seq, e) (Kept-refl d, tt)
    ]

-- An answer that is already known
pub if-Keeps :
    {A : Type 0} (same : Bool) (a : A) (e : BusError) → Keeps (if same then pure a else fail e)
unfolding Post
if-Keeps true a e d = (Kept-refl d, tt)
if-Keeps false a e d = Kept-refl d
