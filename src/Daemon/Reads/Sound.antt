-- ===== src/Daemon/Reads/Sound.antt =====
-- The handlers of crates/crewd/src/handlers.rs that only look keep the messages, but for the marks of
-- a read inbox.
use mcp_crewd_rs.Base.{ℕ, String, not, Option, none, some, List, [], ◌∷◌, All, All-update}
use mcp_crewd_rs.Types.{Envelope, msg_type_as_str}
use mcp_crewd_rs.Canonical.{Value}
use mcp_crewd_rs.Audit.{Codec}
use mcp_crewd_rs.Audit.Append.{Grows-refl, Grows-trans}
use mcp_crewd_rs.Acl.{Capability, check}
use mcp_crewd_rs.Delivery.{delivered}
use mcp_crewd_rs.Store.Tables.{Delivery}
use mcp_crewd_rs.Store.Deliveries.{inbox, mark_delivered, is_delivery}
use mcp_crewd_rs.Daemon.{World, DaemonState, reject_client_identity_keys}
use mcp_crewd_rs.Daemon.Trail.{
  Post, Post-Kept, Kept, Kept-refl, Keeps, next_step, ended, gets-Keeps, lift-Keeps, or_fail-Keeps,
  fail_if-Keeps, audit-Keeps,
}
use mcp_crewd_rs.Daemon.Gates.{Only, Announced, Sound, Kept-Sound}
use mcp_crewd_rs.Daemon.Fabric.{check_thread_owner}
use mcp_crewd_rs.Daemon.Fabric.Keeps.{pure-Keeps}
use mcp_crewd_rs.Daemon.Reads.{
  inbox_limit, take_inbox, causal, handle_inbox, handle_list, status_of, handle_status,
  handle_result, handle_report_tool_correlation,
}

mark_delivered-Announced :
    (c : Codec) (lines : List String) (recipient : String) (es : List Envelope) (ds : List Delivery)
    → All (Announced c lines) ds
    → All (Announced c lines) (mark_delivered recipient es ds)
unfolding mark_delivered
mark_delivered-Announced c lines recipient [] ds old = old
mark_delivered-Announced c lines recipient (e ∷ es) ds old =
    mark_delivered-Announced c lines recipient es _ (
      All-update (Announced c lines) (is_delivery e.message_id recipient)
        (λ d. record d { state = delivered; lease_until = none }) ds (λ d _ announced. announced)
        old)

take_inbox-Sound :
    (c : Codec) (from : String) (limit : ℕ) (d : DaemonState)
    → Sound c d (record d { store = (inbox from limit d.store).1 })
unfolding inbox
take_inbox-Sound c from limit d = (
  Grows-refl d.audit.lines,
  λ backed.
      mark_delivered-Announced c d.audit.lines from (inbox from limit d.store).0.0
        d.store.deliveries backed,
)

Sound-trans : (c : Codec) (d e f : DaemonState) → Kept d e → Sound c e f → Sound c d f
Sound-trans c d e f k sound =
    let before = Kept-Sound c d e k in
    (
      Grows-trans d.audit.lines e.audit.lines f.audit.lines before.0 sound.0,
      λ backed. sound.1 (before.1 backed),
    )

module _ (w : World) where
  taken_inbox-Sound :
      (from : String) (limit : ℕ) (d e : DaemonState)
      → Kept d e
      → Post (λ _ f. Sound w.codec d f) (λ _ f. Kept d f) (take_inbox from limit e)
  unfolding Post
  taken_inbox-Sound from limit d e k =
      Sound-trans w.codec d e (record e { store = (inbox from limit e.store).1 }) k
        (take_inbox-Sound w.codec from limit e)

  pub handle_inbox-Sound :
      (from : String) (params : Value) (d : DaemonState)
      → Post (λ _ e. Sound w.codec d e) (λ _ e. Kept d e) (handle_inbox w from params d)
  unfolding handle_inbox
  handle_inbox-Sound from params d =
      let S : Value → DaemonState → Type 0 = λ _ e. Sound w.codec d e in
      next_step S d d _ _ (Kept-refl d) (lift-Keeps (reject_client_identity_keys params []))
        λ _ e k. next_step S d e _ _ k (or_fail-Keeps (w.inbox_params params) _) λ p e k.
          next_step S d e _ _ k (gets-Keeps _) λ acl e k.
            next_step S d e _ _ k (lift-Keeps (check acl from Capability.read_inbox))
              λ _ e k. taken_inbox-Sound from (inbox_limit p.limit) d e k

  pub handle_list-Keeps : (from : String) (params : Value) → Keeps (handle_list w from params)
  unfolding handle_list
  handle_list-Keeps from params d =
      next_step (Only d) d d _ _ (Kept-refl d) (lift-Keeps (reject_client_identity_keys params []))
        λ _ e k. next_step (Only d) d e _ _ k (gets-Keeps _) λ acl e k.
          next_step (Only d) d e _ _ k (lift-Keeps (check acl from Capability.list_cells))
            λ _ e k. ended d e _ k

  status_of-Keeps : (from : String) (id : Option String) → Keeps (status_of w from id)
  unfolding status_of
  status_of-Keeps from none d = ended d d _ (Kept-refl d)
  status_of-Keeps from (some id) d =
      next_step (Only d) d d _ _ (Kept-refl d) (gets-Keeps _) λ found e k.
        next_step (Only d) d e _ _ k (or_fail-Keeps found _) λ t e k.
          next_step (Only d) d e _ _ k (gets-Keeps _) λ acl e k.
            next_step (Only d) d e _ _ k (lift-Keeps (check_thread_owner acl from t))
              λ _ e k. ended d e _ k

  pub handle_status-Keeps : (from : String) (params : Value) → Keeps (handle_status w from params)
  unfolding handle_status
  handle_status-Keeps from params d =
      next_step (Only d) d d _ _ (Kept-refl d) (lift-Keeps (reject_client_identity_keys params []))
        λ _ e k.
          next_step (Only d) d e _ _ k (or_fail-Keeps (w.status_params params) _)
            λ p e k. Post-Kept (λ _ _. Unit {0}) d e _ k (status_of-Keeps from p.crewd_thread_id e)

  pub handle_result-Keeps : (from : String) (params : Value) → Keeps (handle_result w from params)
  unfolding handle_result
  handle_result-Keeps from params d =
      next_step (Only d) d d _ _ (Kept-refl d) (lift-Keeps (reject_client_identity_keys params []))
        λ _ e k. next_step (Only d) d e _ _ k (or_fail-Keeps (w.result_params params) _) λ p e k.
          next_step (Only d) d e _ _ k (gets-Keeps _) λ found e k.
            next_step (Only d) d e _ _ k (or_fail-Keeps found _) λ t e k.
              next_step (Only d) d e _ _ k (gets-Keeps _) λ acl e k.
                next_step (Only d) d e _ _ k (lift-Keeps (check_thread_owner acl from t))
                  λ _ e k. ended d e _ k

  pub handle_report-Keeps :
      (from : String) (params : Value) → Keeps (handle_report_tool_correlation w from params)
  unfolding handle_report_tool_correlation
  handle_report-Keeps from params d =
      next_step (Only d) d d _ _ (Kept-refl d)
        (lift-Keeps (reject_client_identity_keys params ("message_id" ∷ [])))
        λ _ e k.
          next_step (Only d) d e _ _ k (or_fail-Keeps (w.correlation_params params) _) λ p e k.
            next_step (Only d) d e _ _ k (gets-Keeps _) λ consumed e k.
              next_step (Only d) d e _ _ k (fail_if-Keeps (not consumed) _) λ _ e k.
                next_step (Only d) d e _ _ k (gets-Keeps _) λ found e k.
                  next_step (Only d) d e _ _ k (or_fail-Keeps found _) λ env e k.
                    next_step (Only d) d e _ _ k
                      (audit-Keeps w (causal p from (msg_type_as_str env.msg_type)))
                      λ _ e k. Post-Kept (λ _ _. Unit {0}) d e _ k (pure-Keeps _ e)
