-- ===== src/Daemon/Ask/Sound.antt =====
-- handle_ask of crates/crewd/src/handlers.rs: the audit comes before the delivery and the ticket.
use mcp_crewd_rs.Base.{◌≡◌, String, refl, inl, Option, none, some, [], ◌==◌, unwrap_or}
use mcp_crewd_rs.Error.{dup}
use mcp_crewd_rs.Canonical.{Value}
use mcp_crewd_rs.Acl.{Capability, via_ask}
use mcp_crewd_rs.Audit.Append.{Recorded, Recorded-Grows}
use mcp_crewd_rs.Store.Tables.{Store, Dedupe}
use mcp_crewd_rs.Store.Asks.{insert_ask}
use mcp_crewd_rs.Wire.{AskParams}
use mcp_crewd_rs.Daemon.{World, DaemonState, check_body, check_idem, reject_client_identity_keys}
use mcp_crewd_rs.Daemon.Trail.{
  Kept, Kept-refl, gets-Keeps, draw-Keeps, lift-Keeps, or_fail-Keeps, audited_check-Keeps,
  audit-Post, Post_imp,
}
use mcp_crewd_rs.Daemon.Outbound.{check_files, exceeded, enqueued}
use mcp_crewd_rs.Daemon.Writes.{
  Ends, Kept_is-Ends, step-Sound, next-Sound, then-Sound, insert_envelope-Keeps, write_other-Sound,
  write_row-Sound, draw-Sound, pure-Sound, dedupe_insert-queue,
}
use mcp_crewd_rs.Daemon.Gates.{
  Kept-Sound, authorize-Keeps, admit-Keeps, key_or_fresh-Keeps, build-Keeps, next_seq-Keeps,
  if-Keeps,
}
use mcp_crewd_rs.Daemon.Ask.{pending_value, ask_draft, ask_opened, open_ask, submit, handle_ask}

insert_ask-queue :
    (ask_id message_id from to expires : String) (s : Store)
    → (insert_ask ask_id message_id from to expires s).deliveries ≡ s.deliveries
unfolding insert_ask
insert_ask-queue ask_id message_id from to expires s = refl

module _ (w : World) where
  open_ask-Sound :
      (from : String) (p : AskParams) (ask_id key message_id : String) (d f : DaemonState)
      → Kept d f
      → Recorded w.codec f.audit.lines (enqueued message_id from p.to_cell)
      → Ends w.codec d (open_ask w from p ask_id key message_id f)
  unfolding open_ask
  open_ask-Sound from p ask_id key message_id d f k recorded =
      let c = w.codec in
      then-Sound c _ d f _ _
        (write_row-Sound c w message_id p.to_cell d f (Kept-Sound c d f k)
          (_, recorded, refl, inl (refl, refl)))
        λ _ e row. then-Sound c _ d e _ _ (draw-Sound c w.secs d e row.0) λ secs e s.
          then-Sound c _ d e _ _ (write_other-Sound c w _ d e s λ t. insert_ask-queue _ _ _ _ _ t)
            λ _ e s. then-Sound c _ d e _ _ (draw-Sound c w.secs d e s) λ now e s.
              then-Sound c _ d e _ _
                (write_other-Sound c w _ d e s λ t. dedupe_insert-queue _ _ _ _ _ _ t)
                λ _ e s. pure-Sound c _ d e s

  submit-Sound :
      (from : String) (p : AskParams) (ask_id key : String) (hit : Option Dedupe)
      (d f : DaemonState)
      → Kept d f
      → Ends w.codec d (submit w from p ask_id key hit f)
  unfolding submit
  submit-Sound from p ask_id key (some hit) d f k = Kept_is-Ends w.codec d f _ k (
      if-Keeps (hit.body_sha256 == w.codec.hex_sha256 p.body)
        (pending_value hit.ask_id hit.message_id) dup f)
  submit-Sound from p ask_id key none d f k =
      next-Sound w.codec d f _ _ k (next_seq-Keeps from p.to_cell) λ seq e k.
        next-Sound w.codec d e _ _ k (build-Keeps w (ask_draft from p ask_id key seq)) λ env e k.
          next-Sound w.codec d e _ _ k (insert_envelope-Keeps w env) λ _ e k.
            let R : Unit {0} → DaemonState → Type 0 =
              λ _ e. Recorded w.codec e.audit.lines (enqueued env.message_id from p.to_cell) in
            step-Sound w.codec R d e _ _ k (audit-Post w (enqueued env.message_id from p.to_cell) e)
              λ _ e k recorded.
                step-Sound w.codec R d e _ _ k
                  (Post_imp _ R e _ (λ _ f later _. Recorded-Grows w.codec recorded later.3)
                    (audit-Post w (ask_opened ask_id env.message_id from p.to_cell) e))
                  λ _ e k recorded. open_ask-Sound from p ask_id key env.message_id d e k recorded

  -- The same of handle_ask
  pub handle_ask-Sound :
      (from : String) (params : Value) (d : DaemonState)
      → Ends w.codec d (handle_ask w from params d)
  unfolding handle_ask
  handle_ask-Sound from params d =
      next-Sound w.codec d d _ _ (Kept-refl d) (lift-Keeps (reject_client_identity_keys params []))
        λ _ e k. next-Sound w.codec d e _ _ k (or_fail-Keeps (w.ask_params params) _) λ p e k.
          next-Sound w.codec d e _ _ k (authorize-Keeps w from p.to_cell Capability.ask via_ask)
            λ _ e k.
              next-Sound w.codec d e _ _ k
                (lift-Keeps (check_idem (unwrap_or p.idempotency_key "")))
                λ _ e k. next-Sound w.codec d e _ _ k (lift-Keeps (check_body p.body)) λ _ e k.
                  next-Sound w.codec d e _ _ k (gets-Keeps _) λ acl e k.
                    next-Sound w.codec d e _ _ k (lift-Keeps (check_files acl from p.file_refs))
                      λ _ e k.
                        next-Sound w.codec d e _ _ k (admit-Keeps w from p.to_cell Capability.ask 1)
                          λ _ e k. next-Sound w.codec d e _ _ k (gets-Keeps _) λ verdict e k.
                            next-Sound w.codec d e _ _ k
                              (audited_check-Keeps w verdict (exceeded from (some p.to_cell)))
                              λ _ e k.
                                next-Sound w.codec d e _ _ k
                                  (key_or_fresh-Keeps w p.idempotency_key)
                                  λ key e k.
                                    next-Sound w.codec d e _ _ k (draw-Keeps w.new_uuidv7)
                                      λ ask_id e k.
                                        next-Sound w.codec d e _ _ k (gets-Keeps _)
                                          λ hit e k. submit-Sound from p ask_id key hit d e k
