-- ===== src/Daemon/Send/Sound.antt =====
-- handle_send of crates/crewd/src/handlers.rs: the audit comes before the delivery.
use mcp_crewd_rs.Base.{String, refl, inl, Option, none, some, [], ◌==◌, unwrap_or}
use mcp_crewd_rs.Error.{dup}
use mcp_crewd_rs.Types.{MsgType, task}
use mcp_crewd_rs.Canonical.{Value}
use mcp_crewd_rs.Acl.{Capability, via_send}
use mcp_crewd_rs.Audit.Append.{Recorded}
use mcp_crewd_rs.Store.Tables.{Dedupe}
use mcp_crewd_rs.Wire.{SendParams}
use mcp_crewd_rs.Daemon.{
  World, DaemonState, check_body, check_idem, reject_client_identity_keys, check_msg_type,
}
use mcp_crewd_rs.Daemon.Trail.{Kept, Kept-refl, gets-Keeps, lift-Keeps, or_fail-Keeps, audit-Post}
use mcp_crewd_rs.Daemon.Outbound.{check_files, enqueued}
use mcp_crewd_rs.Daemon.Writes.{
  Ends, Kept_is-Ends, step-Sound, next-Sound, then-Sound, insert_envelope-Keeps, write_other-Sound,
  write_row-Sound, draw-Sound, pure-Sound, dedupe_insert-queue,
}
use mcp_crewd_rs.Daemon.Gates.{
  Kept-Sound, authorize-Keeps, admit-Keeps, key_or_fresh-Keeps, build-Keeps, next_seq-Keeps,
  if-Keeps,
}
use mcp_crewd_rs.Daemon.Send.{enqueued_value, send_draft, deliver, submit, handle_send}

module _ (w : World) where
  deliver-Sound :
      (from to key body_h message_id : String) (d f : DaemonState)
      → Kept d f
      → Recorded w.codec f.audit.lines (enqueued message_id from to)
      → Ends w.codec d (deliver w from to key body_h message_id f)
  unfolding deliver
  deliver-Sound from to key body_h message_id d f k recorded =
      then-Sound w.codec _ d f _ _
        (write_row-Sound w.codec w message_id to d f (Kept-Sound w.codec d f k)
          (_, recorded, refl, inl (refl, refl)))
        λ _ e row. then-Sound w.codec _ d e _ _ (draw-Sound w.codec w.secs d e row.0) λ now e s.
          then-Sound w.codec _ d e _ _
            (write_other-Sound w.codec w _ d e s λ t. dedupe_insert-queue _ _ _ _ _ _ t)
            λ _ e s. pure-Sound w.codec _ d e s

  submit-Sound :
      (from : String) (p : SendParams) (msg_type : MsgType) (key : String) (hit : Option Dedupe)
      (d f : DaemonState)
      → Kept d f
      → Ends w.codec d (submit w from p msg_type key hit f)
  unfolding submit
  submit-Sound from p msg_type key (some hit) d f k = Kept_is-Ends w.codec d f _ k (
      if-Keeps (hit.body_sha256 == w.codec.hex_sha256 p.body) (enqueued_value hit.message_id) dup f)
  submit-Sound from p msg_type key none d f k =
      next-Sound w.codec d f _ _ k (next_seq-Keeps from p.to_cell) λ seq e k.
        next-Sound w.codec d e _ _ k (build-Keeps w (send_draft from p msg_type key seq)) λ env e k.
          next-Sound w.codec d e _ _ k (insert_envelope-Keeps w env) λ _ e k.
            step-Sound w.codec
              (λ _ e. Recorded w.codec e.audit.lines (enqueued env.message_id from p.to_cell)) d e _
              _ k (audit-Post w (enqueued env.message_id from p.to_cell) e)
              λ _ e k recorded.
                deliver-Sound from p.to_cell key (w.codec.hex_sha256 p.body) env.message_id d e k
                  recorded

  -- handle_send adds a row to the queue only after the audit has the line that the message was enqueued
  -- for the row's recipient: a queue whose rows are all announced in the audit is one afterwards too,
  -- whether the request succeeds or stops at an error. The audit only grows.
  pub handle_send-Sound :
      (from : String) (params : Value) (d : DaemonState)
      → Ends w.codec d (handle_send w from params d)
  unfolding handle_send
  handle_send-Sound from params d =
      next-Sound w.codec d d _ _ (Kept-refl d) (lift-Keeps (reject_client_identity_keys params []))
        λ _ e k. next-Sound w.codec d e _ _ k (or_fail-Keeps (w.send_params params) _) λ p e k.
          next-Sound w.codec d e _ _ k (gets-Keeps _) λ acl e k.
            next-Sound w.codec d e _ _ k
              (lift-Keeps (check_msg_type acl from (unwrap_or p.msg_type task)))
              λ _ e k.
                next-Sound w.codec d e _ _ k
                  (authorize-Keeps w from p.to_cell Capability.send via_send)
                  λ _ e k.
                    next-Sound w.codec d e _ _ k
                      (lift-Keeps (check_idem (unwrap_or p.idempotency_key "")))
                      λ _ e k.
                        next-Sound w.codec d e _ _ k (lift-Keeps (check_body p.body)) λ _ e k.
                          next-Sound w.codec d e _ _ k
                            (lift-Keeps (check_files acl from p.file_refs))
                            λ _ e k.
                              next-Sound w.codec d e _ _ k
                                (admit-Keeps w from p.to_cell Capability.send 1)
                                λ _ e k.
                                  next-Sound w.codec d e _ _ k
                                    (key_or_fresh-Keeps w p.idempotency_key)
                                    λ key e k.
                                      next-Sound w.codec d e _ _ k (gets-Keeps _) λ hit e k.
                                        submit-Sound from p (unwrap_or p.msg_type task) key hit d e
                                          k
