-- ===== src/Daemon/Broadcast/Sound.antt =====
-- handle_broadcast of crates/crewd/src/handlers.rs: the audit comes before the deliveries.
use mcp_crewd_rs.Base.{
  subst, sym, String, refl, inr, Option, none, some, List, [], ◌∷◌, ◌==◌, unwrap_or,
}
use mcp_crewd_rs.Error.{dup}
use mcp_crewd_rs.Types.{note}
use mcp_crewd_rs.Canonical.{Value}
use mcp_crewd_rs.Acl.{Capability, check}
use mcp_crewd_rs.Audit.Append.{Recorded}
use mcp_crewd_rs.Store.Tables.{Dedupe}
use mcp_crewd_rs.Wire.{BroadcastParams}
use mcp_crewd_rs.Daemon.{
  World, DaemonState, check_body, check_idem, check_msg_type, reject_client_identity_keys,
}
use mcp_crewd_rs.Daemon.Trail.{
  Post, Post-Kept, Kept, Kept-refl, Keeps, next_step, gets-Keeps, lift-Keeps, or_fail-Keeps,
  audit-Keeps, audit-Post,
}
use mcp_crewd_rs.Daemon.Outbound.{check_files, denied_reach}
use mcp_crewd_rs.Daemon.Writes.{
  Ends, Kept_is-Ends, step-Sound, next-Sound, then-Sound, insert_envelope-Keeps, write_other-Sound,
  write_row-Sound, draw-Sound, pure-Sound, dedupe_insert-queue,
}
use mcp_crewd_rs.Daemon.Gates.{
  Sound, Kept-Sound, Only, admit_rate-Keeps, key_or_fresh-Keeps, build-Keeps, if-Keeps,
}
use mcp_crewd_rs.Daemon.Broadcast.{
  fanned_value, broadcast_draft, fanned_out, fanout_units, insert_deliveries, audit_denied, fan_out,
  submit, handle_broadcast,
}

module _ (w : World) where
  audit_denied-Keeps :
      (message_id from : String) (denied : List String)
      → Keeps (audit_denied w message_id from denied)
  unfolding audit_denied Post
  audit_denied-Keeps message_id from [] d = (Kept-refl d, tt)
  audit_denied-Keeps message_id from (to ∷ rest) d =
      next_step (Only d) d d _ _ (Kept-refl d)
        (audit-Keeps w (denied_reach (some message_id) from to))
        λ _ e k. Post-Kept (λ _ _. Unit {0}) d e _ k (audit_denied-Keeps message_id from rest e)

  insert_deliveries-Sound :
      (message_id from : String) (included denied rs : List String) (d f : DaemonState)
      → Sound w.codec d f
      → Recorded w.codec f.audit.lines (fanned_out message_id from included denied)
      → Ends w.codec d (insert_deliveries w message_id rs f)
  unfolding insert_deliveries
  insert_deliveries-Sound message_id from included denied [] d f s said = pure-Sound w.codec _ d f s
  insert_deliveries-Sound message_id from included denied (r ∷ rs) d f s said =
      let c = w.codec in
      then-Sound c _ d f _ _ (write_row-Sound c w message_id r d f s (_, said, refl, inr refl))
        λ _ e row. insert_deliveries-Sound message_id from included denied rs d e row.0 (
          subst (λ lines. Recorded c lines (fanned_out message_id from included denied)) (sym row.1)
            said)

  fan_out-Sound :
      (from : String) (p : BroadcastParams) (included denied : List String)
      (key message_id : String) (d f : DaemonState)
      → Kept d f
      → Recorded w.codec f.audit.lines (fanned_out message_id from included denied)
      → Ends w.codec d (fan_out w from p included key message_id f)
  unfolding fan_out
  fan_out-Sound from p included denied key message_id d f k said =
      let c = w.codec in
      then-Sound c _ d f _ _
        (insert_deliveries-Sound message_id from included denied included d f (Kept-Sound c d f k)
          said)
        λ _ e s. then-Sound c _ d e _ _ (draw-Sound c w.secs d e s) λ now e s.
          then-Sound c _ d e _ _
            (write_other-Sound c w _ d e s λ t. dedupe_insert-queue _ _ _ _ _ _ t)
            λ _ e s. pure-Sound c _ d e s

  submit-Sound :
      (from : String) (p : BroadcastParams) (included denied : List String) (key : String)
      (hit : Option Dedupe) (d f : DaemonState)
      → Kept d f
      → Ends w.codec d (submit w from p included denied key hit f)
  unfolding submit
  submit-Sound from p included denied key (some hit) d f k = Kept_is-Ends w.codec d f _ k (
      if-Keeps (hit.body_sha256 == w.codec.hex_sha256 p.body) (fanned_value hit.message_id included)
        dup f)
  submit-Sound from p included denied key none d f k =
      next-Sound w.codec d f _ _ k (build-Keeps w (broadcast_draft from p key)) λ env e k.
        next-Sound w.codec d e _ _ k (insert_envelope-Keeps w env) λ _ e k.
          next-Sound w.codec d e _ _ k (audit_denied-Keeps env.message_id from denied) λ _ e k.
            step-Sound w.codec
              (λ _ e.
                Recorded w.codec e.audit.lines (fanned_out env.message_id from included denied))
              d e _ _ k (audit-Post w (fanned_out env.message_id from included denied) e)
              λ _ e k said. fan_out-Sound from p included denied key env.message_id d e k said

  -- The same of handle_broadcast
  pub handle_broadcast-Sound :
      (from : String) (params : Value) (d : DaemonState)
      → Ends w.codec d (handle_broadcast w from params d)
  unfolding handle_broadcast
  handle_broadcast-Sound from params d =
      next-Sound w.codec d d _ _ (Kept-refl d) (lift-Keeps (reject_client_identity_keys params []))
        λ _ e k. next-Sound w.codec d e _ _ k (or_fail-Keeps (w.broadcast_params params) _) λ p e k.
          next-Sound w.codec d e _ _ k (gets-Keeps _) λ acl e k.
            next-Sound w.codec d e _ _ k
              (lift-Keeps (check_msg_type acl from (unwrap_or p.msg_type note)))
              λ _ e k.
                next-Sound w.codec d e _ _ k
                  (lift-Keeps (check_idem (unwrap_or p.idempotency_key "")))
                  λ _ e k. next-Sound w.codec d e _ _ k (lift-Keeps (check_body p.body)) λ _ e k.
                    next-Sound w.codec d e _ _ k (lift-Keeps (check_files acl from p.file_refs))
                      λ _ e k.
                        next-Sound w.codec d e _ _ k
                          (lift-Keeps (check acl from Capability.broadcast))
                          λ _ e k. next-Sound w.codec d e _ _ k (gets-Keeps _) λ recipients e k.
                            next-Sound w.codec d e _ _ k
                              (admit_rate-Keeps w from none Capability.broadcast
                                (fanout_units recipients.0))
                              λ _ e k.
                                next-Sound w.codec d e _ _ k
                                  (key_or_fresh-Keeps w p.idempotency_key)
                                  λ key e k. next-Sound w.codec d e _ _ k (gets-Keeps _) λ hit e k.
                                    submit-Sound from p recipients.0 recipients.1 key hit d e k
