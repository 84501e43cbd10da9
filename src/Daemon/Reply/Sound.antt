-- ===== src/Daemon/Reply/Sound.antt =====
-- handle_reply of crates/crewd/src/handlers.rs: the audit comes before the answer.
use mcp_crewd_rs.Base.{◌+◌, String, refl, inl, not, none, some, [], ◌∷◌, ◌==◌, unwrap_or}
use mcp_crewd_rs.Types.{Envelope}
use mcp_crewd_rs.Canonical.{Value}
use mcp_crewd_rs.Acl.{Capability, check}
use mcp_crewd_rs.Audit.{Codec}
use mcp_crewd_rs.Audit.Append.{Recorded}
use mcp_crewd_rs.Store.Tables.{Ask}
use mcp_crewd_rs.Store.Asks.{ReplyOutcome, recorded, duplicate_identical, conflict, commit_reply}
use mcp_crewd_rs.Wire.{ReplyParams}
use mcp_crewd_rs.Daemon.{
  World, DaemonState, plain, check_body, check_idem, reject_client_identity_keys,
}
use mcp_crewd_rs.Daemon.Trail.{
  Post, Kept, Kept-refl, gets-Keeps, lift-Keeps, or_fail-Keeps, fail_if-Keeps, audit-Keeps,
  audit-Post,
}
use mcp_crewd_rs.Daemon.Outbound.{check_files, enqueued}
use mcp_crewd_rs.Daemon.Writes.{
  Ends, step-Sound, next-Sound, then-Sound, insert_envelope-Keeps, write_row-Sound, write-Post,
  pure-Sound,
}
use mcp_crewd_rs.Daemon.Gates.{Sound, Kept-Sound, key_or_fresh-Keeps, build-Keeps, next_seq-Keeps}
use mcp_crewd_rs.Daemon.Reply.{reply_draft, wake_asker, answer, settle, handle_reply}

answered-Sound :
    (c : Codec) (ask_id : String) (env : Envelope) (d f : DaemonState)
    → Sound c d f
    → Sound c d
        (record f { store = commit_reply c.hex_sha256 ask_id env f.store; tick = f.tick + 1 })
unfolding commit_reply
answered-Sound c ask_id env d f s = s

wake-Sound :
    (c : Codec) (ask_id : String) (d e : DaemonState) → Sound c d e → Ends c d (wake_asker ask_id e)
unfolding Post
wake-Sound c ask_id d e s = s

module _ (w : World) where
  answer-Sound :
      (p : ReplyParams) (from : String) (ask : Ask) (env : Envelope) (d f : DaemonState)
      → Kept d f
      → Recorded w.codec f.audit.lines (enqueued env.message_id from ask.from_cell)
      → Ends w.codec d (answer w p ask env f)
  unfolding answer
  answer-Sound p from ask env d f k said =
      let c = w.codec in
      then-Sound c
        (λ _ e. Sound c d e × Recorded c e.audit.lines (enqueued env.message_id from ask.from_cell))
        d f _ _
        (write-Post _ _ w _ f (answered-Sound c p.ask_id env d f (Kept-Sound c d f k), said)
          (Kept-Sound c d f k))
        λ _ e s.
          then-Sound c _ d e _ _
            (write_row-Sound c w env.message_id ask.from_cell d e s.0
              (_, s.1, refl, inl (refl, refl)))
            λ _ e row.
              then-Sound c _ d e _ _ (wake-Sound c p.ask_id d e row.0) λ _ e s. pure-Sound c _ d e s

  settle-Sound :
      (from : String) (p : ReplyParams) (ask : Ask) (env : Envelope) (outcome : ReplyOutcome)
      (d f : DaemonState)
      → Kept d f
      → Ends w.codec d (settle w from p ask env outcome f)
  unfolding settle Post
  settle-Sound from p ask env recorded d f k =
      next-Sound w.codec d f _ _ k (insert_envelope-Keeps w env) λ _ e k.
        step-Sound w.codec
          (λ _ e. Recorded w.codec e.audit.lines (enqueued env.message_id from ask.from_cell)) d e _
          _ k (audit-Post w (enqueued env.message_id from ask.from_cell) e)
          λ _ e k said. answer-Sound p from ask env d e k said
  settle-Sound from p ask env (duplicate_identical message_id) d f k = Kept-Sound w.codec d f k
  settle-Sound from p ask env conflict d f k =
      next-Sound w.codec d f _ _ k
        (audit-Keeps w (plain "duplicate_reply" none (some from) (some ask.from_cell) "dropped"))
        λ _ e k. Kept-Sound w.codec d e k

  -- The same of handle_reply
  pub handle_reply-Sound :
      (from : String) (params : Value) (d : DaemonState)
      → Ends w.codec d (handle_reply w from params d)
  unfolding handle_reply
  handle_reply-Sound from params d =
      next-Sound w.codec d d _ _ (Kept-refl d)
        (lift-Keeps (reject_client_identity_keys params ("ask_id" ∷ [])))
        λ _ e k. next-Sound w.codec d e _ _ k (or_fail-Keeps (w.reply_params params) _) λ p e k.
          next-Sound w.codec d e _ _ k (lift-Keeps (check_idem (unwrap_or p.idempotency_key "")))
            λ _ e k. next-Sound w.codec d e _ _ k (lift-Keeps (check_body p.body)) λ _ e k.
              next-Sound w.codec d e _ _ k (gets-Keeps _) λ acl e k.
                next-Sound w.codec d e _ _ k (lift-Keeps (check_files acl from p.file_refs))
                  λ _ e k.
                    next-Sound w.codec d e _ _ k (lift-Keeps (check acl from Capability.reply))
                      λ _ e k. next-Sound w.codec d e _ _ k (gets-Keeps _) λ found e k.
                        next-Sound w.codec d e _ _ k (or_fail-Keeps found _) λ ask e k.
                          next-Sound w.codec d e _ _ k (fail_if-Keeps (not (ask.to_cell == from)) _)
                            λ _ e k.
                              next-Sound w.codec d e _ _ k (key_or_fresh-Keeps w p.idempotency_key)
                                λ key e k.
                                  next-Sound w.codec d e _ _ k (next_seq-Keeps from ask.from_cell)
                                    λ seq e k.
                                      next-Sound w.codec d e _ _ k
                                        (build-Keeps w (reply_draft from p ask key seq))
                                        λ env e k.
                                          next-Sound w.codec d e _ _ k (gets-Keeps _)
                                            λ outcome e k. settle-Sound from p ask env outcome d e k
