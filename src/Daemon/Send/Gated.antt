-- ===== src/Daemon/Send/Gated.antt =====
-- handle_send of crates/crewd/src/handlers.rs: what a success has passed, and that a denial comes first.
use mcp_crewd_rs.Base.{
  List, ◌∷◌, refl, ◌⊎◌, inl, inr, String, ◌≡◌, ◌∙◌, subst, true, none, some, [], unwrap_or,
}
use mcp_crewd_rs.Error.{BusError, ok, err}
use mcp_crewd_rs.Types.{task}
use mcp_crewd_rs.Canonical.{Value}
use mcp_crewd_rs.Acl.{Acl, Capability, via_send, check, is_registered, check_reach}
use mcp_crewd_rs.Wire.{SendParams}
use mcp_crewd_rs.Daemon.{
  World, DaemonState, check_body, check_idem, reject_client_identity_keys, check_msg_type, audit,
}
use mcp_crewd_rs.Daemon.Success.{
  Success, then_lift, then_gets, then_or_fail, then_call, known, Success-ok,
}
use mcp_crewd_rs.Daemon.Runs.{denied, run_lift, run_or_fail, run_gets, run_denied}
use mcp_crewd_rs.Daemon.Outbound.{check_files, denied_reach}
use mcp_crewd_rs.Daemon.Outbound.Passed.{
  Authorized, WithinRates, HasRoom, authorize-Authorized, authorize-denied, admit-HasRoom,
}
use mcp_crewd_rs.Daemon.Send.{handle_send}

module _ (w : World) where
  -- The checks of a message that is sent
  abbrev pub Passed : String → Value → DaemonState → Type 0
  Passed from params d =
      (p : SendParams) × (w.send_params params ≡ some p)
      × (check_msg_type d.acl from (unwrap_or p.msg_type task) ≡ ok tt)
      × Authorized d.acl from p.to_cell Capability.send via_send
      × (reject_client_identity_keys params [] ≡ ok tt)
      × (check_idem (unwrap_or p.idempotency_key "") ≡ ok tt)
      × (check_body p.body ≡ ok tt)
      × ((p.file_refs ≡ []) ⊎ (check d.acl from Capability.attach_files ≡ ok tt))
      × HasRoom d p.to_cell
      × WithinRates d (w.millis d.tick) from Capability.send 1

  files_allowed :
      (acl : Acl) (from : String) (files : List String)
      → check_files acl from files ≡ ok tt
      → (files ≡ []) ⊎ (check acl from Capability.attach_files ≡ ok tt)
  files_allowed acl from [] h = inl refl
  files_allowed acl from (file ∷ files) h = inr h

  send-Passed :
      (from : String) (params : Value) (d : DaemonState)
      → Success (λ _ _. Passed from params d) (handle_send w from params d)
  unfolding handle_send
  send-Passed from params d =
      let Q : Value → DaemonState → Type 0 = λ _ _. Passed from params d in
      then_lift Q (reject_client_identity_keys params []) _ d λ _ plain_keys.
        then_or_fail Q (w.send_params params) _ _ d λ p parsed. then_gets Q _ _ d (
          then_lift Q (check_msg_type d.acl from (unwrap_or p.msg_type task)) _ d λ _ typed.
            then_call Q _ _ _ d (authorize-Authorized w from p.to_cell Capability.send via_send d)
              λ _ e allowed.
                then_lift Q (check_idem (unwrap_or p.idempotency_key "")) _ e λ _ short_key.
                  then_lift Q (check_body p.body) _ e λ _ short.
                    then_lift Q (check_files d.acl from p.file_refs) _ e λ _ attached.
                      then_call Q _ _ _ e (admit-HasRoom w from p.to_cell Capability.send 1 e)
                        λ _ f room.
                          let here : HasRoom d p.to_cell
                              × WithinRates d (w.millis d.tick) from Capability.send 1 =
                            subst
                              (λ x.
                                HasRoom x p.to_cell
                                × WithinRates x (w.millis x.tick) from Capability.send 1)
                              allowed.1 (room.0, room.1) in
                          known
                            (
                              p,
                              parsed,
                              typed,
                              allowed.0,
                              plain_keys,
                              short_key,
                              short,
                              files_allowed d.acl from p.file_refs attached,
                              here.0,
                              here.1,
                            )
                            _)

  -- A send that succeeds has passed every check, at the state in which it came: its parameters have
  -- no key that only the daemon sets, and parse; the sender may use the semantic type, has the capability
  -- and reaches the registered recipient; neither the key nor the body is too long; the sender may
  -- attach files, or attaches none; the recipient's queue has room; and no rate is exceeded.
  pub handle_send-Passed :
      (from : String) (params : Value) (d : DaemonState) {v : Value} {e : DaemonState}
      → handle_send w from params d ≡ (ok v, e)
      → Passed from params d
  handle_send-Passed from params d =
      Success-ok (λ _ _. Passed from params d) _ (send-Passed from params d)

  -- A sender that may send but does not reach the recipient is denied whatever the body, the key, the
  -- quotas and the queue are: the outcome is that of the audit of the denial, and E_ACL_DENIED when the
  -- audit succeeds. The store, the quotas and the graph are as before.
  pub handle_send-denied :
      (from : String) (params : Value) (p : SendParams) (x : BusError) (d : DaemonState)
      → reject_client_identity_keys params [] ≡ ok tt
      → w.send_params params ≡ some p
      → check_msg_type d.acl from (unwrap_or p.msg_type task) ≡ ok tt
      → check d.acl from Capability.send ≡ ok tt
      → is_registered d.acl p.to_cell ≡ true
      → check_reach d.acl from p.to_cell via_send ≡ err x
      → handle_send w from params d ≡ denied x (audit w (denied_reach none from p.to_cell) d)
  unfolding handle_send
  handle_send-denied from params p x d keys parsed typed allowed registered unreached =
      run_lift _ _ d tt keys
      ∙ run_or_fail _ _ _ d p parsed
      ∙ run_gets _ _ d
      ∙ run_lift _ _ d tt typed
      ∙ run_denied x (audit w (denied_reach none from p.to_cell) d) _ _ d (
          authorize-denied w from p.to_cell Capability.send via_send x d allowed registered
            unreached)
