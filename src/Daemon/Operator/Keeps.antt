-- ===== src/Daemon/Operator/Keeps.antt =====
-- The calls of the operator in crates/crewd/src/handlers.rs keep the messages.
use mcp_crewd_rs.Base.{String, [], ◌∷◌}
use mcp_crewd_rs.Canonical.{Value}
use mcp_crewd_rs.Acl.{Capability, check}
use mcp_crewd_rs.Daemon.{World, reject_client_identity_keys}
use mcp_crewd_rs.Daemon.Trail.{
  Post-Kept, Kept-refl, Keeps, next_step, ended, gets-Keeps, lift-Keeps, or_fail-Keeps,
}
use mcp_crewd_rs.Daemon.Gates.{Only}
use mcp_crewd_rs.Daemon.Fabric.Keeps.{pure-Keeps}
use mcp_crewd_rs.Daemon.Operator.{handle_op_status, handle_op_inspect, handle_op_audit_verify}

module _ (w : World) where
  pub handle_op_status-Keeps :
      (from : String) (params : Value) → Keeps (handle_op_status w from params)
  unfolding handle_op_status
  handle_op_status-Keeps from params d =
      next_step (Only d) d d _ _ (Kept-refl d) (lift-Keeps (reject_client_identity_keys params []))
        λ _ e k. next_step (Only d) d e _ _ k (gets-Keeps _) λ acl e k.
          next_step (Only d) d e _ _ k (lift-Keeps (check acl from Capability.read_audit))
            λ _ e k. ended d e _ k

  pub handle_op_inspect-Keeps :
      (from : String) (params : Value) → Keeps (handle_op_inspect w from params)
  unfolding handle_op_inspect
  handle_op_inspect-Keeps from params d =
      next_step (Only d) d d _ _ (Kept-refl d)
        (lift-Keeps (reject_client_identity_keys params ("id" ∷ [])))
        λ _ e k. next_step (Only d) d e _ _ k (gets-Keeps _) λ acl e k.
          next_step (Only d) d e _ _ k (lift-Keeps (check acl from Capability.read_audit)) λ _ e k.
            next_step (Only d) d e _ _ k (or_fail-Keeps (w.inspect_params params) _) λ p e k.
              next_step (Only d) d e _ _ k (gets-Keeps _) λ envelope e k.
                next_step (Only d) d e _ _ k (gets-Keeps _) λ ask e k.
                  next_step (Only d) d e _ _ k (gets-Keeps _) λ read e k.
                    next_step (Only d) d e _ _ k (lift-Keeps read)
                      λ events e k. Post-Kept (λ _ _. Unit {0}) d e _ k (pure-Keeps _ e)

  pub handle_op_audit_verify-Keeps :
      (from : String) (params : Value) → Keeps (handle_op_audit_verify w from params)
  unfolding handle_op_audit_verify
  handle_op_audit_verify-Keeps from params d =
      next_step (Only d) d d _ _ (Kept-refl d) (lift-Keeps (reject_client_identity_keys params []))
        λ _ e k. next_step (Only d) d e _ _ k (gets-Keeps _) λ acl e k.
          next_step (Only d) d e _ _ k (lift-Keeps (check acl from Capability.read_audit))
            λ _ e k. ended d e _ k
