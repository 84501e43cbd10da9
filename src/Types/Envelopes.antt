-- ===== src/Types/Envelopes.antt =====
-- What `validate_invariants` and `clamp_ttl` of types.rs guarantee.
use mcp_crewd_rs.Base.{ℕ, ◌≤◌, ◌<◌, ◌≡◌, ◌≢◌, ◌⊎◌, ◌↔◌, none, some, len, arith, eq_iff}
use mcp_crewd_rs.Error.{ok}
use mcp_crewd_rs.Types.{
  Envelope, Kind, broadcast, validate_invariants, clamp_ttl, ttl_ceiling, taint_const,
  max_body_bytes,
}

-- The authority invariants I3.4 and I3.5, the constant taint and the bound on the body.
pub record IsAuthoritative (env : Envelope) : Type 0 where
  pub tainted : env.taint ≡ taint_const
  pub addressed :
      ((env.kind ≡ broadcast) × (env.to_cell ≡ none))
      ⊎ ((env.kind ≢ broadcast) × (env.to_cell ≢ none))
  pub correlated : (env.kind ≢ Kind.reply) ⊎ ((env.reply_to ≢ none) × (env.ask_id ≢ none))
  pub bounded : len env.body ≤ max_body_bytes

pub validate_invariants-IsAuthoritative :
    (env : Envelope) → validate_invariants env ≡ ok tt → IsAuthoritative env
unfolding validate_invariants
validate_invariants-IsAuthoritative env h = ground (arith, eq_iff env.taint taint_const)

pub IsAuthoritative-validate_invariants :
    (env : Envelope) → IsAuthoritative env → validate_invariants env ≡ ok tt
unfolding validate_invariants
IsAuthoritative-validate_invariants env v = ground (arith, eq_iff env.taint taint_const)

-- `validate_invariants` accepts an envelope exactly when the taint is the constant one, `to_cell` is
-- null exactly for a broadcast, a reply carries both `reply_to` and `ask_id`, and the body has at
-- most 65536 bytes.
pub validate_invariants_iff :
    (env : Envelope) → (validate_invariants env ≡ ok tt) ↔ IsAuthoritative env
validate_invariants_iff env =
    (validate_invariants-IsAuthoritative env, IsAuthoritative-validate_invariants env)

-- A TTL is never rejected: a request within the ceiling of the kind is granted as it is, a longer
-- one becomes the ceiling, and no request stands for the ceiling.
pub clamp_ttl_lem :
    (kind : Kind) (s : ℕ)
    → (clamp_ttl kind none ≡ ttl_ceiling kind)
      × (((s ≤ ttl_ceiling kind) × (clamp_ttl kind (some s) ≡ s))
          ⊎ ((ttl_ceiling kind < s) × (clamp_ttl kind (some s) ≡ ttl_ceiling kind)))
unfolding clamp_ttl
clamp_ttl_lem kind s = ground arith
