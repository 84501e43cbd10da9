-- ===== src/Delivery/Tests.antt =====
-- Runs of state.rs.
use mcp_crewd_rs.Base.{◌≡◌, refl, some, true}
use mcp_crewd_rs.Delivery.{claimed, delivered, acked, parse, transition_allowed}
use mcp_crewd_rs.Delivery.Machine.{}

parsed : parse "claimed" ≡ some claimed
unfolding parse
parsed = refl

ack : transition_allowed delivered acked ≡ true
unfolding transition_allowed
ack = refl
