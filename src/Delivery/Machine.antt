-- ===== src/Delivery/Machine.antt =====
-- Histories of one delivery under the transition table of state.rs.
use mcp_crewd_rs.Base.{◌≡◌, refl, ◌⊎◌, inr, String, some, true, arith, eq_iff}
use mcp_crewd_rs.Delivery.{
  DeliveryState, queued, claimed, delivered, acked, failed, expired, as_str, parse,
  transition_allowed,
}

-- The text in the `state` column stands for one state.
pub parse-as_str : (s : DeliveryState) → parse (as_str s) ≡ some s
unfolding parse as_str
parse-as_str queued = refl
parse-as_str claimed = refl
parse-as_str delivered = refl
parse-as_str acked = refl
parse-as_str failed = refl
parse-as_str expired = refl

-- A text that `parse` reads as a state is the text that is written for that state.
pub parse-eq-some : (s : String) (d : DeliveryState) → parse s ≡ some d → s ≡ as_str d
unfolding parse as_str
parse-eq-some s queued h = ground (arith, eq_iff s "queued")
parse-eq-some s claimed h = ground (arith, eq_iff s "claimed")
parse-eq-some s delivered h = ground (arith, eq_iff s "delivered")
parse-eq-some s acked h = ground (arith, eq_iff s "acked")
parse-eq-some s failed h = ground (arith, eq_iff s "failed")
parse-eq-some s expired h = ground (arith, eq_iff s "expired")

-- A history of allowed transitions.
pub data Reach (s : DeliveryState) : DeliveryState → Type 0 where
  here : Reach s s
  next : {t u : DeliveryState} → Reach s t → transition_allowed t u ≡ true → Reach s u

abbrev pub IsTerminal : DeliveryState → Type 0
IsTerminal s = (s ≡ acked) ⊎ (s ≡ failed) ⊎ (s ≡ expired)

terminal_step : (s t : DeliveryState) → IsTerminal s → transition_allowed s t ≡ true → ⊥
unfolding transition_allowed
terminal_step acked t w h = ground arith
terminal_step failed t w h = ground arith
terminal_step expired t w h = ground arith
terminal_step _ t w h = ground arith

-- A delivery that is acked, failed or expired stays so.
pub Reach-terminal : {s t : DeliveryState} → IsTerminal s → Reach s t → t ≡ s
Reach-terminal w here = refl
Reach-terminal {s} w (next {t = t} {u = u} r h) =
    absurd (terminal_step t u (rw (Reach-terminal w r) w) h)

abbrev pub AfterHandoff : DeliveryState → Type 0
AfterHandoff s = (s ≡ delivered) ⊎ (s ≡ acked)

handoff_step :
    (s t : DeliveryState) → AfterHandoff s → transition_allowed s t ≡ true → AfterHandoff t
unfolding transition_allowed
handoff_step delivered acked w h = inr refl
handoff_step delivered t w h = ground arith
handoff_step s t w h = ground arith

-- After the handoff a delivery is never queued, failed or expired again: it is delivered or acked.
pub Reach-handoff : {s t : DeliveryState} → AfterHandoff s → Reach s t → AfterHandoff t
Reach-handoff w here = w
Reach-handoff w (next {t = t} {u = u} r h) = handoff_step t u (Reach-handoff w r) h
