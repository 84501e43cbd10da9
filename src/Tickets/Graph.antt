-- ===== src/Tickets/Graph.antt =====
-- Who waits for whom in the graph of tickets.rs.
use mcp_crewd_rs.Base.{◌<◌, ◌≡◌, sym, ◌⊎◌, inl, inr, String, [], ◌∷◌, subst}
use mcp_crewd_rs.Tickets.{Edges}

-- An active await of `a` on `b`.
abbrev pub Edge : Edges → String → String → Type 0
Edge [] a b = ⊥
Edge (((x, y), n) ∷ rest) a b = ((0 < n) × (x ≡ a) × (y ≡ b)) ⊎ Edge rest a b

-- `a` waits, directly or through others, for `b`.
pub data Waits (es : Edges) : String → String → Type 0 where
  direct : {a b : String} → Edge es a b → Waits es a b
  through : {a b c : String} → Edge es a b → Waits es b c → Waits es a c

pub snoc : {es : Edges} {a b c : String} → Waits es a b → Edge es b c → Waits es a c
snoc (direct e) f = through e (direct f)
snoc (through e w) f = through e (snoc w f)

-- `b` is `a`, or `a` waits for it.
abbrev pub FromTo : Edges → String → String → Type 0
FromTo es a b = (a ≡ b) ⊎ Waits es a b

pub extend : {es : Edges} {a b c : String} → FromTo es a b → Edge es b c → Waits es a c
extend {es} {c = c} (inl p) e = subst (λ x. Waits es x c) (sym p) (direct e)
extend (inr w) e = snoc w e
