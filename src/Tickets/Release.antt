-- ===== src/Tickets/Release.antt =====
-- The guard of an await in crates/crewd-core/src/tickets.rs gives back what it took.
use mcp_crewd_rs.Base.{
  ◌-◌, ◌^◌, ◌<◌, String, ◌≡◌, sym, ap, ◌∙◌, Bool, true, false, Option, none, some, [], ◌∷◌, arith,
  eq_refl, All,
}
use mcp_crewd_rs.Error.{Result, ok, err}
use mcp_crewd_rs.Tickets.{
  AwaitGuard, Edges, WaitForGraph, closes_cycle, activate, bump, drop_edge, try_activate_await,
  release,
}

-- Every count is positive, and has room for one more.
abbrev pub Counted : Edges → Type 0
Counted = All (λ e. (0 < e.1) × (e.1 < 2 ^ 32 - 1))

drop-bump : (es : Edges) (a b : String) → Counted es → drop_edge (bump es a b) a b ≡ es
unfolding drop_edge bump
drop-bump [] a b h = ground (arith, eq_refl a, eq_refl b)
drop-bump (((x, y), n) ∷ es) a b h = ground (arith, h.0, drop-bump es a b h.1)

given_back_or : WaitForGraph → Option (Result AwaitGuard × WaitForGraph) → WaitForGraph
unfolding release
given_back_or g none = g
given_back_or g (some (err x, h)) = g
given_back_or g (some (ok guard, h)) = release h guard

-- A release of the guard that an activation has handed out restores the graph of before.
pub release-activate :
    (g : WaitForGraph) (a b : String) (guard : AwaitGuard) (h : WaitForGraph)
    → Counted g.edges
    → try_activate_await g a b ≡ some (ok guard, h)
    → release h guard ≡ g
unfolding try_activate_await release given_back_or
release-activate g a b guard h counted e = known (closes_cycle g a b) e
  where
    known :
        (c : Option Bool)
        → activate c g a b ≡ some (ok guard, h)
        → record { edges = drop_edge h.edges guard.from guard.to } ≡ g
    known none e = absurd (cc)
    known (some true) e = absurd (cc)
    known (some false) e =
        sym (ap (given_back_or g) e)
        ∙ ap (λ es. record { edges = es }) (drop-bump g.edges a b counted)
