-- ===== src/Tickets/Search.antt =====
-- The search of tickets.rs decides whether a chain of active awaits leads from `to` to `from`.
mod Sound
mod Complete
mod Ends
use mcp_crewd_rs.Base.{
  ◌≡◌, inl, inr, sym, String, Bool, true, false, some, [], ◌∷◌, ◌==◌, eq_iff, eq_refl, arith,
  Bool-cases, refl,
}
use mcp_crewd_rs.Tickets.{Edges, WaitForGraph, search, search_fuel, closes_cycle}
use mcp_crewd_rs.Tickets.Graph.{FromTo}
use Sound.{search-sound}
use Complete.{search_complete}
use Ends.{search_total}

-- `r` answers whether `P` holds.
abbrev pub Decides {ℓ} : Type ℓ → Bool → Type ℓ
Decides P true = P
Decides P false = ¬ P

search-Decides :
    (es : Edges) (from to : String) (b : Bool)
    → (from == to) ≡ false
    → search (search_fuel es) from es (to ∷ []) (to ∷ []) ≡ some b
    → Decides (FromTo es to from) b
search-Decides es from to true ne h =
    inr (search-sound (search_fuel es) es to from (to ∷ []) (to ∷ []) (inl refl, tt) h)
search-Decides es from to false ne h = λ w. elim w [
  | inl e ↦ ground (arith, eq_iff from to, e)
  | inr chain ↦
      search_complete (search_fuel es) es to from (to ∷ []) (to ∷ []) (λ v b m e. inl m)
        (ground (arith, eq_refl to)) h chain
]

-- `closes_cycle` always ends, and answers whether `from` is `to` or is reached from `to` along
-- active awaits: whether an await of `from` on `to` would close a cycle.
pub closes_cycle-Decides :
    (g : WaitForGraph) (from to : String)
    → (b : Bool) × (closes_cycle g from to ≡ some b) × Decides (FromTo g.edges to from) b
unfolding closes_cycle
closes_cycle-Decides g from to = elim (Bool-cases (from == to)) [
  | inl e ↦ (true, rw e, inl (sym ((eq_iff from to).0 e)))
  | inr e ↦
      let (b, h) = search_total g.edges from to in (b, rw e h, search-Decides g.edges from to b e h)
]
