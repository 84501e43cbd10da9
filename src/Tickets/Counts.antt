-- ===== src/Tickets/Counts.antt =====
-- How often each edge of the graph of tickets.rs is counted.
use mcp_crewd_rs.Base.{
  ℕ, suc, ◌+◌, ◌%◌, ◌^◌, ◌<◌, String, ◌≡◌, refl, sym, ap, ◌∙◌, ◌⊎◌, inl, inr, false, some, [], ◌∷◌,
  ◌&&◌, ◌==◌, if◌then◌else◌, eq_iff, eq_refl, arith,
}
use mcp_crewd_rs.Error.{Result, ok, err, would_deadlock}
use mcp_crewd_rs.Tickets.{AwaitGuard, Edges, WaitForGraph, bump, try_activate_await}
use mcp_crewd_rs.Tickets.Graph.{FromTo}
use mcp_crewd_rs.Tickets.Release.{Counted}
use mcp_crewd_rs.Tickets.Acyclic.{try_activate_await-Outcome}

-- The active awaits of `a` on `b`; an edge that is not in the map has none.
abbrev pub count_of : Edges → String → String → ℕ
count_of [] a b = 0
count_of (((x, y), n) ∷ rest) a b =
    let later = count_of rest a b in if (x == a) && (y == b) then n else later

count_of-bump :
    (es : Edges) (a b : String) → count_of (bump es a b) a b ≡ (count_of es a b + 1) % 2 ^ 32
unfolding bump
count_of-bump [] a b = ground (arith, eq_refl a, eq_refl b)
count_of-bump (((x, y), n) ∷ es) a b = ground (arith, count_of-bump es a b)

count_of-bump_other :
    (es : Edges) (a b c d : String)
    → (c == a && d == b) ≡ false
    → count_of (bump es a b) c d ≡ count_of es c d
unfolding bump
count_of-bump_other [] a b c d h = ground (arith, h, eq_iff a c, eq_iff b d, eq_iff c a, eq_iff d b)
count_of-bump_other (((x, y), n) ∷ es) a b c d h = ground (
  arith,
  h,
  count_of-bump_other es a b c d h,
  eq_iff x a,
  eq_iff y b,
  eq_iff x c,
  eq_iff y d,
  eq_iff c a,
  eq_iff d b,
)

-- An await is refused, with the graph left as it is, exactly when `from` is `to` or `to` already waits
-- for `from`, directly or through others. Otherwise it hands out a guard for its edge, which is then
-- counted once more, in a u32, while every other edge keeps its count.
pub try_activate_await_lem :
    (g : WaitForGraph) (from to c d : String)
    → (c == from && d == to) ≡ false
    → ((try_activate_await g from to ≡ some (err would_deadlock, g)) × FromTo g.edges to from)
      ⊎ ((¬ FromTo g.edges to from)
          × ((h : WaitForGraph) × (try_activate_await g from to
                ≡ some (ok (record { from = from; to = to }), h))
              × (count_of h.edges from to ≡ (count_of g.edges from to + 1) % 2 ^ 32)
              × (count_of h.edges c d ≡ count_of g.edges c d)))
try_activate_await_lem g from to c d other = elim (try_activate_await-Outcome g from to) [
  | inl refused ↦ inl refused
  | inr accepted ↦ inr (
    accepted.1,
    (
      record { edges = bump g.edges from to },
      accepted.0,
      count_of-bump g.edges from to,
      count_of-bump_other g.edges from to c d other,
    ),
  )
]

count_of-Counted : (es : Edges) (a b : String) → Counted es → count_of es a b + 1 < 2 ^ 32
count_of-Counted [] a b h = omega arith
count_of-Counted (((x, y), n) ∷ es) a b h = ground (arith, h.0, count_of-Counted es a b h.1)

-- The edge of the guard is counted once more.
abbrev pub Taken : String → String → WaitForGraph → AwaitGuard → WaitForGraph → Type 0
Taken from to g guard h =
    (guard.from ≡ from)
    × (guard.to ≡ to)
    × (count_of h.edges from to ≡ suc (count_of g.edges from to))

granted-Taken :
    (g : WaitForGraph) (from to : String) (outcome : Result AwaitGuard × WaitForGraph)
    (guard : AwaitGuard) (h : WaitForGraph)
    → Counted g.edges
    → outcome ≡ (ok (record { from = from; to = to }), record { edges = bump g.edges from to })
    → outcome ≡ (ok guard, h)
    → Taken from to g guard h
granted-Taken g from to outcome guard h counted made e =
    let both = sym made ∙ e in
    let same_guard : record { from = from; to = to } ≡ guard = cc in
    let same_graph : record { edges = bump g.edges from to } ≡ h = cc in
    (
      ap (λ (x : AwaitGuard). x.from) (sym same_guard),
      ap (λ (x : AwaitGuard). x.to) (sym same_guard),
      ap (λ (x : WaitForGraph). count_of x.edges from to) (sym same_graph)
          ∙ omega (arith, count_of-bump g.edges from to, count_of-Counted g.edges from to counted),
    )

pub try_activate_await-Taken :
    (g : WaitForGraph) (from to : String) (guard : AwaitGuard) (h : WaitForGraph)
    → Counted g.edges
    → try_activate_await g from to ≡ some (ok guard, h)
    → Taken from to g guard h
try_activate_await-Taken g from to guard h counted e = elim (try_activate_await-Outcome g from to) [
  | inl refused ↦ absurd (ground (arith, e, refused.0))
  | inr accepted ↦ granted-Taken g from to (ok guard, h) guard h counted (cc) refl
]
