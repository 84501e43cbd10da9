-- ===== src/Tickets/Acyclic.antt =====
-- Which graphs the awaits of tickets.rs build: never a cycle.
use mcp_crewd_rs.Base.{
  ◌≡◌, refl, sym, ◌∙◌, subst, ◌⊎◌, inl, inr, String, Bool, true, false, Option, some, [], ◌∷◌,
  eq_iff, arith,
}
use mcp_crewd_rs.Error.{Result, ok, err, would_deadlock}
use mcp_crewd_rs.Tickets.{
  Edges, WaitForGraph, AwaitGuard, new, closes_cycle, try_activate_await, bump, drop_edge, release,
}
use mcp_crewd_rs.Tickets.Graph.{Edge, Waits, direct, through, FromTo}
use mcp_crewd_rs.Tickets.Search.{Decides, closes_cycle-Decides}

-- Nobody waits for itself.
abbrev pub IsAcyclic : Edges → Type 0
IsAcyclic es = (a : String) → ¬ Waits es a a

Edge-bump :
    (es : Edges) (f t a b : String) → Edge (bump es f t) a b → Edge es a b ⊎ ((f ≡ a) × (t ≡ b))
unfolding bump
Edge-bump [] f t a b (inl e) = inr (e.1, e.2)
Edge-bump [] f t a b (inr e) = absurd e
Edge-bump (((x, y), n) ∷ es) f t a b e =
    ground (arith, Edge-bump es f t a b, eq_iff x f, eq_iff y t)

Edge-drop : (es : Edges) (f t a b : String) → Edge (drop_edge es f t) a b → Edge es a b
unfolding drop_edge
Edge-drop [] f t a b e = e
Edge-drop (((x, y), n) ∷ es) f t a b e = ground (arith, Edge-drop es f t a b)

-- A chain over the new graph either does without the new edge or passes it.
Waits-bump :
    (es : Edges) (f t : String) {a b : String}
    → Waits (bump es f t) a b
    → Waits es a b ⊎ (FromTo es a f × FromTo es t b)
Waits-bump es f t {a} {b} (direct e) = elim (Edge-bump es f t a b e) [
  | inl old ↦ inl (direct old)
  | inr new ↦ inr (inl (sym new.0), inl new.1)
]
Waits-bump es f t {a} {b} (through {b = c} e w) = elim (Edge-bump es f t a c e) [
  | inl old ↦ elim (Waits-bump es f t w) [
    | inl tail ↦ inl (through old tail)
    | inr split ↦ elim split.0 [
      | inl p ↦ inr (inr (subst (Waits es a) p (direct old)), split.1)
      | inr chain ↦ inr (inr (through old chain), split.1)
    ]
  ]
  | inr new ↦ elim (Waits-bump es f t w) [
    | inl tail ↦ inr (inl (sym new.0), inr (subst (λ x. Waits es x b) (sym new.1) tail))
    | inr split ↦ inr (inl (sym new.0), split.1)
  ]
]

join : {es : Edges} {a b c : String} → Waits es a b → FromTo es b c → Waits es a c
join {es} {a} w (inl p) = subst (Waits es a) p w
join (direct e) (inr v) = through e v
join (through e w) (inr v) = through e (join w (inr v))

FromTo-trans : {es : Edges} {a b c : String} → FromTo es a b → FromTo es b c → FromTo es a c
FromTo-trans {es} {c = c} (inl p) v = subst (λ x. FromTo es x c) (sym p) v
FromTo-trans (inr w) v = inr (join w v)

bump-IsAcyclic :
    (es : Edges) (f t : String) → IsAcyclic es → ¬ FromTo es t f → IsAcyclic (bump es f t)
bump-IsAcyclic es f t acyclic no_way a w = elim (Waits-bump es f t w) [
  | inl old ↦ acyclic a old
  | inr split ↦ no_way (FromTo-trans split.1 split.0)
]

Waits-drop :
    (es : Edges) (f t : String) {a b : String} → Waits (drop_edge es f t) a b → Waits es a b
Waits-drop es f t {a} {b} (direct e) = direct (Edge-drop es f t a b e)
Waits-drop es f t {a} (through {b = c} e w) = through (Edge-drop es f t a c e) (Waits-drop es f t w)

-- The two outcomes of an await.
abbrev pub Outcome : WaitForGraph → String → String → Type 0
Outcome g from to =
    ((try_activate_await g from to ≡ some (err would_deadlock, g)) × FromTo g.edges to from)
    ⊎ ((try_activate_await g from to
          ≡ some (ok (record { from = from; to = to }), record { edges = bump g.edges from to }))
        × ¬ FromTo g.edges to from)

-- An await is refused, with the graph left as it is, exactly when `from` is `to` or `to` already
-- waits for `from`, directly or through others; otherwise its edge is counted. The search for the
-- cycle always ends.
pub try_activate_await-Outcome : (g : WaitForGraph) (from to : String) → Outcome g from to
unfolding try_activate_await
try_activate_await-Outcome g from to = outcome (closes_cycle-Decides g from to)
  where
    outcome :
        (b : Bool) × (closes_cycle g from to ≡ some b) × Decides (FromTo g.edges to from) b
        → Outcome g from to
    outcome (true, h, d) = inl (rw h refl, d)
    outcome (false, h, d) = inr (rw h refl, d)

-- One call on the daemon's graph. A guard may come back in any order, and more than once.
pub data Step (g : WaitForGraph) : WaitForGraph → Type 0 where
  await :
      {g' : WaitForGraph} {r : Result AwaitGuard} (from to : String)
      → try_activate_await g from to ≡ some (r, g')
      → Step g g'
  released : {g' : WaitForGraph} (guard : AwaitGuard) → g' ≡ release g guard → Step g g'

pub data Reach (g : WaitForGraph) : WaitForGraph → Type 0 where
  here : Reach g g
  next : {h k : WaitForGraph} → Reach g h → Step h k → Reach g k

Step-IsAcyclic : {g h : WaitForGraph} → Step g h → IsAcyclic g.edges → IsAcyclic h.edges
unfolding release
Step-IsAcyclic {g} {h} (await from to e) v = elim (try_activate_await-Outcome g from to) [
  | inl refused ↦ subst (λ k. IsAcyclic k.edges) (same (sym refused.0 ∙ e)) v
  | inr accepted ↦
      subst (λ k. IsAcyclic k.edges) (same (sym accepted.0 ∙ e))
        (bump-IsAcyclic g.edges from to v accepted.1)
]
  where
    same :
        {r s : Result AwaitGuard} {k l : WaitForGraph}
        → ◌≡◌ {A = Option (Result AwaitGuard × WaitForGraph)} (some (r, k)) (some (s, l))
        → k ≡ l
    same p = cc
Step-IsAcyclic {g} (released guard e) v =
    rw e (λ a w. v a (Waits-drop g.edges guard.from guard.to w))

Reach-IsAcyclic : {g h : WaitForGraph} → Reach g h → IsAcyclic g.edges → IsAcyclic h.edges
Reach-IsAcyclic here v = v
Reach-IsAcyclic (next r s) v = Step-IsAcyclic s (Reach-IsAcyclic r v)

new-IsAcyclic : IsAcyclic new.edges
new-IsAcyclic a (direct e) = e
new-IsAcyclic a (through e w) = e

-- No deadlock: whatever awaits are activated, refused and released, in any order, no cell waits for
-- itself, directly or through others.
pub no_deadlock : (g : WaitForGraph) (a : String) → Reach new g → ¬ Waits g.edges a a
no_deadlock g a r = Reach-IsAcyclic r new-IsAcyclic a
