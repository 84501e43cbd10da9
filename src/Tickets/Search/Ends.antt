-- ===== src/Tickets/Search/Ends.antt =====
-- The search of tickets.rs ends within the fuel of the model.
use mcp_crewd_rs.Base.{
  ℕ, zero, suc, ◌+◌, ◌≤◌, ◌<◌, ◌≡◌, refl, String, Bool, true, false, not, ◌||◌, Option, some, List,
  [], ◌∷◌, ◌++◌, length, any, count, eqb, ◌==◌, eq_iff, eq_refl, arith, Bool-cases, inl, inr,
  length-append, count-le-length,
}
use mcp_crewd_rs.Tickets.{Edges, Scan, found, scanned, scan, search, search_fuel, mem}

-- The edges whose target was not visited yet.
abbrev unseen : Edges → List String → ℕ
unseen es visited = count (λ e. not (mem visited e.0.1)) es

abbrev targets : Edges → String → Bool
targets es b = any (λ e. e.0.1 == b) es

unseen-visit_le :
    (es : Edges) (b : String) (visited : List String) → unseen es (b ∷ visited) ≤ unseen es visited
unseen-visit_le [] b visited = omega arith
unseen-visit_le (((x, y), n) ∷ es) b visited = ground (arith, unseen-visit_le es b visited)

-- A visit to the target of an edge leaves fewer edges to see.
unseen-visit :
    (es : Edges) (b : String) (visited : List String)
    → targets es b ≡ true
    → mem visited b ≡ false
    → unseen es (b ∷ visited) < unseen es visited
unseen-visit [] b visited h k = absurd (cc)
unseen-visit (((x, y), n) ∷ es) b visited h k = ground (
  arith,
  unseen-visit es b visited,
  unseen-visit_le es b visited,
  eq_iff y b,
  eq_refl b,
  eq_iff b y,
)

abbrev Bounded : Edges → ℕ → Scan → Type 0
Bounded es n found = Unit
Bounded es n (scanned queue visited) = length queue + unseen es visited ≤ n

scan-Bounded :
    (all_edges : Edges) (n : ℕ) (es : Edges) (from node : String) (queue visited : List String)
    → ((b : String) → targets es b ≡ true → targets all_edges b ≡ true)
    → length queue + unseen all_edges visited ≤ n
    → Bounded all_edges n (scan from node es queue visited)
unfolding scan
scan-Bounded all_edges n [] from node queue visited sub h = h
scan-Bounded all_edges n (((a, b), c) ∷ rest) from node queue visited sub h =
    let later : (x : String) → targets rest x ≡ true → targets all_edges x ≡ true =
      λ x m. sub x (ground (arith, m)) in
    let old = scan-Bounded all_edges n rest from node queue visited later h in
    elim (Bool-cases (eqb c 0 || not (a == node))) [
      | inl e ↦ rw (e, scan) old
      | inr e ↦ elim (Bool-cases (b == from)) [
        | inl f ↦ rw (e, f, scan) tt
        | inr f ↦ elim (Bool-cases (mem visited b)) [
          | inl v ↦ rw (e, f, v, scan) old
          | inr v ↦
              let fewer = unseen-visit all_edges b visited (sub b (rw (eq_refl b) refl)) v in
              rw (e, f, v, scan)
                (scan-Bounded all_edges n rest from node (queue ++ b ∷ []) (b ∷ visited) later
                  (omega (arith, fewer, length-append queue (b ∷ []))))
        ]
      ]
    ]

ends_next :
    (es : Edges) (n : ℕ) (r : Scan)
    → Bounded es n r
    → (next : List String → List String → Option Bool)
    → ((queue visited : List String)
        → length queue + unseen es visited ≤ n
        → (a : Bool) × (next queue visited ≡ some a))
    → (a : Bool) × ((elim r [ found ↦ some true | scanned queue visited ↦ next queue visited ])
        ≡ some a)
ends_next es n found h next ih = (true, refl)
ends_next es n (scanned queue visited) h next ih = ih queue visited h

search_ends :
    (fuel : ℕ) (es : Edges) (from : String) (queue visited : List String)
    → length queue + unseen es visited < fuel
    → (a : Bool) × (search fuel from es queue visited ≡ some a)
unfolding search
search_ends zero es from queue visited h = absurd (omega arith)
search_ends (suc fuel) es from [] visited h = (false, refl)
search_ends (suc zero) es from (node ∷ queue) visited h = absurd (omega arith)
search_ends (suc (suc fuel)) es from (node ∷ queue) visited h =
    ends_next es (length queue + unseen es visited) (scan from node es queue visited)
      (scan-Bounded es _ es from node queue visited (λ b m. m) (omega arith))
      (search (suc fuel) from es) (λ q v k. search_ends (suc fuel) es from q v (omega arith))

-- The fuel of `closes_cycle` is enough.
pub search_total :
    (es : Edges) (from to : String)
    → (a : Bool) × (search (search_fuel es) from es (to ∷ []) (to ∷ []) ≡ some a)
search_total es from to =
    search_ends (search_fuel es) es from (to ∷ []) (to ∷ [])
      (omega (arith, count-le-length (λ e. not (mem (to ∷ []) e.0.1)) es))
