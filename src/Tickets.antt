-- ===== src/Tickets.antt =====
-- crates/crewd-core/src/tickets.rs: the wait-for graph over active awaits. The `HashMap` of edges is
-- the list of its entries in the order of its iteration. Of a cycle that `closes_cycle` finds only
-- the fact is modelled: the path that it also returns serves for the text of the error alone.
pub mod Graph
pub mod Search
pub mod Acyclic
pub mod Release
pub mod Counts
mod Tests
use mcp_crewd_rs.Base.{
  ℕ, zero, suc, ◌+◌, ◌-◌, ◌^◌, ◌%◌, String, Bool, true, false, ◌&&◌, ◌||◌, not, Option, none, some,
  List, [], ◌∷◌, ◌++◌, length, count, any, eqb, ltb, ◌==◌, if◌then◌else◌,
}
use mcp_crewd_rs.Error.{Result, ok, err, would_deadlock}

pub record AwaitGuard : Type 0 where
  pub from : String
  pub to : String

abbrev pub Edges : Type 0
Edges = List ((String × String) × ℕ)

pub record WaitForGraph : Type 0 where
  pub edges : Edges

abbrev pub new : WaitForGraph
new = record { edges = [] }

pub edge_count : WaitForGraph → ℕ
edge_count g = count (λ e. ltb 0 e.1) g.edges

abbrev pub mem : List String → String → Bool
mem names name = any (λ n. n == name) names

-- The inner loop: `found` when an active edge leaves `node` for `from`; otherwise the queue and the
-- visited set, with the successors that were not visited yet at the back of the queue.
pub data Scan : Type 0 where
  found : Scan
  scanned : List String → List String → Scan

unfoldable pub scan : String → String → Edges → List String → List String → Scan
scan from node [] queue visited = scanned queue visited
scan from node (((a, b), count) ∷ rest) queue visited =
    let skip = scan from node rest queue visited in
    let push = scan from node rest (queue ++ b ∷ []) (b ∷ visited) in
    if eqb count 0 || not (a == node)
    then skip
    else if b == from
    then found
    else if mem visited b
    then skip
    else push

-- The outer loop, on fuel; `none` means that the fuel ran out.
unfoldable pub search : ℕ → String → Edges → List String → List String → Option Bool
search zero from edges queue visited = none
search (suc fuel) from edges [] visited = some false
search (suc fuel) from edges (node ∷ queue) visited = elim (scan from node edges queue visited) [
  | found ↦ some true
  | scanned queue' visited' ↦ search fuel from edges queue' visited'
]

-- A node enters the queue at most once for each edge, and `to` once.
abbrev pub search_fuel : Edges → ℕ
search_fuel edges = suc (suc (length edges))

unfoldable pub closes_cycle : WaitForGraph → String → String → Option Bool
unfolding search scan
closes_cycle g from to =
    if from == to then some true else search (search_fuel g.edges) from g.edges (to ∷ []) (to ∷ [])

abbrev pub u32_mod : ℕ
u32_mod = 2 ^ 32

-- `*edges.entry((from, to)).or_insert(0) += 1`
unfoldable pub bump : Edges → String → String → Edges
bump [] from to = ((from, to), 1) ∷ []
bump (((a, b), count) ∷ rest) from to =
    let later = bump rest from to in
    if (a == from) && (b == to)
    then ((a, b), (count + 1) % u32_mod) ∷ rest
    else ((a, b), count) ∷ later

-- `none` stands for a search that did not end.
abbrev activate :
    Option Bool → WaitForGraph → String → String → Option (Result AwaitGuard × WaitForGraph)
activate none g from to = none
activate (some true) g from to = some (err would_deadlock, g)
activate (some false) g from to =
    some (ok (record { from = from; to = to }), record { edges = bump g.edges from to })

unfoldable pub try_activate_await :
    WaitForGraph → String → String → Option (Result AwaitGuard × WaitForGraph)
unfolding closes_cycle bump
try_activate_await g from to = activate (closes_cycle g from to) g from to

-- `saturating_sub` on the count of the edge, which goes when the count is 0.
pub drop_edge : Edges → String → String → Edges
drop_edge [] from to = []
drop_edge (((a, b), count) ∷ rest) from to =
    let later = drop_edge rest from to in
    if (a == from) && (b == to)
    then (if eqb (count - 1) 0 then rest else ((a, b), count - 1) ∷ rest)
    else ((a, b), count) ∷ later

pub release : WaitForGraph → AwaitGuard → WaitForGraph
unfolding drop_edge
release g guard = record { edges = drop_edge g.edges guard.from guard.to }
