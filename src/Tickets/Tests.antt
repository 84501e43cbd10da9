-- ===== src/Tickets/Tests.antt =====
-- Runs of tickets.rs.
use mcp_crewd_rs.Base.{◌+◌, ◌%◌, ◌^◌, ◌⊎◌, ◌≡◌, refl, Bool, some, [], ◌∷◌}
use mcp_crewd_rs.Error.{ok, err, would_deadlock}
use mcp_crewd_rs.Tickets.{WaitForGraph, new, search, scan, bump, closes_cycle, try_activate_await}
use mcp_crewd_rs.Tickets.Graph.{Waits, FromTo}
use mcp_crewd_rs.Tickets.Search.{closes_cycle-Decides, Decides}
use mcp_crewd_rs.Tickets.Counts.{count_of, try_activate_await_lem}
use mcp_crewd_rs.Tickets.Acyclic.{Reach, here, next, await, no_deadlock}

abbrev one_wait : WaitForGraph
one_wait = record { edges = (("a", "b"), 1) ∷ [] }

abbrev two_waits : WaitForGraph
two_waits = record { edges = (("a", "b"), 1) ∷ (("b", "c"), 1) ∷ [] }

third_await_refused : try_activate_await two_waits "c" "a" ≡ some (err would_deadlock, two_waits)
unfolding try_activate_await closes_cycle search scan
third_await_refused = refl

first_await : try_activate_await new "a" "b" ≡ some (ok (record { from = "a"; to = "b" }), one_wait)
unfolding try_activate_await closes_cycle search scan bump
first_await = refl

second_await :
    try_activate_await one_wait "b" "c" ≡ some (ok (record { from = "b"; to = "c" }), two_waits)
unfolding try_activate_await closes_cycle search scan bump
second_await = refl

two_waits-Reach : Reach new two_waits
two_waits-Reach = next (next here (await "a" "b" first_await)) (await "b" "c" second_await)

no_deadlock_example : ¬ Waits two_waits.edges "a" "a"
no_deadlock_example = no_deadlock two_waits "a" two_waits-Reach

closes_cycle-Decides_example :
    (b : Bool) × (closes_cycle two_waits "c" "a" ≡ some b)
    × Decides (FromTo two_waits.edges "a" "c") b
closes_cycle-Decides_example = closes_cycle-Decides two_waits "c" "a"

try_activate_await_lem_example :
    ((try_activate_await one_wait "b" "c" ≡ some (err would_deadlock, one_wait))
      × FromTo one_wait.edges "c" "b")
    ⊎ ((¬ FromTo one_wait.edges "c" "b")
        × ((h : WaitForGraph) × (try_activate_await one_wait "b" "c"
              ≡ some (ok (record { from = "b"; to = "c" }), h))
            × (count_of h.edges "b" "c" ≡ (count_of one_wait.edges "b" "c" + 1) % 2 ^ 32)
            × (count_of h.edges "a" "b" ≡ count_of one_wait.edges "a" "b")))
try_activate_await_lem_example = try_activate_await_lem one_wait "b" "c" "a" "b" refl
