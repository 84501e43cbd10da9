-- ===== src/Quota/Tests.antt =====
-- Runs of quota.rs.
use mcp_crewd_rs.Base.{◌≤◌, List, [], ◌∷◌, count, arith}
use mcp_crewd_rs.Quota.{new, default_config}
use mcp_crewd_rs.Quota.Window.{is_recent}
use mcp_crewd_rs.Quota.Rate.{Request, granted, Ordered, sender_rate_bound}

abbrev burst : List Request
burst =
    record { from = "a"; at = 1000; units = 40 }
    ∷ record { from = "b"; at = 2000; units = 10 }
    ∷ record { from = "a"; at = 3000; units = 30 }
    ∷ record { from = "a"; at = 62000; units = 30 }
    ∷ []

burst-Ordered : Ordered 0 burst
burst-Ordered = (omega arith, (omega arith, (omega arith, (omega arith, tt))))

sender_rate_bound_example : count (is_recent 62000) (granted "a" (new default_config) burst) ≤ 60
sender_rate_bound_example = sender_rate_bound default_config burst "a" burst-Ordered
