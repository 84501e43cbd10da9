-- ===== src/Supervisor/Backoff.antt =====
-- How long a cell waits after the restarts of every cell, in crates/crewd/src/supervisor.rs.
use mcp_crewd_rs.Base.{
  ℕ, ◌+◌, ◌-◌, ◌^◌, ◌≤◌, min, String, ◌≡◌, refl, ap, ◌∙◌, inl, inr, none, List, [], ◌∷◌, arith,
  ◌==◌, eq_iff, if◌then◌else◌, Bool-cases, unwrap_or, count,
}
use native.Mathlib.Nat.{pow-le-pow_right}
use mcp_crewd_rs.Supervisor.{EngineSupervisor, power_of_two, respawn_backoff_secs}

long_power : (n : ℕ) → 64 ≤ n → 64 ≤ 2 ^ n
long_power n h = pow-le-pow_right {n = 2} (omega arith) {i = 6} {j = n} (omega arith)

capped_power : (n : ℕ) → min 60 (power_of_two (min n (2 ^ 32 - 1))) ≡ min 60 (2 ^ n)
unfolding power_of_two
capped_power n = ground (arith, long_power n)

module _ {A : Type 0} where
  abbrev step_of : String → EngineSupervisor A → ℕ
  step_of cell s = unwrap_or (s.backoff_step cell) 0

  abbrev pub respawn_all : List String → EngineSupervisor A → EngineSupervisor A
  respawn_all [] s = s
  respawn_all (cell ∷ cells) s = respawn_all cells (respawn_backoff_secs cell s).1

  step_of-respawn :
      (cell c : String) (s : EngineSupervisor A)
      → step_of cell (respawn_backoff_secs c s).1
        ≡ (if c == cell then min (step_of cell s + 1) (2 ^ 32 - 1) else step_of cell s)
  unfolding respawn_backoff_secs
  step_of-respawn cell c s = elim (Bool-cases (c == cell)) [
    | inr e ↦ rw e refl
    | inl e ↦ rw e (ap (λ k. min (step_of k s + 1) (2 ^ 32 - 1)) ((eq_iff c cell).0 e))
  ]

  step_of-respawn_all :
      (cell : String) (cells : List String) (s : EngineSupervisor A)
      → step_of cell s ≤ 2 ^ 32 - 1
      → step_of cell (respawn_all cells s)
        ≡ min (step_of cell s + count (λ c. c == cell) cells) (2 ^ 32 - 1)
  step_of-respawn_all cell [] s h = ground arith
  step_of-respawn_all cell (c ∷ cells) s h =
      step_of-respawn_all cell cells (respawn_backoff_secs c s).1
        (ground (arith, step_of-respawn cell c s))
      ∙ ground (arith, step_of-respawn cell c s)

  -- Whatever cells were started again, and in whatever order, a cell that had not waited before
  -- and then waited n times waits for 2 ^ n seconds the next time, and for sixty at most: neither the
  -- other cells nor the ends of u32 and u64 show.
  pub respawn_backoff_secs_lem :
      (cell : String) (cells : List String) (s : EngineSupervisor A)
      → s.backoff_step cell ≡ none
      → (respawn_backoff_secs cell (respawn_all cells s)).0
        ≡ min 60 (2 ^ count (λ c. c == cell) cells)
  unfolding respawn_backoff_secs
  respawn_backoff_secs_lem cell cells s fresh =
      ap (λ n. min 60 (power_of_two n))
        (step_of-respawn_all cell cells s (rw fresh (omega arith)) ∙ rw fresh (omega arith))
      ∙ capped_power (count (λ c. c == cell) cells)
