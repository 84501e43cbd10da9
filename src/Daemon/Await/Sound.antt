-- ===== src/Daemon/Await/Sound.antt =====
-- handle_await of crates/crewd/src/handlers.rs keeps the messages.
use mcp_crewd_rs.Base.{String, not, Option, none, some, [], ◌∷◌, ◌==◌}
use mcp_crewd_rs.Error.{Result, ok, err}
use mcp_crewd_rs.Canonical.{Value}
use mcp_crewd_rs.Tickets.{AwaitGuard, WaitForGraph}
use mcp_crewd_rs.Store.Tables.{Ask, AskState, pending, answered, expired}
use mcp_crewd_rs.Wire.{AwaitParams}
use mcp_crewd_rs.Daemon.{World, plain, reject_client_identity_keys}
use mcp_crewd_rs.Daemon.Trail.{
  Post, Post-Kept, Kept-refl, Keeps, next_step, gets-Keeps, lift-Keeps, or_fail-Keeps,
  fail_if-Keeps, audit-Keeps,
}
use mcp_crewd_rs.Daemon.Gates.{Only}
use mcp_crewd_rs.Daemon.Await.{
  Wake, Waiting, activated, wait_for, suspend, await_state, await_begin, await_end,
}

wait_for-Keeps : (p : AwaitParams) (ask : Ask) (guard : AwaitGuard) → Keeps (wait_for p ask guard)
unfolding Post
wait_for-Keeps p ask guard d = (Kept-refl d, tt)

module _ (w : World) where
  activated-Keeps :
      (from : String) (ask : Ask) (outcome : Option (Result AwaitGuard × WaitForGraph))
      → Keeps (activated w from ask outcome)
  unfolding Post
  activated-Keeps from ask none d = Kept-refl d
  activated-Keeps from ask (some (ok guard, g)) d = (Kept-refl d, tt)
  activated-Keeps from ask (some (err e, g)) d =
      next_step (Only d) d d _ _ (Kept-refl d)
        (audit-Keeps w (plain "deadlock_prevented" none (some from) (some ask.to_cell) "rejected"))
        λ _ e k. k

  suspend-Keeps : (from : String) (p : AwaitParams) (ask : Ask) → Keeps (suspend w from p ask)
  unfolding suspend
  suspend-Keeps from p ask d =
      next_step (Only d) d d _ _ (Kept-refl d) (gets-Keeps _) λ outcome e k.
        next_step (Only d) d e _ _ k (activated-Keeps from ask outcome)
          λ guard e k. Post-Kept (λ _ _. Unit {0}) d e _ k (wait_for-Keeps p ask guard e)

  await_state-Keeps :
      (from : String) (p : AwaitParams) (ask : Ask) (state : AskState)
      → Keeps (await_state w from p ask state)
  unfolding await_state Post
  await_state-Keeps from p ask answered d = (Kept-refl d, tt)
  await_state-Keeps from p ask expired d = (Kept-refl d, tt)
  await_state-Keeps from p ask pending d = suspend-Keeps from p ask d

  pub await_begin-Keeps : (from : String) (params : Value) → Keeps (await_begin w from params)
  unfolding await_begin
  await_begin-Keeps from params d =
      next_step (Only d) d d _ _ (Kept-refl d)
        (lift-Keeps (reject_client_identity_keys params ("ask_id" ∷ [])))
        λ _ e k. next_step (Only d) d e _ _ k (or_fail-Keeps (w.await_params params) _) λ p e k.
          next_step (Only d) d e _ _ k (gets-Keeps _) λ found e k.
            next_step (Only d) d e _ _ k (or_fail-Keeps found _) λ ask e k.
              next_step (Only d) d e _ _ k (fail_if-Keeps (not (ask.from_cell == from)) _) λ _ e k.
                Post-Kept (λ _ _. Unit {0}) d e _ k (await_state-Keeps from p ask ask.state e)

pub await_end-Keeps : (wake : Wake) (x : Waiting) → Keeps (await_end wake x)
unfolding await_end Post
await_end-Keeps wake x d = (Kept-refl d, tt)
