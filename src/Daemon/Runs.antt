-- ===== src/Daemon/Runs.antt =====
-- How the steps of a handler of crates/crewd/src/handlers.rs run.
use mcp_crewd_rs.Base.{◌≡◌, refl, ap, ◌∙◌, Bool, false, Option, some}
use mcp_crewd_rs.Error.{BusError, Result, ok, err}
use mcp_crewd_rs.Audit.{AuditEventDraft}
use mcp_crewd_rs.Daemon.{
  World, DaemonState, Action, lift, gets, or_fail, fail_if, audit, audited_check, ◌>>=◌,
}

-- The outcome of a denial, once it is audited
abbrev pub denied :
    {A : Type 0} → BusError → Result (Unit {0}) × DaemonState → Result A × DaemonState
denied x (ok _, e) = (err x, e)
denied x (err y, e) = (err y, e)

module _ {A : Type 0} where
  pub run_lift :
      {B : Type 0} (r : Result B) (next : B → Action A) (d : DaemonState) (b : B)
      → r ≡ ok b
      → (lift r >>= next) d ≡ next b d
  unfolding ◌>>=◌
  run_lift r next d b h = ap (λ x. (lift x >>= next) d) h

  pub run_gets :
      {B : Type 0} (f : DaemonState → B) (next : B → Action A) (d : DaemonState)
      → (gets f >>= next) d ≡ next (f d) d
  unfolding ◌>>=◌
  run_gets f next d = refl

  pub run_or_fail :
      {B : Type 0} (o : Option B) (x : BusError) (next : B → Action A) (d : DaemonState) (b : B)
      → o ≡ some b
      → (or_fail o x >>= next) d ≡ next b d
  unfolding ◌>>=◌
  run_or_fail o x next d b h = ap (λ y. (or_fail y x >>= next) d) h

  pub run_fail_if :
      (fails : Bool) (x : BusError) (next : Unit {0} → Action A) (d : DaemonState)
      → fails ≡ false
      → (fail_if fails x >>= next) d ≡ next tt d
  unfolding ◌>>=◌
  run_fail_if fails x next d h = ap (λ y. (fail_if y x >>= next) d) h

  stopped :
      {B : Type 0} (x : BusError) (r : Result (Unit {0}) × DaemonState) (next : B → Action A)
      → elim (denied {A = B} x r).0 [
        | err y ↦ (err y, (denied {A = B} x r).1)
        | ok b ↦ next b (denied {A = B} x r).1
      ]
        ≡ denied x r
  stopped x (ok _, e) next = refl
  stopped x (err y, e) next = refl

  -- A call that is denied ends the handler.
  pub run_denied :
      {B : Type 0} (x : BusError) (r : Result (Unit {0}) × DaemonState) (call : Action B)
      (next : B → Action A) (d : DaemonState)
      → call d ≡ denied x r
      → (call >>= next) d ≡ denied x r
  unfolding ◌>>=◌
  run_denied x r call next d h =
      ap (λ y. elim y.0 [ err z ↦ (err z, y.1) | ok b ↦ next b y.1 ]) h ∙ stopped x r next

pub check-denied :
    (w : World) (r : Result (Unit {0})) (x : BusError) (draft : AuditEventDraft) (d : DaemonState)
    → r ≡ err x
    → audited_check w r draft d ≡ denied x (audit w draft d)
unfolding audited_check ◌>>=◌
check-denied w r x draft d h = ap (λ y. audited_check w y draft d) h ∙ audited (audit w draft d)
  where
    audited :
        (r : Result (Unit {0}) × DaemonState)
        → elim r.0 [ err e ↦ (err e, r.1) | ok b ↦ (err x, r.1) ] ≡ denied {A = Unit {0}} x r
    audited (ok _, e) = refl
    audited (err y, e) = refl
