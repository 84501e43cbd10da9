-- ===== src/Daemon/Success.antt =====
-- What a handler of crates/crewd/src/handlers.rs has passed when it succeeds.
use mcp_crewd_rs.Base.{
  Bool-cases, inl, inr, ℕ, ◌+◌, ◌≡◌, refl, sym, subst, Bool, true, false, Option, none, some,
}
use mcp_crewd_rs.Error.{BusError, Result, ok, err}
use mcp_crewd_rs.Audit.{AuditEventDraft}
use mcp_crewd_rs.Daemon.{
  World, DaemonState, Action, write, pure, lift, gets, draw, on_store, or_fail, fail_if,
  audited_check, ◌>>=◌, audit, fail,
}
use mcp_crewd_rs.Quota.{QuotaTracker}
use mcp_crewd_rs.Store.Tables.{Store}
use mcp_crewd_rs.Daemon.Outbound.{on_quota}
use mcp_crewd_rs.Daemon.Trail.{Post, post-bind}

-- Of a success; nothing is said of a failure.
abbrev pub Success : {A : Type 0} → (A → DaemonState → Type 0) → Result A × DaemonState → Type 0
Success Q r = Post Q (λ _ _. Unit {0}) r

module _ {A : Type 0} (Q : A → DaemonState → Type 0) where
  pub then_lift :
      {B : Type 0} (r : Result B) (next : B → Action A) (d : DaemonState)
      → ((b : B) → r ≡ ok b → Success Q (next b d))
      → Success Q ((lift r >>= next) d)
  unfolding Post ◌>>=◌
  then_lift (ok b) next d h = h b refl
  then_lift (err e) next d h = tt

  pub then_gets :
      {B : Type 0} (f : DaemonState → B) (next : B → Action A) (d : DaemonState)
      → Success Q (next (f d) d)
      → Success Q ((gets f >>= next) d)
  unfolding ◌>>=◌
  then_gets f next d h = h

  pub then_draw :
      {B : Type 0} (f : ℕ → B) (next : B → Action A) (d : DaemonState)
      → Success Q (next (f d.tick) (record d { tick = d.tick + 1 }))
      → Success Q ((draw f >>= next) d)
  unfolding ◌>>=◌
  then_draw f next d h = h

  pub then_quota :
      {B : Type 0} (f : QuotaTracker → B × QuotaTracker) (next : B → Action A) (d : DaemonState)
      → Success Q (next (f d.quota).0 (record d { quota = (f d.quota).1 }))
      → Success Q ((on_quota f >>= next) d)
  unfolding ◌>>=◌
  then_quota f next d h = h

  pub then_or_fail :
      {B : Type 0} (o : Option B) (e : BusError) (next : B → Action A) (d : DaemonState)
      → ((b : B) → o ≡ some b → Success Q (next b d))
      → Success Q ((or_fail o e >>= next) d)
  unfolding Post ◌>>=◌
  then_or_fail none e next d h = tt
  then_or_fail (some b) e next d h = h b refl

  pub then_parsed :
      {B : Type 0} (o : Option B) (b : B) (e : BusError) (next : B → Action A) (d : DaemonState)
      → o ≡ some b
      → Success Q (next b d)
      → Success Q ((or_fail o e >>= next) d)
  unfolding ◌>>=◌
  then_parsed o b e next d parsed h =
      subst (λ x. Success Q ((or_fail x e >>= next) d)) (sym parsed) h

  pub then_fail_if :
      (fails : Bool) (e : BusError) (next : Unit {0} → Action A) (d : DaemonState)
      → (fails ≡ false → Success Q (next tt d))
      → Success Q ((fail_if fails e >>= next) d)
  unfolding Post ◌>>=◌
  then_fail_if true e next d h = tt
  then_fail_if false e next d h = h refl

  -- A call of which something is known
  pub then_call :
      {B : Type 0} (P : B → DaemonState → Type 0) (call : Action B) (next : B → Action A)
      (d : DaemonState)
      → Success P (call d)
      → ((b : B) (e : DaemonState) → P b e → Success Q (next b e))
      → Success Q ((call >>= next) d)
  then_call P call next d h rest = post-bind Q (λ _ _. Unit {0}) call next d P h rest

-- A call of which nothing is asked
pub anything : {A : Type 0} (r : Result A × DaemonState) → Success (λ _ _. Unit {0}) r
unfolding Post
anything (ok a, d) = tt
anything (err e, d) = tt

pub failed :
    {A : Type 0} (P : A → DaemonState → Type 0) (x : BusError) (d : DaemonState)
    → Success P (err x, d)
unfolding Post
failed P x d = tt

pub succeeded :
    (P : DaemonState → Type 0) (d : DaemonState)
    → P d
    → Success (λ (_ : Unit {0}) e. P e) (ok tt, d)
unfolding Post
succeeded P d h = h

pub Success_imp :
    {A : Type 0} (P Q : A → DaemonState → Type 0) (r : Result A × DaemonState)
    → ((a : A) (d : DaemonState) → P a d → Q a d)
    → Success P r
    → Success Q r
unfolding Post
Success_imp P Q (ok a, d) h p = h a d p
Success_imp P Q (err e, d) h p = tt

module _ {A : Type 0} (Q : A → DaemonState → Type 0) (w : World) where
  pub then_checked :
      (r : Result (Unit {0})) (draft : AuditEventDraft) (next : Unit {0} → Action A)
      (d : DaemonState)
      → (r ≡ ok tt → Success Q (next tt d))
      → Success Q ((audited_check w r draft >>= next) d)
  unfolding audited_check
  then_checked (ok _) draft next d h = then_lift Q (ok tt) next d (λ _ _. h refl)
  then_checked (err x) draft next d h =
      then_call Q (λ _ _. ⊥) (audited_check w (err x) draft) next d
        (then_call (λ _ _. ⊥) (λ _ _. Unit {0}) (audit w draft) (λ _. fail x) d
          (anything (audit w draft d)) (λ _ e _. failed (λ _ _. ⊥) x e))
        (λ _ _ no. absurd no)

  pub checked_last :
      (r : Result (Unit {0})) (draft : AuditEventDraft) (d : DaemonState) (P : DaemonState → Type 0)
      → (r ≡ ok tt → P d)
      → Success (λ _ e. P e) (audited_check w r draft d)
  unfolding audited_check
  checked_last (ok _) draft d P h = succeeded P d (h refl)
  checked_last (err x) draft d P h =
      then_call (λ _ e. P e) (λ _ _. Unit {0}) (audit w draft) (λ _. fail x) d
        (anything (audit w draft d)) (λ _ e _. failed (λ _ e. P e) x e)

-- What is known anyway
pub known : {A F : Type 0} (fact : F) (r : Result A × DaemonState) → Success (λ _ _. F) r
unfolding Post
known fact (ok a, d) = fact
known fact (err e, d) = tt

-- What holds of a success holds of the value and the state of a run that succeeded.
pub Success-ok :
    {A : Type 0} (Q : A → DaemonState → Type 0) (r : Result A × DaemonState) {a : A}
    {d : DaemonState}
    → Success Q r
    → r ≡ (ok a, d)
    → Q a d
unfolding Post
Success-ok Q r h e = subst (Success Q) e h

-- A call of the store of which the store is known
pub stored :
    {A : Type 0} (P : Store → Type 0) (r : Result A × Store) (d : DaemonState)
    → P r.1
    → Success (λ _ e. P e.store) (on_store (λ _. r) d)
unfolding Post
stored P (ok a, s) d h = h
stored P (err x, s) d h = tt

pub ended_with :
    {A : Type 0} (P : A → DaemonState → Type 0) (a : A) (d : DaemonState)
    → P a d
    → Success P (pure a d)
unfolding Post
ended_with P a d h = h

-- The audit touches nothing but its chain.
pub audit-store :
    (w : World) (draft : AuditEventDraft) (d : DaemonState) → (audit w draft d).1.store ≡ d.store
unfolding audit
audit-store w draft d = refl

pub Success-state :
    {A : Type 0} (P : DaemonState → Type 0) (r : Result A × DaemonState)
    → P r.1
    → Success (λ _ e. P e) r
unfolding Post
Success-state P (ok a, d) h = h
Success-state P (err x, d) h = tt

-- A write that succeeds has made its change.
pub wrote :
    (w : World) (f : Store → Store) (d : DaemonState)
    → Success (λ _ e. e.store ≡ f d.store) (write w f d)
unfolding write Post
wrote w f d = elim (Bool-cases (w.sql_fails d.tick)) [
  | inl fails ↦ rw (fails, Post) tt
  | inr works ↦ rw (works, Post) refl
]
