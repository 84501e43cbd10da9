-- ===== src/Daemon/Trail.antt =====
-- What a handler of crates/crewd/src/handlers.rs leaves behind: the messages that can be read and the
-- lines of the audit.
use mcp_crewd_rs.Base.{ℕ, ◌+◌, ◌≡◌, refl, ◌∙◌, Bool, true, false, Option, none, some}
use mcp_crewd_rs.Error.{BusError, Result, ok, err}
use mcp_crewd_rs.Types.Clock.{now_rfc3339}
use mcp_crewd_rs.Audit.{AuditEvent, AuditEventDraft, AuditChain, append}
use mcp_crewd_rs.Audit.Append.{Grows, Grows-refl, Grows-trans, Recorded, Appended, append-Appended}
use mcp_crewd_rs.Daemon.{
  World, DaemonState, Action, ◌>>=◌, lift, fail, gets, draw, or_fail, fail_if, acknowledged, audit,
  audited_check,
}

-- What holds of the value and the state after a success, and of the error and the state after a failure
unfoldable pub Post {κ ℓ} :
    {A : Type κ}
    → (A → DaemonState → Type ℓ)
    → (BusError → DaemonState → Type ℓ)
    → Result A × DaemonState
    → Type ℓ
Post Q E (ok a, d) = Q a d
Post Q E (err e, d) = E e d

module _ {κ ℓ} {A : Type κ} (Q : A → DaemonState → Type ℓ)
    (E : BusError → DaemonState → Type ℓ) where
  after :
      {B : Type κ} (r : Result B × DaemonState) (next : B → Action A) (P : B → DaemonState → Type ℓ)
      → Post P E r
      → ((b : B) (e : DaemonState) → P b e → Post Q E (next b e))
      → Post Q E (let (x, e) = r in elim x [ err f ↦ (err f, e) | ok b ↦ next b e ])
  unfolding Post
  after (ok b, e) next P h k = k b e h
  after (err f, e) next P h k = h

  pub post-bind :
      {B : Type κ} (call : Action B) (next : B → Action A) (d : DaemonState)
      (P : B → DaemonState → Type ℓ)
      → Post P E (call d)
      → ((b : B) (e : DaemonState) → P b e → Post Q E (next b e))
      → Post Q E ((call >>= next) d)
  unfolding ◌>>=◌ Post
  post-bind call next d P h k = after (call d) next P h k

-- Neither the messages nor the asks nor the submissions change, and the audit only grows.
abbrev pub Kept : DaemonState → DaemonState → Type 0
Kept d e =
    (e.store.deliveries ≡ d.store.deliveries)
    × (e.store.asks ≡ d.store.asks)
    × (e.store.dedupe ≡ d.store.dedupe)
    × Grows d.audit.lines e.audit.lines

pub Kept-refl : (d : DaemonState) → Kept d d
Kept-refl d = (refl, refl, refl, Grows-refl d.audit.lines)

pub Kept-trans : (d e f : DaemonState) → Kept d e → Kept e f → Kept d f
Kept-trans d e f (a, b, c, g) (a', b', c', g') =
    (a' ∙ a, b' ∙ b, c' ∙ c, Grows-trans d.audit.lines e.audit.lines f.audit.lines g g')

-- A step that keeps all that, whether it succeeds or not
abbrev pub Keeps : {A : Type 0} → Action A → Type 0
Keeps m = (d : DaemonState) → Post (λ _ e. Kept d e × Unit {0}) (λ _ e. Kept d e) (m d)

-- What is kept of a state is kept of one before it that the state has kept.
pub Post-Kept :
    {A : Type 0} (Q : A → DaemonState → Type 0) (d e : DaemonState) (r : Result A × DaemonState)
    → Kept d e
    → Post (λ a f. Kept e f × Q a f) (λ _ f. Kept e f) r
    → Post (λ a f. Kept d f × Q a f) (λ _ f. Kept d f) r
unfolding Post
Post-Kept Q d e (ok b, f) k (h, q) = (Kept-trans d e f k h, q)
Post-Kept Q d e (err x, f) k h = Kept-trans d e f k h

-- One step of a handler that has kept the messages so far
pub step :
    {A B : Type 0} (Q : A → DaemonState → Type 0) (P : B → DaemonState → Type 0) (d e : DaemonState)
    (call : Action B) (next : B → Action A)
    → Kept d e
    → Post (λ b f. Kept e f × P b f) (λ _ f. Kept e f) (call e)
    → ((b : B) (f : DaemonState) → Kept d f → P b f → Post Q (λ _ g. Kept d g) (next b f))
    → Post Q (λ _ g. Kept d g) ((call >>= next) e)
step Q P d e call next k keeps rest =
    post-bind Q (λ _ g. Kept d g) call next e (λ b f. Kept d f × P b f)
      (Post-Kept P d e (call e) k keeps) (λ b f h. rest b f h.0 h.1)

pub Post_imp :
    {A : Type 0} (P Q : A → DaemonState → Type 0) (d : DaemonState) (r : Result A × DaemonState)
    → ((a : A) (e : DaemonState) → Kept d e → P a e → Q a e)
    → Post (λ a e. Kept d e × P a e) (λ _ e. Kept d e) r
    → Post (λ a e. Kept d e × Q a e) (λ _ e. Kept d e) r
unfolding Post
Post_imp P Q d (ok a, e) h (k, p) = (k, h a e k p)
Post_imp P Q d (err x, e) h k = k

-- The same of a step of which only that is used
pub next_step :
    {A B : Type 0} (Q : A → DaemonState → Type 0) (d e : DaemonState) (call : Action B)
    (next : B → Action A)
    → Kept d e
    → Keeps call
    → ((b : B) (f : DaemonState) → Kept d f → Post Q (λ _ g. Kept d g) (next b f))
    → Post Q (λ _ g. Kept d g) ((call >>= next) e)
next_step Q d e call next k keeps rest =
    step Q (λ _ _. Unit {0}) d e call next k (keeps e) (λ b f h _. rest b f h)

-- The last step, with its value
pub ended :
    {A : Type 0} (d e : DaemonState) (a : A)
    → Kept d e
    → Post (λ _ f. Kept d f × Unit {0}) (λ _ f. Kept d f) (ok a, e)
unfolding Post
ended d e a k = (k, tt)

pub gets-Keeps : {A : Type 0} (f : DaemonState → A) → Keeps (gets f)
unfolding Post
gets-Keeps f d = (Kept-refl d, tt)

pub draw-Keeps : {A : Type 0} (f : ℕ → A) → Keeps (draw f)
unfolding Post
draw-Keeps f d = (Kept-refl d, tt)

pub lift-Keeps : {A : Type 0} (r : Result A) → Keeps (lift r)
unfolding Post
lift-Keeps (ok a) d = (Kept-refl d, tt)
lift-Keeps (err e) d = Kept-refl d

pub or_fail-Keeps : {A : Type 0} (o : Option A) (e : BusError) → Keeps (or_fail o e)
unfolding Post
or_fail-Keeps none e d = Kept-refl d
or_fail-Keeps (some a) e d = (Kept-refl d, tt)

pub fail_if-Keeps : (fails : Bool) (e : BusError) → Keeps (fail_if fails e)
unfolding Post
fail_if-Keeps true e d = Kept-refl d
fail_if-Keeps false e d = (Kept-refl d, tt)

module _ (w : World) where
  pub audit-Post :
      (draft : AuditEventDraft) (d : DaemonState)
      → Post
          (λ _ e. Kept d e × Recorded w.codec e.audit.lines draft)
          (λ _ e. Kept d e)
          (audit w draft d)
  unfolding audit Post
  audit-Post draft d =
      known
        (append w.codec (w.disk d.tick) (w.new_uuidv7 d.tick) (now_rfc3339 (w.secs d.tick)) draft
          d.audit)
        (append-Appended w.codec (w.disk d.tick) (w.new_uuidv7 d.tick) (now_rfc3339 (w.secs d.tick))
          draft d.audit)
    where
      known :
          (r : Result AuditEvent × AuditChain)
          → Appended w.codec draft d.audit r
          → Post
              (λ _ e. Kept d e × Recorded w.codec e.audit.lines draft)
              (λ _ e. Kept d e)
              (acknowledged r.0, record d { audit = r.1; tick = d.tick + 1 })
      known (ok e, chain) (grows, recorded) = ((refl, refl, refl, grows), recorded)
      known (err x, chain) grows = (refl, refl, refl, grows)

  pub audit-Keeps : (draft : AuditEventDraft) → Keeps (audit w draft)
  audit-Keeps draft d =
      Post_imp (λ _ e. Recorded w.codec e.audit.lines draft) (λ _ _. Unit {0}) d (audit w draft d)
        (λ _ _ _ _. tt) (audit-Post draft d)

  pub audited_check-Keeps :
      (r : Result (Unit {0})) (draft : AuditEventDraft) → Keeps (audited_check w r draft)
  unfolding audited_check Post
  audited_check-Keeps (ok _) draft d = (Kept-refl d, tt)
  audited_check-Keeps (err x) draft d =
      step (λ _ e. Kept d e × Unit {0}) (λ _ _. Unit {0}) d d (audit w draft) (λ _. fail x)
        (Kept-refl d) (audit-Keeps draft d) (λ _ f k _. k)
