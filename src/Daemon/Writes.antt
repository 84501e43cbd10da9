-- ===== src/Daemon/Writes.antt =====
-- The writes of the handlers of crates/crewd/src/handlers.rs, each of which SQLite may fail: whether a
-- handler gets to its end or stops between two of them, the queue stays announced in the audit.
use mcp_crewd_rs.Base.{ℕ, ◌+◌, String, ◌≡◌, refl, sym, subst, inl, inr, Bool-cases, All, Option}
use mcp_crewd_rs.Error.{BusError, Result, ok, err, internal}
use mcp_crewd_rs.Types.{Envelope}
use mcp_crewd_rs.Audit.{Codec}
use mcp_crewd_rs.Store.Tables.{Store}
use mcp_crewd_rs.Store.Deliveries.{fresh_delivery, insert_delivery, insert_envelope}
use mcp_crewd_rs.Store.Asks.{dedupe_insert}
use mcp_crewd_rs.Daemon.{World, DaemonState, Action, pure, draw, write, ◌>>=◌}
use mcp_crewd_rs.Daemon.Trail.{Post, Post-Kept, post-bind, Kept, Kept-refl, Kept-trans, Keeps}
use mcp_crewd_rs.Daemon.Gates.{Announced, Sound, Kept-Sound, insert_delivery-Announced}

-- What a handler leaves of the audit and the queue, whether it succeeds or not
abbrev pub Ends : {A : Type 0} → Codec → DaemonState → Result A × DaemonState → Type 0
Ends c d r = Post (λ _ e. Sound c d e) (λ _ e. Sound c d e) r

pub Kept_is-Ends :
    {A : Type 0} (c : Codec) (d f : DaemonState) (r : Result A × DaemonState)
    → Kept d f
    → Post (λ _ e. Kept f e × Unit {0}) (λ _ e. Kept f e) r
    → Ends c d r
unfolding Post
Kept_is-Ends c d f (ok a, e) k h = Kept-Sound c d e (Kept-trans d f e k h.0)
Kept_is-Ends c d f (err x, e) k h = Kept-Sound c d e (Kept-trans d f e k h)

pub failed_is-Sound :
    {A : Type 0} (c : Codec) (Q : A → DaemonState → Type 0) (d : DaemonState)
    (r : Result A × DaemonState)
    → Post Q (λ _ e. Kept d e) r
    → Post Q (λ _ e. Sound c d e) r
unfolding Post
failed_is-Sound c Q d (ok a, e) h = h
failed_is-Sound c Q d (err x, e) h = Kept-Sound c d e h

-- A step of a handler that has kept the messages so far, and may write them later
pub step-Sound :
    {A B : Type 0} (c : Codec) (P : B → DaemonState → Type 0) (d e : DaemonState) (call : Action B)
    (next : B → Action A)
    → Kept d e
    → Post (λ b f. Kept e f × P b f) (λ _ f. Kept e f) (call e)
    → ((b : B) (f : DaemonState) → Kept d f → P b f → Ends c d (next b f))
    → Ends c d ((call >>= next) e)
step-Sound {A} {B} c P d e call next k keeps rest =
    let R : B → DaemonState → Type 0 = λ b f. Kept d f × P b f in
    post-bind (λ _ f. Sound c d f) (λ _ f. Sound c d f) call next e R
      (failed_is-Sound c R d (call e) (Post-Kept P d e (call e) k keeps))
      (λ b f h. rest b f h.0 h.1)

pub next-Sound :
    {A B : Type 0} (c : Codec) (d e : DaemonState) (call : Action B) (next : B → Action A)
    → Kept d e
    → Keeps call
    → ((b : B) (f : DaemonState) → Kept d f → Ends c d (next b f))
    → Ends c d ((call >>= next) e)
next-Sound c d e call next k keeps rest =
    step-Sound c (λ _ _. Unit {0}) d e call next k (keeps e) (λ b f h _. rest b f h)

-- A step after the first message is written
pub then-Sound :
    {A B : Type 0} (c : Codec) (P : B → DaemonState → Type 0) (d e : DaemonState) (call : Action B)
    (next : B → Action A)
    → Post P (λ _ f. Sound c d f) (call e)
    → ((b : B) (f : DaemonState) → P b f → Ends c d (next b f))
    → Ends c d ((call >>= next) e)
then-Sound c P d e call next h rest =
    post-bind (λ _ f. Sound c d f) (λ _ f. Sound c d f) call next e P h rest

-- Both outcomes of a write
pub write-Post :
    (Q : Unit {0} → DaemonState → Type 0) (E : BusError → DaemonState → Type 0) (w : World)
    (f : Store → Store) (d : DaemonState)
    → Q tt (record d { store = f d.store; tick = d.tick + 1 })
    → E internal (record d { tick = d.tick + 1 })
    → Post Q E (write w f d)
unfolding write Post
write-Post Q E w f d good bad = elim (Bool-cases (w.sql_fails d.tick)) [
  | inl fails ↦ rw (fails, Post) bad
  | inr works ↦ rw (works, Post) good
]

pub insert_envelope-Keeps : (w : World) (env : Envelope) → Keeps (write w (insert_envelope env))
unfolding insert_envelope
insert_envelope-Keeps w env d = write-Post _ _ w _ d (Kept-refl d, tt) (Kept-refl d)

-- A write that leaves the queue alone
pub write_other-Sound :
    (c : Codec) (w : World) (f : Store → Store) (d e : DaemonState)
    → Sound c d e
    → ((s : Store) → (f s).deliveries ≡ s.deliveries)
    → Ends c d (write w f e)
write_other-Sound c w f d e sound same =
    write-Post _ _ w f e
      (
        sound.0,
        λ backed. subst (All (Announced c e.audit.lines)) (sym (same e.store)) (sound.1 backed),
      )
      sound

-- A row whose message the audit has announced
pub write_row-Sound :
    (c : Codec) (w : World) (message_id recipient : String) (d e : DaemonState)
    → Sound c d e
    → Announced c e.audit.lines (fresh_delivery message_id recipient)
    → Post
        (λ _ f. Sound c d f × (f.audit.lines ≡ e.audit.lines))
        (λ _ f. Sound c d f)
        (write w (insert_delivery message_id recipient) e)
write_row-Sound c w message_id recipient d e sound announced =
    write-Post _ _ w (insert_delivery message_id recipient) e
      (
        (
          sound.0,
          λ backed.
              insert_delivery-Announced c e.audit.lines message_id recipient e.store announced
                (sound.1 backed),
        ),
        refl,
      )
      sound

-- A look at the surroundings
pub draw-Sound :
    {A : Type 0} (c : Codec) (f : ℕ → A) (d e : DaemonState) → Sound c d e → Ends c d (draw f e)
unfolding Post
draw-Sound c f d e sound = sound

pub pure-Sound :
    {A : Type 0} (c : Codec) (a : A) (d e : DaemonState) → Sound c d e → Ends c d (pure a e)
unfolding Post
pure-Sound c a d e sound = sound

pub dedupe_insert-queue :
    (now from key message_id : String) (ask_id : Option String) (hash : String) (s : Store)
    → (dedupe_insert now from key message_id ask_id hash s).deliveries ≡ s.deliveries
unfolding dedupe_insert
dedupe_insert-queue now from key message_id ask_id hash s = refl
