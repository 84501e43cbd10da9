-- ===== src/Supervisor/Engines.antt =====
-- What the calls of crates/crewd/src/supervisor.rs leave of the engines: one engine per cell.
use mcp_crewd_rs.Base.{
  String, ◌≡◌, refl, ◌≢◌, inl, inr, true, some, arith, eq_iff, eq_refl, Option-cases,
}
use mcp_crewd_rs.Error.{Result, ok}
use mcp_crewd_rs.Audit.{Codec, Disk}
use mcp_crewd_rs.Store.Tables.{EngineKind}
use mcp_crewd_rs.Engines.{EngineAdapter}
use mcp_crewd_rs.Supervisor.{
  EngineSupervisor, SupervisedEngine, has, insert, ensure, respawn_backoff_secs, on_engine,
  start_turn, poll, interrupt, resume_session, resume_thread, stop,
}

module _ {A Cfg : Type 0} (make : EngineKind → Cfg → Result A) (a : EngineAdapter A)
    (cell : String) where
  -- One call on the supervisor that is no stop of `cell`.
  pub data Step : EngineSupervisor A → EngineSupervisor A → Type 0 where
    inserted : (c : String) (adapter : A) (s : EngineSupervisor A) → Step s (insert c adapter s)
    ensured :
        (c : String) (kind : EngineKind) (cfg : Cfg) (s : EngineSupervisor A)
        → Step s (ensure make c kind cfg s).1
    backed_off : (c : String) (s : EngineSupervisor A) → Step s (respawn_backoff_secs c s).1
    started : (c payload : String) (s : EngineSupervisor A) → Step s (start_turn a c payload s).1
    polled : (c : String) (s : EngineSupervisor A) → Step s (poll a c s).1
    interrupted : (c : String) (s : EngineSupervisor A) → Step s (interrupt a c s).1
    session_resumed : (c id : String) (s : EngineSupervisor A) → Step s (resume_session a c id s).1
    thread_resumed : (c id : String) (s : EngineSupervisor A) → Step s (resume_thread a c id s).1
    other_stopped :
        (codec : Codec) (disk : Disk) (event_id ts c : String) (s : EngineSupervisor A)
        → c ≢ cell
        → Step s (stop a codec disk event_id ts c s)

  pub data Reach : EngineSupervisor A → EngineSupervisor A → Type 0 where
    here : (s : EngineSupervisor A) → Reach s s
    there : (s t u : EngineSupervisor A) → Reach s t → Step t u → Reach s u

  has-on_engine :
      {B : Type 0} (c : String) (missing : B) (call : A → B × A) (s : EngineSupervisor A)
      → has cell s ≡ true
      → has cell (on_engine a c missing call s).1 ≡ true
  unfolding on_engine
  has-on_engine c missing call s h = elim (Option-cases (s.engines c)) [
    | inl e ↦ rw (e, on_engine) h
    | inr (engine, e) ↦ rw (e, on_engine) (ground (arith, h))
  ]

  has-ensure :
      (c : String) (kind : EngineKind) (cfg : Cfg) (s : EngineSupervisor A)
      → has cell s ≡ true
      → has cell (ensure make c kind cfg s).1 ≡ true
  unfolding ensure
  has-ensure c kind cfg s h = ground (arith, h)

  has-Step : {s t : EngineSupervisor A} → Step s t → has cell s ≡ true → has cell t ≡ true
  unfolding insert respawn_backoff_secs start_turn poll interrupt resume_session resume_thread stop
  has-Step (inserted c adapter s) h = ground (arith, h)
  has-Step (ensured c kind cfg s) h = has-ensure c kind cfg s h
  has-Step (backed_off c s) h = h
  has-Step (started c payload s) h = has-on_engine c _ _ s h
  has-Step (polled c s) h = has-on_engine c _ _ s h
  has-Step (interrupted c s) h = has-on_engine c _ _ s h
  has-Step (session_resumed c id s) h = has-on_engine c _ _ s h
  has-Step (thread_resumed c id s) h = has-on_engine c _ _ s h
  has-Step (other_stopped codec disk event_id ts c s ne) h = ground (arith, h, ne, eq_iff c cell)

  has-Reach : {s t : EngineSupervisor A} → Reach s t → has cell s ≡ true → has cell t ≡ true
  has-Reach (here s) h = h
  has-Reach (there s t u r step) h = has-Step step (has-Reach r h)

ensure-has :
    {A Cfg : Type 0} (make : EngineKind → Cfg → Result A) (cell : String) (kind : EngineKind)
    (cfg : Cfg) (adapter : A) (s : EngineSupervisor A)
    → (ensure make cell kind cfg s).0 ≡ ok adapter
    → has cell (ensure make cell kind cfg s).1 ≡ true
unfolding ensure
ensure-has make cell kind cfg adapter s given = ground (arith, given, eq_refl cell)

-- Once `ensure` has given a cell an adapter, it only gives back the one that the cell has, without
-- making another or changing the supervisor, whatever calls are made for any cell and whatever kind and
-- settings are asked for, until the cell is stopped.
pub ensure_once :
    {A Cfg : Type 0} (make make_2 : EngineKind → Cfg → Result A) (a : EngineAdapter A)
    (cell : String) (kind kind_2 : EngineKind) (cfg cfg_2 : Cfg) (adapter : A)
    (s t : EngineSupervisor A)
    → (ensure make cell kind cfg s).0 ≡ ok adapter
    → Reach make a cell (ensure make cell kind cfg s).1 t
    → (engine : SupervisedEngine A) × (t.engines cell ≡ some engine)
      × (ensure make_2 cell kind_2 cfg_2 t ≡ (ok engine.adapter, t))
unfolding ensure
ensure_once make make_2 a cell kind kind_2 cfg cfg_2 adapter s t given r =
    elim (Option-cases (t.engines cell)) [
      | inl e ↦
          ground (arith, e, has-Reach make a cell r (ensure-has make cell kind cfg adapter s given))
      | inr (engine, e) ↦ (engine, e, rw (e, ensure) refl)
    ]
