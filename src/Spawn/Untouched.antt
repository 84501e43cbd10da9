-- ===== src/Spawn/Untouched.antt =====
-- spawn_idempotent of crates/crewd-core/src/spawn.rs leaves the messages alone.
use mcp_crewd_rs.Base.{String, ◌≡◌, refl, Option, none, some, arith}
use mcp_crewd_rs.Error.{Result, ok, err, internal, ◌>>◌}
use mcp_crewd_rs.Validators.{validate_cell_name_allowing_ephemeral, validate_idempotency_key}
use mcp_crewd_rs.Audit.{Codec, AuditChain, AuditEvent, append}
use mcp_crewd_rs.Audit.Append.{Grows, Grows-refl, Appended, append-Appended}
use mcp_crewd_rs.Store.Tables.{Store}
use mcp_crewd_rs.Jobs.{job_enqueue_inner}
use mcp_crewd_rs.Threads.{thread_insert}
use mcp_crewd_rs.Spawn.{
  SpawnRequest, Launch, Ambient, SpawnOutcome, requested, spawn_writes, spawn_idempotent, settle,
  lookup_spawn_request, replay,
}

-- The tables of the messages
abbrev pub SameMessages : Store → Store → Type 0
SameMessages s t = (t.deliveries ≡ s.deliveries) × (t.asks ≡ s.asks) × (t.dedupe ≡ s.dedupe)

spawn_writes-SameMessages :
    (req : SpawnRequest) (l : Launch) (a : Ambient) (s : Store)
    → SameMessages s (spawn_writes req l a s).1
unfolding spawn_writes thread_insert job_enqueue_inner
spawn_writes-SameMessages req l a s = (ground arith, ground arith, ground arith)

-- The store and the audit chain after a call
abbrev pub Untouched : Store → AuditChain → Result SpawnOutcome × Store × AuditChain → Type 0
Untouched s chain (outcome, t, now) = SameMessages s t × Grows chain.lines now.lines

pub spawn-Untouched :
    (c : Codec) (req : SpawnRequest) (l : Launch) (a : Ambient) (s : Store) (chain : AuditChain)
    → Untouched s chain (spawn_idempotent c req l a s chain)
unfolding spawn_idempotent requested
spawn-Untouched c req l a s chain = valid (
    validate_cell_name_allowing_ephemeral req.cell_name
    >> validate_idempotency_key req.idempotency_key)
  where
    settled : (r : Result SpawnOutcome × Store) → SameMessages s r.1 → SameMessages s (settle s r).1
    settled (ok o, t) same = same
    settled (err e, t) same = (refl, refl, refl)

    appended :
        (r : Result AuditEvent × AuditChain)
        → Appended c (requested req l) chain r
        → Untouched s chain (elim r.0 [
          | err e ↦ (err internal, s, r.1)
          | ok _ ↦ let (outcome, t) = settle s (spawn_writes req l a s) in (outcome, t, r.1)
        ])
    appended (err e, now) grows = ((refl, refl, refl), grows)
    appended (ok e, now) grows = (settled _ (spawn_writes-SameMessages req l a s), grows.0)

    looked :
        (o : Option String)
        → Untouched s chain (elim o [
          | some id ↦ (replay s id, s, chain)
          | none ↦
              let (appended, chain_2) =
                append c a.disk a.event_id a.event_ts (requested req l) chain in
              elim appended [
                | err e ↦ (err internal, s, chain_2)
                | ok _ ↦
                    let (outcome, t) = settle s (spawn_writes req l a s) in (outcome, t, chain_2)
              ]
        ])
    looked (some id) = ((refl, refl, refl), Grows-refl chain.lines)
    looked none =
        appended _ (append-Appended c a.disk a.event_id a.event_ts (requested req l) chain)

    valid :
        (r : Result (Unit {0}))
        → Untouched s chain (elim r [
          | err e ↦ (err e, s, chain)
          | ok _ ↦ elim (lookup_spawn_request req.caller req.cell_name req.idempotency_key s) [
            | some id ↦ (replay s id, s, chain)
            | none ↦
                let (appended, chain_2) =
                  append c a.disk a.event_id a.event_ts (requested req l) chain in
                elim appended [
                  | err e ↦ (err internal, s, chain_2)
                  | ok _ ↦
                      let (outcome, t) = settle s (spawn_writes req l a s) in (outcome, t, chain_2)
                ]
          ]
        ])
    valid (err e) = ((refl, refl, refl), Grows-refl chain.lines)
    valid (ok _) = looked (lookup_spawn_request req.caller req.cell_name req.idempotency_key s)
