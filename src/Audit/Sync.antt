-- ===== src/Audit/Sync.antt =====
-- What a failed `sync_all` in `append` of audit.rs does to the chain.
use mcp_crewd_rs.Base.{ℕ, ◌+◌, ◌≡◌, ◌≢◌, refl, sym, subst, String, [], ◌∷◌, ◌++◌, eq_iff, arith}
use mcp_crewd_rs.Error.{Result, ok, err, internal}
use mcp_crewd_rs.Audit.{
  Codec, AuditEvent, AuditEventDraft, AuditChain, unsynced, synced, append, seal, event_line,
  verify, verify_from, readable, broken, genesis_hash, assert_kind,
}
use mcp_crewd_rs.Audit.Chain.{
  IsFaithful, IsIntact, verify_from-append, read_entry-seal, select-append_one, append-eq-ok,
  appended, appended-IsIntact,
}

-- The chain of a daemon that wrote the line but could not sync it: the head stays behind the file.
abbrev stale : Codec → String → String → AuditEventDraft → AuditChain → AuditChain
stale c id ts draft chain = record chain {
  lines = chain.lines ++ event_line c (seal c chain.head_hash id ts draft) ∷ [];
}

append-unsynced :
    (c : Codec) (id ts : String) (draft : AuditEventDraft) (chain : AuditChain)
    → assert_kind draft.kind ≡ ok tt
    → append c unsynced id ts draft chain ≡ (err internal, stale c id ts draft chain)
unfolding append
append-unsynced c id ts draft chain k = rw (k, append) refl

stale_breaks :
    (c : Codec) (id ts id' ts' : String) (draft draft' : AuditEventDraft) (chain : AuditChain)
    (n : ℕ)
    → IsFaithful c (seal c chain.head_hash id ts draft)
    → IsFaithful c (seal c chain.head_hash id' ts' draft')
    → IsIntact c chain n
    → (seal c chain.head_hash id ts draft).hash ≢ chain.head_hash
    → verify c (readable (appended c id' ts' draft' (stale c id ts draft chain)).lines)
      ≡ broken id' (n + 1)
unfolding verify
stale_breaks c id ts id' ts' draft draft' chain n w w' v fresh =
    let e = seal c chain.head_hash id ts draft in
    let e' = seal c chain.head_hash id' ts' draft' in
    rw
      (
        select-append_one c (chain.lines ++ event_line c e ∷ []) (event_line c e') w'.not_blank,
        verify_from-append c 0 genesis_hash _ e.hash (n + 1) (event_line c e')
            (appended-IsIntact c id ts draft chain n w v),
      )
      (unfold verify_from in
        rw (verify_from, read_entry-seal c chain.head_hash id' ts' draft' w')
          (ground (arith, eq_iff chain.head_hash e.hash)))

-- For events of a known kind whose lines read back, the first with a hash that is not the old head: an
-- `append` whose line reaches the file but whose `sync_all` fails returns an error and keeps the old
-- head. The next `append` that succeeds then breaks the chain: `verify` reports its event, the
-- one after the `n` intact ones and the line that was left behind, as broken.
pub unsynced_append_breaks_chain :
    (c : Codec) (id ts id' ts' : String) (draft draft' : AuditEventDraft)
    (chain chain' : AuditChain) (e : AuditEvent) (n : ℕ)
    → IsFaithful c (seal c chain.head_hash id ts draft)
    → IsFaithful c e
    → IsIntact c chain n
    → assert_kind draft.kind ≡ ok tt
    → (seal c chain.head_hash id ts draft).hash ≢ chain.head_hash
    → append c synced id' ts' draft' (append c unsynced id ts draft chain).1 ≡ (ok e, chain')
    → ((append c unsynced id ts draft chain).0 ≡ err internal)
      × (verify c (readable chain'.lines) ≡ broken id' (n + 1))
unsynced_append_breaks_chain c id ts id' ts' draft draft' chain chain' e n w w' v k fresh h =
    let step = append-unsynced c id ts draft chain k in
    let second : append c synced id' ts' draft' (stale c id ts draft chain) ≡ (ok e, chain') =
      subst
        (λ (r : Result AuditEvent × AuditChain).
          append c synced id' ts' draft' r.1 ≡ (ok e, chain'))
        step h in
    let (p, q) = append-eq-ok c id' ts' draft' (stale c id ts draft chain) chain' e second in
    (
      rw step refl,
      subst (λ (x : AuditChain). verify c (readable x.lines) ≡ broken id' (n + 1)) q
          (stale_breaks c id ts id' ts' draft draft' chain n w (subst (IsFaithful c) (sym p) w') v
            fresh),
    )
