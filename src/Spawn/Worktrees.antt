-- ===== src/Spawn/Worktrees.antt =====
-- crates/crewd-core/src/spawn.rs: the ownership of worktrees.
use mcp_crewd_rs.Base.{
  String, Bool, not, Option, none, some, List, [], ◌∷◌, ◌++◌, map, ◌==◌, if◌then◌else◌, update, any,
  text_leb,
}
use mcp_crewd_rs.Error.{Result, ok, err, internal}
use mcp_crewd_rs.Canonical.{Value, string, object, end, field}
use mcp_crewd_rs.Audit.{Codec, AuditChain, AuditEventDraft, append}
use mcp_crewd_rs.Store.Tables.{Store, Worktree, WorktreeState, created, cleanup_requested}
use mcp_crewd_rs.Threads.{is_thread}
use mcp_crewd_rs.Spawn.{Ambient}

abbrev pub is_worktree : String → Worktree → Bool
is_worktree path w = w.canonical_path == path

abbrev pub worktree_event : String → Option String → Value → AuditEventDraft
worktree_event kind from detail = record {
  kind = kind;
  message_id = none;
  from = from;
  to = none;
  outcome = "ok";
  detail = some detail;
}

abbrev pub new_worktree : String → String → String → Worktree
new_worktree path thread_id now = record {
  canonical_path = path;
  created_by_thread = thread_id;
  state = created;
  created_at = now;
}

-- `canonical` is canonical_worktree_path, which asks the file system. The table's primary key refuses a
-- path that is there.
pub worktree_record :
    Codec
    → (String → Result String)
    → Ambient
    → String
    → String
    → Store
    → AuditChain
    → Result (Unit {0}) × Store × AuditChain
worktree_record c canonical a path thread_id s chain = elim (canonical path) [
  | err e ↦ (err e, s, chain)
  | ok canon ↦
      if not (any (is_thread thread_id) s.cell_threads)
      then (err internal, s, chain)
      else let detail =
          object (field "path" (string canon) (field "thread" (string thread_id) end)) in
        let (appended, chain_2) =
          append c a.disk a.event_id a.event_ts
            (worktree_event "worktree_created" (some thread_id) detail) chain in
        elim appended [
          | err e ↦ (err internal, s, chain_2)
          | ok _ ↦ if any (is_worktree canon) s.worktrees then (err internal, s, chain_2) else (
            ok tt,
            record s { worktrees = s.worktrees ++ new_worktree canon thread_id a.now ∷ [] },
            chain_2,
          )
        ]
]

pub worktree_mark_cleanup :
    Codec
    → (String → Result String)
    → Ambient
    → String
    → Store
    → AuditChain
    → Result (Unit {0}) × Store × AuditChain
worktree_mark_cleanup c canonical a path s chain = elim (canonical path) [
  | err e ↦ (err e, s, chain)
  | ok canon ↦
      if not (any (is_worktree canon) s.worktrees)
      then (err internal, s, chain)
      else let detail = object (field "path" (string canon) end) in
        let (appended, chain_2) =
          append c a.disk a.event_id a.event_ts (worktree_event "worktree_cleanup" none detail)
            chain in
        elim appended [
          | err e ↦ (err internal, s, chain_2)
          | ok _ ↦ (
            ok tt,
            record s {
              worktrees =
                  update (is_worktree canon) (λ w. record w { state = cleanup_requested })
                    s.worktrees;
            },
            chain_2,
          )
        ]
]

pub worktree_state_as_str : WorktreeState → String
worktree_state_as_str created = "created"
worktree_state_as_str cleanup_requested = "cleanup_requested"

pub insert_by_path : Worktree → List Worktree → List Worktree
insert_by_path w [] = w ∷ []
insert_by_path w (v ∷ vs) =
    let later = insert_by_path w vs in
    if text_leb w.canonical_path v.canonical_path then w ∷ v ∷ vs else v ∷ later

pub sort_by_path : List Worktree → List Worktree
unfolding insert_by_path
sort_by_path [] = []
sort_by_path (w ∷ ws) = insert_by_path w (sort_by_path ws)

pub worktree_list : Store → List (String × String × String)
unfolding sort_by_path worktree_state_as_str
worktree_list s =
    map (λ w. (w.canonical_path, w.created_by_thread, worktree_state_as_str w.state))
      (sort_by_path s.worktrees)
