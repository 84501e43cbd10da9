-- ===== src/Cells.antt =====
-- crates/crewd-core/src/cells.rs: the registry of the named cells and the target of a spawn. What the
-- file system does with an audit line and the event's id and time are in Ambient.
pub mod Registry
mod Tests
use mcp_crewd_rs.Base.{
  String, Bool, not, ◌||◌, Option, none, some, List, [], ◌∷◌, ◌++◌, find, update, any, ◌==◌,
  text_leb, if◌then◌else◌, is_some, unwrap_or,
}
use mcp_crewd_rs.Error.{Result, ok, err, internal, unknown_cell, policy_denied}
use mcp_crewd_rs.Validators.{validate_cell_name}
use mcp_crewd_rs.Canonical.{bool, string, object, end, field}
use mcp_crewd_rs.Audit.{Codec, AuditChain, AuditEventDraft, append}
use mcp_crewd_rs.Store.Tables.{Store, CellDef, EngineKind}
use mcp_crewd_rs.Spawn.{Ambient, engine_as_str}

pub data SpawnTarget : Type 0 where
  named : CellDef → SpawnTarget
  ephemeral : EngineKind → Option String → Option String → String → SpawnTarget

abbrev pub is_cell : String → CellDef → Bool
is_cell name d = d.name == name

abbrev pub cell_event : String → CellDef → AuditEventDraft
cell_event kind d = record {
  kind = kind;
  message_id = none;
  from = some d.name;
  to = none;
  outcome = "ok";
  detail = some (
      object (
        field "cwd" (string d.cwd) (
          field "engine" (string (engine_as_str d.engine))
            (field "worktree_default" (bool d.worktree_default) end))));
}

-- The audit that comes before a write: when it fails, nothing is written.
abbrev pub audited :
    Codec
    → Ambient
    → AuditEventDraft
    → Store
    → Store
    → AuditChain
    → Result (Unit {0}) × Store × AuditChain
audited c a draft before after chain =
    let (appended, chain_2) = append c a.disk a.event_id a.event_ts draft chain in
    elim appended [ err e ↦ (err internal, before, chain_2) | ok _ ↦ (ok tt, after, chain_2) ]

pub cell_register :
    Codec → Ambient → CellDef → Store → AuditChain → Result (Unit {0}) × Store × AuditChain
cell_register c a d s chain = elim (validate_cell_name d.name) [
  | err e ↦ (err e, s, chain)
  | ok _ ↦
      if any (is_cell d.name) s.cells
      then (err internal, s, chain)
      else audited c a (cell_event "cell_registered" d) s (record s { cells = s.cells ++ d ∷ [] })
          chain
]

pub cell_update :
    Codec → Ambient → CellDef → Store → AuditChain → Result (Unit {0}) × Store × AuditChain
cell_update c a d s chain = elim (validate_cell_name d.name) [
  | err e ↦ (err e, s, chain)
  | ok _ ↦
      if not (any (is_cell d.name) s.cells)
      then (err unknown_cell, s, chain)
      else audited c a (cell_event "cell_updated" d) s
          (record s { cells = update (is_cell d.name) (λ x. record d { name = x.name }) s.cells })
          chain
]

pub cell_get : String → Store → Option CellDef
cell_get name s = find (is_cell name) s.cells

pub insert_by_name : CellDef → List CellDef → List CellDef
insert_by_name d [] = d ∷ []
insert_by_name d (e ∷ es) =
    let later = insert_by_name d es in if text_leb d.name e.name then d ∷ e ∷ es else e ∷ later

pub sort_by_name : List CellDef → List CellDef
unfolding insert_by_name
sort_by_name [] = []
sort_by_name (d ∷ ds) = insert_by_name d (sort_by_name ds)

pub cell_list_defs : Store → List CellDef
cell_list_defs s = sort_by_name s.cells

pub resolve_spawn_target :
    Option CellDef
    → Option EngineKind
    → Option String
    → Option String
    → Option String
    → Result SpawnTarget
resolve_spawn_target (some d) engine model profile cwd =
    if is_some engine || is_some model || is_some profile || is_some cwd
    then err policy_denied
    else ok (named d)
resolve_spawn_target none (some engine) model profile cwd =
    ok (ephemeral engine model profile (unwrap_or cwd "."))
resolve_spawn_target none none model profile cwd = err policy_denied
