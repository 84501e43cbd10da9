-- ===== src/Cells/Registry.antt =====
-- crates/crewd-core/src/cells.rs: a registry call is audited before it writes, and writes one cell.
use mcp_crewd_rs.Base.{
  String, ◌≡◌, ◌∙◌, ◌⊎◌, inl, inr, true, false, none, some, [], ◌∷◌, ◌++◌, arith, ◌==◌, eq_iff,
  eq_refl, Bool-cases, any-find, find, any, find-append_none, find-append_other,
}
use mcp_crewd_rs.Error.{BusError, ok, err, Result-cases}
use mcp_crewd_rs.Audit.{Codec, AuditChain, AuditEvent, append}
use mcp_crewd_rs.Store.Tables.{Store, CellDef}
use mcp_crewd_rs.Spawn.{Ambient}
use mcp_crewd_rs.Cells.{is_cell, cell_event, cell_register, cell_get}

other_cell :
    (name other : String)
    → (other == name) ≡ false
    → (d : CellDef) → is_cell name d ≡ true
    → is_cell other d ≡ false
other_cell name other h d e = ground (
  arith,
  h,
  e,
  eq_iff d.name name,
  eq_iff d.name other,
  eq_iff other name,
  Bool-cases (is_cell other d),
)

-- A registration either fails and leaves every table as it was, or it was audited first, of a name that
-- was free: the cell is then found as it was given, and every other cell as before.
pub cell_register_lem :
    (c : Codec) (a : Ambient) (d : CellDef) (other : String) (s : Store) (chain : AuditChain)
    → (other == d.name) ≡ false
    → let after = cell_register c a d s chain in
      ((e : BusError) × (after.0 ≡ err e) × (after.1 ≡ s))
      ⊎ ((after.0 ≡ ok tt)
          × ((event : AuditEvent) × (append c a.disk a.event_id a.event_ts
                  (cell_event "cell_registered" d)
                  chain
                ≡ (ok event, after.2)))
          × (cell_get d.name s ≡ none)
          × (cell_get d.name after.1 ≡ some d)
          × (cell_get other after.1 ≡ cell_get other s))
unfolding cell_register cell_get
cell_register_lem c a d other s chain h = elim (Result-cases (cell_register c a d s chain).0) [
  | inr (e, k) ↦ inl (e, k, ground (arith, k))
  | inl (x, k) ↦
      elim (Result-cases
        (append c a.disk a.event_id a.event_ts (cell_event "cell_registered" d) chain).0) [
          | inr (e, w) ↦ absurd (ground (arith, k, w))
          | inl (event, w) ↦
              let free : any (is_cell d.name) s.cells ≡ false = ground (arith, k) in
              let fresh : find (is_cell d.name) s.cells ≡ none =
                ground (arith, free, any-find (is_cell d.name) s.cells) in
              let own : find (is_cell d.name) (s.cells ++ d ∷ []) ≡ some d =
                find-append_none (is_cell d.name) s.cells (d ∷ []) fresh
                ∙ ground (arith, eq_refl d.name) in
              let others =
                find-append_other (is_cell other) s.cells d
                  (other_cell d.name other h d (eq_refl d.name)) in
              inr (
                ground (arith, k),
                (event, ground (arith, k, w)),
                fresh,
                ground (arith, k, w, own),
                ground (arith, k, w, others),
              )
        ]
]
