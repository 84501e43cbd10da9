-- ===== src/Acl/Reach.antt =====
-- Who reaches whom: broadcast fan-out against the protected reach gate of acl.rs.
use mcp_crewd_rs.Base.{
  ◌≡◌, refl, String, Bool, true, false, not, ◌&&◌, Option, none, some, List, [], ◌∷◌, ◌==◌, eq_iff,
  arith, if◌then◌else◌,
}
use mcp_crewd_rs.Error.{Result, ok, err}
use mcp_crewd_rs.Acl.{
  Acl, CellAcl, get, contains, fan_out, recipients_for_broadcast, check_reach, via_send,
  is_protected, is_registered,
}

-- The keys of a map are distinct.
abbrev pub IsMap : List (String × CellAcl) → Type 0
IsMap [] = Unit
IsMap ((name, c) ∷ rest) = (get rest name ≡ none) × IsMap rest

abbrev pub is_ok : Result (Unit {0}) → Bool
is_ok (ok _) = true
is_ok (err _) = false

abbrev included : CellAcl → String → String → Option CellAcl → Bool
included f from name none = false
included f from name (some c) =
    if name == from then false else if c.protected then contains f.send_to_protected name else true

abbrev denied : CellAcl → String → String → Option CellAcl → Bool
denied f from name none = false
denied f from name (some c) =
    if name == from
    then false
    else if c.protected
    then not (contains f.send_to_protected name)
    else false

fan_out-included :
    (f : CellAcl) (from name : String) (cells : List (String × CellAcl))
    → IsMap cells
    → contains (fan_out f from cells).0 name ≡ included f from name (get cells name)
unfolding fan_out get
fan_out-included f from name [] m = refl
fan_out-included f from name ((n, c) ∷ rest) m =
    ground
      (arith, fan_out-included f from name rest m.1, eq_iff n name, eq_iff n from, eq_iff name from)

fan_out-denied :
    (f : CellAcl) (from name : String) (cells : List (String × CellAcl))
    → IsMap cells
    → contains (fan_out f from cells).1 name ≡ denied f from name (get cells name)
unfolding fan_out get
fan_out-denied f from name [] m = refl
fan_out-denied f from name ((n, c) ∷ rest) m =
    ground
      (arith, fan_out-denied f from name rest m.1, eq_iff n name, eq_iff n from, eq_iff name from)

-- A broadcast of a registered cell `from` goes to exactly the other registered cells that a plain
-- send from `from` may reach, and reports as denied exactly the other registered cells that it may
-- not reach.
pub broadcast-eq-reach :
    (acl : Acl) (from name : String) (f : CellAcl)
    → IsMap acl.cells
    → get acl.cells from ≡ some f
    → let r = recipients_for_broadcast acl from in
      let others = not (name == from) && is_registered acl name in
      let reaches = is_ok (check_reach acl from name via_send) in
      (contains r.0 name ≡ others && reaches) × (contains r.1 name ≡ others && not reaches)
unfolding recipients_for_broadcast check_reach is_registered is_protected
broadcast-eq-reach acl from name f m h =
    (ground
      (arith, h, fan_out-included f from name acl.cells m, fan_out-denied f from name acl.cells m))
