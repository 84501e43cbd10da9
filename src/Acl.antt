-- ===== src/Acl.antt =====
-- crates/crewd-core/src/acl.rs. The TOML reader is third-party code: `parse` takes what it read, or
-- `none` where it failed. A `BTreeMap` is the list of its entries in the order of the keys, and a
-- `BTreeSet<String>` that is only asked for membership is the list that it was built from.
pub mod Parse
pub mod Reach
mod Tests
use mcp_crewd_rs.Base.{
  ℕ, length, eqb, ltb, String, Bool, true, false, not, Option, none, some, List, [], ◌∷◌, ◌++◌, map,
  any, all, ◌==◌, if◌then◌else◌,
}
use mcp_crewd_rs.Error.{Result, ok, err, internal, acl_denied, reject_if, ◌>>=◌, ◌>>◌}

pub data Capability : Type 0 where
  send ask reply broadcast read_inbox list_cells attach_files wake spawn : Capability
  admin_registry read_audit : Capability

pub parse_capability : String → Result Capability
parse_capability s =
    if s == "send"
    then ok send
    else if s == "ask"
    then ok ask
    else if s == "reply"
    then ok reply
    else if s == "broadcast"
    then ok broadcast
    else if s == "read_inbox"
    then ok read_inbox
    else if s == "list_cells"
    then ok list_cells
    else if s == "attach_files"
    then ok attach_files
    else if s == "wake"
    then ok wake
    else if s == "spawn"
    then ok spawn
    else if s == "admin_registry"
    then ok admin_registry
    else if s == "read_audit"
    then ok read_audit
    else err internal

pub capability_as_str : Capability → String
capability_as_str send = "send"
capability_as_str ask = "ask"
capability_as_str reply = "reply"
capability_as_str broadcast = "broadcast"
capability_as_str read_inbox = "read_inbox"
capability_as_str list_cells = "list_cells"
capability_as_str attach_files = "attach_files"
capability_as_str wake = "wake"
capability_as_str spawn = "spawn"
capability_as_str admin_registry = "admin_registry"
capability_as_str read_audit = "read_audit"

-- The derived `Ord` of the enum: the place of the variant.
unfoldable pub rank : Capability → ℕ
rank send = 0
rank ask = 1
rank reply = 2
rank broadcast = 3
rank read_inbox = 4
rank list_cells = 5
rank attach_files = 6
rank wake = 7
rank spawn = 8
rank admin_registry = 9
rank read_audit = 10

abbrev pub same_capability : Capability → Capability → Bool
same_capability c d = eqb (rank c) (rank d)

abbrev pub holds : List Capability → Capability → Bool
holds caps c = any (same_capability c) caps

-- `BTreeSet::insert` of a new element.
pub insert_capability : Capability → List Capability → List Capability
insert_capability c [] = c ∷ []
insert_capability c (d ∷ ds) =
    let rest = insert_capability c ds in if ltb (rank c) (rank d) then c ∷ d ∷ ds else d ∷ rest

pub data ReachVia : Type 0 where
  via_send via_ask : ReachVia

pub record CellAcl : Type 0 where
  pub capabilities : List Capability
  pub protected : Bool
  pub send_to_protected : List String
  pub ask_protected : List String
  pub engine : String
  pub order_preserving : Bool

pub record Acl : Type 0 where
  pub cells : List (String × CellAcl)

abbrev pub empty : Acl
empty = record { cells = [] }

abbrev pub contains : List String → String → Bool
contains names name = any (λ n. n == name) names

-- `cells.get(name)`
unfoldable pub get : List (String × CellAcl) → String → Option CellAcl
get [] name = none
get ((n, c) ∷ rest) name = let found = get rest name in if n == name then some c else found

-- A cell as serde reads it, with the defaults filled in.
pub record RawCell : Type 0 where
  pub engine : String
  pub capabilities : List String
  pub protected : Bool
  pub send_to_protected : List String
  pub ask_protected : List String
  pub order_preserving : Bool

pub parse_capabilities : List String → List Capability → Result (List Capability)
unfolding parse_capability insert_capability
parse_capabilities [] caps = ok caps
parse_capabilities (s ∷ rest) caps = do
  c ← parse_capability s
  reject_if (holds caps c) internal
  parse_capabilities rest (insert_capability c caps)

pub parse_cell : RawCell → Result CellAcl
unfolding parse_capabilities
parse_cell rc = do
  caps ← parse_capabilities rc.capabilities []
  ok (record {
    capabilities = caps;
    protected = rc.protected;
    send_to_protected = rc.send_to_protected;
    ask_protected = rc.ask_protected;
    engine = rc.engine;
    order_preserving = rc.order_preserving;
  })

pub parse_cells : List (String × RawCell) → Result (List (String × CellAcl))
unfolding parse_cell
parse_cells [] = ok []
parse_cells ((name, rc) ∷ rest) = do c ← parse_cell rc; cs ← parse_cells rest; ok ((name, c) ∷ cs)

-- Every grant of a cell names a registered cell.
abbrev pub grants_registered : List String → CellAcl → Bool
grants_registered registered c = all (contains registered) (c.send_to_protected ++ c.ask_protected)

abbrev names : List (String × CellAcl) → List String
names = map λ entry. entry.0

pub parse : Option (List (String × RawCell)) → Result Acl
unfolding parse_cells
parse none = err internal
parse (some raw) = do
  cells ← parse_cells raw
  reject_if (not (all (λ entry. grants_registered (names cells) entry.1) cells)) internal
  ok (record { cells = cells })

abbrev pub check_cell : Option CellAcl → Capability → Result (Unit {0})
check_cell none cap = err acl_denied
check_cell (some c) cap = if holds c.capabilities cap then ok tt else err acl_denied

unfoldable pub check : Acl → String → Capability → Result (Unit {0})
unfolding get
check acl from cap = check_cell (get acl.cells from) cap

unfoldable pub is_protected : Acl → String → Bool
unfolding get
is_protected acl name = elim (get acl.cells name) [ none ↦ false | some c ↦ c.protected ]

unfoldable pub is_registered : Acl → String → Bool
unfolding get
is_registered acl name = elim (get acl.cells name) [ none ↦ false | some c ↦ true ]

abbrev pub granted : CellAcl → String → ReachVia → Bool
granted c to via_send = contains c.send_to_protected to
granted c to via_ask = contains c.ask_protected to

unfoldable pub check_reach : Acl → String → String → ReachVia → Result (Unit {0})
unfolding get is_protected
check_reach acl from to via = elim (get acl.cells from) [
  | none ↦ err acl_denied
  | some c ↦
      if not (is_protected acl to)
      then ok tt
      else if granted c to via
      then ok tt
      else err acl_denied
]

pub capabilities_of : Acl → String → List String
unfolding get
capabilities_of acl cell = elim (get acl.cells cell) [
  | none ↦ []
  | some c ↦ map capability_as_str c.capabilities
]

-- The loop over the cells: what is included, and what is denied.
pub fan_out : CellAcl → String → List (String × CellAcl) → List String × List String
fan_out from_cell from [] = ([], [])
fan_out from_cell from ((name, c) ∷ rest) =
    let later = fan_out from_cell from rest in
    if name == from
    then later
    else if c.protected
    then (if contains from_cell.send_to_protected name
        then (name ∷ later.0, later.1)
        else (later.0, name ∷ later.1))
    else (name ∷ later.0, later.1)

pub recipients_for_broadcast : Acl → String → List String × List String
unfolding get fan_out
recipients_for_broadcast acl from = elim (get acl.cells from) [
  | none ↦ ([], [])
  | some from_cell ↦ fan_out from_cell from acl.cells
]

-- `AclHolder::reload_from_file`: the file's text as the TOML reader read it, `none` where the file
-- could not be read or is no TOML. The holder's ACL is swapped after a whole parse.
pub reload : Option (List (String × RawCell)) → Acl → Result ℕ × Acl
unfolding parse
reload text current = elim (parse text) [
  | ok acl ↦ (ok (length acl.cells), acl)
  | err e ↦ (err e, current)
]
