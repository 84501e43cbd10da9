-- ===== src/Acl/Parse.antt =====
-- What a parsed ACL of acl.rs guarantees, and what aborts the parse.
use mcp_crewd_rs.Base.{
  ℕ, ◌≡◌, refl, ◌↔◌, String, Bool, true, false, ◌||◌, Option, none, some, List, [], ◌∷◌, ◌==◌,
  eq_iff, arith, if◌then◌else◌, Bool-cases, Bool_ext, ◌⊎◌, inl, inr, ap, sym, ◌∙◌, all, eqb,
  eqb_iff,
}
use mcp_crewd_rs.Error.{
  Result, ok, err, internal, BusError, Result-cases, >>=-eq-ok, reject_if-eq-ok,
}
use mcp_crewd_rs.Acl.{
  Acl, CellAcl, RawCell, Capability, holds, get, contains, same_capability, rank, insert_capability,
  parse_capability, parse_capabilities, capability_as_str, parse_cell, parse_cells, parse,
  grants_registered, names, check, check_cell, reload, send, ask, reply, broadcast, read_inbox,
  list_cells, attach_files, wake, spawn, admin_registry, read_audit,
}

parse_capability-as_str : (c : Capability) → parse_capability (capability_as_str c) ≡ ok c
unfolding parse_capability capability_as_str
parse_capability-as_str send = refl
parse_capability-as_str ask = refl
parse_capability-as_str reply = refl
parse_capability-as_str broadcast = refl
parse_capability-as_str read_inbox = refl
parse_capability-as_str list_cells = refl
parse_capability-as_str attach_files = refl
parse_capability-as_str wake = refl
parse_capability-as_str spawn = refl
parse_capability-as_str admin_registry = refl
parse_capability-as_str read_audit = refl

-- One test of the `match` in `Capability::parse`.
name_test :
    (s t : String) (c d : Capability) (rest : Result Capability)
    → capability_as_str c ≡ t
    → (if s == t then ok c else rest) ≡ ok d
    → (rest ≡ ok d → s ≡ capability_as_str d)
    → s ≡ capability_as_str d
name_test s t c d rest e h k = elim (Bool-cases (s == t)) [
  | inl y ↦ cc (e, (eq_iff s t).0 y, ap capability_as_str (same (ground arith)))
  | inr n ↦ k (ground arith)
]
  where
    same : ok c ≡ ok d → c ≡ d
    same p = cc

parse_capability-eq-ok :
    (s : String) (d : Capability) → parse_capability s ≡ ok d → s ≡ capability_as_str d
unfolding parse_capability capability_as_str
parse_capability-eq-ok s d h = name_test s "send" send d _ refl h λ h.
    name_test s "ask" ask d _ refl h λ h. name_test s "reply" reply d _ refl h λ h.
      name_test s "broadcast" broadcast d _ refl h λ h.
        name_test s "read_inbox" read_inbox d _ refl h λ h.
          name_test s "list_cells" list_cells d _ refl h λ h.
            name_test s "attach_files" attach_files d _ refl h λ h.
              name_test s "wake" wake d _ refl h λ h. name_test s "spawn" spawn d _ refl h λ h.
                name_test s "admin_registry" admin_registry d _ refl h
                  λ h. name_test s "read_audit" read_audit d _ refl h λ h. absurd (cc)

holds-insert :
    (c d : Capability) (caps : List Capability)
    → holds (insert_capability c caps) d ≡ same_capability d c || holds caps d
unfolding insert_capability
holds-insert c d [] = ground arith
holds-insert c d (e ∷ caps) = ground (arith, holds-insert c d caps)

of_rank : ℕ → Capability
of_rank n =
    if eqb n 0
    then send
    else if eqb n 1
    then ask
    else if eqb n 2
    then reply
    else if eqb n 3
    then broadcast
    else if eqb n 4
    then read_inbox
    else if eqb n 5
    then list_cells
    else if eqb n 6
    then attach_files
    else if eqb n 7
    then wake
    else if eqb n 8
    then spawn
    else if eqb n 9
    then admin_registry
    else read_audit

of_rank-rank : (c : Capability) → of_rank (rank c) ≡ c
unfolding of_rank rank
of_rank-rank send = refl
of_rank-rank ask = refl
of_rank-rank _ = refl

same_capability_iff : (c d : Capability) → (same_capability c d ≡ true) ↔ (c ≡ d)
same_capability_iff c d = (
  λ h. sym (of_rank-rank c) ∙ ap of_rank ((eqb_iff _ _).0 h) ∙ of_rank-rank d,
  λ e. (eqb_iff _ _).1 (ap rank e),
)

as_str-injective : (c d : Capability) → capability_as_str c ≡ capability_as_str d → c ≡ d
as_str-injective c d e =
    let same : ok c ≡ ok d =
      sym (parse_capability-as_str c) ∙ ap parse_capability e ∙ parse_capability-as_str d in
    cc

-- The text `s` names the capability `c`.
names_capability :
    (s : String) (c d : Capability)
    → parse_capability s ≡ ok d
    → (s == capability_as_str c) ≡ same_capability c d
names_capability s c d h =
    Bool_ext _ _
      (λ e.
        (same_capability_iff c d).1
          (as_str-injective c d (sym ((eq_iff _ _).0 e) ∙ parse_capability-eq-ok s d h)))
      (λ e.
        (eq_iff _ _).1 (
          parse_capability-eq-ok s d h
          ∙ ap capability_as_str (sym ((same_capability_iff c d).0 e))))

holds-parse_capabilities :
    (ss : List String) (caps out : List Capability) (c : Capability)
    → parse_capabilities ss caps ≡ ok out
    → holds out c ≡ holds caps c || contains ss (capability_as_str c)
unfolding parse_capabilities
holds-parse_capabilities [] caps out c h = ground arith
holds-parse_capabilities (s ∷ ss) caps out c h =
    let (d, p, q) = >>=-eq-ok (parse_capability s) _ h in
    let (_, r) = reject_if-eq-ok (holds caps d) internal _ q in
    ground (
      arith,
      holds-parse_capabilities ss (insert_capability d caps) out c r,
      holds-insert d c caps,
      names_capability s c d p,
    )

-- The cell of a name in the file, as `get` finds that of the map.
abbrev pub raw_get : List (String × RawCell) → String → Option RawCell
raw_get [] name = none
raw_get ((n, rc) ∷ rest) name =
    let found = raw_get rest name in if n == name then some rc else found

-- The capabilities that the file lists for a cell.
abbrev pub listed : Option RawCell → String → Bool
listed none cap = false
listed (some rc) cap = contains rc.capabilities cap

holds_parsed :
    (rc : RawCell) (c : CellAcl) (cap : Capability)
    → parse_cell rc ≡ ok c
    → holds c.capabilities cap ≡ contains rc.capabilities (capability_as_str cap)
unfolding parse_cell
holds_parsed rc c cap h =
    let (caps, p, q) = >>=-eq-ok (parse_capabilities rc.capabilities []) _ h in
    ground (arith, holds-parse_capabilities rc.capabilities [] caps cap p)

check-parse_cells :
    (raw : List (String × RawCell)) (cells : List (String × CellAcl)) (name : String)
    (cap : Capability)
    → parse_cells raw ≡ ok cells
    → (check_cell (get cells name) cap ≡ ok tt)
      ↔ (listed (raw_get raw name) (capability_as_str cap) ≡ true)
unfolding parse_cells get
check-parse_cells [] cells name cap h = ground arith
check-parse_cells ((n, rc) ∷ rest) cells name cap h =
    let (c, p, q) = >>=-eq-ok (parse_cell rc) _ h in
    let (cs, r, s) = >>=-eq-ok (parse_cells rest) _ q in
    ground (arith, holds_parsed rc c cap p, check-parse_cells rest cs name cap r)

-- Default deny: with a parsed file, a cell passes the check of a capability exactly when the file
-- has a section for the cell and lists the capability's name there.
pub check-parse :
    (raw : List (String × RawCell)) (acl : Acl) (from : String) (cap : Capability)
    → parse (some raw) ≡ ok acl
    → (check acl from cap ≡ ok tt) ↔ (listed (raw_get raw from) (capability_as_str cap) ≡ true)
unfolding parse check
check-parse raw acl from cap h =
    let (cells, p, q) = >>=-eq-ok (parse_cells raw) _ h in
    ground (arith, check-parse_cells raw cells from cap p)

-- Every per-target grant of every cell names a registered cell.
abbrev pub IsClosed : Acl → Type 0
IsClosed acl = all (λ entry. grants_registered (names acl.cells) entry.1) acl.cells ≡ true

parse-IsClosed :
    (text : Option (List (String × RawCell))) (acl : Acl) → parse text ≡ ok acl → IsClosed acl
unfolding parse
parse-IsClosed none acl h = cc
parse-IsClosed (some raw) acl h =
    let (cells, p, q) = >>=-eq-ok (parse_cells raw) _ h in ground arith

-- A reload that succeeds installs the ACL that was parsed, whose grants all name registered cells; a
-- reload that fails leaves the previous ACL in force.
pub reload_atomic :
    (text : Option (List (String × RawCell))) (current : Acl)
    → ((parse text ≡ ok (reload text current).1) × IsClosed (reload text current).1)
      ⊎ ((e : BusError) × ((reload text current).0 ≡ err e) × ((reload text current).1 ≡ current))
unfolding reload
reload_atomic text current = elim (Result-cases (parse text)) [
  | inl (acl, p) ↦ inl (rw (p, reload) (refl, parse-IsClosed text acl p))
  | inr (e, p) ↦ inr (e, ground (arith, p), ground (arith, p))
]
