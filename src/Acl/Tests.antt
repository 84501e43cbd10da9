-- ===== src/Acl/Tests.antt =====
-- Runs of acl.rs.
use mcp_crewd_rs.Base.{
  ◌≡◌, refl, ◌↔◌, String, Bool, true, false, not, ◌&&◌, some, List, [], ◌∷◌, ◌==◌,
}
use mcp_crewd_rs.Error.{ok}
use mcp_crewd_rs.Acl.{
  Acl, CellAcl, RawCell, Capability, send, ask, parse, parse_cells, parse_cell, parse_capabilities,
  parse_capability, insert_capability, check, check_reach, via_send, get, recipients_for_broadcast,
  is_registered, contains, capability_as_str, rank,
}
use mcp_crewd_rs.Acl.Reach.{IsMap, is_ok, broadcast-eq-reach}
use mcp_crewd_rs.Acl.Parse.{check-parse, listed, raw_get}

abbrev raw_cell : List String → Bool → List String → RawCell
raw_cell caps protected grants = record {
  engine = "fake";
  capabilities = caps;
  protected = protected;
  send_to_protected = grants;
  ask_protected = [];
  order_preserving = false;
}

abbrev raw : List (String × RawCell)
raw =
    ("a", raw_cell ("send" ∷ "ask" ∷ []) false ("c" ∷ []))
    ∷ ("b", raw_cell ("send" ∷ []) false [])
    ∷ ("c", raw_cell [] true [])
    ∷ []

abbrev cell : List Capability → Bool → List String → CellAcl
cell caps protected grants = record {
  capabilities = caps;
  protected = protected;
  send_to_protected = grants;
  ask_protected = [];
  engine = "fake";
  order_preserving = false;
}

abbrev three_cells : Acl
three_cells = record {
  cells =
      ("a", cell (send ∷ ask ∷ []) false ("c" ∷ []))
      ∷ ("b", cell (send ∷ []) false [])
      ∷ ("c", cell [] true [])
      ∷ [];
}

parsed : parse (some raw) ≡ ok three_cells
unfolding parse parse_cells parse_cell parse_capabilities parse_capability insert_capability rank
parsed = refl

three_cells-IsMap : IsMap three_cells.cells
unfolding get
three_cells-IsMap = (refl, (refl, (refl, tt)))

found_b : get three_cells.cells "b" ≡ some (cell (send ∷ []) false [])
unfolding get
found_b = refl

broadcast-eq-reach_example :
    (contains (recipients_for_broadcast three_cells "b").0 "c"
      ≡ (not ("c" == "b") && is_registered three_cells "c")
        && is_ok (check_reach three_cells "b" "c" via_send))
    × (contains (recipients_for_broadcast three_cells "b").1 "c"
        ≡ (not ("c" == "b") && is_registered three_cells "c")
          && not (is_ok (check_reach three_cells "b" "c" via_send)))
broadcast-eq-reach_example =
    broadcast-eq-reach three_cells "b" "c" (cell (send ∷ []) false []) three_cells-IsMap found_b

check-parse_example :
    (check three_cells "b" ask ≡ ok tt) ↔ (listed (raw_get raw "b") (capability_as_str ask) ≡ true)
check-parse_example = check-parse raw three_cells "b" ask parsed
