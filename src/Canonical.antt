-- ===== src/Canonical.antt =====
-- crates/crewd-core/src/canonical.rs: canonical JSON. Of serde_json's values a number is the text
-- that `to_string` gives it; serde_json's string escaping is the parameter `escape`.
use Prim.Native.String.{◌++◌}
use mcp_crewd_rs.Base.{String, Bool, true, false, List, [], ◌∷◌, text_leb, if◌then◌else◌}

mutual
  pub data Value : Type 0 where
    null : Value
    bool : Bool → Value
    number : String → Value
    string : String → Value
    array : Items → Value
    object : Fields → Value

  pub data Items : Type 0 where
    nil : Items
    cons : Value → Items → Items

  -- The entries of a map, whose keys are distinct.
  pub data Fields : Type 0 where
    end : Fields
    field : String → Value → Fields → Fields

-- `Vec<&String>::sort`: the keys in byte order, each with the text of its value.
pub insert_key : String → String → List (String × String) → List (String × String)
insert_key k t [] = (k, t) ∷ []
insert_key k t ((j, u) ∷ rest) =
    let later = insert_key k t rest in
    if text_leb k j then (k, t) ∷ (j, u) ∷ rest else (j, u) ∷ later

pub sort_keys : List (String × String) → List (String × String)
unfolding insert_key
sort_keys [] = []
sort_keys ((k, t) ∷ rest) = insert_key k t (sort_keys rest)

module _ (escape : String → String) where
  -- The entries of an object from the `i`-th on: a comma stands before all but the first.
  pub write_entries : Bool → List (String × String) → String
  write_entries first [] = "}"
  write_entries first ((k, t) ∷ rest) =
      (if first then "" else ",") ++ (escape k ++ (":" ++ (t ++ write_entries false rest)))

unfoldable mutual
  unfolding sort_keys write_entries

  pub write_value : (String → String) → Value → String
  write_value escape null = "null"
  write_value escape (bool b) = if b then "true" else "false"
  write_value escape (number n) = n
  write_value escape (string s) = escape s
  write_value escape (array xs) = "[" ++ write_items escape true xs
  write_value escape (object fs) = "{" ++ write_entries escape true (sort_keys (entries escape fs))

  pub write_items : (String → String) → Bool → Items → String
  write_items escape first nil = "]"
  write_items escape first (cons x xs) =
      (if first then "" else ",") ++ (write_value escape x ++ write_items escape false xs)

  -- Every key of an object with the text of its value.
  pub entries : (String → String) → Fields → List (String × String)
  entries escape end = []
  entries escape (field k v fs) = (k, write_value escape v) ∷ entries escape fs

abbrev pub to_canonical_json : (String → String) → Value → String
to_canonical_json escape v = write_value escape v
