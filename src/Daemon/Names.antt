-- ===== src/Daemon/Names.antt =====
-- crates/crewd/src/handlers.rs: the names of ephemeral cells, and the final answer in a journal.
use Prim.Native.Char.{Char, code}
use Prim.Native.String.{◌++◌ as ◌^^◌}
use mcp_crewd_rs.Base.{
  ℕ, String, Bool, ◌||◌, Option, none, some, List, [], ◌∷◌, eqb, if◌then◌else◌, is_some, take,
  reverse, strip_prefix,
}
use mcp_crewd_rs.Validators.{ephemeral_prefix, in_range, is_ascii_lowercase, is_ascii_digit}

-- `starts_with('~')`
pub has_reserved_prefix : String → Bool
has_reserved_prefix cell = is_some (strip_prefix "~" cell)

abbrev pub is_ascii_alphanumeric : ℕ → Bool
is_ascii_alphanumeric c = is_ascii_lowercase c || in_range b'A' b'Z' c || is_ascii_digit c

pub alphanumerics : String → List Char
alphanumerics String.[] = []
alphanumerics (String.◌∷◌ c s) =
    let rest = alphanumerics s in if is_ascii_alphanumeric (code c) then c ∷ rest else rest

pub text_of : List Char → String
text_of [] = String.[]
text_of (c ∷ cs) = String.◌∷◌ c (text_of cs)

-- `.rev().take(8).collect().into_iter().rev().collect()`
pub last_eight : List Char → List Char
last_eight cs = reverse (take 8 (reverse cs))

pub ephemeral_cell_name : String → String
unfolding alphanumerics text_of last_eight
ephemeral_cell_name uuid = ephemeral_prefix ^^ text_of (last_eight (alphanumerics uuid))

-- `split_once(' ')?.1`
pub after_space : String → Option String
after_space String.[] = none
after_space (String.◌∷◌ c s) =
    let rest = after_space s in if eqb (code c) b' ' then some s else rest

abbrev pub final_prefix : String
final_prefix = "final: "

-- The closure of the `find_map`
abbrev pub final_of : Option String → Option String
final_of none = none
final_of (some body) = strip_prefix final_prefix body

pub find_final : List String → Option String
find_final [] = none
find_final (line ∷ rest) =
    let later = find_final rest in
    elim (final_of (after_space line)) [ none ↦ later | some answer ↦ some answer ]

pub journal_final_answer : List String → Option String
unfolding after_space find_final
journal_final_answer tail = find_final (reverse tail)
