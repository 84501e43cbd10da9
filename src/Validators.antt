-- ===== src/Validators.antt =====
-- crates/crewd-core/src/validators.rs. `str::len` counts bytes. A character outside ASCII has only
-- bytes from 128 up, which no test here accepts, so a test of every byte is one of every character.
pub mod Names
use mcp_crewd_rs.Base.{
  ℕ, String, len, leb, eqb, Bool, not, ◌&&◌, ◌||◌, Option, none, some, all_chars, strip_prefix,
}
use mcp_crewd_rs.Error.{Result, policy_denied, reject_if, ◌>>=◌, ◌>>◌}

abbrev pub ephemeral_prefix : String
ephemeral_prefix = "~ephemeral-"

-- `(lo..=hi).contains(&n)`
abbrev pub in_range : ℕ → ℕ → ℕ → Bool
in_range lo hi n = leb lo n && leb n hi

abbrev pub is_ascii_lowercase : ℕ → Bool
is_ascii_lowercase b = in_range b'a' b'z' b

abbrev pub is_ascii_digit : ℕ → Bool
is_ascii_digit b = in_range b'0' b'9' b

abbrev pub is_name_byte : ℕ → Bool
is_name_byte b = is_ascii_lowercase b || is_ascii_digit b || eqb b b'_' || eqb b b'-'

abbrev pub is_suffix_byte : ℕ → Bool
is_suffix_byte b = is_ascii_lowercase b || is_ascii_digit b

unfoldable pub validate_cell_name : String → Result (Unit {0})
validate_cell_name name = do
  reject_if (not (in_range 1 64 (len name))) policy_denied
  reject_if (not (all_chars is_name_byte name)) policy_denied

validate_ephemeral : Option String → String → Result (Unit {0})
validate_ephemeral none name = validate_cell_name name
validate_ephemeral (some suffix) name = do
  reject_if (not (in_range 1 53 (len suffix))) policy_denied
  reject_if (not (all_chars is_suffix_byte suffix)) policy_denied

unfoldable pub validate_cell_name_allowing_ephemeral : String → Result (Unit {0})
unfolding validate_ephemeral
validate_cell_name_allowing_ephemeral name =
    validate_ephemeral (strip_prefix ephemeral_prefix name) name

unfoldable pub validate_idempotency_key : String → Result (Unit {0})
validate_idempotency_key key = reject_if (not (in_range 1 128 (len key))) policy_denied
