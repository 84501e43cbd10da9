-- ===== src/Validators/Names.antt =====
-- Which names the validators of validators.rs accept.
use Prim.Native.Char.{code}
use Prim.Native.String.{◌++◌}
use text.Mathlib.TextLemmas.{nil-append, cons-append}
use text.Mathlib.TextEquality.{Char-path}
use mcp_crewd_rs.Base.{
  ℕ, ◌≤◌, ◌≡◌, ◌↔◌, subst, ◌&&◌, ◌⊎◌, refl, ap, inl, inr, String, len, Bool, true, Option, none,
  some, arith, all_chars, strip_prefix, eqb, eqb_iff, Bool-cases,
}
use mcp_crewd_rs.Error.{ok}
use mcp_crewd_rs.Validators.{
  validate_cell_name, validate_cell_name_allowing_ephemeral, validate_ephemeral, is_name_byte,
  is_suffix_byte, ephemeral_prefix,
}

-- A registered cell's name: 1 to 64 bytes of `[a-z0-9_-]`.
abbrev pub IsCellName : String → Type 0
IsCellName name = (1 ≤ len name) × (len name ≤ 64) × (all_chars is_name_byte name ≡ true)

-- A name that the daemon mints: the reserved prefix and 1 to 53 bytes of `[a-z0-9]`.
abbrev pub IsEphemeralName : String → Type 0
IsEphemeralName name =
    (suffix : String) × (name ≡ ephemeral_prefix ++ suffix)
    × (1 ≤ len suffix)
    × (len suffix ≤ 53)
    × (all_chars is_suffix_byte suffix ≡ true)

-- `validate_cell_name` accepts exactly the names of 1 to 64 bytes of `[a-z0-9_-]`.
pub validate_cell_name_iff : (name : String) → (validate_cell_name name ≡ ok tt) ↔ IsCellName name
unfolding validate_cell_name
validate_cell_name_iff name = ground arith

strip_prefix-append : (p s : String) → strip_prefix p (p ++ s) ≡ some s
strip_prefix-append String.[] s = rw nil-append
strip_prefix-append (String.◌∷◌ c p) s =
    rw (cons-append c p s) (ground (arith, strip_prefix-append p s))

append-strip_prefix : (p name s : String) → strip_prefix p name ≡ some s → name ≡ p ++ s
append-strip_prefix String.[] name s h = rw nil-append (ground arith)
append-strip_prefix (String.◌∷◌ c p) String.[] s h = ground arith
append-strip_prefix (String.◌∷◌ c p) (String.◌∷◌ d name) s h =
    elim (Bool-cases (eqb (code c) (code d))) [
      | inl e ↦
          rw (cons-append c p s, Char-path c d ((eqb_iff _ _).0 e))
            (ap (String.◌∷◌ d) (append-strip_prefix p name s (ground arith)))
      | inr e ↦ absurd (ground arith)
    ]

all_chars-append :
    (p : ℕ → Bool) (s t : String) → all_chars p (s ++ t) ≡ all_chars p s && all_chars p t
all_chars-append p String.[] t = rw nil-append
all_chars-append p (String.◌∷◌ c s) t =
    rw (cons-append c s t) (ground (arith, all_chars-append p s t))

-- No name of a registered cell starts with the reserved prefix.
not-IsCellName-ephemeral : (suffix : String) → ¬ IsCellName (ephemeral_prefix ++ suffix)
not-IsCellName-ephemeral suffix h =
    ground (arith, all_chars-append is_name_byte ephemeral_prefix suffix)

ephemeral_iff :
    (name : String) (o : Option String)
    → strip_prefix ephemeral_prefix name ≡ o
    → (validate_ephemeral o name ≡ ok tt) ↔ (IsCellName name ⊎ IsEphemeralName name)
unfolding validate_ephemeral validate_cell_name
ephemeral_iff name none e = (
  λ v. inl ((validate_cell_name_iff name).0 v),
  λ w. elim w [
    | inl c ↦ (validate_cell_name_iff name).1 c
    | inr (suffix, eq, _, _, _) ↦
        absurd (
          cc
            (e, ap (strip_prefix ephemeral_prefix) eq, strip_prefix-append ephemeral_prefix suffix))
  ],
)
ephemeral_iff name (some suffix) e = (
  λ v. inr (suffix, name_eq, ground arith, ground arith, ground arith),
  λ w. elim w [
    | inl c ↦ absurd (not-IsCellName-ephemeral suffix (subst IsCellName name_eq c))
    | inr (rest, eq, a, b, c) ↦
        let same : rest ≡ suffix =
          cc
            (e, ap (strip_prefix ephemeral_prefix) eq, strip_prefix-append ephemeral_prefix rest) in
        ground (arith, same)
  ],
)
  where
    name_eq : name ≡ ephemeral_prefix ++ suffix
    name_eq = append-strip_prefix ephemeral_prefix name suffix e

-- The spawn path accepts exactly the registered names and the names that the daemon mints.
pub validate_cell_name_allowing_ephemeral_iff :
    (name : String)
    → (validate_cell_name_allowing_ephemeral name ≡ ok tt)
      ↔ (IsCellName name ⊎ IsEphemeralName name)
unfolding validate_cell_name_allowing_ephemeral
validate_cell_name_allowing_ephemeral_iff name = ephemeral_iff name _ refl
