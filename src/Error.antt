-- ===== src/Error.antt =====
-- crates/crewd-core/src/error.rs: the stable error codes, and `Result`.
-- An error is its variant; the human-readable text that a variant carries is not modelled.
use mcp_crewd_rs.Base.{String, Bool, true, false, ◌≡◌, refl, ◌⊎◌, inl, inr}

pub data BusError : Type 0 where
  acl_denied auth_rejected unknown_cell ttl_expired would_deadlock quota : BusError
  body_too_large dup ask_not_found reply_exists unsupported_spec_version : BusError
  cell_busy queue_full engine_down thread_not_resumable policy_denied : BusError
  timeout cancelled internal : BusError

pub code : BusError → String
code acl_denied = "E_ACL_DENIED"
code auth_rejected = "E_AUTH_REJECTED"
code unknown_cell = "E_UNKNOWN_CELL"
code ttl_expired = "E_TTL_EXPIRED"
code would_deadlock = "E_WOULD_DEADLOCK"
code quota = "E_QUOTA"
code body_too_large = "E_BODY_TOO_LARGE"
code dup = "E_DUP"
code ask_not_found = "E_ASK_NOT_FOUND"
code reply_exists = "E_REPLY_EXISTS"
code unsupported_spec_version = "E_UNSUPPORTED_SPEC_VERSION"
code cell_busy = "E_CELL_BUSY"
code queue_full = "E_QUEUE_FULL"
code engine_down = "E_ENGINE_DOWN"
code thread_not_resumable = "E_THREAD_NOT_RESUMABLE"
code policy_denied = "E_POLICY_DENIED"
code timeout = "E_TIMEOUT"
code cancelled = "E_CANCELLED"
code internal = "E_INTERNAL"

pub data Result {ℓ} (A : Type ℓ) : Type ℓ where
  ok : A → Result A
  err : BusError → Result A

-- `if fails { return Err(e) }`
abbrev pub reject_if : Bool → BusError → Result (Unit {0})
reject_if true e = err e
reject_if false e = ok tt

-- Rust's `?`, and `?` on a call whose value is dropped
infixl 5 ◌>>=◌ ◌>>◌
abbrev pub ◌>>=◌ {κ ℓ} : {B : Type κ} {A : Type ℓ} → Result B → (B → Result A) → Result A
err failure >>= next = err failure
ok value >>= next = next value

abbrev pub ◌>>◌ {κ} : {A : Type κ} → Result (Unit {0}) → Result A → Result A
err failure >> rest = err failure
ok done >> rest = rest

-- Inversion of a `?` that went on.
pub >>=-eq-ok {κ ℓ} :
    {B : Type κ} {A : Type ℓ} (call : Result B) (next : B → Result A) {a : A}
    → (call >>= next) ≡ ok a
    → (b : B) × (call ≡ ok b) × (next b ≡ ok a)
>>=-eq-ok (err failure) next h = cc
>>=-eq-ok (ok value) next h = (value, refl, h)

pub reject_if-eq-ok {κ} :
    {A : Type κ} (fails : Bool) (failure : BusError) (rest : Result A) {a : A}
    → (reject_if fails failure >> rest) ≡ ok a
    → (fails ≡ false) × (rest ≡ ok a)
reject_if-eq-ok false failure rest h = (refl, h)
reject_if-eq-ok true failure rest h = cc

pub Result-cases {ℓ} :
    {A : Type ℓ} (r : Result A) → ((a : A) × (r ≡ ok a)) ⊎ ((e : BusError) × (r ≡ err e))
Result-cases (ok a) = inl (a, refl)
Result-cases (err e) = inr (e, refl)
