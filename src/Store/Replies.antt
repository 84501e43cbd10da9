-- ===== src/Store/Replies.antt =====
-- crates/crewd-core/src/store.rs: an ask has one reply; submissions are found again by their key.
use mcp_crewd_rs.Base.{
  String, ◌≡◌, refl, ◌∙◌, inl, inr, Bool, true, false, not, ◌&&◌, Option, none, some, List, [], ◌∷◌,
  arith, ◌==◌, eq_iff, eq_refl, if◌then◌else◌, Bool-cases, select, find, find-update_eq,
  find-append_none, find-append_other,
}
use mcp_crewd_rs.Types.{Envelope}
use mcp_crewd_rs.Store.Tables.{Store, Ask, pending, answered, Dedupe}
use mcp_crewd_rs.Store.Asks.{
  is_submission, dedupe_lookup, dedupe_insert, is_ask, get_ask, recorded, duplicate_identical,
  conflict, reply_precheck, commit_reply, record_reply,
}

other_submission :
    (from key f k : String)
    → (f == from && k == key) ≡ false
    → (d : Dedupe) → is_submission from key d ≡ true
    → is_submission f k d ≡ false
other_submission from key f k h d e = elim (Bool-cases (is_submission f k d)) [
  | inr x ↦ x
  | inl x ↦ ground (
    arith,
    eq_iff d.from_cell from,
    eq_iff d.idempotency_key key,
    eq_iff d.from_cell f,
    eq_iff d.idempotency_key k,
    eq_iff f from,
    eq_iff k key,
  )
]

pub find-select-none :
    {A : Type 0} (p : A → Bool) (xs : List A) → find p (select (λ x. not (p x)) xs) ≡ none
find-select-none p [] = refl
find-select-none p (x ∷ xs) = ground (arith, find-select-none p xs)

find-select_other :
    {A : Type 0} (q p : A → Bool) (xs : List A)
    → ((x : A) → p x ≡ true → q x ≡ false)
    → find q (select (λ x. not (p x)) xs) ≡ find q xs
find-select_other q p [] h = refl
find-select_other q p (x ∷ xs) h = ground (arith, find-select_other q p xs h, h x)

-- A submission that was noted is found under its sender and key, and no other submission is lost.
pub dedupe_lookup-dedupe_insert :
    (now from key f k message_id : String) (ask_id : Option String) (hash : String) (s : Store)
    → (f == from && k == key) ≡ false
    → (dedupe_lookup from key (dedupe_insert now from key message_id ask_id hash s)
        ≡ some (record {
          from_cell = from;
          idempotency_key = key;
          message_id = message_id;
          ask_id = ask_id;
          body_sha256 = hash;
          created_at = now;
        }))
      × (dedupe_lookup f k (dedupe_insert now from key message_id ask_id hash s)
          ≡ dedupe_lookup f k s)
unfolding dedupe_lookup dedupe_insert
dedupe_lookup-dedupe_insert now from key f k message_id ask_id hash s h =
    let row : Dedupe = record {
      from_cell = from;
      idempotency_key = key;
      message_id = message_id;
      ask_id = ask_id;
      body_sha256 = hash;
      created_at = now;
    } in
    let is_row : is_submission from key row ≡ true = ground (arith, eq_refl from, eq_refl key) in
    (
      find-append_none (is_submission from key)
            (select (λ d. not (is_submission from key d)) s.dedupe) (row ∷ [])
            (find-select-none (is_submission from key) s.dedupe)
          ∙ ground (arith, is_row),
      find-append_other (is_submission f k) (select (λ d. not (is_submission from key d)) s.dedupe)
            row (other_submission from key f k h row is_row)
          ∙ find-select_other (is_submission f k) (is_submission from key) s.dedupe
              (λ d e. other_submission from key f k h d e),
    )

-- The first reply to a pending ask is recorded. In every later store in which the ask is what the first
-- reply made of it, whatever else has happened, no reply changes the store: one whose body has the
-- hash of the first is told the id of the first, and any other is a conflict, whatever its key is.
pub record_reply_once :
    (sha256 : String → String) (ask_id : String) (first second : Envelope) (s t : Store) (a : Ask)
    → get_ask ask_id s ≡ some a
    → a.state ≡ pending
    → get_ask ask_id t ≡ get_ask ask_id (record_reply sha256 ask_id first s).1
    → ((record_reply sha256 ask_id first s).0 ≡ recorded)
      × (record_reply sha256 ask_id second t ≡ (
        if sha256 first.body == sha256 second.body
            then duplicate_identical first.message_id
            else conflict,
        t,
      ))
unfolding get_ask record_reply reply_precheck commit_reply
record_reply_once sha256 ask_id first second s t a h k later =
    let answer = λ (x : Ask). record x {
      state = answered;
      reply_message_id = some first.message_id;
      reply_body_sha256 = some (sha256 first.body);
    } in
    ground (arith, h, k, later, find-update_eq (is_ask ask_id) answer s.asks a (λ x l. l) h)
