-- ===== src/Audit/Tests.antt =====
-- Runs of audit.rs, with a JSON reader that knows the lines of two events and a constant hash.
use mcp_crewd_rs.Base.{
  ◌≡◌, ◌≢◌, refl, ◌⊎◌, eq_iff, String, none, some, [], ◌∷◌, ◌==◌, if◌then◌else◌, arith,
}
use mcp_crewd_rs.Error.{ok, err, internal}
use mcp_crewd_rs.Canonical.{Value, object}
use mcp_crewd_rs.Audit.{
  Codec, AuditEvent, AuditEventDraft, AuditChain, genesis_hash, unsynced, synced, append, seal,
  to_value, assert_kind, verify, verify_from, read_entry, get, get_str, remove, without_hash,
  recompute, readable, intact, broken, open_chain,
}
use mcp_crewd_rs.Audit.Chain.{IsFaithful, IsIntact, append-IsIntact, open-append}
use mcp_crewd_rs.Audit.Tamper.{IsHex, SameContents, Collides, events, tamper_evident}
use mcp_crewd_rs.Audit.Sync.{unsynced_append_breaks_chain}

abbrev some_hash : String
some_hash = "aaaaaaaaaaaaaaaaaaaaaaaaaaaaaaaaaaaaaaaaaaaaaaaaaaaaaaaaaaaaaaaa"

abbrev draft : AuditEventDraft
draft = record {
  kind = "enqueued";
  message_id = none;
  from = some "a";
  to = some "b";
  outcome = "ok";
  detail = none;
}

abbrev event : String → String → AuditEvent
event id ts = record {
  event_id = id;
  ts = ts;
  kind = "enqueued";
  message_id = none;
  from = some "a";
  to = some "b";
  outcome = "ok";
  detail = none;
  prev_hash = genesis_hash;
  hash = some_hash;
}

abbrev value : String → String → Value
unfolding to_value
value id ts = object (to_value (event id ts))

abbrev id_of : Value → String
unfolding get_str get
id_of v = elim (get_str "event_id" v) [ none ↦ "" | some s ↦ s ]

-- A line is the id of its event.
abbrev codec : Codec
codec = record {
  escape = λ s. s;
  hex_sha256 = λ s. some_hash;
  from_str = λ l.
      if l == "1" then some (value "1" "t1") else if l == "2" then some (value "2" "t2") else none;
  to_line = id_of;
  is_blank = λ l. l == "";
}

abbrev empty_chain : AuditChain
empty_chain = record { head_hash = genesis_hash; lines = [] }

abbrev one_event : AuditChain
one_event = record { head_hash = some_hash; lines = "1" ∷ [] }

abbrev after_failure : AuditChain
after_failure = record { head_hash = some_hash; lines = "1" ∷ "2" ∷ [] }

event_1-IsFaithful : IsFaithful codec (event "1" "t1")
unfolding to_value get_str get
event_1-IsFaithful = record { reads_back = refl; not_blank = refl }

event_2-IsFaithful : IsFaithful codec (event "2" "t2")
unfolding to_value get_str get
event_2-IsFaithful = record { reads_back = refl; not_blank = refl }

empty-IsIntact : IsIntact codec empty_chain 0
unfolding verify verify_from
empty-IsIntact = refl

first_append : append codec synced "1" "t1" draft empty_chain ≡ (ok (event "1" "t1"), one_event)
unfolding append assert_kind seal recompute to_value get_str get
first_append = refl

append-IsIntact_example :
    IsIntact codec one_event 1
    × ((event "1" "t1").prev_hash ≡ genesis_hash)
    × (one_event.head_hash ≡ some_hash)
append-IsIntact_example =
    append-IsIntact codec "1" "t1" draft empty_chain one_event (event "1" "t1") 0 event_1-IsFaithful
      empty-IsIntact first_append

open-append_example : open_chain codec ("1" ∷ []) ≡ some one_event
open-append_example =
    open-append codec "1" "t1" draft empty_chain one_event (event "1" "t1") event_1-IsFaithful
      first_append

seal_1-IsFaithful : IsFaithful codec (seal codec genesis_hash "1" "t1" draft)
unfolding seal recompute to_value get_str get
seal_1-IsFaithful = record { reads_back = refl; not_blank = refl }

kind_known : assert_kind "enqueued" ≡ ok tt
unfolding assert_kind
kind_known = refl

fresh_hash : (seal codec genesis_hash "1" "t1" draft).hash ≢ genesis_hash
unfolding seal recompute
fresh_hash = ground (arith, eq_iff some_hash genesis_hash)

next_append :
    append codec synced "2" "t2" draft (append codec unsynced "1" "t1" draft empty_chain).1
    ≡ (ok (event "2" "t2"), after_failure)
unfolding append assert_kind seal recompute to_value get_str get
next_append = refl

unsynced_append_breaks_chain_example :
    ((append codec unsynced "1" "t1" draft empty_chain).0 ≡ err internal)
    × (verify codec (readable ("1" ∷ "2" ∷ [])) ≡ broken "2" 1)
unsynced_append_breaks_chain_example =
    unsynced_append_breaks_chain codec "1" "t1" "2" "t2" draft draft empty_chain after_failure
      (event "2" "t2") 0 seal_1-IsFaithful event_2-IsFaithful empty-IsIntact kind_known fresh_hash
      next_append

codec-IsHex : IsHex codec
codec-IsHex = record { hex_length = λ s. refl }

one_event_verified : verify codec (readable ("1" ∷ [])) ≡ intact some_hash 1
unfolding verify verify_from read_entry get_str get recompute without_hash remove value
one_event_verified = refl

other_event_verified : verify codec (readable ("2" ∷ [])) ≡ intact some_hash 1
unfolding verify verify_from read_entry get_str get recompute without_hash remove value
other_event_verified = refl

-- Under a hash with collisions, of two files with different events
tamper_evident_example :
    SameContents codec (events codec ("1" ∷ [])) (events codec ("2" ∷ []))
    ⊎ Collides codec genesis_hash genesis_hash (events codec ("1" ∷ [])) (events codec ("2" ∷ []))
tamper_evident_example =
    tamper_evident codec ("1" ∷ []) ("2" ∷ []) some_hash 1 codec-IsHex one_event_verified
      other_event_verified
