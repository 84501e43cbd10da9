-- ===== src/Store/Asks.antt =====
-- crates/crewd-core/src/store.rs: submission dedupe and ask tickets. SHA-256 is the parameter `sha256`,
-- from the body to its hexadecimal hash; `now` is the clock's text.
use mcp_crewd_rs.Base.{
  ℕ, String, Bool, true, false, not, ◌&&◌, Option, none, some, List, [], ◌∷◌, ◌++◌, map, select,
  count, find, update, ◌==◌, text_leb, if◌then◌else◌, unwrap_or,
}
use mcp_crewd_rs.Types.{Envelope}
use mcp_crewd_rs.Store.Tables.{Store, Ask, AskState, pending, answered, expired, Dedupe}

abbrev pub is_submission : String → String → Dedupe → Bool
is_submission from key d = d.from_cell == from && d.idempotency_key == key

unfoldable pub dedupe_lookup : String → String → Store → Option Dedupe
dedupe_lookup from key s = find (is_submission from key) s.dedupe

unfoldable pub dedupe_insert :
    String → String → String → String → Option String → String → Store → Store
dedupe_insert now from key message_id ask_id body_sha256 s = record s {
  dedupe =
      select (λ d. not (is_submission from key d)) s.dedupe
      ++ record {
        from_cell = from;
        idempotency_key = key;
        message_id = message_id;
        ask_id = ask_id;
        body_sha256 = body_sha256;
        created_at = now;
      }
        ∷ [];
}

abbrev pub is_ask : String → Ask → Bool
is_ask ask_id a = a.ask_id == ask_id

unfoldable pub insert_ask : String → String → String → String → String → Store → Store
insert_ask ask_id message_id from to expires_at s = record s {
  asks =
      select (λ a. not (is_ask ask_id a)) s.asks
      ++ record {
        ask_id = ask_id;
        message_id = message_id;
        from_cell = from;
        to_cell = to;
        expires_at = expires_at;
        state = pending;
        reply_message_id = none;
        reply_body_sha256 = none;
      }
        ∷ [];
}

unfoldable pub get_ask : String → Store → Option Ask
get_ask ask_id s = find (is_ask ask_id) s.asks

pub data ReplyOutcome : Type 0 where
  recorded : ReplyOutcome
  duplicate_identical : String → ReplyOutcome
  conflict : ReplyOutcome

abbrev pub is_pending : AskState → Bool
is_pending pending = true
is_pending _ = false

abbrev same_hash : Option String → String → Bool
same_hash none h = false
same_hash (some k) h = k == h

module _ (sha256 : String → String) where
  unfoldable pub reply_precheck : String → Envelope → Store → ReplyOutcome
  reply_precheck ask_id reply s = elim (find (is_ask ask_id) s.asks) [
    | none ↦ conflict
    | some a ↦
        if not (is_pending a.state)
        then if same_hash a.reply_body_sha256 (sha256 reply.body)
          then duplicate_identical (unwrap_or a.reply_message_id "")
          else conflict
        else recorded
  ]

  unfoldable pub commit_reply : String → Envelope → Store → Store
  commit_reply ask_id reply s = record s {
    asks =
        update (is_ask ask_id)
          (λ a. record a {
            state = answered;
            reply_message_id = some reply.message_id;
            reply_body_sha256 = some (sha256 reply.body);
          })
          s.asks;
  }

  unfoldable pub record_reply : String → Envelope → Store → ReplyOutcome × Store
  unfolding reply_precheck commit_reply
  record_reply ask_id reply s = elim (reply_precheck ask_id reply s) [
    | recorded ↦ (recorded, commit_reply ask_id reply s)
    | duplicate_identical m ↦ (duplicate_identical m, s)
    | conflict ↦ (conflict, s)
  ]

pub open_asks_total : Store → ℕ
open_asks_total s = count (λ a. is_pending a.state) s.asks

pub pending_asks_count : String → Store → ℕ
pending_asks_count requester s = count (λ a. a.from_cell == requester && is_pending a.state) s.asks

pub open_asks_where_responder : String → Store → ℕ
open_asks_where_responder cell s = count (λ a. a.to_cell == cell && is_pending a.state) s.asks

pub expire_ids : List String → List Ask → List Ask
expire_ids [] asks = asks
expire_ids (id ∷ ids) asks =
    expire_ids ids (update (is_ask id) (λ a. record a { state = expired }) asks)

unfoldable pub expire_asks_due : String → Store → List String × Store
unfolding expire_ids
expire_asks_due now s =
    let ids =
      map (λ (a : Ask). a.ask_id)
        (select (λ a. is_pending a.state && text_leb a.expires_at now) s.asks) in
    (ids, record s { asks = expire_ids ids s.asks })
