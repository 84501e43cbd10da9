-- ===== src/Daemon/Send/Resend.antt =====
-- handle_send of crates/crewd/src/handlers.rs with an idempotency key: a message is sent once.
use mcp_crewd_rs.Base.{
  String, ◌≡◌, refl, sym, ap, ◌∙◌, subst, Bool, true, false, not, Option, none, some, [], ◌∷◌,
  arith, ◌==◌, eq_iff, eq_refl, if◌then◌else◌, unwrap_or, select, find, find-append_none,
}
use mcp_crewd_rs.Error.{dup, ok}
use mcp_crewd_rs.Types.{MsgType, task}
use mcp_crewd_rs.Canonical.{Value}
use mcp_crewd_rs.Acl.{Capability, via_send}
use mcp_crewd_rs.Store.Tables.{Store, Dedupe}
use mcp_crewd_rs.Store.Asks.{is_submission, dedupe_lookup, dedupe_insert}
use mcp_crewd_rs.Store.Replies.{find-select-none}
use mcp_crewd_rs.Wire.{SendParams}
use mcp_crewd_rs.Daemon.{
  World, DaemonState, pure, fail, check_body, check_idem, reject_client_identity_keys,
  check_msg_type, parse_params,
}
use mcp_crewd_rs.Daemon.Trail.{Post}
use mcp_crewd_rs.Daemon.Success.{
  Success, then_lift, then_gets, then_draw, then_call, anything, wrote, ended_with, Success-ok,
  Success_imp,
}
use mcp_crewd_rs.Daemon.Outbound.{check_files, key_or_fresh}
use mcp_crewd_rs.Daemon.Outbound.Passed.{authorize-Authorized, admit-HasRoom}
use mcp_crewd_rs.Daemon.Send.{enqueued_value, deliver, submit, handle_send}

-- The submission is noted with the message that the answer names.
abbrev pub Noted : String → String → String → Value → Store → Type 0
Noted from key hash v s =
    (hit : Dedupe) × (dedupe_lookup from key s ≡ some hit)
    × (hit.body_sha256 ≡ hash)
    × (v ≡ enqueued_value hit.message_id)

inserted-Noted :
    (now from key hash message_id : String) (s : Store)
    → Noted from key hash
        (enqueued_value message_id)
        (dedupe_insert now from key message_id none hash s)
unfolding dedupe_lookup dedupe_insert
inserted-Noted now from key hash message_id s =
    let row : Dedupe = record {
      from_cell = from;
      idempotency_key = key;
      message_id = message_id;
      ask_id = none;
      body_sha256 = hash;
      created_at = now;
    } in
    let is_row : is_submission from key row ≡ true = ground (arith, eq_refl from, eq_refl key) in
    (
      row,
      find-append_none (is_submission from key)
            (select (λ d. not (is_submission from key d)) s.dedupe) (row ∷ [])
            (find-select-none (is_submission from key) s.dedupe)
          ∙ ground (arith, is_row),
      refl,
      refl,
    )

module _ (w : World) where
  hit-Noted :
      (from key : String) (p : SendParams) (hit : Dedupe) (same : Bool) (d : DaemonState)
      → (hit.body_sha256 == w.codec.hex_sha256 p.body) ≡ same
      → dedupe_lookup from key d.store ≡ some hit
      → Success
          (λ v e.
            Noted from key (w.codec.hex_sha256 p.body) v e.store
            × (e ≡ d)
            × (v ≡ enqueued_value hit.message_id))
          ((if same then pure (enqueued_value hit.message_id) else fail dup) d)
  unfolding Post
  hit-Noted from key p hit true d h found = (
    (hit, found, ground (arith, h, eq_iff hit.body_sha256 (w.codec.hex_sha256 p.body)), refl),
    refl,
    refl,
  )
  hit-Noted from key p hit false d h found = tt

  deliver-Noted :
      (from to key hash message_id : String) (d : DaemonState)
      → Success (λ v e. Noted from key hash v e.store) (deliver w from to key hash message_id d)
  unfolding deliver
  deliver-Noted from to key hash message_id d =
      let Q : Value → DaemonState → Type 0 = λ v e. Noted from key hash v e.store in
      then_call Q (λ _ _. Unit {0}) _ _ d (anything _)
        λ _ e _. then_draw Q w.secs _ e (
          then_call Q (λ _ f. Noted from key hash (enqueued_value message_id) f.store) _ _ _
            (Success_imp _ _ _
              (λ _ f made.
                subst (Noted from key hash (enqueued_value message_id)) (sym made)
                  (inserted-Noted _ from key hash message_id e.store))
              (wrote w _ _))
            λ _ f noted. ended_with Q _ f noted)

  submit-Noted :
      (from : String) (p : SendParams) (msg_type : MsgType) (key : String) (hit : Option Dedupe)
      (d : DaemonState)
      → dedupe_lookup from key d.store ≡ hit
      → Success
          (λ v e. Noted from key (w.codec.hex_sha256 p.body) v e.store)
          (submit w from p msg_type key hit d)
  unfolding submit
  submit-Noted from p msg_type key (some hit) d found =
      Success_imp _ _ _ (λ v e h. h.0) (hit-Noted from key p hit _ d refl found)
  submit-Noted from p msg_type key none d found =
      let Q : Value → DaemonState → Type 0 =
        λ v e. Noted from key (w.codec.hex_sha256 p.body) v e.store in
      then_call Q (λ _ _. Unit {0}) _ _ d (anything _)
        λ seq d _.
          then_call Q (λ _ _. Unit {0}) _ _ d (anything _)
            λ env d _.
              then_call Q (λ _ _. Unit {0}) _ _ d (anything _)
                λ _ d _.
                  then_call Q (λ _ _. Unit {0}) _ _ d (anything _)
                    λ _ d _.
                      deliver-Noted from p.to_cell key (w.codec.hex_sha256 p.body) env.message_id d

  key-given :
      (o : Option String) (key : String) (d : DaemonState)
      → o ≡ some key
      → Success (λ k e. (k ≡ key) × (e ≡ d)) (key_or_fresh w o d)
  unfolding Post
  key-given none key d h = absurd (cc)
  key-given (some k) key d h = (cc, refl)

  parsed_as :
      (o : Option SendParams) (p : SendParams) (d : DaemonState)
      → o ≡ some p
      → Success (λ q e. (q ≡ p) × (e ≡ d)) (parse_params o d)
  unfolding Post
  parsed_as none p d h = absurd (cc)
  parsed_as (some q) p d h = (cc, refl)

  send-Noted :
      (from : String) (params : Value) (p : SendParams) (key : String) (d : DaemonState)
      → w.send_params params ≡ some p
      → p.idempotency_key ≡ some key
      → Success
          (λ v e. Noted from key (w.codec.hex_sha256 p.body) v e.store)
          (handle_send w from params d)
  unfolding handle_send
  send-Noted from params p key d parsed keyed =
      let Q : Value → DaemonState → Type 0 =
        λ v e. Noted from key (w.codec.hex_sha256 p.body) v e.store in
      then_lift Q (reject_client_identity_keys params []) _ d λ _ _.
        then_call Q (λ q _. q ≡ p) _ _ d (Success_imp _ _ _ (λ _ _ h. h.0) (parsed_as _ p d parsed))
          λ q d same_params.
            then_call Q (λ _ _. Unit {0}) _ _ d (anything _)
              λ acl d _.
                then_call Q (λ _ _. Unit {0}) _ _ d (anything _)
                  λ _ d _.
                    then_call Q (λ _ _. Unit {0}) _ _ d (anything _)
                      λ _ d _.
                        then_call Q (λ _ _. Unit {0}) _ _ d (anything _)
                          λ _ d _.
                            then_call Q (λ _ _. Unit {0}) _ _ d (anything _)
                              λ _ d _.
                                then_call Q (λ _ _. Unit {0}) _ _ d (anything _)
                                  λ _ d _.
                                    then_call Q (λ _ _. Unit {0}) _ _ d (anything _)
                                      λ _ d _.
                                        then_call Q (λ k _. k ≡ key) _ _ d
                                          (Success_imp _ _ _ (λ _ _ h. h.0)
                                            (key-given _ key d (
                                              ap (λ (x : SendParams). x.idempotency_key) same_params
                                              ∙ keyed)))
                                          λ k d same_key. then_gets Q _ _ d (
                                            subst
                                              (λ x. Success Q (
                                                submit w from q (unwrap_or q.msg_type task) x
                                                  (dedupe_lookup from x d.store) d))
                                              (sym same_key)
                                              (subst
                                                (λ (x : SendParams).
                                                  Success
                                                    (λ v e.
                                                      Noted from key (w.codec.hex_sha256 x.body) v
                                                        e.store)
                                                    (submit w from q (unwrap_or q.msg_type task) key
                                                      (dedupe_lookup from key d.store) d))
                                                same_params
                                                (submit-Noted from q (unwrap_or q.msg_type task) key
                                                  _ d refl)))

  resent :
      (p : SendParams) (hit row : Dedupe) (same : Bool) (d : DaemonState)
      → (hit.body_sha256 == w.codec.hex_sha256 p.body) ≡ same
      → hit ≡ row
      → Success
          (λ v e.
            (v ≡ enqueued_value row.message_id)
            × (e.store ≡ d.store)
            × (w.codec.hex_sha256 p.body ≡ row.body_sha256))
          ((if same then pure (enqueued_value hit.message_id) else fail dup) d)
  unfolding Post
  resent p hit row true d e h = (
    ap (λ (x : Dedupe). enqueued_value x.message_id) h,
    refl,
    sym ((eq_iff hit.body_sha256 (w.codec.hex_sha256 p.body)).0 e)
        ∙ ap (λ (x : Dedupe). x.body_sha256) h,
  )
  resent p hit row false d e h = tt

  again :
      (from : String) (p : SendParams) (msg_type : MsgType) (key : String) (hit : Option Dedupe)
      (row : Dedupe) (d : DaemonState)
      → hit ≡ some row
      → Success
          (λ v e.
            (v ≡ enqueued_value row.message_id)
            × (e.store ≡ d.store)
            × (w.codec.hex_sha256 p.body ≡ row.body_sha256))
          (submit w from p msg_type key hit d)
  unfolding submit
  again from p msg_type key none row d h = absurd (cc)
  again from p msg_type key (some hit) row d h = resent p hit row _ d refl (cc)

  send-again :
      (from : String) (params : Value) (p : SendParams) (key : String) (row : Dedupe)
      (d : DaemonState)
      → w.send_params params ≡ some p
      → p.idempotency_key ≡ some key
      → dedupe_lookup from key d.store ≡ some row
      → Success
          (λ v e.
            (v ≡ enqueued_value row.message_id)
            × (e.store ≡ d.store)
            × (w.codec.hex_sha256 p.body ≡ row.body_sha256))
          (handle_send w from params d)
  unfolding handle_send
  send-again from params p key row d parsed keyed found =
      let Q : Value → DaemonState → Type 0 = λ v e.
        (v ≡ enqueued_value row.message_id)
        × (e.store ≡ d.store)
        × (w.codec.hex_sha256 p.body ≡ row.body_sha256) in
      then_lift Q (reject_client_identity_keys params []) _ d λ _ _.
        then_call Q _ _ _ d (parsed_as _ p d parsed) λ q e1 same_params. then_gets Q _ _ e1 (
          then_lift Q (check_msg_type e1.acl from (unwrap_or q.msg_type task)) _ e1 λ _ _.
            then_call Q _ _ _ e1 (authorize-Authorized w from q.to_cell Capability.send via_send e1)
              λ _ e2 allowed. then_lift Q (check_idem (unwrap_or q.idempotency_key "")) _ e2 λ _ _.
                then_lift Q (check_body q.body) _ e2 λ _ _.
                  then_lift Q (check_files e1.acl from q.file_refs) _ e2 λ _ _.
                    then_call Q _ _ _ e2 (admit-HasRoom w from q.to_cell Capability.send 1 e2)
                      λ _ e3 room.
                        then_call Q _ _ _ e3
                          (key-given _ key e3
                            (ap (λ (x : SendParams). x.idempotency_key) same_params.0 ∙ keyed))
                          λ k e4 same_key.
                            let same_store : e4.store ≡ d.store =
                              ap (λ (x : DaemonState). x.store) same_key.1
                              ∙ room.2.0
                              ∙ ap (λ (x : DaemonState). x.store) allowed.1
                              ∙ ap (λ (x : DaemonState). x.store) same_params.1 in
                            then_gets Q _ _ e4 (
                              Success_imp _ Q _
                                (λ v f h. (
                                  h.0,
                                  h.1 ∙ same_store,
                                  ap (λ (x : SendParams). w.codec.hex_sha256 x.body)
                                        (sym same_params.0)
                                      ∙ h.2,
                                ))
                                (again from q (unwrap_or q.msg_type task) k _ row e4 (
                                  ap (λ x. dedupe_lookup from x e4.store) same_key.0
                                  ∙ ap (dedupe_lookup from key) same_store
                                  ∙ found))))

  -- After a send with an idempotency key has succeeded, a send of the same cell with the same key, at any
  -- state whose submissions are those that the first one left, succeeds only if its body has the same
  -- hash. It is then answered as the first one was, and changes nothing in the store: this whatever its
  -- recipient is, since the code compares the bodies and not the addresses.
  pub handle_send_once :
      (from : String) (first second : Value) (p q : SendParams) (key : String) (d e f : DaemonState)
      {v u : Value} {g : DaemonState}
      → w.send_params first ≡ some p
      → w.send_params second ≡ some q
      → p.idempotency_key ≡ some key
      → q.idempotency_key ≡ some key
      → handle_send w from first d ≡ (ok v, e)
      → f.store.dedupe ≡ e.store.dedupe
      → handle_send w from second f ≡ (ok u, g)
      → (u ≡ v) × (g.store ≡ f.store) × (w.codec.hex_sha256 q.body ≡ w.codec.hex_sha256 p.body)
  unfolding dedupe_lookup
  handle_send_once from first second p q key d e f parsed_p parsed_q keyed_p keyed_q run same
        rerun =
      let (row, found, hash, answer) =
        Success-ok _ _ (send-Noted from first p key d parsed_p keyed_p) run in
      let result =
        Success-ok _ _
          (send-again from second q key row f parsed_q keyed_q
            (ap (find (is_submission from key)) same ∙ found))
          rerun in
      (result.0 ∙ sym answer, result.1, result.2 ∙ hash)
