-- ===== src/Daemon/Reply/Answers.antt =====
-- handle_reply of crates/crewd/src/handlers.rs: the asker gets the reply.
use mcp_crewd_rs.Base.{
  String, ◌≡◌, refl, ap, ◌∙◌, sym, subst, not, some, [], ◌∷◌, arith, ◌==◌, eq_iff, eq_refl,
  unwrap_or, select, find, find-update_eq, find-append_none,
}
use mcp_crewd_rs.Error.{Result, ok, err}
use mcp_crewd_rs.Types.{Envelope}
use mcp_crewd_rs.Canonical.{Value}
use mcp_crewd_rs.Acl.{Capability, check}
use mcp_crewd_rs.Store.Tables.{Store, Ask, pending, answered}
use mcp_crewd_rs.Store.Deliveries.{has_id, insert_envelope, insert_delivery, get_envelope}
use mcp_crewd_rs.Store.Asks.{
  is_ask, get_ask, ReplyOutcome, recorded, duplicate_identical, conflict, reply_precheck,
  commit_reply,
}
use mcp_crewd_rs.Store.Replies.{find-select-none}
use mcp_crewd_rs.Wire.{ReplyParams}
use mcp_crewd_rs.Daemon.{
  World, DaemonState, audit, write, build_envelope_with_caps, build_envelope, Draft, check_body,
  check_idem, reject_client_identity_keys,
}
use mcp_crewd_rs.Daemon.Trail.{Post, Kept}
use mcp_crewd_rs.Daemon.Success.{
  Success, then_lift, then_gets, then_parsed, then_fail_if, then_call, audit-store, Success-state,
  Success-ok, Success_imp, wrote, ended_with,
}
use mcp_crewd_rs.Daemon.Outbound.{check_files, enqueued}
use mcp_crewd_rs.Daemon.Gates.{key_or_fresh-Keeps, next_seq-Keeps}
use mcp_crewd_rs.Daemon.Json.{envelope_value}
use mcp_crewd_rs.Daemon.Await.{
  Waiting, notified, answered_value, answered_reply, reply_envelope, reply_json, woken, await_end,
}
use mcp_crewd_rs.Daemon.Reply.{wake_asker, reply_draft, answer, settle, handle_reply}

-- The ask is answered by an envelope of the store with the body.
abbrev pub Answered : String → String → Store → Type 0
Answered ask_id body s =
    (a : Ask) × (env : Envelope) × (get_ask ask_id s ≡ some a)
    × (a.state ≡ answered)
    × (a.reply_message_id ≡ some env.message_id)
    × (get_envelope env.message_id s ≡ some env)
    × (env.body ≡ body)

-- A step that keeps the messages keeps the asks.
keeps_asks :
    {A : Type 0} (d : DaemonState) (r : Result A × DaemonState)
    → Post (λ _ e. Kept d e × Unit {0}) (λ _ e. Kept d e) r
    → Success (λ _ e. e.store.asks ≡ d.store.asks) r
unfolding Post
keeps_asks d (ok a, e) h = h.0.1
keeps_asks d (err x, e) h = tt

same_asks : (ask_id : String) (s t : Store) → t.asks ≡ s.asks → get_ask ask_id t ≡ get_ask ask_id s
unfolding get_ask
same_asks ask_id s t h = ap (find (is_ask ask_id)) h

kept_asks : (env : Envelope) (s : Store) → (insert_envelope env s).asks ≡ s.asks
unfolding insert_envelope
kept_asks env s = refl

module _ (w : World) where
  built :
      (m : Draft) (d : DaemonState)
      → Success
          (λ env e. (env.body ≡ m.body) × (e.store ≡ d.store))
          (build_envelope_with_caps w m d)
  unfolding build_envelope_with_caps build_envelope Post
  built m d = (refl, refl)

  -- The reply is recorded, and the rest of `answer` leaves the asks and the envelopes alone.
  committed-Answered :
      (p : ReplyParams) (a : Ask) (env : Envelope) (s : Store)
      → get_ask p.ask_id s ≡ some a
      → get_envelope env.message_id s ≡ some env
      → env.body ≡ p.body
      → Answered p.ask_id p.body (commit_reply w.codec.hex_sha256 p.ask_id env s)
  unfolding commit_reply get_ask get_envelope
  committed-Answered p a env s found stored body = (
    record a {
      state = answered;
      reply_message_id = some env.message_id;
      reply_body_sha256 = some (w.codec.hex_sha256 env.body);
    },
    env,
    find-update_eq (is_ask p.ask_id) _ s.asks a (λ x l. l) found,
    refl,
    refl,
    stored,
    body,
  )

  delivered-Answered :
      (ask_id body message_id to : String) (s : Store)
      → Answered ask_id body s
      → Answered ask_id body (insert_delivery message_id to s)
  unfolding insert_delivery get_ask get_envelope
  delivered-Answered ask_id body message_id to s h = h

  woken-Answered :
      (ask_id body id : String) (d : DaemonState)
      → Answered ask_id body d.store
      → Success (λ _ e. Answered ask_id body e.store) (wake_asker id d)
  unfolding Post
  woken-Answered ask_id body id d h = h

  answer-Answered :
      (p : ReplyParams) (ask a : Ask) (env : Envelope) (d : DaemonState)
      → get_ask p.ask_id d.store ≡ some a
      → get_envelope env.message_id d.store ≡ some env
      → env.body ≡ p.body
      → Success (λ _ e. Answered p.ask_id p.body e.store) (answer w p ask env d)
  unfolding answer
  answer-Answered p ask a env d found stored body =
      let Q : Value → DaemonState → Type 0 = λ _ e. Answered p.ask_id p.body e.store in
      let R : Unit {0} → DaemonState → Type 0 = λ _ e. Answered p.ask_id p.body e.store in
      then_call Q R _ _ d
        (Success_imp _ R _
          (λ _ e made.
            subst (Answered p.ask_id p.body) (sym made)
              (committed-Answered p a env d.store found stored body))
          (wrote w _ d))
        λ _ e h.
          then_call Q R _ _ e
            (Success_imp _ R _
              (λ _ f made.
                subst (Answered p.ask_id p.body) (sym made)
                  (delivered-Answered p.ask_id p.body env.message_id ask.from_cell e.store h))
              (wrote w _ e))
            λ _ f h.
              then_call Q R _ _ f (woken-Answered p.ask_id p.body p.ask_id f h)
                λ _ g h. ended_with Q _ g h

  stored_envelope :
      (env : Envelope) (s : Store) → get_envelope env.message_id (insert_envelope env s) ≡ some env
  unfolding get_envelope insert_envelope
  stored_envelope env s =
      find-append_none (has_id env.message_id)
        (select (λ x. not (has_id env.message_id x)) s.envelopes) (env ∷ [])
        (find-select-none (has_id env.message_id) s.envelopes)
      ∙ ground (arith, eq_refl env.message_id)

  inserted :
      (env : Envelope) (d : DaemonState)
      → Success
          (λ _ e. (get_envelope env.message_id e.store ≡ some env) × (e.store.asks ≡ d.store.asks))
          (write w (insert_envelope env) d)
  inserted env d =
      Success_imp _ _ _
        (λ _ e made. (
          ap (get_envelope env.message_id) made ∙ stored_envelope env d.store,
          ap (λ (s : Store). s.asks) made ∙ kept_asks env d.store,
        ))
        (wrote w (insert_envelope env) d)

  settle-Answered :
      (from : String) (p : ReplyParams) (ask a : Ask) (env : Envelope) (outcome : ReplyOutcome)
      (d : DaemonState)
      → get_ask p.ask_id d.store ≡ some a
      → outcome ≡ recorded
      → env.body ≡ p.body
      → Success (λ _ e. Answered p.ask_id p.body e.store) (settle w from p ask env outcome d)
  unfolding settle
  settle-Answered from p ask a env (duplicate_identical m) d found first body = absurd (cc)
  settle-Answered from p ask a env conflict d found first body = absurd (cc)
  settle-Answered from p ask a env recorded d found first body =
      let Q : Value → DaemonState → Type 0 = λ _ e. Answered p.ask_id p.body e.store in
      then_call Q _ _ _ d (inserted env d) λ _ e there.
        let event = enqueued env.message_id from ask.from_cell in
        then_call Q (λ _ f. f.store ≡ e.store) (audit w event) _ e
          (Success-state (λ f. f.store ≡ e.store) (audit w event e) (audit-store w event e))
          λ _ f same.
            answer-Answered p ask a env f
              (same_asks p.ask_id _ _ (ap (λ (s : Store). s.asks) same ∙ there.1) ∙ found)
              (ap (get_envelope env.message_id) same ∙ there.0) body

  pending-recorded :
      (ask_id : String) (env : Envelope) (a : Ask) (s : Store)
      → get_ask ask_id s ≡ some a
      → a.state ≡ pending
      → reply_precheck w.codec.hex_sha256 ask_id env s ≡ recorded
  unfolding reply_precheck get_ask
  pending-recorded ask_id env a s found unanswered = ground (arith, found, unanswered)

  reply-Answered :
      (from : String) (params : Value) (p : ReplyParams) (a : Ask) (d : DaemonState)
      → w.reply_params params ≡ some p
      → get_ask p.ask_id d.store ≡ some a
      → a.state ≡ pending
      → Success
          (λ _ e. (a.to_cell ≡ from) × Answered p.ask_id p.body e.store)
          (handle_reply w from params d)
  unfolding handle_reply
  reply-Answered from params p a d parsed found unanswered =
      let Q : Value → DaemonState → Type 0 =
        λ _ e. (a.to_cell ≡ from) × Answered p.ask_id p.body e.store in
      then_lift Q (reject_client_identity_keys params ("ask_id" ∷ [])) _ d λ _ _.
        then_parsed Q _ p _ _ d parsed (
          then_lift Q (check_idem (unwrap_or p.idempotency_key "")) _ d λ _ _.
            then_lift Q (check_body p.body) _ d λ _ _. then_gets Q _ _ d (
              then_lift Q (check_files d.acl from p.file_refs) _ d λ _ _.
                then_lift Q (check d.acl from Capability.reply) _ d λ _ _. then_gets Q _ _ d (
                  then_parsed Q _ a _ _ d found (
                    then_fail_if Q (not (a.to_cell == from)) _ _ d λ owner.
                      then_call Q _ _ _ d
                        (keeps_asks d _ (key_or_fresh-Keeps w p.idempotency_key d))
                        λ key e1 h1.
                          then_call Q _ _ _ e1
                            (keeps_asks e1 _ (next_seq-Keeps from a.from_cell e1))
                            λ seq e2 h2.
                              then_call Q _ _ _ e2 (built (reply_draft from p a key seq) e2)
                                λ env e3 h3.
                                  let there : get_ask p.ask_id e3.store ≡ some a =
                                    same_asks p.ask_id _ _
                                      (ap (λ (s : Store). s.asks) h3.1 ∙ h2 ∙ h1)
                                    ∙ found in
                                  then_gets Q _ _ e3 (
                                    Success_imp _ Q _
                                      (λ _ _ done.
                                        ((eq_iff a.to_cell from).0 (ground (arith, owner)), done))
                                      (settle-Answered from p a a env _ e3 there
                                        (pending-recorded p.ask_id env a e3.store there unanswered)
                                        h3.0))))))

  -- A reply to a pending ask that succeeds comes from the cell that was asked; the ask is then answered
  -- by an envelope with the body of the reply, and an await of the asker that is notified answers with
  -- that envelope.
  pub handle_reply-await_end :
      (from : String) (params : Value) (p : ReplyParams) (a : Ask) (x : Waiting) (d e : DaemonState)
      {v : Value}
      → w.reply_params params ≡ some p
      → get_ask p.ask_id d.store ≡ some a
      → a.state ≡ pending
      → x.ask_id ≡ p.ask_id
      → handle_reply w from params d ≡ (ok v, e)
      → (a.to_cell ≡ from)
        × ((env : Envelope) × (env.body ≡ p.body)
            × ((await_end notified x e).0 ≡ ok (answered_value (envelope_value env))))
  unfolding await_end answered_reply
  handle_reply-await_end from params p a x d e parsed found unanswered same run =
      let (owner, (b, env, there, state, by, stored, body)) =
        Success-ok _ _ (reply-Answered from params p a d parsed found unanswered) run in
      let same_ask : unwrap_or (get_ask x.ask_id e.store) x.ask ≡ b =
        ap (λ o. unwrap_or o x.ask) (ap (λ id. get_ask id e.store) same ∙ there) in
      (
        owner,
        (
          env,
          body,
          ap (λ (y : Ask). ok (woken notified e.store y y.state)) same_ask
              ∙ ap (λ st. ok (woken notified e.store b st)) state
              ∙ ap (λ o. ok (answered_value (reply_json b o)))
                  (ap (λ m. reply_envelope m e.store) by ∙ stored),
        ),
      )
