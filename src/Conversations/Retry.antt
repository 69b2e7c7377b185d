-- ===== src/Conversations/Retry.antt =====
-- A retry of `create_message` under the same request identifier.
use tsuz_api_jcc.Base.{
  find-append_none, ℕ, String, ◌&&◌, none, some, List, [], ◌∷◌, ◌++◌, ◌==◌, string_eq, option_eq,
  if◌then◌else◌, ◌≡◌, refl, ◌∙◌, ap, arith, Option-cases, inl, inr,
}
use tsuz_api_jcc.Base.Result.{ok, err, Result-cases}
use tsuz_api_jcc.Conversations.Rows.{Conversation, Message, Db, strategy_eq}
use tsuz_api_jcc.Conversations.Repository
use tsuz_api_jcc.Conversations.Repository.{
  Outcome, idempotency_conflict, integrity, given_or, user_message, next_sequence, set_conversation,
  update_where,
}
use tsuz_api_jcc.Conversations.Service.{
  Request, get_conversation, not_archived, existing_request, same_request, resolve_race,
  insert_or_resolve, create_unless, create_message,
}
use tsuz_api_jcc.Conversations.Updates.{find-update_where}
use tsuz_api_jcc.Conversations.Idempotency.{
  get_conversation-id, create_message-new, create_message-steps,
}

-- With a lookup that finds the message in its conversation, the service answers with it.
known_request :
    (others : Db → Db) (new_id : String) (now : ℕ) (q : Request) (db : Db) (c : Conversation)
    (m : Message)
    → get_conversation q.user_id q.conversation_id db ≡ ok c
    → not_archived c ≡ ok c
    → existing_request c.id q.client_request_id db ≡ some m
    → create_message others new_id now q db ≡ (
        if same_request m q.content (given_or q.strategy_mode c.strategy_mode)
        then ok (m, db)
        else err idempotency_conflict)
unfolding create_message create_unless
known_request others new_id now q db c m found active e = rw found (rw active (rw e refl))

touch : ℕ → Conversation → Conversation
touch now r = record r { updated_at = now }

get_conversation-touch :
    (ui ci : String) (now : ℕ) (db : Db) (c : Conversation) (ms : List Message)
    → get_conversation ui ci db ≡ ok c
    → get_conversation ui ci (
        set_conversation c.id
          (λ (r : Conversation). record r { updated_at = now })
          (record db { messages = ms }))
      ≡ ok (touch now c)
unfolding get_conversation Repository.get_conversation touch
get_conversation-touch ui ci now db c ms h =
    let (i, u, f) = get_conversation-id ui ci db c h in
    ground (
      arith,
      find-update_where (λ x. x.id == ci && x.user_id == ui) (λ x. x.id == c.id) (touch now)
          db.conversations c (λ x. refl) f,
    )

existing_request-new :
    (ci k : String) (db : Db) (new : Message) (cs : List Conversation)
    → existing_request ci (some k) db ≡ none
    → new.conversation_id ≡ ci
    → new.client_request_id ≡ some k
    → existing_request ci
        (some k)
        (record db { messages = db.messages ++ new ∷ []; conversations = cs })
      ≡ some new
unfolding existing_request Repository.get_message_by_request_id
existing_request-new ci k db new cs h i e =
    find-append_none (λ x. x.conversation_id == ci && x.client_request_id == some k) db.messages new
      h (ground arith)

-- After a first call, a lookup by its identifier finds its message, and the conversation is the
-- same but for `updated_at`.
after_first :
    (new_id k : String) (now : ℕ) (q : Request) (s t : Db) (m : Message) (c : Conversation)
    → q.client_request_id ≡ some k
    → get_conversation q.user_id q.conversation_id s ≡ ok c
    → not_archived c ≡ ok c
    → create_unless
        (λ d. d)
        new_id
        now
        c
        q
        (given_or q.strategy_mode c.strategy_mode)
        (existing_request c.id q.client_request_id s)
        s
      ≡ ok (m, t)
    → (c' : Conversation) × (get_conversation q.user_id q.conversation_id t ≡ ok c')
      × (c'.id ≡ c.id)
      × (c'.strategy_mode ≡ c.strategy_mode)
      × (not_archived c' ≡ ok c')
      × (existing_request c.id (some k) t ≡ some m)
unfolding create_unless insert_or_resolve resolve_race touch
after_first new_id k now q s t m c key found active h =
    let mode = given_or q.strategy_mode c.strategy_mode in
    elim (Option-cases (existing_request c.id q.client_request_id s)) [
      | inr (x, old) ↦
          let e : (t ≡ s) × (x ≡ m) = ground arith in
          (c, rw e.0 found, refl, refl, active, rw (e.0, ← key) (old ∙ ap some e.1))
      | inl fresh ↦
          elim (Result-cases (
            Repository.create_message s new_id now c q.user_id q.content mode q.client_request_id
              s)) [
                | inl ((m', t'), good) ↦
                    let e : (m' ≡ m) × (t' ≡ t) = ground arith in
                    let (n, w) = create_message-new s new_id now c q mode s t' m' good in
                    let new =
                      user_message new_id now (next_sequence c.id s) c q.user_id q.content mode
                        q.client_request_id in
                    let cs =
                      update_where (λ r. r.id == c.id)
                        (λ (r : Conversation). record r { updated_at = now }) s.conversations in
                    let moved =
                      get_conversation-touch q.user_id q.conversation_id now s c
                        (s.messages ++ new ∷ []) found in
                    let stored = existing_request-new c.id k s new cs (rw key at fresh) refl key in
                    (
                      touch now c,
                      rw (← e.1, w) moved,
                      refl,
                      refl,
                      ground arith,
                      rw (← e.1, w) (stored ∙ ap some (ground arith)),
                    )
                | inr (x, bad) ↦ absurd (ground arith)
              ]
    ]

-- After a call without interference has returned a message under a request identifier, a further
-- call for the same user, conversation and identifier, whatever other sessions commit meanwhile,
-- returns that message with the tables unchanged if text and mode agree, and else is refused as
-- an idempotency conflict.
pub create_message-retry :
    (new_id new_id' k : String) (now now' : ℕ) (q q' : Request) (others : Db → Db) (s t : Db)
    (m : Message)
    → create_message (λ d. d) new_id now q s ≡ ok (m, t)
    → q.client_request_id ≡ some k
    → q'.client_request_id ≡ some k
    → q'.user_id ≡ q.user_id
    → q'.conversation_id ≡ q.conversation_id
    → (c : Conversation) × (get_conversation q.user_id q.conversation_id s ≡ ok c)
      × (create_message others new_id' now' q' t ≡ (
          if same_request m q'.content (given_or q'.strategy_mode c.strategy_mode)
          then ok (m, t)
          else err idempotency_conflict))
create_message-retry new_id new_id' k now now' q q' others s t m h key key' user conv =
    let (c, found, active, made) = create_message-steps (λ d. d) new_id now q s t m h in
    let (c', found', i, mode, active', known) =
      after_first new_id k now q s t m c key found active made in
    let known' : existing_request c'.id q'.client_request_id t ≡ some m = rw (i, key') known in
    let again =
      known_request others new_id' now' q' t c' m (rw (user, conv) found') active' known' in
    (c, found, rw mode at again)
