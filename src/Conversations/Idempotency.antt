-- ===== src/Conversations/Idempotency.antt =====
-- The answers of `create_message`, and its retries under one request identifier.
use tsuz_api_jcc.Base.{
  find-true, ℕ, String, true, ◌&&◌, Option, none, some, [], ◌∷◌, ◌++◌, ◌==◌, string_eq, option_eq,
  ◌≡◌, refl, arith, Option-cases, inl, inr,
}
use tsuz_api_jcc.Base.Result.{ok, >>=-eq-ok, Result-cases}
use tsuz_api_jcc.Conversations.Rows.{StrategyMode, Conversation, Message, Db, strategy_eq}
use tsuz_api_jcc.Conversations.Repository
use tsuz_api_jcc.Conversations.Repository.{
  Outcome, idempotency_conflict, given_or, user_message, next_sequence, insert_message,
  set_conversation, update_where,
}
use tsuz_api_jcc.Conversations.Service.{
  Request, get_conversation, not_archived, existing_request, same_request, resolve_race,
  insert_or_resolve, create_unless, create_message,
}

-- A message is the request's: its conversation, text, mode and request identifier.
abbrev pub Answers : Request → StrategyMode → Message → Type 0
Answers q mode m =
    (m.conversation_id ≡ q.conversation_id)
    × (m.content ≡ q.content)
    × (m.strategy_mode ≡ mode)
    × (m.client_request_id ≡ q.client_request_id)

pub get_conversation-id :
    (ui ci : String) (db : Db) (c : Conversation)
    → get_conversation ui ci db ≡ ok c
    → (c.id ≡ ci) × (c.user_id ≡ ui) × (Repository.get_conversation ui ci db ≡ some c)
unfolding get_conversation Repository.get_conversation
get_conversation-id ui ci db c h = elim (Option-cases (Repository.get_conversation ui ci db)) [
  | inl e ↦ absurd (ground arith)
  | inr (d, e) ↦
      let t = find-true (λ x. x.id == ci && x.user_id == ui) db.conversations d e in ground arith
]

pub existing_request-key :
    (ci : String) (key : Option String) (db : Db) (m : Message)
    → existing_request ci key db ≡ some m
    → (m.conversation_id ≡ ci) × (m.client_request_id ≡ key)
unfolding existing_request Repository.get_message_by_request_id
existing_request-key ci none db m h = cc
existing_request-key ci (some k) db m h =
    let q = λ (x : Message). x.conversation_id == ci && x.client_request_id == some k in
    let t : (m.conversation_id == ci && m.client_request_id == some k) ≡ true =
      find-true q db.messages m h in
    (ground arith, ground arith)

pub same_request-eq :
    (m : Message) (content : String) (mode : StrategyMode)
    → same_request m content mode ≡ true
    → (m.content ≡ content) × (m.strategy_mode ≡ mode)
unfolding same_request
same_request-eq m content mode h = ground arith

pub create_message-new :
    (seen : Db) (new_id : String) (now : ℕ) (c : Conversation) (q : Request) (mode : StrategyMode)
    (db t : Db) (m : Message)
    → Repository.create_message seen new_id now c q.user_id q.content mode q.client_request_id db
      ≡ ok (m, t)
    → let new =
        user_message new_id now
          (next_sequence c.id seen)
          c
          q.user_id
          q.content
          mode
          q.client_request_id in
      (m ≡ new)
      × (t
          ≡ set_conversation c.id
              (λ (r : Conversation). record r { updated_at = now })
              (record db { messages = db.messages ++ new ∷ [] }))
unfolding Repository.create_message insert_message
create_message-new seen new_id now c q mode db t m h = ground arith

resolve_race-Answers :
    (ci : String) (q : Request) (mode : StrategyMode) (o : Option Message) (db t : Db) (m : Message)
    → existing_request ci q.client_request_id db ≡ o
    → resolve_race q.content mode o db ≡ ok (m, t)
    → ci ≡ q.conversation_id
    → Answers q mode m
unfolding resolve_race
resolve_race-Answers ci q mode none db t m e h i = cc
resolve_race-Answers ci q mode (some x) db t m e h i =
    ground
      (arith, existing_request-key ci q.client_request_id db x e, same_request-eq x q.content mode)

create_unless-Answers :
    (others : Db → Db) (new_id : String) (now : ℕ) (c : Conversation) (q : Request)
    (mode : StrategyMode) (o : Option Message) (db t : Db) (m : Message)
    → existing_request c.id q.client_request_id db ≡ o
    → c.id ≡ q.conversation_id
    → create_unless others new_id now c q mode o db ≡ ok (m, t)
    → Answers q mode m
unfolding create_unless insert_or_resolve
create_unless-Answers others new_id now c q mode (some x) db t m e i h =
    ground (
      arith,
      existing_request-key c.id q.client_request_id db x e,
      same_request-eq x q.content mode,
    )
create_unless-Answers others new_id now c q mode none db t m e i h =
    elim (Result-cases (
      Repository.create_message db new_id now c q.user_id q.content mode q.client_request_id
        (others db))) [
          | inl ((m', t'), good) ↦
              let (n, _) = create_message-new db new_id now c q mode (others db) t' m' good in
              let f : m' ≡ m = ground arith in ground arith
          | inr (x, bad) ↦
              let o = existing_request c.id q.client_request_id (others db) in
              resolve_race-Answers c.id q mode o (others db) t m refl (ground arith) i
        ]

pub create_message-steps :
    (others : Db → Db) (new_id : String) (now : ℕ) (q : Request) (db t : Db) (m : Message)
    → create_message others new_id now q db ≡ ok (m, t)
    → (c : Conversation) × (get_conversation q.user_id q.conversation_id db ≡ ok c)
      × (not_archived c ≡ ok c)
      × (create_unless others new_id now c q
            (given_or q.strategy_mode c.strategy_mode)
            (existing_request c.id q.client_request_id db)
            db
          ≡ ok (m, t))
unfolding create_message
create_message-steps others new_id now q db t m h =
    let (c, found, h') = >>=-eq-ok (get_conversation q.user_id q.conversation_id db) _ h in
    let (c', active, h'') = >>=-eq-ok (not_archived c) _ h' in
    let e : c' ≡ c = ground arith in (c, found, rw e at active, rw e at h'')

-- Whatever other sessions commit meanwhile, and whether the message is new, was known before or
-- won a race: a message that the service returns has the conversation, the text and the request
-- identifier of the request, its mode or else the conversation's, and the requester owns the
-- conversation.
pub create_message-Answers :
    (others : Db → Db) (new_id : String) (now : ℕ) (q : Request) (db t : Db) (m : Message)
    → create_message others new_id now q db ≡ ok (m, t)
    → (c : Conversation) × (get_conversation q.user_id q.conversation_id db ≡ ok c)
      × (c.user_id ≡ q.user_id)
      × Answers q (given_or q.strategy_mode c.strategy_mode) m
create_message-Answers others new_id now q db t m h =
    let (c, found, _, made) = create_message-steps others new_id now q db t m h in
    let (i, owner, _) = get_conversation-id q.user_id q.conversation_id db c found in
    let mode = given_or q.strategy_mode c.strategy_mode in
    (c, found, owner, create_unless-Answers others new_id now c q mode _ db t m refl i made)
