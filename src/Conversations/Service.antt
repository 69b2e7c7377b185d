-- ===== src/Conversations/Service.antt =====
-- app/conversations/service.py: the business rules. An error rolls the transaction back, so it
-- carries no tables.
use tsuz_api_jcc.Base.{
  ℕ, String, Bool, ◌&&◌, Option, none, some, List, [], ◌∷◌, contains, ◌==◌, string_eq,
  if◌then◌else◌,
}
use tsuz_api_jcc.Base.Result.{Result, ok, err, ◌>>=◌}
use tsuz_api_jcc.Conversations.Rows.{
  StrategyMode, ConversationStatus, RunStatus, MessageStatus, Conversation, Message, Run, Db,
  strategy_eq, run_status_eq,
}
use tsuz_api_jcc.Conversations.Repository.{
  Outcome, not_found, conversation_archived, idempotency_conflict, given_or, message_patch,
  set_run_cancel_requested, update_message_status,
}
use tsuz_api_jcc.Conversations.Repository

abbrev pub or_not_found {ℓ} : {A : Type ℓ} → Option A → Result Repository.ConversationError A
or_not_found none = err not_found
or_not_found (some a) = ok a

unfoldable pub get_conversation : String → String → Db → Outcome Conversation
get_conversation user_id conversation_id db =
    or_not_found (Repository.get_conversation user_id conversation_id db)

-- `if conversation.status == "archived": raise ConversationArchived`
abbrev pub not_archived : Conversation → Outcome Conversation
not_archived c = elim (c.status) [
  | ConversationStatus.active ↦ ok c
  | ConversationStatus.archived ↦ err conversation_archived
]

unfoldable pub update_conversation :
    ℕ → String → String → Option String → Option StrategyMode → Db → Outcome (Conversation × Db)
update_conversation now user_id conversation_id title strategy_mode db = do
  c ← get_conversation user_id conversation_id db
  c ← not_archived c
  ok (Repository.update_conversation now c title strategy_mode db)

unfoldable pub archive_conversation : ℕ → ℕ → String → String → Db → Outcome (Conversation × Db)
archive_conversation now now' user_id conversation_id db = do
  c ← get_conversation user_id conversation_id db
  ok (Repository.archive_conversation now now' c db)

unfoldable pub same_request : Message → String → StrategyMode → Bool
same_request m content strategy_mode = m.content == content && m.strategy_mode == strategy_mode

-- The lookup of an earlier message with the request's identifier.
unfoldable pub existing_request : String → Option String → Db → Option Message
existing_request conversation_id none db = none
existing_request conversation_id (some request_id) db =
    Repository.get_message_by_request_id conversation_id request_id db

-- What the handler of `IntegrityError` does, on the tables after the savepoint is undone.
unfoldable pub resolve_race : String → StrategyMode → Option Message → Db → Outcome (Message × Db)
resolve_race content mode none db = err Repository.integrity
resolve_race content mode (some m) db =
    if same_request m content mode then ok (m, db) else err Repository.integrity

-- The arguments of `create_message` that the request gives.
pub record Request : Type 0 where
  pub user_id : String
  pub conversation_id : String
  pub content : String
  pub strategy_mode : Option StrategyMode
  pub client_request_id : Option String

-- The insertion in a savepoint. `others` is what other sessions commit before it.
unfoldable pub insert_or_resolve :
    (Db → Db) → String → ℕ → Conversation → Request → StrategyMode → Db → Outcome (Message × Db)
insert_or_resolve others new_id now c q mode db =
    elim (Repository.create_message db new_id now c q.user_id q.content mode q.client_request_id
      (others db)) [
        | ok r ↦ ok r
        | err e ↦
            resolve_race q.content mode (existing_request c.id q.client_request_id (others db))
              (others db)
      ]

-- The answer to a request whose identifier is known already, and else the insertion.
unfoldable pub create_unless :
    (Db → Db)
    → String
    → ℕ
    → Conversation
    → Request
    → StrategyMode
    → Option Message
    → Db
    → Outcome (Message × Db)
create_unless others new_id now c q mode none db = insert_or_resolve others new_id now c q mode db
create_unless others new_id now c q mode (some m) db =
    if same_request m q.content mode then ok (m, db) else err idempotency_conflict

unfoldable pub create_message : (Db → Db) → String → ℕ → Request → Db → Outcome (Message × Db)
create_message others new_id now q db = do
  c ← get_conversation q.user_id q.conversation_id db
  c ← not_archived c
  create_unless others new_id now c q (given_or q.strategy_mode c.strategy_mode)
      (existing_request c.id q.client_request_id db) db

-- `provider` and `model` are those given or else those of the settings.
unfoldable pub ensure_run : String → ℕ → Message → String → String → Db → Outcome (Run × Db)
ensure_run new_id now m provider model db = elim (Repository.get_run m.conversation_id m.id db) [
  | some r ↦ ok (r, db)
  | none ↦ Repository.create_run new_id now m provider model db
]

unfoldable pub get_message_for_user : String → String → String → Db → Outcome Message
get_message_for_user user_id conversation_id message_id db = do
  c ← get_conversation user_id conversation_id db
  or_not_found (Repository.get_message conversation_id message_id db)

unfoldable pub get_run_for_user : String → String → String → Db → Outcome Run
get_run_for_user user_id conversation_id message_id db = do
  m ← get_message_for_user user_id conversation_id message_id db
  or_not_found (Repository.get_run conversation_id m.id db)

abbrev pub live_messages : List MessageStatus
live_messages =
    MessageStatus.queued ∷ MessageStatus.running ∷ MessageStatus.streaming
    ∷ MessageStatus.cancelling ∷ []

abbrev pub live_runs : List RunStatus
live_runs = RunStatus.queued ∷ RunStatus.running ∷ RunStatus.cancelling ∷ []

-- The writes of `request_cancel`, for the run that it found.
unfoldable pub cancel_writes : Message → Run → Db → Db
cancel_writes m r db =
    if contains live_runs r.status
    then (update_message_status m.id live_messages (message_patch MessageStatus.cancelling)
        (set_run_cancel_requested r.id db).0).0
    else db

unfoldable pub request_cancel : String → String → String → Db → Outcome Db
request_cancel user_id conversation_id message_id db = do
  m ← get_message_for_user user_id conversation_id message_id db
  r ← or_not_found (Repository.get_run conversation_id m.id db)
  ok (cancel_writes m r db)
