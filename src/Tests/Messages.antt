-- ===== src/Tests/Messages.antt =====
-- Messages of a conversation, at concrete inputs.
use tsuz_api_jcc.Base.{none, some, [], ◌∷◌, ◌≡◌, refl, if◌then◌else◌, string_eq, nat_eq, option_eq}
use tsuz_api_jcc.Base.Result.{ok, err}
use tsuz_api_jcc.Conversations.Rows.{
  gamble, ConversationStatus, Role, MessageStatus, Conversation, Message, Db, message_allowed,
  strategy_eq,
}
use tsuz_api_jcc.Conversations.Repository
use tsuz_api_jcc.Conversations.Repository.{given_or, idempotency_conflict}
use tsuz_api_jcc.Conversations.Service.{
  Request, create_message, get_conversation, existing_request, create_unless, insert_or_resolve,
  same_request,
}
use tsuz_api_jcc.Conversations.Idempotency.{Answers, create_message-Answers}
use tsuz_api_jcc.Conversations.Retry.{create_message-retry}

abbrev pub chat : Conversation
chat = record {
  id = "c";
  user_id = "u";
  title = "t";
  strategy_mode = gamble;
  status = ConversationStatus.active;
  created_at = 1;
  updated_at = 1;
  archived_at = none;
}

abbrev pub empty : Db
empty = record { conversations = chat ∷ []; messages = []; runs = [] }

abbrev hello : Request
hello = record {
  user_id = "u";
  conversation_id = "c";
  content = "hello";
  strategy_mode = none;
  client_request_id = some "k";
}

abbrev other : Request
other = record hello { content = "other" }

abbrev pub first : Message
first = record {
  id = "m";
  conversation_id = "c";
  user_id = "u";
  role = Role.user;
  content = "hello";
  status = MessageStatus.queued;
  sequence = 1;
  strategy_mode = gamble;
  client_request_id = some "k";
  error_code = none;
  created_at = 5;
  started_at = none;
  completed_at = none;
}

abbrev pub sent : Db
sent = record {
  conversations = record chat { updated_at = 5 } ∷ [];
  messages = first ∷ [];
  runs = [];
}

send : create_message (λ d. d) "m" 5 hello empty ≡ ok (first, sent)
unfolding create_message get_conversation Repository.get_conversation existing_request
    Repository.get_message_by_request_id create_unless insert_or_resolve Repository.create_message
    Repository.insert_message message_allowed string_eq nat_eq option_eq
send = refl

create_message-Answers_example :
    (c : Conversation) × (get_conversation "u" "c" empty ≡ ok c)
    × (c.user_id ≡ "u")
    × Answers hello (given_or none c.strategy_mode) first
create_message-Answers_example = create_message-Answers (λ d. d) "m" 5 hello empty sent first send

create_message-retry_example :
    (c : Conversation) × (get_conversation "u" "c" empty ≡ ok c)
    × (create_message (λ d. record d { messages = [] }) "n" 9 other sent ≡ (
        if same_request first "other" (given_or none c.strategy_mode)
        then ok (first, sent)
        else err idempotency_conflict))
create_message-retry_example =
    create_message-retry "m" "n" "k" 5 9 hello other (λ d. record d { messages = [] }) empty sent
      first send refl refl refl refl
