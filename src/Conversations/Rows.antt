-- ===== src/Conversations/Rows.antt =====
-- app/conversations/models.py and app/agent/models.py: the rows, the tables and the constraints that
-- the database checks. Times are whole milliseconds, costs whole millionths of the price unit.
use tsuz_api_jcc.Base.{
  ℕ, String, Bool, ◌&&◌, ◌||◌, not, Option, List, leb, any, is_some, Eq, ◌==◌, string_eq, nat_eq,
  option_eq,
}
use tsuz_api_jcc.Base.Int.{ℤ}
use tsuz_api_jcc.Base.Text.{str_length}

pub data StrategyMode : Type 0 where
  gamble operation : StrategyMode

pub data ConversationStatus : Type 0 where
  active archived : ConversationStatus

pub data Role : Type 0 where
  user assistant tool system : Role

pub data RunStatus : Type 0 where
  queued running completed failed cancelling cancelled : RunStatus

pub data MessageStatus : Type 0 where
  queued running streaming completed failed cancelling cancelled : MessageStatus

StrategyMode-discrete : Discrete StrategyMode
StrategyMode-discrete = hlevel

RunStatus-discrete : Discrete RunStatus
RunStatus-discrete = hlevel

MessageStatus-discrete : Discrete MessageStatus
MessageStatus-discrete = hlevel

instance unfoldable pub strategy_eq : Eq StrategyMode
unfolding StrategyMode-discrete
strategy_eq = record { dec = StrategyMode-discrete }

instance unfoldable pub run_status_eq : Eq RunStatus
unfolding RunStatus-discrete
run_status_eq = record { dec = RunStatus-discrete }

instance unfoldable pub message_status_eq : Eq MessageStatus
unfolding MessageStatus-discrete
message_status_eq = record { dec = MessageStatus-discrete }

pub record Conversation : Type 0 where
  pub id : String
  pub user_id : String
  pub title : String
  pub strategy_mode : StrategyMode
  pub status : ConversationStatus
  pub created_at : ℕ
  pub updated_at : ℕ
  pub archived_at : Option ℕ

pub record Message : Type 0 where
  pub id : String
  pub conversation_id : String
  pub user_id : String
  pub role : Role
  pub content : String
  pub status : MessageStatus
  pub sequence : ℕ
  pub strategy_mode : StrategyMode
  pub client_request_id : Option String
  pub error_code : Option String
  pub created_at : ℕ
  pub started_at : Option ℕ
  pub completed_at : Option ℕ

pub record Run : Type 0 where
  pub id : String
  pub message_id : String
  pub conversation_id : String
  pub status : RunStatus
  pub provider : String
  pub model : String
  pub request_id : Option String
  pub cancel_requested : Bool
  pub error_code : Option String
  pub output_content : String
  pub input_tokens : Option ℕ
  pub output_tokens : Option ℕ
  pub estimated_cost : Option ℕ
  pub pricing_key : Option String
  pub started_at : Option ℕ
  pub completed_at : Option ℕ
  pub duration_ms : Option ℤ
  pub snapshot_id : Option ℕ
  pub snapshot_mode : Option String
  pub snapshot_season : Option String
  pub snapshot_version : Option String
  pub snapshot_revision : Option ℕ
  pub snapshot_content_hash : Option String
  pub created_at : ℕ

pub record Db : Type 0 where
  pub conversations : List Conversation
  pub messages : List Message
  pub runs : List Run

-- Whether two rows clash on a unique pair that a null second part exempts.
abbrev pub same_request : Message → Message → Bool
same_request a b =
    a.conversation_id == b.conversation_id
    && is_some a.client_request_id
    && a.client_request_id == b.client_request_id

abbrev pub clashes : Message → Message → Bool
clashes a b =
    (a.id == b.id)
    || (a.conversation_id == b.conversation_id && a.sequence == b.sequence)
    || same_request a b

-- The constraints of `agent_messages` on a new row, its foreign key included.
unfoldable pub message_allowed : Db → Message → Bool
unfolding option_eq
message_allowed db m =
    leb 1 m.sequence
    && leb 1 (str_length m.content)
    && leb (str_length m.content) 8000
    && any (λ c. c.id == m.conversation_id) db.conversations
    && not (any (clashes m) db.messages)

-- The constraints of `agent_runs` on a new row.
unfoldable pub run_allowed : Db → Run → Bool
run_allowed db r =
    any (λ m. m.id == r.message_id) db.messages
    && any (λ c. c.id == r.conversation_id) db.conversations
    && not (any (λ o. (o.id == r.id) || (o.message_id == r.message_id)) db.runs)
