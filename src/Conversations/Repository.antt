-- ===== src/Conversations/Repository.antt =====
-- app/conversations/repository.py: the queries and the conditional updates. A statement that
-- violates a constraint is the error `integrity`. The clock and new identifiers are arguments.
use tsuz_api_jcc.Base.{
  ℕ, ◌+◌, max, String, Bool, true, false, ◌&&◌, Option, none, some, List, [], ◌∷◌, ◌++◌, any, find,
  keep, contains, ◌==◌, string_eq, nat_eq, option_eq, if◌then◌else◌,
}
use tsuz_api_jcc.Base.Int.{ℤ}
use tsuz_api_jcc.Base.Result.{Result, ok, err}
use tsuz_api_jcc.Conversations.Rows.{
  StrategyMode, ConversationStatus, archived, Role, RunStatus, MessageStatus, Conversation, Message,
  Run, Db, run_status_eq, message_status_eq, message_allowed, run_allowed,
}

pub data ConversationError : Type 0 where
  not_found conversation_archived idempotency_conflict integrity : ConversationError

abbrev pub Outcome : Type 0 → Type 0
Outcome A = Result ConversationError A

-- `UPDATE ... WHERE p SET f`
abbrev pub update_where {ℓ} : {A : Type ℓ} → (A → Bool) → (A → A) → List A → List A
update_where p f [] = []
update_where p f (x ∷ xs) = (if p x then f x else x) ∷ update_where p f xs

-- An argument that is `None` leaves its column as it was.
abbrev pub given {ℓ} : {A : Type ℓ} → Option A → Option A → Option A
given none old = old
given (some v) old = some v

abbrev pub given_or {ℓ} : {A : Type ℓ} → Option A → A → A
given_or none old = old
given_or (some v) old = v

unfoldable pub get_conversation : String → String → Db → Option Conversation
get_conversation user_id conversation_id db =
    find (λ c. c.id == conversation_id && c.user_id == user_id) db.conversations

unfoldable pub get_message_by_request_id : String → String → Db → Option Message
unfolding option_eq
get_message_by_request_id conversation_id client_request_id db =
    find
      (λ m. m.conversation_id == conversation_id && m.client_request_id == some client_request_id)
      db.messages

unfoldable pub get_message : String → String → Db → Option Message
get_message conversation_id message_id db =
    find (λ m. m.conversation_id == conversation_id && m.id == message_id) db.messages

unfoldable pub get_run : String → String → Db → Option Run
get_run conversation_id message_id db =
    find (λ r. r.conversation_id == conversation_id && r.message_id == message_id) db.runs

-- `db.get(AgentMessage, id)`, `db.get(AgentRun, id)` and `db.get(AgentConversation, id)`
abbrev pub message_by_id : String → Db → Option Message
message_by_id i db = find (λ m. m.id == i) db.messages

abbrev pub run_by_id : String → Db → Option Run
run_by_id i db = find (λ r. r.id == i) db.runs

abbrev pub conversation_by_id : String → Db → Option Conversation
conversation_by_id i db = find (λ c. c.id == i) db.conversations

-- The query of the runs that a restart resumes; the order by creation time is not modelled.
unfoldable pub list_recoverable_runs : Db → List Run
unfolding run_status_eq
list_recoverable_runs db =
    keep (λ r. contains (RunStatus.queued ∷ RunStatus.running ∷ RunStatus.cancelling ∷ []) r.status)
      db.runs

unfoldable pub create_conversation :
    String → ℕ → String → String → StrategyMode → Db → Conversation × Db
create_conversation new_id now user_id title strategy_mode db =
    let c : Conversation = record {
      id = new_id;
      user_id = user_id;
      title = title;
      strategy_mode = strategy_mode;
      status = ConversationStatus.active;
      created_at = now;
      updated_at = now;
      archived_at = none;
    } in
    (c, record db { conversations = db.conversations ++ c ∷ [] })

abbrev pub set_conversation : String → (Conversation → Conversation) → Db → Db
set_conversation i f db = record db {
  conversations = update_where (λ c. c.id == i) f db.conversations;
}

unfoldable pub update_conversation :
    ℕ → Conversation → Option String → Option StrategyMode → Db → Conversation × Db
update_conversation now c title strategy_mode db =
    let f = λ (r : Conversation). record r {
      title = given_or title r.title;
      strategy_mode = given_or strategy_mode r.strategy_mode;
      updated_at = now;
    } in
    (f c, set_conversation c.id f db)

abbrev is_archived : ConversationStatus → Bool
is_archived archived = true
is_archived _ = false

-- The two readings of the clock, for `archived_at` and `updated_at`.
unfoldable pub archive_conversation : ℕ → ℕ → Conversation → Db → Conversation × Db
archive_conversation now now' c db =
    let f = λ (r : Conversation). record r {
      status = archived;
      archived_at = some now;
      updated_at = now';
    } in
    if is_archived c.status then (c, db) else (f c, set_conversation c.id f db)

-- `coalesce(max(sequence), 0)` over a conversation.
abbrev pub last_sequence : String → List Message → ℕ
last_sequence i [] = 0
last_sequence i (m ∷ ms) =
    let rest = last_sequence i ms in if m.conversation_id == i then max m.sequence rest else rest

abbrev pub next_sequence : String → Db → ℕ
next_sequence i db = last_sequence i db.messages + 1

-- `INSERT`, with the table's constraints.
unfoldable pub insert_message : Message → Db → Outcome Db
insert_message m db =
    if message_allowed db m
    then ok (record db { messages = db.messages ++ m ∷ [] })
    else err integrity

-- The row that `create_message` builds from what it has read.
abbrev pub user_message :
    String → ℕ → ℕ → Conversation → String → String → StrategyMode → Option String → Message
user_message new_id now seq c user_id content strategy_mode client_request_id = record {
  id = new_id;
  conversation_id = c.id;
  user_id = user_id;
  role = Role.user;
  content = content;
  status = MessageStatus.queued;
  sequence = seq;
  strategy_mode = strategy_mode;
  client_request_id = client_request_id;
  error_code = none;
  created_at = now;
  started_at = none;
  completed_at = none;
}

-- The sequence is read from `seen`; the insertion meets the rows of `db`, which may have more.
unfoldable pub create_message :
    Db
    → String
    → ℕ
    → Conversation
    → String
    → String
    → StrategyMode
    → Option String
    → Db
    → Outcome (Message × Db)
create_message seen new_id now c user_id content strategy_mode client_request_id db =
    let m =
      user_message new_id now (next_sequence c.id seen) c user_id content strategy_mode
        client_request_id in
    let f = λ (r : Conversation). record r { updated_at = now } in
    elim (insert_message m db) [ ok db' ↦ ok (m, set_conversation c.id f db') | err e ↦ err e ]

abbrev pub new_run : String → ℕ → Message → String → String → Run
new_run new_id now m provider model = record {
  id = new_id;
  message_id = m.id;
  conversation_id = m.conversation_id;
  status = RunStatus.queued;
  provider = provider;
  model = model;
  request_id = none;
  cancel_requested = false;
  error_code = none;
  output_content = "";
  input_tokens = none;
  output_tokens = none;
  estimated_cost = none;
  pricing_key = none;
  started_at = none;
  completed_at = none;
  duration_ms = none;
  snapshot_id = none;
  snapshot_mode = none;
  snapshot_season = none;
  snapshot_version = none;
  snapshot_revision = none;
  snapshot_content_hash = none;
  created_at = now;
}

unfoldable pub create_run : String → ℕ → Message → String → String → Db → Outcome (Run × Db)
create_run new_id now m provider model db =
    let r = new_run new_id now m provider model in
    if run_allowed db r then ok (r, record db { runs = db.runs ++ r ∷ [] }) else err integrity

-- The arguments of `update_run_status`.
pub record RunPatch : Type 0 where
  pub status : RunStatus
  pub cancel_requested : Option Bool
  pub error_code : Option String
  pub started_at : Option ℕ
  pub completed_at : Option ℕ
  pub duration_ms : Option ℤ
  pub output_content : Option String
  pub input_tokens : Option ℕ
  pub output_tokens : Option ℕ
  pub estimated_cost : Option ℕ
  pub pricing_key : Option String
  pub snapshot_id : Option ℕ
  pub snapshot_mode : Option String
  pub snapshot_season : Option String
  pub snapshot_version : Option String
  pub snapshot_revision : Option ℕ
  pub snapshot_content_hash : Option String

abbrev pub run_patch : RunStatus → RunPatch
run_patch status = record {
  status = status;
  cancel_requested = none;
  error_code = none;
  started_at = none;
  completed_at = none;
  duration_ms = none;
  output_content = none;
  input_tokens = none;
  output_tokens = none;
  estimated_cost = none;
  pricing_key = none;
  snapshot_id = none;
  snapshot_mode = none;
  snapshot_season = none;
  snapshot_version = none;
  snapshot_revision = none;
  snapshot_content_hash = none;
}

unfoldable pub patch_run : RunPatch → Run → Run
patch_run v r = record r {
  status = v.status;
  cancel_requested = given_or v.cancel_requested r.cancel_requested;
  error_code = given v.error_code r.error_code;
  started_at = given v.started_at r.started_at;
  completed_at = given v.completed_at r.completed_at;
  duration_ms = given v.duration_ms r.duration_ms;
  output_content = given_or v.output_content r.output_content;
  input_tokens = given v.input_tokens r.input_tokens;
  output_tokens = given v.output_tokens r.output_tokens;
  estimated_cost = given v.estimated_cost r.estimated_cost;
  pricing_key = given v.pricing_key r.pricing_key;
  snapshot_id = given v.snapshot_id r.snapshot_id;
  snapshot_mode = given v.snapshot_mode r.snapshot_mode;
  snapshot_season = given v.snapshot_season r.snapshot_season;
  snapshot_version = given v.snapshot_version r.snapshot_version;
  snapshot_revision = given v.snapshot_revision r.snapshot_revision;
  snapshot_content_hash = given v.snapshot_content_hash r.snapshot_content_hash;
}

-- The new tables, and whether a row was matched.
unfoldable pub update_run_status : String → List RunStatus → RunPatch → Db → Db × Bool
unfolding run_status_eq
update_run_status run_id from_statuses v db =
    let p = λ (r : Run). r.id == run_id && contains from_statuses r.status in
    (record db { runs = update_where p (patch_run v) db.runs }, any p db.runs)

unfoldable pub set_run_cancel_requested : String → Db → Db × Bool
unfolding run_status_eq
set_run_cancel_requested run_id db =
    let live = RunStatus.queued ∷ RunStatus.running ∷ RunStatus.cancelling ∷ [] in
    let p = λ (r : Run). r.id == run_id && contains live r.status in
    let f = λ (r : Run). record r { status = RunStatus.cancelling; cancel_requested = true } in
    (record db { runs = update_where p f db.runs }, any p db.runs)

-- The arguments of `update_message_status`.
pub record MessagePatch : Type 0 where
  pub status : MessageStatus
  pub content : Option String
  pub error_code : Option String
  pub started_at : Option ℕ
  pub completed_at : Option ℕ

abbrev pub message_patch : MessageStatus → MessagePatch
message_patch status = record {
  status = status;
  content = none;
  error_code = none;
  started_at = none;
  completed_at = none;
}

unfoldable pub patch_message : MessagePatch → Message → Message
patch_message v m = record m {
  status = v.status;
  content = given_or v.content m.content;
  error_code = given v.error_code m.error_code;
  started_at = given v.started_at m.started_at;
  completed_at = given v.completed_at m.completed_at;
}

unfoldable pub update_message_status : String → List MessageStatus → MessagePatch → Db → Db × Bool
unfolding message_status_eq
update_message_status message_id from_statuses v db =
    let p = λ (m : Message). m.id == message_id && contains from_statuses m.status in
    (record db { messages = update_where p (patch_message v) db.messages }, any p db.messages)

-- `content or " "`
abbrev pub or_blank : String → String
or_blank String.[] = " "
or_blank s = s

abbrev pub assistant_message :
    String → ℕ → ℕ → ℕ → Conversation → String → StrategyMode → MessageStatus → Db → Message
assistant_message new_id now now' now'' c content strategy_mode status db = record {
  id = new_id;
  conversation_id = c.id;
  user_id = c.user_id;
  role = Role.assistant;
  content = or_blank content;
  status = status;
  sequence = next_sequence c.id db;
  strategy_mode = strategy_mode;
  client_request_id = none;
  error_code = none;
  created_at = now;
  started_at = some now';
  completed_at = some now'';
}

unfoldable pub create_assistant_message :
    String → ℕ → ℕ → ℕ → Conversation → String → StrategyMode → MessageStatus → Db → Outcome Db
create_assistant_message new_id now now' now'' c content strategy_mode status db =
    insert_message (assistant_message new_id now now' now'' c content strategy_mode status db) db
