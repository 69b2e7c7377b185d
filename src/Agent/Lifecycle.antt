-- ===== src/Agent/Lifecycle.antt =====
-- The writes of app/agent/orchestrator.py and app/agent/runtime.py to the rows of a run: each is one
-- transaction of its own. The clock and new identifiers are arguments.
use tsuz_api_jcc.Base.{
  ℕ, ◌+◌, ◌*◌, String, Bool, true, false, ◌&&◌, ◌||◌, not, Option, none, some, List, [], ◌∷◌, keep,
  map, ◌==◌, string_eq, if◌then◌else◌, is_none,
}
use tsuz_api_jcc.Base.Int.{sub_ℕ}
use tsuz_api_jcc.Base.Result.{ok}
use tsuz_api_jcc.Conversations.Rows.{StrategyMode, RunStatus, MessageStatus, Run, Db, run_status_eq}
use tsuz_api_jcc.Conversations.Repository.{
  Outcome, run_patch, RunPatch, message_patch, update_run_status, update_message_status,
  create_assistant_message, message_by_id, run_by_id, conversation_by_id,
}

-- app/agent/llm/base.py
pub record LlmUsage : Type 0 where
  pub input_tokens : Option ℕ
  pub output_tokens : Option ℕ

-- The prices of a token, in millionths.
pub record Pricing : Type 0 where
  pub input_price : Option ℕ
  pub output_price : Option ℕ
  pub pricing_key : Option String

abbrev both_counts : Option ℕ → Option ℕ → Option (ℕ × ℕ)
both_counts none _ = none
both_counts (some a) none = none
both_counts (some a) (some b) = some (a, b)

abbrev price : Option (ℕ × ℕ) → Option (ℕ × ℕ) → Option ℕ
price none _ = none
price (some (i, o)) none = none
price (some (i, o)) (some (a, b)) = some (i * a + o * b)

unfoldable pub estimated_cost : Pricing → LlmUsage → Option ℕ
estimated_cost p u =
    price (both_counts u.input_tokens u.output_tokens) (both_counts p.input_price p.output_price)

-- `_mark_running`: both rows move, or the transaction is rolled back.
unfoldable pub mark_running : ℕ → String → String → Db → Db × Bool
mark_running started message_id run_id db =
    if is_none (run_by_id run_id db) || is_none (message_by_id message_id db)
    then (db, false)
    else (let v = record (run_patch RunStatus.running) {
      started_at = some started;
      cancel_requested = some false;
    } in
        let w = record (message_patch MessageStatus.running) { started_at = some started } in
        let (db', run_updated) = update_run_status run_id (RunStatus.queued ∷ []) v db in
        let (db'', message_updated) =
          update_message_status message_id (MessageStatus.queued ∷ []) w db' in
        if not run_updated || not message_updated then (db, false) else (db'', true))

-- `_save_streaming`
unfoldable pub save_streaming : String → String → String → Db → Db
save_streaming message_id run_id content db =
    if is_none (run_by_id run_id db) || is_none (message_by_id message_id db)
    then db
    else (update_run_status run_id (RunStatus.running ∷ [])
        (record (run_patch RunStatus.running) { output_content = some content }) db).0

abbrev pub finished : RunStatus → ℕ → ℕ → String → Pricing → LlmUsage → RunPatch
finished status started now content p u = record (run_patch status) {
  completed_at = some now;
  duration_ms = some (sub_ℕ now started);
  output_content = some content;
  input_tokens = u.input_tokens;
  output_tokens = u.output_tokens;
  estimated_cost = estimated_cost p u;
  pricing_key = p.pricing_key;
}

-- The two conditional updates of `_complete`.
unfoldable pub complete_rows : String → String → ℕ → ℕ → String → Pricing → LlmUsage → Db → Db
complete_rows message_id run_id started now answer p u db =
    let v = finished RunStatus.completed started now answer p u in
    let w = record (message_patch MessageStatus.completed) { completed_at = some now } in
    (update_message_status message_id (MessageStatus.running ∷ MessageStatus.streaming ∷ []) w
      (update_run_status run_id (RunStatus.running ∷ []) v db).0).0

-- The clock's readings: `now` of `_complete`, and the three of the new message.
pub record Clock : Type 0 where
  pub now : ℕ
  pub created : ℕ
  pub started : ℕ
  pub completed : ℕ

-- `_complete`; an error is raised to the caller and rolls back.
unfoldable pub complete :
    String
    → Clock
    → String
    → String
    → String
    → String
    → StrategyMode
    → ℕ
    → Pricing
    → LlmUsage
    → Db
    → Outcome Db
complete new_id t conversation_id message_id run_id answer strategy_mode started p u db =
    elim (conversation_by_id conversation_id db) [
      | none ↦ ok db
      | some c ↦
          if is_none (message_by_id message_id db) || is_none (run_by_id run_id db)
          then ok db
          else create_assistant_message new_id t.created t.started t.completed c answer
              strategy_mode MessageStatus.completed
              (complete_rows message_id run_id started t.now answer p u db)
    ]

abbrev is_cancelled : RunStatus → Bool
is_cancelled RunStatus.cancelled = true
is_cancelled _ = false

-- `_finish`, for the two endings that it is called with.
pub data Ending : Type 0 where
  cancel fail : Ending

abbrev pub run_ending : Ending → RunStatus
run_ending cancel = RunStatus.cancelled
run_ending fail = RunStatus.failed

abbrev pub message_ending : Ending → MessageStatus
message_ending cancel = MessageStatus.cancelled
message_ending fail = MessageStatus.failed

abbrev pub live_runs : List RunStatus
live_runs = RunStatus.queued ∷ RunStatus.running ∷ RunStatus.cancelling ∷ []

abbrev pub live_messages : List MessageStatus
live_messages =
    MessageStatus.queued ∷ MessageStatus.running ∷ MessageStatus.streaming
    ∷ MessageStatus.cancelling ∷ []

unfoldable pub finish :
    Ending → String → ℕ → ℕ → String → String → String → Pricing → LlmUsage → Db → Db
finish ending error_code started now message_id run_id content p u db =
    if is_none (message_by_id message_id db) || is_none (run_by_id run_id db)
    then db
    else (let v = record (finished (run_ending ending) started now content p u) {
      cancel_requested = some (is_cancelled (run_ending ending));
      error_code = some error_code;
    } in
        let w = record (message_patch (message_ending ending)) {
          error_code = some error_code;
          completed_at = some now;
        } in
        (update_message_status message_id live_messages w
          (update_run_status run_id live_runs v db).0).0)

-- `_mark_cancelled`
unfoldable pub mark_cancelled : ℕ → String → String → Db → Db
mark_cancelled now message_id run_id db =
    if is_none (message_by_id message_id db) || is_none (run_by_id run_id db)
    then db
    else (let v = record (run_patch RunStatus.cancelled) {
      cancel_requested = some true;
      error_code = some "cancelled";
      completed_at = some now;
    } in
        let w = record (message_patch MessageStatus.cancelled) {
          error_code = some "cancelled";
          completed_at = some now;
        } in
        (update_message_status message_id live_messages w
          (update_run_status run_id live_runs v db).0).0)

-- `_cancel_queued_message`. An update by an identifier that no row has matches nothing.
unfoldable pub cancel_queued_message : String → String → Db → Db × Bool
cancel_queued_message message_id run_id db =
    let v = record (run_patch RunStatus.cancelled) { cancel_requested = some true } in
    let w = message_patch MessageStatus.cancelled in
    let (db', run_updated) =
      update_run_status run_id (RunStatus.queued ∷ RunStatus.cancelling ∷ []) v db in
    let (db'', message_updated) =
      update_message_status message_id (MessageStatus.queued ∷ MessageStatus.cancelling ∷ []) w
        db' in
    (db'', run_updated || message_updated)

-- The body of the loop of `_cancel_queued`.
unfoldable pub supersede : Run → Db → Db
supersede r db =
    let v = record (run_patch RunStatus.cancelled) {
      cancel_requested = some true;
      error_code = some "superseded";
    } in
    let w = record (message_patch MessageStatus.cancelled) { error_code = some "superseded" } in
    (update_message_status r.message_id (MessageStatus.queued ∷ []) w
      (update_run_status r.id (RunStatus.queued ∷ []) v db).0).0

unfoldable pub supersede_all : List Run → Db → Db
supersede_all [] db = db
supersede_all (r ∷ rs) db = supersede_all rs (supersede r db)

-- The queued runs of a conversation but those of one message.
unfoldable pub queued_others : String → String → Db → List Run
unfolding run_status_eq
queued_others conversation_id except_message_id db =
    keep
      (λ r.
        r.conversation_id == conversation_id
        && r.status == RunStatus.queued
        && not (r.message_id == except_message_id))
      db.runs

-- `_cancel_queued`: the pairs of the superseded, and the tables after it.
unfoldable pub cancel_queued : String → String → Db → List (String × String) × Db
cancel_queued conversation_id except_message_id db =
    let rs = queued_others conversation_id except_message_id db in
    (map (λ r. (r.message_id, r.id)) rs, supersede_all rs db)

-- `_requeue_run`, after a restart.
unfoldable pub requeue_run : String → String → Db → Db
requeue_run run_id message_id db =
    let v = record (run_patch RunStatus.queued) { cancel_requested = some false } in
    let from = MessageStatus.running ∷ MessageStatus.streaming ∷ MessageStatus.cancelling ∷ [] in
    (update_message_status message_id from (message_patch MessageStatus.queued)
      (update_run_status run_id (RunStatus.running ∷ RunStatus.cancelling ∷ []) v db).0).0
