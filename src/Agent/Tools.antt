-- ===== src/Agent/Tools.antt =====
-- app/agent/orchestrator.py: `_run_tool_loop` with the audits of its tool calls, `_stream_text`, and `LLMUsage.add` of
-- app/agent/llm/base.py. What the model answers, what a tool comes to, when a cancellation is seen and how each await ends
-- are given from outside; the messages sent to the model are left out. An `LLMError` raised here has the class's code
-- `llm_error`. `_save_streaming` is modelled with the run's rows; here the texts that it is given are collected.
pub mod Bounds
pub mod Calls
pub mod Audits
use tsuz_api_jcc.Base.{
  ℕ, zero, suc, ◌+◌, String, ◌<>◌, Bool, true, false, ◌&&◌, ◌||◌, not, Option, none, some, List, [],
  ◌∷◌, ◌++◌, any, contains, map, leb, ltb, ◌==◌, string_eq, if◌then◌else◌,
}
use tsuz_api_jcc.Base.Dict
use tsuz_api_jcc.Base.Text.{str_length}
use tsuz_api_jcc.Jcc.Json.{Json, Items, Fields, Object, is_empty}
use tsuz_api_jcc.Conversations.Repository.{update_where, given}
use tsuz_api_jcc.Agent.Lifecycle.{LlmUsage}
use tsuz_api_jcc.Agent.Events.{AgentEvent}
use tsuz_api_jcc.Agent.Runtime.{event}
use tsuz_api_jcc.Agent.Summary.{str_take}

abbrev pub total : Option ℕ → Option ℕ → Option ℕ
total none right = right
total (some a) none = some a
total (some a) (some b) = some (a + b)

-- `LLMUsage.add`
unfoldable pub add_usage : LlmUsage → Option LlmUsage → LlmUsage
add_usage u none = u
add_usage u (some v) = record {
  input_tokens = total u.input_tokens v.input_tokens;
  output_tokens = total u.output_tokens v.output_tokens;
}

-- How the loop ends: with the usage, or by an exception that `execute` handles. `fell_through` is the end of the
-- `for` statement, which returns `None`.
pub data Exit : Type 0 where
  returned : LlmUsage → Exit
  agent_cancelled task_cancelled failed_otherwise fell_through : Exit
  llm_error : String → Exit

pub data ToolStatus : Type 0 where
  requested running succeeded failed rejected timeout cancelled : ToolStatus

-- app/agent/models.py, `AgentToolCall`
pub record ToolAudit : Type 0 where
  pub id : String
  pub tool_use_id : String
  pub tool_name : String
  pub status : ToolStatus
  pub output_json : Option Json
  pub error_code : Option String
  pub completed_at : Option ℕ

abbrev pub is_open : ToolStatus → Bool
is_open requested = true
is_open running = true
is_open _ = false

abbrev pub is_open_call : String → ToolAudit → Bool
is_open_call id a = a.id == id && is_open a.status

abbrev pub with_result : ToolStatus → Option Json → Option String → ℕ → ToolAudit → ToolAudit
with_result status output error_code now a = record a {
  status = status;
  output_json = given output a.output_json;
  error_code = given error_code a.error_code;
  completed_at = some now;
}

-- `update_tool_call`, with the arguments that the orchestrator gives.
unfoldable pub update_tool_call :
    String → ToolStatus → Option Json → Option String → ℕ → List ToolAudit → List ToolAudit
update_tool_call id status output error_code now =
    update_where (is_open_call id) (with_result status output error_code now)

-- What a tool comes to: an output with its size in bytes and its sources (`none` where saving them raises), or an
-- exception.
pub data Execution : Type 0 where
  output : Object → ℕ → Option (List Object) → Execution
  timed_out interrupted raised : Execution

-- How an await ends: it passes, the task is cancelled there (`asyncio.timeout` cancels it too), or it raises another
-- exception. A thread that was started by `to_thread` finishes its work when its await is cancelled.
pub data Await : Type 0 where
  passes stops raises : Await

-- A call of the model, with the identifier of its audit (empty where the run or the message is gone), the clock, and what
-- happens around it: the awaits of the
-- audit's creation and of the event of the start, and those of its ending and the event of that, in the code and in a handler
-- of the `try`.
pub record ToolCall : Type 0 where
  pub id : String
  pub name : String
  pub audit_id : String
  pub now : ℕ
  pub cancel_seen : Bool
  pub arguments_valid : Bool
  pub execution : Execution
  pub creation : Await
  pub starting : Await
  pub closing : Await
  pub sending : Await
  pub reclosing : Await
  pub resending : Await

pub record LlmResponse : Type 0 where
  pub text : String
  pub tool_calls : List ToolCall
  pub saving : Await
  pub sending : Await
  pub usage : Option LlmUsage

-- What an iteration meets: a cancellation before the request, an `LLMError` of the client by its code, the cancellation of
-- the task or another exception during the request, or a response.
pub data Turn : Type 0 where
  cancel_seen task_cancel other_error : Turn
  client_error : String → Turn
  response : LlmResponse → Turn

-- What the loop changes: the audits of the run, the events sent, the texts generated, and the number of requests to the model.
pub record Progress : Type 0 where
  pub audits : List ToolAudit
  pub events : List AgentEvent
  pub generated : List String
  pub asked : ℕ

abbrev pub error_result : String → Json
error_result code = Json.obj (
    Fields.field "ok" (Json.bool false)
      (Fields.field "error" (Json.obj (Fields.field "code" (Json.str code) Fields.end)) Fields.end))

abbrev fields_of : Object → Fields
fields_of [] = Fields.end
fields_of ((k, v) ∷ o) = Fields.field k v (fields_of o)

-- `{**a, **b}`
abbrev merge : Object → Object → Object
merge d [] = d
merge d ((k, v) ∷ o) = merge (Dict.insert k v d) o

-- `_create_tool_audit`; no row is made where the run or the message is gone.
abbrev pub new_audit : ToolCall → ToolAudit
new_audit c = record {
  id = c.audit_id;
  tool_use_id = c.id;
  tool_name = c.name;
  status = running;
  output_json = none;
  error_code = none;
  completed_at = none;
}

-- The row's constraints: its key, and one call of a `tool_use_id` in the run.
abbrev pub is_taken : ToolCall → List ToolAudit → Bool
is_taken c audits =
    not (is_empty c.audit_id)
    && any (λ (a : ToolAudit). a.id == c.audit_id || a.tool_use_id == c.id) audits

unfoldable pub create_tool_audit : ToolCall → List ToolAudit → List ToolAudit
create_tool_audit c audits = if is_empty c.audit_id then audits else audits ++ new_audit c ∷ []

-- `_finish_tool_audit`
unfoldable pub finish_tool_audit :
    ToolCall → ToolStatus → Json → Option String → List ToolAudit → List ToolAudit
unfolding update_tool_call
finish_tool_audit c status result error_code audits =
    if is_empty c.audit_id
    then audits
    else update_tool_call c.audit_id status (some result) error_code c.now audits

abbrev pub emit : AgentEvent → Progress → Progress
emit e p = record p { events = p.events ++ e ∷ [] }

abbrev pub close_audit : ToolCall → ToolStatus → Json → Option String → Progress → Progress
close_audit c status result error_code p = record p {
  audits = finish_tool_audit c status result error_code p.audits;
}

-- `await to_thread(...)`, with what the thread has done or not.
abbrev pub awaited :
    Await → Progress → Progress → (Progress → Progress × Option Exit) → Progress × Option Exit
awaited passes after before next = next after
awaited stops after before next = (after, some task_cancelled)
awaited raises after before next = (before, some failed_otherwise)

-- `await sink(...)`
abbrev pub sent :
    Await → AgentEvent → Progress → (Progress → Progress × Option Exit) → Progress × Option Exit
sent passes e p next = next (emit e p)
sent stops e p next = (p, some task_cancelled)
sent raises e p next = (p, some failed_otherwise)

module _ (message_id run_id : String) (is_tool : String → Bool) (max_bytes : ℕ) where
  abbrev pub tool_event : String → ToolCall → Object → AgentEvent
  tool_event name c more =
      event name message_id run_id
        (("tool_name", Json.str (str_take 64 c.name)) ∷ ("tool_call_id", Json.str c.id) ∷ more)

  abbrev pub failed_event : ToolCall → String → AgentEvent
  failed_event c code = tool_event "tool.failed" c (("error_code", Json.str code) ∷ [])

  -- An audit that is closed by an error, and its event.
  abbrev pub refuse : ToolCall → ToolStatus → String → Progress → Progress × Option Exit
  refuse c status code p =
      awaited c.closing (close_audit c status (error_result code) (some code) p) p
        (λ q. sent c.sending (failed_event c code) q (λ q. (q, none)))

  abbrev pub succeed : ToolCall → Object → Progress → Progress
  succeed c out p =
      close_audit c succeeded (Json.obj (fields_of (merge (("ok", Json.bool true) ∷ []) out))) none
        p

  abbrev pub completed_event : ToolCall → AgentEvent
  completed_event c = tool_event "tool.completed" c (("status", Json.str "succeeded") ∷ [])

  -- A source's event has the object's entries.
  abbrev pub emit_sources : List Object → Progress → Progress
  emit_sources [] p = p
  emit_sources (o ∷ os) p = emit_sources os (emit (event "source" message_id run_id o) p)

  abbrev pub after_saving : ToolCall → Option (List Object) → Progress → Progress × Option Exit
  after_saving c none p = (p, some failed_otherwise)
  after_saving c (some sources) p =
      sent c.sending (completed_event c) p (λ q. (emit_sources sources q, none))

  -- `except Exception`
  abbrev pub recover : ToolCall → Progress → Progress × Option Exit
  recover c p =
      awaited c.reclosing
        (close_audit c failed (error_result "tool_execution_failed") (some "tool_execution_failed")
          p)
        p (λ q. sent c.resending (failed_event c "tool_execution_failed") q (λ q. (q, none)))

  -- `except asyncio.CancelledError`
  abbrev pub interrupt : ToolCall → Progress → Progress × Option Exit
  interrupt c p =
      awaited c.reclosing (close_audit c cancelled (error_result "cancelled") (some "cancelled") p)
        p (λ q. (q, some task_cancelled))

  -- The handlers of the `try`, for what ends its body.
  abbrev pub caught : ToolCall → Progress × Option Exit → Progress × Option Exit
  caught c (p, none) = (p, none)
  caught c (p, some Exit.task_cancelled) = interrupt c p
  caught c (p, some (Exit.returned u)) = recover c p
  caught c (p, some Exit.agent_cancelled) = recover c p
  caught c (p, some Exit.failed_otherwise) = recover c p
  caught c (p, some Exit.fell_through) = recover c p
  caught c (p, some (Exit.llm_error code)) = recover c p

  -- The `try` around the execution of a tool.
  unfoldable pub execute_tool : ToolCall → Execution → Progress → Progress × Option Exit
  unfolding finish_tool_audit str_take
  execute_tool c (output out bytes saved) p = caught c (
      if ltb max_bytes bytes
      then refuse c failed "tool_output_limit" p
      else awaited c.closing (succeed c out p) p (after_saving c saved))
  execute_tool c timed_out p = refuse c timeout "tool_timeout" p
  execute_tool c interrupted p = interrupt c p
  execute_tool c raised p = recover c p

  -- What follows the creation of an audit.
  abbrev pub after_creation : ToolCall → Progress → Progress × Option Exit
  after_creation c p =
      if c.cancel_seen
      then (p, some agent_cancelled)
      else if not (is_tool c.name)
      then refuse c rejected "tool_not_allowed" p
      else sent c.starting (tool_event "tool.started" c []) p (λ q.
        if not c.arguments_valid
        then refuse c rejected "tool_invalid_arguments" q
        else execute_tool c c.execution q)

  -- The body of the loop over the calls of a response; an audit whose row is refused ends the run by an exception.
  unfoldable pub run_call : ToolCall → Progress → Progress × Option Exit
  unfolding create_tool_audit finish_tool_audit execute_tool str_take
  run_call c p =
      if is_taken c p.audits
      then (p, some failed_otherwise)
      else awaited c.creation (record p { audits = create_tool_audit c p.audits }) p
          (after_creation c)

  abbrev pub unless_exit :
      (Progress → Progress × Option Exit) → Progress × Option Exit → Progress × Option Exit
  unless_exit next (p, some e) = (p, some e)
  unless_exit next (p, none) = next p

  unfoldable pub run_calls : List ToolCall → Progress → Progress × Option Exit
  unfolding run_call
  run_calls [] p = (p, none)
  run_calls (c ∷ cs) p = unless_exit (run_calls cs) (run_call c p)

  -- A text of the response is kept, saved and sent.
  abbrev pub keep_text : LlmResponse → Progress → Progress × Option Exit
  keep_text r p =
      let q = record p { generated = p.generated ++ r.text ∷ [] } in
      if is_empty r.text
      then (p, none)
      else awaited r.saving q q (λ q.
        sent r.sending (event "text.delta" message_id run_id (("content", Json.str r.text) ∷ [])) q
          (λ q. (q, none)))

  abbrev pub after_calls : (Progress → Progress × Exit) → Progress × Option Exit → Progress × Exit
  after_calls next (p, some e) = (p, e)
  after_calls next (p, none) = next p

  -- `iteration >= self.max_tool_iterations`, with what is left of the range behind this iteration.
  abbrev pub after_answer :
      Bool → (Progress → Progress × Exit) → List ToolCall → LlmUsage → Progress → Progress × Exit
  after_answer last next [] u p = (p, returned u)
  after_answer last next (c ∷ cs) u p =
      if last then (p, llm_error "llm_error") else after_calls next (run_calls (c ∷ cs) p)

  abbrev pub answer_turn :
      Bool
      → (LlmUsage → Progress → Progress × Exit)
      → LlmResponse
      → LlmUsage
      → Progress
      → Progress × Exit
  answer_turn last next r u p =
      let total_usage = add_usage u r.usage in
      after_calls (after_answer last (next total_usage) r.tool_calls total_usage) (keep_text r p)

  abbrev pub ask : Progress → Progress
  ask p = record p { asked = suc p.asked }

  -- One iteration, the last one or not.
  unfoldable pub take_turn :
      Bool → (LlmUsage → Progress → Progress × Exit) → Turn → LlmUsage → Progress → Progress × Exit
  unfolding run_calls add_usage
  take_turn last next cancel_seen u p = (p, agent_cancelled)
  take_turn last next task_cancel u p = (ask p, task_cancelled)
  take_turn last next other_error u p = (ask p, failed_otherwise)
  take_turn last next (client_error code) u p = (ask p, llm_error code)
  take_turn last next (response r) u p = answer_turn last next r u (ask p)

  -- The iterations from one on, `left` of them; the last one is number `max_tool_iterations`.
  unfoldable pub tool_loop : (ℕ → Turn) → ℕ → ℕ → LlmUsage → Progress → Progress × Exit
  unfolding take_turn
  tool_loop turns iteration zero u p = (p, fell_through)
  tool_loop turns iteration (suc left) u p =
      take_turn (leb left 0) (tool_loop turns (suc iteration) left) (turns iteration) u p

  unfoldable pub run_tool_loop : (ℕ → Turn) → ℕ → Progress → Progress × Exit
  unfolding tool_loop
  run_tool_loop turns max_tool_iterations =
      tool_loop turns 0 (suc max_tool_iterations)
        (record { input_tokens = none; output_tokens = none })

-- A piece of a streamed text, whether a cancellation is seen with it, and how the awaits behind it end.
pub record TextDelta : Type 0 where
  pub content : String
  pub usage : Option LlmUsage
  pub cancel_seen : Bool
  pub saving : Await
  pub sending : Await

-- What follows the save of a text: `kept` are the texts with it.
abbrev pub after_save :
    Await → Await → List String → List String → List String × Exit → List String × Exit
after_save raises sending saved kept rest = (saved, failed_otherwise)
after_save stops sending saved kept rest = (kept, task_cancelled)
after_save passes raises saved kept rest = (kept, failed_otherwise)
after_save passes stops saved kept rest = (kept, task_cancelled)
after_save passes passes saved kept rest = rest

-- The end of the stream, or what its next step raises.
abbrev pub end_of : Option Exit → LlmUsage → Exit
end_of none u = returned u
end_of (some e) u = e

-- `_stream_text`, with the text so far and the texts that were saved.
unfoldable pub stream_text :
    Option Exit → List TextDelta → String → LlmUsage → List String → List String × Exit
unfolding add_usage
stream_text ending [] text u saved = (saved, end_of ending u)
stream_text ending (d ∷ ds) text u saved =
    let more = text <> d.content in
    let kept = saved ++ more ∷ [] in
    let rest = stream_text ending ds more (add_usage u d.usage) kept in
    if d.cancel_seen
    then (saved, agent_cancelled)
    else if ltb 8000 (str_length more)
    then (saved, llm_error "llm_error")
    else after_save d.saving d.sending saved kept rest
