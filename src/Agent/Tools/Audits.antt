-- ===== src/Agent/Tools/Audits.antt =====
-- app/agent/orchestrator.py: the audits of the tool calls when the loop has ended.
use tsuz_api_jcc.Base.{
  ℕ, zero, suc, String, Bool, true, false, Option, none, some, List, [], ◌∷◌, ◌++◌, leb, string_eq,
  if-intro, ◌⊎◌, arith, inl, inr,
}
use tsuz_api_jcc.Jcc.Json.{Json, is_empty}
use tsuz_api_jcc.Agent.Lifecycle.{LlmUsage}
use tsuz_api_jcc.Agent.Runtime.{event}
use tsuz_api_jcc.Agent.Events.{AgentEvent}
use tsuz_api_jcc.Agent.Tools.{
  Exit, Progress, ToolCall, LlmResponse, Turn, Await, passes, stops, raises, awaited, sent,
  cancel_seen, task_cancel, other_error, client_error, response, run_calls, take_turn, after_answer,
  after_calls, unless_exit, keep_text, ask, tool_loop, run_tool_loop, add_usage,
}
use tsuz_api_jcc.Agent.Tools.Calls.{
  AllClosed, raising, raised_by, IsRaised, raising-IsRaised, LastOpen, Left, run_call-Left,
}

module _ (message_id run_id : String) (is_tool : String → Bool) (max_bytes : ℕ) where
  unless_exit-Left :
      (next : Progress → Progress × Option Exit) (r : Progress × Option Exit)
      → ((p : Progress) → AllClosed p.audits → let s = next p in Left s.0 (raised_by s.1))
      → Left r.0 (raised_by r.1)
      → let s = unless_exit message_id run_id is_tool max_bytes next r in Left s.0 (raised_by s.1)
  unfolding Left
  unless_exit-Left next (p, some e) h k = k
  unless_exit-Left next (p, none) h (inl k) = h p k
  unless_exit-Left next (p, none) h (inr (f, k)) = absurd (ground (arith, f))

  run_calls-Left :
      (cs : List ToolCall) (p : Progress)
      → AllClosed p.audits
      → let r = run_calls message_id run_id is_tool max_bytes cs p in Left r.0 (raised_by r.1)
  unfolding run_calls Left
  run_calls-Left [] p h = inl h
  run_calls-Left (c ∷ cs) p h =
      unless_exit-Left (run_calls message_id run_id is_tool max_bytes cs) _ (run_calls-Left cs)
        (run_call-Left message_id run_id is_tool max_bytes c p h)

  kept-Left :
      (e : AgentEvent) (p : Progress)
      → AllClosed p.audits
      → (saving sending : Await)
      → let q = awaited saving p p (λ q. sent sending e q (λ q. (q, none))) in
        Left q.0 (raised_by q.1)
  unfolding Left
  kept-Left e p h passes passes = inl h
  kept-Left e p h passes stops = inl h
  kept-Left e p h passes raises = inl h
  kept-Left e p h stops sending = inl h
  kept-Left e p h raises sending = inl h

  keep_text-Left :
      (r : LlmResponse) (p : Progress)
      → AllClosed p.audits
      → let q = keep_text message_id run_id is_tool max_bytes r p in Left q.0 (raised_by q.1)
  unfolding Left
  keep_text-Left r p h =
      if-intro (λ (q : Progress × Option Exit). Left q.0 (raised_by q.1)) (is_empty r.text) _ _
        (λ _. inl h)
        (λ _.
          kept-Left (event "text.delta" message_id run_id (("content", Json.str r.text) ∷ []))
            (record p { generated = p.generated ++ r.text ∷ [] }) h r.saving r.sending)

  after_calls-Left :
      (next : Progress → Progress × Exit) (r : Progress × Option Exit)
      → ((p : Progress) → AllClosed p.audits → let s = next p in Left s.0 (raising s.1))
      → Left r.0 (raised_by r.1)
      → let s = after_calls message_id run_id is_tool max_bytes next r in Left s.0 (raising s.1)
  unfolding Left
  after_calls-Left next (p, some e) h k = k
  after_calls-Left next (p, none) h (inl k) = h p k
  after_calls-Left next (p, none) h (inr (f, k)) = absurd (ground (arith, f))

  after_answer-Left :
      (last : Bool) (next : Progress → Progress × Exit) (cs : List ToolCall) (u : LlmUsage)
      (p : Progress)
      → AllClosed p.audits
      → ((q : Progress) → AllClosed q.audits → let s = next q in Left s.0 (raising s.1))
      → let s = after_answer message_id run_id is_tool max_bytes last next cs u p in
        Left s.0 (raising s.1)
  unfolding Left
  after_answer-Left last next [] u p h k = inl h
  after_answer-Left true next (c ∷ cs) u p h k = inl h
  after_answer-Left false next (c ∷ cs) u p h k =
      after_calls-Left next _ k (run_calls-Left (c ∷ cs) p h)

  take_turn-Left :
      (last : Bool) (next : LlmUsage → Progress → Progress × Exit) (t : Turn) (u : LlmUsage)
      (p : Progress)
      → AllClosed p.audits
      → ((v : LlmUsage) (q : Progress)
          → AllClosed q.audits
          → let s = next v q in Left s.0 (raising s.1))
      → let s = take_turn message_id run_id is_tool max_bytes last next t u p in
        Left s.0 (raising s.1)
  unfolding take_turn Left
  take_turn-Left last next cancel_seen u p h k = inl h
  take_turn-Left last next task_cancel u p h k = inl h
  take_turn-Left last next other_error u p h k = inl h
  take_turn-Left last next (client_error code) u p h k = inl h
  take_turn-Left last next (response r) u p h k =
      let v = add_usage u r.usage in
      after_calls-Left
        (after_answer message_id run_id is_tool max_bytes last (next v) r.tool_calls v) _
        (λ q l. after_answer-Left last (next v) r.tool_calls v q l (k v))
        (keep_text-Left r (ask message_id run_id is_tool max_bytes p) h)

  tool_loop-Left :
      (turns : ℕ → Turn) (iteration left : ℕ) (u : LlmUsage) (p : Progress)
      → AllClosed p.audits
      → let s = tool_loop message_id run_id is_tool max_bytes turns iteration left u p in
        Left s.0 (raising s.1)
  unfolding tool_loop Left
  tool_loop-Left turns iteration zero u p h = inl h
  tool_loop-Left turns iteration (suc left) u p h =
      take_turn-Left (leb left 0)
        (tool_loop message_id run_id is_tool max_bytes turns (suc iteration) left) (turns iteration)
        u p h (tool_loop-Left turns (suc iteration) left)

  -- If no audit is open before the loop, then none is open when it has ended; or an exception has left the loop (the
  -- cancellation of the run, that of the task, or one that is no `LLMError`), the last audit was just made, and no audit
  -- before it is open. So a loop that returns, or that ends by an `LLMError`, leaves no audit open.
  pub run_tool_loop-audits :
      (turns : ℕ → Turn) (max_tool_iterations : ℕ) (p : Progress)
      → AllClosed p.audits
      → let s = run_tool_loop message_id run_id is_tool max_bytes turns max_tool_iterations p in
        AllClosed s.0.audits ⊎ (IsRaised s.1 × LastOpen s.0.audits)
  unfolding run_tool_loop Left
  run_tool_loop-audits turns n p h =
      elim (tool_loop-Left turns 0 (suc n) (record { input_tokens = none; output_tokens = none }) p
        h) [ inl k ↦ inl k | inr (f, k) ↦ inr (raising-IsRaised _ f, k) ]
