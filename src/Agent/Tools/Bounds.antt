-- ===== src/Agent/Tools/Bounds.antt =====
-- app/agent/orchestrator.py: the tool loop asks the model a bounded number of times and ends by a statement of its body.
use tsuz_api_jcc.Base.{
  ◌∙◌, ℕ, zero, suc, ◌+◌, ◌≤◌, String, ◌<>◌, Bool, true, false, Option, none, some, List, [], ◌∷◌,
  ◌++◌, All, All-append, leb, ltb, ◌≡◌, ◌≢◌, refl, ap, arith, if-intro, not,
}
use tsuz_api_jcc.Base.Text.{str_length}
use tsuz_api_jcc.Jcc.Json.{Object, is_empty}
use tsuz_api_jcc.Agent.Runtime.{event}
use tsuz_api_jcc.Agent.Lifecycle.{LlmUsage}
use tsuz_api_jcc.Agent.Events.{AgentEvent}
use tsuz_api_jcc.Agent.Tools.{
  Exit, fell_through, Progress, ToolCall, ToolStatus, failed, rejected, timeout, LlmResponse, Turn,
  Await, passes, stops, raises, awaited, sent, refuse, recover, interrupt, caught, after_saving,
  after_creation, is_taken, run_call, run_calls, execute_tool, Execution, output, timed_out,
  interrupted, raised, emit, emit_sources, tool_loop, run_tool_loop, take_turn, after_answer,
  after_calls, unless_exit, keep_text, ask, add_usage, cancel_seen, task_cancel, other_error,
  client_error, response, TextDelta, after_save, stream_text,
}

module _ (message_id run_id : String) (is_tool : String → Bool) (max_bytes : ℕ) where
  abbrev falls : Exit → Bool
  falls fell_through = true
  falls _ = false

  abbrev falls_out : Option Exit → Bool
  falls_out none = false
  falls_out (some e) = falls e

  -- No request has been made, and an exit is one of the body.
  Asked : ℕ → Progress × Option Exit → Type 0
  Asked n (p, e) = (p.asked ≡ n) × (falls_out e ≡ false)

  asked-emit_sources :
      (os : List Object) (p : Progress)
      → (emit_sources message_id run_id is_tool max_bytes os p).asked ≡ p.asked
  asked-emit_sources [] p = refl
  asked-emit_sources (o ∷ os) p =
      asked-emit_sources os (emit (event "source" message_id run_id o) p)

  awaited-Asked :
      (n : ℕ) (a : Await) (after before : Progress) (next : Progress → Progress × Option Exit)
      → after.asked ≡ n
      → before.asked ≡ n
      → ((q : Progress) → q.asked ≡ n → Asked n (next q))
      → Asked n (awaited a after before next)
  unfolding Asked
  awaited-Asked n passes after before next k l h = h after k
  awaited-Asked n stops after before next k l h = (k, refl)
  awaited-Asked n raises after before next k l h = (l, refl)

  sent-Asked :
      (n : ℕ) (a : Await) (e : AgentEvent) (p : Progress) (next : Progress → Progress × Option Exit)
      → p.asked ≡ n
      → ((q : Progress) → q.asked ≡ n → Asked n (next q))
      → Asked n (sent a e p next)
  unfolding Asked
  sent-Asked n passes e p next k h = h (emit e p) k
  sent-Asked n stops e p next k h = (k, refl)
  sent-Asked n raises e p next k h = (k, refl)

  refuse-Asked :
      (n : ℕ) (c : ToolCall) (status : ToolStatus) (code : String) (p : Progress)
      → p.asked ≡ n
      → Asked n (refuse message_id run_id is_tool max_bytes c status code p)
  unfolding Asked
  refuse-Asked n c status code p k =
      awaited-Asked n c.closing _ p _ k k (λ q l. sent-Asked n c.sending _ q _ l (λ r m. (m, refl)))

  recover-Asked :
      (n : ℕ) (c : ToolCall) (p : Progress)
      → p.asked ≡ n
      → Asked n (recover message_id run_id is_tool max_bytes c p)
  unfolding Asked
  recover-Asked n c p k =
      awaited-Asked n c.reclosing _ p _ k k
        (λ q l. sent-Asked n c.resending _ q _ l (λ r m. (m, refl)))

  interrupt-Asked :
      (n : ℕ) (c : ToolCall) (p : Progress)
      → p.asked ≡ n
      → Asked n (interrupt message_id run_id is_tool max_bytes c p)
  unfolding Asked
  interrupt-Asked n c p k = awaited-Asked n c.reclosing _ p _ k k (λ q l. (l, refl))

  caught-Asked :
      (n : ℕ) (c : ToolCall) (r : Progress × Option Exit)
      → Asked n r
      → Asked n (caught message_id run_id is_tool max_bytes c r)
  unfolding Asked
  caught-Asked n c (p, none) k = k
  caught-Asked n c (p, some Exit.task_cancelled) (k, _) = interrupt-Asked n c p k
  caught-Asked n c (p, some (Exit.returned u)) (k, _) = recover-Asked n c p k
  caught-Asked n c (p, some Exit.agent_cancelled) (k, _) = recover-Asked n c p k
  caught-Asked n c (p, some Exit.failed_otherwise) (k, _) = recover-Asked n c p k
  caught-Asked n c (p, some Exit.fell_through) (k, _) = recover-Asked n c p k
  caught-Asked n c (p, some (Exit.llm_error code)) (k, _) = recover-Asked n c p k

  after_saving-Asked :
      (n : ℕ) (c : ToolCall) (sources : Option (List Object)) (p : Progress)
      → p.asked ≡ n
      → Asked n (after_saving message_id run_id is_tool max_bytes c sources p)
  unfolding Asked
  after_saving-Asked n c none p k = (k, refl)
  after_saving-Asked n c (some sources) p k =
      sent-Asked n c.sending _ p _ k (λ q l. (asked-emit_sources sources q ∙ l, refl))

  execute_tool-Asked :
      (n : ℕ) (c : ToolCall) (e : Execution) (p : Progress)
      → p.asked ≡ n
      → Asked n (execute_tool message_id run_id is_tool max_bytes c e p)
  unfolding execute_tool
  execute_tool-Asked n c (output out bytes saved) p k = caught-Asked n c _ (
      if-intro (Asked n) (ltb max_bytes bytes) _ _
        (λ _. refuse-Asked n c failed "tool_output_limit" p k)
        (λ _. awaited-Asked n c.closing _ p _ k k (λ q l. after_saving-Asked n c saved q l)))
  execute_tool-Asked n c timed_out p k = refuse-Asked n c timeout "tool_timeout" p k
  execute_tool-Asked n c interrupted p k = interrupt-Asked n c p k
  execute_tool-Asked n c raised p k = recover-Asked n c p k

  after_creation-Asked :
      (n : ℕ) (c : ToolCall) (p : Progress)
      → p.asked ≡ n
      → Asked n (after_creation message_id run_id is_tool max_bytes c p)
  unfolding Asked
  after_creation-Asked n c p k =
      if-intro (Asked n) c.cancel_seen _ _ (λ _. (k, refl))
        (λ _.
          if-intro (Asked n) (not (is_tool c.name)) _ _
            (λ _. refuse-Asked n c rejected "tool_not_allowed" p k)
            (λ _. sent-Asked n c.starting _ p _ k (λ q l.
              if-intro (Asked n) (not c.arguments_valid) _ _
                (λ _. refuse-Asked n c rejected "tool_invalid_arguments" q l)
                (λ _. execute_tool-Asked n c c.execution q l))))

  run_call-Asked :
      (n : ℕ) (c : ToolCall) (p : Progress)
      → p.asked ≡ n
      → Asked n (run_call message_id run_id is_tool max_bytes c p)
  unfolding run_call Asked
  run_call-Asked n c p k =
      if-intro (Asked n) (is_taken c p.audits) _ _ (λ _. (k, refl))
        (λ _. awaited-Asked n c.creation _ p _ k k (after_creation-Asked n c))

  unless_exit-Asked :
      (next : Progress → Progress × Option Exit) (n : ℕ) (r : Progress × Option Exit)
      → ((p : Progress) → p.asked ≡ n → Asked n (next p))
      → Asked n r
      → Asked n (unless_exit message_id run_id is_tool max_bytes next r)
  unfolding Asked
  unless_exit-Asked next n (p, some e) h k = k
  unless_exit-Asked next n (p, none) h (k, _) = h p k

  asked-run_calls :
      (cs : List ToolCall) (n : ℕ) (p : Progress)
      → p.asked ≡ n
      → Asked n (run_calls message_id run_id is_tool max_bytes cs p)
  unfolding run_calls Asked
  asked-run_calls [] n p h = (h, refl)
  asked-run_calls (c ∷ cs) n p h =
      unless_exit-Asked (run_calls message_id run_id is_tool max_bytes cs) n _
        (λ q. asked-run_calls cs n q) (run_call-Asked n c p h)

  keep_text-Asked :
      (n : ℕ) (r : LlmResponse) (p : Progress)
      → p.asked ≡ n
      → Asked n (keep_text message_id run_id is_tool max_bytes r p)
  unfolding Asked
  keep_text-Asked n r p k =
      if-intro (Asked n) (is_empty r.text) _ _ (λ _. (k, refl))
        (λ _.
          awaited-Asked n r.saving _ _ _ k k
            (λ q l. sent-Asked n r.sending _ q _ l (λ r m. (m, refl))))

  -- The loop has ended in time, by a statement of its body.
  Ended : ℕ → Progress × Exit → Type 0
  Ended m (p, e) = (p.asked ≤ m) × (falls e ≡ false)

  after_calls-Ended :
      (next : Progress → Progress × Exit) (n m : ℕ) (r : Progress × Option Exit)
      → n ≤ m
      → ((p : Progress) → p.asked ≡ n → Ended m (next p))
      → Asked n r
      → Ended m (after_calls message_id run_id is_tool max_bytes next r)
  unfolding Asked Ended
  after_calls-Ended next n m (p, some e) l h (k, f) = (omega (arith, k, l), f)
  after_calls-Ended next n m (p, none) l h (k, f) = h p k

  after_answer-Ended :
      (last : Bool) (next : Progress → Progress × Exit) (cs : List ToolCall) (u : LlmUsage)
      (n m : ℕ) (p : Progress)
      → n ≤ m
      → p.asked ≡ n
      → (last ≡ false → (q : Progress) → q.asked ≡ n → Ended m (next q))
      → Ended m (after_answer message_id run_id is_tool max_bytes last next cs u p)
  unfolding Ended
  after_answer-Ended last next [] u n m p l k h = (omega (arith, k, l), refl)
  after_answer-Ended true next (c ∷ cs) u n m p l k h = (omega (arith, k, l), refl)
  after_answer-Ended false next (c ∷ cs) u n m p l k h =
      after_calls-Ended next n m _ l (h refl) (asked-run_calls (c ∷ cs) n p k)

  take_turn-Ended :
      (last : Bool) (next : LlmUsage → Progress → Progress × Exit) (t : Turn) (u : LlmUsage) (m : ℕ)
      (p : Progress)
      → suc p.asked ≤ m
      → (last ≡ false → (v : LlmUsage) (q : Progress) → q.asked ≡ suc p.asked → Ended m (next v q))
      → Ended m (take_turn message_id run_id is_tool max_bytes last next t u p)
  unfolding take_turn Ended
  take_turn-Ended last next cancel_seen u m p l h = (omega (arith, l), refl)
  take_turn-Ended last next task_cancel u m p l h = (l, refl)
  take_turn-Ended last next other_error u m p l h = (l, refl)
  take_turn-Ended last next (client_error code) u m p l h = (l, refl)
  take_turn-Ended last next (response r) u m p l h =
      let v = add_usage u r.usage in
      after_calls-Ended
        (after_answer message_id run_id is_tool max_bytes last (next v) r.tool_calls v)
        (suc p.asked) m _ l
        (λ q k. after_answer-Ended last (next v) r.tool_calls v (suc p.asked) m q l k (λ f. h f v))
        (keep_text-Asked (suc p.asked) r (ask message_id run_id is_tool max_bytes p) refl)

  tool_loop-Ended :
      (turns : ℕ → Turn) (iteration left : ℕ) (u : LlmUsage) (p : Progress)
      → Ended
          (p.asked + suc left)
          (tool_loop message_id run_id is_tool max_bytes turns iteration (suc left) u p)
  unfolding tool_loop Ended
  tool_loop-Ended turns iteration zero u p =
      take_turn-Ended true (tool_loop message_id run_id is_tool max_bytes turns (suc iteration) 0)
        (turns iteration) u (p.asked + 1) p (omega arith) (λ f. absurd (ground (arith, f)))
  tool_loop-Ended turns iteration (suc left) u p =
      take_turn-Ended (leb (suc left) 0)
        (tool_loop message_id run_id is_tool max_bytes turns (suc iteration) (suc left))
        (turns iteration) u (p.asked + suc (suc left)) p (omega arith)
        (λ _ v q k.
          let (l, f) = tool_loop-Ended turns (suc iteration) left v q in (omega (arith, l, k), f))

  -- Whatever the model answers and the tools do, the loop makes at most one request more than the limit of iterations, and it
  -- ends by returning the usage or by raising: it never falls out of the range.
  pub run_tool_loop-bounded :
      (turns : ℕ → Turn) (max_tool_iterations : ℕ) (p : Progress)
      → ((run_tool_loop message_id run_id is_tool max_bytes turns max_tool_iterations p).0.asked
          ≤ p.asked + suc max_tool_iterations)
        × ((run_tool_loop message_id run_id is_tool max_bytes turns max_tool_iterations p).1
            ≢ fell_through)
  unfolding run_tool_loop Ended
  run_tool_loop-bounded turns n p =
      let (l, f) =
        tool_loop-Ended turns 0 n (record { input_tokens = none; output_tokens = none }) p in
      (l, λ e. absurd (ground (arith, f, ap falls e)))

-- No text has more than 8000 characters.
Short : List String → Type 0
Short = All (λ s. str_length s ≤ 8000)

after_save-Short :
    (saving sending : Await) (saved kept : List String) (rest : List String × Exit)
    → Short saved
    → Short kept
    → Short rest.0
    → Short (after_save saving sending saved kept rest).0
after_save-Short raises sending saved kept rest h k l = h
after_save-Short stops sending saved kept rest h k l = k
after_save-Short passes raises saved kept rest h k l = k
after_save-Short passes stops saved kept rest h k l = k
after_save-Short passes passes saved kept rest h k l = l

-- If the texts saved before are within 8000 characters, so are all that `_stream_text` saves,
-- whatever the stream or a save raises.
pub stream_text-bounded :
    (ending : Option Exit) (ds : List TextDelta) (text : String) (u : LlmUsage)
    (saved : List String)
    → All (λ s. str_length s ≤ 8000) saved
    → All (λ s. str_length s ≤ 8000) (stream_text ending ds text u saved).0
unfolding stream_text Short
stream_text-bounded ending [] text u saved h = h
stream_text-bounded ending (d ∷ ds) text u saved h =
    let more = text <> d.content in
    if-intro (λ (r : List String × Exit). Short r.0) d.cancel_seen _ _ (λ _. h)
      (λ _.
        if-intro (λ (r : List String × Exit). Short r.0) (ltb 8000 (str_length more)) _ _ (λ _. h)
          (λ short.
            let k : Short (saved ++ more ∷ []) =
              All-append (λ s. str_length s ≤ 8000) saved (more ∷ []) h
                (ground (arith, short), tt) in
            after_save-Short d.saving d.sending saved (saved ++ more ∷ []) _ h k
              (stream_text-bounded ending ds more (add_usage u d.usage) (saved ++ more ∷ []) k)))
