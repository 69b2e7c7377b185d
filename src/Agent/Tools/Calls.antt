-- ===== src/Agent/Tools/Calls.antt =====
-- app/agent/orchestrator.py: the audits when one tool call has ended, with the closing of an audit on each way out.
use mathlib.Core.Path.{subst}
use tsuz_api_jcc.Base.{
  ℕ, String, Bool, true, false, not, Option, none, some, List, [], ◌∷◌, ◌++◌, All, ltb, string_eq,
  if-intro, ◌≡◌, ◌⊎◌, refl, sym, arith, ==_refl, Bool-cases, inl, inr,
}
use tsuz_api_jcc.Jcc.Json.{Json, Object, is_empty}
use tsuz_api_jcc.Conversations.Repository.{update_where}
use tsuz_api_jcc.Agent.Runtime.{event}
use tsuz_api_jcc.Agent.Events.{AgentEvent}
use tsuz_api_jcc.Agent.Tools.{
  Exit, agent_cancelled, succeeded, failed, rejected, timeout, cancelled, ToolAudit, ToolStatus,
  is_open, is_open_call, with_result, new_audit, is_taken, update_tool_call, create_tool_audit,
  finish_tool_audit, close_audit, Progress, ToolCall, Await, passes, stops, raises, awaited, sent,
  refuse, recover, interrupt, caught, failed_event, completed_event, tool_event, after_saving,
  after_creation, Execution, output, timed_out, interrupted, raised, run_call, execute_tool, emit,
  emit_sources, error_result, fields_of, merge, succeed,
}

-- No audit is left open.
abbrev pub AllClosed : List ToolAudit → Type 0
AllClosed = All (λ (a : ToolAudit). is_open a.status ≡ false)

update-AllClosed :
    (p : ToolAudit → Bool) (f : ToolAudit → ToolAudit) (audits : List ToolAudit)
    → ((a : ToolAudit) → is_open (f a).status ≡ false)
    → AllClosed audits
    → AllClosed (update_where p f audits)
update-AllClosed p f [] closes h = tt
update-AllClosed p f (a ∷ audits) closes (k, h) = (
  if-intro (λ (b : ToolAudit). is_open b.status ≡ false) (p a) (f a) a (λ _. closes a) (λ _. k),
  update-AllClosed p f audits closes h,
)

update-closes_new :
    (p : ToolAudit → Bool) (f : ToolAudit → ToolAudit) (audits : List ToolAudit) (a : ToolAudit)
    → ((a : ToolAudit) → is_open (f a).status ≡ false)
    → p a ≡ true
    → AllClosed audits
    → AllClosed (update_where p f (audits ++ a ∷ []))
update-closes_new p f [] a closes t h = (
  if-intro (λ (b : ToolAudit). is_open b.status ≡ false) (p a) (f a) a (λ _. closes a)
      (λ e. absurd (ground (arith, t, e))),
  tt,
)
update-closes_new p f (b ∷ audits) a closes t (k, h) = (
  if-intro (λ (b : ToolAudit). is_open b.status ≡ false) (p b) (f b) b (λ _. closes b) (λ _. k),
  update-closes_new p f audits a closes t h,
)

-- What an ending does to the audits: a terminal status.
finish_closed :
    (c : ToolCall) (status : ToolStatus) (result : Json) (error_code : Option String)
    (audits : List ToolAudit)
    → is_open status ≡ false
    → AllClosed audits
    → AllClosed (finish_tool_audit c status result error_code audits)
unfolding finish_tool_audit update_tool_call
finish_closed c status result error_code audits t h =
    if-intro AllClosed (is_empty c.audit_id) _ _ (λ _. h)
      (λ _.
        update-AllClosed (is_open_call c.audit_id)
          (with_result status (some result) error_code c.now) audits (λ a. t) h)

finish_created :
    (c : ToolCall) (status : ToolStatus) (result : Json) (error_code : Option String)
    (audits : List ToolAudit)
    → is_open status ≡ false
    → AllClosed audits
    → AllClosed (finish_tool_audit c status result error_code (create_tool_audit c audits))
unfolding finish_tool_audit create_tool_audit update_tool_call
finish_created c status result error_code audits t h = elim (Bool-cases (is_empty c.audit_id)) [
  | inl gone ↦ rw gone h
  | inr there ↦ rw there (
      update-closes_new (is_open_call c.audit_id)
        (with_result status (some result) error_code c.now) audits (new_audit c) (λ a. t)
        (ground (arith, ==_refl c.audit_id)) h)
]

-- The exits that may leave an audit open.
abbrev pub raising : Exit → Bool
raising agent_cancelled = true
raising Exit.task_cancelled = true
raising Exit.failed_otherwise = true
raising _ = false

abbrev pub raised_by : Option Exit → Bool
raised_by none = false
raised_by (some e) = raising e

-- The loop was left by the cancellation of the run or of the task, or by an exception that is no `LLMError`.
abbrev pub IsRaised : Exit → Type 0
IsRaised e = (e ≡ agent_cancelled) ⊎ ((e ≡ Exit.task_cancelled) ⊎ (e ≡ Exit.failed_otherwise))

pub raising-IsRaised : (e : Exit) → raising e ≡ true → IsRaised e
raising-IsRaised (Exit.returned u) h = cc
raising-IsRaised agent_cancelled h = inl refl
raising-IsRaised Exit.task_cancelled h = inr (inl refl)
raising-IsRaised Exit.failed_otherwise h = inr (inr refl)
raising-IsRaised Exit.fell_through h = cc
raising-IsRaised (Exit.llm_error code) h = cc

-- The audits end with one that was just made, and no other is open.
abbrev pub LastOpen : List ToolAudit → Type 0
LastOpen audits =
    (c : ToolCall) × (before : List ToolAudit) × (audits ≡ create_tool_audit c before)
    × AllClosed before

-- No audit is open, or only the last, where an exception is raised.
unfoldable pub Left : Progress → Bool → Type 0
Left p b = AllClosed p.audits ⊎ ((b ≡ true) × LastOpen p.audits)

-- The same with the call whose audit may be open.
unfoldable Ends : ToolCall → List ToolAudit → Progress × Option Exit → Type 0
Ends c before r =
    AllClosed r.0.audits ⊎ ((raised_by r.1 ≡ true) × (r.0.audits ≡ create_tool_audit c before))

module _ (message_id run_id : String) (is_tool : String → Bool) (max_bytes : ℕ) where
  audits-emit_sources :
      (os : List Object) (p : Progress)
      → (emit_sources message_id run_id is_tool max_bytes os p).audits ≡ p.audits
  audits-emit_sources [] p = refl
  audits-emit_sources (o ∷ os) p =
      audits-emit_sources os (emit (event "source" message_id run_id o) p)

  module _ (c : ToolCall) (before : List ToolAudit) (h : AllClosed before) where
    -- The call's audit is closed, or open as it was made.
    Held : Progress → Type 0
    Held p = AllClosed p.audits ⊎ (p.audits ≡ create_tool_audit c before)

    closing-AllClosed :
        (status : ToolStatus) (result : Json) (error_code : Option String) (p : Progress)
        → is_open status ≡ false
        → Held p
        → AllClosed (finish_tool_audit c status result error_code p.audits)
    unfolding Held
    closing-AllClosed status result error_code p t (inl k) =
        finish_closed c status result error_code p.audits t k
    closing-AllClosed status result error_code p t (inr k) =
        subst (λ l. AllClosed (finish_tool_audit c status result error_code l)) (sym k)
          (finish_created c status result error_code before t h)

    Held-Ends : (p : Progress) (e : Exit) → raising e ≡ true → Held p → Ends c before (p, some e)
    unfolding Held Ends
    Held-Ends p e r (inl k) = inl k
    Held-Ends p e r (inr k) = inr (r, k)

    awaited-Ends :
        (a : Await) (after p : Progress) (next : Progress → Progress × Option Exit)
        → Held after
        → Held p
        → Ends c before (next after)
        → Ends c before (awaited a after p next)
    awaited-Ends passes after p next k l n = n
    awaited-Ends stops after p next k l n = Held-Ends after Exit.task_cancelled refl k
    awaited-Ends raises after p next k l n = Held-Ends p Exit.failed_otherwise refl l

    sent-Ends :
        (a : Await) (e : AgentEvent) (p : Progress) (next : Progress → Progress × Option Exit)
        → Held p
        → Ends c before (next (emit e p))
        → Ends c before (sent a e p next)
    sent-Ends passes e p next k n = n
    sent-Ends stops e p next k n = Held-Ends p Exit.task_cancelled refl k
    sent-Ends raises e p next k n = Held-Ends p Exit.failed_otherwise refl k

    refuse-Ends :
        (status : ToolStatus) (code : String) (p : Progress)
        → is_open status ≡ false
        → Held p
        → Ends c before (refuse message_id run_id is_tool max_bytes c status code p)
    unfolding Held Ends
    refuse-Ends status code p t k =
        let l = closing-AllClosed status (error_result code) (some code) p t k in
        let closed = close_audit c status (error_result code) (some code) p in
        awaited-Ends c.closing closed p _ (inl l) k (
          sent-Ends c.sending (failed_event message_id run_id is_tool max_bytes c code) closed _
            (inl l) (inl l))

    recover-Ends :
        (p : Progress) → Held p → Ends c before (recover message_id run_id is_tool max_bytes c p)
    unfolding Held Ends
    recover-Ends p k =
        let code : String = "tool_execution_failed" in
        let l = closing-AllClosed failed (error_result code) (some code) p refl k in
        let closed = close_audit c failed (error_result code) (some code) p in
        awaited-Ends c.reclosing closed p _ (inl l) k (
          sent-Ends c.resending (failed_event message_id run_id is_tool max_bytes c code) closed _
            (inl l) (inl l))

    interrupt-Ends :
        (p : Progress) → Held p → Ends c before (interrupt message_id run_id is_tool max_bytes c p)
    unfolding Held Ends
    interrupt-Ends p k =
        let l =
          closing-AllClosed cancelled (error_result "cancelled") (some "cancelled") p refl k in
        awaited-Ends c.reclosing
          (close_audit c cancelled (error_result "cancelled") (some "cancelled") p) p _ (inl l) k
          (inl l)

    Ends-Held : (r : Progress × Option Exit) → Ends c before r → Held r.0
    unfolding Held Ends
    Ends-Held r (inl k) = inl k
    Ends-Held r (inr (_, k)) = inr k

    caught-Ends :
        (r : Progress × Option Exit)
        → Ends c before r
        → Ends c before (caught message_id run_id is_tool max_bytes c r)
    caught-Ends (p, none) k = k
    caught-Ends (p, some Exit.task_cancelled) k =
        interrupt-Ends p (Ends-Held (p, some Exit.task_cancelled) k)
    caught-Ends (p, some (Exit.returned u)) k =
        recover-Ends p (Ends-Held (p, some (Exit.returned u)) k)
    caught-Ends (p, some agent_cancelled) k = recover-Ends p (Ends-Held (p, some agent_cancelled) k)
    caught-Ends (p, some Exit.failed_otherwise) k =
        recover-Ends p (Ends-Held (p, some Exit.failed_otherwise) k)
    caught-Ends (p, some Exit.fell_through) k =
        recover-Ends p (Ends-Held (p, some Exit.fell_through) k)
    caught-Ends (p, some (Exit.llm_error code)) k =
        recover-Ends p (Ends-Held (p, some (Exit.llm_error code)) k)

    after_saving-Ends :
        (sources : Option (List Object)) (p : Progress)
        → AllClosed p.audits
        → Ends c before (after_saving message_id run_id is_tool max_bytes c sources p)
    unfolding Held Ends
    after_saving-Ends none p k = inl k
    after_saving-Ends (some sources) p k =
        sent-Ends c.sending (completed_event message_id run_id is_tool max_bytes c) p _ (inl k) (
          inl (
            subst AllClosed
              (sym (
                audits-emit_sources sources
                  (emit (completed_event message_id run_id is_tool max_bytes c) p)))
              k))

    execute_tool-Ends :
        (e : Execution) (p : Progress)
        → Held p
        → Ends c before (execute_tool message_id run_id is_tool max_bytes c e p)
    unfolding execute_tool Held
    execute_tool-Ends (output out bytes saved) p k =
        let l =
          closing-AllClosed succeeded
            (Json.obj (fields_of (merge (("ok", Json.bool true) ∷ []) out))) none p refl k in
        caught-Ends _ (
          if-intro (Ends c before) (ltb max_bytes bytes) _ _
            (λ _. refuse-Ends failed "tool_output_limit" p refl k)
            (λ _.
              awaited-Ends c.closing (succeed message_id run_id is_tool max_bytes c out p) p _
                (inl l) k
                (after_saving-Ends saved (succeed message_id run_id is_tool max_bytes c out p) l)))
    execute_tool-Ends timed_out p k = refuse-Ends timeout "tool_timeout" p refl k
    execute_tool-Ends interrupted p k = interrupt-Ends p k
    execute_tool-Ends raised p k = recover-Ends p k

    after_creation-Ends :
        (p : Progress)
        → p.audits ≡ create_tool_audit c before
        → Ends c before (after_creation message_id run_id is_tool max_bytes c p)
    unfolding Held Ends
    after_creation-Ends p k =
        if-intro (Ends c before) c.cancel_seen _ _ (λ _. inr (refl, k))
          (λ _.
            if-intro (Ends c before) (not (is_tool c.name)) _ _
              (λ _. refuse-Ends rejected "tool_not_allowed" p refl (inr k))
              (λ _.
                sent-Ends c.starting
                  (tool_event message_id run_id is_tool max_bytes "tool.started" c []) p _ (inr k)
                  (if-intro (Ends c before) (not c.arguments_valid) _ _
                    (λ _.
                      refuse-Ends rejected "tool_invalid_arguments"
                        (emit (tool_event message_id run_id is_tool max_bytes "tool.started" c [])
                          p)
                        refl (inr k))
                    (λ _.
                      execute_tool-Ends c.execution
                        (emit (tool_event message_id run_id is_tool max_bytes "tool.started" c [])
                          p)
                        (inr k)))))

    Ends-Left : (r : Progress × Option Exit) → Ends c before r → Left r.0 (raised_by r.1)
    unfolding Ends Left
    Ends-Left r (inl k) = inl k
    Ends-Left r (inr (e, k)) = inr (e, (c, before, k, h))

  create-Ends :
      (c : ToolCall) (p : Progress)
      → AllClosed p.audits
      → (a : Await)
      → Ends c p.audits (
          awaited a
            (record p { audits = create_tool_audit c p.audits })
            p
            (after_creation message_id run_id is_tool max_bytes c))
  unfolding Ends
  create-Ends c p h passes =
      after_creation-Ends c p.audits h (record p { audits = create_tool_audit c p.audits }) refl
  create-Ends c p h stops = inr (refl, refl)
  create-Ends c p h raises = inl h

  pub run_call-Left :
      (c : ToolCall) (p : Progress)
      → AllClosed p.audits
      → let r = run_call message_id run_id is_tool max_bytes c p in Left r.0 (raised_by r.1)
  unfolding run_call Ends
  run_call-Left c p h = Ends-Left c p.audits h _ (
      if-intro (Ends c p.audits) (is_taken c p.audits) _ _ (λ _. inl h)
        (λ _. create-Ends c p h c.creation))
