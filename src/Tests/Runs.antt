-- ===== src/Tests/Runs.antt =====
-- Runs of the agent, at concrete inputs.
use tsuz_api_jcc.Base.{
  true, false, none, some, List, [], ◌∷◌, ◌++◌, ◌==◌, length, is_none, ◌≡◌, refl, if◌then◌else◌,
  string_eq, nat_eq, option_eq,
}
use tsuz_api_jcc.Base.Result.{ok, err}
use tsuz_api_jcc.Conversations.Rows.{
  gamble, Role, RunStatus, MessageStatus, Message, Run, Db, message_allowed, run_status_eq,
  message_status_eq,
}
use tsuz_api_jcc.Conversations.Repository.{
  Outcome, run_by_id, message_by_id, conversation_by_id, update_run_status, update_message_status,
  patch_run, patch_message, new_run, insert_message, create_assistant_message, or_blank,
}
use tsuz_api_jcc.Agent.Lifecycle.{
  LlmUsage, Pricing, Clock, cancel, mark_running, save_streaming, complete, complete_rows, finished,
  requeue_run, finish,
}
use tsuz_api_jcc.Agent.Follows.{Follows}
use tsuz_api_jcc.Agent.Steps.{
  Step, Reach, Life, Life-final_run, Life-final_message, is_ending, Reach-is_ending,
}
use tsuz_api_jcc.Agent.Once.{DistinctIds, Reach-start_once, complete-runs_and_messages}
use tsuz_api_jcc.Tests.Messages.{chat, first, sent}

abbrev waiting_run : Run
waiting_run = new_run "r" 6 first "p" "m1"

abbrev waiting : Db
waiting = record sent { runs = waiting_run ∷ [] }

abbrev failed_run : Run
failed_run = record waiting_run { status = RunStatus.failed }

abbrev failed_message : Message
failed_message = record first { status = MessageStatus.failed }

abbrev failed : Db
failed = record sent { messages = failed_message ∷ []; runs = failed_run ∷ [] }

abbrev stopping_run : Run
stopping_run = record waiting_run { status = RunStatus.cancelling }

abbrev stopping : Db
stopping = record sent { runs = stopping_run ∷ [] }

abbrev free : Pricing
free = record { input_price = none; output_price = none; pricing_key = none }

abbrev unknown : LlmUsage
unknown = record { input_tokens = none; output_tokens = none }

abbrev clock : Clock
clock = record { now = 9; created = 9; started = 9; completed = 9 }

abbrev answered : Outcome Db
answered = complete "a" clock "c" "m" "r" "answer" gamble 7 free unknown failed

abbrev from_ok : Outcome Db → Db
from_ok (ok t) = t
from_ok (err _) = failed

started : (mark_running 7 "m" "r" waiting).1 ≡ true
unfolding mark_running update_run_status update_message_status string_eq
started = refl

failed-run : run_by_id "r" failed ≡ some failed_run
unfolding string_eq
failed-run = refl

failed-message : message_by_id "m" failed ≡ some failed_message
unfolding string_eq
failed-message = refl

failed-conversation : conversation_by_id "c" failed ≡ some (record chat { updated_at = 5 })
unfolding string_eq
failed-conversation = refl

failed-has_message : is_none (message_by_id "m" failed) ≡ false
unfolding string_eq
failed-has_message = refl

stopping-run : run_by_id "r" stopping ≡ some stopping_run
unfolding string_eq
stopping-run = refl

answer : answered ≡ ok (from_ok answered)
unfolding complete complete_rows update_run_status update_message_status create_assistant_message
    insert_message message_allowed string_eq nat_eq option_eq
answer = refl

still_one : DistinctIds (save_streaming "m" "r" "text" (mark_running 7 "m" "r" waiting).0).runs
unfolding save_streaming mark_running update_run_status update_message_status string_eq patch_run
    patch_message
still_one = (refl, tt)

Life-final_run_example :
    run_by_id "r" (requeue_run "r" "m" (mark_running 7 "m" "r" failed).0) ≡ some failed_run
Life-final_run_example =
    Life-final_run "r" failed_run
      (Life.restart "r" "m" (Life.next Life.here (Step.start 7 "m" "r" refl))) failed-run refl

Life-final_message_example :
    message_by_id "m" (requeue_run "r" "m" (mark_running 7 "m" "r" failed).0) ≡ some failed_message
Life-final_message_example =
    Life-final_message "m" failed_message
      (Life.restart "r" "m" (Life.next Life.here (Step.start 7 "m" "r" refl))) failed-message refl

Reach-is_ending_example :
    (r : Run) × (run_by_id "r" (finish cancel "cancelled" 7 9 "m" "r" "" free unknown stopping)
      ≡ some r)
    × (is_ending r.status ≡ true)
Reach-is_ending_example =
    Reach-is_ending "r" stopping_run
      (Reach.next Reach.here (Step.finish cancel "cancelled" 7 9 "m" "r" "" free unknown refl))
      stopping-run refl

Reach-start_once_example :
    (mark_running 8 "m" "r" (save_streaming "m" "r" "text" (mark_running 7 "m" "r" waiting).0)).1
    ≡ false
Reach-start_once_example =
    Reach-start_once 7 8 "m" "m" "r" waiting (refl, tt) started
      (Reach.next Reach.here (Step.stream "m" "r" "text" refl)) still_one

complete-runs_and_messages_example :
    (kept : List Message) × (new : Message) × ((from_ok answered).messages ≡ kept ++ new ∷ [])
    × (length kept ≡ 1)
    × (new.id ≡ "a")
    × (new.conversation_id ≡ "c")
    × (new.user_id ≡ chat.user_id)
    × (new.role ≡ Role.assistant)
    × (new.content ≡ or_blank "answer")
    × (new.status ≡ MessageStatus.completed)
    × (new.strategy_mode ≡ gamble)
    × (run_by_id "r" (from_ok answered)
        ≡ some (
            if failed_run.status == RunStatus.running
            then patch_run (finished RunStatus.completed 7 9 "answer" free unknown) failed_run
            else failed_run))
complete-runs_and_messages_example =
    complete-runs_and_messages "a" clock "c" "m" "r" "answer" gamble 7 free unknown failed
      (from_ok answered) (record chat { updated_at = 5 }) failed_run answer failed-conversation
      failed-has_message failed-run
