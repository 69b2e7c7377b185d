-- ===== src/Agent/Runtime.antt =====
-- app/agent/runtime.py: the manager of the conversations' queues. Each operation runs as one step between two
-- awaits; what other tasks do while `enqueue` awaits the cancelled execution is an argument.
pub mod Latest
pub mod Subscribers
use tsuz_api_jcc.Base.{
  ℕ, zero, suc, ◌-◌, String, Bool, true, false, ◌&&◌, ◌||◌, not, Option, none, some, List, [], ◌∷◌,
  ◌++◌, map, keep, length, leb, ◌==◌, string_eq, nat_eq, option_eq, if◌then◌else◌, is_none, is_some,
}
use tsuz_api_jcc.Base.Dict
use tsuz_api_jcc.Base.Dict.{Dict}
use tsuz_api_jcc.Base.Result.{Result, ok, err}
use tsuz_api_jcc.Jcc.Json.{Json, Object}
use tsuz_api_jcc.Conversations.Rows.{RunStatus, Run, Db, run_status_eq}
use tsuz_api_jcc.Conversations.Repository.{
  run_by_id, message_by_id, conversation_by_id, list_recoverable_runs,
}
use tsuz_api_jcc.Agent.Lifecycle.{cancel_queued, cancel_queued_message, mark_cancelled, requeue_run}
use tsuz_api_jcc.Agent.Events.{AgentEvent, ConversationRuntime, Subscriber, new_runtime, publish}

pub record ConversationRuntimeManager : Type 0 where
  pub queue_maxsize : ℕ
  pub runtimes : Dict String ConversationRuntime
  pub stopping : Bool

pub data RuntimeError : Type 0 where
  runtime_stopping queue_full : RuntimeError

-- `_runtime_for`: the conversation's runtime, or a new one.
abbrev pub or_new : Option ConversationRuntime → ConversationRuntime
or_new none = new_runtime
or_new (some s) = s

unfoldable pub runtime_for : String → ConversationRuntimeManager → ConversationRuntime
unfolding Dict.lookup
runtime_for conversation_id m = or_new (Dict.lookup conversation_id m.runtimes)

unfoldable pub set_runtime :
    String → ConversationRuntime → ConversationRuntimeManager → ConversationRuntimeManager
unfolding Dict.insert
set_runtime conversation_id s m = record m { runtimes = Dict.insert conversation_id s m.runtimes }

-- `_event`
unfoldable pub event : String → String → String → Object → AgentEvent
event name message_id run_id more = record {
  name = name;
  event_data = ("message_id", Json.str message_id) ∷ ("run_id", Json.str run_id) ∷ more;
  event_id = none;
}

abbrev pub cancelled_event : String → String → Object → AgentEvent
cancelled_event message_id run_id more =
    event "message.cancelled" message_id run_id (("status", Json.str "cancelled") ∷ more)

abbrev pub queued_event : String → String → AgentEvent
queued_event message_id run_id =
    event "message.queued" message_id run_id (("status", Json.str "queued") ∷ [])

-- `cancel_event.set()`, where there is one.
abbrev pub set_event : Option Bool → Option Bool
set_event none = none
set_event (some _) = some true

abbrev pub publish_superseded : List (String × String) → ConversationRuntime → ConversationRuntime
publish_superseded [] s = s
publish_superseded ((message_id, run_id) ∷ rest) s =
    publish_superseded rest
      (publish (cancelled_event message_id run_id (("reason", Json.str "superseded") ∷ [])) s)

-- `asyncio.Queue.put_nowait`; a queue without a size takes everything.
unfoldable pub put_nowait :
    ℕ → String × String → List (String × String) → Result RuntimeError (List (String × String))
put_nowait zero x xs = ok (xs ++ x ∷ [])
put_nowait (suc n) x xs = if leb (suc n) (length xs) then err queue_full else ok (xs ++ x ∷ [])

-- `while not queue.empty(): queue.get_nowait()`
abbrev pub drain : List (String × String) → List (String × String)
drain [] = []
drain (_ ∷ xs) = drain xs

abbrev pub published_queue :
    String
    → String
    → ConversationRuntime
    → Result RuntimeError (List (String × String))
    → Result RuntimeError ConversationRuntime
published_queue message_id run_id s (err e) = err e
published_queue message_id run_id s (ok q) =
    ok (publish (queued_event message_id run_id) (record s { queue = q }))

-- The part of `enqueue` behind the await: older messages are cancelled, the queue holds only the new one.
unfoldable pub supersede_queue :
    ℕ
    → String
    → String
    → String
    → ConversationRuntime
    → Db
    → Result RuntimeError ConversationRuntime × Db
unfolding put_nowait
supersede_queue maxsize message_id run_id conversation_id s db =
    let (superseded, db') = cancel_queued conversation_id message_id db in
    let s' = publish_superseded superseded s in
    (
      published_queue message_id run_id s'
          (put_nowait maxsize (message_id, run_id) (drain s'.queue)),
      db',
    )

abbrev pub with_runtime :
    String
    → ConversationRuntimeManager
    → Result RuntimeError ConversationRuntime × Db
    → Result RuntimeError ConversationRuntimeManager × Db
with_runtime conversation_id m (err e, db) = (err e, db)
with_runtime conversation_id m (ok s, db) = (ok (set_runtime conversation_id s m), db)

-- `enqueue`; `others` is what happens until the cancelled execution has ended, where one runs.
unfoldable pub enqueue :
    (ConversationRuntime × Db → ConversationRuntime × Db)
    → String
    → String
    → String
    → ConversationRuntimeManager
    → Db
    → Result RuntimeError ConversationRuntimeManager × Db
unfolding supersede_queue
enqueue others message_id run_id conversation_id m db =
    let found = runtime_for conversation_id m in
    let s = record found { cancel_event = set_event found.cancel_event } in
    let (s', db') = if is_some s.current_message_id then others (s, db) else (s, db) in
    if m.stopping
    then (err runtime_stopping, db)
    else with_runtime conversation_id m
        (supersede_queue m.queue_maxsize message_id run_id conversation_id s' db')

-- `cancel`
unfoldable pub cancel :
    ℕ → String → String → String → ConversationRuntimeManager → Db → ConversationRuntimeManager × Db
unfolding option_eq
cancel now conversation_id message_id run_id m db =
    let s = runtime_for conversation_id m in
    let stopped = record s { cancel_event = set_event s.cancel_event } in
    let (db', cancelled) = cancel_queued_message message_id run_id db in
    let told = λ (r : ConversationRuntime).
      set_runtime conversation_id (publish (cancelled_event message_id run_id []) r) m in
    if s.current_message_id == some message_id
    then (told stopped, mark_cancelled now message_id run_id db)
    else if cancelled
    then (told s, db')
    else (set_runtime conversation_id s m, db')

-- What the consumer takes: a message and a run to execute, or nothing to do.
pub data Taken : Type 0 where
  idle skipped : Taken
  started : String → String → Taken

abbrev pub is_queued : Option Run → Bool
unfolding run_status_eq
is_queued none = false
is_queued (some r) = r.status == RunStatus.queued

-- One round of `_consume` up to the start of the execution.
unfoldable pub consume : String → ConversationRuntime → Db → Taken × ConversationRuntime
consume conversation_id s db = elim s.queue [
  | [] ↦ (idle, s)
  | item ∷ rest ↦
      (let popped = record s { queue = rest } in
        if is_none (message_by_id item.0 db)
          || not (is_queued (run_by_id item.1 db))
          || is_none (conversation_by_id conversation_id db)
        then (skipped, popped)
        else (
          started item.0 item.1,
          record popped {
            cancel_event = some false;
            current_message_id = some item.0;
            current_run_id = some item.1;
          },
        ))
]

-- The end of the round, whatever the execution's outcome.
unfoldable pub finish_round : ConversationRuntime → ConversationRuntime
finish_round s = record s { current_message_id = none; current_run_id = none; cancel_event = none }

-- `_enqueue_existing`, for a run that `start` found.
abbrev pub is_interrupted : RunStatus → Bool
is_interrupted RunStatus.running = true
is_interrupted RunStatus.cancelling = true
is_interrupted _ = false

module _ (others : ConversationRuntime × Db → ConversationRuntime × Db) where
  unfoldable pub enqueue_existing :
      Run → ConversationRuntimeManager → Db → Result RuntimeError ConversationRuntimeManager × Db
  enqueue_existing r m db =
      let db' = if is_interrupted r.status then requeue_run r.id r.message_id db else db in
      enqueue others r.message_id r.id r.conversation_id m db'

  unfoldable pub enqueue_each :
      List Run
      → ConversationRuntimeManager
      → Db
      → Result RuntimeError ConversationRuntimeManager × Db
  enqueue_each [] m db = (ok m, db)
  enqueue_each (r ∷ rs) m db =
      let (result, db') = enqueue_existing r m db in
      elim result [ err e ↦ (err e, db') | ok m' ↦ enqueue_each rs m' db' ]

  -- `start`
  unfoldable pub start :
      ConversationRuntimeManager → Db → Result RuntimeError ConversationRuntimeManager × Db
  start m db = enqueue_each (list_recoverable_runs db) (record m { stopping = false }) db

-- `stop`; the cancelled tasks end by themselves.
unfoldable pub stop : ConversationRuntimeManager → ConversationRuntimeManager
stop m = record m { stopping = true; runtimes = [] }

abbrev pub count_of : Option ℕ → ℕ
count_of none = 0
count_of (some n) = n

-- `subscribe`, with the identity of the new queue.
unfoldable pub subscribe : ℕ → String → ConversationRuntime → ConversationRuntime
unfolding Dict.lookup Dict.insert
subscribe ident user_id s =
    let q : Subscriber = record { ident = ident; waiting = [] } in
    record s {
      subscribers = s.subscribers ++ q ∷ [];
      subscriber_users =
          Dict.insert user_id (suc (count_of (Dict.lookup user_id s.subscriber_users)))
            s.subscriber_users;
    }

abbrev pub remove_key : {V : Type 0} → String → Dict String V → Dict String V
remove_key k d = keep (λ (j, _). not (k == j)) d

abbrev pub less_one : String → Option ℕ → Dict String ℕ → Dict String ℕ
less_one user_id none d = d
less_one user_id (some n) d =
    if leb n 1 then remove_key user_id d else Dict.insert user_id (n - 1) d

-- `unsubscribe`
unfoldable pub unsubscribe : ℕ → String → ConversationRuntime → ConversationRuntime
unfolding nat_eq Dict.lookup Dict.insert
unsubscribe ident user_id s = record s {
  subscribers = keep (λ (q : Subscriber). not (q.ident == ident)) s.subscribers;
  subscriber_users = less_one user_id (Dict.lookup user_id s.subscriber_users) s.subscriber_users;
}
