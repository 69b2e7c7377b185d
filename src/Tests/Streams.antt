-- ===== src/Tests/Streams.antt =====
-- The events of a conversation and its queue, at concrete inputs.
use tsuz_api_jcc.Base.{
  String, true, false, none, some, List, [], ◌∷◌, ◌++◌, length, any, ◌==◌, nat_eq, ◌≡◌, refl, arith,
  string_eq,
}
use tsuz_api_jcc.Base.Dict
use tsuz_api_jcc.Base.Int.{pos}
use tsuz_api_jcc.Jcc.Json.{Builtins}
use tsuz_api_jcc.Agent.Events.{
  AgentEvent, Subscriber, ConversationRuntime, new_runtime, publish_all, RunEvent,
}
use tsuz_api_jcc.Agent.Runtime.{ConversationRuntimeManager, enqueue, subscribe, unsubscribe}
use tsuz_api_jcc.Agent.Runtime.Latest.{IsLatest, enqueue-IsLatest}
use tsuz_api_jcc.Agent.Runtime.Subscribers.{
  receives, publish_all-receives, unsubscribe-subscribe, no_zero, NoZero, counts-NoZero,
}
use tsuz_api_jcc.Tests.Messages.{sent}

abbrev pub plain : Builtins
plain = record { printable = λ _. true; other_digit = λ _. none; repr = λ _. "" }

abbrev told : String → AgentEvent
told name = record { name = name; event_data = []; event_id = none }

abbrev story : List AgentEvent
story = told "message.queued" ∷ told "message.started" ∷ told "message.completed" ∷ []

-- A conversation whose run "r" is followed, with the last of its events stored.
abbrev followed : ConversationRuntime
followed = record new_runtime { replay_run_id = some "r" }

abbrev stored : List RunEvent
stored =
    record {
      id = "e";
      run_id = "r";
      conversation_id = "c";
      message_id = "m";
      sequence = pos 3;
      event_name = "message.completed";
      payload = [];
    }
    ∷ []

abbrev listener : Subscriber
listener = record { ident = 3; waiting = told "heartbeat" ∷ [] }

abbrev heard : ConversationRuntime
heard = record new_runtime { subscribers = listener ∷ []; subscriber_users = ("u", 1) ∷ [] }

publish_all-receives_example :
    (before : List Subscriber) × (after : List Subscriber) × ((publish_all story heard).subscribers
      ≡ before ++ receives 0 story listener ∷ after)
    × (length before ≡ length {A = Subscriber} [])
publish_all-receives_example = publish_all-receives story heard listener [] [] refl (omega arith)

heard_fresh : any (λ (q : Subscriber). q.ident == 4) heard.subscribers ≡ false
unfolding nat_eq
heard_fresh = refl

counted : no_zero (Dict.lookup "u" heard.subscriber_users) ≡ true
unfolding string_eq Dict.lookup
counted = refl

unsubscribe-subscribe_example :
    ((unsubscribe 4 "u" (subscribe 4 "u" heard)).subscribers ≡ heard.subscribers)
    × ((j : String)
        → Dict.lookup j (unsubscribe 4 "u" (subscribe 4 "u" heard)).subscriber_users
          ≡ Dict.lookup j heard.subscriber_users)
unsubscribe-subscribe_example = unsubscribe-subscribe 4 "u" heard heard_fresh counted

heard-NoZero : NoZero heard
unfolding NoZero Dict.lookup
heard-NoZero j = ground arith

counts-NoZero_example : NoZero (subscribe 4 "u" heard) × NoZero (unsubscribe 4 "u" heard)
counts-NoZero_example = counts-NoZero 4 "u" heard heard-NoZero

abbrev manager : ConversationRuntimeManager
manager = record { queue_maxsize = 1; runtimes = ("c", heard) ∷ []; stopping = false }

enqueue-IsLatest_example : IsLatest "m" "r" "c" (enqueue (λ x. x) "m" "r" "c" manager sent)
enqueue-IsLatest_example = enqueue-IsLatest (λ x. x) "m" "r" "c" manager sent refl
