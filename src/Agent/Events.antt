-- ===== src/Agent/Events.antt =====
-- app/agent/events.py, app/agent/runtime.py and the event rows of app/conversations/repository.py: what a
-- conversation publishes, keeps for those who reconnect, and delivers. A lock makes each publication atomic.
pub mod Replay
use tsuz_api_jcc.Base.{
  ℕ, zero, suc, ◌+◌, String, Bool, true, false, ◌&&◌, ◌||◌, not, Option, none, some, List, [], ◌∷◌,
  ◌++◌, map, any, keep, length, leb, ltb, ◌==◌, string_eq, nat_eq, if◌then◌else◌, is_none,
}
use tsuz_api_jcc.Base.Int.{ℤ, pos, negsuc}
use tsuz_api_jcc.Base.Dict
use tsuz_api_jcc.Base.Dict.{Dict}
use tsuz_api_jcc.Base.Query.{select, sort_by}
use tsuz_api_jcc.Base.Result.{Result, ok, err}
use tsuz_api_jcc.Jcc.Json.{Json, Items, Fields, Object, Builtins, show_ℕ, to_str}
use tsuz_api_jcc.Jcc.Scalars.{get}
use tsuz_api_jcc.Conversations.Rows.{Message, Run, Db}
use tsuz_api_jcc.Conversations.Repository.{run_by_id, message_by_id}
use tsuz_api_jcc.Jcc.Integer.{parse_int}

pub record AgentEvent : Type 0 where
  pub name : String
  pub event_data : Object
  pub event_id : Option String

-- A subscriber's queue, by an identity of its own.
pub record Subscriber : Type 0 where
  pub ident : ℕ
  pub waiting : List AgentEvent

pub record ConversationRuntime : Type 0 where
  pub queue : List (String × String)
  pub current_message_id : Option String
  pub current_run_id : Option String
  pub replay_run_id : Option String
  pub cancel_event : Option Bool
  pub subscribers : List Subscriber
  pub subscriber_users : Dict String ℕ
  pub event_history : List AgentEvent
  pub event_sequence : ℕ

abbrev pub new_runtime : ConversationRuntime
new_runtime = record {
  queue = [];
  current_message_id = none;
  current_run_id = none;
  replay_run_id = none;
  cancel_event = none;
  subscribers = [];
  subscriber_users = [];
  event_history = [];
  event_sequence = 0;
}

-- `while len(history) > 100: history.popleft()`
unfoldable pub trim : List AgentEvent → List AgentEvent
trim [] = []
trim (e ∷ es) = let rest = trim es in if ltb 100 (length (e ∷ es)) then rest else e ∷ es

-- `put_nowait` on a queue of at most 100 events; a full one drops the event.
unfoldable pub deliver : AgentEvent → Subscriber → Subscriber
deliver e q = if leb 100 (length q.waiting) then q else record q { waiting = q.waiting ++ e ∷ [] }

-- The event with its number in the conversation.
abbrev pub numbered_event : ℕ → AgentEvent → AgentEvent
numbered_event n e = record { name = e.name; event_data = e.event_data; event_id = some (show_ℕ n) }

-- `_publish`; the event is persisted by a task of its own.
unfoldable pub publish : AgentEvent → ConversationRuntime → ConversationRuntime
unfolding trim
publish e s =
    let emitted = numbered_event (suc s.event_sequence) e in
    record s {
      event_sequence = suc s.event_sequence;
      event_history = trim (s.event_history ++ emitted ∷ []);
      subscribers = map (deliver emitted) s.subscribers;
    }

unfoldable pub publish_all : List AgentEvent → ConversationRuntime → ConversationRuntime
publish_all [] s = s
publish_all (e ∷ es) s = publish_all es (publish e s)

-- `text or "0"`
abbrev pub or_zero : Option String → String
or_zero none = "0"
or_zero (some String.[]) = "0"
or_zero (some (String.◌∷◌ c s)) = String.◌∷◌ c s

unfoldable pub gt : ℤ → ℤ → Bool
gt (pos a) (pos b) = ltb b a
gt (pos a) (negsuc b) = true
gt (negsuc a) (pos b) = false
gt (negsuc a) (negsuc b) = ltb a b

-- app/agent/models.py, `AgentRunEvent`
pub record RunEvent : Type 0 where
  pub id : String
  pub run_id : String
  pub conversation_id : String
  pub message_id : String
  pub sequence : ℤ
  pub event_name : String
  pub payload : Object

-- `ORDER BY sequence`
abbrev pub by_sequence : RunEvent → RunEvent → Bool
by_sequence a b = not (gt a.sequence b.sequence)

-- The condition of the query.
abbrev pub is_behind : String → ℤ → RunEvent → Bool
is_behind run_id after r = r.run_id == run_id && gt r.sequence after

unfoldable pub list_run_events : String → ℤ → List RunEvent → List RunEvent
unfolding gt
list_run_events run_id after rows = select (is_behind run_id after) by_sequence rows

pub data EventError : Type 0 where
  integrity value_error : EventError

-- `coalesce(max(sequence), 0)` over a run.
abbrev last_of : String → List RunEvent → ℤ
last_of run_id [] = pos 0
last_of run_id (r ∷ rs) =
    let rest = last_of run_id rs in
    if r.run_id == run_id && gt r.sequence rest then r.sequence else rest

abbrev succ : ℤ → ℤ
succ (pos n) = pos (suc n)
succ (negsuc zero) = pos 0
succ (negsuc (suc n)) = negsuc n

-- `sequence or (...)`, for a sequence that is given.
abbrev sequence_or_next : ℤ → String → List RunEvent → ℤ
sequence_or_next (pos zero) run_id rows = succ (last_of run_id rows)
sequence_or_next (pos (suc n)) run_id rows = pos (suc n)
sequence_or_next (negsuc n) run_id rows = negsuc n

abbrev clashes : RunEvent → RunEvent → Bool
clashes a b =
    (a.id == b.id)
    || (a.run_id == b.run_id && not (gt a.sequence b.sequence) && not (gt b.sequence a.sequence))

unfoldable pub create_run_event :
    String → Run → Message → String → Object → ℤ → List RunEvent → Result EventError (List RunEvent)
unfolding gt
create_run_event new_id run message event_name payload sequence rows =
    let e : RunEvent = record {
      id = new_id;
      run_id = run.id;
      conversation_id = run.conversation_id;
      message_id = message.id;
      sequence = sequence_or_next sequence run.id rows;
      event_name = event_name;
      payload = payload;
    } in
    if any (clashes e) rows then err integrity else ok (rows ++ e ∷ [])

-- Python's truth of a value.
abbrev truthy : Json → Bool
truthy Json.null = false
truthy (Json.bool b) = b
truthy (Json.int (pos zero)) = false
truthy (Json.int _) = true
truthy (Json.float t) = not (t == "0.0" || t == "-0.0")
truthy (Json.str s) = not (s == "")
truthy (Json.arr Items.nil) = false
truthy (Json.arr _) = true
truthy (Json.obj Fields.end) = false
truthy (Json.obj _) = true

module _ (py : Builtins) where
  -- `str(data.get(key) or "")`
  abbrev text_at : String → Object → String
  text_at key d = let v = get key d in if truthy v then to_str py v else ""

  abbrev persist_found :
      String
      → AgentEvent
      → Option Run
      → Option Message
      → List RunEvent
      → Result EventError (List RunEvent)
  persist_found new_id e none _ rows = ok rows
  persist_found new_id e (some run) none rows = ok rows
  persist_found new_id e (some run) (some message) rows = elim (parse_int py (or_zero e.event_id)) [
    | none ↦ err value_error
    | some n ↦ create_run_event new_id run message e.name e.event_data n rows
  ]

  -- `_persist_event`, with a session factory; `sqlite` tells the dialect.
  unfoldable pub persist_event :
      Bool → String → AgentEvent → Db → List RunEvent → Result EventError (List RunEvent)
  persist_event sqlite new_id e db rows =
      if sqlite
      then ok rows
      else persist_found new_id e (run_by_id (text_at "run_id" e.event_data) db)
          (message_by_id (text_at "message_id" e.event_data) db) rows

  abbrev pub or_empty : Option String → Option String → String
  or_empty (some String.[]) none = ""
  or_empty (some String.[]) (some b) = b
  or_empty (some a) _ = a
  or_empty none none = ""
  or_empty none (some b) = b

  -- `str(sequence)`
  abbrev show_sequence : ℤ → String
  show_sequence i = to_str py (Json.int i)

  abbrev pub stored_event : RunEvent → AgentEvent
  stored_event r = record {
    name = r.event_name;
    event_data = r.payload;
    event_id = some (show_sequence r.sequence);
  }

  unfoldable pub load_events : ℤ → ConversationRuntime → List RunEvent → List AgentEvent
  load_events cursor s rows =
      map stored_event (list_run_events (or_empty s.current_run_id s.replay_run_id) cursor rows)

  -- `int(item.event_id or "0") > cursor`; an identifier that is no number raises.
  abbrev later : ℤ → List AgentEvent → Result EventError (List AgentEvent)
  later cursor [] = ok []
  later cursor (e ∷ es) = elim (parse_int py (or_zero e.event_id)) [
    | none ↦ err value_error
    | some n ↦ elim (later cursor es) [
      | err raised ↦ err raised
      | ok rest ↦ if gt n cursor then ok (e ∷ rest) else ok rest
    ]
  ]

  abbrev non_empty_or :
      List AgentEvent → Result EventError (List AgentEvent) → Result EventError (List AgentEvent)
  non_empty_or [] other = other
  non_empty_or (e ∷ es) other = ok (e ∷ es)

  -- `replay`, with the rows of the run's events.
  unfoldable pub replay :
      ConversationRuntime → Option String → List RunEvent → Result EventError (List AgentEvent)
  unfolding load_events gt
  replay s last_event_id rows = elim (parse_int py (or_zero last_event_id)) [
    | none ↦ err value_error
    | some cursor ↦ non_empty_or (load_events cursor s rows) (later cursor s.event_history)
  ]
