-- ===== src/Agent/Events/Replay.antt =====
-- app/agent/runtime.py: what `replay` gives to a client that reconnects.
use tsuz_api_jcc.Base.{ℕ, suc, ◌-◌, String, true, List, [], ◌∷◌, drop, length, ◌≡◌}
use tsuz_api_jcc.Base.Int.{pos}
use tsuz_api_jcc.Base.Members.{Has}
use tsuz_api_jcc.Base.Query.{IsOrdered}
use tsuz_api_jcc.Jcc.Json.{Builtins}
use tsuz_api_jcc.Agent.Events.{
  AgentEvent, ConversationRuntime, numbered_event, RunEvent, by_sequence, is_behind, or_empty,
}

-- The events with the numbers that follow a number.
abbrev pub numbered : ℕ → List AgentEvent → List AgentEvent
numbered n [] = []
numbered n (e ∷ es) = numbered_event (suc n) e ∷ numbered (suc n) es

-- What a conversation keeps once it has published `es`: their number, and the last hundred of them.
Keeps : List AgentEvent → ConversationRuntime → Type 0
Keeps es s =
    (s.event_sequence ≡ length es) × (s.event_history ≡ drop (length es - 100) (numbered 0 es))

-- The stored events of a run behind a cursor, in their order.
abbrev pub IsStored : String → ℕ → List RunEvent → List RunEvent → Type 0
IsStored run_id k rows found =
    IsOrdered by_sequence found
    × ((r : RunEvent) → Has found r → Has rows r × (is_behind run_id (pos k) r ≡ true))
    × ((r : RunEvent) → Has rows r → is_behind run_id (pos k) r ≡ true → Has found r)

-- The run whose events are replayed.
abbrev pub run_of : Builtins → ConversationRuntime → String
run_of py s = or_empty py s.current_run_id s.replay_run_id
