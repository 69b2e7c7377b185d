-- ===== src/Tests/Tools.antt =====
-- The tool loop and the names of raw directories, at concrete inputs.
use tsuz_api_jcc.Base.{
  ℕ, ◌+◌, ◌≤◌, ◌<>◌, true, false, none, some, List, [], ◌∷◌, All, ◌≡◌, ◌≢◌, ◌⊎◌, arith, ◌==◌,
  string_eq,
}
use tsuz_api_jcc.Base.Result.{ok}
use tsuz_api_jcc.Base.Text.{str_length}
use tsuz_api_jcc.Jcc.Json.{Json, show_ℕ}
use tsuz_api_jcc.Jcc.Adapters.Data.{VersionSpec}
use tsuz_api_jcc.Jcc.Reader.Names.{
  directory_name, directory_revision, directory_revision-directory_name,
}
use tsuz_api_jcc.Agent.Lifecycle.{LlmUsage}
use tsuz_api_jcc.Agent.Tools.{
  Progress, ToolCall, Turn, response, raised, passes, fell_through, run_tool_loop, TextDelta,
  stream_text,
}
use tsuz_api_jcc.Agent.Tools.Bounds.{run_tool_loop-bounded, stream_text-bounded}
use tsuz_api_jcc.Agent.Tools.Audits.{run_tool_loop-audits}
use tsuz_api_jcc.Agent.Tools.Calls.{AllClosed, IsRaised, LastOpen}
use tsuz_api_jcc.Tests.Streams.{plain}

abbrev fresh : Progress
fresh = record { audits = []; events = []; generated = []; asked = 0 }

abbrev lookup_call : ℕ → ToolCall
lookup_call n = record {
  id = show_ℕ n;
  name = "search";
  audit_id = "a" <> show_ℕ n;
  now = 5;
  cancel_seen = false;
  arguments_valid = true;
  execution = raised;
  creation = passes;
  starting = passes;
  closing = passes;
  sending = passes;
  reclosing = passes;
  resending = passes;
}

-- A model that never stops calling the tool.
abbrev stubborn : ℕ → Turn
stubborn n = response (record {
  text = "let me look";
  tool_calls = lookup_call n ∷ [];
  saving = passes;
  sending = passes;
  usage = none;
})

run_tool_loop-bounded_example :
    ((run_tool_loop "m" "r" (λ name. name == "search") 100 stubborn 2 fresh).0.asked ≤ 0 + 3)
    × ((run_tool_loop "m" "r" (λ name. name == "search") 100 stubborn 2 fresh).1 ≢ fell_through)
run_tool_loop-bounded_example =
    run_tool_loop-bounded "m" "r" (λ name. name == "search") 100 stubborn 2 fresh

run_tool_loop-audits_example :
    AllClosed (run_tool_loop "m" "r" (λ name. name == "search") 100 stubborn 2 fresh).0.audits
    ⊎ (IsRaised (run_tool_loop "m" "r" (λ name. name == "search") 100 stubborn 2 fresh).1
        × LastOpen (run_tool_loop "m" "r" (λ name. name == "search") 100 stubborn 2 fresh).0.audits)
run_tool_loop-audits_example =
    run_tool_loop-audits "m" "r" (λ name. name == "search") 100 stubborn 2 fresh tt

abbrev no_usage : LlmUsage
no_usage = record { input_tokens = none; output_tokens = none }

abbrev pieces : List TextDelta
pieces =
    record {
      content = "four ";
      usage = none;
      cancel_seen = false;
      saving = passes;
      sending = passes;
    }
    ∷ record {
      content = "traits";
      usage = some no_usage;
      cancel_seen = false;
      saving = passes;
      sending = passes;
    }
    ∷ []

stream_text-bounded_example :
    All (λ s. str_length s ≤ 8000) (stream_text none pieces "" no_usage []).0
stream_text-bounded_example = stream_text-bounded none pieces "" no_usage [] tt

abbrev season : VersionSpec
season = record {
  version = "16.11";
  season = "S18";
  mode = "18";
  mode_name = "forces";
  version_start_time = Json.null;
  urls = [];
}

directory_revision-directory_name_example :
    directory_revision plain (directory_name season 12) season ≡ ok 12
directory_revision-directory_name_example =
    directory_revision-directory_name plain season 12 (omega arith)
