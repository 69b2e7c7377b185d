-- ===== src/Tests/Histories.antt =====
-- Compaction of a history, at a concrete input.
use tsuz_api_jcc.Base.{
  ◌-◌, ◌≤◌, ◌<◌, ◌<>◌, List, [], ◌∷◌, take, drop, length, ◌≡◌, refl, arith, ◌⊎◌,
}
use tsuz_api_jcc.Jcc.Json.{is_space}
use tsuz_api_jcc.Auth.{words}
use tsuz_api_jcc.Agent.Summary.{
  SummaryMessage, compact_history, total_chars, one_line, join, prefix,
}
use tsuz_api_jcc.Agent.Summary.Text.{sizes}
use tsuz_api_jcc.Agent.Summary.Bounds.{
  lines, Compacted, compact_history-Compacted, compact_history-lines,
}

abbrev history : List SummaryMessage
history =
    record { role = "user"; content = "which  heroes" }
    ∷ record { role = "assistant"; content = " " }
    ∷ record { role = "user"; content = "and items" }
    ∷ []

compact_history-Compacted_example :
    (((total_chars history ≤ 9) ⊎ (length history ≤ 1))
      × (compact_history 9 1 40 history ≡ history))
    ⊎ ((9 < total_chars history)
        × (1 < length history)
        × Compacted 1 40 history (compact_history 9 1 40 history))
compact_history-Compacted_example = compact_history-Compacted 9 1 40 history

many : 9 < total_chars history
unfolding total_chars
many = omega arith

older_lines : lines (take (length history - 1) history) ≡ "user: which heroes" ∷ []
unfolding one_line join words is_space
older_lines = refl

fits : sizes ("user: which heroes" ∷ []) ≤ 40
unfolding sizes
fits = omega arith

compact_history-lines_example :
    compact_history 9 1 40 history
    ≡ record { role = "system"; content = prefix <> join "\n" ("user: which heroes" ∷ []) }
      ∷ drop (length history - 1) history
compact_history-lines_example =
    compact_history-lines 9 1 40 history "user: which heroes" [] many (omega arith) older_lines fits
