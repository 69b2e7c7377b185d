-- ===== src/Agent/Summary.antt =====
-- app/agent/summary.py: the local compaction of a conversation's history. Bounds are natural numbers.
pub mod Text
pub mod Bounds
use tsuz_api_jcc.Base.{
  ℕ, zero, suc, ◌+◌, ◌-◌, String, ◌<>◌, Bool, true, false, ◌||◌, List, [], ◌∷◌, ◌++◌, take, drop,
  length, leb, ltb, if◌then◌else◌,
}
use tsuz_api_jcc.Jcc.Json.{strip_right, is_empty}
use tsuz_api_jcc.Base.Text.{str_length}
use tsuz_api_jcc.Auth.{words}

pub record SummaryMessage : Type 0 where
  pub role : String
  pub content : String

-- `s[:n]`
unfoldable pub str_take : ℕ → String → String
str_take zero s = ""
str_take (suc n) String.[] = ""
str_take (suc n) (String.◌∷◌ c s) = String.◌∷◌ c (str_take n s)

-- `separator.join(texts)`
unfoldable pub join : String → List String → String
join separator [] = ""
join separator (s ∷ []) = s
join separator (s ∷ t ∷ rest) = s <> (separator <> join separator (t ∷ rest))

unfoldable pub total_chars : List SummaryMessage → ℕ
total_chars [] = 0
total_chars (m ∷ ms) = str_length m.content + total_chars ms

-- The content on one line, with single spaces.
unfoldable pub one_line : SummaryMessage → String
unfolding words join
one_line m = join " " (words m.content)

abbrev pub fragment : SummaryMessage → String
fragment m = m.role <> (": " <> one_line m)

unfoldable pub shortened : ℕ → String → String
unfolding strip_right str_take
shortened remaining s =
    if ltb remaining (str_length s) then strip_right (str_take remaining s) <> "…" else s

-- The loop over the older messages, with what is left of the budget.
unfoldable pub facts : ℕ → List SummaryMessage → List String
unfolding one_line shortened
facts remaining [] = []
facts remaining (m ∷ ms) =
    let f = shortened remaining (fragment m) in
    elim (is_empty (one_line m)) [
      | true ↦ facts remaining ms
      | false ↦ elim (leb remaining (str_length f + 1)) [
        | true ↦ f ∷ []
        | false ↦ f ∷ facts (remaining - (str_length f + 1)) ms
      ]
    ]

abbrev pub prefix : String
prefix = "Earlier conversation context:\n"

abbrev pub with_summary : ℕ → List String → List SummaryMessage → List SummaryMessage
with_summary max_summary_chars [] recent = recent
with_summary max_summary_chars (f ∷ fs) recent =
    let text = str_take (max_summary_chars + str_length prefix) (prefix <> join "\n" (f ∷ fs)) in
    record { role = "system"; content = text } ∷ recent

unfoldable pub compact_history : ℕ → ℕ → ℕ → List SummaryMessage → List SummaryMessage
unfolding facts total_chars str_take join
compact_history trigger_chars keep_recent max_summary_chars messages =
    let split = length messages - keep_recent in
    if leb (total_chars messages) trigger_chars || leb (length messages) keep_recent
    then messages
    else with_summary max_summary_chars (facts max_summary_chars (take split messages))
        (drop split messages)
