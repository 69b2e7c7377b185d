-- ===== src/Agent/Summary/Bounds.antt =====
-- app/agent/summary.py: what the compacted history keeps, and its size.
use mathlib.Core.Path.{subst}
use tsuz_api_jcc.Base.{
  ℕ, ◌+◌, ◌-◌, ◌≤◌, ◌<◌, String, ◌<>◌, true, false, not, List, [], ◌∷◌, ◌++◌, map, keep, All, take,
  drop, length, leb, ltb, ◌≡◌, refl, ap, ◌∙◌, sym, arith, ◌⊎◌, inl, inr, Bool-cases,
}
use tsuz_api_jcc.Jcc.Json.{strip_right, is_empty}
use tsuz_api_jcc.Base.Text.{str_length, str_length-append}
use tsuz_api_jcc.Agent.Summary.{
  SummaryMessage, str_take, join, total_chars, one_line, fragment, shortened, facts, prefix,
  with_summary, compact_history,
}
use tsuz_api_jcc.Agent.Summary.Text.{
  str_length-str_take, str_length-strip_right, sizes, str_length-join_lines, str_take_all,
}

-- A shortened text is longer than its budget by at most the ellipsis.
shortened_le : (n : ℕ) (s : String) → str_length (shortened n s) ≤ n + 1
unfolding shortened
shortened_le n s = elim (Bool-cases (ltb n (str_length s))) [
  | inl long ↦ rw long (
      omega (
        arith,
        str_length-append (strip_right (str_take n s)) "…",
        str_length-strip_right (str_take n s),
        str_length-str_take n s,
      ))
  | inr short ↦ rw short (ground (arith, short))
]

abbrev taken : ℕ → SummaryMessage → String
taken n m = shortened n (fragment m)

module _ (n : ℕ) (m : SummaryMessage) (ms : List SummaryMessage) where
  facts_blank : is_empty (one_line m) ≡ true → facts n (m ∷ ms) ≡ facts n ms
  unfolding facts
  facts_blank h = rw (h, facts) refl

  facts_last :
      is_empty (one_line m) ≡ false
      → leb n (str_length (taken n m) + 1) ≡ true
      → facts n (m ∷ ms) ≡ taken n m ∷ []
  unfolding facts
  facts_last h k = rw (h, k, facts) refl

  facts_more :
      is_empty (one_line m) ≡ false
      → leb n (str_length (taken n m) + 1) ≡ false
      → facts n (m ∷ ms) ≡ taken n m ∷ facts (n - (str_length (taken n m) + 1)) ms
  unfolding facts
  facts_more h k = rw (h, k, facts) refl

sizes_filled :
    (n : ℕ) (m : SummaryMessage) (ms : List SummaryMessage)
    → is_empty (one_line m) ≡ false
    → sizes (facts (n - (str_length (taken n m) + 1)) ms) ≤ n - (str_length (taken n m) + 1) + 2
    → sizes (facts n (m ∷ ms)) ≤ n + 2
unfolding sizes
sizes_filled n m ms filled ih = elim (Bool-cases (leb n (str_length (taken n m) + 1))) [
  | inl full ↦ rw (facts_last n m ms filled full) (ground (arith, shortened_le n (fragment m)))
  | inr room ↦ rw (facts_more n m ms filled room) (ground (arith, room, ih))
]

sizes-facts : (n : ℕ) (ms : List SummaryMessage) → sizes (facts n ms) ≤ n + 2
unfolding facts sizes
sizes-facts n [] = omega arith
sizes-facts n (m ∷ ms) = elim (Bool-cases (is_empty (one_line m))) [
  | inl blank ↦ rw (facts_blank n m ms blank) (sizes-facts n ms)
  | inr filled ↦ sizes_filled n m ms filled (sizes-facts (n - (str_length (taken n m) + 1)) ms)
]

-- What stands for each older message whose content is not blank.
abbrev pub lines : List SummaryMessage → List String
lines ms = map fragment (keep (λ m. not (is_empty (one_line m))) ms)

lines_blank :
    (m : SummaryMessage) (ms : List SummaryMessage)
    → is_empty (one_line m) ≡ true
    → lines (m ∷ ms) ≡ lines ms
lines_blank m ms h = rw h refl

lines_filled :
    (m : SummaryMessage) (ms : List SummaryMessage)
    → is_empty (one_line m) ≡ false
    → lines (m ∷ ms) ≡ fragment m ∷ lines ms
lines_filled m ms h = rw h refl

sizes_cons : (f : String) (fs : List String) → sizes (f ∷ fs) ≡ str_length f + 1 + sizes fs
unfolding sizes
sizes_cons f fs = refl

sizes_nil : (fs : List String) → sizes fs ≤ 0 → fs ≡ []
unfolding sizes
sizes_nil [] h = refl
sizes_nil (f ∷ fs) h = absurd (omega arith)

shortened_fit : (n : ℕ) (s : String) → str_length s ≤ n → shortened n s ≡ s
unfolding shortened
shortened_fit n s h = ground arith

-- The fit of one more line.
facts_fit_filled :
    (n k : ℕ) (m : SummaryMessage) (ms : List SummaryMessage)
    → is_empty (one_line m) ≡ false
    → k ≡ str_length (fragment m) + 1
    → k + sizes (lines ms) ≤ n
    → (sizes (lines ms) ≤ n - k → facts (n - k) ms ≡ lines ms)
    → facts n (m ∷ ms) ≡ fragment m ∷ lines ms
facts_fit_filled n k m ms filled e h ih =
    let same = shortened_fit n (fragment m) (omega (arith, e, h)) in
    elim (Bool-cases (leb n (str_length (taken n m) + 1))) [
      | inl full ↦
          facts_last n m ms filled full
          ∙ ap (λ t. t ∷ []) same
          ∙ ap (◌∷◌ (fragment m))
              (sym (sizes_nil (lines ms) (ground (arith, full, ap str_length same, e, h))))
      | inr room ↦
          facts_more n m ms filled room
          ∙ ap (λ t. t ∷ facts (n - (str_length t + 1)) ms) same
          ∙ ap (◌∷◌ (fragment m)) (ap (λ j. facts (n - j) ms) (sym e) ∙ ih (omega (arith, h)))
    ]

facts_fit : (n : ℕ) (ms : List SummaryMessage) → sizes (lines ms) ≤ n → facts n ms ≡ lines ms
unfolding facts
facts_fit n [] h = refl
facts_fit n (m ∷ ms) h = elim (Bool-cases (is_empty (one_line m))) [
  | inl blank ↦
      facts_blank n m ms blank
      ∙ facts_fit n ms (rw⁻¹ (lines_blank m ms blank) h)
      ∙ sym (lines_blank m ms blank)
  | inr filled ↦
      facts_fit_filled n (str_length (fragment m) + 1) m ms filled refl
        (omega (arith, h, ap sizes (lines_filled m ms filled), sizes_cons (fragment m) (lines ms)))
        (facts_fit (n - (str_length (fragment m) + 1)) ms)
      ∙ sym (lines_filled m ms filled)
]

-- The joined facts, before the last cut, are longer than the bound by at most one character.
joined_le : (n : ℕ) (ms : List SummaryMessage) → str_length (join "\n" (facts n ms)) ≤ n + 1
joined_le n ms = omega (arith, str_length-join_lines (facts n ms), sizes-facts n ms)

-- A history that is compacted: at most one summary of bounded length, then the last messages.
unfoldable pub Compacted : ℕ → ℕ → List SummaryMessage → List SummaryMessage → Type 0
Compacted keep_recent max_summary_chars messages result =
    (summary : List SummaryMessage) × (result
      ≡ summary ++ drop (length messages - keep_recent) messages)
    × (length summary ≤ 1)
    × All (λ m. str_length m.content ≤ max_summary_chars + str_length prefix) summary

with_summary-Compacted :
    (keep_recent n : ℕ) (messages : List SummaryMessage) (fs : List String)
    → Compacted keep_recent n messages
        (with_summary n fs (drop (length messages - keep_recent) messages))
unfolding Compacted
with_summary-Compacted keep_recent n messages [] = ([], refl, omega arith, tt)
with_summary-Compacted keep_recent n messages (f ∷ fs) =
    (_ ∷ [], refl, omega arith, (str_length-str_take _ (prefix <> join "\n" (f ∷ fs)), tt))

-- A history within either limit is left as it is; any other keeps exactly its last messages, behind at most one
-- summary message whose text is within the bound and the heading.
pub compact_history-Compacted :
    (trigger_chars keep_recent max_summary_chars : ℕ) (messages : List SummaryMessage)
    → (((total_chars messages ≤ trigger_chars) ⊎ (length messages ≤ keep_recent))
        × (compact_history trigger_chars keep_recent max_summary_chars messages ≡ messages))
      ⊎ ((trigger_chars < total_chars messages)
          × (keep_recent < length messages)
          × Compacted keep_recent max_summary_chars messages
              (compact_history trigger_chars keep_recent max_summary_chars messages))
unfolding compact_history
compact_history-Compacted t k n messages = elim (Bool-cases (leb (total_chars messages) t)) [
  | inl few ↦ inl (inl (ground arith), rw few refl)
  | inr many ↦ elim (Bool-cases (leb (length messages) k)) [
    | inl short ↦ inl (inr (ground arith), rw (many, short) refl)
    | inr long ↦ inr (
      ground arith,
      ground arith,
      rw (many, long)
          (with_summary-Compacted k n messages (facts n (take (length messages - k) messages))),
    )
  ]
]

over :
    (t k n : ℕ) (messages : List SummaryMessage)
    → t < total_chars messages
    → k < length messages
    → compact_history t k n messages
      ≡ with_summary n
          (facts n (take (length messages - k) messages))
          (drop (length messages - k) messages)
unfolding compact_history
over t k n messages many long = ground arith

-- Beyond both limits, if the lines of the older messages fit into the bound and there is one, the summary
-- holds each of them whole and in order, and the last messages follow.
pub compact_history-lines :
    (trigger_chars keep_recent max_summary_chars : ℕ) (messages : List SummaryMessage) (f : String)
    (fs : List String)
    → trigger_chars < total_chars messages
    → keep_recent < length messages
    → lines (take (length messages - keep_recent) messages) ≡ f ∷ fs
    → sizes (f ∷ fs) ≤ max_summary_chars
    → compact_history trigger_chars keep_recent max_summary_chars messages
      ≡ record { role = "system"; content = prefix <> join "\n" (f ∷ fs) }
        ∷ drop (length messages - keep_recent) messages
compact_history-lines t k n messages f fs many long h fits =
    let older = take (length messages - k) messages in
    let kept = facts_fit n older (subst (λ l. sizes l ≤ n) (sym h) fits) ∙ h in
    over t k n messages many long
    ∙ ap (λ l. with_summary n l (drop (length messages - k) messages)) kept
    ∙ ap (λ text. record { role = "system"; content = text } ∷ drop (length messages - k) messages)
        (str_take_all (n + str_length prefix) (prefix <> join "\n" (f ∷ fs)) (
          omega (
            arith,
            fits,
            str_length-append prefix (join "\n" (f ∷ fs)),
            str_length-join_lines (f ∷ fs),
          )))
