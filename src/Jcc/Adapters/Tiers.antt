-- ===== src/Jcc/Adapters/Tiers.antt =====
-- The tiers of a trait in app/jcc_data/adapters.py: `_split_aggregate_tier_descriptions` and
-- `_aggregate_trait_tiers`.
use Prim.Native.Char.{code}
use tsuz_api_jcc.Base.{
  ℕ, suc, ◌+◌, ◌*◌, ◌-◌, String, ◌<>◌, Bool, true, false, ◌&&◌, Option, none, some, List, [], ◌∷◌,
  map, length, leb, ◌==◌, string_eq, if◌then◌else◌,
}
use tsuz_api_jcc.Base.Int.{ℤ, pos}
use tsuz_api_jcc.Base.Result.{ok, err, ◌>>=◌, ◌>>◌, guard}
use tsuz_api_jcc.Jcc.Json.{Json, Object, Builtins, is_bar, strip, show_ℤ}
use tsuz_api_jcc.Jcc.Scalars.{
  Checked, aggregate_mismatch, descriptions_mismatch, max_level_mismatch, get, has_key,
  optional_string, integer, split_ints,
}
use tsuz_api_jcc.Jcc.Adapters.Data.{TraitTierData, int_eq, source_attributes_of}

-- `a == b` of lists of integers.
abbrev pub same_ints : List ℤ → List ℤ → Bool
same_ints [] [] = true
same_ints (a ∷ xs) (b ∷ ys) = a == b && same_ints xs ys
same_ints _ _ = false

-- `max_level is not None and max_level != n` does not hold.
abbrev pub level_count_ok : Option ℤ → ℕ → Bool
level_count_ok none n = true
level_count_ok (some i) n = i == pos n

abbrev is_digit : ℕ → Bool
is_digit c = leb 48 c && leb c 57

-- The rest of `\(([1-9][0-9]*)\)` behind its first digit: the number before the next `)`.
number_to_paren : ℕ → String → Option ℕ
number_to_paren acc String.[] = none
number_to_paren acc (String.◌∷◌ c s) =
    let more = number_to_paren (acc * 10 + (code c - 48)) s in
    if leb 41 (code c) && leb (code c) 41
    then some acc
    else if is_digit (code c)
    then more
    else none

-- The same behind its `(`.
mark_value : String → Option ℕ
unfolding number_to_paren
mark_value String.[] = none
mark_value (String.◌∷◌ c s) =
    if leb 49 (code c) && leb (code c) 57 then number_to_paren (code c - 48) s else none

-- The number at an opening parenthesis, if a match of the pattern starts there.
abbrev mark_at : ℕ → String → Option ℕ
mark_at c s = if leb 40 c && leb c 40 then mark_value s else none

-- The text before the first match, and each match's number with the text from its start to the
-- start of the next.
unfoldable pub segments : String → String × List (ℕ × String)
unfolding mark_value
segments String.[] = ("", [])
segments (String.◌∷◌ c s) =
    let (before, rest) = segments s in
    elim (mark_at (code c) s) [
      | none ↦ (String.◌∷◌ c before, rest)
      | some n ↦ ("", (n, String.◌∷◌ c before) ∷ rest)
    ]

unfoldable pub split_aggregate_tier_descriptions :
    Option String → List ℤ → Checked (List (Option String))
split_aggregate_tier_descriptions none activation = ok (map (λ _. none) activation)
split_aggregate_tier_descriptions (some value) activation =
    let matches = (segments value).1 in
    if same_ints (map (λ (n, _). pos n) matches) activation
    then ok (map (λ (_, text). some (strip text)) matches)
    else err descriptions_mismatch

-- `re.search(r"[|｜]", s)`
unfoldable pub has_bar : String → Bool
unfolding is_bar
has_bar String.[] = false
has_bar (String.◌∷◌ c s) = if is_bar (code c) then true else has_bar s

-- The comprehension over `enumerate(activation, start=1)`.
unfoldable pub aggregate_tiers :
    String → Option String → Object → ℕ → List ℤ → List (Option String) → List TraitTierData
aggregate_tiers external_id description attributes level [] reals = []
aggregate_tiers external_id description attributes level (count ∷ counts) [] = []
aggregate_tiers external_id description attributes level (count ∷ counts) (real ∷ reals) =
    record {
      external_id = external_id <> ":" <> show_ℤ (pos level);
      tier_order = pos level;
      activation_count = count;
      level = pos level;
      description = description;
      real_description = real;
      source_attributes = attributes;
    }
    ∷ aggregate_tiers external_id description attributes (suc level) counts reals

module _ (py : Builtins) where
  -- One turn of the loop over `numList` and `values`.
  check_list : Object → List ℤ → String → Checked (Unit {0})
  check_list entry activation key =
      if has_key key entry
      then (do
        counts ← split_ints py (get key entry)
        guard (same_ints counts activation) aggregate_mismatch)
      else ok tt

  -- The body of `_aggregate_trait_tiers`, for a `num` that is a text with a bar.
  unfoldable pub aggregate_of : Object → String → List ℤ → String → Checked (List TraitTierData)
  unfolding check_list
  aggregate_of entry external_id activation num = do
    counts ← split_ints py (Json.str num)
    guard (same_ints counts activation) aggregate_mismatch
    check_list entry activation "numList"
    check_list entry activation "values"
    max_level ← integer py false (get "maxLevel" entry)
    guard (level_count_ok max_level (length activation)) max_level_mismatch
    real ← optional_string py entry "realDesc"
    reals ← split_aggregate_tier_descriptions real activation
    description ← optional_string py entry "desc"
    ok (
        aggregate_tiers external_id description
          (source_attributes_of entry ("color" ∷ "desc2" ∷ "values" ∷ "prefix" ∷ [])) 1 activation
          reals)

  abbrev some_tiers : Checked (List TraitTierData) → Checked (Option (List TraitTierData))
  some_tiers (ok ts) = ok (some ts)
  some_tiers (err e) = err e

  abbrev aggregate_from : Json → Object → String → List ℤ → Checked (Option (List TraitTierData))
  aggregate_from (Json.str num) entry external_id activation =
      if has_bar num then some_tiers (aggregate_of entry external_id activation num) else ok none
  aggregate_from _ entry external_id activation = ok none

  unfoldable pub aggregate_trait_tiers :
      Object → String → List ℤ → Checked (Option (List TraitTierData))
  aggregate_trait_tiers entry external_id activation =
      aggregate_from (get "num" entry) entry external_id activation
