-- ===== src/Jcc/Scalars.antt =====
-- app/jcc_data/validation.py: scalars, identifiers and lists of identifiers from source records.
-- An error carries the reason that the source raises it for, and not its text.
use tsuz_api_jcc.Base.{
  String, Bool, true, false, ◌&&◌, ◌||◌, not, Option, none, some, List, [], ◌∷◌, map, contains, any,
  keep, ◌==◌, string_eq, if◌then◌else◌,
}
use tsuz_api_jcc.Base.Int.{ℤ}
use tsuz_api_jcc.Base.Dict
use tsuz_api_jcc.Base.Result.{Result, ok, err, ◌>>=◌, ◌>>◌, guard}
use tsuz_api_jcc.Jcc.Json.{
  Json, null, Object, Builtins, to_str, is_printable, is_empty, strip, split_bars,
}
use tsuz_api_jcc.Jcc.Decimal.{
  Decimal, finite, infinite, quiet_nan, signaling_nan, parse_decimal, is_integral, scaled,
  with_sign,
}

-- The reasons of `DataValidationError`, and the two exceptions that `integer` lets through.
pub data DataError : Type 0 where
  missing_field invalid_field invalid_entity_id missing_integer invalid_integer missing_decimal :
      DataError
  invalid_decimal missing_relationship empty_relationship duplicate_relationship key_mismatch :
      DataError
  expected_object data_not_object aggregate_mismatch descriptions_mismatch max_level_mismatch :
      DataError
  unknown_base_trait duplicate_level missing_tiers non_contiguous_levels tier_count_mismatch :
      DataError
  tiers_mismatch unknown_trait invalid_recipe overflow_error invalid_operation : DataError

abbrev pub Checked {ℓ} : Type ℓ → Type ℓ
Checked A = Result DataError A

-- `record.get(key)`: `None` for a missing key, as for a null.
abbrev pub or_null : Option Json → Json
or_null none = null
or_null (some v) = v

unfoldable pub get : String → Object → Json
get key entry = or_null (Dict.lookup key entry)

-- `key in record`
abbrev pub has_key : String → Object → Bool
has_key key entry = any (λ (k, _). k == key) entry

-- The text of a scalar, or a refusal of a list or a dict.
abbrev pub scalar_text : Builtins → Json → Checked String
scalar_text py (Json.arr xs) = err invalid_field
scalar_text py (Json.obj fs) = err invalid_field
scalar_text py v = ok (to_str py v)

module _ (py : Builtins) where
  abbrev text_of : Json → Checked String
  text_of null = err missing_field
  text_of (Json.arr xs) = err missing_field
  text_of (Json.obj fs) = err missing_field
  text_of v = ok (to_str py v)

  unfoldable pub required_string : Object → String → Checked String
  required_string entry key = do
    result ← text_of (get key entry)
    guard (not (is_empty result) && is_printable py result) invalid_field
    ok result

  -- `result or None`
  abbrev none_if_empty : String → Option String
  none_if_empty s = if is_empty s then none else some s

  abbrev optional_text : Json → Checked (Option String)
  optional_text null = ok none
  optional_text v = do
    result ← scalar_text py v
    guard (is_printable py result) invalid_field
    ok (none_if_empty result)

  unfoldable pub optional_string : Object → String → Checked (Option String)
  optional_string entry key = optional_text (get key entry)

  unfoldable pub field_string : Object → List String → Checked (Option String)
  field_string entry [] = ok none
  field_string entry (key ∷ keys) =
      let rest = field_string entry keys in
      if has_key key entry then optional_string entry key else rest

  unfoldable pub required_id : Object → String → Checked String
  required_id entry key = do
    value ← required_string entry key
    guard (not (contains ("" ∷ "0" ∷ "-1" ∷ []) value && contains ("id" ∷ "adventureId" ∷ []) key))
        invalid_entity_id
    ok value

  -- `integer` on a parsed number.
  unfoldable pub to_int : Option Decimal → Checked ℤ
  to_int none = err invalid_integer
  to_int (some (finite neg d e)) =
      if is_integral d e then ok (with_sign neg (scaled d e)) else err invalid_integer
  to_int (some infinite) = err overflow_error
  to_int (some quiet_nan) = err invalid_integer
  to_int (some signaling_nan) = err invalid_operation

  abbrev some_int : Checked ℤ → Checked (Option ℤ)
  some_int (ok i) = ok (some i)
  some_int (err e) = err e

  abbrev absent_int : Bool → Checked (Option ℤ)
  absent_int required = if required then err missing_integer else ok none

  unfoldable pub integer : Bool → Json → Checked (Option ℤ)
  integer required null = absent_int required
  integer required (Json.str s) =
      if is_empty s then absent_int required else some_int (to_int (parse_decimal py s))
  integer required (Json.bool b) = err invalid_integer
  integer required v = some_int (to_int (parse_decimal py (to_str py v)))

  abbrev finite_only : Option Decimal → Checked (Option Decimal)
  finite_only (some (finite neg d e)) = ok (some (finite neg d e))
  finite_only _ = err invalid_decimal

  abbrev absent_decimal : Bool → Checked (Option Decimal)
  absent_decimal required = if required then err missing_decimal else ok none

  unfoldable pub decimal : Bool → Json → Checked (Option Decimal)
  decimal required null = absent_decimal required
  decimal required (Json.str s) =
      if is_empty s then absent_decimal required else finite_only (parse_decimal py s)
  decimal required (Json.bool b) = err invalid_decimal
  decimal required v = finite_only (parse_decimal py (to_str py v))

  -- `len(parts) != len(set(parts))`
  abbrev has_duplicates : List String → Bool
  has_duplicates [] = false
  has_duplicates (s ∷ rest) = contains rest s || has_duplicates rest

  unfoldable pub split_text : List String → String → Checked (List String)
  split_text sentinels value = do
    let parts = map strip (split_bars value)
    guard (not (any is_empty parts)) empty_relationship
    guard (not (has_duplicates parts)) duplicate_relationship
    ok (keep (λ part. not (contains sentinels part)) parts)

  unfoldable pub split_ids : List String → Json → Checked (List String)
  split_ids sentinels null = err missing_relationship
  split_ids sentinels v = split_text sentinels (to_str py v)

  abbrev pub required_int : Checked (Option ℤ) → Checked ℤ
  required_int (ok (some i)) = ok i
  required_int (ok none) = err missing_integer
  required_int (err e) = err e

  unfoldable pub parse_ints : List String → Checked (List ℤ)
  parse_ints [] = ok []
  parse_ints (part ∷ parts) = do
    parsed ← required_int (integer true (Json.str part))
    rest ← parse_ints parts
    ok (parsed ∷ rest)

  unfoldable pub split_ints : Json → Checked (List ℤ)
  split_ints value = do parts ← split_ids [] value; parse_ints parts

  unfoldable pub ensure_key_matches_id : String → Object → String → Checked String
  ensure_key_matches_id key entry id_key = do
    external_id ← required_id entry id_key
    guard (key == external_id) key_mismatch
    ok external_id
