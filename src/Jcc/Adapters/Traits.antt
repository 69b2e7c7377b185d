-- ===== src/Jcc/Adapters/Traits.antt =====
-- `_build_traits` of app/jcc_data/adapters.py.
use tsuz_api_jcc.Base.{
  ℕ, zero, suc, String, Bool, true, false, Option, none, some, List, [], ◌∷◌, map, length,
  if◌then◌else◌, leb, is_none,
}
use tsuz_api_jcc.Base.Int.{ℤ, pos, negsuc}
use tsuz_api_jcc.Base.Dict
use tsuz_api_jcc.Base.Dict.{Dict}
use tsuz_api_jcc.Base.Result.{ok, err, ◌>>=◌, ◌>>◌, guard}
use tsuz_api_jcc.Jcc.Json.{Json, Object, Builtins}
use tsuz_api_jcc.Jcc.Scalars.{
  Checked, max_level_mismatch, unknown_base_trait, duplicate_level, missing_tiers,
  non_contiguous_levels, tier_count_mismatch, tiers_mismatch, get, required_string, optional_string,
  field_string, integer, required_int, split_ints, ensure_key_matches_id,
}
use tsuz_api_jcc.Jcc.Adapters.Data.{
  TraitKind, race, job, RawSnapshot, TraitData, TraitTierData, key_eq, int_eq, as_object, data_of,
  source_attributes_of,
}
use tsuz_api_jcc.Jcc.Adapters.Tiers.{same_ints, level_count_ok, aggregate_trait_tiers}

abbrev pub Key : Type 0
Key = TraitKind × String

abbrev pub Index : Type 0
Index = Dict Key TraitData

abbrev pub ByLevel : Type 0
ByLevel = Dict ℤ TraitTierData

abbrev pub Tiers : Type 0
Tiers = Dict Key ByLevel

-- `{0: "race", 1: "job"}.get(i)`
abbrev pub kind_of : ℤ → Option TraitKind
kind_of (pos zero) = some race
kind_of (pos (suc zero)) = some job
kind_of _ = none

abbrev or_empty : Option ByLevel → ByLevel
or_empty none = []
or_empty (some d) = d

-- `for tier in incoming_tiers: ...`
unfoldable pub add_tiers : List TraitTierData → ByLevel → Checked ByLevel
add_tiers [] by_level = ok by_level
add_tiers (t ∷ ts) by_level = do
  guard (is_none (Dict.lookup t.level by_level)) duplicate_level
  add_tiers ts (Dict.insert t.level t by_level)

-- `i <= j`
abbrev leb_ℤ : ℤ → ℤ → Bool
leb_ℤ (pos a) (pos b) = leb a b
leb_ℤ (pos a) (negsuc b) = false
leb_ℤ (negsuc a) (pos b) = true
leb_ℤ (negsuc a) (negsuc b) = leb b a

insert_sorted : ℤ → List ℤ → List ℤ
insert_sorted i [] = i ∷ []
insert_sorted i (j ∷ js) = if leb_ℤ i j then i ∷ j ∷ js else j ∷ insert_sorted i js

-- `sorted(d)`, of a dict's keys.
unfoldable pub sorted_levels : ByLevel → List ℤ
unfolding insert_sorted
sorted_levels [] = []
sorted_levels ((l, _) ∷ d) = insert_sorted l (sorted_levels d)

-- `list(range(first, first + n))`
abbrev pub levels_from : ℕ → ℕ → List ℤ
levels_from first zero = []
levels_from first (suc n) = pos first ∷ levels_from (suc first) n

abbrev onto : Option TraitTierData → List TraitTierData → List TraitTierData
onto none ts = ts
onto (some t) ts = t ∷ ts

-- `[d[level] for level in levels]`; every level is a key where this is used.
unfoldable pub tiers_at : List ℤ → ByLevel → List TraitTierData
tiers_at [] d = []
tiers_at (l ∷ ls) d = onto (Dict.lookup l d) (tiers_at ls d)

-- The body of the last loop, for one trait and its tiers.
unfoldable pub finalize : TraitData → ByLevel → Checked TraitData
finalize trait [] = err missing_tiers
finalize trait (e ∷ d) = do
  let expected = levels_from 1 (length (e ∷ d))
  guard (same_ints (sorted_levels (e ∷ d)) expected) non_contiguous_levels
  guard (level_count_ok trait.max_level (length (e ∷ d))) tier_count_mismatch
  let tiers = tiers_at expected (e ∷ d)
  guard (same_ints (map (λ t. t.activation_count) tiers) trait.activation_list) tiers_mismatch
  ok (record trait { tiers = tiers })

unfoldable pub finalize_all : Index → Tiers → Checked (List TraitData)
finalize_all [] tiers = ok []
finalize_all ((key, trait) ∷ index) tiers = do
  done ← finalize trait (or_empty (Dict.lookup key tiers))
  rest ← finalize_all index tiers
  ok (done ∷ rest)

module _ (py : Builtins) where
  -- The body of the first loop.
  unfoldable pub base_trait : TraitKind → String → Json → Checked TraitData
  base_trait kind key value = do
    entry ← as_object value
    external_id ← ensure_key_matches_id py key entry "id"
    activation ← split_ints py (get "numList" entry)
    max_level ← integer py false (get "maxLevel" entry)
    guard (level_count_ok max_level (length activation)) max_level_mismatch
    name ← required_string py entry "name"
    prefix ← optional_string py entry "prefix"
    image_url ← field_string py entry ("picture" ∷ [])
    map_id ← integer py false (get "mapID" entry)
    ok (record {
      kind = kind;
      external_id = external_id;
      name = name;
      prefix = prefix;
      max_level = max_level;
      activation_list = activation;
      image_url = image_url;
      map_id = map_id;
      source_attributes =
          source_attributes_of entry ("color" ∷ "desc2" ∷ "tftSpecId" ∷ "tftClassId" ∷ []);
      tiers = [];
    })

  unfoldable pub base_traits : TraitKind → Object → Index → Checked Index
  base_traits kind [] index = ok index
  base_traits kind ((key, value) ∷ records) index = do
    trait ← base_trait kind key value
    base_traits kind records (Dict.insert (kind, trait.external_id) trait index)

  -- The tier of a record that is no aggregate.
  unfoldable pub single_tier : Object → String → Checked (List TraitTierData)
  single_tier entry external_id = do
    level ← required_int py (integer py true (get "level" entry))
    activation_count ← required_int py (integer py true (get "num" entry))
    description ← optional_string py entry "desc"
    real_description ← optional_string py entry "realDesc"
    ok (
        record {
          external_id = external_id;
          tier_order = level;
          activation_count = activation_count;
          level = level;
          description = description;
          real_description = real_description;
          source_attributes =
              source_attributes_of entry ("color" ∷ "desc2" ∷ "values" ∷ "prefix" ∷ []);
        }
        ∷ [])

  abbrev incoming : Option (List TraitTierData) → Object → String → Checked (List TraitTierData)
  incoming none entry external_id = single_tier entry external_id
  incoming (some ts) entry external_id = ok ts

  -- The key of the base trait that a record of `trait` belongs to, with that trait.
  abbrev base_of : Option TraitKind → String → Index → Checked (Key × TraitData)
  base_of none check_id index = err unknown_base_trait
  base_of (some kind) check_id index = elim (Dict.lookup (kind, check_id) index) [
    | none ↦ err unknown_base_trait
    | some trait ↦ ok ((kind, check_id), trait)
  ]

  -- The body of the second loop.
  unfoldable pub add_record : Index → String → Json → Tiers → Checked Tiers
  add_record index key value tiers = do
    entry ← as_object value
    external_id ← ensure_key_matches_id py key entry "id"
    check_id ← required_string py entry "checkId"
    type_value ← required_int py (integer py true (get "type" entry))
    base ← base_of (kind_of type_value) check_id index
    aggregate ← aggregate_trait_tiers py entry external_id base.1.activation_list
    ts ← incoming aggregate entry external_id
    by_level ← add_tiers ts (or_empty (Dict.lookup base.0 tiers))
    ok (Dict.insert base.0 by_level tiers)

  unfoldable pub add_records : Index → Object → Tiers → Checked Tiers
  add_records index [] tiers = ok tiers
  add_records index ((key, value) ∷ records) tiers = do
    tiers' ← add_record index key value tiers
    add_records index records tiers'

  unfoldable pub build_traits : RawSnapshot → Checked (List TraitData × Index)
  build_traits raw = do
    races ← data_of raw "race"
    jobs ← data_of raw "job"
    index ← base_traits race races []
    index' ← base_traits job jobs index
    records ← data_of raw "trait"
    tiers ← add_records index' records []
    traits ← finalize_all index' tiers
    ok (traits, index')
