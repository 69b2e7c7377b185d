-- ===== src/Tests/Official.antt =====
-- The official data, at concrete inputs.
use tsuz_api_jcc.Base.{
  String, true, false, none, some, List, [], ◌∷◌, map, All, ◌≡◌, refl, ◌==◌, if◌then◌else◌,
  string_eq, nat_eq, option_eq,
}
use tsuz_api_jcc.Base.Dict
use tsuz_api_jcc.Base.Int.{pos}
use tsuz_api_jcc.Base.Result.{Result, ok, err}
use tsuz_api_jcc.Jcc.Json.{
  Json, Fields, Object, Builtins, to_str, show_ℕ, strip, strip_left, strip_right, is_space,
  split_bars, is_bar,
}
use tsuz_api_jcc.Jcc.Decimal.{parse_decimal, is_integral, scaled}
use tsuz_api_jcc.Jcc.Scalars.{
  Checked, get, required_string, optional_string, required_id, integer, to_int, decimal, split_ids,
  split_text, ensure_key_matches_id, overflow_error,
}
use tsuz_api_jcc.Jcc.Adapters.Data.{
  job, kind_eq, int_eq, key_eq, RawSnapshot, HeroData, TraitData, HeroTraitData, EquipmentData,
  EquipmentRecipeData, StructuredSnapshot, data_of, source_attributes_of,
}
use tsuz_api_jcc.Jcc.Adapters.Traits.{Index}
use tsuz_api_jcc.Jcc.Adapters.Entities.{
  each, relate, recipe_of, skill_values, hero_of, relations_of, build_hero, build_heroes,
  build_item, build_recipe, build_equipment,
}
use tsuz_api_jcc.Jcc.Scalars.{field_string, split_ints, parse_ints}
use tsuz_api_jcc.Jcc.Adapters.Tiers.{aggregate_trait_tiers, has_bar}
use tsuz_api_jcc.Jcc.Adapters.Traits.{
  build_traits, base_traits, base_trait, single_tier, add_record, add_records, add_tiers, finalize,
  finalize_all, sorted_levels, tiers_at,
}
use tsuz_api_jcc.Jcc.Adapters.Entities.{build_augments, build_adventures, build_galaxies}
use tsuz_api_jcc.Jcc.Adapters.Snapshot.{build_structured_snapshot, metadata_of}
use tsuz_api_jcc.Jcc.Adapters.Whole.{IsWhole, build_structured_snapshot-IsWhole}
use tsuz_api_jcc.Jcc.Adapters.Closed.{
  keys, IsClosedRelation, IsClosedRecipe, build_heroes-closed, build_equipment-closed,
}
use tsuz_api_jcc.Jcc.Store.{
  Store, Table, SnapshotRow, StoreError, ImportResult, skipped, import_snapshot, existing_snapshot,
  add_snapshot, add_entities, add, add_all, add_keyed, add_traits, key_of, resolve_relations,
  resolve_recipes, publish, get_snapshot, switch_current_snapshot,
}
use tsuz_api_jcc.Jcc.Store.Filled.{IsWell}
use tsuz_api_jcc.Jcc.Store.Current.{
  current_of, import_snapshot-current, switch_current_snapshot-current,
}
use tsuz_api_jcc.Jcc.Store.Resolves.{import_snapshot-IsFine}
use tsuz_api_jcc.Jcc.Store.Again.{import_snapshot-again}

abbrev pub py : Builtins
py = record { printable = λ _. true; other_digit = λ _. none; repr = λ _. "" }

abbrev one_hero : Json
one_hero = Json.obj (
    Fields.field "id" (Json.str "1") (
      Fields.field "name" (Json.str "Ahri") (
        Fields.field "price" (Json.str "4") (
          Fields.field "class" (Json.str "7|0")
            (Fields.field "species" (Json.str "0") Fields.end)))))

abbrev component : String → String → Fields → Json
component i name more =
    Json.obj (Fields.field "id" (Json.str i) (Fields.field "name" (Json.str name) more))

abbrev sword : Json
sword = component "1" "sword" Fields.end

abbrev blade : Json
blade = component "2" "blade" (
    Fields.field "synthesis1" (Json.str "1")
      (Fields.field "synthesis2" (Json.int (pos 1)) Fields.end))

abbrev payload : Fields → Json
payload fs = Json.obj (Fields.field "data" (Json.obj fs) Fields.end)

abbrev raw : RawSnapshot
raw = record {
  directory = "14.1";
  manifest = [];
  revision = 1;
  content_hash = "hash";
  payloads =
      ("chess", payload (Fields.field "1" one_hero Fields.end))
      ∷ ("equip", payload (Fields.field "1" sword (Fields.field "2" blade Fields.end)))
      ∷ [];
  spec = record {
    version = "14.1";
    season = "s14";
    mode = "17";
    mode_name = "jcc";
    version_start_time = Json.null;
    urls = [];
  };
}

abbrev pub mage : TraitData
mage = record {
  kind = job;
  external_id = "7";
  name = "mage";
  prefix = none;
  max_level = some (pos 1);
  activation_list = pos 2 ∷ [];
  image_url = none;
  map_id = none;
  source_attributes = [];
  tiers =
      record {
        external_id = "70";
        tier_order = pos 1;
        activation_count = pos 2;
        level = pos 1;
        description = none;
        real_description = none;
        source_attributes = [];
      }
      ∷ [];
}

abbrev index : Index
index = ((job, "7"), mage) ∷ []

abbrev pair_of : {A B : Type 0} → Checked (List A × List B) → List A × List B
pair_of (ok r) = r
pair_of (err _) = ([], [])

abbrev heroes : List HeroData × List HeroTraitData
heroes = pair_of (build_heroes py raw index)

abbrev equipment : List EquipmentData × List EquipmentRecipeData
equipment = pair_of (build_equipment py raw)

built-heroes : build_heroes py raw index ≡ ok (heroes.0, heroes.1)
unfolding build_heroes data_of Dict.lookup each build_hero ensure_key_matches_id required_id
    required_string get hero_of integer to_int parse_decimal is_integral scaled optional_string
    decimal skill_values relations_of split_ids split_text split_bars is_bar strip strip_left
    strip_right is_space relate to_str show_ℕ source_attributes_of string_eq kind_eq key_eq
    option_eq
built-heroes = refl

built-equipment : build_equipment py raw ≡ ok (equipment.0, equipment.1)
unfolding build_equipment data_of Dict.lookup each build_item build_recipe ensure_key_matches_id
    required_id required_string get optional_string recipe_of to_str show_ℕ source_attributes_of
    string_eq
built-equipment = refl

infinite_price : integer py false (Json.str "Infinity") ≡ err overflow_error
unfolding integer to_int parse_decimal string_eq strip strip_left strip_right is_space
infinite_price = refl

exponent_price : integer py false (Json.str " 1_2e1 ") ≡ ok (some (pos 120))
unfolding integer to_int parse_decimal is_integral scaled string_eq strip strip_left strip_right
    is_space
exponent_price = refl

build_heroes-closed_example :
    (records : Object) × (data_of raw "chess" ≡ ok records)
    × (map (λ h. h.external_id) heroes.0 ≡ keys records)
    × All (IsClosedRelation index (map (λ h. h.external_id) heroes.0)) heroes.1
build_heroes-closed_example = build_heroes-closed py raw index heroes.0 heroes.1 built-heroes

build_equipment-closed_example :
    (records : Object) × (data_of raw "equip" ≡ ok records)
    × (map (λ e. e.external_id) equipment.0 ≡ keys records)
    × All (IsClosedRecipe (map (λ e. e.external_id) equipment.0)) equipment.1
build_equipment-closed_example =
    build_equipment-closed py raw equipment.0 equipment.1 built-equipment

abbrev mage_class : Json
mage_class =
    component "7" "mage" (
      Fields.field "numList" (Json.str "2") (Fields.field "maxLevel" (Json.int (pos 1)) Fields.end))

abbrev mage_tier : Json
mage_tier = component "70" "mage" (
    Fields.field "checkId" (Json.str "7") (
      Fields.field "type" (Json.int (pos 1))
        (Fields.field "level" (Json.int (pos 1)) (Fields.field "num" (Json.str "2") Fields.end))))

abbrev whole : RawSnapshot
whole = record raw {
  payloads =
      ("race", payload Fields.end)
      ∷ ("job", payload (Fields.field "7" mage_class Fields.end))
      ∷ ("trait", payload (Fields.field "70" mage_tier Fields.end))
      ∷ ("hex", payload Fields.end)
      ∷ ("adventure", payload Fields.end)
      ∷ ("galaxy", payload Fields.end)
      ∷ raw.payloads;
}

abbrev pub incoming : StructuredSnapshot
incoming = record {
  metadata = record {
    mode = "17";
    mode_name = "jcc";
    season = "s14";
    version = "14.1";
    revision = 1;
    set_id = "17";
    raw_directory_name = "14.1";
    content_hash = "hash";
    source_updated_at = Json.null;
    version_start_time = Json.null;
    source_manifest = [];
  };
  heroes = heroes.0;
  traits = mage ∷ [];
  hero_traits = heroes.1;
  equipment = equipment.0;
  equipment_recipes = equipment.1;
  augments = [];
  adventures = [];
  galaxies = [];
}

abbrev structured : StructuredSnapshot
structured = elim (build_structured_snapshot py whole) [ ok s ↦ s | err _ ↦ incoming ]

built-structured : build_structured_snapshot py whole ≡ ok structured
unfolding build_structured_snapshot build_traits base_traits base_trait split_ints parse_ints
    aggregate_trait_tiers has_bar is_bar single_tier add_record add_records add_tiers finalize
    finalize_all sorted_levels tiers_at field_string Dict.insert int_eq build_augments
    build_adventures build_galaxies metadata_of build_heroes data_of Dict.lookup each build_hero
    ensure_key_matches_id required_id required_string get hero_of integer to_int parse_decimal
    is_integral scaled optional_string decimal skill_values relations_of split_ids split_text
    split_bars strip strip_left strip_right is_space relate to_str show_ℕ source_attributes_of
    string_eq kind_eq key_eq option_eq build_equipment build_item build_recipe recipe_of
built-structured = refl

build_structured_snapshot-IsWhole_example : IsWhole structured
build_structured_snapshot-IsWhole_example =
    build_structured_snapshot-IsWhole py whole structured built-structured

abbrev table : {A : Type 0} → Table A
table = record { next = 1; rows = [] }

abbrev pub nothing : Store
nothing = record {
  next_snapshot = 1;
  snapshots = [];
  current = [];
  heroes = table;
  traits = table;
  tiers = table;
  hero_traits = table;
  equipment = table;
  recipes = table;
  augments = table;
  adventures = table;
  galaxies = table;
}

pub nothing-IsWell : IsWell nothing
nothing-IsWell = record {
  below = record {
    heroes = tt;
    traits = tt;
    tiers = tt;
    hero_traits = tt;
    equipment = tt;
    recipes = tt;
    augments = tt;
    adventures = tt;
    galaxies = tt;
  };
}

abbrev imported : Result StoreError (ImportResult × Store)
imported = import_snapshot py 5 6 false incoming nothing

abbrev official : String
official = "17"

abbrev other : String
other = "16"

abbrev no_answer : ImportResult
no_answer = record {
  action = skipped;
  snapshot_id = 0;
  mode = "";
  version = "";
  revision = 0;
  content_hash = "";
  source_updated_at = Json.null;
  season = "";
}

abbrev outcome : Result StoreError (ImportResult × Store) → ImportResult × Store
outcome (ok r) = r
outcome (err _) = (no_answer, nothing)

abbrev pub answer : ImportResult
answer = (outcome imported).0

abbrev pub stored : Store
stored = (outcome imported).1

abbrev switched : Result StoreError Store → Store
switched (ok t) = t
switched (err _) = nothing

pub imports : import_snapshot py 5 6 false incoming nothing ≡ ok (answer, stored)
unfolding import_snapshot existing_snapshot add_snapshot add_entities add add_all add_keyed
    add_traits key_of resolve_relations resolve_recipes publish Dict.lookup Dict.insert string_eq
    nat_eq kind_eq int_eq key_eq build_heroes data_of each build_hero ensure_key_matches_id
    required_id required_string get hero_of integer to_int parse_decimal is_integral scaled
    optional_string decimal skill_values relations_of split_ids split_text split_bars is_bar strip
    strip_left strip_right is_space relate to_str show_ℕ source_attributes_of option_eq
    build_equipment build_item build_recipe recipe_of
imports = refl

import_snapshot-current_example :
    (row : SnapshotRow) × (existing_snapshot incoming.metadata stored ≡ some row)
    × (row.id ≡ answer.snapshot_id)
    × (current_of "17" stored
        ≡ (if official == official then some answer.snapshot_id else current_of "17" nothing))
import_snapshot-current_example =
    import_snapshot-current py 5 6 false incoming nothing stored answer "17" imports

import_snapshot-again_example :
    IsWell stored
    × ((r : ImportResult) × (import_snapshot py 7 8 false incoming stored ≡ ok (r, stored))
        × (r.action ≡ skipped)
        × (r.snapshot_id ≡ answer.snapshot_id))
import_snapshot-again_example =
    import_snapshot-again py 5 6 7 8 false incoming nothing stored answer nothing-IsWell imports

abbrev again : Store
again = switched (switch_current_snapshot 9 false "17" 1 stored)

switches : switch_current_snapshot 9 false "17" 1 stored ≡ ok again
unfolding switch_current_snapshot get_snapshot import_snapshot existing_snapshot add_snapshot
    add_entities add add_all add_keyed add_traits key_of resolve_relations resolve_recipes publish
    Dict.lookup Dict.insert string_eq nat_eq kind_eq int_eq key_eq build_heroes data_of each
    build_hero ensure_key_matches_id required_id required_string get hero_of integer to_int
    parse_decimal is_integral scaled optional_string decimal skill_values relations_of split_ids
    split_text split_bars is_bar strip strip_left strip_right is_space relate to_str show_ℕ
    source_attributes_of option_eq build_equipment build_item build_recipe recipe_of
switches = refl

switch_current_snapshot-current_example :
    (r : SnapshotRow) × (get_snapshot "17" 1 again ≡ some r)
    × (current_of "16" again ≡ (if other == official then some 1 else current_of "16" stored))
switch_current_snapshot-current_example =
    switch_current_snapshot-current 9 false "17" "16" 1 stored again switches

import_snapshot-IsFine_example :
    ¬ (import_snapshot py 5 6 false structured nothing ≡ err StoreError.key_error)
import_snapshot-IsFine_example =
    import_snapshot-IsFine py 5 6 false structured nothing
      (build_structured_snapshot-IsWhole py whole structured built-structured)
