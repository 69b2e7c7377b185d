-- ===== src/Jcc/Adapters/Data.antt =====
-- The data classes of app/jcc_data/adapters.py, and those of a raw snapshot that it reads.
use tsuz_api_jcc.Base.{ℕ, String, Option, some, List, keep, contains, Eq, string_eq, ℕ_discrete}
use tsuz_api_jcc.Base.Int.{ℤ}
use tsuz_api_jcc.Base.Dict
use tsuz_api_jcc.Base.Result.{ok, err}
use tsuz_api_jcc.Jcc.Json.{Json, Object, items}
use tsuz_api_jcc.Jcc.Decimal.{Decimal}
use tsuz_api_jcc.Jcc.Scalars.{Checked, data_not_object, expected_object, get}

pub data TraitKind : Type 0 where
  race job : TraitKind

TraitKind-discrete : Discrete TraitKind
TraitKind-discrete = hlevel

ℤ-discrete : Discrete ℤ
ℤ-discrete = hlevel ℕ_discrete

key_discrete : Discrete (TraitKind × String)
unfolding string_eq
key_discrete = hlevel (TraitKind-discrete, string_eq.dec)

instance unfoldable pub kind_eq : Eq TraitKind
unfolding TraitKind-discrete
kind_eq = record { dec = TraitKind-discrete }

instance unfoldable pub int_eq : Eq ℤ
unfolding ℤ-discrete ℕ_discrete
int_eq = record { dec = ℤ-discrete }

-- The key of a trait: its kind and its identifier.
instance unfoldable pub key_eq : Eq (TraitKind × String)
unfolding key_discrete TraitKind-discrete
key_eq = record { dec = key_discrete }

pub record VersionSpec : Type 0 where
  pub version : String
  pub season : String
  pub mode : String
  pub mode_name : String
  pub version_start_time : Json
  pub urls : List (String × String)

-- A directory goes by its name.
pub record RawSnapshot : Type 0 where
  pub directory : String
  pub manifest : Object
  pub payloads : List (String × Json)
  pub revision : ℕ
  pub content_hash : String
  pub spec : VersionSpec

pub record SnapshotData : Type 0 where
  pub mode : String
  pub mode_name : String
  pub season : String
  pub version : String
  pub revision : ℕ
  pub set_id : String
  pub raw_directory_name : String
  pub content_hash : String
  pub source_updated_at : Json
  pub version_start_time : Json
  pub source_manifest : Object

pub record HeroData : Type 0 where
  pub external_id : String
  pub name : String
  pub price : Option ℤ
  pub hero_type : Option String
  pub map_id : Option ℤ
  pub health : Option ℤ
  pub attack_damage : Option ℤ
  pub armor : Option ℤ
  pub magic_resist : Option ℤ
  pub attack_speed : Option Decimal
  pub attack_range : Option ℤ
  pub initial_mana : Option ℤ
  pub max_mana : Option ℤ
  pub skill_name : Option String
  pub skill_description : Option String
  pub skill_values : Option (List (String × String))
  pub image_url : Option String
  pub skill_icon_url : Option String
  pub source_attributes : Object

pub record TraitTierData : Type 0 where
  pub external_id : String
  pub tier_order : ℤ
  pub activation_count : ℤ
  pub level : ℤ
  pub description : Option String
  pub real_description : Option String
  pub source_attributes : Object

pub record TraitData : Type 0 where
  pub kind : TraitKind
  pub external_id : String
  pub name : String
  pub prefix : Option String
  pub max_level : Option ℤ
  pub activation_list : List ℤ
  pub image_url : Option String
  pub map_id : Option ℤ
  pub source_attributes : Object
  pub tiers : List TraitTierData

pub record HeroTraitData : Type 0 where
  pub hero_external_id : String
  pub trait_external_id : String
  pub relation_kind : TraitKind
  pub position : ℕ

pub record EquipmentData : Type 0 where
  pub external_id : String
  pub name : String
  pub equipment_type : Option String
  pub basic_description : Option String
  pub description : Option String
  pub image_url : Option String
  pub source_attributes : Object

pub record EquipmentRecipeData : Type 0 where
  pub equipment_external_id : String
  pub first_component_external_id : String
  pub second_component_external_id : String

pub record AugmentData : Type 0 where
  pub external_id : String
  pub name : String
  pub level : Option ℤ
  pub description : Option String
  pub icon_url : Option String
  pub source_attributes : Object

pub record AdventureData : Type 0 where
  pub external_id : String
  pub title : String
  pub description : Option String
  pub price : Option ℤ
  pub category : Option String
  pub logo_url : Option String
  pub video_url : Option String
  pub background_image_url : Option String
  pub source_attributes : Object

pub record GalaxyData : Type 0 where
  pub external_id : String
  pub name : String
  pub description : Option String
  pub logo_url : Option String
  pub video_url : Option String
  pub background_image_url : Option String
  pub source_attributes : Object

pub record StructuredSnapshot : Type 0 where
  pub metadata : SnapshotData
  pub heroes : List HeroData
  pub traits : List TraitData
  pub hero_traits : List HeroTraitData
  pub equipment : List EquipmentData
  pub equipment_recipes : List EquipmentRecipeData
  pub augments : List AugmentData
  pub adventures : List AdventureData
  pub galaxies : List GalaxyData

-- `isinstance(value, dict)`
abbrev pub as_object : Json → Checked Object
as_object (Json.obj fs) = ok (items fs)
as_object _ = err expected_object

-- `value.get("data")` of a payload, which must be a dict with a dict there.
abbrev data_field : Json → Checked Object
data_field (Json.obj fs) = ok (items fs)
data_field _ = err data_not_object

abbrev payload_data : Option Json → Checked Object
payload_data (some (Json.obj fs)) = data_field (get "data" (items fs))
payload_data _ = err data_not_object

-- `_data`. A payload that is missing or no dict is refused by `read_snapshot` before.
unfoldable pub data_of : RawSnapshot → String → Checked Object
unfolding Dict.lookup get
data_of raw name = payload_data (Dict.lookup name raw.payloads)

-- `_source`
unfoldable pub source_attributes_of : Object → List String → Object
source_attributes_of entry allowed = keep (λ (k, _). contains allowed k) entry
