-- ===== src/Jcc/Adapters/Entities.antt =====
-- `_build_heroes`, `_build_equipment`, `_build_augments`, `_build_adventures` and `_build_galaxies`
-- of app/jcc_data/adapters.py.
use tsuz_api_jcc.Base.{
  ℕ, suc, String, false, ◌&&◌, ◌||◌, not, Option, none, some, List, [], ◌∷◌, ◌++◌, map, ◌==◌,
  string_eq, if◌then◌else◌, is_none, contains,
}
use tsuz_api_jcc.Base.Dict
use tsuz_api_jcc.Base.Result.{ok, err, ◌>>=◌, ◌>>◌, guard}
use tsuz_api_jcc.Jcc.Json.{Json, Object, Builtins, is_empty}
use tsuz_api_jcc.Jcc.Scalars.{
  Checked, unknown_trait, invalid_recipe, get, required_string, optional_string, required_id,
  integer, decimal, split_ids, ensure_key_matches_id,
}
use tsuz_api_jcc.Jcc.Adapters.Data.{
  TraitKind, race, job, RawSnapshot, HeroData, HeroTraitData, EquipmentData, EquipmentRecipeData,
  AugmentData, AdventureData, GalaxyData, key_eq, as_object, data_of, source_attributes_of,
}
use tsuz_api_jcc.Jcc.Adapters.Traits.{Index}

-- The entities of all records, in order; the first refusal ends the loop.
unfoldable pub each {ℓ} : {A : Type ℓ} → (String → Json → Checked A) → Object → Checked (List A)
each f [] = ok []
each f ((key, value) ∷ records) = do a ← f key value; rest ← each f records; ok (a ∷ rest)

abbrev some_pair : String → Option String → List (String × String) → List (String × String)
some_pair key none rest = rest
some_pair key (some value) rest = (key, value) ∷ rest

-- `values or None`
abbrev none_if_nil : List (String × String) → Option (List (String × String))
none_if_nil [] = none
none_if_nil (v ∷ vs) = some (v ∷ vs)

-- The relations of one hero under one kind; the traits must be known.
unfoldable pub relate : Index → String → TraitKind → ℕ → List String → Checked (List HeroTraitData)
relate index hero kind position [] = ok []
relate index hero kind position (trait_id ∷ ids) = do
  guard (not (is_none (Dict.lookup (kind, trait_id) index))) unknown_trait
  rest ← relate index hero kind (suc position) ids
  ok (
      record {
        hero_external_id = hero;
        trait_external_id = trait_id;
        relation_kind = kind;
        position = position;
      }
      ∷ rest)

abbrev pub flatten_relations : List (HeroData × List HeroTraitData) → List HeroTraitData
flatten_relations [] = []
flatten_relations ((_, rs) ∷ rest) = rs ++ flatten_relations rest

-- `component and component != "0"`
abbrev pub component : Option String → List String → List String
component none rest = rest
component (some c) rest = if is_empty c || c == "0" then rest else c ∷ rest

-- What the second loop makes of the components of one record.
unfoldable pub recipe_of : List String → String → List String → Checked (List EquipmentRecipeData)
recipe_of ids key [] = ok []
recipe_of ids key (first ∷ second ∷ []) =
    if contains ids first && contains ids second
    then ok (
        record {
          equipment_external_id = key;
          first_component_external_id = first;
          second_component_external_id = second;
        }
        ∷ [])
    else err invalid_recipe
recipe_of ids key _ = err invalid_recipe

abbrev pub concat : List (List EquipmentRecipeData) → List EquipmentRecipeData
concat [] = []
concat (rs ∷ rest) = rs ++ concat rest

module _ (py : Builtins) where
  unfoldable pub skill_values : Object → Checked (Option (List (String × String)))
  skill_values entry = do
    brief ← optional_string py entry "skillBriefValue"
    desc ← optional_string py entry "skillValueDesc"
    ok (none_if_nil (some_pair "skillBriefValue" brief (some_pair "skillValueDesc" desc [])))

  unfoldable pub hero_of : String → Object → Checked HeroData
  hero_of external_id entry = do
    name ← required_string py entry "name"
    price ← integer py false (get "price" entry)
    hero_type ← optional_string py entry "heroType"
    map_id ← integer py false (get "mapID" entry)
    health ← integer py false (get "initHP" entry)
    attack_damage ← integer py false (get "initAttackDamage" entry)
    armor ← integer py false (get "armor" entry)
    magic_resist ← integer py false (get "magicResist" entry)
    attack_speed ← decimal py false (get "attackSpeed" entry)
    attack_range ← integer py false (get "attackRange" entry)
    initial_mana ← integer py false (get "initMP" entry)
    max_mana ← integer py false (get "maxMP" entry)
    skill_name ← optional_string py entry "skillName"
    skill_description ← optional_string py entry "skillDesc"
    skills ← skill_values entry
    image_url ← optional_string py entry "picture"
    skill_icon_url ← optional_string py entry "skillIcon"
    ok (record {
      external_id = external_id;
      name = name;
      price = price;
      hero_type = hero_type;
      map_id = map_id;
      health = health;
      attack_damage = attack_damage;
      armor = armor;
      magic_resist = magic_resist;
      attack_speed = attack_speed;
      attack_range = attack_range;
      initial_mana = initial_mana;
      max_mana = max_mana;
      skill_name = skill_name;
      skill_description = skill_description;
      skill_values = skills;
      image_url = image_url;
      skill_icon_url = skill_icon_url;
      source_attributes = source_attributes_of entry (
          "heroPaint" ∷ "criticalStrikeChance" ∷ "buyPrice" ∷ "sellPrice" ∷ "setid" ∷ "tftHeroId"
          ∷ "showHeroTag" ∷ []);
    })

  -- The relations of one hero: its classes, then its species.
  unfoldable pub relations_of : Index → String → Object → Checked (List HeroTraitData)
  relations_of index external_id entry = do
    classes ← split_ids py ("0" ∷ "-1" ∷ []) (get "class" entry)
    jobs ← relate index external_id job 0 classes
    species ← split_ids py ("0" ∷ "-1" ∷ []) (get "species" entry)
    races ← relate index external_id race 0 species
    ok (jobs ++ races)

  -- The body of the loop over `chess`.
  unfoldable pub build_hero : Index → String → Json → Checked (HeroData × List HeroTraitData)
  build_hero index key value = do
    entry ← as_object value
    external_id ← ensure_key_matches_id py key entry "id"
    hero ← hero_of external_id entry
    relations ← relations_of index external_id entry
    ok (hero, relations)

  unfoldable pub build_heroes : RawSnapshot → Index → Checked (List HeroData × List HeroTraitData)
  build_heroes raw index = do
    records ← data_of raw "chess"
    built ← each (build_hero index) records
    ok (map (λ (h, _). h) built, flatten_relations built)

  unfoldable pub build_item : String → Json → Checked EquipmentData
  build_item key value = do
    entry ← as_object value
    external_id ← ensure_key_matches_id py key entry "id"
    name ← required_string py entry "name"
    equipment_type ← optional_string py entry "type"
    basic_description ← optional_string py entry "basicDesc"
    description ← optional_string py entry "desc"
    image_url ← optional_string py entry "picture"
    ok (record {
      external_id = external_id;
      name = name;
      equipment_type = equipment_type;
      basic_description = basic_description;
      description = description;
      image_url = image_url;
      source_attributes = source_attributes_of entry (
          "EffectType" ∷ "fetterID" ∷ "icon" ∷ "mapID" ∷ "planID" ∷ "setID" ∷ "sort" ∷ "tftEquipId"
          ∷ []);
    })

  -- The body of the second loop over `equip`.
  unfoldable pub build_recipe : List String → String → Json → Checked (List EquipmentRecipeData)
  build_recipe ids key value = do
    entry ← as_object value
    first ← optional_string py entry "synthesis1"
    second ← optional_string py entry "synthesis2"
    recipe_of ids key (component first (component second []))

  unfoldable pub build_equipment :
      RawSnapshot → Checked (List EquipmentData × List EquipmentRecipeData)
  build_equipment raw = do
    records ← data_of raw "equip"
    result ← each build_item records
    recipes ← each (build_recipe (map (λ e. e.external_id) result)) records
    ok (result, concat recipes)

  unfoldable pub build_augment : String → Json → Checked AugmentData
  build_augment key value = do
    entry ← as_object value
    external_id ← ensure_key_matches_id py key entry "id"
    name ← required_string py entry "name"
    level ← integer py false (get "level" entry)
    description ← optional_string py entry "desc"
    icon_url ← optional_string py entry "icon"
    ok (record {
      external_id = external_id;
      name = name;
      level = level;
      description = description;
      icon_url = icon_url;
      source_attributes =
          source_attributes_of entry
            ("is_legend" ∷ "hero_enhancement_type" ∷ "fetterId" ∷ "fetterType" ∷ []);
    })

  unfoldable pub build_augments : RawSnapshot → Checked (List AugmentData)
  build_augments raw = do records ← data_of raw "hex"; each build_augment records

  unfoldable pub build_adventure : String → Json → Checked AdventureData
  build_adventure key value = do
    entry ← as_object value
    external_id ← required_id py entry "adventureId"
    title ← required_string py entry "title"
    description ← optional_string py entry "desc"
    price ← integer py false (get "price" entry)
    category ← optional_string py entry "category"
    logo_url ← optional_string py entry "logo"
    video_url ← optional_string py entry "video"
    background_image_url ← optional_string py entry "bgImage"
    ok (record {
      external_id = external_id;
      title = title;
      description = description;
      price = price;
      category = category;
      logo_url = logo_url;
      video_url = video_url;
      background_image_url = background_image_url;
      source_attributes = source_attributes_of entry ("remark" ∷ []);
    })

  unfoldable pub build_adventures : RawSnapshot → Checked (List AdventureData)
  build_adventures raw = do records ← data_of raw "adventure"; each build_adventure records

  unfoldable pub build_galaxy : String → Json → Checked GalaxyData
  build_galaxy key value = do
    entry ← as_object value
    external_id ← ensure_key_matches_id py key entry "id"
    name ← required_string py entry "name"
    description ← optional_string py entry "desc"
    logo_url ← optional_string py entry "logo"
    video_url ← optional_string py entry "video"
    background_image_url ← optional_string py entry "bgImage"
    ok (record {
      external_id = external_id;
      name = name;
      description = description;
      logo_url = logo_url;
      video_url = video_url;
      background_image_url = background_image_url;
      source_attributes = source_attributes_of entry ("country" ∷ []);
    })

  unfoldable pub build_galaxies : RawSnapshot → Checked (List GalaxyData)
  build_galaxies raw = do records ← data_of raw "galaxy"; each build_galaxy records
