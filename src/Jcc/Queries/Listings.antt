-- ===== src/Jcc/Queries/Listings.antt =====
-- app/jcc_data/repository.py: the lists of traits, equipment, augments, adventures and galaxies.
use tsuz_api_jcc.Base.{
  ℕ, String, Bool, ◌&&◌, Option, none, some, List, [], ◌∷◌, ◌++◌, length, contains, map, ◌==◌,
  string_eq, nat_eq, option_eq, all,
}
use tsuz_api_jcc.Base.Dict
use tsuz_api_jcc.Base.Dict.{Dict}
use tsuz_api_jcc.Base.Int.{ℤ, leb_ℤ}
use tsuz_api_jcc.Base.Query.{then_by, select, page, join, blank, absorb}
use tsuz_api_jcc.Base.Result.{ok, ◌>>=◌}
use tsuz_api_jcc.Jcc.Adapters.Data.{
  TraitKind, race, job, kind_eq, int_eq, TraitTierData, TraitData, EquipmentData, AugmentData,
  AdventureData, GalaxyData,
}
use tsuz_api_jcc.Jcc.Store.{Row, Table, RecipeRow, Store}
use tsuz_api_jcc.Jcc.Queries.{
  Database, TraitWithTiers, EquipmentWithComponents, SnapshotListResult, Answer,
  required_current_snapshot, if_given, each, found, by_ℕ, stable_order,
}

-- The text that the column `kind` holds.
abbrev pub kind_text : TraitKind → String
kind_text race = "race"
kind_text job = "job"

module _ (db : Database) where
  unfoldable pub tier_order : Row TraitTierData → Row TraitTierData → Bool
  tier_order = then_by (by_ℕ (λ t. t.owner)) (
      then_by (λ a b. leb_ℤ a.value.tier_order b.value.tier_order)
        (λ a b. db.text_le a.value.external_id b.value.external_id))

  -- `_load_trait_tiers`
  unfoldable pub load_trait_tiers : List ℕ → Store → Answer (Dict ℕ (List (Row TraitTierData)))
  unfolding absorb blank tier_order
  load_trait_tiers trait_ids s = found (
      absorb (λ (t : Row TraitTierData). t.owner) (λ ts t. ts ++ t ∷ [])
        (select (λ t. contains trait_ids t.owner) tier_order s.tiers.rows) (blank [] trait_ids))

  abbrev pub trait_with : Row TraitData → List (Row TraitTierData) → TraitWithTiers
  trait_with t tiers = record { trait = t; tiers = tiers }

  unfoldable pub traits_with_tiers : List (Row TraitData) → Store → Answer (List TraitWithTiers)
  unfolding load_trait_tiers
  traits_with_tiers traits s = do
    tiers ← load_trait_tiers (map (λ t. t.id) traits) s
    each (λ t. do ts ← found (Dict.lookup t.id tiers); ok (trait_with t ts)) traits

  unfoldable pub trait_matches : ℕ → Option TraitKind → Option String → Row TraitData → Bool
  unfolding kind_eq
  trait_matches snapshot_id kind name t =
      t.owner == snapshot_id
      && if_given kind (λ k. t.value.kind == k)
      && if_given name (db.contains_text t.value.name)

  unfoldable pub trait_order : Row TraitData → Row TraitData → Bool
  unfolding stable_order
  trait_order =
      then_by (stable_order db (λ t. t.value.external_id))
        (λ a b. db.text_le (kind_text a.value.kind) (kind_text b.value.kind))

  abbrev pub matching_traits : ℕ → Option TraitKind → Option String → Store → List (Row TraitData)
  matching_traits snapshot_id kind name s =
      select (trait_matches snapshot_id kind name) trait_order s.traits.rows

  unfoldable pub list_current_traits :
      String
      → Option TraitKind
      → Option String
      → ℕ
      → ℕ
      → Store
      → Answer (SnapshotListResult TraitWithTiers)
  unfolding traits_with_tiers trait_matches trait_order
  list_current_traits mode kind name limit offset s = do
    r ← required_current_snapshot mode s
    let all_traits = matching_traits r.id kind name s
    let traits = page limit offset all_traits
    items ← traits_with_tiers traits s
    ok (record { snapshot = r; items = items; total = length all_traits })

  -- A recipe with its two components.
  abbrev pub Recipe : Type 0
  Recipe = (Row RecipeRow × Row EquipmentData) × Row EquipmentData

  abbrev pub recipes : Store → List Recipe
  recipes s =
      join
        (λ (r, _) second.
          second.id == r.value.second_component_equipment_id && second.owner == r.owner)
        (join
          (λ r first. first.id == r.value.first_component_equipment_id && first.owner == r.owner)
          s.recipes.rows s.equipment.rows)
        s.equipment.rows

  abbrev pub recipe_key : Recipe → ℕ
  recipe_key ((r, _), _) = r.value.equipment_id

  abbrev pub recipe_of : ℕ → List ℕ → Recipe → Bool
  recipe_of snapshot_id equipment_ids ((r, _), _) =
      r.owner == snapshot_id && contains equipment_ids r.value.equipment_id

  abbrev pub components_of : List (Row EquipmentData) → Recipe → List (Row EquipmentData)
  components_of _ ((_, first), second) = first ∷ second ∷ []

  -- `_load_equipment_components`
  unfoldable pub load_equipment_components :
      ℕ → List ℕ → Store → Answer (Dict ℕ (List (Row EquipmentData)))
  unfolding absorb blank
  load_equipment_components snapshot_id equipment_ids s = found (
      absorb recipe_key components_of
        (select (recipe_of snapshot_id equipment_ids) (by_ℕ recipe_key) (recipes s))
        (blank [] equipment_ids))

  abbrev pub equipment_with : Row EquipmentData → List (Row EquipmentData) → EquipmentWithComponents
  equipment_with e components = record { equipment = e; components = components }

  unfoldable pub equipment_with_components :
      ℕ → List (Row EquipmentData) → Store → Answer (List EquipmentWithComponents)
  unfolding load_equipment_components
  equipment_with_components snapshot_id equipment s = do
    components ← load_equipment_components snapshot_id (map (λ e. e.id) equipment) s
    each (λ e. do cs ← found (Dict.lookup e.id components); ok (equipment_with e cs)) equipment

  unfoldable pub equipment_matches : ℕ → Option String → Option String → Row EquipmentData → Bool
  unfolding option_eq
  equipment_matches snapshot_id name equipment_type e =
      e.owner == snapshot_id
      && if_given name (db.contains_text e.value.name)
      && if_given equipment_type (λ k. e.value.equipment_type == some k)

  abbrev pub matching_equipment :
      ℕ → Option String → Option String → Store → List (Row EquipmentData)
  matching_equipment snapshot_id name equipment_type s =
      select (equipment_matches snapshot_id name equipment_type)
        (stable_order db (λ e. e.value.external_id)) s.equipment.rows

  unfoldable pub list_current_equipment :
      String
      → Option String
      → Option String
      → ℕ
      → ℕ
      → Store
      → Answer (SnapshotListResult EquipmentWithComponents)
  unfolding equipment_with_components equipment_matches stable_order
  list_current_equipment mode name equipment_type limit offset s = do
    r ← required_current_snapshot mode s
    let all_equipment = matching_equipment r.id name equipment_type s
    let equipment = page limit offset all_equipment
    items ← equipment_with_components r.id equipment s
    ok (record { snapshot = r; items = items; total = length all_equipment })

  -- `_list_current_simple_entities`, on the table of a model.
  unfoldable pub list_current_simple_entities :
      {A : Type 0}
      → (Store → Table A)
      → (A → String)
      → String
      → List (Row A → Bool)
      → ℕ
      → ℕ
      → Store
      → Answer (SnapshotListResult (Row A))
  unfolding stable_order
  list_current_simple_entities table external_id mode filters limit offset s = do
    r ← required_current_snapshot mode s
    let rows =
        select (λ e. e.owner == r.id && all (λ p. p e) filters)
          (stable_order db (λ e. external_id e.value)) (table s).rows
    ok (record { snapshot = r; items = page limit offset rows; total = length rows })

  abbrev pub given_filter : {A B : Type 0} → (A → B → Bool) → Option A → List (B → Bool)
  given_filter p none = []
  given_filter p (some a) = p a ∷ []

  unfoldable pub list_current_augments :
      String
      → Option String
      → Option ℤ
      → ℕ
      → ℕ
      → Store
      → Answer (SnapshotListResult (Row AugmentData))
  unfolding list_current_simple_entities option_eq int_eq
  list_current_augments mode name level =
      list_current_simple_entities (λ s. s.augments) (λ a. a.external_id) mode
        (given_filter (λ n a. db.contains_text a.value.name n) name
          ++ given_filter (λ l a. a.value.level == some l) level)

  unfoldable pub list_current_adventures :
      String
      → Option String
      → Option ℤ
      → ℕ
      → ℕ
      → Store
      → Answer (SnapshotListResult (Row AdventureData))
  unfolding list_current_simple_entities option_eq int_eq
  list_current_adventures mode title price =
      list_current_simple_entities (λ s. s.adventures) (λ a. a.external_id) mode
        (given_filter (λ t a. db.contains_text a.value.title t) title
          ++ given_filter (λ p a. a.value.price == some p) price)

  unfoldable pub list_current_galaxies :
      String → Option String → ℕ → ℕ → Store → Answer (SnapshotListResult (Row GalaxyData))
  unfolding list_current_simple_entities
  list_current_galaxies mode name =
      list_current_simple_entities (λ s. s.galaxies) (λ g. g.external_id) mode
        (given_filter (λ n g. db.contains_text g.value.name n) name)
