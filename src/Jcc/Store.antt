-- ===== src/Jcc/Store.antt =====
-- app/jcc_data/models.py and the writing operations of app/jcc_data/repository.py: the tables of the
-- snapshots, the import of a structured snapshot and the switch of the current one.

pub mod Current
pub mod Complete
pub mod Filled
pub mod Again
pub mod Resolves
mod Tables
use tsuz_api_jcc.Base.{
  ℕ, suc, ◌+◌, String, Bool, true, false, ◌&&◌, ◌||◌, not, Option, none, some, List, [], ◌∷◌, ◌++◌,
  any, find, keep, length, leb, contains, map, Eq, ◌==◌, string_eq, nat_eq, if◌then◌else◌,
}
use tsuz_api_jcc.Base.Dict
use tsuz_api_jcc.Base.Dict.{Dict}
use tsuz_api_jcc.Base.Int.{ℤ}
use tsuz_api_jcc.Base.Result.{Result, ok, err, ◌>>=◌, ◌>>◌, guard}
use tsuz_api_jcc.Jcc.Json.{Json, Builtins, to_str}
use tsuz_api_jcc.Jcc.Adapters.Data.{
  TraitKind, kind_eq, int_eq, key_eq, SnapshotData, HeroData, TraitTierData, TraitData,
  HeroTraitData, EquipmentData, EquipmentRecipeData, AugmentData, AdventureData, GalaxyData,
  StructuredSnapshot,
}
unfoldable pub use Tables.*

-- `_lock_current`: the row of the mode, locked until the transaction ends.
unfoldable pub lock_current : String → Store → Option CurrentSnapshot
lock_current mode s = find (λ c. c.mode == mode) s.current

-- The current row of the mode is added, or changed in place.
abbrev pub set_pointer : String → ℕ → ℕ → List CurrentSnapshot → List CurrentSnapshot
set_pointer mode snapshot_id now [] =
    record { mode = mode; snapshot_id = snapshot_id; updated_at = now } ∷ []
set_pointer mode snapshot_id now (c ∷ cs) =
    let rest = set_pointer mode snapshot_id now cs in
    if c.mode == mode
    then record c { snapshot_id = snapshot_id; updated_at = now } ∷ cs
    else c ∷ rest

unfoldable pub publish : String → ℕ → ℕ → Store → Store
publish mode snapshot_id now s = record s { current = set_pointer mode snapshot_id now s.current }

abbrev pub same_version : SnapshotData → SnapshotData → Bool
same_version a b = a.mode == b.mode && a.season == b.season && a.version == b.version

-- The snapshot of the same mode, season, version and content.
unfoldable pub existing_snapshot : SnapshotData → Store → Option SnapshotRow
existing_snapshot m s =
    find (λ r. same_version r.value m && r.value.content_hash == m.content_hash) s.snapshots

-- The tiers of the traits of a snapshot.
unfoldable pub count_tiers : ℕ → Store → ℕ
count_tiers i s =
    length (keep (λ t. any (λ r. r.id == t.owner && r.owner == i) s.traits.rows) s.tiers.rows)

abbrev pub sum_tiers : List TraitData → ℕ
sum_tiers [] = 0
sum_tiers (t ∷ ts) = length t.tiers + sum_tiers ts

-- `_snapshot_is_complete`, with `_expected_counts`
unfoldable pub snapshot_is_complete : ℕ → StructuredSnapshot → Store → Bool
snapshot_is_complete i incoming s =
    count i s.heroes == length incoming.heroes
    && count i s.traits == length incoming.traits
    && count i s.hero_traits == length incoming.hero_traits
    && count i s.equipment == length incoming.equipment
    && count i s.recipes == length incoming.equipment_recipes
    && count i s.augments == length incoming.augments
    && count i s.adventures == length incoming.adventures
    && count i s.galaxies == length incoming.galaxies
    && count_tiers i s == sum_tiers incoming.traits

-- What is inserted of a trait: its row has no tiers.
abbrev pub without_tiers : TraitData → TraitData
without_tiers t = record t { tiers = [] }

abbrev pub same_hero : HeroData → HeroData → Bool
same_hero a b = a.external_id == b.external_id

abbrev pub same_trait : TraitData → TraitData → Bool
same_trait a b = a.kind == b.kind && a.external_id == b.external_id

abbrev pub same_tier : TraitTierData → TraitTierData → Bool
same_tier a b = (a.tier_order == b.tier_order) || (a.level == b.level)

abbrev pub same_relation : HeroTraitRow → HeroTraitRow → Bool
same_relation a b = a.hero_id == b.hero_id && a.trait_id == b.trait_id

abbrev pub same_equipment : EquipmentData → EquipmentData → Bool
same_equipment a b = a.external_id == b.external_id

abbrev pub same_recipe : RecipeRow → RecipeRow → Bool
same_recipe a b = a.equipment_id == b.equipment_id

abbrev pub same_augment : AugmentData → AugmentData → Bool
same_augment a b = a.external_id == b.external_id

abbrev pub same_adventure : AdventureData → AdventureData → Bool
same_adventure a b = a.external_id == b.external_id

abbrev pub same_galaxy : GalaxyData → GalaxyData → Bool
same_galaxy a b = a.external_id == b.external_id

-- The traits of a snapshot, each with its tiers.
unfoldable pub add_traits :
    ℕ
    → List TraitData
    → Dict (TraitKind × String) ℕ
    → Table TraitData
    → Table TraitTierData
    → Result StoreError (Dict (TraitKind × String) ℕ × Table TraitData × Table TraitTierData)
unfolding add add_all Dict.insert
add_traits owner [] ids ts tiers = ok (ids, ts, tiers)
add_traits owner (x ∷ xs) ids ts tiers = do
  (i, ts) ← add same_trait owner (without_tiers x) ts
  tiers ← add_all same_tier i x.tiers tiers
  add_traits owner xs (Dict.insert (x.kind, x.external_id) i ids) ts tiers

-- The relations and the recipes, with the keys of what they refer to.
unfoldable pub resolve_relations :
    Dict String ℕ
    → Dict (TraitKind × String) ℕ
    → List HeroTraitData
    → Result StoreError (List HeroTraitRow)
unfolding key_of
resolve_relations hero_ids trait_ids [] = ok []
resolve_relations hero_ids trait_ids (r ∷ rs) = do
  h ← key_of hero_ids r.hero_external_id
  t ← key_of trait_ids (r.relation_kind, r.trait_external_id)
  rest ← resolve_relations hero_ids trait_ids rs
  ok (
      record { hero_id = h; trait_id = t; relation_kind = r.relation_kind; position = r.position }
      ∷ rest)

unfoldable pub resolve_recipes :
    Dict String ℕ → List EquipmentRecipeData → Result StoreError (List RecipeRow)
unfolding key_of
resolve_recipes ids [] = ok []
resolve_recipes ids (r ∷ rs) = do
  e ← key_of ids r.equipment_external_id
  a ← key_of ids r.first_component_external_id
  b ← key_of ids r.second_component_external_id
  rest ← resolve_recipes ids rs
  ok (
      record {
        equipment_id = e;
        first_component_equipment_id = a;
        second_component_equipment_id = b;
      }
      ∷ rest)

abbrev pub clashes : SnapshotData → SnapshotRow → Bool
clashes m r =
    same_version r.value m
    && ((r.value.revision == m.revision) || (r.value.content_hash == m.content_hash))

-- `str(value) if value is not None else None`
abbrev pub start_text : Builtins → Json → Option String
start_text py Json.null = none
start_text py v = some (to_str py v)

-- The insertion of the snapshot's own row.
unfoldable pub add_snapshot : Builtins → ℕ → SnapshotData → Store → Result StoreError (ℕ × Store)
add_snapshot py now m s =
    if leb 1 m.revision && not (any (clashes m) s.snapshots)
    then ok (
      s.next_snapshot,
      record s {
        next_snapshot = suc s.next_snapshot;
        snapshots =
            s.snapshots
            ++ record {
              id = s.next_snapshot;
              value = m;
              version_start_time = start_text py m.version_start_time;
              imported_at = now;
            }
              ∷ [];
      },
    )
    else err integrity

-- The insertion of all the entities of a snapshot.
unfoldable pub add_entities : ℕ → StructuredSnapshot → Store → Result StoreError Store
unfolding add_all add_keyed add_traits resolve_relations resolve_recipes
add_entities i incoming s = do
  (hero_ids, heroes) ← add_keyed same_hero (λ h. h.external_id) i incoming.heroes [] s.heroes
  (trait_ids, traits, tiers) ← add_traits i incoming.traits [] s.traits s.tiers
  relations ← resolve_relations hero_ids trait_ids incoming.hero_traits
  hero_traits ← add_all same_relation i relations s.hero_traits
  (equipment_ids, equipment) ←
      add_keyed same_equipment (λ e. e.external_id) i incoming.equipment [] s.equipment
  wanted ← resolve_recipes equipment_ids incoming.equipment_recipes
  recipes ← add_all same_recipe i wanted s.recipes
  augments ← add_all same_augment i incoming.augments s.augments
  adventures ← add_all same_adventure i incoming.adventures s.adventures
  galaxies ← add_all same_galaxy i incoming.galaxies s.galaxies
  ok (record s {
    heroes = heroes;
    traits = traits;
    tiers = tiers;
    hero_traits = hero_traits;
    equipment = equipment;
    recipes = recipes;
    augments = augments;
    adventures = adventures;
    galaxies = galaxies;
  })

abbrev pub result_of : Action → ℕ → ℕ → String → SnapshotData → ImportResult
result_of action i revision content_hash m = record {
  action = action;
  snapshot_id = i;
  mode = m.mode;
  version = m.version;
  revision = revision;
  content_hash = content_hash;
  source_updated_at = m.source_updated_at;
  season = m.season;
}

abbrev pub points_to : ℕ → Option CurrentSnapshot → Bool
points_to i none = false
points_to i (some c) = c.snapshot_id == i

-- The snapshot is in the store: it is made the current one, unless it is.
unfoldable pub republish :
    ℕ → StructuredSnapshot → SnapshotRow → Store → Result StoreError (ImportResult × Store)
unfolding snapshot_is_complete publish lock_current
republish now incoming existing s =
    let m = incoming.metadata in
    let answer = λ (a : Action).
      result_of a existing.id existing.value.revision existing.value.content_hash m in
    if not (snapshot_is_complete existing.id incoming s)
    then err incomplete
    else (if points_to existing.id (lock_current m.mode s)
        then ok (answer skipped, s)
        else ok (answer matched, publish m.mode existing.id now s))

-- `import_snapshot`, one transaction: `now` is read for the row, `now'` for the pointer.
unfoldable pub import_snapshot :
    Builtins → ℕ → ℕ → Bool → StructuredSnapshot → Store → Result StoreError (ImportResult × Store)
import_snapshot py now now' true incoming s = err active_transaction
import_snapshot py now now' false incoming s =
    let m = incoming.metadata in
    elim (existing_snapshot m s) [
      | some existing ↦ republish now' incoming existing s
      | none ↦ add_snapshot py now m s >>= λ (i, added). add_entities i incoming added >>= λ filled.
          ok (result_of updated i m.revision m.content_hash m, publish m.mode i now' filled)
    ]

unfoldable pub get_snapshot : String → ℕ → Store → Option SnapshotRow
get_snapshot mode snapshot_id s =
    find (λ r. r.id == snapshot_id && r.value.mode == mode) s.snapshots

-- `switch_current_snapshot`
unfoldable pub switch_current_snapshot : ℕ → Bool → String → ℕ → Store → Result StoreError Store
switch_current_snapshot now true mode snapshot_id s = err active_transaction
switch_current_snapshot now false mode snapshot_id s = elim (get_snapshot mode snapshot_id s) [
  | none ↦ err no_such_snapshot
  | some r ↦ ok (publish mode r.id now s)
]
