-- ===== src/Tests/Queries.antt =====
-- The lists of the current snapshot, at a concrete store.
use Prim.Native.Char.{Char, code}
use mathlib.Core.Path.{subst}
use text.Mathlib.TextEquality.{Char-path}
use tsuz_api_jcc.Base.{
  ℕ, ◌*◌, ◌≤◌, String, true, false, none, some, [], ◌∷◌, map, length, All, ◌≡◌, refl, ap, arith,
  string_eq, nat_eq,
}
use tsuz_api_jcc.Base.Dict
use tsuz_api_jcc.Base.Int.{pos}
use tsuz_api_jcc.Base.Query.{page, pages, sort_by, IsOrdered, blank, absorb}
use tsuz_api_jcc.Base.Result.{ok}
use tsuz_api_jcc.Jcc.Adapters.Data.{race, HeroData, EquipmentData}
use tsuz_api_jcc.Jcc.Store.{Row, SnapshotRow, Store}
use tsuz_api_jcc.Jcc.Queries.{
  Database, HeroFilters, matching_heroes, hero_matches, list_current_heroes, current_snapshot,
  EquipmentWithComponents, SnapshotListResult, stable_order, get_current_resource_counts,
}
use tsuz_api_jcc.Jcc.Queries.Listings.{
  matching_traits, list_current_traits, matching_equipment, list_current_equipment,
  equipment_with_components, load_equipment_components, equipment_matches,
}
use tsuz_api_jcc.Jcc.Queries.Answers.{answer, hero_answer}
use tsuz_api_jcc.Jcc.Queries.Pages.{
  items_of, IsTextOrder, apart, IsListing, matching-IsListing, list_current_heroes-pages,
}
use tsuz_api_jcc.Jcc.Queries.Details.{trait_answer, list_current_traits-answer}
use tsuz_api_jcc.Jcc.Queries.Recipes.{IsMade, list_current_equipment-IsMade}
use tsuz_api_jcc.Jcc.Queries.Counts.{resource_counts, import_snapshot-counts}
use tsuz_api_jcc.Sync.Payloads.{text_le}
use tsuz_api_jcc.Tests.Official
use tsuz_api_jcc.Tests.Official.{py, nothing, incoming, stored, mage, nothing-IsWell, imports}

text_le_total : (s t : String) → text_le s t ≡ false → text_le t s ≡ true
unfolding text_le
text_le_total String.[] t h = cc
text_le_total (String.◌∷◌ c s) String.[] h = refl
text_le_total (String.◌∷◌ c s) (String.◌∷◌ d t) h = ground (arith, h, text_le_total s t)

text_le_trans : (s t u : String) → text_le s t ≡ true → text_le t u ≡ true → text_le s u ≡ true
unfolding text_le
text_le_trans String.[] t u h k = refl
text_le_trans (String.◌∷◌ c s) String.[] u h k = cc
text_le_trans (String.◌∷◌ c s) (String.◌∷◌ d t) String.[] h k = cc
text_le_trans (String.◌∷◌ c s) (String.◌∷◌ d t) (String.◌∷◌ e u) h k =
    ground (arith, h, k, text_le_trans s t u)

text_le_parts :
    (c d : Char) (s t : String)
    → text_le (String.◌∷◌ c s) (String.◌∷◌ d t) ≡ true
    → text_le (String.◌∷◌ d t) (String.◌∷◌ c s) ≡ true
    → (code c ≡ code d) × (text_le s t ≡ true) × (text_le t s ≡ true)
unfolding text_le
text_le_parts c d s t h k = ground (arith, h, k)

text_le_antisym : (s t : String) → text_le s t ≡ true → text_le t s ≡ true → s ≡ t
unfolding text_le
text_le_antisym String.[] String.[] h k = refl
text_le_antisym String.[] (String.◌∷◌ d t) h k = cc
text_le_antisym (String.◌∷◌ c s) String.[] h k = cc
text_le_antisym (String.◌∷◌ c s) (String.◌∷◌ d t) h k =
    let (e, l, m) = text_le_parts c d s t h k in
    subst (λ x. String.◌∷◌ c s ≡ String.◌∷◌ x t) (Char-path c d e)
      (ap (String.◌∷◌ c) (text_le_antisym s t l m))

-- A database that orders texts by their characters.
abbrev db : Database
db = record { text_le = text_le; contains_text = λ _ _. true }

db-IsTextOrder : IsTextOrder db.text_le
db-IsTextOrder = record { total = text_le_total; trans = text_le_trans; antisym = text_le_antisym }

abbrev hero : String → HeroData
hero external_id = record {
  external_id = external_id;
  name = "hero";
  price = some (pos 2);
  hero_type = none;
  map_id = none;
  health = none;
  attack_damage = none;
  armor = none;
  magic_resist = none;
  attack_speed = none;
  attack_range = none;
  initial_mana = none;
  max_mana = none;
  skill_name = none;
  skill_description = none;
  skill_values = none;
  image_url = none;
  skill_icon_url = none;
  source_attributes = [];
}

abbrev row : SnapshotRow
row = record { id = 1; value = incoming.metadata; version_start_time = none; imported_at = 5 }

abbrev shown : Store
shown = record nothing {
  snapshots = row ∷ [];
  current = record { mode = "17"; snapshot_id = 1; updated_at = 6 } ∷ [];
  heroes = record {
    next = 3;
    rows =
        record { id = 1; owner = 1; value = hero "10" }
        ∷ record { id = 2; owner = 1; value = hero "9" }
        ∷ [];
  };
  traits = record { next = 2; rows = record { id = 1; owner = 1; value = mage } ∷ [] };
  hero_traits = record {
    next = 2;
    rows =
        record {
          id = 1;
          owner = 1;
          value = record { hero_id = 2; trait_id = 1; relation_kind = race; position = 0 };
        }
        ∷ [];
  };
}

abbrev everyone : HeroFilters db
everyone = record { name = some "he"; trait_id = none; class_id = none; price = none }

now : current_snapshot "17" shown ≡ some row
unfolding current_snapshot string_eq nat_eq
now = refl

enough : length (matching_heroes db 1 everyone shown) ≤ 2 * 1
unfolding hero_matches sort_by nat_eq stable_order text_le
enough = omega arith

shown_unique : IsOrdered apart shown.heroes.rows
unfolding nat_eq string_eq
shown_unique = ((refl, tt), (tt, tt))

listed : IsListing db 1 everyone shown (matching_heroes db 1 everyone shown)
listed = matching-IsListing db db-IsTextOrder 1 everyone shown shown_unique

list_current_heroes-pages_example :
    ((o : ℕ)
      → items_of (list_current_heroes db "17" everyone 1 o shown)
        ≡ map (hero_answer db 1 shown) (page 1 o (matching_heroes db 1 everyone shown)))
    × (pages (λ o. page 1 o (matching_heroes db 1 everyone shown)) 1 0 2
        ≡ matching_heroes db 1 everyone shown)
list_current_heroes-pages_example =
    list_current_heroes-pages db db-IsTextOrder 1 everyone shown "17" 1 2 row
      (λ _. matching_heroes db 1 everyone shown) now refl shown_unique (λ _. listed) enough

list_current_traits-answer_example :
    list_current_traits db "17" (some race) none 5 0 shown
    ≡ answer "17" shown (λ i.
      let traits = matching_traits db i (some race) none shown in
      (map (trait_answer db shown) (page 5 0 traits), length traits))
list_current_traits-answer_example = list_current_traits-answer db "17" (some race) none 5 0 shown

abbrev piece : String → EquipmentData
piece external_id = record {
  external_id = external_id;
  name = "piece";
  equipment_type = none;
  basic_description = none;
  description = none;
  image_url = none;
  source_attributes = [];
}

-- A sword, a bow, and a blade that is made of the two.
abbrev armed : Store
armed = record shown {
  equipment = record {
    next = 4;
    rows =
        record { id = 1; owner = 1; value = piece "1" }
        ∷ record { id = 2; owner = 1; value = piece "2" }
        ∷ record { id = 3; owner = 1; value = piece "3" }
        ∷ [];
  };
  recipes = record {
    next = 2;
    rows =
        record {
          id = 1;
          owner = 1;
          value = record {
            equipment_id = 3;
            first_component_equipment_id = 1;
            second_component_equipment_id = 2;
          };
        }
        ∷ [];
  };
}

abbrev stands : ℕ → String → Row EquipmentData
stands i external_id = record { id = i; owner = 1; value = piece external_id }

abbrev listed_equipment : SnapshotListResult EquipmentWithComponents
listed_equipment = record {
  snapshot = row;
  items =
      record { equipment = stands 1 "1"; components = [] }
      ∷ record { equipment = stands 2 "2"; components = [] }
      ∷ record { equipment = stands 3 "3"; components = stands 1 "1" ∷ stands 2 "2" ∷ [] }
      ∷ [];
  total = 3;
}

made : list_current_equipment db "17" none none 5 0 armed ≡ ok listed_equipment
unfolding list_current_equipment equipment_with_components load_equipment_components
    equipment_matches current_snapshot stable_order text_le sort_by blank absorb Dict.lookup
    Dict.insert string_eq nat_eq
made = refl

list_current_equipment-IsMade_example :
    let equipment = matching_equipment db listed_equipment.snapshot.id none none armed in
    (map (λ (x : EquipmentWithComponents). x.equipment) listed_equipment.items ≡ page 5 0 equipment)
    × (listed_equipment.total ≡ length equipment)
    × All (IsMade listed_equipment.snapshot.id armed) listed_equipment.items
list_current_equipment-IsMade_example =
    list_current_equipment-IsMade db "17" none none 5 0 armed listed_equipment made

import_snapshot-counts_example :
    (found : SnapshotRow) × (found.id ≡ Official.answer.snapshot_id)
    × (get_current_resource_counts incoming.metadata.mode stored
        ≡ ok (found, resource_counts incoming))
import_snapshot-counts_example =
    import_snapshot-counts py 5 6 false incoming nothing stored Official.answer nothing-IsWell
      imports
