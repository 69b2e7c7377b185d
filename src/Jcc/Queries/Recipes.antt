-- ===== src/Jcc/Queries/Recipes.antt =====
-- app/jcc_data/repository.py: the components that the list of equipment gives are those of a recipe's row.
use mathlib.Core.Path.{subst}
use tsuz_api_jcc.Base.{
  ℕ, String, Option, List, [], ◌∷◌, All, length, map, nat_eq, ◌≡◌, ◌⊎◌, inl, inr, refl, sym, ap,
  ◌∙◌, arith,
}
use tsuz_api_jcc.Base.Members.{
  Has, Has-keep, keep-Has, Has-sort_by, sort_by-Has, Has-join, join-Has,
}
use tsuz_api_jcc.Base.Query.{select, page, fold}
use tsuz_api_jcc.Base.Result.{ok, ok_injective, >>=-eq-ok}
use tsuz_api_jcc.Jcc.Adapters.Data.{EquipmentData}
use tsuz_api_jcc.Jcc.Store.{Row, RecipeRow, Store}
use tsuz_api_jcc.Jcc.Queries.{
  Database, EquipmentWithComponents, SnapshotListResult, by_ℕ, required_current_snapshot,
}
use tsuz_api_jcc.Jcc.Queries.Listings.{
  Recipe, recipes, recipe_key, components_of, matching_equipment, list_current_equipment,
}
use tsuz_api_jcc.Jcc.Queries.Details.{own_recipe, equipment_answer, list_current_equipment-answer}

-- The row says that `e` is made of `a` and `b`, all in one snapshot.
abbrev pub Makes :
    ℕ → Store → Row EquipmentData → Row RecipeRow → Row EquipmentData → Row EquipmentData → Type 0
Makes snapshot_id s e r a b =
    Has s.recipes.rows r
    × Has s.equipment.rows a
    × Has s.equipment.rows b
    × (r.owner ≡ snapshot_id)
    × (r.value.equipment_id ≡ e.id)
    × (a.id ≡ r.value.first_component_equipment_id)
    × (a.owner ≡ snapshot_id)
    × (b.id ≡ r.value.second_component_equipment_id)
    × (b.owner ≡ snapshot_id)

-- The components are the two that a recipe's row names, in its order; or there are none, and no row names any.
abbrev pub IsMade : ℕ → Store → EquipmentWithComponents → Type 0
IsMade snapshot_id s x =
    ((r : Row RecipeRow) × (a : Row EquipmentData) × (b : Row EquipmentData) × (x.components
        ≡ a ∷ b ∷ [])
      × Makes snapshot_id s x.equipment r a b)
    ⊎ ((x.components ≡ [])
        × ((r : Row RecipeRow) (a b : Row EquipmentData) → ¬ Makes snapshot_id s x.equipment r a b))

module _ (db : Database) where
  fold-last :
      (rs : List (Recipe db)) (v : List (Row EquipmentData))
      → ((rs ≡ []) × (fold (components_of db) v rs ≡ v))
        ⊎ ((q : Recipe db) × Has rs q × (fold (components_of db) v rs ≡ q.0.1 ∷ q.1 ∷ []))
  fold-last [] v = inl (refl, refl)
  fold-last (q ∷ rs) v = elim (fold-last rs (q.0.1 ∷ q.1 ∷ [])) [
    | inl (_, e) ↦ inr (q, inl refl, e)
    | inr (p, h, e) ↦ inr (p, inr h, e)
  ]

  recipe-Makes :
      (snapshot_id : ℕ) (s : Store) (e : Row EquipmentData) (q : Recipe db)
      → Has (select (own_recipe db snapshot_id e) (by_ℕ (recipe_key db)) (recipes db s)) q
      → Makes snapshot_id s e q.0.0 q.0.1 q.1
  recipe-Makes snapshot_id s e q h =
      let (sorted, own) = keep-Has (own_recipe db snapshot_id e) _ q h in
      let (pair, second, t) =
        join-Has _ _ s.equipment.rows q
          (sort_by-Has (by_ℕ (recipe_key db)) (recipes db s) q sorted) in
      let (row, first, u) = join-Has _ s.recipes.rows s.equipment.rows q.0 pair in
      (
        row,
        first,
        second,
        ground (arith, own),
        ground (arith, own),
        ground (arith, u),
        ground (arith, own, u),
        ground (arith, t),
        ground (arith, own, t),
      )

  Makes-recipe :
      (snapshot_id : ℕ) (s : Store) (e : Row EquipmentData) (r : Row RecipeRow)
      (a b : Row EquipmentData)
      → Makes snapshot_id s e r a b
      → Has (select (own_recipe db snapshot_id e) (by_ℕ (recipe_key db)) (recipes db s)) ((r, a), b)
  Makes-recipe snapshot_id s e r a b (row, first, second, o, k, i, p, j, q) =
      Has-keep (own_recipe db snapshot_id e) _ ((r, a), b)
        (Has-sort_by (by_ℕ (recipe_key db)) (recipes db s) ((r, a), b)
          (Has-join _ _ s.equipment.rows (r, a) b
            (Has-join _ s.recipes.rows s.equipment.rows r a row first (ground (arith, i, p, o)))
            second (ground (arith, j, q, o))))
        (ground (arith, o, k))

  equipment_answer-IsMade :
      (snapshot_id : ℕ) (s : Store) (e : Row EquipmentData)
      → IsMade snapshot_id s (equipment_answer db snapshot_id s e)
  equipment_answer-IsMade snapshot_id s e =
      let rs = select (own_recipe db snapshot_id e) (by_ℕ (recipe_key db)) (recipes db s) in
      elim (fold-last rs []) [
        | inl (none_there, c) ↦ inr (
          c,
          λ r a b m.
              subst (λ l. Has l ((r, a), b)) none_there (Makes-recipe snapshot_id s e r a b m),
        )
        | inr (q, h, c) ↦ inl (q.0.0, q.0.1, q.1, c, recipe-Makes snapshot_id s e q h)
      ]

  All-answers :
      (snapshot_id : ℕ) (s : Store) (es : List (Row EquipmentData))
      → All (IsMade snapshot_id s) (map (equipment_answer db snapshot_id s) es)
  All-answers snapshot_id s [] = tt
  All-answers snapshot_id s (e ∷ es) =
      (equipment_answer-IsMade snapshot_id s e, All-answers snapshot_id s es)

  map-equipment :
      (snapshot_id : ℕ) (s : Store) (es : List (Row EquipmentData))
      → map
          (λ (x : EquipmentWithComponents). x.equipment)
          (map (equipment_answer db snapshot_id s) es)
        ≡ es
  map-equipment snapshot_id s [] = refl
  map-equipment snapshot_id s (e ∷ es) = ap (◌∷◌ e) (map-equipment snapshot_id s es)

  -- The list of equipment has a page of the pieces of the current snapshot that the filters leave, with their number. Each
  -- has the first and the second component that a row of the recipes of the snapshot names for it, found in the
  -- snapshot's equipment; it has none only if no row names two that are found there.
  pub list_current_equipment-IsMade :
      (mode : String) (name equipment_type : Option String) (limit offset : ℕ) (s : Store)
      (result : SnapshotListResult EquipmentWithComponents)
      → list_current_equipment db mode name equipment_type limit offset s ≡ ok result
      → let equipment = matching_equipment db result.snapshot.id name equipment_type s in
        (map (λ (x : EquipmentWithComponents). x.equipment) result.items
          ≡ page limit offset equipment)
        × (result.total ≡ length equipment)
        × All (IsMade result.snapshot.id s) result.items
  list_current_equipment-IsMade mode name equipment_type limit offset s result h =
      let (r, _, e) =
        >>=-eq-ok (required_current_snapshot mode s) _
          (sym (list_current_equipment-answer db mode name equipment_type limit offset s) ∙ h) in
      subst
        (λ (x : SnapshotListResult EquipmentWithComponents).
          let equipment = matching_equipment db x.snapshot.id name equipment_type s in
          (map (λ (y : EquipmentWithComponents). y.equipment) x.items ≡ page limit offset equipment)
          × (x.total ≡ length equipment)
          × All (IsMade x.snapshot.id s) x.items)
        (ok_injective _ result e)
        (
          map-equipment r.id s
              (page limit offset (matching_equipment db r.id name equipment_type s)),
          refl,
          All-answers r.id s (page limit offset (matching_equipment db r.id name equipment_type s)),
        )
